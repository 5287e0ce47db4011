-- ===== src/Dispatch/Laws.antt =====
-- The functions that the table has for the opcodes of a revision.
use tsc_vee.Base.{
  ℕ, ◌<◌, ◌≡◌, refl, Bool, true, false, not, ◌&&◌, ◌==◌, arith, all_below, all_below_lem,
}
use tsc_vee.Opcode
use tsc_vee.Gas.{gas_costs}
use tsc_vee.Block.{OpTableEntry}
use tsc_vee.Dispatch.{
  InstructionFn, op_undefined, opx_beginblock, unset, instruction_fn_table, get_op_table,
  is_undefined,
}

abbrev pub is_unset : InstructionFn → Bool
is_unset unset = true
is_unset f = false

abbrev pub is_begin : InstructionFn → Bool
is_begin opx_beginblock = true
is_begin f = false

abbrev pub is_op_undefined : InstructionFn → Bool
is_op_undefined op_undefined = true
is_op_undefined f = false

abbrev same : Bool → Bool → Bool
same true b = b
same false b = not b

same_lem : (a b : Bool) → same a b ≡ true → a ≡ b
same_lem a b h = ground arith

-- The three facts about one entry, as a test.
abbrev entry_fits : InstructionFn → Bool → ℕ → Bool
entry_fits fn none i =
    not (is_unset fn)
    && same (is_begin fn) (i == Opcode.op_jumpdest)
    && same (is_op_undefined fn) none

entry_fits_lem :
    (fn : InstructionFn) (none : Bool) (i : ℕ)
    → entry_fits fn none i ≡ true
    → (is_unset fn ≡ false)
      × (is_begin fn ≡ (i == Opcode.op_jumpdest))
      × (is_op_undefined fn ≡ none)
entry_fits_lem fn none i h = ground arith

module _ (opt : ℕ → OpTableEntry) where
  entries : ℕ → ℕ → Bool
  entries rev i = entry_fits (get_op_table opt rev i).fn (is_undefined (gas_costs rev i)) i

  entries_fit : all_below 12 (λ rev. all_below 256 (entries rev)) ≡ true
  unfolding entries get_op_table instruction_fn_table gas_costs
  entries_fit = refl

  -- For a revision before Cancun and an opcode below 256 the table has a function; it is the
  -- start of a block exactly for JUMPDEST, and that of undefined instructions exactly where the
  -- table of gas costs has -1.
  pub get_op_table-fn :
      (rev i : ℕ)
      → rev < 12
      → i < 256
      → (is_unset (get_op_table opt rev i).fn ≡ false)
        × (is_begin (get_op_table opt rev i).fn ≡ (i == Opcode.op_jumpdest))
        × (is_op_undefined (get_op_table opt rev i).fn ≡ is_undefined (gas_costs rev i))
  unfolding entries
  get_op_table-fn rev i lr li =
      let row = all_below_lem 12 (λ r. all_below 256 (entries r)) entries_fit rev lr in
      entry_fits_lem _ _ i (all_below_lem 256 (entries rev) row i li)
