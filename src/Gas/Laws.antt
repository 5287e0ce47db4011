-- ===== src/Gas/Laws.antt =====
-- The gas table beside the table of traits.
use tsc_vee.Base.{
  ℕ, ◌<◌, ◌≡◌, refl, Bool, true, false, not, ◌&&◌, Option, none, some, leb, ◌==◌, arith, all_below,
  all_below_lem,
}
use tsc_vee.Base.Int.{leb_ℤ, pos}
use tsc_vee.Opcode.{op_mstore8}
use tsc_vee.Traits.{Traits, traits}
use tsc_vee.Gas.{gas_costs}

-- The revision has the instruction, by the table of traits.
abbrev pub available : Option Traits → ℕ → Bool
available none rev = false
available (some t) rev = leb t.since rev

abbrev pub has_cost : ℕ → ℕ → Bool
has_cost rev i = leb_ℤ (pos 0) (gas_costs rev i)

abbrev pub expected : ℕ → ℕ → Bool
expected rev i = available (traits i) rev && not (i == op_mstore8)

abbrev same : Bool → Bool → Bool
same true b = b
same false b = not b

same_lem : (a b : Bool) → same a b ≡ true → a ≡ b
same_lem a b h = ground arith

rows_agree :
    all_below 12 (λ rev. all_below 256 (λ i. same (has_cost rev i) (expected rev i))) ≡ true
unfolding gas_costs traits
rows_agree = refl

-- For a revision up to Shanghai and an opcode below 256, the gas table has a cost exactly when
-- the table of traits has the instruction and dates it to the revision or before, and it is not
-- MSTORE8.
pub gas_costs-defined :
    (rev i : ℕ)
    → rev < 12
    → i < 256
    → has_cost rev i ≡ (available (traits i) rev && not (i == op_mstore8))
gas_costs-defined rev i lr li =
    let row =
      all_below_lem 12 (λ r. all_below 256 (λ j. same (has_cost r j) (expected r j))) rows_agree rev
        lr in
    same_lem _ _ (all_below_lem 256 (λ j. same (has_cost rev j) (expected rev j)) row i li)
