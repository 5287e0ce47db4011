-- ===== src/Analysis/Jumpdests.antt =====
-- The jump destinations of a program, by a definition that knows nothing of blocks, and those that
-- `analyze` records.
use native.Mathlib.Decide.{dec_lt}
use mathlib.Core.List.{append_assoc, append-nil}
use tsc_vee.Base.{
  ℕ, zero, suc, ◌+◌, ◌-◌, ◌≤◌, ◌<◌, ◌≡◌, refl, sym, ap, ◌∙◌, min, Bool, true, false, ◌||◌,
  if◌then◌else◌, ◌==◌, List, [], ◌∷◌, ◌++◌, map, length, drop, some, arith,
}
use tsc_vee.Opcode
use tsc_vee.Bytes.{byte_at}
use tsc_vee.Block.{OpTableEntry}
use tsc_vee.Dispatch.{OpTableSlot, get_op_table}
use tsc_vee.Analysis.{
  Progress, any_small_push, any_large_push, next_pos, analyze_body, analyze_start, analyze_end,
  analyze_loop, analyze, int32,
}
use tsc_vee.Analysis.Code.{drop_at, drop_all, analyze_loop_lem}

-- The bytes that follow an instruction as its value.
abbrev pub push_length : ℕ → ℕ
push_length opcode =
    if any_small_push opcode || any_large_push opcode then opcode - Opcode.op_push1 + 1 else 0

-- The positions of the JUMPDEST instructions: the bytes 0x5b that are no part of the value of a push.
-- The first argument counts the bytes of a value that are still to come.
abbrev pub valid_jumpdests : ℕ → ℕ → List ℕ → List ℕ
valid_jumpdests skip p [] = []
valid_jumpdests zero p (b ∷ code) =
    let rest = valid_jumpdests (push_length b) (suc p) code in
    if b == Opcode.op_jumpdest then p ∷ rest else rest
valid_jumpdests (suc skip) p (b ∷ code) = valid_jumpdests skip (suc p) code

module _ (code : List ℕ) where
  abbrev from : ℕ → List ℕ
  from p = valid_jumpdests 0 p (drop p code)

  -- Skipped bytes hold no jump destination.
  skipped :
      (k p q : ℕ)
      → p ≤ length code
      → q ≡ min (p + k) (length code)
      → valid_jumpdests k p (drop p code) ≡ from q
  skipped zero p q le e = let same : q ≡ p = omega arith in ap from (sym same)
  skipped (suc k) p q le e = elim (dec_lt p (length code)) [
    | no ge ↦ let same : q ≡ p = omega arith in rw same (rw (drop_all code p (omega arith)))
    | yes lt ↦ rw (drop_at code p lt) (skipped k (suc p) q lt (omega arith))
  ]

  abbrev here : ℕ → ℕ → List ℕ
  here opcode p = if opcode == Opcode.op_jumpdest then p ∷ [] else []

  module _ (table : ℕ → OpTableSlot) where
    pub next_skips :
        (opcode p : ℕ)
        → p < length code
        → next_pos table code opcode p ≡ min (suc p + push_length opcode) (length code)
    unfolding next_pos
    next_skips opcode p lt = ground arith

    from-step :
        (p : ℕ)
        → p < length code
        → from p ≡ here (byte_at code p) p ++ from (next_pos table code (byte_at code p) p)
    from-step p lt =
        let b = byte_at code p in
        let s = skipped (push_length b) (suc p) (next_pos table code b p) lt (next_skips b p lt) in
        rw (drop_at code p lt) (split (b == Opcode.op_jumpdest) s)
      where
        split :
            (c : Bool) {xs ys : List ℕ}
            → xs ≡ ys
            → (if c then p ∷ xs else xs) ≡ (if c then p ∷ [] else []) ++ ys
        split true e = ap (λ t. p ∷ t) e
        split false e = e

    abbrev Recorded : Progress → Type 0
    Recorded s = s.jumpdest_offsets ++ map int32 (from s.code_pos) ≡ map int32 (from 0)

    keeps :
        (s : Progress)
        → s.code_pos < length code
        → Recorded s
        → Recorded (analyze_body table code s)
    unfolding analyze_body
    keeps s lt e =
        joined (byte_at code s.code_pos == Opcode.op_jumpdest)
        ∙ ap (λ t. s.jumpdest_offsets ++ map int32 t) (sym (from-step s.code_pos lt))
        ∙ e
      where
        joined :
            (c : Bool)
            → (if c then s.jumpdest_offsets ++ (int32 s.code_pos ∷ []) else s.jumpdest_offsets)
                ++ map int32 (from (next_pos table code (byte_at code s.code_pos) s.code_pos))
              ≡ s.jumpdest_offsets
                ++ map int32 (
                    (if c then s.code_pos ∷ [] else [])
                    ++ from (next_pos table code (byte_at code s.code_pos) s.code_pos))
        joined true = append_assoc s.jumpdest_offsets _ _
        joined false = refl

-- The analysis of any code ends within one round for each byte and one more, and the offsets it
-- records are the positions of the bytes 0x5b outside of push values, in their order, as 32-bit
-- numbers.
pub analyze-jumpdest_offsets :
    (opt : ℕ → OpTableEntry) (rev : ℕ) (code : List ℕ)
    → (s : Progress) × (analyze opt rev code ≡ some s)
      × (s.jumpdest_offsets ≡ map int32 (valid_jumpdests 0 0 code))
unfolding analyze analyze_loop analyze_end
analyze-jumpdest_offsets opt rev code =
    let table = get_op_table opt rev in
    let (s, w, at, p) =
      analyze_loop_lem table code (Recorded code table) (keeps code table) (suc (length code))
        (analyze_start table code) (omega arith) (omega arith) refl in
    let nothing : from code s.code_pos ≡ [] =
      ap (valid_jumpdests 0 s.code_pos) (drop_all code s.code_pos (omega arith)) in
    (
      analyze_end table code s,
      rw w,
      sym (append-nil s.jumpdest_offsets)
          ∙ ap (λ t. s.jumpdest_offsets ++ map int32 t) (sym nothing)
          ∙ p,
    )
