-- ===== src/Jump/Tests.antt =====
-- Jumps in a program of seven bytes: PUSH1 5, JUMP, JUMPDEST, STOP, JUMPDEST, STOP. The search goes
-- through the vector from its start.
use tsc_vee.Base.{
  ℕ, zero, suc, ◌≤◌, ◌<◌, ◌≡◌, refl, List, [], ◌∷◌, length, get_or, set, replicate, Bool, true,
  false, if◌then◌else◌, some, arith,
}
use tsc_vee.Base.Int.{ℤ, pos, ltb_ℤ, leb_ℤ}
use tsc_vee.Stack.{Stack, zero_item, one_item}
use tsc_vee.Stack.Laws.{set-IsSpace, zeros-IsSpace}
use tsc_vee.Arithmetic.Laws.Binary.{Holds}
use tsc_vee.Status.{evmc_success}
use tsc_vee.Block.{OpTableEntry}
use tsc_vee.Analysis.{Progress, analyze}
use tsc_vee.Jump.{AdvancedExecutionState, find_jumpdest, op_jump, op_jumpi, word_item}
use tsc_vee.Jump.Find.{Sorted, IsLowerBound}
use tsc_vee.Jump.Laws.{
  Finds, Lands, Branches, analyze-find_jumpdest, op_jump-Lands, op_jumpi-Branches,
}

abbrev first_not_below : List ℤ → ℤ → ℕ
first_not_below [] v = 0
first_not_below (x ∷ xs) v = let rest = first_not_below xs v in if ltb_ℤ x v then suc rest else 0

least : (x y v : ℤ) → leb_ℤ x y ≡ true → ltb_ℤ x v ≡ false → ltb_ℤ y v ≡ false
least x y v le nlt = ground arith

abbrev Bound : List ℤ → ℤ → ℕ → Type 0
Bound xs v n =
    (n ≤ length xs)
    × ((i : ℕ) → i < n → ltb_ℤ (get_or xs i (pos 0)) v ≡ true)
    × ((i : ℕ) → n ≤ i → i < length xs → ltb_ℤ (get_or xs i (pos 0)) v ≡ false)

cons-Bound :
    (c : Bool) (x : ℤ) (xs : List ℤ) (v : ℤ) (n : ℕ)
    → ltb_ℤ x v ≡ c
    → Sorted (x ∷ xs)
    → Bound xs v n
    → Bound (x ∷ xs) v (if c then suc n else 0)
cons-Bound true x xs v n e sorted (room, below, above) = (omega arith, before, behind)
  where
    before : (i : ℕ) → i < suc n → ltb_ℤ (get_or (x ∷ xs) i (pos 0)) v ≡ true
    before zero lt = e
    before (suc i) lt = below i (omega arith)

    behind : (i : ℕ) → suc n ≤ i → i < suc (length xs) → ltb_ℤ (get_or (x ∷ xs) i (pos 0)) v ≡ false
    behind zero le lt = absurd (omega arith)
    behind (suc i) le lt = above i (omega arith) (omega arith)
cons-Bound false x xs v n e sorted (room, below, above) = (
  omega arith,
  λ i lt. absurd (omega arith),
  λ i le lt. least x (get_or (x ∷ xs) i (pos 0)) v (sorted 0 i (omega arith) lt) e,
)

first_not_below-IsLowerBound : IsLowerBound first_not_below
first_not_below-IsLowerBound [] v sorted =
    (omega arith, λ i lt. absurd (omega arith), λ i le lt. absurd (omega arith))
first_not_below-IsLowerBound (x ∷ xs) v sorted =
    cons-Bound (ltb_ℤ x v) x xs v (first_not_below xs v) refl sorted (
      first_not_below-IsLowerBound xs v
        (λ i j le lt. sorted (suc i) (suc j) (omega arith) (omega arith)))

abbrev program : List ℕ
program = 0x60 ∷ 5 ∷ 0x56 ∷ 0x5b ∷ 0x00 ∷ 0x5b ∷ 0x00 ∷ []

abbrev entries : ℕ → OpTableEntry
entries i = record { gas_cost = pos 0; stack_req = pos 0; stack_change = pos 0 }

abbrev target : Stack
target = record {
  space = set (set (replicate 1024 zero_item) 0 one_item) 1 (word_item 5);
  top_item = 2;
}

abbrev astate : AdvancedExecutionState
astate = record { stack = target; gas_left = pos 0; current_block_cost = 0; status = evmc_success }

target-Holds : Holds target (5 ∷ 1 ∷ [])
target-Holds =
    let s1 = set-IsSpace (replicate 1024 zero_item) 0 one_item zeros-IsSpace (omega arith) in
    (
      (
        set-IsSpace (set (replicate 1024 zero_item) 0 one_item) 1 (word_item 5) s1 (omega arith),
        omega arith,
      ),
      refl,
    )

analyze-find_jumpdest_example :
    (s : Progress) × (analyze entries 9 program ≡ some s)
    × Finds true program s (pos 5) (find_jumpdest first_not_below s (pos 5))
analyze-find_jumpdest_example =
    analyze-find_jumpdest entries 9 program first_not_below (pos 5) (omega arith) (omega arith)
      first_not_below-IsLowerBound

op_jump-Lands_example :
    (s : Progress) × (analyze entries 9 program ≡ some s)
    × Lands true program 5 s (op_jump first_not_below s 1 astate).0
    × Holds (op_jump first_not_below s 1 astate).1.stack (1 ∷ [])
    × ((op_jump first_not_below s 1 astate).1.status ≡ evmc_success)
op_jump-Lands_example =
    op_jump-Lands entries 9 program first_not_below 1 astate 5 (1 ∷ []) (omega arith) (omega arith)
      first_not_below-IsLowerBound target-Holds

op_jumpi-Branches_example :
    (s : Progress) × (analyze entries 9 program ≡ some s)
    × Branches false true program 5 1 s (op_jumpi first_not_below s 1 astate).0
    × Holds (op_jumpi first_not_below s 1 astate).1.stack []
    × ((op_jumpi first_not_below s 1 astate).1.status ≡ evmc_success)
op_jumpi-Branches_example =
    op_jumpi-Branches entries 9 program first_not_below 1 astate 5 1 [] (omega arith) (omega arith)
      first_not_below-IsLowerBound target-Holds
