-- ===== src/Base/Table.antt =====
-- Tables that are filled by assignments, and tests of all their entries.
use Prim.Native.Nat.{ℕ, zero, suc, ◌<◌}
use mathlib.Core.Path.{◌≡◌, refl, ap, ◌∙◌}
use mathlib.Core.Bool.{Bool, true, false, ◌&&◌}
use mathlib.Core.List.{List, [], ◌∷◌}
use native.Mathlib.Omega.{arith}
use native.Mathlib.Decide.{ℕ_discrete}
use tsc_vee.Base.Lists.{set}

-- `table[i] = v` for each pair of the list, in its order.
abbrev pub assign_all {ℓ} : {A : Type ℓ} → List (ℕ × A) → List A → List A
assign_all [] table = table
assign_all ((i, v) ∷ rest) table = assign_all rest (set table i v)

abbrev pub all_below : ℕ → (ℕ → Bool) → Bool
all_below zero p = true
all_below (suc n) p = p n && all_below n p

both_left : (a b : Bool) → (a && b) ≡ true → a ≡ true
both_left true b h = refl
both_left false b h = h

both_right : (a b : Bool) → (a && b) ≡ true → b ≡ true
both_right true b h = h
both_right false true h = refl
both_right false false h = h

-- A test that holds of all numbers below `n` holds of each of them.
pub all_below_lem : (n : ℕ) (p : ℕ → Bool) → all_below n p ≡ true → (i : ℕ) → i < n → p i ≡ true
all_below_lem zero p h i lt = absurd (omega arith)
all_below_lem (suc n) p h i lt = elim (ℕ_discrete i n) [
  | yes e ↦ ap p e ∙ both_left (p n) _ h
  | no ne ↦ all_below_lem n p (both_right (p n) _ h) i (omega arith)
]
