-- ===== src/Base/Loop.antt =====
-- A `while` loop on fuel: `none` means that the fuel ran out before the test failed.
use Prim.Native.Nat.{ℕ, zero, suc}
use mathlib.Core.Path.{◌≡◌, refl}
use mathlib.Core.Bool.{Bool, true, false}
use mathlib.Core.Option.{Option, none, some}

unfoldable pub while {ℓ} : {S : Type ℓ} → ℕ → (S → Bool) → (S → S) → S → Option S
while zero test body s = none
while (suc fuel) test body s = elim (test s) [
  | true ↦ while fuel test body (body s)
  | false ↦ some s
]

module _ {ℓ} {S : Type ℓ} (test : S → Bool) (body : S → S) where
  pub while-done : (fuel : ℕ) (s : S) → test s ≡ false → while (suc fuel) test body s ≡ some s
  unfolding while
  while-done fuel s h = rw (h, while)

  pub while-step :
      (fuel : ℕ) (s : S)
      → test s ≡ true
      → while (suc fuel) test body s ≡ while fuel test body (body s)
  unfolding while
  while-step fuel s h = rw (h, while)

  -- A test that never fails: no fuel is enough.
  pub while-diverges {κ} :
      (P : S → Type κ)
      → ((s : S) → P s → (test s ≡ true) × P (body s))
      → (fuel : ℕ) (s : S) → P s
      → while fuel test body s ≡ none
  unfolding while
  while-diverges P keep zero s h = refl
  while-diverges P keep (suc fuel) s h =
      rw ((keep s h).0, while) (while-diverges P keep fuel (body s) (keep s h).1)
