-- ===== src/Base/BitLength.antt =====
-- The number of binary digits of a number: none for 0.
use Prim.Native.Nat.{ℕ, ◌*◌, ◌^◌, ◌≤◌, ◌<◌}
use mathlib.Core.Path.{◌≡◌}
use mathlib.Core.Logic.{◌⊎◌}

abbrev pub IsBitLength : ℕ → ℕ → Type 0
IsBitLength w len = (w < 2 ^ len) × ((w ≡ 0) × (len ≡ 0) ⊎ (2 ^ len ≤ 2 * w))
