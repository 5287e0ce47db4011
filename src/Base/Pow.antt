-- ===== src/Base/Pow.antt =====
-- Powers, and division by a power.
use Prim.Native.Nat.{ℕ, zero, suc, ◌+◌, ◌-◌, ◌*◌, ◌^◌, ◌≤◌, ◌<◌}
use mathlib.Core.Path.{◌≡◌, sym, ap, ◌∙◌}
use native.Mathlib.Omega.{arith}
use native.Mathlib.Nat.{pow-zero, pow-suc, one-le-pow, mul_assoc, add-zero, mul-one, add-suc}

pub two-pow-pos : (k : ℕ) → 0 < 2 ^ k
two-pow-pos k = one-le-pow k 2 (omega arith)

pub pow-add : (b m n : ℕ) → b ^ (m + n) ≡ b ^ m * b ^ n
pow-add b m zero = rw (add-zero, pow-zero, mul-one)
pow-add b m (suc n) = rw add-suc (
    pow-suc b (m + n)
    ∙ ap (λ t. t * b) (pow-add b m n)
    ∙ mul_assoc (b ^ m) (b ^ n) b
    ∙ ap (λ t. b ^ m * t) (sym (pow-suc b n)))

pub two-pow_split : (k m : ℕ) → k ≤ m → 2 ^ m ≡ 2 ^ k * 2 ^ (m - k)
two-pow_split k m h =
    let e : m ≡ k + (m - k) = omega arith in ap (λ t. 2 ^ t) e ∙ pow-add 2 k (m - k)

pub two-pow-suc : (k : ℕ) → 2 ^ suc k ≡ 2 * 2 ^ k
two-pow-suc k = omega (arith, pow-suc 2 k)

-- `2 ^ k` as a power times one that is a numeral.
pub two-pow_over : (m k : ℕ) → m ≤ k → 2 ^ k ≡ 2 ^ (k - m) * 2 ^ m
two-pow_over m k h = let e : k ≡ k - m + m = omega arith in ap (λ t. 2 ^ t) e ∙ pow-add 2 (k - m) m
