-- ===== src/Base/Split.antt =====
-- Shifts of a number that is held in two words, over the powers `P` and `Q` that a word
-- `W = P * Q` is cut at. The same facts serve the halves of 64 bits and those of 128 bits.
use Prim.Native.Nat.{ℕ, ◌+◌, ◌*◌, ◌/◌, ◌%◌, ◌<◌}
use mathlib.Core.Path.{◌≡◌, sym, ap, ◌∙◌}
use native.Mathlib.Omega.{arith}
use native.Mathlib.Nat.{
  mul-add-mod_self_right, mod-eq_of_lt, mod-lt, div-add-mod', mul-add-div_right,
}
use native.Mathlib.Nat.{
  div-eq_of_lt, add-zero, mul_comm, mul-lt-mul_of_pos_right, mul-le-mul_right, div-lt_iff_lt-mul,
}

pub mod_unique : (n q r m : ℕ) → n ≡ q * m + r → r < m → n % m ≡ r
mod_unique n q r m e h = ap (λ t. t % m) e ∙ mul-add-mod_self_right q m r ∙ mod-eq_of_lt h

pub div_unique : (n q r m : ℕ) → n ≡ q * m + r → r < m → n / m ≡ q
div_unique n q r m e h =
    ap (λ t. t / m) e
    ∙ mul-add-div_right {m = m} (omega arith) q r
    ∙ ap (λ t. q + t) (div-eq_of_lt h)
    ∙ add-zero q

module _ (P Q W : ℕ) (cut : P * Q ≡ W) (pos : 0 < P) (pos' : 0 < Q) where
  -- `x << k` in one word: what is above the word is lost.
  shl_low : (x : ℕ) → (x * P) % W ≡ x % Q * P
  shl_low x =
      mod_unique (x * P) (x / Q) (x % Q * P) W
        (omega (arith, ap (λ (t : ℕ). t * P) (div-add-mod' x Q), ap (λ (t : ℕ). x / Q * t) cut))
        (omega (arith, mul-le-mul_right P (mod-lt x pos'), cut))

  pub div-lt_cut : (x : ℕ) → x < W → x / Q < P
  div-lt_cut x h = (div-lt_iff_lt-mul pos').1 (omega (arith, cut))

  -- `(u:l) << k`, where the high bits of `l` move to `u`.
  pub shl_pair :
      (u l : ℕ)
      → l < W
      → ((u * P) % W + l / Q < W)
        × (((u * P) % W + l / Q) * W + (l * P) % W ≡ ((u * W + l) * P) % (W * W))
  shl_pair u l h = (high, sym (mod_unique _ (u / Q) _ (W * W) whole below))
    where
      high : (u * P) % W + l / Q < W
      high = omega (arith, shl_low u, mul-le-mul_right P (mod-lt u pos'), div-lt_cut l h, cut)

      low : (l * P) % W < W
      low = omega (arith, shl_low l, mul-le-mul_right P (mod-lt l pos'), cut)

      whole : (u * W + l) * P ≡ u / Q * (W * W) + (((u * P) % W + l / Q) * W + (l * P) % W)
      whole = omega (
        arith,
        ap (λ (t : ℕ). t * W) (shl_low u),
        shl_low l,
        ap (λ (t : ℕ). t * (W * P)) (div-add-mod' u Q),
        ap (λ (t : ℕ). t * P) (div-add-mod' l Q),
        ap (λ (t : ℕ). u / Q * (W * t)) cut,
        ap (λ (t : ℕ). l / Q * t) cut,
      )

      below : ((u * P) % W + l / Q) * W + (l * P) % W < W * W
      below = omega (arith, mul-le-mul_right W high, low)

-- `(u:l) >> k`, where the low bits of `u` move to `l`.
pub shr_pair :
    (P Q W : ℕ)
    → P * Q ≡ W
    → 0 < P
    → 0 < Q
    → (u l : ℕ) → l < W
    → ((u * Q) % W + l / P < W) × (u / P * W + ((u * Q) % W + l / P) ≡ (u * W + l) / P)
shr_pair P Q W cut pos pos' u l h = (low, sym (div_unique _ _ (l % P) P whole (mod-lt l pos)))
  where
    cut' : Q * P ≡ W
    cut' = mul_comm Q P ∙ cut

    low : (u * Q) % W + l / P < W
    low = omega (
      arith,
      shl_low Q P W cut' pos' pos u,
      mul-le-mul_right Q (mod-lt u pos),
      div-lt_cut Q P W cut' pos' pos l h,
      cut,
    )

    whole : u * W + l ≡ (u / P * W + ((u * Q) % W + l / P)) * P + l % P
    whole = omega (
      arith,
      ap (λ (t : ℕ). t * P) (shl_low Q P W cut' pos' pos u),
      ap (λ (t : ℕ). t * W) (div-add-mod' u P),
      div-add-mod' l P,
      ap (λ (t : ℕ). u % P * t) cut,
    )

-- Shifts by a whole word and more: one of the two words is left.
pub shl_far : (P W u l : ℕ) → 0 < W → (l * P) % W * W ≡ ((u * W + l) * (P * W)) % (W * W)
shl_far P W u l pos = sym (mod_unique _ (u * P + l * P / W) _ (W * W) whole below)
  where
    whole : (u * W + l) * (P * W) ≡ (u * P + l * P / W) * (W * W) + (l * P) % W * W
    whole = omega (arith, ap (λ (t : ℕ). t * W) (div-add-mod' (l * P) W))

    below : (l * P) % W * W < W * W
    below = mul-lt-mul_of_pos_right (mod-lt (l * P) pos) pos

pub shr_far : (P W u l : ℕ) → 0 < P → l < W → u / P ≡ (u * W + l) / (P * W)
shr_far P W u l pos h = sym (div_unique _ (u / P) (u % P * W + l) (P * W) whole below)
  where
    whole : u * W + l ≡ u / P * (P * W) + (u % P * W + l)
    whole = omega (arith, ap (λ (t : ℕ). t * W) (div-add-mod' u P))

    below : u % P * W + l < P * W
    below = omega (arith, mul-le-mul_right W (mod-lt u pos), h)

-- A shift by the whole width and more leaves nothing.
pub mod-mul_self : (x P M : ℕ) → 0 < M → (x * (P * M)) % M ≡ 0
mod-mul_self x P M pos = mod_unique _ (x * P) 0 M (omega arith) pos
