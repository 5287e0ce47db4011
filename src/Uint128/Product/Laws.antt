-- ===== src/Uint128/Product/Laws.antt =====
-- `mul128` is multiplication modulo 2 ^ 128.
use tsc_vee.Base.{ℕ, zero, suc, ◌+◌, ◌-◌, ◌*◌, ◌/◌, ◌%◌, ◌^◌, ◌<◌, ◌≡◌, ap₂, arith, bit_and}
use tsc_vee.Base.Bits.{bit_and_mask}
use tsc_vee.Uint128.{Uint128}
use tsc_vee.Uint128.Value.{value128, IsWord128}
use tsc_vee.Uint128.Sum.{value-add128}
use tsc_vee.Uint128.Product.{digit32, products128, join128, columns128, mul128}

value-join128 :
    (a b c d : ℕ)
    → a < 2 ^ 64
    → b < 2 ^ 64
    → c < 2 ^ 64
    → d < 2 ^ 64
    → IsWord128 (join128 a b c d)
      × (value128 (join128 a b c d) ≡ (a * 2 ^ 96 + b * 2 ^ 64 + c * 2 ^ 32 + d) % 2 ^ 128)
unfolding join128
value-join128 a b c d ha hb hc hd =
    let s =
      value-add128 (record { upper = a * 2 ^ 32 % 2 ^ 64; lower = 0 })
        (record { upper = c / 2 ^ 32; lower = c * 2 ^ 32 % 2 ^ 64 }) (omega arith) (omega arith) in
    let t = value-add128 (record { upper = b; lower = 0 }) _ (omega arith) s.0 in
    let u = value-add128 (record { upper = 0; lower = d }) _ (omega arith) t.0 in
    (u.0, omega (arith, s.1, t.1, u.1))

low32_lem : (x : ℕ) → bit_and x 0xffff_ffff ≡ x % 2 ^ 32
low32_lem x = bit_and_mask 32 x

abbrev weighted : (ℕ → ℕ → ℕ) → ℕ
weighted p =
    p 0 3
    + (p 0 2 + p 1 3) * 2 ^ 32
    + (p 0 1 + p 1 2 + p 2 3) * 2 ^ 64
    + (p 0 0 + p 1 1 + p 2 2 + p 3 3) * 2 ^ 96

value-columns128 :
    (p : ℕ → ℕ → ℕ)
    → ((i y : ℕ) → p i y < 2 ^ 64)
    → IsWord128 (columns128 p) × (value128 (columns128 p) ≡ weighted p % 2 ^ 128)
unfolding columns128
value-columns128 p h =
    let j =
      value-join128 _ _ _ _ (omega arith) (omega arith) (omega arith) (omega (arith, low32_lem)) in
    (j.0, omega (arith, j.1, low32_lem))

digit32-lt : (n : Uint128) (i : ℕ) → IsWord128 n → digit32 n i < 2 ^ 32
unfolding digit32
digit32-lt n zero h = omega arith
digit32-lt n (suc zero) h = omega (arith, low32_lem n.upper)
digit32-lt n (suc (suc zero)) h = omega arith
digit32-lt n (suc (suc (suc i))) h = omega (arith, low32_lem n.lower)

digits_of :
    (n : Uint128)
    → value128 n ≡ digit32 n 0 * 2 ^ 96 + digit32 n 1 * 2 ^ 64 + digit32 n 2 * 2 ^ 32 + digit32 n 3
unfolding digit32
digits_of n = omega (arith, low32_lem n.upper, low32_lem n.lower)

product-lt : (x y : ℕ) → x < 2 ^ 32 → y < 2 ^ 32 → x * y < 2 ^ 64
product-lt x y hx hy = grind arith

module _ (a b : Uint128) (ha : IsWord128 a) (hb : IsWord128 b) where
  -- No product of two digits wraps.
  products128_lem : (i y : ℕ) → products128 a b i y ≡ digit32 a (3 - i) * digit32 b y
  unfolding products128
  products128_lem i y = omega (
    arith,
    product-lt (digit32 a (3 - i)) (digit32 b y) (digit32-lt a (3 - i) ha) (digit32-lt b y hb),
  )

  products128-lt : (i y : ℕ) → products128 a b i y < 2 ^ 64
  unfolding products128
  products128-lt i y = omega arith

  -- For two 128-bit numbers of 64-bit words, `mul128` gives one whose value is the product
  -- modulo 2 ^ 128.
  pub value-mul128 :
      IsWord128 (mul128 a b) × (value128 (mul128 a b) ≡ (value128 a * value128 b) % 2 ^ 128)
  unfolding mul128
  value-mul128 =
      let c = value-columns128 (products128 a b) products128-lt in
      let expand : value128 a * value128 b ≡ _ = ap₂ ◌*◌ (digits_of a) (digits_of b) in
      (c.0, omega (arith, c.1, expand, products128_lem))
