-- ===== src/Uint256/Product/Laws.antt =====
-- The value of `mul256`, column by column.
use tsc_vee.Base.{ℕ, zero, suc, ◌+◌, ◌-◌, ◌*◌, ◌%◌, ◌^◌, ◌<◌, ◌≡◌, ap₂, ◌∙◌, ◌↔◌, arith}
use native.Mathlib.Nat.{mod-eq_of_lt}
use tsc_vee.Uint128.{Uint128, add128, shiftl128, clear128, copy128}
use tsc_vee.Uint128.Value.{value128, IsWord128}
use tsc_vee.Uint128.Sum.{value-add128}
use tsc_vee.Uint128.Shift.{value-shiftl128}
use tsc_vee.Uint128.Product.Laws.{value-mul128}
use tsc_vee.Uint256.{Uint256}
use tsc_vee.Uint256.Value.{value256, IsWord256}
use tsc_vee.Uint256.Sum.{value-add256}
use tsc_vee.Uint256.Product.{
  word128, digit64, products256, join256, third_column, columns256, mul256,
}

-- The columns added up, with the upper word of the third one where `join256` puts it.
value-join256 :
    (a b c d : Uint128)
    → IsWord128 a
    → IsWord128 b
    → IsWord128 c
    → IsWord128 d
    → IsWord256 (join256 a b c d)
      × (value256 (join256 a b c d)
          ≡ (value128 a * 2 ^ 192
              + value128 b * 2 ^ 128
              + c.upper * 2 ^ 192
              + c.lower * 2 ^ 64
              + value128 d)
            % 2 ^ 256)
unfolding join256 clear128 copy128
value-join256 a b c d ha hb hc hd =
    let s = value-shiftl128 a 64 ha in
    let t = value-shiftl128 c 64 hc in
    let x =
      value-add256 (record { upper = shiftl128 a 64; lower = clear128 })
        (record { upper = record { upper = c.upper; lower = 0 }; lower = shiftl128 c 64 })
        (s.0, (omega arith, omega arith)) ((hc.0, omega arith), t.0) in
    let y =
      value-add256 (record { upper = copy128 b; lower = clear128 }) _
        (hb, (omega arith, omega arith)) x.0 in
    let z =
      value-add256 (record { upper = clear128; lower = copy128 d }) _
        ((omega arith, omega arith), hd) y.0 in
    (z.0, omega (arith, x.1, y.1, z.1, s.1, t.1))

-- A sum that does not reach 2 ^ 128.
add_word :
    (x : ℕ) (a : Uint128)
    → x < 2 ^ 64
    → IsWord128 a
    → value128 a < 2 ^ 100
    → IsWord128 (add128 (word128 x) a) × (value128 (add128 (word128 x) a) ≡ x + value128 a)
add_word x a hx ha small =
    let s = value-add128 (word128 x) a (omega arith, hx) ha in (s.0, omega (arith, s.1))

add_word-add_word :
    (x y : ℕ)
    → x < 2 ^ 64
    → y < 2 ^ 64
    → IsWord128 (add128 (word128 x) (word128 y))
      × (value128 (add128 (word128 x) (word128 y)) ≡ x + y)
add_word-add_word x y hx hy =
    let s = add_word x (word128 y) hx (omega arith, hy) (omega arith) in (s.0, omega (arith, s.1))

abbrev weighted : (ℕ → ℕ → Uint128) → ℕ
weighted p =
    value128 (p 0 3)
    + (value128 (p 0 2) + value128 (p 1 3)) * 2 ^ 64
    + (value128 (p 0 1) + value128 (p 1 2) + value128 (p 2 3)) * 2 ^ 128
    + (value128 (p 0 0) + value128 (p 1 1) + value128 (p 2 2) + value128 (p 3 3)) * 2 ^ 192

-- The carry of the third column: its upper word.
abbrev pub column_carry : (ℕ → ℕ → Uint128) → ℕ
column_carry p = (third_column p).upper

value-third_column :
    (p : ℕ → ℕ → Uint128)
    → ((i y : ℕ) → IsWord128 (p i y))
    → IsWord128 (third_column p)
      × (value128 (third_column p) ≡ (p 0 2).lower + (p 0 3).upper + (p 1 3).lower)
unfolding third_column
value-third_column p h =
    let s = add_word-add_word (p 0 2).lower (p 0 3).upper (h 0 2).1 (h 0 3).0 in
    let t = add_word (p 1 3).lower _ (h 1 3).1 s.0 (omega (arith, s.1, h 0 2, h 0 3)) in
    (t.0, omega (arith, s.1, t.1))

value-columns256 :
    (p : ℕ → ℕ → Uint128)
    → ((i y : ℕ) → IsWord128 (p i y))
    → IsWord256 (columns256 p)
      × (value256 (columns256 p) ≡ (weighted p + column_carry p * (2 ^ 192 - 2 ^ 128)) % 2 ^ 256)
unfolding columns256
value-columns256 p h =
    let third = value-third_column p h in
    let s1 = add_word-add_word (p 0 1).lower (p 0 2).upper (h 0 1).1 (h 0 2).0 in
    let s2 = add_word (p 1 2).lower _ (h 1 2).1 s1.0 (omega (arith, s1.1, h 0 1, h 0 2)) in
    let s3 =
      add_word (p 1 3).upper _ (h 1 3).0 s2.0 (omega (arith, s1.1, s2.1, h 0 1, h 0 2, h 1 2)) in
    let s4 =
      add_word (p 2 3).lower _ (h 2 3).1 s3.0
        (omega (arith, s1.1, s2.1, s3.1, h 0 1, h 0 2, h 1 2, h 1 3)) in
    let f1 = add_word-add_word (p 0 0).lower (p 0 1).upper (h 0 0).1 (h 0 1).0 in
    let f2 = add_word (p 1 1).lower _ (h 1 1).1 f1.0 (omega (arith, f1.1, h 0 0, h 0 1)) in
    let f3 =
      add_word (p 1 2).upper _ (h 1 2).0 f2.0 (omega (arith, f1.1, f2.1, h 0 0, h 0 1, h 1 1)) in
    let f4 =
      add_word (p 2 2).lower _ (h 2 2).1 f3.0
        (omega (arith, f1.1, f2.1, f3.1, h 0 0, h 0 1, h 1 1, h 1 2)) in
    let f5 =
      add_word (p 2 3).upper _ (h 2 3).0 f4.0
        (omega (arith, f1.1, f2.1, f3.1, f4.1, h 0 0, h 0 1, h 1 1, h 1 2, h 2 2)) in
    let f6 =
      add_word (p 3 3).lower _ (h 3 3).1 f5.0
        (omega (arith, f1.1, f2.1, f3.1, f4.1, f5.1, h 0 0, h 0 1, h 1 1, h 1 2, h 2 2, h 2 3)) in
    let j =
      value-join256 _ _ (third_column p) (word128 (p 0 3).lower) f6.0 s4.0 third.0
        (omega arith, (h 0 3).1) in
    (j.0, omega (arith, j.1, third, s1.1, s2.1, s3.1, s4.1, f1.1, f2.1, f3.1, f4.1, f5.1, f6.1))

-- The value of a digit of 64 bits.
abbrev digit : Uint256 → ℕ → ℕ
digit n i = value128 (digit64 n i)

digit64-IsWord :
    (n : Uint256) (i : ℕ) → IsWord256 n → IsWord128 (digit64 n i) × (digit n i < 2 ^ 64)
unfolding digit64
digit64-IsWord n zero h = omega arith
digit64-IsWord n (suc zero) h = omega arith
digit64-IsWord n (suc (suc zero)) h = omega arith
digit64-IsWord n (suc (suc (suc i))) h = omega arith

digits_of :
    (n : Uint256)
    → value256 n ≡ digit n 0 * 2 ^ 192 + digit n 1 * 2 ^ 128 + digit n 2 * 2 ^ 64 + digit n 3
unfolding digit64
digits_of n = omega arith

product-lt : (x y : ℕ) → x < 2 ^ 64 → y < 2 ^ 64 → x * y < 2 ^ 128
product-lt x y hx hy = grind arith

module _ (a b : Uint256) (ha : IsWord256 a) (hb : IsWord256 b) where
  -- No product of two digits wraps.
  products256_lem :
      (i y : ℕ)
      → IsWord128 (products256 a b i y)
        × (value128 (products256 a b i y) ≡ digit a (3 - i) * digit b y)
  unfolding products256
  products256_lem i y =
      let da = digit64-IsWord a (3 - i) ha in
      let db = digit64-IsWord b y hb in
      let m = value-mul128 (digit64 a (3 - i)) (digit64 b y) da.0 db.0 in
      (m.0, m.1 ∙ mod-eq_of_lt (product-lt (digit a (3 - i)) (digit b y) da.1 db.1))

  -- For two numbers of 64-bit words, `mul256` gives a number of 64-bit words whose value is,
  -- modulo 2 ^ 256, the product plus 2 ^ 192 - 2 ^ 128 times the carry of the third column.
  pub value-mul256 :
      IsWord256 (mul256 a b)
      × (value256 (mul256 a b)
          ≡ (value256 a * value256 b + column_carry (products256 a b) * (2 ^ 192 - 2 ^ 128))
            % 2 ^ 256)
  unfolding mul256
  value-mul256 =
      let c = value-columns256 (products256 a b) (λ i y. (products256_lem i y).0) in
      let expand : value256 a * value256 b ≡ _ = ap₂ ◌*◌ (digits_of a) (digits_of b) in
      let p = λ (i y : ℕ). (products256_lem i y).1 in
      (
        c.0,
        omega (
          arith,
          c.1,
          expand,
          p 0 0,
          p 0 1,
          p 0 2,
          p 0 3,
          p 1 1,
          p 1 2,
          p 1 3,
          p 2 2,
          p 2 3,
          p 3 3,
        ),
      )

  -- For two numbers of 64-bit words, the value of `mul256` is the product modulo 2 ^ 256 exactly
  -- when the third column of partial products does not carry.
  pub mul256_exact_iff :
      (value256 (mul256 a b) ≡ (value256 a * value256 b) % 2 ^ 256)
      ↔ (column_carry (products256 a b) ≡ 0)
  mul256_exact_iff =
      let t = value-third_column (products256 a b) (λ i y. (products256_lem i y).0) in
      let few : column_carry (products256 a b) < 3 =
        omega
          (arith, t, (products256_lem 0 2).0, (products256_lem 0 3).0, (products256_lem 1 3).0) in
      (λ e. omega (arith, value-mul256), λ e. omega (arith, value-mul256))
