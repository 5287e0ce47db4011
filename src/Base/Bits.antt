-- ===== src/Base/Bits.antt =====
-- The bitwise operations digit by digit, and on numbers that are cut at a power of two.
use Prim.Native.Nat.{ℕ, zero, suc, ◌+◌, ◌*◌, ◌/◌, ◌%◌, ◌^◌, ◌≤◌, ◌<◌, ◌-◌, min, max}
use Prim.Native.Nat.{bit_and, bit_or, bit_xor, digits, bitwise, differ}
use Prim.Native.Nat.{bit_and-bitwise, bit_or-bitwise, bit_xor-bitwise}
use mathlib.Core.Path.{◌≡◌, refl, sym, ap, ap₂, ◌∙◌}
use mathlib.Core.Logic.{◌↔◌}
use native.Mathlib.Omega.{arith}
use native.Mathlib.Nat.{zero-add, suc-add, div-add-mod', mod-lt}
use tsc_vee.Base.Pow.{two-pow-suc, two-pow-pos}

module _ (rest : ℕ → ℕ) (combine : ℕ → ℕ → ℕ) where
  more_fuel :
      (fuel x y : ℕ) → x ≤ fuel → digits rest combine (suc fuel) x y ≡ digits rest combine fuel x y
  more_fuel zero zero y h = refl
  more_fuel zero (suc x) y h = absurd (omega arith)
  more_fuel (suc fuel) zero y h = refl
  more_fuel (suc fuel) (suc x) y h = rw (more_fuel fuel (suc x / 2) (y / 2) (omega arith))

  any_fuel : (extra x y : ℕ) → digits rest combine (extra + x) x y ≡ bitwise rest combine x y
  any_fuel zero x y = rw zero-add
  any_fuel (suc extra) x y =
      rw suc-add (more_fuel (extra + x) x y (omega arith) ∙ any_fuel extra x y)

  lowest_digit :
      (x y : ℕ)
      → bitwise rest combine (suc x) y
        ≡ bitwise rest combine (suc x / 2) (y / 2) * 2 + combine (suc x % 2) (y % 2)
  lowest_digit x y =
      let e : x - suc x / 2 + suc x / 2 ≡ x = omega arith in
      let half = λ (n : ℕ). digits rest combine n (suc x / 2) (y / 2) in
      omega (arith, ap half e, any_fuel (x - suc x / 2) (suc x / 2) (y / 2))

pub bit_or_step : (x y : ℕ) → bit_or x y ≡ bit_or (x / 2) (y / 2) * 2 + max (x % 2) (y % 2)
bit_or_step zero y = simp bit_or-bitwise (omega arith)
bit_or_step (suc x) y = simp bit_or-bitwise (lowest_digit (λ n. n) max x y)

pub bit_and_step : (x y : ℕ) → bit_and x y ≡ bit_and (x / 2) (y / 2) * 2 + min (x % 2) (y % 2)
bit_and_step zero y = simp bit_and-bitwise (omega arith)
bit_and_step (suc x) y = simp bit_and-bitwise (lowest_digit (λ n. 0) min x y)

pub bit_xor_step : (x y : ℕ) → bit_xor x y ≡ bit_xor (x / 2) (y / 2) * 2 + differ (x % 2) (y % 2)
bit_xor_step zero y = simp bit_xor-bitwise (omega arith)
bit_xor_step (suc x) y = simp bit_xor-bitwise (lowest_digit (λ n. n) differ x y)

differ_bits : (x y : ℕ) → x < 2 → y < 2 → differ x y ≡ (x + y) % 2
differ_bits zero zero p q = refl
differ_bits zero (suc zero) p q = refl
differ_bits (suc zero) zero p q = refl
differ_bits (suc zero) (suc zero) p q = refl
differ_bits zero (suc (suc y)) p q = absurd (omega arith)
differ_bits (suc zero) (suc (suc y)) p q = absurd (omega arith)
differ_bits (suc (suc x)) y p q = absurd (omega arith)

differ-le-one : (a b : ℕ) → differ (a % 2) (b % 2) ≤ 1
differ-le-one a b = omega (arith, differ_bits (a % 2) (b % 2) (omega arith) (omega arith))

-- What the three operations share: one equation for the lowest digit.
module _ (op f : ℕ → ℕ → ℕ) (step : (a b : ℕ) → op a b ≡ op (a / 2) (b / 2) * 2 + f (a % 2) (b % 2))
    (bit : (a b : ℕ) → f (a % 2) (b % 2) ≤ 1) (start : op 0 0 ≡ 0) where
  op-lt : (k a b : ℕ) → a < 2 ^ k → b < 2 ^ k → op a b < 2 ^ k
  op-lt zero a b p q =
      let ea : a ≡ 0 = omega arith in
      let eb : b ≡ 0 = omega arith in rw (ea, eb, start) (omega arith)
  op-lt (suc k) a b p q = omega (
    arith,
    step a b,
    bit a b,
    two-pow-suc k,
    op-lt k (a / 2) (b / 2) (omega (arith, two-pow-suc k)) (omega (arith, two-pow-suc k)),
  )

  op_split :
      (k q r s t : ℕ)
      → r < 2 ^ k
      → t < 2 ^ k
      → op (q * 2 ^ k + r) (s * 2 ^ k + t) ≡ op q s * 2 ^ k + op r t
  op_split zero q r s t hr ht =
      let er : r ≡ 0 = omega arith in
      let et : t ≡ 0 = omega arith in
      let eq : q * 1 + 0 ≡ q = omega arith in
      let es : s * 1 + 0 ≡ s = omega arith in rw (er, et, start, eq, es) (omega arith)
  op_split (suc k) q r s t hr ht = ground (
    arith,
    step (q * 2 ^ suc k + r) (s * 2 ^ suc k + t),
    step r t,
    ap (λ (x : ℕ). q * x) (two-pow-suc k),
    ap (λ (x : ℕ). s * x) (two-pow-suc k),
    ap (λ (x : ℕ). op q s * x) (two-pow-suc k),
    op_split k q (r / 2) s (t / 2) (omega (arith, two-pow-suc k)) (omega (arith, two-pow-suc k)),
  )

pub bit_or-lt : (k a b : ℕ) → a < 2 ^ k → b < 2 ^ k → bit_or a b < 2 ^ k
bit_or-lt = op-lt bit_or max bit_or_step (λ a b. omega arith) refl

pub bit_and-lt : (k a b : ℕ) → a < 2 ^ k → b < 2 ^ k → bit_and a b < 2 ^ k
bit_and-lt = op-lt bit_and min bit_and_step (λ a b. omega arith) refl

pub bit_xor-lt : (k a b : ℕ) → a < 2 ^ k → b < 2 ^ k → bit_xor a b < 2 ^ k
bit_xor-lt = op-lt bit_xor differ bit_xor_step differ-le-one refl

-- The operations work on the part above bit `k` and on the part below it separately.
pub bit_or_split :
    (k q r s t : ℕ)
    → r < 2 ^ k
    → t < 2 ^ k
    → bit_or (q * 2 ^ k + r) (s * 2 ^ k + t) ≡ bit_or q s * 2 ^ k + bit_or r t
bit_or_split = op_split bit_or max bit_or_step (λ a b. omega arith) refl

pub bit_and_split :
    (k q r s t : ℕ)
    → r < 2 ^ k
    → t < 2 ^ k
    → bit_and (q * 2 ^ k + r) (s * 2 ^ k + t) ≡ bit_and q s * 2 ^ k + bit_and r t
bit_and_split = op_split bit_and min bit_and_step (λ a b. omega arith) refl

pub bit_xor_split :
    (k q r s t : ℕ)
    → r < 2 ^ k
    → t < 2 ^ k
    → bit_xor (q * 2 ^ k + r) (s * 2 ^ k + t) ≡ bit_xor q s * 2 ^ k + bit_xor r t
bit_xor_split = op_split bit_xor differ bit_xor_step differ-le-one refl

bit_or-zero_below : (n a : ℕ) → a < n → bit_or a 0 ≡ a
bit_or-zero_below zero a h = absurd (omega arith)
bit_or-zero_below (suc n) zero h = refl
bit_or-zero_below (suc n) (suc a) h =
    omega (arith, bit_or_step (suc a) 0, bit_or-zero_below n (suc a / 2) (omega arith))

pub bit_or-zero : (a : ℕ) → bit_or a 0 ≡ a
bit_or-zero a = bit_or-zero_below (suc a) a (omega arith)

pub zero-bit_or : (a : ℕ) → bit_or 0 a ≡ a
zero-bit_or a = bit_or-bitwise 0 a

-- `|` of a multiple of `2 ^ k` and of a number below `2 ^ k` is their sum.
pub bit_or_fields : (k q r : ℕ) → r < 2 ^ k → bit_or (q * 2 ^ k) r ≡ q * 2 ^ k + r
bit_or_fields k q r h =
    let e : q * 2 ^ k + 0 ≡ q * 2 ^ k = omega arith in
    let e' : 0 * 2 ^ k + r ≡ r = omega arith in
    ap₂ bit_or (sym e) (sym e')
    ∙ bit_or_split k q 0 0 r (two-pow-pos k) h
    ∙ ap₂ (λ (x y : ℕ). x * 2 ^ k + y) (bit_or-zero q) (zero-bit_or r)

bit_and-zero_below : (n a : ℕ) → a < n → bit_and a 0 ≡ 0
bit_and-zero_below zero a h = absurd (omega arith)
bit_and-zero_below (suc n) zero h = refl
bit_and-zero_below (suc n) (suc a) h =
    omega (arith, bit_and_step (suc a) 0, bit_and-zero_below n (suc a / 2) (omega arith))

bit_and_ones : (k r : ℕ) → r < 2 ^ k → bit_and r (2 ^ k - 1) ≡ r
bit_and_ones zero r h = let e : r ≡ 0 = omega arith in rw e
bit_and_ones (suc k) r h = ground (
  arith,
  bit_and_step r (2 ^ suc k - 1),
  two-pow-suc k,
  two-pow-pos k,
  bit_and_ones k (r / 2) (omega (arith, two-pow-suc k)),
)

-- A mask of `k` low bits is the remainder by `2 ^ k`.
pub bit_and_mask : (k a : ℕ) → bit_and a (2 ^ k - 1) ≡ a % 2 ^ k
bit_and_mask k a =
    let e : a / 2 ^ k * 2 ^ k + a % 2 ^ k ≡ a = div-add-mod' a (2 ^ k) in
    let e' : 0 * 2 ^ k + (2 ^ k - 1) ≡ 2 ^ k - 1 = omega arith in
    let below : a % 2 ^ k < 2 ^ k = mod-lt a (two-pow-pos k) in
    ap₂ bit_and (sym e) (sym e')
    ∙ bit_and_split k (a / 2 ^ k) (a % 2 ^ k) 0 (2 ^ k - 1) below (omega (arith, two-pow-pos k))
    ∙ omega (
      arith,
      ap (λ (x : ℕ). x * 2 ^ k) (bit_and-zero_below (suc (a / 2 ^ k)) (a / 2 ^ k) (omega arith)),
      bit_and_ones k (a % 2 ^ k) below,
    )

-- Flipping all of `k` bits takes the number from `2 ^ k - 1`.
pub bit_xor_ones : (k r : ℕ) → r < 2 ^ k → bit_xor r (2 ^ k - 1) ≡ 2 ^ k - 1 - r
bit_xor_ones zero r h = let e : r ≡ 0 = omega arith in rw e
bit_xor_ones (suc k) r h = ground (
  arith,
  bit_xor_step r (2 ^ suc k - 1),
  differ_bits (r % 2) ((2 ^ suc k - 1) % 2),
  two-pow-suc k,
  two-pow-pos k,
  bit_xor_ones k (r / 2) (omega (arith, two-pow-suc k)),
)

le-bit_or_below : (n a b : ℕ) → a < n → a ≤ bit_or a b
le-bit_or_below zero a b h = absurd (omega arith)
le-bit_or_below (suc n) zero b h = omega arith
le-bit_or_below (suc n) (suc a) b h =
    omega (arith, bit_or_step (suc a) b, le-bit_or_below n (suc a / 2) (b / 2) (omega arith))

bit_or-le_below : (n a b : ℕ) → b < n → b ≤ bit_or a b
bit_or-le_below zero a b h = absurd (omega arith)
bit_or-le_below (suc n) a zero h = omega arith
bit_or-le_below (suc n) a (suc b) h =
    omega (arith, bit_or_step a (suc b), bit_or-le_below n (a / 2) (suc b / 2) (omega arith))

-- The bits of two numbers together are no fewer than those of either.
pub le-bit_or : (a b : ℕ) → a ≤ bit_or a b
le-bit_or a b = le-bit_or_below (suc a) a b (omega arith)

pub bit_or-le : (a b : ℕ) → b ≤ bit_or a b
bit_or-le a b = bit_or-le_below (suc b) a b (omega arith)

-- `(a | b | c) != 0` asks whether one of the three is set.
pub bit_or_three : (a b c : ℕ) → (bit_or (bit_or a b) c ≡ 0) ↔ (a + b + c ≡ 0)
bit_or_three a b c = (
  λ e.
      omega
        (arith, le-bit_or (bit_or a b) c, bit_or-le (bit_or a b) c, le-bit_or a b, bit_or-le a b),
  λ e.
      let ea : a ≡ 0 = omega arith in
      let eb : b ≡ 0 = omega arith in
      let ec : c ≡ 0 = omega arith in
      ap₂ bit_or (ap₂ bit_or ea eb ∙ zero-bit_or 0) ec ∙ zero-bit_or 0,
)
