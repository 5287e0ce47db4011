-- ===== src/Uint128/Shift.antt =====
-- Shifts of 128-bit numbers by any amount.
use native.Mathlib.Decide.{dec_lt}
use native.Mathlib.Nat.{pow-le-pow_right, div-eq_of_lt, div-le_self}
use tsc_vee.Base.{ℕ, ◌-◌, ◌*◌, ◌/◌, ◌%◌, ◌^◌, ◌<◌, ◌≤◌, ◌≡◌, sym, ap, arith}
use tsc_vee.Base.Pow.{two-pow_split, two-pow-pos, two-pow_over}
use tsc_vee.Base.Split.{shl_pair, shr_pair, shl_far, shr_far, mod-mul_self}
use tsc_vee.Uint128.{Uint128, shiftl128, shiftr128}
use tsc_vee.Uint128.Value.{value128, IsWord128}

module _ (n : Uint128) (k : ℕ) (h : IsWord128 n) where
  shiftl128_near :
      k < 64
      → IsWord128 (shiftl128 n k) × (value128 (shiftl128 n k) ≡ (value128 n * 2 ^ k) % 2 ^ 128)
  unfolding shiftl128
  shiftl128_near lt =
      let cut : 2 ^ k * 2 ^ (64 - k) ≡ 2 ^ 64 = sym (two-pow_split k 64 (omega arith)) in
      let pair =
        shl_pair (2 ^ k) (2 ^ (64 - k)) (2 ^ 64) cut (two-pow-pos k) (two-pow-pos (64 - k)) n.upper
          n.lower h.1 in
      ground (arith, pair)

  shiftl128_far :
      64 ≤ k
      → k < 128
      → IsWord128 (shiftl128 n k) × (value128 (shiftl128 n k) ≡ (value128 n * 2 ^ k) % 2 ^ 128)
  unfolding shiftl128
  shiftl128_far ge lt = ground (
    arith,
    shl_far (2 ^ (k - 64)) (2 ^ 64) n.upper n.lower (omega arith),
    ap (λ t. (value128 n * t) % 2 ^ 128) (two-pow_over 64 k ge),
  )

  shiftl128_out :
      128 ≤ k
      → IsWord128 (shiftl128 n k) × (value128 (shiftl128 n k) ≡ (value128 n * 2 ^ k) % 2 ^ 128)
  unfolding shiftl128
  shiftl128_out ge = ground (
    arith,
    mod-mul_self (value128 n) (2 ^ (k - 128)) (2 ^ 128) (omega arith),
    ap (λ t. (value128 n * t) % 2 ^ 128) (two-pow_over 128 k ge),
  )

  shiftr128_near :
      k < 64 → IsWord128 (shiftr128 n k) × (value128 (shiftr128 n k) ≡ value128 n / 2 ^ k)
  unfolding shiftr128
  shiftr128_near lt =
      let cut : 2 ^ k * 2 ^ (64 - k) ≡ 2 ^ 64 = sym (two-pow_split k 64 (omega arith)) in
      let pair =
        shr_pair (2 ^ k) (2 ^ (64 - k)) (2 ^ 64) cut (two-pow-pos k) (two-pow-pos (64 - k)) n.upper
          n.lower h.1 in
      ground (arith, pair, div-le_self n.upper (2 ^ k))

  shiftr128_far :
      64 ≤ k → k < 128 → IsWord128 (shiftr128 n k) × (value128 (shiftr128 n k) ≡ value128 n / 2 ^ k)
  unfolding shiftr128
  shiftr128_far ge lt = ground (
    arith,
    shr_far (2 ^ (k - 64)) (2 ^ 64) n.upper n.lower (two-pow-pos (k - 64)) h.1,
    ap (λ t. value128 n / t) (two-pow_over 64 k ge),
    div-le_self n.upper (2 ^ (k - 64)),
  )

  shiftr128_out :
      128 ≤ k → IsWord128 (shiftr128 n k) × (value128 (shiftr128 n k) ≡ value128 n / 2 ^ k)
  unfolding shiftr128
  shiftr128_out ge =
      let big : 2 ^ 128 ≤ 2 ^ k = pow-le-pow_right {n = 2} (omega arith) ge in
      ground (arith, div-eq_of_lt {n = value128 n} {m = 2 ^ k} (omega arith))

  -- For a 128-bit number of 64-bit words and any amount, `shiftl128` gives one whose value is
  -- the product with the power of two, modulo 2 ^ 128.
  pub value-shiftl128 :
      IsWord128 (shiftl128 n k) × (value128 (shiftl128 n k) ≡ (value128 n * 2 ^ k) % 2 ^ 128)
  value-shiftl128 = elim (dec_lt k 64) [
    | yes lt ↦ shiftl128_near lt
    | no ge ↦ elim (dec_lt k 128) [
      | yes lt ↦ shiftl128_far (omega arith) lt
      | no ge' ↦ shiftl128_out (omega arith)
    ]
  ]

  -- For a 128-bit number of 64-bit words and any amount, `shiftr128` gives one whose value is
  -- the quotient by the power of two.
  pub value-shiftr128 : IsWord128 (shiftr128 n k) × (value128 (shiftr128 n k) ≡ value128 n / 2 ^ k)
  value-shiftr128 = elim (dec_lt k 64) [
    | yes lt ↦ shiftr128_near lt
    | no ge ↦ elim (dec_lt k 128) [
      | yes lt ↦ shiftr128_far (omega arith) lt
      | no ge' ↦ shiftr128_out (omega arith)
    ]
  ]
