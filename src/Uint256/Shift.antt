-- ===== src/Uint256/Shift.antt =====
-- Shifts of 256-bit numbers by any amount.
use native.Mathlib.Decide.{dec_lt}
use native.Mathlib.Nat.{pow-le-pow_right, div-eq_of_lt}
use tsc_vee.Base.{ℕ, ◌-◌, ◌*◌, ◌/◌, ◌%◌, ◌^◌, ◌<◌, ◌≤◌, ◌≡◌, sym, ap, arith}
use tsc_vee.Base.Pow.{two-pow_split, two-pow-pos, two-pow_over}
use tsc_vee.Base.Split.{shl_pair, shr_pair, shl_far, shr_far, mod-mul_self}
use tsc_vee.Uint128.{shiftl128, shiftr128, copy128, clear128}
use tsc_vee.Uint128.Value.{value128}
use tsc_vee.Uint128.Sum.{value-add128}
use tsc_vee.Uint128.Shift.{value-shiftl128, value-shiftr128}
use tsc_vee.Uint256.{Uint256, shiftl256, shiftr256}
use tsc_vee.Uint256.Value.{value256, IsWord256}

module _ (n : Uint256) (k : ℕ) (h : IsWord256 n) where
  abbrev u : ℕ
  u = value128 n.upper

  abbrev l : ℕ
  l = value128 n.lower

  shiftl256_near :
      k < 128
      → IsWord256 (shiftl256 n k) × (value256 (shiftl256 n k) ≡ (value256 n * 2 ^ k) % 2 ^ 256)
  unfolding shiftl256 copy128
  shiftl256_near lt =
      let cut : 2 ^ k * 2 ^ (128 - k) ≡ 2 ^ 128 = sym (two-pow_split k 128 (omega arith)) in
      let pair =
        shl_pair (2 ^ k) (2 ^ (128 - k)) (2 ^ 128) cut (two-pow-pos k) (two-pow-pos (128 - k)) u l
          (omega arith) in
      let high = value-shiftl128 n.upper k h.0 in
      let carry = value-shiftr128 n.lower (128 - k) h.1 in
      ground (
        arith,
        pair,
        high,
        carry,
        value-shiftl128 n.lower k h.1,
        value-add128 (shiftl128 n.upper k) (shiftr128 n.lower (128 - k)) high.0 carry.0,
      )

  shiftl256_far :
      128 ≤ k
      → k < 256
      → IsWord256 (shiftl256 n k) × (value256 (shiftl256 n k) ≡ (value256 n * 2 ^ k) % 2 ^ 256)
  unfolding shiftl256 clear128 copy128
  shiftl256_far ge lt = ground (
    arith,
    shl_far (2 ^ (k - 128)) (2 ^ 128) u l (omega arith),
    value-shiftl128 n.lower (k - 128) h.1,
    ap (λ t. (value256 n * t) % 2 ^ 256) (two-pow_over 128 k ge),
  )

  shiftl256_out :
      256 ≤ k
      → IsWord256 (shiftl256 n k) × (value256 (shiftl256 n k) ≡ (value256 n * 2 ^ k) % 2 ^ 256)
  unfolding shiftl256 clear128
  shiftl256_out ge = ground (
    arith,
    mod-mul_self (value256 n) (2 ^ (k - 256)) (2 ^ 256) (omega arith),
    ap (λ t. (value256 n * t) % 2 ^ 256) (two-pow_over 256 k ge),
  )

  shiftr256_near :
      k < 128 → IsWord256 (shiftr256 n k) × (value256 (shiftr256 n k) ≡ value256 n / 2 ^ k)
  unfolding shiftr256 copy128
  shiftr256_near lt =
      let cut : 2 ^ k * 2 ^ (128 - k) ≡ 2 ^ 128 = sym (two-pow_split k 128 (omega arith)) in
      let pair =
        shr_pair (2 ^ k) (2 ^ (128 - k)) (2 ^ 128) cut (two-pow-pos k) (two-pow-pos (128 - k)) u l
          (omega arith) in
      let low = value-shiftr128 n.lower k h.1 in
      let moved = value-shiftl128 n.upper (128 - k) h.0 in
      ground (
        arith,
        pair,
        low,
        moved,
        value-shiftr128 n.upper k h.0,
        value-add128 (shiftr128 n.lower k) (shiftl128 n.upper (128 - k)) low.0 moved.0,
      )

  shiftr256_far :
      128 ≤ k
      → k < 256
      → IsWord256 (shiftr256 n k) × (value256 (shiftr256 n k) ≡ value256 n / 2 ^ k)
  unfolding shiftr256 clear128 copy128
  shiftr256_far ge lt = ground (
    arith,
    shr_far (2 ^ (k - 128)) (2 ^ 128) u l (two-pow-pos (k - 128)) (omega arith),
    value-shiftr128 n.upper (k - 128) h.0,
    ap (λ t. value256 n / t) (two-pow_over 128 k ge),
  )

  shiftr256_out :
      256 ≤ k → IsWord256 (shiftr256 n k) × (value256 (shiftr256 n k) ≡ value256 n / 2 ^ k)
  unfolding shiftr256 clear128
  shiftr256_out ge =
      let big : 2 ^ 256 ≤ 2 ^ k = pow-le-pow_right {n = 2} (omega arith) ge in
      ground (arith, div-eq_of_lt {n = value256 n} {m = 2 ^ k} (omega arith))

  -- For a number of 64-bit words and any amount, `shiftl256` gives a number of 64-bit words
  -- whose value is the product with the power of two, modulo 2 ^ 256.
  pub value-shiftl256 :
      IsWord256 (shiftl256 n k) × (value256 (shiftl256 n k) ≡ (value256 n * 2 ^ k) % 2 ^ 256)
  value-shiftl256 = elim (dec_lt k 128) [
    | yes lt ↦ shiftl256_near lt
    | no ge ↦ elim (dec_lt k 256) [
      | yes lt ↦ shiftl256_far (omega arith) lt
      | no ge' ↦ shiftl256_out (omega arith)
    ]
  ]

  -- For a number of 64-bit words and any amount, `shiftr256` gives a number of 64-bit words
  -- whose value is the quotient by the power of two.
  pub value-shiftr256 : IsWord256 (shiftr256 n k) × (value256 (shiftr256 n k) ≡ value256 n / 2 ^ k)
  value-shiftr256 = elim (dec_lt k 128) [
    | yes lt ↦ shiftr256_near lt
    | no ge ↦ elim (dec_lt k 256) [
      | yes lt ↦ shiftr256_far (omega arith) lt
      | no ge' ↦ shiftr256_out (omega arith)
    ]
  ]
