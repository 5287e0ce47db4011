-- ===== src/Uint256/Length.antt =====
-- The loop of `bits256` and its count.
use tsc_vee.Base.{
  ℕ, zero, suc, ◌+◌, ◌^◌, ◌<◌, ◌≤◌, ◌≡◌, Option, some, ap, ◌∙◌, arith, while, not, while-done,
  while-step, ◌>>=◌, Bool-cases, inl, inr,
}
use tsc_vee.Base.Pow.{two-pow-suc, pow-add}
use tsc_vee.Base.BitLength.{IsBitLength}
use tsc_vee.Uint128.{Uint128, zero128, shiftr128, copy128}
use tsc_vee.Uint128.Value.{value128, IsWord128}
use tsc_vee.Uint128.Sum.{zero128_lem}
use tsc_vee.Uint128.Shift.{value-shiftr128}
use tsc_vee.Uint256.{Uint256, Count, count_test, count_body, count_bits, bits256}
use tsc_vee.Uint256.Value.{value256, IsWord256}

abbrev counter : Uint128 → ℕ → Count
counter n r = record { half = n; result = r }

record Counts (n : Uint128) (result : ℕ) (m : ℕ) (r : Option Count) : Type 0 where
  len : ℕ
  rest : Uint128
  returns : r ≡ some (counter rest (result + len))
  length : IsBitLength (value128 n) len
  short : len ≤ m

count_loop :
    (m : ℕ) (n : Uint128) (result : ℕ)
    → IsWord128 n
    → value128 n < 2 ^ m
    → result + m < 2 ^ 32
    → Counts n result m (while (suc m) count_test count_body (counter n result))
count_loop zero n result h fits small = record {
  len = 0;
  rest = n;
  returns =
      while-done count_test count_body 0 (counter n result) (ground (arith, zero128_lem n))
      ∙ ap (λ t. some (counter n t)) (omega arith);
  length = omega arith;
  short = omega arith;
}
count_loop (suc m) n result h fits small = elim (Bool-cases (zero128 n)) [
  | inl none_left ↦ record {
    len = 0;
    rest = n;
    returns =
        while-done count_test count_body (suc m) (counter n result) (ap not none_left)
        ∙ ap (λ t. some (counter n t)) (omega arith);
    length = ground (arith, zero128_lem n);
    short = omega arith;
  }
  | inr some_left ↦
      let half = value-shiftr128 n 1 h in
      let ih =
        count_loop m (shiftr128 n 1) (result + 1) half.0 (omega (arith, half.1, two-pow-suc m))
          (omega arith) in
      record {
        len = suc ih.len;
        rest = ih.rest;
        returns =
            while-step count_test count_body (suc m) (counter n result) (ap not some_left)
            ∙ ap (λ t. while (suc m) count_test count_body (counter (shiftr128 n 1) t))
                (omega arith)
            ∙ ih.returns
            ∙ ap (λ t. some (counter ih.rest t)) (omega arith);
        length = ground (arith, ih.length, half.1, two-pow-suc ih.len, zero128_lem n);
        short = omega arith;
      }
]

-- On 128 bits the loop ends, and adds the bit length to the count.
count_bits_lem :
    (n : Uint128) (result : ℕ)
    → IsWord128 n
    → result ≤ 128
    → (len : ℕ) × (count_bits n result ≡ some (result + len))
      × IsBitLength (value128 n) len
      × (len ≤ 128)
unfolding count_bits copy128
count_bits_lem n result h small =
    let c = count_loop 128 n result h (omega arith) (omega arith) in
    (c.len, rw (c.returns, ◌>>=◌), c.length, c.short)

-- For a number of 64-bit words the loop of `bits256` ends, and its result is the bit length of
-- the value, at most 256.
pub bits256_lem :
    (n : Uint256)
    → IsWord256 n
    → (len : ℕ) × (bits256 n ≡ some len) × IsBitLength (value256 n) len × (len ≤ 256)
unfolding bits256
bits256_lem n h = elim (Bool-cases (zero128 n.upper)) [
  | inl none_above ↦
      let low = count_bits_lem n.lower 0 h.1 (omega arith) in
      (
        low.0,
        ground (arith, low.1),
        ground (arith, low.2, zero128_lem n.upper),
        omega (arith, low.3),
      )
  | inr some_above ↦
      let high = count_bits_lem n.upper 128 h.0 (omega arith) in
      (
        128 + high.0,
        ground (arith, high.1),
        ground (arith, high.2, zero128_lem n.upper, pow-add 2 128 high.0),
        omega (arith, high.3),
      )
]
