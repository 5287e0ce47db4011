-- ===== src/Uint128/Length.antt =====
-- The loop of `bits128` and its count.
use tsc_vee.Base.{
  ℕ, zero, suc, ◌+◌, ◌/◌, ◌^◌, ◌<◌, ◌≤◌, ◌≡◌, Option, some, refl, ap, ◌∙◌, arith, while, while-done,
  while-step, ◌>>=◌, Bool-cases, inl, inr, ◌==◌,
}
use tsc_vee.Base.Pow.{two-pow-suc, pow-add}
use tsc_vee.Base.BitLength.{IsBitLength}
use tsc_vee.Uint128.{Uint128, Count, count_test, count_body, count_bits, bits128}
use tsc_vee.Uint128.Value.{value128, IsWord128}

record Counts (word result : ℕ) (m : ℕ) (r : Option Count) : Type 0 where
  len : ℕ
  returns : r ≡ some (record { word = 0; result = result + len })
  length : IsBitLength word len
  short : len ≤ m

abbrev counter : ℕ → ℕ → Count
counter w r = record { word = w; result = r }

count_loop :
    (m word result : ℕ)
    → word < 2 ^ m
    → result + m < 2 ^ 32
    → Counts word result m (while (suc m) count_test count_body (counter word result))
count_loop m zero result fits small = record {
  len = 0;
  returns =
      while-done count_test count_body m (counter 0 result) refl
      ∙ ap (λ t. some (counter 0 t)) (omega arith);
  length = (omega arith, inl (refl, refl));
  short = omega arith;
}
count_loop zero (suc w) result fits small = absurd (omega arith)
count_loop (suc m) (suc w) result fits small =
    let ih = count_loop m (suc w / 2) (result + 1) (omega (arith, two-pow-suc m)) (omega arith) in
    record {
      len = suc ih.len;
      returns =
          while-step count_test count_body (suc m) (counter (suc w) result) (ground arith)
          ∙ ap (λ t. while (suc m) count_test count_body (counter (suc w / 2) t)) (omega arith)
          ∙ ih.returns
          ∙ ap (λ t. some (counter 0 t)) (omega arith);
      length = ground (arith, ih.length, two-pow-suc ih.len);
      short = omega arith;
    }

-- On a word of 64 bits the loop ends, and adds the bit length to the count.
count_bits_lem :
    (word result : ℕ)
    → word < 2 ^ 64
    → result ≤ 64
    → (len : ℕ) × (count_bits word result ≡ some (result + len)) × IsBitLength word len × (len ≤ 64)
unfolding count_bits
count_bits_lem word result fits small =
    let c = count_loop 64 word result fits (omega arith) in
    (c.len, rw (c.returns, ◌>>=◌), c.length, c.short)

-- `bits128` ends on every 128-bit number, and returns its bit length.
pub bits128_lem :
    (n : Uint128)
    → IsWord128 n
    → (len : ℕ) × (bits128 n ≡ some len) × IsBitLength (value128 n) len × (len ≤ 128)
unfolding bits128
bits128_lem n h = elim (Bool-cases (n.upper == 0)) [
  | inl none_above ↦
      let low = count_bits_lem n.lower 0 h.1 (omega arith) in
      (low.0, ground (arith, low.1), ground (arith, low.2), omega (arith, low.3))
  | inr some_above ↦
      let high = count_bits_lem n.upper 64 h.0 (omega arith) in
      (
        64 + high.0,
        ground (arith, high.1),
        ground (arith, high.2, pow-add 2 64 high.0),
        omega (arith, high.3),
      )
]
