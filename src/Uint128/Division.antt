-- ===== src/Uint128/Division.antt =====
-- `divmod128`: the division of `Division` at 128 bits, with 129 tests of the loop.
use tsc_vee.Base.{ℕ, ◌/◌, ◌%◌, ◌<◌, ◌≡◌, Option, some, none, arith}
use tsc_vee.Division.{Operations, Quotient, divmod}
use tsc_vee.Division.Interface.{Laws}
use tsc_vee.Division.Total.{divmod_total, divmod_zero}
use tsc_vee.Uint128.{
  Uint128, clear128, shiftl128, shiftr128, bits128, gt128, gte128, minus128, or128,
}
use tsc_vee.Uint128.Value.{value128, IsWord128}
use tsc_vee.Uint128.Sum.{value-minus128, gt128_lem, gte128_lem}
use tsc_vee.Uint128.Shift.{value-shiftl128, value-shiftr128}
use tsc_vee.Uint128.Bitwise.{value-or128}
use tsc_vee.Uint128.Length.{bits128_lem}

abbrev pub operations128 : Operations Uint128
operations128 = record {
  clear = clear128;
  one = record { upper = 0; lower = 1 };
  bits = bits128;
  shiftl = shiftl128;
  shiftr = shiftr128;
  gt = gt128;
  gte = gte128;
  minus = minus128;
  or = or128;
}

unfoldable pub divmod128 : Uint128 → Uint128 → Option (Quotient Uint128)
divmod128 l r = divmod operations128 r 129 l

abbrev pub laws128 : Laws operations128
unfolding clear128
laws128 = record {
  width = 128;
  small_width = omega arith;
  IsWord = IsWord128;
  value = value128;
  value-lt = λ a h. omega arith;
  clear_lem = omega arith;
  one_lem = omega arith;
  bits_lem = bits128_lem;
  shiftl_lem = value-shiftl128;
  shiftr_lem = value-shiftr128;
  gt_lem = gt128_lem;
  gte_lem = gte128_lem;
  minus_lem = value-minus128;
  or_lem = value-or128;
}

-- For two 128-bit numbers of 64-bit words, the divisor not 0, `divmod128` ends, with the
-- quotient and the remainder of the values.
pub divmod128_lem :
    (l r : Uint128)
    → IsWord128 l
    → IsWord128 r
    → 0 < value128 r
    → (q : Quotient Uint128) × (divmod128 l r ≡ some q)
      × (IsWord128 q.div × IsWord128 q.mod_)
      × (value128 q.div ≡ value128 l / value128 r)
      × (value128 q.mod_ ≡ value128 l % value128 r)
unfolding divmod128 laws128
divmod128_lem l r hl hr pos =
    let t = divmod_total laws128 l r hl hr pos 128 (omega arith) in
    (t.0, t.1, (t.2.div_word, t.2.mod_word), t.2.div_lem, t.2.mod_lem)

-- `divmod128` by 0 runs for ever: no number of rounds ends its loop.
pub divmod128_zero :
    (l r : Uint128)
    → IsWord128 l
    → IsWord128 r
    → value128 r ≡ 0
    → (fuel : ℕ) → divmod operations128 r fuel l ≡ none
unfolding laws128
divmod128_zero l r hl hr = divmod_zero laws128 l r hl hr
