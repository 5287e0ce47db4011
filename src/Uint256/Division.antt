-- ===== src/Uint256/Division.antt =====
-- `divmod256`: the division of `Division` at 256 bits, with 257 tests of the loop.
use tsc_vee.Base.{ℕ, ◌/◌, ◌%◌, ◌<◌, ◌≡◌, Option, some, none, arith}
use tsc_vee.Division.{Operations, Quotient, divmod}
use tsc_vee.Division.Interface.{Laws}
use tsc_vee.Division.Total.{divmod_total, divmod_zero}
use tsc_vee.Uint128.{clear128}
use tsc_vee.Uint256.{
  Uint256, clear256, shiftl256, shiftr256, bits256, gt256, gte256, minus256, or256,
}
use tsc_vee.Uint256.Value.{value256, IsWord256}
use tsc_vee.Uint256.Sum.{value-minus256, gt256_lem, gte256_lem}
use tsc_vee.Uint256.Shift.{value-shiftl256, value-shiftr256}
use tsc_vee.Uint256.Bitwise.{value-or256}
use tsc_vee.Uint256.Length.{bits256_lem}

abbrev pub operations256 : Operations Uint256
operations256 = record {
  clear = clear256;
  one = record { upper = clear128; lower = record { upper = 0; lower = 1 } };
  bits = bits256;
  shiftl = shiftl256;
  shiftr = shiftr256;
  gt = gt256;
  gte = gte256;
  minus = minus256;
  or = or256;
}

unfoldable pub divmod256 : Uint256 → Uint256 → Option (Quotient Uint256)
divmod256 l r = divmod operations256 r 257 l

abbrev pub laws256 : Laws operations256
unfolding clear256 clear128
laws256 = record {
  width = 256;
  small_width = omega arith;
  IsWord = IsWord256;
  value = value256;
  value-lt = λ a h. omega arith;
  clear_lem = omega arith;
  one_lem = omega arith;
  bits_lem = bits256_lem;
  shiftl_lem = value-shiftl256;
  shiftr_lem = value-shiftr256;
  gt_lem = gt256_lem;
  gte_lem = gte256_lem;
  minus_lem = value-minus256;
  or_lem = value-or256;
}

-- For two 256-bit numbers of 64-bit words, the divisor not 0, `divmod256` ends within its 257
-- rounds, and its results are well-formed numbers whose values are the quotient and the
-- remainder.
pub divmod256_lem :
    (l r : Uint256)
    → IsWord256 l
    → IsWord256 r
    → 0 < value256 r
    → (q : Quotient Uint256) × (divmod256 l r ≡ some q)
      × (IsWord256 q.div × IsWord256 q.mod_)
      × (value256 q.div ≡ value256 l / value256 r)
      × (value256 q.mod_ ≡ value256 l % value256 r)
unfolding divmod256 laws256
divmod256_lem l r hl hr pos =
    let t = divmod_total laws256 l r hl hr pos 256 (omega arith) in
    (t.0, t.1, (t.2.div_word, t.2.mod_word), t.2.div_lem, t.2.mod_lem)

-- For two numbers of 64-bit words, the divisor 0, no number of rounds ends the loop of
-- `divmod256`.
pub divmod256_zero :
    (l r : Uint256)
    → IsWord256 l
    → IsWord256 r
    → value256 r ≡ 0
    → (fuel : ℕ) → divmod operations256 r fuel l ≡ none
unfolding laws256
divmod256_zero l r hl hr = divmod_zero laws256 l r hl hr
