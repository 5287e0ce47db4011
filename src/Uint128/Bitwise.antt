-- ===== src/Uint128/Bitwise.antt =====
-- The bitwise operations on 128-bit numbers and their values.
use tsc_vee.Base.{◌-◌, ◌^◌, ◌≡◌, sym, arith, bit_or, bit_and, bit_xor}
use tsc_vee.Base.Bits.{
  bit_or_split, bit_and_split, bit_xor_split, bit_or-lt, bit_and-lt, bit_xor-lt, bit_xor_ones,
}
use tsc_vee.Uint128.{Uint128, or128, and128, xor128, not128}
use tsc_vee.Uint128.Value.{value128, IsWord128}

module _ (a b : Uint128) (ha : IsWord128 a) (hb : IsWord128 b) where
  pub value-or128 :
      IsWord128 (or128 a b) × (value128 (or128 a b) ≡ bit_or (value128 a) (value128 b))
  unfolding or128
  value-or128 = (
    (bit_or-lt 64 _ _ ha.0 hb.0, bit_or-lt 64 _ _ ha.1 hb.1),
    sym (bit_or_split 64 _ _ _ _ ha.1 hb.1),
  )

  pub value-and128 :
      IsWord128 (and128 a b) × (value128 (and128 a b) ≡ bit_and (value128 a) (value128 b))
  unfolding and128
  value-and128 = (
    (bit_and-lt 64 _ _ ha.0 hb.0, bit_and-lt 64 _ _ ha.1 hb.1),
    sym (bit_and_split 64 _ _ _ _ ha.1 hb.1),
  )

  pub value-xor128 :
      IsWord128 (xor128 a b) × (value128 (xor128 a b) ≡ bit_xor (value128 a) (value128 b))
  unfolding xor128
  value-xor128 = (
    (bit_xor-lt 64 _ _ ha.0 hb.0, bit_xor-lt 64 _ _ ha.1 hb.1),
    sym (bit_xor_split 64 _ _ _ _ ha.1 hb.1),
  )

-- `not128` takes the value from 2 ^ 128 - 1.
pub value-not128 :
    (a : Uint128)
    → IsWord128 a
    → IsWord128 (not128 a) × (value128 (not128 a) ≡ 2 ^ 128 - 1 - value128 a)
unfolding not128
value-not128 a h = omega (arith, bit_xor_ones 64 a.upper h.0, bit_xor_ones 64 a.lower h.1)
