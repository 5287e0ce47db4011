-- ===== src/Uint256/Bitwise.antt =====
-- The bitwise operations on 256-bit numbers and their values.
use tsc_vee.Base.{◌-◌, ◌+◌, ◌*◌, ◌^◌, ◌≡◌, ◌<◌, ◌∙◌, sym, ap₂, arith, bit_or, bit_and, bit_xor, ℕ}
use tsc_vee.Base.Bits.{bit_or_split, bit_and_split, bit_xor_split}
use tsc_vee.Uint128.{Uint128}
use tsc_vee.Uint128.Value.{value128, IsWord128}
use tsc_vee.Uint128.Bitwise.{value-or128, value-and128, value-xor128, value-not128}
use tsc_vee.Uint256.{Uint256, or256, and256, xor256, not256}
use tsc_vee.Uint256.Value.{value256, IsWord256}

pub value128-lt : (n : Uint128) → IsWord128 n → value128 n < 2 ^ 128
value128-lt n h = omega arith

module _ (a b : Uint256) (ha : IsWord256 a) (hb : IsWord256 b) where
  abbrev halves : ℕ → ℕ → ℕ
  halves x y = x * 2 ^ 128 + y

  -- For two numbers of 64-bit words, `or256` gives one whose value is the bitwise disjunction of
  -- the values.
  pub value-or256 :
      IsWord256 (or256 a b) × (value256 (or256 a b) ≡ bit_or (value256 a) (value256 b))
  unfolding or256
  value-or256 =
      let u = value-or128 a.upper b.upper ha.0 hb.0 in
      let l = value-or128 a.lower b.lower ha.1 hb.1 in
      (
        (u.0, l.0),
        ap₂ halves u.1 l.1
            ∙ sym (bit_or_split 128 _ _ _ _ (value128-lt a.lower ha.1) (value128-lt b.lower hb.1)),
      )

  -- For two numbers of 64-bit words, `and256` gives one whose value is the bitwise conjunction
  -- of the values.
  pub value-and256 :
      IsWord256 (and256 a b) × (value256 (and256 a b) ≡ bit_and (value256 a) (value256 b))
  unfolding and256
  value-and256 =
      let u = value-and128 a.upper b.upper ha.0 hb.0 in
      let l = value-and128 a.lower b.lower ha.1 hb.1 in
      (
        (u.0, l.0),
        ap₂ halves u.1 l.1
            ∙ sym (bit_and_split 128 _ _ _ _ (value128-lt a.lower ha.1) (value128-lt b.lower hb.1)),
      )

  -- For two numbers of 64-bit words, `xor256` gives one whose value is the bitwise exclusive
  -- disjunction of the values.
  pub value-xor256 :
      IsWord256 (xor256 a b) × (value256 (xor256 a b) ≡ bit_xor (value256 a) (value256 b))
  unfolding xor256
  value-xor256 =
      let u = value-xor128 a.upper b.upper ha.0 hb.0 in
      let l = value-xor128 a.lower b.lower ha.1 hb.1 in
      (
        (u.0, l.0),
        ap₂ halves u.1 l.1
            ∙ sym (bit_xor_split 128 _ _ _ _ (value128-lt a.lower ha.1) (value128-lt b.lower hb.1)),
      )

-- For a number of 64-bit words, `not256` gives one whose value is 2 ^ 256 - 1 less the value.
pub value-not256 :
    (a : Uint256)
    → IsWord256 a
    → IsWord256 (not256 a) × (value256 (not256 a) ≡ 2 ^ 256 - 1 - value256 a)
unfolding not256
value-not256 a h = omega (arith, value-not128 a.upper h.0, value-not128 a.lower h.1)
