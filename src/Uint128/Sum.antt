-- ===== src/Uint128/Sum.antt =====
-- Sums, differences and comparisons of 128-bit numbers.
use tsc_vee.Base.{◌+◌, ◌-◌, ◌%◌, ◌^◌, ◌≡◌, arith, ◌==◌, ltb, leb}
use tsc_vee.Uint128.{Uint128, zero128, equal128, gt128, gte128, add128, minus128}
use tsc_vee.Uint128.Value.{value128, IsWord128}

-- `add128` is addition modulo 2 ^ 128.
pub value-add128 :
    (a b : Uint128)
    → IsWord128 a
    → IsWord128 b
    → IsWord128 (add128 a b) × (value128 (add128 a b) ≡ (value128 a + value128 b) % 2 ^ 128)
unfolding add128
value-add128 a b ha hb = ground arith

-- `minus128` is subtraction modulo 2 ^ 128.
pub value-minus128 :
    (a b : Uint128)
    → IsWord128 a
    → IsWord128 b
    → IsWord128 (minus128 a b)
      × (value128 (minus128 a b) ≡ (value128 a + 2 ^ 128 - value128 b) % 2 ^ 128)
unfolding minus128
value-minus128 a b ha hb = ground arith

-- The comparisons are those of the values.
pub gt128_lem :
    (a b : Uint128) → IsWord128 a → IsWord128 b → gt128 a b ≡ ltb (value128 b) (value128 a)
unfolding gt128
gt128_lem a b ha hb = ground arith

pub equal128_lem :
    (a b : Uint128) → IsWord128 a → IsWord128 b → equal128 a b ≡ (value128 a == value128 b)
unfolding equal128
equal128_lem a b ha hb = ground arith

pub gte128_lem :
    (a b : Uint128) → IsWord128 a → IsWord128 b → gte128 a b ≡ leb (value128 b) (value128 a)
unfolding gte128
gte128_lem a b ha hb = ground arith

pub zero128_lem : (a : Uint128) → zero128 a ≡ (value128 a == 0)
unfolding zero128
zero128_lem a = ground arith
