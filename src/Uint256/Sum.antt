-- ===== src/Uint256/Sum.antt =====
-- Sums, differences and comparisons of 256-bit numbers.
use tsc_vee.Base.{◌+◌, ◌-◌, ◌%◌, ◌^◌, ◌≡◌, arith, ◌==◌, ltb, leb}
use tsc_vee.Uint128.{add128, minus128}
use tsc_vee.Uint128.Sum.{value-add128, value-minus128, gt128_lem, equal128_lem, zero128_lem}
use tsc_vee.Uint256.{Uint256, zero256, equal256, gt256, gte256, add256, minus256, one128}
use tsc_vee.Uint256.Value.{value256, IsWord256}

-- For two numbers of 64-bit words, `add256` gives one whose value is the sum modulo 2 ^ 256.
pub value-add256 :
    (a b : Uint256)
    → IsWord256 a
    → IsWord256 b
    → IsWord256 (add256 a b) × (value256 (add256 a b) ≡ (value256 a + value256 b) % 2 ^ 256)
unfolding add256
value-add256 a b ha hb =
    let u = value-add128 a.upper b.upper ha.0 hb.0 in
    let l = value-add128 a.lower b.lower ha.1 hb.1 in
    ground (
      arith,
      u,
      l,
      gt128_lem a.lower (add128 a.lower b.lower) ha.1 l.0,
      value-add128 (add128 a.upper b.upper) one128 u.0,
    )

-- For two numbers of 64-bit words, `minus256` gives one whose value is the difference modulo 2 ^
-- 256.
pub value-minus256 :
    (a b : Uint256)
    → IsWord256 a
    → IsWord256 b
    → IsWord256 (minus256 a b)
      × (value256 (minus256 a b) ≡ (value256 a + 2 ^ 256 - value256 b) % 2 ^ 256)
unfolding minus256
value-minus256 a b ha hb =
    let u = value-minus128 a.upper b.upper ha.0 hb.0 in
    let l = value-minus128 a.lower b.lower ha.1 hb.1 in
    ground (
      arith,
      u,
      l,
      gt128_lem (minus128 a.lower b.lower) a.lower l.0 ha.1,
      value-minus128 (minus128 a.upper b.upper) one128 u.0,
    )

-- For two numbers of 64-bit words, `gt256` is the comparison of the values.
pub gt256_lem :
    (a b : Uint256) → IsWord256 a → IsWord256 b → gt256 a b ≡ ltb (value256 b) (value256 a)
unfolding gt256
gt256_lem a b ha hb = ground (
  arith,
  equal128_lem a.upper b.upper ha.0 hb.0,
  gt128_lem a.upper b.upper ha.0 hb.0,
  gt128_lem a.lower b.lower ha.1 hb.1,
)

-- For two numbers of 64-bit words, `equal256` is the equality of the values.
pub equal256_lem :
    (a b : Uint256) → IsWord256 a → IsWord256 b → equal256 a b ≡ (value256 a == value256 b)
unfolding equal256
equal256_lem a b ha hb =
    ground (arith, equal128_lem a.upper b.upper ha.0 hb.0, equal128_lem a.lower b.lower ha.1 hb.1)

-- For two numbers of 64-bit words, `gte256` is the comparison of the values.
pub gte256_lem :
    (a b : Uint256) → IsWord256 a → IsWord256 b → gte256 a b ≡ leb (value256 b) (value256 a)
unfolding gte256
gte256_lem a b ha hb = ground (
  arith,
  equal128_lem a.upper b.upper ha.0 hb.0,
  gt128_lem a.upper b.upper ha.0 hb.0,
  gt128_lem a.lower b.lower ha.1 hb.1,
  equal128_lem a.lower b.lower ha.1 hb.1,
)

pub zero256_lem : (a : Uint256) → zero256 a ≡ (value256 a == 0)
unfolding zero256
zero256_lem a = ground (arith, zero128_lem a.upper, zero128_lem a.lower)
