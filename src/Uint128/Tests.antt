-- ===== src/Uint128/Tests.antt =====
-- The theorems of the 128-bit numbers at concrete numbers.
use tsc_vee.Base.{ℕ, ◌+◌, ◌-◌, ◌%◌, ◌^◌, ◌≤◌, ◌≡◌, some, arith}
use tsc_vee.Base.BitLength.{IsBitLength}
use tsc_vee.Uint128.{Uint128, add128, minus128, bits128}
use tsc_vee.Uint128.Value.{value128, IsWord128}
use tsc_vee.Uint128.Sum.{value-add128, value-minus128}
use tsc_vee.Uint128.Length.{bits128_lem}

abbrev big : Uint128
big = record { upper = 0xffffffffffffffff; lower = 0x123456789abcdef0 }

abbrev small : Uint128
small = record { upper = 0; lower = 1000 }

big-IsWord : IsWord128 big
big-IsWord = omega arith

small-IsWord : IsWord128 small
small-IsWord = omega arith

value-add128_example :
    IsWord128 (add128 big small)
    × (value128 (add128 big small) ≡ (value128 big + value128 small) % 2 ^ 128)
value-add128_example = value-add128 big small big-IsWord small-IsWord

value-minus128_example :
    IsWord128 (minus128 small big)
    × (value128 (minus128 small big) ≡ (value128 small + 2 ^ 128 - value128 big) % 2 ^ 128)
value-minus128_example = value-minus128 small big small-IsWord big-IsWord

bits128_lem_example :
    (len : ℕ) × (bits128 small ≡ some len) × IsBitLength (value128 small) len × (len ≤ 128)
bits128_lem_example = bits128_lem small small-IsWord
