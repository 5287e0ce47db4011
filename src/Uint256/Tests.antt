-- ===== src/Uint256/Tests.antt =====
-- The theorems of the 256-bit numbers at concrete numbers.
use tsc_vee.Base.{ℕ, ◌+◌, ◌-◌, ◌*◌, ◌/◌, ◌%◌, ◌^◌, ◌≤◌, ◌≡◌, ◌↔◌, some, none, arith}
use tsc_vee.Base.BitLength.{IsBitLength}
use tsc_vee.Division.{Quotient, divmod}
use tsc_vee.Uint256.{Uint256, shiftl256, bits256}
use tsc_vee.Uint256.Value.{value256, IsWord256}
use tsc_vee.Uint256.Shift.{value-shiftl256}
use tsc_vee.Uint256.Length.{bits256_lem}
use tsc_vee.Uint256.Product.{mul256, products256}
use tsc_vee.Uint256.Product.Laws.{value-mul256, mul256_exact_iff, column_carry}
use tsc_vee.Uint256.Division.{divmod256, operations256, divmod256_lem, divmod256_zero}

abbrev pub big : Uint256
big = record {
  upper = record { upper = 0xffffffffffffffff; lower = 0x123456789abcdef0 };
  lower = record { upper = 7; lower = 0xfedcba9876543210 };
}

abbrev pub small : Uint256
small = record { upper = record { upper = 0; lower = 0 }; lower = record { upper = 2; lower = 11 } }

abbrev nothing : Uint256
nothing = record {
  upper = record { upper = 0; lower = 0 };
  lower = record { upper = 0; lower = 0 };
}

pub big-IsWord : IsWord256 big
big-IsWord = omega arith

pub small-IsWord : IsWord256 small
small-IsWord = omega arith

nothing-IsWord : IsWord256 nothing
nothing-IsWord = omega arith

divmod256_lem_example :
    (q : Quotient Uint256) × (divmod256 big small ≡ some q)
    × (IsWord256 q.div × IsWord256 q.mod_)
    × (value256 q.div ≡ value256 big / value256 small)
    × (value256 q.mod_ ≡ value256 big % value256 small)
divmod256_lem_example = divmod256_lem big small big-IsWord small-IsWord (omega arith)

divmod256_zero_example : divmod operations256 nothing 1000 big ≡ none
divmod256_zero_example = divmod256_zero big nothing big-IsWord nothing-IsWord (omega arith) 1000

value-mul256_example :
    IsWord256 (mul256 big small)
    × (value256 (mul256 big small)
        ≡ (value256 big * value256 small
            + column_carry (products256 big small) * (2 ^ 192 - 2 ^ 128))
          % 2 ^ 256)
value-mul256_example = value-mul256 big small big-IsWord small-IsWord

mul256_exact_iff_example :
    (value256 (mul256 big small) ≡ (value256 big * value256 small) % 2 ^ 256)
    ↔ (column_carry (products256 big small) ≡ 0)
mul256_exact_iff_example = mul256_exact_iff big small big-IsWord small-IsWord

value-shiftl256_example :
    IsWord256 (shiftl256 big 131)
    × (value256 (shiftl256 big 131) ≡ (value256 big * 2 ^ 131) % 2 ^ 256)
value-shiftl256_example = value-shiftl256 big 131 big-IsWord

bits256_lem_example :
    (len : ℕ) × (bits256 small ≡ some len) × IsBitLength (value256 small) len × (len ≤ 256)
bits256_lem_example = bits256_lem small small-IsWord
