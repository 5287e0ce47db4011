-- ===== src/Uint128.antt =====
-- The 128-bit half of src/uint256.c and include/uint256.h of the trusted application, two
-- 64-bit words. A C function that writes `*target` returns the value written; every caller
-- passes either a fresh target or one that is read before it is written.

pub mod Value
pub mod Sum
pub mod Shift
pub mod Bitwise
pub mod Length
pub mod Product
pub mod Division
mod Tests
use tsc_vee.Base.{
  ℕ, ◌+◌, ◌-◌, ◌*◌, ◌/◌, ◌^◌, Bool, ◌&&◌, ◌||◌, not, Option, some, ltb, leb, ◌==◌, if◌then◌else◌,
  from_bool, u32, u64, while, ◌>>=◌, bit_and, bit_or, bit_xor,
}

-- `struct uint128_t`: `elements[0]` is the upper word, `elements[1]` the lower one.
pub record Uint128 : Type 0 where
  pub upper : ℕ
  pub lower : ℕ

unfoldable pub zero128 : Uint128 → Bool
zero128 number = number.lower == 0 && number.upper == 0

unfoldable pub copy128 : Uint128 → Uint128
copy128 number = record { upper = number.upper; lower = number.lower }

unfoldable pub clear128 : Uint128
clear128 = record { upper = 0; lower = 0 }

-- `uint64_t` shifts; the source shifts by less than 64 only.
abbrev pub shl64 : ℕ → ℕ → ℕ
shl64 x k = u64 (x * 2 ^ k)

abbrev pub shr64 : ℕ → ℕ → ℕ
shr64 x k = x / 2 ^ k

unfoldable pub shiftl128 : Uint128 → ℕ → Uint128
unfolding clear128 copy128
shiftl128 number value =
    if leb 128 value
    then clear128
    else if value == 64
    then record { upper = number.lower; lower = 0 }
    else if value == 0
    then copy128 number
    else if ltb value 64
    then record {
      upper = u64 (shl64 number.upper value + shr64 number.lower (64 - value));
      lower = shl64 number.lower value;
    }
    else if ltb value 128 && ltb 64 value
    then record { upper = shl64 number.lower (value - 64); lower = 0 }
    else clear128

unfoldable pub shiftr128 : Uint128 → ℕ → Uint128
unfolding clear128 copy128
shiftr128 number value =
    if leb 128 value
    then clear128
    else if value == 64
    then record { upper = 0; lower = number.upper }
    else if value == 0
    then copy128 number
    else if ltb value 64
    then record {
      upper = shr64 number.upper value;
      lower = u64 (shl64 number.upper (64 - value) + shr64 number.lower value);
    }
    else if ltb value 128 && ltb 64 value
    then record { upper = 0; lower = shr64 number.upper (value - 64) }
    else clear128

-- The loop `while (x) { x >>= 1; result++; }` on a word of 64 bits: its two variables.
pub record Count : Type 0 where
  pub word : ℕ
  pub result : ℕ

abbrev pub count_test : Count → Bool
count_test s = not (s.word == 0)

abbrev pub count_body : Count → Count
count_body s = record { word = s.word / 2; result = u32 (s.result + 1) }

-- 65 rounds are enough for a word of 64 bits.
pub count_bits : ℕ → ℕ → Option ℕ
count_bits word result = do
  s ← while 65 count_test count_body (record { word = word; result = result })
  some s.result

pub bits128 : Uint128 → Option ℕ
bits128 number =
    if not (number.upper == 0) then count_bits number.upper 64 else count_bits number.lower 0

unfoldable pub equal128 : Uint128 → Uint128 → Bool
equal128 number1 number2 = number1.upper == number2.upper && number1.lower == number2.lower

unfoldable pub gt128 : Uint128 → Uint128 → Bool
gt128 number1 number2 =
    if number1.upper == number2.upper
    then ltb number2.lower number1.lower
    else ltb number2.upper number1.upper

unfoldable pub gte128 : Uint128 → Uint128 → Bool
unfolding gt128 equal128
gte128 number1 number2 = gt128 number1 number2 || equal128 number1 number2

unfoldable pub add128 : Uint128 → Uint128 → Uint128
add128 number1 number2 = record {
  upper = u64 (
      u64 (number1.upper + number2.upper)
      + from_bool (ltb (u64 (number1.lower + number2.lower)) number1.lower));
  lower = u64 (number1.lower + number2.lower);
}

-- `uint64_t` subtraction wraps.
abbrev pub sub64 : ℕ → ℕ → ℕ
sub64 a b = u64 (a + 2 ^ 64 - b)

unfoldable pub minus128 : Uint128 → Uint128 → Uint128
minus128 number1 number2 = record {
  upper =
      sub64 (sub64 number1.upper number2.upper)
        (from_bool (ltb number1.lower (sub64 number1.lower number2.lower)));
  lower = sub64 number1.lower number2.lower;
}

unfoldable pub or128 : Uint128 → Uint128 → Uint128
or128 number1 number2 = record {
  upper = bit_or number1.upper number2.upper;
  lower = bit_or number1.lower number2.lower;
}

unfoldable pub xor128 : Uint128 → Uint128 → Uint128
xor128 number1 number2 = record {
  upper = bit_xor number1.upper number2.upper;
  lower = bit_xor number1.lower number2.lower;
}

unfoldable pub and128 : Uint128 → Uint128 → Uint128
and128 number1 number2 = record {
  upper = bit_and number1.upper number2.upper;
  lower = bit_and number1.lower number2.lower;
}

-- `~x` of a `uint64_t` flips every bit.
abbrev pub not64 : ℕ → ℕ
not64 x = bit_xor x (2 ^ 64 - 1)

unfoldable pub not128 : Uint128 → Uint128
not128 number = record { upper = not64 number.upper; lower = not64 number.lower }
