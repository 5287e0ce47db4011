-- ===== src/Uint256.antt =====
-- The 256-bit half of src/uint256.c and include/uint256.h of the trusted application: two
-- 128-bit halves. A C function that writes `*target` returns the value written.
pub mod Value
pub mod Sum
pub mod Shift
pub mod Bitwise
pub mod Length
pub mod Product
pub mod Division
pub mod Tests
use tsc_vee.Base.{
  ℕ, ◌+◌, ◌-◌, Bool, ◌&&◌, ◌||◌, not, Option, some, ltb, leb, ◌==◌, if◌then◌else◌, u32, while,
  ◌>>=◌,
}
use tsc_vee.Uint128.{
  Uint128, zero128, copy128, clear128, shiftl128, shiftr128, equal128, gt128, add128, minus128,
  or128, xor128, and128, not128,
}

-- `struct uint256_t`: `elements[0]` is the upper half, `elements[1]` the lower one.
pub record Uint256 : Type 0 where
  pub upper : Uint128
  pub lower : Uint128

unfoldable pub zero256 : Uint256 → Bool
zero256 number = zero128 number.lower && zero128 number.upper

unfoldable pub copy256 : Uint256 → Uint256
unfolding copy128
copy256 number = record { upper = copy128 number.upper; lower = copy128 number.lower }

pub clear256 : Uint256
unfolding clear128
clear256 = record { upper = clear128; lower = clear128 }

pub shiftl256 : Uint256 → ℕ → Uint256
unfolding clear256 copy256
shiftl256 number value =
    if leb 256 value
    then clear256
    else if value == 128
    then record { upper = copy128 number.lower; lower = clear128 }
    else if value == 0
    then copy256 number
    else if ltb value 128
    then record {
      upper = add128 (shiftl128 number.upper value) (shiftr128 number.lower (128 - value));
      lower = shiftl128 number.lower value;
    }
    else if ltb value 256 && ltb 128 value
    then record { upper = shiftl128 number.lower (value - 128); lower = clear128 }
    else clear256

pub shiftr256 : Uint256 → ℕ → Uint256
unfolding clear256 copy256
shiftr256 number value =
    if leb 256 value
    then clear256
    else if value == 128
    then record { upper = clear128; lower = copy128 number.upper }
    else if value == 0
    then copy256 number
    else if ltb value 128
    then record {
      upper = shiftr128 number.upper value;
      lower = add128 (shiftr128 number.lower value) (shiftl128 number.upper (128 - value));
    }
    else if ltb value 256 && ltb 128 value
    then record { upper = clear128; lower = shiftr128 number.upper (value - 128) }
    else clear256

-- The variables of `while (!zero128(&up)) { shiftr128(&up, 1, &up); result++; }`.
pub record Count : Type 0 where
  pub half : Uint128
  pub result : ℕ

abbrev pub count_test : Count → Bool
count_test s = not (zero128 s.half)

abbrev pub count_body : Count → Count
count_body s = record { half = shiftr128 s.half 1; result = u32 (s.result + 1) }

-- 129 rounds are enough for 128 bits.
pub count_bits : Uint128 → ℕ → Option ℕ
count_bits half result = do
  s ← while 129 count_test count_body (record { half = copy128 half; result = result })
  some s.result

pub bits256 : Uint256 → Option ℕ
bits256 number =
    if not (zero128 number.upper) then count_bits number.upper 128 else count_bits number.lower 0

pub equal256 : Uint256 → Uint256 → Bool
equal256 number1 number2 =
    equal128 number1.upper number2.upper && equal128 number1.lower number2.lower

pub gt256 : Uint256 → Uint256 → Bool
gt256 number1 number2 =
    if equal128 number1.upper number2.upper
    then gt128 number1.lower number2.lower
    else gt128 number1.upper number2.upper

pub gte256 : Uint256 → Uint256 → Bool
unfolding gt256 equal256
gte256 number1 number2 = gt256 number1 number2 || equal256 number1 number2

abbrev pub one128 : Uint128
one128 = record { upper = 0; lower = 1 }

pub add256 : Uint256 → Uint256 → Uint256
add256 number1 number2 =
    let upper = add128 number1.upper number2.upper in
    let tmp = add128 number1.lower number2.lower in
    record {
      upper = if gt128 number1.lower tmp then add128 upper one128 else upper;
      lower = add128 number1.lower number2.lower;
    }

pub minus256 : Uint256 → Uint256 → Uint256
minus256 number1 number2 =
    let upper = minus128 number1.upper number2.upper in
    let tmp = minus128 number1.lower number2.lower in
    record {
      upper = if gt128 tmp number1.lower then minus128 upper one128 else upper;
      lower = minus128 number1.lower number2.lower;
    }

pub or256 : Uint256 → Uint256 → Uint256
or256 number1 number2 = record {
  upper = or128 number1.upper number2.upper;
  lower = or128 number1.lower number2.lower;
}

pub xor256 : Uint256 → Uint256 → Uint256
xor256 number1 number2 = record {
  upper = xor128 number1.upper number2.upper;
  lower = xor128 number1.lower number2.lower;
}

pub and256 : Uint256 → Uint256 → Uint256
and256 number1 number2 = record {
  upper = and128 number1.upper number2.upper;
  lower = and128 number1.lower number2.lower;
}

pub not256 : Uint256 → Uint256
not256 number = record { upper = not128 number.upper; lower = not128 number.lower }
