-- ===== src/Arithmetic/Tests.antt =====
-- The theorems of the instructions on a stack of three numbers.
use tsc_vee.Base.{
  ◌+◌, ◌==◌, if◌then◌else◌, ◌*◌, ◌/◌, ◌%◌, ◌^◌, ◌≡◌, refl, [], ◌∷◌, some, set, replicate, arith,
}
use tsc_vee.Uint256.Value.{value256}
use tsc_vee.Uint256.Tests.{big, small, big-IsWord, small-IsWord}
use tsc_vee.Stack.{Stack, zero_item}
use tsc_vee.Stack.Laws.{set-IsSpace, zeros-IsSpace}
use tsc_vee.Arithmetic.Laws.Modular.{op_addmod-values}
use tsc_vee.Arithmetic.Handlers.{op_addmod, op_shl, op_mul, op_pop, op_byte}
use tsc_vee.Arithmetic.Extend.{op_signextend}
use tsc_vee.Arithmetic.Laws.Extend.{extended, op_signextend-values}
use tsc_vee.Arithmetic.Laws.Byte.{nth_byte, op_byte-values}
use tsc_vee.Arithmetic.Laws.Binary.{Binary, Holds, handler, meaning, handler-meaning}
use tsc_vee.Arithmetic.Laws.Division.{
  Dividing, divide_handler, divide_meaning, divide_handler-meaning,
}
use tsc_vee.Arithmetic.Laws.Shift.{op_shl-values, op_mul-values}
use tsc_vee.Arithmetic.Laws.Single.{
  Single, single_handler, single_meaning, single_handler-meaning, op_pop-values,
}
use tsc_vee.Uint128.{add128}
use tsc_vee.Uint128.Product.{digit32, products128, join128, columns128, mul128}
use tsc_vee.Uint256.Product.{digit64, products256, third_column}
use tsc_vee.Uint256.Product.Laws.{column_carry}

abbrev stack3 : Stack
stack3 = record {
  space = set (set (set (replicate 1024 zero_item) 0 big) 1 small) 2 big;
  top_item = 3;
}

-- A stack that the theorem on MUL applies to.
abbrev stack_small : Stack
stack_small = record { space = set (set (replicate 1024 zero_item) 0 small) 1 small; top_item = 2 }

stack3-Holds : Holds stack3 (value256 big ∷ value256 small ∷ value256 big ∷ [])
stack3-Holds =
    let s1 = set-IsSpace (replicate 1024 zero_item) 0 big zeros-IsSpace big-IsWord in
    let s2 = set-IsSpace (set (replicate 1024 zero_item) 0 big) 1 small s1 small-IsWord in
    (
      (
        set-IsSpace (set (set (replicate 1024 zero_item) 0 big) 1 small) 2 big s2 big-IsWord,
        omega arith,
      ),
      refl,
    )

stack_small-Holds : Holds stack_small (value256 small ∷ value256 small ∷ [])
stack_small-Holds =
    let s1 = set-IsSpace (replicate 1024 zero_item) 0 small zeros-IsSpace small-IsWord in
    (
      (set-IsSpace (set (replicate 1024 zero_item) 0 small) 1 small s1 small-IsWord, omega arith),
      refl,
    )

no_carry : column_carry (products256 small small) ≡ 0
unfolding add128 digit32 products128 join128 columns128 mul128 digit64 products256 third_column
no_carry = refl

handler-meaning_example :
    Holds
      (handler Binary.sub stack3)
      (meaning Binary.sub (value256 big) (value256 small) ∷ value256 big ∷ [])
handler-meaning_example =
    handler-meaning Binary.sub stack3 (value256 big) (value256 small) (value256 big ∷ [])
      stack3-Holds

divide_handler-meaning_example :
    (s' : Stack) × (divide_handler Dividing.mod_ stack3 ≡ some s')
    × Holds s' (divide_meaning Dividing.mod_ (value256 big) (value256 small) ∷ value256 big ∷ [])
divide_handler-meaning_example =
    divide_handler-meaning Dividing.mod_ stack3 (value256 big) (value256 small) (value256 big ∷ [])
      stack3-Holds

op_shl-values_example :
    Holds
      (op_shl stack3)
      (value256 small * 2 ^ (value256 big % 2 ^ 32) % 2 ^ 256 ∷ value256 big ∷ [])
op_shl-values_example =
    op_shl-values stack3 (value256 big) (value256 small) (value256 big ∷ []) stack3-Holds

op_mul-values_example : Holds (op_mul stack_small) (value256 small * value256 small % 2 ^ 256 ∷ [])
op_mul-values_example =
    op_mul-values stack_small (value256 small) (value256 small) [] stack_small-Holds no_carry

single_handler-meaning_example :
    Holds
      (single_handler Single.not stack3)
      (single_meaning Single.not (value256 big) ∷ value256 small ∷ value256 big ∷ [])
single_handler-meaning_example =
    single_handler-meaning Single.not stack3 (value256 big) (value256 small ∷ value256 big ∷ [])
      stack3-Holds

op_pop-values_example : Holds (op_pop stack3) (value256 small ∷ value256 big ∷ [])
op_pop-values_example =
    op_pop-values stack3 (value256 big) (value256 small ∷ value256 big ∷ []) stack3-Holds

op_addmod-values_example :
    (s' : Stack) × (op_addmod stack3 ≡ some s')
    × Holds s' (
        (if value256 big == 0 then 0 else (value256 big + value256 small) % 2 ^ 256 / value256 big)
        ∷ [])
op_addmod-values_example =
    op_addmod-values stack3 (value256 big) (value256 small) (value256 big) [] stack3-Holds

op_signextend-values_example :
    Holds (op_signextend stack3) (extended (value256 big) (value256 small) ∷ value256 big ∷ [])
op_signextend-values_example =
    op_signextend-values stack3 (value256 big) (value256 small) (value256 big ∷ []) stack3-Holds

op_byte-values_example :
    Holds (op_byte stack3) (nth_byte (value256 big) (value256 small) ∷ value256 big ∷ [])
op_byte-values_example =
    op_byte-values stack3 (value256 big) (value256 small) (value256 big ∷ []) stack3-Holds
