-- ===== src/Shuffle/Tests.antt =====
-- DUP and SWAP on a stack of three numbers.
use tsc_vee.Base.{ℕ, refl, List, [], ◌∷◌, set, replicate, arith}
use tsc_vee.Uint256.Value.{value256}
use tsc_vee.Uint256.Tests.{big, small, big-IsWord, small-IsWord}
use tsc_vee.Stack.{Stack, zero_item}
use tsc_vee.Stack.Laws.{set-IsSpace, zeros-IsSpace}
use tsc_vee.Arithmetic.Laws.Binary.{Holds}
use tsc_vee.Shuffle.{op_dup, op_swap}
use tsc_vee.Shuffle.Laws.{op_dup-values, op_swap-values}

abbrev three : Stack
three = record {
  space = set (set (set (replicate 1024 zero_item) 0 big) 1 big) 2 small;
  top_item = 3;
}

abbrev numbers : List ℕ
numbers = value256 small ∷ value256 big ∷ value256 big ∷ []

three-Holds : Holds three numbers
three-Holds =
    let s1 = set-IsSpace (replicate 1024 zero_item) 0 big zeros-IsSpace big-IsWord in
    let s2 = set-IsSpace (set (replicate 1024 zero_item) 0 big) 1 big s1 big-IsWord in
    (
      (
        set-IsSpace (set (set (replicate 1024 zero_item) 0 big) 1 big) 2 small s2 small-IsWord,
        omega arith,
      ),
      refl,
    )

op_dup-values_example : Holds (op_dup 2 three) (value256 big ∷ numbers)
op_dup-values_example =
    op_dup-values 1 three (value256 big) numbers (omega arith) three-Holds (omega arith) refl

op_swap-values_example :
    Holds (op_swap 2 three) (set (set numbers 0 (value256 big)) 2 (value256 small))
op_swap-values_example =
    op_swap-values 1 three (value256 small) (value256 big) numbers (omega arith) three-Holds refl
      refl
