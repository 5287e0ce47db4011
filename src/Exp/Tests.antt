-- ===== src/Exp/Tests.antt =====
-- EXP with the exponent 1000.
use tsc_vee.Base.{◌≡◌, refl, [], ◌∷◌, set, replicate, some, arith}
use tsc_vee.Base.Int.{pos}
use tsc_vee.Uint256.Value.{value256}
use tsc_vee.Uint256.Tests.{big, big-IsWord}
use tsc_vee.Stack.{Stack, zero_item}
use tsc_vee.Stack.Laws.{set-IsSpace, zeros-IsSpace}
use tsc_vee.Arithmetic.Laws.Binary.{Holds}
use tsc_vee.Jump.{instruction, word_item}
use tsc_vee.Exp.{op_exp}
use tsc_vee.Exp.Laws.{op_exp-values}

abbrev power : Stack
power = record {
  space = set (set (replicate 1024 zero_item) 0 (word_item 1000)) 1 big;
  top_item = 2;
}

power-Holds : Holds power (value256 big ∷ 1000 ∷ [])
power-Holds =
    let s1 =
      set-IsSpace (replicate 1024 zero_item) 0 (word_item 1000) zeros-IsSpace (omega arith) in
    (
      (
        set-IsSpace (set (replicate 1024 zero_item) 0 (word_item 1000)) 1 big s1 big-IsWord,
        omega arith,
      ),
      refl,
    )

op_exp-values_example :
    (s' : Stack) × (op_exp 2000 4 power 9 (pos 100) ≡ some (instruction 5, s', pos 100))
    × Holds s' (0 ∷ [])
op_exp-values_example =
    op_exp-values 2000 4 power 9 100 (value256 big) 1000 [] power-Holds (omega arith) (omega arith)
