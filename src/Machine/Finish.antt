-- ===== src/Machine/Finish.antt =====
-- The instructions that end a run: `return_` and `revert` of include/instructions.h.
use tsc_vee.Base.{ℕ, List, some, if◌then◌else◌, ◌==◌, Option}
use tsc_vee.Status.{evmc_success, evmc_revert}
use tsc_vee.Uint256.{Uint256}
use tsc_vee.Stack.{item, stack_top_get}
use tsc_vee.Machine.{Machine, Result, check_u256_then}

module _ {A : Type 0} where
  -- The output is the part of the memory; an output of no bytes keeps the offset of before.
  abbrev pub with_output : ℕ → ℕ → Machine A → Machine A
  with_output offset size m = record m {
    output_size = size;
    output_offset = if size == 0 then m.output_offset else offset;
  }

  module _ (realloc : List ℕ → ℕ → Option (List ℕ)) (stack : ℕ) (space : List Uint256)
      (m : Machine A) where
    unfoldable pub return_ : Result A
    unfolding check_u256_then
    return_ =
        let offset = item space (stack_top_get stack 0) in
        let size = item space (stack_top_get stack 1) in
        check_u256_then realloc offset size m
          (λ state. some (evmc_success, with_output offset.lower.lower size.lower.lower state))

    unfoldable pub revert : Result A
    unfolding check_u256_then
    revert =
        let offset = item space (stack_top_get stack 0) in
        let size = item space (stack_top_get stack 1) in
        check_u256_then realloc offset size m
          (λ state. some (evmc_revert, with_output offset.lower.lower size.lower.lower state))
