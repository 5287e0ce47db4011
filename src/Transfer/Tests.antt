-- ===== src/Transfer/Tests.antt =====
-- A word that is stored behind the only word of a memory, and loaded.
use tsc_vee.Base.{◌^◌, ◌≤◌, ◌≡◌, ◌⊎◌, refl, List, set, replicate, true, some}
use tsc_vee.Base.Int.{pos}
use tsc_vee.Status.{evmc_success, evmc_out_of_gas}
use tsc_vee.Uint256.{Uint256}
use tsc_vee.Uint256.Value.{value256}
use tsc_vee.Uint256.Tests.{big, small, big-IsWord, small-IsWord}
use tsc_vee.Stack.{set_item, zero_item}
use tsc_vee.Memory.Laws.{IsMemory}
use tsc_vee.Memory.Tests.{allocator, allocator-Reallocated, one_word, one_word-IsMemory}
use tsc_vee.State.{ExecutionState}
use tsc_vee.Transfer.{mload, mstore}
use tsc_vee.Transfer.Laws.{too_dear, mload-mstore}

abbrev start : ExecutionState
start = record { gas_left = pos 1000; memory = one_word }

abbrev two : List Uint256
two = set (set (replicate 1024 zero_item) 0 big) 1 small

mload-mstore_example :
    ((after : ExecutionState) × (mstore allocator 2 two start ≡ some (evmc_success, after))
      × IsMemory after.memory
      × (mload allocator 2 two after ≡ some (evmc_success, set_item two 2 big, after)))
    ⊎ ((after : ExecutionState) × (mstore allocator 2 two start ≡ some (evmc_out_of_gas, after))
        × (after.memory ≡ one_word)
        × ((2 ^ 32 ≤ value256 small)
            ⊎ (too_dear allocator allocator-Reallocated start small ≡ true)))
mload-mstore_example =
    mload-mstore allocator allocator-Reallocated 2 two start 2 two one_word-IsMemory small-IsWord
      big-IsWord refl
