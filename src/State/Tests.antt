-- ===== src/State/Tests.antt =====
-- The check for memory on a state with one word of memory.
use tsc_vee.Base.{ℕ, ◌+◌, ◌≤◌, ◌<◌, ◌^◌, ◌≡◌, ◌⊎◌, some, true, false, arith}
use tsc_vee.Base.Int.{pos, ltb_ℤ}
use tsc_vee.Uint256.Value.{value256}
use tsc_vee.Uint256.Tests.{small, small-IsWord}
use tsc_vee.Memory.{Memory}
use tsc_vee.Memory.Tests.{allocator, allocator-Reallocated, one_word, one_word-IsMemory}
use tsc_vee.State.{ExecutionState, check_memory_u64}
use tsc_vee.State.Laws.{check_memory_u64_lem, charged, Grows}

abbrev start : ExecutionState
start = record { gas_left = pos 1000; memory = one_word }

abbrev reach : ℕ
reach = value256 small + 32

check_memory_u64_lem_example :
    ((2 ^ 32 ≤ value256 small) × (check_memory_u64 allocator start small 32 ≡ some (false, start)))
    ⊎ ((value256 small < 2 ^ 32)
        × (reach ≤ 32)
        × (check_memory_u64 allocator start small 32 ≡ some (true, start)))
    ⊎ ((value256 small < 2 ^ 32)
        × (ltb_ℤ (charged start reach).gas_left (pos 0) ≡ true)
        × (check_memory_u64 allocator start small 32 ≡ some (false, charged start reach)))
    ⊎ ((value256 small < 2 ^ 32)
        × (ltb_ℤ (charged start reach).gas_left (pos 0) ≡ false)
        × ((m' : Memory) × (check_memory_u64 allocator start small 32
              ≡ some (true, record { gas_left = (charged start reach).gas_left; memory = m' }))
            × Grows one_word m' reach))
check_memory_u64_lem_example =
    check_memory_u64_lem allocator allocator-Reallocated start small 32 one_word-IsMemory
      small-IsWord (omega arith)
