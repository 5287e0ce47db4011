-- ===== src/Machine/Copy/Tests.antt =====
-- Copies of an input of three bytes to a memory of one word.
use tsc_vee.Base.{◌-◌, ◌^◌, ◌≡◌, refl, List, set, replicate, some, none, true, arith}
use tsc_vee.Base.Int.{pos, ◌-ℤ◌}
use tsc_vee.Uint256.{Uint256}
use tsc_vee.Stack.{item, zero_item, one_item}
use tsc_vee.Jump.{word_item}
use tsc_vee.Memory.Tests.{allocator, allocator-Reallocated, one_word, one_word-IsMemory}
use tsc_vee.State.{check_memory_u256}
use tsc_vee.Machine.{Machine, estate}
use tsc_vee.Machine.Fixtures.{Accounts, message, blank}
use tsc_vee.Machine.Copy.{calldatacopy}
use tsc_vee.Machine.Copy.Input.{Copies, calldatacopy-Copies}
use tsc_vee.Machine.Copy.Escape.{calldatacopy_wraps}

abbrev start : Machine Accounts
start = record blank { memory = one_word; gas_left = pos 1000 }

-- Five bytes from the second on, to the fourth place.
abbrev five : List Uint256
five = set (set (set (replicate 1024 zero_item) 0 (word_item 5)) 1 one_item) 2 (word_item 3)

calldatacopy-Copies_example :
    Copies message.input (word_item 3) 1 5 start (calldatacopy allocator 3 five start)
calldatacopy-Copies_example =
    calldatacopy-Copies allocator allocator-Reallocated 3 five start one_word-IsMemory (omega arith)
      (omega arith) (omega arith)

-- A size that with the offset 31 makes 2 ^ 64.
abbrev vast : List Uint256
vast =
    set (set (set (replicate 1024 zero_item) 0 (word_item (2 ^ 64 - 31))) 1 one_item) 2
      (word_item 31)

calldatacopy_wraps_example :
    (check_memory_u256 allocator (estate start) (item vast 3) (item vast 1)
      ≡ some (true, estate start))
    × (calldatacopy allocator 3 vast start ≡ none)
unfolding ◌-ℤ◌
calldatacopy_wraps_example =
    calldatacopy_wraps allocator 3 vast start one_word-IsMemory (omega arith) (omega arith)
      (omega arith) (omega arith) (omega arith) refl
