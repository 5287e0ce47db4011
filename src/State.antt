-- ===== src/State.antt =====
-- The gas and memory part of `struct ExecutionState` (include/execution_state.h), and the checks that
-- charge for memory: `num_words`, `grow_memory`, `check_memory_u64` and `check_memory_u256` of
-- include/instructions.h. The gas counter is an integer: sums that leave 64 bits are undefined in C,
-- and the theorems keep away from them.
pub mod Laws
mod Tests
use tsc_vee.Base.{
  ℕ, ◌+◌, ◌-◌, ◌*◌, ◌/◌, ◌^◌, List, Bool, true, false, not, ◌||◌, Option, some, if◌then◌else◌, ltb,
  ◌==◌, u64, bit_or, ◌>>=◌,
}
use tsc_vee.Base.Int.{ℤ, pos, sub_ℕ, ◌-ℤ◌, ltb_ℤ}
use tsc_vee.Uint256.{Uint256, zero256}
use tsc_vee.Memory.{Memory, memory_size, memory_grow}

pub record ExecutionState : Type 0 where
  pub gas_left : ℤ
  pub memory : Memory

abbrev pub max_buffer_size : ℕ
max_buffer_size = 2 ^ 32 - 1

abbrev pub word_size : ℕ
word_size = 32

abbrev pub num_words : ℕ → ℕ
num_words size_in_bytes = u64 (size_in_bytes + (word_size - 1)) / word_size

-- The price of a memory of so many words.
abbrev pub words_cost : ℕ → ℕ
words_cost words = 3 * words + words * words / 512

-- `state->gas_left -= cost`
abbrev pub charge : ℤ → ExecutionState → ExecutionState
charge cost state = record { gas_left = state.gas_left -ℤ cost; memory = state.memory }

abbrev pub with_memory : Memory → ExecutionState → ExecutionState
with_memory memory state = record { gas_left = state.gas_left; memory = memory }

-- One of the three upper words is set, or the lowest one is above the limit.
abbrev pub too_far : Uint256 → Bool
too_far offset =
    not (bit_or (bit_or offset.upper.upper offset.lower.upper) offset.upper.lower == 0)
    || ltb max_buffer_size offset.lower.lower

module _ (realloc : List ℕ → ℕ → Option (List ℕ)) where
  abbrev pub grow_paid : ExecutionState → ℕ → Option (Bool × ExecutionState)
  grow_paid state new_size = do
    memory ← memory_grow realloc state.memory new_size
    some (true, with_memory memory state)

  unfoldable pub grow_memory : ExecutionState → ℕ → Option (Bool × ExecutionState)
  grow_memory state new_size =
      let new_words = num_words new_size in
      let current_words = memory_size state.memory / word_size in
      let cost = sub_ℕ (words_cost new_words) (words_cost current_words) in
      let paid = charge cost state in
      if ltb_ℤ paid.gas_left (pos 0)
      then some (false, paid)
      else grow_paid paid (new_words * word_size)

  unfoldable pub check_memory_u64 : ExecutionState → Uint256 → ℕ → Option (Bool × ExecutionState)
  unfolding grow_memory
  check_memory_u64 state offset size =
      if too_far offset
      then some (false, state)
      else if ltb (memory_size state.memory) (u64 (offset.lower.lower + size))
      then grow_memory state (u64 (offset.lower.lower + size))
      else some (true, state)

  unfoldable pub check_memory_u256 :
      ExecutionState → Uint256 → Uint256 → Option (Bool × ExecutionState)
  unfolding check_memory_u64
  check_memory_u256 state offset size =
      if zero256 size
      then some (true, state)
      else if too_far offset
      then some (false, state)
      else check_memory_u64 state offset size.lower.lower
