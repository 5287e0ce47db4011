-- ===== src/Jump.antt =====
-- Jumps and the instructions that read the argument which the analysis wrote: `find_jumpdest`,
-- `op_jump`, `op_jumpi`, `op_pc`, `op_gas`, `op_push_small` and `op_push_full` of include/analysis.h.
-- A pointer to an instruction is its number. The vectors of the analysis are lists; the binary search
-- of the container library is a parameter.
pub mod Find
pub mod Laws
mod Tests
use tsc_vee.Base.{
  ℕ, ◌+◌, ◌-◌, ◌%◌, ◌^◌, List, length, get_or, true, false, not, ◌&&◌, ◌||◌, if◌then◌else◌, ◌==◌,
  u64,
}
use tsc_vee.Base.Int.{ℤ, pos, negsuc, pos_part, ltb_ℤ, eqb_ℤ}
use tsc_vee.Status.{StatusCode, evmc_bad_jump_destination}
use tsc_vee.Uint256.{Uint256, zero256}
use tsc_vee.Stack.{Stack, stack_get, stack_push, stack_pop}
use tsc_vee.Analysis.{Progress, int32}

-- The part of `struct AdvancedExecutionState` that these handlers use.
pub record AdvancedExecutionState : Type 0 where
  pub stack : Stack
  pub gas_left : ℤ
  pub current_block_cost : ℕ
  pub status : StatusCode

abbrev pub with_stack : Stack → AdvancedExecutionState → AdvancedExecutionState
with_stack stack astate = record {
  stack = stack;
  gas_left = astate.gas_left;
  current_block_cost = astate.current_block_cost;
  status = astate.status;
}

-- What a handler returns: NULL, or the next instruction.
pub data Next : Type 0 where
  null : Next
  instruction : ℕ → Next

-- The status goes to a copy of the state, which is dropped at the return.
abbrev pub advanced_execution_state_exit :
    AdvancedExecutionState → StatusCode → Next × AdvancedExecutionState
advanced_execution_state_exit state status_code = (null, state)

-- `{0, 0, 0, n}`
abbrev pub word_item : ℕ → Uint256
word_item n = record {
  upper = record { upper = 0; lower = 0 };
  lower = record { upper = 0; lower = n };
}

-- A number of 64 bits as an `int64_t` argument and a `uint64_t`.
abbrev pub uint64 : ℤ → ℕ
uint64 (pos n) = n % 2 ^ 64
uint64 (negsuc n) = 2 ^ 64 - 1 - n % 2 ^ 64

unfoldable pub op_pc : ℤ → ℕ → AdvancedExecutionState → Next × AdvancedExecutionState
op_pc number instr astate = (
  instruction (instr + 1),
  with_stack (stack_push astate.stack (word_item (uint64 number))) astate,
)

unfoldable pub op_gas : ℤ → ℕ → AdvancedExecutionState → Next × AdvancedExecutionState
op_gas number instr astate =
    let correction = u64 (astate.current_block_cost + (2 ^ 64 - uint64 number)) in
    let gas = u64 (uint64 astate.gas_left + correction) in
    (instruction (instr + 1), with_stack (stack_push astate.stack (word_item gas)) astate)

unfoldable pub op_push_small : ℕ → ℕ → AdvancedExecutionState → Next × AdvancedExecutionState
op_push_small small_push_value instr astate = (
  instruction (instr + 1),
  with_stack (stack_push astate.stack (word_item small_push_value)) astate,
)

unfoldable pub op_push_full : Uint256 → ℕ → AdvancedExecutionState → Next × AdvancedExecutionState
op_push_full push_value instr astate =
    (instruction (instr + 1), with_stack (stack_push astate.stack push_value) astate)

-- The destination and what the search gave. `dst_ > INT_MAX` compares an `int`, and never holds.
abbrev pub jump_to : ℤ → ℤ → AdvancedExecutionState → Next × AdvancedExecutionState
jump_to dst_ pc astate =
    if ltb_ℤ (pos (2 ^ 31 - 1)) dst_ || ltb_ℤ pc (pos 0)
    then advanced_execution_state_exit astate evmc_bad_jump_destination
    else (instruction (pos_part pc), astate)

module _ (lower_bound : List ℤ → ℤ → ℕ) (analysis : Progress) where
  unfoldable pub find_jumpdest : ℤ → ℤ
  find_jumpdest offset =
      let it = lower_bound analysis.jumpdest_offsets offset in
      if not (it == length analysis.jumpdest_offsets)
        && eqb_ℤ (get_or analysis.jumpdest_offsets it (pos 0)) offset
      then get_or analysis.jumpdest_targets it (negsuc 0)
      else negsuc 0

  unfoldable pub op_jump : ℕ → AdvancedExecutionState → Next × AdvancedExecutionState
  unfolding find_jumpdest
  op_jump instr astate =
      let (dst, stack) = stack_pop astate.stack in
      let popped = with_stack stack astate in
      let dst_ = int32 dst.lower.lower in jump_to dst_ (find_jumpdest dst_) popped

  abbrev pub pop_after : Next × AdvancedExecutionState → Next × AdvancedExecutionState
  pop_after (next, astate) = (next, with_stack (stack_pop astate.stack).1 astate)

  unfoldable pub op_jumpi : ℕ → AdvancedExecutionState → Next × AdvancedExecutionState
  unfolding op_jump
  op_jumpi instr astate =
      let tmp = stack_get astate.stack 1 in
      pop_after (
        if not (zero256 tmp)
        then op_jump instr astate
        else (instruction (instr + 1), with_stack (stack_pop astate.stack).1 astate))
