-- ===== src/Transfer.antt =====
-- MLOAD, MSTORE and MSTORE8: `mload`, `mstore` and `mstore8` of include/instructions.h with their
-- handlers of include/analysis.h. The allocator of the memory is a parameter.
pub mod Laws
mod Tests
use tsc_vee.Base.{
  ℕ, suc, ◌-◌, List, [], ◌∷◌, set, length, drop, replicate, Bool, Option, none, some, if◌then◌else◌,
  ◌>>=◌,
}
use tsc_vee.Opcode
use tsc_vee.Status.{StatusCode, evmc_success, evmc_out_of_gas}
use tsc_vee.Uint256.{Uint256}
use tsc_vee.Bytes.{readu256_be, u256_to_u8_32, u256_to_u8_8}
use tsc_vee.Stack.{Stack, item, set_item}
use tsc_vee.Memory.{Memory, in_block}
use tsc_vee.State.{ExecutionState, check_memory_u64, with_memory}
use tsc_vee.Arithmetic.Handlers.{change_height}
use tsc_vee.Jump.{Next}
use tsc_vee.Storing.{next_if}

unfoldable pub put_bytes : List ℕ → ℕ → List ℕ → List ℕ
put_bytes bytes index [] = bytes
put_bytes bytes index (b ∷ out) = put_bytes (set bytes index b) (suc index) out

-- `TEE_MemMove(data + index, out, n)` of all bytes of `out`, which C leaves undefined outside of the
-- block.
unfoldable pub write_bytes : List ℕ → ℕ → List ℕ → Option (List ℕ)
unfolding put_bytes
write_bytes bytes index out =
    if in_block bytes index (length out) then some (put_bytes bytes index out) else none

-- The memory with the bytes written.
unfoldable pub write_memory : Memory → ℕ → List ℕ → Option Memory
unfolding write_bytes
write_memory memory index out =
    write_bytes memory.m_data index out >>= (λ filled. some (record memory { m_data = filled }))

abbrev pub stored : ExecutionState → ℕ → List ℕ → Bool → Option (StatusCode × ExecutionState)
stored state index out fits =
    if fits
    then write_memory state.memory index out
      >>= (λ memory. some (evmc_success, with_memory memory state))
    else some (evmc_out_of_gas, state)

module _ (realloc : List ℕ → ℕ → Option (List ℕ)) (stack : ℕ) (space : List Uint256) where
  unfoldable pub mload : ExecutionState → Option (StatusCode × List Uint256 × ExecutionState)
  unfolding check_memory_u64
  mload state =
      let index = item space stack in
      check_memory_u64 realloc state index 32 >>= (λ t. some (
        if t.0
        then (
          evmc_success,
          set_item space stack (readu256_be (drop index.lower.lower t.1.memory.m_data)),
          t.1,
        )
        else (evmc_out_of_gas, space, t.1)))

  unfoldable pub mstore : ExecutionState → Option (StatusCode × ExecutionState)
  unfolding check_memory_u64 write_memory
  mstore state =
      let index = item space stack in
      let value = item space (stack - 1) in
      check_memory_u64 realloc state index 32
      >>= (λ t. stored t.1 index.lower.lower (u256_to_u8_32 value (replicate 32 0)) t.0)

  -- The eight lowest bytes of the value are written. What the buffer held before is a parameter; all
  -- of it is written over.
  unfoldable pub mstore8 : List ℕ → ExecutionState → Option (StatusCode × ExecutionState)
  unfolding check_memory_u64 write_memory
  mstore8 out state =
      let index = item space stack in
      let value = item space (stack - 1) in
      check_memory_u64 realloc state index 32
      >>= (λ t. stored t.1 index.lower.lower (u256_to_u8_8 value out) t.0)

module _ (realloc : List ℕ → ℕ → Option (List ℕ)) (instr : ℕ) (s : Stack)
    (state : ExecutionState) where
  unfoldable pub op_mload : Option (Next × Stack × ExecutionState)
  unfolding mload
  op_mload =
      mload realloc s.top_item s.space state
      >>= (λ t. some (next_if t.0 instr, change_height Opcode.op_mload t.1 s, t.2))

  unfoldable pub op_mstore : Option (Next × Stack × ExecutionState)
  unfolding mstore
  op_mstore =
      mstore realloc s.top_item s.space state
      >>= (λ t. some (next_if t.0 instr, change_height Opcode.op_mstore s.space s, t.1))

  unfoldable pub op_mstore8 : List ℕ → Option (Next × Stack × ExecutionState)
  unfolding mstore8
  op_mstore8 out =
      mstore8 realloc s.top_item s.space out state
      >>= (λ t. some (next_if t.0 instr, change_height Opcode.op_mstore8 s.space s, t.1))
