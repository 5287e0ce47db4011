-- ===== src/Machine.antt =====
-- The whole state of a run: `struct ExecutionState` (include/execution_state.h) and
-- `struct AdvancedExecutionState` (include/analysis.h) with the message, the transaction context and
-- the rest of the mocked host (include/evmc.h, include/mocked_host.h). The parts that the other
-- modules work on are views of it. The size of a message's input is the length of the bytes.
-- `return_data` is `none` for a null pointer.
pub mod Environment
pub mod Copy
pub mod Account
pub mod Finish
pub mod Log
pub mod Call
pub mod Create
pub mod Keccak
pub mod Platform
pub mod Handlers
pub mod Fixtures
use tsc_vee.Base.{ℕ, List, Option, none, some, if◌then◌else◌, ◌>>=◌, Bool, not, ◌==◌, bit_and}
use tsc_vee.Base.Int.{ℤ, pos, ◌-ℤ◌, ltb_ℤ}
use tsc_vee.Status.{StatusCode, evmc_success, evmc_out_of_gas}
use tsc_vee.Uint256.{Uint256}
use tsc_vee.Stack.{Stack}
use tsc_vee.Memory.{Memory, memory_init}
use tsc_vee.State.{ExecutionState, check_memory_u256, check_memory_u64}
use tsc_vee.Storing.{HostState}
use tsc_vee.Host.{MockedHost}

pub data CallKind : Type 0 where
  evmc_call evmc_delegatecall evmc_callcode evmc_create evmc_create2 : CallKind

pub record Message : Type 0 where
  pub kind : CallKind
  pub flags : ℕ
  pub depth : ℕ
  pub gas : ℤ
  pub recipient : List ℕ
  pub sender : List ℕ
  pub input : List ℕ
  pub value : List ℕ
  pub create2_salt : List ℕ
  pub code_address : List ℕ

pub record TxContext : Type 0 where
  pub tx_gas_price : List ℕ
  pub tx_origin : List ℕ
  pub block_coinbase : List ℕ
  pub block_number : ℤ
  pub block_timestamp : ℤ
  pub block_gas_limit : ℤ
  pub chain_id : List ℕ
  pub block_base_fee : List ℕ

-- `struct evmc_result`
pub record CallResult : Type 0 where
  pub status_code : StatusCode
  pub result_gas_left : ℤ
  pub output : List ℕ
  pub create_address : List ℕ

pub record LogRecord : Type 0 where
  pub creator : List ℕ
  pub log_bytes : List ℕ
  pub topics : List (List ℕ)

pub record Machine (A : Type 0) : Type 0 where
  pub gas_left : ℤ
  pub memory : Memory
  pub msg : Message
  pub host : MockedHost A
  pub tx_context : TxContext
  pub call_result : CallResult
  pub recorded_calls : List Message
  pub max_recorded_calls : ℕ
  pub recorded_logs : List LogRecord
  pub rev : ℕ
  pub return_data : Option (List ℕ)
  pub code : List ℕ
  pub status : StatusCode
  pub output_offset : ℕ
  pub output_size : ℕ
  pub stack : Stack
  pub current_block_cost : ℕ

-- `AdvancedExecutionState_init_v`: the fields of the state that are set, in a state whose host is the
-- one that is given.
unfoldable pub advanced_execution_state_init :
    {A : Type 0}
    → (List ℕ → ℕ → Option (List ℕ))
    → Message
    → ℕ
    → List ℕ
    → Machine A
    → Option (Machine A)
advanced_execution_state_init realloc message revision code blank =
    memory_init realloc >>= (λ memory. some (record blank {
      gas_left = message.gas;
      memory = memory;
      msg = message;
      rev = revision;
      return_data = none;
      code = code;
      status = evmc_success;
      output_offset = 0;
      output_size = 0;
      stack = record { space = blank.stack.space; top_item = 0 };
      current_block_cost = 0;
    }))

-- What an instruction gives; `none` stands for an access that C leaves undefined.
abbrev pub Result : Type 0 → Type 0
Result A = Option (StatusCode × Machine A)

module _ {A : Type 0} where
  -- The gas and the memory.
  abbrev pub estate : Machine A → ExecutionState
  estate m = record { gas_left = m.gas_left; memory = m.memory }

  abbrev pub with_estate : ExecutionState → Machine A → Machine A
  with_estate e m = record m { gas_left = e.gas_left; memory = e.memory }

  -- What the instructions on storage work on.
  abbrev pub host_state : Machine A → HostState A
  host_state m = record {
    gas_left = m.gas_left;
    rev = m.rev;
    flags = m.msg.flags;
    recipient = m.msg.recipient;
    host = m.host;
  }

  abbrev pub with_host_state : HostState A → Machine A → Machine A
  with_host_state h m = record m { gas_left = h.gas_left; host = h.host }

  abbrev pub with_host : MockedHost A → Machine A → Machine A
  with_host h m = record m { host = h }

  abbrev pub with_stack : Stack → Machine A → Machine A
  with_stack s m = record m { stack = s }

  abbrev pub with_space : List Uint256 → Machine A → Machine A
  with_space space m = record m { stack = record { space = space; top_item = m.stack.top_item } }

  -- `state->gas_left -= cost`
  abbrev pub charge_gas : ℤ → Machine A → Machine A
  charge_gas cost m = record m { gas_left = m.gas_left -ℤ cost }

  -- `ExecutionState_in_static_mode`: C reads the test as `msg->flags & (EVMC_STATIC != 0)`.
  abbrev pub in_static_mode : Machine A → Bool
  in_static_mode m = not (bit_and m.msg.flags 1 == 0)

  -- `if ((state->gas_left -= cost) < 0) return EVMC_OUT_OF_GAS;` and the rest of the function.
  unfoldable pub pay_then : ℤ → Machine A → (Machine A → Result A) → Result A
  pay_then cost m rest =
      let paid = charge_gas cost m in
      if ltb_ℤ paid.gas_left (pos 0) then some (evmc_out_of_gas, paid) else rest paid

  -- `if (!check_memory_u256(...)) return EVMC_OUT_OF_GAS;` and the rest, and the same with 64 bits.
  abbrev pub checked_then :
      Option (Bool × ExecutionState) → Machine A → (Machine A → Result A) → Result A
  checked_then check m rest =
      check
      >>= (λ t. if t.0 then rest (with_estate t.1 m) else some (evmc_out_of_gas, with_estate t.1 m))

  module _ (realloc : List ℕ → ℕ → Option (List ℕ)) where
    unfoldable pub check_u256_then :
        Uint256 → Uint256 → Machine A → (Machine A → Result A) → Result A
    unfolding check_memory_u256
    check_u256_then offset size m rest =
        checked_then (check_memory_u256 realloc (estate m) offset size) m rest

    unfoldable pub check_u64_then : Uint256 → ℕ → Machine A → (Machine A → Result A) → Result A
    unfolding check_memory_u64
    check_u64_then offset size m rest =
        checked_then (check_memory_u64 realloc (estate m) offset size) m rest
