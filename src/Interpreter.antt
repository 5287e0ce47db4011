-- ===== src/Interpreter.antt =====
-- The interpreter: the call of an instruction's function, the loop of `execute_analyzed_code` and
-- `execute` of include/execution.h. A pointer to an instruction is its number in the vector of the
-- analysis. The rounds of the loop are an argument.
mod Tests
pub mod Execute
pub mod Forward
pub mod Halts
pub mod Status
use tsc_vee.Base.{
  ℕ, zero, suc, ◌+◌, List, [], get_elem?, take, drop, replicate, Option, none, some, if◌then◌else◌,
  ◌==◌, not, ◌||◌, ◌>>=◌, Bool, true, false,
}
use tsc_vee.Base.Int.{ℤ, pos}
use tsc_vee.Opcode
use tsc_vee.Status.{StatusCode, evmc_success, evmc_revert, evmc_out_of_memory}
use tsc_vee.Uint256.{Uint256}
use tsc_vee.Uint256.Value.{value256}
use tsc_vee.Stack.{Stack, stack_get, stack_size}
use tsc_vee.Arithmetic.Handlers as Arithmetic
use tsc_vee.Arithmetic.Extend as Extend
use tsc_vee.Shuffle as Shuffle
use tsc_vee.Exp as Exp
use tsc_vee.Transfer as Transfer
use tsc_vee.Storing as Storing
use tsc_vee.Jump as Jump
use tsc_vee.Jump.{Next, null, instruction, AdvancedExecutionState}
use tsc_vee.Block.{BlockInfo, Frame, Begin, opx_beginblock, next}
use tsc_vee.Dispatch.{InstructionFn}
use tsc_vee.Analysis.{
  InstructionArgument, Progress, number, push_value, small_push_value, block, analyze,
}
use tsc_vee.Block.{OpTableEntry}
use tsc_vee.Machine.{
  Machine, Message, CallResult, estate, with_estate, host_state, with_host_state, with_stack,
  advanced_execution_state_init,
}
use tsc_vee.Machine.Platform.{Platform}
use tsc_vee.Machine.Handlers as Handlers
use tsc_vee.Machine.Handlers.{Handled, then_handle}

-- The members of the argument; one that is not set is `none`.
abbrev pub arg_number : InstructionArgument → Option ℤ
arg_number (number n) = some n
arg_number other = none

abbrev pub arg_push_value : InstructionArgument → Option Uint256
arg_push_value (push_value x) = some x
arg_push_value other = none

abbrev pub arg_small_push_value : InstructionArgument → Option ℕ
arg_small_push_value (small_push_value n) = some n
arg_small_push_value other = none

abbrev pub arg_block : InstructionArgument → Option BlockInfo
arg_block (block info) = some info
arg_block other = none

module _ {A : Type 0} where
  -- The view of the handlers of Jump.
  abbrev pub advanced : Machine A → AdvancedExecutionState
  advanced m = record {
    stack = m.stack;
    gas_left = m.gas_left;
    current_block_cost = m.current_block_cost;
    status = m.status;
  }

  abbrev pub with_advanced : Next × AdvancedExecutionState → Machine A → Handled A
  with_advanced (after, a) m = some (
    after,
    record m {
      stack = a.stack;
      gas_left = a.gas_left;
      current_block_cost = a.current_block_cost;
      status = a.status;
    },
  )

  -- The handlers that only change the stack.
  abbrev pub on_stack : ℕ → Stack → Machine A → Handled A
  on_stack instr s m = some (instruction (instr + 1), with_stack s m)

  -- An instruction with a loop that does not end stays where it is, in every round.
  unfoldable pub loop_then : {B : Type 0} → Option B → ℕ → Machine A → (B → Handled A) → Handled A
  loop_then none instr m f = some (instruction instr, m)
  loop_then (some b) instr m f = f b

  abbrev pub try_on_stack : ℕ → Option Stack → Machine A → Handled A
  try_on_stack instr s m = loop_then s instr m (λ t. on_stack instr t m)

  abbrev pub with_exp : Next × Stack × ℤ → Machine A → Handled A
  with_exp (after, s, gas) m = some (after, record m { stack = s; gas_left = gas })

  -- `opx_beginblock`, from what the start of the block decides.
  abbrev pub begun : ℕ → Begin × Frame → Machine A → Handled A
  begun instr (next, frame) m = some (
    instruction (instr + 1),
    record m { gas_left = frame.gas_left; current_block_cost = frame.current_block_cost },
  )
  begun instr (refused, frame) m = some (null, record m { gas_left = frame.gas_left })

  abbrev pub begin_block : ℕ → BlockInfo → Machine A → Handled A
  begin_block instr info m =
      begun instr
        (opx_beginblock info record {
          gas_left = m.gas_left;
          stack_size = stack_size m.stack;
          current_block_cost = m.current_block_cost;
        })
        m

  module _ {S : Type 0} (p : Platform S A) (analysis : Progress) where
    -- `instr->fn(instr, astate)`
    unfoldable pub run_fn : InstructionFn → InstructionArgument → ℕ → Machine A → Handled A
    unfolding loop_then Arithmetic.op_add Arithmetic.op_mul Arithmetic.op_sub Extend.op_signextend
        Arithmetic.op_lt Arithmetic.op_gt Arithmetic.op_slt Arithmetic.op_sgt Arithmetic.op_eq
        Arithmetic.op_iszero Arithmetic.op_and Arithmetic.op_or Arithmetic.op_xor Arithmetic.op_not
        Arithmetic.op_byte Arithmetic.op_shl Arithmetic.op_shr Arithmetic.op_sar Arithmetic.op_pop
        Arithmetic.op_div Arithmetic.op_sdiv Arithmetic.op_mod Arithmetic.op_smod
        Arithmetic.op_addmod Arithmetic.op_mulmod Exp.op_exp Handlers.op_caller
        Handlers.op_callvalue Handlers.op_calldataload Handlers.op_calldatasize Handlers.op_codesize
        Handlers.op_gasprice Handlers.op_returndatasize Handlers.op_blockhash Handlers.op_timestamp
        Handlers.op_number Handlers.op_difficulty Handlers.op_gaslimit Handlers.op_chainid
        Handlers.op_basefee Handlers.op_msize Handlers.op_stop Handlers.op_invalid
        Handlers.op_undefined Handlers.op_address Handlers.op_origin Handlers.op_coinbase
        Handlers.op_selfbalance Handlers.op_keccak256 Handlers.op_calldatacopy Handlers.op_codecopy
        Handlers.op_returndatacopy Handlers.op_balance Handlers.op_extcodesize
        Handlers.op_extcodehash Handlers.op_extcodecopy Handlers.op_log0 Handlers.op_log1
        Handlers.op_log2 Handlers.op_log3 Handlers.op_log4 Handlers.op_return Handlers.op_revert
        Handlers.op_selfdestruct Handlers.op_call Handlers.op_callcode Handlers.op_delegatecall
        Handlers.op_staticcall Handlers.op_create Handlers.op_create2 Transfer.op_mload
        Transfer.op_mstore Transfer.op_mstore8 Storing.op_sload Storing.op_sstore Jump.op_jump
        Jump.op_jumpi Jump.op_pc Jump.op_gas Jump.op_push_small Jump.op_push_full Shuffle.op_push0
        Shuffle.op_dup Shuffle.op_swap opx_beginblock
    run_fn InstructionFn.op_add arg instr m = on_stack instr (Arithmetic.op_add m.stack) m
    run_fn InstructionFn.op_mul arg instr m = on_stack instr (Arithmetic.op_mul m.stack) m
    run_fn InstructionFn.op_sub arg instr m = on_stack instr (Arithmetic.op_sub m.stack) m
    run_fn InstructionFn.op_signextend arg instr m = on_stack instr (Extend.op_signextend m.stack) m
    run_fn InstructionFn.op_lt arg instr m = on_stack instr (Arithmetic.op_lt m.stack) m
    run_fn InstructionFn.op_gt arg instr m = on_stack instr (Arithmetic.op_gt m.stack) m
    run_fn InstructionFn.op_slt arg instr m = on_stack instr (Arithmetic.op_slt m.stack) m
    run_fn InstructionFn.op_sgt arg instr m = on_stack instr (Arithmetic.op_sgt m.stack) m
    run_fn InstructionFn.op_eq arg instr m = on_stack instr (Arithmetic.op_eq m.stack) m
    run_fn InstructionFn.op_iszero arg instr m = on_stack instr (Arithmetic.op_iszero m.stack) m
    run_fn InstructionFn.op_and arg instr m = on_stack instr (Arithmetic.op_and m.stack) m
    run_fn InstructionFn.op_or arg instr m = on_stack instr (Arithmetic.op_or m.stack) m
    run_fn InstructionFn.op_xor arg instr m = on_stack instr (Arithmetic.op_xor m.stack) m
    run_fn InstructionFn.op_not arg instr m = on_stack instr (Arithmetic.op_not m.stack) m
    run_fn InstructionFn.op_byte arg instr m = on_stack instr (Arithmetic.op_byte m.stack) m
    run_fn InstructionFn.op_shl arg instr m = on_stack instr (Arithmetic.op_shl m.stack) m
    run_fn InstructionFn.op_shr arg instr m = on_stack instr (Arithmetic.op_shr m.stack) m
    run_fn InstructionFn.op_sar arg instr m = on_stack instr (Arithmetic.op_sar m.stack) m
    run_fn InstructionFn.op_pop arg instr m = on_stack instr (Arithmetic.op_pop m.stack) m
    run_fn InstructionFn.op_div arg instr m = try_on_stack instr (Arithmetic.op_div m.stack) m
    run_fn InstructionFn.op_sdiv arg instr m = try_on_stack instr (Arithmetic.op_sdiv m.stack) m
    run_fn InstructionFn.op_mod arg instr m = try_on_stack instr (Arithmetic.op_mod m.stack) m
    run_fn InstructionFn.op_smod arg instr m = try_on_stack instr (Arithmetic.op_smod m.stack) m
    run_fn InstructionFn.op_addmod arg instr m = try_on_stack instr (Arithmetic.op_addmod m.stack) m
    run_fn InstructionFn.op_mulmod arg instr m = try_on_stack instr (Arithmetic.op_mulmod m.stack) m
    run_fn InstructionFn.op_exp arg instr m =
        loop_then (Exp.op_exp (suc (value256 (stack_get m.stack 1))) instr m.stack m.rev m.gas_left)
          instr m (λ t. with_exp t m)
    run_fn InstructionFn.op_caller arg instr m = Handlers.op_caller instr m
    run_fn InstructionFn.op_callvalue arg instr m = Handlers.op_callvalue instr m
    run_fn InstructionFn.op_calldataload arg instr m = Handlers.op_calldataload instr m
    run_fn InstructionFn.op_calldatasize arg instr m = Handlers.op_calldatasize instr m
    run_fn InstructionFn.op_codesize arg instr m = Handlers.op_codesize instr m
    run_fn InstructionFn.op_gasprice arg instr m = Handlers.op_gasprice instr m
    run_fn InstructionFn.op_returndatasize arg instr m = Handlers.op_returndatasize instr m
    run_fn InstructionFn.op_blockhash arg instr m = Handlers.op_blockhash instr m
    run_fn InstructionFn.op_timestamp arg instr m = Handlers.op_timestamp instr m
    run_fn InstructionFn.op_number arg instr m = Handlers.op_number instr m
    run_fn InstructionFn.op_difficulty arg instr m = Handlers.op_difficulty instr m
    run_fn InstructionFn.op_gaslimit arg instr m = Handlers.op_gaslimit instr m
    run_fn InstructionFn.op_chainid arg instr m = Handlers.op_chainid instr m
    run_fn InstructionFn.op_basefee arg instr m = Handlers.op_basefee instr m
    run_fn InstructionFn.op_msize arg instr m = Handlers.op_msize instr m
    run_fn InstructionFn.op_stop arg instr m = Handlers.op_stop instr m
    run_fn InstructionFn.op_invalid arg instr m = Handlers.op_invalid instr m
    run_fn InstructionFn.op_undefined arg instr m = Handlers.op_undefined instr m
    run_fn InstructionFn.op_address arg instr m = Handlers.op_address instr m
    run_fn InstructionFn.op_origin arg instr m = Handlers.op_origin p instr m
    run_fn InstructionFn.op_coinbase arg instr m = Handlers.op_coinbase p instr m
    run_fn InstructionFn.op_selfbalance arg instr m = Handlers.op_selfbalance p instr m
    run_fn InstructionFn.op_keccak256 arg instr m = Handlers.op_keccak256 p instr m
    run_fn InstructionFn.op_calldatacopy arg instr m = Handlers.op_calldatacopy p instr m
    run_fn InstructionFn.op_codecopy arg instr m = Handlers.op_codecopy p instr m
    run_fn InstructionFn.op_returndatacopy arg instr m = Handlers.op_returndatacopy p instr m
    run_fn InstructionFn.op_balance arg instr m = Handlers.op_balance p instr m
    run_fn InstructionFn.op_extcodesize arg instr m = Handlers.op_extcodesize p instr m
    run_fn InstructionFn.op_extcodehash arg instr m = Handlers.op_extcodehash p instr m
    run_fn InstructionFn.op_extcodecopy arg instr m = Handlers.op_extcodecopy p instr m
    run_fn InstructionFn.op_log0 arg instr m = Handlers.op_log0 p instr m
    run_fn InstructionFn.op_log1 arg instr m = Handlers.op_log1 p instr m
    run_fn InstructionFn.op_log2 arg instr m = Handlers.op_log2 p instr m
    run_fn InstructionFn.op_log3 arg instr m = Handlers.op_log3 p instr m
    run_fn InstructionFn.op_log4 arg instr m = Handlers.op_log4 p instr m
    run_fn InstructionFn.op_return arg instr m = Handlers.op_return p instr m
    run_fn InstructionFn.op_revert arg instr m = Handlers.op_revert p instr m
    run_fn InstructionFn.op_selfdestruct arg instr m = Handlers.op_selfdestruct p instr m
    run_fn InstructionFn.op_call arg instr m =
        then_handle (arg_number arg) (λ n. Handlers.op_call p n instr m)
    run_fn InstructionFn.op_callcode arg instr m =
        then_handle (arg_number arg) (λ n. Handlers.op_callcode p n instr m)
    run_fn InstructionFn.op_delegatecall arg instr m =
        then_handle (arg_number arg) (λ n. Handlers.op_delegatecall p n instr m)
    run_fn InstructionFn.op_staticcall arg instr m =
        then_handle (arg_number arg) (λ n. Handlers.op_staticcall p n instr m)
    run_fn InstructionFn.op_create arg instr m =
        then_handle (arg_number arg) (λ n. Handlers.op_create p n instr m)
    run_fn InstructionFn.op_create2 arg instr m =
        then_handle (arg_number arg) (λ n. Handlers.op_create2 p n instr m)
    run_fn InstructionFn.op_mload arg instr m =
        then_handle (Transfer.op_mload p.realloc instr m.stack (estate m))
          (λ t. some (t.0, with_stack t.1 (with_estate t.2 m)))
    run_fn InstructionFn.op_mstore arg instr m =
        then_handle (Transfer.op_mstore p.realloc instr m.stack (estate m))
          (λ t. some (t.0, with_stack t.1 (with_estate t.2 m)))
    run_fn InstructionFn.op_mstore8 arg instr m =
        then_handle (Transfer.op_mstore8 p.realloc instr m.stack (estate m) p.unset.out)
          (λ t. some (t.0, with_stack t.1 (with_estate t.2 m)))
    run_fn InstructionFn.op_sload arg instr m =
        then_handle (Storing.op_sload p.account_map p.storage_map instr m.stack (host_state m))
          (λ t. some (t.0, with_stack t.1 (with_host_state t.2 m)))
    run_fn InstructionFn.op_sstore arg instr m = then_handle (arg_number arg) (λ n.
        then_handle
          (Storing.op_sstore p.account_map p.storage_map p.cstr_cmp instr m.current_block_cost n
            m.stack (host_state m))
          (λ t. some (t.0, with_stack t.1 (with_host_state t.2 m))))
    run_fn InstructionFn.op_jump arg instr m =
        with_advanced (Jump.op_jump p.lower_bound analysis instr (advanced m)) m
    run_fn InstructionFn.op_jumpi arg instr m =
        with_advanced (Jump.op_jumpi p.lower_bound analysis instr (advanced m)) m
    run_fn InstructionFn.op_pc arg instr m =
        then_handle (arg_number arg) (λ n. with_advanced (Jump.op_pc n instr (advanced m)) m)
    run_fn InstructionFn.op_gas arg instr m =
        then_handle (arg_number arg) (λ n. with_advanced (Jump.op_gas n instr (advanced m)) m)
    run_fn InstructionFn.op_push_small arg instr m =
        then_handle (arg_small_push_value arg)
          (λ x. with_advanced (Jump.op_push_small x instr (advanced m)) m)
    run_fn InstructionFn.op_push_full arg instr m =
        then_handle (arg_push_value arg)
          (λ x. with_advanced (Jump.op_push_full x instr (advanced m)) m)
    run_fn InstructionFn.op_jumpdest arg instr m = on_stack instr m.stack m
    run_fn InstructionFn.op_push0 arg instr m = on_stack instr (Shuffle.op_push0 m.stack) m
    run_fn InstructionFn.op_dup1 arg instr m = on_stack instr (Shuffle.op_dup 1 m.stack) m
    run_fn InstructionFn.op_dup2 arg instr m = on_stack instr (Shuffle.op_dup 2 m.stack) m
    run_fn InstructionFn.op_dup3 arg instr m = on_stack instr (Shuffle.op_dup 3 m.stack) m
    run_fn InstructionFn.op_dup4 arg instr m = on_stack instr (Shuffle.op_dup 4 m.stack) m
    run_fn InstructionFn.op_dup5 arg instr m = on_stack instr (Shuffle.op_dup 5 m.stack) m
    run_fn InstructionFn.op_dup6 arg instr m = on_stack instr (Shuffle.op_dup 6 m.stack) m
    run_fn InstructionFn.op_dup7 arg instr m = on_stack instr (Shuffle.op_dup 7 m.stack) m
    run_fn InstructionFn.op_dup8 arg instr m = on_stack instr (Shuffle.op_dup 8 m.stack) m
    run_fn InstructionFn.op_dup9 arg instr m = on_stack instr (Shuffle.op_dup 9 m.stack) m
    run_fn InstructionFn.op_dup10 arg instr m = on_stack instr (Shuffle.op_dup 10 m.stack) m
    run_fn InstructionFn.op_dup11 arg instr m = on_stack instr (Shuffle.op_dup 11 m.stack) m
    run_fn InstructionFn.op_dup12 arg instr m = on_stack instr (Shuffle.op_dup 12 m.stack) m
    run_fn InstructionFn.op_dup13 arg instr m = on_stack instr (Shuffle.op_dup 13 m.stack) m
    run_fn InstructionFn.op_dup14 arg instr m = on_stack instr (Shuffle.op_dup 14 m.stack) m
    run_fn InstructionFn.op_dup15 arg instr m = on_stack instr (Shuffle.op_dup 15 m.stack) m
    run_fn InstructionFn.op_dup16 arg instr m = on_stack instr (Shuffle.op_dup 16 m.stack) m
    run_fn InstructionFn.op_swap1 arg instr m = on_stack instr (Shuffle.op_swap 1 m.stack) m
    run_fn InstructionFn.op_swap2 arg instr m = on_stack instr (Shuffle.op_swap 2 m.stack) m
    run_fn InstructionFn.op_swap3 arg instr m = on_stack instr (Shuffle.op_swap 3 m.stack) m
    run_fn InstructionFn.op_swap4 arg instr m = on_stack instr (Shuffle.op_swap 4 m.stack) m
    run_fn InstructionFn.op_swap5 arg instr m = on_stack instr (Shuffle.op_swap 5 m.stack) m
    run_fn InstructionFn.op_swap6 arg instr m = on_stack instr (Shuffle.op_swap 6 m.stack) m
    run_fn InstructionFn.op_swap7 arg instr m = on_stack instr (Shuffle.op_swap 7 m.stack) m
    run_fn InstructionFn.op_swap8 arg instr m = on_stack instr (Shuffle.op_swap 8 m.stack) m
    run_fn InstructionFn.op_swap9 arg instr m = on_stack instr (Shuffle.op_swap 9 m.stack) m
    run_fn InstructionFn.op_swap10 arg instr m = on_stack instr (Shuffle.op_swap 10 m.stack) m
    run_fn InstructionFn.op_swap11 arg instr m = on_stack instr (Shuffle.op_swap 11 m.stack) m
    run_fn InstructionFn.op_swap12 arg instr m = on_stack instr (Shuffle.op_swap 12 m.stack) m
    run_fn InstructionFn.op_swap13 arg instr m = on_stack instr (Shuffle.op_swap 13 m.stack) m
    run_fn InstructionFn.op_swap14 arg instr m = on_stack instr (Shuffle.op_swap 14 m.stack) m
    run_fn InstructionFn.op_swap15 arg instr m = on_stack instr (Shuffle.op_swap 15 m.stack) m
    run_fn InstructionFn.op_swap16 arg instr m = on_stack instr (Shuffle.op_swap 16 m.stack) m
    run_fn InstructionFn.opx_beginblock arg instr m =
        then_handle (arg_block arg) (λ info. begin_block instr info m)
    run_fn InstructionFn.unset arg instr m = none

    -- One round of the loop; a pointer behind the instructions is `none`.
    unfoldable pub step : ℕ → Machine A → Handled A
    unfolding run_fn
    step instr m = get_elem? analysis.instrs instr >>= (λ ins. run_fn ins.fn ins.arg instr m)

-- How a run comes out: with a result, by an access that C leaves undefined, or not within the rounds,
-- which an instruction with a loop that does not end uses up.
pub data Outcome (B : Type 0) : Type 0 where
  finished : B → Outcome B
  undefined : Outcome B
  out_of_fuel : Outcome B

-- `while (instr != NULL)`, from what a round gave.
abbrev pub proceed :
    {A : Type 0} → (ℕ → Machine A → Outcome (Machine A)) → Handled A → Outcome (Machine A)
proceed rest none = undefined
proceed rest (some (null, m)) = finished m
proceed rest (some (instruction instr, m)) = rest instr m

module _ {S A : Type 0} (p : Platform S A) (analysis : Progress) where
  unfoldable pub run_loop : ℕ → ℕ → Machine A → Outcome (Machine A)
  unfolding step
  run_loop zero instr m = out_of_fuel
  run_loop (suc fuel) instr m = proceed (run_loop fuel) (step p analysis instr m)

-- `evmc_make_result`
abbrev pub evmc_make_result : (ℕ → Bool) → StatusCode → ℤ → List ℕ → ℕ → CallResult
evmc_make_result malloc status gas_left output_bytes output_size =
    if output_size == 0 || malloc output_size
    then record {
      status_code = status;
      result_gas_left = gas_left;
      output = take output_size output_bytes;
      create_address = replicate 20 0;
    }
    else record {
      status_code = evmc_out_of_memory;
      result_gas_left = pos 0;
      output = [];
      create_address = replicate 20 0;
    }

module _ {S A : Type 0} (p : Platform S A) where
  -- The gas that a result reports.
  abbrev pub reported_gas : StatusCode → ℤ → ℤ
  reported_gas evmc_success gas = gas
  reported_gas evmc_revert gas = gas
  reported_gas other gas = pos 0

  abbrev pub result_of : Outcome (Machine A) → Outcome CallResult
  result_of (finished m) =
      if not (m.output_size == 0) || m.output_offset == 0
      then finished (
          evmc_make_result p.malloc m.status (reported_gas m.status m.gas_left)
            (drop m.output_offset m.memory.m_data) m.output_size)
      else undefined
  result_of undefined = undefined
  result_of out_of_fuel = out_of_fuel

  unfoldable pub execute_analyzed_code : ℕ → Progress → Machine A → Outcome CallResult
  unfolding run_loop
  execute_analyzed_code fuel analysis m = result_of (run_loop p analysis fuel 0 m)

  abbrev pub execute_from : ℕ → Progress → Option (Machine A) → Outcome CallResult
  execute_from fuel analysis none = undefined
  execute_from fuel analysis (some m) = execute_analyzed_code fuel analysis m

  abbrev pub execute_analysis : ℕ → Option Progress → Option (Machine A) → Outcome CallResult
  execute_analysis fuel none start = out_of_fuel
  execute_analysis fuel (some analysis) start = execute_from fuel analysis start

  -- `opt` is what the entries of undefined instructions hold, `blank` the new state with its host.
  unfoldable pub execute :
      (ℕ → OpTableEntry) → ℕ → ℕ → Message → List ℕ → Machine A → Outcome CallResult
  unfolding execute_analyzed_code analyze advanced_execution_state_init
  execute opt fuel rev msg code blank =
      execute_analysis fuel (analyze opt rev code)
        (advanced_execution_state_init p.realloc msg rev code blank)
