-- ===== src/Interpreter/Forward.antt =====
-- Every instruction but a jump, a division and EXP goes on to the next one or ends the run.
use tsc_vee.Base.{ℕ, ◌+◌, ◌≡◌, List, Bool, true, false, Option, none, some, ◌>>=◌, if◌then◌else◌}
use tsc_vee.Base.Int.{ℤ, pos, ◌-ℤ◌, ltb_ℤ}
use tsc_vee.Status.{StatusCode, evmc_success}
use tsc_vee.Stack.{Stack}
use tsc_vee.Jump as Jump
use tsc_vee.Jump.{Next, null, instruction}
use tsc_vee.Storing as Storing
use tsc_vee.Storing.{next_if, HostState}
use tsc_vee.Host.{Map, MockedAccount, StorageValue}
use tsc_vee.Transfer as Transfer
use tsc_vee.Block.{Begin, Frame, out_of_gas, stack_underflow, stack_overflow, next}
use tsc_vee.Dispatch.{InstructionFn}
use tsc_vee.Analysis.{InstructionArgument, Progress}
use tsc_vee.Machine.{Machine, Result, estate, host_state}
use tsc_vee.Machine.Platform.{Platform}
use tsc_vee.Machine.Handlers as Handlers
use tsc_vee.Machine.Handlers.{
  Handled, then_handle, after_status, after_exit, after_call, returned, moved, lent,
}
use tsc_vee.Interpreter.{begun, run_fn}

-- A result whose next instruction is the one behind, or none.
pub data Moves {B : Type 0} (instr : ℕ) : Option (Next × B) → Type 0 where
  stuck : Moves instr none
  ends : (b : B) → Moves instr (some (null, b))
  goes : (b : B) → Moves instr (some (instruction (instr + 1), b))

-- The same of a result of three parts.
pub data MovesTwo {B C : Type 0} (instr : ℕ) : Option (Next × B × C) → Type 0 where
  stuck_two : MovesTwo instr none
  ends_two : (b : B) (c : C) → MovesTwo instr (some (null, b, c))
  goes_two : (b : B) (c : C) → MovesTwo instr (some (instruction (instr + 1), b, c))

module _ {A : Type 0} (instr : ℕ) where
  then_moves :
      {B : Type 0} (o : Option B) (f : B → Handled A)
      → ((b : B) → Moves instr (f b))
      → Moves instr (then_handle o f)
  unfolding then_handle
  then_moves none f h = stuck
  then_moves (some b) f h = h b

  two_moves :
      {B C : Type 0} (o : Option (Next × B × C)) (g : Next × B × C → Machine A)
      → MovesTwo instr o
      → Moves instr (then_handle o (λ t. some (t.0, g t)))
  unfolding then_handle
  two_moves none g h = stuck
  two_moves (some (null, b, c)) g (ends_two _ _) = ends (g (null, b, c))
  two_moves (some (instruction _, b, c)) g (goes_two _ _) = goes (g (instruction (instr + 1), b, c))

  status_moves : (opcode : ℕ) (result : Result A) → Moves instr (after_status opcode instr result)
  unfolding after_status
  status_moves opcode none = stuck
  status_moves opcode (some (evmc_success, m)) = goes _
  status_moves opcode (some (other, m)) = ends _

  exit_moves : (result : Result A) → Moves instr (after_exit result)
  unfolding after_exit
  exit_moves none = stuck
  exit_moves (some (code, m)) = ends _

  returned_moves :
      (correction : ℤ) (code : StatusCode) (m : Machine A)
      → Moves instr (some (returned correction instr (code, m)))
  returned_moves correction evmc_success m = split (ltb_ℤ (m.gas_left -ℤ correction) (pos 0))
    where
      split :
          (b : Bool)
          → Moves instr (
              some (
                (if b then null else instruction (instr + 1)),
                record m { gas_left = m.gas_left -ℤ correction },
              ))
      split true = ends _
      split false = goes _
  returned_moves correction other m = ends _

  call_moves :
      (opcode : ℕ) (number : ℤ) (f : Machine A → Result A) (m : Machine A)
      → Moves instr (after_call opcode instr number f m)
  unfolding after_call
  call_moves opcode number f m =
      part (pos m.current_block_cost -ℤ number) (f (lent (pos m.current_block_cost -ℤ number) m))
    where
      part :
          (correction : ℤ) (result : Result A)
          → Moves instr (result >>= (λ t. some (returned correction instr (t.0, moved opcode t.1))))
      part correction none = stuck
      part correction (some (code, m)) = returned_moves correction code (moved opcode m)

  begun_moves :
      (begin : Begin) (frame : Frame) (m : Machine A) → Moves instr (begun instr (begin, frame) m)
  begun_moves next frame m = goes _
  begun_moves out_of_gas frame m = ends _
  begun_moves stack_underflow frame m = ends _
  begun_moves stack_overflow frame m = ends _

-- Where a status decides between the next instruction and the end.
next_two :
    {B C : Type 0} (instr : ℕ) (code : StatusCode) (b : B) (c : C)
    → MovesTwo instr (some (next_if code instr, b, c))
next_two instr evmc_success b c = goes_two b c
next_two instr other b c = ends_two b c

bind_two :
    {B C D : Type 0} (instr : ℕ) (o : Option B) (f : B → Option (Next × C × D))
    → ((b : B) → MovesTwo instr (f b))
    → MovesTwo instr (o >>= f)
bind_two instr none f h = stuck_two
bind_two instr (some b) f h = h b

module _ {S A : Type 0} (account_map : Map (List ℕ) (MockedAccount S) A)
    (storage_map : Map (List ℕ) StorageValue S) (cstr_cmp : List ℕ → List ℕ → ℤ) where
  take_back_two :
      (correction : ℤ) (instr : ℕ) (s : Stack) (code : StatusCode) (h : HostState A)
      → MovesTwo instr
          (some (Storing.take_back account_map storage_map cstr_cmp correction instr s (code, h)))
  take_back_two correction instr s evmc_success h = next_two instr _ _ _
  take_back_two correction instr s other h = ends_two _ _

-- The jumps, and the instructions with a loop of their own whose rounds depend on the stack.
abbrev pub may_loop : InstructionFn → Bool
may_loop InstructionFn.op_jump = true
may_loop InstructionFn.op_jumpi = true
may_loop InstructionFn.op_div = true
may_loop InstructionFn.op_sdiv = true
may_loop InstructionFn.op_mod = true
may_loop InstructionFn.op_smod = true
may_loop InstructionFn.op_addmod = true
may_loop InstructionFn.op_mulmod = true
may_loop InstructionFn.op_exp = true
may_loop other = false

module _ {S A : Type 0} (p : Platform S A) (analysis : Progress) where
  pub run_fn-Moves :
      (fn : InstructionFn) (arg : InstructionArgument) (instr : ℕ) (m : Machine A)
      → may_loop fn ≡ false
      → Moves instr (run_fn p analysis fn arg instr m)
  unfolding run_fn after_exit Handlers.op_keccak256 Handlers.op_calldatacopy Handlers.op_codecopy
      Handlers.op_returndatacopy Handlers.op_balance Handlers.op_extcodesize Handlers.op_extcodehash
      Handlers.op_extcodecopy Handlers.op_log0 Handlers.op_log1 Handlers.op_log2 Handlers.op_log3
      Handlers.op_log4 Handlers.op_return Handlers.op_revert Handlers.op_selfdestruct
      Handlers.op_call Handlers.op_staticcall Handlers.op_delegatecall Handlers.op_callcode
      Handlers.op_create Handlers.op_create2 Handlers.op_caller Handlers.op_callvalue
      Handlers.op_calldataload Handlers.op_calldatasize Handlers.op_codesize Handlers.op_gasprice
      Handlers.op_timestamp Handlers.op_number Handlers.op_difficulty Handlers.op_gaslimit
      Handlers.op_chainid Handlers.op_basefee Handlers.op_msize Handlers.op_blockhash
      Handlers.op_stop Handlers.op_invalid Handlers.op_undefined Handlers.op_origin
      Handlers.op_coinbase Handlers.op_selfbalance Handlers.op_address Handlers.op_returndatasize
      Transfer.op_mload Transfer.op_mstore Transfer.op_mstore8 Storing.op_sload Storing.op_sstore
      Jump.op_pc Jump.op_gas Jump.op_push_small Jump.op_push_full
  run_fn-Moves InstructionFn.op_add arg instr m h = goes _
  run_fn-Moves InstructionFn.op_mul arg instr m h = goes _
  run_fn-Moves InstructionFn.op_sub arg instr m h = goes _
  run_fn-Moves InstructionFn.op_signextend arg instr m h = goes _
  run_fn-Moves InstructionFn.op_lt arg instr m h = goes _
  run_fn-Moves InstructionFn.op_gt arg instr m h = goes _
  run_fn-Moves InstructionFn.op_slt arg instr m h = goes _
  run_fn-Moves InstructionFn.op_sgt arg instr m h = goes _
  run_fn-Moves InstructionFn.op_eq arg instr m h = goes _
  run_fn-Moves InstructionFn.op_iszero arg instr m h = goes _
  run_fn-Moves InstructionFn.op_and arg instr m h = goes _
  run_fn-Moves InstructionFn.op_or arg instr m h = goes _
  run_fn-Moves InstructionFn.op_xor arg instr m h = goes _
  run_fn-Moves InstructionFn.op_not arg instr m h = goes _
  run_fn-Moves InstructionFn.op_byte arg instr m h = goes _
  run_fn-Moves InstructionFn.op_shl arg instr m h = goes _
  run_fn-Moves InstructionFn.op_shr arg instr m h = goes _
  run_fn-Moves InstructionFn.op_sar arg instr m h = goes _
  run_fn-Moves InstructionFn.op_pop arg instr m h = goes _
  run_fn-Moves InstructionFn.op_push0 arg instr m h = goes _
  run_fn-Moves InstructionFn.op_jumpdest arg instr m h = goes _
  run_fn-Moves InstructionFn.op_dup1 arg instr m h = goes _
  run_fn-Moves InstructionFn.op_dup2 arg instr m h = goes _
  run_fn-Moves InstructionFn.op_dup3 arg instr m h = goes _
  run_fn-Moves InstructionFn.op_dup4 arg instr m h = goes _
  run_fn-Moves InstructionFn.op_dup5 arg instr m h = goes _
  run_fn-Moves InstructionFn.op_dup6 arg instr m h = goes _
  run_fn-Moves InstructionFn.op_dup7 arg instr m h = goes _
  run_fn-Moves InstructionFn.op_dup8 arg instr m h = goes _
  run_fn-Moves InstructionFn.op_dup9 arg instr m h = goes _
  run_fn-Moves InstructionFn.op_dup10 arg instr m h = goes _
  run_fn-Moves InstructionFn.op_dup11 arg instr m h = goes _
  run_fn-Moves InstructionFn.op_dup12 arg instr m h = goes _
  run_fn-Moves InstructionFn.op_dup13 arg instr m h = goes _
  run_fn-Moves InstructionFn.op_dup14 arg instr m h = goes _
  run_fn-Moves InstructionFn.op_dup15 arg instr m h = goes _
  run_fn-Moves InstructionFn.op_dup16 arg instr m h = goes _
  run_fn-Moves InstructionFn.op_swap1 arg instr m h = goes _
  run_fn-Moves InstructionFn.op_swap2 arg instr m h = goes _
  run_fn-Moves InstructionFn.op_swap3 arg instr m h = goes _
  run_fn-Moves InstructionFn.op_swap4 arg instr m h = goes _
  run_fn-Moves InstructionFn.op_swap5 arg instr m h = goes _
  run_fn-Moves InstructionFn.op_swap6 arg instr m h = goes _
  run_fn-Moves InstructionFn.op_swap7 arg instr m h = goes _
  run_fn-Moves InstructionFn.op_swap8 arg instr m h = goes _
  run_fn-Moves InstructionFn.op_swap9 arg instr m h = goes _
  run_fn-Moves InstructionFn.op_swap10 arg instr m h = goes _
  run_fn-Moves InstructionFn.op_swap11 arg instr m h = goes _
  run_fn-Moves InstructionFn.op_swap12 arg instr m h = goes _
  run_fn-Moves InstructionFn.op_swap13 arg instr m h = goes _
  run_fn-Moves InstructionFn.op_swap14 arg instr m h = goes _
  run_fn-Moves InstructionFn.op_swap15 arg instr m h = goes _
  run_fn-Moves InstructionFn.op_swap16 arg instr m h = goes _
  run_fn-Moves InstructionFn.op_div arg instr m h = absurd (cc)
  run_fn-Moves InstructionFn.op_sdiv arg instr m h = absurd (cc)
  run_fn-Moves InstructionFn.op_mod arg instr m h = absurd (cc)
  run_fn-Moves InstructionFn.op_smod arg instr m h = absurd (cc)
  run_fn-Moves InstructionFn.op_addmod arg instr m h = absurd (cc)
  run_fn-Moves InstructionFn.op_mulmod arg instr m h = absurd (cc)
  run_fn-Moves InstructionFn.op_caller arg instr m h = goes _
  run_fn-Moves InstructionFn.op_callvalue arg instr m h = goes _
  run_fn-Moves InstructionFn.op_calldataload arg instr m h = goes _
  run_fn-Moves InstructionFn.op_calldatasize arg instr m h = goes _
  run_fn-Moves InstructionFn.op_codesize arg instr m h = goes _
  run_fn-Moves InstructionFn.op_gasprice arg instr m h = goes _
  run_fn-Moves InstructionFn.op_timestamp arg instr m h = goes _
  run_fn-Moves InstructionFn.op_number arg instr m h = goes _
  run_fn-Moves InstructionFn.op_difficulty arg instr m h = goes _
  run_fn-Moves InstructionFn.op_gaslimit arg instr m h = goes _
  run_fn-Moves InstructionFn.op_chainid arg instr m h = goes _
  run_fn-Moves InstructionFn.op_basefee arg instr m h = goes _
  run_fn-Moves InstructionFn.op_msize arg instr m h = goes _
  run_fn-Moves InstructionFn.op_blockhash arg instr m h = goes _
  run_fn-Moves InstructionFn.op_origin arg instr m h = goes _
  run_fn-Moves InstructionFn.op_coinbase arg instr m h = goes _
  run_fn-Moves InstructionFn.op_selfbalance arg instr m h = goes _
  run_fn-Moves InstructionFn.op_address arg instr m h = stuck
  run_fn-Moves InstructionFn.unset arg instr m h = stuck
  run_fn-Moves InstructionFn.op_returndatasize arg instr m h = then_moves instr _ _ (λ t. goes _)
  run_fn-Moves InstructionFn.op_stop arg instr m h = ends _
  run_fn-Moves InstructionFn.op_invalid arg instr m h = ends _
  run_fn-Moves InstructionFn.op_undefined arg instr m h = ends _
  run_fn-Moves InstructionFn.op_return arg instr m h = exit_moves instr _
  run_fn-Moves InstructionFn.op_revert arg instr m h = exit_moves instr _
  run_fn-Moves InstructionFn.op_selfdestruct arg instr m h = exit_moves instr _
  run_fn-Moves InstructionFn.op_keccak256 arg instr m h = status_moves instr _ _
  run_fn-Moves InstructionFn.op_calldatacopy arg instr m h = status_moves instr _ _
  run_fn-Moves InstructionFn.op_codecopy arg instr m h = status_moves instr _ _
  run_fn-Moves InstructionFn.op_returndatacopy arg instr m h = status_moves instr _ _
  run_fn-Moves InstructionFn.op_balance arg instr m h = status_moves instr _ _
  run_fn-Moves InstructionFn.op_extcodesize arg instr m h = status_moves instr _ _
  run_fn-Moves InstructionFn.op_extcodehash arg instr m h = status_moves instr _ _
  run_fn-Moves InstructionFn.op_extcodecopy arg instr m h = status_moves instr _ _
  run_fn-Moves InstructionFn.op_log0 arg instr m h = status_moves instr _ _
  run_fn-Moves InstructionFn.op_log1 arg instr m h = status_moves instr _ _
  run_fn-Moves InstructionFn.op_log2 arg instr m h = status_moves instr _ _
  run_fn-Moves InstructionFn.op_log3 arg instr m h = status_moves instr _ _
  run_fn-Moves InstructionFn.op_log4 arg instr m h = status_moves instr _ _
  run_fn-Moves InstructionFn.op_call arg instr m h =
      then_moves instr _ _ (λ n. call_moves instr _ n _ m)
  run_fn-Moves InstructionFn.op_callcode arg instr m h =
      then_moves instr _ _ (λ n. call_moves instr _ n _ m)
  run_fn-Moves InstructionFn.op_delegatecall arg instr m h =
      then_moves instr _ _ (λ n. call_moves instr _ n _ m)
  run_fn-Moves InstructionFn.op_staticcall arg instr m h =
      then_moves instr _ _ (λ n. call_moves instr _ n _ m)
  run_fn-Moves InstructionFn.op_create arg instr m h =
      then_moves instr _ _ (λ n. call_moves instr _ n _ m)
  run_fn-Moves InstructionFn.op_create2 arg instr m h =
      then_moves instr _ _ (λ n. call_moves instr _ n _ m)
  run_fn-Moves InstructionFn.op_exp arg instr m h = absurd (cc)
  run_fn-Moves InstructionFn.op_mload arg instr m h = two_moves instr _ _ (
      bind_two instr (Transfer.mload p.realloc m.stack.top_item m.stack.space (estate m)) _
        (λ t. next_two instr _ _ _))
  run_fn-Moves InstructionFn.op_mstore arg instr m h = two_moves instr _ _ (
      bind_two instr (Transfer.mstore p.realloc m.stack.top_item m.stack.space (estate m)) _
        (λ t. next_two instr _ _ _))
  run_fn-Moves InstructionFn.op_mstore8 arg instr m h = two_moves instr _ _ (
      bind_two instr
        (Transfer.mstore8 p.realloc m.stack.top_item m.stack.space p.unset.out (estate m)) _
        (λ t. next_two instr _ _ _))
  run_fn-Moves InstructionFn.op_sload arg instr m h = two_moves instr _ _ (
      bind_two instr
        (Storing.sload p.account_map p.storage_map m.stack.top_item m.stack.space (host_state m)) _
        (λ t. next_two instr _ _ _))
  run_fn-Moves InstructionFn.op_sstore arg instr m h = then_moves instr _ _ (λ n.
      two_moves instr _ _ (
        bind_two instr
          (Storing.sstore p.account_map p.storage_map p.cstr_cmp m.stack.top_item m.stack.space
            (Storing.lend (pos m.current_block_cost -ℤ n) (host_state m)))
          _ (λ t. take_back_two p.account_map p.storage_map p.cstr_cmp _ instr _ t.0 t.1)))
  run_fn-Moves InstructionFn.op_pc arg instr m h = then_moves instr _ _ (λ n. goes _)
  run_fn-Moves InstructionFn.op_gas arg instr m h = then_moves instr _ _ (λ n. goes _)
  run_fn-Moves InstructionFn.op_push_small arg instr m h = then_moves instr _ _ (λ n. goes _)
  run_fn-Moves InstructionFn.op_push_full arg instr m h = then_moves instr _ _ (λ n. goes _)
  run_fn-Moves InstructionFn.opx_beginblock arg instr m h =
      then_moves instr _ _ (λ info. begun_moves instr _ _ m)
  run_fn-Moves InstructionFn.op_jump arg instr m h = absurd (cc)
  run_fn-Moves InstructionFn.op_jumpi arg instr m h = absurd (cc)
