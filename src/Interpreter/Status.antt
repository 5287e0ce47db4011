-- ===== src/Interpreter/Status.antt =====
-- What no run changes: the status and the configuration.
pub mod Rules
pub mod Instructions
pub mod Calls
use tsc_vee.Base.{ℕ, zero, suc, ◌≡◌, ap, ◌∙◌, List, get_elem?, Option, none, some, ◌>>=◌, arith}
use tsc_vee.Base.Int.{ℤ}
use tsc_vee.Opcode
use tsc_vee.Status.{StatusCode}
use tsc_vee.Jump.{Next, null, instruction, AdvancedExecutionState, op_jump, op_jumpi}
use tsc_vee.Block.{Begin, Frame, out_of_gas, stack_underflow, stack_overflow, next}
use tsc_vee.Dispatch.{InstructionFn}
use tsc_vee.Analysis.{InstructionArgument, Progress}
use tsc_vee.Machine.{Machine, Message}
use tsc_vee.Machine.Platform.{Platform}
use tsc_vee.Machine.Handlers as Handlers
use tsc_vee.Machine.Handlers.{Handled, after_exit}
use tsc_vee.Interpreter.{
  advanced, with_advanced, begun, run_fn, step, Outcome, finished, undefined, out_of_fuel, proceed,
  run_loop,
}
use tsc_vee.Interpreter.Status.Rules.{
  Good, Keeps, went, stopped, bind-Keeps, loop-Keeps, status-Keeps, exit-Keeps, call-Keeps,
}
use tsc_vee.Interpreter.Status.Instructions.{
  calldatacopy_keeps, codecopy_keeps, returndatacopy_keeps, keccak256_keeps, return_keeps,
  revert_keeps, log0_keeps, log_topics_keeps, balance_keeps, extcodesize_keeps, extcodehash_keeps,
  extcodecopy_keeps, selfdestruct_keeps,
}
use tsc_vee.Interpreter.Status.Calls as Calls
use tsc_vee.Interpreter.Status.Calls.{kept_config}

module _ (lower_bound : List ℤ → ℤ → ℕ) (analysis : Progress) (instr : ℕ)
    (a : AdvancedExecutionState) where
  op_jump-status : (op_jump lower_bound analysis instr a).1.status ≡ a.status
  unfolding op_jump
  op_jump-status = ground arith

  op_jumpi-status : (op_jumpi lower_bound analysis instr a).1.status ≡ a.status
  unfolding op_jumpi
  op_jumpi-status = ground (arith, op_jump-status)

module _ {S A : Type 0} (p : Platform S A) (analysis : Progress) (status : StatusCode)
    (msg : Message) (rev : ℕ) (code : List ℕ) where
  abbrev Kept : Handled A → Type 0
  Kept = Keeps (kept_config status msg rev code)

  abbrev Same : Machine A → Type 0
  Same = Good (kept_config status msg rev code)

  advanced_keeps :
      (t : Next × AdvancedExecutionState) (m : Machine A)
      → t.1.status ≡ m.status
      → Same m
      → Kept (with_advanced t m)
  advanced_keeps (after, a) m e h =
      went after _ (ap (λ s. (s, m.msg, m.rev, m.code, m.return_data)) e ∙ h)

  begun_keeps :
      (instr : ℕ) (begin : Begin) (frame : Frame) (m : Machine A)
      → Same m
      → Kept (begun instr (begin, frame) m)
  begun_keeps instr next frame m h = went _ _ h
  begun_keeps instr out_of_gas frame m h = went _ _ h
  begun_keeps instr stack_underflow frame m h = went _ _ h
  begun_keeps instr stack_overflow frame m h = went _ _ h

  run_fn_keeps :
      (fn : InstructionFn) (arg : InstructionArgument) (instr : ℕ) (m : Machine A)
      → Same m
      → Kept (run_fn p analysis fn arg instr m)
  unfolding run_fn after_exit Handlers.op_keccak256 Handlers.op_calldatacopy Handlers.op_codecopy
      Handlers.op_returndatacopy Handlers.op_balance Handlers.op_extcodesize Handlers.op_extcodehash
      Handlers.op_extcodecopy Handlers.op_log0 Handlers.op_log1 Handlers.op_log2 Handlers.op_log3
      Handlers.op_log4 Handlers.op_return Handlers.op_revert Handlers.op_selfdestruct
      Handlers.op_call Handlers.op_staticcall Handlers.op_delegatecall Handlers.op_callcode
      Handlers.op_create Handlers.op_create2 Handlers.op_caller Handlers.op_callvalue
      Handlers.op_calldataload Handlers.op_calldatasize Handlers.op_codesize Handlers.op_gasprice
      Handlers.op_timestamp Handlers.op_number Handlers.op_difficulty Handlers.op_gaslimit
      Handlers.op_chainid Handlers.op_basefee Handlers.op_msize Handlers.op_blockhash
      Handlers.op_stop Handlers.op_invalid Handlers.op_undefined Handlers.op_origin
      Handlers.op_coinbase Handlers.op_selfbalance Handlers.op_address Handlers.op_returndatasize
  run_fn_keeps InstructionFn.op_add arg instr m h = went _ _ h
  run_fn_keeps InstructionFn.op_mul arg instr m h = went _ _ h
  run_fn_keeps InstructionFn.op_sub arg instr m h = went _ _ h
  run_fn_keeps InstructionFn.op_signextend arg instr m h = went _ _ h
  run_fn_keeps InstructionFn.op_lt arg instr m h = went _ _ h
  run_fn_keeps InstructionFn.op_gt arg instr m h = went _ _ h
  run_fn_keeps InstructionFn.op_slt arg instr m h = went _ _ h
  run_fn_keeps InstructionFn.op_sgt arg instr m h = went _ _ h
  run_fn_keeps InstructionFn.op_eq arg instr m h = went _ _ h
  run_fn_keeps InstructionFn.op_iszero arg instr m h = went _ _ h
  run_fn_keeps InstructionFn.op_and arg instr m h = went _ _ h
  run_fn_keeps InstructionFn.op_or arg instr m h = went _ _ h
  run_fn_keeps InstructionFn.op_xor arg instr m h = went _ _ h
  run_fn_keeps InstructionFn.op_not arg instr m h = went _ _ h
  run_fn_keeps InstructionFn.op_byte arg instr m h = went _ _ h
  run_fn_keeps InstructionFn.op_shl arg instr m h = went _ _ h
  run_fn_keeps InstructionFn.op_shr arg instr m h = went _ _ h
  run_fn_keeps InstructionFn.op_sar arg instr m h = went _ _ h
  run_fn_keeps InstructionFn.op_pop arg instr m h = went _ _ h
  run_fn_keeps InstructionFn.op_push0 arg instr m h = went _ _ h
  run_fn_keeps InstructionFn.op_jumpdest arg instr m h = went _ _ h
  run_fn_keeps InstructionFn.op_dup1 arg instr m h = went _ _ h
  run_fn_keeps InstructionFn.op_dup2 arg instr m h = went _ _ h
  run_fn_keeps InstructionFn.op_dup3 arg instr m h = went _ _ h
  run_fn_keeps InstructionFn.op_dup4 arg instr m h = went _ _ h
  run_fn_keeps InstructionFn.op_dup5 arg instr m h = went _ _ h
  run_fn_keeps InstructionFn.op_dup6 arg instr m h = went _ _ h
  run_fn_keeps InstructionFn.op_dup7 arg instr m h = went _ _ h
  run_fn_keeps InstructionFn.op_dup8 arg instr m h = went _ _ h
  run_fn_keeps InstructionFn.op_dup9 arg instr m h = went _ _ h
  run_fn_keeps InstructionFn.op_dup10 arg instr m h = went _ _ h
  run_fn_keeps InstructionFn.op_dup11 arg instr m h = went _ _ h
  run_fn_keeps InstructionFn.op_dup12 arg instr m h = went _ _ h
  run_fn_keeps InstructionFn.op_dup13 arg instr m h = went _ _ h
  run_fn_keeps InstructionFn.op_dup14 arg instr m h = went _ _ h
  run_fn_keeps InstructionFn.op_dup15 arg instr m h = went _ _ h
  run_fn_keeps InstructionFn.op_dup16 arg instr m h = went _ _ h
  run_fn_keeps InstructionFn.op_swap1 arg instr m h = went _ _ h
  run_fn_keeps InstructionFn.op_swap2 arg instr m h = went _ _ h
  run_fn_keeps InstructionFn.op_swap3 arg instr m h = went _ _ h
  run_fn_keeps InstructionFn.op_swap4 arg instr m h = went _ _ h
  run_fn_keeps InstructionFn.op_swap5 arg instr m h = went _ _ h
  run_fn_keeps InstructionFn.op_swap6 arg instr m h = went _ _ h
  run_fn_keeps InstructionFn.op_swap7 arg instr m h = went _ _ h
  run_fn_keeps InstructionFn.op_swap8 arg instr m h = went _ _ h
  run_fn_keeps InstructionFn.op_swap9 arg instr m h = went _ _ h
  run_fn_keeps InstructionFn.op_swap10 arg instr m h = went _ _ h
  run_fn_keeps InstructionFn.op_swap11 arg instr m h = went _ _ h
  run_fn_keeps InstructionFn.op_swap12 arg instr m h = went _ _ h
  run_fn_keeps InstructionFn.op_swap13 arg instr m h = went _ _ h
  run_fn_keeps InstructionFn.op_swap14 arg instr m h = went _ _ h
  run_fn_keeps InstructionFn.op_swap15 arg instr m h = went _ _ h
  run_fn_keeps InstructionFn.op_swap16 arg instr m h = went _ _ h
  run_fn_keeps InstructionFn.op_div arg instr m h =
      loop-Keeps (kept_config status msg rev code) _ instr m _ h (λ t. went _ _ h)
  run_fn_keeps InstructionFn.op_sdiv arg instr m h =
      loop-Keeps (kept_config status msg rev code) _ instr m _ h (λ t. went _ _ h)
  run_fn_keeps InstructionFn.op_mod arg instr m h =
      loop-Keeps (kept_config status msg rev code) _ instr m _ h (λ t. went _ _ h)
  run_fn_keeps InstructionFn.op_smod arg instr m h =
      loop-Keeps (kept_config status msg rev code) _ instr m _ h (λ t. went _ _ h)
  run_fn_keeps InstructionFn.op_addmod arg instr m h =
      loop-Keeps (kept_config status msg rev code) _ instr m _ h (λ t. went _ _ h)
  run_fn_keeps InstructionFn.op_mulmod arg instr m h =
      loop-Keeps (kept_config status msg rev code) _ instr m _ h (λ t. went _ _ h)
  run_fn_keeps InstructionFn.op_exp arg instr m h =
      loop-Keeps (kept_config status msg rev code) _ instr m _ h (λ t. went _ _ h)
  run_fn_keeps InstructionFn.op_caller arg instr m h = went _ _ h
  run_fn_keeps InstructionFn.op_callvalue arg instr m h = went _ _ h
  run_fn_keeps InstructionFn.op_calldataload arg instr m h = went _ _ h
  run_fn_keeps InstructionFn.op_calldatasize arg instr m h = went _ _ h
  run_fn_keeps InstructionFn.op_codesize arg instr m h = went _ _ h
  run_fn_keeps InstructionFn.op_gasprice arg instr m h = went _ _ h
  run_fn_keeps InstructionFn.op_timestamp arg instr m h = went _ _ h
  run_fn_keeps InstructionFn.op_number arg instr m h = went _ _ h
  run_fn_keeps InstructionFn.op_difficulty arg instr m h = went _ _ h
  run_fn_keeps InstructionFn.op_gaslimit arg instr m h = went _ _ h
  run_fn_keeps InstructionFn.op_chainid arg instr m h = went _ _ h
  run_fn_keeps InstructionFn.op_basefee arg instr m h = went _ _ h
  run_fn_keeps InstructionFn.op_msize arg instr m h = went _ _ h
  run_fn_keeps InstructionFn.op_blockhash arg instr m h = went _ _ h
  run_fn_keeps InstructionFn.op_stop arg instr m h = went _ _ h
  run_fn_keeps InstructionFn.op_invalid arg instr m h = went _ _ h
  run_fn_keeps InstructionFn.op_undefined arg instr m h = went _ _ h
  run_fn_keeps InstructionFn.op_origin arg instr m h = went _ _ h
  run_fn_keeps InstructionFn.op_coinbase arg instr m h = went _ _ h
  run_fn_keeps InstructionFn.op_selfbalance arg instr m h = went _ _ h
  run_fn_keeps InstructionFn.op_address arg instr m h = stopped
  run_fn_keeps InstructionFn.unset arg instr m h = stopped
  run_fn_keeps InstructionFn.op_returndatasize arg instr m h =
      bind-Keeps (kept_config status msg rev code) _ _ (λ t. went _ _ h)
  run_fn_keeps InstructionFn.op_keccak256 arg instr m h =
      status-Keeps (kept_config status msg rev code) _ _ _ (
        keccak256_keeps (kept_config status msg rev code) p.realloc m.stack.top_item m.stack.space
          p.sha3 m h)
  run_fn_keeps InstructionFn.op_calldatacopy arg instr m h =
      status-Keeps (kept_config status msg rev code) _ _ _ (
        calldatacopy_keeps (kept_config status msg rev code) p.realloc m.stack.top_item
          m.stack.space m h)
  run_fn_keeps InstructionFn.op_codecopy arg instr m h =
      status-Keeps (kept_config status msg rev code) _ _ _ (
        codecopy_keeps (kept_config status msg rev code) p.realloc m.stack.top_item m.stack.space m
          h)
  run_fn_keeps InstructionFn.op_returndatacopy arg instr m h =
      status-Keeps (kept_config status msg rev code) _ _ _ (
        returndatacopy_keeps (kept_config status msg rev code) p.realloc m.stack.top_item
          m.stack.space m h)
  run_fn_keeps InstructionFn.op_balance arg instr m h =
      status-Keeps (kept_config status msg rev code) _ _ _ (
        balance_keeps (kept_config status msg rev code) p.realloc m.stack.top_item m.stack.space
          p.cstr_cmp p.cvec_addr_find p.account_map m h)
  run_fn_keeps InstructionFn.op_extcodesize arg instr m h =
      status-Keeps (kept_config status msg rev code) _ _ _ (
        extcodesize_keeps (kept_config status msg rev code) p.realloc m.stack.top_item m.stack.space
          p.cstr_cmp p.cvec_addr_find p.account_map m h)
  run_fn_keeps InstructionFn.op_extcodehash arg instr m h =
      status-Keeps (kept_config status msg rev code) _ _ _ (
        extcodehash_keeps (kept_config status msg rev code) p.realloc m.stack.top_item m.stack.space
          p.cstr_cmp p.cvec_addr_find p.account_map m h)
  run_fn_keeps InstructionFn.op_extcodecopy arg instr m h =
      status-Keeps (kept_config status msg rev code) _ _ _ (
        extcodecopy_keeps (kept_config status msg rev code) p.realloc m.stack.top_item m.stack.space
          p.cstr_cmp p.cvec_addr_find p.account_map m h)
  run_fn_keeps InstructionFn.op_log0 arg instr m h =
      status-Keeps (kept_config status msg rev code) _ _ _ (
        log0_keeps (kept_config status msg rev code) p.realloc m.stack.top_item m.stack.space
          p.unset.garbage m h)
  run_fn_keeps InstructionFn.op_log1 arg instr m h =
      status-Keeps (kept_config status msg rev code) _ _ _ (
        log_topics_keeps (kept_config status msg rev code) p.realloc m.stack.top_item m.stack.space
          p.unset.garbage 1 m h)
  run_fn_keeps InstructionFn.op_log2 arg instr m h =
      status-Keeps (kept_config status msg rev code) _ _ _ (
        log_topics_keeps (kept_config status msg rev code) p.realloc m.stack.top_item m.stack.space
          p.unset.garbage 2 m h)
  run_fn_keeps InstructionFn.op_log3 arg instr m h =
      status-Keeps (kept_config status msg rev code) _ _ _ (
        log_topics_keeps (kept_config status msg rev code) p.realloc m.stack.top_item m.stack.space
          p.unset.garbage 3 m h)
  run_fn_keeps InstructionFn.op_log4 arg instr m h =
      status-Keeps (kept_config status msg rev code) _ _ _ (
        log_topics_keeps (kept_config status msg rev code) p.realloc m.stack.top_item m.stack.space
          p.unset.garbage 4 m h)
  run_fn_keeps InstructionFn.op_return arg instr m h =
      exit-Keeps (kept_config status msg rev code) _ (
        return_keeps (kept_config status msg rev code) p.realloc m.stack.top_item m.stack.space m h)
  run_fn_keeps InstructionFn.op_revert arg instr m h =
      exit-Keeps (kept_config status msg rev code) _ (
        revert_keeps (kept_config status msg rev code) p.realloc m.stack.top_item m.stack.space m h)
  run_fn_keeps InstructionFn.op_selfdestruct arg instr m h =
      exit-Keeps (kept_config status msg rev code) _ (
        selfdestruct_keeps (kept_config status msg rev code) p.realloc m.stack.top_item
          m.stack.space p.cstr_cmp p.cvec_addr_find p.account_map m h)
  run_fn_keeps InstructionFn.op_call arg instr m h =
      bind-Keeps (kept_config status msg rev code) _ _ (λ n.
        call-Keeps (kept_config status msg rev code) _ _ n _ m h (λ s k.
          Calls.call-Keeps status msg rev code p.account_map p.realloc p.cstr_cmp p.cvec_addr_find
            p.unset.fresh s.stack.top_item s.stack.space s k))
  run_fn_keeps InstructionFn.op_staticcall arg instr m h =
      bind-Keeps (kept_config status msg rev code) _ _ (λ n.
        call-Keeps (kept_config status msg rev code) _ _ n _ m h (λ s k.
          Calls.staticcall_keeps status msg rev code p.account_map p.realloc p.cstr_cmp
            p.cvec_addr_find p.unset.fresh s.stack.top_item s.stack.space s k))
  run_fn_keeps InstructionFn.op_delegatecall arg instr m h =
      bind-Keeps (kept_config status msg rev code) _ _ (λ n.
        call-Keeps (kept_config status msg rev code) _ _ n _ m h (λ s k.
          Calls.delegatecall_keeps status msg rev code p.account_map p.realloc p.cstr_cmp
            p.cvec_addr_find p.unset.fresh s.stack.top_item s.stack.space s k))
  run_fn_keeps InstructionFn.op_callcode arg instr m h =
      bind-Keeps (kept_config status msg rev code) _ _ (λ n.
        call-Keeps (kept_config status msg rev code) _ _ n _ m h (λ s k.
          Calls.callcode_keeps status msg rev code p.account_map p.realloc p.cstr_cmp
            p.cvec_addr_find p.unset.fresh s.stack.top_item s.stack.space s k))
  run_fn_keeps InstructionFn.op_create arg instr m h =
      bind-Keeps (kept_config status msg rev code) _ _ (λ n.
        call-Keeps (kept_config status msg rev code) _ _ n _ m h (λ s k.
          Calls.create_keeps status msg rev code p.account_map p.unset.before p.realloc
            p.unset.fresh s.stack.top_item s.stack.space s k))
  run_fn_keeps InstructionFn.op_create2 arg instr m h =
      bind-Keeps (kept_config status msg rev code) _ _ (λ n.
        call-Keeps (kept_config status msg rev code) _ _ n _ m h (λ s k.
          Calls.create2_keeps status msg rev code p.account_map p.unset.before p.realloc
            p.unset.fresh s.stack.top_item s.stack.space s k))
  run_fn_keeps InstructionFn.op_mload arg instr m h =
      bind-Keeps (kept_config status msg rev code) _ _ (λ t. went _ _ h)
  run_fn_keeps InstructionFn.op_mstore arg instr m h =
      bind-Keeps (kept_config status msg rev code) _ _ (λ t. went _ _ h)
  run_fn_keeps InstructionFn.op_mstore8 arg instr m h =
      bind-Keeps (kept_config status msg rev code) _ _ (λ t. went _ _ h)
  run_fn_keeps InstructionFn.op_sload arg instr m h =
      bind-Keeps (kept_config status msg rev code) _ _ (λ t. went _ _ h)
  run_fn_keeps InstructionFn.op_sstore arg instr m h =
      bind-Keeps (kept_config status msg rev code) _ _
        (λ n. bind-Keeps (kept_config status msg rev code) _ _ (λ t. went _ _ h))
  run_fn_keeps InstructionFn.op_jump arg instr m h =
      advanced_keeps _ m (op_jump-status p.lower_bound analysis instr (advanced m)) h
  run_fn_keeps InstructionFn.op_jumpi arg instr m h =
      advanced_keeps _ m (op_jumpi-status p.lower_bound analysis instr (advanced m)) h
  run_fn_keeps InstructionFn.op_pc arg instr m h =
      bind-Keeps (kept_config status msg rev code) _ _ (λ n. went _ _ h)
  run_fn_keeps InstructionFn.op_gas arg instr m h =
      bind-Keeps (kept_config status msg rev code) _ _ (λ n. went _ _ h)
  run_fn_keeps InstructionFn.op_push_small arg instr m h =
      bind-Keeps (kept_config status msg rev code) _ _ (λ n. went _ _ h)
  run_fn_keeps InstructionFn.op_push_full arg instr m h =
      bind-Keeps (kept_config status msg rev code) _ _ (λ n. went _ _ h)
  run_fn_keeps InstructionFn.opx_beginblock arg instr m h =
      bind-Keeps (kept_config status msg rev code) _ _ (λ info. begun_keeps instr _ _ m h)

  bound_keeps :
      {B : Type 0} (o : Option B) (f : B → Handled A) → ((b : B) → Kept (f b)) → Kept (o >>= f)
  bound_keeps none f h = stopped
  bound_keeps (some b) f h = h b

  step_keeps : (instr : ℕ) (m : Machine A) → Same m → Kept (step p analysis instr m)
  unfolding step
  step_keeps instr m h =
      bound_keeps (get_elem? analysis.instrs instr) _ (λ ins. run_fn_keeps ins.fn ins.arg instr m h)

  -- The end of a run, if there is one, has the configuration of the start.
  abbrev pub Ends : Outcome (Machine A) → Type 0
  Ends (finished m) = Same m
  Ends undefined = Unit
  Ends out_of_fuel = Unit

  proceed_keeps :
      (rest : ℕ → Machine A → Outcome (Machine A)) (h : Handled A)
      → Kept h
      → ((instr : ℕ) (m : Machine A) → Same m → Ends (rest instr m))
      → Ends (proceed rest h)
  proceed_keeps rest none k ends = tt
  proceed_keeps rest (some (null, m)) (went _ _ k) ends = k
  proceed_keeps rest (some (instruction instr, m)) (went _ _ k) ends = ends instr m k

  pub run_loop_keeps :
      (fuel instr : ℕ) (m : Machine A) → Same m → Ends (run_loop p analysis fuel instr m)
  unfolding run_loop
  run_loop_keeps zero instr m h = tt
  run_loop_keeps (suc fuel) instr m h =
      proceed_keeps (run_loop p analysis fuel) (step p analysis instr m) (step_keeps instr m h)
        (run_loop_keeps fuel)
