-- ===== src/Machine/Handlers.antt =====
-- The handlers of include/analysis.h for the instructions of the other children: the instruction on the
-- whole state, the change of the stack's height that the table of traits has, and the next instruction
-- or the end.
use tsc_vee.Base.{ℕ, ◌+◌, List, Option, none, some, if◌then◌else◌, ◌>>=◌}
use tsc_vee.Base.Int.{ℤ, pos, ◌+ℤ◌, ◌-ℤ◌, ltb_ℤ}
use tsc_vee.Opcode
use tsc_vee.Status.{StatusCode, evmc_success, evmc_invalid_instruction, evmc_undefined_instruction}
use tsc_vee.Uint256.{Uint256}
use tsc_vee.Stack.{move, height_change}
use tsc_vee.Jump.{Next, null, instruction}
use tsc_vee.Storing.{next_if}
use tsc_vee.Host.{MockedHost}
use tsc_vee.Machine.{Machine, Result, with_space, with_host}
use tsc_vee.Machine.Environment.{
  origin, caller, callvalue, calldataload, calldatasize, codesize, gasprice, returndatasize,
  blockhash, coinbase, timestamp, number, difficulty, gaslimit, chainid, selfbalance, basefee,
  msize,
}
use tsc_vee.Machine.Copy.{calldatacopy, codecopy, returndatacopy}
use tsc_vee.Machine.Account.{balance, extcodesize, extcodehash, extcodecopy, selfdestruct_}
use tsc_vee.Machine.Finish.{return_, revert}
use tsc_vee.Machine.Log.{log0, log_topics}
use tsc_vee.Machine.Keccak.{keccak256}
use tsc_vee.Machine.Call.{call_, callcode, delegatecall, staticcall}
use tsc_vee.Machine.Create.{create, create2}
use tsc_vee.Machine.Platform.{Platform}

-- What a handler gives; `none` stands for an access that C leaves undefined.
abbrev pub Handled : Type 0 → Type 0
Handled A = Option (Next × Machine A)

-- `>>=` of a part of an instruction that may be undefined.
unfoldable pub then_handle : {A B : Type 0} → Option B → (B → Handled A) → Handled A
then_handle o f = o >>= f

module _ {A : Type 0} where
  -- `astate->stack.top_item += traits[opcode].stack_height_change`
  abbrev pub moved : ℕ → Machine A → Machine A
  moved opcode m = record m {
    stack = record {
      space = m.stack.space;
      top_item = move m.stack.top_item (height_change opcode);
    };
  }

  -- The handler of an instruction that gives a space.
  abbrev pub after_space : ℕ → ℕ → List Uint256 → Machine A → Handled A
  after_space opcode instr space m =
      some (instruction (instr + 1), moved opcode (with_space space m))

  -- The same of one that asks the host.
  abbrev pub after_host : ℕ → ℕ → List Uint256 × MockedHost A → Machine A → Handled A
  after_host opcode instr (space, host) m = after_space opcode instr space (with_host host m)

  -- The handler of an instruction that gives a status.
  unfoldable pub after_status : ℕ → ℕ → Result A → Handled A
  after_status opcode instr result = result >>= (λ t. some (next_if t.0 instr, moved opcode t.1))

  -- `AdvancedExecutionState_exit` of the status that an instruction gives.
  unfoldable pub after_exit : Result A → Handled A
  after_exit result = result >>= (λ t. some (null, t.1))

  -- The gas of the rest of the block is lent to a call, and taken back behind it.
  abbrev pub lent : ℤ → Machine A → Machine A
  lent gas_left_correction m = record m { gas_left = m.gas_left +ℤ gas_left_correction }

  abbrev pub returned : ℤ → ℕ → StatusCode × Machine A → Next × Machine A
  returned gas_left_correction instr (evmc_success, m) =
      let paid = record m { gas_left = m.gas_left -ℤ gas_left_correction } in
      (if ltb_ℤ paid.gas_left (pos 0) then null else instruction (instr + 1), paid)
  returned gas_left_correction instr (code, m) = (null, m)

  unfoldable pub after_call : ℕ → ℕ → ℤ → (Machine A → Result A) → Machine A → Handled A
  after_call opcode instr number f m =
      let gas_left_correction = pos m.current_block_cost -ℤ number in
      f (lent gas_left_correction m)
      >>= (λ t. some (returned gas_left_correction instr (t.0, moved opcode t.1)))

  unfoldable pub op_invalid : ℕ → Machine A → Handled A
  op_invalid instr m = after_exit (some (evmc_invalid_instruction, m))

  unfoldable pub op_undefined : ℕ → Machine A → Handled A
  op_undefined instr m = after_exit (some (evmc_undefined_instruction, m))

  unfoldable pub op_stop : ℕ → Machine A → Handled A
  op_stop instr m = after_exit (some (evmc_success, m))

  -- The pointer that the address is moved to is not set.
  unfoldable pub op_address : ℕ → Machine A → Handled A
  op_address instr m = none

  unfoldable pub op_caller : ℕ → Machine A → Handled A
  unfolding caller
  op_caller instr m = after_space Opcode.op_caller instr (caller m.stack.top_item m.stack.space m) m

  unfoldable pub op_callvalue : ℕ → Machine A → Handled A
  unfolding callvalue
  op_callvalue instr m =
      after_space Opcode.op_callvalue instr (callvalue m.stack.top_item m.stack.space m) m

  unfoldable pub op_calldataload : ℕ → Machine A → Handled A
  unfolding calldataload
  op_calldataload instr m =
      after_space Opcode.op_calldataload instr (calldataload m.stack.top_item m.stack.space m) m

  unfoldable pub op_calldatasize : ℕ → Machine A → Handled A
  unfolding calldatasize
  op_calldatasize instr m =
      after_space Opcode.op_calldatasize instr (calldatasize m.stack.top_item m.stack.space m) m

  unfoldable pub op_codesize : ℕ → Machine A → Handled A
  unfolding codesize
  op_codesize instr m =
      after_space Opcode.op_codesize instr (codesize m.stack.top_item m.stack.space m) m

  unfoldable pub op_gasprice : ℕ → Machine A → Handled A
  unfolding gasprice
  op_gasprice instr m =
      after_space Opcode.op_gasprice instr (gasprice m.stack.top_item m.stack.space m) m

  unfoldable pub op_timestamp : ℕ → Machine A → Handled A
  unfolding timestamp
  op_timestamp instr m =
      after_space Opcode.op_timestamp instr (timestamp m.stack.top_item m.stack.space m) m

  unfoldable pub op_number : ℕ → Machine A → Handled A
  unfolding number
  op_number instr m = after_space Opcode.op_number instr (number m.stack.top_item m.stack.space m) m

  unfoldable pub op_difficulty : ℕ → Machine A → Handled A
  unfolding difficulty
  op_difficulty instr m =
      after_space Opcode.op_difficulty instr (difficulty m.stack.top_item m.stack.space m) m

  unfoldable pub op_gaslimit : ℕ → Machine A → Handled A
  unfolding gaslimit
  op_gaslimit instr m =
      after_space Opcode.op_gaslimit instr (gaslimit m.stack.top_item m.stack.space m) m

  unfoldable pub op_chainid : ℕ → Machine A → Handled A
  unfolding chainid
  op_chainid instr m =
      after_space Opcode.op_chainid instr (chainid m.stack.top_item m.stack.space m) m

  unfoldable pub op_basefee : ℕ → Machine A → Handled A
  unfolding basefee
  op_basefee instr m =
      after_space Opcode.op_basefee instr (basefee m.stack.top_item m.stack.space m) m

  unfoldable pub op_msize : ℕ → Machine A → Handled A
  unfolding msize
  op_msize instr m = after_space Opcode.op_msize instr (msize m.stack.top_item m.stack.space m) m

  unfoldable pub op_blockhash : ℕ → Machine A → Handled A
  unfolding blockhash
  op_blockhash instr m =
      after_host Opcode.op_blockhash instr (blockhash m.stack.top_item m.stack.space m) m

  unfoldable pub op_returndatasize : ℕ → Machine A → Handled A
  unfolding returndatasize
  op_returndatasize instr m =
      then_handle (returndatasize m.stack.top_item m.stack.space m)
        (λ space. after_space Opcode.op_returndatasize instr space m)

  module _ {S : Type 0} (p : Platform S A) where
    open p use {account_map, realloc, cstr_cmp, cvec_addr_find, sha3, unset}

    unfoldable pub op_origin : ℕ → Machine A → Handled A
    unfolding origin
    op_origin instr m =
        after_space Opcode.op_origin instr (origin m.stack.top_item m.stack.space m unset.before) m

    unfoldable pub op_coinbase : ℕ → Machine A → Handled A
    unfolding coinbase
    op_coinbase instr m =
        after_space Opcode.op_coinbase instr
          (coinbase m.stack.top_item m.stack.space m unset.before) m

    unfoldable pub op_selfbalance : ℕ → Machine A → Handled A
    unfolding selfbalance
    op_selfbalance instr m =
        after_host Opcode.op_selfbalance instr
          (selfbalance m.stack.top_item m.stack.space m account_map) m

    unfoldable pub op_keccak256 : ℕ → Machine A → Handled A
    unfolding keccak256
    op_keccak256 instr m =
        after_status Opcode.op_keccak256 instr
          (keccak256 realloc sha3 m.stack.top_item m.stack.space m)

    unfoldable pub op_calldatacopy : ℕ → Machine A → Handled A
    unfolding calldatacopy
    op_calldatacopy instr m =
        after_status Opcode.op_calldatacopy instr
          (calldatacopy realloc m.stack.top_item m.stack.space m)

    unfoldable pub op_codecopy : ℕ → Machine A → Handled A
    unfolding codecopy
    op_codecopy instr m =
        after_status Opcode.op_codecopy instr (codecopy realloc m.stack.top_item m.stack.space m)

    unfoldable pub op_returndatacopy : ℕ → Machine A → Handled A
    unfolding returndatacopy
    op_returndatacopy instr m =
        after_status Opcode.op_returndatacopy instr
          (returndatacopy realloc m.stack.top_item m.stack.space m)

    unfoldable pub op_balance : ℕ → Machine A → Handled A
    unfolding balance
    op_balance instr m =
        after_status Opcode.op_balance instr
          (balance cstr_cmp cvec_addr_find account_map m.stack.top_item m.stack.space m)

    unfoldable pub op_extcodesize : ℕ → Machine A → Handled A
    unfolding extcodesize
    op_extcodesize instr m =
        after_status Opcode.op_extcodesize instr
          (extcodesize cstr_cmp cvec_addr_find account_map m.stack.top_item m.stack.space m)

    unfoldable pub op_extcodehash : ℕ → Machine A → Handled A
    unfolding extcodehash
    op_extcodehash instr m =
        after_status Opcode.op_extcodehash instr
          (extcodehash cstr_cmp cvec_addr_find account_map m.stack.top_item m.stack.space m)

    unfoldable pub op_extcodecopy : ℕ → Machine A → Handled A
    unfolding extcodecopy
    op_extcodecopy instr m =
        after_status Opcode.op_extcodecopy instr
          (extcodecopy cstr_cmp cvec_addr_find account_map m.stack.top_item m.stack.space m realloc)

    unfoldable pub op_log0 : ℕ → Machine A → Handled A
    unfolding log0
    op_log0 instr m =
        after_status Opcode.op_log0 instr
          (log0 unset.garbage realloc m.stack.top_item m.stack.space m)

    unfoldable pub op_log1 : ℕ → Machine A → Handled A
    unfolding log_topics
    op_log1 instr m =
        after_status Opcode.op_log1 instr
          (log_topics unset.garbage realloc m.stack.top_item m.stack.space m 1)

    unfoldable pub op_log2 : ℕ → Machine A → Handled A
    unfolding log_topics
    op_log2 instr m =
        after_status Opcode.op_log2 instr
          (log_topics unset.garbage realloc m.stack.top_item m.stack.space m 2)

    unfoldable pub op_log3 : ℕ → Machine A → Handled A
    unfolding log_topics
    op_log3 instr m =
        after_status Opcode.op_log3 instr
          (log_topics unset.garbage realloc m.stack.top_item m.stack.space m 3)

    unfoldable pub op_log4 : ℕ → Machine A → Handled A
    unfolding log_topics
    op_log4 instr m =
        after_status Opcode.op_log4 instr
          (log_topics unset.garbage realloc m.stack.top_item m.stack.space m 4)

    unfoldable pub op_return : ℕ → Machine A → Handled A
    unfolding return_
    op_return instr m = after_exit (return_ realloc m.stack.top_item m.stack.space m)

    unfoldable pub op_revert : ℕ → Machine A → Handled A
    unfolding revert
    op_revert instr m = after_exit (revert realloc m.stack.top_item m.stack.space m)

    unfoldable pub op_selfdestruct : ℕ → Machine A → Handled A
    unfolding selfdestruct_
    op_selfdestruct instr m =
        after_exit
          (selfdestruct_ cstr_cmp cvec_addr_find account_map m.stack.top_item m.stack.space m)

    unfoldable pub op_call : ℤ → ℕ → Machine A → Handled A
    unfolding call_
    op_call number instr = after_call Opcode.op_call instr number (λ s.
        call_ account_map realloc cstr_cmp cvec_addr_find unset.fresh s.stack.top_item s.stack.space
          s)

    unfoldable pub op_callcode : ℤ → ℕ → Machine A → Handled A
    unfolding callcode
    op_callcode number instr = after_call Opcode.op_callcode instr number (λ s.
        callcode account_map realloc cstr_cmp cvec_addr_find unset.fresh s.stack.top_item
          s.stack.space s)

    unfoldable pub op_delegatecall : ℤ → ℕ → Machine A → Handled A
    unfolding delegatecall
    op_delegatecall number instr = after_call Opcode.op_delegatecall instr number (λ s.
        delegatecall account_map realloc cstr_cmp cvec_addr_find unset.fresh s.stack.top_item
          s.stack.space s)

    unfoldable pub op_staticcall : ℤ → ℕ → Machine A → Handled A
    unfolding staticcall
    op_staticcall number instr = after_call Opcode.op_staticcall instr number (λ s.
        staticcall account_map realloc cstr_cmp cvec_addr_find unset.fresh s.stack.top_item
          s.stack.space s)

    unfoldable pub op_create : ℤ → ℕ → Machine A → Handled A
    unfolding create
    op_create number instr =
        after_call Opcode.op_create instr number (λ s.
          create account_map unset.before realloc unset.fresh s.stack.top_item s.stack.space s)

    unfoldable pub op_create2 : ℤ → ℕ → Machine A → Handled A
    unfolding create2
    op_create2 number instr =
        after_call Opcode.op_create2 instr number (λ s.
          create2 account_map unset.before realloc unset.fresh s.stack.top_item s.stack.space s)
