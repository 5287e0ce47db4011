-- ===== src/Dispatch.antt =====
-- The functions behind the opcodes: `InstructionFnTable_init` and `get_op_table` of
-- include/analysis.h. A function pointer is the name of the function.
pub mod Laws
mod Tests
use tsc_vee.Base.{
  ℕ, zero, suc, List, [], ◌∷◌, none, some, assign_all, get_or, replicate, Bool, true, false,
  if◌then◌else◌,
}
use tsc_vee.Base.Int.{ℤ, pos, negsuc}
use tsc_vee.Opcode
use tsc_vee.Traits.{traits}
use tsc_vee.Gas.{gas_costs}
use tsc_vee.Block.{OpTableEntry}

-- The handlers of include/analysis.h; `unset` is a table entry that nothing has assigned.
pub data InstructionFn : Type 0 where
  op_stop op_add op_mul op_sub op_div op_sdiv op_mod op_smod op_addmod op_mulmod op_exp :
      InstructionFn
  op_signextend op_lt op_gt op_slt op_sgt op_eq op_iszero op_and op_or op_xor op_not : InstructionFn
  op_byte op_shl op_shr op_sar op_keccak256 op_address op_balance op_origin op_caller :
      InstructionFn
  op_callvalue op_calldataload op_calldatasize op_calldatacopy op_codesize op_codecopy :
      InstructionFn
  op_gasprice op_extcodesize op_extcodecopy op_returndatasize op_returndatacopy : InstructionFn
  op_extcodehash op_blockhash op_coinbase op_timestamp op_number op_difficulty : InstructionFn
  op_gaslimit op_chainid op_selfbalance op_basefee op_pop op_mload op_mstore op_mstore8 :
      InstructionFn
  op_sload op_sstore op_jump op_jumpi op_pc op_msize op_gas op_jumpdest op_push0 : InstructionFn
  op_push_small op_push_full op_dup1 op_dup2 op_dup3 op_dup4 op_dup5 op_dup6 op_dup7 : InstructionFn
  op_dup8 op_dup9 op_dup10 op_dup11 op_dup12 op_dup13 op_dup14 op_dup15 op_dup16 : InstructionFn
  op_swap1 op_swap2 op_swap3 op_swap4 op_swap5 op_swap6 op_swap7 op_swap8 op_swap9 : InstructionFn
  op_swap10 op_swap11 op_swap12 op_swap13 op_swap14 op_swap15 op_swap16 op_log0 op_log1 :
      InstructionFn
  op_log2 op_log3 op_log4 op_create op_call op_callcode op_return op_delegatecall : InstructionFn
  op_create2 op_staticcall op_revert op_invalid op_selfdestruct opx_beginblock : InstructionFn
  op_undefined unset : InstructionFn

-- The assignments of `InstructionFnTable_init`, in their order.
abbrev pub instruction_fn_table_init : List (ℕ × InstructionFn)
instruction_fn_table_init =
    (Opcode.op_stop, op_stop)
    ∷ (Opcode.op_add, op_add)
    ∷ (Opcode.op_mul, op_mul)
    ∷ (Opcode.op_sub, op_sub)
    ∷ (Opcode.op_div, op_div)
    ∷ (Opcode.op_sdiv, op_sdiv)
    ∷ (Opcode.op_mod, op_mod)
    ∷ (Opcode.op_smod, op_smod)
    ∷ (Opcode.op_addmod, op_addmod)
    ∷ (Opcode.op_mulmod, op_mulmod)
    ∷ (Opcode.op_exp, op_exp)
    ∷ (Opcode.op_signextend, op_signextend)
    ∷ (Opcode.op_lt, op_lt)
    ∷ (Opcode.op_gt, op_gt)
    ∷ (Opcode.op_slt, op_slt)
    ∷ (Opcode.op_sgt, op_sgt)
    ∷ (Opcode.op_eq, op_eq)
    ∷ (Opcode.op_iszero, op_iszero)
    ∷ (Opcode.op_and, op_and)
    ∷ (Opcode.op_or, op_or)
    ∷ (Opcode.op_xor, op_xor)
    ∷ (Opcode.op_not, op_not)
    ∷ (Opcode.op_byte, op_byte)
    ∷ (Opcode.op_shl, op_shl)
    ∷ (Opcode.op_shr, op_shr)
    ∷ (Opcode.op_sar, op_sar)
    ∷ (Opcode.op_keccak256, op_keccak256)
    ∷ (Opcode.op_address, op_address)
    ∷ (Opcode.op_balance, op_balance)
    ∷ (Opcode.op_origin, op_origin)
    ∷ (Opcode.op_caller, op_caller)
    ∷ (Opcode.op_callvalue, op_callvalue)
    ∷ (Opcode.op_calldataload, op_calldataload)
    ∷ (Opcode.op_calldatasize, op_calldatasize)
    ∷ (Opcode.op_calldatacopy, op_calldatacopy)
    ∷ (Opcode.op_codesize, op_codesize)
    ∷ (Opcode.op_codecopy, op_codecopy)
    ∷ (Opcode.op_gasprice, op_gasprice)
    ∷ (Opcode.op_extcodesize, op_extcodesize)
    ∷ (Opcode.op_extcodecopy, op_extcodecopy)
    ∷ (Opcode.op_returndatasize, op_returndatasize)
    ∷ (Opcode.op_returndatacopy, op_returndatacopy)
    ∷ (Opcode.op_extcodehash, op_extcodehash)
    ∷ (Opcode.op_blockhash, op_blockhash)
    ∷ (Opcode.op_coinbase, op_coinbase)
    ∷ (Opcode.op_timestamp, op_timestamp)
    ∷ (Opcode.op_number, op_number)
    ∷ (Opcode.op_difficulty, op_difficulty)
    ∷ (Opcode.op_gaslimit, op_gaslimit)
    ∷ (Opcode.op_chainid, op_chainid)
    ∷ (Opcode.op_selfbalance, op_selfbalance)
    ∷ (Opcode.op_basefee, op_basefee)
    ∷ (Opcode.op_pop, op_pop)
    ∷ (Opcode.op_mload, op_mload)
    ∷ (Opcode.op_mstore, op_mstore)
    ∷ (Opcode.op_mstore8, op_mstore8)
    ∷ (Opcode.op_sload, op_sload)
    ∷ (Opcode.op_sstore, op_sstore)
    ∷ (Opcode.op_jump, op_jump)
    ∷ (Opcode.op_jumpi, op_jumpi)
    ∷ (Opcode.op_pc, op_pc)
    ∷ (Opcode.op_msize, op_msize)
    ∷ (Opcode.op_gas, op_gas)
    ∷ (Opcode.op_jumpdest, op_jumpdest)
    ∷ (Opcode.op_push0, op_push0)
    ∷ (Opcode.op_push1, op_push_small)
    ∷ (Opcode.op_push2, op_push_small)
    ∷ (Opcode.op_push3, op_push_small)
    ∷ (Opcode.op_push4, op_push_small)
    ∷ (Opcode.op_push5, op_push_small)
    ∷ (Opcode.op_push6, op_push_small)
    ∷ (Opcode.op_push7, op_push_small)
    ∷ (Opcode.op_push8, op_push_small)
    ∷ (Opcode.op_push9, op_push_full)
    ∷ (Opcode.op_push10, op_push_full)
    ∷ (Opcode.op_push11, op_push_full)
    ∷ (Opcode.op_push12, op_push_full)
    ∷ (Opcode.op_push13, op_push_full)
    ∷ (Opcode.op_push14, op_push_full)
    ∷ (Opcode.op_push15, op_push_full)
    ∷ (Opcode.op_push16, op_push_full)
    ∷ (Opcode.op_push17, op_push_full)
    ∷ (Opcode.op_push18, op_push_full)
    ∷ (Opcode.op_push19, op_push_full)
    ∷ (Opcode.op_push20, op_push_full)
    ∷ (Opcode.op_push21, op_push_full)
    ∷ (Opcode.op_push22, op_push_full)
    ∷ (Opcode.op_push23, op_push_full)
    ∷ (Opcode.op_push24, op_push_full)
    ∷ (Opcode.op_push25, op_push_full)
    ∷ (Opcode.op_push26, op_push_full)
    ∷ (Opcode.op_push27, op_push_full)
    ∷ (Opcode.op_push28, op_push_full)
    ∷ (Opcode.op_push29, op_push_full)
    ∷ (Opcode.op_push30, op_push_full)
    ∷ (Opcode.op_push31, op_push_full)
    ∷ (Opcode.op_push32, op_push_full)
    ∷ (Opcode.op_dup1, op_dup1)
    ∷ (Opcode.op_dup2, op_dup2)
    ∷ (Opcode.op_dup3, op_dup3)
    ∷ (Opcode.op_dup4, op_dup4)
    ∷ (Opcode.op_dup5, op_dup5)
    ∷ (Opcode.op_dup6, op_dup6)
    ∷ (Opcode.op_dup7, op_dup7)
    ∷ (Opcode.op_dup8, op_dup8)
    ∷ (Opcode.op_dup9, op_dup9)
    ∷ (Opcode.op_dup10, op_dup10)
    ∷ (Opcode.op_dup11, op_dup11)
    ∷ (Opcode.op_dup12, op_dup12)
    ∷ (Opcode.op_dup13, op_dup13)
    ∷ (Opcode.op_dup14, op_dup14)
    ∷ (Opcode.op_dup15, op_dup15)
    ∷ (Opcode.op_dup16, op_dup16)
    ∷ (Opcode.op_swap1, op_swap1)
    ∷ (Opcode.op_swap2, op_swap2)
    ∷ (Opcode.op_swap3, op_swap3)
    ∷ (Opcode.op_swap4, op_swap4)
    ∷ (Opcode.op_swap5, op_swap5)
    ∷ (Opcode.op_swap6, op_swap6)
    ∷ (Opcode.op_swap7, op_swap7)
    ∷ (Opcode.op_swap8, op_swap8)
    ∷ (Opcode.op_swap9, op_swap9)
    ∷ (Opcode.op_swap10, op_swap10)
    ∷ (Opcode.op_swap11, op_swap11)
    ∷ (Opcode.op_swap12, op_swap12)
    ∷ (Opcode.op_swap13, op_swap13)
    ∷ (Opcode.op_swap14, op_swap14)
    ∷ (Opcode.op_swap15, op_swap15)
    ∷ (Opcode.op_swap16, op_swap16)
    ∷ (Opcode.op_log0, op_log0)
    ∷ (Opcode.op_log1, op_log1)
    ∷ (Opcode.op_log2, op_log2)
    ∷ (Opcode.op_log3, op_log3)
    ∷ (Opcode.op_log4, op_log4)
    ∷ (Opcode.op_create, op_create)
    ∷ (Opcode.op_call, op_call)
    ∷ (Opcode.op_callcode, op_callcode)
    ∷ (Opcode.op_return, op_return)
    ∷ (Opcode.op_delegatecall, op_delegatecall)
    ∷ (Opcode.op_create2, op_create2)
    ∷ (Opcode.op_staticcall, op_staticcall)
    ∷ (Opcode.op_revert, op_revert)
    ∷ (Opcode.op_invalid, op_invalid)
    ∷ (Opcode.op_selfdestruct, op_selfdestruct)
    ∷ (Opcode.op_jumpdest, opx_beginblock)
    ∷ []

unfoldable pub instruction_fn_table : List InstructionFn
instruction_fn_table = assign_all instruction_fn_table_init (replicate 256 unset)

pub record OpTableSlot : Type 0 where
  pub fn : InstructionFn
  pub entry : OpTableEntry

-- `gas_cost == -1`
abbrev pub is_undefined : ℤ → Bool
is_undefined (pos n) = false
is_undefined (negsuc zero) = true
is_undefined (negsuc (suc n)) = false

-- The stack effect by the table of traits, which holds zeros where nothing is assigned.
abbrev pub traits_entry : ℤ → ℕ → OpTableEntry
traits_entry gas_cost i = elim (traits i) [
  | none ↦ record { gas_cost = gas_cost; stack_req = pos 0; stack_change = pos 0 }
  | some t ↦ record {
    gas_cost = gas_cost;
    stack_req = pos t.stack_height_required;
    stack_change = t.stack_height_change;
  }
]

-- Entry `i` of the table. `opt` is what the local variable holds before: the two stack fields of an
-- undefined instruction stay as they were.
unfoldable pub get_op_table : (ℕ → OpTableEntry) → ℕ → ℕ → OpTableSlot
unfolding instruction_fn_table
get_op_table opt rev i =
    let gas_cost = gas_costs rev i in
    if is_undefined gas_cost
    then record {
      fn = op_undefined;
      entry = record {
        gas_cost = pos 0;
        stack_req = (opt i).stack_req;
        stack_change = (opt i).stack_change;
      };
    }
    else record { fn = get_or instruction_fn_table i unset; entry = traits_entry gas_cost i }
