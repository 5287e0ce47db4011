-- ===== src/Traits.antt =====
-- The table of instruction traits: `struct Traits`, `makeTrait` and `TraitsTable_init` of
-- include/instructions_traits.h. The name of an instruction is only printed, and is left out.
pub mod Laws
use tsc_vee.Base.{ℕ, List, [], ◌∷◌, Option, none, some, assign_all, get_or, replicate}
use tsc_vee.Base.Int.{ℤ, pos, negsuc}
use tsc_vee.Opcode.{
  op_stop, op_add, op_mul, op_sub, op_div, op_sdiv, op_mod, op_smod, op_addmod, op_mulmod, op_exp,
  op_signextend, op_lt, op_gt, op_slt, op_sgt, op_eq, op_iszero, op_and, op_or, op_xor, op_not,
  op_byte, op_shl, op_shr, op_sar, op_keccak256, op_address, op_balance, op_origin, op_caller,
  op_callvalue, op_calldataload, op_calldatasize, op_calldatacopy, op_codesize, op_codecopy,
  op_gasprice, op_extcodesize, op_extcodecopy, op_returndatasize, op_returndatacopy, op_extcodehash,
  op_blockhash, op_coinbase, op_timestamp, op_number, op_difficulty, op_gaslimit, op_chainid,
  op_selfbalance, op_basefee, op_pop, op_mload, op_mstore, op_mstore8, op_sload, op_sstore, op_jump,
  op_jumpi, op_pc, op_msize, op_gas, op_jumpdest, op_push0, op_push1, op_push2, op_push3, op_push4,
  op_push5, op_push6, op_push7, op_push8, op_push9, op_push10, op_push11, op_push12, op_push13,
  op_push14, op_push15, op_push16, op_push17, op_push18, op_push19, op_push20, op_push21, op_push22,
  op_push23, op_push24, op_push25, op_push26, op_push27, op_push28, op_push29, op_push30, op_push31,
  op_push32, op_dup1, op_dup2, op_dup3, op_dup4, op_dup5, op_dup6, op_dup7, op_dup8, op_dup9,
  op_dup10, op_dup11, op_dup12, op_dup13, op_dup14, op_dup15, op_dup16, op_swap1, op_swap2,
  op_swap3, op_swap4, op_swap5, op_swap6, op_swap7, op_swap8, op_swap9, op_swap10, op_swap11,
  op_swap12, op_swap13, op_swap14, op_swap15, op_swap16, op_log0, op_log1, op_log2, op_log3,
  op_log4, op_create, op_call, op_callcode, op_return, op_delegatecall, op_create2, op_staticcall,
  op_revert, op_invalid, op_selfdestruct,
}
use tsc_vee.Revision.{
  evmc_frontier, evmc_homestead, evmc_byzantium, evmc_constantinople, evmc_istanbul, evmc_london,
  evmc_shanghai,
}

pub record Traits : Type 0 where
  pub stack_height_required : ℕ
  pub stack_height_change : ℤ
  pub since : ℕ

abbrev pub make_trait : ℕ → ℤ → ℕ → Traits
make_trait sr sc rev = record { stack_height_required = sr; stack_height_change = sc; since = rev }

-- The assignments of `TraitsTable_init`, in their order.
abbrev pub traits_table_init : List (ℕ × Option Traits)
traits_table_init =
    (op_stop, some (make_trait 0 (pos 0) evmc_frontier))
    ∷ (op_add, some (make_trait 2 (negsuc 0) evmc_frontier))
    ∷ (op_mul, some (make_trait 2 (negsuc 0) evmc_frontier))
    ∷ (op_sub, some (make_trait 2 (negsuc 0) evmc_frontier))
    ∷ (op_div, some (make_trait 2 (negsuc 0) evmc_frontier))
    ∷ (op_sdiv, some (make_trait 2 (negsuc 0) evmc_frontier))
    ∷ (op_mod, some (make_trait 2 (negsuc 0) evmc_frontier))
    ∷ (op_smod, some (make_trait 2 (negsuc 0) evmc_frontier))
    ∷ (op_addmod, some (make_trait 3 (negsuc 1) evmc_frontier))
    ∷ (op_mulmod, some (make_trait 3 (negsuc 1) evmc_frontier))
    ∷ (op_exp, some (make_trait 2 (negsuc 0) evmc_frontier))
    ∷ (op_signextend, some (make_trait 2 (negsuc 0) evmc_frontier))
    ∷ (op_lt, some (make_trait 2 (negsuc 0) evmc_frontier))
    ∷ (op_gt, some (make_trait 2 (negsuc 0) evmc_frontier))
    ∷ (op_slt, some (make_trait 2 (negsuc 0) evmc_frontier))
    ∷ (op_sgt, some (make_trait 2 (negsuc 0) evmc_frontier))
    ∷ (op_eq, some (make_trait 2 (negsuc 0) evmc_frontier))
    ∷ (op_iszero, some (make_trait 1 (pos 0) evmc_frontier))
    ∷ (op_and, some (make_trait 2 (negsuc 0) evmc_frontier))
    ∷ (op_or, some (make_trait 2 (negsuc 0) evmc_frontier))
    ∷ (op_xor, some (make_trait 2 (negsuc 0) evmc_frontier))
    ∷ (op_not, some (make_trait 1 (pos 0) evmc_frontier))
    ∷ (op_byte, some (make_trait 2 (negsuc 0) evmc_frontier))
    ∷ (op_shl, some (make_trait 2 (negsuc 0) evmc_constantinople))
    ∷ (op_shr, some (make_trait 2 (negsuc 0) evmc_constantinople))
    ∷ (op_sar, some (make_trait 2 (negsuc 0) evmc_constantinople))
    ∷ (op_keccak256, some (make_trait 2 (negsuc 0) evmc_frontier))
    ∷ (op_address, some (make_trait 0 (pos 1) evmc_frontier))
    ∷ (op_balance, some (make_trait 1 (pos 0) evmc_frontier))
    ∷ (op_origin, some (make_trait 0 (pos 1) evmc_frontier))
    ∷ (op_caller, some (make_trait 0 (pos 1) evmc_frontier))
    ∷ (op_callvalue, some (make_trait 0 (pos 1) evmc_frontier))
    ∷ (op_calldataload, some (make_trait 1 (pos 0) evmc_frontier))
    ∷ (op_calldatasize, some (make_trait 0 (pos 1) evmc_frontier))
    ∷ (op_calldatacopy, some (make_trait 3 (negsuc 2) evmc_frontier))
    ∷ (op_codesize, some (make_trait 0 (pos 1) evmc_frontier))
    ∷ (op_codecopy, some (make_trait 3 (negsuc 2) evmc_frontier))
    ∷ (op_gasprice, some (make_trait 0 (pos 1) evmc_frontier))
    ∷ (op_extcodesize, some (make_trait 1 (pos 0) evmc_frontier))
    ∷ (op_extcodecopy, some (make_trait 4 (negsuc 3) evmc_frontier))
    ∷ (op_returndatasize, some (make_trait 0 (pos 1) evmc_byzantium))
    ∷ (op_returndatacopy, some (make_trait 3 (negsuc 2) evmc_byzantium))
    ∷ (op_extcodehash, some (make_trait 1 (pos 0) evmc_constantinople))
    ∷ (op_blockhash, some (make_trait 1 (pos 0) evmc_frontier))
    ∷ (op_coinbase, some (make_trait 0 (pos 1) evmc_frontier))
    ∷ (op_timestamp, some (make_trait 0 (pos 1) evmc_frontier))
    ∷ (op_number, some (make_trait 0 (pos 1) evmc_frontier))
    ∷ (op_difficulty, some (make_trait 0 (pos 1) evmc_frontier))
    ∷ (op_gaslimit, some (make_trait 0 (pos 1) evmc_frontier))
    ∷ (op_chainid, some (make_trait 0 (pos 1) evmc_istanbul))
    ∷ (op_selfbalance, some (make_trait 0 (pos 1) evmc_istanbul))
    ∷ (op_basefee, some (make_trait 0 (pos 1) evmc_london))
    ∷ (op_pop, some (make_trait 1 (negsuc 0) evmc_frontier))
    ∷ (op_mload, some (make_trait 1 (pos 0) evmc_frontier))
    ∷ (op_mstore, some (make_trait 2 (negsuc 1) evmc_frontier))
    ∷ (op_mstore8, some (make_trait 2 (negsuc 1) evmc_frontier))
    ∷ (op_sload, some (make_trait 1 (pos 0) evmc_frontier))
    ∷ (op_sstore, some (make_trait 2 (negsuc 1) evmc_frontier))
    ∷ (op_jump, some (make_trait 1 (negsuc 0) evmc_frontier))
    ∷ (op_jumpi, some (make_trait 2 (negsuc 1) evmc_frontier))
    ∷ (op_pc, some (make_trait 0 (pos 1) evmc_frontier))
    ∷ (op_msize, some (make_trait 0 (pos 1) evmc_frontier))
    ∷ (op_gas, some (make_trait 0 (pos 1) evmc_frontier))
    ∷ (op_jumpdest, some (make_trait 0 (pos 0) evmc_frontier))
    ∷ (op_push0, some (make_trait 0 (pos 1) evmc_shanghai))
    ∷ (op_push1, some (make_trait 0 (pos 1) evmc_frontier))
    ∷ (op_push2, some (make_trait 0 (pos 1) evmc_frontier))
    ∷ (op_push3, some (make_trait 0 (pos 1) evmc_frontier))
    ∷ (op_push4, some (make_trait 0 (pos 1) evmc_frontier))
    ∷ (op_push5, some (make_trait 0 (pos 1) evmc_frontier))
    ∷ (op_push6, some (make_trait 0 (pos 1) evmc_frontier))
    ∷ (op_push7, some (make_trait 0 (pos 1) evmc_frontier))
    ∷ (op_push8, some (make_trait 0 (pos 1) evmc_frontier))
    ∷ (op_push9, some (make_trait 0 (pos 1) evmc_frontier))
    ∷ (op_push10, some (make_trait 0 (pos 1) evmc_frontier))
    ∷ (op_push11, some (make_trait 0 (pos 1) evmc_frontier))
    ∷ (op_push12, some (make_trait 0 (pos 1) evmc_frontier))
    ∷ (op_push13, some (make_trait 0 (pos 1) evmc_frontier))
    ∷ (op_push14, some (make_trait 0 (pos 1) evmc_frontier))
    ∷ (op_push15, some (make_trait 0 (pos 1) evmc_frontier))
    ∷ (op_push16, some (make_trait 0 (pos 1) evmc_frontier))
    ∷ (op_push17, some (make_trait 0 (pos 1) evmc_frontier))
    ∷ (op_push18, some (make_trait 0 (pos 1) evmc_frontier))
    ∷ (op_push19, some (make_trait 0 (pos 1) evmc_frontier))
    ∷ (op_push20, some (make_trait 0 (pos 1) evmc_frontier))
    ∷ (op_push21, some (make_trait 0 (pos 1) evmc_frontier))
    ∷ (op_push22, some (make_trait 0 (pos 1) evmc_frontier))
    ∷ (op_push23, some (make_trait 0 (pos 1) evmc_frontier))
    ∷ (op_push24, some (make_trait 0 (pos 1) evmc_frontier))
    ∷ (op_push25, some (make_trait 0 (pos 1) evmc_frontier))
    ∷ (op_push26, some (make_trait 0 (pos 1) evmc_frontier))
    ∷ (op_push27, some (make_trait 0 (pos 1) evmc_frontier))
    ∷ (op_push28, some (make_trait 0 (pos 1) evmc_frontier))
    ∷ (op_push29, some (make_trait 0 (pos 1) evmc_frontier))
    ∷ (op_push30, some (make_trait 0 (pos 1) evmc_frontier))
    ∷ (op_push31, some (make_trait 0 (pos 1) evmc_frontier))
    ∷ (op_push32, some (make_trait 0 (pos 1) evmc_frontier))
    ∷ (op_dup1, some (make_trait 1 (pos 1) evmc_frontier))
    ∷ (op_dup2, some (make_trait 2 (pos 1) evmc_frontier))
    ∷ (op_dup3, some (make_trait 3 (pos 1) evmc_frontier))
    ∷ (op_dup4, some (make_trait 4 (pos 1) evmc_frontier))
    ∷ (op_dup5, some (make_trait 5 (pos 1) evmc_frontier))
    ∷ (op_dup6, some (make_trait 6 (pos 1) evmc_frontier))
    ∷ (op_dup7, some (make_trait 7 (pos 1) evmc_frontier))
    ∷ (op_dup8, some (make_trait 8 (pos 1) evmc_frontier))
    ∷ (op_dup9, some (make_trait 9 (pos 1) evmc_frontier))
    ∷ (op_dup10, some (make_trait 10 (pos 1) evmc_frontier))
    ∷ (op_dup11, some (make_trait 11 (pos 1) evmc_frontier))
    ∷ (op_dup12, some (make_trait 12 (pos 1) evmc_frontier))
    ∷ (op_dup13, some (make_trait 13 (pos 1) evmc_frontier))
    ∷ (op_dup14, some (make_trait 14 (pos 1) evmc_frontier))
    ∷ (op_dup15, some (make_trait 15 (pos 1) evmc_frontier))
    ∷ (op_dup16, some (make_trait 16 (pos 1) evmc_frontier))
    ∷ (op_swap1, some (make_trait 2 (pos 0) evmc_frontier))
    ∷ (op_swap2, some (make_trait 3 (pos 0) evmc_frontier))
    ∷ (op_swap3, some (make_trait 4 (pos 0) evmc_frontier))
    ∷ (op_swap4, some (make_trait 5 (pos 0) evmc_frontier))
    ∷ (op_swap5, some (make_trait 6 (pos 0) evmc_frontier))
    ∷ (op_swap6, some (make_trait 7 (pos 0) evmc_frontier))
    ∷ (op_swap7, some (make_trait 8 (pos 0) evmc_frontier))
    ∷ (op_swap8, some (make_trait 9 (pos 0) evmc_frontier))
    ∷ (op_swap9, some (make_trait 10 (pos 0) evmc_frontier))
    ∷ (op_swap10, some (make_trait 11 (pos 0) evmc_frontier))
    ∷ (op_swap11, some (make_trait 12 (pos 0) evmc_frontier))
    ∷ (op_swap12, some (make_trait 13 (pos 0) evmc_frontier))
    ∷ (op_swap13, some (make_trait 14 (pos 0) evmc_frontier))
    ∷ (op_swap14, some (make_trait 15 (pos 0) evmc_frontier))
    ∷ (op_swap15, some (make_trait 16 (pos 0) evmc_frontier))
    ∷ (op_swap16, some (make_trait 17 (pos 0) evmc_frontier))
    ∷ (op_log0, some (make_trait 2 (negsuc 1) evmc_frontier))
    ∷ (op_log1, some (make_trait 3 (negsuc 2) evmc_frontier))
    ∷ (op_log2, some (make_trait 4 (negsuc 3) evmc_frontier))
    ∷ (op_log3, some (make_trait 5 (negsuc 4) evmc_frontier))
    ∷ (op_log4, some (make_trait 6 (negsuc 5) evmc_frontier))
    ∷ (op_create, some (make_trait 3 (negsuc 1) evmc_frontier))
    ∷ (op_call, some (make_trait 7 (negsuc 5) evmc_frontier))
    ∷ (op_callcode, some (make_trait 7 (negsuc 5) evmc_frontier))
    ∷ (op_return, some (make_trait 2 (negsuc 1) evmc_frontier))
    ∷ (op_delegatecall, some (make_trait 6 (negsuc 4) evmc_homestead))
    ∷ (op_create2, some (make_trait 4 (negsuc 2) evmc_constantinople))
    ∷ (op_staticcall, some (make_trait 6 (negsuc 4) evmc_byzantium))
    ∷ (op_revert, some (make_trait 2 (negsuc 1) evmc_byzantium))
    ∷ (op_invalid, some (make_trait 0 (pos 0) evmc_frontier))
    ∷ (op_selfdestruct, some (make_trait 1 (negsuc 0) evmc_frontier))
    ∷ []

-- The table is static: what the function does not assign keeps the zeros of its start, which `none`
-- stands for.
unfoldable pub traits_table : List (Option Traits)
traits_table = assign_all traits_table_init (replicate 256 none)

unfoldable pub traits : ℕ → Option Traits
unfolding traits_table
traits i = get_or traits_table i none
