-- ===== src/Gas.antt =====
-- The table of gas costs: `GasCostTable_init` of include/instructions_traits.h, one row of 256 costs
-- for each revision. The rows are those of `gas_costs`, Frontier to Shanghai; the function also writes
-- a row for Cancun, which lies behind the end of the array.
pub mod Laws
mod Tests
use tsc_vee.Base.{ℕ, zero, suc, ◌+◌, ◌-◌, ◌*◌, List, [], ◌∷◌, assign_all, get_or, replicate}
use tsc_vee.Base.Int.{ℤ, pos, negsuc}
use tsc_vee.Opcode.{
  op_stop, op_add, op_mul, op_sub, op_div, op_sdiv, op_mod, op_smod, op_addmod, op_mulmod, op_exp,
  op_signextend, op_lt, op_gt, op_slt, op_sgt, op_eq, op_iszero, op_and, op_or, op_xor, op_not,
  op_byte, op_shl, op_shr, op_sar, op_keccak256, op_address, op_balance, op_origin, op_caller,
  op_callvalue, op_calldataload, op_calldatasize, op_calldatacopy, op_codesize, op_codecopy,
  op_gasprice, op_extcodesize, op_extcodecopy, op_returndatasize, op_returndatacopy, op_extcodehash,
  op_blockhash, op_coinbase, op_timestamp, op_number, op_difficulty, op_gaslimit, op_chainid,
  op_selfbalance, op_basefee, op_pop, op_mload, op_mstore, op_sload, op_sstore, op_jump, op_jumpi,
  op_pc, op_msize, op_gas, op_jumpdest, op_push0, op_create, op_call, op_callcode, op_return,
  op_delegatecall, op_create2, op_staticcall, op_revert, op_invalid, op_selfdestruct, op_push1,
  op_dup1, op_swap1, op_log0,
}

-- The cost that marks an undefined instruction.
abbrev pub undefined : ℤ
undefined = negsuc 0

abbrev pub warm_storage_read_cost : ℤ
warm_storage_read_cost = pos 100

-- `for (op = first; n rounds; ++op) gc[op] = cost(op)`
abbrev pub range : ℕ → ℕ → (ℕ → ℤ) → List (ℕ × ℤ)
range zero op cost = []
range (suc n) op cost = (op, cost op) ∷ range n (suc op) cost

-- The rows of one revision are those of the one before it with some entries written over.
abbrev frontier_before : List (ℕ × ℤ)
frontier_before =
    (op_stop, pos 0)
    ∷ (op_add, pos 3)
    ∷ (op_mul, pos 5)
    ∷ (op_sub, pos 3)
    ∷ (op_div, pos 5)
    ∷ (op_sdiv, pos 5)
    ∷ (op_mod, pos 5)
    ∷ (op_smod, pos 5)
    ∷ (op_addmod, pos 8)
    ∷ (op_mulmod, pos 8)
    ∷ (op_exp, pos 10)
    ∷ (op_signextend, pos 5)
    ∷ (op_lt, pos 3)
    ∷ (op_gt, pos 3)
    ∷ (op_slt, pos 3)
    ∷ (op_sgt, pos 3)
    ∷ (op_eq, pos 3)
    ∷ (op_iszero, pos 3)
    ∷ (op_and, pos 3)
    ∷ (op_or, pos 3)
    ∷ (op_xor, pos 3)
    ∷ (op_not, pos 3)
    ∷ (op_byte, pos 3)
    ∷ (op_keccak256, pos 30)
    ∷ (op_address, pos 2)
    ∷ (op_balance, pos 20)
    ∷ (op_origin, pos 2)
    ∷ (op_caller, pos 2)
    ∷ (op_callvalue, pos 2)
    ∷ (op_calldataload, pos 3)
    ∷ (op_calldatasize, pos 2)
    ∷ (op_calldatacopy, pos 3)
    ∷ (op_codesize, pos 2)
    ∷ (op_codecopy, pos 3)
    ∷ (op_gasprice, pos 2)
    ∷ (op_extcodesize, pos 20)
    ∷ (op_extcodecopy, pos 20)
    ∷ (op_blockhash, pos 20)
    ∷ (op_coinbase, pos 2)
    ∷ (op_timestamp, pos 2)
    ∷ (op_number, pos 2)
    ∷ (op_difficulty, pos 2)
    ∷ (op_gaslimit, pos 2)
    ∷ (op_pop, pos 2)
    ∷ (op_mload, pos 3)
    ∷ (op_mstore, pos 3)
    ∷ (op_sload, pos 50)
    ∷ (op_sstore, pos 0)
    ∷ (op_jump, pos 8)
    ∷ (op_jumpi, pos 10)
    ∷ (op_pc, pos 2)
    ∷ (op_msize, pos 2)
    ∷ (op_gas, pos 2)
    ∷ (op_jumpdest, pos 1)
    ∷ []

abbrev frontier_after : List (ℕ × ℤ)
frontier_after =
    (op_create, pos 32000)
    ∷ (op_call, pos 40)
    ∷ (op_callcode, pos 40)
    ∷ (op_return, pos 0)
    ∷ (op_invalid, pos 0)
    ∷ (op_selfdestruct, pos 0)
    ∷ []

unfoldable pub frontier : List ℤ
frontier =
    let row0 = assign_all frontier_before (replicate 256 undefined) in
    let row1 = assign_all (range 32 op_push1 (λ op. pos 3)) row0 in
    let row2 = assign_all (range 16 op_dup1 (λ op. pos 3)) row1 in
    let row3 = assign_all (range 16 op_swap1 (λ op. pos 3)) row2 in
    let row4 = assign_all (range 5 op_log0 (λ op. pos ((op - op_log0 + 1) * 375))) row3 in
    assign_all frontier_after row4

unfoldable pub homestead : List ℤ
unfolding frontier
homestead = assign_all ((op_delegatecall, pos 40) ∷ []) frontier

unfoldable pub tangerine_whistle : List ℤ
unfolding homestead
tangerine_whistle =
    assign_all
      ((op_balance, pos 400)
        ∷ (op_extcodesize, pos 700)
        ∷ (op_extcodecopy, pos 700)
        ∷ (op_sload, pos 200)
        ∷ (op_call, pos 700)
        ∷ (op_callcode, pos 700)
        ∷ (op_delegatecall, pos 700)
        ∷ (op_selfdestruct, pos 5000)
        ∷ [])
      homestead

unfoldable pub spurious_dragon : List ℤ
unfolding tangerine_whistle
spurious_dragon = tangerine_whistle

unfoldable pub byzantium : List ℤ
unfolding spurious_dragon
byzantium =
    assign_all
      ((op_returndatasize, pos 2)
        ∷ (op_returndatacopy, pos 3)
        ∷ (op_staticcall, pos 700)
        ∷ (op_revert, pos 0)
        ∷ [])
      spurious_dragon

unfoldable pub constantinople : List ℤ
unfolding byzantium
constantinople =
    assign_all
      ((op_shl, pos 3)
        ∷ (op_shr, pos 3)
        ∷ (op_sar, pos 3)
        ∷ (op_extcodehash, pos 400)
        ∷ (op_create2, pos 32000)
        ∷ [])
      byzantium

unfoldable pub petersburg : List ℤ
unfolding constantinople
petersburg = constantinople

unfoldable pub istanbul : List ℤ
unfolding petersburg
istanbul =
    assign_all
      ((op_balance, pos 700)
        ∷ (op_chainid, pos 2)
        ∷ (op_extcodehash, pos 700)
        ∷ (op_selfbalance, pos 5)
        ∷ (op_sload, pos 800)
        ∷ [])
      petersburg

unfoldable pub berlin : List ℤ
unfolding istanbul
berlin =
    assign_all
      ((op_extcodesize, warm_storage_read_cost)
        ∷ (op_extcodecopy, warm_storage_read_cost)
        ∷ (op_extcodehash, warm_storage_read_cost)
        ∷ (op_balance, warm_storage_read_cost)
        ∷ (op_call, warm_storage_read_cost)
        ∷ (op_callcode, warm_storage_read_cost)
        ∷ (op_delegatecall, warm_storage_read_cost)
        ∷ (op_staticcall, warm_storage_read_cost)
        ∷ (op_sload, warm_storage_read_cost)
        ∷ [])
      istanbul

unfoldable pub london : List ℤ
unfolding berlin
london = assign_all ((op_basefee, pos 2) ∷ []) berlin

unfoldable pub paris : List ℤ
unfolding london
paris = london

unfoldable pub shanghai : List ℤ
unfolding paris
shanghai = assign_all ((op_push0, pos 2) ∷ []) paris

unfoldable pub gas_cost_table : List (List ℤ)
unfolding frontier homestead tangerine_whistle spurious_dragon byzantium constantinople petersburg
    istanbul berlin london paris shanghai
gas_cost_table =
    frontier ∷ homestead ∷ tangerine_whistle ∷ spurious_dragon ∷ byzantium ∷ constantinople
    ∷ petersburg ∷ istanbul ∷ berlin ∷ london ∷ paris ∷ shanghai ∷ []

unfoldable pub gas_costs : ℕ → ℕ → ℤ
unfolding gas_cost_table
gas_costs rev i = get_or (get_or gas_cost_table rev []) i undefined
