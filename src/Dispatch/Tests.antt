-- ===== src/Dispatch/Tests.antt =====
-- The function of ADD.
use tsc_vee.Base.{ℕ, ◌≡◌, false, arith}
use tsc_vee.Base.Int.{pos}
use tsc_vee.Opcode
use tsc_vee.Block.{OpTableEntry}
use tsc_vee.Dispatch.{get_op_table}
use tsc_vee.Dispatch.Laws.{is_unset, is_begin, is_op_undefined, get_op_table-fn}

abbrev no_entries : ℕ → OpTableEntry
no_entries i = record { gas_cost = pos 0; stack_req = pos 0; stack_change = pos 0 }

get_op_table-fn_example :
    (is_unset (get_op_table no_entries 9 Opcode.op_add).fn ≡ false)
    × (is_begin (get_op_table no_entries 9 Opcode.op_add).fn ≡ false)
    × (is_op_undefined (get_op_table no_entries 9 Opcode.op_add).fn ≡ false)
unfolding tsc_vee.Gas.gas_costs
get_op_table-fn_example = get_op_table-fn no_entries 9 Opcode.op_add (omega arith) (omega arith)
