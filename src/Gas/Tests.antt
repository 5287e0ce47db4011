-- ===== src/Gas/Tests.antt =====
-- The theorems of the tables at concrete instructions.
use tsc_vee.Base.{◌≡◌, not, ◌&&◌, ◌==◌, arith}
use tsc_vee.Opcode.{op_mstore8, op_create2}
use tsc_vee.Traits.{traits}
use tsc_vee.Traits.Laws.{HasEffect, stack_items, traits-HasEffect}
use tsc_vee.Gas.Laws.{gas_costs-defined, has_cost, available}

traits-HasEffect_example : HasEffect (stack_items op_create2) (traits op_create2)
traits-HasEffect_example = traits-HasEffect op_create2 (omega arith)

gas_costs-defined_example :
    has_cost 4 op_create2 ≡ (available (traits op_create2) 4 && not (op_create2 == op_mstore8))
gas_costs-defined_example = gas_costs-defined 4 op_create2 (omega arith) (omega arith)
