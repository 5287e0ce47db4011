-- ===== src/Machine/Create/Tests.antt =====
-- A creation on a stack of three zeros.
use tsc_vee.Base.{List, replicate, arith}
use tsc_vee.Base.Int.{pos}
use tsc_vee.Uint256.{Uint256}
use tsc_vee.Stack.{zero_item}
use tsc_vee.Machine.{Machine}
use tsc_vee.Machine.Fixtures.{Accounts, platform, blank}
use tsc_vee.Machine.Handlers.{op_create}
use tsc_vee.Machine.Create.Top.{ZeroTop, op_create-ZeroTop}

abbrev items : List Uint256
items = replicate 1024 zero_item

abbrev creating : Machine Accounts
creating = record blank {
  stack = record { space = items; top_item = 3 };
  gas_left = pos 50000;
  current_block_cost = 32000;
}

op_create-ZeroTop_example : ZeroTop (op_create platform (pos 32000) 4 creating)
op_create-ZeroTop_example =
    op_create-ZeroTop platform (pos 32000) 4 creating (omega arith) (omega arith)
