-- ===== src/Shuffle.antt =====
-- DUP1 to DUP16 and SWAP1 to SWAP16 and PUSH0 of include/instructions.h, with
-- their handlers of include/analysis.h. The sixteen functions of a kind are one text over the
-- number in their names, which is the first argument here.
mod Tests
pub mod Laws
use tsc_vee.Base.{ℕ, ◌+◌, ◌-◌, List}
use tsc_vee.Opcode
use tsc_vee.Uint256.{Uint256}
use tsc_vee.Stack.{Stack, item, set_item, stack_top_get, stack_top_push, zero_item}
use tsc_vee.Arithmetic.Handlers.{change_height}

unfoldable pub push0 : ℕ → List Uint256 → List Uint256
push0 stack space = stack_top_push stack space zero_item

unfoldable pub dup : ℕ → ℕ → List Uint256 → List Uint256
dup number stack space =
    let tmp = item space (stack_top_get stack (number - 1)) in stack_top_push stack space tmp

unfoldable pub swap : ℕ → ℕ → List Uint256 → List Uint256
swap number stack space =
    let tmp = item space stack in
    let space1 = set_item space stack (item space (stack_top_get stack number)) in
    set_item space1 (stack_top_get stack number) tmp

unfoldable pub op_push0 : Stack → Stack
unfolding push0
op_push0 s = change_height Opcode.op_push0 (push0 s.top_item s.space) s

unfoldable pub op_dup : ℕ → Stack → Stack
unfolding dup
op_dup number s = change_height (Opcode.op_dup1 + (number - 1)) (dup number s.top_item s.space) s

unfoldable pub op_swap : ℕ → Stack → Stack
unfolding swap
op_swap number s = change_height (Opcode.op_swap1 + (number - 1)) (swap number s.top_item s.space) s
