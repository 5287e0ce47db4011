-- ===== src/Arithmetic/Handlers.antt =====
-- The handlers of the instructions in include/analysis.h: the instruction on the stack, then the
-- stack-height change of the table of traits. The next instruction is always the one behind.
use tsc_vee.Base.{ℕ, List, Option, some, ◌>>=◌}
use tsc_vee.Opcode
use tsc_vee.Uint256.{Uint256}
use tsc_vee.Stack.{Stack, move, height_change}
use tsc_vee.Arithmetic.{
  add, mul, sub, div_, sdiv, mod_, smod, addmod, mulmod, lt, gt, slt, sgt, eq, iszero, and_, or_,
  xor_, not_, byte_, shl, shr, sar, pop,
}

-- `astate->stack.top_item += traits[opcode].stack_height_change` after the space has changed.
abbrev pub change_height : ℕ → List Uint256 → Stack → Stack
change_height opcode space s = record {
  space = space;
  top_item = move s.top_item (height_change opcode);
}

unfoldable pub op_add : Stack → Stack
unfolding add
op_add s = change_height Opcode.op_add (add s.top_item s.space) s

unfoldable pub op_mul : Stack → Stack
unfolding mul
op_mul s = change_height Opcode.op_mul (mul s.top_item s.space) s

unfoldable pub op_sub : Stack → Stack
unfolding sub
op_sub s = change_height Opcode.op_sub (sub s.top_item s.space) s

unfoldable pub op_div : Stack → Option Stack
unfolding div_
op_div s = do space ← div_ s.top_item s.space; some (change_height Opcode.op_div space s)

unfoldable pub op_sdiv : Stack → Option Stack
unfolding sdiv
op_sdiv s = do space ← sdiv s.top_item s.space; some (change_height Opcode.op_sdiv space s)

unfoldable pub op_mod : Stack → Option Stack
unfolding mod_
op_mod s = do space ← mod_ s.top_item s.space; some (change_height Opcode.op_mod space s)

unfoldable pub op_smod : Stack → Option Stack
unfolding smod
op_smod s = do space ← smod s.top_item s.space; some (change_height Opcode.op_smod space s)

unfoldable pub op_addmod : Stack → Option Stack
unfolding addmod
op_addmod s = do space ← addmod s.top_item s.space; some (change_height Opcode.op_addmod space s)

unfoldable pub op_mulmod : Stack → Option Stack
unfolding mulmod
op_mulmod s = do space ← mulmod s.top_item s.space; some (change_height Opcode.op_mulmod space s)

unfoldable pub op_lt : Stack → Stack
unfolding lt
op_lt s = change_height Opcode.op_lt (lt s.top_item s.space) s

unfoldable pub op_gt : Stack → Stack
unfolding gt
op_gt s = change_height Opcode.op_gt (gt s.top_item s.space) s

unfoldable pub op_slt : Stack → Stack
unfolding slt
op_slt s = change_height Opcode.op_slt (slt s.top_item s.space) s

unfoldable pub op_sgt : Stack → Stack
unfolding sgt
op_sgt s = change_height Opcode.op_sgt (sgt s.top_item s.space) s

unfoldable pub op_eq : Stack → Stack
unfolding eq
op_eq s = change_height Opcode.op_eq (eq s.top_item s.space) s

unfoldable pub op_iszero : Stack → Stack
unfolding iszero
op_iszero s = change_height Opcode.op_iszero (iszero s.top_item s.space) s

unfoldable pub op_and : Stack → Stack
unfolding and_
op_and s = change_height Opcode.op_and (and_ s.top_item s.space) s

unfoldable pub op_or : Stack → Stack
unfolding or_
op_or s = change_height Opcode.op_or (or_ s.top_item s.space) s

unfoldable pub op_xor : Stack → Stack
unfolding xor_
op_xor s = change_height Opcode.op_xor (xor_ s.top_item s.space) s

unfoldable pub op_not : Stack → Stack
unfolding not_
op_not s = change_height Opcode.op_not (not_ s.top_item s.space) s

unfoldable pub op_byte : Stack → Stack
unfolding byte_
op_byte s = change_height Opcode.op_byte (byte_ s.top_item s.space) s

unfoldable pub op_shl : Stack → Stack
unfolding shl
op_shl s = change_height Opcode.op_shl (shl s.top_item s.space) s

unfoldable pub op_shr : Stack → Stack
unfolding shr
op_shr s = change_height Opcode.op_shr (shr s.top_item s.space) s

unfoldable pub op_sar : Stack → Stack
unfolding sar
op_sar s = change_height Opcode.op_sar (sar s.top_item s.space) s

unfoldable pub op_pop : Stack → Stack
unfolding pop
op_pop s = change_height Opcode.op_pop (pop s.top_item s.space) s
