-- ===== src/Analysis.antt =====
-- The analysis of a program: `analyze` of include/analysis_impl.h and `find_jumpdest` of
-- include/analysis.h. The vectors of the code analysis are lists: a push adds an element at the end.
-- The position in the code is the distance from its first byte.
pub mod Code
pub mod Jumpdests
pub mod Targets
pub mod Numbers
pub mod Push
mod Tests
use tsc_vee.Base.{
  ℕ, zero, suc, ◌+◌, ◌-◌, ◌*◌, ◌%◌, ◌^◌, min, Bool, true, false, not, ◌&&◌, ◌||◌, if◌then◌else◌,
  ltb, leb, ◌==◌, u64, List, [], ◌∷◌, ◌++◌, length, set, replicate, Option, none, some, while,
  ◌>>=◌,
}
use tsc_vee.Base.Int.{ℤ, pos, negsuc}
use tsc_vee.Opcode
use tsc_vee.Uint128.{shl64}
use tsc_vee.Uint256.{Uint256}
use tsc_vee.Bytes.{byte_at, ◌⋁◌, readu256_be}
use tsc_vee.Block.{
  OpTableEntry, BlockAnalysis, BlockInfo, block_analysis_init, block_step, block_analysis_close,
}
use tsc_vee.Dispatch.{InstructionFn, OpTableSlot, get_op_table}

-- `union InstructionArgument`; `no_argument` is an argument that nothing has written.
pub data InstructionArgument : Type 0 where
  no_argument : InstructionArgument
  number : ℤ → InstructionArgument
  push_value : Uint256 → InstructionArgument
  small_push_value : ℕ → InstructionArgument
  block : BlockInfo → InstructionArgument

pub record Instruction : Type 0 where
  pub fn : InstructionFn
  pub arg : InstructionArgument

-- `Instrcution_init_v`
abbrev pub instruction_init : InstructionFn → Instruction
instruction_init f = record { fn = f; arg = no_argument }

-- The variables of the loop of `analyze`, those of the code analysis among them.
pub record Progress : Type 0 where
  pub instrs : List Instruction
  pub push_values : List Uint256
  pub jumpdest_offsets : List ℤ
  pub jumpdest_targets : List ℤ
  pub summary : BlockAnalysis
  pub begin_block_index : ℕ
  pub code_pos : ℕ

-- `(int32_t)n` of a `size_t`.
abbrev pub int32 : ℕ → ℤ
int32 n = let m = n % 2 ^ 32 in if ltb m (2 ^ 31) then pos m else negsuc (2 ^ 32 - 1 - m)

-- `instrs[i].arg = arg`
abbrev pub set_arg : List Instruction → ℕ → InstructionArgument → List Instruction
set_arg [] i arg = []
set_arg (ins ∷ instrs) zero arg = record { fn = ins.fn; arg = arg } ∷ instrs
set_arg (ins ∷ instrs) (suc i) arg = ins ∷ set_arg instrs i arg

-- The entry of an opcode, with the special case of opcode 247.
abbrev pub opcode_info : (ℕ → OpTableSlot) → ℕ → OpTableEntry
opcode_info table opcode =
    if opcode == 247
    then record { gas_cost = pos 0; stack_req = pos 0; stack_change = pos 0 }
    else (table opcode).entry

-- `case OP_JUMP: ... case OP_SELFDESTRUCT:`
abbrev pub is_terminator : ℕ → Bool
is_terminator opcode =
    opcode == Opcode.op_jump
    || opcode == Opcode.op_jumpi
    || opcode == Opcode.op_stop
    || opcode == Opcode.op_return
    || opcode == Opcode.op_revert
    || opcode == Opcode.op_selfdestruct

-- `case ANY_SMALL_PUSH:` and `case ANY_LARGE_PUSH:`
abbrev pub any_small_push : ℕ → Bool
any_small_push opcode = leb Opcode.op_push1 opcode && leb opcode Opcode.op_push8

abbrev pub any_large_push : ℕ → Bool
any_large_push opcode = leb Opcode.op_push9 opcode && leb opcode Opcode.op_push32

-- The instructions whose argument is the gas of the block so far.
abbrev pub takes_gas : ℕ → Bool
takes_gas opcode =
    opcode == Opcode.op_gas
    || opcode == Opcode.op_call
    || opcode == Opcode.op_callcode
    || opcode == Opcode.op_delegatecall
    || opcode == Opcode.op_staticcall
    || opcode == Opcode.op_create
    || opcode == Opcode.op_create2
    || opcode == Opcode.op_sstore

-- `while (code_pos < push_end)` of a small push, which has `rounds` bytes to go.
unfoldable pub small_push_loop : ℕ → List ℕ → ℕ → ℕ → ℕ → ℕ
small_push_loop zero code code_pos value insert_bit_pos = value
small_push_loop (suc rounds) code code_pos value insert_bit_pos =
    small_push_loop rounds code (suc code_pos)
      (value ⋁ shl64 (byte_at code code_pos) insert_bit_pos) (u64 (insert_bit_pos + (2 ^ 64 - 8)))

-- The loop of a large push, which has `rounds` bytes to go.
unfoldable pub large_push_loop : ℕ → List ℕ → ℕ → List ℕ → ℕ → List ℕ
large_push_loop zero code code_pos buffer index = buffer
large_push_loop (suc rounds) code code_pos buffer index =
    large_push_loop rounds code (suc code_pos) (set buffer index (byte_at code code_pos))
      (suc index)

abbrev pub with_argument : List Instruction → Option InstructionArgument → List Instruction
with_argument instrs none = instrs
with_argument instrs (some arg) = set_arg instrs (length instrs - 1) arg

abbrev pub with_push : List Uint256 → Option InstructionArgument → List Uint256
with_push push_values (some (push_value value)) = push_values ++ (value ∷ [])
with_push push_values other = push_values

module _ (table : ℕ → OpTableSlot) (code : List ℕ) where
  -- The position behind the instruction: the bytes of a push are skipped, up to the end of the code.
  unfoldable pub next_pos : ℕ → ℕ → ℕ
  next_pos opcode code_pos =
      if any_small_push opcode || any_large_push opcode
      then min (suc code_pos + (opcode - Opcode.op_push1 + 1)) (length code)
      else suc code_pos

  unfoldable pub small_push : ℕ → ℕ → ℕ
  unfolding next_pos small_push_loop
  small_push opcode code_pos =
      let push_size = opcode - Opcode.op_push1 + 1 in
      small_push_loop (next_pos opcode code_pos - suc code_pos) code (suc code_pos) 0
        ((push_size - 1) * 8)

  unfoldable pub large_push : ℕ → ℕ → Uint256
  unfolding next_pos large_push_loop
  large_push opcode code_pos =
      let push_size = opcode - Opcode.op_push1 + 1 in
      readu256_be (
        large_push_loop (next_pos opcode code_pos - suc code_pos) code (suc code_pos)
          (replicate 32 0) (32 - push_size))

  -- What the `switch` writes to the argument of the last instruction.
  unfoldable pub argument : ℕ → ℕ → ℤ → Option InstructionArgument
  unfolding small_push large_push
  argument opcode code_pos gas_cost =
      if any_small_push opcode
      then some (small_push_value (small_push opcode code_pos))
      else if any_large_push opcode
      then some (push_value (large_push opcode code_pos))
      else if takes_gas opcode
      then some (number gas_cost)
      else if opcode == Opcode.op_pc
      then some (number (pos code_pos))
      else none

  -- The block ends behind a terminator and before a jump destination.
  unfoldable pub ends_block : ℕ → ℕ → Bool
  ends_block opcode after =
      is_terminator opcode
      || (not (after == length code) && byte_at code after == Opcode.op_jumpdest)

  -- The instructions after the one at `code_pos`, its argument included.
  unfoldable pub emitted : Progress → ℕ → BlockAnalysis → List Instruction
  unfolding argument
  emitted s opcode summary =
      with_argument
        (if opcode == Opcode.op_jumpdest
          then s.instrs
          else s.instrs ++ (instruction_init (table opcode).fn ∷ []))
        (argument opcode s.code_pos summary.gas_cost)

  abbrev pub begin_instruction : Instruction
  begin_instruction = instruction_init (table Opcode.op_jumpdest).fn

  unfoldable pub analyze_body : Progress → Progress
  unfolding next_pos argument ends_block emitted
  analyze_body s =
      let opcode = byte_at code s.code_pos in
      let summary = block_step s.summary (opcode_info table opcode) in
      let after = next_pos opcode s.code_pos in
      let ends = ends_block opcode after in
      let instrs = emitted s opcode summary in
      let is_jumpdest = opcode == Opcode.op_jumpdest in
      record {
        instrs =
            if ends
            then set_arg instrs s.begin_block_index (block (block_analysis_close summary))
              ++ (begin_instruction ∷ [])
            else instrs;
        push_values = with_push s.push_values (argument opcode s.code_pos summary.gas_cost);
        jumpdest_offsets =
            if is_jumpdest
            then s.jumpdest_offsets ++ (int32 s.code_pos ∷ [])
            else s.jumpdest_offsets;
        jumpdest_targets =
            if is_jumpdest
            then s.jumpdest_targets ++ (int32 (length s.instrs - 1) ∷ [])
            else s.jumpdest_targets;
        summary = if ends then block_analysis_init else summary;
        begin_block_index = if ends then length instrs else s.begin_block_index;
        code_pos = after;
      }

  unfoldable pub analyze_test : Progress → Bool
  analyze_test s = not (s.code_pos == length code)

  abbrev pub analyze_start : Progress
  analyze_start = record {
    instrs = begin_instruction ∷ [];
    push_values = [];
    jumpdest_offsets = [];
    jumpdest_targets = [];
    summary = block_analysis_init;
    begin_block_index = 0;
    code_pos = 0;
  }

  -- The last block is closed, and a STOP put behind it.
  unfoldable pub analyze_end : Progress → Progress
  analyze_end s = record {
    instrs =
        set_arg s.instrs s.begin_block_index (block (block_analysis_close s.summary))
        ++ (instruction_init (table Opcode.op_stop).fn ∷ []);
    push_values = s.push_values;
    jumpdest_offsets = s.jumpdest_offsets;
    jumpdest_targets = s.jumpdest_targets;
    summary = s.summary;
    begin_block_index = s.begin_block_index;
    code_pos = s.code_pos;
  }

  -- One round for each byte and one more are enough.
  unfoldable pub analyze_loop : Option Progress
  unfolding analyze_test analyze_body analyze_end
  analyze_loop = do
    s ← while (suc (length code)) analyze_test analyze_body analyze_start
    some (analyze_end s)

unfoldable pub analyze : (ℕ → OpTableEntry) → ℕ → List ℕ → Option Progress
unfolding analyze_loop get_op_table
analyze opt rev code = analyze_loop (get_op_table opt rev) code
