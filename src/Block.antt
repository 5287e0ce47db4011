-- ===== src/Block.antt =====
-- A basic block of the code: what the analysis sums up of its instructions
-- (include/analysis_impl.h) and what the start of the block asks for (`opx_beginblock` of
-- include/analysis.h). The C ints are integers without bounds; the fields of `struct BlockInfo` have
-- 32 and 16 bits, and their casts are written out.
pub mod Laws
mod Tests
use tsc_vee.Base.{ℕ, zero, suc, ◌+◌, ◌-◌, ◌%◌, ◌^◌, List, [], ◌∷◌, if◌then◌else◌, ltb}
use tsc_vee.Base.Int.{ℤ, pos, negsuc, ◌+ℤ◌, ◌-ℤ◌, ltb_ℤ, leb_ℤ}

-- The part of `struct OpTableEntry` that the analysis sums up.
pub record OpTableEntry : Type 0 where
  pub gas_cost : ℤ
  pub stack_req : ℤ
  pub stack_change : ℤ

pub record BlockAnalysis : Type 0 where
  pub gas_cost : ℤ
  pub stack_req : ℤ
  pub stack_max_growth : ℤ
  pub stack_change : ℤ

abbrev pub block_analysis_init : BlockAnalysis
block_analysis_init = record {
  gas_cost = pos 0;
  stack_req = pos 0;
  stack_max_growth = pos 0;
  stack_change = pos 0;
}

-- `max(a, b)`
unfoldable pub max_ℤ : ℤ → ℤ → ℤ
max_ℤ a b = if ltb_ℤ b a then a else b

-- One round of the loop of `analyze`, as far as it concerns the block.
unfoldable pub block_step : BlockAnalysis → OpTableEntry → BlockAnalysis
unfolding max_ℤ
block_step block opcode_info =
    let stack_req = max_ℤ block.stack_req (opcode_info.stack_req -ℤ block.stack_change) in
    let stack_change = block.stack_change +ℤ opcode_info.stack_change in
    record {
      gas_cost = block.gas_cost +ℤ opcode_info.gas_cost;
      stack_req = stack_req;
      stack_max_growth = max_ℤ block.stack_max_growth stack_change;
      stack_change = stack_change;
    }

-- The instructions of a block, one after the other, by their table entries; `analyze` sets those of
-- opcode 247 to zeros first.
abbrev pub block_scan : BlockAnalysis → List OpTableEntry → BlockAnalysis
block_scan block [] = block
block_scan block (opcode_info ∷ rest) = block_scan (block_step block opcode_info) rest

pub record BlockInfo : Type 0 where
  pub gas_cost : ℕ
  pub stack_req : ℤ
  pub stack_max_growth : ℤ

-- `(uint32_t)n` and `(int16_t)n`.
abbrev pub uint32 : ℤ → ℕ
uint32 (pos n) = n % 2 ^ 32
uint32 (negsuc n) = 2 ^ 32 - 1 - n % 2 ^ 32

abbrev pub signed16 : ℕ → ℤ
signed16 n = if ltb n (2 ^ 15) then pos n else negsuc (2 ^ 16 - 1 - n)

abbrev pub int16 : ℤ → ℤ
int16 (pos n) = signed16 (n % 2 ^ 16)
int16 (negsuc n) = signed16 (2 ^ 16 - 1 - n % 2 ^ 16)

-- The casts stand before the comparisons with the largest value, which therefore always hold.
unfoldable pub block_analysis_close : BlockAnalysis → BlockInfo
block_analysis_close ba = record {
  gas_cost = uint32 ba.gas_cost;
  stack_req = if leb_ℤ (int16 ba.stack_req) (pos 0x7fff) then int16 ba.stack_req else pos 0x7fff;
  stack_max_growth =
      if leb_ℤ (int16 ba.stack_max_growth) (pos 0x7fff)
      then int16 ba.stack_max_growth
      else pos 0x7fff;
}

-- What `opx_beginblock` decides: a status that ends the run, or the next instruction.
pub data Begin : Type 0 where
  out_of_gas stack_underflow stack_overflow next : Begin

-- The part of the state that the start of a block works on.
pub record Frame : Type 0 where
  pub gas_left : ℤ
  pub stack_size : ℕ
  pub current_block_cost : ℕ

-- The gas is charged first, and stays charged when the block is refused.
unfoldable pub opx_beginblock : BlockInfo → Frame → Begin × Frame
opx_beginblock block frame =
    let charged : Frame = record {
      gas_left = frame.gas_left -ℤ pos block.gas_cost;
      stack_size = frame.stack_size;
      current_block_cost = frame.current_block_cost;
    } in
    if ltb_ℤ charged.gas_left (pos 0)
    then (out_of_gas, charged)
    else if ltb_ℤ (pos frame.stack_size) block.stack_req
    then (stack_underflow, charged)
    else if ltb_ℤ (pos 1024) (pos frame.stack_size +ℤ block.stack_max_growth)
    then (stack_overflow, charged)
    else (
      next,
      record {
        gas_left = charged.gas_left;
        stack_size = frame.stack_size;
        current_block_cost = block.gas_cost;
      },
    )
