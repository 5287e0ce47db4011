-- ===== src/Block/Tests.antt =====
-- A block of two pushes and an addition, from the empty stack.
use tsc_vee.Base.{◌≡◌, refl, List, [], ◌∷◌, arith}
use tsc_vee.Base.Int.{pos, negsuc, ◌+ℤ◌, ◌-ℤ◌}
use tsc_vee.Block.{
  OpTableEntry, block_analysis_init, max_ℤ, block_step, block_scan, block_analysis_close, Frame,
  next, opx_beginblock,
}
use tsc_vee.Block.Laws.{Runs, decided, ◌≤ℤ◌, opx_beginblock-Runs}

abbrev push1 : OpTableEntry
push1 = record { gas_cost = pos 3; stack_req = pos 0; stack_change = pos 1 }

abbrev add : OpTableEntry
add = record { gas_cost = pos 3; stack_req = pos 2; stack_change = negsuc 0 }

abbrev code : List OpTableEntry
code = push1 ∷ push1 ∷ add ∷ []

abbrev before : Frame
before = record { gas_left = pos 100; stack_size = 0; current_block_cost = 0 }

abbrev after : Frame
after = record { gas_left = pos 91; stack_size = 0; current_block_cost = 9 }

passed :
    opx_beginblock (block_analysis_close (block_scan block_analysis_init code)) before
    ≡ decided next after
unfolding opx_beginblock block_analysis_close block_step max_ℤ ◌+ℤ◌ ◌-ℤ◌
passed = refl

req_fits : (block_scan block_analysis_init code).stack_req ≤ℤ pos 0x7fff
unfolding block_step max_ℤ ◌+ℤ◌ ◌-ℤ◌
req_fits = omega arith

growth_fits : (block_scan block_analysis_init code).stack_max_growth ≤ℤ pos 0x7fff
unfolding block_step max_ℤ ◌+ℤ◌ ◌-ℤ◌
growth_fits = omega arith

opx_beginblock-Runs_example : Runs (pos 0) code × (after.stack_size ≡ 0) × (pos 0 ≤ℤ after.gas_left)
opx_beginblock-Runs_example = opx_beginblock-Runs code before after req_fits growth_fits passed
