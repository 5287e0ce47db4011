-- ===== src/Block/Laws.antt =====
-- The summary of a block, its start, and the stack heights of its instructions.
use tsc_vee.Base.{
  ◌+◌, ◌≤◌, ◌≡◌, refl, sym, ap, List, [], ◌∷◌, Bool, true, false, arith, if◌then◌else◌,
}
use tsc_vee.Base.Int.{ℤ, pos, negsuc, pos_part, neg_part, ◌+ℤ◌, ◌-ℤ◌, ltb_ℤ, leb_ℤ}
use tsc_vee.Block.{
  OpTableEntry, BlockAnalysis, block_analysis_init, max_ℤ, block_step, block_scan,
  block_analysis_close, BlockInfo, Begin, Frame, next, out_of_gas, stack_underflow, stack_overflow,
  opx_beginblock, int16,
}

infix 50 ◌≤ℤ◌
abbrev pub ◌≤ℤ◌ : ℤ → ℤ → Type 0
a ≤ℤ b = pos_part a + neg_part b ≤ pos_part b + neg_part a

-- Run at height `height`, each instruction finds the items that it requires, and leaves at most 1024.
pub data Runs : ℤ → List OpTableEntry → Type 0 where
  done : {height : ℤ} → Runs height []
  step :
      {height : ℤ} {e : OpTableEntry} {rest : List OpTableEntry}
      → e.stack_req ≤ℤ height
      → height +ℤ e.stack_change ≤ℤ pos 1024
      → Runs (height +ℤ e.stack_change) rest
      → Runs height (e ∷ rest)

le-max : (a b : ℤ) → (a ≤ℤ max_ℤ a b) × (b ≤ℤ max_ℤ a b)
unfolding max_ℤ
le-max a b = ground arith

step_grows :
    (block : BlockAnalysis) (e : OpTableEntry)
    → (block.stack_req ≤ℤ (block_step block e).stack_req)
      × (e.stack_req -ℤ block.stack_change ≤ℤ (block_step block e).stack_req)
      × (block.stack_max_growth ≤ℤ (block_step block e).stack_max_growth)
      × ((block_step block e).stack_change ≤ℤ (block_step block e).stack_max_growth)
unfolding block_step
step_grows block e =
    let r = le-max block.stack_req (e.stack_req -ℤ block.stack_change) in
    let g = le-max block.stack_max_growth (block.stack_change +ℤ e.stack_change) in
    (r.0, r.1, g.0, g.1)

scan_grows :
    (es : List OpTableEntry) (block : BlockAnalysis)
    → (block.stack_req ≤ℤ (block_scan block es).stack_req)
      × (block.stack_max_growth ≤ℤ (block_scan block es).stack_max_growth)
scan_grows [] block = omega arith
scan_grows (e ∷ es) block =
    let s = step_grows block e in
    let t = scan_grows es (block_step block e) in (omega (arith, s, t), omega (arith, s, t))

move_sub : (r c h : ℤ) → r -ℤ c ≤ℤ h → r ≤ℤ h +ℤ c
unfolding ◌+ℤ◌ ◌-ℤ◌
move_sub r c h p = ground arith

+ℤ_assoc : (a b c : ℤ) → a +ℤ b +ℤ c ≡ a +ℤ (b +ℤ c)
unfolding ◌+ℤ◌
+ℤ_assoc a b c = ground arith

+ℤ_mono : (h c g : ℤ) → c ≤ℤ g → h +ℤ g ≤ℤ pos 1024 → h +ℤ c ≤ℤ pos 1024
unfolding ◌+ℤ◌
+ℤ_mono h c g p q = ground arith

+ℤ_zero : (h : ℤ) → h +ℤ pos 0 ≡ h
unfolding ◌+ℤ◌
+ℤ_zero h = ground arith

block_scan-Runs :
    (es : List OpTableEntry) (block : BlockAnalysis) (h : ℤ)
    → (block_scan block es).stack_req ≤ℤ h
    → h +ℤ (block_scan block es).stack_max_growth ≤ℤ pos 1024
    → Runs (h +ℤ block.stack_change) es
unfolding block_step
block_scan-Runs [] block h req grow = done
block_scan-Runs (e ∷ es) block h req grow =
    let s = step_grows block e in
    let t = scan_grows es (block_step block e) in
    let under : e.stack_req -ℤ block.stack_change ≤ℤ h = omega (arith, s, t, req) in
    let needs = move_sub e.stack_req block.stack_change h under in
    let a = +ℤ_assoc h block.stack_change e.stack_change in
    let most : (block_step block e).stack_change
        ≤ℤ (block_scan (block_step block e) es).stack_max_growth =
      omega (arith, s, t) in
    let moved =
      +ℤ_mono h (block_step block e).stack_change
        (block_scan (block_step block e) es).stack_max_growth most grow in
    step needs (rw a (moved)) (rw a (block_scan-Runs es (block_step block e) h req grow))

int16_small : (z : ℤ) → pos 0 ≤ℤ z → z ≤ℤ pos 0x7fff → int16 z ≡ z
int16_small (pos n) low high = ground arith
int16_small (negsuc n) low high = absurd (omega arith)

abbrev pub decided : Begin → Frame → Begin × Frame
decided begin frame = (begin, frame)

passes :
    (b1 b2 b3 : Bool) (charged ok frame' : Frame)
    → (if b1
        then decided out_of_gas charged
        else if b2
        then decided stack_underflow charged
        else if b3
        then decided stack_overflow charged
        else decided next ok)
      ≡ decided next frame'
    → (b1 ≡ false) × (b2 ≡ false) × (b3 ≡ false) × (ok ≡ frame')
passes true b2 b3 charged ok frame' e = absurd (cc)
passes false true b3 charged ok frame' e = absurd (cc)
passes false false true charged ok frame' e = absurd (cc)
passes false false false charged ok frame' e = (refl, refl, refl, ap (λ p. p.1) e)

not_less : (a b : ℤ) → ltb_ℤ a b ≡ false → b ≤ℤ a
not_less a b h = ground arith

-- What a block start that is not refused has checked.
begin_checks :
    (block : BlockInfo) (frame frame' : Frame)
    → opx_beginblock block frame ≡ decided next frame'
    → (block.stack_req ≤ℤ pos frame.stack_size)
      × (pos frame.stack_size +ℤ block.stack_max_growth ≤ℤ pos 1024)
      × (frame'.stack_size ≡ frame.stack_size)
      × (pos 0 ≤ℤ frame'.gas_left)
unfolding opx_beginblock
begin_checks block frame frame' e =
    let (gas, req, growth, same) = passes _ _ _ _ _ frame' e in
    (
      not_less (pos frame.stack_size) block.stack_req req,
      not_less (pos 1024) (pos frame.stack_size +ℤ block.stack_max_growth) growth,
      ap (λ f. f.stack_size) (sym same),
      rw (sym same) (not_less (frame.gas_left -ℤ pos block.gas_cost) (pos 0) gas),
    )

cap :
    (z : ℤ)
    → pos 0 ≤ℤ z
    → z ≤ℤ pos 0x7fff
    → (if leb_ℤ (int16 z) (pos 0x7fff) then int16 z else pos 0x7fff) ≡ z
cap z low high =
    let e = int16_small z low high in
    let le : leb_ℤ z (pos 0x7fff) ≡ true = ground arith in rw e (rw le)

-- If the requirement and the growth that the analysis sums up for a block are at most 32767 and
-- the start of the block, on a stack of some size, goes on to the next instruction, then each
-- instruction of the block, run in turn from that size, finds the stack items it requires and
-- leaves at most 1024, the stack is as before, and the gas is not below 0.
pub opx_beginblock-Runs :
    (es : List OpTableEntry) (frame frame' : Frame)
    → (block_scan block_analysis_init es).stack_req ≤ℤ pos 0x7fff
    → (block_scan block_analysis_init es).stack_max_growth ≤ℤ pos 0x7fff
    → opx_beginblock (block_analysis_close (block_scan block_analysis_init es)) frame
      ≡ decided next frame'
    → Runs (pos frame.stack_size) es
      × (frame'.stack_size ≡ frame.stack_size)
      × (pos 0 ≤ℤ frame'.gas_left)
unfolding block_analysis_close
opx_beginblock-Runs es frame frame' req_fits growth_fits passed =
    let block = block_scan block_analysis_init es in
    let low = scan_grows es block_analysis_init in
    let er = cap block.stack_req low.0 req_fits in
    let eg = cap block.stack_max_growth low.1 growth_fits in
    let (req, growth, same, gas) = begin_checks (block_analysis_close block) frame frame' passed in
    let req' = rw er at req in
    let growth' = rw eg at growth in
    (
      rw (sym (+ℤ_zero (pos frame.stack_size)))
          (block_scan-Runs es block_analysis_init (pos frame.stack_size) req' growth'),
      same,
      gas,
    )
