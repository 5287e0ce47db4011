-- ===== src/Analysis/Targets.antt =====
-- The instructions that the recorded jump targets point at.
use native.Mathlib.Decide.{dec_lt}
use tsc_vee.Base.{
  ℕ, zero, suc, ◌+◌, ◌-◌, ◌*◌, ◌^◌, ◌≤◌, ◌<◌, ◌≡◌, ◌≢◌, refl, sym, ap, ◌∙◌, Bool, true, false,
  if◌then◌else◌, ◌==◌, ==_iff, List, [], ◌∷◌, ◌++◌, map, length, length-append, get_or,
  get_or-append_left, get_or-append_right, Option, none, some, Bool-cases, inl, inr, arith,
}
use tsc_vee.Base.Int.{ℤ, pos, negsuc}
use tsc_vee.Opcode
use tsc_vee.Bytes.{byte_at}
use tsc_vee.Block.{OpTableEntry, BlockAnalysis, block_step, block_analysis_close}
use tsc_vee.Dispatch.{InstructionFn, unset, OpTableSlot, get_op_table}
use tsc_vee.Analysis.{
  Instruction, InstructionArgument, block, Progress, next_pos, analyze_body, analyze_start,
  analyze_end, analyze_loop, analyze, int32, set_arg, begin_instruction, with_argument, argument,
  emitted, ends_block, instruction_init, opcode_info,
}
use tsc_vee.Analysis.Code.{analyze_loop_lem, next_pos_lem}

abbrev pub fns : List Instruction → List InstructionFn
fns instrs = map (λ ins. ins.fn) instrs

pub length-fns : (instrs : List Instruction) → length (fns instrs) ≡ length instrs
length-fns [] = refl
length-fns (ins ∷ instrs) = ap suc (length-fns instrs)

pub fns-append : (xs ys : List Instruction) → fns (xs ++ ys) ≡ fns xs ++ fns ys
fns-append [] ys = refl
fns-append (x ∷ xs) ys = ap (λ t. x.fn ∷ t) (fns-append xs ys)

-- An argument that is written leaves the functions.
pub fns-set_arg :
    (instrs : List Instruction) (i : ℕ) (arg : InstructionArgument)
    → fns (set_arg instrs i arg) ≡ fns instrs
fns-set_arg [] i arg = refl
fns-set_arg (ins ∷ instrs) zero arg = refl
fns-set_arg (ins ∷ instrs) (suc i) arg = ap (λ t. ins.fn ∷ t) (fns-set_arg instrs i arg)

fns-with_argument :
    (instrs : List Instruction) (arg : Option InstructionArgument)
    → fns (with_argument instrs arg) ≡ fns instrs
fns-with_argument instrs none = refl
fns-with_argument instrs (some arg) = fns-set_arg instrs (length instrs - 1) arg

-- Instruction `n` is there and has the function.
abbrev pub Has : InstructionFn → ℕ → List InstructionFn → Type 0
Has f n fs = (n < length fs) × (get_or fs n unset ≡ f)

append-Has :
    (f : InstructionFn) (n : ℕ) (xs ys : List InstructionFn) → Has f n xs → Has f n (xs ++ ys)
append-Has f n xs ys (lt, e) =
    (omega (arith, length-append xs ys, lt), get_or-append_left xs ys n unset lt ∙ e)

snoc-Has : (f : InstructionFn) (xs : List InstructionFn) → Has f (length xs) (xs ++ (f ∷ []))
snoc-Has f xs = (omega (arith, length-append xs (f ∷ [])), get_or-append_right xs (f ∷ []) unset)

-- Each target is the number of an instruction with the function.
abbrev pub AllPoint : InstructionFn → List InstructionFn → List ℤ → Type 0
AllPoint f fs targets =
    (i : ℕ) → i < length targets → (n : ℕ) × (get_or targets i (negsuc 0) ≡ pos n) × Has f n fs

points_more :
    (f : InstructionFn) (xs ys : List InstructionFn) (targets : List ℤ)
    → AllPoint f xs targets
    → AllPoint f (xs ++ ys) targets
points_more f xs ys targets h i lt = let (n, e, has) = h i lt in (n, e, append-Has f n xs ys has)

points_snoc :
    (f : InstructionFn) (fs : List InstructionFn) (targets : List ℤ) (n : ℕ)
    → AllPoint f fs targets
    → Has f n fs
    → AllPoint f fs (targets ++ (pos n ∷ []))
points_snoc f fs targets n h has i lt = elim (dec_lt i (length targets)) [
  | yes below ↦
      let (k, e, at) = h i below in (k, get_or-append_left targets _ i (negsuc 0) below ∙ e, at)
  | no ge ↦
      let last : i ≡ length targets = omega (arith, length-append targets (pos n ∷ []), lt, ge) in
      (
        n,
        ap (λ t. get_or (targets ++ (pos n ∷ [])) t (negsuc 0)) last
            ∙ get_or-append_right targets (pos n ∷ []) (negsuc 0),
        has,
      )
]

pub int32_small : (n : ℕ) → n < 2 ^ 31 → int32 n ≡ pos n
int32_small n lt = ground arith

module _ (table : ℕ → OpTableSlot) (code : List ℕ) (short : length code < 2 ^ 30) where
  abbrev pub begin : InstructionFn
  begin = (table Opcode.op_jumpdest).fn

  -- Targets that point at block starts, one for each offset.
  abbrev Pointing : List InstructionFn → List ℤ → List ℤ → Type 0
  Pointing fs targets offsets =
      (length targets ≡ length offsets) × AllPoint begin fs targets × (0 < length fs)

  -- The last instruction is a block start in front of a jump destination.
  abbrev Ready : List InstructionFn → ℕ → Type 0
  Ready fs p = p < length code → byte_at code p ≡ Opcode.op_jumpdest → Has begin (length fs - 1) fs

  abbrev SoundAt : List InstructionFn → List ℤ → List ℤ → ℕ → Type 0
  SoundAt fs targets offsets p = Pointing fs targets offsets × (length fs ≤ 2 * p + 1) × Ready fs p

  abbrev Sound : Progress → Type 0
  Sound s = SoundAt (fns s.instrs) s.jumpdest_targets s.jumpdest_offsets s.code_pos

  -- The functions after an instruction, and after the end of its block.
  abbrev pub after_one : ℕ → List InstructionFn → List InstructionFn
  after_one opcode fs = if opcode == Opcode.op_jumpdest then fs else fs ++ ((table opcode).fn ∷ [])

  abbrev pub after_end : Bool → List InstructionFn → List InstructionFn
  after_end ends fs = if ends then fs ++ (begin ∷ []) else fs

  fns-emitted :
      (s : Progress) (opcode : ℕ) (summary : BlockAnalysis)
      → fns (emitted table code s opcode summary) ≡ after_one opcode (fns s.instrs)
  unfolding emitted
  fns-emitted s opcode summary =
      fns-with_argument _ (argument table code opcode s.code_pos summary.gas_cost)
      ∙ split (opcode == Opcode.op_jumpdest)
    where
      split :
          (c : Bool)
          → fns (if c then s.instrs else s.instrs ++ (instruction_init (table opcode).fn ∷ []))
            ≡ (if c then fns s.instrs else fns s.instrs ++ ((table opcode).fn ∷ []))
      split true = refl
      split false = fns-append s.instrs _

  fns-ended :
      (ends : Bool) (instrs : List Instruction) (i : ℕ) (arg : InstructionArgument)
      → fns (if ends then set_arg instrs i arg ++ (begin_instruction table code ∷ []) else instrs)
        ≡ after_end ends (fns instrs)
  fns-ended true instrs i arg =
      fns-append (set_arg instrs i arg) _ ∙ ap (λ t. t ++ (begin ∷ [])) (fns-set_arg instrs i arg)
  fns-ended false instrs i arg = refl

  pub fns-body :
      (s : Progress)
      → (let opcode = byte_at code s.code_pos in
          let after = next_pos table code opcode s.code_pos in
          fns (analyze_body table code s).instrs
          ≡ after_end (ends_block table code opcode after) (after_one opcode (fns s.instrs)))
  unfolding analyze_body
  fns-body s =
      let opcode = byte_at code s.code_pos in
      let ends = ends_block table code opcode (next_pos table code opcode s.code_pos) in
      fns-ended ends (emitted table code s opcode (block_step s.summary (opcode_info table opcode)))
        s.begin_block_index _
      ∙ ap (after_end ends) (fns-emitted s opcode (block_step s.summary (opcode_info table opcode)))

  no_start :
      (opcode after : ℕ)
      → after < length code
      → byte_at code after ≡ Opcode.op_jumpdest
      → ends_block table code opcode after ≢ false
  unfolding ends_block
  no_start opcode after l b e = ground arith

  module _ (fs : List InstructionFn) (targets offsets : List ℤ) where
    one_sound :
        (p opcode : ℕ)
        → p < length code
        → length fs ≤ 2 * p + 1
        → Pointing fs targets offsets
        → (opcode ≡ Opcode.op_jumpdest → Has begin (length fs - 1) fs)
        → (length (after_one opcode fs) ≤ 2 * p + 2)
          × Pointing
              (after_one opcode fs)
              (if opcode == Opcode.op_jumpdest
                then targets ++ (int32 (length fs - 1) ∷ [])
                else targets)
              (if opcode == Opcode.op_jumpdest then offsets ++ (int32 p ∷ []) else offsets)
    one_sound p opcode lt small (lens, points, some_fs) ready =
        split (opcode == Opcode.op_jumpdest) (λ e. ready ((==_iff opcode Opcode.op_jumpdest).0 e))
      where
        split :
            (c : Bool)
            → (c ≡ true → Has begin (length fs - 1) fs)
            → (length (if c then fs else fs ++ ((table opcode).fn ∷ [])) ≤ 2 * p + 2)
              × Pointing
                  (if c then fs else fs ++ ((table opcode).fn ∷ []))
                  (if c then targets ++ (int32 (length fs - 1) ∷ []) else targets)
                  (if c then offsets ++ (int32 p ∷ []) else offsets)
        split true has =
            let e = int32_small (length fs - 1) (omega arith) in
            (
              omega arith,
              (
                omega (
                  arith,
                  lens,
                  length-append targets (int32 (length fs - 1) ∷ []),
                  length-append offsets (int32 p ∷ []),
                ),
                rw e (points_snoc begin fs targets (length fs - 1) points (has refl)),
                some_fs,
              ),
            )
        split false has =
            let n = length-append fs ((table opcode).fn ∷ []) in
            (omega (arith, n), (lens, points_more begin fs _ targets points, omega (arith, n)))

    end_sound :
        (p opcode after : ℕ)
        → p < after
        → length fs ≤ 2 * p + 2
        → Pointing fs targets offsets
        → (let ended = after_end (ends_block table code opcode after) fs in
            Pointing ended targets offsets × (length ended ≤ 2 * after + 1) × Ready ended after)
    end_sound p opcode after lt small (lens, points, some_fs) =
        elim (Bool-cases (ends_block table code opcode after)) [
          | inl e ↦
              let n = length-append fs (begin ∷ []) in
              let at : length fs ≡ length (fs ++ (begin ∷ [])) - 1 = omega (arith, n) in
              rw e (
                (lens, points_more begin fs _ targets points, omega (arith, n)),
                omega (arith, n),
                λ l b. rw (sym at) (snoc-Has begin fs),
              )
          | inr e ↦
              rw e
                ((lens, points, some_fs), omega arith, λ l b. absurd (no_start opcode after l b e))
        ]

  keeps : (s : Progress) → s.code_pos < length code → Sound s → Sound (analyze_body table code s)
  unfolding analyze_body
  keeps s lt (pointing, small, ready) =
      let opcode = byte_at code s.code_pos in
      let (small', pointing') =
        one_sound (fns s.instrs) s.jumpdest_targets s.jumpdest_offsets s.code_pos opcode lt small
          pointing (ready lt) in
      let (forward, within) = next_pos_lem table code opcode s.code_pos lt in
      rw (fns-body s, sym (length-fns s.instrs))
        (end_sound _ _ _ s.code_pos opcode _ forward small' pointing')

-- The analysis ends, with a target for each offset, the number of a block start.
pub analyze_targets :
    (opt : ℕ → OpTableEntry) (rev : ℕ) (code : List ℕ)
    → length code < 2 ^ 30
    → (s : Progress) × (analyze opt rev code ≡ some s)
      × (length s.jumpdest_targets ≡ length s.jumpdest_offsets)
      × AllPoint (get_op_table opt rev Opcode.op_jumpdest).fn (fns s.instrs) s.jumpdest_targets
unfolding analyze analyze_loop analyze_end
analyze_targets opt rev code short =
    let table = get_op_table opt rev in
    let start : Sound table code short (analyze_start table code) = (
      (refl, λ i lt. absurd (omega arith), omega arith),
      omega arith,
      λ l b. (omega arith, refl),
    ) in
    let (s, w, at, ((lens, points, some_fs), small, ready)) =
      analyze_loop_lem table code (Sound table code short) (keeps table code short)
        (suc (length code)) (analyze_start table code) (omega arith) (omega arith) start in
    let arg = block (block_analysis_close s.summary) in
    (
      analyze_end table code s,
      rw w,
      lens,
      rw
          (
            fns-append (set_arg s.instrs s.begin_block_index arg) _,
            fns-set_arg s.instrs s.begin_block_index arg,
          )
          (points_more _ (fns s.instrs) _ s.jumpdest_targets points),
    )
