-- ===== src/Interpreter/Halts.antt =====
-- A program without jumps, divisions and EXP runs to an end.
use tsc_vee.Base.{
  ℕ, zero, suc, ◌+◌, ◌*◌, ◌^◌, ◌≤◌, ◌<◌, ◌≡◌, refl, ap, ◌∙◌, Bool, true, false, not, ◌||◌,
  if◌then◌else◌, ◌==◌, List, [], ◌∷◌, ◌++◌, length, length-append, get_elem?, get_or, Option, none,
  some, ◌>>=◌, leb, ◌&&◌, all_below, all_below_lem, arith, Bool-cases, inl, inr,
}
use tsc_vee.Opcode
use tsc_vee.Bytes.{byte_at}
use tsc_vee.Block.{OpTableEntry, block_analysis_close}
use tsc_vee.Gas.{gas_costs}
use tsc_vee.Dispatch.{
  InstructionFn, unset, instruction_fn_table, OpTableSlot, get_op_table, is_undefined,
}
use tsc_vee.Analysis.{
  Instruction, Progress, block, analyze_body, analyze_start, analyze_end, analyze_loop, analyze,
  next_pos, set_arg, ends_block,
}
use tsc_vee.Analysis.Code.{analyze_loop_lem, next_pos_lem}
use tsc_vee.Analysis.Targets.{
  fns, length-fns, fns-append, fns-set_arg, fns-body, after_one, after_end,
}
use tsc_vee.Jump.{null, instruction}
use tsc_vee.Machine.{Machine, Message, CallResult, advanced_execution_state_init}
use tsc_vee.Machine.Platform.{Platform}
use tsc_vee.Machine.Handlers.{Handled}
use tsc_vee.Interpreter.{
  Outcome, finished, undefined, out_of_fuel, proceed, step, run_fn, run_loop, result_of,
  execute_analyzed_code, execute_from, execute,
}
use tsc_vee.Interpreter.Forward.{may_loop, Moves, stuck, ends, goes, run_fn-Moves}

abbrev pub Halts : {B : Type 0} → Outcome B → Type 0
Halts (finished b) = Unit
Halts undefined = Unit
Halts out_of_fuel = ⊥

abbrev AllPlain : List InstructionFn → Type 0
AllPlain [] = Unit
AllPlain (f ∷ fs) = (may_loop f ≡ false) × AllPlain fs

plain_append : (xs ys : List InstructionFn) → AllPlain xs → AllPlain ys → AllPlain (xs ++ ys)
plain_append [] ys hx hy = hy
plain_append (x ∷ xs) ys (h, hx) hy = (h, plain_append xs ys hx hy)

module _ {S A : Type 0} (p : Platform S A) (analysis : Progress) where
  proceed-Halts :
      (instr : ℕ) (rest : ℕ → Machine A → Outcome (Machine A)) (h : Handled A)
      → Moves instr h
      → ((m : Machine A) → Halts (rest (instr + 1) m))
      → Halts (proceed rest h)
  proceed-Halts instr rest none stuck k = tt
  proceed-Halts instr rest (some (null, m)) (ends _) k = tt
  proceed-Halts instr rest (some (instruction _, m)) (goes _) k = k m

  at-Halts :
      (instrs : List Instruction) (i k instr : ℕ) (m : Machine A)
      (rest : ℕ → Machine A → Outcome (Machine A))
      → AllPlain (fns instrs)
      → (i < length instrs → (m' : Machine A) → Halts (rest (instr + 1) m'))
      → Halts
          (proceed rest (get_elem? instrs i >>= (λ ins. run_fn p analysis ins.fn ins.arg instr m)))
  at-Halts [] i k instr m rest plain h = tt
  at-Halts (ins ∷ instrs) zero k instr m rest (plain, others) h =
      proceed-Halts instr rest _ (run_fn-Moves p analysis ins.fn ins.arg instr m plain)
        (h (omega arith))
  at-Halts (ins ∷ instrs) (suc i) k instr m rest (plain, others) h =
      at-Halts instrs i k instr m rest others (λ lt. h (omega arith))

  pub run_loop-Halts :
      (k instr : ℕ) (m : Machine A)
      → AllPlain (fns analysis.instrs)
      → length analysis.instrs ≤ instr + k
      → Halts (run_loop p analysis (suc k) instr m)
  unfolding run_loop step
  run_loop-Halts zero instr m plain enough =
      at-Halts analysis.instrs instr zero instr m (run_loop p analysis zero) plain
        (λ lt. absurd (omega arith))
  run_loop-Halts (suc k) instr m plain enough =
      at-Halts analysis.instrs instr (suc k) instr m (run_loop p analysis (suc k)) plain
        (λ lt m'. run_loop-Halts k (instr + 1) m' plain (omega arith))

-- A byte that is no jump, no division and not EXP.
abbrev pub no_loop : ℕ → Bool
no_loop b = not (
    b == Opcode.op_jump
    || b == Opcode.op_jumpi
    || b == Opcode.op_exp
    || (leb Opcode.op_div b && leb b Opcode.op_mulmod))

entry_plain : ℕ → Bool
entry_plain i = not (no_loop i) || not (may_loop (get_or instruction_fn_table i unset))

entries_plain : all_below 256 entry_plain ≡ true
unfolding entry_plain instruction_fn_table
entries_plain = refl

table_plain :
    (i : ℕ) → i < 256 → no_loop i ≡ true → may_loop (get_or instruction_fn_table i unset) ≡ false
unfolding entry_plain
table_plain i lt h =
    split (no_loop i) (may_loop (get_or instruction_fn_table i unset)) h
      (all_below_lem 256 entry_plain entries_plain i lt)
  where
    split : (a b : Bool) → a ≡ true → (not a || not b) ≡ true → b ≡ false
    split a b h e = ground arith

get_op_table_plain :
    (opt : ℕ → OpTableEntry) (rev i : ℕ)
    → i < 256
    → no_loop i ≡ true
    → may_loop (get_op_table opt rev i).fn ≡ false
unfolding get_op_table
get_op_table_plain opt rev i lt h = elim (Bool-cases (is_undefined (gas_costs rev i))) [
  | inl e ↦ rw e refl
  | inr e ↦ rw e (table_plain i lt h)
]

-- No byte of the code is a jump, a division or EXP.
abbrev pub NoLoops : List ℕ → Type 0
NoLoops code = (i : ℕ) → (byte_at code i < 256) × (no_loop (byte_at code i) ≡ true)

module _ (opt : ℕ → OpTableEntry) (rev : ℕ) (code : List ℕ) (short : length code < 2 ^ 30)
    (plain_code : NoLoops code) where
  abbrev table : ℕ → OpTableSlot
  table = get_op_table opt rev

  -- The instructions so far go on, and at most two for each byte and one more.
  abbrev Straight : List InstructionFn → ℕ → Type 0
  Straight fs p = AllPlain fs × (length fs ≤ 2 * p + 1)

  begin_plain : may_loop (table Opcode.op_jumpdest).fn ≡ false
  begin_plain = get_op_table_plain opt rev Opcode.op_jumpdest (omega arith) refl

  one-Straight :
      (fs : List InstructionFn) (p opcode : ℕ)
      → Straight fs p
      → opcode < 256
      → no_loop opcode ≡ true
      → AllPlain (after_one table code short opcode fs)
        × (length (after_one table code short opcode fs) ≤ 2 * p + 2)
  one-Straight fs p opcode (plain, small) lt ok = split (opcode == Opcode.op_jumpdest)
    where
      split :
          (c : Bool)
          → AllPlain (if c then fs else fs ++ ((table opcode).fn ∷ []))
            × (length (if c then fs else fs ++ ((table opcode).fn ∷ [])) ≤ 2 * p + 2)
      split true = (plain, omega arith)
      split false = (
        plain_append fs _ plain (get_op_table_plain opt rev opcode lt ok, tt),
        omega (arith, length-append fs ((table opcode).fn ∷ [])),
      )

  end-Straight :
      (fs : List InstructionFn) (p after : ℕ) (c : Bool)
      → AllPlain fs
      → length fs ≤ 2 * p + 2
      → p < after
      → Straight (after_end table code short c fs) after
  end-Straight fs p after true plain small lt = (
    plain_append fs _ plain (begin_plain, tt),
    omega (arith, length-append fs ((table Opcode.op_jumpdest).fn ∷ [])),
  )
  end-Straight fs p after false plain small lt = (plain, omega arith)

  keeps_Straight :
      (s : Progress)
      → s.code_pos < length code
      → Straight (fns s.instrs) s.code_pos
      → Straight (fns (analyze_body table code s).instrs) (analyze_body table code s).code_pos
  unfolding analyze_body
  keeps_Straight s lt h =
      let opcode = byte_at code s.code_pos in
      let after = next_pos table code opcode s.code_pos in
      let (byte, ok) = plain_code s.code_pos in
      let (plain, small) = one-Straight (fns s.instrs) s.code_pos opcode h byte ok in
      rw (fns-body table code short s) (
        end-Straight _ s.code_pos after (ends_block table code opcode after) plain small
          (next_pos_lem table code opcode s.code_pos lt).0)

  analyze_straight :
      (s : Progress) × (analyze opt rev code ≡ some s)
      × AllPlain (fns s.instrs)
      × (length s.instrs ≤ 2 * length code + 2)
  unfolding analyze analyze_loop analyze_end
  analyze_straight =
      let (s, w, at, (plain, small)) =
        analyze_loop_lem table code (λ s. Straight (fns s.instrs) s.code_pos) keeps_Straight
          (suc (length code)) (analyze_start table code) (omega arith) (omega arith)
          ((begin_plain, tt), omega arith) in
      let arg = block (block_analysis_close s.summary) in
      let stop = (table Opcode.op_stop).fn in
      let e : fns (analyze_end table code s).instrs ≡ fns s.instrs ++ (stop ∷ []) =
        fns-append (set_arg s.instrs s.begin_block_index arg) _
        ∙ ap (λ t. t ++ (stop ∷ [])) (fns-set_arg s.instrs s.begin_block_index arg) in
      (
        analyze_end table code s,
        rw w,
        rw e (
            plain_append (fns s.instrs) _ plain
              (get_op_table_plain opt rev Opcode.op_stop (omega arith) refl, tt)),
        omega (
          arith,
          length-fns (analyze_end table code s).instrs,
          ap length e,
          length-append (fns s.instrs) (stop ∷ []),
          at,
        ),
      )

result_of-Halts :
    {S A : Type 0} (p : Platform S A) (o : Outcome (Machine A)) → Halts o → Halts (result_of p o)
result_of-Halts p undefined h = tt
result_of-Halts p out_of_fuel h = h
result_of-Halts p (finished m) h = split (not (m.output_size == 0) || m.output_offset == 0) _
  where
    split : (b : Bool) (r : CallResult) → Halts (if b then finished r else undefined)
    split true r = tt
    split false r = tt

module _ {S A : Type 0} (p : Platform S A) where
  execute_from-Halts :
      (k : ℕ) (analysis : Progress) (start : Option (Machine A))
      → AllPlain (fns analysis.instrs)
      → length analysis.instrs ≤ k
      → Halts (execute_from p (suc k) analysis start)
  unfolding execute_analyzed_code
  execute_from-Halts k analysis none plain enough = tt
  execute_from-Halts k analysis (some m) plain enough =
      result_of-Halts p _ (run_loop-Halts p analysis k 0 m plain (omega arith))

  -- For a code of fewer than 2 ^ 30 bytes none of which is JUMP, JUMPI, EXP or one of DIV to
  -- MULMOD, 2 * length + 3 rounds or more are enough for `execute` in every revision and from
  -- every state: the run does not use up its rounds, but comes out with a result or in an access
  -- that C leaves undefined.
  pub execute-Halts :
      (opt : ℕ → OpTableEntry) (fuel rev : ℕ) (msg : Message) (code : List ℕ) (blank : Machine A)
      → length code < 2 ^ 30
      → NoLoops code
      → 2 * length code + 3 ≤ fuel
      → Halts (execute p opt fuel rev msg code blank)
  unfolding execute
  execute-Halts opt zero rev msg code blank short plain enough = absurd (omega arith)
  execute-Halts opt (suc k) rev msg code blank short plain enough =
      let (s, e, fs, few) = analyze_straight opt rev code short plain in
      rw e (
        execute_from-Halts k s (advanced_execution_state_init p.realloc msg rev code blank) fs
          (omega arith))
