-- ===== src/Jump/Laws.antt =====
-- Jumps in analysed code.
use tsc_vee.Base.{
  ℕ, zero, suc, ◌+◌, ◌-◌, ◌%◌, ◌^◌, ◌<◌, ◌≡◌, refl, sym, ap, ◌∙◌, Bool, true, false, if◌then◌else◌,
  List, [], ◌∷◌, map, length, length-map, get_or, some, Bool-cases, inl, inr, arith, ltb, ◌==◌,
}
use tsc_vee.Base.Int.{ℤ, pos, negsuc, pos_part}
use tsc_vee.Opcode
use tsc_vee.Uint256.{Uint256, zero256}
use tsc_vee.Uint256.Value.{value256, IsWord256}
use tsc_vee.Uint256.Sum.{zero256_lem}
use tsc_vee.Block.{OpTableEntry}
use tsc_vee.Dispatch.{InstructionFn, opx_beginblock}
use tsc_vee.Dispatch.Laws.{is_begin, get_op_table-fn}
use tsc_vee.Stack.{Stack, item, stack_pop, stack_get}
use tsc_vee.Stack.Laws.{held_one}
use tsc_vee.Arithmetic.Laws.Binary.{Holds}
use tsc_vee.Analysis.{Progress, analyze, int32}
use tsc_vee.Analysis.Jumpdests.{valid_jumpdests, analyze-jumpdest_offsets}
use tsc_vee.Analysis.Targets.{fns, Has, analyze_targets}
use tsc_vee.Analysis.Numbers.{number_of, analyze_numbers}
use tsc_vee.Jump.{
  AdvancedExecutionState, Next, null, instruction, find_jumpdest, op_jump, op_jumpi, jump_to,
  with_stack,
}
use tsc_vee.Jump.Find.{
  IsLowerBound, member, member_index, get_or-pos, find_hit, find_miss, int32_destinations,
  destinations-Ascending,
}

begin_lem : (f : InstructionFn) → is_begin f ≡ true → f ≡ opx_beginblock
begin_lem f h = ground arith

-- The positions of the jump destinations of a program.
abbrev pub destinations : List ℕ → List ℕ
destinations code = valid_jumpdests 0 0 code

-- Instruction `n` is there and is the start of a block.
abbrev pub IsBlockStart : Progress → ℕ → Type 0
IsBlockStart s n = Has opx_beginblock n (fns s.instrs)

-- The instruction that a jump to the position `p` has to go to.
abbrev pub IsTarget : List ℕ → ℕ → Progress → ℕ → Type 0
IsTarget code p s n = (n ≡ number_of code p) × IsBlockStart s n

-- What the search gives of the analysed code.
abbrev Jumps : (List ℤ → ℤ → ℕ) → List ℕ → Progress → Type 0
Jumps lower_bound code s =
    ((p : ℕ)
      → member p (destinations code) ≡ true
      → (n : ℕ) × (find_jumpdest lower_bound s (pos p) ≡ pos n) × IsTarget code p s n)
    × ((v : ℤ)
        → ((p : ℕ) → v ≡ pos p → member p (destinations code) ≡ false)
        → find_jumpdest lower_bound s v ≡ negsuc 0)

analyze-Jumps :
    (opt : ℕ → OpTableEntry) (rev : ℕ) (code : List ℕ) (lower_bound : List ℤ → ℤ → ℕ)
    → rev < 12
    → length code < 2 ^ 30
    → IsLowerBound lower_bound
    → (s : Progress) × (analyze opt rev code ≡ some s) × Jumps lower_bound code s
analyze-Jumps opt rev code lower_bound recent short contract =
    let (s, w, lens, points) = analyze_targets opt rev code short in
    let (s', w', e) = analyze-jumpdest_offsets opt rev code in
    let same : s' ≡ s = cc in
    let (s'', w'', (lens', numbers)) = analyze_numbers opt rev code short in
    let same' : s'' ≡ s = cc in
    let xs = destinations code in
    let offsets : s.jumpdest_offsets ≡ map pos xs =
      ap (λ t. t.jumpdest_offsets) (sym same) ∙ e ∙ int32_destinations 0 0 code (omega arith) in
    let up = destinations-Ascending 0 0 code in
    let (set, is, none) = get_op_table-fn opt rev Opcode.op_jumpdest recent (omega arith) in
    (
      s,
      w,
      (
        λ p h.
            let (i, lt, found, place) = find_hit lower_bound contract xs up s offsets p h in
            let room : i < length s.jumpdest_targets =
              omega (arith, lens, ap length offsets, length-map xs pos) in
            let (n, at, (there, f)) = points i room in
            let (q, o, t) =
              numbers i (omega (arith, room, ap (λ t. length t.jumpdest_targets) same')) in
            let e : n ≡ number_of code q =
              ap pos_part
                (sym at ∙ ap (λ k. get_or k.jumpdest_targets i (negsuc 0)) (sym same') ∙ t) in
            let here : q ≡ p =
              ap pos_part (
                sym o
                ∙ ap (λ k. get_or k.jumpdest_offsets i (pos 0)) same'
                ∙ ap (λ l. get_or l i (pos 0)) offsets
                ∙ get_or-pos xs i)
              ∙ place in
            (n, found ∙ at, (e ∙ ap (number_of code) here, (there, f ∙ begin_lem _ is))),
        find_miss lower_bound contract xs up s offsets,
      ),
    )

-- Whether a position is a jump destination.
abbrev pub is_destination : List ℕ → ℤ → Bool
is_destination code (pos p) = member p (destinations code)
is_destination code (negsuc p) = false

-- The search finds the start of the block of the position or nothing.
abbrev pub Finds : Bool → List ℕ → Progress → ℤ → ℤ → Type 0
Finds true code s v found = (n : ℕ) × (found ≡ pos n) × IsTarget code (pos_part v) s n
Finds false code s v found = found ≡ negsuc 0

-- For a revision before Cancun, a code of fewer than 2 ^ 30 bytes and a binary search as the
-- library promises it, the analysis ends, and `find_jumpdest` of a position gives, if the
-- position is that of a JUMPDEST outside of push values, the number that a separate count of the
-- instructions gives for it, where an instruction stands that starts a block, and -1 if not.
pub analyze-find_jumpdest :
    (opt : ℕ → OpTableEntry) (rev : ℕ) (code : List ℕ) (lower_bound : List ℤ → ℤ → ℕ) (v : ℤ)
    → rev < 12
    → length code < 2 ^ 30
    → IsLowerBound lower_bound
    → (s : Progress) × (analyze opt rev code ≡ some s)
      × Finds (is_destination code v) code s v (find_jumpdest lower_bound s v)
analyze-find_jumpdest opt rev code lower_bound v recent short contract =
    let (s, w, jumps) = analyze-Jumps opt rev code lower_bound recent short contract in
    (s, w, found s jumps v)
  where
    found :
        (s : Progress)
        → Jumps lower_bound code s
        → (v : ℤ) → Finds (is_destination code v) code s v (find_jumpdest lower_bound s v)
    found s (hit, miss) (negsuc p) = miss (negsuc p) (λ q e. absurd (cc))
    found s (hit, miss) (pos p) = elim (Bool-cases (member p (destinations code))) [
      | inl e ↦ rw e (hit p e)
      | inr e ↦ rw e (
          miss (pos p) (λ q same. ap (λ k. member (pos_part k) (destinations code)) (sym same) ∙ e))
    ]

get_or-int32 : (xs : List ℕ) (i : ℕ) → get_or (map int32 xs) i (pos 0) ≡ int32 (get_or xs i 0)
get_or-int32 [] i = refl
get_or-int32 (x ∷ xs) zero = refl
get_or-int32 (x ∷ xs) (suc i) = get_or-int32 xs i

int32_pos : (n p : ℕ) → int32 n ≡ pos p → (p ≡ n % 2 ^ 32) × (p < 2 ^ 31)
int32_pos n p e = split (ltb (n % 2 ^ 32) (2 ^ 31)) refl e
  where
    split :
        (c : Bool)
        → ltb (n % 2 ^ 32) (2 ^ 31) ≡ c
        → (if c then pos (n % 2 ^ 32) else negsuc (2 ^ 32 - 1 - n % 2 ^ 32)) ≡ pos p
        → (p ≡ n % 2 ^ 32) × (p < 2 ^ 31)
    split true h e =
        let g : n % 2 ^ 32 ≡ p = ap pos_part e in
        let lt : n % 2 ^ 32 < 2 ^ 31 = ground arith in (sym g, omega arith)
    split false h e = absurd (cc)

destination_small :
    (code : List ℕ) (p : ℕ)
    → length code < 2 ^ 30
    → member p (destinations code) ≡ true
    → p < 2 ^ 31
destination_small code p short h =
    let xs = destinations code in
    let (i, lt, e) = member_index p xs h in
    let same = ap (λ t. get_or t i (pos 0)) (int32_destinations 0 0 code (omega arith)) in
    let at : int32 p ≡ pos p =
      ap int32 (sym e) ∙ sym (get_or-int32 xs i) ∙ same ∙ get_or-pos xs i ∙ ap pos e in
    (int32_pos p p at).1

-- A jump lands at the start of the block of the position, or ends the run.
abbrev pub Lands : Bool → List ℕ → ℕ → Progress → Next → Type 0
Lands true code p s next = (n : ℕ) × (next ≡ instruction n) × IsTarget code p s n
Lands false code p s next = next ≡ null

cast_hit : (w d : ℕ) → d ≡ w % 2 ^ 32 → d < 2 ^ 31 → int32 w ≡ pos d
cast_hit w d e lt = ground arith

jump_to-hit :
    (d n : ℕ) (astate : AdvancedExecutionState)
    → d < 2 ^ 31
    → jump_to (pos d) (pos n) astate ≡ (instruction n, astate)
jump_to-hit d n astate lt = ground arith

jump_to-miss :
    (v : ℤ) (astate : AdvancedExecutionState) → jump_to v (negsuc 0) astate ≡ (null, astate)
jump_to-miss v astate = ground arith

jump_to-state : (v pc : ℤ) (astate : AdvancedExecutionState) → (jump_to v pc astate).1 ≡ astate
jump_to-state v pc astate = ground arith

-- The stack without its top item.
pub popped_lem :
    (stack : Stack) (t : ℕ) (rest : List ℕ)
    → Holds stack (t ∷ rest)
    → IsWord256 (item stack.space stack.top_item)
      × (value256 (item stack.space stack.top_item) ≡ t)
      × Holds (stack_pop stack).1 rest
popped_lem stack t rest ((space, top), e) =
    let (n, k, v, r) = held_one stack.space stack.top_item t rest e in
    let e1 : stack.top_item - 1 ≡ n = omega arith in
    (space.1 (stack.top_item - 1), rw e1 v, ((space, omega arith), rw e1 r))

low_word : (x : Uint256) → IsWord256 x → value256 x % 2 ^ 32 ≡ x.lower.lower % 2 ^ 32
low_word x h = omega arith

module _ (lower_bound : List ℤ → ℤ → ℕ) (code : List ℕ) (short : length code < 2 ^ 30) where
  jump_lem :
      (s : Progress) (instr : ℕ) (astate : AdvancedExecutionState) (t : ℕ) (rest : List ℕ)
      → Jumps lower_bound code s
      → Holds astate.stack (t ∷ rest)
      → Lands
          (member (t % 2 ^ 32) (destinations code))
          code
          (t % 2 ^ 32)
          s
          (op_jump lower_bound s instr astate).0
        × Holds (op_jump lower_bound s instr astate).1.stack rest
        × ((op_jump lower_bound s instr astate).1.status ≡ astate.status)
  unfolding op_jump
  jump_lem s instr astate t rest (hit, miss) holds =
      let (word, v, popped) = popped_lem astate.stack t rest holds in
      let dst = item astate.stack.space astate.stack.top_item in
      let low : t % 2 ^ 32 ≡ dst.lower.lower % 2 ^ 32 =
        ap (λ k. k % 2 ^ 32) (sym v) ∙ low_word dst word in
      let after = with_stack (stack_pop astate.stack).1 astate in
      let dst_ = int32 dst.lower.lower in
      let same = jump_to-state dst_ (find_jumpdest lower_bound s dst_) after in
      (
        elim (Bool-cases (member (t % 2 ^ 32) (destinations code))) [
          | inl h ↦
              let small = destination_small code (t % 2 ^ 32) short h in
              let (n, found, start) = hit (t % 2 ^ 32) h in
              let cast = cast_hit dst.lower.lower (t % 2 ^ 32) low small in
              let step : jump_to dst_ (find_jumpdest lower_bound s dst_) after
                  ≡ (instruction n, after) =
                rw (cast, found) (jump_to-hit (t % 2 ^ 32) n after small) in
              rw h (n, ap (λ k. k.0) step, start)
          | inr h ↦
              let found = miss dst_ (λ p e.
                ap (λ k. member k (destinations code)) ((int32_pos dst.lower.lower p e).0 ∙ sym low)
                ∙ h) in
              rw h
                (ap (λ k. (jump_to dst_ k after).0) found ∙ ap (λ k. k.0) (jump_to-miss dst_ after))
        ],
        rw same popped,
        rw same,
      )

-- A conditional jump goes on behind, or jumps.
abbrev pub Branches : Bool → Bool → List ℕ → ℕ → ℕ → Progress → Next → Type 0
Branches true is code p instr s next = next ≡ instruction (instr + 1)
Branches false is code p instr s next = Lands is code p s next

module _ (opt : ℕ → OpTableEntry) (rev : ℕ) (code : List ℕ) (lower_bound : List ℤ → ℤ → ℕ) where
  -- For a revision before Cancun, a code of fewer than 2 ^ 30 bytes, a binary search as the
  -- library promises it and a well-formed stack with a top number: the analysis ends, and if the
  -- top number modulo 2 ^ 32 is the position of a JUMPDEST outside of push values, JUMP goes to
  -- the block start with the number that a separate count of the instructions gives for this
  -- position, and else it ends the run; the rest of the stack stays, and the status of the state
  -- is the one before in both cases.
  pub op_jump-Lands :
      (instr : ℕ) (astate : AdvancedExecutionState) (t : ℕ) (rest : List ℕ)
      → rev < 12
      → length code < 2 ^ 30
      → IsLowerBound lower_bound
      → Holds astate.stack (t ∷ rest)
      → (s : Progress) × (analyze opt rev code ≡ some s)
        × Lands
            (member (t % 2 ^ 32) (destinations code))
            code
            (t % 2 ^ 32)
            s
            (op_jump lower_bound s instr astate).0
        × Holds (op_jump lower_bound s instr astate).1.stack rest
        × ((op_jump lower_bound s instr astate).1.status ≡ astate.status)
  op_jump-Lands instr astate t rest recent short contract holds =
      let (s, w, jumps) = analyze-Jumps opt rev code lower_bound recent short contract in
      let (lands, after, same) =
        jump_lem lower_bound code short s instr astate t rest jumps holds in
      (s, w, lands, after, same)

  -- For a revision before Cancun, a code of fewer than 2 ^ 30 bytes, a binary search as the
  -- library promises it and a well-formed stack of two numbers or more: the analysis ends, and
  -- JUMPI goes on to the next instruction if the second number is 0, and if not it goes to the
  -- block start of the position, the instruction with the number that a separate count gives, or
  -- ends the run, as JUMP does; both numbers are gone and the status of the state is the one
  -- before.
  pub op_jumpi-Branches :
      (instr : ℕ) (astate : AdvancedExecutionState) (t c : ℕ) (rest : List ℕ)
      → rev < 12
      → length code < 2 ^ 30
      → IsLowerBound lower_bound
      → Holds astate.stack (t ∷ c ∷ rest)
      → (s : Progress) × (analyze opt rev code ≡ some s)
        × Branches
            (c == 0)
            (member (t % 2 ^ 32) (destinations code))
            code
            (t % 2 ^ 32)
            instr
            s
            (op_jumpi lower_bound s instr astate).0
        × Holds (op_jumpi lower_bound s instr astate).1.stack rest
        × ((op_jumpi lower_bound s instr astate).1.status ≡ astate.status)
  unfolding op_jumpi
  op_jumpi-Branches instr astate t c rest recent short contract holds =
      let (s, w, jumps) = analyze-Jumps opt rev code lower_bound recent short contract in
      let (word, v, popped) = popped_lem astate.stack t (c ∷ rest) holds in
      let (word', v', popped') = popped_lem (stack_pop astate.stack).1 c rest popped in
      let zero : zero256 (stack_get astate.stack 1) ≡ (c == 0) =
        zero256_lem (stack_get astate.stack 1) ∙ ap (λ k. k == 0) v' in
      elim (Bool-cases (c == 0)) [
        | inl e ↦ rw (zero, e) (s, w, refl, popped', refl)
        | inr e ↦
            let (lands, after, same) =
              jump_lem lower_bound code short s instr astate t (c ∷ rest) jumps holds in
            let (word2, v2, popped2) =
              popped_lem (op_jump lower_bound s instr astate).1.stack c rest after in
            rw (zero, e) (s, w, lands, popped2, same)
      ]
