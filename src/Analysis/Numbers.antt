-- ===== src/Analysis/Numbers.antt =====
-- Which instruction starts the block of a jump destination, by a definition that counts instructions
-- and knows nothing of the vectors of `analyze`, and what `analyze` records.
use native.Mathlib.Decide.{dec_lt}
use tsc_vee.Base.{
  ℕ, zero, suc, ◌+◌, ◌-◌, ◌*◌, ◌^◌, ◌≤◌, ◌<◌, ◌≡◌, refl, sym, ap, ap₂, ◌∙◌, min, Bool, true, false,
  not, ◌&&◌, ◌||◌, if◌then◌else◌, ◌==◌, ==_iff, List, [], ◌∷◌, ◌++◌, length, length-append, drop,
  get_or, get_or-append_left, get_or-append_right, some, arith,
}
use tsc_vee.Base.Int.{ℤ, pos, negsuc}
use tsc_vee.Opcode
use tsc_vee.Bytes.{byte_at}
use tsc_vee.Block.{OpTableEntry}
use tsc_vee.Dispatch.{InstructionFn, OpTableSlot, get_op_table}
use tsc_vee.Analysis.{
  Progress, next_pos, analyze_body, analyze_start, analyze_end, analyze_loop, analyze, int32,
  ends_block,
}
use tsc_vee.Analysis.Code.{drop_at, drop_all, analyze_loop_lem, next_pos_lem}
use tsc_vee.Analysis.Jumpdests.{push_length, next_skips}
use tsc_vee.Analysis.Targets.{fns, length-fns, fns-body, after_one, after_end, int32_small}

-- STOP, JUMP, JUMPI, RETURN, REVERT and SELFDESTRUCT end a block.
abbrev pub closes : ℕ → Bool
closes b = b == 0x56 || b == 0x57 || b == 0x00 || b == 0xf3 || b == 0xfd || b == 0xff

-- The number of instructions behind the byte `b`: every instruction but JUMPDEST is one, and so is the
-- start of the block that follows an instruction that ends one, or that a JUMPDEST begins which does
-- not stand directly behind such an instruction (`fresh`).
abbrev pub advance : ℕ → Bool → ℕ → ℕ
advance b fresh n =
    if b == 0x5b then if fresh then n else n + 1 else if closes b then n + 2 else n + 1

-- The number of the block start for the JUMPDEST that is `d` bytes ahead, where `n` instructions
-- precede and `skip` bytes belong to the value of a push.
abbrev pub block_number : ℕ → ℕ → Bool → ℕ → List ℕ → ℕ
block_number skip d fresh n [] = n
block_number skip zero fresh n (b ∷ code) = if fresh then n - 1 else n
block_number zero (suc d) fresh n (b ∷ code) =
    block_number (push_length b) d (closes b) (advance b fresh n) code
block_number (suc skip) (suc d) fresh n (b ∷ code) = block_number skip d fresh n code

-- The code begins behind the start of its first block.
abbrev pub number_of : List ℕ → ℕ → ℕ
number_of code p = block_number 0 p true 1 code

-- The targets of a list of offsets are the numbers of these positions.
abbrev pub Numbered : (ℕ → ℕ) → List ℤ → List ℤ → Type 0
Numbered number offsets targets =
    (length targets ≡ length offsets)
    × ((i : ℕ)
        → i < length targets
        → (q : ℕ) × (get_or offsets i (pos 0) ≡ pos q)
          × (get_or targets i (negsuc 0) ≡ pos (number q)))

snoc-Numbered :
    (number : ℕ → ℕ) (offsets targets : List ℤ) (p : ℕ)
    → Numbered number offsets targets
    → Numbered number (offsets ++ (pos p ∷ [])) (targets ++ (pos (number p) ∷ []))
snoc-Numbered number offsets targets p (lens, h) = (
  omega (
    arith,
    lens,
    length-append offsets (pos p ∷ []),
    length-append targets (pos (number p) ∷ []),
  ),
  λ i lt. elim (dec_lt i (length targets)) [
    | yes below ↦
        let (q, o, t) = h i below in
        (
          q,
          get_or-append_left offsets _ i (pos 0) (omega (arith, lens)) ∙ o,
          get_or-append_left targets _ i (negsuc 0) below ∙ t,
        )
    | no ge ↦
        let last : i ≡ length targets =
          omega (arith, length-append targets (pos (number p) ∷ []), lt, ge) in
        (
          p,
          ap (λ t. get_or (offsets ++ (pos p ∷ [])) t (pos 0)) (last ∙ lens)
              ∙ get_or-append_right offsets (pos p ∷ []) (pos 0),
          ap (λ t. get_or (targets ++ (pos (number p) ∷ [])) t (negsuc 0)) last
              ∙ get_or-append_right targets (pos (number p) ∷ []) (negsuc 0),
        )
  ],
)

module _ (code : List ℕ) where
  -- The bytes of a push value are passed.
  skipped :
      (k p q x n : ℕ) (fresh : Bool)
      → p ≤ length code
      → q ≡ min (p + k) (length code)
      → q ≤ x
      → block_number k (x - p) fresh n (drop p code) ≡ block_number 0 (x - q) fresh n (drop q code)
  skipped zero p q x n fresh le e far =
      let same : p ≡ q = omega arith in ap (λ t. block_number 0 (x - t) fresh n (drop t code)) same
  skipped (suc k) p q x n fresh le e far = elim (dec_lt p (length code)) [
    | no ge ↦ let same : q ≡ p = omega arith in rw same (rw (drop_all code p (omega arith)) refl)
    | yes lt ↦
        let one : x - p ≡ suc (x - suc p) = omega arith in
        rw (drop_at code p lt, one) (skipped k (suc p) q x n fresh lt (omega arith) far)
  ]

  -- A JUMPDEST stands at the position.
  abbrev at_jumpdest : ℕ → Bool
  at_jumpdest p = not (p == length code) && byte_at code p == Opcode.op_jumpdest

  module _ (table : ℕ → OpTableSlot) (short : length code < 2 ^ 30) where
    number-step :
        (p x n : ℕ) (fresh : Bool)
        → p < length code
        → next_pos table code (byte_at code p) p ≤ x
        → block_number 0 (x - p) fresh n (drop p code) ≡ (
            let b = byte_at code p in
            let q = next_pos table code b p in
            block_number 0 (x - q) (closes b) (advance b fresh n) (drop q code))
    number-step p x n fresh lt far =
        let b = byte_at code p in
        let (forward, within) = next_pos_lem table code b p lt in
        let one : x - p ≡ suc (x - suc p) = omega arith in
        rw (drop_at code p lt, one)
          (skipped (push_length b) (suc p) (next_pos table code b p) x (advance b fresh n)
            (closes b) lt (next_skips code table b p lt) far)

    -- The count of the definition against the length of the vector, which has the start of the block
    -- of the next JUMPDEST already.
    abbrev Counted : ℕ → ℕ → Type 0
    Counted p len =
        (n : ℕ) × (fresh : Bool) × (len ≡ n + (if not fresh && at_jumpdest p then 1 else 0))
        × (1 ≤ n)
        × ((x : ℕ) → p ≤ x → block_number 0 (x - p) fresh n (drop p code) ≡ number_of code x)

    count_lem :
        (jumpdest close next fresh : Bool) (len n : ℕ)
        → (jumpdest ≡ true → close ≡ false)
        → len ≡ n + (if not fresh && jumpdest then 1 else 0)
        → (len + (if jumpdest then 0 else 1)) + (if close || next then 1 else 0)
          ≡ (if jumpdest then if fresh then n else n + 1 else if close then n + 2 else n + 1)
            + (if not close && next then 1 else 0)
    count_lem jumpdest close next fresh len n h e = ground arith

    more_lem :
        (jumpdest close fresh : Bool) (n : ℕ)
        → 1 ≤ n
        → 1 ≤ (if jumpdest then if fresh then n else n + 1 else if close then n + 2 else n + 1)
    more_lem jumpdest close fresh n h = ground arith

    length-after :
        (fs : List InstructionFn) (b q : ℕ)
        → length (
            after_end table code short
              (ends_block table code b q)
              (after_one table code short b fs))
          ≡ (length fs + (if b == Opcode.op_jumpdest then 0 else 1))
            + (if closes b || at_jumpdest q then 1 else 0)
    unfolding ends_block
    length-after fs b q = split (b == Opcode.op_jumpdest) (closes b || at_jumpdest q)
      where
        one :
            (c : Bool) (xs ys : List InstructionFn)
            → length ys ≡ 1
            → length (if c then xs ++ ys else xs) ≡ length xs + (if c then 1 else 0)
        one true xs ys e = omega (arith, length-append xs ys)
        one false xs ys e = omega arith

        none :
            (c : Bool) (xs ys : List InstructionFn)
            → length ys ≡ 1
            → length (if c then xs else xs ++ ys) ≡ length xs + (if c then 0 else 1)
        none true xs ys e = omega arith
        none false xs ys e = omega (arith, length-append xs ys)

        split :
            (c d : Bool)
            → length (after_end table code short d (if c then fs else fs ++ ((table b).fn ∷ [])))
              ≡ (length fs + (if c then 0 else 1)) + (if d then 1 else 0)
        split c d =
            one d (if c then fs else fs ++ ((table b).fn ∷ [])) _ refl
            ∙ ap (λ t. t + (if d then 1 else 0)) (none c fs ((table b).fn ∷ []) refl)

    abbrev Sound : Progress → Type 0
    Sound s =
        Numbered (number_of code) s.jumpdest_offsets s.jumpdest_targets
        × Counted s.code_pos (length (fns s.instrs))
        × (length (fns s.instrs) ≤ 2 * s.code_pos + 1)

    small_lem :
        (jumpdest other : Bool) (len p q : ℕ)
        → len ≤ 2 * p + 1
        → p < q
        → (len + (if jumpdest then 0 else 1)) + (if other then 1 else 0) ≤ 2 * q + 1
    small_lem jumpdest other len p q h lt = ground arith

    -- The target that is recorded at a JUMPDEST.
    target_lem :
        (p len : ℕ)
        → p < length code
        → byte_at code p ≡ Opcode.op_jumpdest
        → len ≤ 2 * p + 1
        → Counted p len
        → int32 (len - 1) ≡ pos (number_of code p)
    target_lem p len lt is small (n, fresh, e, some_n, counts) =
        let jd : at_jumpdest p ≡ true = ground arith in
        let none : p - p ≡ 0 = omega arith in
        let here : (if fresh then n - 1 else n) ≡ number_of code p =
          sym (ap₂ (λ d c. block_number 0 d fresh n c) none (drop_at code p lt))
          ∙ counts p (omega arith) in
        int32_small (len - 1) (omega arith) ∙ ap pos (last fresh jd e some_n ∙ here)
      where
        last :
            (f : Bool) {c : Bool} {n : ℕ}
            → c ≡ true
            → len ≡ n + (if not f && c then 1 else 0)
            → 1 ≤ n
            → len - 1 ≡ (if f then n - 1 else n)
        last f h e some_n = ground arith

    next-Counted :
        (p len : ℕ)
        → p < length code
        → Counted p len
        → (let b = byte_at code p in
            let q = next_pos table code b p in
            Counted q (
              (len + (if b == Opcode.op_jumpdest then 0 else 1))
              + (if closes b || at_jumpdest q then 1 else 0)))
    next-Counted p len lt (n, fresh, e, some_n, counts) =
        let b = byte_at code p in
        let q = next_pos table code b p in
        let jd : at_jumpdest p ≡ (b == Opcode.op_jumpdest) = ground arith in
        (
          advance b fresh n,
          closes b,
          count_lem (b == Opcode.op_jumpdest) (closes b) (at_jumpdest q) fresh len n
              (λ h. let is = (==_iff b Opcode.op_jumpdest).0 h in rw is refl)
              (e ∙ ap (λ t. n + (if not fresh && t then 1 else 0)) jd),
          more_lem (b == Opcode.op_jumpdest) (closes b) fresh n some_n,
          λ x far.
              sym (number-step p x n fresh lt far)
              ∙ counts x (omega (arith, next_pos_lem table code b p lt)),
        )

    keeps : (s : Progress) → s.code_pos < length code → Sound s → Sound (analyze_body table code s)
    unfolding analyze_body
    keeps s lt (numbered, counted, small) =
        let b = byte_at code s.code_pos in
        let q = next_pos table code b s.code_pos in
        let len = length (fns s.instrs) in
        let grown = ap length (fns-body table code short s) ∙ length-after (fns s.instrs) b q in
        (
          recorded (b == Opcode.op_jumpdest)
              (λ h.
                ap (λ t. int32 (t - 1)) (sym (length-fns s.instrs))
                ∙ target_lem s.code_pos len lt ((==_iff b Opcode.op_jumpdest).0 h) small counted)
              numbered,
          rw grown (next-Counted s.code_pos len lt counted),
          rw grown (
              small_lem (b == Opcode.op_jumpdest) (closes b || at_jumpdest q) len s.code_pos q small
                (next_pos_lem table code b s.code_pos lt).0),
        )
      where
        recorded :
            (c : Bool)
            → (c ≡ true → int32 (length s.instrs - 1) ≡ pos (number_of code s.code_pos))
            → Numbered (number_of code) s.jumpdest_offsets s.jumpdest_targets
            → Numbered
                (number_of code)
                (if c then s.jumpdest_offsets ++ (int32 s.code_pos ∷ []) else s.jumpdest_offsets)
                (if c
                  then s.jumpdest_targets ++ (int32 (length s.instrs - 1) ∷ [])
                  else s.jumpdest_targets)
        recorded true h numbered =
            rw (h refl, int32_small s.code_pos (omega arith))
              (snoc-Numbered (number_of code) s.jumpdest_offsets s.jumpdest_targets s.code_pos
                numbered)
        recorded false h numbered = numbered

from_0 : (x : ℕ) → x - 0 ≡ x
from_0 x = omega arith

-- Each recorded target is the number that the definition gives for its offset.
pub analyze_numbers :
    (opt : ℕ → OpTableEntry) (rev : ℕ) (code : List ℕ)
    → length code < 2 ^ 30
    → (s : Progress) × (analyze opt rev code ≡ some s)
      × Numbered (number_of code) s.jumpdest_offsets s.jumpdest_targets
unfolding analyze analyze_loop analyze_end
analyze_numbers opt rev code short =
    let table = get_op_table opt rev in
    let bump : 1 ≡ 1 + (if not true && at_jumpdest code 0 then 1 else 0) = refl in
    let (s, w, at, (numbered, counted, small)) =
      analyze_loop_lem table code (Sound code table short) (keeps code table short)
        (suc (length code)) (analyze_start table code) (omega arith) (omega arith)
        (
          (refl, λ i lt. absurd (omega arith)),
          (1, true, bump, omega arith, λ x far. ap (λ d. block_number 0 d true 1 code) (from_0 x)),
          omega arith,
        ) in
    (analyze_end table code s, rw w, numbered)
