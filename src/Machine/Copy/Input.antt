-- ===== src/Machine/Copy/Input.antt =====
-- CALLDATACOPY on a well-formed memory.
use native.Mathlib.Decide.{dec_lt}
use tsc_vee.Base.{
  ℕ, ◌+◌, ◌-◌, ◌*◌, ◌^◌, ◌≤◌, ◌<◌, ◌≡◌, ◌⊎◌, Bool, Bool-cases, inl, inr, refl, sym, ap, ap₂, ◌∙◌,
  if◌then◌else◌, ◌==◌, List, length, Option, some, true, false, arith,
}
use tsc_vee.Base.Int.{pos, ltb_ℤ}
use tsc_vee.Status.{evmc_success, evmc_out_of_gas}
use tsc_vee.Uint256.{Uint256, zero256}
use tsc_vee.Uint256.Value.{value256, IsWord256}
use tsc_vee.Uint256.Sum.{zero256_lem}
use tsc_vee.Bytes.{byte_at}
use tsc_vee.Stack.{item}
use tsc_vee.Memory.{Memory}
use tsc_vee.Memory.Laws.{IsMemory, Reallocated}
use tsc_vee.State.{ExecutionState, check_memory_u256, check_memory_u64, num_words, too_far}
use tsc_vee.State.Laws.{check_memory_u64_lem, charged, too_far_lem}
use tsc_vee.Machine.{Machine, Result, estate, with_estate, charge_gas, pay_then, check_u256_then}
use tsc_vee.Machine.Copy.{copied, calldatacopy}
use tsc_vee.Machine.Copy.Laws.{after, copy_to_memory_lem, copy_inside, copy_outside, copy-IsMemory}

-- The memory `m'` has `s` bytes of the source from `index` on at `dst`, and else those of `m`.
abbrev pub HasCopy : List ℕ → ℕ → ℕ → ℕ → Memory → Memory → Type 0
HasCopy source dst index s m m' =
    IsMemory m'
    × ((i : ℕ) → i < s → byte_at m'.m_data (dst + i) ≡ byte_at source (index + i))
    × ((i : ℕ)
        → i < m.m_size
        → (i < dst) ⊎ (dst + s ≤ i)
        → byte_at m'.m_data i ≡ byte_at m.m_data i)

none_left : (x : Uint256) → zero256 x ≡ true → x.lower.lower ≡ 0
none_left x e = let is : (value256 x == 0) ≡ true = sym (zero256_lem x) ∙ e in ground arith

module _ {A : Type 0} where
  -- An instruction copies, or runs out of gas with the bytes of before, for an offset that is too
  -- large or with gas below 0.
  abbrev pub Copies : List ℕ → Uint256 → ℕ → ℕ → Machine A → Result A → Type 0
  Copies source offset index s m result =
      ((after : Machine A) × (result ≡ some (evmc_success, after))
        × HasCopy source (value256 offset) index s m.memory after.memory
        × (ltb_ℤ after.gas_left (pos 0) ≡ false))
      ⊎ ((after : Machine A) × (result ≡ some (evmc_out_of_gas, after))
          × ((i : ℕ)
              → i < m.memory.m_size
              → byte_at after.memory.m_data i ≡ byte_at m.memory.m_data i)
          × ((2 ^ 32 ≤ value256 offset) ⊎ (ltb_ℤ after.gas_left (pos 0) ≡ true)))

  -- Behind the check, in a memory with the bytes of before that has room.
  copied-Copies :
      (source : List ℕ) (offset : Uint256) (dst index s : ℕ) (m m' : Machine A)
      → IsMemory m'.memory
      → (s ≡ 0) ⊎ ((dst ≡ value256 offset) × (dst + s ≤ m'.memory.m_size))
      → ((i : ℕ) → i < m.memory.m_size → byte_at m'.memory.m_data i ≡ byte_at m.memory.m_data i)
      → Copies source offset index s m (copied source dst index s m')
  unfolding pay_then
  copied-Copies source offset dst index s m m' is room same =
      let paid = charge_gas (pos (num_words s * 3)) m' in
      let fits : (s ≡ 0) ⊎ (dst + s ≤ length m'.memory.m_data) = elim room [
        | inl empty ↦ inl empty
        | inr (place, enough) ↦ inr (omega (arith, is.block, is.fits))
      ] in
      elim (Bool-cases (ltb_ℤ paid.gas_left (pos 0))) [
        | inl poor ↦ inr (paid, rw poor refl, same, inr poor)
        | inr rich ↦ inl (
          record paid { memory = after source dst index s paid.memory },
          rw rich (rw (copy_to_memory_lem source dst index s m'.memory fits) refl),
          (
            copy-IsMemory source dst index s m'.memory is,
            λ i lt. elim room [
              | inl none ↦ absurd (omega arith)
              | inr (place, enough) ↦
                  ap (λ t. byte_at (after source dst index s m'.memory).m_data (t + i)) (sym place)
                  ∙ copy_inside source dst index s m'.memory i lt (omega (arith, is.block, is.fits))
            ],
            λ i lt out.
                copy_outside source dst index s m'.memory i (elim room [
                  | inl none ↦ elim (dec_lt i dst) [ yes lt ↦ inl lt | no ge ↦ inr (omega arith) ]
                  | inr (place, enough) ↦ rw place out
                ])
                ∙ same i lt,
          ),
          rich,
        )
      ]

  module _ (realloc : List ℕ → ℕ → Option (List ℕ))
      (allocates : (bytes : List ℕ) (n : ℕ) → Reallocated realloc bytes n) where
    refused :
        (offset size : Uint256) (m : Machine A) (e : ExecutionState) (rest : Machine A → Result A)
        → check_memory_u256 realloc (estate m) offset size ≡ some (false, e)
        → check_u256_then realloc offset size m rest ≡ some (evmc_out_of_gas, with_estate e m)
    unfolding check_u256_then
    refused offset size m e rest c = rw c refl

    passed :
        (offset size : Uint256) (m : Machine A) (e : ExecutionState) (rest : Machine A → Result A)
        → check_memory_u256 realloc (estate m) offset size ≡ some (true, e)
        → check_u256_then realloc offset size m rest ≡ rest (with_estate e m)
    unfolding check_u256_then
    passed offset size m e rest c = rw c refl

    -- Behind a check that is not skipped.
    wide :
        (offset size : Uint256) (m : Machine A) (r : Option (Bool × ExecutionState))
        → zero256 size ≡ false
        → too_far offset ≡ false
        → check_memory_u64 realloc (estate m) offset size.lower.lower ≡ r
        → check_memory_u256 realloc (estate m) offset size ≡ r
    unfolding check_memory_u256
    wide offset size m r nonzero near e =
        ap₂
          (λ a b.
            if a
            then some (true, estate m)
            else if b
            then some (false, estate m)
            else check_memory_u64 realloc (estate m) offset size.lower.lower)
          nonzero near
        ∙ e

    skipped :
        (offset size : Uint256) (m : Machine A)
        → zero256 size ≡ true
        → check_memory_u256 realloc (estate m) offset size ≡ some (true, estate m)
    unfolding check_memory_u256
    skipped offset size m none = rw none refl

    too_far_refused :
        (offset size : Uint256) (m : Machine A)
        → zero256 size ≡ false
        → too_far offset ≡ true
        → check_memory_u256 realloc (estate m) offset size ≡ some (false, estate m)
    unfolding check_memory_u256
    too_far_refused offset size m nonzero far = rw nonzero (rw far refl)

    -- With an allocator that has room, a well-formed memory, and offset and size of 64-bit
    -- words, the size below 2 ^ 32, CALLDATACOPY has two outcomes: it succeeds with a
    -- well-formed memory that holds, at the offset, as many bytes of the input from the lowest
    -- 64-bit word of the index on, zeros behind its end, the bytes of before elsewhere, and with
    -- gas not below 0; or it runs out of gas with the bytes of before, for an offset of 2 ^ 32
    -- or more or with gas below 0.
    pub calldatacopy-Copies :
        (stack : ℕ) (space : List Uint256) (m : Machine A)
        → IsMemory m.memory
        → IsWord256 (item space stack)
        → IsWord256 (item space (stack - 2))
        → value256 (item space (stack - 2)) < 2 ^ 32
        → Copies m.msg.input
            (item space stack)
            (item space (stack - 1)).lower.lower
            (value256 (item space (stack - 2)))
            m
            (calldatacopy realloc stack space m)
    unfolding calldatacopy
    calldatacopy-Copies stack space m h wo ws small =
        let offset = item space stack in
        let size = item space (stack - 2) in
        let index = (item space (stack - 1)).lower.lower in
        let low : value256 size ≡ size.lower.lower = omega arith in
        let copy : Machine A → Result A =
          copied m.msg.input offset.lower.lower index size.lower.lower in
        let copies = copied-Copies m.msg.input offset offset.lower.lower index size.lower.lower m in
        let fails : (e : ExecutionState)
            → check_memory_u256 realloc (estate m) offset size ≡ some (false, e)
            → ((i : ℕ)
                → i < m.memory.m_size
                → byte_at e.memory.m_data i ≡ byte_at m.memory.m_data i)
            → (2 ^ 32 ≤ value256 offset) ⊎ (ltb_ℤ e.gas_left (pos 0) ≡ true)
            → Copies m.msg.input offset index (value256 size) m
                (calldatacopy realloc stack space m) =
          λ e c same why. inr (with_estate e m, refused offset size m e copy c, same, why) in
        let goes : (e : ExecutionState)
            → check_memory_u256 realloc (estate m) offset size ≡ some (true, e)
            → Copies m.msg.input offset index size.lower.lower m (copy (with_estate e m))
            → Copies m.msg.input offset index (value256 size) m
                (calldatacopy realloc stack space m) =
          λ e c k. rw (passed offset size m e copy c) (rw low k) in
        elim (Bool-cases (zero256 size)) [
          | inl none ↦
              goes (estate m) (skipped offset size m none)
                (copies m h (inl (none_left size none)) (λ i lt. refl))
          | inr nonzero ↦ elim (Bool-cases (too_far offset)) [
            | inl far ↦
                fails (estate m) (too_far_refused offset size m nonzero far) (λ i lt. refl)
                  (inl (ground (arith, too_far_lem offset wo)))
            | inr near ↦
                elim (check_memory_u64_lem realloc allocates (estate m) offset size.lower.lower h wo
                  (omega arith)) [
                    | inl (far, e) ↦
                        fails _ (wide offset size m _ nonzero near e) (λ i lt. refl) (inl far)
                    | inr (inl (close, inside, e)) ↦
                        goes _ (wide offset size m _ nonzero near e)
                          (copies m h (inr (omega arith, omega arith)) (λ i lt. refl))
                    | inr (inr (inl (close, poor, e))) ↦
                        fails _ (wide offset size m _ nonzero near e) (λ i lt. refl) (inr poor)
                    | inr (inr (inr (close, rich, (m', e, (is, (room, tight), kept, zeros))))) ↦
                        goes _ (wide offset size m _ nonzero near e) (
                          copies
                            (with_estate
                              (record {
                                gas_left =
                                    (charged (estate m)
                                      (value256 offset + size.lower.lower)).gas_left;
                                memory = m';
                              })
                              m)
                            is (inr (omega arith, omega arith)) kept)
                  ]
          ]
        ]
