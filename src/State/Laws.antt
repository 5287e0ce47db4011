-- ===== src/State/Laws.antt =====
-- The checks for memory of include/instructions.h, on well-formed states.
use native.Mathlib.Decide.{dec_lt}
use tsc_vee.Base.{
  ℕ, ◌+◌, ◌-◌, ◌*◌, ◌/◌, ◌^◌, ◌≤◌, ◌<◌, ◌≡◌, ◌⊎◌, inl, inr, List, get_or, Option, some, true, false,
  Bool-cases, ltb, u64, arith,
}
use tsc_vee.Base.Bits.{bit_or_three}
use tsc_vee.Base.Int.{pos, sub_ℕ, ltb_ℤ}
use tsc_vee.Uint256.{Uint256}
use tsc_vee.Uint256.Value.{value256, IsWord256}
use tsc_vee.Memory.{Memory}
use tsc_vee.Memory.Laws.{IsMemory, Reallocated, memory_grow_lem}
use tsc_vee.State.{
  ExecutionState, num_words, words_cost, charge, too_far, grow_memory, check_memory_u64,
}

-- `too_far` asks whether the number is above 2 ^ 32 - 1.
pub too_far_lem :
    (offset : Uint256) → IsWord256 offset → too_far offset ≡ ltb (2 ^ 32 - 1) (value256 offset)
too_far_lem offset h =
    ground (arith, bit_or_three offset.upper.upper offset.lower.upper offset.upper.lower)

-- The state after the price of growing to `size` bytes is taken.
abbrev pub charged : ExecutionState → ℕ → ExecutionState
charged state size =
    charge (sub_ℕ (words_cost (num_words size)) (words_cost (state.memory.m_size / 32))) state

-- The memory `m'` is `m` grown to whole words that hold `size` bytes, the bytes of `m` and zeros.
abbrev pub Grows : Memory → Memory → ℕ → Type 0
Grows m m' size =
    IsMemory m'
    × ((size ≤ m'.m_size) × (m'.m_size < size + 32))
    × ((i : ℕ) → i < m.m_size → get_or m'.m_data i 0 ≡ get_or m.m_data i 0)
    × ((i : ℕ) → m.m_size ≤ i → i < m'.m_size → get_or m'.m_data i 0 ≡ 0)

module _ (realloc : List ℕ → ℕ → Option (List ℕ))
    (allocates : (bytes : List ℕ) (n : ℕ) → Reallocated realloc bytes n) where
  -- Paying for a larger size fails without touching the memory when the gas goes below 0, and else
  -- grows the memory.
  pub grow_memory_lem :
      (state : ExecutionState) (size : ℕ)
      → IsMemory state.memory
      → state.memory.m_size < size
      → size < 2 ^ 60
      → ((ltb_ℤ (charged state size).gas_left (pos 0) ≡ true)
          × (grow_memory realloc state size ≡ some (false, charged state size)))
        ⊎ ((ltb_ℤ (charged state size).gas_left (pos 0) ≡ false)
            × ((m' : Memory) × (grow_memory realloc state size
                  ≡ some (true, record { gas_left = (charged state size).gas_left; memory = m' }))
                × Grows state.memory m' size))
  unfolding grow_memory
  grow_memory_lem state size h more lt =
      elim (Bool-cases (ltb_ℤ (charged state size).gas_left (pos 0))) [
        | inl poor ↦ inl (poor, rw poor)
        | inr rich ↦
            let words : num_words size * 32 < size + 32 = omega arith in
            let enough : size ≤ num_words size * 32 = omega arith in
            let (m', e, is, to, same, zeros) =
              memory_grow_lem realloc allocates state.memory (num_words size * 32) h (omega arith)
                (omega arith) (omega arith) in
            inr (
              rich,
              (
                m',
                rw rich (rw e),
                (is, (omega arith, omega arith), same, λ i from below. zeros i from (omega arith)),
              ),
            )
      ]

  -- An access inside of the memory passes and changes nothing.
  pub check_inside :
      (state : ExecutionState) (offset : Uint256) (size : ℕ)
      → IsWord256 offset
      → size < 2 ^ 32
      → value256 offset < 2 ^ 32
      → value256 offset + size ≤ state.memory.m_size
      → check_memory_u64 realloc state offset size ≡ some (true, state)
  unfolding check_memory_u64
  check_inside state offset size w small near inside =
      let e : too_far offset ≡ false = ground (arith, too_far_lem offset w) in
      let low : u64 (offset.lower.lower + size) ≡ value256 offset + size = omega arith in
      let within : ltb state.memory.m_size (value256 offset + size) ≡ false = ground arith in
      rw e (rw low (rw within))

  -- With an allocator that has room, a well-formed memory, an offset of 64-bit words and fewer
  -- than 2 ^ 32 bytes, `check_memory_u64` has four outcomes: an offset of 2 ^ 32 or more is
  -- refused; an access inside of the memory changes nothing; else the growth is charged and the
  -- access refused if the gas goes below 0, and if not the memory grows to the whole words that
  -- hold the access, well-formed, its bytes kept and zeros behind them.
  pub check_memory_u64_lem :
      (state : ExecutionState) (offset : Uint256) (size : ℕ)
      → IsMemory state.memory
      → IsWord256 offset
      → size < 2 ^ 32
      → ((2 ^ 32 ≤ value256 offset)
          × (check_memory_u64 realloc state offset size ≡ some (false, state)))
        ⊎ ((value256 offset < 2 ^ 32)
            × (value256 offset + size ≤ state.memory.m_size)
            × (check_memory_u64 realloc state offset size ≡ some (true, state)))
        ⊎ ((value256 offset < 2 ^ 32)
            × (ltb_ℤ (charged state (value256 offset + size)).gas_left (pos 0) ≡ true)
            × (check_memory_u64 realloc state offset size
                ≡ some (false, charged state (value256 offset + size))))
        ⊎ ((value256 offset < 2 ^ 32)
            × (ltb_ℤ (charged state (value256 offset + size)).gas_left (pos 0) ≡ false)
            × ((m' : Memory) × (check_memory_u64 realloc state offset size
                  ≡ some (
                    true,
                    record {
                      gas_left = (charged state (value256 offset + size)).gas_left;
                      memory = m';
                    },
                  ))
                × Grows state.memory m' (value256 offset + size)))
  unfolding check_memory_u64
  check_memory_u64_lem state offset size h w small = elim (dec_lt (value256 offset) (2 ^ 32)) [
    | no far ↦
        let e : too_far offset ≡ true = ground (arith, too_far_lem offset w) in
        inl (omega arith, rw e)
    | yes near ↦
        let e : too_far offset ≡ false = ground (arith, too_far_lem offset w) in
        let low : u64 (offset.lower.lower + size) ≡ value256 offset + size = omega arith in
        elim (Bool-cases (ltb state.memory.m_size (value256 offset + size))) [
          | inr inside ↦
              let fits : value256 offset + size ≤ state.memory.m_size = ground arith in
              inr (inl (near, fits, check_inside state offset size w small near fits))
          | inl outside ↦
              elim (grow_memory_lem state (value256 offset + size) h (ground arith) (omega arith)) [
                | inl (poor, r) ↦ inr (inr (inl (near, poor, rw e (rw low (rw outside r)))))
                | inr (rich, (m', r, g)) ↦
                    inr (inr (inr (near, rich, (m', rw e (rw low (rw outside r)), g))))
              ]
        ]
  ]
