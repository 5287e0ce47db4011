-- ===== src/Memory/Laws.antt =====
-- Well-formed memory, and `Memory_grow` of include/execution_state.h.
use native.Mathlib.Decide.{ℕ_discrete}
use tsc_vee.Base.{
  ℕ, zero, suc, ◌+◌, ◌-◌, ◌%◌, ◌^◌, ◌≤◌, ◌<◌, ◌≡◌, inl, inr, refl, sym, ap, ◌∙◌, List, set, length,
  get_or, length-set, get_or-set_self, get_or-set_ne, Option, some, true, false, Bool-cases, ltb,
  ◌==◌, lt→ltb, ==_iff, arith,
}
use tsc_vee.Memory.{
  Memory, memory_grow, allocate_capacity, grown_capacity, in_block, zero_bytes, fill_zero,
}

pub length-zero_bytes :
    (bytes : List ℕ) (start n : ℕ) → length (zero_bytes bytes start n) ≡ length bytes
unfolding zero_bytes
length-zero_bytes bytes start zero = refl
length-zero_bytes bytes start (suc n) =
    length-zero_bytes (set bytes start 0) (suc start) n ∙ length-set bytes start 0

pub zero_bytes_outside :
    (bytes : List ℕ) (start n i : ℕ)
    → i < start
    → get_or (zero_bytes bytes start n) i 0 ≡ get_or bytes i 0
unfolding zero_bytes
zero_bytes_outside bytes start zero i lt = refl
zero_bytes_outside bytes start (suc n) i lt =
    zero_bytes_outside (set bytes start 0) (suc start) n i (omega arith)
    ∙ get_or-set_ne bytes 0 0 (omega arith)

pub zero_bytes_inside :
    (bytes : List ℕ) (start n i : ℕ)
    → start ≤ i
    → i < start + n
    → start + n ≤ length bytes
    → get_or (zero_bytes bytes start n) i 0 ≡ 0
unfolding zero_bytes
zero_bytes_inside bytes start zero i le lt room = absurd (omega arith)
zero_bytes_inside bytes start (suc n) i le lt room = elim (ℕ_discrete start i) [
  | yes e ↦
      zero_bytes_outside (set bytes start 0) (suc start) n i (omega arith)
      ∙ ap (λ j. get_or (set bytes start 0) j 0) (sym e)
      ∙ get_or-set_self bytes start 0 0 (omega arith)
  | no ne ↦
      zero_bytes_inside (set bytes start 0) (suc start) n i (omega arith) (omega arith)
        (omega (arith, length-set bytes start 0))
]

pub fill_zero_lem :
    (bytes : List ℕ) (start n : ℕ)
    → start + n ≤ length bytes
    → fill_zero bytes start n ≡ some (zero_bytes bytes start n)
unfolding fill_zero
fill_zero_lem bytes start n room =
    let here : in_block bytes start n ≡ true = ground arith in rw here refl

-- The block has the capacity, the size fits it and is a whole number of words, a page is 4096 bytes,
-- and the capacity is far from the end of the address space.
pub record IsMemory (m : Memory) : Type 0 where
  pub block : length m.m_data ≡ m.m_capacity
  pub fits : m.m_size ≤ m.m_capacity
  pub whole : m.m_size % 32 ≡ 0
  pub page : m.page_size ≡ 4096
  pub small : m.m_capacity < 2 ^ 62

-- What a call of `TEE_Realloc` that succeeds returns: the block of the new length with the bytes of
-- the old one.
abbrev pub Reallocated : (List ℕ → ℕ → Option (List ℕ)) → List ℕ → ℕ → Type 0
Reallocated realloc bytes n =
    (new : List ℕ) × (realloc bytes n ≡ some new)
    × (length new ≡ n)
    × ((i : ℕ) → i < length bytes → i < n → get_or new i 0 ≡ get_or bytes i 0)

grown_capacity_lem :
    (m : Memory) (n : ℕ)
    → IsMemory m
    → n < 2 ^ 61
    → (n ≤ grown_capacity m n) × (m.m_capacity ≤ grown_capacity m n) × (grown_capacity m n < 2 ^ 62)
unfolding grown_capacity
grown_capacity_lem m n h lt = ground (arith, h.fits, h.page, h.small)

same_capacity :
    (m : Memory) (n : ℕ) → ltb m.m_capacity n ≡ false → grown_capacity m n ≡ m.m_capacity
unfolding grown_capacity
same_capacity m n e = rw e

module _ (realloc : List ℕ → ℕ → Option (List ℕ))
    (allocates : (bytes : List ℕ) (n : ℕ) → Reallocated realloc bytes n) where
  allocated :
      (m : Memory) (n : ℕ)
      → IsMemory m
      → n < 2 ^ 61
      → (new : List ℕ) × (allocate_capacity realloc m n ≡ some new)
        × (length new ≡ grown_capacity m n)
        × ((i : ℕ) → i < m.m_size → get_or new i 0 ≡ get_or m.m_data i 0)
  unfolding allocate_capacity
  allocated m n h lt = elim (Bool-cases (ltb m.m_capacity n)) [
    | inl more ↦
        let (new, e, len, same) = allocates m.m_data (grown_capacity m n) in
        let g = grown_capacity_lem m n h lt in
        (
          new,
          rw more e,
          len,
          λ i below. same i (omega (arith, h.block, h.fits)) (omega (arith, g, h.fits)),
        )
    | inr enough ↦ (m.m_data, rw enough, h.block ∙ sym (same_capacity m n enough), λ i below. refl)
  ]

  -- With an allocator that has room, growing a well-formed memory to a larger multiple of 32
  -- below 2 ^ 61 succeeds: the memory stays well-formed, has the new size, keeps its bytes, and
  -- holds zeros from the old size on.
  pub memory_grow_lem :
      (m : Memory) (n : ℕ)
      → IsMemory m
      → n % 32 ≡ 0
      → m.m_size < n
      → n < 2 ^ 61
      → (m' : Memory) × (memory_grow realloc m n ≡ some m')
        × IsMemory m'
        × (m'.m_size ≡ n)
        × ((i : ℕ) → i < m.m_size → get_or m'.m_data i 0 ≡ get_or m.m_data i 0)
        × ((i : ℕ) → m.m_size ≤ i → i < n → get_or m'.m_data i 0 ≡ 0)
  unfolding memory_grow
  memory_grow_lem m n h words more lt =
      let (new, e, len, same) = allocated m n h lt in
      let g = grown_capacity_lem m n h lt in
      let aligned : (n % 32 == 0) ≡ true = (==_iff (n % 32) 0).1 words in
      let bytes = zero_bytes new m.m_size (n - m.m_size) in
      (
        record {
          page_size = m.page_size;
          m_data = bytes;
          m_size = n;
          m_capacity = grown_capacity m n;
        },
        rw aligned (
            rw (lt→ltb m.m_size n more)
              (rw e (rw (fill_zero_lem new m.m_size (n - m.m_size) (omega (arith, len, g))) refl))),
        record {
          block = length-zero_bytes new m.m_size (n - m.m_size) ∙ len;
          fits = g.0;
          whole = words;
          page = h.page;
          small = g.2;
        },
        refl,
        λ i below. zero_bytes_outside new m.m_size (n - m.m_size) i below ∙ same i below,
        λ i from below.
            zero_bytes_inside new m.m_size (n - m.m_size) i from (omega arith)
              (omega (arith, len, g)),
      )
