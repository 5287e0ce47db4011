-- ===== src/Memory/Tests.antt =====
-- The theorems of the memory with an allocator that always has room.
use tsc_vee.Base.{
  ℕ, zero, suc, ◌≤◌, ◌<◌, ◌≡◌, refl, List, [], ◌∷◌, length, get_or, replicate, length-replicate,
  Option, some, arith,
}
use tsc_vee.Memory.{Memory, memory_grow}
use tsc_vee.Memory.Laws.{IsMemory, Reallocated, memory_grow_lem}

-- The first `n` bytes of a block, and zeros when it has fewer.
abbrev pub resize : List ℕ → ℕ → List ℕ
resize bytes zero = []
resize [] (suc n) = 0 ∷ resize [] n
resize (b ∷ bytes) (suc n) = b ∷ resize bytes n

length-resize : (bytes : List ℕ) (n : ℕ) → length (resize bytes n) ≡ n
length-resize bytes zero = refl
length-resize [] (suc n) = rw (length-resize [] n)
length-resize (b ∷ bytes) (suc n) = rw (length-resize bytes n)

get_or-resize :
    (bytes : List ℕ) (n i : ℕ)
    → i < length bytes
    → i < n
    → get_or (resize bytes n) i 0 ≡ get_or bytes i 0
get_or-resize bytes zero i lb ln = absurd (omega arith)
get_or-resize [] (suc n) i lb ln = absurd (omega arith)
get_or-resize (b ∷ bytes) (suc n) zero lb ln = refl
get_or-resize (b ∷ bytes) (suc n) (suc i) lb ln =
    get_or-resize bytes n i (omega arith) (omega arith)

abbrev pub allocator : List ℕ → ℕ → Option (List ℕ)
allocator bytes n = some (resize bytes n)

pub allocator-Reallocated : (bytes : List ℕ) (n : ℕ) → Reallocated allocator bytes n
allocator-Reallocated bytes n =
    (resize bytes n, refl, length-resize bytes n, λ i lb ln. get_or-resize bytes n i lb ln)

-- The memory after `memory_init` and a growth to one word.
abbrev pub one_word : Memory
one_word = record { page_size = 4096; m_data = replicate 4096 0; m_size = 32; m_capacity = 4096 }

pub one_word-IsMemory : IsMemory one_word
one_word-IsMemory = record {
  block = length-replicate {A = ℕ} 4096 0;
  fits = omega arith;
  whole = refl;
  page = refl;
  small = omega arith;
}

memory_grow_lem_example :
    (m' : Memory) × (memory_grow allocator one_word 8192 ≡ some m')
    × IsMemory m'
    × (m'.m_size ≡ 8192)
    × ((i : ℕ) → i < one_word.m_size → get_or m'.m_data i 0 ≡ get_or one_word.m_data i 0)
    × ((i : ℕ) → one_word.m_size ≤ i → i < 8192 → get_or m'.m_data i 0 ≡ 0)
memory_grow_lem_example =
    memory_grow_lem allocator allocator-Reallocated one_word 8192 one_word-IsMemory refl
      (omega arith) (omega arith)
