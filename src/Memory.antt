-- ===== src/Memory.antt =====
-- The memory of the interpreter: `struct Memory` of include/execution_state.h. The block of bytes
-- that `m_data` points to is a list. `TEE_Realloc` is the trusted OS's, and a parameter: it returns
-- the block of the new length, or nothing. A failed assertion ends the run, and so does a failed
-- allocation, here at once where the code ends at the first write through the null pointer: `none`.
pub mod Laws
pub mod Tests
use tsc_vee.Base.{
  ℕ, zero, suc, ◌+◌, ◌-◌, ◌*◌, ◌/◌, ◌%◌, List, [], set, length, Option, none, some, Bool, true,
  if◌then◌else◌, ltb, leb, ◌==◌, ◌||◌, u64, ◌>>=◌,
}

pub record Memory : Type 0 where
  pub page_size : ℕ
  pub m_data : List ℕ
  pub m_size : ℕ
  pub m_capacity : ℕ

-- `assert(holds)`
abbrev pub assert : Bool → Option Bool
assert holds = if holds then some true else none

-- Whether `n` bytes from `start` on stand in a block. No bytes do in every place, as a move or a fill of
-- none leaves everything.
abbrev pub in_block : List ℕ → ℕ → ℕ → Bool
in_block bytes start n = n == 0 || leb (start + n) (length bytes)

unfoldable pub zero_bytes : List ℕ → ℕ → ℕ → List ℕ
zero_bytes bytes start zero = bytes
zero_bytes bytes start (suc n) = zero_bytes (set bytes start 0) (suc start) n

-- `TEE_MemFill(data + start, 0, n)`, which C leaves undefined outside of the block.
unfoldable pub fill_zero : List ℕ → ℕ → ℕ → Option (List ℕ)
unfolding zero_bytes
fill_zero bytes start n = if in_block bytes start n then some (zero_bytes bytes start n) else none

abbrev pub memory_size : Memory → ℕ
memory_size memory = memory.m_size

unfoldable pub memory_clear : Memory → Memory
memory_clear memory = record {
  page_size = memory.page_size;
  m_data = memory.m_data;
  m_size = 0;
  m_capacity = memory.m_capacity;
}

-- The capacity after the request of `new_size` bytes.
unfoldable pub grown_capacity : Memory → ℕ → ℕ
grown_capacity memory new_size =
    if ltb memory.m_capacity new_size
    then if ltb (u64 (memory.m_capacity * 2)) new_size
      then u64 (u64 (new_size + (memory.page_size - 1)) / memory.page_size * memory.page_size)
      else u64 (memory.m_capacity * 2)
    else memory.m_capacity

module _ (realloc : List ℕ → ℕ → Option (List ℕ)) where
  unfoldable pub memory_init : Option Memory
  memory_init = do
    bytes ← realloc [] (4 * 1024)
    some (record { page_size = 4 * 1024; m_data = bytes; m_size = 0; m_capacity = 4 * 1024 })

  -- The block that is long enough: a new one when the capacity does not do.
  unfoldable pub allocate_capacity : Memory → ℕ → Option (List ℕ)
  allocate_capacity memory new_size =
      if ltb memory.m_capacity new_size
      then realloc memory.m_data (grown_capacity memory new_size)
      else some memory.m_data

  unfoldable pub memory_grow : Memory → ℕ → Option Memory
  unfolding allocate_capacity fill_zero
  memory_grow memory new_size = do
    aligned ← assert (new_size % 32 == 0)
    grows ← assert (ltb memory.m_size new_size)
    bytes ← allocate_capacity memory new_size
    filled ← fill_zero bytes memory.m_size (new_size - memory.m_size)
    some (record {
      page_size = memory.page_size;
      m_data = filled;
      m_size = new_size;
      m_capacity = grown_capacity memory new_size;
    })
