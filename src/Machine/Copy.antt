-- ===== src/Machine/Copy.antt =====
-- The instructions that copy to the memory: `calldatacopy`, `codecopy` and `returndatacopy` of
-- include/instructions.h. A move or a fill of no bytes changes nothing, so that its test for none is
-- left out. A sum of an index and a size is a `size_t`.
pub mod Laws
pub mod Input
pub mod Escape
mod Tests
use tsc_vee.Base.{
  ℕ, ◌+◌, ◌-◌, ◌*◌, List, length, take, drop, min, ◌||◌, some, if◌then◌else◌, ltb, u64, Option,
  ◌>>=◌,
}
use tsc_vee.Base.Int.{pos}
use tsc_vee.Status.{evmc_success, evmc_invalid_memory_access}
use tsc_vee.Uint256.{Uint256}
use tsc_vee.Stack.{item}
use tsc_vee.Memory.{Memory, fill_zero}
use tsc_vee.Transfer.{write_bytes}
use tsc_vee.Host.Contract.{text}
use tsc_vee.State.{num_words}
use tsc_vee.Machine.{Machine, Result, pay_then, check_u256_then, check_u64_then}

-- `copy_size` bytes of the source from `src` on, and zeros up to the size `s`.
unfoldable pub copy_to_memory : List ℕ → ℕ → ℕ → ℕ → Memory → Option Memory
unfolding write_bytes fill_zero
copy_to_memory source dst index s memory =
    let src = min (length source) index in
    let copy_size = min s (length source - src) in
    write_bytes memory.m_data dst (take copy_size (drop src source)) >>= (λ moved.
      fill_zero moved (dst + copy_size) (s - copy_size)
      >>= (λ filled. some (record memory { m_data = filled })))

module _ {A : Type 0} where
  -- Behind the check of the memory: the price of the words, and the copy.
  abbrev pub copied : List ℕ → ℕ → ℕ → ℕ → Machine A → Result A
  copied source dst index s m = pay_then (pos (num_words s * 3)) m (λ paid.
      copy_to_memory source dst index s paid.memory
      >>= (λ memory. some (evmc_success, record paid { memory = memory })))

  module _ (realloc : List ℕ → ℕ → Option (List ℕ)) (stack : ℕ) (space : List Uint256)
      (m : Machine A) where
    unfoldable pub calldatacopy : Result A
    unfolding check_u256_then copy_to_memory
    calldatacopy =
        let mem_index = item space stack in
        let input_index = item space (stack - 1) in
        let size = item space (stack - 2) in
        check_u256_then realloc mem_index size m
          (copied m.msg.input mem_index.lower.lower input_index.lower.lower size.lower.lower)

    unfoldable pub codecopy : Result A
    unfolding check_u64_then copy_to_memory
    codecopy =
        let mem_index = item space stack in
        let input_index = item space (stack - 1) in
        let size = item space (stack - 2) in
        check_u64_then realloc mem_index size.lower.lower m
          (copied m.code mem_index.lower.lower input_index.lower.lower size.lower.lower)

    -- The bytes are a string: its length ends at the first zero. `none` for a null pointer.
    abbrev pub copied_string : List ℕ → ℕ → ℕ → ℕ → Machine A → Result A
    copied_string bytes dst src s state =
        if ltb (length (text bytes)) src || ltb (length (text bytes)) (u64 (src + s))
        then some (evmc_invalid_memory_access, state)
        else pay_then (pos (num_words s * 3)) state (λ paid.
          write_bytes paid.memory.m_data dst (take s (drop src bytes)) >>= (λ filled.
            some (evmc_success, record paid { memory = record paid.memory { m_data = filled } })))

    unfoldable pub returndatacopy : Result A
    unfolding check_u256_then write_bytes
    returndatacopy =
        let mem_index = item space stack in
        let input_index = item space (stack - 1) in
        let size = item space (stack - 2) in
        check_u256_then realloc mem_index size m (λ state. state.return_data >>= (λ bytes.
          copied_string bytes mem_index.lower.lower input_index.lower.lower size.lower.lower state))
