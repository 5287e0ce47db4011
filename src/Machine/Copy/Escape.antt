-- ===== src/Machine/Copy/Escape.antt =====
-- CALLDATACOPY with an offset and a size whose sum leaves 64 bits.
use tsc_vee.Base.{
  ℕ, ◌+◌, ◌-◌, ◌*◌, ◌^◌, ◌≤◌, ◌<◌, ◌≡◌, refl, ap₂, ◌∙◌, List, Option, some, none, true, false,
  arith, if◌then◌else◌, ltb, u64,
}
use tsc_vee.Base.Int.{pos, ltb_ℤ}
use tsc_vee.Uint256.{Uint256, zero256}
use tsc_vee.Uint256.Value.{value256, IsWord256}
use tsc_vee.Uint256.Sum.{zero256_lem}
use tsc_vee.Stack.{item}
use tsc_vee.State.{check_memory_u64, check_memory_u256, num_words, too_far}
use tsc_vee.State.Laws.{too_far_lem}
use tsc_vee.Machine.{Machine, estate, charge_gas, pay_then, check_u256_then}
use tsc_vee.Memory.Laws.{IsMemory}
use tsc_vee.Machine.Copy.{calldatacopy}
use tsc_vee.Machine.Copy.Laws.{copy_to_memory_over}

module _ {A : Type 0} (realloc : List ℕ → ℕ → Option (List ℕ)) where
  passes :
      (offset size : Uint256) (m : Machine A)
      → IsWord256 offset
      → value256 offset < 2 ^ 32
      → size.lower.lower < 2 ^ 64
      → 2 ^ 64 ≤ value256 offset + size.lower.lower
      → value256 offset + size.lower.lower ≤ 2 ^ 64 + m.memory.m_size
      → check_memory_u64 realloc (estate m) offset size.lower.lower ≡ some (true, estate m)
  unfolding check_memory_u64
  passes offset size m w near word over wrapped =
      let e : too_far offset ≡ false = ground (arith, too_far_lem offset w) in
      let within : ltb m.memory.m_size (u64 (offset.lower.lower + size.lower.lower)) ≡ false =
        ground arith in
      rw e (rw within refl)

  skips :
      (offset size : Uint256) (m : Machine A)
      → IsWord256 offset
      → value256 offset < 2 ^ 32
      → size.lower.lower < 2 ^ 64
      → 2 ^ 64 ≤ value256 offset + size.lower.lower
      → value256 offset + size.lower.lower ≤ 2 ^ 64 + m.memory.m_size
      → check_memory_u256 realloc (estate m) offset size ≡ some (true, estate m)
  unfolding check_memory_u256
  skips offset size m w near word over wrapped =
      let far : too_far offset ≡ false = ground (arith, too_far_lem offset w) in
      let nonzero : zero256 size ≡ false = ground (arith, zero256_lem size) in
      ap₂
        (λ a b.
          if a
          then some (true, estate m)
          else if b
          then some (false, estate m)
          else check_memory_u64 realloc (estate m) offset size.lower.lower)
        nonzero far
      ∙ passes offset size m w near word over wrapped

  -- For a well-formed memory, an offset below 2 ^ 32 of 64-bit words, a lowest word of the size
  -- below 2 ^ 64 with which it sums up to 2 ^ 64 or more but to no more than 2 ^ 64 and the size
  -- of the memory, and gas for the words, the check of the memory passes and changes nothing,
  -- and the copy of CALLDATACOPY behind it writes outside of the block of the memory, which C
  -- leaves undefined.
  pub calldatacopy_wraps :
      (stack : ℕ) (space : List Uint256) (m : Machine A)
      → IsMemory m.memory
      → IsWord256 (item space stack)
      → value256 (item space stack) < 2 ^ 32
      → (item space (stack - 2)).lower.lower < 2 ^ 64
      → 2 ^ 64 ≤ value256 (item space stack) + (item space (stack - 2)).lower.lower
      → value256 (item space stack) + (item space (stack - 2)).lower.lower
        ≤ 2 ^ 64 + m.memory.m_size
      → ltb_ℤ
          (charge_gas (pos (num_words (item space (stack - 2)).lower.lower * 3)) m).gas_left
          (pos 0)
        ≡ false
      → (check_memory_u256 realloc (estate m) (item space stack) (item space (stack - 2))
          ≡ some (true, estate m))
        × (calldatacopy realloc stack space m ≡ none)
  unfolding calldatacopy check_u256_then pay_then
  calldatacopy_wraps stack space m h w near word over wrapped rich =
      let offset = item space stack in
      let size = item space (stack - 2) in
      let passed = skips offset size m w near word over wrapped in
      let index = (item space (stack - 1)).lower.lower in
      let outside =
        copy_to_memory_over m.msg.input offset.lower.lower index size.lower.lower m.memory
          (omega arith) (omega (arith, h.block, h.fits, h.small)) in
      (passed, rw passed (rw rich (rw outside refl)))
