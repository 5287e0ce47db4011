-- ===== src/Transfer/Laws.antt =====
-- A word of memory that is written and read.
use tsc_vee.Base.{
  ℕ, zero, suc, ◌+◌, ◌-◌, ◌^◌, ◌≤◌, ◌<◌, ◌≡◌, ◌⊎◌, Bool, inl, inr, refl, ap, ◌∙◌, List, [], ◌∷◌,
  set, length, drop, replicate, length-set, get_or-set_self, get_or-set_ne, get_or-drop, Option,
  some, true, arith,
}
use tsc_vee.Base.Int.{pos, ltb_ℤ}
use tsc_vee.Status.{evmc_success, evmc_out_of_gas}
use tsc_vee.Uint256.{Uint256}
use tsc_vee.Uint256.Value.{value256, IsWord256}
use tsc_vee.Bytes.{byte_at, readu256_be, u256_to_u8_32}
use tsc_vee.Bytes.Laws.{
  zeros-AreBytes, readu256_be-cong, readu256_be-u256_to_u8_32, length-u256_to_u8_32,
}
use tsc_vee.Stack.{item, set_item}
use tsc_vee.Memory.{Memory, in_block}
use tsc_vee.Memory.Laws.{IsMemory, Reallocated}
use tsc_vee.State.{ExecutionState, check_memory_u64, with_memory}
use tsc_vee.State.Laws.{check_inside, check_memory_u64_lem, charged}
use tsc_vee.Transfer.{put_bytes, write_bytes, write_memory, stored, mload, mstore}

pub length-put_bytes :
    (bytes : List ℕ) (index : ℕ) (out : List ℕ) → length (put_bytes bytes index out) ≡ length bytes
unfolding put_bytes
length-put_bytes bytes index [] = refl
length-put_bytes bytes index (b ∷ out) =
    length-put_bytes (set bytes index b) (suc index) out ∙ length-set bytes index b

pub put_bytes_before :
    (bytes : List ℕ) (index : ℕ) (out : List ℕ) (i : ℕ)
    → i < index
    → byte_at (put_bytes bytes index out) i ≡ byte_at bytes i
unfolding put_bytes
put_bytes_before bytes index [] i lt = refl
put_bytes_before bytes index (b ∷ out) i lt =
    put_bytes_before (set bytes index b) (suc index) out i (omega arith)
    ∙ get_or-set_ne bytes b 0 (omega arith)

-- The bytes stand where they are written.
pub put_bytes_inside :
    (bytes : List ℕ) (index : ℕ) (out : List ℕ) (i : ℕ)
    → i < length out
    → index + length out ≤ length bytes
    → byte_at (put_bytes bytes index out) (index + i) ≡ byte_at out i
unfolding put_bytes
put_bytes_inside bytes index [] i lt room = absurd (omega arith)
put_bytes_inside bytes index (b ∷ out) zero lt room =
    put_bytes_before (set bytes index b) (suc index) out (index + 0) (omega arith)
    ∙ ap (byte_at (set bytes index b)) (omega arith)
    ∙ get_or-set_self bytes index b 0 (omega arith)
put_bytes_inside bytes index (b ∷ out) (suc i) lt room =
    let e : index + suc i ≡ suc index + i = omega arith in
    ap (byte_at (put_bytes (set bytes index b) (suc index) out)) e
    ∙ put_bytes_inside (set bytes index b) (suc index) out i (omega arith)
        (omega (arith, room, length-set bytes index b))

-- The memory behind a write inside of the block.
abbrev put_memory : Memory → ℕ → List ℕ → Memory
put_memory memory index out = record memory { m_data = put_bytes memory.m_data index out }

pub write_bytes_lem :
    (bytes : List ℕ) (index : ℕ) (out : List ℕ)
    → index + length out ≤ length bytes
    → write_bytes bytes index out ≡ some (put_bytes bytes index out)
unfolding write_bytes
write_bytes_lem bytes index out room =
    let here : in_block bytes index (length out) ≡ true = ground arith in rw here refl

write_memory_lem :
    (m : Memory) (index : ℕ) (out : List ℕ)
    → index + length out ≤ length m.m_data
    → write_memory m index out ≡ some (put_memory m index out)
unfolding write_memory
write_memory_lem m index out room = rw (write_bytes_lem m.m_data index out room) refl

put_memory-IsMemory :
    (m : Memory) (index : ℕ) (out : List ℕ) → IsMemory m → IsMemory (put_memory m index out)
put_memory-IsMemory m index out h = record {
  block = length-put_bytes m.m_data index out ∙ h.block;
  fits = h.fits;
  whole = h.whole;
  page = h.page;
  small = h.small;
}

abbrev word_bytes : Uint256 → List ℕ
word_bytes value = u256_to_u8_32 value (replicate 32 0)

module _ (realloc : List ℕ → ℕ → Option (List ℕ))
    (allocates : (bytes : List ℕ) (n : ℕ) → Reallocated realloc bytes n) where
  -- What is read in a state that a write left.
  mload_written :
      (state : ExecutionState) (index value : Uint256) (stack' : ℕ) (space' : List Uint256)
      → IsMemory state.memory
      → IsWord256 index
      → IsWord256 value
      → value256 index < 2 ^ 32
      → value256 index + 32 ≤ state.memory.m_size
      → item space' stack' ≡ index
      → (let after =
            with_memory (put_memory state.memory index.lower.lower (word_bytes value)) state in
          mload realloc stack' space' after
          ≡ some (evmc_success, set_item space' stack' value, after))
  unfolding mload
  mload_written state index value stack' space' h wi wv near inside same =
      let after =
        with_memory (put_memory state.memory index.lower.lower (word_bytes value)) state in
      let passes : check_memory_u64 realloc after index 32 ≡ some (true, after) =
        check_inside realloc allocates after index 32 wi (omega arith) near inside in
      let long : length (word_bytes value) ≡ 32 =
        length-u256_to_u8_32 value (replicate 32 0) (omega arith) in
      let read : readu256_be (drop index.lower.lower after.memory.m_data) ≡ value =
        readu256_be-cong (drop index.lower.lower after.memory.m_data) (word_bytes value) (λ i lt.
          get_or-drop index.lower.lower after.memory.m_data i 0
          ∙ put_bytes_inside state.memory.m_data index.lower.lower (word_bytes value) i
              (omega arith) (omega arith))
        ∙ readu256_be-u256_to_u8_32 value (replicate 32 0) (omega arith) (zeros-AreBytes 32) wv in
      rw same (rw passes (ap (λ t. some (evmc_success, set_item space' stack' t, after)) read))

  -- A word is stored inside of the memory.
  stored_lem :
      (s : ExecutionState) (index value : Uint256)
      → IsMemory s.memory
      → IsWord256 index
      → value256 index < 2 ^ 32
      → value256 index + 32 ≤ s.memory.m_size
      → stored s index.lower.lower (word_bytes value) true
        ≡ some
            (evmc_success, with_memory (put_memory s.memory index.lower.lower (word_bytes value)) s)
  stored_lem s index value h wi near inside =
      let long = length-u256_to_u8_32 value (replicate 32 0) (omega arith) in
      rw
        (write_memory_lem s.memory index.lower.lower (word_bytes value)
          (omega (arith, long, h.block, h.fits)))
        refl

  -- The price of the memory that the word needs.
  abbrev pub too_dear : ExecutionState → Uint256 → Bool
  too_dear state index = ltb_ℤ (charged state (value256 index + 32)).gas_left (pos 0)

  -- With an allocator that has room, a well-formed memory and a well-formed offset and value:
  -- MSTORE either succeeds, the memory stays well-formed, and an MLOAD at the same offset in the
  -- state after it succeeds, puts the value on the stack and leaves the state; or it runs out of
  -- gas with the memory as before, which it does only for an offset of 2 ^ 32 or more or if the
  -- price of the memory takes the gas below 0.
  pub mload-mstore :
      (stack : ℕ) (space : List Uint256) (state : ExecutionState) (stack' : ℕ)
      (space' : List Uint256)
      → IsMemory state.memory
      → IsWord256 (item space stack)
      → IsWord256 (item space (stack - 1))
      → item space' stack' ≡ item space stack
      → ((after : ExecutionState) × (mstore realloc stack space state ≡ some (evmc_success, after))
          × IsMemory after.memory
          × (mload realloc stack' space' after
              ≡ some (evmc_success, set_item space' stack' (item space (stack - 1)), after)))
        ⊎ ((after : ExecutionState) × (mstore realloc stack space state
              ≡ some (evmc_out_of_gas, after))
            × (after.memory ≡ state.memory)
            × ((2 ^ 32 ≤ value256 (item space stack)) ⊎ (too_dear state (item space stack) ≡ true)))
  unfolding mstore
  mload-mstore stack space state stack' space' h wi wv same =
      let index = item space stack in
      let value = item space (stack - 1) in
      let written : ExecutionState → ExecutionState =
        λ s. with_memory (put_memory s.memory index.lower.lower (word_bytes value)) s in
      elim (check_memory_u64_lem realloc allocates state index 32 h wi (omega arith)) [
        | inl (far, e) ↦ inr (state, rw e refl, refl, inl far)
        | inr (inl (near, inside, e)) ↦ inl (
          written state,
          rw e (stored_lem state index value h wi near inside),
          put_memory-IsMemory state.memory index.lower.lower (word_bytes value) h,
          mload_written state index value stack' space' h wi wv near inside same,
        )
        | inr (inr (inl (near, poor, e))) ↦
            inr (charged state (value256 index + 32), rw e refl, refl, inr poor)
        | inr (inr (inr (near, rich, (m', e, (is, (room, tight), kept, zeros))))) ↦
            let grown : ExecutionState = record {
              gas_left = (charged state (value256 index + 32)).gas_left;
              memory = m';
            } in
            inl (
              written grown,
              rw e (stored_lem grown index value is wi near room),
              put_memory-IsMemory m' index.lower.lower (word_bytes value) is,
              mload_written grown index value stack' space' is wi wv near room same,
            )
      ]
