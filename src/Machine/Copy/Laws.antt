-- ===== src/Machine/Copy/Laws.antt =====
-- The bytes of the memory after a copy.
use native.Mathlib.Decide.{dec_lt}
use tsc_vee.Base.{
  ℕ, zero, suc, ◌+◌, ◌-◌, ◌≤◌, ◌<◌, ◌≡◌, ◌⊎◌, inl, inr, refl, sym, ap, ◌∙◌, List, [], ◌∷◌, set,
  length, take, drop, min, get_or-set_ne, get_or-drop, Bool-cases, true, false, some, none,
  length-take, length-drop, arith,
}
use tsc_vee.Bytes.{byte_at}
use tsc_vee.Memory.{Memory, in_block, zero_bytes, fill_zero}
use tsc_vee.Memory.Laws.{IsMemory, length-zero_bytes, zero_bytes_outside, zero_bytes_inside}
use tsc_vee.Transfer.{put_bytes, write_bytes}
use tsc_vee.Transfer.Laws.{length-put_bytes, put_bytes_before, put_bytes_inside}
use tsc_vee.Machine.Copy.{copy_to_memory}

get_or-take : (n : ℕ) (xs : List ℕ) (i : ℕ) → i < n → byte_at (take n xs) i ≡ byte_at xs i
get_or-take zero xs i lt = absurd (omega arith)
get_or-take (suc n) [] i lt = refl
get_or-take (suc n) (x ∷ xs) zero lt = refl
get_or-take (suc n) (x ∷ xs) (suc i) lt = get_or-take n xs i (omega arith)

-- A byte behind the end reads as 0.
get_or_over : (xs : List ℕ) (i : ℕ) → length xs ≤ i → byte_at xs i ≡ 0
get_or_over [] i h = refl
get_or_over (x ∷ xs) zero h = absurd (omega arith)
get_or_over (x ∷ xs) (suc i) h = get_or_over xs i (omega arith)

put_bytes_after :
    (bytes : List ℕ) (index : ℕ) (out : List ℕ) (i : ℕ)
    → index + length out ≤ i
    → byte_at (put_bytes bytes index out) i ≡ byte_at bytes i
unfolding put_bytes
put_bytes_after bytes index [] i le = refl
put_bytes_after bytes index (b ∷ out) i le =
    put_bytes_after (set bytes index b) (suc index) out i (omega arith)
    ∙ get_or-set_ne bytes b 0 (omega arith)

zero_bytes_after :
    (bytes : List ℕ) (start n i : ℕ)
    → start + n ≤ i
    → byte_at (zero_bytes bytes start n) i ≡ byte_at bytes i
unfolding zero_bytes
zero_bytes_after bytes start zero i le = refl
zero_bytes_after bytes start (suc n) i le =
    zero_bytes_after (set bytes start 0) (suc start) n i (omega arith)
    ∙ get_or-set_ne bytes 0 0 (omega arith)

module _ (source : List ℕ) (dst index s : ℕ) (m : Memory) where
  abbrev src : ℕ
  src = min (length source) index

  abbrev copy_size : ℕ
  copy_size = min s (length source - src)

  abbrev moved_bytes : List ℕ
  moved_bytes = take copy_size (drop src source)

  abbrev written : List ℕ
  written = put_bytes m.m_data dst moved_bytes

  -- The memory behind a copy inside of the block.
  abbrev pub after : Memory
  after = record m { m_data = zero_bytes written (dst + copy_size) (s - copy_size) }

  length-moved : length moved_bytes ≡ copy_size
  length-moved = length-take copy_size (drop src source) ∙ omega (arith, length-drop src source)

  pub copy_to_memory_lem :
      (s ≡ 0) ⊎ (dst + s ≤ length m.m_data) → copy_to_memory source dst index s m ≡ some after
  unfolding copy_to_memory write_bytes fill_zero
  copy_to_memory_lem room =
      let first : in_block m.m_data dst (length moved_bytes) ≡ true =
        ground (arith, length-moved) in
      let second : in_block written (dst + copy_size) (s - copy_size) ≡ true =
        ground (arith, length-put_bytes m.m_data dst moved_bytes) in
      rw first (rw second refl)

  -- A copy that does not fit the block.
  pub copy_to_memory_over :
      0 < s → length m.m_data < dst + s → copy_to_memory source dst index s m ≡ none
  unfolding copy_to_memory write_bytes fill_zero
  copy_to_memory_over some_bytes over =
      elim (Bool-cases (in_block m.m_data dst (length moved_bytes))) [
        | inr outside ↦ rw outside refl
        | inl here ↦
            let second : in_block written (dst + copy_size) (s - copy_size) ≡ false =
              ground (arith, length-put_bytes m.m_data dst moved_bytes, length-moved) in
            rw here (rw second refl)
      ]

  -- The bytes are those of the source, and zeros behind its end.
  pub copy_inside :
      (i : ℕ)
      → i < s
      → dst + s ≤ length m.m_data
      → byte_at after.m_data (dst + i) ≡ byte_at source (index + i)
  copy_inside i lt room = elim (dec_lt i copy_size) [
    | yes near ↦
        zero_bytes_outside written (dst + copy_size) (s - copy_size) (dst + i) (omega arith)
        ∙ put_bytes_inside m.m_data dst moved_bytes i (omega (arith, length-moved))
            (omega (arith, length-moved))
        ∙ get_or-take copy_size (drop src source) i near
        ∙ get_or-drop src source i 0
        ∙ ap (byte_at source) (omega arith)
    | no far ↦
        zero_bytes_inside written (dst + copy_size) (s - copy_size) (dst + i) (omega arith)
          (omega arith) (omega (arith, length-put_bytes m.m_data dst moved_bytes))
        ∙ sym (get_or_over source (index + i) (omega arith))
  ]

  pub copy_outside :
      (i : ℕ) → (i < dst) ⊎ (dst + s ≤ i) → byte_at after.m_data i ≡ byte_at m.m_data i
  copy_outside i (inl lt) =
      zero_bytes_outside written (dst + copy_size) (s - copy_size) i (omega arith)
      ∙ put_bytes_before m.m_data dst moved_bytes i lt
  copy_outside i (inr le) =
      zero_bytes_after written (dst + copy_size) (s - copy_size) i (omega arith)
      ∙ put_bytes_after m.m_data dst moved_bytes i (omega (arith, length-moved))

  pub copy-IsMemory : IsMemory m → IsMemory after
  copy-IsMemory h = record {
    block =
        length-zero_bytes written (dst + copy_size) (s - copy_size)
        ∙ length-put_bytes m.m_data dst moved_bytes
        ∙ h.block;
    fits = h.fits;
    whole = h.whole;
    page = h.page;
    small = h.small;
  }
