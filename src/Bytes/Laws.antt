-- ===== src/Bytes/Laws.antt =====
-- Numbers to bytes and back.
use tsc_vee.Base.{
  ℕ, zero, suc, ◌+◌, ◌-◌, ◌*◌, ◌/◌, ◌%◌, ◌^◌, ◌≤◌, ◌<◌, ◌≡◌, List, [], ◌∷◌, length, set, drop,
  drop-drop, get_or-drop, bit_and, arith, ap, ap₂, sym, refl, ◌∙◌, bit_or, replicate,
}
use mathlib.Core.Path.{fun_ext}
use native.Mathlib.Nat.{mod-eq_of_lt, pow-le-pow_right, mul-lt-mul_of_pos_right}
use tsc_vee.Base.Pow.{pow-add, two-pow-pos}
use tsc_vee.Base.Bits.{bit_or_fields, bit_and_mask}
use tsc_vee.Uint256.{Uint256}
use tsc_vee.Uint256.Value.{IsWord256}
use tsc_vee.Bytes.{
  byte_at, store_bytes, ◌⋁◌, read_uint64_be, readu128_be, readu256_be, u256_to_u8_32,
}
use tsc_vee.Bytes.Store.{length-store_bytes, store_bytes_outside, store_bytes_inside}

-- `|` of a multiple of `2 ^ k` and a number below is their sum.
or_sum : (k q x y : ℕ) → x ≡ q * 2 ^ k → y < 2 ^ k → bit_or x y ≡ x + y
or_sum k q x y e h = ap (λ t. bit_or t y) e ∙ bit_or_fields k q y h ∙ omega arith

-- One more byte of a number that is put together from above.
pub or_next :
    (k q b x : ℕ)
    → k ≤ 56
    → x ≡ q * 2 ^ (8 + k)
    → b < 2 ^ 8
    → bit_or x (b * 2 ^ k % 2 ^ 64) ≡ (q * 2 ^ 8 + b) * 2 ^ k
or_next k q b x small e h =
    let split : 2 ^ (8 + k) ≡ 2 ^ 8 * 2 ^ k = pow-add 2 8 k in
    let room : 2 ^ (8 + k) ≤ 2 ^ 64 =
      pow-le-pow_right {n = 2} (omega arith) {j = 64} (omega arith) in
    let below : b * 2 ^ k < 2 ^ (8 + k) =
      omega (arith, split, mul-lt-mul_of_pos_right {k = 2 ^ k} h (two-pow-pos k)) in
    let whole : b * 2 ^ k % 2 ^ 64 ≡ b * 2 ^ k = mod-eq_of_lt (omega arith) in
    ap (bit_or x) whole
    ∙ or_sum (8 + k) q x (b * 2 ^ k) e below
    ∙ omega (arith, e, ap (λ (t : ℕ). q * t) split)

abbrev pub AreBytes : List ℕ → Type 0
AreBytes buffer = (i : ℕ) → byte_at buffer i < 2 ^ 8

-- The number that eight bytes spell, the most significant first.
abbrev pub big_endian : (ℕ → ℕ) → ℕ
big_endian b =
    b 0 * 2 ^ 56
    + b 1 * 2 ^ 48
    + b 2 * 2 ^ 40
    + b 3 * 2 ^ 32
    + b 4 * 2 ^ 24
    + b 5 * 2 ^ 16
    + b 6 * 2 ^ 8
    + b 7

or_bytes :
    (b : ℕ → ℕ)
    → ((i : ℕ) → b i < 2 ^ 8)
    → b 0 * 2 ^ 56 % 2 ^ 64
        ⋁ b 1 * 2 ^ 48 % 2 ^ 64
        ⋁ b 2 * 2 ^ 40 % 2 ^ 64
        ⋁ b 3 * 2 ^ 32 % 2 ^ 64
        ⋁ b 4 * 2 ^ 24 % 2 ^ 64
        ⋁ b 5 * 2 ^ 16 % 2 ^ 64
        ⋁ b 6 * 2 ^ 8 % 2 ^ 64
        ⋁ b 7
      ≡ big_endian b
or_bytes b h =
    let q1 = b 0 * 2 ^ 8 + b 1 in
    let q2 = q1 * 2 ^ 8 + b 2 in
    let q3 = q2 * 2 ^ 8 + b 3 in
    let q4 = q3 * 2 ^ 8 + b 4 in
    let q5 = q4 * 2 ^ 8 + b 5 in
    let q6 = q5 * 2 ^ 8 + b 6 in
    let e0 : b 0 * 2 ^ 56 % 2 ^ 64 ≡ b 0 * 2 ^ 56 = omega (arith, h 0) in
    let e1 = or_next 48 (b 0) (b 1) _ (omega arith) e0 (h 1) in
    let e2 = or_next 40 q1 (b 2) _ (omega arith) e1 (h 2) in
    let e3 = or_next 32 q2 (b 3) _ (omega arith) e2 (h 3) in
    let e4 = or_next 24 q3 (b 4) _ (omega arith) e3 (h 4) in
    let e5 = or_next 16 q4 (b 5) _ (omega arith) e4 (h 5) in
    let e6 = or_next 8 q5 (b 6) _ (omega arith) e5 (h 6) in
    or_sum 8 q6 _ (b 7) e6 (h 7) ∙ omega (arith, e6)

-- For a buffer of bytes, `readUint64BE` is the number that its first eight bytes spell, the most
-- significant first.
pub read_uint64_be_lem :
    (buffer : List ℕ) → AreBytes buffer → read_uint64_be buffer ≡ big_endian (byte_at buffer)
unfolding read_uint64_be
read_uint64_be_lem buffer h = or_bytes (byte_at buffer) h

read_at :
    (k : ℕ) (buffer : List ℕ)
    → AreBytes buffer
    → read_uint64_be (drop k buffer) ≡ big_endian (λ i. byte_at buffer (k + i))
read_at k buffer h =
    let at : (i : ℕ) → byte_at (drop k buffer) i ≡ byte_at buffer (k + i) =
      λ i. get_or-drop k buffer i 0 in
    read_uint64_be_lem (drop k buffer) (λ i. rw (at i) (h (k + i))) ∙ ap big_endian (fun_ext at)

-- A buffer of zeros spells 0.
pub readu256_be-zeros :
    readu256_be (replicate 32 0)
    ≡ record { upper = record { upper = 0; lower = 0 }; lower = record { upper = 0; lower = 0 } }
unfolding readu256_be readu128_be read_uint64_be
readu256_be-zeros = refl

pub zeros-AreBytes : (n : ℕ) → AreBytes (replicate n 0)
zeros-AreBytes zero i = omega arith
zeros-AreBytes (suc n) zero = omega arith
zeros-AreBytes (suc n) (suc i) = zeros-AreBytes n i

read_uint64_be-cong :
    (k : ℕ) (a b : List ℕ)
    → ((i : ℕ) → i < 8 → byte_at a (k + i) ≡ byte_at b (k + i))
    → read_uint64_be (drop k a) ≡ read_uint64_be (drop k b)
unfolding read_uint64_be
read_uint64_be-cong k a b same =
    let at : (i : ℕ) → i < 8 → byte_at (drop k a) i ≡ byte_at (drop k b) i =
      λ i lt. get_or-drop k a i 0 ∙ same i lt ∙ sym (get_or-drop k b i 0) in
    rw (
      at 0 (omega arith),
      at 1 (omega arith),
      at 2 (omega arith),
      at 3 (omega arith),
      at 4 (omega arith),
      at 5 (omega arith),
      at 6 (omega arith),
      at 7 (omega arith),
    )

-- A number is read from the first 32 bytes.
pub readu256_be-cong :
    (a b : List ℕ) → ((i : ℕ) → i < 32 → byte_at a i ≡ byte_at b i) → readu256_be a ≡ readu256_be b
unfolding readu256_be readu128_be
readu256_be-cong a b same =
    let at : (k : ℕ) → k < 25 → read_uint64_be (drop k a) ≡ read_uint64_be (drop k b) =
      λ k lt. read_uint64_be-cong k a b (λ i small. same (k + i) (omega arith)) in
    let last : read_uint64_be (drop 8 (drop 16 a)) ≡ read_uint64_be (drop 8 (drop 16 b)) =
      ap read_uint64_be (drop-drop 8 16 a)
      ∙ at 24 (omega arith)
      ∙ ap read_uint64_be (sym (drop-drop 8 16 b)) in
    ap₂ (λ u l. record { upper = u; lower = l })
      (ap₂ (λ u l. record { upper = u; lower = l }) (at 0 (omega arith)) (at 8 (omega arith)))
      (ap₂ (λ u l. record { upper = u; lower = l }) (at 16 (omega arith)) last)

set-AreBytes : (bytes : List ℕ) (i v : ℕ) → AreBytes bytes → v < 2 ^ 8 → AreBytes (set bytes i v)
set-AreBytes [] i v h lt j = h j
set-AreBytes (b ∷ bytes) zero v h lt zero = lt
set-AreBytes (b ∷ bytes) zero v h lt (suc j) = h (suc j)
set-AreBytes (b ∷ bytes) (suc i) v h lt zero = h zero
set-AreBytes (b ∷ bytes) (suc i) v h lt (suc j) = set-AreBytes bytes i v (λ k. h (suc k)) lt j

store_bytes-AreBytes :
    (n top off tmp : ℕ) (bytes : List ℕ)
    → AreBytes bytes
    → AreBytes (store_bytes n top off tmp bytes)
unfolding store_bytes
store_bytes-AreBytes zero top off tmp bytes h = h
store_bytes-AreBytes (suc n) top off tmp bytes h =
    store_bytes-AreBytes n (top - 1) off (tmp / 2 ^ 8) _
      (set-AreBytes bytes (top - off) (bit_and tmp 0xff) h (omega (arith, bit_and_mask 8 tmp)))

-- Eight bytes that hold the digits of a 64-bit number spell it.
spell-bytes :
    (k w : ℕ)
    → w < 2 ^ 64
    → (bytes : List ℕ) → ((d : ℕ) → d < 8 → byte_at bytes (k + 7 - d) ≡ w / 2 ^ (8 * d) % 2 ^ 8)
    → big_endian (λ i. byte_at bytes (k + i)) ≡ w
spell-bytes k w small bytes at =
    let digit : (i d : ℕ) → i + d ≡ 7 → byte_at bytes (k + i) ≡ w / 2 ^ (8 * d) % 2 ^ 8 = λ i d e.
      let here : k + 7 - d ≡ k + i = omega arith in
      ap (byte_at bytes) (sym here) ∙ at d (omega arith) in
    omega (
      arith,
      digit 0 7 refl,
      digit 1 6 refl,
      digit 2 5 refl,
      digit 3 4 refl,
      digit 4 3 refl,
      digit 5 2 refl,
      digit 6 1 refl,
      digit 7 0 refl,
    )

module _ (x : Uint256) (bytes : List ℕ) (room : 32 ≤ length bytes) where
  bytes1 : List ℕ
  bytes1 = store_bytes 8 31 0 x.lower.lower bytes

  bytes2 : List ℕ
  bytes2 = store_bytes 8 23 0 x.lower.upper bytes1

  bytes3 : List ℕ
  bytes3 = store_bytes 8 15 0 x.upper.lower bytes2

  length-bytes1 : length bytes1 ≡ length bytes
  unfolding bytes1
  length-bytes1 = length-store_bytes 8 31 0 _ bytes

  length-bytes2 : length bytes2 ≡ length bytes
  unfolding bytes2
  length-bytes2 = length-store_bytes 8 23 0 _ bytes1 ∙ length-bytes1

  length-bytes3 : length bytes3 ≡ length bytes
  unfolding bytes3
  length-bytes3 = length-store_bytes 8 15 0 _ bytes2 ∙ length-bytes2

  pub length-u256_to_u8_32 : length (u256_to_u8_32 x bytes) ≡ length bytes
  unfolding u256_to_u8_32 bytes1 bytes2 bytes3
  length-u256_to_u8_32 = length-store_bytes 8 7 0 _ bytes3 ∙ length-bytes3

  abbrev out : List ℕ
  out = u256_to_u8_32 x bytes

  -- Byte `7 - d`, `15 - d`, `23 - d` and `31 - d` of the result.
  byte_word3 : (d : ℕ) → d < 8 → byte_at out (7 - d) ≡ x.upper.upper / 2 ^ (8 * d) % 2 ^ 8
  unfolding u256_to_u8_32 bytes1 bytes2 bytes3
  byte_word3 d lt =
      store_bytes_inside 8 d 7 0 _ bytes3 (omega arith) lt (omega (arith, length-bytes3))

  byte_word2 : (d : ℕ) → d < 8 → byte_at out (15 - d) ≡ x.upper.lower / 2 ^ (8 * d) % 2 ^ 8
  unfolding u256_to_u8_32 bytes1 bytes2 bytes3
  byte_word2 d lt =
      store_bytes_outside 8 7 0 _ bytes3 (15 - d) (omega arith) (omega arith)
      ∙ store_bytes_inside 8 d 15 0 _ bytes2 (omega arith) lt (omega (arith, length-bytes2))

  byte_word1 : (d : ℕ) → d < 8 → byte_at out (23 - d) ≡ x.lower.upper / 2 ^ (8 * d) % 2 ^ 8
  unfolding u256_to_u8_32 bytes1 bytes2 bytes3
  byte_word1 d lt =
      store_bytes_outside 8 7 0 _ bytes3 (23 - d) (omega arith) (omega arith)
      ∙ store_bytes_outside 8 15 0 _ bytes2 (23 - d) (omega arith) (omega arith)
      ∙ store_bytes_inside 8 d 23 0 _ bytes1 (omega arith) lt (omega (arith, length-bytes1))

  byte_word0 : (d : ℕ) → d < 8 → byte_at out (31 - d) ≡ x.lower.lower / 2 ^ (8 * d) % 2 ^ 8
  unfolding u256_to_u8_32 bytes1 bytes2 bytes3
  byte_word0 d lt =
      store_bytes_outside 8 7 0 _ bytes3 (31 - d) (omega arith) (omega arith)
      ∙ store_bytes_outside 8 15 0 _ bytes2 (31 - d) (omega arith) (omega arith)
      ∙ store_bytes_outside 8 23 0 _ bytes1 (31 - d) (omega arith) (omega arith)
      ∙ store_bytes_inside 8 d 31 0 _ bytes (omega arith) lt room

  module _ (are : AreBytes bytes) where
    out-AreBytes : AreBytes out
    unfolding u256_to_u8_32
    out-AreBytes = store_bytes-AreBytes 8 7 0 _ _ (
        store_bytes-AreBytes 8 15 0 _ _
          (store_bytes-AreBytes 8 23 0 _ _ (store_bytes-AreBytes 8 31 0 _ bytes are)))

    spelled :
        (k w : ℕ)
        → w < 2 ^ 64
        → ((d : ℕ) → d < 8 → byte_at out (k + 7 - d) ≡ w / 2 ^ (8 * d) % 2 ^ 8)
        → read_uint64_be (drop k out) ≡ w
    spelled k w small at = read_at k out out-AreBytes ∙ spell-bytes k w small out at

    -- For a number of 64-bit words and a buffer of bytes of length 32 or more, `readu256BE` of
    -- the buffer that `u256_to_u8_32` has written is the number.
    pub readu256_be-u256_to_u8_32 : IsWord256 x → readu256_be (u256_to_u8_32 x bytes) ≡ x
    unfolding readu256_be readu128_be
    readu256_be-u256_to_u8_32 ((w3, w2), (w1, w0)) =
        let e3 : read_uint64_be (drop 0 out) ≡ x.upper.upper = spelled 0 _ w3 byte_word3 in
        let e2 : read_uint64_be (drop 8 out) ≡ x.upper.lower = spelled 8 _ w2 byte_word2 in
        let e1 : read_uint64_be (drop 16 out) ≡ x.lower.upper = spelled 16 _ w1 byte_word1 in
        let e0 : read_uint64_be (drop 24 out) ≡ x.lower.lower = spelled 24 _ w0 byte_word0 in
        let again : drop 8 (drop 16 out) ≡ drop 24 out = drop-drop 8 16 out in
        ap₂ (λ u l. record { upper = u; lower = l })
          (ap₂ (λ u l. record { upper = u; lower = l }) e3 e2)
          (ap₂ (λ u l. record { upper = u; lower = l }) e1 (ap read_uint64_be again ∙ e0))
