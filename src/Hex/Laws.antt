-- ===== src/Hex/Laws.antt =====
-- Strings of hexadecimal digits that are written and read.
use native.Mathlib.Decide.{dec_lt, ℕ_discrete}
use tsc_vee.Base.{
  ℕ, zero, suc, ◌+◌, ◌-◌, ◌*◌, ◌/◌, ◌^◌, ◌≤◌, ◌<◌, ◌≡◌, refl, sym, ap, ap₂, ◌∙◌, List, length,
  length-set, get_or-set_self, get_or-set_ne, set, true, false, ◌==◌, ==_iff, leb, ltb, ◌&&◌, ◌%◌,
  [], ◌∷◌, all_below, all_below_lem, some, while, while-done, while-step, arith,
}
use tsc_vee.Bytes.{byte_at}
use tsc_vee.Bytes.Laws.{AreBytes}
use tsc_vee.Hex.{
  Cursor, from_hex_digit, digits_byte, hex_begin, from_hex_test, from_hex_body, from_hex, strlen,
  write_byte, high_char, low_char, hex_loop, hex,
}

-- The two digits of a byte give the byte.
digits_all : all_below 256 (λ b. digits_byte (high_char b) (low_char b) == b) ≡ true
unfolding digits_byte from_hex_digit
digits_all = refl

digits_lem : (b : ℕ) → b < 2 ^ 8 → digits_byte (high_char b) (low_char b) ≡ b
digits_lem b lt =
    (==_iff _ b).0
      (all_below_lem 256 (λ b. digits_byte (high_char b) (low_char b) == b) digits_all b lt)

chars_all : all_below 256 (λ b. ltb 0 (high_char b) && ltb 0 (low_char b)) ≡ true
chars_all = refl

-- No digit is a zero byte.
chars_lem : (b : ℕ) → b < 2 ^ 8 → (0 < high_char b) × (0 < low_char b)
chars_lem b lt =
    let e = all_below_lem 256 (λ t. ltb 0 (high_char t) && ltb 0 (low_char t)) chars_all b lt in
    ground arith

strlen_lem :
    (cs : List ℕ) (k : ℕ)
    → k < length cs
    → byte_at cs k ≡ 0
    → ((i : ℕ) → i < k → 0 < byte_at cs i)
    → strlen cs ≡ some k
unfolding strlen
strlen_lem [] k lt e h = absurd (omega arith)
strlen_lem (c ∷ cs) zero lt e h = rw e refl
strlen_lem (c ∷ cs) (suc k) lt e h =
    let more : (c == 0) ≡ false = ground (arith, h 0 (omega arith)) in
    rw more (rw (strlen_lem cs k (omega arith) e (λ i below. h (suc i) (omega arith))) refl)

length-hex_loop : (n i : ℕ) (bytes out : List ℕ) → length (hex_loop n i bytes out) ≡ length out
unfolding hex_loop
length-hex_loop zero i bytes out = refl
length-hex_loop (suc n) i bytes out =
    let b = byte_at bytes i in
    length-hex_loop n (suc i) bytes _
    ∙ length-set (set out (i * 2 + 2) (high_char b)) (i * 2 + 3) (low_char b)
    ∙ length-set out (i * 2 + 2) (high_char b)

-- The loop writes from its first digit on.
hex_loop_before :
    (n i : ℕ) (bytes out : List ℕ) (j : ℕ)
    → j < i * 2 + 2
    → byte_at (hex_loop n i bytes out) j ≡ byte_at out j
unfolding hex_loop
hex_loop_before zero i bytes out j lt = refl
hex_loop_before (suc n) i bytes out j lt =
    let b = byte_at bytes i in
    hex_loop_before n (suc i) bytes _ j (omega arith)
    ∙ get_or-set_ne (set out (i * 2 + 2) (high_char b)) (low_char b) 0 (omega arith)
    ∙ get_or-set_ne out (high_char b) 0 (omega arith)

-- The loop leaves what stands behind its last digit.
hex_loop_after :
    (n i : ℕ) (bytes out : List ℕ) (j : ℕ)
    → (i + n) * 2 + 2 ≤ j
    → byte_at (hex_loop n i bytes out) j ≡ byte_at out j
unfolding hex_loop
hex_loop_after zero i bytes out j le = refl
hex_loop_after (suc n) i bytes out j le =
    let b = byte_at bytes i in
    hex_loop_after n (suc i) bytes _ j (omega arith)
    ∙ get_or-set_ne (set out (i * 2 + 2) (high_char b)) (low_char b) 0 (omega arith)
    ∙ get_or-set_ne out (high_char b) 0 (omega arith)

-- The digits of byte `k` stand in their places.
hex_loop_inside :
    (n i : ℕ) (bytes out : List ℕ) (k : ℕ)
    → i ≤ k
    → k < i + n
    → (i + n) * 2 + 2 ≤ length out
    → (byte_at (hex_loop n i bytes out) (k * 2 + 2) ≡ high_char (byte_at bytes k))
      × (byte_at (hex_loop n i bytes out) (k * 2 + 3) ≡ low_char (byte_at bytes k))
unfolding hex_loop
hex_loop_inside zero i bytes out k le lt room = absurd (omega arith)
hex_loop_inside (suc n) i bytes out k le lt room =
    let b = byte_at bytes i in
    let out1 = set out (i * 2 + 2) (high_char b) in
    let out2 = set out1 (i * 2 + 3) (low_char b) in
    let n1 = length-set out (i * 2 + 2) (high_char b) in
    let n2 = length-set out1 (i * 2 + 3) (low_char b) in
    elim (ℕ_discrete i k) [
      | no ne ↦
          hex_loop_inside n (suc i) bytes out2 k (omega arith) (omega arith)
            (omega (arith, n1, n2, room))
      | yes e ↦
          let high =
            hex_loop_before n (suc i) bytes out2 (i * 2 + 2) (omega arith)
            ∙ get_or-set_ne out1 (low_char b) 0 (omega arith)
            ∙ get_or-set_self out (i * 2 + 2) (high_char b) 0 (omega arith) in
          let low =
            hex_loop_before n (suc i) bytes out2 (i * 2 + 3) (omega arith)
            ∙ get_or-set_self out1 (i * 2 + 3) (low_char b) 0 (omega (arith, n1, room)) in
          rw (sym e) (high, low)
    ]

module _ (bytes : List ℕ) (are : AreBytes bytes) (n : ℕ) (out : List ℕ)
    (long : n * 2 + 2 < length out) (end : byte_at out (n * 2 + 2) ≡ 0) (small : n < 2 ^ 60) where
  -- The string that `hex` leaves, and its length.
  abbrev string : List ℕ
  string = hex_loop n 0 bytes (set (set out 0 0x30) 1 0x78)

  abbrev size : ℕ
  size = n * 2 + 2

  length-hex : length string ≡ length out
  length-hex =
      length-hex_loop n 0 bytes (set (set out 0 0x30) 1 0x78)
      ∙ length-set (set out 0 0x30) 1 0x78
      ∙ length-set out 0 0x30

  first : (byte_at string 0 ≡ 0x30) × (byte_at string 1 ≡ 0x78)
  first =
      let out1 = set out 0 0x30 in
      let out2 = set out1 1 0x78 in
      let n1 = length-set out 0 0x30 in
      let c0 : byte_at string 0 ≡ 0x30 =
        hex_loop_before n 0 bytes out2 0 (omega arith)
        ∙ get_or-set_ne out1 0x78 0 (omega arith)
        ∙ get_or-set_self out 0 0x30 0 (omega (arith, long)) in
      let c1 : byte_at string 1 ≡ 0x78 =
        hex_loop_before n 0 bytes out2 1 (omega arith)
        ∙ get_or-set_self out1 1 0x78 0 (omega (arith, long, n1)) in
      (c0, c1)

  prefix : hex_begin string size ≡ 2
  unfolding hex_begin
  prefix =
      let (c0, c1) = first in
      let two : leb 2 size ≡ true = ground arith in rw two (rw (c0, c1) refl)

  pair :
      (k : ℕ)
      → k < n
      → (byte_at string (k * 2 + 2) ≡ high_char (byte_at bytes k))
        × (byte_at string (k * 2 + 3) ≡ low_char (byte_at bytes k))
  pair k lt =
      let out1 = set out 0 0x30 in
      let n1 = length-set out 0 0x30 in
      let n2 = length-set out1 1 0x78 in
      hex_loop_inside n 0 bytes (set out1 1 0x78) k (omega arith) (omega arith)
        (omega (arith, long, n1, n2))

  digits :
      (k : ℕ)
      → k < n
      → digits_byte (byte_at string (2 + 2 * k)) (byte_at string (2 + 2 * k + 1)) ≡ byte_at bytes k
  digits k lt =
      let (high, low) = pair k lt in
      ap₂ digits_byte (ap (byte_at string) (omega arith) ∙ high)
        (ap (byte_at string) (omega arith) ∙ low)
      ∙ digits_lem (byte_at bytes k) (are k)

  char_lem : (i : ℕ) → i < size → 0 < byte_at string i
  char_lem zero lt = omega (arith, first)
  char_lem (suc zero) lt = omega (arith, first)
  char_lem (suc (suc i)) lt =
      let (high, low) = pair (i / 2) (omega arith) in
      let (h, l) = chars_lem (byte_at bytes (i / 2)) (are (i / 2)) in
      elim (ℕ_discrete (i % 2) 0) [
        | yes even ↦
            let e : suc (suc i) ≡ i / 2 * 2 + 2 = omega arith in
            let at = ap (byte_at string) e ∙ high in omega (arith, at, h)
        | no odd ↦
            let e : suc (suc i) ≡ i / 2 * 2 + 3 = omega arith in
            let at = ap (byte_at string) e ∙ low in omega (arith, at, l)
      ]

  strlen-hex : strlen string ≡ some size
  strlen-hex =
      let out1 = set out 0 0x30 in
      let last : byte_at string size ≡ 0 =
        hex_loop_after n 0 bytes (set out1 1 0x78) size (omega arith)
        ∙ get_or-set_ne out1 0x78 0 (omega arith)
        ∙ get_or-set_ne out 0x30 0 (omega arith)
        ∙ end in
      strlen_lem string size (omega (arith, long, length-hex)) last char_lem

  abbrev at : ℕ → List ℕ → Cursor
  at k res = record { i = 2 + 2 * k; res = some res }

  body_at :
      (k : ℕ) (res : List ℕ)
      → k < n
      → n ≤ length res
      → from_hex_body string size (at k res) ≡ at (suc k) (set res k (byte_at bytes k))
  unfolding from_hex_body write_byte
  body_at k res lt room =
      let index : (2 + 2 * k - hex_begin string size) / 2 ≡ k =
        ap (λ t. (2 + 2 * k - t) / 2) prefix ∙ omega arith in
      let here : ltb k (length res) ≡ true = ground arith in
      ap₂ (λ i r. record { i = i; res = r }) (omega arith)
        (rw (index, here) (ap (λ t. some (set res k t)) (digits k lt)))

  test_at : (k : ℕ) (res : List ℕ) → k < n → from_hex_test string size (at k res) ≡ true
  unfolding from_hex_test
  test_at k res lt = ground arith

  test_end : (res : List ℕ) → from_hex_test string size (at n res) ≡ false
  unfolding from_hex_test
  test_end res = ground arith

  same_next :
      (k : ℕ) (res : List ℕ)
      → k < length res
      → ((j : ℕ) → j < k → byte_at res j ≡ byte_at bytes j)
      → (j : ℕ) → j < suc k
      → byte_at (set res k (byte_at bytes k)) j ≡ byte_at bytes j
  same_next k res room same j lt = elim (ℕ_discrete k j) [
    | yes e ↦ rw (sym e) (get_or-set_self res k (byte_at bytes k) 0 room)
    | no ne ↦ get_or-set_ne res (byte_at bytes k) 0 ne ∙ same j (omega arith)
  ]

  loop_lem :
      (fuel k : ℕ) (res : List ℕ)
      → k ≤ n
      → n - k < fuel
      → n ≤ length res
      → ((j : ℕ) → j < k → byte_at res j ≡ byte_at bytes j)
      → (s : Cursor) × (while fuel
            (from_hex_test string size)
            (from_hex_body string size)
            (at k res)
          ≡ some s)
        × (new : List ℕ) × (s.res ≡ some new)
        × ((j : ℕ) → j < n → byte_at new j ≡ byte_at bytes j)
  loop_lem zero k res le enough room same = absurd (omega arith)
  loop_lem (suc fuel) k res le enough room same = elim (dec_lt k n) [
    | no ge ↦
        let e : k ≡ n = omega arith in
        let end : from_hex_test string size (at k res) ≡ false =
          ap (λ t. from_hex_test string size (at t res)) e ∙ test_end res in
        (
          at k res,
          while-done (from_hex_test string size) (from_hex_body string size) fuel (at k res) end,
          res,
          refl,
          λ j lt. same j (omega arith),
        )
    | yes lt ↦
        let next = set res k (byte_at bytes k) in
        let grown = length-set res k (byte_at bytes k) in
        let (s, w, new, is, all) =
          loop_lem fuel (suc k) next lt (omega arith) (omega (arith, grown, room))
            (same_next k res (omega arith) same) in
        (
          s,
          while-step (from_hex_test string size) (from_hex_body string size) fuel (at k res)
                (test_at k res lt)
              ∙ ap (while fuel (from_hex_test string size) (from_hex_body string size))
                  (body_at k res lt room)
              ∙ w,
          new,
          is,
          all,
        )
  ]

  -- For fewer than 2 ^ 60 bytes, a string buffer longer than their digits and the prefix with a
  -- zero behind the place of the last digit, and a result buffer with room: `hex` writes a
  -- string, `from_hex` of it ends, and leaves each of the bytes in its place.
  pub from_hex-hex :
      (res : List ℕ) (j : ℕ)
      → n ≤ length res
      → j < n
      → (text : List ℕ) × (hex bytes n out ≡ some text)
        × (new : List ℕ) × (from_hex text res ≡ some new)
        × (byte_at new j ≡ byte_at bytes j)
  unfolding from_hex hex
  from_hex-hex res j room lt =
      let (s, w, new, is, all) =
        loop_lem (suc size) 0 res (omega arith) (omega arith) room
          (λ i below. absurd (omega arith)) in
      let fits : leb (n * 2 + 2) (length out) ≡ true = ground (arith, long) in
      (string, rw fits refl, new, rw strlen-hex (rw prefix (rw w is)), all j lt)
