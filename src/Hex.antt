-- ===== src/Hex.antt =====
-- The hexadecimal strings of include/hex_helpers.h. A buffer is a list of bytes, and a string one with
-- a zero behind its characters. `none` stands for a read or a write outside of a buffer.
pub mod Laws
mod Tests
use tsc_vee.Base.{
  ℕ, zero, suc, ◌+◌, ◌-◌, ◌*◌, ◌/◌, ◌%◌, ◌^◌, List, [], ◌∷◌, length, get_or, set, Bool, ◌&&◌,
  if◌then◌else◌, ltb, leb, ◌==◌, u64, bit_and, Option, none, some, while, ◌>>=◌,
}
use tsc_vee.Base.Int.{ℤ, pos, negsuc}
use tsc_vee.Bytes.{byte_at}

-- The characters 0 to 9, a to f and A to F.
unfoldable pub from_hex_digit : ℕ → ℤ
from_hex_digit h =
    if leb 0x30 h && leb h 0x39
    then pos (h - 0x30)
    else if leb 0x61 h && leb h 0x66
    then pos (h - 0x61 + 10)
    else if leb 0x41 h && leb h 0x46
    then pos (h - 0x41 + 10)
    else negsuc 0

-- `(uint8_t)n`
abbrev pub uint8 : ℤ → ℕ
uint8 (pos n) = n % 2 ^ 8
uint8 (negsuc n) = 2 ^ 8 - 1 - n % 2 ^ 8

-- `strlen`: the bytes before the first zero.
unfoldable pub strlen : List ℕ → Option ℕ
strlen [] = none
strlen (c ∷ cs) = if c == 0 then some 0 else strlen cs >>= (λ n. some (suc n))

-- `buffer[index] = byte`
unfoldable pub write_byte : List ℕ → ℕ → ℕ → Option (List ℕ)
write_byte buffer index byte =
    if ltb index (length buffer) then some (set buffer index byte) else none

-- The variables of the loop of `from_hex`; `res` is `none` behind a write outside of it.
pub record Cursor : Type 0 where
  pub i : ℕ
  pub res : Option (List ℕ)

-- Two digits as a byte.
unfoldable pub digits_byte : ℕ → ℕ → ℕ
unfolding from_hex_digit
digits_byte h0 h1 =
    let r0 = uint8 (from_hex_digit h0) in
    let r1 = uint8 (from_hex_digit h1) in (r0 * 2 ^ 4 + r1) % 2 ^ 8

module _ (hex : List ℕ) (length : ℕ) where
  -- The optional prefix 0x.
  unfoldable pub hex_begin : ℕ
  hex_begin = if leb 2 length && byte_at hex 0 == 0x30 && byte_at hex 1 == 0x78 then 2 else 0

  -- The length less one is a `size_t`.
  unfoldable pub from_hex_test : Cursor → Bool
  from_hex_test s = ltb s.i (u64 (length + (2 ^ 64 - 1)))

  unfoldable pub from_hex_body : Cursor → Cursor
  unfolding hex_begin digits_byte write_byte
  from_hex_body s = record {
    i = s.i + 2;
    res = s.res >>= (λ res.
        write_byte res ((s.i - hex_begin) / 2)
          (digits_byte (byte_at hex s.i) (byte_at hex (s.i + 1))));
  }

-- Half the length would be enough rounds for a string that is not empty.
unfoldable pub from_hex : List ℕ → List ℕ → Option (List ℕ)
unfolding strlen from_hex_test from_hex_body
from_hex hex res = strlen hex >>= (λ n.
    while (suc n) (from_hex_test hex n) (from_hex_body hex n)
      record { i = hex_begin hex n; res = some res }
    >>= (λ s. s.res))

-- "0123456789abcdef"
abbrev pub hex_chars : List ℕ
hex_chars =
    0x30 ∷ 0x31 ∷ 0x32 ∷ 0x33 ∷ 0x34 ∷ 0x35 ∷ 0x36 ∷ 0x37 ∷ 0x38 ∷ 0x39 ∷ 0x61 ∷ 0x62 ∷ 0x63 ∷ 0x64
    ∷ 0x65 ∷ 0x66 ∷ []

abbrev pub high_char : ℕ → ℕ
high_char b = get_or hex_chars (b / 2 ^ 4) 0

abbrev pub low_char : ℕ → ℕ
low_char b = get_or hex_chars (bit_and b 0xf) 0

-- The loop of `hex`, which has `rounds` bytes to go.
unfoldable pub hex_loop : ℕ → ℕ → List ℕ → List ℕ → List ℕ
hex_loop zero i bytes out = out
hex_loop (suc rounds) i bytes out =
    let b = byte_at bytes i in
    hex_loop rounds (suc i) bytes (set (set out (i * 2 + 2) (high_char b)) (i * 2 + 3) (low_char b))

-- The prefix and the digits, in a buffer that they fit into; no zero is written behind them.
unfoldable pub hex : List ℕ → ℕ → List ℕ → Option (List ℕ)
unfolding hex_loop
hex bytes size out =
    if leb (size * 2 + 2) (length out)
    then some (hex_loop size 0 bytes (set (set out 0 0x30) 1 0x78))
    else none
