-- ===== src/Bytes.antt =====
-- The byte forms of a 256-bit number: `readUint64BE`, `readu128BE` and `readu256BE` of
-- src/uint256.c, `u256_to_u8_32`, `u256_to_u8_20` and `u256_to_u8_8` of include/instructions.h.
-- A buffer is the list of its bytes; the callers' buffers are long enough for every access.
pub mod Store
pub mod Laws
mod Tests
use tsc_vee.Base.{ℕ, zero, suc, ◌-◌, ◌/◌, ◌^◌, List, get_or, set, drop, bit_and, bit_or}
use tsc_vee.Uint128.{Uint128, shl64}
use tsc_vee.Uint256.{Uint256}

abbrev pub byte_at : List ℕ → ℕ → ℕ
byte_at buffer i = get_or buffer i 0

-- `|` of C.
infixl 45 ◌⋁◌
abbrev pub ◌⋁◌ : ℕ → ℕ → ℕ
a ⋁ b = bit_or a b

pub read_uint64_be : List ℕ → ℕ
read_uint64_be buffer =
    shl64 (byte_at buffer 0) 56
    ⋁ shl64 (byte_at buffer 1) 48
    ⋁ shl64 (byte_at buffer 2) 40
    ⋁ shl64 (byte_at buffer 3) 32
    ⋁ shl64 (byte_at buffer 4) 24
    ⋁ shl64 (byte_at buffer 5) 16
    ⋁ shl64 (byte_at buffer 6) 8
    ⋁ byte_at buffer 7

pub readu128_be : List ℕ → Uint128
readu128_be buffer = record {
  upper = read_uint64_be buffer;
  lower = read_uint64_be (drop 8 buffer);
}

unfoldable pub readu256_be : List ℕ → Uint256
unfolding readu128_be read_uint64_be
readu256_be buffer = record { upper = readu128_be buffer; lower = readu128_be (drop 16 buffer) }

-- `for (i = top; n rounds; i--) { data[i - off] = tmp & 0xFF; tmp = tmp >> 8; }`
unfoldable pub store_bytes : ℕ → ℕ → ℕ → ℕ → List ℕ → List ℕ
store_bytes zero top off tmp bytes = bytes
store_bytes (suc n) top off tmp bytes =
    store_bytes n (top - 1) off (tmp / 2 ^ 8) (set bytes (top - off) (bit_and tmp 0xff))

unfoldable pub u256_to_u8_32 : Uint256 → List ℕ → List ℕ
unfolding store_bytes
u256_to_u8_32 x bytes =
    let bytes1 = store_bytes 8 31 0 x.lower.lower bytes in
    let bytes2 = store_bytes 8 23 0 x.lower.upper bytes1 in
    let bytes3 = store_bytes 8 15 0 x.upper.lower bytes2 in store_bytes 8 7 0 x.upper.upper bytes3

unfoldable pub u256_to_u8_20 : Uint256 → List ℕ → List ℕ
unfolding store_bytes
u256_to_u8_20 x bytes =
    let bytes1 = store_bytes 8 31 12 x.lower.lower bytes in
    let bytes2 = store_bytes 8 23 12 x.lower.upper bytes1 in
    store_bytes 4 15 12 x.upper.lower bytes2

unfoldable pub u256_to_u8_8 : Uint256 → List ℕ → List ℕ
unfolding store_bytes
u256_to_u8_8 x bytes = store_bytes 8 31 24 x.lower.lower bytes
