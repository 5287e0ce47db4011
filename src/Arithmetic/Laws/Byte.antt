-- ===== src/Arithmetic/Laws/Byte.antt =====
-- The handler of BYTE on the abstract stack.
use tsc_vee.Base.{
  ℕ, ◌+◌, ◌-◌, ◌*◌, ◌/◌, ◌%◌, ◌^◌, ◌<◌, ◌≤◌, ◌≡◌, sym, ap, ◌∙◌, List, ◌∷◌, arith, Bool, true, false,
  if◌then◌else◌, ltb, ◌==◌, ◌&&◌, inl, inr, Bool-cases, bit_and, u32,
}
use tsc_vee.Base.Bits.{bit_and_mask}
use tsc_vee.Uint256.{Uint256}
use tsc_vee.Uint256.Value.{value256, IsWord256}
use tsc_vee.Traits.{traits}
use tsc_vee.Stack.{Stack}
use tsc_vee.Arithmetic.{u256_index}
use tsc_vee.Arithmetic.Laws.Binary.{Holds, binary_lem}
use tsc_vee.Arithmetic.Laws.Extend.{sign_byte_lem}
use tsc_vee.Arithmetic.Handlers.{op_byte}

-- The byte `n` of `b`, the highest first.
abbrev pub nth_byte : ℕ → ℕ → ℕ
nth_byte n b = if ltb n 32 then b / 2 ^ (8 * (31 - n)) % 256 else 0

abbrev valid : Uint256 → Bool
valid n = n.upper.upper == 0 && n.upper.lower == 0 && n.lower.upper == 0 && ltb n.lower.lower 32

-- The byte that the code takes.
abbrev taken : Uint256 → Uint256 → ℕ
taken n x =
    let index = 31 - u32 (n.lower.lower % 32) in
    bit_and (u256_index x (index / 8) / 2 ^ (index % 8 * 8)) (if valid n then 0xff else 0)

abbrev byte_item : Uint256 → Uint256 → Uint256
byte_item n x = record {
  upper = record { upper = 0; lower = 0 };
  lower = record { upper = 0; lower = taken n x };
}

valid_lem : (n : Uint256) → valid n ≡ true → (value256 n ≡ n.lower.lower) × (value256 n < 32)
valid_lem n h = ground arith

invalid_lem : (n : Uint256) → valid n ≡ false → 32 ≤ value256 n
invalid_lem n h = ground arith

in_range : (n b : ℕ) → n < 32 → b / 2 ^ (8 * (31 - n)) % 256 ≡ nth_byte n b
in_range n b h = ground arith

out_of_range : (n b : ℕ) → 32 ≤ n → 0 ≡ nth_byte n b
out_of_range n b h = ground arith

taken_lem :
    (n x : Uint256)
    → IsWord256 x
    → (taken n x < 256) × (taken n x ≡ nth_byte (value256 n) (value256 x))
taken_lem n x hx = elim (Bool-cases (valid n)) [
  | inr e ↦
      let none = bit_and_mask 0 (
        u256_index x ((31 - u32 (n.lower.lower % 32)) / 8)
        / 2 ^ ((31 - u32 (n.lower.lower % 32)) % 8 * 8)) in
      rw e (
        omega (arith, none),
        omega (arith, none, out_of_range (value256 n) (value256 x) (invalid_lem n e)),
      )
  | inl e ↦
      let (same, lt) = valid_lem n e in
      let mask = bit_and_mask 8 (
        u256_index x ((31 - u32 (n.lower.lower % 32)) / 8)
        / 2 ^ ((31 - u32 (n.lower.lower % 32)) % 8 * 8)) in
      let index : 31 - u32 (n.lower.lower % 32) ≡ 31 - value256 n = omega arith in
      let place : (31 - value256 n) % 8 * 8 ≡ 8 * ((31 - value256 n) % 8) = omega arith in
      let here : 64 * ((31 - value256 n) / 8) + 8 * ((31 - value256 n) % 8)
          ≡ 8 * (31 - value256 n) =
        omega arith in
      let byte =
        sign_byte_lem ((31 - value256 n) / 8) ((31 - value256 n) % 8) x (omega arith) (omega arith)
          hx in
      rw e (
        omega (arith, mask),
        mask
            ∙ rw index (rw place (sym byte))
            ∙ ap (λ t. value256 x / 2 ^ t % 256) here
            ∙ in_range (value256 n) (value256 x) lt,
      )
]

-- On a well-formed stack of two numbers or more the handler of BYTE replaces the two top numbers
-- by the byte of the lower one that the top one counts from the highest byte, which is number 0,
-- and by 0 if the top one is 32 or more; the numbers below stay and the stack stays well-formed.
pub op_byte-values :
    (s : Stack) (a b : ℕ) (rest : List ℕ)
    → Holds s (a ∷ b ∷ rest)
    → Holds (op_byte s) (nth_byte a b ∷ rest)
unfolding op_byte traits
op_byte-values = binary_lem byte_item nth_byte correct
  where
    correct :
        (n x : Uint256)
        → IsWord256 n
        → IsWord256 x
        → IsWord256 (byte_item n x)
          × (value256 (byte_item n x) ≡ nth_byte (value256 n) (value256 x))
    correct n x hn hx = let (lt, e) = taken_lem n x hx in (omega arith, omega (arith, e))
