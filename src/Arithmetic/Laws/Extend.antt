-- ===== src/Arithmetic/Laws/Extend.antt =====
-- The handler of SIGNEXTEND on the abstract stack.
use tsc_vee.Base.{
  ℕ, zero, suc, ◌+◌, ◌-◌, ◌*◌, ◌/◌, ◌%◌, ◌^◌, ◌<◌, ◌≤◌, ◌≡◌, refl, sym, ap, ◌∙◌, List, ◌∷◌, arith,
  Bool, true, false, if◌then◌else◌, ltb, ◌==◌, ◌&&◌, inl, inr, Bool-cases,
}
use native.Mathlib.Nat.{div-div-eq-div-mul}
use tsc_vee.Base.Pow.{pow-add}
use tsc_vee.Uint256.{Uint256}
use tsc_vee.Uint256.Value.{value256, IsWord256}
use tsc_vee.Traits.{traits}
use tsc_vee.Stack.{Stack}
use tsc_vee.Arithmetic.{u256_index}
use tsc_vee.Arithmetic.Laws.Binary.{Holds, binary_lem}
use tsc_vee.Arithmetic.Extend.{
  op_signextend, signextend_item, set_word, extend_words, sign_extended_byte,
}

-- The number with its digit `w` in base 2 ^ 64 replaced.
abbrev pub with_digit : ℕ → ℕ → ℕ → ℕ
with_digit w digit b =
    b / 2 ^ (64 * w + 64) * 2 ^ (64 * w + 64) + digit * 2 ^ (64 * w) + b % 2 ^ (64 * w)

-- What SIGNEXTEND makes of `b`.
abbrev pub extended : ℕ → ℕ → ℕ
extended e b =
    if ltb e 24
    then with_digit (e / 8) (if ltb (b / 2 ^ (8 * e) % 256) 128 then 0 else 2 ^ 56 - 1) b
    else b

-- A byte of a word, in the number that the word is the lowest one of.
byte_of_word :
    (k u high : ℕ) → k < 8 → (high * 2 ^ 64 + u) / 2 ^ (8 * k) % 256 ≡ u / 2 ^ (8 * k) % 256
byte_of_word zero u high h = omega arith
byte_of_word (suc zero) u high h = omega arith
byte_of_word (suc (suc zero)) u high h = omega arith
byte_of_word (suc (suc (suc zero))) u high h = omega arith
byte_of_word (suc (suc (suc (suc zero)))) u high h = omega arith
byte_of_word (suc (suc (suc (suc (suc zero))))) u high h = omega arith
byte_of_word (suc (suc (suc (suc (suc (suc zero)))))) u high h = omega arith
byte_of_word (suc (suc (suc (suc (suc (suc (suc zero))))))) u high h = omega arith
byte_of_word (suc (suc (suc (suc (suc (suc (suc (suc k)))))))) u high h = omega arith

-- The byte `k` above a place `m` is the byte `k` of what is above the place.
byte_above : (n m k : ℕ) → n / 2 ^ (m + 8 * k) % 256 ≡ n / 2 ^ m / 2 ^ (8 * k) % 256
byte_above n m k =
    ap (λ t. n / t % 256) (pow-add 2 m (8 * k))
    ∙ ap (λ t. t % 256) (sym (div-div-eq-div-mul n (2 ^ m) (2 ^ (8 * k))))

-- What is above the word `w` and the word itself, as a number.
abbrev from_word : Uint256 → ℕ → ℕ
from_word x w = value256 x / 2 ^ (64 * w)

from_word_lem :
    (w : ℕ) (x : Uint256)
    → w < 4
    → IsWord256 x
    → from_word x w ≡ value256 x / 2 ^ (64 * w + 64) * 2 ^ 64 + u256_index x w
from_word_lem zero x h hx = omega arith
from_word_lem (suc zero) x h hx = omega arith
from_word_lem (suc (suc zero)) x h hx = omega arith
from_word_lem (suc (suc (suc zero))) x h hx = omega arith
from_word_lem (suc (suc (suc (suc w)))) x h hx = omega arith

pub sign_byte_lem :
    (w k : ℕ) (x : Uint256)
    → w < 4
    → k < 8
    → IsWord256 x
    → value256 x / 2 ^ (64 * w + 8 * k) % 256 ≡ u256_index x w / 2 ^ (8 * k) % 256
sign_byte_lem w k x hw hk hx =
    byte_above (value256 x) (64 * w) k
    ∙ ap (λ t. t / 2 ^ (8 * k) % 256) (from_word_lem w x hw hx)
    ∙ byte_of_word k (u256_index x w) _ hk

set_word_lem :
    (w digit : ℕ) (x : Uint256)
    → w < 4
    → digit < 2 ^ 64
    → IsWord256 x
    → IsWord256 (set_word x w digit)
      × (value256 (set_word x w digit) ≡ with_digit w digit (value256 x))
set_word_lem zero digit x h hd hx = (omega arith, omega arith)
set_word_lem (suc zero) digit x h hd hx = (omega arith, omega arith)
set_word_lem (suc (suc zero)) digit x h hd hx = (omega arith, omega arith)
set_word_lem (suc (suc (suc zero))) digit x h hd hx = (omega arith, omega arith)
set_word_lem (suc (suc (suc (suc w)))) digit x h hd hx = (omega arith, omega arith)

-- Writing a word over and over is writing it once.
extend_words_lem :
    (w digit : ℕ) (x : Uint256) → w < 3 → extend_words (3 - w) w digit x ≡ set_word x w digit
extend_words_lem zero digit x h = refl
extend_words_lem (suc zero) digit x h = refl
extend_words_lem (suc (suc zero)) digit x h = refl
extend_words_lem (suc (suc (suc w))) digit x h = elim (no_third w h) [ ]
  where
    no_third : (w : ℕ) → suc (suc (suc w)) < 3 → ⊥
    no_third w h = omega arith

sign_lem : (b : ℕ) → b < 256 → sign_extended_byte b / 2 ^ 8 ≡ (if ltb b 128 then 0 else 2 ^ 56 - 1)
sign_lem b h = ground arith

-- The item that says which byte is below 31, in the words of the code.
abbrev small : Uint256 → Bool
small ext =
    ext.upper.upper == 0 && ext.upper.lower == 0 && ext.lower.upper == 0 && ltb ext.lower.lower 31

small_lem : (x : Uint256) → small x ≡ true → (value256 x ≡ x.lower.lower) × (value256 x < 31)
small_lem x h = ground arith

large_lem : (x : Uint256) → small x ≡ false → 31 ≤ value256 x
large_lem x h = ground arith

kept : (e b : ℕ) → 24 ≤ e → b ≡ extended e b
kept e b h = ground arith

-- The digit that SIGNEXTEND writes.
abbrev new_digit : ℕ → ℕ → ℕ
new_digit e b = if ltb (b / 2 ^ (8 * e) % 256) 128 then 0 else 2 ^ 56 - 1

new_digit-lt : (e b : ℕ) → new_digit e b < 2 ^ 64
new_digit-lt e b = ground arith

written_digit : (e b : ℕ) → e < 24 → with_digit (e / 8) (new_digit e b) b ≡ extended e b
written_digit e b h = ground arith

-- The digit that the code finds.
sign_ex_lem :
    (e : ℕ) (x : Uint256)
    → e < 31
    → IsWord256 x
    → sign_extended_byte (u256_index x (e / 8) / 2 ^ (e % 8 * 8) % 2 ^ 8) / 2 ^ 8
      ≡ new_digit e (value256 x)
sign_ex_lem e x h hx =
    let here : 64 * (e / 8) + 8 * (e % 8) ≡ 8 * e = omega arith in
    let place : e % 8 * 8 ≡ 8 * (e % 8) = omega arith in
    let byte = sign_byte_lem (e / 8) (e % 8) x (omega arith) (omega arith) hx in
    rw place (sign_lem (u256_index x (e / 8) / 2 ^ (8 * (e % 8)) % 2 ^ 8) (omega arith))
    ∙ ap (λ t. if ltb t 128 then 0 else 2 ^ 56 - 1)
        (sym byte ∙ ap (λ t. value256 x / 2 ^ t % 256) here)

signextend_item_lem :
    (ext x : Uint256)
    → IsWord256 ext
    → IsWord256 x
    → IsWord256 (signextend_item ext x)
      × (value256 (signextend_item ext x) ≡ extended (value256 ext) (value256 x))
unfolding signextend_item
signextend_item_lem ext x he hx = elim (Bool-cases (small ext)) [
  | inr large ↦ rw large (hx, kept (value256 ext) (value256 x) (omega (arith, large_lem ext large)))
  | inl e ↦
      let (same, lt) = small_lem ext e in
      elim (Bool-cases (ltb (value256 ext) 24)) [
        | inr far ↦
            let last : ext.lower.lower / 8 ≡ 3 = ground arith in
            rw (e, last) (hx, kept (value256 ext) (value256 x) (ground arith))
        | inl near ↦
            let below : value256 ext < 24 = ground arith in
            let w : ext.lower.lower / 8 < 3 = omega arith in
            let digit = sign_ex_lem ext.lower.lower x (omega arith) hx in
            let t =
              set_word_lem (ext.lower.lower / 8) (new_digit ext.lower.lower (value256 x)) x
                (omega arith) (new_digit-lt _ _) hx in
            rw
              (
                e,
                digit,
                extend_words_lem (ext.lower.lower / 8) (new_digit ext.lower.lower (value256 x)) x w,
                same,
              )
              (t.0, t.1 ∙ written_digit ext.lower.lower (value256 x) (omega arith))
      ]
]

-- On a well-formed stack of two numbers or more the handler of SIGNEXTEND takes the top number,
-- and if it is below 24, replaces the whole digit in base 2 ^ 64 of the next number that the
-- sign byte stands in, by 0 or, if the sign is set, by 2 ^ 56 - 1; the other digits, the numbers
-- below and, from 24 on, the number itself stay.
pub op_signextend-values :
    (s : Stack) (a b : ℕ) (rest : List ℕ)
    → Holds s (a ∷ b ∷ rest)
    → Holds (op_signextend s) (extended a b ∷ rest)
unfolding op_signextend traits
op_signextend-values = binary_lem signextend_item extended signextend_item_lem
