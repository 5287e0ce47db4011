-- ===== src/Bytes/Store.antt =====
-- What a loop of `u256_to_u8_32` and its kin leaves at each index.
use native.Mathlib.Nat.{div-div-eq-div-mul}
use tsc_vee.Base.{
  ℕ, zero, suc, ◌+◌, ◌-◌, ◌*◌, ◌/◌, ◌%◌, ◌^◌, ◌≤◌, ◌<◌, ◌≡◌, ◌⊎◌, List, length, bit_and, length-set,
  get_or-set_self, get_or-set_ne, arith, ap, sym, refl, ◌∙◌,
}
use tsc_vee.Base.Bits.{bit_and_mask}
use tsc_vee.Base.Pow.{pow-add}
use tsc_vee.Bytes.{byte_at, store_bytes}

pub length-store_bytes :
    (n top off tmp : ℕ) (bytes : List ℕ) → length (store_bytes n top off tmp bytes) ≡ length bytes
unfolding store_bytes
length-store_bytes zero top off tmp bytes = refl
length-store_bytes (suc n) top off tmp bytes =
    length-store_bytes n (top - 1) off (tmp / 2 ^ 8) _ ∙ length-set bytes (top - off) _

-- Outside of its range the loop changes nothing.
pub store_bytes_outside :
    (n top off tmp : ℕ) (bytes : List ℕ) (j : ℕ)
    → n + off ≤ top + 1
    → (top < j + off) ⊎ (j + off + n ≤ top)
    → byte_at (store_bytes n top off tmp bytes) j ≡ byte_at bytes j
unfolding store_bytes
store_bytes_outside zero top off tmp bytes j room out = refl
store_bytes_outside (suc n) top off tmp bytes j room out =
    store_bytes_outside n (top - 1) off (tmp / 2 ^ 8) _ j (omega arith) (omega arith)
    ∙ get_or-set_ne bytes _ 0 (omega arith)

-- At `d` places below its first index the loop leaves byte `d` of the number.
pub store_bytes_inside :
    (n d top off tmp : ℕ) (bytes : List ℕ)
    → n + off ≤ top + 1
    → d < n
    → top - off < length bytes
    → byte_at (store_bytes n top off tmp bytes) (top - off - d) ≡ tmp / 2 ^ (8 * d) % 2 ^ 8
unfolding store_bytes
store_bytes_inside zero d top off tmp bytes room lt fits = absurd (omega arith)
store_bytes_inside (suc n) zero top off tmp bytes room lt fits =
    let e : top - off - 0 ≡ top - off = omega arith in
    rw e (
      store_bytes_outside n (top - 1) off (tmp / 2 ^ 8) _ (top - off) (omega arith) (omega arith)
      ∙ get_or-set_self bytes (top - off) _ 0 fits
      ∙ omega (arith, bit_and_mask 8 tmp))
store_bytes_inside (suc n) (suc d) top off tmp bytes room lt fits =
    let e : top - off - suc d ≡ top - 1 - off - d = omega arith in
    rw e (
      store_bytes_inside n d (top - 1) off (tmp / 2 ^ 8) _ (omega arith) (omega arith)
        (omega (arith, length-set bytes (top - off) (bit_and tmp 0xff)))
      ∙ ap (λ t. t % 2 ^ 8) (shifted d))
  where
    shifted : (k : ℕ) → tmp / 2 ^ 8 / 2 ^ (8 * k) ≡ tmp / 2 ^ (8 * suc k)
    shifted k =
        let e : 8 * suc k ≡ 8 + 8 * k = omega arith in
        div-div-eq-div-mul tmp (2 ^ 8) (2 ^ (8 * k))
        ∙ ap (λ t. tmp / t) (sym (ap (λ t. 2 ^ t) e ∙ pow-add 2 8 (8 * k)))
