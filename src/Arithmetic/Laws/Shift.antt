-- ===== src/Arithmetic/Laws/Shift.antt =====
-- The handlers of SHL, SHR and MUL on the abstract stack.
use tsc_vee.Base.{ℕ, ◌-◌, ◌*◌, ◌/◌, ◌%◌, ◌^◌, ◌≡◌, ap, ap₂, ◌∙◌, List, ◌∷◌, arith, u32}
use tsc_vee.Uint256.{Uint256, copy256, shiftl256, shiftr256}
use tsc_vee.Uint256.Value.{value256, IsWord256}
use tsc_vee.Uint256.Shift.{value-shiftl256, value-shiftr256}
use tsc_vee.Uint256.Product.{mul256, products256}
use tsc_vee.Uint256.Product.Laws.{value-mul256, mul256_exact_iff, column_carry}
use tsc_vee.Traits.{traits}
use tsc_vee.Stack.{Stack, item}
use tsc_vee.Arithmetic.Laws.Binary.{Holds, two_items, binary_lem}
use tsc_vee.Arithmetic.Handlers.{op_shl, op_shr, op_mul}

-- The amount of a shift: SHL and SHR cast it to 32 bits.
abbrev amount : ℕ → ℕ
amount a = a % 2 ^ 32

amount_lem : (x : Uint256) → IsWord256 x → u32 x.lower.lower ≡ amount (value256 x)
amount_lem x h = omega arith

-- On a well-formed stack of two numbers or more the handler of SHL replaces the two top numbers
-- by the lower one times the power of two that the top one modulo 2 ^ 32 gives, modulo 2 ^ 256;
-- the numbers below stay and the stack stays well-formed.
pub op_shl-values :
    (s : Stack) (a b : ℕ) (rest : List ℕ)
    → Holds s (a ∷ b ∷ rest)
    → Holds (op_shl s) (b * 2 ^ (a % 2 ^ 32) % 2 ^ 256 ∷ rest)
unfolding op_shl traits copy256
op_shl-values =
    binary_lem (λ x y. shiftl256 y (u32 x.lower.lower)) (λ a b. b * 2 ^ (a % 2 ^ 32) % 2 ^ 256)
      correct
  where
    correct :
        (x y : Uint256)
        → IsWord256 x
        → IsWord256 y
        → IsWord256 (shiftl256 y (u32 x.lower.lower))
          × (value256 (shiftl256 y (u32 x.lower.lower))
              ≡ value256 y * 2 ^ (value256 x % 2 ^ 32) % 2 ^ 256)
    correct x y hx hy =
        let t = value-shiftl256 y (u32 x.lower.lower) hy in
        (t.0, t.1 ∙ ap (λ n. value256 y * 2 ^ n % 2 ^ 256) (amount_lem x hx))

-- On a well-formed stack of two numbers or more the handler of SHR replaces the two top numbers
-- by the lower one divided by the power of two that the top one modulo 2 ^ 32 gives; the numbers
-- below stay and the stack stays well-formed.
pub op_shr-values :
    (s : Stack) (a b : ℕ) (rest : List ℕ)
    → Holds s (a ∷ b ∷ rest)
    → Holds (op_shr s) (b / 2 ^ (a % 2 ^ 32) ∷ rest)
unfolding op_shr traits copy256
op_shr-values =
    binary_lem (λ x y. shiftr256 y (u32 x.lower.lower)) (λ a b. b / 2 ^ (a % 2 ^ 32)) correct
  where
    correct :
        (x y : Uint256)
        → IsWord256 x
        → IsWord256 y
        → IsWord256 (shiftr256 y (u32 x.lower.lower))
          × (value256 (shiftr256 y (u32 x.lower.lower)) ≡ value256 y / 2 ^ (value256 x % 2 ^ 32))
    correct x y hx hy =
        let t = value-shiftr256 y (u32 x.lower.lower) hy in
        (t.0, t.1 ∙ ap (λ n. value256 y / 2 ^ n) (amount_lem x hx))

-- On a well-formed stack whose two top numbers have a third column of partial products without
-- carry, the handler of MUL replaces them by their product modulo 2 ^ 256; the numbers below
-- stay and the stack stays well-formed.
pub op_mul-values :
    (s : Stack) (a b : ℕ) (rest : List ℕ)
    → Holds s (a ∷ b ∷ rest)
    → column_carry (products256 (item s.space s.top_item) (item s.space (s.top_item - 1))) ≡ 0
    → Holds (op_mul s) (a * b % 2 ^ 256 ∷ rest)
unfolding op_mul traits copy256
op_mul-values s a b rest h none =
    let (wx, wy, va, vb, written) = two_items s a b rest h in
    let x = item s.space s.top_item in
    let y = item s.space (s.top_item - 1) in
    let t = written (mul256 x y) (value-mul256 x y wx wy).0 in
    (
      t.0,
      t.1
          ∙ ap (λ n. n ∷ rest)
              ((mul256_exact_iff x y wx wy).1 none ∙ ap₂ (λ m n. m * n % 2 ^ 256) va vb),
    )
