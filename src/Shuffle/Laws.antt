-- ===== src/Shuffle/Laws.antt =====
-- DUP and SWAP on the abstract stack.
use tsc_vee.Base.{
  ℕ, zero, suc, ◌+◌, ◌-◌, ◌≤◌, ◌<◌, ◌≡◌, refl, sym, ap, ap₂, ◌∙◌, List, ◌∷◌, length, get_or,
  get_elem?, set, get_or-set_ne, some, Bool, true, false, ◌==◌, ==_iff, all_below, all_below_lem,
  arith,
}
use tsc_vee.Base.Int.{ℤ, pos, negsuc}
use tsc_vee.Opcode
use tsc_vee.Uint256.{Uint256}
use tsc_vee.Uint256.Value.{value256}
use tsc_vee.Traits.{traits}
use tsc_vee.Stack.{Stack, zero_item, height_change}
use tsc_vee.Stack.Laws.{held, held_written, set-IsSpace}
use tsc_vee.Arithmetic.Laws.Binary.{Holds}
use tsc_vee.Shuffle.{op_dup, op_swap}

abbrev change_is : ℕ → ℤ → Bool
change_is n (pos m) = m == n
change_is n (negsuc m) = false

change_lem : (n : ℕ) (z : ℤ) → change_is n z ≡ true → z ≡ pos n
change_lem n (pos m) h = ap pos ((==_iff m n).0 h)
change_lem n (negsuc m) h = absurd (cc)

dup_changes : all_below 16 (λ k. change_is 1 (height_change (Opcode.op_dup1 + k))) ≡ true
unfolding traits
dup_changes = refl

swap_changes : all_below 16 (λ k. change_is 0 (height_change (Opcode.op_swap1 + k))) ≡ true
unfolding traits
swap_changes = refl

-- The number `k` places below the top.
held_at :
    (space : List Uint256) (top k a : ℕ)
    → get_elem? (held space top) k ≡ some a
    → (value256 (get_or space (top - k - 1) zero_item) ≡ a) × (k < top)
held_at space zero k a e = absurd (cc)
held_at space (suc n) zero a e = let i : suc n - 0 - 1 ≡ n = omega arith in (rw i (cc), omega arith)
held_at space (suc n) (suc k) a e =
    let i : suc n - suc k - 1 ≡ n - k - 1 = omega arith in
    let t = held_at space n k a e in (rw i t.0, omega arith)

-- A write below the top is a write in the list of the numbers.
held-set_any :
    (space : List Uint256) (top i j : ℕ) (v : Uint256)
    → top ≤ length space
    → i + j + 1 ≡ top
    → held (set space i v) top ≡ set (held space top) j (value256 v)
held-set_any space zero i j v le e = absurd (omega arith)
held-set_any space (suc n) i zero v le e =
    held_written space n i (suc n) v (omega arith) refl (omega arith)
held-set_any space (suc n) i (suc j) v le e =
    ap₂ (λ x xs. value256 x ∷ xs) (get_or-set_ne space v zero_item (omega arith))
      (held-set_any space n i j v (omega arith) (omega arith))

-- For k below 16, on a well-formed stack of fewer than 1024 items with a number k places below
-- the top, the handler of DUP(k + 1) puts that number on the top; the numbers below are those of
-- before and the stack stays well-formed.
pub op_dup-values :
    (k : ℕ) (s : Stack) (a : ℕ) (ns : List ℕ)
    → k < 16
    → Holds s ns
    → s.top_item < 1024
    → get_elem? ns k ≡ some a
    → Holds (op_dup (suc k) s) (a ∷ ns)
unfolding op_dup
op_dup-values k s a ns lt ((space, top), e) room at =
    let i : suc k - 1 ≡ k = omega arith in
    let c =
      change_lem 1 (height_change (Opcode.op_dup1 + k)) (
        all_below_lem 16 (λ k. change_is 1 (height_change (Opcode.op_dup1 + k))) dup_changes k
          lt) in
    let t = held_at s.space s.top_item k a (ap (λ xs. get_elem? xs k) e ∙ at) in
    rw i (
      rw c (
        (
          set-IsSpace s.space (s.top_item + 1 - 1) _ space (space.1 (s.top_item - k - 1)),
          omega arith,
        ),
        held_written s.space s.top_item _ _ _ (omega arith) (omega arith) (omega (arith, space.0))
            ∙ ap₂ ◌∷◌ t.0 e,
      ))

-- For k below 16, on a well-formed stack with a top number and a number k + 1 places below it,
-- the handler of SWAP(k + 1) exchanges the two and leaves the other numbers; the stack stays
-- well-formed.
pub op_swap-values :
    (k : ℕ) (s : Stack) (a b : ℕ) (ns : List ℕ)
    → k < 16
    → Holds s ns
    → get_elem? ns 0 ≡ some a
    → get_elem? ns (suc k) ≡ some b
    → Holds (op_swap (suc k) s) (set (set ns 0 b) (suc k) a)
unfolding op_swap
op_swap-values k s a b ns lt ((space, top), e) at0 atk =
    let i : suc k - 1 ≡ k = omega arith in
    let c = change_lem 0 (height_change (Opcode.op_swap1 + k)) (
      all_below_lem 16 (λ k. change_is 0 (height_change (Opcode.op_swap1 + k))) swap_changes k
        lt) in
    let t0 = held_at s.space s.top_item 0 a (ap (λ xs. get_elem? xs 0) e ∙ at0) in
    let tk = held_at s.space s.top_item (suc k) b (ap (λ xs. get_elem? xs (suc k)) e ∙ atk) in
    let zero_off : s.top_item - 0 ≡ s.top_item = omega arith in
    let stay : s.top_item + 0 ≡ s.top_item = omega arith in
    let va : value256 (get_or s.space (s.top_item - 1) zero_item) ≡ a = rw (sym zero_off) t0.0 in
    let space1 = set s.space (s.top_item - 1) (get_or s.space (s.top_item - suc k - 1) zero_item) in
    let is1 = set-IsSpace s.space (s.top_item - 1) _ space (space.1 (s.top_item - suc k - 1)) in
    rw i (
      rw c (
        rw stay (
          (set-IsSpace space1 (s.top_item - suc k - 1) _ is1 (space.1 (s.top_item - 1)), top),
          held-set_any space1 s.top_item (s.top_item - suc k - 1) (suc k) _ (omega (arith, is1.0))
                (omega (arith, tk.1))
              ∙ ap₂ (λ xs x. set xs (suc k) x)
                  (held-set_any s.space s.top_item (s.top_item - 1) 0 _ (omega (arith, space.0))
                      (omega (arith, tk.1))
                    ∙ ap₂ (λ xs x. set xs 0 x) e tk.0)
                  va,
        )))
