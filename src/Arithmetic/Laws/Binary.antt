-- ===== src/Arithmetic/Laws/Binary.antt =====
-- The handlers that replace the two top items by a function of them: the stack of numbers.
use tsc_vee.Base.{
  ℕ, suc, ◌+◌, ◌-◌, ◌%◌, ◌^◌, ◌≡◌, ap, ap₂, ◌∙◌, List, ◌∷◌, arith, Bool, ltb, ◌==◌, from_bool,
  if◌then◌else◌, bit_and, bit_or, bit_xor,
}
use tsc_vee.Uint256.{Uint256, add256, minus256, gt256, equal256, and256, or256, xor256, copy256}
use tsc_vee.Uint256.Value.{value256, IsWord256}
use tsc_vee.Uint256.Sum.{value-add256, value-minus256, gt256_lem, equal256_lem}
use tsc_vee.Uint256.Bitwise.{value-and256, value-or256, value-xor256}
use tsc_vee.Traits.{traits}
use tsc_vee.Stack.{Stack, values, item, set_item, zero_item, one_item}
use tsc_vee.Stack.Laws.{IsStack, held_two, held_written, set-IsSpace}
use tsc_vee.Arithmetic.Handlers.{
  op_add, op_sub, op_lt, op_gt, op_slt, op_sgt, op_eq, op_and, op_or, op_xor,
}

-- The stack after `y = value` through the pointer to the second item, and one item less.
abbrev pub replace_two : Stack → Uint256 → Stack
replace_two s v = record { space = set_item s.space (s.top_item - 1) v; top_item = s.top_item - 1 }

-- `s'` is a stack of the numbers `ns`.
abbrev pub Holds : Stack → List ℕ → Type 0
Holds s ns = IsStack s × (values s ≡ ns)

-- The two top items, their numbers, and the stack after the second is written and the first taken.
pub two_items :
    (s : Stack) (a b : ℕ) (rest : List ℕ)
    → Holds s (a ∷ b ∷ rest)
    → IsWord256 (item s.space s.top_item)
      × IsWord256 (item s.space (s.top_item - 1))
      × (value256 (item s.space s.top_item) ≡ a)
      × (value256 (item s.space (s.top_item - 1)) ≡ b)
      × ((v : Uint256) → IsWord256 v → Holds (replace_two s v) (value256 v ∷ rest))
two_items s a b rest ((space, top), e) =
    let (n, t, va, vb, r) = held_two s.space s.top_item a b rest e in
    let e1 : s.top_item - 1 ≡ suc n = omega arith in
    let e2 : suc n - 1 ≡ n = omega arith in
    (
      space.1 (s.top_item - 1),
      space.1 (s.top_item - 1 - 1),
      rw e1 va,
      rw e1 (rw e2 vb),
      λ v w. (
        (set-IsSpace s.space (s.top_item - 1 - 1) v space w, omega arith),
        held_written s.space n _ _ v (omega arith) e1 (omega (arith, space.0))
            ∙ ap (λ t. value256 v ∷ t) r,
      ),
    )

-- An operation on words that computes `g` on their values computes it on the stack.
pub binary_lem :
    (f : Uint256 → Uint256 → Uint256) (g : ℕ → ℕ → ℕ)
    → ((x y : Uint256)
        → IsWord256 x
        → IsWord256 y
        → IsWord256 (f x y) × (value256 (f x y) ≡ g (value256 x) (value256 y)))
    → (s : Stack) (a b : ℕ) (rest : List ℕ) → Holds s (a ∷ b ∷ rest)
    → Holds
        (replace_two s (f (item s.space s.top_item) (item s.space (s.top_item - 1))))
        (g a b ∷ rest)
binary_lem f g correct s a b rest h =
    let (wx, wy, va, vb, written) = two_items s a b rest h in
    let c = correct _ _ wx wy in
    let t = written _ c.0 in (t.0, t.1 ∙ ap (λ n. n ∷ rest) (c.1 ∙ ap₂ g va vb))

truth_lem :
    (c : Bool)
    → IsWord256 (if c then one_item else zero_item)
      × (value256 (if c then one_item else zero_item) ≡ from_bool c)
truth_lem c = ground arith

pub test_lem :
    (c d : Bool)
    → c ≡ d
    → IsWord256 (if c then one_item else zero_item)
      × (value256 (if c then one_item else zero_item) ≡ from_bool d)
test_lem c d e = let t = truth_lem c in (t.0, t.1 ∙ ap from_bool e)

-- The instructions that take two items and leave one, by their handlers.
pub data Binary : Type 0 where
  add sub lt gt slt sgt eq and or xor : Binary

abbrev pub handler : Binary → Stack → Stack
handler add = op_add
handler sub = op_sub
handler lt = op_lt
handler gt = op_gt
handler slt = op_slt
handler sgt = op_sgt
handler eq = op_eq
handler and = op_and
handler or = op_or
handler xor = op_xor

-- What an instruction leaves in place of the top number `a` and the number `b` below it. The signed
-- comparisons are those of the unsigned numbers.
abbrev pub meaning : Binary → ℕ → ℕ → ℕ
meaning add a b = (a + b) % 2 ^ 256
meaning sub a b = (a + 2 ^ 256 - b) % 2 ^ 256
meaning lt a b = from_bool (ltb a b)
meaning gt a b = from_bool (ltb b a)
meaning slt a b = from_bool (ltb a b)
meaning sgt a b = from_bool (ltb b a)
meaning eq a b = from_bool (a == b)
meaning and a b = bit_and a b
meaning or a b = bit_or a b
meaning xor a b = bit_xor a b

-- On a well-formed stack of two numbers or more the handlers of ADD, SUB, LT, GT, SLT, SGT, EQ,
-- AND, OR and XOR replace the two top numbers by the sum or difference modulo 2 ^ 256, the
-- comparison (unsigned for SLT and SGT too) or the bit operation; the numbers below stay and the
-- stack stays well-formed.
pub handler-meaning :
    (o : Binary) (s : Stack) (a b : ℕ) (rest : List ℕ)
    → Holds s (a ∷ b ∷ rest)
    → Holds (handler o s) (meaning o a b ∷ rest)
unfolding traits op_add op_sub op_lt op_gt op_slt op_sgt op_eq op_and op_or op_xor copy256
handler-meaning add s a b rest h = binary_lem add256 (meaning add) value-add256 s a b rest h
handler-meaning sub s a b rest h =
    let e : s.top_item - 0 ≡ s.top_item = omega arith in
    rw e (binary_lem minus256 (meaning sub) value-minus256 s a b rest h)
handler-meaning lt s a b rest h =
    binary_lem (λ x y. if gt256 y x then one_item else zero_item) (meaning lt)
      (λ x y hx hy. test_lem _ _ (gt256_lem y x hy hx)) s a b rest h
handler-meaning gt s a b rest h =
    binary_lem (λ x y. if gt256 x y then one_item else zero_item) (meaning gt)
      (λ x y hx hy. test_lem _ _ (gt256_lem x y hx hy)) s a b rest h
handler-meaning slt s a b rest h =
    binary_lem (λ x y. if gt256 y x then one_item else zero_item) (meaning slt)
      (λ x y hx hy. test_lem _ _ (gt256_lem y x hy hx)) s a b rest h
handler-meaning sgt s a b rest h =
    binary_lem (λ x y. if gt256 x y then one_item else zero_item) (meaning sgt)
      (λ x y hx hy. test_lem _ _ (gt256_lem x y hx hy)) s a b rest h
handler-meaning eq s a b rest h =
    let e : s.top_item - 0 ≡ s.top_item = omega arith in
    rw e (
      binary_lem (λ x y. if equal256 x y then one_item else zero_item) (meaning eq)
        (λ x y hx hy. test_lem _ _ (equal256_lem x y hx hy)) s a b rest h)
handler-meaning and s a b rest h = binary_lem and256 (meaning and) value-and256 s a b rest h
handler-meaning or s a b rest h = binary_lem or256 (meaning or) value-or256 s a b rest h
handler-meaning xor s a b rest h = binary_lem xor256 (meaning xor) value-xor256 s a b rest h
