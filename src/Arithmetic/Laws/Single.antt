-- ===== src/Arithmetic/Laws/Single.antt =====
-- The handlers that change the top item in place, and POP.
use tsc_vee.Base.{
  ℕ, ◌+◌, ◌-◌, ◌^◌, ◌≡◌, ap, ap₂, ◌∙◌, List, ◌∷◌, arith, from_bool, ◌==◌, if◌then◌else◌,
}
use tsc_vee.Uint256.{Uint256, copy256, zero256, not256}
use tsc_vee.Uint256.Value.{value256, IsWord256}
use tsc_vee.Uint256.Sum.{zero256_lem}
use tsc_vee.Uint256.Bitwise.{value-not256}
use tsc_vee.Traits.{traits}
use tsc_vee.Stack.{Stack, item, set_item, zero_item, one_item}
use tsc_vee.Stack.Laws.{held_one, held_written, set-IsSpace}
use tsc_vee.Arithmetic.Laws.Binary.{Holds, test_lem}
use tsc_vee.Arithmetic.Handlers.{op_not, op_iszero, op_pop}

-- The stack after `*top = value`.
abbrev replace_one : Stack → Uint256 → Stack
replace_one s v = record { space = set_item s.space s.top_item v; top_item = s.top_item + 0 }

single_lem :
    (f : Uint256 → Uint256) (g : ℕ → ℕ)
    → ((x : Uint256) → IsWord256 x → IsWord256 (f x) × (value256 (f x) ≡ g (value256 x)))
    → (s : Stack) (a : ℕ) (rest : List ℕ) → Holds s (a ∷ rest)
    → Holds (replace_one s (f (item s.space s.top_item))) (g a ∷ rest)
single_lem f g correct s a rest ((space, top), e) =
    let (n, t, va, r) = held_one s.space s.top_item a rest e in
    let below : s.top_item - 1 ≡ n = omega arith in
    let c = correct (item s.space s.top_item) (space.1 (s.top_item - 1)) in
    (
      (set-IsSpace s.space (s.top_item - 1) _ space c.0, omega arith),
      held_written s.space n _ _ _ below (omega arith) (omega (arith, space.0))
          ∙ ap₂ ◌∷◌ (c.1 ∙ ap g (rw below va)) r,
    )

-- The instructions that change the top item.
pub data Single : Type 0 where
  iszero not : Single

abbrev pub single_handler : Single → Stack → Stack
single_handler iszero = op_iszero
single_handler not = op_not

abbrev pub single_meaning : Single → ℕ → ℕ
single_meaning iszero a = from_bool (a == 0)
single_meaning not a = 2 ^ 256 - 1 - a

-- On a well-formed stack of one number or more the handlers of ISZERO and NOT replace the top
-- number by whether it is 0 and by its complement in 256 bits; the numbers below stay and the
-- stack stays well-formed.
pub single_handler-meaning :
    (o : Single) (s : Stack) (a : ℕ) (rest : List ℕ)
    → Holds s (a ∷ rest)
    → Holds (single_handler o s) (single_meaning o a ∷ rest)
unfolding op_iszero op_not traits copy256
single_handler-meaning iszero =
    single_lem (λ x. if zero256 x then one_item else zero_item) (single_meaning iszero)
      (λ x hx. test_lem _ _ (zero256_lem x))
single_handler-meaning not = single_lem not256 (single_meaning not) value-not256

-- The handler of POP takes the top number from a well-formed stack.
pub op_pop-values : (s : Stack) (a : ℕ) (rest : List ℕ) → Holds s (a ∷ rest) → Holds (op_pop s) rest
unfolding op_pop traits
op_pop-values s a rest ((space, top), e) =
    let (n, t, va, r) = held_one s.space s.top_item a rest e in
    let below : s.top_item - 1 ≡ n = omega arith in ((space, omega arith), rw below r)
