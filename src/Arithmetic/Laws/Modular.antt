-- ===== src/Arithmetic/Laws/Modular.antt =====
-- ADDMOD: what the handler leaves in place of three numbers.
use tsc_vee.Base.{
  ℕ, suc, ◌+◌, ◌-◌, ◌/◌, ◌%◌, ◌^◌, ◌<◌, ◌≡◌, inl, inr, sym, ap, ap₂, ◌∙◌, List, ◌∷◌, arith, some,
  ◌==◌, if◌then◌else◌, Bool-cases,
}
use tsc_vee.Uint256.{Uint256, zero256, copy256, add256}
use tsc_vee.Uint256.Value.{value256, IsWord256}
use tsc_vee.Uint256.Sum.{zero256_lem, value-add256}
use tsc_vee.Uint256.Division.{divmod256_lem}
use tsc_vee.Traits.{traits}
use tsc_vee.Stack.{Stack, item, set_item, zero_item}
use tsc_vee.Stack.Laws.{held_one, held_two, held_written, set-IsSpace}
use tsc_vee.Arithmetic.Laws.Binary.{Holds}
use tsc_vee.Arithmetic.Handlers.{op_addmod}

-- The stack after a write through the pointer to the third item, and two items less.
abbrev replace_three : Stack → Uint256 → Stack
replace_three s v = record {
  space = set_item s.space (s.top_item - 2) v;
  top_item = s.top_item - 2;
}

three_items :
    (s : Stack) (a b m : ℕ) (rest : List ℕ)
    → Holds s (a ∷ b ∷ m ∷ rest)
    → (value256 (item s.space s.top_item) ≡ a)
      × (value256 (item s.space (s.top_item - 1)) ≡ b)
      × (value256 (item s.space (s.top_item - 2)) ≡ m)
      × ((i : ℕ) → IsWord256 (item s.space i))
      × ((v : Uint256) → IsWord256 v → Holds (replace_three s v) (value256 v ∷ rest))
three_items s a b m rest ((space, top), e) =
    let (n, t, va, vb, r) = held_two s.space s.top_item a b (m ∷ rest) e in
    let (k, t', vm, r') = held_one s.space n m rest r in
    let e1 : s.top_item - 1 ≡ suc n = omega arith in
    let e2 : s.top_item - 1 - 1 ≡ n = omega arith in
    let e3 : s.top_item - 2 - 1 ≡ k = omega arith in
    (
      rw e1 va,
      rw e2 vb,
      rw e3 vm,
      λ i. space.1 (i - 1),
      λ v w. (
        (set-IsSpace s.space (s.top_item - 2 - 1) v space w, omega arith),
        held_written s.space k _ _ v e3 (omega arith) (omega (arith, space.0))
            ∙ ap (λ xs. value256 v ∷ xs) r',
      ),
    )

-- On a well-formed stack of three numbers or more the handler of ADDMOD ends and replaces the
-- three top numbers by the quotient, not the remainder, of the sum modulo 2 ^ 256 of the first
-- two by the third, 0 for a third number 0; the numbers below stay and the stack stays
-- well-formed.
pub op_addmod-values :
    (s : Stack) (a b m : ℕ) (rest : List ℕ)
    → Holds s (a ∷ b ∷ m ∷ rest)
    → (s' : Stack) × (op_addmod s ≡ some s')
      × Holds s' ((if m == 0 then 0 else (a + b) % 2 ^ 256 / m) ∷ rest)
unfolding op_addmod traits copy256
op_addmod-values s a b m rest h =
    let (va, vb, vm, words, written) = three_items s a b m rest h in
    let third = item s.space (s.top_item - 2) in
    let sum = add256 (item s.space s.top_item) (item s.space (s.top_item - 1)) in
    let added =
      value-add256 (item s.space s.top_item) (item s.space (s.top_item - 1)) (words _) (words _) in
    elim (Bool-cases (zero256 third)) [
      | inl none_ ↦
          let e : (if m == 0 then 0 else (a + b) % 2 ^ 256 / m) ≡ 0 =
            ground (arith, zero256_lem third) in
          let t = written zero_item (omega arith) in
          (replace_three s zero_item, rw none_, (t.0, t.1 ∙ ap (λ n. n ∷ rest) (sym e)))
      | inr some_ ↦
          let pos : 0 < value256 third = ground (arith, zero256_lem third) in
          let (q, eq, (wd, wm), vd, vr) =
            divmod256_lem sum third added.0 (words (s.top_item - 2)) pos in
          let t = written q.div wd in
          let e : (if m == 0 then 0 else (a + b) % 2 ^ 256 / m) ≡ (a + b) % 2 ^ 256 / m =
            ground arith in
          let v =
            ap₂ (λ (x y : ℕ). x / y) (added.1 ∙ ap₂ (λ (x y : ℕ). (x + y) % 2 ^ 256) va vb) vm in
          (
            replace_three s q.div,
            rw some_ (rw eq),
            (t.0, t.1 ∙ ap (λ n. n ∷ rest) (vd ∙ v ∙ sym e)),
          )
    ]
