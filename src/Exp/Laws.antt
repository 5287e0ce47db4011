-- ===== src/Exp/Laws.antt =====
-- What EXP leaves on the stack.
use tsc_vee.Base.{
  ℕ, zero, suc, ◌+◌, ◌-◌, ◌*◌, ◌^◌, ◌<◌, ◌≡◌, refl, sym, ap, ◌∙◌, List, ◌∷◌, false, not,
  if◌then◌else◌, from_bool, ◌==◌, ==_iff, leb, some, while, while-done, while-step, Bool-cases, inl,
  inr, arith,
}
use tsc_vee.Base.Int.{pos, ◌-ℤ◌, ltb_ℤ}
use tsc_vee.Revision.{evmc_spurious_dragon}
use tsc_vee.Uint256.{Uint256, zero256, copy256}
use tsc_vee.Uint256.Value.{value256, IsWord256}
use tsc_vee.Uint256.Sum.{zero256_lem, value-minus256}
use tsc_vee.Traits.{traits}
use tsc_vee.Stack.{Stack, item, one_item}
use tsc_vee.Jump.{instruction}
use tsc_vee.Arithmetic.Laws.Binary.{Holds, two_items, replace_two}
use tsc_vee.Exp.{
  Power, exp_test, exp_body, raise, csb256, count_significant_bytes, clz, clz_loop, exp_, op_exp,
}

abbrev Zero : Uint256 → Type 0
Zero x = IsWord256 x × (value256 x ≡ 0)

-- The loop counts the exponent down to 0.
loop_lem :
    (base : Uint256) (fuel : ℕ) (s : Power)
    → IsWord256 s.exponent
    → value256 s.exponent < fuel
    → (s' : Power) × (while fuel exp_test (exp_body base) s ≡ some s') × Zero s'.exponent
unfolding exp_test exp_body copy256
loop_lem base zero s h enough = absurd (omega arith)
loop_lem base (suc fuel) s h enough = elim (Bool-cases (zero256 s.exponent)) [
  | inl e ↦
      let zero : value256 s.exponent ≡ 0 =
        (==_iff (value256 s.exponent) 0).0 (sym (zero256_lem s.exponent) ∙ e) in
      (s, while-done exp_test (exp_body base) fuel s (ap not e), (h, zero))
  | inr e ↦
      let positive : (value256 s.exponent == 0) ≡ false = sym (zero256_lem s.exponent) ∙ e in
      let (word, less) = value-minus256 s.exponent one_item h (omega arith) in
      let (s', w, z) = loop_lem base fuel (exp_body base s) word (ground arith) in
      (s', while-step exp_test (exp_body base) fuel s (ap not e) ∙ w, z)
]

-- A number below 2 ^ 64 has no significant bytes.
csb256_small : (x : Uint256) → IsWord256 x → value256 x < 2 ^ 64 → csb256 x ≡ 0
unfolding csb256 count_significant_bytes clz clz_loop
csb256_small x h lt =
    let e3 : x.upper.upper ≡ 0 = omega arith in
    let e2 : x.upper.lower ≡ 0 = omega arith in
    let e1 : x.lower.upper ≡ 0 = omega arith in rw (e3, e2, e1) refl

raise_lem :
    (fuel : ℕ) (base exponent : Uint256)
    → IsWord256 exponent
    → value256 exponent < fuel
    → (x : Uint256) × (raise fuel base exponent ≡ some x)
      × IsWord256 x
      × (value256 x ≡ from_bool (value256 exponent == 0))
unfolding raise
raise_lem fuel base exponent h enough = elim (Bool-cases (zero256 exponent)) [
  | inl e ↦
      let zero = sym (zero256_lem exponent) ∙ e in (one_item, rw e refl, omega arith, rw zero refl)
  | inr e ↦
      let some_left = sym (zero256_lem exponent) ∙ e in
      let (s, w, (word, z)) =
        loop_lem base fuel record { target = base; exponent = exponent } h enough in
      (s.exponent, rw (e, w) refl, word, rw some_left z)
]

nothing_paid : (gas n price : ℕ) → n ≡ 0 → pos gas -ℤ pos (n * price) ≡ pos gas
unfolding ◌-ℤ◌
nothing_paid gas n price e =
    let none : n * price ≡ 0 = ap (λ (t : ℕ). t * price) e ∙ omega arith in rw none (ground arith)

not_negative : (gas : ℕ) → ltb_ℤ (pos gas) (pos 0) ≡ false
not_negative gas = ground arith

-- On a well-formed stack of two numbers or more, the second below 2 ^ 64, and with gas of 0 or
-- more: the handler of EXP ends within as many rounds as the second number and one more, for no
-- further gas, and replaces the two numbers by 1 if the second is 0 and by 0 if not; the numbers
-- below stay.
pub op_exp-values :
    (fuel instr : ℕ) (s : Stack) (rev gas a b : ℕ) (rest : List ℕ)
    → Holds s (a ∷ b ∷ rest)
    → b < 2 ^ 64
    → b < fuel
    → (s' : Stack) × (op_exp fuel instr s rev (pos gas)
        ≡ some (instruction (instr + 1), s', pos gas))
      × Holds s' (from_bool (b == 0) ∷ rest)
unfolding op_exp exp_ traits
op_exp-values fuel instr s rev gas a b rest holds small enough =
    let (wa, wb, va, vb, after) = two_items s a b rest holds in
    let base = item s.space s.top_item in
    let exponent = item s.space (s.top_item - 1) in
    let (x, e, word, v) = raise_lem fuel base exponent wb (omega arith) in
    let free = csb256_small exponent wb (omega arith) in
    (
      replace_two s x,
      rw
          (
            nothing_paid gas (csb256 exponent) (if leb evmc_spurious_dragon rev then 50 else 10)
                free,
            not_negative gas,
            e,
          )
          refl,
      rw (sym vb, sym v) (after x word),
    )
