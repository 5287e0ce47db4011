-- ===== src/Arithmetic/Laws/Division.antt =====
-- The handlers of DIV, SDIV, MOD and SMOD on the abstract stack.
use tsc_vee.Base.{
  ℕ, ◌-◌, ◌/◌, ◌%◌, ◌<◌, ◌≡◌, inl, inr, sym, ap, ap₂, ◌∙◌, List, ◌∷◌, arith, true, false, Option,
  some, ◌==◌, if◌then◌else◌, Bool-cases,
}
use tsc_vee.Division.{Quotient}
use tsc_vee.Uint256.{Uint256, zero256, copy256}
use tsc_vee.Uint256.Value.{value256, IsWord256}
use tsc_vee.Uint256.Sum.{zero256_lem}
use tsc_vee.Uint256.Division.{divmod256, divmod256_lem}
use tsc_vee.Traits.{traits}
use tsc_vee.Stack.{Stack, item, zero_item}
use tsc_vee.Arithmetic.Laws.Binary.{Holds, replace_two, two_items}
use tsc_vee.Arithmetic.Handlers.{op_div, op_sdiv, op_mod, op_smod}

abbrev left : Stack → Uint256
left s = item s.space s.top_item

abbrev right : Stack → Uint256
right s = item s.space (s.top_item - 1)

-- A handler that divides by the second item, keeps a part of the result, and leaves 0 for a divisor 0.
record Divides (run : Stack → Option Stack) (pick : Quotient Uint256 → Uint256) : Type 0 where
  on_zero : (s : Stack) → zero256 (right s) ≡ true → run s ≡ some (replace_two s zero_item)
  on_word :
      (s : Stack) (q : Quotient Uint256)
      → zero256 (right s) ≡ false
      → divmod256 (left s) (right s) ≡ some q
      → run s ≡ some (replace_two s (pick q))

divides_lem :
    (run : Stack → Option Stack) (pick : Quotient Uint256 → Uint256) (g : ℕ → ℕ → ℕ)
    → Divides run pick
    → ((l r : ℕ) (q : Quotient Uint256)
        → IsWord256 q.div
        → IsWord256 q.mod_
        → value256 q.div ≡ l / r
        → value256 q.mod_ ≡ l % r
        → IsWord256 (pick q) × (value256 (pick q) ≡ g l r))
    → (s : Stack) (a b : ℕ) (rest : List ℕ) → Holds s (a ∷ b ∷ rest)
    → (s' : Stack) × (run s ≡ some s') × Holds s' ((if b == 0 then 0 else g a b) ∷ rest)
divides_lem run pick g d correct s a b rest h =
    let (wx, wy, va, vb, written) = two_items s a b rest h in
    elim (Bool-cases (zero256 (right s))) [
      | inl none ↦
          let e : (if b == 0 then 0 else g a b) ≡ 0 = ground (arith, zero256_lem (right s)) in
          let t = written zero_item (omega arith) in
          (replace_two s zero_item, d.on_zero s none, (t.0, t.1 ∙ ap (λ n. n ∷ rest) (sym e)))
      | inr some_ ↦
          let pos : 0 < value256 (right s) = ground (arith, zero256_lem (right s)) in
          let (q, eq, (wd, wm), vd, vm) = divmod256_lem (left s) (right s) wx wy pos in
          let c = correct _ _ q wd wm vd vm in
          let t = written (pick q) c.0 in
          let e : (if b == 0 then 0 else g a b) ≡ g a b = ground arith in
          (
            replace_two s (pick q),
            d.on_word s q some_ eq,
            (t.0, t.1 ∙ ap (λ n. n ∷ rest) (c.1 ∙ ap₂ g va vb ∙ sym e)),
          )
    ]

no_step : (s : Stack) → s.top_item - 0 ≡ s.top_item
no_step s = omega arith

div-Divides : Divides op_div Quotient.div
unfolding op_div traits copy256
div-Divides = record { on_zero = λ s e. rw e; on_word = λ s q e d. rw e (rw (no_step s) (rw d)) }

sdiv-Divides : Divides op_sdiv Quotient.div
unfolding op_sdiv traits copy256
sdiv-Divides = record { on_zero = λ s e. rw e; on_word = λ s q e d. rw e (rw (no_step s) (rw d)) }

mod-Divides : Divides op_mod Quotient.mod_
unfolding op_mod traits copy256
mod-Divides = record { on_zero = λ s e. rw e; on_word = λ s q e d. rw e (rw (no_step s) (rw d)) }

smod-Divides : Divides op_smod Quotient.mod_
unfolding op_smod traits copy256
smod-Divides = record { on_zero = λ s e. rw e; on_word = λ s q e d. rw e (rw (no_step s) (rw d)) }

-- The instructions that divide, by their handlers.
pub data Dividing : Type 0 where
  div sdiv mod_ smod : Dividing

abbrev pub divide_handler : Dividing → Stack → Option Stack
divide_handler div = op_div
divide_handler sdiv = op_sdiv
divide_handler mod_ = op_mod
divide_handler smod = op_smod

-- The signed instructions do what the unsigned ones do.
abbrev pub divide_meaning : Dividing → ℕ → ℕ → ℕ
divide_meaning div a b = if b == 0 then 0 else a / b
divide_meaning sdiv a b = if b == 0 then 0 else a / b
divide_meaning mod_ a b = if b == 0 then 0 else a % b
divide_meaning smod a b = if b == 0 then 0 else a % b

-- On a well-formed stack of two numbers or more the handlers of DIV, SDIV, MOD and SMOD end, by
-- a divisor 0 too, and replace the two top numbers by the quotient or remainder of the unsigned
-- numbers, 0 for a divisor 0; the numbers below stay and the stack stays well-formed.
pub divide_handler-meaning :
    (o : Dividing) (s : Stack) (a b : ℕ) (rest : List ℕ)
    → Holds s (a ∷ b ∷ rest)
    → (s' : Stack) × (divide_handler o s ≡ some s') × Holds s' (divide_meaning o a b ∷ rest)
divide_handler-meaning div =
    divides_lem op_div Quotient.div ◌/◌ div-Divides (λ l r q wd wm vd vm. (wd, vd))
divide_handler-meaning sdiv =
    divides_lem op_sdiv Quotient.div ◌/◌ sdiv-Divides (λ l r q wd wm vd vm. (wd, vd))
divide_handler-meaning mod_ =
    divides_lem op_mod Quotient.mod_ ◌%◌ mod-Divides (λ l r q wd wm vd vm. (wm, vm))
divide_handler-meaning smod =
    divides_lem op_smod Quotient.mod_ ◌%◌ smod-Divides (λ l r q wd wm vd vm. (wm, vm))
