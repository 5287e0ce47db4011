-- ===== src/Analysis/Code.antt =====
-- The walk of `analyze` over the code, round by round.
use native.Mathlib.Decide.{dec_lt}
use tsc_vee.Base.{
  ℕ, zero, suc, ◌-◌, ◌≤◌, ◌<◌, ◌≡◌, refl, ◌∙◌, true, false, List, [], ◌∷◌, length, drop, some,
  while, while-done, while-step, arith,
}
use tsc_vee.Bytes.{byte_at}
use tsc_vee.Dispatch.{OpTableSlot}
use tsc_vee.Analysis.{Progress, next_pos, analyze_test, analyze_body}

pub drop_at :
    (code : List ℕ) (p : ℕ) → p < length code → drop p code ≡ byte_at code p ∷ drop (suc p) code
drop_at [] p lt = absurd (omega arith)
drop_at (b ∷ code) zero lt = refl
drop_at (b ∷ code) (suc p) lt = drop_at code p (omega arith)

pub drop_all : (code : List ℕ) (p : ℕ) → length code ≤ p → drop p code ≡ []
drop_all [] zero le = refl
drop_all [] (suc p) le = refl
drop_all (b ∷ code) zero le = absurd (omega arith)
drop_all (b ∷ code) (suc p) le = drop_all code p (omega arith)

module _ (table : ℕ → OpTableSlot) (code : List ℕ) where
  pub next_pos_lem :
      (opcode p : ℕ)
      → p < length code
      → (p < next_pos table code opcode p) × (next_pos table code opcode p ≤ length code)
  unfolding next_pos
  next_pos_lem opcode p lt = ground arith

  test_lem : (s : Progress) → s.code_pos < length code → analyze_test table code s ≡ true
  unfolding analyze_test
  test_lem s lt = ground arith

  test_end : (s : Progress) → s.code_pos ≡ length code → analyze_test table code s ≡ false
  unfolding analyze_test
  test_end s e = ground arith

  body-code_pos :
      (s : Progress)
      → (analyze_body table code s).code_pos
        ≡ next_pos table code (byte_at code s.code_pos) s.code_pos
  unfolding analyze_body
  body-code_pos s = refl

  -- The loop ends at the end of the code, with every invariant of its rounds.
  pub analyze_loop_lem :
      (P : Progress → Type 0)
      → ((s : Progress) → s.code_pos < length code → P s → P (analyze_body table code s))
      → (fuel : ℕ) (s : Progress) → s.code_pos ≤ length code
      → length code - s.code_pos < fuel
      → P s
      → (s' : Progress) × (while fuel (analyze_test table code) (analyze_body table code) s
          ≡ some s')
        × (s'.code_pos ≡ length code)
        × P s'
  analyze_loop_lem P keep zero s le enough p = absurd (omega arith)
  analyze_loop_lem P keep (suc fuel) s le enough p = elim (dec_lt s.code_pos (length code)) [
    | no ge ↦
        let e : s.code_pos ≡ length code = omega arith in
        (
          s,
          while-done (analyze_test table code) (analyze_body table code) fuel s (test_end s e),
          e,
          p,
        )
    | yes lt ↦
        let n = next_pos_lem (byte_at code s.code_pos) s.code_pos lt in
        let e = body-code_pos s in
        let (s', w, at, p') =
          analyze_loop_lem P keep fuel (analyze_body table code s) (omega (arith, e, n))
            (omega (arith, e, n)) (keep s lt p) in
        (
          s',
          while-step (analyze_test table code) (analyze_body table code) fuel s (test_lem s lt) ∙ w,
          at,
          p',
        )
  ]
