-- ===== src/Analysis/Push.antt =====
-- The values that the analysis writes for PUSH1 to PUSH8.
use tsc_vee.Base.{
  ℕ, zero, suc, ◌+◌, ◌-◌, ◌*◌, ◌%◌, ◌^◌, ◌≤◌, ◌<◌, ◌≡◌, refl, ap, ◌∙◌, true, ◌||◌, List, [], ◌∷◌,
  length, min, u64, arith,
}
use tsc_vee.Base.Pow.{pow-add}
use tsc_vee.Opcode
use tsc_vee.Bytes.{byte_at, ◌⋁◌}
use tsc_vee.Bytes.Laws.{AreBytes, or_next}
use tsc_vee.Dispatch.{OpTableSlot}
use tsc_vee.Analysis.{any_small_push, any_large_push, next_pos, small_push, small_push_loop}

-- The number that `n` bytes from a position on spell, the most significant first; behind the end of
-- the code there are zeros.
abbrev pub spelled : ℕ → List ℕ → ℕ → ℕ
spelled zero code p = 0
spelled (suc n) code p = byte_at code p * 2 ^ (8 * n) + spelled n code (suc p)

byte_at_end : (code : List ℕ) (p : ℕ) → length code ≤ p → byte_at code p ≡ 0
byte_at_end [] p le = refl
byte_at_end (b ∷ code) zero le = absurd (omega arith)
byte_at_end (b ∷ code) (suc p) le = byte_at_end code p (omega arith)

spelled_end : (n : ℕ) (code : List ℕ) (p : ℕ) → length code ≤ p → spelled n code p ≡ 0
spelled_end zero code p le = refl
spelled_end (suc n) code p le =
    rw (byte_at_end code p le) (omega (arith, spelled_end n code (suc p) (omega arith)))

module _ (code : List ℕ) (are : AreBytes code) where
  -- `m` bytes are missing, `r` of them inside of the code.
  loop_lem :
      (r m q p value bit : ℕ)
      → m ≤ 8
      → r ≤ m
      → (r < m → length code ≤ p + r)
      → value ≡ q * 2 ^ (8 * m)
      → (0 < m → bit ≡ 8 * (m - 1))
      → small_push_loop r code p value bit ≡ q * 2 ^ (8 * m) + spelled m code p
  unfolding small_push_loop
  loop_lem zero zero q p value bit few le out e at = omega (arith, e)
  loop_lem zero (suc m) q p value bit few le out e at =
      omega (arith, e, spelled_end (suc m) code p (omega (arith, out (omega arith))))
  loop_lem (suc r) zero q p value bit few le out e at = absurd (omega arith)
  loop_lem (suc r) (suc m) q p value bit few le out e at =
      let b = byte_at code p in
      let here : bit ≡ 8 * m = omega (arith, at (omega arith)) in
      let split : 2 ^ (8 + 8 * m) ≡ 2 ^ 8 * 2 ^ (8 * m) = pow-add 2 8 (8 * m) in
      let whole : 2 ^ (8 * suc m) ≡ 2 ^ (8 + 8 * m) = ap (λ t. 2 ^ t) (omega arith) in
      let x : value ≡ q * 2 ^ (8 + 8 * m) = e ∙ ap (λ t. q * t) whole in
      let next = or_next (8 * m) q b value (omega arith) x (are p) in
      let rest =
        loop_lem r m (q * 2 ^ 8 + b) (suc p) _ (u64 (bit + (2 ^ 64 - 8))) (omega arith)
          (omega arith) (λ lt. omega (arith, out (omega arith)))
          (ap (λ t. value ⋁ b * 2 ^ t % 2 ^ 64) here ∙ next) (λ some_left. omega arith) in
      let shifted : q * 2 ^ (8 + 8 * m) ≡ q * (2 ^ 8 * 2 ^ (8 * m)) = ap (λ (t : ℕ). q * t) split in
      rest ∙ omega (arith, shifted, ap (λ (t : ℕ). q * t) whole)

  -- For a code of bytes and one of PUSH1 to PUSH8 inside of it, the value that the analysis
  -- writes is the number that the bytes of the instruction spell, the most significant first,
  -- with zeros in place of those behind the end of the code.
  pub small_push-spelled :
      (table : ℕ → OpTableSlot) (opcode p : ℕ)
      → any_small_push opcode ≡ true
      → p < length code
      → small_push table code opcode p ≡ spelled (opcode - Opcode.op_push1 + 1) code (suc p)
  unfolding small_push next_pos
  small_push-spelled table opcode p small lt =
      let n = opcode - Opcode.op_push1 + 1 in
      let any : (any_small_push opcode || any_large_push opcode) ≡ true = rw small refl in
      let few : n ≤ 8 = ground arith in
      let r = min (suc p + n) (length code) - suc p in
      rw any (
        loop_lem r n 0 (suc p) 0 ((n - 1) * 8) few (omega arith) (λ cut. omega arith) (omega arith)
          (λ some_bytes. omega arith)
        ∙ omega arith)
