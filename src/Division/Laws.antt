-- ===== src/Division/Laws.antt =====
-- The loop of the long division.
use tsc_vee.Base.{
  ℕ, zero, suc, ◌+◌, ◌-◌, ◌*◌, ◌^◌, ◌≤◌, ◌<◌, ◌≡◌, inl, inr, sym, ap, ap₂, ◌∙◌, true, false, Option,
  some, arith, leb→le, leb-false→lt, Bool-cases, bit_or, while, while-done, while-step,
}
use tsc_vee.Base.Pow.{two-pow-suc, two-pow-pos}
use tsc_vee.Base.Bits.{bit_or_fields}
use tsc_vee.Base.Split.{mod_unique}
use tsc_vee.Division.{Operations, Step, divmod_test, divmod_body}
use tsc_vee.Division.Interface.{Laws}

module _ {W : Type 0} {ops : Operations W} (laws : Laws ops) where
  open laws use {width, IsWord, value}

  abbrev pub AllWords : Step W → Type 0
  AllWords s = IsWord s.copyd × IsWord s.adder × IsWord s.res_div × IsWord s.res_mod

  pub divmod_body-AllWords :
      (r : W) (s : Step W) → IsWord r → AllWords s → AllWords (divmod_body ops r s)
  unfolding divmod_body
  divmod_body-AllWords r s hr h = (
    (laws.shiftr_lem s.copyd 1 h.0).0,
    (laws.shiftr_lem s.adder 1 h.1).0,
    ground (arith, laws.or_lem s.res_div s.adder h.2 h.1, h),
    ground (arith, laws.minus_lem s.res_mod s.copyd h.3 h.0, h),
  )

  module _ (l r : W) (hl : IsWord l) (hr : IsWord r) where
    -- What is left to divide is below `2 ^ k` divisors, and the quotient so far is a multiple
    -- of `2 ^ k`.
    pub record Reduced (k : ℕ) (s : Step W) : Type 0 where
      pub words : AllWords s
      pub times : ℕ
      pub quotient : value s.res_div ≡ times * 2 ^ k
      pub below : value s.res_mod < value r * 2 ^ k
      pub total : value s.res_div * value r + value s.res_mod ≡ value l

    pub record Aligned (k : ℕ) (s : Step W) : Type 0 where
      pub reduced : Reduced (suc k) s
      pub aligned : value s.copyd ≡ value r * 2 ^ k
      pub unit : value s.adder ≡ 2 ^ k

    round_quotient :
        (k : ℕ) (s : Step W)
        → Aligned k s
        → value (ops.or s.res_div s.adder) ≡ value s.res_div + 2 ^ k
    round_quotient k s a =
        (laws.or_lem s.res_div s.adder a.reduced.words.2 a.reduced.words.1).1
        ∙ ap₂ bit_or a.reduced.quotient a.unit
        ∙ bit_or_fields (suc k) a.reduced.times (2 ^ k)
            (omega (arith, two-pow-suc k, two-pow-pos k))
        ∙ omega (arith, a.reduced.quotient)

    round_rest :
        (k : ℕ) (s : Step W)
        → Aligned k s
        → value s.copyd ≤ value s.res_mod
        → value (ops.minus s.res_mod s.copyd) ≡ value s.res_mod - value s.copyd
    round_rest k s a h =
        (laws.minus_lem s.res_mod s.copyd a.reduced.words.3 a.reduced.words.0).1
        ∙ mod_unique _ 1 _ (2 ^ width) (omega arith)
            (omega (arith, laws.value-lt s.res_mod a.reduced.words.3))

    -- One round of the loop halves the bound on what is left.
    divmod_body-Reduced : (k : ℕ) (s : Step W) → Aligned k s → Reduced k (divmod_body ops r s)
    unfolding divmod_body
    divmod_body-Reduced k s a = elim (Bool-cases (ops.gte s.res_mod s.copyd)) [
      | inl taken ↦
          let enough =
            leb→le _ _
              (sym (laws.gte_lem s.res_mod s.copyd a.reduced.words.3 a.reduced.words.0) ∙ taken) in
          record {
            words = divmod_body-AllWords r s hr a.reduced.words;
            times = 2 * a.reduced.times + 1;
            quotient = ground (
              arith,
              taken,
              round_quotient k s a,
              a.reduced.quotient,
              ap (λ (x : ℕ). a.reduced.times * x) (two-pow-suc k),
            );
            below = ground (
              arith,
              taken,
              round_rest k s a enough,
              ap (λ (x : ℕ). value r * x) (two-pow-suc k),
            );
            total = ground (
              arith,
              taken,
              round_rest k s a enough,
              ap (λ (x : ℕ). x * value r) (round_quotient k s a),
            );
          }
      | inr left ↦
          let short =
            leb-false→lt _ _
              (sym (laws.gte_lem s.res_mod s.copyd a.reduced.words.3 a.reduced.words.0) ∙ left) in
          record {
            words = divmod_body-AllWords r s hr a.reduced.words;
            times = 2 * a.reduced.times;
            quotient = ground (arith, left, ap (λ (x : ℕ). a.reduced.times * x) (two-pow-suc k));
            below = ground (arith, left);
            total = ground (arith, left);
          }
    ]

    divmod_body-Aligned : (k : ℕ) (s : Step W) → Aligned (suc k) s → Aligned k (divmod_body ops r s)
    unfolding divmod_body
    divmod_body-Aligned k s a = record {
      reduced = divmod_body-Reduced (suc k) s a;
      aligned = omega (
        arith,
        (laws.shiftr_lem s.copyd 1 a.reduced.words.0).1,
        ap (λ (x : ℕ). value r * x) (two-pow-suc k),
      );
      unit = omega (arith, (laws.shiftr_lem s.adder 1 a.reduced.words.1).1, two-pow-suc k);
    }

    pub record Divided (result : Option (Step W)) : Type 0 where
      pub last : Step W
      pub returns : result ≡ some last
      pub words : AllWords last
      pub below : value last.res_mod < value r
      pub total : value last.res_div * value r + value last.res_mod ≡ value l

    ends :
        (fuel k : ℕ) (s : Step W)
        → Reduced k s
        → divmod_test ops r s ≡ false
        → Divided (while (suc fuel) (divmod_test ops r) (divmod_body ops r) s)
    unfolding divmod_test
    ends fuel k s red stop = record {
      last = s;
      returns = while-done (divmod_test ops r) (divmod_body ops r) fuel s stop;
      words = red.words;
      below = leb-false→lt _ _ (sym (laws.gte_lem s.res_mod r red.words.3 hr) ∙ stop);
      total = red.total;
    }

    step_back :
        (fuel : ℕ) (s : Step W)
        → divmod_test ops r s ≡ true
        → Divided (while fuel (divmod_test ops r) (divmod_body ops r) (divmod_body ops r s))
        → Divided (while (suc fuel) (divmod_test ops r) (divmod_body ops r) s)
    step_back fuel s more d = record {
      last = d.last;
      returns = while-step (divmod_test ops r) (divmod_body ops r) fuel s more ∙ d.returns;
      words = d.words;
      below = d.below;
      total = d.total;
    }

    stops : (s : Step W) → Reduced 0 s → divmod_test ops r s ≡ false
    unfolding divmod_test
    stops s red = laws.gte_lem s.res_mod r red.words.3 hr ∙ ground (arith, red.below)

    pub divmod_loop :
        (k fuel : ℕ) (s : Step W)
        → k < fuel
        → Aligned k s
        → Divided (while (suc fuel) (divmod_test ops r) (divmod_body ops r) s)
    divmod_loop k zero s lt a = absurd (omega arith)
    divmod_loop zero (suc fuel) s lt a = elim (Bool-cases (divmod_test ops r s)) [
      | inl more ↦
          let red = divmod_body-Reduced 0 s a in
          step_back (suc fuel) s more (ends fuel 0 (divmod_body ops r s) red (stops _ red))
      | inr stop ↦ ends (suc fuel) 1 s a.reduced stop
    ]
    divmod_loop (suc k) (suc fuel) s lt a = elim (Bool-cases (divmod_test ops r s)) [
      | inl more ↦
          step_back (suc fuel) s more
            (divmod_loop k fuel (divmod_body ops r s) (omega arith) (divmod_body-Aligned k s a))
      | inr stop ↦ ends (suc fuel) (suc (suc k)) s a.reduced stop
    ]
