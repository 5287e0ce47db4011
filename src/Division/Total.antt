-- ===== src/Division/Total.antt =====
-- `divmod` as a whole: the aligned start, the quotient and the remainder, and division by zero.
use native.Mathlib.Nat.{pow-le-pow_right, mul-le-mul_right, mul-lt-mul_of_pos_right}
use native.Mathlib.Decide.{dec_le}
use tsc_vee.Base.{
  ℕ, zero, suc, ◌+◌, ◌-◌, ◌*◌, ◌/◌, ◌%◌, ◌^◌, ◌≤◌, ◌<◌, ◌≡◌, inl, inr, sym, ap, ◌∙◌, true, false,
  some, none, arith, ltb→lt, ltb-false→le, Bool-cases, while, while-diverges, u32,
}
use tsc_vee.Base.Pow.{two-pow-suc, two-pow-pos, pow-add}
use tsc_vee.Base.BitLength.{IsBitLength}
use tsc_vee.Base.Split.{mod_unique, div_unique}
use native.Mathlib.Nat.{mod-eq_of_lt, div-eq_of_lt}
use tsc_vee.Division.{Operations, Step, Quotient, divmod, divmod_test, divmod_body, divmod_start}
use tsc_vee.Division.Interface.{Laws}
use tsc_vee.Division.Laws.{Reduced, Aligned, divmod_loop, AllWords, divmod_body-AllWords}

-- The bit lengths of a dividend and of a divisor that is not larger.
module _ (x y m n : ℕ) (hx : IsBitLength x m) (hy : IsBitLength y n) (le : y ≤ x)
    (pos : 0 < y) where
  lengths_le : n ≤ m
  lengths_le = elim (dec_le n m) [
    | yes h ↦ h
    | no h ↦
        let far : 2 ^ suc m ≤ 2 ^ n = pow-le-pow_right {n = 2} (omega arith) (omega arith) in
        absurd (omega (arith, two-pow-suc m))
  ]

  cut_length : 2 ^ m ≡ 2 ^ n * 2 ^ (m - n)
  cut_length =
      let e : m ≡ n + (m - n) = omega (arith, lengths_le) in ap (λ t. 2 ^ t) e ∙ pow-add 2 n (m - n)

  aligned-lt : y * 2 ^ (m - n) < 2 ^ m
  aligned-lt =
      omega
        (arith, cut_length, mul-lt-mul_of_pos_right {k = 2 ^ (m - n)} hy.0 (two-pow-pos (m - n)))

  aligned_above : x < y * 2 ^ suc (m - n)
  aligned_above = omega (
    arith,
    cut_length,
    two-pow-suc (m - n),
    mul-le-mul_right {m = 2 ^ n} {n = 2 * y} (2 ^ (m - n)) (omega arith),
    ap (λ (t : ℕ). y * t) (two-pow-suc (m - n)),
  )

length_pos : (y n : ℕ) → IsBitLength y n → 0 < y → 0 < n
length_pos y zero h pos = absurd (omega arith)
length_pos y (suc n) h pos = omega arith

-- What `divmod` returns, from the results of its calls.
module _ {W : Type 0} (ops : Operations W) (l r : W) (fuel : ℕ) where
  divmod_small :
      {m n : ℕ}
      → ops.bits l ≡ some m
      → ops.bits r ≡ some n
      → ops.gt r l ≡ true
      → divmod ops r fuel l ≡ some (record { div = ops.clear; mod_ = l })
  unfolding divmod
  divmod_small bl br small = rw (bl, br, small)

  divmod_runs :
      {m n : ℕ} {s : Step W}
      → ops.bits l ≡ some m
      → ops.bits r ≡ some n
      → ops.gt r l ≡ false
      → while fuel
          (divmod_test ops r)
          (divmod_body ops r)
          (divmod_start ops r l (u32 (m + 2 ^ 32 - n)))
        ≡ some s
      → divmod ops r fuel l ≡ some (record { div = s.res_div; mod_ = s.res_mod })
  unfolding divmod
  divmod_runs bl br large run = rw (bl, br, large, run)

module _ {W : Type 0} {ops : Operations W} (laws : Laws ops) (l r : W) where
  open laws use {width, IsWord, value}

  -- What `divmod` promises of a quotient.
  pub record Divides (q : Quotient W) : Type 0 where
    pub div_word : IsWord q.div
    pub mod_word : IsWord q.mod_
    pub div_lem : value q.div ≡ value l / value r
    pub mod_lem : value q.mod_ ≡ value l % value r

  module _ (hl : IsWord l) (hr : IsWord r) where
    start_words : (d : ℕ) → AllWords laws (divmod_start ops r l d)
    unfolding divmod_start
    start_words d =
        let c = laws.shiftl_lem r d hr in
        let a = laws.shiftl_lem ops.one d laws.one_lem.0 in
        (
          ground (arith, c.0, (laws.shiftr_lem (ops.shiftl r d) 1 c.0).0),
          ground (arith, a.0, (laws.shiftr_lem (ops.shiftl ops.one d) 1 a.0).0),
          laws.clear_lem.0,
          hl,
        )

  module _ (hl : IsWord l) (hr : IsWord r) (pos : 0 < value r) where
    start-Reduced :
        (d k : ℕ) → value l < value r * 2 ^ k → Reduced laws l r hl hr k (divmod_start ops r l d)
    unfolding divmod_start
    start-Reduced d k below = record {
      words = start_words hl hr d;
      times = 0;
      quotient = omega (arith, laws.clear_lem.1);
      below = below;
      total = rw (laws.clear_lem.1) (omega arith);
    }

    module _ (d : ℕ) (aligned : value (ops.shiftl r d) ≡ value r * 2 ^ d)
        (unit : value (ops.shiftl ops.one d) ≡ 2 ^ d) where
      start_kept :
          value l < value r * 2 ^ suc d
          → ops.gt (ops.shiftl r d) l ≡ false
          → Aligned laws l r hl hr d (divmod_start ops r l d)
      unfolding divmod_start
      start_kept above kept = record {
        reduced = start-Reduced d (suc d) above;
        aligned = rw kept aligned;
        unit = rw kept unit;
      }

    start_back :
        (d : ℕ)
        → value (ops.shiftl r d) ≡ value r * 2 ^ d
        → value (ops.shiftl ops.one d) ≡ 2 ^ d
        → value r ≤ value l
        → value l < value r * 2 ^ d
        → ops.gt (ops.shiftl r d) l ≡ true
        → (k : ℕ) × (k < d) × Aligned laws l r hl hr k (divmod_start ops r l d)
    unfolding divmod_start
    start_back zero aligned unit le above back = absurd (omega arith)
    start_back (suc d) aligned unit le above back = (
      d,
      omega arith,
      record {
        reduced = start-Reduced (suc d) (suc d) above;
        aligned = rw back (
            omega (
              arith,
              (laws.shiftr_lem _ 1 (laws.shiftl_lem r (suc d) hr).0).1,
              aligned,
              ap (λ (t : ℕ). value r * t) (two-pow-suc d),
            ));
        unit = rw back (
            omega (
              arith,
              (laws.shiftr_lem _ 1 (laws.shiftl_lem ops.one (suc d) laws.one_lem.0).0).1,
              unit,
              two-pow-suc d,
            ));
      },
    )

    start-Aligned :
        (m n : ℕ)
        → IsBitLength (value l) m
        → IsBitLength (value r) n
        → m ≤ width
        → value r ≤ value l
        → (k : ℕ) × (k < width) × Aligned laws l r hl hr k (divmod_start ops r l (m - n))
    start-Aligned m n hm hn small le =
        let room : 2 ^ m ≤ 2 ^ width = pow-le-pow_right {n = 2} (omega arith) small in
        let fits = aligned-lt (value l) (value r) m n hm hn le pos in
        let above = aligned_above (value l) (value r) m n hm hn le pos in
        let some_digit = length_pos (value r) n hn pos in
        let some_digit' = length_pos (value l) m hm (omega arith) in
        let c = laws.shiftl_lem r (m - n) hr in
        let a = laws.shiftl_lem ops.one (m - n) laws.one_lem.0 in
        let unit_fits : 2 ^ (m - n) < 2 ^ width =
          omega (arith, mul-le-mul_right {m = 1} {n = value r} (2 ^ (m - n)) pos) in
        let aligned : value (ops.shiftl r (m - n)) ≡ value r * 2 ^ (m - n) =
          c.1 ∙ mod-eq_of_lt (omega arith) in
        let unit : value (ops.shiftl ops.one (m - n)) ≡ 2 ^ (m - n) =
          a.1 ∙ mod_unique _ 0 _ _ (rw (laws.one_lem.1) (omega arith)) unit_fits in
        elim (Bool-cases (ops.gt (ops.shiftl r (m - n)) l)) [
          | inl back ↦
              let more = ltb→lt _ _ (sym (laws.gt_lem _ l c.0 hl) ∙ back) in
              let b = start_back (m - n) aligned unit le (omega arith) back in
              (b.0, omega (arith, b.1), b.2)
          | inr kept ↦ (m - n, omega arith, start_kept (m - n) aligned unit above kept)
        ]

    -- Division by a number that is not 0 ends within `width + 1` tests of the loop.
    pub divmod_total :
        (fuel : ℕ)
        → width ≤ fuel
        → (q : Quotient W) × (divmod ops r (suc fuel) l ≡ some q) × Divides q
    divmod_total fuel enough =
        let bl = laws.bits_lem l hl in
        let br = laws.bits_lem r hr in
        elim (Bool-cases (ops.gt r l)) [
          | inl small ↦
              let lt = ltb→lt _ _ (sym (laws.gt_lem r l hr hl) ∙ small) in
              (
                record { div = ops.clear; mod_ = l },
                divmod_small ops l r (suc fuel) bl.1 br.1 small,
                record {
                  div_word = laws.clear_lem.0;
                  mod_word = hl;
                  div_lem = laws.clear_lem.1 ∙ sym (div-eq_of_lt lt);
                  mod_lem = sym (mod-eq_of_lt lt);
                },
              )
          | inr large ↦
              let le = ltb-false→le _ _ (sym (laws.gt_lem r l hr hl) ∙ large) in
              let n-le = lengths_le (value l) (value r) bl.0 br.0 bl.2 br.2 le pos in
              let diff : u32 (bl.0 + 2 ^ 32 - br.0) ≡ bl.0 - br.0 =
                omega (arith, laws.small_width) in
              let a = start-Aligned bl.0 br.0 bl.2 br.2 bl.3 le in
              let d = divmod_loop laws l r hl hr a.0 fuel _ (omega arith) a.2 in
              (
                record { div = d.last.res_div; mod_ = d.last.res_mod },
                divmod_runs ops l r (suc fuel) bl.1 br.1 large (
                    ap
                      (λ t.
                        while (suc fuel) (divmod_test ops r) (divmod_body ops r)
                          (divmod_start ops r l t))
                      diff
                    ∙ d.returns),
                record {
                  div_word = d.words.2;
                  mod_word = d.words.3;
                  div_lem = sym (div_unique _ _ _ _ (sym d.total) d.below);
                  mod_lem = sym (mod_unique _ _ _ _ (sym d.total) d.below);
                },
              )
        ]

  -- Division by 0 does not end: no number of rounds is enough.
  pub divmod_zero :
      (hl : IsWord l) (hr : IsWord r) → value r ≡ 0 → (fuel : ℕ) → divmod ops r fuel l ≡ none
  unfolding divmod divmod_test
  divmod_zero hl hr z fuel =
      let bl = laws.bits_lem l hl in
      let br = laws.bits_lem r hr in
      let below : ops.gt r l ≡ false = laws.gt_lem r l hr hl ∙ ground (arith, z) in
      let never =
        while-diverges (divmod_test ops r) (divmod_body ops r) (AllWords laws)
          (λ s h. (
            laws.gte_lem s.res_mod r h.3 hr ∙ ground (arith, z),
            divmod_body-AllWords laws r s hr h,
          ))
          fuel (divmod_start ops r l (u32 (bl.0 + 2 ^ 32 - br.0))) (start_words hl hr _) in
      rw (bl.1, br.1, below, never)
