-- ===== src/Jump/Find.antt =====
-- The search for a jump destination: what the binary search of the library promises, and the sorted
-- positions of the destinations.
use native.Mathlib.Decide.{dec_lt}
use tsc_vee.Base.{
  ℕ, zero, suc, ◌+◌, ◌^◌, ◌≤◌, ◌<◌, ◌≡◌, refl, sym, ap₂, ◌∙◌, Bool, true, false, not, ◌&&◌, ◌||◌,
  if◌then◌else◌, ◌==◌, ==_iff, List, [], ◌∷◌, map, length, length-map, get_or, Bool-cases, inl, inr,
  arith,
}
use tsc_vee.Base.Int.{ℤ, pos, negsuc, ltb_ℤ, leb_ℤ, eqb_ℤ, eqb_ℤ_lem}
use tsc_vee.Opcode
use tsc_vee.Analysis.{Progress, int32}
use tsc_vee.Jump.{find_jumpdest}
use tsc_vee.Analysis.Jumpdests.{push_length, valid_jumpdests}
use tsc_vee.Analysis.Targets.{int32_small}

-- The offsets of a list stand in order.
abbrev pub Sorted : List ℤ → Type 0
Sorted xs =
    (i j : ℕ) → i ≤ j → j < length xs → leb_ℤ (get_or xs i (pos 0)) (get_or xs j (pos 0)) ≡ true

-- The binary search returns the first item of a sorted vector that is not below the value, or its
-- end.
abbrev pub IsLowerBound : (List ℤ → ℤ → ℕ) → Type 0
IsLowerBound lower_bound =
    (xs : List ℤ) (v : ℤ)
    → Sorted xs
    → (lower_bound xs v ≤ length xs)
      × ((i : ℕ) → i < lower_bound xs v → ltb_ℤ (get_or xs i (pos 0)) v ≡ true)
      × ((i : ℕ) → lower_bound xs v ≤ i → i < length xs → ltb_ℤ (get_or xs i (pos 0)) v ≡ false)

abbrev pub member : ℕ → List ℕ → Bool
member p [] = false
member p (x ∷ xs) = (p == x) || member p xs

in_rest : (a b : Bool) → a ≡ false → (a || b) ≡ true → b ≡ true
in_rest a b e h = ground arith

pub member_index :
    (p : ℕ) (xs : List ℕ) → member p xs ≡ true → (i : ℕ) × (i < length xs) × (get_or xs i 0 ≡ p)
member_index p [] h = absurd (cc)
member_index p (x ∷ xs) h = elim (Bool-cases (p == x)) [
  | inl e ↦ (0, omega arith, sym ((==_iff p x).0 e))
  | inr e ↦
      let (i, lt, at) = member_index p xs (in_rest (p == x) (member p xs) e h) in
      (suc i, omega arith, at)
]

pub index_member : (xs : List ℕ) (i : ℕ) → i < length xs → member (get_or xs i 0) xs ≡ true
index_member [] i lt = absurd (omega arith)
index_member (x ∷ xs) zero lt = ground arith
index_member (x ∷ xs) (suc i) lt = ground (arith, index_member xs i (omega arith))

-- The numbers of a list are at `p` or above.
abbrev From : ℕ → List ℕ → Type 0
From p xs = (i : ℕ) → i < length xs → p ≤ get_or xs i 0

abbrev pub Ascending : List ℕ → Type 0
Ascending xs = (i j : ℕ) → i ≤ j → j < length xs → get_or xs i 0 ≤ get_or xs j 0

-- A number in front of larger ones, or not.
cons-From : (c : Bool) (p : ℕ) (xs : List ℕ) → From (suc p) xs → From p (if c then p ∷ xs else xs)
cons-From true p xs h zero lt = omega arith
cons-From true p xs h (suc i) lt = omega (arith, h i (omega arith))
cons-From false p xs h i lt = omega (arith, h i lt)

cons-Ascending :
    (c : Bool) (p : ℕ) (xs : List ℕ)
    → From (suc p) xs
    → Ascending xs
    → Ascending (if c then p ∷ xs else xs)
cons-Ascending true p xs h up zero zero le lt = omega arith
cons-Ascending true p xs h up (suc i) zero le lt = absurd (omega arith)
cons-Ascending true p xs h up zero (suc j) le lt = omega (arith, h j (omega arith))
cons-Ascending true p xs h up (suc i) (suc j) le lt = up i j (omega arith) (omega arith)
cons-Ascending false p xs h up i j le lt = up i j le lt

destinations-From : (skip p : ℕ) (code : List ℕ) → From p (valid_jumpdests skip p code)
destinations-From skip p [] i lt = absurd (omega arith)
destinations-From (suc skip) p (b ∷ code) i lt =
    omega (arith, destinations-From skip (suc p) code i lt)
destinations-From zero p (b ∷ code) i lt =
    cons-From (b == Opcode.op_jumpdest) p (valid_jumpdests (push_length b) (suc p) code)
      (destinations-From (push_length b) (suc p) code) i lt

pub destinations-Ascending : (skip p : ℕ) (code : List ℕ) → Ascending (valid_jumpdests skip p code)
destinations-Ascending skip p [] i j le lt = absurd (omega arith)
destinations-Ascending (suc skip) p (b ∷ code) i j le lt =
    destinations-Ascending skip (suc p) code i j le lt
destinations-Ascending zero p (b ∷ code) i j le lt =
    cons-Ascending (b == Opcode.op_jumpdest) p (valid_jumpdests (push_length b) (suc p) code)
      (destinations-From (push_length b) (suc p) code)
      (destinations-Ascending (push_length b) (suc p) code) i j le lt

cons_pos :
    (c : Bool) (p : ℕ) (xs : List ℕ)
    → p < 2 ^ 31
    → map int32 xs ≡ map pos xs
    → map int32 (if c then p ∷ xs else xs) ≡ map pos (if c then p ∷ xs else xs)
cons_pos true p xs lt e = ap₂ ◌∷◌ (int32_small p lt) e
cons_pos false p xs lt e = e

-- The offsets of a short code are the positions.
pub int32_destinations :
    (skip p : ℕ) (code : List ℕ)
    → p + length code < 2 ^ 31
    → map int32 (valid_jumpdests skip p code) ≡ map pos (valid_jumpdests skip p code)
int32_destinations skip p [] short = refl
int32_destinations (suc skip) p (b ∷ code) short =
    int32_destinations skip (suc p) code (omega arith)
int32_destinations zero p (b ∷ code) short =
    cons_pos (b == Opcode.op_jumpdest) p _ (omega arith)
      (int32_destinations (push_length b) (suc p) code (omega arith))

pub get_or-pos : (xs : List ℕ) (i : ℕ) → get_or (map pos xs) i (pos 0) ≡ pos (get_or xs i 0)
get_or-pos [] i = refl
get_or-pos (x ∷ xs) zero = refl
get_or-pos (x ∷ xs) (suc i) = get_or-pos xs i

Ascending-Sorted : (xs : List ℕ) → Ascending xs → Sorted (map pos xs)
Ascending-Sorted xs up i j le lt =
    let s = up i j le (omega (arith, lt, length-map xs pos)) in
    rw (get_or-pos xs i, get_or-pos xs j) (ground arith)

taken : (c : Bool) (a b : ℤ) → c ≡ true → (if c then a else b) ≡ a
taken c a b h = rw h

not_taken : (c : Bool) (a b : ℤ) → c ≡ false → (if c then a else b) ≡ b
not_taken c a b h = rw h

here_test : (i n : ℕ) (c : Bool) → i < n → c ≡ true → (not (i == n) && c) ≡ true
here_test i n c lt h = ground arith

within : (i n : ℕ) (c : Bool) → i ≤ n → (not (i == n) && c) ≡ true → (i < n) × (c ≡ true)
within i n c le h = ground arith

module _ (lower_bound : List ℤ → ℤ → ℕ) (contract : IsLowerBound lower_bound) (xs : List ℕ)
    (up : Ascending xs) where
  abbrev at : ℤ → ℕ
  at v = lower_bound (map pos xs) v

  at_pos :
      (p : ℕ)
      → (at (pos p) ≤ length xs)
        × ((i : ℕ) → i < at (pos p) → get_or xs i 0 < p)
        × ((i : ℕ) → at (pos p) ≤ i → i < length xs → p ≤ get_or xs i 0)
  at_pos p =
      let (room, below, above) = contract (map pos xs) (pos p) (Ascending-Sorted xs up) in
      let n = length-map xs pos in
      (
        omega arith,
        λ i lt. let h = below i lt in let e = get_or-pos xs i in smaller i e h,
        λ i le lt. let h = above i le (omega arith) in let e = get_or-pos xs i in larger i e h,
      )
    where
      smaller :
          (i : ℕ)
          → get_or (map pos xs) i (pos 0) ≡ pos (get_or xs i 0)
          → ltb_ℤ (get_or (map pos xs) i (pos 0)) (pos p) ≡ true
          → get_or xs i 0 < p
      smaller i e h = let g : ltb_ℤ (pos (get_or xs i 0)) (pos p) ≡ true = rw e at h in ground arith

      larger :
          (i : ℕ)
          → get_or (map pos xs) i (pos 0) ≡ pos (get_or xs i 0)
          → ltb_ℤ (get_or (map pos xs) i (pos 0)) (pos p) ≡ false
          → p ≤ get_or xs i 0
      larger i e h = let g : ltb_ℤ (pos (get_or xs i 0)) (pos p) ≡ false = rw e at h in ground arith

  module _ (analysis : Progress) (offsets : analysis.jumpdest_offsets ≡ map pos xs) where
    -- A position in the list is found, at some place.
    pub find_hit :
        (p : ℕ)
        → member p xs ≡ true
        → (i : ℕ) × (i < length xs)
          × (find_jumpdest lower_bound analysis (pos p)
              ≡ get_or analysis.jumpdest_targets i (negsuc 0))
          × (get_or xs i 0 ≡ p)
    unfolding find_jumpdest
    find_hit p h =
        let (j, lt, e) = member_index p xs h in
        let (room, below, above) = at_pos p in
        let i = at (pos p) in
        let first : i ≤ j = elim (dec_lt j i) [
          | yes b ↦ absurd (omega (arith, below j b, e))
          | no ge ↦ omega arith
        ] in
        let there : i < length xs = omega arith in
        let equal : get_or xs i 0 ≡ p =
          omega (arith, up i j first lt, above i (omega arith) there, e) in
        let here : eqb_ℤ (get_or (map pos xs) i (pos 0)) (pos p) ≡ true =
          rw (get_or-pos xs i) (ground arith) in
        (
          i,
          there,
          rw offsets (
              taken _ _ (negsuc 0) (
                here_test i (length (map pos xs)) _ (omega (arith, there, length-map xs pos))
                  here)),
          equal,
        )

    pub find_miss :
        (v : ℤ)
        → ((p : ℕ) → v ≡ pos p → member p xs ≡ false)
        → find_jumpdest lower_bound analysis v ≡ negsuc 0
    unfolding find_jumpdest
    find_miss v none_there =
        let i = at v in
        let test = not (i == length (map pos xs)) && eqb_ℤ (get_or (map pos xs) i (pos 0)) v in
        elim (Bool-cases test) [
          | inr e ↦ rw offsets (not_taken test _ (negsuc 0) e)
          | inl e ↦
              let (lt, same) =
                within i (length (map pos xs)) _
                  (contract (map pos xs) v (Ascending-Sorted xs up)).0 e in
              let at_v : v ≡ pos (get_or xs i 0) = sym (eqb_ℤ_lem _ v same) ∙ get_or-pos xs i in
              absurd (
                cc (
                  none_there (get_or xs i 0) at_v,
                  index_member xs i (omega (arith, lt, length-map xs pos)),
                ))
        ]
