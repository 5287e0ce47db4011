-- ===== src/Host/Lists.antt =====
-- A map as the list of its pairs, the last one put in at the front. Keys are compared as strings.
use tsc_vee.Base.{
  ℕ, ◌≡◌, refl, List, [], ◌∷◌, true, if◌then◌else◌, Option, none, some, Bool-cases, inl, inr, arith,
}
use tsc_vee.Base.Int.{ℤ, pos}
use tsc_vee.Host.{Map}
use tsc_vee.Host.Contract.{text, same_bytes, same_text, ComparesTexts, IsMap}

pub same_bytes_refl : (a : List ℕ) → same_bytes a a ≡ true
same_bytes_refl [] = refl
same_bytes_refl (x ∷ xs) = ground (arith, same_bytes_refl xs)

module _ {V : Type 0} where
  abbrev find_in : List (List ℕ × V) → List ℕ → Option V
  find_in [] k = none
  find_in ((j, v) ∷ rest) k = let found = find_in rest k in if same_text k j then some v else found

  abbrev pub pairs : Map (List ℕ) V (List (List ℕ × V))
  pairs = record { init = []; find = find_in; insert_or_assign = λ m k v. (k, v) ∷ m }

  pub pairs-IsMap : IsMap pairs
  pairs-IsMap = record {
    find-init = λ k. refl;
    find-insert_self = λ m k v. rw (same_bytes_refl (text k)) refl;
    find-insert_ne = λ m j k v ne. rw ne refl;
  }

abbrev pub compare_texts : List ℕ → List ℕ → ℤ
compare_texts a b = if same_text a b then pos 0 else pos 1

pub compare_texts-ComparesTexts : ComparesTexts compare_texts
compare_texts-ComparesTexts a b = elim (Bool-cases (same_text a b)) [
  | inl e ↦ rw e refl
  | inr e ↦ rw e refl
]
