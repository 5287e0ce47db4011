-- ===== src/Host/Contract.antt =====
-- What the host relies on of the container library: its maps and its comparison of strings.
use tsc_vee.Base.{ℕ, ◌≡◌, List, [], ◌∷◌, Bool, true, false, ◌&&◌, if◌then◌else◌, ◌==◌, none, some}
use tsc_vee.Base.Int.{ℤ, pos, eqb_ℤ}
use tsc_vee.Host.{Map}

-- The bytes of a buffer as a string: those in front of the first zero.
abbrev pub text : List ℕ → List ℕ
text [] = []
text (b ∷ bytes) = let rest = text bytes in if b == 0 then [] else b ∷ rest

abbrev pub same_bytes : List ℕ → List ℕ → Bool
same_bytes [] [] = true
same_bytes [] (b ∷ ys) = false
same_bytes (a ∷ xs) [] = false
same_bytes (a ∷ xs) (b ∷ ys) = (a == b) && same_bytes xs ys

abbrev pub same_text : List ℕ → List ℕ → Bool
same_text a b = same_bytes (text a) (text b)

-- `cstr_cmp` gives 0 for equal strings, and no others.
abbrev pub ComparesTexts : (List ℕ → List ℕ → ℤ) → Type 0
ComparesTexts cstr_cmp = (a b : List ℕ) → eqb_ℤ (cstr_cmp a b) (pos 0) ≡ same_text a b

-- A key finds what was put in under it last. Of other keys the library promises it where they
-- differ as strings, since keys are compared as strings.
pub record IsMap {V M : Type 0} (map : Map (List ℕ) V M) : Type 0 where
  pub find-init : (k : List ℕ) → map.find map.init k ≡ none
  pub find-insert_self :
      (m : M) (k : List ℕ) (v : V) → map.find (map.insert_or_assign m k v) k ≡ some v
  pub find-insert_ne :
      (m : M) (j k : List ℕ) (v : V)
      → same_text j k ≡ false
      → map.find (map.insert_or_assign m k v) j ≡ map.find m j
