-- ===== src/Stack/Laws.antt =====
-- What a stack holds before and after an instruction writes to it.
use native.Mathlib.Decide.{ℕ_discrete, dec_lt}
use tsc_vee.Base.{
  ℕ, zero, suc, ◌≤◌, ◌<◌, ◌≡◌, refl, sym, ap₂, ◌∙◌, List, ◌∷◌, length, get_or, set, map,
  get_or-set_self, get_or-set_ne, length-set, set_out, replicate, length-replicate, arith,
}
use tsc_vee.Uint256.{Uint256}
use tsc_vee.Uint256.Value.{value256, IsWord256}
use tsc_vee.Stack.{Stack, items, zero_item}

-- The space has its 1024 items, all of them of 64-bit words, and the top is one of them.
abbrev pub IsSpace : List Uint256 → Type 0
IsSpace space = (length space ≡ 1024) × ((i : ℕ) → IsWord256 (get_or space i zero_item))

abbrev pub IsStack : Stack → Type 0
IsStack s = IsSpace s.space × (s.top_item ≤ 1024)

get_or-replicate : (n i : ℕ) → get_or (replicate n zero_item) i zero_item ≡ zero_item
get_or-replicate zero i = refl
get_or-replicate (suc n) zero = refl
get_or-replicate (suc n) (suc i) = get_or-replicate n i

-- A space of zeros is well-formed.
pub zeros-IsSpace : IsSpace (replicate 1024 zero_item)
zeros-IsSpace = (length-replicate 1024 zero_item, λ i. rw (get_or-replicate 1024 i) (omega arith))

abbrev pub held : List Uint256 → ℕ → List ℕ
held space n = map value256 (items space n)

-- A write behind the first `n` items changes none of them.
pub items-set :
    (space : List Uint256) (n i : ℕ) (v : Uint256) → n ≤ i → items (set space i v) n ≡ items space n
items-set space zero i v h = refl
items-set space (suc n) i v h =
    ap₂ ◌∷◌ (get_or-set_ne space v zero_item (omega arith)) (items-set space n i v (omega arith))

pub set-IsSpace :
    (space : List Uint256) (i : ℕ) (v : Uint256)
    → IsSpace space
    → IsWord256 v
    → IsSpace (set space i v)
set-IsSpace space i v h w = (length-set space i v ∙ h.0, words)
  where
    words : (j : ℕ) → IsWord256 (get_or (set space i v) j zero_item)
    words j = elim (ℕ_discrete i j) [
      | no ne ↦ rw (get_or-set_ne space v zero_item ne) (h.1 j)
      | yes e ↦ elim (dec_lt i (length space)) [
        | yes lt ↦ rw (sym e) (rw (get_or-set_self space i v zero_item lt) w)
        | no ge ↦ rw (set_out space i v (omega arith)) (h.1 j)
      ]
    ]

-- The stack after a write of `v` at index `n` that makes it the top item.
pub held-set :
    (space : List Uint256) (n : ℕ) (v : Uint256)
    → n < length space
    → held (set space n v) (suc n) ≡ value256 v ∷ held space n
held-set space n v lt =
    ap₂ (λ x xs. value256 x ∷ map value256 xs) (get_or-set_self space n v zero_item lt)
      (items-set space n n v (omega arith))

pub held_written :
    (space : List Uint256) (n i top : ℕ) (v : Uint256)
    → i ≡ n
    → top ≡ suc n
    → n < length space
    → held (set space i v) top ≡ value256 v ∷ held space n
held_written space n i top v ei et lt =
    ap₂ (λ j t. held (set space j v) t) ei et ∙ held-set space n v lt

-- The first two items of a stack that holds two.
pub held_two :
    (space : List Uint256) (top a b : ℕ) (rest : List ℕ)
    → held space top ≡ a ∷ b ∷ rest
    → (n : ℕ) × (top ≡ suc (suc n))
      × (value256 (get_or space (suc n) zero_item) ≡ a)
      × (value256 (get_or space n zero_item) ≡ b)
      × (held space n ≡ rest)
held_two space zero a b rest e = absurd (cc)
held_two space (suc zero) a b rest e = absurd (cc)
held_two space (suc (suc n)) a b rest e = (n, refl, cc, cc, cc)

pub held_one :
    (space : List Uint256) (top a : ℕ) (rest : List ℕ)
    → held space top ≡ a ∷ rest
    → (n : ℕ) × (top ≡ suc n) × (value256 (get_or space n zero_item) ≡ a) × (held space n ≡ rest)
held_one space zero a rest e = absurd (cc)
held_one space (suc n) a rest e = (n, refl, cc, cc)
