-- ===== src/Host/Access/Laws.antt =====
-- Which accesses of accounts are warm.
use tsc_vee.Base.{
  ℕ, ◌<◌, ◌≡◌, refl, ap, ◌∙◌, List, [], ◌∷◌, ◌++◌, length, Bool, true, false, not, ◌||◌,
  if◌then◌else◌, ltb, ◌==◌, arith,
}
use tsc_vee.Base.Int.{ℤ, pos, leb_ℤ}
use tsc_vee.Host.{
  MockedHost, AccessStatus, evmc_access_cold, evmc_access_warm, record_account_access,
}
use tsc_vee.Host.Contract.{text, same_text, same_bytes}
use tsc_vee.Host.Lists.{same_bytes_refl}
use tsc_vee.Host.Access.{access_account, u64_to_addr}

-- The first byte is 0, so that the address is the empty string.
abbrev pub is_blank : List ℕ → Bool
is_blank a = same_bytes (text a) []

abbrev pub recorded_text : List ℕ → List (List ℕ) → Bool
recorded_text a [] = false
recorded_text a (x ∷ xs) = same_text x a || recorded_text a xs

-- The order of strings at the empty one: no string is below it, and only itself is not above.
abbrev pub ComparesBlank : (List ℕ → List ℕ → ℤ) → Type 0
ComparesBlank cstr_cmp =
    (a b : List ℕ)
    → is_blank b ≡ true
    → (leb_ℤ (pos 0) (cstr_cmp a b) ≡ true) × (leb_ℤ (cstr_cmp a b) (pos 0) ≡ is_blank a)

-- The search ends behind the record exactly if no entry is the same string.
abbrev pub FindsText : (List (List ℕ) → List ℕ → ℕ) → Type 0
FindsText cvec_addr_find =
    (xs : List (List ℕ)) (a : List ℕ)
    → (cvec_addr_find xs a == length xs) ≡ not (recorded_text a xs)

recorded_last : (xs : List (List ℕ)) (a : List ℕ) → recorded_text a (xs ++ (a ∷ [])) ≡ true
recorded_last [] a = ground (arith, same_bytes_refl (text a))
recorded_last (x ∷ xs) a = ground (arith, recorded_last xs a)

abbrev pub warm_if : Bool → AccessStatus
warm_if true = evmc_access_warm
warm_if false = evmc_access_cold

decide :
    (low found : Bool)
    → (if low
        then evmc_access_warm
        else if not (not found)
        then evmc_access_warm
        else evmc_access_cold)
      ≡ warm_if (low || found)
decide true found = refl
decide false true = refl
decide false false = refl

or_warm : (b : Bool) → warm_if (b || true) ≡ evmc_access_warm
or_warm true = refl
or_warm false = refl

module _ {A : Type 0} (cstr_cmp : List ℕ → List ℕ → ℤ) (cvec_addr_find : List (List ℕ) → List ℕ → ℕ)
    (compares : ComparesBlank cstr_cmp) (finds : FindsText cvec_addr_find) where
  access_account_lem :
      (host : MockedHost A) (addr : List ℕ)
      → access_account cstr_cmp cvec_addr_find host addr ≡ (
        warm_if (is_blank addr || recorded_text addr host.recorded_account_accesses),
        record_account_access host addr,
      )
  unfolding access_account
  access_account_lem host addr =
      let above = (compares addr (u64_to_addr 1) refl).0 in
      let below = (compares addr (u64_to_addr 9) refl).1 in
      rw (above, below, finds host.recorded_account_accesses addr)
        (ap (λ t. (t, record_account_access host addr))
          (decide (is_blank addr) (recorded_text addr host.recorded_account_accesses)))

  -- With a comparison of strings and a search as the library promises them, on a host whose
  -- record of accesses has room: an access of an account is warm exactly if the address begins
  -- with a zero byte or is the same string as one in the record, and the next access of it is
  -- warm.
  pub access_account_twice :
      (host : MockedHost A) (addr : List ℕ)
      → length host.recorded_account_accesses < host.max_recorded_account_accesses
      → ((access_account cstr_cmp cvec_addr_find host addr).0
          ≡ warm_if (is_blank addr || recorded_text addr host.recorded_account_accesses))
        × ((access_account cstr_cmp cvec_addr_find
              (access_account cstr_cmp cvec_addr_find host addr).1
              addr).0
            ≡ evmc_access_warm)
  unfolding record_account_access
  access_account_twice host addr room =
      let first = access_account_lem host addr in
      let second = access_account_lem (record_account_access host addr) addr in
      let has_room : ltb (length host.recorded_account_accesses) host.max_recorded_account_accesses
          ≡ true =
        ground arith in
      let grown : (record_account_access host addr).recorded_account_accesses
          ≡ host.recorded_account_accesses ++ (addr ∷ []) =
        rw has_room refl in
      (
        ap (λ t. t.0) first,
        ap (λ t. (access_account cstr_cmp cvec_addr_find t.1 addr).0) first
            ∙ ap (λ t. t.0) second
            ∙ ap (λ xs. warm_if (is_blank addr || recorded_text addr xs)) grown
            ∙ ap (λ t. warm_if (is_blank addr || t))
                (recorded_last host.recorded_account_accesses addr)
            ∙ or_warm (is_blank addr),
      )
