-- ===== src/Host/Access/Tests.antt =====
-- Two accesses of an account on a host that has recorded none.
use tsc_vee.Base.{
  ℕ, suc, ◌≡◌, refl, List, [], ◌∷◌, replicate, if◌then◌else◌, Bool-cases, inl, inr, arith,
}
use tsc_vee.Base.Int.{ℤ, pos}
use tsc_vee.Host.{MockedHost, zeros, evmc_access_cold, evmc_access_warm}
use tsc_vee.Host.Contract.{same_text}
use tsc_vee.Host.Access.{access_account}
use tsc_vee.Host.Access.Laws.{is_blank, ComparesBlank, FindsText, access_account_twice}

abbrev blank_order : List ℕ → List ℕ → ℤ
blank_order a b = if is_blank a then pos 0 else pos 1

blank_order-ComparesBlank : ComparesBlank blank_order
blank_order-ComparesBlank a b e = elim (Bool-cases (is_blank a)) [
  | inl h ↦ rw h (refl, refl)
  | inr h ↦ rw h (refl, refl)
]

abbrev place : List (List ℕ) → List ℕ → ℕ
place [] a = 0
place (x ∷ xs) a = let rest = place xs a in if same_text x a then 0 else suc rest

place-FindsText : FindsText place
place-FindsText [] a = refl
place-FindsText (x ∷ xs) a =
    let rest = place-FindsText xs a in
    elim (Bool-cases (same_text x a)) [
      | inl h ↦ rw h (ground arith)
      | inr h ↦ rw h (ground (arith, rest))
    ]

abbrev fresh : MockedHost (List ℕ)
fresh = record {
  accounts = [];
  block_hash = zeros;
  recorded_blockhashes = [];
  recorded_account_accesses = [];
  max_recorded_account_accesses = 200;
  recorded_selfdestructs = [];
}

abbrev someone : List ℕ
someone = 7 ∷ replicate 19 1

access_account_twice_example :
    ((access_account blank_order place fresh someone).0 ≡ evmc_access_cold)
    × ((access_account blank_order place
          (access_account blank_order place fresh someone).1
          someone).0
        ≡ evmc_access_warm)
access_account_twice_example =
    access_account_twice blank_order place blank_order-ComparesBlank place-FindsText fresh someone
      (omega arith)
