-- ===== src/Host/Storage.antt =====
-- Reads and writes of storage through the host.
use tsc_vee.Base.{
  ℕ, ◌≡◌, refl, ap, ◌∙◌, List, true, false, if◌then◌else◌, Option, none, some, Bool-cases, inl, inr,
  ◌>>=◌,
}
use tsc_vee.Base.Int.{ℤ}
use tsc_vee.Host.{
  Map, MockedHost, MockedAccount, StorageValue, StorageStatus, AccessStatus, evmc_access_cold,
  evmc_storage_unchanged, storage_value_init, zeros, record_account_access, get_storage,
  set_storage, put_slot, access_storage, present_account, present_slot, warmed, with_storage,
  with_accounts, change_status, mocked_account_init,
}
use tsc_vee.Host.Contract.{same_text, ComparesTexts, IsMap}

abbrev pub value_or_zeros : Option StorageValue → List ℕ
value_or_zeros none = zeros
value_or_zeros (some slot) = slot.value

-- What the status of an access is, by the slot.
abbrev pub access_of : Option StorageValue → AccessStatus
access_of none = evmc_access_cold
access_of (some slot) = slot.access_status

abbrev pub slot_or_init : Option StorageValue → StorageValue
slot_or_init none = storage_value_init
slot_or_init (some slot) = slot

pub access_of-slot_or_init :
    (slot : Option StorageValue) → (slot_or_init slot).access_status ≡ access_of slot
access_of-slot_or_init none = refl
access_of-slot_or_init (some slot) = refl

-- The status and the slot after `set_storage`, by whether the values are the same string.
abbrev pub status_after : StorageValue → List ℕ → StorageStatus
status_after old value =
    if same_text old.value value then evmc_storage_unchanged else change_status old value

abbrev pub slot_after : StorageValue → List ℕ → StorageValue
slot_after old value =
    if same_text old.value value
    then old
    else record { value = value; dirty = true; access_status = old.access_status }

module _ {S A : Type 0} (storage_map : Map (List ℕ) StorageValue S)
    (account_map : Map (List ℕ) (MockedAccount S) A) where
  -- The slot of a key, if account and key are there.
  abbrev pub slot_at : A → List ℕ → List ℕ → Option StorageValue
  slot_at accounts addr key = do
    account ← account_map.find accounts addr
    storage_map.find account.storage key

  -- The slots after a write to one of them.
  abbrev pub Written : A → A → List ℕ → List ℕ → StorageValue → Type 0
  Written before after addr key slot =
      (slot_at after addr key ≡ some slot)
      × ((other : List ℕ)
          → same_text other key ≡ false
          → slot_at after addr other ≡ slot_at before addr other)

  module _ (storage-IsMap : IsMap storage_map) (account-IsMap : IsMap account_map) where
    pub get_storage-slot :
        (host : MockedHost A) (addr key : List ℕ)
        → (get_storage account_map storage_map host addr key).0
          ≡ value_or_zeros (slot_at host.accounts addr key)
    unfolding get_storage record_account_access
    get_storage-slot host addr key = split (account_map.find host.accounts addr)
      where
        inner :
            (slot : Option StorageValue)
            → (elim slot [ none ↦ zeros | some s ↦ s.value ]) ≡ value_or_zeros slot
        inner none = refl
        inner (some s) = refl

        split :
            (found : Option (MockedAccount S))
            → (elim found [
              | none ↦ zeros
              | some account ↦ elim (storage_map.find account.storage key) [
                | none ↦ zeros
                | some s ↦ s.value
              ]
            ])
              ≡ value_or_zeros (found >>= (λ account. storage_map.find account.storage key))
        split none = refl
        split (some account) = inner (storage_map.find account.storage key)

    pub slot_at-put_slot :
        (accounts : A) (addr : List ℕ) (account : MockedAccount S) (key : List ℕ)
        (slot : StorageValue)
        → slot_at (put_slot account_map storage_map accounts addr account key slot) addr key
          ≡ some slot
    slot_at-put_slot accounts addr account key slot =
        rw
          (account-IsMap.find-insert_self accounts addr
            (with_storage (storage_map.insert_or_assign account.storage key slot) account))
          (storage-IsMap.find-insert_self account.storage key slot)

    slot_at-put_slot_ne :
        (accounts : A) (addr : List ℕ) (account : MockedAccount S) (key other : List ℕ)
        (slot : StorageValue)
        → same_text other key ≡ false
        → slot_at (put_slot account_map storage_map accounts addr account key slot) addr other
          ≡ storage_map.find account.storage other
    slot_at-put_slot_ne accounts addr account key other slot ne =
        rw
          (account-IsMap.find-insert_self accounts addr
            (with_storage (storage_map.insert_or_assign account.storage key slot) account))
          (storage-IsMap.find-insert_ne account.storage other key slot ne)

    present_account_lem :
        (accounts : A) (addr : List ℕ)
        → (account : MockedAccount S) × (account_map.find
              (present_account account_map storage_map accounts addr)
              addr
            ≡ some account)
          × ((key : List ℕ) → storage_map.find account.storage key ≡ slot_at accounts addr key)
    present_account_lem accounts addr = split (account_map.find accounts addr) refl
      where
        split :
            (found : Option (MockedAccount S))
            → account_map.find accounts addr ≡ found
            → (account : MockedAccount S) × (account_map.find
                  (elim found [
                    | none ↦
                        account_map.insert_or_assign accounts addr (mocked_account_init storage_map)
                    | some account ↦ accounts
                  ])
                  addr
                ≡ some account)
              × ((key : List ℕ)
                  → storage_map.find account.storage key
                    ≡ (found >>= (λ account. storage_map.find account.storage key)))
        split none e = (
          mocked_account_init storage_map,
          account-IsMap.find-insert_self accounts addr (mocked_account_init storage_map),
          λ key. storage-IsMap.find-init key,
        )
        split (some account) e = (account, e, λ key. refl)

    present_slot_lem :
        (storage : S) (key : List ℕ)
        → storage_map.find (present_slot account_map storage_map storage key) key
          ≡ some (slot_or_init (storage_map.find storage key))
    present_slot_lem storage key = split (storage_map.find storage key) refl
      where
        split :
            (found : Option StorageValue)
            → storage_map.find storage key ≡ found
            → storage_map.find
                (elim found [
                  | none ↦ storage_map.insert_or_assign storage key storage_value_init
                  | some slot ↦ storage
                ])
                key
              ≡ some (slot_or_init found)
        split none e = storage-IsMap.find-insert_self storage key storage_value_init
        split (some slot) e = e

    present_slot_ne :
        (storage : S) (key other : List ℕ)
        → same_text other key ≡ false
        → storage_map.find (present_slot account_map storage_map storage key) other
          ≡ storage_map.find storage other
    present_slot_ne storage key other ne = split (storage_map.find storage key)
      where
        split :
            (found : Option StorageValue)
            → storage_map.find
                (elim found [
                  | none ↦ storage_map.insert_or_assign storage key storage_value_init
                  | some slot ↦ storage
                ])
                other
              ≡ storage_map.find storage other
        split none = storage-IsMap.find-insert_ne storage other key storage_value_init ne
        split (some slot) = refl

    -- An access gives the status of the slot and leaves it warm.
    pub access_storage_lem :
        (host : MockedHost A) (addr key : List ℕ)
        → (accounts : A) × (access_storage account_map storage_map host addr key
            ≡ some (access_of (slot_at host.accounts addr key), with_accounts accounts host))
          × Written host.accounts accounts addr key
              (warmed (slot_or_init (slot_at host.accounts addr key)))
    unfolding access_storage
    access_storage_lem host addr key =
        let (account, found, slots) = present_account_lem host.accounts addr in
        let accounts = present_account account_map storage_map host.accounts addr in
        let storage = present_slot account_map storage_map account.storage key in
        let there = present_slot_lem account.storage key in
        let slot = slot_or_init (storage_map.find account.storage key) in
        let put = with_storage storage account in
        let after = put_slot account_map storage_map accounts addr put key (warmed slot) in
        let same : slot ≡ slot_or_init (slot_at host.accounts addr key) =
          ap slot_or_init (slots key) in
        (
          after,
          rw found (
              rw there (
                ap (λ t. some (t, with_accounts after host))
                  (access_of-slot_or_init (storage_map.find account.storage key)
                    ∙ ap access_of (slots key)))),
          (
            slot_at-put_slot accounts addr put key (warmed slot) ∙ ap (λ t. some (warmed t)) same,
            λ other ne.
                slot_at-put_slot_ne accounts addr put key other (warmed slot) ne
                ∙ present_slot_ne account.storage key other ne
                ∙ slots other,
          ),
        )

    found_account :
        (accounts : A) (addr key : List ℕ) (old : StorageValue)
        → slot_at accounts addr key ≡ some old
        → (account : MockedAccount S) × (account_map.find accounts addr ≡ some account)
          × (storage_map.find account.storage key ≡ some old)
    found_account accounts addr key old e = split (account_map.find accounts addr) refl e
      where
        split :
            (found : Option (MockedAccount S))
            → account_map.find accounts addr ≡ found
            → (found >>= (λ account. storage_map.find account.storage key)) ≡ some old
            → (account : MockedAccount S) × (account_map.find accounts addr ≡ some account)
              × (storage_map.find account.storage key ≡ some old)
        split none h e = absurd (cc)
        split (some account) h e = (account, h, e)

    module _ (cstr_cmp : List ℕ → List ℕ → ℤ) (compares : ComparesTexts cstr_cmp) where
      pub set_storage_lem :
          (host : MockedHost A) (addr key value : List ℕ) (old : StorageValue)
          → slot_at host.accounts addr key ≡ some old
          → (h : MockedHost A) × (set_storage account_map storage_map cstr_cmp host addr key value
              ≡ some (status_after old value, h))
            × Written host.accounts h.accounts addr key (slot_after old value)
      unfolding set_storage record_account_access
      set_storage_lem host addr key value old e =
          let (account, found, there) = found_account host.accounts addr key old e in
          let recorded = record_account_access host addr in
          let slot : StorageValue = record {
            value = value;
            dirty = true;
            access_status = old.access_status;
          } in
          elim (Bool-cases (same_text old.value value)) [
            | inl same ↦
                rw (found, there, compares old.value value, same)
                  (
                    recorded,
                    refl,
                    (e, λ other ne. ap (λ t. t >>= (λ a. storage_map.find a.storage other)) found),
                  )
            | inr differ ↦
                rw (found, there, compares old.value value, differ)
                  (
                    with_accounts
                        (put_slot account_map storage_map host.accounts addr account key slot)
                        recorded,
                    refl,
                    (
                      slot_at-put_slot host.accounts addr account key slot,
                      λ other ne. slot_at-put_slot_ne host.accounts addr account key other slot ne,
                    ),
                  )
          ]
