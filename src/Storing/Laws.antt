-- ===== src/Storing/Laws.antt =====
-- What SSTORE does with the storage and the gas.
use tsc_vee.Base.{
  ℕ, ◌+◌, ◌-◌, ◌≤◌, ◌≡◌, sym, ap, ◌∙◌, List, Bool, true, false, not, ◌||◌, ◌&&◌, if◌then◌else◌, leb,
  Option, some, Bool-cases, inl, inr, arith,
}
use tsc_vee.Base.Int.{ℤ, pos, ◌+ℤ◌, ◌-ℤ◌, leb_ℤ}
use tsc_vee.Revision.{evmc_istanbul, evmc_berlin}
use tsc_vee.Status.{StatusCode, evmc_out_of_gas, evmc_static_mode_violation}
use tsc_vee.Uint256.{Uint256}
use tsc_vee.Stack.{item}
use tsc_vee.Host.{
  Map, MockedHost, MockedAccount, StorageValue, evmc_storage_unchanged, evmc_storage_added,
  evmc_storage_modified, evmc_storage_modified_again, evmc_storage_deleted, b32_zero, warmed,
  with_accounts, change_status,
}
use tsc_vee.Host.Contract.{same_text, ComparesTexts, IsMap}
use tsc_vee.Host.Storage.{
  slot_at, slot_or_init, access_of-slot_or_init, Written, access_storage_lem, set_storage_lem,
  slot_after,
}
use tsc_vee.Storing.{
  HostState, execution_state_in_static_mode, bytes_of, is_cold, store_cost, pay, access, sstore,
  cold_sload_cost,
}

-- The guards of SSTORE: a static call, or too little gas from Istanbul on.
abbrev pub refused : {A : Type 0} → HostState A → Bool
refused state =
    execution_state_in_static_mode state
    || (leb evmc_istanbul state.rev && leb_ℤ state.gas_left (pos 2300))

-- The result of a refusal, by whether the call is static.
abbrev pub refuse : {A : Type 0} → Bool → HostState A → Option (StatusCode × HostState A)
refuse static state = some ((if static then evmc_static_mode_violation else evmc_out_of_gas), state)

refuse_lem :
    {A : Type 0} (state : HostState A) (c : Bool)
    → execution_state_in_static_mode state ≡ c
    → refuse c state ≡ refuse (execution_state_in_static_mode state) state
refuse_lem state c e = ap (λ c. refuse c state) (sym e)

-- The price of a write from Berlin on: for a cold slot, and for the change of the value.
abbrev pub change_price : StorageValue → List ℕ → ℕ
change_price old value =
    if same_text old.value value || old.dirty
    then 100
    else if b32_zero old.value
    then 20000
    else 2900

abbrev pub cold_price : StorageValue → ℕ
cold_price old = if is_cold old.access_status then 2100 else 0

paid :
    (cold : Bool) (n : ℕ)
    → (if cold then pos 2100 else pos 0) +ℤ pos n ≡ pos ((if cold then 2100 else 0) + n)
unfolding ◌+ℤ◌
paid cold n = ground arith

-- The price by the tests that decide it.
prices :
    (rev : ℕ) (cold same dirty zero zero' : Bool)
    → leb evmc_berlin rev ≡ true
    → store_cost rev (if cold then cold_sload_cost else pos 0) (
        if same
        then evmc_storage_unchanged
        else if not dirty
        then if zero
          then evmc_storage_added
          else if not zero'
          then evmc_storage_modified
          else evmc_storage_deleted
        else evmc_storage_modified_again)
      ≡ pos (
          (if cold then 2100 else 0)
          + (if same || dirty then 100 else if zero then 20000 else 2900))
unfolding ◌-ℤ◌
prices rev cold true dirty zero zero' e = rw e (paid cold 100)
prices rev cold false true zero zero' e = rw e (paid cold 100)
prices rev cold false false true zero' e = paid cold 20000
prices rev cold false false false true e = rw e (paid cold 2900)
prices rev cold false false false false e = rw e (paid cold 2900)

price_lem :
    (rev : ℕ) (old : StorageValue) (value : List ℕ)
    → leb evmc_berlin rev ≡ true
    → store_cost rev
        (if is_cold old.access_status then cold_sload_cost else pos 0)
        (if same_text old.value value then evmc_storage_unchanged else change_status old value)
      ≡ pos (cold_price old + change_price old value)
price_lem rev old value e =
    prices rev (is_cold old.access_status) (same_text old.value value) old.dirty
      (b32_zero old.value) (b32_zero value) e

module _ {S A : Type 0} (account_map : Map (List ℕ) (MockedAccount S) A)
    (storage_map : Map (List ℕ) StorageValue S) where
  -- The slot before, that of a key that is missing as it is put in.
  abbrev pub slot_of : HostState A → List ℕ → StorageValue
  slot_of state key =
      slot_or_init (slot_at storage_map account_map state.host.accounts state.recipient key)

  abbrev WrittenTo : A → A → List ℕ → List ℕ → StorageValue → Type 0
  WrittenTo = Written storage_map account_map

  -- SSTORE is refused and changes nothing, or charges the price and writes the slot.
  abbrev pub Stores :
      Bool → HostState A → List ℕ → List ℕ → Option (StatusCode × HostState A) → Type 0
  Stores true state key value outcome =
      outcome ≡ refuse (execution_state_in_static_mode state) state
  Stores false state key value outcome =
      (h : MockedHost A) × (outcome
        ≡ some (
            pay (pos (cold_price (slot_of state key) + change_price (slot_of state key) value)) h
              state))
      × WrittenTo state.host.accounts h.accounts state.recipient key
          (slot_after (warmed (slot_of state key)) value)

  -- The same of the key and of one other key.
  abbrev pub Outcome :
      Bool → HostState A → List ℕ → List ℕ → List ℕ → Option (StatusCode × HostState A) → Type 0
  Outcome true state key value other outcome =
      outcome ≡ refuse (execution_state_in_static_mode state) state
  Outcome false state key value other outcome =
      (h : MockedHost A) × (outcome
        ≡ some (
            pay (pos (cold_price (slot_of state key) + change_price (slot_of state key) value)) h
              state))
      × (slot_at storage_map account_map h.accounts state.recipient key
          ≡ some (slot_after (warmed (slot_of state key)) value))
      × (slot_at storage_map account_map h.accounts state.recipient other
          ≡ slot_at storage_map account_map state.host.accounts state.recipient other)

  module _ (storage-IsMap : IsMap storage_map) (account-IsMap : IsMap account_map) where
    pub access_lem :
        (state : HostState A) (key : List ℕ)
        → leb evmc_berlin state.rev ≡ true
        → (accounts : A) × (access account_map storage_map state key
            ≡ some (is_cold (slot_of state key).access_status, with_accounts accounts state.host))
          × WrittenTo state.host.accounts accounts state.recipient key (warmed (slot_of state key))
    unfolding access
    access_lem state key recent =
        let (accounts, e, written) =
          access_storage_lem storage_map account_map storage-IsMap account-IsMap state.host
            state.recipient key in
        let cold =
          access_of-slot_or_init
            (slot_at storage_map account_map state.host.accounts state.recipient key) in
        (
          accounts,
          rw (recent, e) (ap (λ t. some (is_cold t, with_accounts accounts state.host)) (sym cold)),
          written,
        )

    module _ (cstr_cmp : List ℕ → List ℕ → ℤ) (compares : ComparesTexts cstr_cmp) where
      pub sstore_lem :
          (stack : ℕ) (space : List Uint256) (state : HostState A)
          → evmc_berlin ≤ state.rev
          → Stores
              (refused state)
              state
              (bytes_of (item space stack))
              (bytes_of (item space (stack - 1)))
              (sstore account_map storage_map cstr_cmp stack space state)
      unfolding sstore
      sstore_lem stack space state recent =
          let key = bytes_of (item space stack) in
          let value = bytes_of (item space (stack - 1)) in
          let berlin : leb evmc_berlin state.rev ≡ true = ground arith in
          let (accounts, e, (there, others)) = access_lem state key berlin in
          let (h, e', (written, others')) =
            set_storage_lem storage_map account_map storage-IsMap account-IsMap cstr_cmp compares
              (with_accounts accounts state.host) state.recipient key value
              (warmed (slot_of state key)) there in
          let price = price_lem state.rev (slot_of state key) value berlin in
          elim (Bool-cases (execution_state_in_static_mode state)) [
            | inl static ↦ rw static (refuse_lem state true static)
            | inr free ↦
                elim (Bool-cases (leb evmc_istanbul state.rev && leb_ℤ state.gas_left (pos 2300))) [
                  | inl low ↦ rw (free, low) (refuse_lem state false free)
                  | inr enough ↦
                      rw (free, enough)
                        (
                          h,
                          rw (e, e') (ap (λ t. some (pay t h state)) price),
                          (written, λ other ne. others' other ne ∙ others other ne),
                        )
                ]
          ]

      -- With maps and a comparison of strings as the library promises them, from Berlin on: an
      -- SSTORE in a static call, or with 2300 gas or less, returns the error and leaves the
      -- state; any other charges 2100 for a cold slot and 100, 2900 or 20000 for the change,
      -- runs out of gas exactly if that leaves less than 0, and in both cases writes the new
      -- value to the slot and marks it as changed, unless the old value and the new one are the
      -- same string, that is, up to their first zero byte, when the slot keeps the old value;
      -- the slot of another key that differs as a string stays.
      pub sstore-Outcome :
          (stack : ℕ) (space : List Uint256) (state : HostState A) (other : List ℕ)
          → evmc_berlin ≤ state.rev
          → same_text other (bytes_of (item space stack)) ≡ false
          → Outcome
              (refused state)
              state
              (bytes_of (item space stack))
              (bytes_of (item space (stack - 1)))
              other
              (sstore account_map storage_map cstr_cmp stack space state)
      sstore-Outcome stack space state other recent ne =
          split (refused state) (sstore_lem stack space state recent)
        where
          split :
              (c : Bool)
              → Stores c state
                  (bytes_of (item space stack))
                  (bytes_of (item space (stack - 1)))
                  (sstore account_map storage_map cstr_cmp stack space state)
              → Outcome c state
                  (bytes_of (item space stack))
                  (bytes_of (item space (stack - 1)))
                  other
                  (sstore account_map storage_map cstr_cmp stack space state)
          split true e = e
          split false (h, e, (there, others)) = (h, e, there, others other ne)
