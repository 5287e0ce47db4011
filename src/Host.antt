-- ===== src/Host.antt =====
-- The mocked host of include/mocked_host.h: accounts, their storage, and the records of accesses.
-- 32 bytes and addresses are lists of bytes. The maps and strings of the container library are
-- parameters: `Map` has the operations that the host calls, and `cstr_cmp` compares two buffers as
-- strings. A result `none` stands for a read through a null pointer. The transaction context, the
-- result of calls and the records of calls and logs are left out of the state.
pub mod Contract
pub mod Storage
pub mod Lists
pub mod Access
use tsc_vee.Base.{
  ℕ, zero, suc, ◌+◌, ◌-◌, List, [], ◌∷◌, ◌++◌, length, replicate, Bool, true, false, not, ◌&&◌,
  if◌then◌else◌, ltb, leb, ◌==◌, Option, none, some, min, ◌>>=◌,
}
use tsc_vee.Base.Int.{ℤ, pos, eqb_ℤ}

-- The operations of a map: `contains` is whether `find` gives something.
pub record Map (K V M : Type 0) : Type 0 where
  pub init : M
  pub find : M → K → Option V
  pub insert_or_assign : M → K → V → M

pub data AccessStatus : Type 0 where
  evmc_access_cold : AccessStatus
  evmc_access_warm : AccessStatus

pub data StorageStatus : Type 0 where
  evmc_storage_unchanged : StorageStatus
  evmc_storage_modified : StorageStatus
  evmc_storage_modified_again : StorageStatus
  evmc_storage_added : StorageStatus
  evmc_storage_deleted : StorageStatus

pub record StorageValue : Type 0 where
  pub value : List ℕ
  pub dirty : Bool
  pub access_status : AccessStatus

abbrev pub zeros : List ℕ
zeros = replicate 32 0

abbrev pub storage_value_init : StorageValue
storage_value_init = record { value = zeros; dirty = false; access_status = evmc_access_cold }

-- `b32_zero`
abbrev pub b32_zero : List ℕ → Bool
b32_zero [] = true
b32_zero (b ∷ bytes) = (b == 0) && b32_zero bytes

pub record MockedAccount (S : Type 0) : Type 0 where
  pub nonce : ℕ
  pub code : List ℕ
  pub codehash : List ℕ
  pub balance : List ℕ
  pub storage : S

pub record SelfdestructRecord : Type 0 where
  pub selfdestructed : List ℕ
  pub beneficiary : List ℕ

pub record MockedHost (A : Type 0) : Type 0 where
  pub accounts : A
  pub block_hash : List ℕ
  pub recorded_blockhashes : List ℤ
  pub recorded_account_accesses : List (List ℕ)
  pub max_recorded_account_accesses : ℕ
  pub recorded_selfdestructs : List SelfdestructRecord

module _ {A : Type 0} where
  abbrev pub with_accounts : A → MockedHost A → MockedHost A
  with_accounts accounts host = record {
    accounts = accounts;
    block_hash = host.block_hash;
    recorded_blockhashes = host.recorded_blockhashes;
    recorded_account_accesses = host.recorded_account_accesses;
    max_recorded_account_accesses = host.max_recorded_account_accesses;
    recorded_selfdestructs = host.recorded_selfdestructs;
  }

  unfoldable pub record_account_access : MockedHost A → List ℕ → MockedHost A
  record_account_access host addr = record {
    accounts = host.accounts;
    block_hash = host.block_hash;
    recorded_blockhashes = host.recorded_blockhashes;
    recorded_account_accesses =
        if ltb (length host.recorded_account_accesses) host.max_recorded_account_accesses
        then host.recorded_account_accesses ++ (addr ∷ [])
        else host.recorded_account_accesses;
    max_recorded_account_accesses = host.max_recorded_account_accesses;
    recorded_selfdestructs = host.recorded_selfdestructs;
  }

  unfoldable pub selfdestruct : MockedHost A → List ℕ → List ℕ → MockedHost A
  unfolding record_account_access
  selfdestruct host addr beneficiary =
      let recorded = record_account_access host addr in
      record {
        accounts = recorded.accounts;
        block_hash = recorded.block_hash;
        recorded_blockhashes = recorded.recorded_blockhashes;
        recorded_account_accesses = recorded.recorded_account_accesses;
        max_recorded_account_accesses = recorded.max_recorded_account_accesses;
        recorded_selfdestructs =
            recorded.recorded_selfdestructs
            ++ (record { selfdestructed = addr; beneficiary = beneficiary } ∷ []);
      }

  unfoldable pub get_block_hash : MockedHost A → ℤ → List ℕ × MockedHost A
  get_block_hash host block_number = (
    host.block_hash,
    record {
      accounts = host.accounts;
      block_hash = host.block_hash;
      recorded_blockhashes = host.recorded_blockhashes ++ (block_number ∷ []);
      recorded_account_accesses = host.recorded_account_accesses;
      max_recorded_account_accesses = host.max_recorded_account_accesses;
      recorded_selfdestructs = host.recorded_selfdestructs;
    },
  )

module _ {S : Type 0} where
  abbrev pub mocked_account_init : Map (List ℕ) StorageValue S → MockedAccount S
  mocked_account_init storage_map = record {
    nonce = 0;
    code = [];
    codehash = zeros;
    balance = zeros;
    storage = storage_map.init;
  }

  abbrev pub with_storage : S → MockedAccount S → MockedAccount S
  with_storage storage account = record {
    nonce = account.nonce;
    code = account.code;
    codehash = account.codehash;
    balance = account.balance;
    storage = storage;
  }

abbrev pub warmed : StorageValue → StorageValue
warmed slot = record { value = slot.value; dirty = slot.dirty; access_status = evmc_access_warm }

-- The status of a change of the value.
abbrev pub change_status : StorageValue → List ℕ → StorageStatus
change_status old value =
    if not old.dirty
    then if b32_zero old.value
      then evmc_storage_added
      else if not (b32_zero value)
      then evmc_storage_modified
      else evmc_storage_deleted
    else evmc_storage_modified_again

module _ {S A : Type 0} where
  module _ (account_map : Map (List ℕ) (MockedAccount S) A) where
    -- The account, after the access is recorded.
    unfoldable pub account_exists : MockedHost A → List ℕ → Bool × MockedHost A
    unfolding record_account_access
    account_exists host addr =
        let recorded = record_account_access host addr in
        (
          elim (account_map.find recorded.accounts addr) [ none ↦ false | some account ↦ true ],
          recorded,
        )

    unfoldable pub get_balance : MockedHost A → List ℕ → List ℕ × MockedHost A
    unfolding record_account_access
    get_balance host addr =
        let recorded = record_account_access host addr in
        (
          elim (account_map.find recorded.accounts addr) [
            | none ↦ zeros
            | some account ↦ account.balance
          ],
          recorded,
        )

    unfoldable pub get_code_size : MockedHost A → List ℕ → ℕ × MockedHost A
    unfolding record_account_access
    get_code_size host addr =
        let recorded = record_account_access host addr in
        (
          elim (account_map.find recorded.accounts addr) [
            | none ↦ 0
            | some account ↦ length account.code
          ],
          recorded,
        )

    unfoldable pub get_code_hash : MockedHost A → List ℕ → List ℕ × MockedHost A
    unfolding record_account_access
    get_code_hash host addr =
        let recorded = record_account_access host addr in
        (
          elim (account_map.find recorded.accounts addr) [
            | none ↦ zeros
            | some account ↦ account.codehash
          ],
          recorded,
        )

    -- The number of bytes; the bytes of the buffer go to a copy of the code, so that the buffer stays
    -- as it was.
    unfoldable pub copy_code : MockedHost A → List ℕ → ℕ → ℕ → ℕ × MockedHost A
    unfolding record_account_access
    copy_code host addr code_offset buffer_size =
        let recorded = record_account_access host addr in
        (
          elim (account_map.find recorded.accounts addr) [
            | none ↦ 0
            | some account ↦
                if leb (length account.code) code_offset
                then 0
                else min buffer_size (length account.code - code_offset)
          ],
          recorded,
        )

    module _ (storage_map : Map (List ℕ) StorageValue S) where
      unfoldable pub get_storage : MockedHost A → List ℕ → List ℕ → List ℕ × MockedHost A
      unfolding record_account_access
      get_storage host addr key =
          let recorded = record_account_access host addr in
          (
            elim (account_map.find recorded.accounts addr) [
              | none ↦ zeros
              | some account ↦ elim (storage_map.find account.storage key) [
                | none ↦ zeros
                | some slot ↦ slot.value
              ]
            ],
            recorded,
          )

      -- The accounts after a write through the pointers to an account and to its slot.
      abbrev pub put_slot : A → List ℕ → MockedAccount S → List ℕ → StorageValue → A
      put_slot accounts addr account key slot =
          account_map.insert_or_assign accounts addr
            (with_storage (storage_map.insert_or_assign account.storage key slot) account)

      -- An account that is missing is put in, and a key.
      abbrev pub present_account : A → List ℕ → A
      present_account accounts addr = elim (account_map.find accounts addr) [
        | none ↦ account_map.insert_or_assign accounts addr (mocked_account_init storage_map)
        | some account ↦ accounts
      ]

      abbrev pub present_slot : S → List ℕ → S
      present_slot storage key = elim (storage_map.find storage key) [
        | none ↦ storage_map.insert_or_assign storage key storage_value_init
        | some slot ↦ storage
      ]

      unfoldable pub access_storage :
          MockedHost A → List ℕ → List ℕ → Option (AccessStatus × MockedHost A)
      access_storage host addr key =
          let accounts = present_account host.accounts addr in
          do
            account ← account_map.find accounts addr
            let storage = present_slot account.storage key
            slot ← storage_map.find storage key
            some (
              slot.access_status,
              with_accounts
                  (put_slot accounts addr (with_storage storage account) key (warmed slot)) host,
            )

      module _ (cstr_cmp : List ℕ → List ℕ → ℤ) where
        abbrev pub evmc_bytes32_cmp : List ℕ → List ℕ → ℤ
        evmc_bytes32_cmp a b = cstr_cmp a b

        abbrev pub set_slot :
            MockedHost A
            → List ℕ
            → MockedAccount S
            → List ℕ
            → StorageValue
            → List ℕ
            → StorageStatus × MockedHost A
        set_slot host addr account key old value =
            if eqb_ℤ (evmc_bytes32_cmp old.value value) (pos 0)
            then (evmc_storage_unchanged, host)
            else (
              change_status old value,
              with_accounts
                  (put_slot host.accounts addr account key
                    record { value = value; dirty = true; access_status = old.access_status })
                  host,
            )

        -- `get_mut` of a missing account or key is null.
        unfoldable pub set_storage :
            MockedHost A → List ℕ → List ℕ → List ℕ → Option (StorageStatus × MockedHost A)
        unfolding record_account_access
        set_storage host addr key value =
            let recorded = record_account_access host addr in
            do
              account ← account_map.find recorded.accounts addr
              old ← storage_map.find account.storage key
              some (set_slot recorded addr account key old value)
