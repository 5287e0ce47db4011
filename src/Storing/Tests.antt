-- ===== src/Storing/Tests.antt =====
-- A write of storage in London and a read after it, on a host without accounts.
use tsc_vee.Base.{ℕ, ◌≡◌, refl, List, [], ◌∷◌, set, replicate, false, some, arith}
use tsc_vee.Base.Int.{pos}
use tsc_vee.Status.{StatusCode, evmc_success}
use tsc_vee.Uint128.{zero128}
use tsc_vee.Uint256.{Uint256, zero256}
use tsc_vee.Bytes.{u256_to_u8_32, store_bytes}
use tsc_vee.Uint256.Tests.{big, big-IsWord}
use tsc_vee.Stack.{set_item, zero_item, one_item}
use tsc_vee.Host.{MockedHost, MockedAccount, StorageValue, zeros}
use tsc_vee.Host.Lists.{pairs, pairs-IsMap, compare_texts, compare_texts-ComparesTexts}
use tsc_vee.Storing.{HostState, bytes_of, sload, sstore, with_host}
use tsc_vee.Storing.Laws.{Outcome, slot_of, sstore-Outcome}
use tsc_vee.Storing.Reload.{value_read, sload-sstore}

abbrev Slots : Type 0
Slots = List (List ℕ × StorageValue)

abbrev Accounts : Type 0
Accounts = List (List ℕ × MockedAccount Slots)

abbrev empty_host : MockedHost Accounts
empty_host = record {
  accounts = [];
  block_hash = zeros;
  recorded_blockhashes = [];
  recorded_account_accesses = [];
  max_recorded_account_accesses = 200;
  recorded_selfdestructs = [];
}

abbrev start : HostState Accounts
start = record {
  gas_left = pos 30000;
  rev = 9;
  flags = 0;
  recipient = 7 ∷ replicate 19 0;
  host = empty_host;
}

abbrev static_start : HostState Accounts
static_start = record {
  gas_left = pos 30000;
  rev = 9;
  flags = 1;
  recipient = 7 ∷ replicate 19 0;
  host = empty_host;
}

-- A key on the top and a value below it.
abbrev two : List Uint256
two = set (set (replicate 1024 zero_item) 0 big) 1 one_item

sstore-Outcome_example :
    Outcome pairs pairs false start
      (bytes_of one_item)
      (bytes_of big)
      (1 ∷ [])
      (sstore pairs pairs compare_texts 2 two start)
unfolding bytes_of zero256 zero128 u256_to_u8_32 store_bytes
sstore-Outcome_example =
    sstore-Outcome pairs pairs pairs-IsMap pairs-IsMap compare_texts compare_texts-ComparesTexts 2
      two start (1 ∷ []) (omega arith) refl

sload-sstore_example :
    (code : StatusCode) × (after : HostState Accounts) × (h : MockedHost Accounts) × (sstore pairs
        pairs compare_texts 2 two start
      ≡ some (code, after))
    × (sload pairs pairs 2 two after
        ≡ some (
          evmc_success,
          set_item two 2 (value_read (slot_of pairs pairs start (bytes_of one_item)) big),
          with_host h after,
        ))
sload-sstore_example =
    sload-sstore pairs pairs pairs-IsMap pairs-IsMap compare_texts compare_texts-ComparesTexts 2 two
      start 2 two (omega arith) refl big-IsWord refl
