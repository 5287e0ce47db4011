-- ===== src/Machine/Fixtures.antt =====
-- A message, a platform and a new state for the tests: London, a host without accounts, an allocator
-- with room.
use tsc_vee.Base.{ℕ, List, [], ◌∷◌, ◌++◌, take, replicate, some, Option, true, length, ◌-◌}
use tsc_vee.Base.Int.{pos}
use tsc_vee.Status.{evmc_success}
use tsc_vee.Stack.{zero_item}
use tsc_vee.Host.{MockedAccount, StorageValue, zeros}
use tsc_vee.Host.Lists.{pairs, compare_texts}
use tsc_vee.Machine.{Machine, Message, evmc_call}
use tsc_vee.Machine.Platform.{Platform}

abbrev pub Slots : Type 0
Slots = List (List ℕ × StorageValue)

abbrev pub Accounts : Type 0
Accounts = List (List ℕ × MockedAccount Slots)

abbrev pub message : Message
message = record {
  kind = evmc_call;
  flags = 0;
  depth = 0;
  gas = pos 100000;
  recipient = 1 ∷ replicate 19 0;
  sender = 2 ∷ replicate 19 0;
  input = 7 ∷ 8 ∷ 9 ∷ [];
  value = zeros;
  create2_salt = zeros;
  code_address = replicate 20 0;
}

abbrev pub platform : Platform Slots Accounts
platform = record {
  malloc = λ n. true;
  realloc = λ bytes n. some (take n bytes ++ replicate (n - length bytes) 0);
  account_map = pairs;
  storage_map = pairs;
  cstr_cmp = compare_texts;
  cvec_addr_find = λ l a. length l;
  lower_bound = λ l x. 0;
  sha3 = λ bytes. zeros;
  unset = record {
    before = [];
    out = replicate 8 0;
    garbage = record { topics = []; record_topics = [] };
    fresh = message;
  };
}

abbrev pub blank : Machine Accounts
blank = record {
  gas_left = pos 0;
  memory = record { page_size = 4096; m_data = []; m_size = 0; m_capacity = 0 };
  msg = message;
  host = record {
    accounts = [];
    block_hash = zeros;
    recorded_blockhashes = [];
    recorded_account_accesses = [];
    max_recorded_account_accesses = 200;
    recorded_selfdestructs = [];
  };
  tx_context = record {
    tx_gas_price = zeros;
    tx_origin = replicate 20 0;
    block_coinbase = replicate 20 0;
    block_number = pos 1;
    block_timestamp = pos 1;
    block_gas_limit = pos 1;
    chain_id = zeros;
    block_base_fee = zeros;
  };
  call_result = record {
    status_code = evmc_success;
    result_gas_left = pos 0;
    output = [];
    create_address = replicate 20 0;
  };
  recorded_calls = [];
  max_recorded_calls = 100;
  recorded_logs = [];
  rev = 9;
  return_data = Option.none;
  code = [];
  status = evmc_success;
  output_offset = 0;
  output_size = 0;
  stack = record { space = replicate 1024 zero_item; top_item = 0 };
  current_block_cost = 0;
}
