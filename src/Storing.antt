-- ===== src/Storing.antt =====
-- SLOAD and SSTORE: `sload` and `sstore` of include/instructions.h, `op_sload` and `op_sstore` of
-- include/analysis.h, on the mocked host.
pub mod Laws
pub mod Reload
mod Tests
use tsc_vee.Base.{
  ℕ, ◌-◌, ◌+◌, List, Bool, true, false, not, ◌&&◌, if◌then◌else◌, leb, ◌==◌, bit_and, Option, some,
  ◌>>=◌,
}
use tsc_vee.Base.Int.{ℤ, pos, ◌+ℤ◌, ◌-ℤ◌, ltb_ℤ, leb_ℤ}
use tsc_vee.Revision.{evmc_constantinople, evmc_istanbul, evmc_berlin}
use tsc_vee.Status.{StatusCode, evmc_success, evmc_out_of_gas, evmc_static_mode_violation}
use tsc_vee.Gas.{warm_storage_read_cost}
use tsc_vee.Opcode
use tsc_vee.Uint256.{Uint256, zero256}
use tsc_vee.Bytes.{u256_to_u8_32, readu256_be}
use tsc_vee.Stack.{Stack, item, set_item, move, height_change}
use tsc_vee.Jump.{Next, null, instruction}
use tsc_vee.Host.{
  Map, MockedHost, MockedAccount, StorageValue, StorageStatus, AccessStatus, zeros, get_storage,
  set_storage, access_storage, evmc_access_cold, evmc_access_warm, evmc_storage_unchanged,
  evmc_storage_modified, evmc_storage_modified_again, evmc_storage_added, evmc_storage_deleted,
}

abbrev pub cold_sload_cost : ℤ
cold_sload_cost = pos 2100

-- The part of `struct ExecutionState` that the instructions on storage use; `flags` and `recipient`
-- stand in its message.
pub record HostState (A : Type 0) : Type 0 where
  pub gas_left : ℤ
  pub rev : ℕ
  pub flags : ℕ
  pub recipient : List ℕ
  pub host : MockedHost A

-- `msg->flags & EVMC_STATIC != 0`, which C reads as `msg->flags & (EVMC_STATIC != 0)`.
abbrev pub execution_state_in_static_mode : {A : Type 0} → HostState A → Bool
execution_state_in_static_mode state = not (bit_and state.flags 1 == 0)

-- The 32 bytes of a number: `key.bytes` and `value.bytes`.
unfoldable pub bytes_of : Uint256 → List ℕ
bytes_of x = if zero256 x then zeros else u256_to_u8_32 x zeros

abbrev pub is_cold : AccessStatus → Bool
is_cold evmc_access_cold = true
is_cold evmc_access_warm = false

-- `switch (status)` of `sstore`.
abbrev pub store_cost : ℕ → ℤ → StorageStatus → ℤ
store_cost rev cost evmc_storage_unchanged =
    if leb evmc_berlin rev
    then cost +ℤ warm_storage_read_cost
    else if rev == evmc_istanbul
    then pos 800
    else if rev == evmc_constantinople
    then pos 200
    else pos 5000
store_cost rev cost evmc_storage_modified_again =
    if leb evmc_berlin rev
    then cost +ℤ warm_storage_read_cost
    else if rev == evmc_istanbul
    then pos 800
    else if rev == evmc_constantinople
    then pos 200
    else pos 5000
store_cost rev cost evmc_storage_modified =
    if leb evmc_berlin rev then cost +ℤ (pos 5000 -ℤ cold_sload_cost) else pos 5000
store_cost rev cost evmc_storage_deleted =
    if leb evmc_berlin rev then cost +ℤ (pos 5000 -ℤ cold_sload_cost) else pos 5000
store_cost rev cost evmc_storage_added = cost +ℤ pos 20000

module _ {A : Type 0} where
  abbrev pub with_host : MockedHost A → HostState A → HostState A
  with_host host state = record {
    gas_left = state.gas_left;
    rev = state.rev;
    flags = state.flags;
    recipient = state.recipient;
    host = host;
  }

  -- `state->gas_left -= cost` and the host.
  abbrev pub charged : ℤ → MockedHost A → HostState A → HostState A
  charged cost host state = record {
    gas_left = state.gas_left -ℤ cost;
    rev = state.rev;
    flags = state.flags;
    recipient = state.recipient;
    host = host;
  }

  -- `(state->gas_left -= cost) < 0`
  abbrev pub pay : ℤ → MockedHost A → HostState A → StatusCode × HostState A
  pay cost host state =
      let paid = charged cost host state in
      (if ltb_ℤ paid.gas_left (pos 0) then evmc_out_of_gas else evmc_success, paid)

-- The next instruction, or the end of the run.
abbrev pub next_if : StatusCode → ℕ → Next
next_if evmc_success instr = instruction (instr + 1)
next_if code instr = null

abbrev pub lower_two : Stack → Stack
lower_two s = record {
  space = s.space;
  top_item = move s.top_item (height_change Opcode.op_sstore);
}

-- `state->gas_left += gas_left_correction`
abbrev pub lend : {A : Type 0} → ℤ → HostState A → HostState A
lend gas_left_correction state = record {
  gas_left = state.gas_left +ℤ gas_left_correction;
  rev = state.rev;
  flags = state.flags;
  recipient = state.recipient;
  host = state.host;
}

module _ {S A : Type 0} (account_map : Map (List ℕ) (MockedAccount S) A)
    (storage_map : Map (List ℕ) StorageValue S) where
  -- The access that Berlin charges for: whether it was cold, and the host after it.
  unfoldable pub access : HostState A → List ℕ → Option (Bool × MockedHost A)
  access state key =
      if leb evmc_berlin state.rev
      then (access_storage account_map storage_map state.host state.recipient key
          >>= (λ t. some (is_cold t.0, t.1)))
      else some (false, state.host)

  -- The value that is read replaces the top item, unless the gas has run out.
  abbrev pub load :
      ℕ → List Uint256 → List ℕ → StatusCode × HostState A → StatusCode × List Uint256 × HostState A
  load stack space key (evmc_success, state) =
      let (bytes, host) = get_storage account_map storage_map state.host state.recipient key in
      (evmc_success, set_item space stack (readu256_be bytes), with_host host state)
  load stack space key (code, state) = (code, space, state)

  unfoldable pub sload :
      ℕ → List Uint256 → HostState A → Option (StatusCode × List Uint256 × HostState A)
  unfolding access bytes_of
  sload stack space state =
      let key = bytes_of (item space stack) in
      access state key >>= (λ t.
        let (cold, host) = t in
        some (
          load stack space key (
            if cold
            then pay (cold_sload_cost -ℤ warm_storage_read_cost) host state
            else (evmc_success, with_host host state))))

  module _ (cstr_cmp : List ℕ → List ℕ → ℤ) where
    -- The guards are tested before anything is read.
    unfoldable pub sstore : ℕ → List Uint256 → HostState A → Option (StatusCode × HostState A)
    unfolding access bytes_of
    sstore stack space state =
        if execution_state_in_static_mode state
        then some (evmc_static_mode_violation, state)
        else if leb evmc_istanbul state.rev && leb_ℤ state.gas_left (pos 2300)
        then some (evmc_out_of_gas, state)
        else (let key = bytes_of (item space stack) in
            let value = bytes_of (item space (stack - 1)) in
            access state key >>= (λ t.
              let (cold, host) = t in
              set_storage account_map storage_map cstr_cmp host state.recipient key value >>= (λ u.
                some (
                  pay (store_cost state.rev (if cold then cold_sload_cost else pos 0) u.0) u.1
                    state))))

  -- The stack and the state, and the block's cost.
  abbrev pub after_load :
      ℕ → Stack → StatusCode × List Uint256 × HostState A → Next × Stack × HostState A
  after_load instr s (code, space, state) = (
    next_if code instr,
    record { space = space; top_item = move s.top_item (height_change Opcode.op_sload) },
    state,
  )

  unfoldable pub op_sload : ℕ → Stack → HostState A → Option (Next × Stack × HostState A)
  unfolding sload
  op_sload instr s state = sload s.top_item s.space state >>= (λ t. some (after_load instr s t))

  module _ (cstr_cmp : List ℕ → List ℕ → ℤ) where
    -- The gas of the rest of the block is lent to the instruction, and taken back behind it.
    abbrev pub take_back : ℤ → ℕ → Stack → StatusCode × HostState A → Next × Stack × HostState A
    take_back correction instr s (evmc_success, state) =
        let (code, paid) = pay correction state.host state in
        (next_if code instr, lower_two s, paid)
    take_back correction instr s (code, state) = (null, lower_two s, state)

    unfoldable pub op_sstore : ℕ → ℕ → ℤ → Stack → HostState A → Option (Next × Stack × HostState A)
    unfolding sstore
    op_sstore instr current_block_cost number s state =
        let gas_left_correction = pos current_block_cost -ℤ number in
        sstore cstr_cmp s.top_item s.space (lend gas_left_correction state)
        >>= (λ t. some (take_back gas_left_correction instr s t))
