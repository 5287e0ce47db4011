-- ===== src/Machine/Account.antt =====
-- The instructions that ask the host about an account: `balance`, `extcodesize`, `extcodehash`,
-- `extcodecopy` and `selfdestruct_` of include/instructions.h.
use tsc_vee.Base.{
  ℕ, ◌+◌, ◌-◌, ◌*◌, ◌%◌, ◌^◌, List, replicate, min, not, ◌||◌, some, if◌then◌else◌, leb, ◌==◌,
  Option, ◌>>=◌,
}
use tsc_vee.Base.Int.{ℤ, pos}
use tsc_vee.Status.{evmc_success, evmc_static_mode_violation}
use tsc_vee.Revision.{evmc_berlin, evmc_tangerine_whistle}
use tsc_vee.Uint256.{Uint256}
use tsc_vee.Bytes.{readu256_be, u256_to_u8_20}
use tsc_vee.Stack.{item, set_item}
use tsc_vee.Jump.{word_item}
use tsc_vee.Memory.{fill_zero}
use tsc_vee.State.{num_words}
use tsc_vee.Host.{
  Map, MockedAccount, get_balance, get_code_size, get_code_hash, copy_code, account_exists,
  selfdestruct,
}
use tsc_vee.Host.Access.{access_account}
use tsc_vee.Storing.{is_cold}
use tsc_vee.Machine.{
  Machine, Result, pay_then, check_u256_then, with_host, in_static_mode, charge_gas,
}

abbrev pub cold_account_access_cost : ℤ
cold_account_access_cost = pos 2600

abbrev pub additional_cold_account_access_cost : ℤ
additional_cold_account_access_cost = pos 2500

-- The 20 bytes of an address; all of them are written.
unfoldable pub address_of : Uint256 → List ℕ
unfolding u256_to_u8_20
address_of x = u256_to_u8_20 x (replicate 20 0)

module _ {A : Type 0} where
  -- `selfdestruct` of the host, and the end.
  unfoldable pub destroyed : List ℕ → Machine A → Result A
  unfolding selfdestruct
  destroyed beneficiary state =
      some (evmc_success, with_host (selfdestruct state.host state.msg.recipient beneficiary) state)

  module _ {S : Type 0} (account_map : Map (List ℕ) (MockedAccount S) A) where
    -- A charge that takes the gas below 0 sets a status that the end overwrites.
    abbrev pub destroyed_new : List ℕ → Machine A → Result A
    destroyed_new beneficiary state =
        let (exists, host) = account_exists account_map state.host beneficiary in
        let found = with_host host state in
        if exists
        then destroyed beneficiary found
        else destroyed beneficiary (charge_gas (pos 25000) found)

    -- From Tangerine Whistle on.
    abbrev pub destroyed_priced : List ℕ → Machine A → Result A
    destroyed_priced beneficiary state =
        let (bytes, host) = get_balance account_map state.host state.msg.recipient in
        let asked = with_host host state in
        if state.rev == evmc_tangerine_whistle || not ((readu256_be bytes).lower.lower == 0)
        then destroyed_new beneficiary asked
        else destroyed beneficiary asked

module _ {A : Type 0} (cstr_cmp : List ℕ → List ℕ → ℤ)
    (cvec_addr_find : List (List ℕ) → List ℕ → ℕ) where
  -- `if (state->rev >= EVMC_BERLIN && access_account(...) == EVMC_ACCESS_COLD)` pays the cost.
  unfoldable pub touch_then : ℤ → List ℕ → Machine A → (Machine A → Result A) → Result A
  unfolding access_account
  touch_then cost addr m rest =
      if leb evmc_berlin m.rev
      then (let (status, host) = access_account cstr_cmp cvec_addr_find m.host addr in
          let touched = with_host host m in
          if is_cold status then pay_then cost touched rest else rest touched)
      else rest m

  module _ {S : Type 0} (account_map : Map (List ℕ) (MockedAccount S) A) (stack : ℕ)
      (space : List Uint256) (m : Machine A) where
    -- The machine with the top item replaced.
    abbrev pub answered : Uint256 → Machine A → Machine A
    answered x state = record state {
      stack = record { space = set_item space stack x; top_item = state.stack.top_item };
    }

    unfoldable pub balance : Result A
    unfolding touch_then address_of get_balance readu256_be
    balance =
        let addr = address_of (item space stack) in
        touch_then additional_cold_account_access_cost addr m (λ state.
          let (res, host) = get_balance account_map state.host addr in
          some (evmc_success, answered (readu256_be res) (with_host host state)))

    unfoldable pub extcodesize : Result A
    unfolding touch_then address_of get_code_size
    extcodesize =
        let addr = address_of (item space stack) in
        touch_then additional_cold_account_access_cost addr m (λ state.
          let (res, host) = get_code_size account_map state.host addr in
          some (evmc_success, answered (word_item (res % 2 ^ 64)) (with_host host state)))

    unfoldable pub extcodehash : Result A
    unfolding touch_then address_of get_code_hash readu256_be
    extcodehash =
        let addr = address_of (item space stack) in
        touch_then additional_cold_account_access_cost addr m (λ state.
          let (hash, host) = get_code_hash account_map state.host addr in
          some (evmc_success, answered (readu256_be hash) (with_host host state)))

    -- The host counts the bytes and writes none of them; the rest is cleared.
    abbrev pub clear_behind : ℕ → ℕ → ℕ → Machine A → Result A
    clear_behind dst s num_bytes_copied state =
        fill_zero state.memory.m_data (dst + num_bytes_copied) (s - num_bytes_copied) >>= (λ filled.
          some (evmc_success, record state { memory = record state.memory { m_data = filled } }))

    unfoldable pub extcodecopy : (List ℕ → ℕ → Option (List ℕ)) → Result A
    unfolding touch_then address_of copy_code check_u256_then fill_zero
    extcodecopy realloc =
        let addr = address_of (item space stack) in
        let mem_index = item space (stack - 1) in
        let input_index = item space (stack - 2) in
        let size = item space (stack - 3) in
        check_u256_then realloc mem_index size m (λ checked.
          let s = size.lower.lower in
          pay_then (pos (num_words s * 3)) checked (λ paid.
            touch_then additional_cold_account_access_cost addr paid (λ state.
              if s == 0
              then some (evmc_success, state)
              else (let src = min (2 ^ 32 - 1) input_index.lower.lower in
                  let (num_bytes_copied, host) = copy_code account_map state.host addr src s in
                  clear_behind mem_index.lower.lower s num_bytes_copied (with_host host state)))))

    unfoldable pub selfdestruct_ : Result A
    unfolding touch_then address_of get_balance readu256_be account_exists destroyed
    selfdestruct_ =
        let beneficiary = address_of (item space stack) in
        if in_static_mode m
        then some (evmc_static_mode_violation, m)
        else touch_then cold_account_access_cost beneficiary m (λ state.
          if leb evmc_tangerine_whistle state.rev
          then destroyed_priced account_map beneficiary state
          else destroyed beneficiary state)
