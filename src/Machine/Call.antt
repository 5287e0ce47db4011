-- ===== src/Machine/Call.antt =====
-- The calls: `call_`, `callcode`, `delegatecall` and `staticcall` of include/instructions.h, and `call` of include/mocked_host.h. A function fills a message on its stack
-- field by field; what the fields hold that it leaves is an argument, `fresh`. The output of a call is
-- written through the null pointer `return_data`: an output of any bytes is `none`.
pub mod Static
mod Tests
use tsc_vee.Base.{
  ℕ, ◌+◌, ◌-◌, ◌/◌, ◌^◌, List, [], ◌∷◌, ◌++◌, length, take, drop, replicate, min, Bool, true, false,
  not, ◌&&◌, ◌||◌, Option, none, some, if◌then◌else◌, ltb, leb, ◌>>=◌,
}
use tsc_vee.Base.Int.{ℤ, pos, negsuc, ◌+ℤ◌, ◌-ℤ◌, ltb_ℤ}
use tsc_vee.Status.{StatusCode, evmc_success, evmc_out_of_gas, evmc_static_mode_violation}
use tsc_vee.Revision.{evmc_tangerine_whistle, evmc_spurious_dragon}
use tsc_vee.Uint256.{Uint256, zero256, gt256}
use tsc_vee.Bytes.{readu256_be, u256_to_u8_32}
use tsc_vee.Stack.{item, set_item, zero_item}
use tsc_vee.Jump.{word_item}
use tsc_vee.Transfer.{write_bytes}
use tsc_vee.Host.{Map, MockedAccount, record_account_access, get_balance, account_exists}
use tsc_vee.Machine.{
  Machine, Message, CallResult, Result, pay_then, check_u256_then, with_host, in_static_mode,
  evmc_call, evmc_delegatecall, evmc_callcode,
}
use tsc_vee.Machine.Environment.{int64}
use tsc_vee.Machine.Account.{touch_then, address_of, additional_cold_account_access_cost}

-- `n / 64`, which goes towards 0.
abbrev pub div_64 : ℤ → ℤ
div_64 (pos n) = pos (n / 64)
div_64 (negsuc n) = pos 0 -ℤ pos ((n + 1) / 64)

abbrev pub min_ℤ : ℤ → ℤ → ℤ
min_ℤ a b = if ltb_ℤ a b then a else b

-- The gas that the message gets before the rule of Tangerine Whistle.
abbrev pub asked_gas : Uint256 → ℤ
asked_gas gas = min_ℤ (int64 gas.lower.lower) (pos (2 ^ 63 - 1))

-- `status_code == EVMC_SUCCESS`
abbrev pub succeeded : StatusCode → Bool
succeeded evmc_success = true
succeeded other = false

-- The items that a call takes, and the place of the result on the stack. It is the place of the last
-- item, the size of the output, which is therefore read from there later.
pub record Operands : Type 0 where
  pub gas : Uint256
  pub dst : List ℕ
  pub value : Uint256
  pub input_offset : Uint256
  pub input_size : Uint256
  pub output_offset : Uint256
  pub result : ℕ

-- The operands with a value, seven items, and without one, six.
abbrev pub operands_value : ℕ → List Uint256 → Operands
operands_value stack space = record {
  gas = item space stack;
  dst = address_of (item space (stack - 1));
  value = item space (stack - 2);
  input_offset = item space (stack - 3);
  input_size = item space (stack - 4);
  output_offset = item space (stack - 5);
  result = stack - 6;
}

abbrev pub operands_plain : ℕ → List Uint256 → Operands
operands_plain stack space = record {
  gas = item space stack;
  dst = address_of (item space (stack - 1));
  value = zero_item;
  input_offset = item space (stack - 2);
  input_size = item space (stack - 3);
  output_offset = item space (stack - 4);
  result = stack - 5;
}

module _ {A : Type 0} where
  -- `*output_size`
  abbrev pub output_size : Operands → Machine A → Uint256
  output_size o m = item m.stack.space o.result

  abbrev pub write_item : ℕ → Uint256 → Machine A → Machine A
  write_item p x m = record m {
    stack = record { space = set_item m.stack.space p x; top_item = m.stack.top_item };
  }

  -- `call` of the mocked host gives the result that was put there before.
  unfoldable pub call : Message → Machine A → CallResult × Machine A
  unfolding record_account_access
  call msg m = (
    m.call_result,
    record m {
      host = record_account_access m.host msg.recipient;
      recorded_calls =
          if ltb (length m.recorded_calls) m.max_recorded_calls
          then m.recorded_calls ++ (msg ∷ [])
          else m.recorded_calls;
    },
  )

  -- The input of a message; the message keeps what it held when the size is 0.
  abbrev pub with_input : ℕ → ℕ → Machine A → Message → Message
  with_input offset size m msg =
      if ltb 0 size then record msg { input = take size (drop offset m.memory.m_data) } else msg

  -- Behind the call: the output, the result on the stack, the copy to the memory and the gas.
  abbrev pub after_call : Operands → Message → CallResult × Machine A → Result A
  after_call o msg (result, m) =
      let marked =
        write_item o.result (word_item (if succeeded result.status_code then 1 else 0)) m in
      let copy_size = min (output_size o marked).lower.lower (length result.output) in
      if ltb 0 (length result.output)
      then none
      else write_bytes m.memory.m_data o.output_offset.lower.lower (take copy_size result.output)
        >>= (λ filled. some (
          evmc_success,
          record marked {
            memory = record m.memory { m_data = filled };
            gas_left = m.gas_left -ℤ (msg.gas -ℤ result.result_gas_left);
          },
        ))

  module _ {S : Type 0} (account_map : Map (List ℕ) (MockedAccount S) A) where
    -- The depth and the balance of the caller are tested, and the call made.
    abbrev pub make_call : Operands → Bool → Message → Machine A → Result A
    make_call o has_value msg m =
        if leb 1024 m.msg.depth
        then some (evmc_success, m)
        else (let (b, host) = get_balance account_map m.host m.msg.recipient in
            let asked = with_host host m in
            if has_value && gt256 o.value (readu256_be b)
            then some (evmc_success, asked)
            else after_call o msg (call msg asked))

    -- The gas of the call and its stipend.
    abbrev pub priced_call : Operands → Bool → Message → Machine A → Result A
    priced_call o has_value msg m =
        let asked = asked_gas o.gas in
        let gas =
          if leb evmc_tangerine_whistle m.rev
          then min_ℤ asked (m.gas_left -ℤ div_64 m.gas_left)
          else asked in
        let stipend = if has_value then pos 2300 else pos 0 in
        if not (leb evmc_tangerine_whistle m.rev) && ltb_ℤ m.gas_left asked
        then some (evmc_out_of_gas, m)
        else make_call o has_value (record msg { gas = gas +ℤ stipend })
            (record m { gas_left = m.gas_left +ℤ stipend; return_data = none })

    module _ (realloc : List ℕ → ℕ → Option (List ℕ)) (cstr_cmp : List ℕ → List ℕ → ℤ)
        (cvec_addr_find : List (List ℕ) → List ℕ → ℕ) where
      -- What the four calls begin with: the result is a failure until later, a cold account is paid
      -- for, and both parts of the memory are checked.
      unfoldable pub call_start : Operands → Machine A → (Machine A → Result A) → Result A
      unfolding touch_then check_u256_then
      call_start o m rest =
          touch_then cstr_cmp cvec_addr_find additional_cold_account_access_cost o.dst
            (write_item o.result zero_item m)
            (λ touched. check_u256_then realloc o.input_offset o.input_size touched (λ checked.
              check_u256_then realloc o.output_offset (output_size o checked) checked rest))

      -- `has_value` holds for a value of 0.
      abbrev pub call_rest : Operands → Message → Bool → Machine A → Result A
      call_rest o msg has_value m =
          pay_then (if has_value then pos 9000 else pos 0) m (priced_call o has_value msg)

      -- The price of an account that does not exist, which only `call_` asks for.
      abbrev pub call_new : Operands → Message → Bool → Machine A → Result A
      call_new o msg has_value m =
          let cost = if has_value then pos 9000 else pos 0 in
          if has_value || ltb m.rev evmc_spurious_dragon
          then (let (exists, host) = account_exists account_map m.host o.dst in
              pay_then (if exists then cost else cost +ℤ pos 25000) (with_host host m)
                (priced_call o has_value msg))
          else pay_then cost m (priced_call o has_value msg)

      module _ (fresh : Message) where
        abbrev pub call_message : Operands → Machine A → Message
        call_message o m =
            with_input o.input_offset.lower.lower o.input_size.lower.lower m (record fresh {
              kind = evmc_call;
              flags = m.msg.flags;
              depth = m.msg.depth + 1;
              recipient = o.dst;
              code_address = o.dst;
              sender = m.msg.recipient;
              value = u256_to_u8_32 o.value (replicate 32 0);
            })

        -- `call_` behind the checks of the memory.
        abbrev pub call_checked : Operands → Machine A → Result A
        call_checked o m =
            let has_value = zero256 o.value in
            if has_value && in_static_mode m
            then some (evmc_static_mode_violation, m)
            else call_new o (call_message o m) has_value m

      module _ (fresh : Message) (stack : ℕ) (space : List Uint256) (m : Machine A) where
        unfoldable pub call_ : Result A
        unfolding call_start account_exists call get_balance readu256_be write_bytes address_of
            u256_to_u8_32 zero256
        call_ = let o = operands_value stack space in call_start o m (call_checked fresh o)

        unfoldable pub staticcall : Result A
        unfolding call_start call get_balance readu256_be write_bytes address_of u256_to_u8_32
            zero256
        staticcall =
            let o = operands_plain stack space in
            call_start o m (λ state.
              let msg =
                with_input o.input_offset.lower.lower o.input_size.lower.lower state (record fresh {
                  kind = evmc_call;
                  flags = 1;
                  depth = state.msg.depth + 1;
                  recipient = o.dst;
                  code_address = o.dst;
                  sender = state.msg.recipient;
                  value = u256_to_u8_32 o.value (replicate 32 0);
                }) in
              call_rest o msg (zero256 o.value) state)

        unfoldable pub delegatecall : Result A
        unfolding call_start call get_balance readu256_be write_bytes address_of zero256
        delegatecall =
            let o = operands_plain stack space in
            call_start o m (λ state.
              let msg =
                with_input o.input_offset.lower.lower o.input_size.lower.lower state (record fresh {
                  kind = evmc_delegatecall;
                  flags = state.msg.flags;
                  depth = state.msg.depth + 1;
                  recipient = state.msg.recipient;
                  code_address = o.dst;
                  sender = state.msg.sender;
                  value = state.msg.value;
                }) in
              call_rest o msg (zero256 o.value) state)

        unfoldable pub callcode : Result A
        unfolding call_start call get_balance readu256_be write_bytes address_of u256_to_u8_32
            zero256
        callcode =
            let o = operands_value stack space in
            call_start o m (λ state.
              let msg =
                with_input o.input_offset.lower.lower o.input_size.lower.lower state (record fresh {
                  kind = evmc_callcode;
                  flags = state.msg.flags;
                  depth = state.msg.depth + 1;
                  recipient = state.msg.recipient;
                  code_address = o.dst;
                  sender = state.msg.recipient;
                  value = u256_to_u8_32 o.value (replicate 32 0);
                }) in
              call_rest o msg (zero256 o.value) state)
