-- ===== src/Machine/Create.antt =====
-- The creations: `create` and `create2` of include/instructions.h. A function fills a message on its
-- stack field by field; what the fields hold that it leaves is an argument, `fresh`. The output is
-- moved to the null pointer `return_data`: an output of any bytes is `none`.
pub mod Top
mod Tests
use tsc_vee.Base.{
  ℕ, ◌+◌, ◌-◌, ◌*◌, List, length, replicate, not, ◌&&◌, Option, none, some, if◌then◌else◌, ltb, leb,
}
use tsc_vee.Base.Int.{pos, ◌-ℤ◌}
use tsc_vee.Status.{evmc_success, evmc_static_mode_violation}
use tsc_vee.Revision.{evmc_tangerine_whistle}
use tsc_vee.Uint256.{Uint256, zero256, gt256}
use tsc_vee.Bytes.{readu256_be, u256_to_u8_32}
use tsc_vee.Stack.{item, zero_item}
use tsc_vee.State.{num_words}
use tsc_vee.Host.{Map, MockedAccount, get_balance}
use tsc_vee.Machine.{
  Machine, Message, CallKind, CallResult, Result, pay_then, check_u256_then, with_host,
  in_static_mode, charge_gas, evmc_create, evmc_create2,
}
use tsc_vee.Machine.Environment.{address_bytes}
use tsc_vee.Machine.Call.{call, write_item, succeeded, div_64}

module _ {A : Type 0} where
  -- A creation behind its guards: `place` is that of the item pushed for the result, `size` the item
  -- that the size is read from then. Bytes of code are moved through a pointer that nothing has set.
  -- The address goes above the place; the bytes in front of it are those of `before`.
  module _ {S : Type 0} (account_map : Map (List ℕ) (MockedAccount S) A) (before : List ℕ) where
    abbrev pub created : ℕ → Message → CallResult × Machine A → Result A
    created place msg (result, m) =
        let paid = charge_gas (msg.gas -ℤ result.result_gas_left) m in
        if ltb 0 (length result.output)
        then none
        else if succeeded result.status_code
        then some (
          evmc_success,
          write_item (place + 1) (readu256_be (address_bytes before result.create_address)) paid,
        )
        else some (evmc_success, paid)

    abbrev pub create_message : Message → CallKind → Uint256 → Uint256 → Machine A → Message
    create_message fresh kind endowment salt m = record fresh {
      gas =
          if leb evmc_tangerine_whistle m.rev then m.gas_left -ℤ div_64 m.gas_left else m.gas_left;
      kind = kind;
      sender = m.msg.recipient;
      depth = m.msg.depth + 1;
      create2_salt = u256_to_u8_32 salt (replicate 32 0);
      value = u256_to_u8_32 endowment (replicate 32 0);
    }

    abbrev pub make_create : Message → CallKind → Uint256 → Uint256 → ℕ → ℕ → Machine A → Result A
    make_create fresh kind endowment salt place size m =
        if leb 1024 m.msg.depth
        then some (evmc_success, m)
        else (let (b, host) = get_balance account_map m.host m.msg.recipient in
            let asked = with_host host m in
            let msg = create_message fresh kind endowment salt asked in
            if not (zero256 endowment) && gt256 endowment (readu256_be b)
            then some (evmc_success, asked)
            else if ltb 0 (item asked.stack.space size).lower.lower
            then none
            else created place msg (call msg asked))

    module _ (realloc : List ℕ → ℕ → Option (List ℕ)) (fresh : Message) (stack : ℕ)
        (space : List Uint256) (m : Machine A) where
      -- The zero that is pushed stands where the size of the code stood.
      unfoldable pub create : Result A
      unfolding check_u256_then call get_balance readu256_be zero256 u256_to_u8_32
      create =
          let endowment = item space stack in
          if in_static_mode m
          then some (evmc_static_mode_violation, m)
          else check_u256_then realloc (item space (stack - 1)) (item space (stack - 2)) m (λ state.
            make_create fresh evmc_create endowment zero_item (stack - 2) (stack - 2)
              (record (write_item (stack - 2) zero_item state) { return_data = none }))

      unfoldable pub create2 : Result A
      unfolding check_u256_then call get_balance readu256_be zero256 u256_to_u8_32
      create2 =
          let endowment = item space stack in
          let size = item space (stack - 2) in
          let salt = item space (stack - 3) in
          if in_static_mode m
          then some (evmc_static_mode_violation, m)
          else check_u256_then realloc (item space (stack - 1)) size m (λ state.
            pay_then (pos (num_words size.lower.lower * 6)) state (λ paid.
              make_create fresh evmc_create2 endowment salt (stack - 3) (stack - 2)
                (record (write_item (stack - 3) salt paid) { return_data = none })))
