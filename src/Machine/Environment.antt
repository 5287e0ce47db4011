-- ===== src/Machine/Environment.antt =====
-- The instructions that put something of the message, the transaction, the block or the code on the
-- stack: `address` to `callvalue`, `calldataload`, `calldatasize`, `codesize`, `gasprice`,
-- `returndatasize`, `blockhash` to `basefee` and `msize` of include/instructions.h. An instruction
-- gets the top pointer and the space and gives the space.
use tsc_vee.Base.{
  ℕ, ◌+◌, ◌-◌, ◌%◌, ◌^◌, List, ◌++◌, length, take, drop, replicate, min, Option, some,
  if◌then◌else◌, ◌&&◌, ◌>>=◌,
}
use tsc_vee.Base.Int.{ℤ, pos, negsuc, ◌-ℤ◌, ltb_ℤ, leb_ℤ}
use tsc_vee.Uint256.{Uint256, gt256}
use tsc_vee.Bytes.{readu256_be}
use tsc_vee.Stack.{item, set_item, stack_top_push, zero_item}
use tsc_vee.Jump.{word_item, uint64}
use tsc_vee.Host.{Map, MockedHost, MockedAccount, zeros, get_balance, get_block_hash}
use tsc_vee.Host.Contract.{text}
use tsc_vee.Memory.{memory_size}
use tsc_vee.Machine.{Machine}

-- The 32 bytes of an address behind twelve bytes that the function does not write.
abbrev pub address_bytes : List ℕ → List ℕ → List ℕ
address_bytes before bytes = take 12 before ++ take 20 bytes

-- `(int64_t)n` of a `uint64_t`.
abbrev pub int64 : ℕ → ℤ
int64 n = if ltb_ℤ (pos n) (pos (2 ^ 63)) then pos n else negsuc (2 ^ 64 - 1 - n)

module _ (stack : ℕ) (space : List Uint256) {A : Type 0} (m : Machine A) where
  abbrev pub push_bytes : List ℕ → List Uint256
  push_bytes bytes = stack_top_push stack space (readu256_be bytes)

  -- What the twelve first bytes hold is an argument: nothing sets them.
  unfoldable pub origin : List ℕ → List Uint256
  unfolding readu256_be
  origin before = push_bytes (address_bytes before m.tx_context.tx_origin)

  unfoldable pub coinbase : List ℕ → List Uint256
  unfolding readu256_be
  coinbase before = push_bytes (address_bytes before m.tx_context.block_coinbase)

  unfoldable pub caller : List Uint256
  unfolding readu256_be
  caller = push_bytes (address_bytes (replicate 32 0) m.msg.sender)

  unfoldable pub callvalue : List Uint256
  unfolding readu256_be
  callvalue = push_bytes m.msg.value

  unfoldable pub gasprice : List Uint256
  unfolding readu256_be
  gasprice = push_bytes m.tx_context.tx_gas_price

  unfoldable pub chainid : List Uint256
  unfolding readu256_be
  chainid = push_bytes m.tx_context.chain_id

  unfoldable pub basefee : List Uint256
  unfolding readu256_be
  basefee = push_bytes m.tx_context.block_base_fee

  unfoldable pub calldatasize : List Uint256
  calldatasize = stack_top_push stack space (word_item (length m.msg.input % 2 ^ 64))

  -- The size of the code is an `int`; codes are shorter.
  unfoldable pub codesize : List Uint256
  codesize = stack_top_push stack space (word_item (length m.code % 2 ^ 64))

  unfoldable pub msize : List Uint256
  msize = stack_top_push stack space (word_item (memory_size m.memory))

  unfoldable pub timestamp : List Uint256
  timestamp = stack_top_push stack space (word_item (uint64 m.tx_context.block_timestamp))

  unfoldable pub number : List Uint256
  number = stack_top_push stack space (word_item (uint64 m.tx_context.block_number))

  unfoldable pub gaslimit : List Uint256
  gaslimit = stack_top_push stack space (word_item (uint64 m.tx_context.block_gas_limit))

  -- The body is a comment.
  unfoldable pub difficulty : List Uint256
  difficulty = space

  -- `strlen` of a null pointer is undefined.
  unfoldable pub returndatasize : Option (List Uint256)
  returndatasize =
      m.return_data
      >>= (λ bytes. some (stack_top_push stack space (word_item (length (text bytes)))))

  -- The 32 bytes of the input from `begin` on, zeros behind its end. `begin + 32` wraps only for
  -- inputs longer than memory.
  abbrev pub loaded : ℕ → List ℕ
  loaded begin =
      let size = min (begin + 32) (length m.msg.input) - begin in
      take size (drop begin m.msg.input) ++ replicate (32 - size) 0

  unfoldable pub calldataload : List Uint256
  unfolding readu256_be
  calldataload =
      let index = item space stack in
      set_item space stack (
        if gt256 index (word_item (length m.msg.input))
        then zero_item
        else readu256_be (loaded index.lower.lower))

  -- The hash is asked for a number above that of the block.
  unfoldable pub blockhash : List Uint256 × MockedHost A
  unfolding readu256_be get_block_hash
  blockhash =
      let index = item space stack in
      let upper_bound = m.tx_context.block_number in
      let lower_bound =
        if ltb_ℤ (pos 0) (upper_bound -ℤ pos 256) then upper_bound -ℤ pos 256 else pos 0 in
      let n = int64 index.lower.lower in
      let (header, host) =
        (if gt256 index (word_item (uint64 upper_bound)) && leb_ℤ lower_bound n
          then get_block_hash m.host n
          else (zeros, m.host)) in
      (set_item space stack (readu256_be header), host)

  module _ {S : Type 0} (account_map : Map (List ℕ) (MockedAccount S) A) where
    unfoldable pub selfbalance : List Uint256 × MockedHost A
    unfolding readu256_be get_balance
    selfbalance =
        let (balance, host) = get_balance account_map m.host m.msg.recipient in
        (push_bytes balance, host)
