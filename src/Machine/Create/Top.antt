-- ===== src/Machine/Create/Top.antt =====
-- What CREATE leaves on the stack.
use tsc_vee.Base.{
  ℕ, ◌+◌, ◌-◌, ◌≤◌, ◌<◌, ◌≡◌, refl, ap, ◌∙◌, List, length, get_or-set_self, get_or-set_ne, Bool,
  true, false, not, ◌&&◌, Option, none, some, if◌then◌else◌, ◌>>=◌, leb, ltb, arith,
}
use tsc_vee.Base.Int.{ℤ, pos, ltb_ℤ, ◌-ℤ◌}
use tsc_vee.Opcode
use tsc_vee.Status.{StatusCode, evmc_success, evmc_out_of_gas, evmc_static_mode_violation}
use tsc_vee.Traits.{traits}
use tsc_vee.Uint256.{Uint256, zero256, gt256}
use tsc_vee.Bytes.{readu256_be}
use tsc_vee.State.{ExecutionState, check_memory_u256}
use tsc_vee.Stack.{item, zero_item}
use tsc_vee.Jump.{null, instruction}
use tsc_vee.Host.{Map, MockedAccount, get_balance}
use tsc_vee.Machine.{
  Machine, Message, CallResult, Result, estate, with_estate, with_host, checked_then,
  check_u256_then, in_static_mode, charge_gas, evmc_create,
}
use tsc_vee.Machine.Environment.{address_bytes}
use tsc_vee.Machine.Platform.{Platform}
use tsc_vee.Machine.Handlers.{Handled, after_call, returned, moved, lent, op_create}
use tsc_vee.Machine.Call.{call, write_item, succeeded}
use tsc_vee.Machine.Create.{make_create, created, create, create_message}

module _ {A : Type 0} (top : ℕ) (some_items : 2 < top) where
  -- The item where the result of a creation belongs is 0.
  abbrev Zero : Machine A → Type 0
  Zero m = (item m.stack.space (top - 2) ≡ zero_item) × (m.stack.top_item ≡ top)

  data Leaves : Result A → Type 0 where
    stuck : Leaves none
    fails : (code : StatusCode) (m : Machine A) → succeeded code ≡ false → Leaves (some (code, m))
    zero_left : (m : Machine A) → Zero m → Leaves (some (evmc_success, m))

  if_Leaves : (b : Bool) (x y : Result A) → Leaves x → Leaves y → Leaves (if b then x else y)
  if_Leaves true x y hx hy = hx
  if_Leaves false x y hx hy = hy

  above-Zero : (m : Machine A) (x : Uint256) → Zero m → Zero (write_item (top - 2 + 1) x m)
  above-Zero m x (h, t) = (get_or-set_ne m.stack.space x zero_item (omega arith) ∙ h, t)

  created-Leaves :
      {S : Type 0} (account_map : Map (List ℕ) (MockedAccount S) A) (before : List ℕ)
      (msg : Message) (result : CallResult) (m : Machine A)
      → Zero m
      → Leaves (created account_map before (top - 2) msg (result, m))
  created-Leaves account_map before msg result m h =
      let paid = charge_gas (msg.gas -ℤ result.result_gas_left) m in
      let address = readu256_be (address_bytes before result.create_address) in
      if_Leaves (ltb 0 (length result.output)) _ _ stuck (
        if_Leaves (succeeded result.status_code) _ _
          (zero_left (write_item (top - 2 + 1) address paid) (above-Zero paid address h))
          (zero_left paid h))

  make_create-Leaves :
      {S : Type 0} (account_map : Map (List ℕ) (MockedAccount S) A) (before : List ℕ)
      (fresh : Message) (endowment : Uint256) (m : Machine A)
      → Zero m
      → Leaves (
          make_create account_map before fresh evmc_create endowment zero_item
            (top - 2)
            (top - 2)
            m)
  unfolding call
  make_create-Leaves account_map before fresh endowment m h =
      let asked = with_host (get_balance account_map m.host m.msg.recipient).1 m in
      let msg = create_message account_map before fresh evmc_create endowment zero_item asked in
      if_Leaves (leb 1024 m.msg.depth) _ _ (zero_left m h) (
        if_Leaves
          (not (zero256 endowment)
            && gt256 endowment (readu256_be (get_balance account_map m.host m.msg.recipient).0))
          _ _ (zero_left asked h)
          (if_Leaves (ltb 0 (item m.stack.space (top - 2)).lower.lower) _ _ stuck
            (created-Leaves account_map before msg (call msg asked).0 (call msg asked).1 h)))

  -- The machine behind the check of the memory has the stack of before.
  checked-Leaves :
      (check : Option (Bool × ExecutionState)) (m : Machine A) (rest : Machine A → Result A)
      → ((e : ExecutionState) → Leaves (rest (with_estate e m)))
      → Leaves (checked_then check m rest)
  checked-Leaves none m rest k = stuck
  checked-Leaves (some (true, e)) m rest k = k e
  checked-Leaves (some (false, e)) m rest k = fails evmc_out_of_gas (with_estate e m) refl

  create-Leaves :
      {S : Type 0} (account_map : Map (List ℕ) (MockedAccount S) A) (before : List ℕ)
      (realloc : List ℕ → ℕ → Option (List ℕ)) (fresh : Message) (m : Machine A)
      → m.stack.top_item ≡ top
      → top ≤ length m.stack.space
      → Leaves (create account_map before realloc fresh top m.stack.space m)
  unfolding create check_u256_then
  create-Leaves account_map before realloc fresh m t room =
      let pushed = get_or-set_self m.stack.space (top - 2 - 1) zero_item zero_item (omega arith) in
      if_Leaves (in_static_mode m) _ _ (fails evmc_static_mode_violation m refl) (
        checked-Leaves
          (check_memory_u256 realloc (estate m) (item m.stack.space (top - 1))
            (item m.stack.space (top - 2)))
          m
          (λ state.
            make_create account_map before fresh evmc_create (item m.stack.space top) zero_item
              (top - 2) (top - 2)
              (record (write_item (top - 2) zero_item state) { return_data = none }))
          (λ e.
            make_create-Leaves account_map before fresh (item m.stack.space top)
              (record (write_item (top - 2) zero_item (with_estate e m)) { return_data = none })
              (pushed, t)))

-- A handler that goes on leaves 0 on the top of the stack.
pub data ZeroTop {A : Type 0} : Handled A → Type 0 where
  undefined : ZeroTop none
  ended : (m : Machine A) → ZeroTop (some (null, m))
  zero_top :
      (instr : ℕ) (m : Machine A)
      → item m.stack.space m.stack.top_item ≡ zero_item
      → ZeroTop (some (instruction instr, m))

module _ {A : Type 0} (top : ℕ) (some_items : 2 < top) (instr : ℕ) (correction : ℤ) where
  returned_zero :
      (code : StatusCode) (m : Machine A)
      → Leaves top some_items (some (code, m))
      → ZeroTop (some (returned correction instr (code, moved Opcode.op_create m)))
  unfolding traits
  returned_zero evmc_success m (zero_left _ (h, t)) =
      let e : m.stack.top_item - 2 ≡ top - 2 = omega arith in
      split (ltb_ℤ (m.gas_left -ℤ correction) (pos 0)) (ap (item m.stack.space) e ∙ h)
    where
      split :
          (b : Bool)
          → item m.stack.space (moved Opcode.op_create m).stack.top_item ≡ zero_item
          → ZeroTop (
              some (
                (if b then null else instruction (instr + 1)),
                record (moved Opcode.op_create m) { gas_left = m.gas_left -ℤ correction },
              ))
      split true e = ended _
      split false e = zero_top (instr + 1) _ e
  returned_zero evmc_success m (fails _ _ e) = absurd (cc)
  returned_zero other m h = ended _

module _ {S A : Type 0} (p : Platform S A) where
  -- On a stack of three items or more inside of its space, a handler of CREATE that goes on to
  -- the next instruction leaves 0 on the top of the stack, whatever the creation gave.
  pub op_create-ZeroTop :
      (number : ℤ) (instr : ℕ) (m : Machine A)
      → 2 < m.stack.top_item
      → m.stack.top_item ≤ length m.stack.space
      → ZeroTop (op_create p number instr m)
  unfolding op_create after_call
  op_create-ZeroTop number instr m items room =
      part (pos m.current_block_cost -ℤ number)
        (create p.account_map p.unset.before p.realloc p.unset.fresh m.stack.top_item m.stack.space
          (lent (pos m.current_block_cost -ℤ number) m))
        (create-Leaves m.stack.top_item items p.account_map p.unset.before p.realloc p.unset.fresh
          (lent (pos m.current_block_cost -ℤ number) m) refl room)
    where
      part :
          (correction : ℤ) (result : Result A)
          → Leaves m.stack.top_item items result
          → ZeroTop
              (result >>= (λ t. some (returned correction instr (t.0, moved Opcode.op_create t.1))))
      part correction none h = undefined
      part correction (some (code, m')) h =
          returned_zero m.stack.top_item items instr correction code m' h
