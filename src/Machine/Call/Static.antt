-- ===== src/Machine/Call/Static.antt =====
-- CALL in a static call.
use tsc_vee.Base.{
  ℕ, ◌-◌, List, ◌≡◌, refl, Bool, true, false, Option, none, some, if◌then◌else◌, ◌&&◌, leb,
}
use tsc_vee.Base.Int.{ℤ, pos, ltb_ℤ}
use tsc_vee.Status.{evmc_out_of_gas, evmc_static_mode_violation}
use tsc_vee.Revision.{evmc_berlin}
use tsc_vee.Uint256.{Uint256, zero256}
use tsc_vee.State.{ExecutionState}
use tsc_vee.Stack.{item}
use tsc_vee.Host.{Map, MockedAccount}
use tsc_vee.Host.Access.{access_account}
use tsc_vee.Storing.{is_cold}
use tsc_vee.Machine.{
  Machine, Message, Result, pay_then, charge_gas, with_estate, with_host, checked_then,
  check_u256_then, in_static_mode,
}
use tsc_vee.Machine.Account.{touch_then}
use tsc_vee.Machine.Call.{
  Operands, call_start, call_, call_checked, call_new, call_message, operands_value,
}

module _ {A : Type 0} (msg : Message) (calls : List Message) where
  -- The message of the caller, and the calls that the host has recorded.
  abbrev pub Before : Machine A → Type 0
  Before m = (m.msg ≡ msg) × (m.recorded_calls ≡ calls)

  -- An error, and no call.
  pub data Fails : Result A → Type 0 where
    stuck : Fails none
    out_of_gas : (m : Machine A) → Before m → Fails (some (evmc_out_of_gas, m))
    static_mode : (m : Machine A) → Before m → Fails (some (evmc_static_mode_violation, m))

  if_Fails : (b : Bool) (x y : Result A) → Fails x → Fails y → Fails (if b then x else y)
  if_Fails true x y hx hy = hx
  if_Fails false x y hx hy = hy

  pay-Fails :
      (cost : ℤ) (m : Machine A) (rest : Machine A → Result A)
      → Before m
      → ((m' : Machine A) → Before m' → Fails (rest m'))
      → Fails (pay_then cost m rest)
  unfolding pay_then
  pay-Fails cost m rest h k =
      if_Fails (ltb_ℤ (charge_gas cost m).gas_left (pos 0)) _ _ (out_of_gas (charge_gas cost m) h)
        (k (charge_gas cost m) h)

  checked-Fails :
      (check : Option (Bool × ExecutionState)) (m : Machine A) (rest : Machine A → Result A)
      → Before m
      → ((m' : Machine A) → Before m' → Fails (rest m'))
      → Fails (checked_then check m rest)
  checked-Fails none m rest h k = stuck
  checked-Fails (some (true, e)) m rest h k = k (with_estate e m) h
  checked-Fails (some (false, e)) m rest h k = out_of_gas (with_estate e m) h

  u256-Fails :
      (realloc : List ℕ → ℕ → Option (List ℕ)) (offset size : Uint256) (m : Machine A)
      (rest : Machine A → Result A)
      → Before m
      → ((m' : Machine A) → Before m' → Fails (rest m'))
      → Fails (check_u256_then realloc offset size m rest)
  unfolding check_u256_then
  u256-Fails realloc offset size m rest = checked-Fails _ m rest

  touch-Fails :
      (cstr_cmp : List ℕ → List ℕ → ℤ) (cvec_addr_find : List (List ℕ) → List ℕ → ℕ) (cost : ℤ)
      (addr : List ℕ) (m : Machine A) (rest : Machine A → Result A)
      → Before m
      → ((m' : Machine A) → Before m' → Fails (rest m'))
      → Fails (touch_then cstr_cmp cvec_addr_find cost addr m rest)
  unfolding touch_then
  touch-Fails cstr_cmp cvec_addr_find cost addr m rest h k =
      let host = (access_account cstr_cmp cvec_addr_find m.host addr).1 in
      if_Fails (leb evmc_berlin m.rev) _ (rest m)
        (if_Fails (is_cold (access_account cstr_cmp cvec_addr_find m.host addr).0) _ _
          (pay-Fails cost (with_host host m) rest h k) (k (with_host host m) h))
        (k m h)

  -- The guard of the static mode.
  guard-Fails :
      (m : Machine A) (has_value : Bool) (rest : Result A)
      → Before m
      → has_value ≡ true
      → in_static_mode (record m { msg = msg }) ≡ true
      → Fails (if has_value && in_static_mode m then some (evmc_static_mode_violation, m) else rest)
  guard-Fails m has_value rest h e s =
      let static : in_static_mode m ≡ true = rw h.0 s in rw (e, static) (static_mode m h)

  module _ {S : Type 0} (account_map : Map (List ℕ) (MockedAccount S) A)
      (realloc : List ℕ → ℕ → Option (List ℕ)) (cstr_cmp : List ℕ → List ℕ → ℤ)
      (cvec_addr_find : List (List ℕ) → List ℕ → ℕ) where
    call_start-Fails :
        (o : Operands) (m : Machine A) (rest : Machine A → Result A)
        → Before m
        → ((m' : Machine A) → Before m' → Fails (rest m'))
        → Fails (call_start account_map realloc cstr_cmp cvec_addr_find o m rest)
    unfolding call_start
    call_start-Fails o m rest h k = search (touch-Fails, u256-Fails)

module _ {S A : Type 0} (account_map : Map (List ℕ) (MockedAccount S) A)
    (realloc : List ℕ → ℕ → Option (List ℕ)) (cstr_cmp : List ℕ → List ℕ → ℤ)
    (cvec_addr_find : List (List ℕ) → List ℕ → ℕ) (fresh : Message) where
  -- In a static call, a CALL whose value is 0 fails: it ends with a lack of gas or as a
  -- violation of the static mode, or in an access that C leaves undefined; the host has recorded
  -- no call, and the message of the caller stays.
  pub call-Fails :
      (stack : ℕ) (space : List Uint256) (m : Machine A)
      → in_static_mode m ≡ true
      → zero256 (item space (stack - 2)) ≡ true
      → Fails m.msg m.recorded_calls
          (call_ account_map realloc cstr_cmp cvec_addr_find fresh stack space m)
  unfolding call_
  call-Fails stack space m static empty =
      call_start-Fails m.msg m.recorded_calls account_map realloc cstr_cmp cvec_addr_find
        (operands_value stack space) m
        (call_checked account_map realloc cstr_cmp cvec_addr_find fresh
          (operands_value stack space))
        (refl, refl)
        (λ m' h.
          guard-Fails m.msg m.recorded_calls m' (zero256 (item space (stack - 2)))
            (call_new account_map realloc cstr_cmp cvec_addr_find (operands_value stack space)
              (call_message account_map realloc cstr_cmp cvec_addr_find fresh
                (operands_value stack space) m')
              (zero256 (item space (stack - 2))) m')
            h empty static)
