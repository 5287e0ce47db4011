-- ===== src/Interpreter/Status/Rules.antt =====
-- What the parts of an instruction leave alone: the status, the message, the revision, the code and
-- the pointer to returned bytes, which is null from the start on.
use tsc_vee.Base.{ℕ, List, ◌≡◌, Bool, true, false, Option, none, some, if◌then◌else◌, ◌>>=◌, leb}
use tsc_vee.Base.Int.{ℤ, pos, ltb_ℤ, ◌-ℤ◌}
use tsc_vee.Status.{StatusCode, evmc_success}
use tsc_vee.Revision.{evmc_berlin}
use tsc_vee.Uint256.{Uint256}
use tsc_vee.State.{ExecutionState}
use tsc_vee.Jump.{Next}
use tsc_vee.Storing.{is_cold}
use tsc_vee.Host.Access.{access_account}
use tsc_vee.Interpreter.{loop_then}
use tsc_vee.Machine.{
  Machine, Message, Result, pay_then, charge_gas, with_estate, with_host, checked_then,
  check_u256_then, check_u64_then,
}
use tsc_vee.Machine.Account.{touch_then}
use tsc_vee.Machine.Handlers.{
  Handled, then_handle, after_status, after_exit, after_call, returned, moved, lent,
}

module _ {A : Type 0} where
  -- The part of the state that no instruction changes.
  abbrev pub config : Machine A → StatusCode × Message × ℕ × List ℕ × Option (List ℕ)
  config m = (m.status, m.msg, m.rev, m.code, m.return_data)

  module _ (c : StatusCode × Message × ℕ × List ℕ × Option (List ℕ)) where
    abbrev pub Good : Machine A → Type 0
    Good m = config m ≡ c

    pub data KeepsResult : Result A → Type 0 where
      stuck : KeepsResult none
      kept : (code : StatusCode) (m : Machine A) → Good m → KeepsResult (some (code, m))

    pub data Keeps : Handled A → Type 0 where
      stopped : Keeps none
      went : (after : Next) (m : Machine A) → Good m → Keeps (some (after, m))

    pub if_keeps :
        (b : Bool) (x y : Result A)
        → KeepsResult x
        → KeepsResult y
        → KeepsResult (if b then x else y)
    if_keeps true x y hx hy = hx
    if_keeps false x y hx hy = hy

    pub bind-Keeps :
        {B : Type 0} (o : Option B) (f : B → Handled A)
        → ((b : B) → Keeps (f b))
        → Keeps (then_handle o f)
    unfolding then_handle
    bind-Keeps none f h = stopped
    bind-Keeps (some b) f h = h b

    pub loop-Keeps :
        {B : Type 0} (o : Option B) (instr : ℕ) (m : Machine A) (f : B → Handled A)
        → Good m
        → ((b : B) → Keeps (f b))
        → Keeps (loop_then o instr m f)
    unfolding loop_then
    loop-Keeps none instr m f h k = went _ m h
    loop-Keeps (some b) instr m f h k = k b

    pub bind-KeepsResult :
        {B : Type 0} (o : Option B) (f : B → Result A)
        → ((b : B) → KeepsResult (f b))
        → KeepsResult (o >>= f)
    bind-KeepsResult none f h = stuck
    bind-KeepsResult (some b) f h = h b

    pub pay_keeps :
        (cost : ℤ) (m : Machine A) (rest : Machine A → Result A)
        → Good m
        → ((m' : Machine A) → Good m' → KeepsResult (rest m'))
        → KeepsResult (pay_then cost m rest)
    unfolding pay_then
    pay_keeps cost m rest h k =
        if_keeps (ltb_ℤ (charge_gas cost m).gas_left (pos 0)) _ (rest (charge_gas cost m))
          (kept _ _ h) (k (charge_gas cost m) h)

    checked_keeps :
        (check : Option (Bool × ExecutionState)) (m : Machine A) (rest : Machine A → Result A)
        → Good m
        → ((m' : Machine A) → Good m' → KeepsResult (rest m'))
        → KeepsResult (checked_then check m rest)
    checked_keeps none m rest h k = stuck
    checked_keeps (some (true, e)) m rest h k = k (with_estate e m) h
    checked_keeps (some (false, e)) m rest h k = kept _ _ h

    pub u256_keeps :
        (realloc : List ℕ → ℕ → Option (List ℕ)) (offset size : Uint256) (m : Machine A)
        (rest : Machine A → Result A)
        → Good m
        → ((m' : Machine A) → Good m' → KeepsResult (rest m'))
        → KeepsResult (check_u256_then realloc offset size m rest)
    unfolding check_u256_then
    u256_keeps realloc offset size m rest = checked_keeps _ m rest

    pub u64_keeps :
        (realloc : List ℕ → ℕ → Option (List ℕ)) (offset : Uint256) (size : ℕ) (m : Machine A)
        (rest : Machine A → Result A)
        → Good m
        → ((m' : Machine A) → Good m' → KeepsResult (rest m'))
        → KeepsResult (check_u64_then realloc offset size m rest)
    unfolding check_u64_then
    u64_keeps realloc offset size m rest = checked_keeps _ m rest

    pub touch_keeps :
        (cstr_cmp : List ℕ → List ℕ → ℤ) (cvec_addr_find : List (List ℕ) → List ℕ → ℕ) (cost : ℤ)
        (addr : List ℕ) (m : Machine A) (rest : Machine A → Result A)
        → Good m
        → ((m' : Machine A) → Good m' → KeepsResult (rest m'))
        → KeepsResult (touch_then cstr_cmp cvec_addr_find cost addr m rest)
    unfolding touch_then
    touch_keeps cstr_cmp cvec_addr_find cost addr m rest h k =
        let host = (access_account cstr_cmp cvec_addr_find m.host addr).1 in
        if_keeps (leb evmc_berlin m.rev) _ (rest m)
          (if_keeps (is_cold (access_account cstr_cmp cvec_addr_find m.host addr).0) _ _
            (pay_keeps cost (with_host host m) rest h k) (k (with_host host m) h))
          (k m h)

    pub status-Keeps :
        (opcode instr : ℕ) (result : Result A)
        → KeepsResult result
        → Keeps (after_status opcode instr result)
    unfolding after_status
    status-Keeps opcode instr none h = stopped
    status-Keeps opcode instr (some (code, m)) (kept _ _ h) = went _ _ h

    pub exit-Keeps : (result : Result A) → KeepsResult result → Keeps (after_exit result)
    unfolding after_exit
    exit-Keeps none h = stopped
    exit-Keeps (some (code, m)) (kept _ _ h) = went _ _ h

    returned_keeps :
        (correction : ℤ) (instr : ℕ) (code : StatusCode) (m : Machine A)
        → Good m
        → Good (returned correction instr (code, m)).1
    returned_keeps correction instr evmc_success m h = h
    returned_keeps correction instr other m h = h

    pub call-Keeps :
        (opcode instr : ℕ) (number : ℤ) (f : Machine A → Result A) (m : Machine A)
        → Good m
        → ((m' : Machine A) → Good m' → KeepsResult (f m'))
        → Keeps (after_call opcode instr number f m)
    unfolding after_call
    call-Keeps opcode instr number f m h k =
        ends (f (lent (correction number) m)) (k (lent (correction number) m) h)
      where
        correction : ℤ → ℤ
        correction number = pos m.current_block_cost -ℤ number

        ends :
            (result : Result A)
            → KeepsResult result
            → Keeps (
                result >>= (λ t. some (returned (correction number) instr (t.0, moved opcode t.1))))
        ends none h = stopped
        ends (some (code, m)) (kept _ _ h) =
            went _ _ (returned_keeps (correction number) instr code (moved opcode m) h)

-- The rules for results and for handlers.
pub ruleset keeps =
    (kept, stuck, u256_keeps, u64_keeps, pay_keeps, touch_keeps, if_keeps, bind-KeepsResult)
