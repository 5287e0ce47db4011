-- ===== src/Interpreter/Status/Calls.antt =====
-- The calls and creations leave alone the status, the message, the revision, the code and the null
-- pointer to returned bytes.
use tsc_vee.Base.{ℕ, List, ◌≡◌, ap, Bool, Option, none}
use tsc_vee.Base.Int.{ℤ}
use tsc_vee.Status.{StatusCode}
use tsc_vee.Uint256.{Uint256}
use tsc_vee.Host.{Map, MockedAccount}
use tsc_vee.Machine.{Machine, Message, CallKind, Result}
use tsc_vee.Machine.Call.{
  Operands, make_call, priced_call, call_start, call_rest, call_new, call_, staticcall,
  delegatecall, callcode, call,
}
use tsc_vee.Machine.Create.{make_create, create, create2}
use tsc_vee.Interpreter.Status.Rules.{Good, KeepsResult, keeps}

-- What no call changes, with the null pointer that a call sets.
abbrev pub kept_config :
    StatusCode → Message → ℕ → List ℕ → StatusCode × Message × ℕ × List ℕ × Option (List ℕ)
kept_config status msg rev code = (status, msg, rev, code, none)

module _ {A : Type 0} (status : StatusCode) (msg : Message) (rev : ℕ) (code : List ℕ) where
  null_keeps :
      (m : Machine A)
      → Good (kept_config status msg rev code) m
      → (m.status, m.msg, m.rev, m.code, none) ≡ kept_config status msg rev code
  null_keeps m h = ap (λ t. (t.0, t.1, t.2, t.3, none)) h

  module _ {S : Type 0} (account_map : Map (List ℕ) (MockedAccount S) A) where
    make_call_keeps :
        (o : Operands) (has_value : Bool) (message : Message) (m : Machine A)
        → Good (kept_config status msg rev code) m
        → KeepsResult
            (kept_config status msg rev code)
            (make_call account_map o has_value message m)
    unfolding call
    make_call_keeps o has_value message m h = search (keeps)

    priced_call_keeps :
        (o : Operands) (has_value : Bool) (message : Message) (m : Machine A)
        → Good (kept_config status msg rev code) m
        → KeepsResult
            (kept_config status msg rev code)
            (priced_call account_map o has_value message m)
    priced_call_keeps o has_value message m h = search (keeps, make_call_keeps, null_keeps)

    module _ (realloc : List ℕ → ℕ → Option (List ℕ)) (cstr_cmp : List ℕ → List ℕ → ℤ)
        (cvec_addr_find : List (List ℕ) → List ℕ → ℕ) where
      call_start_keeps :
          (o : Operands) (m : Machine A) (rest : Machine A → Result A)
          → Good (kept_config status msg rev code) m
          → ((m' : Machine A)
              → Good (kept_config status msg rev code) m'
              → KeepsResult (kept_config status msg rev code) (rest m'))
          → KeepsResult
              (kept_config status msg rev code)
              (call_start account_map realloc cstr_cmp cvec_addr_find o m rest)
      unfolding call_start
      call_start_keeps o m rest h k = search (keeps) depth 12

      call_rest_keeps :
          (o : Operands) (message : Message) (has_value : Bool) (m : Machine A)
          → Good (kept_config status msg rev code) m
          → KeepsResult
              (kept_config status msg rev code)
              (call_rest account_map realloc cstr_cmp cvec_addr_find o message has_value m)
      call_rest_keeps o message has_value m h = search (keeps, priced_call_keeps)

      call_new_keeps :
          (o : Operands) (message : Message) (has_value : Bool) (m : Machine A)
          → Good (kept_config status msg rev code) m
          → KeepsResult
              (kept_config status msg rev code)
              (call_new account_map realloc cstr_cmp cvec_addr_find o message has_value m)
      call_new_keeps o message has_value m h = search (keeps, priced_call_keeps)

      module _ (fresh : Message) (stack : ℕ) (space : List Uint256) where
        pub call-Keeps :
            (m : Machine A)
            → Good (kept_config status msg rev code) m
            → KeepsResult
                (kept_config status msg rev code)
                (call_ account_map realloc cstr_cmp cvec_addr_find fresh stack space m)
        unfolding call_
        call-Keeps m h = search (keeps, call_start_keeps, call_new_keeps)

        pub staticcall_keeps :
            (m : Machine A)
            → Good (kept_config status msg rev code) m
            → KeepsResult
                (kept_config status msg rev code)
                (staticcall account_map realloc cstr_cmp cvec_addr_find fresh stack space m)
        unfolding staticcall
        staticcall_keeps m h = search (keeps, call_start_keeps, call_rest_keeps)

        pub delegatecall_keeps :
            (m : Machine A)
            → Good (kept_config status msg rev code) m
            → KeepsResult
                (kept_config status msg rev code)
                (delegatecall account_map realloc cstr_cmp cvec_addr_find fresh stack space m)
        unfolding delegatecall
        delegatecall_keeps m h = search (keeps, call_start_keeps, call_rest_keeps)

        pub callcode_keeps :
            (m : Machine A)
            → Good (kept_config status msg rev code) m
            → KeepsResult
                (kept_config status msg rev code)
                (callcode account_map realloc cstr_cmp cvec_addr_find fresh stack space m)
        unfolding callcode
        callcode_keeps m h = search (keeps, call_start_keeps, call_rest_keeps)

    module _ (before : List ℕ) (realloc : List ℕ → ℕ → Option (List ℕ)) (fresh : Message)
        (stack : ℕ) (space : List Uint256) where
      make_create_keeps :
          (kind : CallKind) (endowment salt : Uint256) (place size : ℕ) (m : Machine A)
          → Good (kept_config status msg rev code) m
          → KeepsResult
              (kept_config status msg rev code)
              (make_create account_map before fresh kind endowment salt place size m)
      unfolding call
      make_create_keeps kind endowment salt place size m h = search (keeps) depth 12

      pub create_keeps :
          (m : Machine A)
          → Good (kept_config status msg rev code) m
          → KeepsResult
              (kept_config status msg rev code)
              (create account_map before realloc fresh stack space m)
      unfolding create
      create_keeps m h = search (keeps, make_create_keeps, null_keeps)

      pub create2_keeps :
          (m : Machine A)
          → Good (kept_config status msg rev code) m
          → KeepsResult
              (kept_config status msg rev code)
              (create2 account_map before realloc fresh stack space m)
      unfolding create2
      create2_keeps m h = search (keeps, make_create_keeps, null_keeps)
