-- ===== src/Interpreter/Execute.antt =====
-- What the result of a run says of how the run ended.
use tsc_vee.Base.{
  ℕ, List, [], ◌≡◌, refl, ap, ◌⊎◌, inl, inr, Bool, true, false, not, ◌||◌, if◌then◌else◌, ◌==◌,
  Option, none, some, drop, take, replicate, ◌>>=◌,
}
use tsc_vee.Base.Int.{ℤ, pos}
use tsc_vee.Status.{StatusCode, evmc_success, evmc_out_of_memory}
use tsc_vee.Memory.{memory_init}
use tsc_vee.Block.{OpTableEntry}
use tsc_vee.Analysis.{Progress, analyze}
use tsc_vee.Machine.{Machine, Message, CallResult, advanced_execution_state_init}
use tsc_vee.Machine.Platform.{Platform}
use tsc_vee.Interpreter.{
  Outcome, finished, undefined, out_of_fuel, run_loop, evmc_make_result, reported_gas, result_of,
  execute_analyzed_code, execute_analysis, execute,
}
use tsc_vee.Interpreter.Status.Rules.{config}
use tsc_vee.Interpreter.Status.Calls.{kept_config}
use tsc_vee.Interpreter.Status.{Ends, run_loop_keeps}

-- The result of a run says success, or that there was no room for its output.
abbrev pub Reports : Outcome CallResult → Type 0
Reports (finished result) =
    (result.status_code ≡ evmc_success)
    ⊎ ((result.status_code ≡ evmc_out_of_memory)
        × (result.result_gas_left ≡ pos 0)
        × (result.output ≡ []))
Reports undefined = Unit
Reports out_of_fuel = Unit

make_result-Reports :
    (malloc : ℕ → Bool) (status : StatusCode) (gas : ℤ) (bytes : List ℕ) (size : ℕ)
    → status ≡ evmc_success
    → Reports (finished (evmc_make_result malloc status gas bytes size))
make_result-Reports malloc status gas bytes size e = split (size == 0 || malloc size)
  where
    split :
        (room : Bool)
        → Reports (
            finished (
              if room
              then record {
                status_code = status;
                result_gas_left = gas;
                output = take size bytes;
                create_address = replicate 20 0;
              }
              else record {
                status_code = evmc_out_of_memory;
                result_gas_left = pos 0;
                output = [];
                create_address = replicate 20 0;
              }))
    split true = inl e
    split false = inr (refl, refl, refl)

module _ {S A : Type 0} (p : Platform S A) where
  if_Reports :
      (b : Bool) (r : CallResult)
      → Reports (finished r)
      → Reports (if b then finished r else undefined)
  if_Reports true r h = h
  if_Reports false r h = tt

  result_of-Reports :
      (analysis : Progress) (msg : Message) (rev : ℕ) (code : List ℕ) (o : Outcome (Machine A))
      → Ends p analysis evmc_success msg rev code o
      → Reports (result_of p o)
  result_of-Reports analysis msg rev code undefined h = tt
  result_of-Reports analysis msg rev code out_of_fuel h = tt
  result_of-Reports analysis msg rev code (finished m) h =
      if_Reports (not (m.output_size == 0) || m.output_offset == 0) _ (
        make_result-Reports p.malloc m.status (reported_gas p m.status m.gas_left)
          (drop m.output_offset m.memory.m_data) m.output_size (ap (λ c. c.0) h))

  -- A machine that a run starts from.
  abbrev Starts : Message → ℕ → List ℕ → Option (Machine A) → Type 0
  Starts msg rev code none = Unit
  Starts msg rev code (some m) = config m ≡ kept_config evmc_success msg rev code

  init-Starts :
      (msg : Message) (rev : ℕ) (code : List ℕ) (blank : Machine A)
      → Starts msg rev code (advanced_execution_state_init p.realloc msg rev code blank)
  unfolding advanced_execution_state_init
  init-Starts msg rev code blank =
      elim (memory_init p.realloc)
        as (λ o. Starts msg rev code (
          o >>= (λ memory. some (record blank {
            gas_left = msg.gas;
            memory = memory;
            msg = msg;
            rev = rev;
            return_data = none;
            code = code;
            status = evmc_success;
            output_offset = 0;
            output_size = 0;
            stack = record { space = blank.stack.space; top_item = 0 };
            current_block_cost = 0;
          })))) [ none ↦ tt | some memory ↦ refl ]

  execute_analysis-Reports :
      (fuel : ℕ) (msg : Message) (rev : ℕ) (code : List ℕ) (analysis : Option Progress)
      (start : Option (Machine A))
      → Starts msg rev code start
      → Reports (execute_analysis p fuel analysis start)
  unfolding execute_analyzed_code
  execute_analysis-Reports fuel msg rev code none start h = tt
  execute_analysis-Reports fuel msg rev code (some analysis) none h = tt
  execute_analysis-Reports fuel msg rev code (some analysis) (some m) h =
      result_of-Reports analysis msg rev code (run_loop p analysis fuel 0 m)
        (run_loop_keeps p analysis evmc_success msg rev code fuel 0 m h)

  -- A result that `execute` gives, for any code and state, has the status EVMC_SUCCESS, also
  -- after REVERT, an invalid instruction or a lack of gas, or the status EVMC_OUT_OF_MEMORY
  -- without gas and output; a run without a result is not restricted.
  pub execute-Reports :
      (opt : ℕ → OpTableEntry) (fuel rev : ℕ) (msg : Message) (code : List ℕ) (blank : Machine A)
      → Reports (execute p opt fuel rev msg code blank)
  unfolding execute
  execute-Reports opt fuel rev msg code blank =
      execute_analysis-Reports fuel msg rev code (analyze opt rev code)
        (advanced_execution_state_init p.realloc msg rev code blank)
        (init-Starts msg rev code blank)
