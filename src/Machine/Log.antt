-- ===== src/Machine/Log.antt =====
-- LOG0 to LOG4: `log0`, `log1`, `log2_`, `log3` and `log4` of include/instructions.h, and `emit_log`
-- of include/mocked_host.h. Nothing sets the vector of topics before topics are put into it, neither
-- in an instruction nor in `emit_log`: what the two hold before is an argument.
use tsc_vee.Base.{
  ℕ, zero, suc, ◌+◌, ◌-◌, ◌*◌, List, [], ◌∷◌, ◌++◌, take, drop, replicate, Option, some,
  if◌then◌else◌,
}
use tsc_vee.Base.Int.{ℤ, pos, negsuc}
use tsc_vee.Status.{evmc_success, evmc_static_mode_violation}
use tsc_vee.Uint256.{Uint256}
use tsc_vee.Bytes.{u256_to_u8_32}
use tsc_vee.Stack.{item}
use tsc_vee.Machine.Environment.{int64}
use tsc_vee.Machine.{Machine, Result, pay_then, check_u256_then, check_u64_then, in_static_mode}

-- Eight times a number.
abbrev pub eight : ℤ → ℤ
eight (pos n) = pos (n * 8)
eight (negsuc n) = negsuc (n * 8 + 7)

-- `(int64_t)s * 8`
abbrev pub log_cost : ℕ → ℤ
log_cost s = eight (int64 s)

-- What the uninitialised vectors hold.
pub record Garbage : Type 0 where
  pub topics : List (List ℕ)
  pub record_topics : List (List ℕ)

-- The topics that are popped, the first one first.
abbrev pub popped_topics : ℕ → ℕ → List Uint256 → List (List ℕ)
popped_topics zero stack space = []
popped_topics (suc n) stack space =
    u256_to_u8_32 (item space stack) (replicate 32 0) ∷ popped_topics n (stack - 1) space

module _ {A : Type 0} (garbage : Garbage) where
  unfoldable pub emit_log : List ℕ → List ℕ → List (List ℕ) → ℕ → Machine A → Machine A
  emit_log addr bytes topics topics_count m = record m {
    recorded_logs =
        m.recorded_logs
        ++ (record {
          creator = addr;
          log_bytes = bytes;
          topics = garbage.record_topics ++ take topics_count topics;
        }
            ∷ []);
  }

  -- Behind the check of the memory: the price of the bytes, and the record.
  abbrev pub logged : ℕ → ℕ → ℕ → List (List ℕ) → Machine A → Result A
  logged topics_count o s topics m = pay_then (log_cost s) m (λ paid. some (
    evmc_success,
    emit_log paid.msg.recipient (take s (drop o paid.memory.m_data)) topics topics_count paid,
  ))

  module _ (realloc : List ℕ → ℕ → Option (List ℕ)) (stack : ℕ) (space : List Uint256)
      (m : Machine A) where
    unfoldable pub log0 : Result A
    unfolding check_u256_then emit_log
    log0 =
        let offset = item space stack in
        let size = item space (stack - 1) in
        if in_static_mode m
        then some (evmc_static_mode_violation, m)
        else check_u256_then realloc offset size m
            (logged 0 offset.lower.lower size.lower.lower garbage.topics)

    -- `log1` to `log4`, by the number of topics: the memory is checked by the lowest word of the size.
    unfoldable pub log_topics : ℕ → Result A
    unfolding check_u64_then emit_log u256_to_u8_32
    log_topics n =
        let offset = item space stack in
        let size = item space (stack - 1) in
        if in_static_mode m
        then some (evmc_static_mode_violation, m)
        else check_u64_then realloc offset size.lower.lower m (
            logged n offset.lower.lower size.lower.lower
              (garbage.topics ++ popped_topics n (stack - 2) space))
