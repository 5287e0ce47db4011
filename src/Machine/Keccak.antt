-- ===== src/Machine/Keccak.antt =====
-- KECCAK256: `keccak256` of include/instructions.h. The hash function is another project's, and a
-- parameter.
use tsc_vee.Base.{ℕ, ◌-◌, ◌*◌, List, take, drop, Option, some}
use tsc_vee.Base.Int.{pos}
use tsc_vee.Status.{evmc_success}
use tsc_vee.Uint256.{Uint256}
use tsc_vee.Bytes.{readu256_be}
use tsc_vee.Stack.{item, set_item}
use tsc_vee.State.{num_words}
use tsc_vee.Machine.{Machine, Result, pay_then, check_u256_then, with_space}

-- As many bytes are hashed as the part has words.
unfoldable pub keccak256 :
    {A : Type 0}
    → (List ℕ → ℕ → Option (List ℕ))
    → (List ℕ → List ℕ)
    → ℕ
    → List Uint256
    → Machine A
    → Result A
unfolding check_u256_then readu256_be
keccak256 realloc sha3 stack space m =
    let index = item space stack in
    let size = item space (stack - 1) in
    check_u256_then realloc index size m (λ state.
      let w = num_words size.lower.lower in
      pay_then (pos (w * 6)) state (λ paid.
        let hash = sha3 (take w (drop index.lower.lower paid.memory.m_data)) in
        some (evmc_success, with_space (set_item space (stack - 1) (readu256_be hash)) paid)))
