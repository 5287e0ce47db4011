-- ===== src/Status.antt =====
-- `enum evmc_status_code` of include/evmc.h.

pub data StatusCode : Type 0 where
  evmc_success : StatusCode
  evmc_failure : StatusCode
  evmc_revert : StatusCode
  evmc_out_of_gas : StatusCode
  evmc_invalid_instruction : StatusCode
  evmc_undefined_instruction : StatusCode
  evmc_stack_overflow : StatusCode
  evmc_stack_underflow : StatusCode
  evmc_bad_jump_destination : StatusCode
  evmc_invalid_memory_access : StatusCode
  evmc_call_depth_exceeded : StatusCode
  evmc_static_mode_violation : StatusCode
  evmc_precompile_failure : StatusCode
  evmc_contract_validation_failure : StatusCode
  evmc_argument_out_of_range : StatusCode
  evmc_wasm_unreachable_instruction : StatusCode
  evmc_wasm_trap : StatusCode
  evmc_insufficient_balance : StatusCode
  evmc_internal_error : StatusCode
  evmc_rejected : StatusCode
  evmc_out_of_memory : StatusCode
