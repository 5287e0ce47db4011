-- ===== src/Machine/Call/Tests.antt =====
-- A CALL in a static call.
use tsc_vee.Base.{List, replicate, refl}
use tsc_vee.Base.Int.{pos}
use tsc_vee.Uint128.{zero128}
use tsc_vee.Uint256.{Uint256, zero256}
use tsc_vee.Stack.{zero_item}
use tsc_vee.Machine.{Machine}
use tsc_vee.Machine.Fixtures.{Accounts, message, platform, blank}
use tsc_vee.Machine.Call.{call_}
use tsc_vee.Machine.Call.Static.{Fails, call-Fails}

abbrev calling : Machine Accounts
calling = record blank { msg = record message { flags = 1 }; gas_left = pos 50000 }

abbrev items : List Uint256
items = replicate 1024 zero_item

call-Fails_example : Fails calling.msg calling.recorded_calls (
    call_ platform.account_map platform.realloc platform.cstr_cmp platform.cvec_addr_find message 7
      items calling)
unfolding zero256 zero128
call-Fails_example =
    call-Fails platform.account_map platform.realloc platform.cstr_cmp platform.cvec_addr_find
      message 7 items calling refl refl
