-- ===== src/Interpreter/Tests.antt =====
-- Runs of small programs in London, on a host without accounts.
use tsc_vee.Base.{ℕ, zero, suc, [], ◌∷◌, List, refl, arith}
use tsc_vee.Base.Int.{pos}
use tsc_vee.Block.{OpTableEntry}
use tsc_vee.Interpreter.{execute}
use tsc_vee.Interpreter.Execute.{Reports, execute-Reports}
use tsc_vee.Interpreter.Halts.{NoLoops, Halts, execute-Halts}
use tsc_vee.Machine.Fixtures.{message, platform, blank}

abbrev no_entries : ℕ → OpTableEntry
no_entries i = record { gas_cost = pos 0; stack_req = pos 0; stack_change = pos 0 }

-- INVALID, an instruction that ends the run with an error.
abbrev invalid_code : List ℕ
invalid_code = 0xfe ∷ []

execute-Reports_example : Reports (execute platform no_entries 10 9 message invalid_code blank)
execute-Reports_example = execute-Reports platform no_entries 10 9 message invalid_code blank

-- The size of the input, and the end.
abbrev size_code : List ℕ
size_code = 0x36 ∷ 0x00 ∷ []

size_code-NoLoops : NoLoops size_code
size_code-NoLoops zero = (omega arith, refl)
size_code-NoLoops (suc zero) = (omega arith, refl)
size_code-NoLoops (suc (suc i)) = (omega arith, refl)

execute-Halts_example : Halts (execute platform no_entries 7 9 message size_code blank)
execute-Halts_example =
    execute-Halts platform no_entries 7 9 message size_code blank (omega arith) size_code-NoLoops
      (omega arith)
