-- ===== src/Analysis/Tests.antt =====
-- The analysis of a program of six bytes, the fifth of them a JUMPDEST byte inside of a PUSH2:
-- JUMPDEST, STOP, JUMPDEST, PUSH2 with two bytes.
use tsc_vee.Base.{ℕ, zero, suc, ◌≡◌, refl, arith, List, [], ◌∷◌, some}
use tsc_vee.Base.Int.{pos}
use tsc_vee.Block.{OpTableEntry}
use tsc_vee.Bytes.Laws.{AreBytes}
use tsc_vee.Dispatch.{get_op_table}
use tsc_vee.Analysis.{Progress, analyze, small_push}
use tsc_vee.Analysis.Push.{small_push-spelled}
use tsc_vee.Analysis.Jumpdests.{analyze-jumpdest_offsets}

abbrev no_entries : ℕ → OpTableEntry
no_entries i = record { gas_cost = pos 0; stack_req = pos 0; stack_change = pos 0 }

abbrev six : List ℕ
six = 0x5b ∷ 0x00 ∷ 0x5b ∷ 0x61 ∷ 0x5b ∷ 0x01 ∷ []

analyze-jumpdest_offsets_example :
    (s : Progress) × (analyze no_entries 9 six ≡ some s) × (s.jumpdest_offsets ≡ pos 0 ∷ pos 2 ∷ [])
analyze-jumpdest_offsets_example = analyze-jumpdest_offsets no_entries 9 six

-- PUSH2 at the end of a code that has only one of its two bytes.
abbrev cut : List ℕ
cut = 0x61 ∷ 0x12 ∷ []

cut-AreBytes : AreBytes cut
cut-AreBytes zero = omega arith
cut-AreBytes (suc zero) = omega arith
cut-AreBytes (suc (suc i)) = omega arith

small_push-spelled_example : small_push (get_op_table no_entries 9) cut 0x61 0 ≡ 0x1200
small_push-spelled_example =
    small_push-spelled cut cut-AreBytes (get_op_table no_entries 9) 0x61 0 refl (omega arith)
