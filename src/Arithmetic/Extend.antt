-- ===== src/Arithmetic/Extend.antt =====
-- SIGNEXTEND: `signextend` of include/instructions.h and its handler of include/analysis.h.
use tsc_vee.Base.{ℕ, zero, suc, ◌+◌, ◌-◌, ◌/◌, ◌%◌, ◌*◌, ◌^◌, List, ◌&&◌, if◌then◌else◌, ltb, ◌==◌}
use tsc_vee.Opcode
use tsc_vee.Uint256.{Uint256}
use tsc_vee.Stack.{Stack, item, set_item}
use tsc_vee.Arithmetic.{u256_index}
use tsc_vee.Arithmetic.Handlers.{change_height}

-- `*u256_index(x, index) = word`
abbrev pub set_word : Uint256 → ℕ → ℕ → Uint256
set_word x index word =
    if index == 0
    then record { upper = x.upper; lower = record { upper = x.lower.upper; lower = word } }
    else if index == 1
    then record { upper = x.upper; lower = record { upper = word; lower = x.lower.lower } }
    else if index == 2
    then record { upper = record { upper = x.upper.upper; lower = word }; lower = x.lower }
    else record { upper = record { upper = word; lower = x.upper.lower }; lower = x.lower }

-- `(uint64_t)(int64_t)(int8_t)byte`
abbrev pub sign_extended_byte : ℕ → ℕ
sign_extended_byte byte = if ltb byte 128 then byte else 2 ^ 64 - 256 + byte

-- The rounds of the loop over `i`. Each one writes the word of the sign.
abbrev pub extend_words : ℕ → ℕ → ℕ → Uint256 → Uint256
extend_words zero sign_word_index sign_ex x = x
extend_words (suc rounds) sign_word_index sign_ex x =
    extend_words rounds sign_word_index sign_ex (set_word x sign_word_index sign_ex)

-- The item `x` afterwards. The word that the sign is combined into is a local variable and is
-- dropped; `sext_byte >> 8` shifts an unsigned number.
unfoldable pub signextend_item : Uint256 → Uint256 → Uint256
signextend_item ext x =
    let small =
      ext.upper.upper == 0
      && ext.upper.lower == 0
      && ext.lower.upper == 0
      && ltb ext.lower.lower 31 in
    let e = ext.lower.lower in
    let sign_word_index = e / 8 in
    let sign_byte_index = e % 8 in
    let sign_word = u256_index x sign_word_index in
    let sign_byte_offset = sign_byte_index * 8 in
    let sign_byte = sign_word / 2 ^ sign_byte_offset % 2 ^ 8 in
    let sext_byte = sign_extended_byte sign_byte in
    let sign_ex = sext_byte / 2 ^ 8 in
    if small then extend_words (3 - sign_word_index) sign_word_index sign_ex x else x

unfoldable pub signextend : ℕ → List Uint256 → List Uint256
unfolding signextend_item
signextend stack space =
    let x = stack - 1 in set_item space x (signextend_item (item space stack) (item space x))

unfoldable pub op_signextend : Stack → Stack
unfolding signextend
op_signextend s = change_height Opcode.op_signextend (signextend s.top_item s.space) s
