-- ===== src/Exp.antt =====
-- EXP: `clz`, `count_significant_bytes`, `csb256` and `exp_` of include/instructions.h, and `op_exp` of
-- include/analysis.h.
pub mod Laws
mod Tests
use tsc_vee.Base.{
  ℕ, zero, suc, ◌+◌, ◌-◌, ◌*◌, ◌/◌, ◌^◌, List, Bool, not, if◌then◌else◌, leb, ◌==◌, u32, Option,
  some, while, ◌>>=◌,
}
use tsc_vee.Base.Int.{ℤ, pos, ◌-ℤ◌, ltb_ℤ}
use tsc_vee.Opcode
use tsc_vee.Revision.{evmc_spurious_dragon}
use tsc_vee.Status.{StatusCode, evmc_success, evmc_out_of_gas}
use tsc_vee.Uint256.{Uint256, zero256, minus256, copy256}
use tsc_vee.Uint256.Product.{mul256}
use tsc_vee.Stack.{Stack, item, set_item, one_item}
use tsc_vee.Arithmetic.Handlers.{change_height}
use tsc_vee.Jump.{Next}
use tsc_vee.Storing.{next_if}

-- `for(int i = 5; i >= 0; --i)`, with `rounds` rounds to go.
unfoldable pub clz_loop : ℕ → ℕ → ℕ → ℕ × ℕ
clz_loop zero n x = (n, x)
clz_loop (suc i) n x =
    let s = 2 ^ i in
    let hi = x / 2 ^ s in
    let found = clz_loop i (n - s) hi in
    let other = clz_loop i n x in if not (hi == 0) then found else other

unfoldable pub clz : ℕ → ℕ
unfolding clz_loop
clz x = let (n, rest) = clz_loop 6 64 x in n - u32 rest

unfoldable pub count_significant_bytes : ℕ → ℕ
unfolding clz
count_significant_bytes x = (64 - clz x + 7) / 8

-- The words are cut to 32 bits; the last case reads the third word again.
unfoldable pub csb256 : Uint256 → ℕ
unfolding count_significant_bytes
csb256 x =
    let r64 = count_significant_bytes 64 in
    if not (u32 x.upper.upper == 0)
    then count_significant_bytes (u32 x.upper.upper) + r64 * 3
    else if not (u32 x.upper.lower == 0)
    then count_significant_bytes (u32 x.upper.lower) + r64 * 2
    else if not (u32 x.lower.upper == 0)
    then count_significant_bytes (u32 x.lower.upper) + r64
    else count_significant_bytes (u32 x.lower.upper)

-- The variables of the loop of `exp_`.
pub record Power : Type 0 where
  pub target : Uint256
  pub exponent : Uint256

unfoldable pub exp_test : Power → Bool
exp_test s = not (zero256 s.exponent)

unfoldable pub exp_body : Uint256 → Power → Power
exp_body base s = record {
  target = copy256 (mul256 s.target base);
  exponent = copy256 (minus256 s.exponent one_item);
}

-- One round for each unit of the exponent and one more are enough; `fuel` is their number.
unfoldable pub raise : ℕ → Uint256 → Uint256 → Option Uint256
unfolding exp_test exp_body
raise fuel base exponent =
    if zero256 exponent
    then some one_item
    else (while fuel exp_test (exp_body base) record { target = base; exponent = exponent }
        >>= (λ s. some s.exponent))

-- The status, the space and the gas. The product is never stored: the exponent stands where the result
-- should.
unfoldable pub exp_ : ℕ → ℕ → List Uint256 → ℕ → ℤ → Option (StatusCode × List Uint256 × ℤ)
unfolding raise csb256
exp_ fuel stack space rev gas_left =
    let base = item space stack in
    let exponent = item space (stack - 1) in
    let exponent_cost = if leb evmc_spurious_dragon rev then 50 else 10 in
    let paid = gas_left -ℤ pos (csb256 exponent * exponent_cost) in
    if ltb_ℤ paid (pos 0)
    then some (evmc_out_of_gas, space, paid)
    else (raise fuel base exponent
        >>= (λ result. some (evmc_success, set_item space (stack - 1) result, paid)))

unfoldable pub op_exp : ℕ → ℕ → Stack → ℕ → ℤ → Option (Next × Stack × ℤ)
unfolding exp_
op_exp fuel instr s rev gas_left =
    exp_ fuel s.top_item s.space rev gas_left
    >>= (λ t. some (next_if t.0 instr, change_height Opcode.op_exp t.1 s, t.2))
