-- ===== src/Uint128/Value.antt =====
-- The number that a `struct uint128_t` stands for.
use tsc_vee.Base.{ℕ, ◌+◌, ◌*◌, ◌^◌, ◌<◌}
use tsc_vee.Uint128.{Uint128}

abbrev pub value128 : Uint128 → ℕ
value128 n = n.upper * 2 ^ 64 + n.lower

-- Both words fit a `uint64_t`.
abbrev pub IsWord128 : Uint128 → Type 0
IsWord128 n = (n.upper < 2 ^ 64) × (n.lower < 2 ^ 64)
