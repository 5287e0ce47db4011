-- ===== src/Uint256/Value.antt =====
-- The number that a `struct uint256_t` stands for.
use tsc_vee.Base.{ℕ, ◌+◌, ◌*◌, ◌^◌}
use tsc_vee.Uint128.Value.{value128, IsWord128}
use tsc_vee.Uint256.{Uint256}

abbrev pub value256 : Uint256 → ℕ
value256 n = value128 n.upper * 2 ^ 128 + value128 n.lower

-- All four words fit a `uint64_t`.
abbrev pub IsWord256 : Uint256 → Type 0
IsWord256 n = IsWord128 n.upper × IsWord128 n.lower
