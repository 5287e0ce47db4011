-- ===== src/Revision.antt =====
-- `enum evmc_revision` of include/evmc.h.
use tsc_vee.Base.{ℕ}

abbrev pub evmc_frontier : ℕ
evmc_frontier = 0

abbrev pub evmc_homestead : ℕ
evmc_homestead = 1

abbrev pub evmc_tangerine_whistle : ℕ
evmc_tangerine_whistle = 2

abbrev pub evmc_spurious_dragon : ℕ
evmc_spurious_dragon = 3

abbrev pub evmc_byzantium : ℕ
evmc_byzantium = 4

abbrev pub evmc_constantinople : ℕ
evmc_constantinople = 5

abbrev pub evmc_petersburg : ℕ
evmc_petersburg = 6

abbrev pub evmc_istanbul : ℕ
evmc_istanbul = 7

abbrev pub evmc_berlin : ℕ
evmc_berlin = 8

abbrev pub evmc_london : ℕ
evmc_london = 9

abbrev pub evmc_paris : ℕ
evmc_paris = 10

abbrev pub evmc_shanghai : ℕ
evmc_shanghai = 11

abbrev pub evmc_cancun : ℕ
evmc_cancun = 12
