-- ===== src/Host/Access.antt =====
-- The accesses of accounts that the host counts as warm: `u64_to_addr` of include/evmc.h and
-- `access_account` of include/mocked_host.h. The search in the record of accesses is the container
-- library's, and a parameter: the place of the address, or the length of the record.
pub mod Laws
mod Tests
use tsc_vee.Base.{ℕ, ◌/◌, ◌%◌, ◌^◌, List, [], ◌∷◌, length, not, ◌&&◌, if◌then◌else◌, ◌==◌}
use tsc_vee.Base.Int.{ℤ, pos, leb_ℤ}
use tsc_vee.Host.{
  MockedHost, AccessStatus, evmc_access_cold, evmc_access_warm, record_account_access,
}

-- `(uint8_t)(v >> n)`
abbrev pub byte_of : ℕ → ℕ → ℕ
byte_of v n = v / 2 ^ n % 2 ^ 8

abbrev pub u64_to_addr : ℕ → List ℕ
u64_to_addr v =
    0
    ∷ 0
    ∷ 0
    ∷ 0
    ∷ 0
    ∷ 0
    ∷ 0
    ∷ 0
    ∷ 0
    ∷ 0
    ∷ 0
    ∷ 0
    ∷ byte_of v 56
    ∷ byte_of v 48
    ∷ byte_of v 40
    ∷ byte_of v 32
    ∷ byte_of v 24
    ∷ byte_of v 16
    ∷ byte_of v 8
    ∷ byte_of v 0
    ∷ []

module _ {A : Type 0} (cstr_cmp : List ℕ → List ℕ → ℤ)
    (cvec_addr_find : List (List ℕ) → List ℕ → ℕ) where
  unfoldable pub access_account : MockedHost A → List ℕ → AccessStatus × MockedHost A
  unfolding record_account_access
  access_account host addr =
      let already_accessed = not (
        cvec_addr_find host.recorded_account_accesses addr
        == length host.recorded_account_accesses) in
      let recorded = record_account_access host addr in
      let addr1 = u64_to_addr 1 in
      let addr9 = u64_to_addr 9 in
      (
        if leb_ℤ (pos 0) (cstr_cmp addr addr1) && leb_ℤ (cstr_cmp addr addr9) (pos 0)
            then evmc_access_warm
            else if already_accessed
            then evmc_access_warm
            else evmc_access_cold,
        recorded,
      )
