-- ===== src/Storing/Reload.antt =====
-- A read of storage after a write.
use tsc_vee.Base.{
  ℕ, ◌+◌, ◌-◌, ◌≤◌, ◌≡◌, refl, sym, ap, ap₂, ◌∙◌, List, true, false, if◌then◌else◌, leb, ==_iff,
  some, Bool-cases, inl, inr, arith,
}
use tsc_vee.Base.Int.{ℤ, pos}
use tsc_vee.Revision.{evmc_berlin}
use tsc_vee.Status.{StatusCode, evmc_success}
use tsc_vee.Uint256.{Uint256, zero256}
use tsc_vee.Uint256.Value.{value256, IsWord256}
use tsc_vee.Uint256.Sum.{zero256_lem}
use tsc_vee.Bytes.{readu256_be}
use tsc_vee.Bytes.Laws.{zeros-AreBytes, readu256_be-zeros, readu256_be-u256_to_u8_32}
use tsc_vee.Stack.{item, set_item, zero_item}
use tsc_vee.Host.{
  Map, MockedHost, MockedAccount, StorageValue, zeros, warmed, with_accounts, get_storage,
}
use tsc_vee.Host.Contract.{same_text, ComparesTexts, IsMap}
use tsc_vee.Host.Storage.{slot_at, slot_after, slot_or_init, value_or_zeros, get_storage-slot}
use tsc_vee.Storing.{HostState, charged, is_cold, with_host, bytes_of, pay, sload, sstore}
use tsc_vee.Storing.Laws.{refused, slot_of, sstore_lem, access_lem, cold_price, change_price}

zero_words : (x : Uint256) → zero256 x ≡ true → x ≡ zero_item
zero_words x h =
    let e : value256 x ≡ 0 = (==_iff (value256 x) 0).0 (sym (zero256_lem x) ∙ h) in
    ap₂ (λ u l. record { upper = u; lower = l })
      (ap₂ (λ u l. record { upper = u; lower = l }) (omega (arith, e)) (omega (arith, e)))
      (ap₂ (λ u l. record { upper = u; lower = l }) (omega (arith, e)) (omega (arith, e)))

-- The bytes of a number spell it.
pub readu256_be-bytes_of : (x : Uint256) → IsWord256 x → readu256_be (bytes_of x) ≡ x
unfolding bytes_of
readu256_be-bytes_of x word = elim (Bool-cases (zero256 x)) [
  | inl e ↦ rw e (readu256_be-zeros ∙ sym (zero_words x e))
  | inr e ↦ rw e (readu256_be-u256_to_u8_32 x zeros (omega arith) (zeros-AreBytes 32) word)
]

-- What is read after a write: the value written, unless the one before is the same string.
abbrev pub value_read : StorageValue → Uint256 → Uint256
value_read old v = if same_text old.value (bytes_of v) then readu256_be old.value else v

slot_after_lem :
    (old : StorageValue) (v : Uint256)
    → IsWord256 v
    → readu256_be (slot_after (warmed old) (bytes_of v)).value ≡ value_read old v
slot_after_lem old v word = elim (Bool-cases (same_text old.value (bytes_of v))) [
  | inl e ↦ rw e refl
  | inr e ↦ rw e (readu256_be-bytes_of v word)
]

stays_warm :
    (old : StorageValue) (value : List ℕ)
    → slot_after (warmed old) value ≡ warmed (slot_after (warmed old) value)
stays_warm old value = elim (Bool-cases (same_text old.value value)) [
  | inl e ↦ rw e refl
  | inr e ↦ rw e refl
]

module _ {S A : Type 0} (account_map : Map (List ℕ) (MockedAccount S) A)
    (storage_map : Map (List ℕ) StorageValue S) (storage-IsMap : IsMap storage_map)
    (account-IsMap : IsMap account_map) where
  -- A read of a warm slot costs nothing more.
  sload_warm :
      (stack : ℕ) (space : List Uint256) (state : HostState A) (slot : StorageValue)
      → leb evmc_berlin state.rev ≡ true
      → slot_at storage_map account_map state.host.accounts state.recipient
          (bytes_of (item space stack))
        ≡ some (warmed slot)
      → (h : MockedHost A) × (sload account_map storage_map stack space state
          ≡ some (evmc_success, set_item space stack (readu256_be slot.value), with_host h state))
  unfolding sload
  sload_warm stack space state slot recent there =
      let key = bytes_of (item space stack) in
      let (accounts, e, (after, others)) =
        access_lem account_map storage_map storage-IsMap account-IsMap state key recent in
      let host = with_accounts accounts state.host in
      let warm : is_cold (slot_of account_map storage_map state key).access_status ≡ false =
        ap (λ t. is_cold (slot_or_init t).access_status) there in
      let read : (get_storage account_map storage_map host state.recipient key).0 ≡ slot.value =
        get_storage-slot storage_map account_map storage-IsMap account-IsMap host state.recipient
          key
        ∙ ap value_or_zeros after
        ∙ ap (λ t. (slot_or_init t).value) there in
      (
        (get_storage account_map storage_map host state.recipient key).1,
        rw (e, warm)
            (ap
              (λ t. some (
                evmc_success,
                set_item space stack (readu256_be t),
                with_host (get_storage account_map storage_map host state.recipient key).1 state,
              ))
              read),
      )

  module _ (cstr_cmp : List ℕ → List ℕ → ℤ) (compares : ComparesTexts cstr_cmp) where
    -- With maps and a comparison of strings as the library promises them, from Berlin on: an
    -- SSTORE that its guards let pass, with a well-formed value, returns, and an SLOAD of the
    -- same key in the state after it succeeds without a further charge and puts the value on the
    -- stack, unless the bytes of the value and of the one stored before are the same string, in
    -- which case the one before is read.
    pub sload-sstore :
        (stack : ℕ) (space : List Uint256) (state : HostState A) (stack' : ℕ)
        (space' : List Uint256)
        → evmc_berlin ≤ state.rev
        → refused state ≡ false
        → IsWord256 (item space (stack - 1))
        → item space' stack' ≡ item space stack
        → (code : StatusCode) × (after : HostState A) × (h : MockedHost A) × (sstore account_map
              storage_map cstr_cmp stack space state
            ≡ some (code, after))
          × (sload account_map storage_map stack' space' after
              ≡ some (
                evmc_success,
                set_item space' stack' (
                    value_read
                      (slot_of account_map storage_map state (bytes_of (item space stack)))
                      (item space (stack - 1))),
                with_host h after,
              ))
    sload-sstore stack space state stack' space' recent free word same =
        let key = bytes_of (item space stack) in
        let v = item space (stack - 1) in
        let old = slot_of account_map storage_map state key in
        let berlin : leb evmc_berlin state.rev ≡ true = ground arith in
        let outcome =
          sstore_lem account_map storage_map storage-IsMap account-IsMap cstr_cmp compares stack
            space state recent in
        let (h, e, (there, others)) = rw free at outcome in
        let value = bytes_of v in
        let slot = slot_after (warmed old) value in
        let after = charged (pos (cold_price old + change_price old value)) h state in
        let here : slot_at storage_map account_map after.host.accounts after.recipient
              (bytes_of (item space' stack'))
            ≡ some (warmed slot) =
          rw same (there ∙ ap some (stays_warm old value)) in
        let (h', e') = sload_warm stack' space' after slot berlin here in
        (
          (pay (pos (cold_price old + change_price old value)) h state).0,
          after,
          h',
          e,
          e'
              ∙ ap (λ t. some (evmc_success, set_item space' stack' t, with_host h' after))
                  (slot_after_lem old v word),
        )
