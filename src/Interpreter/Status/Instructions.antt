-- ===== src/Interpreter/Status/Instructions.antt =====
-- The instructions of Machine leave alone the status, the message, the revision, the code and the null
-- pointer to returned bytes.
use tsc_vee.Base.{ℕ, List, Option}
use tsc_vee.Base.Int.{ℤ}
use tsc_vee.Status.{StatusCode}
use tsc_vee.Uint256.{Uint256}
use tsc_vee.Host.{Map, MockedAccount}
use tsc_vee.Machine.{Machine, Message}
use tsc_vee.Machine.Copy.{copied, calldatacopy, codecopy, returndatacopy}
use tsc_vee.Machine.Account.{
  balance, extcodesize, extcodehash, extcodecopy, selfdestruct_, destroyed,
}
use tsc_vee.Machine.Finish.{return_, revert}
use tsc_vee.Machine.Log.{Garbage, logged, emit_log, log0, log_topics}
use tsc_vee.Machine.Keccak.{keccak256}
use tsc_vee.Interpreter.Status.Rules.{Good, KeepsResult, keeps}

module _ {A : Type 0} (c : StatusCode × Message × ℕ × List ℕ × Option (List ℕ))
    (realloc : List ℕ → ℕ → Option (List ℕ)) (stack : ℕ) (space : List Uint256) where
  copied_keeps :
      (source : List ℕ) (dst index s : ℕ) (m : Machine A)
      → Good c m
      → KeepsResult c (copied source dst index s m)
  copied_keeps source dst index s m h = search (keeps)

  pub calldatacopy_keeps :
      (m : Machine A) → Good c m → KeepsResult c (calldatacopy realloc stack space m)
  unfolding calldatacopy
  calldatacopy_keeps m h = search (keeps)

  pub codecopy_keeps : (m : Machine A) → Good c m → KeepsResult c (codecopy realloc stack space m)
  unfolding codecopy
  codecopy_keeps m h = search (keeps)

  pub returndatacopy_keeps :
      (m : Machine A) → Good c m → KeepsResult c (returndatacopy realloc stack space m)
  unfolding returndatacopy
  returndatacopy_keeps m h = search (keeps) depth 12

  pub keccak256_keeps :
      (sha3 : List ℕ → List ℕ) (m : Machine A)
      → Good c m
      → KeepsResult c (keccak256 realloc sha3 stack space m)
  unfolding keccak256
  keccak256_keeps sha3 m h = search (keeps)

  pub return_keeps : (m : Machine A) → Good c m → KeepsResult c (return_ realloc stack space m)
  unfolding return_
  return_keeps m h = search (keeps)

  pub revert_keeps : (m : Machine A) → Good c m → KeepsResult c (revert realloc stack space m)
  unfolding revert
  revert_keeps m h = search (keeps)

  module _ (garbage : Garbage) where
    logged_keeps :
        (n o s : ℕ) (topics : List (List ℕ)) (m : Machine A)
        → Good c m
        → KeepsResult c (logged garbage n o s topics m)
    unfolding emit_log
    logged_keeps n o s topics m h = search (keeps)

    pub log0_keeps : (m : Machine A) → Good c m → KeepsResult c (log0 garbage realloc stack space m)
    unfolding log0
    log0_keeps m h = search (keeps)

    pub log_topics_keeps :
        (n : ℕ) (m : Machine A)
        → Good c m
        → KeepsResult c (log_topics garbage realloc stack space m n)
    unfolding log_topics
    log_topics_keeps n m h = search (keeps)

  module _ (cstr_cmp : List ℕ → List ℕ → ℤ) (cvec_addr_find : List (List ℕ) → List ℕ → ℕ)
      {S : Type 0} (account_map : Map (List ℕ) (MockedAccount S) A) where
    pub balance_keeps :
        (m : Machine A)
        → Good c m
        → KeepsResult c (balance cstr_cmp cvec_addr_find account_map stack space m)
    unfolding balance
    balance_keeps m h = search (keeps)

    pub extcodesize_keeps :
        (m : Machine A)
        → Good c m
        → KeepsResult c (extcodesize cstr_cmp cvec_addr_find account_map stack space m)
    unfolding extcodesize
    extcodesize_keeps m h = search (keeps)

    pub extcodehash_keeps :
        (m : Machine A)
        → Good c m
        → KeepsResult c (extcodehash cstr_cmp cvec_addr_find account_map stack space m)
    unfolding extcodehash
    extcodehash_keeps m h = search (keeps)

    pub extcodecopy_keeps :
        (m : Machine A)
        → Good c m
        → KeepsResult c (extcodecopy cstr_cmp cvec_addr_find account_map stack space m realloc)
    unfolding extcodecopy
    extcodecopy_keeps m h = search (keeps) depth 12

    pub selfdestruct_keeps :
        (m : Machine A)
        → Good c m
        → KeepsResult c (selfdestruct_ cstr_cmp cvec_addr_find account_map stack space m)
    unfolding selfdestruct_ destroyed
    selfdestruct_keeps m h = search (keeps) depth 12
