-- ===== src/Machine/Platform.antt =====
-- What the program gets from elsewhere: the trusted OS's allocator, the maps, strings, vectors and the
-- binary search of the container library, the hash function, and the bytes of local variables that
-- are read before anything sets them.
use tsc_vee.Base.{ℕ, List, Option, Bool}
use tsc_vee.Base.Int.{ℤ}
use tsc_vee.Host.{Map, MockedAccount, StorageValue}
use tsc_vee.Machine.{Message}
use tsc_vee.Machine.Log.{Garbage}

pub record Unset : Type 0 where
  pub before : List ℕ
  pub out : List ℕ
  pub garbage : Garbage
  pub fresh : Message

pub record Platform (S A : Type 0) : Type 0 where
  pub malloc : ℕ → Bool
  pub realloc : List ℕ → ℕ → Option (List ℕ)
  pub account_map : Map (List ℕ) (MockedAccount S) A
  pub storage_map : Map (List ℕ) StorageValue S
  pub cstr_cmp : List ℕ → List ℕ → ℤ
  pub cvec_addr_find : List (List ℕ) → List ℕ → ℕ
  pub lower_bound : List ℤ → ℤ → ℕ
  pub sha3 : List ℕ → List ℕ
  pub unset : Unset
