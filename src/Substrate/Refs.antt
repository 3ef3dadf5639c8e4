-- ===== src/Substrate/Refs.antt =====
-- The ref store's types (crates/substrate/gix-ref-store/src/edit.rs, read.rs). A refname is its
-- bytes; an object id is a number.
use git_ents.Base.{ℕ, Bytes, Option, List, Result}

abbrev pub Oid : Type 0
Oid = ℕ

pub data Expected : Type 0 where
  any : Expected
  must_not_exist : Expected
  must_exist_and_match : Oid → Expected

pub record RefEdit : Type 0 where
  pub name : Bytes
  pub expected : Expected
  pub new : Option Oid

pub data TxOutcome : Type 0 where
  applied : TxOutcome
  rejected : Bytes → TxOutcome

-- A failed read, whatever its cause.
pub data StoreError : Type 0 where
  store_error : StoreError

-- The read half of a ref store. An entry of the iterator may itself be an error.
pub record RefStoreRead : Type 0 where
  pub get : Bytes → Result StoreError (Option Oid)
  pub iter_prefix : Bytes → Result StoreError (List (Result StoreError (Bytes × Oid)))
