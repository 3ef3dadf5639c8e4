-- ===== src/Sync/Types.antt =====
-- The error type of crates/kernel/ents-sync/src/error.rs, and the write half of an object store. A
-- store that is written to is a state: what `try_find` answers in it.
use git_ents.Base.{ℕ, Bytes, List, Option, some, Result, ok, err, Bool, ◌≡◌, ◌⊎◌, inl, inr, refl}
use git_ents.Model.Namespace.{NameError}
use git_ents.Substrate.Refs.{Oid, StoreError}
use git_ents.Substrate.Objects.{Kind, Object, TreeEntry, FindError, Objects}
use git_ents.Gate.Errors.{GateError}

-- `out_of_fuel` belongs to the model only.
pub data SyncError : Type 0 where
  refs write out_of_fuel : SyncError
  gate : GateError → SyncError
  object missing decode : Oid → SyncError
  ref_name : NameError → SyncError

abbrev pub Sync {ℓ} : Type ℓ → Type ℓ
Sync A = Result SyncError A

abbrev pub of_store {ℓ} : {A : Type ℓ} → Result StoreError A → Sync A
of_store (ok a) = ok a
of_store (err _) = err refs

abbrev pub of_gate {ℓ} : {A : Type ℓ} → Result GateError A → Sync A
of_gate (ok a) = ok a
of_gate (err e) = err (gate e)

abbrev pub of_name {ℓ} : {A : Type ℓ} → Result NameError A → Sync A
of_name (ok a) = ok a
of_name (err e) = err (ref_name e)

pub Sync-cases {ℓ} :
    {A : Type ℓ} (r : Sync A) → ((a : A) × (r ≡ ok a)) ⊎ ((e : SyncError) × (r ≡ err e))
Sync-cases (ok a) = inl (a, refl)
Sync-cases (err e) = inr (e, refl)

abbrev pub Db : Type 0
Db = Oid → Result FindError (Option Object)

pub data WriteError : Type 0 where
  write_error : WriteError

-- `gix_object::Commit`, with the actor as one text.
pub record Commit : Type 0 where
  pub tree : Oid
  pub parents : List Oid
  pub author : Bytes
  pub committer : Bytes
  pub message : Bytes
  pub extra_headers : List (Bytes × Bytes)

-- gitoxide's writing: `Write::write_buf`, `Write::write` of a tree, `Commit::write_to`, the two
-- questions about a mode, and the sorting of a tree's entries.
pub record Git : Type 0 where
  pub write_buf : Db → Kind → Bytes → Result WriteError Oid × Db
  pub write_tree : Db → List TreeEntry → Result WriteError Oid × Db
  pub write_commit : Commit → Option Bytes
  pub mode_is_tree : ℕ → Bool
  pub tree_mode : ℕ
  pub sort_entries : List TreeEntry → List TreeEntry

-- The decoders of `o`, reading the store `db`.
abbrev pub at : Objects → Db → Objects
at o db = record {
  try_find = db;
  commit_from_bytes = o.commit_from_bytes;
  tree_from_bytes = o.tree_from_bytes;
  from_utf8 = o.from_utf8;
  from_utf8_lossy = o.from_utf8_lossy;
  name_to_string = o.name_to_string;
  oid_from_hex = o.oid_from_hex;
  oid_from_bytes = o.oid_from_bytes;
  oid_to_string = o.oid_to_string;
  valid_ref = o.valid_ref;
  member_from_tree = o.member_from_tree;
  config_from_tree = o.config_from_tree;
  result_decodes = o.result_decodes;
  claim_decodes = o.claim_decodes;
  key_from_openssh = o.key_from_openssh;
  sig_from_pem = o.sig_from_pem;
  key_verify = o.key_verify;
}

-- Documented behaviour of a content-addressed store: an object that was written is found under the
-- id that the write returned, which is the object's hash, and what was found before still is.
pub record IsStore (g : Git) (hash : Object → Oid) : Type 0 where
  pub put :
      (db : Db) (x : Object) (oid : Oid) (after : Db)
      → g.write_buf db x.kind x.bytes ≡ (ok oid, after)
      → (oid ≡ hash x) × (after oid ≡ ok (some x))
  pub kept :
      (db : Db) (x : Object) (oid : Oid) (after : Db)
      → g.write_buf db x.kind x.bytes ≡ (ok oid, after)
      → (y : Oid) (z : Object) → db y ≡ ok (some z)
      → after y ≡ ok (some z)

-- Every object of a store is found under its hash.
abbrev pub IsAddressed : (Object → Oid) → Db → Type 0
IsAddressed hash db = (x : Oid) (z : Object) → db x ≡ ok (some z) → hash z ≡ x
