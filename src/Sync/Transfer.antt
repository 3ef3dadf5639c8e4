-- ===== src/Sync/Transfer.antt =====
-- Fetching and pushing refs/meta/* (crates/kernel/ents-sync/src/transfer.rs).
pub mod Push
pub mod FastForward
pub mod Replica
pub mod Judged
pub mod Race
use git_ents.Base.{
  ℕ, Bytes, codes, Bool, true, false, List, [], ◌∷◌, ◌++◌, Option, none, some, Result, ok, err,
  ◌>>=◌, if◌then◌else◌, ◌==◌,
}
use git_ents.Model.Member.{MemberId}
use git_ents.Substrate.Refs.{
  Oid, Expected, must_not_exist, must_exist_and_match, RefEdit, TxOutcome, StoreError, RefStoreRead,
}
use git_ents.Substrate.Objects.{Objects}
use git_ents.Gate.Verify.{Update, cas_of}
use git_ents.Sync.Types.{SyncError, Sync, of_store, Db, Git, at}
use git_ents.Sync.Types
use git_ents.Sync.Objects.{descends_from, copy_closure}
use git_ents.Sync.Preflight.{PreFlight, is_pass, preflight}

abbrev pub meta_prefix : Bytes
meta_prefix = codes "refs/meta/"

pub record Diverged : Type 0 where
  pub name : Bytes
  pub local : Oid
  pub remote : Oid

pub record FetchReport : Type 0 where
  pub updated : List Bytes
  pub unchanged : List Bytes
  pub diverged : List Diverged
  pub stale : List Bytes

-- What one remote ref comes to.
pub data Fetched : Type 0 where
  updated unchanged stale : Fetched
  diverged : Oid → Fetched

-- The `push` onto the report's list.
unfoldable pub report_in : Bytes → Oid → Fetched → FetchReport → FetchReport
report_in name tip updated r = record {
  updated = r.updated ++ name ∷ [];
  unchanged = r.unchanged;
  diverged = r.diverged;
  stale = r.stale;
}
report_in name tip unchanged r = record {
  updated = r.updated;
  unchanged = r.unchanged ++ name ∷ [];
  diverged = r.diverged;
  stale = r.stale;
}
report_in name tip stale r = record {
  updated = r.updated;
  unchanged = r.unchanged;
  diverged = r.diverged;
  stale = r.stale ++ name ∷ [];
}
report_in name tip (diverged local) r = record {
  updated = r.updated;
  unchanged = r.unchanged;
  diverged = r.diverged ++ record { name = name; local = local; remote = tip } ∷ [];
  stale = r.stale;
}

-- `RefStore::transaction`, with the store that it leaves.
abbrev pub Transaction : Type 0
Transaction = RefStoreRead → List RefEdit → Result StoreError TxOutcome × RefStoreRead

-- A repository that is written to: its refs and its objects.
pub record Repository : Type 0 where
  pub refs : RefStoreRead
  pub db : Db

abbrev pub edit_of : Bytes → Expected → Oid → RefEdit
edit_of name expected new = record { name = name; expected = expected; new = some new }

module _ (g : Git) (transaction : Transaction) where
  unfoldable pub advance : RefStoreRead → Bytes → Expected → Oid → Sync TxOutcome × RefStoreRead
  advance refs name expected new =
      let (answer, after) = transaction refs (edit_of name expected new ∷ []) in
      (of_store answer, after)

  abbrev landed : TxOutcome → Fetched
  landed TxOutcome.applied = updated
  landed (TxOutcome.rejected _) = stale

  -- `meanwhile` is what other writers do to the local refs between the read and the transaction.
  module _ (remote : Objects) (meanwhile : RefStoreRead → RefStoreRead) (fuel : ℕ) where
    unfoldable pub land : Repository → Bytes → Expected → Oid → Sync Fetched × Repository
    unfolding advance
    land here name expected tip =
        let (answer, refs) = advance (meanwhile here.refs) name expected tip in
        elim answer [
          | err e ↦ (err e, record { refs = refs; db = here.db })
          | ok outcome ↦ (ok (landed outcome), record { refs = refs; db = here.db })
        ]

    -- The `match local_tip`.
    unfoldable pub reconcile : Repository → Bytes → Oid → Option Oid → Sync Fetched × Repository
    unfolding land descends_from
    reconcile here name tip none = land here name must_not_exist tip
    reconcile here name tip (some local) =
        if local == tip
        then (ok unchanged, here)
        else elim (descends_from (at remote here.db) fuel tip local) [
          | err e ↦ (err e, here)
          | ok true ↦ land here name (must_exist_and_match local) tip
          | ok false ↦ (ok (diverged local), here)
        ]

    unfoldable pub fetch_one : Repository → Bytes → Oid → Sync Fetched × Repository
    unfolding reconcile copy_closure
    fetch_one here name tip =
        let (copied, db) = copy_closure remote g fuel tip here.db in
        let filled : Repository = record { refs = here.refs; db = db } in
        elim copied [
          | err e ↦ (err e, filled)
          | ok _ ↦ elim (here.refs.get name) [
            | err _ ↦ (err Types.refs, filled)
            | ok local_tip ↦ reconcile filled name tip local_tip
          ]
        ]

    unfoldable pub fetch_all :
        List (Result StoreError (Bytes × Oid))
        → FetchReport
        → Repository
        → Sync FetchReport × Repository
    unfolding fetch_one report_in
    fetch_all [] report here = (ok report, here)
    fetch_all (err _ ∷ entries) report here = (err Types.refs, here)
    fetch_all (ok (name, tip) ∷ entries) report here =
        let (fetched, after) = fetch_one here name tip in
        elim fetched [
          | err e ↦ (err e, after)
          | ok f ↦ fetch_all entries (report_in name tip f report) after
        ]

    unfoldable pub fetch : RefStoreRead → Repository → Sync FetchReport × Repository
    unfolding fetch_all
    fetch remote_refs here = elim (remote_refs.iter_prefix meta_prefix) [
      | err _ ↦ (err Types.refs, here)
      | ok entries ↦
          fetch_all entries (record { updated = []; unchanged = []; diverged = []; stale = [] })
            here
    ]
