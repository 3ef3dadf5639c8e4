-- ===== src/Sync/Transfer/Push.antt =====
-- `push` (crates/kernel/ents-sync/src/transfer.rs): the remote's gate judges, then the ref is moved.
use git_ents.Base.{ℕ, Bytes, none, some, ok, err, if◌then◌else◌}
use git_ents.Model.Member.{MemberId}
use git_ents.Substrate.Refs.{Oid, TxOutcome, RefStoreRead}
use git_ents.Substrate.Objects.{Objects}
use git_ents.Gate.Verify.{Update, cas_of}
use git_ents.Sync.Types.{Sync, Git, at}
use git_ents.Sync.Types
use git_ents.Sync.Objects.{copy_closure}
use git_ents.Sync.Preflight.{PreFlight, is_pass, preflight}
use git_ents.Sync.Transfer.{Transaction, Repository, advance}

pub data Pushed : Type 0 where
  advanced inbox stale : Bytes → Pushed
  refused : PreFlight → Pushed

abbrev pub proposal : Bytes → Oid → Update
proposal name tip = record { name = name; new = some tip }

abbrev pub not_pushed : PreFlight → Pushed
not_pushed pf = elim pf.inbox [ some route ↦ inbox route | none ↦ refused pf ]

abbrev pub pushed_as : Bytes → TxOutcome → Pushed
pushed_as name TxOutcome.applied = advanced name
pushed_as name (TxOutcome.rejected lost) = stale lost

-- `judged` is what other writers do to the remote refs between the judgment and the second read of
-- the ref, and `reread` what they do between that read and the transaction.
module _ (g : Git) (transaction : Transaction) (local_objects : Objects)
    (judged reread : RefStoreRead → RefStoreRead) (fuel : ℕ) where
  -- From the second read on.
  unfoldable pub move : Repository → Bytes → Oid → Sync Pushed × Repository
  unfolding advance
  move remote name tip =
      let refs = judged remote.refs in
      elim (refs.get name) [
        | err _ ↦ (err Types.refs, record { refs = refs; db = remote.db })
        | ok current ↦
            let (answer, after) = advance g transaction (reread refs) name (cas_of current) tip in
            elim answer [
              | err e ↦ (err e, record { refs = after; db = remote.db })
              | ok outcome ↦ (ok (pushed_as name outcome), record { refs = after; db = remote.db })
            ]
      ]

  unfoldable pub push : Repository → Bytes → Oid → MemberId → Sync Pushed × Repository
  unfolding move copy_closure preflight is_pass
  push remote name tip author =
      let (copied, db) = copy_closure local_objects g fuel tip remote.db in
      let filled : Repository = record { refs = remote.refs; db = db } in
      elim copied [
        | err e ↦ (err e, filled)
        | ok _ ↦
            elim (preflight remote.refs (at local_objects db) fuel (proposal name tip) author) [
              | err e ↦ (err e, filled)
              | ok pf ↦ if is_pass pf then move filled name tip else (ok (not_pushed pf), filled)
            ]
      ]
