-- ===== src/Sync/Transfer/Replica.antt =====
-- A whole `fetch` (crates/kernel/ents-sync/src/transfer.rs) as a run of steps on a replica.
use git_ents.Base.{ℕ, Bytes, List, [], ◌∷◌, map, Result, ok, err, ◌≡◌, refl, ap, inl, inr}
use git_ents.Graph.{Reaches}
use git_ents.Substrate.Refs.{Oid, StoreError, RefStoreRead}
use git_ents.Substrate.Objects.{Object, Objects}
use git_ents.Gate.Errors.{Store-cases}
use git_ents.Sync.Types
use git_ents.Sync.Types.{Sync, Sync-cases, Git, IsStore, IsAddressed}
use git_ents.Sync.Objects.Copied.{IsCopied, links_of}
use git_ents.Sync.Transfer.{
  meta_prefix, Transaction, Repository, FetchReport, Fetched, report_in, fetch_one, fetch_all,
  fetch,
}
use git_ents.Sync.Transfer.FastForward.{IsCas, Outcome, ok-injective, fetch_one-Outcome}

abbrev pub no_report : FetchReport
no_report = record { updated = []; unchanged = []; diverged = []; stale = [] }

-- The replica takes the remote's refs one after the other. For each, everything that its tip reaches
-- is there afterwards, and the local ref does what the report's entry says.
pub data FetchRun (remote : Objects) (meanwhile : RefStoreRead → RefStoreRead)
    : List (Bytes × Oid) → Repository → FetchReport → Repository → FetchReport → Type 0 where
  done :
      {here : Repository} {report : FetchReport}
      → FetchRun remote meanwhile [] here report here report
  next :
      {name : Bytes} {tip : Oid} {entries : List (Bytes × Oid)} {here after final : Repository}
      {report full : FetchReport} {f : Fetched}
      → Outcome remote meanwhile name tip here after f
      → ((x : Oid) → Reaches (links_of remote) tip x → IsCopied remote after.db x)
      → FetchRun remote meanwhile entries after (report_in name tip f report) final full
      → FetchRun remote meanwhile ((name, tip) ∷ entries) here report final full

abbrev read_ok : Bytes × Oid → Result StoreError (Bytes × Oid)
read_ok entry = ok entry

-- The remote's listing was read whole, and the fetch is a run over it.
abbrev pub Replicates :
    Objects
    → (RefStoreRead → RefStoreRead)
    → List (Result StoreError (Bytes × Oid))
    → Repository
    → FetchReport
    → Repository
    → FetchReport
    → Type 0
Replicates remote meanwhile listing here report final full =
    (entries : List (Bytes × Oid)) × (listing ≡ map read_ok entries)
    × FetchRun remote meanwhile entries here report final full

module _ (g : Git) (transaction : Transaction) (cas : IsCas transaction) (remote : Objects)
    (meanwhile : RefStoreRead → RefStoreRead) (fuel : ℕ) (hash : Object → Oid)
    (law : IsStore g hash) (addressed : IsAddressed hash remote.try_find) where
  fetch_all-FetchRun :
      (listing : List (Result StoreError (Bytes × Oid))) (report full : FetchReport)
      (here final : Repository)
      → fetch_all g transaction remote meanwhile fuel listing report here ≡ (ok full, final)
      → Replicates remote meanwhile listing here report final full
  unfolding fetch_all
  fetch_all-FetchRun [] report full here final h =
      rw (← ok-injective (ap (λ x. x.0) h), ← ap (λ x. x.1) h) ([], refl, done)
  fetch_all-FetchRun (err e ∷ listing) report full here final h =
      absurd (let q : err Types.refs ≡ ok full = ap (λ y. y.0) h in cc q)
  fetch_all-FetchRun (ok (name, tip) ∷ listing) report full here final h =
      let one = fetch_one g transaction remote meanwhile fuel here name tip in
      elim (Sync-cases one.0) [
        | inr (e, p) ↦
            absurd (let q : err e ≡ ok full = ap (λ y. y.0) (rw (fetch_all, p) at h) in cc q)
        | inl (f, p) ↦
            let (o, copied) =
              fetch_one-Outcome g transaction cas remote meanwhile fuel hash law addressed here
                one.1 name tip f (ap (λ y. (y, one.1)) p) in
            let (entries, e, run) =
              fetch_all-FetchRun listing (report_in name tip f report) full one.1 final
                (rw (fetch_all, p) at h) in
            ((name, tip) ∷ entries, ap (λ l. ok (name, tip) ∷ l) e, next o copied run)
      ]

  -- Where the local transaction is a compare-and-swap, the local store writes objects under their
  -- hash and the remote's objects stand under theirs, a fetch that succeeds has read the remote's
  -- list of refs under refs/meta/ whole, and has taken one step for each of them in that order, the
  -- report growing from an empty one to the one returned. After a step everything that the remote
  -- tip reaches is in the local store, and the entry of the report is true: an unchanged ref had
  -- the tip already; a diverged one is left at a tip that the remote tip does not reach; an updated
  -- one has the tip, and was absent or had an ancestor of it; for a stale one the transaction
  -- changed nothing.
  pub fetch-FetchRun :
      (remote_refs : RefStoreRead) (full : FetchReport) (here final : Repository)
      → fetch g transaction remote meanwhile fuel remote_refs here ≡ (ok full, final)
      → (listing : List (Result StoreError (Bytes × Oid))) × (remote_refs.iter_prefix meta_prefix
          ≡ ok listing)
        × Replicates remote meanwhile listing here no_report final full
  unfolding fetch
  fetch-FetchRun remote_refs full here final h =
      elim (Store-cases (remote_refs.iter_prefix meta_prefix)) [
        | inr (e, p) ↦
            absurd (let q : err Types.refs ≡ ok full = ap (λ y. y.0) (rw (fetch, p) at h) in cc q)
        | inl (listing, p) ↦
            (listing, p, fetch_all-FetchRun listing no_report full here final (rw (fetch, p) at h))
      ]
