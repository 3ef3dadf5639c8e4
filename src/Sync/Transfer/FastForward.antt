-- ===== src/Sync/Transfer/FastForward.antt =====
-- What `fetch` (crates/kernel/ents-sync/src/transfer.rs) does to the local repository.
use git_ents.Base.{
  ℕ, Bytes, true, false, Bool-cases, [], ◌∷◌, Option, none, some, ok, err, Result-cases, ◌==◌, ◌≡◌,
  refl, ap, ◌∙◌, ◌⊎◌, inl, inr, arith,
}
use git_ents.Graph.{Reaches}
use git_ents.Substrate.Refs.{Oid, RefEdit, TxOutcome, RefStoreRead}
use git_ents.Substrate.Objects.{Object, Objects}
use git_ents.Gate.Errors.{Store-cases}
use git_ents.Gate.Verify.{cas_of}
use git_ents.Receive.Judgments.{HoldsAt}
use git_ents.Sync.Types
use git_ents.Sync.Types.{SyncError, Sync, Sync-cases, of_store, Db, Git, IsStore, IsAddressed, at}
use git_ents.Sync.Objects.{descends_from, copy_closure}
use git_ents.Sync.Objects.Descent.{parents_of, descends_from-Answers}
use git_ents.Sync.Objects.Copied.{IsCopied, links_of, copy_closure-IsCopied}
use git_ents.Sync.Transfer.{
  Transaction, Repository, Fetched, updated, unchanged, stale, diverged, edit_of, advance, land,
  reconcile, fetch_one,
}

-- The contract of a transaction of one edit: if it is applied, the precondition held and the ref has
-- the new tip; if it is rejected, nothing changed.
pub record IsCas (transaction : Transaction) : Type 0 where
  pub applied :
      (refs after : RefStoreRead) (e : RefEdit)
      → transaction refs (e ∷ []) ≡ (ok TxOutcome.applied, after)
      → HoldsAt refs e.name e.expected × (after.get e.name ≡ ok e.new)
  pub rejected :
      (refs after : RefStoreRead) (e : RefEdit) (name : Bytes)
      → transaction refs (e ∷ []) ≡ (ok (TxOutcome.rejected name), after)
      → after ≡ refs

-- The tip that a ref gets descends from the one that it had.
abbrev pub Descends : Objects → Oid → Option Oid → Type 0
Descends o new none = Unit
Descends o new (some old) = Reaches (parents_of o) new old

-- What each answer about one remote ref says of the local refs. `meanwhile` is what other writers do
-- to them between the read and the transaction.
pub data Outcome (remote : Objects) (meanwhile : RefStoreRead → RefStoreRead) (name : Bytes)
    (tip : Oid) (here after : Repository) : Fetched → Type 0 where
  is_unchanged :
      here.refs.get name ≡ ok (some tip)
      → after.refs ≡ here.refs
      → Outcome remote meanwhile name tip here after unchanged
  is_diverged :
      {local : Oid}
      → here.refs.get name ≡ ok (some local)
      → ¬ Reaches (parents_of (at remote after.db)) tip local
      → after.refs ≡ here.refs
      → Outcome remote meanwhile name tip here after (diverged local)
  is_updated :
      {old : Option Oid}
      → (meanwhile here.refs).get name ≡ ok old
      → Descends (at remote after.db) tip old
      → after.refs.get name ≡ ok (some tip)
      → Outcome remote meanwhile name tip here after updated
  is_stale : after.refs ≡ meanwhile here.refs → Outcome remote meanwhile name tip here after stale

pub holds-get :
    (refs : RefStoreRead) (name : Bytes) (old : Option Oid)
    → HoldsAt refs name (cas_of old)
    → refs.get name ≡ ok old
holds-get refs name none h = h
holds-get refs name (some old) h = h

pub Tx-cases :
    (x : TxOutcome) → (x ≡ TxOutcome.applied) ⊎ ((n : Bytes) × (x ≡ TxOutcome.rejected n))
Tx-cases TxOutcome.applied = inl refl
Tx-cases (TxOutcome.rejected n) = inr (n, refl)

pub ok-injective : {A : Type 0} {f f' : A} → Path (Sync A) (ok f) (ok f') → f ≡ f'
ok-injective e = cc

-- An outcome does not read the objects that there were before.
Outcome-refs :
    {remote : Objects} {meanwhile : RefStoreRead → RefStoreRead} (here filled after : Repository)
    (name : Bytes) (tip : Oid) (f : Fetched)
    → filled.refs ≡ here.refs
    → Outcome remote meanwhile name tip filled after f
    → Outcome remote meanwhile name tip here after f
Outcome-refs here filled after name tip _ e (is_unchanged a b) = is_unchanged (rw e at a) (b ∙ e)
Outcome-refs here filled after name tip _ e (is_diverged a b c) = is_diverged (rw e at a) b (c ∙ e)
Outcome-refs here filled after name tip _ e (is_updated a b c) = is_updated (rw e at a) b c
Outcome-refs {meanwhile = meanwhile} here filled after name tip _ e (is_stale a) =
    is_stale (a ∙ ap meanwhile e)

module _ (g : Git) (transaction : Transaction) (cas : IsCas transaction) (remote : Objects)
    (meanwhile : RefStoreRead → RefStoreRead) (fuel : ℕ) where
  land-Outcome :
      (here after : Repository) (name : Bytes) (old : Option Oid) (tip : Oid) (f : Fetched)
      → Descends (at remote here.db) tip old
      → land g transaction remote meanwhile fuel here name (cas_of old) tip ≡ (ok f, after)
      → Outcome remote meanwhile name tip here after f × (after.db ≡ here.db)
  unfolding land advance
  land-Outcome here after name old tip f d h =
      let e = edit_of name (cas_of old) tip in
      let t = transaction (meanwhile here.refs) (e ∷ []) in
      elim (Result-cases t.0) [
        | inr (x, p) ↦
            absurd
              (let q : err Types.refs ≡ ok f = ap (λ r. r.0) (rw (land, advance, p) at h) in cc q)
        | inl (x, p) ↦ elim (Tx-cases x) [
          | inl a ↦
              let p' : t.0 ≡ ok TxOutcome.applied = p ∙ ap (λ y. ok y) a in
              let q = rw (land, advance, p') at h in
              let (held, set) = cas.applied (meanwhile here.refs) t.1 e (ap (λ r. (r, t.1)) p') in
              rw (← ok-injective (ap (λ r. r.0) q), ← ap (λ r. r.1) q)
                (is_updated (holds-get (meanwhile here.refs) name old held) d set, refl)
          | inr (n, a) ↦
              let p' : t.0 ≡ ok (TxOutcome.rejected n) = p ∙ ap (λ y. ok y) a in
              let q = rw (land, advance, p') at h in
              rw (← ok-injective (ap (λ r. r.0) q), ← ap (λ r. r.1) q)
                (
                  is_stale (cas.rejected (meanwhile here.refs) t.1 e n (ap (λ r. (r, t.1)) p')),
                  refl,
                )
        ]
      ]

  reconcile-Outcome :
      (here after : Repository) (name : Bytes) (tip : Oid) (local_tip : Option Oid) (f : Fetched)
      → here.refs.get name ≡ ok local_tip
      → reconcile g transaction remote meanwhile fuel here name tip local_tip ≡ (ok f, after)
      → Outcome remote meanwhile name tip here after f × (after.db ≡ here.db)
  unfolding reconcile
  reconcile-Outcome here after name tip none f r h = land-Outcome here after name none tip f tt h
  reconcile-Outcome here after name tip (some local) f r h = elim (Bool-cases (local == tip)) [
    | inl e ↦
        let e' : local ≡ tip = ground arith in
        let q = rw (reconcile, e) at h in
        rw (← ok-injective (ap (λ x. x.0) q), ← ap (λ x. x.1) q)
          (is_unchanged (rw e' at r) refl, refl)
    | inr e ↦
        let d = descends_from (at remote here.db) fuel tip local in
        let a = descends_from-Answers (at remote here.db) tip local fuel in
        elim (Sync-cases d) [
          | inr (x, p) ↦
              absurd (let q : err x ≡ ok f = ap (λ y. y.0) (rw (reconcile, e, p) at h) in cc q)
          | inl (true, p) ↦
              land-Outcome here after name (some local) tip f (rw p at a)
                (rw (reconcile, e, p) at h)
          | inl (false, p) ↦
              let q = rw (reconcile, e, p) at h in
              rw (← ok-injective (ap (λ x. x.0) q), ← ap (λ x. x.1) q)
                (is_diverged r (rw p at a) refl, refl)
        ]
  ]

  pub fetch_one-Outcome :
      (hash : Object → Oid)
      → IsStore g hash
      → IsAddressed hash remote.try_find
      → (here after : Repository) (name : Bytes) (tip : Oid) (f : Fetched)
      → fetch_one g transaction remote meanwhile fuel here name tip ≡ (ok f, after)
      → Outcome remote meanwhile name tip here after f
        × ((x : Oid) → Reaches (links_of remote) tip x → IsCopied remote after.db x)
  unfolding fetch_one
  fetch_one-Outcome hash law addressed here after name tip f h =
      let c = copy_closure remote g fuel tip here.db in
      let filled : Repository = record { refs = here.refs; db = c.1 } in
      elim (Sync-cases c.0) [
        | inr (x, p) ↦
            absurd (let q : err x ≡ ok f = ap (λ y. y.0) (rw (fetch_one, p) at h) in cc q)
        | inl (u, p) ↦ elim (Store-cases (here.refs.get name)) [
          | inr (x, r) ↦
              absurd
                (let q : err Types.refs ≡ ok f = ap (λ y. y.0) (rw (fetch_one, p, r) at h) in cc q)
          | inl (local_tip, r) ↦
              let (o, d) =
                reconcile-Outcome filled after name tip local_tip f r (rw (fetch_one, p, r) at h) in
              (
                Outcome-refs here filled after name tip f refl o,
                λ x reached. rw d (
                    copy_closure-IsCopied remote g hash fuel tip here.db c.1 law addressed
                      (ap (λ y. (y, c.1)) p) x reached),
              )
        ]
      ]
