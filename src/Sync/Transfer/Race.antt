-- ===== src/Sync/Transfer/Race.antt =====
-- A writer who moves the remote ref while `push` (crates/kernel/ents-sync/src/transfer.rs) judges.
use git_ents.Base.{ℕ, Bytes, true, [], ◌∷◌, Option, none, some, ok, ◌≡◌, refl, ap}
use git_ents.Model.Member.{MemberId}
use git_ents.Substrate.Refs.{Oid, RefEdit, TxOutcome, RefStoreRead}
use git_ents.Substrate.Objects.{Objects}
use git_ents.Gate.Verify.{cas_of}
use git_ents.Receive.Judgments.{HoldsAt}
use git_ents.Sync.Types.{Git, at}
use git_ents.Sync.Objects.{copy_closure}
use git_ents.Sync.Preflight.{PreFlight, is_pass, preflight}
use git_ents.Sync.Transfer.{Transaction, Repository, edit_of, advance}
use git_ents.Sync.Transfer.Push.{advanced, proposal, move, push}
use git_ents.Sync.Transfer.FastForward.{IsCas}

-- A transaction of one edit whose precondition holds is applied.
abbrev pub Applies : Transaction → Type 0
Applies transaction =
    (refs : RefStoreRead) (e : RefEdit)
    → HoldsAt refs e.name e.expected
    → (transaction refs (e ∷ [])).0 ≡ ok TxOutcome.applied

got-holds :
    (refs : RefStoreRead) (name : Bytes) (old : Option Oid)
    → refs.get name ≡ ok old
    → HoldsAt refs name (cas_of old)
got-holds refs name none h = h
got-holds refs name (some old) h = h

-- Once the gate admits the tip, `push` moves the ref to it whatever tip another writer gives the ref
-- between the judgment and the second read, be it one that the gate never compared with the new
-- tip: the move is reported as advanced, not as stale. No writer comes after the second read here.
pub push_overwrites :
    (g : Git) (transaction : Transaction) (o : Objects) (judged : RefStoreRead → RefStoreRead)
    (fuel : ℕ) (before : Repository) (name : Bytes) (tip : Oid) (author : MemberId) (pf : PreFlight)
    (current : Option Oid)
    → IsCas transaction
    → Applies transaction
    → (copy_closure o g fuel tip before.db).0 ≡ ok tt
    → preflight before.refs
        (at o (copy_closure o g fuel tip before.db).1)
        fuel
        (proposal name tip)
        author
      ≡ ok pf
    → is_pass pf ≡ true
    → (judged before.refs).get name ≡ ok current
    → ((push g transaction o judged (λ refs. refs) fuel before name tip author).0
        ≡ ok (advanced name))
      × ((push g transaction o judged (λ refs. refs) fuel before name tip author).1.refs.get name
          ≡ ok (some tip))
unfolding push move advance
push_overwrites g transaction o judged fuel before name tip author pf current cas applies c r k
      read =
    let e = edit_of name (cas_of current) tip in
    let refs = judged before.refs in
    let t = transaction refs (e ∷ []) in
    let a = applies refs e (got-holds refs name current read) in
    let (held, set) = cas.applied refs t.1 e (ap (λ y. (y, t.1)) a) in
    (
      rw (push, c, r, k, move, read, advance, a) refl,
      rw (push, c, r, k, move, read, advance, a) set,
    )
