-- ===== src/Sync/Transfer/Judged.antt =====
-- What `push` (crates/kernel/ents-sync/src/transfer.rs) does to the remote refs.
use git_ents.Base.{
  ℕ, Bytes, Bool, true, false, Bool-cases, [], ◌∷◌, Option, none, some, Option-cases, ok, err,
  Result-cases, false≢true, ◌≡◌, refl, ap, ◌∙◌, inl, inr,
}
use git_ents.Model.Member.{MemberId}
use git_ents.Substrate.Refs.{Oid, TxOutcome, RefStoreRead}
use git_ents.Substrate.Objects.{Objects}
use git_ents.Gate.Errors.{Store-cases, Gate-cases}
use git_ents.Gate.Verdict.{Verdict, pass, fail, Admission, Refusal}
use git_ents.Gate.Verdict
use git_ents.Gate.Verify.{cas_of, verify}
use git_ents.Sync.Types
use git_ents.Sync.Types.{Sync, Sync-cases, of_gate, Git, at}
use git_ents.Sync.Objects.{copy_closure}
use git_ents.Sync.Preflight.{PreFlight, is_pass, route_of, preflight}
use git_ents.Sync.Transfer.{Transaction, Repository, edit_of, advance}
use git_ents.Sync.Transfer.Push.{
  Pushed, advanced, inbox, stale, refused, proposal, not_pushed, move, push,
}
use git_ents.Sync.Transfer.FastForward.{IsCas, ok-injective, holds-get, Tx-cases}

-- What each answer of `push` says of the remote refs, before and after. `judged` and `reread` are
-- what other writers do to them before and after the second read of the ref.
pub data Outcome (o : Objects) (judged reread : RefStoreRead → RefStoreRead) (fuel : ℕ)
    (name : Bytes) (tip : Oid) (author : MemberId) (before after : Repository)
    : Pushed → Type 0 where
  was_advanced :
      {a : Admission} {current : Option Oid}
      → verify before.refs (at o after.db) fuel (proposal name tip) ≡ ok (pass a)
      → (judged before.refs).get name ≡ ok current
      → (reread (judged before.refs)).get name ≡ ok current
      → after.refs.get name ≡ ok (some tip)
      → Outcome o judged reread fuel name tip author before after (advanced name)
  was_stale :
      {a : Admission} {lost : Bytes}
      → verify before.refs (at o after.db) fuel (proposal name tip) ≡ ok (pass a)
      → after.refs ≡ reread (judged before.refs)
      → Outcome o judged reread fuel name tip author before after (stale lost)
  was_routed :
      {pf : PreFlight} {route : Bytes}
      → preflight before.refs (at o after.db) fuel (proposal name tip) author ≡ ok pf
      → is_pass pf ≡ false
      → pf.inbox ≡ some route
      → after.refs ≡ before.refs
      → Outcome o judged reread fuel name tip author before after (inbox route)
  was_refused :
      {pf : PreFlight}
      → preflight before.refs (at o after.db) fuel (proposal name tip) author ≡ ok pf
      → is_pass pf ≡ false
      → pf.inbox ≡ none
      → after.refs ≡ before.refs
      → Outcome o judged reread fuel name tip author before after (refused pf)

abbrev passes : Sync PreFlight → Bool
passes (ok pf) = elim pf.verdict [ pass _ ↦ true | fail _ ↦ false ]
passes (err _) = false

-- A pre-flight that passes carries the gate's admission.
preflight-pass :
    (refs : RefStoreRead) (o : Objects) (fuel : ℕ) (name : Bytes) (tip : Oid) (author : MemberId)
    (pf : PreFlight)
    → preflight refs o fuel (proposal name tip) author ≡ ok pf
    → is_pass pf ≡ true
    → (a : Admission) × (verify refs o fuel (proposal name tip) ≡ ok (pass a))
unfolding preflight is_pass Verdict.is_pass
preflight-pass refs o fuel name tip author pf h p =
    elim (Gate-cases (verify refs o fuel (proposal name tip))) [
      | inr (e, v) ↦ absurd (let q = ap passes (rw (preflight, v) at h) ∙ p in false≢true q)
      | inl (pass a, v) ↦ (a, v)
      | inl (fail r, v) ↦ elim (Sync-cases (route_of o name author (fail r))) [
        | inr (e, w) ↦ absurd (let q = ap passes (rw (preflight, v, w) at h) ∙ p in false≢true q)
        | inl (i, w) ↦ absurd (let q = ap passes (rw (preflight, v, w) at h) ∙ p in false≢true q)
      ]
    ]

not_pushed-none : (pf : PreFlight) → pf.inbox ≡ none → not_pushed pf ≡ refused pf
not_pushed-none pf i = ap (λ x. elim x [ some route ↦ inbox route | none ↦ refused pf ]) i

not_pushed-some :
    (pf : PreFlight) (route : Bytes) → pf.inbox ≡ some route → not_pushed pf ≡ inbox route
not_pushed-some pf route i = ap (λ x. elim x [ some r ↦ inbox r | none ↦ refused pf ]) i

module _ (g : Git) (transaction : Transaction) (cas : IsCas transaction) (o : Objects)
    (judged reread : RefStoreRead → RefStoreRead) (fuel : ℕ) (name : Bytes) (tip : Oid)
    (author : MemberId) where
  move-Outcome :
      (before filled after : Repository) (a : Admission) (answer : Pushed)
      → filled.refs ≡ before.refs
      → verify before.refs (at o filled.db) fuel (proposal name tip) ≡ ok (pass a)
      → move g transaction o judged reread fuel filled name tip ≡ (ok answer, after)
      → Outcome o judged reread fuel name tip author before after answer
  unfolding move advance
  move-Outcome before filled after a answer same v h =
      elim (Store-cases ((judged filled.refs).get name)) [
        | inr (e, p) ↦
            absurd (let q : err Types.refs ≡ ok answer = ap (λ y. y.0) (rw (move, p) at h) in cc q)
        | inl (current, p) ↦
            let e = edit_of name (cas_of current) tip in
            let refs = reread (judged filled.refs) in
            let t = transaction refs (e ∷ []) in
            elim (Result-cases t.0) [
              | inr (x, r) ↦ absurd (
                  let q : err Types.refs ≡ ok answer =
                    ap (λ y. y.0) (rw (move, p, advance, r) at h) in
                  cc q)
              | inl (x, r) ↦ elim (Tx-cases x) [
                | inl k ↦
                    let r' : t.0 ≡ ok TxOutcome.applied = r ∙ ap (λ y. ok y) k in
                    let q = rw (move, p, advance, r') at h in
                    let (held, set) = cas.applied refs t.1 e (ap (λ y. (y, t.1)) r') in
                    rw (← ok-injective (ap (λ y. y.0) q), ← ap (λ y. y.1) q)
                      (was_advanced v (rw same at p)
                        (let got = holds-get refs name current held in rw same at got) set)
                | inr (n, k) ↦
                    let r' : t.0 ≡ ok (TxOutcome.rejected n) = r ∙ ap (λ y. ok y) k in
                    let q = rw (move, p, advance, r') at h in
                    let unmoved = cas.rejected refs t.1 e n (ap (λ y. (y, t.1)) r') in
                    rw (← ok-injective (ap (λ y. y.0) q), ← ap (λ y. y.1) q)
                      (was_stale v (unmoved ∙ ap (λ y. reread (judged y)) same))
              ]
            ]
      ]

  -- What each answer of `push` says of the remote refs, where the transaction is a
  -- compare-and-swap. Advanced: the gate admitted the tip against the refs as they were before, and
  -- the transaction moved the ref to it from the tip that the second read found, which another
  -- writer may have set since the judgment. Stale: the gate admitted the tip, and the transaction
  -- changed no ref. Refused, or routed to the inbox: the pre-flight did not pass, and no ref is
  -- changed.
  pub push-Outcome :
      (before after : Repository) (answer : Pushed)
      → push g transaction o judged reread fuel before name tip author ≡ (ok answer, after)
      → Outcome o judged reread fuel name tip author before after answer
  unfolding push
  push-Outcome before after answer h =
      let c = copy_closure o g fuel tip before.db in
      let filled : Repository = record { refs = before.refs; db = c.1 } in
      elim (Sync-cases c.0) [
        | inr (e, p) ↦
            absurd (let q : err e ≡ ok answer = ap (λ y. y.0) (rw (push, p) at h) in cc q)
        | inl (u, p) ↦
            elim (Sync-cases (preflight before.refs (at o c.1) fuel (proposal name tip) author)) [
              | inr (e, r) ↦
                  absurd (let q : err e ≡ ok answer = ap (λ y. y.0) (rw (push, p, r) at h) in cc q)
              | inl (pf, r) ↦ elim (Bool-cases (is_pass pf)) [
                | inl k ↦
                    let (a, v) =
                      preflight-pass before.refs (at o c.1) fuel name tip author pf r k in
                    move-Outcome before filled after a answer refl v (rw (push, p, r, k) at h)
                | inr k ↦
                    let q = rw (push, p, r, k) at h in
                    let n : not_pushed pf ≡ answer = ok-injective (ap (λ y. y.0) q) in
                    let e : filled ≡ after = ap (λ y. y.1) q in
                    elim (Option-cases pf.inbox) [
                      | inl i ↦ rw (← n, not_pushed-none pf i, ← e) (was_refused r k i refl)
                      | inr (route, i) ↦
                          rw (← n, not_pushed-some pf route i, ← e) (was_routed r k i refl)
                    ]
              ]
            ]
      ]
