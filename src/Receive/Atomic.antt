-- ===== src/Receive/Atomic.antt =====
-- What `receive` may have changed, by its outcome: all of a judged batch, or nothing.
use git_ents.Base.{
  ℕ, false, List, [], ◌∷◌, none, some, Result, ok, err, ◌≡◌, ◌⊎◌, inl, inr, refl, ap, sym, ◌∙◌,
  Bool-cases, Option-cases, Result-cases, arith,
}
use git_ents.Substrate.Refs.{TxOutcome, StoreError, RefStoreRead}
use git_ents.Substrate.Objects.{Objects}
use git_ents.Receive.Types.{
  RefTransition, Proposal, Mode, mandatory, applied, refused, redacted, Outcome, Receive, Services,
  Views, World,
}
use git_ents.Receive.Scan.{first_redacted}
use git_ents.Receive.Batch.{
  Judged, judge_all, any_failed, edits_of, announce, announced, settle, write, receive, outcome,
  is_mandatory,
}
use git_ents.Receive.Judgments.{Admitted, IsAtomic, Pinned, all-Admitted, all-Pinned}

module _ (seen : Views) (o : Objects) (fuel : ℕ) where
  module _ (s : Services) (proposal : Proposal) (mode : Mode) (w : World) where
    -- The batch is judged, not refused, and handed to the transaction.
    pub record Written : Type 0 where
      pub judged : List Judged
      pub unredacted : first_redacted seen.scanned o s proposal.objects ≡ ok none
      pub of_batch : judge_all seen o fuel 0 proposal.transitions ≡ ok judged
      pub same : receive seen o s fuel proposal mode w ≡ write o s judged w
      pub allowed : mode ≡ mandatory → any_failed judged ≡ false

    written :
        (js : List Judged)
        → first_redacted seen.scanned o s proposal.objects ≡ ok none
        → judge_all seen o fuel 0 proposal.transitions ≡ ok js
        → receive seen o s fuel proposal mode w ≡ write o s js w
        → (mode ≡ mandatory → any_failed js ≡ false)
        → Written
    written js e f g a = record { judged = js; unredacted = e; of_batch = f; same = g; allowed = a }

    -- Nothing is written, or the batch is.
    pub receive-cases :
        ((r : Receive Outcome) × (receive seen o s fuel proposal mode w ≡ (r, w))) ⊎ Written
    unfolding receive
    receive-cases = elim (Result-cases (first_redacted seen.scanned o s proposal.objects)) [
      | inr (x, e) ↦ inl (err x, rw (receive, e) refl)
      | inl (some oid, e) ↦
          inl (ok (record { verdicts = []; result = redacted oid }), rw (receive, e) refl)
      | inl (none, e) ↦ elim (Result-cases (judge_all seen o fuel 0 proposal.transitions)) [
        | inr (x, f) ↦ inl (err x, rw (receive, e, f) refl)
        | inl (js, f) ↦ elim (Bool-cases (any_failed js)) [
          | inr n ↦ inr (written js e f (rw (receive, e, f, n) refl) (λ _. n))
          | inl n ↦ elim (Bool-cases (is_mandatory mode)) [
            | inl m ↦ inl (ok (outcome js refused), rw (receive, e, f, n, m) refl)
            | inr m ↦
                inr (written js e f (rw (receive, e, f, n, m) refl) (λ k. absurd (not_both k m)))
          ]
        ]
      ]
    ]
      where
        not_both : {x : Mode} → x ≡ mandatory → is_mandatory x ≡ false → ⊥
        not_both k m = let t : is_mandatory mandatory ≡ false = rw k at m in cc

  -- In mandatory mode nothing changes, neither a ref nor the event queue, unless every transition of
  -- the proposal has an admission, whatever the outcome and whatever the ref store does.
  pub receive-mandatory :
      (s : Services) (proposal : Proposal) (w : World)
      → ((receive seen o s fuel proposal mandatory w).1 ≡ w)
        ⊎ Admitted seen.judged o fuel 0 proposal.transitions
  receive-mandatory s proposal w = elim (receive-cases s proposal mandatory w) [
    | inl (r, e) ↦ inl (ap (λ x. x.1) e)
    | inr b ↦
        inr (all-Admitted seen o fuel 0 proposal.transitions b.judged b.of_batch (b.allowed refl))
  ]

  module _ (s : Services) (atomic : IsAtomic s) (w : World) where
    announced-applied :
        (js : List Judged) (w' : World) (out : Outcome) (after : World)
        → announced o s js w' ≡ (ok out, after)
        → out.result ≡ applied
    unfolding announced
    announced-applied js w' out after h = elim (Option-cases (announce o s js w').0) [
      | inl e ↦ ground arith
      | inr (x, e) ↦ ground arith
    ]

    settle-applied :
        (ts : List RefTransition) (js : List Judged) (out : Outcome) (after : World)
        → judge_all seen o fuel 0 ts ≡ ok js
        → (answer : Result StoreError TxOutcome) (refs : RefStoreRead)
        → s.transaction w.refs (edits_of js) ≡ (answer, refs)
        → settle o s js (record { refs = refs; queue = w.queue }) answer ≡ (ok out, after)
        → ((out.result ≡ applied) × Pinned seen o fuel w.refs 0 ts) ⊎ (after ≡ w)
    unfolding settle
    settle-applied ts js out after e (err x) refs t h = ground arith
    settle-applied ts js out after e (ok TxOutcome.applied) refs t h = inl (
      announced-applied js _ out after h,
      all-Pinned seen o fuel w.refs 0 ts js e (atomic.applied_holds w.refs refs (edits_of js) t),
    )
    settle-applied ts js out after e (ok (TxOutcome.rejected name)) refs t h =
        let same : refs ≡ w.refs = atomic.rejected_same w.refs refs (edits_of js) name t in
        inr (
          sym (ap (λ x. x.1) h)
          ∙ ap (λ (r : RefStoreRead). record { refs = r; queue = w.queue }) same)

    write-applied :
        (ts : List RefTransition) (js : List Judged) (out : Outcome) (after : World)
        → judge_all seen o fuel 0 ts ≡ ok js
        → write o s js w ≡ (ok out, after)
        → ((out.result ≡ applied) × Pinned seen o fuel w.refs 0 ts) ⊎ (after ≡ w)
    unfolding write
    write-applied ts [] out after e h = inr (sym (ap (λ x. x.1) h))
    write-applied ts (j ∷ js) out after e h =
        settle-applied ts (j ∷ js) out after e (s.transaction w.refs (edits_of (j ∷ js))).0
          (s.transaction w.refs (edits_of (j ∷ js))).1 refl h

    -- Where the ref store's transactions are atomic, an outcome leaves refs and events as they were
    -- unless it is `applied`, and then each ref held, when the transaction ran, the tip that
    -- `receive` had read of it before it asked for the verdict; where `verify` read the same tip after
    -- that, the ref also met the precondition of the admission. The refs may change between any two
    -- of these reads.
    pub receive-all_or_nothing :
        (proposal : Proposal) (mode : Mode) (out : Outcome) (after : World)
        → receive seen o s fuel proposal mode w ≡ (ok out, after)
        → ((out.result ≡ applied) × Pinned seen o fuel w.refs 0 proposal.transitions) ⊎ (after ≡ w)
    receive-all_or_nothing proposal mode out after h = elim (receive-cases s proposal mode w) [
      | inl (r, e) ↦ inr (sym (ap (λ x. x.1) h) ∙ ap (λ x. x.1) e)
      | inr b ↦ write-applied proposal.transitions b.judged out after b.of_batch (sym b.same ∙ h)
    ]
