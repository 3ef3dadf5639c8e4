-- ===== src/Receive/Judgments.antt =====
-- What the judgments of a batch have established, and the contract of a ref store's transaction.
use git_ents.Base.{
  ℕ, suc, Bytes, true, false, List, [], ◌∷◌, Option, none, some, ok, ◌≡◌, inl, inr, refl, ap, sym,
  ◌∙◌, Result-cases, arith,
}
use git_ents.Substrate.Refs.{
  Oid, Expected, any, must_not_exist, must_exist_and_match, RefEdit, TxOutcome, RefStoreRead,
}
use git_ents.Substrate.Objects.{Objects}
use git_ents.Gate.Errors.{Store-cases, Gate-cases}
use git_ents.Gate.Verdict.{Verdict, pass, fail, Admission, is_pass}
use git_ents.Gate.Verify.{verify, cas_of}
use git_ents.Gate.Verify.Kinds.{verify-Justified}
use git_ents.Receive.Types.{RefTransition, Services, Views}
use git_ents.Receive.Batch.{update_of, Judged, judge, judge_all, any_failed, edits_of}

-- Every transition, from the i-th on, has an admission in its round.
pub data Admitted (judged : ℕ → RefStoreRead) (o : Objects) (fuel : ℕ)
    : ℕ → List RefTransition → Type 0 where
  none_left : {i : ℕ} → Admitted judged o fuel i []
  admitted :
      {i : ℕ} {t : RefTransition} {ts : List RefTransition} {a : Admission}
      → verify (judged i) o fuel (update_of t) ≡ ok (pass a)
      → Admitted judged o fuel (suc i) ts
      → Admitted judged o fuel i (t ∷ ts)

abbrev pub HoldsAt : RefStoreRead → Bytes → Expected → Type 0
HoldsAt refs name any = Unit {0}
HoldsAt refs name must_not_exist = refs.get name ≡ ok none
HoldsAt refs name (must_exist_and_match oid) = refs.get name ≡ ok (some oid)

-- The precondition of every edit holds of the refs.
pub data AllHold (refs : RefStoreRead) : List RefEdit → Type 0 where
  no_edit : AllHold refs []
  holds :
      {e : RefEdit} {es : List RefEdit}
      → HoldsAt refs e.name e.expected
      → AllHold refs es
      → AllHold refs (e ∷ es)

-- The contract of `RefStore::transaction`: it applies an edit only where every precondition holds,
-- and changes nothing where it rejects one.
pub record IsAtomic (s : Services) : Type 0 where
  pub applied_holds :
      (refs after : RefStoreRead) (edits : List RefEdit)
      → s.transaction refs edits ≡ (ok TxOutcome.applied, after)
      → AllHold refs edits
  pub rejected_same :
      (refs after : RefStoreRead) (edits : List RefEdit) (name : Bytes)
      → s.transaction refs edits ≡ (ok (TxOutcome.rejected name), after)
      → after ≡ refs

-- When the transaction ran on `refs`, each ref held the tip that `receive` had read of it in its round,
-- before the verdict was asked for. Where `verify` then read the same tip, the ref also met the
-- precondition of the admission.
pub data Pinned (seen : Views) (o : Objects) (fuel : ℕ) (refs : RefStoreRead)
    : ℕ → List RefTransition → Type 0 where
  no_transition : {i : ℕ} → Pinned seen o fuel refs i []
  pinned :
      {i : ℕ} {t : RefTransition} {ts : List RefTransition} {old : Option Oid} {v : Verdict}
      → (seen.own i).get t.name ≡ ok old
      → verify (seen.judged i) o fuel (update_of t) ≡ ok v
      → refs.get t.name ≡ ok old
      → ((a : Admission)
          → v ≡ pass a
          → (seen.judged i).get t.name ≡ ok old
          → (a.refname ≡ t.name) × HoldsAt refs t.name a.cas)
      → Pinned seen o fuel refs (suc i) ts
      → Pinned seen o fuel refs i (t ∷ ts)

module _ (seen : Views) (o : Objects) (fuel : ℕ) where
  judge-ok :
      (own judged : RefStoreRead) (t : RefTransition) (j : Judged)
      → judge own judged o fuel t ≡ ok j
      → (old : Option Oid) × (own.get t.name ≡ ok old)
        × (verify judged o fuel (update_of t) ≡ ok j.verdict)
        × (j.edit ≡ record { name = t.name; expected = cas_of old; new = t.new })
  unfolding judge
  judge-ok own judged t j h = elim (Store-cases (own.get t.name)) [
    | inr (x, e) ↦ ground arith
    | inl (old, e) ↦ elim (Gate-cases (verify judged o fuel (update_of t))) [
      | inr (x, f) ↦ ground arith
      | inl (v, f) ↦ ground arith
    ]
  ]

  judge_all-cons :
      (i : ℕ) (t : RefTransition) (ts : List RefTransition) (js : List Judged)
      → judge_all seen o fuel i (t ∷ ts) ≡ ok js
      → (j : Judged) × (rest : List Judged) × (judge (seen.own i) (seen.judged i) o fuel t ≡ ok j)
        × (judge_all seen o fuel (suc i) ts ≡ ok rest)
        × (js ≡ j ∷ rest)
  unfolding judge_all
  judge_all-cons i t ts js h = elim (Result-cases (judge (seen.own i) (seen.judged i) o fuel t)) [
    | inr (x, e) ↦ ground arith
    | inl (j, e) ↦ elim (Result-cases (judge_all seen o fuel (suc i) ts)) [
      | inr (x, f) ↦ ground arith
      | inl (rest, f) ↦ (j, rest, e, f, ground arith)
    ]
  ]

  pass_of : (v : Verdict) → is_pass v ≡ true → (a : Admission) × (v ≡ pass a)
  unfolding is_pass
  pass_of (pass a) h = (a, refl)
  pass_of (fail r) h = cc

  pub all-Admitted :
      (i : ℕ) (ts : List RefTransition) (js : List Judged)
      → judge_all seen o fuel i ts ≡ ok js
      → any_failed js ≡ false
      → Admitted seen.judged o fuel i ts
  unfolding any_failed
  all-Admitted i [] js h n = none_left
  all-Admitted i (t ∷ ts) js h n =
      let (j, rest, e, f, g) = judge_all-cons i t ts js h in
      let (old, _, v, _) = judge-ok (seen.own i) (seen.judged i) t j e in
      let n' : any_failed (j ∷ rest) ≡ false = rw g at n in
      let (a, p) = pass_of j.verdict (ground arith) in
      admitted (v ∙ ap ok p) (all-Admitted (suc i) ts rest f (ground arith))

  HoldsAt-old :
      (refs : RefStoreRead) (name : Bytes) (old : Option Oid)
      → HoldsAt refs name (cas_of old)
      → refs.get name ≡ ok old
  HoldsAt-old refs name none h = h
  HoldsAt-old refs name (some x) h = h

  pins :
      (t : RefTransition) (a : Admission) (refs : RefStoreRead) (old : Option Oid)
      (judged : RefStoreRead)
      → verify judged o fuel (update_of t) ≡ ok (pass a)
      → judged.get t.name ≡ ok old
      → HoldsAt refs t.name (cas_of old)
      → (a.refname ≡ t.name) × HoldsAt refs t.name a.cas
  pins t a refs old judged v same held =
      let (old', read, shape, _) = verify-Justified judged o fuel (update_of t) a v in
      let one : ok old' ≡ ok old = sym read ∙ same in
      let tip : old' ≡ old = cc one in
      let pin : a.cas ≡ cas_of old = ap (λ (x : Admission). x.cas) shape ∙ ap cas_of tip in
      (ap (λ (x : Admission). x.refname) shape, rw pin held)

  first_holds :
      {refs : RefStoreRead} {e : RefEdit} {es : List RefEdit}
      → AllHold refs (e ∷ es)
      → HoldsAt refs e.name e.expected × AllHold refs es
  first_holds (holds h hs) = (h, hs)

  pub all-Pinned :
      (refs : RefStoreRead) (i : ℕ) (ts : List RefTransition) (js : List Judged)
      → judge_all seen o fuel i ts ≡ ok js
      → AllHold refs (edits_of js)
      → Pinned seen o fuel refs i ts
  unfolding edits_of
  all-Pinned refs i [] js h hold = no_transition
  all-Pinned refs i (t ∷ ts) js h hold =
      let (j, rest, e, f, g) = judge_all-cons i t ts js h in
      let (old, read, v, edit) = judge-ok (seen.own i) (seen.judged i) t j e in
      let (now, later) = first_holds (rw g at hold) in
      let held = rw edit at now in
      pinned read v (HoldsAt-old refs t.name old held)
        (λ a p same. pins t a refs old (seen.judged i) (v ∙ ap ok p) same held)
        (all-Pinned refs (suc i) ts rest f later)
