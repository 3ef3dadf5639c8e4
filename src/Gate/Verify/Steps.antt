-- ===== src/Gate/Verify/Steps.antt =====
-- What each part of `verify` (crates/kernel/ents-gate/src/verify.rs) has found when the
-- verdict is an admission.
use git_ents.Base.{
  ℕ, Bytes, starts_with, true, List, [], ◌∷◌, Option, none, some, ok, ◌≡◌, refl, arith,
  Option-cases, inl, inr, ◌⊎◌,
}
use git_ents.Model.Member.{MemberId, Member, active}
use git_ents.Substrate.Refs.{Oid, RefStoreRead}
use git_ents.Substrate.Objects.{Objects}
use git_ents.Gate.Errors.{Store-cases, Gate-cases}
use git_ents.Gate.Object.{CommitData, read_commit, descends_from}
use git_ents.Gate.Signature.{split_signed}
use git_ents.Gate.Policy.{Enrolled, members, current_epoch}
use git_ents.Gate.Verdict.{AdmissionKind, tip_invariant, pass, fail, Admission, Refusal}
use git_ents.Gate.Binding.{identity_binding}
use git_ents.Gate.Authority.{authorize, find_signer, owner_mutation}
use git_ents.Gate.Verify.{
  Update, meta_prefix, cas_of, fast_forwards, bootstrap, judge_member, judge_signer, judge_signed,
  judge_meta, verify,
}

abbrev pub admission : AdmissionKind → Update → Option Oid → Admission
admission kind update old = record { kind = kind; refname = update.name; cas = cas_of old }

-- The new tip descends from the old one, if there is one.
abbrev pub DescendsOk : Objects → ℕ → Oid → Option Oid → Type 0
DescendsOk o fuel new none = Unit
DescendsOk o fuel new (some old) = descends_from o fuel new old ≡ ok true

module _ (refs : RefStoreRead) (o : Objects) (fuel : ℕ) where
  pub fast_forwards-pass :
      (update : Update) (old : Option Oid) (new : Oid) (v : Admission) (r : Refusal) {a : Admission}
      → fast_forwards refs o fuel update old new (pass v) (fail r) ≡ ok (pass a)
      → (a ≡ v) × DescendsOk o fuel new old
  unfolding fast_forwards
  fast_forwards-pass update none new v r h = ground arith
  fast_forwards-pass update (some old) new v r h = ground arith

  pub judge_member-pass :
      (update : Update) (old : Option Oid) (new : Oid) (commit : CommitData)
      (enrolled : List Enrolled) (id : MemberId) (member : Member) {a : Admission}
      → judge_member refs o fuel update old new commit enrolled id member ≡ ok (pass a)
      → (authorize o.name_to_string update.name id member ≡ none)
        × (identity_binding o fuel new commit id update.name ≡ ok none)
        × (owner_mutation o fuel update.name old new enrolled id member ≡ ok none)
        × (a ≡ admission tip_invariant update old)
        × DescendsOk o fuel new old
  unfolding judge_member
  judge_member-pass update old new commit enrolled id member h = ground arith

  pub judge_signer-pass :
      (update : Update) (old : Option Oid) (new : Oid) (commit : CommitData)
      (enrolled : List Enrolled) (signer : Option (MemberId × Member)) {a : Admission}
      → judge_signer refs o fuel update old new commit enrolled signer ≡ ok (pass a)
      → (id : MemberId) × (member : Member) × (signer ≡ some (id, member))
        × (member.state ≡ active)
        × (judge_member refs o fuel update old new commit enrolled id member ≡ ok (pass a))
  unfolding judge_signer
  judge_signer-pass update old new commit enrolled none h = cc
  judge_signer-pass update old new commit enrolled (some (id, member)) h =
      (id, member, refl, ground arith, ground arith)

  pub judge_signed-pass :
      (update : Update) (old : Option Oid) (new : Oid) (commit : CommitData) (payload sig : Bytes)
      {a : Admission}
      → judge_signed refs o fuel update old new commit payload sig ≡ ok (pass a)
      → (enrolled : List Enrolled) × (members o.name_to_string refs ≡ ok enrolled)
        × (((enrolled ≡ [])
              × (bootstrap refs o fuel update new commit payload sig old ≡ ok (pass a)))
            ⊎ ((signer : Option (MemberId × Member)) × (find_signer o enrolled payload sig
                  ≡ ok signer)
                × (judge_signer refs o fuel update old new commit enrolled signer ≡ ok (pass a))))
  unfolding judge_signed
  judge_signed-pass update old new commit payload sig {a} h =
      elim (Gate-cases (members o.name_to_string refs)) [
        | inl ([], e) ↦ ([], e, inl (refl, ground arith))
        | inl (first ∷ rest, e) ↦ elim (Gate-cases (find_signer o (first ∷ rest) payload sig)) [
          | inl (signer, f) ↦ (first ∷ rest, e, inr (signer, f, ground arith))
          | inr (x, f) ↦ ground arith
        ]
        | inr (x, e) ↦ ground arith
      ]

  pub judge_meta-pass :
      (update : Update) (old : Option Oid) {a : Admission}
      → judge_meta refs o fuel update old ≡ ok (pass a)
      → (new : Oid) × (commit : CommitData) × (payload : Bytes) × (sig : Bytes) × (update.new
          ≡ some new)
        × (read_commit o new ≡ ok (some commit))
        × (split_signed o commit.raw ≡ some (payload, sig))
        × (judge_signed refs o fuel update old new commit payload sig ≡ ok (pass a))
  unfolding judge_meta
  judge_meta-pass update old h = elim (Option-cases update.new) [
    | inl e ↦ ground arith
    | inr (new, e) ↦ elim (Gate-cases (read_commit o new)) [
      | inl (none, f) ↦ ground arith
      | inl (some commit, f) ↦ elim (Option-cases (split_signed o commit.raw)) [
        | inl g ↦ ground arith
        | inr (signed, g) ↦ (new, commit, signed.0, signed.1, e, f, g, ground arith)
      ]
      | inr (x, f) ↦ ground arith
    ]
  ]

  -- The pushes that `verify` judges by the tip invariant or by the bootstrap rule.
  pub verify-pass :
      (update : Update) (epoch : ℕ) {a : Admission}
      → starts_with meta_prefix update.name ≡ true
      → current_epoch o refs ≡ ok (some epoch)
      → verify refs o fuel update ≡ ok (pass a)
      → (old : Option Oid) × (refs.get update.name ≡ ok old)
        × (judge_meta refs o fuel update old ≡ ok (pass a))
  unfolding verify
  verify-pass update epoch m e h = elim (Store-cases (refs.get update.name)) [
    | inl (old, g) ↦ (old, g, ground arith)
    | inr (x, g) ↦ ground arith
  ]
