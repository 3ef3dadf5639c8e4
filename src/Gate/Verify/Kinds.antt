-- ===== src/Gate/Verify/Kinds.antt =====
-- Which kind of admission `verify` gives, and what it rests on, for every update
-- (crates/kernel/ents-gate/src/verify.rs).
use git_ents.Base.{
  ℕ, Bytes, codes, bytes_eq_sound, starts_with, true, false, List, [], ◌∷◌, ◌++◌, Option, none,
  some, ok, ◌≡◌, sym, ap, subst, ◌∙◌, arith, Option-cases, Bool-cases, inl, inr, ◌⊎◌,
}
use git_ents.Model.Member.{MemberId, Member}
use git_ents.Model.Namespace.{member_ref}
use git_ents.Substrate.Refs.{Oid, RefStoreRead}
use git_ents.Substrate.Objects.{Objects}
use git_ents.Gate.Errors.{Gate-cases, Store-cases}
use git_ents.Gate.Object.{CommitData}
use git_ents.Gate.Signature.{verifies}
use git_ents.Gate.Policy.{Enrolled, members, current_epoch}
use git_ents.Gate.Verdict
use git_ents.Gate.Verdict.{
  Detail, fast_forward, AdmissionKind, tip_invariant, pre_epoch, code_ref, Verdict, pass, fail,
  Admission,
}
use git_ents.Gate.Authority.{find_signer}
use git_ents.Gate.Verify.{
  Update, refusal, meta_prefix, names_member, bootstrap, judge_signer, judge_meta, sets_epoch,
  verify,
}
use git_ents.Gate.Verify.Steps.{
  admission, DescendsOk, fast_forwards-pass, judge_member-pass, judge_signer-pass,
  judge_signed-pass, judge_meta-pass,
}

module _ (refs : RefStoreRead) (o : Objects) (fuel : ℕ) where
  names_member_sound :
      (id : MemberId) (name : Bytes)
      → names_member (member_ref o.valid_ref id) name ≡ true
      → name ≡ codes "refs/meta/member/" ++ id
  unfolding member_ref
  names_member_sound id name h = elim (Bool-cases (o.valid_ref (codes "refs/meta/member/" ++ id))) [
    | inl v ↦ sym (bytes_eq_sound (codes "refs/meta/member/" ++ id) name (ground arith))
    | inr v ↦ ground arith
  ]

  pub bootstrap-pass :
      (update : Update) (new : Oid) (commit : CommitData) (payload sig : Bytes) (old : Option Oid)
      {a : Admission}
      → bootstrap refs o fuel update new commit payload sig old ≡ ok (pass a)
      → (pushed : Member) × (o.member_from_tree commit.tree ≡ some pushed)
        × (verifies o pushed.key payload sig ≡ true)
        × (update.name ≡ codes "refs/meta/member/" ++ pushed.id)
        × (a ≡ admission Verdict.bootstrap update old)
        × DescendsOk o fuel new old
  unfolding bootstrap
  bootstrap-pass update new commit payload sig old {a} h =
      elim (Option-cases (o.member_from_tree commit.tree)) [
        | inl e ↦ ground arith
        | inr (pushed, e) ↦
            let v : verifies o pushed.key payload sig ≡ true = ground arith in
            let n : names_member (member_ref o.valid_ref pushed.id) update.name ≡ true =
              ground arith in
            let (same, down) =
              fast_forwards-pass refs o fuel update old new (admission Verdict.bootstrap update old)
                (refusal fast_forward Detail.stale_enrollment update) (ground arith) in
            (pushed, e, v, names_member_sound pushed.id update.name n, same, down)
      ]

-- What each kind of admission of an update rests on.
abbrev pub Warrants : RefStoreRead → Objects → Update → AdmissionKind → Type 0
Warrants refs o update code_ref = starts_with meta_prefix update.name ≡ false
Warrants refs o update pre_epoch =
    (starts_with meta_prefix update.name ≡ true)
    × (current_epoch o refs ≡ ok none)
    × (sets_epoch o update ≡ false)
Warrants refs o update Verdict.bootstrap =
    (starts_with meta_prefix update.name ≡ true) × (members o.name_to_string refs ≡ ok [])
Warrants refs o update tip_invariant =
    (starts_with meta_prefix update.name ≡ true)
    × (first : Enrolled) × (rest : List Enrolled) × (members o.name_to_string refs
        ≡ ok (first ∷ rest))

module _ (refs : RefStoreRead) (o : Objects) (update : Update) (old : Option Oid) where
  -- The admission pins what the judgment read, and its kind is warranted.
  abbrev Justified : Admission → Type 0
  Justified a = (a ≡ admission a.kind update old) × Warrants refs o update a.kind

  justify :
      (kind : AdmissionKind) (a : Admission)
      → a ≡ admission kind update old
      → Warrants refs o update kind
      → Justified a
  justify kind a same w =
      subst (λ k. (a ≡ admission k update old) × Warrants refs o update k)
        (sym (ap (λ (x : Admission). x.kind) same)) (same, w)

module _ (refs : RefStoreRead) (o : Objects) (fuel : ℕ) where
  pub nobody_signs :
      (update : Update) (old : Option Oid) (new : Oid) (commit : CommitData) (payload sig : Bytes)
      (signer : Option (MemberId × Member)) {a : Admission}
      → find_signer o [] payload sig ≡ ok signer
      → ¬ (judge_signer refs o fuel update old new commit [] signer ≡ ok (pass a))
  unfolding find_signer judge_signer
  nobody_signs update old new commit payload sig none f j = cc
  nobody_signs update old new commit payload sig (some s) f j = cc

  judged-Warrants :
      (update : Update) (old : Option Oid) (a : Admission)
      → starts_with meta_prefix update.name ≡ true
      → judge_meta refs o fuel update old ≡ ok (pass a)
      → Justified refs o update old a
  judged-Warrants update old a m h =
      let (new, commit, payload, sig, _, _, _, j) = judge_meta-pass refs o fuel update old h in
      by_policy new commit payload sig
        (judge_signed-pass refs o fuel update old new commit payload sig j)
    where
      by_policy :
          (new : Oid) (commit : CommitData) (payload sig : Bytes)
          → ((enrolled : List Enrolled) × (members o.name_to_string refs ≡ ok enrolled)
              × (((enrolled ≡ [])
                    × (bootstrap refs o fuel update new commit payload sig old ≡ ok (pass a)))
                  ⊎ ((signer : Option (MemberId × Member)) × (find_signer o enrolled payload sig
                        ≡ ok signer)
                      × (judge_signer refs o fuel update old new commit enrolled signer
                          ≡ ok (pass a)))))
          → Justified refs o update old a
      by_policy new commit payload sig (enrolled, e, inl (nobody, b)) =
          let (_, _, _, _, same, _) =
            bootstrap-pass refs o fuel update new commit payload sig old b in
          justify refs o update old Verdict.bootstrap a same (m, e ∙ ap ok nobody)
      by_policy new commit payload sig ([], e, inr (signer, f, j)) =
          absurd (nobody_signs update old new commit payload sig signer f j)
      by_policy new commit payload sig (first ∷ rest, e, inr (signer, f, j)) =
          let (id, member, _, _, k) =
            judge_signer-pass refs o fuel update old new commit (first ∷ rest) signer j in
          let (_, _, _, same, _) =
            judge_member-pass refs o fuel update old new commit (first ∷ rest) id member k in
          justify refs o update old tip_invariant a same (m, first, rest, e)

  -- Every admission, of whatever kind, carries the update's refname and pins the tip that the
  -- judgment read, and each kind has its warrant: a code ref only outside refs/meta/; pre-epoch only
  -- while no epoch is recorded and the update records none; bootstrap only while nobody is enrolled;
  -- the tip invariant only when somebody is.
  pub verify-Justified :
      (update : Update) (a : Admission)
      → verify refs o fuel update ≡ ok (pass a)
      → (old : Option Oid) × (refs.get update.name ≡ ok old)
        × (a ≡ admission a.kind update old)
        × Warrants refs o update a.kind
  unfolding verify
  verify-Justified update a h = elim (Store-cases (refs.get update.name)) [
    | inr (x, e) ↦ ground arith
    | inl (old, e) ↦ elim (Bool-cases (starts_with meta_prefix update.name)) [
      | inr m ↦
          let (same, w) = justify refs o update old code_ref a (ground arith) m in (old, e, same, w)
      | inl m ↦ elim (Gate-cases (current_epoch o refs)) [
        | inr (x, f) ↦ ground arith
        | inl (some epoch, f) ↦
            let (same, w) = judged-Warrants update old a m (ground arith) in (old, e, same, w)
        | inl (none, f) ↦ elim (Bool-cases (sets_epoch o update)) [
          | inl t ↦
              let (same, w) = judged-Warrants update old a m (ground arith) in (old, e, same, w)
          | inr t ↦
              let (same, w) = justify refs o update old pre_epoch a (ground arith) (m, f, t) in
              (old, e, same, w)
        ]
      ]
    ]
  ]
