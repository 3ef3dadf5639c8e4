-- ===== src/Gate/Total/Verdicts.antt =====
-- `verify` runs out of fuel on no update.
use git_ents.Base.{ℕ, ◌≤◌, Bytes, List, [], ◌∷◌, Option, none, some, arith, Option-cases, inl, inr}
use git_ents.Model.Member.{MemberId, Member}
use git_ents.Substrate.Refs.{Oid, RefStoreRead}
use git_ents.Substrate.Objects.{Objects}
use git_ents.Gate.Errors.{Gate-cases, Store-cases}
use git_ents.Gate.Object.{CommitData, read_commit}
use git_ents.Gate.Object.Ancestry.{HasHistory, walk_fuel}
use git_ents.Gate.Signature.{split_signed}
use git_ents.Gate.Verdict
use git_ents.Gate.Verdict.{Verdict, Detail, fast_forward, tip_invariant}
use git_ents.Gate.Policy.{Enrolled, members}
use git_ents.Gate.Verify.{
  Update, admit, refuse, is_revoked, fast_forwards, bootstrap, judge_member, judge_signer,
  judge_signed, judge_meta, verify,
}
use git_ents.Gate.Total.Reads.{
  HasFuel, HasFuel-bind, HasFuel-ok, HasFuel-if, read_commit-HasFuel, members-HasFuel,
  find_signer-HasFuel, current_epoch-HasFuel, descends_from-HasFuel,
}
use git_ents.Gate.Binding.Depth.{KeepsText}
use git_ents.Gate.Total.Bindings.{identity_binding-HasFuel, owner_mutation-HasFuel}

module _ (refs : RefStoreRead) (o : Objects) (text : KeepsText o.name_to_string)
    (history : List Oid) (fuel : ℕ) (h : HasHistory o history)
    (enough : walk_fuel o history ≤ fuel) where
  fast_forwards-HasFuel :
      (update : Update) (old : Option Oid) (new : Oid) (v w : Verdict)
      → HasFuel (fast_forwards refs o fuel update old new v w)
  unfolding fast_forwards
  fast_forwards-HasFuel update none new v w p = cc
  fast_forwards-HasFuel update (some old) new v w p =
      ground (arith, descends_from-HasFuel o history fuel h enough new old)

  bootstrap-HasFuel :
      (update : Update) (new : Oid) (commit : CommitData) (payload sig : Bytes) (old : Option Oid)
      → HasFuel (bootstrap refs o fuel update new commit payload sig old)
  unfolding bootstrap
  bootstrap-HasFuel update new commit payload sig old p = ground (
    arith,
    fast_forwards-HasFuel update old new (admit Verdict.bootstrap update old)
        (refuse fast_forward Detail.stale_enrollment update),
  )

  judge_member-HasFuel :
      (update : Update) (old : Option Oid) (new : Oid) (commit : CommitData)
      (enrolled : List Enrolled) (id : MemberId) (member : Member)
      → HasFuel (judge_member refs o fuel update old new commit enrolled id member)
  unfolding judge_member
  judge_member-HasFuel update old new commit enrolled id member p = ground (
    arith,
    identity_binding-HasFuel o text history fuel h enough new commit id update.name,
    owner_mutation-HasFuel o text history fuel h enough update.name old new enrolled id member,
    fast_forwards-HasFuel update old new (admit tip_invariant update old)
        (refuse fast_forward Detail.not_descending update),
  )

  judge_signer-HasFuel :
      (update : Update) (old : Option Oid) (new : Oid) (commit : CommitData)
      (enrolled : List Enrolled) (signer : Option (MemberId × Member))
      → HasFuel (judge_signer refs o fuel update old new commit enrolled signer)
  unfolding judge_signer
  judge_signer-HasFuel update old new commit enrolled none = HasFuel-ok _
  judge_signer-HasFuel update old new commit enrolled (some (id, member)) =
      HasFuel-if (is_revoked member) _ _ (HasFuel-ok _)
        (judge_member-HasFuel update old new commit enrolled id member)

  judge_signed-HasFuel :
      (update : Update) (old : Option Oid) (new : Oid) (commit : CommitData) (payload sig : Bytes)
      → HasFuel (judge_signed refs o fuel update old new commit payload sig)
  unfolding judge_signed
  judge_signed-HasFuel update old new commit payload sig =
      HasFuel-bind (members o.name_to_string refs) _ (members-HasFuel o refs) (elim [
        | [] ↦ bootstrap-HasFuel update new commit payload sig old
        | first ∷ rest ↦
            HasFuel-bind _ _ (find_signer-HasFuel o (first ∷ rest) payload sig)
              (judge_signer-HasFuel update old new commit (first ∷ rest))
      ])

  judge_meta-HasFuel :
      (update : Update) (old : Option Oid) → HasFuel (judge_meta refs o fuel update old)
  unfolding judge_meta
  judge_meta-HasFuel update old p = elim (Option-cases update.new) [
    | inl e ↦ ground arith
    | inr (new, e) ↦ elim (Gate-cases (read_commit o new)) [
      | inr (x, f) ↦ ground (arith, read_commit-HasFuel o new)
      | inl (none, f) ↦ ground arith
      | inl (some commit, f) ↦ elim (Option-cases (split_signed o commit.raw)) [
        | inl g ↦ ground arith
        | inr (s, g) ↦ ground (arith, judge_signed-HasFuel update old new commit s.0 s.1)
      ]
    ]
  ]

  -- In a store with finitely many commits that have parents, with fuel for each of those parents,
  -- and where `BStr::to_string` leaves text as it is, `verify` returns a verdict or an error of a
  -- store for every update: it does not run out of fuel.
  pub verify-HasFuel : (update : Update) → HasFuel (verify refs o fuel update)
  unfolding verify
  verify-HasFuel update p = elim (Store-cases (refs.get update.name)) [
    | inr (x, e) ↦ ground arith
    | inl (old, e) ↦ ground (arith, current_epoch-HasFuel o refs, judge_meta-HasFuel update old)
  ]
