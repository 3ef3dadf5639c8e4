-- ===== src/Gate/Verify.antt =====
-- `verify` (crates/kernel/ents-gate/src/verify.rs), the judgment of one proposed update against a
-- snapshot of the refs and the objects. Each function goes on where the one below it hands over.
pub mod Steps
pub mod Admitted
pub mod Kinds
pub mod Enrollment
use git_ents.Base.{
  ℕ, Bytes, codes, bytes_eq, starts_with, Bool, true, false, ◌&&◌, List, [], ◌∷◌, Option, none,
  some, Result, ok, err, ◌>>=◌, if◌then◌else◌,
}
use git_ents.Model.Member.{MemberId, Member, active, revoked}
use git_ents.Model.Namespace.{Namespace, classify, member_ref, config_ref}
use git_ents.Substrate.Refs.{Oid, Expected, must_not_exist, must_exist_and_match, RefStoreRead}
use git_ents.Substrate.Objects.{Objects}
use git_ents.Gate.Errors.{Gate, from_store}
use git_ents.Gate.Object.{CommitData, read_commit, descends_from}
use git_ents.Gate.Signature.{split_signed, verifies}
use git_ents.Gate.Policy.{Enrolled, members, current_epoch, epoch_at_commit}
use git_ents.Gate.Verdict.{
  Requirement, tip_signed, fast_forward, AdmissionKind, tip_invariant, pre_epoch, code_ref, Detail,
  Refusal, Verdict, pass, fail, Admission,
}
use git_ents.Gate.Verdict
use git_ents.Gate.Binding.{identity_binding}
use git_ents.Gate.Authority.{authorize, find_signer, owner_mutation}

pub record Update : Type 0 where
  pub name : Bytes
  pub new : Option Oid

abbrev pub meta_prefix : Bytes
meta_prefix = codes "refs/meta/"

-- The precondition that pins the tip which the judgment saw.
abbrev pub cas_of : Option Oid → Expected
cas_of none = must_not_exist
cas_of (some old) = must_exist_and_match old

abbrev pub admit : AdmissionKind → Update → Option Oid → Verdict
admit kind update old = pass (record { kind = kind; refname = update.name; cas = cas_of old })

abbrev pub refusal : Requirement → Detail → Update → Refusal
refusal requirement detail update = record {
  requirement = requirement;
  refname = update.name;
  detail = detail;
  inbox_alternative = false;
}

abbrev pub refuse : Requirement → Detail → Update → Verdict
refuse requirement detail update = fail (refusal requirement detail update)

abbrev pub is_revoked : Member → Bool
is_revoked member = elim member.state [ active ↦ false | revoked ↦ true ]

abbrev pub is_member : Option Namespace → Bool
is_member (some Namespace.member) = true
is_member _ = false

-- `namespace::member_ref(&pushed.id).ok()` is the refname.
abbrev pub names_member : {E : Type 0} → Result E Bytes → Bytes → Bool
names_member (ok bound) name = bytes_eq bound name
names_member (err _) name = false

abbrev pub epoch_recorded : {E : Type 0} → Result E (Option ℕ) → Bool
epoch_recorded (ok (some _)) = true
epoch_recorded _ = false

-- The update records the first epoch in refs/meta/config.
unfoldable pub sets_epoch : Objects → Update → Bool
sets_epoch o update =
    bytes_eq update.name config_ref
    && elim update.new [ none ↦ false | some new ↦ epoch_recorded (epoch_at_commit o new) ]

module _ (refs : RefStoreRead) (o : Objects) (fuel : ℕ) where
  -- The last guard of `verify` and of `bootstrap`.
  unfoldable pub fast_forwards : Update → Option Oid → Oid → Verdict → Verdict → Gate Verdict
  fast_forwards update none new admitted refused = ok admitted
  fast_forwards update (some old) new admitted refused = do
    descends ← descends_from o fuel new old
    ok (if descends then admitted else refused)

  unfoldable pub bootstrap : Update → Oid → CommitData → Bytes → Bytes → Option Oid → Gate Verdict
  unfolding fast_forwards
  bootstrap update new commit payload sig old =
      if is_member (classify update.name)
      then elim (o.member_from_tree commit.tree) [
        | none ↦ ok (refuse tip_signed Detail.unreadable_enrollment update)
        | some pushed ↦
            if verifies o pushed.key payload sig
            then (if names_member (member_ref o.valid_ref pushed.id) update.name
                then fast_forwards update old new (admit Verdict.bootstrap update old)
                    (refuse fast_forward Detail.stale_enrollment update)
                else ok (refuse Verdict.identity_binding Detail.misnamed_enrollment update))
            else ok (refuse tip_signed Detail.foreign_enrollment update)
      ]
      else ok (refuse tip_signed Detail.no_members update)

  -- The judgment of a tip whose signer is an enrolled member with an active key.
  unfoldable pub judge_member :
      Update → Option Oid → Oid → CommitData → List Enrolled → MemberId → Member → Gate Verdict
  unfolding fast_forwards
  judge_member update old new commit enrolled id member =
      elim (authorize o.name_to_string update.name id member) [
        | some refusal ↦ ok (fail refusal)
        | none ↦ do
          bound ← identity_binding o fuel new commit id update.name
          elim bound [
            | some refusal ↦ ok (fail refusal)
            | none ↦ do
              owned ← owner_mutation o fuel update.name old new enrolled id member
              elim owned [
                | some refusal ↦ ok (fail refusal)
                | none ↦
                    fast_forwards update old new (admit tip_invariant update old)
                      (refuse fast_forward Detail.not_descending update)
              ]
          ]
      ]

  unfoldable pub judge_signer :
      Update
      → Option Oid
      → Oid
      → CommitData
      → List Enrolled
      → Option (MemberId × Member)
      → Gate Verdict
  unfolding judge_member
  judge_signer update old new commit enrolled none =
      ok (refuse tip_signed Detail.unknown_signer update)
  judge_signer update old new commit enrolled (some (id, member)) =
      if is_revoked member
      then ok (refuse tip_signed Detail.revoked_signer update)
      else judge_member update old new commit enrolled id member

  unfoldable pub judge_signed :
      Update → Option Oid → Oid → CommitData → Bytes → Bytes → Gate Verdict
  unfolding judge_signer bootstrap
  judge_signed update old new commit payload sig = do
    enrolled ← members o.name_to_string refs
    elim enrolled [
      | [] ↦ bootstrap update new commit payload sig old
      | first ∷ rest ↦ do
        signer ← find_signer o (first ∷ rest) payload sig
        judge_signer update old new commit (first ∷ rest) signer
    ]

  -- From the check for a deletion on.
  unfoldable pub judge_meta : Update → Option Oid → Gate Verdict
  unfolding judge_signed
  judge_meta update old = elim update.new [
    | none ↦ ok (refuse fast_forward Detail.deletion update)
    | some new ↦ do
      found ← read_commit o new
      elim found [
        | none ↦ ok (refuse tip_signed Detail.not_a_commit update)
        | some commit ↦ elim (split_signed o commit.raw) [
          | none ↦ ok (refuse tip_signed Detail.unsigned update)
          | some (payload, sig) ↦ judge_signed update old new commit payload sig
        ]
      ]
  ]

  unfoldable pub verify : Update → Gate Verdict
  unfolding judge_meta sets_epoch
  verify update = do
    old ← from_store (refs.get update.name)
    if starts_with meta_prefix update.name
        then (do
          epoch ← current_epoch o refs
          elim epoch [
            | some _ ↦ judge_meta update old
            | none ↦
                if sets_epoch o update
                then judge_meta update old
                else ok (admit pre_epoch update old)
          ])
        else ok (admit code_ref update old)
