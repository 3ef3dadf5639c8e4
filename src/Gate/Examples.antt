-- ===== src/Gate/Examples.antt =====
-- The gate's theorems at a small repository, and runs of `verify` on it.
use git_ents.Base.{
  codes, bytes_eq, starts_with, strip_prefix, split_once, Bool, true, ◌≤◌, ◌↔◌, inl, [], ◌∷◌,
  Option, none, some, ok, err, ◌≡◌, inr, refl, arith,
}
use git_ents.Graph.{weight, Reaches, here, step}
use git_ents.Model.Namespace.{Namespace, classify, inbox_owner, member_ref}
use git_ents.Substrate.Refs.{Oid}
use git_ents.Gate.Errors.{out_of_fuel}
use git_ents.Gate.Total.Reads.{HasFuel}
use git_ents.Gate.Object.{read_commit, all_roots, descends_from}
use git_ents.Gate.Object.Ancestry.{parents_of, HasHistory, walk_fuel, descends_from_iff}
use git_ents.Gate.Object.Roots.{is_root, FindsRoots, all_roots-FindsRoots}
use git_ents.Gate.Signature.{split_signed, verifies}
use git_ents.Gate.Verdict
use git_ents.Gate.Verdict.{Verdict, pass, fail, AdmissionKind, tip_invariant, Admission}
use git_ents.Gate.Policy.{members, current_epoch}
use git_ents.Gate.Binding.{
  final_segment, is_some_of, canonical_name, bind_hash_identified, bind_inbox, identity_binding,
}
use git_ents.Gate.Binding.Replay.{identity_binding-genesis, identity_binding-no_replay}
use git_ents.Gate.Binding.Depth.{KeepsText, identity_binding-inbox}
use git_ents.Gate.Authority.{authorize, find_signer, owner_mutation}
use git_ents.Gate.Authority.Rules.{MayWrite, authorize_iff, owner_mutation-authorized}
use git_ents.Gate.Verify.{verify, admit}
use git_ents.Gate.Verify.Steps.{admission}
use git_ents.Gate.Verify.Admitted.{TipInvariant, verify-TipInvariant}
use git_ents.Gate.Verify.Kinds.{Warrants, verify-Justified}
use git_ents.Gate.Verify.Enrollment.{SelfEnrollment, verify-SelfEnrollment}
use git_ents.Gate.Total.Verdicts.{verify-HasFuel}
use git_ents.Gate.Sample.{
  jo, jo_name, inbox_name, comment_name, objects, refs, empty_refs, advance, enrollment, issue_name,
  jo_enrolled, tip_commit,
}

advance_admitted : verify refs objects 10 advance ≡ ok (admit tip_invariant advance (some 1))
unfolding verify starts_with current_epoch bytes_eq split_signed members find_signer verifies
    authorize classify identity_binding bind_hash_identified all_roots owner_mutation descends_from
advance_admitted = refl

enrollment_admitted :
    verify empty_refs objects 10 enrollment ≡ ok (admit Verdict.bootstrap enrollment none)
unfolding verify starts_with current_epoch bytes_eq split_signed members classify verifies
    member_ref
enrollment_admitted = refl

has_epoch : current_epoch objects refs ≡ ok (some 5)
unfolding current_epoch bytes_eq
has_epoch = refl

enrolled_members : members objects.name_to_string refs ≡ ok (jo_enrolled ∷ [])
unfolding members
enrolled_members = refl

no_members_yet : members objects.name_to_string empty_refs ≡ ok []
unfolding members
no_members_yet = refl

epoch_before : current_epoch objects empty_refs ≡ ok (some 5)
unfolding current_epoch bytes_eq
epoch_before = refl

sample_history : HasHistory objects (2 ∷ [])
unfolding read_commit
sample_history = record { listed = λ x h. ground arith }

enough_fuel : walk_fuel objects (2 ∷ []) ≤ 10
unfolding weight read_commit
enough_fuel = omega arith

comment_is_comment : classify comment_name ≡ some Namespace.comment
unfolding classify
comment_is_comment = refl

comment_bound : identity_binding objects 10 2 tip_commit (codes "al") comment_name ≡ ok none
unfolding identity_binding bind_hash_identified all_roots classify
comment_bound = refl

verify-TipInvariant_example :
    TipInvariant refs objects 10 advance (admission tip_invariant advance (some 1))
unfolding starts_with
verify-TipInvariant_example =
    verify-TipInvariant refs objects 10 advance 5 jo_enrolled [] _ refl has_epoch enrolled_members
      advance_admitted

verify-SelfEnrollment_example :
    SelfEnrollment empty_refs objects enrollment (admission Verdict.bootstrap enrollment none)
unfolding starts_with
verify-SelfEnrollment_example =
    verify-SelfEnrollment empty_refs objects 10 enrollment 5 _ refl epoch_before no_members_yet
      enrollment_admitted

verify-Justified_example :
    (old : Option Oid) × (refs.get advance.name ≡ ok old)
    × (admission tip_invariant advance (some 1) ≡ admission tip_invariant advance old)
    × Warrants refs objects advance tip_invariant
verify-Justified_example = verify-Justified refs objects 10 advance _ advance_admitted

objects-KeepsText : KeepsText objects.name_to_string
objects-KeepsText = record { kept = λ name start rest h. refl }

verify-HasFuel_example : HasFuel (verify refs objects 10 advance)
verify-HasFuel_example =
    verify-HasFuel refs objects objects-KeepsText (2 ∷ []) 10 sample_history enough_fuel advance

descends_from_iff_example :
    (b : Bool) × (descends_from objects 10 2 1 ≡ ok b)
    × ((b ≡ true) ↔ Reaches (parents_of objects) 2 1)
descends_from_iff_example = descends_from_iff objects (2 ∷ []) 10 2 1 sample_history enough_fuel

all_roots-FindsRoots_example :
    FindsRoots objects 2 (all_roots objects 10 2) × ¬ (all_roots objects 10 2 ≡ err out_of_fuel)
all_roots-FindsRoots_example = all_roots-FindsRoots objects (2 ∷ []) 10 2 sample_history enough_fuel

issue_is_issue : classify issue_name ≡ some Namespace.issue
unfolding classify
issue_is_issue = refl

inbox_is_inbox : classify inbox_name ≡ some Namespace.inbox
unfolding classify
inbox_is_inbox = refl

jo_is_member : classify jo_name ≡ some Namespace.member
unfolding classify
jo_is_member = refl

issue_bound : identity_binding objects 10 2 tip_commit (codes "jo") issue_name ≡ ok none
unfolding identity_binding bind_hash_identified all_roots classify
issue_bound = refl

inbox_bound : identity_binding objects 10 2 tip_commit (codes "jo") inbox_name ≡ ok none
unfolding identity_binding bind_hash_identified all_roots classify bind_inbox inbox_owner
    canonical_name
inbox_bound = refl

inbox_owned : is_some_of (inbox_owner objects.name_to_string inbox_name) (codes "jo") ≡ true
unfolding inbox_owner bytes_eq
inbox_owned = refl

inbox_canonical : canonical_name objects inbox_name ≡ some issue_name
unfolding canonical_name strip_prefix split_once
inbox_canonical = refl

genesis_reached : Reaches (parents_of objects) 2 1
unfolding read_commit
genesis_reached = step refl (here _)

genesis_is_root : is_root objects 1 ≡ true
unfolding read_commit
genesis_is_root = refl

identity_binding-genesis_example :
    objects.oid_from_hex (final_segment objects.name_to_string issue_name) ≡ some 1
identity_binding-genesis_example =
    identity_binding-genesis objects (2 ∷ []) 10 sample_history enough_fuel 2 tip_commit
      (codes "jo") issue_name 1 (inl issue_is_issue) issue_bound genesis_reached genesis_is_root

identity_binding-no_replay_example :
    objects.oid_from_hex (final_segment objects.name_to_string issue_name)
    ≡ objects.oid_from_hex (final_segment objects.name_to_string comment_name)
identity_binding-no_replay_example =
    identity_binding-no_replay objects (2 ∷ []) 10 sample_history enough_fuel 2 tip_commit
      (codes "jo") (codes "al") issue_name comment_name (inl issue_is_issue)
      (inr comment_is_comment) issue_bound comment_bound

identity_binding-inbox_example :
    identity_binding objects 10 2 tip_commit (codes "jo") inbox_name
    ≡ identity_binding objects 10 2 tip_commit (codes "jo") issue_name
identity_binding-inbox_example =
    identity_binding-inbox objects objects-KeepsText 10 2 tip_commit (codes "jo") inbox_name
      issue_name inbox_is_inbox inbox_owned inbox_canonical

jo_authorized : authorize objects.name_to_string issue_name (codes "jo") jo ≡ none
unfolding authorize classify
jo_authorized = refl

authorize_iff_example :
    (authorize objects.name_to_string inbox_name (codes "jo") jo ≡ none)
    ↔ MayWrite Namespace.inbox inbox_name (codes "jo") jo
authorize_iff_example =
    authorize_iff objects.name_to_string inbox_name (codes "jo") jo Namespace.inbox inbox_is_inbox

owner_mutation-authorized_example :
    owner_mutation objects 10 issue_name (some 1) 2 (jo_enrolled ∷ []) (codes "jo") jo ≡ ok none
owner_mutation-authorized_example =
    owner_mutation-authorized objects 10 issue_name (some 1) 2 (jo_enrolled ∷ []) (codes "jo") jo
      (inl issue_is_issue) jo_authorized
