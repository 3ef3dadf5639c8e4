-- ===== src/Sync/Examples/Push.antt =====
-- Pushing on the small repository: commit 2 is pushed onto the issue at commit 1.
use git_ents.Base.{
  Bytes, codes, bytes_eq, starts_with, strip_prefix, split_once, true, Option, none, some, Result,
  ok, ◌≡◌, refl, arith, if◌then◌else◌, ◌==◌,
}
use git_ents.Model.Member.{MemberId}
use git_ents.Model.Namespace.{classify, segment_namespace, is_inbox, inbox_ref, build}
use git_ents.Substrate.Refs.{
  Oid, Expected, any, must_not_exist, must_exist_and_match, StoreError, RefStoreRead,
}
use git_ents.Gate.Object.{all_roots, descends_from}
use git_ents.Gate.Signature.{split_signed, verifies}
use git_ents.Gate.Policy.{members, current_epoch}
use git_ents.Gate.Binding.{bind_hash_identified, identity_binding}
use git_ents.Gate.Authority.{
  authorize, authorize_in, authority_refusal, find_signer, owner_mutation,
}
use git_ents.Gate.Verdict
use git_ents.Gate.Verdict.{tip_invariant, tip_signed, pass, fail}
use git_ents.Gate.Verify.{admit, verify}
use git_ents.Gate.Sample.{refs, issue_name}
use git_ents.Receive.Judgments.{HoldsAt}
use git_ents.Receive.Sample.{is_tip, is_held, compare_and_swap}
use git_ents.Sync.Types.{Db, at}
use git_ents.Sync.Objects.{
  find, links, decode_commit, decode_tree, copy_one, copy_loop, copy_closure,
}
use git_ents.Sync.Preflight.{PreFlight, is_pass, route_of, inbox_route, preflight}
use git_ents.Sync.Transfer.{Repository, advance}
use git_ents.Sync.Transfer.Push.{advanced, proposal, move, push}
use git_ents.Sync.Transfer.Judged.{Outcome, push-Outcome}
use git_ents.Sync.Transfer.Race.{Applies, push_overwrites}
use git_ents.Sync.Sample.{objects, objects_of, guest, git, db}
use git_ents.Sync.Examples.{others, compare_and_swap-IsCas}

abbrev author : MemberId
author = codes "jo"

-- The remote does not hold commit 2.
abbrev remote_db : Db
remote_db x = if x == 2 then ok none else db x

abbrev remote : Repository
remote = record { refs = refs; db = remote_db }

abbrev judged_objects : Db
judged_objects = (copy_closure objects git 20 2 remote_db).1

copied : (copy_closure objects git 20 2 remote_db).0 ≡ ok tt
unfolding copy_closure copy_loop copy_one find links decode_commit decode_tree bytes_eq
copied = refl

abbrev passed : PreFlight
passed = record { verdict = admit tip_invariant (proposal issue_name 2) (some 1); inbox = none }

admitted : preflight refs (at objects judged_objects) 20 (proposal issue_name 2) author ≡ ok passed
unfolding preflight route_of verify starts_with current_epoch bytes_eq split_signed members
    find_signer verifies authorize classify identity_binding bind_hash_identified all_roots
    owner_mutation descends_from copy_closure copy_loop copy_one find links decode_commit
    decode_tree
admitted = refl

abbrev pushed : Repository
pushed = (push git compare_and_swap objects others others 20 remote issue_name 2 author).1

pushed_issue :
    push git compare_and_swap objects others others 20 remote issue_name 2 author
    ≡ (ok (advanced issue_name), pushed)
unfolding push move advance preflight is_pass Verdict.is_pass route_of verify starts_with
    current_epoch bytes_eq split_signed members find_signer verifies authorize classify
    identity_binding bind_hash_identified all_roots owner_mutation descends_from copy_closure
    copy_loop copy_one find links decode_commit decode_tree
pushed_issue = refl

push-Outcome_example :
    Outcome objects others others 20 issue_name 2 author remote pushed (advanced issue_name)
push-Outcome_example =
    push-Outcome git compare_and_swap compare_and_swap-IsCas objects others others 20 issue_name 2
      author remote pushed (advanced issue_name) pushed_issue

get-is_tip : (r : Result StoreError (Option Oid)) (o : Option Oid) → r ≡ ok o → is_tip r o ≡ true
get-is_tip r none h = rw h refl
get-is_tip r (some x) h = rw h (ground arith)

holds-is_held :
    (store : RefStoreRead) (name : Bytes) (expected : Expected) (new : Option Oid)
    → HoldsAt store name expected
    → is_held store (record { name = name; expected = expected; new = new }) ≡ true
holds-is_held store name any new h = refl
holds-is_held store name must_not_exist new h = get-is_tip (store.get name) none h
holds-is_held store name (must_exist_and_match x) new h = get-is_tip (store.get name) (some x) h

compare_and_swap-Applies : Applies compare_and_swap
compare_and_swap-Applies refs e h =
    let k = holds-is_held refs e.name e.expected e.new h in rw k refl

-- Meanwhile another writer moves the issue to commit 20, which commit 2 does not descend from.
abbrev moved : RefStoreRead → RefStoreRead
moved store = record {
  get = λ name. if bytes_eq name issue_name then ok (some 20) else store.get name;
  iter_prefix = store.iter_prefix;
}

other_tip : (moved refs).get issue_name ≡ ok (some 20)
unfolding bytes_eq
other_tip = refl

passes : is_pass passed ≡ true
unfolding is_pass Verdict.is_pass
passes = refl

push_overwrites_example :
    ((push git compare_and_swap objects moved others 20 remote issue_name 2 author).0
      ≡ ok (advanced issue_name))
    × ((push git compare_and_swap objects moved others 20 remote issue_name 2 author).1.refs.get
          issue_name
        ≡ ok (some 2))
push_overwrites_example =
    push_overwrites git compare_and_swap objects moved 20 remote issue_name 2 author passed
      (some 20) compare_and_swap-IsCas compare_and_swap-Applies copied admitted passes other_tip

-- The same push by a member who was not promoted is routed to that member's inbox.
abbrev routed : Bytes
routed = codes "refs/meta/inbox/jo/issues/01"

abbrev refused_push : PreFlight
refused_push = record {
  verdict = fail (record {
    requirement = tip_signed;
    refname = issue_name;
    detail = Verdict.not_promoted;
    inbox_alternative = true;
  });
  inbox = some routed;
}

not_promoted : preflight refs (objects_of guest) 20 (proposal issue_name 2) author ≡ ok refused_push
unfolding preflight route_of inbox_route is_inbox inbox_ref build strip_prefix verify starts_with
    current_epoch bytes_eq split_signed members find_signer verifies authorize authorize_in
    authority_refusal classify segment_namespace split_once
not_promoted = refl
