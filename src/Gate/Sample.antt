-- ===== src/Gate/Sample.antt =====
-- A small repository for the tests: a config with an epoch, one admin member `jo`, and an issue with
-- two commits. Object 1 is the issue's genesis, 2 the proposed tip, 20 the member, 30 the config; a
-- commit's raw bytes begin with its number.
use git_ents.Base.{
  ℕ, Bytes, codes, bytes_eq, Bool, true, List, [], ◌∷◌, ◌++◌, Option, none, some, ok, ◌==◌,
  if◌then◌else◌,
}
use git_ents.Model.Member.{Member, active, admin_registered}
use git_ents.Model.Namespace.{config_ref}
use git_ents.Substrate.Refs.{Oid, RefStoreRead}
use git_ents.Substrate.Objects.{Kind, Objects}
use git_ents.Gate.Object.{CommitData}
use git_ents.Gate.Policy.{Enrolled}
use git_ents.Gate.Verify.{Update}

abbrev pub jo : Member
jo = record { id = codes "jo"; key = codes "key"; state = active; provenance = admin_registered }

abbrev pub raw_commit : ℕ → Bytes
raw_commit n = n ∷ 10 ∷ (codes "gpgsig sig" ++ 10 ∷ 10 ∷ codes "m")

abbrev pub is_known : Oid → Bool
is_known x = if x == 1 then true else if x == 2 then true else if x == 20 then true else x == 30

abbrev pub commit_parts : Bytes → Option (Oid × List Oid)
commit_parts [] = none
commit_parts (n ∷ _) =
    if n == 1
    then some (101, [])
    else if n == 2
    then some (101, 1 ∷ [])
    else if n == 20
    then some (110, [])
    else some (111, [])

abbrev pub objects : Objects
objects = record {
  try_find = λ x.
      if is_known x
      then ok (some (record { kind = Kind.commit; bytes = raw_commit x }))
      else ok none;
  commit_from_bytes = commit_parts;
  tree_from_bytes = λ _. some [];
  from_utf8 = λ b. some b;
  from_utf8_lossy = λ b. b;
  name_to_string = λ b. b;
  oid_from_hex = λ b. if bytes_eq b (codes "01") then some 1 else none;
  oid_from_bytes = λ _. 1;
  oid_to_string = λ _. codes "01";
  valid_ref = λ _. true;
  member_from_tree = λ t. if t == 110 then some jo else none;
  config_from_tree = λ t. if t == 111 then some (record { epoch = some 5 }) else none;
  result_decodes = λ _. true;
  claim_decodes = λ _. true;
  key_from_openssh = λ _. some 0;
  sig_from_pem = λ _. some 0;
  key_verify = λ _ _ _ _. true;
}

abbrev pub issue_name : Bytes
issue_name = codes "refs/meta/issues/01"

abbrev pub inbox_name : Bytes
inbox_name = codes "refs/meta/inbox/jo/issues/01"

abbrev pub comment_name : Bytes
comment_name = codes "refs/meta/comments/01"

abbrev pub jo_name : Bytes
jo_name = codes "refs/meta/member/jo"

abbrev pub tip_of : Bytes → Option Oid
tip_of name =
    if bytes_eq name config_ref then some 30 else if bytes_eq name issue_name then some 1 else none

-- The refs once `jo` is enrolled, and before.
abbrev pub refs : RefStoreRead
refs = record { get = λ name. ok (tip_of name); iter_prefix = λ _. ok (ok (jo_name, 20) ∷ []) }

abbrev pub empty_refs : RefStoreRead
empty_refs = record { get = λ name. ok (tip_of name); iter_prefix = λ _. ok [] }

abbrev pub advance : Update
advance = record { name = issue_name; new = some 2 }

abbrev pub enrollment : Update
enrollment = record { name = jo_name; new = some 20 }

abbrev pub jo_enrolled : Enrolled
jo_enrolled = record { id = codes "jo"; tip = 20 }

abbrev pub tip_commit : CommitData
tip_commit = record { raw = raw_commit 2; tree = 101; parents = 1 ∷ [] }
