-- ===== src/Model/Namespace.antt =====
-- Refname namespaces under refs/meta/* (crates/kernel/ents-model/src/namespace.rs). A refname is
-- its bytes. `valid_ref` stands for gitoxide's `FullName::try_from`, and `to_string` for bstr's
-- `BStr::to_string`, which puts U+FFFD for what is not UTF-8; both are parameters. `classify` and
-- `is_inbox` take the bytes as they are: they compare with ASCII alone, which the conversion keeps and
-- never puts in.

pub mod Built
pub mod Parse
use git_ents.Base.{
  Bytes, codes, bytes_eq, strip_prefix, starts_with, split_once, mem, Bool, true, false, ◌||◌,
  Option, none, some, [], ◌∷◌, ◌++◌, Result, ok, err, if◌then◌else◌,
}
use git_ents.Model.Member.{MemberId}

pub data NameError : Type 0 where
  invalid_ref_name : Bytes → NameError

abbrev pub account_ref : Bytes
account_ref = codes "refs/meta/account"

abbrev pub config_ref : Bytes
config_ref = codes "refs/meta/config"

module _ (valid_ref : Bytes → Bool) where
  unfoldable pub build : Bytes → Result NameError Bytes
  build name = if valid_ref name then ok name else err (invalid_ref_name name)

  unfoldable pub member_ref : MemberId → Result NameError Bytes
  unfolding build
  member_ref id = build (codes "refs/meta/member/" ++ id)

  unfoldable pub issue_ref : Bytes → Result NameError Bytes
  unfolding build
  issue_ref id = build (codes "refs/meta/issues/" ++ id)

  unfoldable pub comment_ref : Bytes → Result NameError Bytes
  unfolding build
  comment_ref id = build (codes "refs/meta/comments/" ++ id)

  unfoldable pub review_ref : Bytes → MemberId → Result NameError Bytes
  unfolding build
  review_ref target member = build (codes "refs/meta/reviews/" ++ target ++ b'/' ∷ member)

  unfoldable pub review_pin_ref : Bytes → MemberId → Result NameError Bytes
  unfolding build
  review_pin_ref target member = build (codes "refs/meta/pins/reviews/" ++ target ++ b'/' ∷ member)

  unfoldable pub effect_ref : Bytes → Result NameError Bytes
  unfolding build
  effect_ref name = build (codes "refs/meta/effects/" ++ name)

  unfoldable pub result_ref : Bytes → Bytes → Result NameError Bytes
  unfolding build
  result_ref effect short_oid = build (codes "refs/meta/results/" ++ effect ++ b'/' ∷ short_oid)

  unfoldable pub self_result_ref : MemberId → Bytes → Bytes → Result NameError Bytes
  unfolding build
  self_result_ref member effect short_oid =
      build (codes "refs/meta/self/" ++ member ++ b'/' ∷ (effect ++ b'/' ∷ short_oid))

  unfoldable pub inbox_ref : MemberId → Bytes → Result NameError Bytes
  unfolding build
  inbox_ref member id = build (codes "refs/meta/inbox/" ++ member ++ b'/' ∷ id)

  unfoldable pub toolchain_ref : Bytes → Result NameError Bytes
  unfolding build
  toolchain_ref name = build (codes "refs/meta/toolchains/" ++ name)

  unfoldable pub redaction_ref : Bytes → Result NameError Bytes
  unfolding build
  redaction_ref id = build (codes "refs/meta/redactions/" ++ id)

  unfoldable pub claim_ref : Bytes → Result NameError Bytes
  unfolding build
  claim_ref id = build (codes "refs/meta/claims/" ++ id)

abbrev pub is_empty : Bytes → Bool
is_empty [] = true
is_empty (_ ∷ _) = false

-- `option.or_else`
abbrev or_else : Option Bytes → Option Bytes → Option Bytes
or_else (some a) o = some a
or_else none o = o

abbrev review_parts : Option (Bytes × Bytes) → Option (Bytes × MemberId)
review_parts none = none
review_parts (some (target, member)) =
    if is_empty target || is_empty member || mem b'/' member then none else some (target, member)

abbrev review_rest : Option Bytes → Option (Bytes × MemberId)
review_rest none = none
review_rest (some rest) = review_parts (split_once b'/' rest)

unfoldable pub parse_review_ref : (Bytes → Bytes) → Bytes → Option (Bytes × MemberId)
unfolding strip_prefix split_once
parse_review_ref to_string name =
    let path = to_string name in
    review_rest (
      or_else (strip_prefix (codes "refs/meta/reviews/") path)
        (strip_prefix (codes "refs/meta/pins/reviews/") path))

-- What follows the member segment of a self-run refname, given what follows `self/`.
abbrev self_run_tail : Option Bytes → Option Bytes
self_run_tail none = none
self_run_tail (some self_run) = elim (split_once b'/' self_run) [
  | none ↦ none
  | some (_, effect_and_oid) ↦ some effect_and_oid
]

-- `tail`, given what follows `refs/meta/`.
abbrev result_tail : Bytes → Option Bytes
result_tail rest = elim (strip_prefix (codes "results/") rest) [
  | some canonical ↦ some canonical
  | none ↦ self_run_tail (strip_prefix (codes "self/") rest)
]

abbrev result_parts : Option Bytes → Option (Bytes × Bytes)
result_parts none = none
result_parts (some tail) = elim (split_once b'/' tail) [
  | none ↦ none
  | some (effect, short_oid) ↦
      if is_empty effect || is_empty short_oid || mem b'/' short_oid
      then none
      else some (effect, short_oid)
]

unfoldable pub parse_result_ref : (Bytes → Bytes) → Bytes → Option (Bytes × Bytes)
unfolding strip_prefix split_once
parse_result_ref to_string name = elim (strip_prefix (codes "refs/meta/") (to_string name)) [
  | none ↦ none
  | some rest ↦ result_parts (result_tail rest)
]

-- The segment before the first slash of what follows a prefix.
abbrev owner_segment : Option Bytes → Option MemberId
owner_segment none = none
owner_segment (some rest) = elim (split_once b'/' rest) [
  | none ↦ none
  | some (member, _) ↦ some member
]

unfoldable pub self_run_owner : (Bytes → Bytes) → Bytes → Option MemberId
unfolding strip_prefix split_once
self_run_owner to_string name =
    owner_segment (strip_prefix (codes "refs/meta/self/") (to_string name))

unfoldable pub inbox_owner : (Bytes → Bytes) → Bytes → Option MemberId
unfolding strip_prefix split_once
inbox_owner to_string name =
    owner_segment (strip_prefix (codes "refs/meta/inbox/") (to_string name))

pub data Namespace : Type 0 where
  member issue comment review pin effect result self_run toolchain redaction inbox account config
        claim unknown :
      Namespace

-- The `match segment` of `classify`.
unfoldable pub segment_namespace : Bytes → Namespace
unfolding bytes_eq
segment_namespace segment =
    if bytes_eq segment (codes "member")
    then member
    else if bytes_eq segment (codes "issues")
    then issue
    else if bytes_eq segment (codes "comments")
    then comment
    else if bytes_eq segment (codes "reviews")
    then review
    else if bytes_eq segment (codes "pins")
    then pin
    else if bytes_eq segment (codes "effects")
    then effect
    else if bytes_eq segment (codes "results")
    then result
    else if bytes_eq segment (codes "self")
    then self_run
    else if bytes_eq segment (codes "toolchains")
    then toolchain
    else if bytes_eq segment (codes "redactions")
    then redaction
    else if bytes_eq segment (codes "inbox")
    then inbox
    else if bytes_eq segment (codes "claims")
    then claim
    else unknown

abbrev first_segment : Bytes → Bytes
first_segment rest = elim (split_once b'/' rest) [ none ↦ rest | some (segment, _) ↦ segment ]

unfoldable pub classify : Bytes → Option Namespace
unfolding strip_prefix split_once bytes_eq segment_namespace
classify path = elim (strip_prefix (codes "refs/meta/") path) [
  | none ↦ none
  | some rest ↦
      if bytes_eq rest (codes "account")
      then some account
      else if bytes_eq rest (codes "config")
      then some config
      else some (segment_namespace (first_segment rest))
]

unfoldable pub is_inbox : Bytes → Bool
unfolding strip_prefix starts_with
is_inbox path = elim (strip_prefix (codes "refs/meta/") path) [
  | none ↦ false
  | some rest ↦ starts_with (codes "inbox/") rest
]
