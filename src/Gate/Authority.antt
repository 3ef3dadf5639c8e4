-- ===== src/Gate/Authority.antt =====
-- Who may move a ref (crates/kernel/ents-gate/src/verify.rs): the signer among the enrolled members,
-- `authorize`, which judges by the signer's provenance and the namespace, and `owner_mutation`, which
-- keys the advance of an entity to the signer of its genesis.
pub mod Rules
use git_ents.Base.{
  ℕ, Bytes, bytes_eq, Bool, true, false, List, [], ◌∷◌, Option, none, some, ok, ◌>>=◌,
  if◌then◌else◌,
}
use git_ents.Model.Member.{MemberId, Member, Provenance, admin_registered, self_attested}
use git_ents.Model.Namespace.{Namespace, classify, parse_review_ref, self_run_owner, inbox_owner}
use git_ents.Substrate.Refs.{Oid}
use git_ents.Substrate.Objects.{Objects}
use git_ents.Gate.Errors.{Gate}
use git_ents.Gate.Object.{CommitData, read_commit, all_roots}
use git_ents.Gate.Signature.{split_signed, verifies}
use git_ents.Gate.Policy.{Enrolled, member_current}
use git_ents.Gate.Verdict.{Detail, Refusal, tip_signed}
use git_ents.Gate.Binding.{is_some_of}

unfoldable pub authority_refusal : Bytes → Detail → Bool → Option Refusal
authority_refusal name detail inbox_alternative = some (record {
  requirement = tip_signed;
  refname = name;
  detail = detail;
  inbox_alternative = inbox_alternative;
})

abbrev by_provenance : Bytes → Detail → Provenance → Option Refusal
by_provenance name detail admin_registered = none
by_provenance name detail self_attested = authority_refusal name detail true

-- The `match namespace` of `authorize`.
unfoldable pub authorize_in :
    (Bytes → Bytes) → Namespace → Bytes → MemberId → Member → Option Refusal
unfolding authority_refusal
authorize_in to_string Namespace.self_run name id member =
    if is_some_of (self_run_owner to_string name) id
    then none
    else authority_refusal name Detail.not_self_owner false
authorize_in to_string Namespace.inbox name id member =
    if is_some_of (inbox_owner to_string name) id
    then none
    else authority_refusal name Detail.not_inbox_owner false
authorize_in to_string Namespace.effect name id member =
    by_provenance name Detail.effect_not_admin member.provenance
authorize_in to_string _ name id member = by_provenance name Detail.not_promoted member.provenance

unfoldable pub authorize : (Bytes → Bytes) → Bytes → MemberId → Member → Option Refusal
unfolding authorize_in
authorize to_string name id member = elim (classify name) [
  | none ↦ none
  | some namespace ↦ authorize_in to_string namespace name id member
]

abbrev pub is_admin : Member → Bool
is_admin member = elim member.provenance [ admin_registered ↦ true | self_attested ↦ false ]

module _ (o : Objects) where
  -- The first enrolled member whose current key verifies the signature, with its entity.
  unfoldable pub find_signer : List Enrolled → Bytes → Bytes → Gate (Option (MemberId × Member))
  unfolding member_current
  find_signer [] payload sig = ok none
  find_signer (enrolled ∷ rest) payload sig = do
    member ← member_current o enrolled.tip
    let further = find_signer rest payload sig
    if verifies o member.key payload sig then ok (some (enrolled.id, member)) else further

  -- The loop of `commit_signer`, which keeps the id alone.
  unfoldable pub signer_id : List Enrolled → Bytes → Bytes → Gate (Option MemberId)
  unfolding member_current
  signer_id [] payload sig = ok none
  signer_id (enrolled ∷ rest) payload sig = do
    member ← member_current o enrolled.tip
    let further = signer_id rest payload sig
    if verifies o member.key payload sig then ok (some enrolled.id) else further

  abbrev pub signer_of_commit : List Enrolled → Option CommitData → Gate (Option MemberId)
  signer_of_commit members none = ok none
  signer_of_commit members (some commit) = elim (split_signed o commit.raw) [
    | none ↦ ok none
    | some (payload, sig) ↦ signer_id members payload sig
  ]

  unfoldable pub commit_signer : List Enrolled → Oid → Gate (Option MemberId)
  unfolding signer_id
  commit_signer members oid = do found ← read_commit o oid; signer_of_commit members found

  abbrev pub genesis_signer : List Enrolled → List Oid → Gate (Option MemberId)
  genesis_signer members [] = ok none
  genesis_signer members (root ∷ _) = commit_signer members root

  -- The arm `Namespace::Comment | Namespace::Issue`.
  unfoldable pub owner_of_genesis :
      ℕ → Bytes → Option Oid → Oid → List Enrolled → MemberId → Member → Gate (Option Refusal)
  unfolding commit_signer authority_refusal
  owner_of_genesis fuel name none new members signer_id member = ok none
  owner_of_genesis fuel name (some old) new members signer_id member =
      if is_admin member then ok none else (do
        genesis ← all_roots o fuel new
        signer ← genesis_signer members genesis
        ok (
            if is_some_of signer signer_id
            then none
            else authority_refusal name Detail.not_genesis_signer false))

  -- The arm `Namespace::Review`.
  unfoldable pub owner_of_review : Bytes → MemberId → Option Refusal
  unfolding authority_refusal
  owner_of_review name signer_id = elim (parse_review_ref o.name_to_string name) [
    | none ↦ none
    | some (_, member) ↦
        if bytes_eq signer_id member then none else authority_refusal name Detail.not_reviewer false
  ]

  unfoldable pub owner_mutation :
      ℕ → Bytes → Option Oid → Oid → List Enrolled → MemberId → Member → Gate (Option Refusal)
  unfolding owner_of_genesis owner_of_review
  owner_mutation fuel name old new members signer_id member = elim (classify name) [
    | none ↦ ok none
    | some Namespace.comment ↦ owner_of_genesis fuel name old new members signer_id member
    | some Namespace.issue ↦ owner_of_genesis fuel name old new members signer_id member
    | some Namespace.review ↦ ok (owner_of_review name signer_id)
    | some _ ↦ ok none
  ]
