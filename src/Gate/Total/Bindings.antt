-- ===== src/Gate/Total/Bindings.antt =====
-- The identity binding and the owner rule run out of fuel only where a walk does.
use git_ents.Base.{
  ℕ, zero, suc, ◌≤◌, ◌<◌, Bytes, Bool, length, List, [], ◌∷◌, Option, none, some, ◌≡◌, arith,
  Option-cases, inl, inr,
}
use git_ents.Model.Member.{MemberId, Member}
use git_ents.Model.Namespace.{Namespace, classify}
use git_ents.Substrate.Refs.{Oid}
use git_ents.Substrate.Objects.{Objects}
use git_ents.Gate.Errors.{Gate}
use git_ents.Gate.Object.{CommitData}
use git_ents.Gate.Object.Ancestry.{HasHistory, walk_fuel}
use git_ents.Gate.Verdict.{Refusal}
use git_ents.Gate.Policy.{Enrolled}
use git_ents.Gate.Binding.{
  result_fields, claim_fields, field_str, field_oid_hex, bind_natural_key, bind_hash_identified,
  strict_decode, bind_review, bind_result, bind_claim, canonical_name, bind_inbox, bind_namespace,
  binding_at, identity_binding,
}
use git_ents.Gate.Binding.Depth.{KeepsText, canonical_name-shorter}
use git_ents.Gate.Authority.{is_admin, genesis_signer, owner_of_genesis, owner_mutation}
use git_ents.Gate.Total.Reads.{
  HasFuel, HasFuel-bind, HasFuel-ok, HasFuel-if, read_tree_entry-HasFuel, tree_entry_names-HasFuel,
  commit_signer-HasFuel, all_roots-HasFuel,
}

module _ (o : Objects) where
  field_str-HasFuel : (tree : Oid) (field : Bytes) → HasFuel (field_str o tree field)
  unfolding field_str
  field_str-HasFuel tree field p = ground (arith, read_tree_entry-HasFuel o tree field)

  field_oid_hex-HasFuel : (tree : Oid) (field : Bytes) → HasFuel (field_oid_hex o tree field)
  unfolding field_oid_hex
  field_oid_hex-HasFuel tree field p = ground (arith, read_tree_entry-HasFuel o tree field)

  natural_key-HasFuel :
      (name : Bytes) (tree : Oid) (field expected : Bytes)
      → HasFuel (bind_natural_key o name tree field expected)
  unfolding bind_natural_key
  natural_key-HasFuel name tree field expected p = ground (arith, field_str-HasFuel tree field)

  strict_decode-HasFuel :
      (fields : List Bytes) (decodes : Oid → Bool) (name : Bytes) (tree : Oid)
      → HasFuel (strict_decode o fields decodes name tree)
  unfolding strict_decode
  strict_decode-HasFuel fields decodes name tree p = ground (arith, tree_entry_names-HasFuel o tree)

  bind_review-HasFuel :
      (name : Bytes) (tree : Oid) (signer : MemberId) → HasFuel (bind_review o name tree signer)
  unfolding bind_review
  bind_review-HasFuel name tree signer p = ground (arith, field_oid_hex-HasFuel tree)

  bind_result-HasFuel :
      (n : Namespace) (name : Bytes) (commit : CommitData) (signer : MemberId)
      → HasFuel (bind_result o n name commit signer)
  unfolding bind_result
  bind_result-HasFuel n name commit signer p = ground (
    arith,
    field_str-HasFuel commit.tree,
    field_oid_hex-HasFuel commit.tree,
    strict_decode-HasFuel result_fields o.result_decodes name commit.tree,
  )

  bind_claim-HasFuel :
      (name : Bytes) (new : Oid) (commit : CommitData) (signer : MemberId)
      → HasFuel (bind_claim o name new commit signer)
  unfolding bind_claim
  bind_claim-HasFuel name new commit signer p = ground (
    arith,
    field_str-HasFuel commit.tree,
    strict_decode-HasFuel claim_fields o.claim_decodes name commit.tree,
  )

  module _ (text : KeepsText o.name_to_string) (history : List Oid) (fuel : ℕ)
      (h : HasHistory o history) (enough : walk_fuel o history ≤ fuel) where
    hash_identified-HasFuel :
        (name : Bytes) (new : Oid) → HasFuel (bind_hash_identified o fuel name new)
    unfolding bind_hash_identified
    hash_identified-HasFuel name new p =
        ground (arith, all_roots-HasFuel o history fuel h enough new)

    bind_inbox-HasFuel :
        (recur : Bytes → Gate (Option Refusal)) (name : Bytes) (signer : MemberId)
        → ((c : Bytes) → canonical_name o name ≡ some c → HasFuel (recur c))
        → HasFuel (bind_inbox o recur name signer)
    unfolding bind_inbox
    bind_inbox-HasFuel recur name signer k p = elim (Option-cases (canonical_name o name)) [
      | inl e ↦ ground arith
      | inr (c, e) ↦ ground (arith, k c e)
    ]

    namespace-HasFuel :
        (new : Oid) (commit : CommitData) (signer : MemberId)
        (recur : Bytes → Gate (Option Refusal)) (n : Namespace) (name : Bytes)
        → ((c : Bytes) → canonical_name o name ≡ some c → HasFuel (recur c))
        → HasFuel (bind_namespace o fuel new commit signer recur n name)
    unfolding bind_namespace
    namespace-HasFuel new commit signer recur Namespace.inbox name k =
        bind_inbox-HasFuel recur name signer k
    namespace-HasFuel new commit signer recur Namespace.comment name k =
        hash_identified-HasFuel name new
    namespace-HasFuel new commit signer recur Namespace.issue name k =
        hash_identified-HasFuel name new
    namespace-HasFuel new commit signer recur Namespace.claim name k =
        bind_claim-HasFuel name new commit signer
    namespace-HasFuel new commit signer recur Namespace.review name k =
        bind_review-HasFuel name commit.tree signer
    namespace-HasFuel new commit signer recur Namespace.result name k =
        bind_result-HasFuel Namespace.result name commit signer
    namespace-HasFuel new commit signer recur Namespace.self_run name k =
        bind_result-HasFuel Namespace.self_run name commit signer
    namespace-HasFuel new commit signer recur Namespace.member name k =
        natural_key-HasFuel name commit.tree _ _
    namespace-HasFuel new commit signer recur Namespace.effect name k =
        natural_key-HasFuel name commit.tree _ _
    namespace-HasFuel new commit signer recur Namespace.toolchain name k =
        natural_key-HasFuel name commit.tree _ _
    namespace-HasFuel new commit signer recur _ name k = HasFuel-ok none

    binding_at-HasFuel :
        (new : Oid) (commit : CommitData) (signer : MemberId) (depth : ℕ) (name : Bytes)
        → length (o.name_to_string name) < depth
        → HasFuel (binding_at o fuel new commit signer depth name)
    unfolding binding_at
    binding_at-HasFuel new commit signer zero name s = absurd (omega arith)
    binding_at-HasFuel new commit signer (suc depth) name s =
        let deeper : (c : Bytes)
            → canonical_name o name ≡ some c
            → HasFuel (binding_at o fuel new commit signer depth c) =
          λ c e.
            binding_at-HasFuel new commit signer depth c
              (omega (arith, canonical_name-shorter o text name e)) in
        elim (Option-cases (classify name)) [
          | inl e ↦ rw (e, binding_at) (HasFuel-ok none)
          | inr (n, e) ↦ rw (e, binding_at) (namespace-HasFuel new commit signer _ n name deeper)
        ]

    pub identity_binding-HasFuel :
        (new : Oid) (commit : CommitData) (signer : MemberId) (name : Bytes)
        → HasFuel (identity_binding o fuel new commit signer name)
    unfolding identity_binding
    identity_binding-HasFuel new commit signer name =
        binding_at-HasFuel new commit signer (suc (length (o.name_to_string name))) name
          (omega arith)

    genesis_signer-HasFuel :
        (members : List Enrolled) (roots : List Oid) → HasFuel (genesis_signer o members roots)
    genesis_signer-HasFuel members [] = HasFuel-ok none
    genesis_signer-HasFuel members (root ∷ _) = commit_signer-HasFuel o members root

    owner_of_genesis-HasFuel :
        (name : Bytes) (old : Option Oid) (new : Oid) (members : List Enrolled) (id : MemberId)
        (member : Member)
        → HasFuel (owner_of_genesis o fuel name old new members id member)
    unfolding owner_of_genesis
    owner_of_genesis-HasFuel name none new members id member = HasFuel-ok none
    owner_of_genesis-HasFuel name (some old) new members id member =
        HasFuel-if (is_admin member) _ _ (HasFuel-ok none) (
          HasFuel-bind _ _ (all_roots-HasFuel o history fuel h enough new)
            λ roots. HasFuel-bind _ _ (genesis_signer-HasFuel members roots) λ s. HasFuel-ok _)

    pub owner_mutation-HasFuel :
        (name : Bytes) (old : Option Oid) (new : Oid) (members : List Enrolled) (id : MemberId)
        (member : Member)
        → HasFuel (owner_mutation o fuel name old new members id member)
    unfolding owner_mutation
    owner_mutation-HasFuel name old new members id member p =
        ground (arith, owner_of_genesis-HasFuel name old new members id member)
