-- ===== src/Gate/Binding.antt =====
-- `identity_binding` (crates/kernel/ents-gate/src/verify.rs): the refname recomputed from the tip's
-- signed content, namespace by namespace. `fuel` bounds the walk over the ancestry.
pub mod Replay
pub mod Depth
use git_ents.Base.{
  ℕ, zero, suc, Bytes, codes, bytes_eq, strip_prefix, starts_with, split_once, mem, length, Bool,
  true, false, List, [], ◌∷◌, ◌++◌, Option, none, some, ok, err, ◌>>=◌, if◌then◌else◌, ◌==◌,
}
use git_ents.Model.Member.{MemberId}
use git_ents.Model.Namespace.{
  Namespace, classify, parse_review_ref, parse_result_ref, self_run_owner, inbox_owner,
}
use git_ents.Substrate.Refs.{Oid}
use git_ents.Substrate.Objects.{Objects}
use git_ents.Gate.Errors.{Gate, out_of_fuel}
use git_ents.Gate.Object.{CommitData, read_tree_entry, tree_entry_names, all_roots}
use git_ents.Gate.Verdict.{Detail, Refusal, identity_binding as of_identity_binding}

unfoldable pub binding_refusal : Bytes → Detail → Option Refusal
binding_refusal name detail = some (record {
  requirement = of_identity_binding;
  refname = name;
  detail = detail;
  inbox_alternative = false;
})

-- The text after the last slash, or all of it.
unfoldable pub last_segment : Bytes → Bytes
last_segment [] = []
last_segment (c ∷ s) = if mem b'/' s then last_segment s else if c == b'/' then s else c ∷ s

-- The last segment of a refname's text.
unfoldable pub final_segment : (Bytes → Bytes) → Bytes → Bytes
unfolding last_segment
final_segment to_string name = last_segment (to_string name)

abbrev pub is_some_of : Option Bytes → Bytes → Bool
is_some_of none b = false
is_some_of (some a) b = bytes_eq a b

abbrev pub starts_some : Bytes → Option Bytes → Bool
starts_some p none = false
starts_some p (some a) = starts_with p a

abbrev pub is_genesis : CommitData → Bool
is_genesis commit = elim commit.parents [ [] ↦ true | _ ∷ _ ↦ false ]

abbrev pub result_fields : List Bytes
result_fields = codes "effect" ∷ codes "target" ∷ codes "status" ∷ []

abbrev pub claim_fields : List Bytes
claim_fields = codes "signer" ∷ codes "binding" ∷ codes "verdict" ∷ codes "kind" ∷ []

unfoldable pub contains : List Bytes → Bytes → Bool
contains [] name = false
contains (field ∷ fields) name = if bytes_eq field name then true else contains fields name

-- Every entry is one of the fields.
unfoldable pub all_known : List Bytes → List Bytes → Bool
unfolding contains
all_known fields [] = true
all_known fields (entry ∷ entries) =
    if contains fields entry then all_known fields entries else false

-- The first root, if any, that is not the expected one is refused.
unfoldable pub bind_roots : Bytes → Oid → List Oid → Option Refusal
unfolding binding_refusal
bind_roots name expected [] = none
bind_roots name expected (root ∷ roots) =
    if root == expected
    then bind_roots name expected roots
    else binding_refusal name Detail.foreign_root

module _ (o : Objects) where
  unfoldable pub field_str : Oid → Bytes → Gate (Option Bytes)
  unfolding read_tree_entry
  field_str tree field = do
    entry ← read_tree_entry o tree field
    ok (elim entry [ none ↦ none | some bytes ↦ o.from_utf8 bytes ])

  abbrev hex_of_bytes : Option Bytes → Option Bytes
  hex_of_bytes none = none
  hex_of_bytes (some bytes) =
      if length bytes == 20 then some (o.oid_to_string (o.oid_from_bytes bytes)) else none

  unfoldable pub field_oid_hex : Oid → Bytes → Gate (Option Bytes)
  unfolding read_tree_entry
  field_oid_hex tree field = do entry ← read_tree_entry o tree field; ok (hex_of_bytes entry)

  abbrev natural_key : Bytes → Bytes → Option Bytes → Option Refusal
  natural_key name expected none = binding_refusal name Detail.field_absent
  natural_key name expected (some value) =
      if bytes_eq value expected then none else binding_refusal name Detail.field_differs

  unfoldable pub bind_natural_key : Bytes → Oid → Bytes → Bytes → Gate (Option Refusal)
  unfolding field_str binding_refusal
  bind_natural_key name tree field expected = do
    value ← field_str tree field
    ok (natural_key name expected value)

  abbrev hash_identified : Bytes → Oid → List Oid → Option Refusal
  hash_identified name expected [] = binding_refusal name Detail.no_readable_root
  hash_identified name expected (root ∷ roots) = bind_roots name expected (root ∷ roots)

  unfoldable pub bind_hash_identified : ℕ → Bytes → Oid → Gate (Option Refusal)
  unfolding final_segment bind_roots binding_refusal
  bind_hash_identified fuel name new = elim (o.oid_from_hex (final_segment o.name_to_string name)) [
    | none ↦ ok (binding_refusal name Detail.not_a_genesis_oid)
    | some expected ↦ do roots ← all_roots o fuel new; ok (hash_identified name expected roots)
  ]

  -- `strict_decode::<T>`, for the field names of `T` and whether a tree decodes as a `T`
  unfoldable pub strict_decode : List Bytes → (Oid → Bool) → Bytes → Oid → Gate (Option Refusal)
  unfolding tree_entry_names all_known binding_refusal
  strict_decode fields decodes name tree = do
    entries ← tree_entry_names o tree
    ok (
        if all_known fields entries
        then (if decodes tree then none else binding_refusal name Detail.undecodable_entity)
        else binding_refusal name Detail.unknown_entry)

  -- The arm `Namespace::Review`.
  unfoldable pub bind_review : Bytes → Oid → MemberId → Gate (Option Refusal)
  unfolding field_oid_hex binding_refusal
  bind_review name tree signer = elim (parse_review_ref o.name_to_string name) [
    | none ↦ ok (binding_refusal name Detail.malformed_review)
    | some (target, member) ↦ do
      hex ← field_oid_hex tree (codes "target")
      ok (
          if is_some_of hex target
          then (if bytes_eq signer member
              then none
              else binding_refusal name Detail.review_signer_differs)
          else binding_refusal name Detail.review_target_differs)
  ]

  abbrev is_self_run : Namespace → Bool
  is_self_run Namespace.self_run = true
  is_self_run _ = false

  -- The arm `Namespace::Result | Namespace::SelfRun`.
  unfoldable pub bind_result : Namespace → Bytes → CommitData → MemberId → Gate (Option Refusal)
  unfolding field_str field_oid_hex strict_decode binding_refusal
  bind_result namespace name commit signer = elim (parse_result_ref o.name_to_string name) [
    | none ↦ ok (binding_refusal name Detail.malformed_result)
    | some (effect, short_oid) ↦ do
      value ← field_str commit.tree (codes "effect")
      if is_some_of value effect
          then (do
            hex ← field_oid_hex commit.tree (codes "target")
            if starts_some short_oid hex
                then (if is_self_run namespace
                    then (if is_some_of (self_run_owner o.name_to_string name) signer
                        then (if is_genesis commit
                            then strict_decode result_fields o.result_decodes name commit.tree
                            else ok none)
                        else ok (binding_refusal name Detail.self_run_signer_differs))
                    else (if is_genesis commit
                        then strict_decode result_fields o.result_decodes name commit.tree
                        else ok none))
                else ok (binding_refusal name Detail.result_target_differs))
          else ok (binding_refusal name Detail.result_effect_differs)
  ]

  -- The arm `Namespace::Claim`.
  unfoldable pub bind_claim : Bytes → Oid → CommitData → MemberId → Gate (Option Refusal)
  unfolding field_str strict_decode binding_refusal final_segment
  bind_claim name new commit signer = elim (o.oid_from_hex (final_segment o.name_to_string name)) [
    | none ↦ ok (binding_refusal name Detail.not_a_genesis_oid)
    | some expected ↦
        if new == expected
        then (if is_genesis commit then ok (binding_refusal name Detail.claim_parentless) else (do
          refusal ← strict_decode claim_fields o.claim_decodes name commit.tree
          elim refusal [
            | some r ↦ ok (some r)
            | none ↦ do
              value ← field_str commit.tree (codes "signer")
              ok (
                  if is_some_of value signer
                  then none
                  else binding_refusal name Detail.claim_signer_differs)
          ]))
        else ok (binding_refusal name Detail.claim_tip_differs)
  ]

  -- The canonical refname of an inbox refname, if there is a valid one.
  unfoldable pub canonical_name : Bytes → Option Bytes
  canonical_name name = elim (strip_prefix (codes "refs/meta/inbox/") (o.name_to_string name)) [
    | none ↦ none
    | some rest ↦ elim (split_once b'/' rest) [
      | none ↦ none
      | some (_, suffix) ↦
          let canonical = codes "refs/meta/" ++ suffix in
          if o.valid_ref canonical then some canonical else none
    ]
  ]

  -- The arm `Namespace::Inbox`; `recur` is the function itself, on the canonical refname.
  unfoldable pub bind_inbox :
      (Bytes → Gate (Option Refusal)) → Bytes → MemberId → Gate (Option Refusal)
  unfolding binding_refusal
  bind_inbox recur name signer =
      if is_some_of (inbox_owner o.name_to_string name) signer
      then elim (canonical_name name) [ none ↦ ok none | some canonical ↦ recur canonical ]
      else ok (binding_refusal name Detail.inbox_signer_differs)

  module _ (fuel : ℕ) (new : Oid) (commit : CommitData) (signer : MemberId) where
    unfoldable pub bind_namespace :
        (Bytes → Gate (Option Refusal)) → Namespace → Bytes → Gate (Option Refusal)
    bind_namespace recur Namespace.member name =
        bind_natural_key name commit.tree (codes "id") (final_segment o.name_to_string name)
    bind_namespace recur Namespace.effect name =
        bind_natural_key name commit.tree (codes "name") (final_segment o.name_to_string name)
    bind_namespace recur Namespace.toolchain name =
        bind_natural_key name commit.tree (codes "name") (final_segment o.name_to_string name)
    bind_namespace recur Namespace.comment name = bind_hash_identified fuel name new
    bind_namespace recur Namespace.issue name = bind_hash_identified fuel name new
    bind_namespace recur Namespace.review name = bind_review name commit.tree signer
    bind_namespace recur Namespace.result name = bind_result Namespace.result name commit signer
    bind_namespace recur Namespace.self_run name = bind_result Namespace.self_run name commit signer
    bind_namespace recur Namespace.claim name = bind_claim name new commit signer
    bind_namespace recur Namespace.inbox name = bind_inbox recur name signer
    -- account, config, pin, redaction and unknown namespaces
    bind_namespace recur _ name = ok none

    -- The recursion into an inbox takes a refname with a shorter text each time, so the length of the
    -- text is enough depth.
    unfoldable pub binding_at : ℕ → Bytes → Gate (Option Refusal)
    unfolding bind_namespace
    binding_at zero name = err out_of_fuel
    binding_at (suc depth) name = elim (classify name) [
      | none ↦ ok none
      | some namespace ↦ bind_namespace (λ canonical. binding_at depth canonical) namespace name
    ]

    unfoldable pub identity_binding : Bytes → Gate (Option Refusal)
    unfolding binding_at
    identity_binding name = binding_at (suc (length (o.name_to_string name))) name
