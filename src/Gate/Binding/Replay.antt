-- ===== src/Gate/Binding/Replay.antt =====
-- A hash-identified entity's refname is fixed by the proposed tip (`bind_hash_identified` of
-- crates/kernel/ents-gate/src/verify.rs), so a signed tip cannot be replayed at another entity's ref.
use git_ents.Base.{
  ℕ, ◌≤◌, Bytes, true, List, [], ◌∷◌, none, some, Option-cases, inl, inr, ◌⊎◌, ok, ◌≡◌, sym, ap,
  ◌∙◌, arith, ==_refl, mem,
}
use git_ents.Graph.{Reaches}
use git_ents.Model.Member.{MemberId}
use git_ents.Model.Namespace.{Namespace, classify}
use git_ents.Substrate.Refs.{Oid}
use git_ents.Substrate.Objects.{Objects}
use git_ents.Gate.Errors.{Gate-cases}
use git_ents.Gate.Object.{CommitData, all_roots}
use git_ents.Gate.Object.Ancestry.{parents_of, HasHistory, walk_fuel}
use git_ents.Gate.Object.Roots.{is_root, FindsRoots, all_roots-FindsRoots}
use git_ents.Gate.Binding.{
  binding_refusal, bind_roots, final_segment, hash_identified, bind_hash_identified,
  identity_binding,
}

bind_roots-none :
    (name : Bytes) (expected : Oid) (roots : List Oid) (r : Oid)
    → bind_roots name expected roots ≡ none
    → mem r roots ≡ true
    → r ≡ expected
unfolding bind_roots
bind_roots-none name expected [] r h m = cc
bind_roots-none name expected (root ∷ roots) r h m =
    ground (arith, bind_roots-none name expected roots r)

-- The refname's last segment is the id of a genesis, which the tip reaches, and every parentless
-- commit that the tip reaches is that genesis.
pub record BindsGenesis (o : Objects) (name : Bytes) (new : Oid) : Type 0 where
  pub genesis : Oid
  pub named : o.oid_from_hex (final_segment o.name_to_string name) ≡ some genesis
  pub reached : Reaches (parents_of o) new genesis
  pub parentless : is_root o genesis ≡ true
  pub alone : (r : Oid) → Reaches (parents_of o) new r → is_root o r ≡ true → r ≡ genesis

module _ (o : Objects) (history : List Oid) (fuel : ℕ) (new : Oid) where
  roots_bound :
      (name : Bytes) (expected : Oid) (roots : List Oid)
      → o.oid_from_hex (final_segment o.name_to_string name) ≡ some expected
      → FindsRoots o new (ok roots)
      → hash_identified o name expected roots ≡ none
      → BindsGenesis o name new
  unfolding binding_refusal
  roots_bound name expected [] n f h = cc
  roots_bound name expected (root ∷ roots) n f h =
      let first : root ≡ expected =
        bind_roots-none name expected (root ∷ roots) root h (ground (arith, ==_refl root)) in
      let (reach, is) = (f root).0 (ground (arith, ==_refl root)) in
      record {
        genesis = root;
        named = n ∙ ap some (sym first);
        reached = reach;
        parentless = is;
        alone =
            λ r q p. bind_roots-none name expected (root ∷ roots) r h ((f r).1 (q, p)) ∙ sym first;
      }

  bind_hash_identified-BindsGenesis :
      (name : Bytes)
      → FindsRoots o new (all_roots o fuel new)
      → bind_hash_identified o fuel name new ≡ ok none
      → BindsGenesis o name new
  unfolding bind_hash_identified
  bind_hash_identified-BindsGenesis name f h =
      elim (Option-cases (o.oid_from_hex (final_segment o.name_to_string name))) [
        | inl e ↦ ground arith
        | inr (expected, e) ↦ elim (Gate-cases (all_roots o fuel new)) [
          | inl (roots, g) ↦ roots_bound name expected roots e (rw g at f) (ground arith)
          | inr (x, g) ↦ ground arith
        ]
      ]

-- The refname is that of an issue or of a comment.
abbrev pub IsHashIdentified : Bytes → Type 0
IsHashIdentified name =
    (classify name ≡ some Namespace.issue) ⊎ (classify name ≡ some Namespace.comment)

module _ (o : Objects) (history : List Oid) (fuel : ℕ) (h : HasHistory o history)
    (enough : walk_fuel o history ≤ fuel) (new : Oid) where
  binds_genesis :
      (commit : CommitData) (signer : MemberId) (name : Bytes)
      → IsHashIdentified name
      → identity_binding o fuel new commit signer name ≡ ok none
      → BindsGenesis o name new
  unfolding identity_binding
  binds_genesis commit signer name (inl c) b =
      bind_hash_identified-BindsGenesis o history fuel new name
        (all_roots-FindsRoots o history fuel new h enough).0 (ground arith)
  binds_genesis commit signer name (inr c) b =
      bind_hash_identified-BindsGenesis o history fuel new name
        (all_roots-FindsRoots o history fuel new h enough).0 (ground arith)

  -- Where the identity binding accepts a tip for an issue or comment refname, every parentless
  -- commit that the tip reaches is the genesis whose id is the last segment of the refname's text.
  pub identity_binding-genesis :
      (commit : CommitData) (signer : MemberId) (name : Bytes) (root : Oid)
      → IsHashIdentified name
      → identity_binding o fuel new commit signer name ≡ ok none
      → Reaches (parents_of o) new root
      → is_root o root ≡ true
      → o.oid_from_hex (final_segment o.name_to_string name) ≡ some root
  identity_binding-genesis commit signer name root e b reach is =
      let g = binds_genesis commit signer name e b in
      g.named ∙ ap some (sym (g.alone root reach is))

  -- A tip that is accepted for two issue or comment refnames, by whatever signers, is accepted for
  -- one id only: the last segments of the texts of both name the same genesis.
  pub identity_binding-no_replay :
      (commit : CommitData) (signer signer' : MemberId) (name name' : Bytes)
      → IsHashIdentified name
      → IsHashIdentified name'
      → identity_binding o fuel new commit signer name ≡ ok none
      → identity_binding o fuel new commit signer' name' ≡ ok none
      → o.oid_from_hex (final_segment o.name_to_string name)
        ≡ o.oid_from_hex (final_segment o.name_to_string name')
  identity_binding-no_replay commit signer signer' name name' e e' b b' =
      let g = binds_genesis commit signer name e b in
      g.named
      ∙ sym (identity_binding-genesis commit signer' name' g.genesis e' b' g.reached g.parentless)
