-- ===== src/Gate/Total/Reads.antt =====
-- Reads of objects and of the policy take no fuel.
use git_ents.Base.{
  ℕ, ◌≤◌, Bytes, Bool, true, false, List, [], ◌∷◌, Option, none, some, Result, ok, err, ◌>>=◌, ◌≡◌,
  arith, if◌then◌else◌, Option-cases, inl, inr,
}
use git_ents.Substrate.Refs.{Oid, StoreError, RefStoreRead}
use git_ents.Substrate.Objects.{Objects}
use git_ents.Gate.Errors.{Gate, out_of_fuel, from_store}
use git_ents.Gate.Object.{
  CommitData, read_commit, read_tree_entry, tree_entry_names, all_roots, descends_from,
}
use git_ents.Gate.Object.Ancestry.{HasHistory, walk_fuel, descends_from_iff}
use git_ents.Gate.Object.Roots.{all_roots-FindsRoots}
use git_ents.Gate.Policy.{
  Enrolled, member_prefix, enroll, members, member_current, config_at_commit, current_epoch,
}
use git_ents.Gate.Authority.{find_signer, signer_id, signer_of_commit, commit_signer}
use git_ents.Gate.Signature.{split_signed}

abbrev pub HasFuel {ℓ} : {A : Type ℓ} → Gate A → Type ℓ
HasFuel r = ¬ (r ≡ err out_of_fuel)

pub HasFuel-bind {ℓ κ} :
    {A : Type ℓ} {B : Type κ} (m : Gate A) (f : A → Gate B)
    → HasFuel m
    → ((a : A) → HasFuel (f a))
    → HasFuel (m >>= f)
HasFuel-bind (ok a) f h k = k a
HasFuel-bind (err e) f h k = λ p. h (ground arith)

pub HasFuel-ok {ℓ} : {A : Type ℓ} (a : A) → HasFuel (ok a)
HasFuel-ok a p = cc

pub HasFuel-if {ℓ} :
    {A : Type ℓ} (b : Bool) (x y : Gate A) → HasFuel x → HasFuel y → HasFuel (if b then x else y)
HasFuel-if true x y hx hy = hx
HasFuel-if false x y hx hy = hy

pub HasFuel-from_store {ℓ} : {A : Type ℓ} (r : Result StoreError A) → HasFuel (from_store r)
HasFuel-from_store (ok a) p = cc
HasFuel-from_store (err e) p = cc

module _ (o : Objects) where
  pub read_commit-HasFuel : (x : Oid) → HasFuel (read_commit o x)
  unfolding read_commit
  read_commit-HasFuel x p = ground arith

  pub read_tree_entry-HasFuel :
      (tree : Oid) (entry : Bytes) → HasFuel (read_tree_entry o tree entry)
  unfolding read_tree_entry
  read_tree_entry-HasFuel tree entry p = ground arith

  pub tree_entry_names-HasFuel : (tree : Oid) → HasFuel (tree_entry_names o tree)
  unfolding tree_entry_names
  tree_entry_names-HasFuel tree p = ground arith

  pub member_current-HasFuel : (tip : Oid) → HasFuel (member_current o tip)
  unfolding member_current
  member_current-HasFuel tip p = ground arith

  pub config_at_commit-HasFuel : (tip : Oid) → HasFuel (config_at_commit o tip)
  unfolding config_at_commit
  config_at_commit-HasFuel tip p = ground arith

  pub current_epoch-HasFuel : (refs : RefStoreRead) → HasFuel (current_epoch o refs)
  unfolding current_epoch
  current_epoch-HasFuel refs p = ground arith

  pub enroll-HasFuel :
      (l : List (Result StoreError (Bytes × Oid))) → HasFuel (enroll o.name_to_string l)
  unfolding enroll
  enroll-HasFuel [] p = cc
  enroll-HasFuel (ok e ∷ l) p = ground (arith, enroll-HasFuel l)
  enroll-HasFuel (err e ∷ l) p = cc

  pub members-HasFuel : (refs : RefStoreRead) → HasFuel (members o.name_to_string refs)
  unfolding members
  members-HasFuel refs =
      HasFuel-bind (from_store (refs.iter_prefix member_prefix)) (λ l. enroll o.name_to_string l)
        (HasFuel-from_store (refs.iter_prefix member_prefix)) enroll-HasFuel

  pub find_signer-HasFuel :
      (l : List Enrolled) (payload sig : Bytes) → HasFuel (find_signer o l payload sig)
  unfolding find_signer
  find_signer-HasFuel [] payload sig p = cc
  find_signer-HasFuel (e ∷ l) payload sig p =
      ground (arith, member_current-HasFuel e.tip, find_signer-HasFuel l payload sig)

  signer_id-HasFuel :
      (l : List Enrolled) (payload sig : Bytes) → HasFuel (signer_id o l payload sig)
  unfolding signer_id
  signer_id-HasFuel [] payload sig p = cc
  signer_id-HasFuel (e ∷ l) payload sig p =
      ground (arith, member_current-HasFuel e.tip, signer_id-HasFuel l payload sig)

  pub commit_signer-HasFuel : (l : List Enrolled) (oid : Oid) → HasFuel (commit_signer o l oid)
  unfolding commit_signer
  commit_signer-HasFuel l oid =
      HasFuel-bind (read_commit o oid) _ (read_commit-HasFuel oid) λ found. by_commit found
    where
      by_commit : (found : Option CommitData) → HasFuel (signer_of_commit o l found)
      by_commit none p = cc
      by_commit (some commit) p = elim (Option-cases (split_signed o commit.raw)) [
        | inl e ↦ ground arith
        | inr (signed, e) ↦ ground (arith, signer_id-HasFuel l signed.0 signed.1)
      ]

  module _ (history : List Oid) (fuel : ℕ) (h : HasHistory o history)
      (enough : walk_fuel o history ≤ fuel) where
    pub all_roots-HasFuel : (tip : Oid) → HasFuel (all_roots o fuel tip)
    all_roots-HasFuel tip = (all_roots-FindsRoots o history fuel tip h enough).1

    pub descends_from-HasFuel : (new old : Oid) → HasFuel (descends_from o fuel new old)
    descends_from-HasFuel new old p =
        let (b, e, _) = descends_from_iff o history fuel new old h enough in cc
