-- ===== src/Sync/Examples.antt =====
-- Copying and fetching on the small repository.
mod Nested
mod Push
mod Merges
use git_ents.Base.{
  ℕ, Bytes, codes, bytes_eq, bytes_eq_refl, starts_with, strip_prefix, split_once, Bool, true,
  false, Bool-cases, List, [], ◌∷◌, ◌++◌, Option, none, some, Result, ok, err, ==_refl, mem, ◌≡◌,
  ◌≤◌, ◌≢◌, refl, ap, sym, ◌∙◌, inl, inr, arith,
}
use git_ents.Graph.{Reaches, weight}
use git_ents.Graph
use git_ents.Substrate.Refs.{
  Oid, Expected, any, must_not_exist, must_exist_and_match, RefEdit, TxOutcome, StoreError,
  RefStoreRead,
}
use git_ents.Substrate.Objects.{Object}
use git_ents.Gate.Sample.{refs, issue_name}
use git_ents.Receive.Judgments.{HoldsAt}
use git_ents.Receive.Sample.{all_held, is_held, compare_and_swap, is_held_sound}
use git_ents.Sync.Types.{SyncError, out_of_fuel, Db, at}
use git_ents.Sync.Objects.{
  links, find, decode_commit, decode_tree, parents, copy_one, copy_loop, copy_closure,
  descends_from, descent_loop, commit_tree,
}
use git_ents.Sync.Objects.Descent.{
  parents_of, HasHistory, walk_fuel, Answers, descends_from-Decides,
}
use git_ents.Sync.Objects.Copied.{links_of, IsCopied, copy_closure-IsCopied}
use git_ents.Sync.Objects.Enough.{HasObjects, copy_fuel, copy_closure_fuel}
use git_ents.Sync.Transfer.{
  meta_prefix, Repository, FetchReport, fetch, fetch_all, fetch_one, reconcile, land, advance,
  report_in,
}
use git_ents.Sync.Transfer.FastForward.{IsCas}
use git_ents.Sync.Transfer.Replica.{no_report, Replicates, fetch-FetchRun}
use git_ents.Sync.Sample.{objects, git, db, hash, git-IsStore, db-IsAddressed}

compare_and_swap-IsCas : IsCas compare_and_swap
compare_and_swap-IsCas = record {
  applied = λ refs after e h. elim (Bool-cases (is_held refs e)) [
    | inl k ↦
        let q = ap (λ x. x.1) (rw (all_held, k) at h) in
        (is_held_sound refs e.name e.expected e.new k, rw (← q) (rw (bytes_eq_refl e.name) refl))
    | inr k ↦ absurd (let t = ap (λ x. x.0) (rw k at h) in cc)
  ];
  rejected = λ refs after e name h. elim (Bool-cases (is_held refs e)) [
    | inl k ↦ absurd (let t = ap (λ x. x.0) (rw k at h) in cc)
    | inr k ↦ sym (ap (λ x. x.1) (rw k at h))
  ];
}

-- The local repository: the same objects, and the issue at commit 1 or nowhere.
abbrev empty_db : Db
empty_db x = ok none

copied : (copy_closure objects git 20 2 empty_db).0 ≡ ok tt
unfolding copy_closure copy_loop copy_one find links decode_commit decode_tree bytes_eq
copied = refl

parent_linked : Reaches (links_of objects) 2 1
unfolding links find decode_commit
parent_linked = Graph.step refl (Graph.here 1)

copy_closure-IsCopied_example : IsCopied objects (copy_closure objects git 20 2 empty_db).1 1
copy_closure-IsCopied_example =
    copy_closure-IsCopied objects git hash 20 2 empty_db (copy_closure objects git 20 2 empty_db).1
      git-IsStore db-IsAddressed (ap (λ r. (r, (copy_closure objects git 20 2 empty_db).1)) copied)
      1 parent_linked

objects-HasHistory : HasHistory objects (1 ∷ 2 ∷ 20 ∷ 30 ∷ [])
unfolding parents decode_commit
objects-HasHistory x h = ground arith

enough_to_walk : walk_fuel objects (1 ∷ 2 ∷ 20 ∷ 30 ∷ []) ≤ 20
unfolding parents decode_commit weight
enough_to_walk = omega arith

objects-HasObjects : HasObjects objects (1 ∷ 2 ∷ 20 ∷ 30 ∷ 102 ∷ 103 ∷ [])
unfolding links find decode_commit decode_tree
objects-HasObjects x h = ground arith

enough_to_copy : copy_fuel objects (1 ∷ 2 ∷ 20 ∷ 30 ∷ 102 ∷ 103 ∷ []) ≤ 20
unfolding links find decode_commit decode_tree weight
enough_to_copy = omega arith

copy_closure_fuel_example : (copy_closure objects git 20 2 empty_db).0 ≢ err out_of_fuel
copy_closure_fuel_example =
    copy_closure_fuel objects git (1 ∷ 2 ∷ 20 ∷ 30 ∷ 102 ∷ 103 ∷ []) 20 2 empty_db
      objects-HasObjects enough_to_copy

abbrev others : RefStoreRead → RefStoreRead
others store = store

-- The remote lists the issue at commit 2; the local issue is at commit 1.
abbrev remote_refs : RefStoreRead
remote_refs = record { get = refs.get; iter_prefix = λ _. ok (ok (issue_name, 2) ∷ []) }

abbrev local_repository : Repository
local_repository = record { refs = refs; db = empty_db }

abbrev fetched : Repository
fetched = (fetch git compare_and_swap objects others 20 remote_refs local_repository).1

abbrev issue_updated : FetchReport
issue_updated = record { updated = issue_name ∷ []; unchanged = []; diverged = []; stale = [] }

fetched_issue :
    fetch git compare_and_swap objects others 20 remote_refs local_repository
    ≡ (ok issue_updated, fetched)
unfolding fetch fetch_all fetch_one report_in reconcile land advance copy_closure copy_loop copy_one
    find links decode_commit decode_tree descends_from descent_loop parents bytes_eq
fetched_issue = refl

fetch-FetchRun_example :
    (listing : List (Result StoreError (Bytes × Oid))) × (remote_refs.iter_prefix meta_prefix
      ≡ ok listing)
    × Replicates objects others listing local_repository no_report fetched issue_updated
fetch-FetchRun_example =
    fetch-FetchRun git compare_and_swap compare_and_swap-IsCas objects others 20 hash git-IsStore
      db-IsAddressed remote_refs issue_updated local_repository fetched fetched_issue
