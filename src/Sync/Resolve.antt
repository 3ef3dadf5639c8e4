-- ===== src/Sync/Resolve.antt =====
-- Folding two heads into one signed tip (crates/kernel/ents-sync/src/resolve.rs). The walks run on
-- fuel, with a stack kept with its top first and a queue with its front first.
pub mod Base
pub mod Tips
use git_ents.Base.{
  ℕ, zero, suc, Bytes, codes, Bool, true, false, List, [], ◌∷◌, ◌++◌, Option, none, some, Result,
  ok, err, ◌>>=◌, if◌then◌else◌, ◌==◌, mem, rev_append,
}
use git_ents.Substrate.Refs.{Oid}
use git_ents.Substrate.Objects.{Kind, Objects}
use git_ents.Sync.Types.{SyncError, Sync, decode, write, out_of_fuel, Db, Commit, Git, at}
use git_ents.Sync.Objects.{commit_tree, parents}
use git_ents.Sync.Merge
use git_ents.Sync.Merge.Loop.{three_way}

pub record Heads : Type 0 where
  pub refname : Bytes
  pub ours : Option Oid
  pub theirs : Oid

pub data Merged : Type 0 where
  tip : Oid → Merged
  conflict : List Bytes → Merged

module _ (o : Objects) where
  unfoldable pub ancestors_loop : ℕ → List Oid → List Oid → Sync (List Oid)
  unfolding parents
  ancestors_loop zero stack seen = err out_of_fuel
  ancestors_loop (suc fuel) [] seen = ok seen
  ancestors_loop (suc fuel) (oid ∷ stack) seen =
      let skipped = ancestors_loop fuel stack seen in
      if mem oid seen
      then skipped
      else (do ps ← parents o oid; ancestors_loop fuel (rev_append ps stack) (oid ∷ seen))

  unfoldable pub ancestors : ℕ → Oid → Sync (List Oid)
  unfolding ancestors_loop
  ancestors fuel oid = ancestors_loop fuel (oid ∷ []) []

  unfoldable pub base_loop : ℕ → List Oid → List Oid → List Oid → Sync (Option Oid)
  unfolding parents
  base_loop zero ancestors_of_a queue seen = err out_of_fuel
  base_loop (suc fuel) ancestors_of_a [] seen = ok none
  base_loop (suc fuel) ancestors_of_a (oid ∷ queue) seen =
      let skipped = base_loop fuel ancestors_of_a queue seen in
      if mem oid seen
      then skipped
      else if mem oid ancestors_of_a
      then ok (some oid)
      else (do ps ← parents o oid; base_loop fuel ancestors_of_a (queue ++ ps) (oid ∷ seen))

  unfoldable pub merge_base : ℕ → Oid → Oid → Sync (Option Oid)
  unfolding ancestors base_loop
  merge_base fuel a b = do
    ancestors_of_a ← ancestors fuel a
    base_loop fuel ancestors_of_a (b ∷ []) []

abbrev unsigned : Oid → List Oid → Bytes → Bytes → Commit
unsigned tree ps author summary = record {
  tree = tree;
  parents = ps;
  author = author;
  committer = author;
  message = summary;
  extra_headers = [];
}

abbrev with_sig : Commit → Bytes → Commit
with_sig commit pem = record {
  tree = commit.tree;
  parents = commit.parents;
  author = commit.author;
  committer = commit.committer;
  message = commit.message;
  extra_headers = commit.extra_headers ++ (codes "gpgsig", pem) ∷ [];
}

abbrev base_tree : Objects → Option Oid → Sync (Option Oid)
base_tree o none = ok none
base_tree o (some b) = do t ← commit_tree o b; ok (some t)

-- The trees of the merge base and of ours.
unfoldable pub our_trees : Objects → ℕ → Oid → Oid → Sync (Option Oid × Oid)
unfolding merge_base commit_tree
our_trees o fuel ours theirs = do
  base ← merge_base o fuel ours theirs
  b ← base_tree o base
  t ← commit_tree o ours
  ok (b, t)

-- `trim_end` is `str::trim_end`; `sign` makes the signature of a payload.
module _ (g : Git) (trim_end : Bytes → Bytes) (sign : Bytes → Bytes) where
  unfoldable pub seal : Oid → List Oid → Bytes → Bytes → Db → Sync Oid × Db
  seal tree ps author summary db =
      let commit = unsigned tree ps author summary in
      elim (g.write_commit commit) [
        | none ↦ (err (decode tree), db)
        | some payload ↦ elim (g.write_commit (with_sig commit (trim_end (sign payload)))) [
          | none ↦ (err (decode tree), db)
          | some raw ↦
              let (written, after) = g.write_buf db Kind.commit raw in
              elim written [ err _ ↦ (err write, after) | ok oid ↦ (ok oid, after) ]
        ]
      ]

  unfoldable pub seal_tip : Oid → List Oid → Bytes → Bytes → Db → Sync Merged × Db
  unfolding seal
  seal_tip tree ps author summary db =
      let (sealed, after) = seal tree ps author summary db in
      elim sealed [ err e ↦ (err e, after) | ok oid ↦ (ok (tip oid), after) ]

  -- The `match heads.ours`.
  unfoldable pub merge_onto :
      Objects → ℕ → Option Oid → Oid → Oid → Bytes → Bytes → Db → Sync Merged × Db
  unfolding seal_tip our_trees three_way
  merge_onto o fuel none theirs theirs_tree author summary db =
      seal_tip theirs_tree (theirs ∷ []) author summary db
  merge_onto o fuel (some ours) theirs theirs_tree author summary db =
      elim (our_trees (at o db) fuel ours theirs) [
        | err e ↦ (err e, db)
        | ok (base, ours_tree) ↦
            let (merge, after) = three_way g o fuel base ours_tree theirs_tree db in
            elim merge [
              | err e ↦ (err e, after)
              | ok (Merge.clean tree) ↦ seal_tip tree (ours ∷ theirs ∷ []) author summary after
              | ok (Merge.conflict paths) ↦ (ok (conflict paths), after)
            ]
      ]

  unfoldable pub merge_heads : Objects → ℕ → Heads → Bytes → Bytes → Db → Sync Merged × Db
  unfolding merge_onto commit_tree
  merge_heads o fuel heads author summary db = elim (commit_tree (at o db) heads.theirs) [
    | err e ↦ (err e, db)
    | ok theirs_tree ↦ merge_onto o fuel heads.ours heads.theirs theirs_tree author summary db
  ]
