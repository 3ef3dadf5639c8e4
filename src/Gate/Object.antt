-- ===== src/Gate/Object.antt =====
-- Commits and trees read from the object store, and the two walks over a commit's ancestry
-- (crates/kernel/ents-gate/src/object.rs). A walk's `queue` is kept with its last element first, so
-- that `pop` takes the head and `extend` pushes the new elements one by one. The walks run on fuel.
pub mod Ancestry
pub mod Roots
use git_ents.Base.{
  ℕ, zero, suc, Bytes, bytes_eq, Bool, true, false, List, [], ◌∷◌, ◌++◌, map, Option, none, some,
  ok, err, ◌>>=◌, if◌then◌else◌, ◌==◌, mem, rev_append,
}
use git_ents.Substrate.Refs.{Oid}
use git_ents.Substrate.Objects.{Kind, Object, TreeEntry, Objects}
use git_ents.Gate.Errors.{Gate, object, missing, decode, out_of_fuel}

pub record CommitData : Type 0 where
  pub raw : Bytes
  pub tree : Oid
  pub parents : List Oid

abbrev is_commit : Kind → Bool
is_commit Kind.commit = true
is_commit _ = false

abbrev is_tree : Kind → Bool
is_tree Kind.tree = true
is_tree _ = false

-- `entries.iter().find(|e| e.filename == entry)`, of which the object id is kept
unfoldable pub entry_oid : Bytes → List TreeEntry → Option Oid
entry_oid name [] = none
entry_oid name (e ∷ entries) =
    if bytes_eq e.filename name then some e.oid else entry_oid name entries

-- What one unseen commit adds: the queue and the roots after it.
abbrev pub visit_root : Oid → Option CommitData → List Oid → List Oid → List Oid × List Oid
visit_root oid none queue roots = (queue, roots)
visit_root oid (some commit) queue roots = elim commit.parents [
  | [] ↦ (queue, roots ++ oid ∷ [])
  | p ∷ ps ↦ (rev_append (p ∷ ps) queue, roots)
]

-- The parents that a commit adds to the queue; a commit that cannot be read adds none.
abbrev pub parents_or_none : Gate (Option CommitData) → List Oid
parents_or_none (ok (some commit)) = commit.parents
parents_or_none (ok none) = []
parents_or_none (err e) = []

module _ (o : Objects) where
  -- `try_find(..)?.ok_or(Missing)?`
  unfoldable pub find : Oid → Gate Object
  find oid = elim (o.try_find oid) [
    | err e ↦ err (object oid)
    | ok none ↦ err (missing oid)
    | ok (some data_) ↦ ok data_
  ]

  unfoldable pub decode_commit : Bytes → Oid → Gate (Oid × List Oid)
  decode_commit raw oid = elim (o.commit_from_bytes raw) [
    | none ↦ err (decode oid)
    | some parts ↦ ok parts
  ]

  unfoldable pub read_commit : Oid → Gate (Option CommitData)
  unfolding find decode_commit
  read_commit oid = do
    found ← find oid
    if is_commit found.kind
        then (do
          (tree, parents) ← decode_commit found.bytes oid
          ok (some (record { raw = found.bytes; tree = tree; parents = parents })))
        else ok none

  unfoldable pub expect_commit : Oid → Gate CommitData
  unfolding read_commit
  expect_commit oid = do
    found ← read_commit oid
    elim found [ none ↦ err (decode oid) | some commit ↦ ok commit ]

  unfoldable pub decode_tree : Bytes → Oid → Gate (List TreeEntry)
  decode_tree bytes oid = elim (o.tree_from_bytes bytes) [
    | none ↦ err (decode oid)
    | some entries ↦ ok entries
  ]

  unfoldable pub read_tree_entry : Oid → Bytes → Gate (Option Bytes)
  unfolding find decode_tree entry_oid
  read_tree_entry tree entry = do
    found ← find tree
    if is_tree found.kind
        then (do
          entries ← decode_tree found.bytes tree
          elim (entry_oid entry entries) [
            | none ↦ ok none
            | some child ↦ do blob ← find child; ok (some blob.bytes)
          ])
        else ok none

  unfoldable pub tree_entry_names : Oid → Gate (List Bytes)
  unfolding find decode_tree
  tree_entry_names tree = do
    found ← find tree
    if is_tree found.kind
        then (do
          entries ← decode_tree found.bytes tree
          ok (map (λ (e : TreeEntry). o.from_utf8_lossy e.filename) entries))
        else ok []

  unfoldable pub roots_loop : ℕ → List Oid → List Oid → List Oid → Gate (List Oid)
  roots_loop zero queue seen roots = err out_of_fuel
  roots_loop (suc fuel) [] seen roots = ok roots
  roots_loop (suc fuel) (oid ∷ queue) seen roots =
      let skipped = roots_loop fuel queue seen roots in
      if mem oid seen then skipped else (do
        found ← read_commit oid
        let next = visit_root oid found queue roots
        roots_loop fuel next.0 (oid ∷ seen) next.1)

  -- Every parentless commit that the tip reaches.
  unfoldable pub all_roots : ℕ → Oid → Gate (List Oid)
  unfolding roots_loop read_commit
  all_roots fuel tip = roots_loop fuel (tip ∷ []) [] []

  unfoldable pub descent_loop : ℕ → Oid → List Oid → List Oid → Gate Bool
  descent_loop zero ancestor queue seen = err out_of_fuel
  descent_loop (suc fuel) ancestor [] seen = ok false
  descent_loop (suc fuel) ancestor (oid ∷ queue) seen =
      let skipped = descent_loop fuel ancestor queue seen in
      let further =
        descent_loop fuel ancestor (rev_append (parents_or_none (read_commit oid)) queue)
          (oid ∷ seen) in
      if oid == ancestor then ok true else if mem oid seen then skipped else further

  unfoldable pub descends_from : ℕ → Oid → Oid → Gate Bool
  unfolding descent_loop read_commit
  descends_from fuel descendant ancestor = descent_loop fuel ancestor (descendant ∷ []) []
