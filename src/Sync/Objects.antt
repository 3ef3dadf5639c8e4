-- ===== src/Sync/Objects.antt =====
-- Reading commits and trees, and copying what a commit reaches (crates/kernel/ents-sync/src/objects.rs).
-- A stack is kept with its top first, and the loops run on fuel.
pub mod Descent
pub mod Copied
pub mod Enough
use git_ents.Base.{
  ℕ, zero, suc, Bytes, Bool, true, false, List, [], ◌∷◌, map, Option, none, some, Result, ok, err,
  ◌>>=◌, if◌then◌else◌, ◌==◌, mem, rev_append,
}
use git_ents.Substrate.Refs.{Oid}
use git_ents.Substrate.Objects.{Kind, Object, TreeEntry, Objects}
use git_ents.Sync.Types.{Sync, object, missing, decode, write, out_of_fuel, Db, Git, at}

abbrev is_commit : Kind → Bool
is_commit Kind.commit = true
is_commit _ = false

module _ (o : Objects) where
  -- `try_find(..)?.ok_or(Missing)?`
  unfoldable pub find : Oid → Sync Object
  find oid = elim (o.try_find oid) [
    | err e ↦ err (object oid)
    | ok none ↦ err (missing oid)
    | ok (some data_) ↦ ok data_
  ]

  unfoldable pub decode_commit : Bytes → Oid → Sync (Oid × List Oid)
  decode_commit raw oid = elim (o.commit_from_bytes raw) [
    | none ↦ err (decode oid)
    | some parts ↦ ok parts
  ]

  unfoldable pub decode_tree : Bytes → Oid → Sync (List TreeEntry)
  decode_tree raw oid = elim (o.tree_from_bytes raw) [
    | none ↦ err (decode oid)
    | some entries ↦ ok entries
  ]

  unfoldable pub commit_tree : Oid → Sync Oid
  unfolding find decode_commit
  commit_tree oid = do found ← find oid; (tree, parents) ← decode_commit found.bytes oid; ok tree

  -- The parents of an object; one that is absent or no commit has none.
  unfoldable pub parents : Oid → Sync (List Oid)
  unfolding decode_commit
  parents oid = elim (o.try_find oid) [
    | err e ↦ err (object oid)
    | ok none ↦ ok []
    | ok (some found) ↦
        if is_commit found.kind
        then (do (tree, ps) ← decode_commit found.bytes oid; ok ps)
        else ok []
  ]

  unfoldable pub descent_loop : ℕ → Oid → List Oid → List Oid → Sync Bool
  unfolding parents
  descent_loop zero ancestor stack seen = err out_of_fuel
  descent_loop (suc fuel) ancestor [] seen = ok false
  descent_loop (suc fuel) ancestor (oid ∷ stack) seen =
      let skipped = descent_loop fuel ancestor stack seen in
      if oid == ancestor
      then ok true
      else if mem oid seen
      then skipped
      else (do ps ← parents oid; descent_loop fuel ancestor (rev_append ps stack) (oid ∷ seen))

  unfoldable pub descends_from : ℕ → Oid → Oid → Sync Bool
  unfolding descent_loop
  descends_from fuel descendant ancestor = descent_loop fuel ancestor (descendant ∷ []) []

  -- The objects that an object names, in the order in which they are pushed.
  unfoldable pub links : Object → Oid → Sync (List Oid)
  unfolding decode_commit decode_tree
  links found oid = elim found.kind [
    | Kind.commit ↦ do (tree, ps) ← decode_commit found.bytes oid; ok (tree ∷ ps)
    | Kind.tree ↦ do
      entries ← decode_tree found.bytes oid
      ok (map (λ (e : TreeEntry). e.oid) entries)
    | Kind.blob ↦ ok []
    | Kind.tag ↦ ok []
  ]

-- `copy_closure`, from the objects of `src` into the store `dst`.
module _ (src : Objects) (g : Git) where
  -- One object: it is read, written, and what it names is answered.
  unfoldable pub copy_one : Oid → Db → Sync (List Oid) × Db
  unfolding find links
  copy_one oid dst = elim (find src oid) [
    | err e ↦ (err e, dst)
    | ok found ↦
        let (written, after) = g.write_buf dst found.kind found.bytes in
        elim written [ err _ ↦ (err write, after) | ok _ ↦ (links src found oid, after) ]
  ]

  unfoldable pub copy_loop : ℕ → List Oid → List Oid → Db → Sync (Unit {0}) × Db
  unfolding copy_one
  copy_loop zero stack seen dst = (err out_of_fuel, dst)
  copy_loop (suc fuel) [] seen dst = (ok tt, dst)
  copy_loop (suc fuel) (oid ∷ stack) seen dst =
      let skipped = copy_loop fuel stack seen dst in
      if mem oid seen
      then skipped
      else (let (next, after) = copy_one oid dst in
          elim next [
            | err e ↦ (err e, after)
            | ok named ↦ copy_loop fuel (rev_append named stack) (oid ∷ seen) after
          ])

  unfoldable pub copy_closure : ℕ → Oid → Db → Sync (Unit {0}) × Db
  unfolding copy_loop
  copy_closure fuel root dst = copy_loop fuel (root ∷ []) [] dst
