-- ===== src/Sync/Merge.antt =====
-- The three-way merge of typed trees (crates/kernel/ents-sync/src/merge.rs). The nested merges run on
-- fuel.
pub mod Loop
pub mod Names
pub mod Commute
pub mod Fields
pub mod Clean
pub mod Enough
use git_ents.Base.{
  ℕ, zero, suc, Bytes, bytes_eq, codes, Bool, true, false, ◌&&◌, List, [], ◌∷◌, ◌++◌, map, Option,
  none, some, Result, ok, err, ◌>>=◌, if◌then◌else◌, ◌==◌, any, bytes_leb, sort_bytes,
}
use git_ents.Substrate.Refs.{Oid}
use git_ents.Substrate.Objects.{TreeEntry, Objects}
use git_ents.Sync.Types.{SyncError, Sync, write, out_of_fuel, Db, Git, at}
use git_ents.Sync.Objects.{find, decode_tree}

pub data Merge : Type 0 where
  clean : Oid → Merge
  conflict : List Bytes → Merge

unfoldable pub tree : Merge → Option Oid
tree (clean oid) = some oid
tree (conflict _) = none

pub record Slot : Type 0 where
  pub oid : Oid
  pub mode : ℕ

-- A `HashMap<BString, Slot>`: the entries of a tree, the last one first, of which the first with a
-- name is the one that the map holds.
abbrev pub Slots : Type 0
Slots = List (Bytes × Slot)

unfoldable pub get : Bytes → Slots → Option Slot
get name [] = none
get name ((key, slot) ∷ slots) = if bytes_eq key name then some slot else get name slots

abbrev pub slot_eq : Slot → Slot → Bool
slot_eq a b = a.oid == b.oid && a.mode == b.mode

unfoldable pub same_slot : Option Slot → Option Slot → Bool
same_slot none none = true
same_slot (some a) (some b) = slot_eq a b
same_slot _ _ = false

unfoldable pub insert_all : List TreeEntry → Slots → Slots
insert_all [] slots = slots
insert_all (e ∷ entries) slots =
    insert_all entries ((e.filename, record { oid = e.oid; mode = e.mode }) ∷ slots)

unfoldable pub read_tree : Objects → Oid → Sync Slots
unfolding find decode_tree insert_all
read_tree o oid = do
  found ← find o oid
  entries ← decode_tree o found.bytes oid
  ok (insert_all entries [])

-- A `BTreeSet` of names: sorted, each once.
unfoldable pub insert_name : Bytes → List Bytes → List Bytes
unfolding bytes_leb bytes_eq
insert_name name [] = name ∷ []
insert_name name (n ∷ names) =
    let rest = insert_name name names in
    if bytes_eq name n then n ∷ names else if bytes_leb name n then name ∷ n ∷ names else n ∷ rest

unfoldable pub extend_names : Slots → List Bytes → List Bytes
unfolding insert_name
extend_names [] names = names
extend_names ((key, _) ∷ slots) names = extend_names slots (insert_name key names)

-- `join`
unfoldable pub join : Bytes → Bytes → Bytes
join parent child = parent ++ b'/' ∷ child

abbrev pub entry_of : Bytes → Slot → TreeEntry
entry_of name slot = record { filename = name; oid = slot.oid; mode = slot.mode }

unfoldable pub push_slot : List TreeEntry → Bytes → Option Slot → List TreeEntry
push_slot merged name none = merged
push_slot merged name (some slot) = merged ++ entry_of name slot ∷ []

-- What one name comes to: an entry or none, a nested merge, or a conflict.
pub data Choice : Type 0 where
  keep : Option Slot → Choice
  descend : Option Oid → Oid → Oid → Choice
  clash : Choice

-- What the loop has gathered.
pub record Gathered : Type 0 where
  pub merged : List TreeEntry
  pub conflicts : List Bytes

module _ (g : Git) where
  abbrev pub is_tree : Slot → Bool
  is_tree slot = g.mode_is_tree slot.mode

  abbrev sub_base : Option Slot → Option Oid
  sub_base none = none
  sub_base (some slot) = if is_tree slot then some slot.oid else none

  -- The last branch, where both sides changed the entry.
  unfoldable pub both_changed : Option Slot → Option Slot → Option Slot → Choice
  both_changed b (some o) (some t) =
      if is_tree o && is_tree t then descend (sub_base b) o.oid t.oid else clash
  both_changed b _ _ = clash

  -- The chain of tests on one name.
  unfoldable pub choose : Option Slot → Option Slot → Option Slot → Choice
  unfolding same_slot both_changed
  choose b o t =
      if same_slot o t
      then keep o
      else if same_slot o b
      then keep t
      else if same_slot t b
      then keep o
      else both_changed b o t

  abbrev pub tree_entry : Bytes → Oid → TreeEntry
  tree_entry name sub = record { filename = name; oid = sub; mode = g.tree_mode }

  -- What the nested merge adds.
  unfoldable pub take_in : Bytes → Merge → Gathered → Gathered
  unfolding join
  take_in name (clean sub) got = record {
    merged = got.merged ++ tree_entry name sub ∷ [];
    conflicts = got.conflicts;
  }
  take_in name (conflict paths) got = record {
    merged = got.merged;
    conflicts = got.conflicts ++ map (join name) paths;
  }

  -- After the loop.
  unfoldable pub finish : Gathered → Db → Sync Merge × Db
  finish got db = elim got.conflicts [
    | [] ↦
        let (written, after) = g.write_tree db (g.sort_entries got.merged) in
        elim written [ err _ ↦ (err write, after) | ok oid ↦ (ok (clean oid), after) ]
    | p ∷ ps ↦ (ok (conflict (sort_bytes (p ∷ ps))), db)
  ]
