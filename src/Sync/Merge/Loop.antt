-- ===== src/Sync/Merge/Loop.antt =====
-- `three_way` itself (crates/kernel/ents-sync/src/merge.rs). `nested` is the recursive call.
use git_ents.Base.{
  ℕ, zero, suc, Bytes, List, [], ◌∷◌, ◌++◌, Option, none, some, ok, err, ◌>>=◌, if◌then◌else◌, ◌==◌,
}
use git_ents.Substrate.Refs.{Oid}
use git_ents.Substrate.Objects.{Objects}
use git_ents.Sync.Types.{Sync, out_of_fuel, Db, Git, at}
use git_ents.Sync.Merge.{
  Merge, clean, Slot, Slots, get, read_tree, extend_names, push_slot, keep, descend, clash, choose,
  Gathered, take_in, finish,
}

abbrev pub Nested : Type 0
Nested = Option Oid → Oid → Oid → Db → Sync Merge × Db

abbrev pub kept : Bytes → Option Slot → Gathered → Gathered
kept name slot got = record { merged = push_slot got.merged name slot; conflicts = got.conflicts }

abbrev pub clashed : Bytes → Gathered → Gathered
clashed name got = record { merged = got.merged; conflicts = got.conflicts ++ name ∷ [] }

abbrev pub read_base : Objects → Option Oid → Sync Slots
read_base o none = ok []
read_base o (some oid) = read_tree o oid

unfoldable pub read_sides : Objects → Option Oid → Oid → Oid → Sync (Slots × Slots × Slots)
unfolding read_tree
read_sides o base ours theirs = do
  b ← read_base o base
  u ← read_tree o ours
  t ← read_tree o theirs
  ok (b, u, t)

module _ (g : Git) where
  unfoldable pub merge_names :
      Nested → Slots → Slots → Slots → List Bytes → Gathered → Db → Sync Gathered × Db
  unfolding get choose push_slot take_in
  merge_names nested b o t [] got db = (ok got, db)
  merge_names nested b o t (name ∷ names) got db =
      elim (choose g (get name b) (get name o) (get name t)) [
        | keep slot ↦ merge_names nested b o t names (kept name slot got) db
        | clash ↦ merge_names nested b o t names (clashed name got) db
        | descend base ours theirs ↦
            let (merge, after) = nested base ours theirs db in
            elim merge [
              | err e ↦ (err e, after)
              | ok m ↦ merge_names nested b o t names (take_in g name m got) after
            ]
      ]

  -- From the three maps on.
  unfoldable pub merge_slots : Nested → Slots → Slots → Slots → Db → Sync Merge × Db
  unfolding merge_names extend_names finish
  merge_slots nested b o t db =
      let names = extend_names t (extend_names o (extend_names b [])) in
      let (gathered, after) =
        merge_names nested b o t names (record { merged = []; conflicts = [] }) db in
      elim gathered [ err e ↦ (err e, after) | ok got ↦ finish g got after ]

  unfoldable pub three_way : Objects → ℕ → Nested
  unfolding read_sides merge_slots
  three_way o zero base ours theirs db = (err out_of_fuel, db)
  three_way o (suc fuel) base ours theirs db =
      if ours == theirs
      then (ok (clean ours), db)
      else elim (read_sides (at o db) base ours theirs) [
        | err e ↦ (err e, db)
        | ok (b, u, t) ↦ merge_slots (three_way o fuel) b u t db
      ]
