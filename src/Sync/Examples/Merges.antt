-- ===== src/Sync/Examples/Merges.antt =====
-- Merging on the small repository: two trees with a file each, and two commits of one line.
use git_ents.Base.{Bytes, bytes_eq, bytes_leb, [], ◌∷◌, some, ok, Option, err, ◌≢◌, ◌≡◌, refl}
use git_ents.Graph.{Reaches}
use git_ents.Gate.Sample.{issue_name}
use git_ents.Sync.Types.{Db, at}
use git_ents.Sync.Objects.{find, decode_commit, decode_tree, commit_tree, parents}
use git_ents.Sync.Objects.Descent.{parents_of}
use git_ents.Sync.Merge.{
  Slots, clean, read_tree, get, insert_all, insert_name, extend_names, same_slot, both_changed,
  choose, push_slot, finish,
}
use git_ents.Sync.Merge.Loop.{merge_names, merge_slots, read_sides, three_way}
use git_ents.Sync.Merge.Commute.{three_way_comm}
use git_ents.Sync.Merge.Clean.{Written, three_way-OneSided}
use git_ents.Sync.Resolve.{
  Heads, tip, ancestors, ancestors_loop, base_loop, merge_base, our_trees, seal, seal_tip,
  merge_onto, merge_heads,
}
use git_ents.Sync.Resolve.Base.{Answer, merge_base-Decides}
use git_ents.Sync.Resolve.Tips.{Rereads, merge_heads-Descends}
use git_ents.Sync.Transfer.FastForward.{Descends}
use git_ents.Substrate.Refs.{Oid}
use git_ents.Sync.Types.{out_of_fuel}
use git_ents.Sync.Examples.{objects-HasHistory, enough_to_walk}
use git_ents.Sync.Sample.{objects, git, db, hash, git-IsStore}

merged : three_way git objects 3 (some 101) 102 103 db ≡ (ok (clean 105), db)
unfolding three_way read_sides read_tree find decode_tree insert_all merge_slots extend_names
    insert_name merge_names get choose same_slot both_changed push_slot finish bytes_eq bytes_leb
merged = refl

three_way_comm_example : three_way git objects 3 (some 101) 103 102 db ≡ (ok (clean 105), db)
three_way_comm_example = three_way_comm git objects 3 (some 101) 102 103 db (clean 105) db merged

merge_base-Decides_example :
    (merge_base objects 20 1 2 ≢ err out_of_fuel)
    × ((found : Option Oid) → merge_base objects 20 1 2 ≡ ok found → Answer objects 1 2 found)
merge_base-Decides_example =
    merge_base-Decides objects (1 ∷ 2 ∷ 20 ∷ 30 ∷ []) objects-HasHistory 20 1 2 enough_to_walk

git-Rereads : Rereads git objects
git-Rereads commit raw h = let e : 0 ∷ commit.tree ∷ commit.parents ≡ raw = cc h in rw (← e) refl

abbrev heads : Heads
heads = record { refname = issue_name; ours = some 1; theirs = 2 }

abbrev sign : Bytes → Bytes
sign payload = payload

abbrev after_merge : Db
after_merge = (merge_heads git sign sign objects 20 heads [] [] db).1

folded : merge_heads git sign sign objects 20 heads [] [] db ≡ (ok (tip 0), after_merge)
unfolding merge_heads merge_onto our_trees merge_base ancestors ancestors_loop base_loop commit_tree
    parents find decode_commit three_way seal_tip seal
folded = refl

merge_heads-Descends_example :
    (parents (at objects after_merge) 0 ≡ ok (1 ∷ 2 ∷ []))
    × Descends (at objects after_merge) 0 (some 1)
    × Reaches (parents_of (at objects after_merge)) 0 2
merge_heads-Descends_example =
    merge_heads-Descends git sign sign objects hash git-IsStore git-Rereads 20 heads [] [] db
      after_merge 0 folded

three_way-OneSided_example :
    (b : Slots) × (u : Slots) × (t : Slots) × (read_sides (at objects db) (some 101) 102 103
      ≡ ok (b, u, t))
    × Written git b u t 105 db
three_way-OneSided_example =
    three_way-OneSided git objects 3 (some 101) 102 103 105 db db merged refl
