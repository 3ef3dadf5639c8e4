-- ===== src/Sync/Merge/Enough.antt =====
-- `three_way` (crates/kernel/ents-sync/src/merge.rs) comes to an end on trees of finite depth.
use git_ents.Base.{
  ℕ, zero, suc, ◌<◌, Bytes, true, ◌&&◌, Bool-cases, List, [], ◌∷◌, Option, none, some, ok, err,
  >>=-eq-ok, Result-cases, ◌==◌, ◌≡◌, ◌≢◌, refl, ap, ◌∙◌, inl, inr, arith,
}
use git_ents.Substrate.Refs.{Oid}
use git_ents.Substrate.Objects.{TreeEntry, Objects}
use git_ents.Sync.Types.{SyncError, Sync, Sync-cases, out_of_fuel, Db, Git, at}
use git_ents.Sync.Objects.{find, decode_tree}
use git_ents.Sync.Merge.{
  Merge, Slot, Slots, get, read_tree, extend_names, same_slot, Choice, keep, descend, clash,
  both_changed, choose, Gathered, take_in, finish,
}
use git_ents.Sync.Merge.Loop.{
  Nested, kept, clashed, merge_names, merge_slots, read_base, read_sides, three_way,
}
use git_ents.Sync.Merge.Commute.{Choice-cases}
use git_ents.Sync.Merge.Clean.{List-cases}

-- The trees of the good stores have finite depth: `rank` falls from a tree to the trees in it. Writing a
-- tree to a good store leaves a good one.
pub record IsRanked (g : Git) (o : Objects) (Good : Db → Type 0) (rank : Oid → ℕ) : Type 0 where
  pub stays :
      (db after : Db) (entries : List TreeEntry) (oid : Oid)
      → Good db
      → g.write_tree db entries ≡ (ok oid, after)
      → Good after
  pub falls :
      (db : Db) (x : Oid) (slots : Slots) (name : Bytes) (s : Slot)
      → Good db
      → read_tree (at o db) x ≡ ok slots
      → get name slots ≡ some s
      → g.mode_is_tree s.mode ≡ true
      → rank s.oid < rank x

-- It did not run out of fuel, and an answer leaves a good store.
abbrev Ends : {A : Type 0} → (Db → Type 0) → Sync A × Db → Type 0
Ends {A} Good r = (r.0 ≢ err out_of_fuel) × ((a : A) → r.0 ≡ ok a → Good r.1)

error_of : {A : Type 0} {e f : SyncError} → Path (Sync A) (err e) (err f) → e ≡ f
error_of q = cc

abbrev ours_of : Oid → Choice → Oid
ours_of x (descend _ o _) = o
ours_of x _ = x

choose-descend :
    (g : Git) (b o t : Option Slot) (base : Option Oid) (x y : Oid)
    → choose g b o t ≡ descend base x y
    → (s : Slot) × (o ≡ some s) × (g.mode_is_tree s.mode ≡ true) × (s.oid ≡ x)
unfolding choose
choose-descend g b o t base x y h = elim (Bool-cases (same_slot o t)) [
  | inl e ↦ absurd (let q : keep o ≡ descend base x y = rw (choose, e) at h in cc q)
  | inr e ↦ elim (Bool-cases (same_slot o b)) [
    | inl f ↦ absurd (let q : keep t ≡ descend base x y = rw (choose, e, f) at h in cc q)
    | inr f ↦ elim (Bool-cases (same_slot t b)) [
      | inl k ↦ absurd (let q : keep o ≡ descend base x y = rw (choose, e, f, k) at h in cc q)
      | inr k ↦ descends b o t (rw (choose, e, f, k) at h)
    ]
  ]
]
  where
    descends :
        (b o t : Option Slot)
        → both_changed g b o t ≡ descend base x y
        → (s : Slot) × (o ≡ some s) × (g.mode_is_tree s.mode ≡ true) × (s.oid ≡ x)
    descends b none t h = absurd (cc h)
    descends b (some s) none h = absurd (cc h)
    descends b (some s) (some r) h =
        elim (Bool-cases (g.mode_is_tree s.mode && g.mode_is_tree r.mode)) [
          | inr e ↦ absurd (let q : clash ≡ descend base x y = rw (both_changed, e) at h in cc q)
          | inl e ↦ (s, refl, ground arith, ap (ours_of s.oid) (rw (both_changed, e) at h))
        ]

read_sides_fuel :
    (o : Objects) (base : Option Oid) (ours theirs : Oid)
    → read_sides o base ours theirs ≢ err out_of_fuel
unfolding read_sides read_tree find decode_tree
read_sides_fuel o base ours theirs h = ground arith

finish-Ends :
    (g : Git) (o : Objects) (Good : Db → Type 0) (rank : Oid → ℕ) (law : IsRanked g o Good rank)
    (got : Gathered) (db : Db)
    → Good db
    → Ends Good (finish g got db)
unfolding finish
finish-Ends g o Good rank law got db good = elim (List-cases got.conflicts) [
  | inr (p, ps, e) ↦ rw (finish, e) (λ q. cc, λ m q. good)
  | inl e ↦
      let w = g.write_tree db (g.sort_entries got.merged) in
      elim (Result-cases w.0) [
        | inr (x, p) ↦ rw (finish, e, p) (λ q. cc, λ m q. absurd (cc q))
        | inl (id, p) ↦
            rw (finish, e, p)
              (
                λ q. cc,
                λ m q. law.stays db w.1 (g.sort_entries got.merged) id good (ap (λ r. (r, w.1)) p),
              )
      ]
]

module _ (g : Git) (o : Objects) (Good : Db → Type 0) (rank : Oid → ℕ)
    (law : IsRanked g o Good rank) where
  merge_names-Ends :
      (nested : Nested) (b u t : Slots)
      → ((base : Option Oid) (x y : Oid) (db : Db) (name : Bytes) (s : Slot)
          → Good db
          → get name u ≡ some s
          → g.mode_is_tree s.mode ≡ true
          → s.oid ≡ x
          → Ends Good (nested base x y db))
      → (names : List Bytes) (got : Gathered) (db : Db) → Good db
      → Ends Good (merge_names g nested b u t names got db)
  unfolding merge_names
  merge_names-Ends nested b u t ends [] got db good = (λ q. cc, λ m q. good)
  merge_names-Ends nested b u t ends (name ∷ names) got db good =
      elim (Choice-cases (choose g (get name b) (get name u) (get name t))) [
        | inl (slot, e) ↦
            rw (merge_names, e)
              (merge_names-Ends nested b u t ends names (kept name slot got) db good)
        | inr (inl e) ↦
            rw (merge_names, e)
              (merge_names-Ends nested b u t ends names (clashed name got) db good)
        | inr (inr (base, x, y, e)) ↦
            let (s, has, is, same) =
              choose-descend g (get name b) (get name u) (get name t) base x y e in
            let (ended, stays) = ends base x y db name s good has is same in
            let sub = nested base x y db in
            elim (Sync-cases sub.0) [
              | inr (z, p) ↦
                  rw (merge_names, e, p)
                    (λ q. ended (p ∙ ap (λ w. err w) (error_of q)), λ m q. absurd (cc q))
              | inl (m, p) ↦
                  rw (merge_names, e, p)
                    (merge_names-Ends nested b u t ends names (take_in g name m got) sub.1
                      (stays m p))
            ]
      ]

  merge_slots-Ends :
      (nested : Nested) (b u t : Slots)
      → ((base : Option Oid) (x y : Oid) (db : Db) (name : Bytes) (s : Slot)
          → Good db
          → get name u ≡ some s
          → g.mode_is_tree s.mode ≡ true
          → s.oid ≡ x
          → Ends Good (nested base x y db))
      → (db : Db) → Good db
      → Ends Good (merge_slots g nested b u t db)
  unfolding merge_slots
  merge_slots-Ends nested b u t ends db good =
      let names = extend_names t (extend_names u (extend_names b [])) in
      let start : Gathered = record { merged = []; conflicts = [] } in
      let (ended, stays) = merge_names-Ends nested b u t ends names start db good in
      let r = merge_names g nested b u t names start db in
      elim (Sync-cases r.0) [
        | inr (z, p) ↦
            rw (merge_slots, p)
              (λ q. ended (p ∙ ap (λ w. err w) (error_of q)), λ m q. absurd (cc q))
        | inl (full, p) ↦
            rw (merge_slots, p) (finish-Ends g o Good rank law full r.1 (stays full p))
      ]

  read_sides-ours :
      (o : Objects) (base : Option Oid) (ours theirs : Oid) (b u t : Slots)
      → read_sides o base ours theirs ≡ ok (b, u, t)
      → read_tree o ours ≡ ok u
  unfolding read_sides
  read_sides-ours o base ours theirs b u t h =
      let (b', p, h1) = >>=-eq-ok (read_base o base) _ h in
      let (u', q, h2) = >>=-eq-ok (read_tree o ours) _ h1 in
      let (t', r, h3) = >>=-eq-ok (read_tree o theirs) _ h2 in
      q ∙ ap (λ w. ok w) (ap (λ w. elim w [ ok sides ↦ sides.1 | err _ ↦ u ]) h3)

  -- With more fuel than the rank of our tree, which falls from a tree to the trees in it in every
  -- good store, the merge does not run out of it, and leaves a good store when it answers, if it
  -- starts in one. Good is any property of stores that writing a tree keeps.
  pub three_way-Ends :
      (fuel : ℕ) (base : Option Oid) (ours theirs : Oid) (db : Db)
      → Good db
      → rank ours < fuel
      → (three_way g o fuel base ours theirs db).0 ≢ err out_of_fuel
        × ((m : Merge)
            → (three_way g o fuel base ours theirs db).0 ≡ ok m
            → Good (three_way g o fuel base ours theirs db).1)
  unfolding three_way
  three_way-Ends zero base ours theirs db good b = absurd (omega arith)
  three_way-Ends (suc fuel) base ours theirs db good b = elim (Bool-cases (ours == theirs)) [
    | inl e ↦ rw (three_way, e) (λ q. cc, λ m q. good)
    | inr e ↦ elim (Sync-cases (read_sides (at o db) base ours theirs)) [
      | inr (z, p) ↦
          rw (three_way, e, p)
            (
              λ q. read_sides_fuel (at o db) base ours theirs (p ∙ ap (λ w. err w) (error_of q)),
              λ m q. absurd (cc q),
            )
      | inl (sides, p) ↦
          rw (three_way, e, p)
            (merge_slots-Ends (three_way g o fuel) sides.0 sides.1 sides.2
              (λ sub_base x y later_db name s good' has is same.
                three_way-Ends fuel sub_base x y later_db good' (
                  let d =
                    law.falls db ours sides.1 name s good
                      (read_sides-ours (at o db) base ours theirs sides.0 sides.1 sides.2 p) has
                      is in
                  let d' : rank x < rank ours = rw same at d in omega arith))
              db good)
    ]
  ]
