-- ===== src/Sync/Merge/Commute.antt =====
-- The two sides of `three_way` (crates/kernel/ents-sync/src/merge.rs) may change places.
use git_ents.Base.{
  ℕ, zero, suc, Bytes, true, false, false≢true, Bool-cases, List, [], ◌∷◌, Option, none, some, ok,
  err, ◌==◌, ◌≡◌, refl, ap, sym, ◌∙◌, ◌⊎◌, inl, inr, arith,
}
use git_ents.Substrate.Refs.{Oid}
use git_ents.Substrate.Objects.{Objects}
use git_ents.Sync.Types.{Sync-cases, Db, Git, at}
use git_ents.Sync.Merge.{
  Merge, Slot, Slots, get, read_tree, extend_names, same_slot, Choice, keep, descend, clash,
  both_changed, choose, Gathered, take_in,
}
use git_ents.Sync.Merge.Loop.{
  Nested, kept, clashed, merge_names, merge_slots, read_base, read_sides, three_way,
}
use git_ents.Sync.Merge.Names.{extend_names_comm}

pub same_slot_sound : (x y : Option Slot) → same_slot x y ≡ true → x ≡ y
unfolding same_slot
same_slot_sound none none h = refl
same_slot_sound none (some b) h = cc
same_slot_sound (some a) none h = cc
same_slot_sound (some a) (some b) h =
    let e : a.oid ≡ b.oid = ground arith in
    let f : a.mode ≡ b.mode = ground arith in
    ap (λ x. some (record { oid = x; mode = a.mode })) e
    ∙ ap (λ x. some (record { oid = b.oid; mode = x })) f

same_slot_comm : (x y : Option Slot) → same_slot x y ≡ same_slot y x
unfolding same_slot
same_slot_comm none none = refl
same_slot_comm none (some b) = refl
same_slot_comm (some a) none = refl
same_slot_comm (some a) (some b) = ground arith

pub same_slot_refl : (x : Option Slot) → same_slot x x ≡ true
unfolding same_slot
same_slot_refl none = refl
same_slot_refl (some a) = ground arith

-- The choice with the sides of a nested merge changed.
abbrev pub flip : Choice → Choice
flip (descend base o t) = descend base t o
flip (keep slot) = keep slot
flip clash = clash

pub Choice-cases :
    (c : Choice)
    → ((s : Option Slot) × (c ≡ keep s))
      ⊎ (c ≡ clash)
      ⊎ ((base : Option Oid) × (o : Oid) × (t : Oid) × (c ≡ descend base o t))
Choice-cases (keep s) = inl (s, refl)
Choice-cases clash = inr (inl refl)
Choice-cases (descend base o t) = inr (inr (base, o, t, refl))

module _ (g : Git) where
  both_changed_comm : (b o t : Option Slot) → both_changed g b t o ≡ flip (both_changed g b o t)
  unfolding both_changed
  both_changed_comm b none none = refl
  both_changed_comm b none (some t) = refl
  both_changed_comm b (some o) none = refl
  both_changed_comm b (some o) (some t) = ground arith

  pub choose_comm : (b o t : Option Slot) → choose g b t o ≡ flip (choose g b o t)
  unfolding choose
  choose_comm b o t = elim (Bool-cases (same_slot o t)) [
    | inl e ↦ rw (same_slot_sound o t e, same_slot_refl t) refl
    | inr e ↦ elim (Bool-cases (same_slot o b)) [
      | inl k ↦ elim (Bool-cases (same_slot t b)) [
        | inl l ↦ absurd (
            let p : same_slot o t ≡ true =
              rw (same_slot_sound o b k, same_slot_sound t b l) (same_slot_refl b) in
            false≢true (sym e ∙ p))
        | inr l ↦ rw (e, k, same_slot_comm t o, e, l) refl
      ]
      | inr k ↦ elim (Bool-cases (same_slot t b)) [
        | inl l ↦ rw (e, k, same_slot_comm t o, e, l) refl
        | inr l ↦ rw (same_slot_comm t o, e, k, l) (both_changed_comm b o t)
      ]
    ]
  ]

  -- A successful merge stays the same when its sides are changed.
  abbrev IsCommutative : Nested → Type 0
  IsCommutative nested =
      (base : Option Oid) (x y : Oid) (db : Db) (m : Merge) (after : Db)
      → nested base x y db ≡ (ok m, after)
      → nested base y x db ≡ (ok m, after)

  merge_names_comm :
      (nested : Nested)
      → IsCommutative nested
      → (b o t : Slots) (names : List Bytes) (got full : Gathered) (db after : Db)
      → merge_names g nested b o t names got db ≡ (ok full, after)
      → merge_names g nested b t o names got db ≡ (ok full, after)
  unfolding merge_names
  merge_names_comm nested comm b o t [] got full db after h = h
  merge_names_comm nested comm b o t (name ∷ names) got full db after h =
      let s = choose_comm (get name b) (get name o) (get name t) in
      elim (Choice-cases (choose g (get name b) (get name o) (get name t))) [
        | inl (slot, e) ↦
            rw (merge_names, s ∙ ap flip e)
              (merge_names_comm nested comm b o t names (kept name slot got) full db after
                (rw (merge_names, e) at h))
        | inr (inl e) ↦
            rw (merge_names, s ∙ ap flip e)
              (merge_names_comm nested comm b o t names (clashed name got) full db after
                (rw (merge_names, e) at h))
        | inr (inr (base, x, y, e)) ↦
            let sub = nested base x y db in
            elim (Sync-cases sub.0) [
              | inr (z, p) ↦
                  absurd
                    (let q : err z ≡ ok full = ap (λ y. y.0) (rw (merge_names, e, p) at h) in cc q)
              | inl (m, p) ↦
                  let back = comm base x y db m sub.1 (ap (λ q. (q, sub.1)) p) in
                  rw (merge_names, s ∙ ap flip e, ap (λ q. q.0) back, ap (λ q. q.1) back)
                    (merge_names_comm nested comm b o t names (take_in g name m got) full sub.1
                      after (rw (merge_names, e, p) at h))
            ]
      ]

  merge_slots_comm :
      (nested : Nested)
      → IsCommutative nested
      → (b o t : Slots) (m : Merge) (db after : Db) → merge_slots g nested b o t db ≡ (ok m, after)
      → merge_slots g nested b t o db ≡ (ok m, after)
  unfolding merge_slots
  merge_slots_comm nested comm b o t m db after h =
      let names = extend_names t (extend_names o (extend_names b [])) in
      let r = merge_names g nested b o t names (record { merged = []; conflicts = [] }) db in
      elim (Sync-cases r.0) [
        | inr (x, p) ↦
            absurd (let q : err x ≡ ok m = ap (λ y. y.0) (rw (merge_slots, p) at h) in cc q)
        | inl (full, p) ↦
            let back =
              merge_names_comm nested comm b o t names (record { merged = []; conflicts = [] }) full
                db r.1 (ap (λ y. (y, r.1)) p) in
            let back =
              ap (λ ns. merge_names g nested b t o ns (record { merged = []; conflicts = [] }) db)
                (sym (extend_names_comm o t (extend_names b [])))
              ∙ back in
            rw (merge_slots, ap (λ y. y.0) back, ap (λ y. y.1) back) (rw (merge_slots, p) at h)
      ]

  -- The merge is commutative: if it succeeds, with a tree or with conflicts, then with its sides
  -- changed it succeeds with the same tree or conflicts and leaves the same objects.
  pub three_way_comm :
      (o : Objects) (fuel : ℕ) (base : Option Oid) (ours theirs : Oid) (db : Db) (m : Merge)
      (after : Db)
      → three_way g o fuel base ours theirs db ≡ (ok m, after)
      → three_way g o fuel base theirs ours db ≡ (ok m, after)
  unfolding three_way read_sides
  three_way_comm o zero base ours theirs db m after h = cc
  three_way_comm o (suc fuel) base ours theirs db m after h = elim (Bool-cases (ours == theirs)) [
    | inl e ↦
        let e' : ours ≡ theirs = ground arith in
        let back : (theirs == ours) ≡ true = ground arith in
        rw (three_way, back, ← e') (rw (three_way, e) at h)
    | inr e ↦
        let back : (theirs == ours) ≡ false = ground arith in
        elim (Sync-cases (read_base (at o db) base)) [
          | inr (x, p) ↦
              absurd (
                let q : err x ≡ ok m = ap (λ y. y.0) (rw (three_way, e, read_sides, p) at h) in
                cc q)
          | inl (b, p) ↦ elim (Sync-cases (read_tree (at o db) ours)) [
            | inr (x, q) ↦ absurd (
                let r : err x ≡ ok m = ap (λ y. y.0) (rw (three_way, e, read_sides, p, q) at h) in
                cc r)
            | inl (u, q) ↦ elim (Sync-cases (read_tree (at o db) theirs)) [
              | inr (x, r) ↦ absurd (
                  let z : err x ≡ ok m =
                    ap (λ y. y.0) (rw (three_way, e, read_sides, p, q, r) at h) in
                  cc z)
              | inl (t, r) ↦
                  rw (three_way, back, read_sides, p, r, q)
                    (merge_slots_comm (three_way g o fuel)
                      (λ base x y db m after. three_way_comm o fuel base x y db m after) b u t m db
                      after (rw (three_way, e, read_sides, p, q, r) at h))
            ]
          ]
        ]
  ]
