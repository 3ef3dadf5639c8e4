-- ===== src/Sync/Merge/Clean.antt =====
-- A clean `three_way` (crates/kernel/ents-sync/src/merge.rs) takes over what one side alone changed.
use git_ents.Base.{
  In, now, later, sort_bytes, ℕ, zero, suc, Bytes, false, List, [], ◌∷◌, Option, none, some, ok,
  err, Result-cases, ◌==◌, ◌≡◌, refl, ap, sym, ◌∙◌, ◌⊎◌, inl, inr,
}
use git_ents.Substrate.Refs.{Oid}
use git_ents.Substrate.Objects.{TreeEntry, Objects}
use git_ents.Sync.Types.{Sync-cases, write, Db, Git, at}
use git_ents.Sync.Merge.{
  clean, conflict, Slot, Slots, get, extend_names, entry_of, keep, Gathered, finish,
}
use git_ents.Sync.Merge.Loop.{Nested, merge_names, merge_slots, read_sides, three_way}
use git_ents.Sync.Merge.Fields

-- An entry that theirs alone changed, or that ours alone changed, is in the merge as the changer has
-- it, and if the changer deleted it no entry has its name.
pub record OneSided (b o t : Slots) (merged : List TreeEntry) : Type 0 where
  pub theirs :
      (name : Bytes) (slot : Slot)
      → get name o ≡ get name b
      → get name t ≡ some slot
      → In (entry_of name slot) merged
  pub ours :
      (name : Bytes) (slot : Slot)
      → get name t ≡ get name b
      → get name o ≡ some slot
      → In (entry_of name slot) merged
  pub deleted_by_theirs :
      (e : TreeEntry)
      → get e.filename o ≡ get e.filename b
      → get e.filename t ≡ none
      → ¬ In e merged
  pub deleted_by_ours :
      (e : TreeEntry)
      → get e.filename t ≡ get e.filename b
      → get e.filename o ≡ none
      → ¬ In e merged

-- The tree that was written as the merge of the three.
pub record Written (g : Git) (b o t : Slots) (oid : Oid) (after : Db) : Type 0 where
  pub merged : List TreeEntry
  pub before : Db
  pub put : g.write_tree before (g.sort_entries merged) ≡ (ok oid, after)
  pub one_sided : OneSided b o t merged

pub List-cases : {A : Type 0} (xs : List A) → (xs ≡ []) ⊎ ((y : A) × (ys : List A) × (xs ≡ y ∷ ys))
List-cases [] = inl refl
List-cases (y ∷ ys) = inr (y, ys, refl)

module _ (g : Git) (nested : Nested) (b o t : Slots) where
  record Gathers (names : List Bytes) (got full : List TreeEntry) : Type 0 where
    grows : (e : TreeEntry) → In e got → In e full
    only :
        (e : TreeEntry)
        → In e full
        → In e got ⊎ ¬ (Fields.choice g nested b o t e.filename ≡ keep none)
    holds :
        (name : Bytes) (slot : Slot)
        → In name names
        → Fields.choice g nested b o t name ≡ keep (some slot)
        → In (entry_of name slot) full

  held :
      (name x : Bytes) (names : List Bytes) (got next full : List TreeEntry) (slot : Slot)
      → Fields.choice g nested b o t x ≡ keep (some slot)
      → Fields.Stepped g nested b o t name got next
      → Gathers names next full
      → In x (name ∷ names)
      → In (entry_of x slot) full
  held name _ names got next full slot c s r now = r.grows (entry_of name slot) (s.holds slot c)
  held name x names got next full slot c s r (later i) = r.holds x slot i c

  merge_names-Gathers :
      (names : List Bytes) (got full : Gathered) (db after : Db)
      → merge_names g nested b o t names got db ≡ (ok full, after)
      → Gathers names got.merged full.merged
  unfolding merge_names
  merge_names-Gathers [] got full db after h = record {
    grows = λ e i. let q : got ≡ full = cc (ap (λ r. r.0) h) in rw (← q) i;
    only = λ e i. let q : got ≡ full = cc (ap (λ r. r.0) h) in inl (rw (← q) at i);
    holds = λ name slot i c. absurd (elim i [ ]);
  }
  merge_names-Gathers (name ∷ names) got full db after h =
      let (next, mid, k, s) =
        Fields.merge_names-step g nested b o t name names got full db after h in
      let r = merge_names-Gathers names next full mid after k in
      record {
        grows = λ e i. r.grows e (s.grows e i);
        only = λ e i. elim (r.only e i) [
          | inr n ↦ inr n
          | inl j ↦ elim (s.only e j) [
            | inl q ↦ inl q
            | inr (f, n) ↦ inr (λ c. n (ap (Fields.choice g nested b o t) (sym f) ∙ c))
          ]
        ];
        holds = λ x slot i c. held name x names got.merged next.merged full.merged slot c s r i;
      }

  -- The three maps' names are all visited.
  visited : List Bytes
  visited = extend_names t (extend_names o (extend_names b []))

  Gathers-OneSided : (merged : List TreeEntry) → Gathers visited [] merged → OneSided b o t merged
  unfolding visited
  Gathers-OneSided merged r = record {
    theirs = λ name slot e h.
        r.holds name slot (Fields.extend_names-get name t (extend_names o (extend_names b [])) h)
          (Fields.choose-theirs g (get name b) (get name o) (get name t) e ∙ ap (λ x. keep x) h);
    ours = λ name slot e h.
        r.holds name slot
          (Fields.extend_names-kept name t (extend_names o (extend_names b []))
            (Fields.extend_names-get name o (extend_names b []) h))
          (Fields.choose-ours g (get name b) (get name o) (get name t) e ∙ ap (λ x. keep x) h);
    deleted_by_theirs = λ d e h i. elim (r.only d i) [
      | inl j ↦ elim j [ ]
      | inr n ↦ n (
          Fields.choose-theirs g (get d.filename b) (get d.filename o) (get d.filename t) e
          ∙ ap (λ x. keep x) h)
    ];
    deleted_by_ours = λ d e h i. elim (r.only d i) [
      | inl j ↦ elim j [ ]
      | inr n ↦ n (
          Fields.choose-ours g (get d.filename b) (get d.filename o) (get d.filename t) e
          ∙ ap (λ x. keep x) h)
    ];
  }

  finish-clean :
      (got : Gathered) (db after : Db) (oid : Oid)
      → finish g got db ≡ (ok (clean oid), after)
      → g.write_tree db (g.sort_entries got.merged) ≡ (ok oid, after)
  unfolding finish
  finish-clean got db after oid h = elim (List-cases got.conflicts) [
    | inr (p, ps, e) ↦ absurd (
        let q : ok (conflict (sort_bytes (p ∷ ps))) ≡ ok (clean oid) =
          ap (λ r. r.0) (rw (finish, e) at h) in
        cc q)
    | inl e ↦
        let w = g.write_tree db (g.sort_entries got.merged) in
        elim (Result-cases w.0) [
          | inr (x, p) ↦
              absurd (
                let q : err write ≡ ok (clean oid) = ap (λ r. r.0) (rw (finish, e, p) at h) in cc q)
          | inl (id, p) ↦
              let q = rw (finish, e, p) at h in
              let c : ok (clean id) ≡ ok (clean oid) = ap (λ r. r.0) q in
              let c' : id ≡ oid = cc c in
              ap (λ r. (r, w.1)) p
              ∙ ap (λ r. (ok r, w.1)) c'
              ∙ ap (λ r. (ok oid, r)) (ap (λ r. r.1) q)
        ]
  ]

  merge_slots-Written :
      (db after : Db) (oid : Oid)
      → merge_slots g nested b o t db ≡ (ok (clean oid), after)
      → Written g b o t oid after
  unfolding merge_slots visited
  merge_slots-Written db after oid h =
      let start : Gathered = record { merged = []; conflicts = [] } in
      let r = merge_names g nested b o t visited start db in
      elim (Sync-cases r.0) [
        | inr (x, p) ↦
            absurd
              (let q : err x ≡ ok (clean oid) = ap (λ y. y.0) (rw (merge_slots, p) at h) in cc q)
        | inl (full, p) ↦ record {
          merged = full.merged;
          before = r.1;
          put = finish-clean full r.1 after oid (rw (merge_slots, p) at h);
          one_sided =
              Gathers-OneSided full.merged
                (merge_names-Gathers visited start full db r.1 (ap (λ y. (y, r.1)) p));
        }
      ]

-- A clean merge of two different trees writes one tree. An entry that one side alone changed
-- against the base is in it as that side has it, and if that side deleted it, no entry of the
-- written tree has its name.
pub three_way-OneSided :
    (g : Git) (o : Objects) (fuel : ℕ) (base : Option Oid) (ours theirs oid : Oid) (db after : Db)
    → three_way g o fuel base ours theirs db ≡ (ok (clean oid), after)
    → (ours == theirs) ≡ false
    → (b : Slots) × (u : Slots) × (t : Slots) × (read_sides (at o db) base ours theirs
        ≡ ok (b, u, t))
      × Written g b u t oid after
unfolding three_way
three_way-OneSided g o zero base ours theirs oid db after h n = absurd (cc h)
three_way-OneSided g o (suc fuel) base ours theirs oid db after h n =
    elim (Sync-cases (read_sides (at o db) base ours theirs)) [
      | inr (x, p) ↦
          absurd
            (let q : err x ≡ ok (clean oid) = ap (λ y. y.0) (rw (three_way, n, p) at h) in cc q)
      | inl (sides, p) ↦ (
        sides.0,
        sides.1,
        sides.2,
        p,
        merge_slots-Written g (three_way g o fuel) sides.0 sides.1 sides.2 db after oid
            (rw (three_way, n, p) at h),
      )
    ]
