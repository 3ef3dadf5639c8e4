-- ===== src/Sync/Merge/Fields.antt =====
-- What a clean `three_way` (crates/kernel/ents-sync/src/merge.rs) has written, name by name.
use git_ents.Base.{
  In, now, later, In-append, In-last, In-snoc, Bytes, bytes_eq, bytes_eq_sound, bytes_leb,
  Bool-cases, List, [], ◌∷◌, ◌++◌, Option, none, some, ok, err, ◌≡◌, refl, ap, sym, ◌∙◌, ◌⊎◌, inl,
  inr,
}
use git_ents.Substrate.Objects.{TreeEntry}
use git_ents.Sync.Types.{Sync-cases, Db, Git}
use git_ents.Sync.Merge.{
  Merge, clean, conflict, Slot, Slots, get, insert_name, extend_names, entry_of, tree_entry,
  push_slot, same_slot, Choice, keep, choose, Gathered, take_in,
}
use git_ents.Sync.Merge.Loop.{Nested, kept, clashed, merge_names}
use git_ents.Sync.Merge.Commute.{same_slot_sound, same_slot_refl, flip, choose_comm, Choice-cases}

insert_name-now : (name : Bytes) (names : List Bytes) → In name (insert_name name names)
unfolding insert_name
insert_name-now name [] = now
insert_name-now name (n ∷ names) = elim (Bool-cases (bytes_eq name n)) [
  | inl e ↦ rw (e, bytes_eq_sound name n e) now
  | inr e ↦ elim (Bool-cases (bytes_leb name n)) [
    | inl l ↦ rw (e, l) now
    | inr l ↦ rw (e, l) (later (insert_name-now name names))
  ]
]

insert_name-here :
    (name x n : Bytes) (names : List Bytes)
    → (In x names → In x (insert_name name names))
    → In x (n ∷ names)
    → In x (insert_name name (n ∷ names))
unfolding insert_name
insert_name-here name x n names rest i = elim (Bool-cases (bytes_eq name n)) [
  | inl e ↦ rw e i
  | inr e ↦ elim (Bool-cases (bytes_leb name n)) [
    | inl l ↦ rw (e, l) (later i)
    | inr l ↦ rw (e, l) (below rest i)
  ]
]
  where
    below :
        {n : Bytes} {names : List Bytes}
        → (In x names → In x (insert_name name names))
        → In x (n ∷ names)
        → In x (n ∷ insert_name name names)
    below r now = now
    below r (later j) = later (r j)

insert_name-kept :
    (name x : Bytes) (names : List Bytes) → In x names → In x (insert_name name names)
unfolding insert_name
insert_name-kept name x [] i = later i
insert_name-kept name x (n ∷ names) i =
    insert_name-here name x n names (insert_name-kept name x names) i

pub extend_names-kept :
    (x : Bytes) (slots : Slots) (names : List Bytes) → In x names → In x (extend_names slots names)
unfolding extend_names
extend_names-kept x [] names i = i
extend_names-kept x ((k, s) ∷ slots) names i =
    extend_names-kept x slots (insert_name k names) (insert_name-kept k x names i)

pub extend_names-get :
    (x : Bytes) (slots : Slots) (names : List Bytes) {s : Slot}
    → get x slots ≡ some s
    → In x (extend_names slots names)
unfolding extend_names get
extend_names-get x [] names h = cc
extend_names-get x ((k, r) ∷ slots) names h = elim (Bool-cases (bytes_eq k x)) [
  | inl e ↦
      extend_names-kept x slots (insert_name k names)
        (rw (← bytes_eq_sound k x e) (insert_name-now k names))
  | inr e ↦ extend_names-get x slots (insert_name k names) (rw e at h)
]

module _ (g : Git) where
  pub choose-theirs : (b o t : Option Slot) → o ≡ b → choose g b o t ≡ keep t
  unfolding choose
  choose-theirs b o t e = elim (Bool-cases (same_slot o t)) [
    | inl s ↦ rw (s, same_slot_sound o t s) refl
    | inr s ↦ rw (s, ← e, same_slot_refl o) refl
  ]

  pub choose-ours : (b o t : Option Slot) → t ≡ b → choose g b o t ≡ keep o
  choose-ours b o t e = choose_comm g b t o ∙ ap flip (choose-theirs b t o e)

  module _ (nested : Nested) (b o t : Slots) where
    abbrev pub choice : Bytes → Choice
    choice name = choose g (get name b) (get name o) (get name t)

    -- What one round of the loop does.
    pub record Stepped (name : Bytes) (got next : List TreeEntry) : Type 0 where
      pub grows : (e : TreeEntry) → In e got → In e next
      pub only :
          (e : TreeEntry)
          → In e next
          → In e got ⊎ ((e.filename ≡ name) × ¬ (choice name ≡ keep none))
      pub holds : (slot : Slot) → choice name ≡ keep (some slot) → In (entry_of name slot) next

    unchanged :
        (name : Bytes) (got : List TreeEntry)
        → ((slot : Slot) → ¬ (choice name ≡ keep (some slot)))
        → Stepped name got got
    unchanged name got n = record {
      grows = λ e i. i;
      only = λ e i. inl i;
      holds = λ slot k. absurd (n slot k);
    }

    added :
        (name : Bytes) (got : List TreeEntry) (e : TreeEntry)
        → e.filename ≡ name
        → ¬ (choice name ≡ keep none)
        → ((slot : Slot) → choice name ≡ keep (some slot) → entry_of name slot ≡ e)
        → Stepped name got (got ++ e ∷ [])
    added name got e f n k = record {
      grows = λ d i. In-append got (e ∷ []) i;
      only = λ d i. elim (In-snoc got e i) [
        | inl j ↦ inl j
        | inr q ↦ inr (ap (λ x. TreeEntry.filename x) q ∙ f, n)
      ];
      holds = λ slot c. rw (k slot c) (In-last e got);
    }

    taken :
        (name : Bytes) (got : Gathered) (m : Merge)
        → ((s : Option Slot) → ¬ (choice name ≡ keep s))
        → Stepped name got.merged (take_in g name m got).merged
    unfolding take_in
    taken name got (clean sub) n =
        added name got.merged (tree_entry g name sub) refl (n none) (λ s c. absurd (n (some s) c))
    taken name got (conflict paths) n = unchanged name got.merged (λ s. n (some s))

    pub merge_names-step :
        (name : Bytes) (names : List Bytes) (got full : Gathered) (db after : Db)
        → merge_names g nested b o t (name ∷ names) got db ≡ (ok full, after)
        → (next : Gathered) × (mid : Db) × (merge_names g nested b o t names next mid
            ≡ (ok full, after))
          × Stepped name got.merged next.merged
    unfolding merge_names push_slot take_in
    merge_names-step name names got full db after h = elim (Choice-cases (choice name)) [
      | inl (none, e) ↦
          (got, db, rw (merge_names, e) at h, unchanged name got.merged (λ s c. cc (sym e ∙ c)))
      | inl (some slot, e) ↦ (
        kept name (some slot) got,
        db,
        rw (merge_names, e) at h,
        added name got.merged (entry_of name slot) refl (λ c. cc (sym e ∙ c))
            (λ s c.
              let q : some s ≡ some slot = cc (sym c ∙ e) in
              let q' : s ≡ slot = cc q in ap (entry_of name) q'),
      )
      | inr (inl e) ↦ (
        clashed name got,
        db,
        rw (merge_names, e) at h,
        unchanged name got.merged (λ s c. cc (sym e ∙ c)),
      )
      | inr (inr (base, x, y, e)) ↦
          let sub = nested base x y db in
          elim (Sync-cases sub.0) [
            | inr (z, p) ↦
                absurd
                  (let q : err z ≡ ok full = ap (λ r. r.0) (rw (merge_names, e, p) at h) in cc q)
            | inl (m, p) ↦ (
              take_in g name m got,
              sub.1,
              rw (merge_names, e, p) at h,
              taken name got m (λ s c. cc (sym e ∙ c)),
            )
          ]
    ]
