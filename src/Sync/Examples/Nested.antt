-- ===== src/Sync/Examples/Nested.antt =====
-- A merge in a directory that both sides changed (crates/kernel/ents-sync/src/merge.rs), with a git
-- that writes trees: an entry is three bytes, its name of one byte, its object and its mode.
use git_ents.Base.{
  ℕ, ◌+◌, ◌<◌, ◌≤◌, Bytes, bytes_eq, bytes_leb, Bool-cases, ◌==◌, if◌then◌else◌, List, [], ◌∷◌,
  Option, none, some, Option-cases, ok, err, >>=-eq-ok, Result, Result-cases, ◌≡◌, ◌≢◌, refl, ap,
  ◌∙◌, inl, inr, arith,
}
use git_ents.Substrate.Refs.{Oid}
use git_ents.Substrate.Objects.{Kind, Object, TreeEntry, FindError, Objects}
use git_ents.Sync.Types.{WriteError, write_error, out_of_fuel, Db, Git, at}
use git_ents.Sync.Objects.{find, decode_tree}
use git_ents.Sync.Merge.{
  Merge, Slot, Slots, clean, read_tree, get, insert_all, insert_name, extend_names, same_slot,
  both_changed, choose, push_slot, take_in, finish,
}
use git_ents.Sync.Merge.Loop.{merge_names, merge_slots, read_sides, three_way}
use git_ents.Sync.Merge.Enough.{IsRanked, three_way-Ends}
use git_ents.Sync.Sample
use git_ents.Sync.Sample.{git}

abbrev first_byte : Bytes → ℕ
first_byte [] = 0
first_byte (c ∷ _) = c

abbrev encode : List TreeEntry → Bytes
encode [] = []
encode (e ∷ es) = first_byte e.filename ∷ e.oid ∷ e.mode ∷ encode es

abbrev decoded : Bytes → List TreeEntry
decoded (c ∷ oid ∷ mode ∷ raw) = record { filename = c ∷ []; oid = oid; mode = mode } ∷ decoded raw
decoded _ = []

abbrev file : ℕ → Oid → TreeEntry
file c oid = record { filename = c ∷ []; oid = oid; mode = 33188 }

abbrev folder : ℕ → Oid → TreeEntry
folder c oid = record { filename = c ∷ []; oid = oid; mode = 16384 }

abbrev tree_of : List TreeEntry → Result FindError (Option Object)
tree_of es = ok (some (record { kind = Kind.tree; bytes = encode es }))

-- The base 50 has an empty folder `d`, in which our side 52 has put a file `a`, and theirs 53 a file
-- `b`.
abbrev store : Db
store x =
    if x == 50
    then tree_of (folder b'd' 40 ∷ [])
    else if x == 52
    then tree_of (folder b'd' 42 ∷ [])
    else if x == 53
    then tree_of (folder b'd' 43 ∷ [])
    else if x == 40
    then tree_of []
    else if x == 42
    then tree_of (file b'a' 1 ∷ [])
    else if x == 43
    then tree_of (file b'b' 2 ∷ [])
    else ok none

-- The id of a new tree is larger than those of its entries.
abbrev id_of : List TreeEntry → Oid
id_of [] = 1
id_of (e ∷ es) = e.oid + id_of es

abbrev put_tree : Db → Oid → Object → Db
put_tree db x z y = if x == y then ok (some z) else db y

abbrev written : Db → List TreeEntry → Result WriteError Oid × Db
written db es = elim (db (id_of es)) [
  | ok none ↦
      (ok (id_of es), put_tree db (id_of es) (record { kind = Kind.tree; bytes = encode es }))
  | _ ↦ (err write_error, db)
]

abbrev writing : Git
writing = record git { write_tree = written }

abbrev objects : Objects
objects = record Sample.objects { try_find = store; tree_from_bytes = λ raw. some (decoded raw) }

merged :
    ((three_way writing objects 53 (some 50) 52 53 store).0 ≡ ok (clean 5))
    × ((three_way writing objects 53 (some 50) 52 53 store).1 5 ≡ tree_of (folder b'd' 4 ∷ []))
    × ((three_way writing objects 53 (some 50) 52 53 store).1 4
        ≡ tree_of (file b'a' 1 ∷ file b'b' 2 ∷ []))
unfolding three_way read_sides read_tree find decode_tree insert_all merge_slots extend_names
    insert_name merge_names get choose same_slot both_changed push_slot take_in finish bytes_eq
    bytes_leb
merged = (refl, refl, refl)

abbrev Below : Oid → List TreeEntry → Type 0
Below x [] = Unit {0}
Below x (e ∷ es) = (e.oid < x) × Below x es

abbrev SlotsBelow : Oid → Slots → Type 0
SlotsBelow x [] = Unit {0}
SlotsBelow x ((_, s) ∷ slots) = (s.oid < x) × SlotsBelow x slots

-- A tree's id is larger than those of its entries.
abbrev Grows : Db → Type 0
Grows db = (x : Oid) (z : Object) → db x ≡ ok (some z) → Below x (decoded z.bytes)

id_of-pos : (es : List TreeEntry) → 0 < id_of es
id_of-pos [] = omega arith
id_of-pos (e ∷ es) = omega (arith, id_of-pos es)

Below-encode : (x : Oid) (es : List TreeEntry) → id_of es ≤ x → Below x (decoded (encode es))
Below-encode x [] h = tt
Below-encode x (e ∷ es) h = (omega (arith, id_of-pos es, h), Below-encode x es (omega (arith, h)))

SlotsBelow-insert_all :
    (x : Oid) (es : List TreeEntry) (slots : Slots)
    → Below x es
    → SlotsBelow x slots
    → SlotsBelow x (insert_all es slots)
unfolding insert_all
SlotsBelow-insert_all x [] slots b s = s
SlotsBelow-insert_all x (e ∷ es) slots (b, bs) s = SlotsBelow-insert_all x es _ bs (b, s)

get-below :
    (x : Oid) (name : Bytes) (slots : Slots) (s : Slot)
    → SlotsBelow x slots
    → get name slots ≡ some s
    → s.oid < x
unfolding get
get-below x name [] s b h = cc
get-below x name ((key, slot) ∷ slots) s (b, bs) h = elim (Bool-cases (bytes_eq key name)) [
  | inl e ↦ let same : slot ≡ s = ground arith in rw (← same) b
  | inr e ↦ get-below x name slots s bs (rw (get, e) at h)
]

find-found : (o : Objects) (x : Oid) (z : Object) → find o x ≡ ok z → o.try_find x ≡ ok (some z)
unfolding find
find-found o x z h = elim (Result-cases (o.try_find x)) [
  | inr (e, p) ↦ ground arith
  | inl (found, p) ↦ elim (Option-cases found) [ inl n ↦ ground arith | inr (y, n) ↦ ground arith ]
]

written-Grows :
    (db after : Db) (es : List TreeEntry) (oid : Oid)
    → Grows db
    → written db es ≡ (ok oid, after)
    → Grows after
written-Grows db after es oid good h = elim (Result-cases (db (id_of es))) [
  | inr (e, p) ↦
      absurd (let q : err write_error ≡ ok oid = ap (λ r. r.0) (rw (written, p) at h) in cc q)
  | inl (found, p) ↦ elim (Option-cases found) [
    | inr (y, n) ↦ absurd (
        let p' : db (id_of es) ≡ ok (some y) = p ∙ ap (λ f. ok f) n in
        let q : err write_error ≡ ok oid = ap (λ r. r.0) (rw (written, p') at h) in cc q)
    | inl n ↦
        let p' : db (id_of es) ≡ ok none = p ∙ ap (λ f. ok f) n in
        rw (← ap (λ r. r.1) (rw (written, p') at h)) (λ x z g. elim (Bool-cases (id_of es == x)) [
          | inr e ↦ good x z (rw e at g)
          | inl e ↦
              let at_id : id_of es ≡ x = ground arith in
              let q : ok (some (record { kind = Kind.tree; bytes = encode es })) ≡ ok (some z) =
                rw e at g in
              let new : record { kind = Kind.tree; bytes = encode es } ≡ z = cc q in
              rw (← new) (Below-encode x es (omega (arith, at_id)))
        ])
  ]
]

writing-IsRanked : IsRanked writing objects Grows (λ x. x)
unfolding read_tree decode_tree
writing-IsRanked = record {
  stays = λ db after es oid good h. written-Grows db after es oid good h;
  falls = λ db x slots name s good r h _.
      let (found, f, r1) = >>=-eq-ok (find (at objects db) x) _ r in
      let q : ok (insert_all (decoded found.bytes) []) ≡ ok slots = r1 in
      let q' : insert_all (decoded found.bytes) [] ≡ slots = cc q in
      get-below x name (insert_all (decoded found.bytes) []) s
        (SlotsBelow-insert_all x (decoded found.bytes) []
          (good x found (find-found (at objects db) x found f)) tt)
        (ap (get name) q' ∙ h);
}

-- One test of `store`.
at-Below :
    (x n : Oid) (es : List TreeEntry) (rest : Result FindError (Option Object)) (z : Object)
    → Below n (decoded (encode es))
    → (rest ≡ ok (some z) → Below x (decoded z.bytes))
    → (if x == n then tree_of es else rest) ≡ ok (some z)
    → Below x (decoded z.bytes)
at-Below x n es rest z b next h = elim (Bool-cases (x == n)) [
  | inr e ↦ next (rw e at h)
  | inl e ↦
      let here : x ≡ n = ground arith in
      let q : tree_of es ≡ ok (some z) = rw e at h in
      let found : record { kind = Kind.tree; bytes = encode es } ≡ z = cc q in rw (← found, here) b
]

store-Grows : Grows store
store-Grows x z =
    at-Below x 50 (folder b'd' 40 ∷ []) _ z (omega arith, tt)
      (at-Below x 52 (folder b'd' 42 ∷ []) _ z (omega arith, tt)
        (at-Below x 53 (folder b'd' 43 ∷ []) _ z (omega arith, tt)
          (at-Below x 40 [] _ z tt (
            at-Below x 42 (file b'a' 1 ∷ []) _ z (omega arith, tt)
              (at-Below x 43 (file b'b' 2 ∷ []) _ z (omega arith, tt) (λ h. absurd (cc h)))))))

-- Ours and theirs differ below the folder, so that a merge is nested and two trees are written.
three_way-Ends_example :
    ((three_way writing objects 53 (some 50) 52 53 store).0 ≢ err out_of_fuel)
    × ((m : Merge)
        → (three_way writing objects 53 (some 50) 52 53 store).0 ≡ ok m
        → Grows (three_way writing objects 53 (some 50) 52 53 store).1)
three_way-Ends_example =
    three_way-Ends writing objects Grows (λ x. x) writing-IsRanked 53 (some 50) 52 53 store
      store-Grows (omega arith)
