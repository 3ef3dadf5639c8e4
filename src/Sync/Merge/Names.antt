-- ===== src/Sync/Merge/Names.antt =====
-- The set of names that `three_way` (crates/kernel/ents-sync/src/merge.rs) walks over does not depend
-- on the order in which the trees are read.
use git_ents.Base.{
  Bytes, bytes_eq, bytes_eq_refl, bytes_eq_sound, bytes_leb, true, false, ◌||◌, Bool-cases, List,
  [], ◌∷◌, ◌≡◌, refl, ap, ◌∙◌, inl, inr, arith,
}
use git_ents.Sync.Merge.{Slots, insert_name, extend_names}

leb_total : (a b : Bytes) → (bytes_leb a b || bytes_leb b a) ≡ true
unfolding bytes_leb
leb_total [] b = refl
leb_total (x ∷ a) [] = refl
leb_total (x ∷ a) (y ∷ b) = ground (arith, leb_total a b)

leb_antisym : (a b : Bytes) → bytes_leb a b ≡ true → bytes_leb b a ≡ true → bytes_eq a b ≡ true
unfolding bytes_leb bytes_eq
leb_antisym [] [] h k = refl
leb_antisym [] (y ∷ b) h k = cc
leb_antisym (x ∷ a) [] h k = cc
leb_antisym (x ∷ a) (y ∷ b) h k = ground (arith, leb_antisym a b)

leb_trans : (a b c : Bytes) → bytes_leb a b ≡ true → bytes_leb b c ≡ true → bytes_leb a c ≡ true
unfolding bytes_leb
leb_trans [] b c h k = refl
leb_trans (x ∷ a) [] c h k = cc
leb_trans (x ∷ a) (y ∷ b) [] h k = cc
leb_trans (x ∷ a) (y ∷ b) (z ∷ c) h k = ground (arith, leb_trans a b c)

eq_comm : (a b : Bytes) → bytes_eq a b ≡ bytes_eq b a
unfolding bytes_eq
eq_comm [] [] = refl
eq_comm [] (y ∷ b) = refl
eq_comm (x ∷ a) [] = refl
eq_comm (x ∷ a) (y ∷ b) = ground (arith, eq_comm a b)

insert_name_comm :
    (a b : Bytes) (names : List Bytes)
    → insert_name a (insert_name b names) ≡ insert_name b (insert_name a names)
unfolding insert_name
insert_name_comm a b names = elim (Bool-cases (bytes_eq a b)) [
  | inl e ↦ rw (bytes_eq_sound a b e) refl
  | inr e ↦ distinct a b names e
]
  where
    distinct :
        (a b : Bytes) (names : List Bytes)
        → bytes_eq a b ≡ false
        → insert_name a (insert_name b names) ≡ insert_name b (insert_name a names)
    distinct a b [] e = ground (arith, eq_comm a b, leb_total a b, leb_antisym a b)
    distinct a b (n ∷ names) e = elim (Bool-cases (bytes_eq b n)) [
      | inl f ↦
          let f' = bytes_eq_sound b n f in
          let e' : bytes_eq a n ≡ false = rw f' at e in
          rw f' (ground (arith, bytes_eq_refl n, eq_comm a n, leb_total a n, leb_antisym a n))
      | inr f ↦ elim (Bool-cases (bytes_eq a n)) [
        | inl k ↦
            let k' = bytes_eq_sound a n k in
            let e' : bytes_eq n b ≡ false = rw k' at e in
            rw k' (ground (arith, bytes_eq_refl n, eq_comm n b, leb_total n b, leb_antisym n b))
        | inr k ↦ ground (
          arith,
          distinct a b names e,
          eq_comm a b,
          leb_total a b,
          leb_antisym a b,
          leb_total a n,
          leb_total b n,
          leb_antisym a n,
          leb_antisym b n,
          leb_trans a b n,
          leb_trans b a n,
          leb_trans n a b,
          leb_trans n b a,
        )
      ]
    ]

insert-extend_names :
    (k : Bytes) (o : Slots) (names : List Bytes)
    → insert_name k (extend_names o names) ≡ extend_names o (insert_name k names)
unfolding extend_names
insert-extend_names k [] names = refl
insert-extend_names k ((j, s) ∷ o) names =
    insert-extend_names k o (insert_name j names) ∙ ap (extend_names o) (insert_name_comm k j names)

pub extend_names_comm :
    (o t : Slots) (names : List Bytes)
    → extend_names t (extend_names o names) ≡ extend_names o (extend_names t names)
unfolding extend_names
extend_names_comm o [] names = refl
extend_names_comm o ((k, s) ∷ t) names =
    ap (extend_names t) (insert-extend_names k o names)
    ∙ extend_names_comm o t (insert_name k names)
