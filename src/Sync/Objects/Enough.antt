-- ===== src/Sync/Objects/Enough.antt =====
-- `copy_closure` (crates/kernel/ents-sync/src/objects.rs) comes to an end.
use git_ents.Base.{
  ℕ, zero, suc, ◌+◌, ◌≤◌, ◌<◌, ◌≡◌, ◌≢◌, refl, false, List, [], ◌∷◌, inl, inr, Bool-cases, ok, err,
  arith, length, mem, rev_append, ap, ◌∙◌, Result-cases,
}
use git_ents.Graph.{weight, visit_pays}
use git_ents.Substrate.Refs.{Oid}
use git_ents.Substrate.Objects.{Object, Objects}
use git_ents.Sync.Types.{Sync-cases, write, out_of_fuel, Db, Git}
use git_ents.Sync.Objects.{
  find, decode_commit, decode_tree, links, copy_one, copy_loop, copy_closure,
}
use git_ents.Sync.Objects.Copied.{links_of}

-- The source holds finitely many objects that name others: those of `objects`.
abbrev pub HasObjects : Objects → List Oid → Type 0
HasObjects src objects = (x : Oid) → mem x objects ≡ false → links_of src x ≡ []

abbrev pub copy_fuel : Objects → List Oid → ℕ
copy_fuel src objects = weight (links_of src) objects [] + 2

links_fuel : (src : Objects) (found : Object) (oid : Oid) → links src found oid ≢ err out_of_fuel
unfolding links decode_commit decode_tree
links_fuel src found oid h = ground arith

copy_one_fuel :
    (src : Objects) (g : Git) (oid : Oid) (dst : Db) → (copy_one src g oid dst).0 ≢ err out_of_fuel
unfolding copy_one find
copy_one_fuel src g oid dst h = grind (arith, links_fuel)

copy_one-links :
    (src : Objects) (g : Git) (oid : Oid) (dst : Db) {named : List Oid}
    → (copy_one src g oid dst).0 ≡ ok named
    → named ≡ links_of src oid
unfolding copy_one
copy_one-links src g oid dst {named} h = elim (Sync-cases (find src oid)) [
  | inr (e, f) ↦ absurd (let t : err e ≡ ok named = rw (copy_one, f) at h in cc t)
  | inl (found, f) ↦ elim (Result-cases (g.write_buf dst found.kind found.bytes).0) [
    | inr (e, p) ↦ absurd (let t : err write ≡ ok named = rw (copy_one, f, p) at h in cc t)
    | inl (id, p) ↦
        let t : links src found oid ≡ ok named = rw (copy_one, f, p) at h in rw (f, t) refl
  ]
]

copy_loop_fuel :
    (src : Objects) (g : Git) (objects : List Oid)
    → HasObjects src objects
    → (fuel : ℕ) (stack seen : List Oid) (dst : Db)
    → length stack + weight (links_of src) objects seen < fuel
    → (copy_loop src g fuel stack seen dst).0 ≢ err out_of_fuel
unfolding copy_loop
copy_loop_fuel src g objects h zero stack seen dst b = absurd (omega arith)
copy_loop_fuel src g objects h (suc fuel) [] seen dst b = λ e. cc
copy_loop_fuel src g objects h (suc fuel) (oid ∷ stack) seen dst b =
    elim (Bool-cases (mem oid seen)) [
      | inl m ↦ rw m (copy_loop_fuel src g objects h fuel stack seen dst (omega arith))
      | inr m ↦ elim (Sync-cases (copy_one src g oid dst).0) [
        | inr (e, p) ↦
            rw (m, p)
              (λ q.
                let e' : e ≡ out_of_fuel = cc in
                copy_one_fuel src g oid dst (p ∙ ap (λ x. err x) e'))
        | inl (named, p) ↦
            rw (m, p, copy_one-links src g oid dst p)
              (copy_loop_fuel src g objects h fuel (rev_append (links_of src oid) stack)
                (oid ∷ seen) (copy_one src g oid dst).1
                (omega (arith, visit_pays (links_of src) objects h oid stack seen m)))
      ]
    ]

-- With fuel for every link of the objects in the source, `copy_closure` does not run out of it: it
-- succeeds or fails with an error of the stores or of the decoders.
pub copy_closure_fuel :
    (src : Objects) (g : Git) (objects : List Oid) (fuel : ℕ) (root : Oid) (dst : Db)
    → HasObjects src objects
    → copy_fuel src objects ≤ fuel
    → (copy_closure src g fuel root dst).0 ≢ err out_of_fuel
unfolding copy_closure
copy_closure_fuel src g objects fuel root dst h enough =
    copy_loop_fuel src g objects h fuel (root ∷ []) [] dst (omega arith)
