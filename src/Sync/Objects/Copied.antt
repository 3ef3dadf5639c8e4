-- ===== src/Sync/Objects/Copied.antt =====
-- What `copy_closure` (crates/kernel/ents-sync/src/objects.rs) leaves in the destination, when the
-- stores address objects by their hash.
use git_ents.Base.{
  ℕ, zero, suc, ◌≡◌, refl, true, List, [], ◌∷◌, inl, inr, Bool-cases, some, ok, err, arith, ◌==◌,
  mem, rev_append, ap, Result-cases,
}
use git_ents.Graph.{Reaches, Covers, Covers-start, Covers-skip, Covers-visit, Covers-complete}
use git_ents.Substrate.Refs.{Oid}
use git_ents.Substrate.Objects.{Object, Objects}
use git_ents.Sync.Types.{Sync, Sync-cases, write, Db, Git, IsStore, IsAddressed}
use git_ents.Sync.Objects.{find, links, copy_one, copy_loop, copy_closure}
use git_ents.Sync.Objects.Descent.{or_nil}

abbrev links_at : Objects → Oid → Sync Object → List Oid
links_at src oid (ok found) = or_nil (links src found oid)
links_at src oid (err _) = []

-- The edges of the object graph: a commit's tree and parents, and the entries of a tree.
abbrev pub links_of : Objects → Oid → List Oid
links_of src oid = links_at src oid (find src oid)

find-eq-ok :
    (src : Objects) (oid : Oid) (found : Object)
    → find src oid ≡ ok found
    → src.try_find oid ≡ ok (some found)
unfolding find
find-eq-ok src oid found h = ground arith

-- Both stores hold this object, and the same.
abbrev pub IsCopied : Objects → Db → Oid → Type 0
IsCopied src db x = (z : Object) × (src.try_find x ≡ ok (some z)) × (db x ≡ ok (some z))

module _ (src : Objects) (g : Git) (hash : Object → Oid) (law : IsStore g hash)
    (addressed : IsAddressed hash src.try_find) where
  -- What one write does to the copies.
  written-IsCopied :
      (dst after : Db) (oid id : Oid) (found : Object)
      → find src oid ≡ ok found
      → g.write_buf dst found.kind found.bytes ≡ (ok id, after)
      → IsCopied src after oid × ((x : Oid) → IsCopied src dst x → IsCopied src after x)
  written-IsCopied dst after oid id found f w =
      let s = find-eq-ok src oid found f in
      let (e, p) = law.put dst found id after w in
      (
        (found, s, rw (← addressed oid found s, ← e) p),
        λ x c. (c.0, c.1, law.kept dst found id after w x c.0 c.2),
      )

  copy_one-IsCopied :
      (oid : Oid) (dst after : Db) (named : List Oid)
      → copy_one src g oid dst ≡ (ok named, after)
      → (named ≡ links_of src oid)
        × IsCopied src after oid
        × ((x : Oid) → IsCopied src dst x → IsCopied src after x)
  unfolding copy_one
  copy_one-IsCopied oid dst after named h = elim (Sync-cases (find src oid)) [
    | inr (e, f) ↦
        absurd
          (let t : (err e, dst) ≡ (ok named, after) = rw (copy_one, f) at h in cc (ap (λ p. p.0) t))
    | inl (found, f) ↦
        let w = g.write_buf dst found.kind found.bytes in
        elim (Result-cases w.0) [
          | inr (e, p) ↦ absurd (
              let t : (err write, w.1) ≡ (ok named, after) = rw (copy_one, f, p) at h in
              cc (ap (λ q. q.0) t))
          | inl (id, p) ↦
              let t : (links src found oid, w.1) ≡ (ok named, after) = rw (copy_one, f, p) at h in
              let e : links src found oid ≡ ok named = ap (λ q. q.0) t in
              let a : w.1 ≡ after = ap (λ q. q.1) t in
              let (i, k) = written-IsCopied dst w.1 oid id found f (ap (λ r. (r, w.1)) p) in
              (rw (f, e) refl, rw (← a) i, rw (← a) k)
        ]
  ]

  copy_loop-IsCopied :
      (fuel : ℕ) (start : Oid) (stack seen : List Oid) (dst after : Db)
      → Covers (links_of src) start stack seen
      → ((x : Oid) → mem x seen ≡ true → IsCopied src dst x)
      → copy_loop src g fuel stack seen dst ≡ (ok tt, after)
      → (x : Oid) → Reaches (links_of src) start x
      → IsCopied src after x
  unfolding copy_loop
  copy_loop-IsCopied zero start stack seen dst after c k h = cc
  copy_loop-IsCopied (suc fuel) start [] seen dst after c k h = λ x r.
      let e : dst ≡ after = ap (λ p. p.1) h in
      rw (← e) (k x (Covers-complete (links_of src) seen c r))
  copy_loop-IsCopied (suc fuel) start (oid ∷ stack) seen dst after c k h =
      elim (Bool-cases (mem oid seen)) [
        | inl m ↦
            copy_loop-IsCopied fuel start stack seen dst after
              (Covers-skip (links_of src) stack seen m c) k (rw m at h)
        | inr m ↦
            let one = copy_one src g oid dst in
            elim (Sync-cases one.0) [
              | inr (e, p) ↦
                  absurd (
                    let t : (err e, one.1) ≡ (ok tt, after) = rw (m, p) at h in
                    cc (ap (λ q. q.0) t))
              | inl (named, p) ↦
                  let (n, i, kept) =
                    copy_one-IsCopied oid dst one.1 named (ap (λ r. (r, one.1)) p) in
                  copy_loop-IsCopied fuel start (rev_append (links_of src oid) stack) (oid ∷ seen)
                    one.1 after (Covers-visit (links_of src) stack seen c)
                    (λ x s. elim (Bool-cases (oid == x)) [
                      | inl e ↦ let e' : x ≡ oid = ground arith in rw e' i
                      | inr e ↦ kept x (k x (ground arith))
                    ])
                    (rw (m, p, n) at h)
            ]
      ]

-- If it succeeds, every object that the root reaches in the source, through parents, trees and
-- their entries, is in the destination, unchanged, when both stores address objects by their hash.
pub copy_closure-IsCopied :
    (src : Objects) (g : Git) (hash : Object → Oid) (fuel : ℕ) (root : Oid) (dst after : Db)
    → IsStore g hash
    → IsAddressed hash src.try_find
    → copy_closure src g fuel root dst ≡ (ok tt, after)
    → (x : Oid) → Reaches (links_of src) root x
    → IsCopied src after x
unfolding copy_closure
copy_closure-IsCopied src g hash fuel root dst after law addressed h =
    copy_loop-IsCopied src g hash law addressed fuel root (root ∷ []) [] dst after
      (Covers-start (links_of src) root) (λ x m. absurd (cc m)) h
