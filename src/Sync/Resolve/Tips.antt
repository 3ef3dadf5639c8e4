-- ===== src/Sync/Resolve/Tips.antt =====
-- The tip that `merge_heads` (crates/kernel/ents-sync/src/resolve.rs) makes.
use git_ents.Base.{
  ℕ, Bytes, ==_refl, List, [], ◌∷◌, Option, none, some, Option-cases, ok, err, Result-cases, ◌≡◌,
  refl, ap, ◌⊎◌, inl, inr, arith,
}
use git_ents.Graph
use git_ents.Graph.{Reaches}
use git_ents.Substrate.Refs.{Oid}
use git_ents.Substrate.Objects.{Kind, Object, Objects}
use git_ents.Sync.Types.{SyncError, Sync, Sync-cases, decode, write, Db, Commit, Git, IsStore, at}
use git_ents.Sync.Objects.{decode_commit, commit_tree, parents}
use git_ents.Sync.Objects.Descent.{or_nil, parents_of}
use git_ents.Sync.Merge.{Merge}
use git_ents.Sync.Transfer.FastForward.{Descends}
use git_ents.Sync.Merge.Loop.{three_way}
use git_ents.Sync.Resolve.{
  Heads, tip, conflict, unsigned, with_sig, seal, seal_tip, our_trees, merge_onto, merge_heads,
}

-- gitoxide reads the tree and the parents of a commit back as it wrote them.
abbrev pub Rereads : Git → Objects → Type 0
Rereads g o =
    (commit : Commit) (raw : Bytes)
    → g.write_commit commit ≡ some raw
    → o.commit_from_bytes raw ≡ some (commit.tree, commit.parents)

abbrev pub parents_for : Option Oid → Oid → List Oid
parents_for none theirs = theirs ∷ []
parents_for (some ours) theirs = ours ∷ theirs ∷ []

-- A commit with these parents.
abbrev HasParents : Objects → Db → Oid → List Oid → Type 0
HasParents o db oid ps = parents (at o db) oid ≡ ok ps

Merge-cases :
    (r : Sync Merge)
    → ((t : Oid) × (r ≡ ok (Merge.clean t)))
      ⊎ ((ps : List Bytes) × (r ≡ ok (Merge.conflict ps)))
      ⊎ ((e : SyncError) × (r ≡ err e))
Merge-cases (ok (Merge.clean t)) = inl (t, refl)
Merge-cases (ok (Merge.conflict ps)) = inr (inl (ps, refl))
Merge-cases (err e) = inr (inr (e, refl))

module _ (g : Git) (trim_end sign : Bytes → Bytes) (o : Objects) (hash : Object → Oid)
    (law : IsStore g hash) (rereads : Rereads g o) where
  seal-HasParents :
      (tree : Oid) (ps : List Oid) (author summary : Bytes) (db after : Db) (oid : Oid)
      → seal g trim_end sign tree ps author summary db ≡ (ok oid, after)
      → HasParents o after oid ps
  unfolding seal parents decode_commit
  seal-HasParents tree ps author summary db after oid h =
      let commit = unsigned tree ps author summary in
      elim (Option-cases (g.write_commit commit)) [
        | inl e ↦
            absurd (let q : err (decode tree) ≡ ok oid = ap (λ y. y.0) (rw (seal, e) at h) in cc q)
        | inr (payload, e) ↦
            let signed = with_sig commit (trim_end (sign payload)) in
            elim (Option-cases (g.write_commit signed)) [
              | inl f ↦ absurd (
                  let q : err (decode tree) ≡ ok oid = ap (λ y. y.0) (rw (seal, e, f) at h) in cc q)
              | inr (raw, f) ↦
                  let w = g.write_buf db Kind.commit raw in
                  elim (Result-cases w.0) [
                    | inr (x, p) ↦ absurd (
                        let q : err write ≡ ok oid = ap (λ y. y.0) (rw (seal, e, f, p) at h) in
                        cc q)
                    | inl (id, p) ↦
                        let q = rw (seal, e, f, p) at h in
                        let i : ok id ≡ ok oid = ap (λ y. y.0) q in
                        let i' : id ≡ oid = cc i in
                        let x : Object = record { kind = Kind.commit; bytes = raw } in
                        let (s, put) = law.put db x id w.1 (ap (λ y. (y, w.1)) p) in
                        let r = rereads signed raw f in
                        rw (← i', ← ap (λ y. y.1) q) (rw (parents, put, decode_commit, r) refl)
                  ]
            ]
      ]

  seal_tip-HasParents :
      (tree : Oid) (ps : List Oid) (author summary : Bytes) (db after : Db) (oid : Oid)
      → seal_tip g trim_end sign tree ps author summary db ≡ (ok (tip oid), after)
      → HasParents o after oid ps
  unfolding seal_tip
  seal_tip-HasParents tree ps author summary db after oid h =
      let r = seal g trim_end sign tree ps author summary db in
      elim (Sync-cases r.0) [
        | inr (x, p) ↦
            absurd (let q : err x ≡ ok (tip oid) = ap (λ y. y.0) (rw (seal_tip, p) at h) in cc q)
        | inl (id, p) ↦
            let q = rw (seal_tip, p) at h in
            let i : ok (tip id) ≡ ok (tip oid) = ap (λ y. y.0) q in
            let i' : id ≡ oid = cc i in
            rw (← i', ← ap (λ y. y.1) q)
              (seal-HasParents tree ps author summary db r.1 id (ap (λ y. (y, r.1)) p))
      ]

  merge_onto-HasParents :
      (fuel : ℕ) (ours : Option Oid) (theirs theirs_tree : Oid) (author summary : Bytes)
      (db after : Db) (oid : Oid)
      → merge_onto g trim_end sign o fuel ours theirs theirs_tree author summary db
        ≡ (ok (tip oid), after)
      → HasParents o after oid (parents_for ours theirs)
  unfolding merge_onto
  merge_onto-HasParents fuel none theirs theirs_tree author summary db after oid h =
      seal_tip-HasParents theirs_tree (theirs ∷ []) author summary db after oid h
  merge_onto-HasParents fuel (some ours) theirs theirs_tree author summary db after oid h =
      elim (Sync-cases (our_trees (at o db) fuel ours theirs)) [
        | inr (x, r) ↦
            absurd (let q : err x ≡ ok (tip oid) = ap (λ y. y.0) (rw (merge_onto, r) at h) in cc q)
        | inl (bt, r) ↦
            let m = three_way g o fuel bt.0 bt.1 theirs_tree db in
            elim (Merge-cases m.0) [
              | inr (inr (x, k)) ↦ absurd (
                  let q : err x ≡ ok (tip oid) = ap (λ y. y.0) (rw (merge_onto, r, k) at h) in cc q)
              | inr (inl (paths, k)) ↦ absurd (
                  let q : ok (conflict paths) ≡ ok (tip oid) =
                    ap (λ y. y.0) (rw (merge_onto, r, k) at h) in
                  cc q)
              | inl (tree, k) ↦
                  seal_tip-HasParents tree (ours ∷ theirs ∷ []) author summary m.1 after oid
                    (rw (merge_onto, r, k) at h)
            ]
      ]

  -- A merge tip, in the objects that the merge leaves, has the old tip of the ref and the folded-in
  -- head as parents, in this order, or the head alone if the ref is new; so it descends from both,
  -- and the ref fast-forwards. This holds for a store that addresses objects by their hash and a
  -- commit format that reads back.
  pub merge_heads-Descends :
      (fuel : ℕ) (heads : Heads) (author summary : Bytes) (db after : Db) (oid : Oid)
      → merge_heads g trim_end sign o fuel heads author summary db ≡ (ok (tip oid), after)
      → (parents (at o after) oid ≡ ok (parents_for heads.ours heads.theirs))
        × Descends (at o after) oid heads.ours
        × Reaches (parents_of (at o after)) oid heads.theirs
  unfolding merge_heads
  merge_heads-Descends fuel heads author summary db after oid h =
      elim (Sync-cases (commit_tree (at o db) heads.theirs)) [
        | inr (x, p) ↦
            absurd (let q : err x ≡ ok (tip oid) = ap (λ y. y.0) (rw (merge_heads, p) at h) in cc q)
        | inl (theirs_tree, p) ↦
            let k =
              merge_onto-HasParents fuel heads.ours heads.theirs theirs_tree author summary db after
                oid (rw (merge_heads, p) at h) in
            (
              k,
              descends after oid heads.theirs heads.ours k,
              folded after oid heads.theirs heads.ours k,
            )
      ]
    where
      descends :
          (db : Db) (oid theirs : Oid) (ours : Option Oid)
          → HasParents o db oid (parents_for ours theirs)
          → Descends (at o db) oid ours
      descends db oid theirs none k = tt
      descends db oid theirs (some ours) k =
          let e : parents_of (at o db) oid ≡ ours ∷ theirs ∷ [] = ap or_nil k in
          Graph.step (rw e (ground (arith, ==_refl ours))) (Graph.here ours)

      folded :
          (db : Db) (oid theirs : Oid) (ours : Option Oid)
          → HasParents o db oid (parents_for ours theirs)
          → Reaches (parents_of (at o db)) oid theirs
      folded db oid theirs none k =
          let e : parents_of (at o db) oid ≡ theirs ∷ [] = ap or_nil k in
          Graph.step (rw e (ground (arith, ==_refl theirs))) (Graph.here theirs)
      folded db oid theirs (some ours) k =
          let e : parents_of (at o db) oid ≡ ours ∷ theirs ∷ [] = ap or_nil k in
          Graph.step (rw e (ground (arith, ==_refl theirs))) (Graph.here theirs)
