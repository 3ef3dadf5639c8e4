-- ===== src/Gate/Object/Roots.antt =====
-- `all_roots` (crates/kernel/ents-gate/src/object.rs) finds the parentless commits that a tip reaches.
use git_ents.Base.{
  ℕ, zero, suc, ◌+◌, ◌≤◌, ◌<◌, ◌≡◌, refl, ◌↔◌, Bool, true, false, ◌&&◌, List, [], ◌∷◌, Option, some,
  inl, inr, Bool-cases, ok, err, arith, ◌==◌, ==_refl, length, mem, mem-append, rev_append,
}
use git_ents.Graph.{
  visit_pays, Reaches, Covers, Covers-start, Covers-skip, Covers-visit, Covers-complete, weight,
}
use git_ents.Substrate.Refs.{Oid}
use git_ents.Substrate.Objects.{Objects}
use git_ents.Gate.Errors.{Gate, GateError, Gate-cases}
use git_ents.Gate.Object.{CommitData, read_commit, visit_root, roots_loop, all_roots}
use git_ents.Gate.Object.Ancestry.{parents_of, HasHistory, walk_fuel}

abbrev is_nil : List Oid → Bool
is_nil [] = true
is_nil (_ ∷ _) = false

abbrev parentless : Gate (Option CommitData) → Bool
parentless (ok (some commit)) = is_nil commit.parents
parentless _ = false

-- The object reads as a commit without parents.
abbrev pub is_root : Objects → Oid → Bool
is_root o x = parentless (read_commit o x)

-- What a walk from `start` may return: exactly the roots reached, or the error of an object reached.
abbrev pub FindsRoots : Objects → Oid → Gate (List Oid) → Type 0
FindsRoots o start (ok roots) =
    (r : Oid) → (mem r roots ≡ true) ↔ (Reaches (parents_of o) start r × (is_root o r ≡ true))
FindsRoots o start (err e) = (x : Oid) × Reaches (parents_of o) start x × (read_commit o x ≡ err e)

module _ (o : Objects) (history : List Oid) (h : HasHistory o history) (start : Oid) where
  -- the roots so far are those among the commits seen
  abbrev Collects : List Oid → List Oid → Type 0
  Collects seen roots = (r : Oid) → mem r roots ≡ (mem r seen && is_root o r)

  Collects-visit :
      (oid : Oid) (found : Option CommitData) (queue seen roots : List Oid)
      → read_commit o oid ≡ ok found
      → mem oid seen ≡ false
      → Collects seen roots
      → Collects (oid ∷ seen) (visit_root oid found queue roots).1
  Collects-visit oid found queue seen roots e new c r = elim (Bool-cases (oid == r)) [
    | inl same ↦
        let e' : oid ≡ r = ground arith in
        let e'' : read_commit o r ≡ ok found = rw e' at e in
        let new' : mem r seen ≡ false = rw e' at new in
        ground (arith, c r, mem-append r roots (oid ∷ []))
    | inr other ↦ ground (arith, c r, mem-append r roots (oid ∷ []))
  ]

  visit_queue :
      (oid : Oid) (found : Option CommitData) (queue roots : List Oid)
      → read_commit o oid ≡ ok found
      → (visit_root oid found queue roots).0 ≡ rev_append (parents_of o oid) queue
  visit_queue oid found queue roots e = rw e (ground arith)

  roots_loop-FindsRoots :
      (fuel : ℕ) (queue seen roots : List Oid)
      → length queue + weight (parents_of o) history seen < fuel
      → Covers (parents_of o) start queue seen
      → Collects seen roots
      → FindsRoots o start (roots_loop o fuel queue seen roots)
  unfolding roots_loop
  roots_loop-FindsRoots zero queue seen roots b c k = absurd (omega arith)
  roots_loop-FindsRoots (suc fuel) [] seen roots b c k = λ r. (
    λ m. (c.only r (ground (arith, k r)), ground (arith, k r)),
    λ (reach, root). ground (arith, k r, Covers-complete (parents_of o) seen c reach),
  )
  roots_loop-FindsRoots (suc fuel) (oid ∷ queue) seen roots b c k =
      elim (Bool-cases (mem oid seen)) [
        | inl m ↦ rw m (
            roots_loop-FindsRoots fuel queue seen roots (omega arith)
              (Covers-skip (parents_of o) queue seen m c) k)
        | inr m ↦ elim (Gate-cases (read_commit o oid)) [
          | inl (found, e) ↦
              rw (m, e, visit_queue oid found queue roots e)
                (roots_loop-FindsRoots fuel (rev_append (parents_of o oid) queue) (oid ∷ seen)
                  (visit_root oid found queue roots).1
                  (omega (arith, visit_pays (parents_of o) history h.listed oid queue seen m))
                  (Covers-visit (parents_of o) queue seen c)
                  (Collects-visit oid found queue seen roots e m k))
          | inr (x, e) ↦ rw (m, e) (oid, c.only oid (ground (arith, ==_refl oid)), e)
        ]
      ]

read_commit-has_fuel : (o : Objects) (x : Oid) → ¬ (read_commit o x ≡ err GateError.out_of_fuel)
unfolding read_commit
read_commit-has_fuel o x e = ground arith

FindsRoots-has_fuel :
    (o : Objects) (start : Oid) (r : Gate (List Oid))
    → FindsRoots o start r
    → ¬ (r ≡ err GateError.out_of_fuel)
FindsRoots-has_fuel o start (ok roots) f e = cc
FindsRoots-has_fuel o start (err x) (y, _, at_y) e =
    let same : x ≡ GateError.out_of_fuel = cc in read_commit-has_fuel o y (cc at_y)

-- In a store with finitely many commits that have parents, `all_roots` with fuel for each of those
-- parents does not run out of fuel: it returns exactly the parentless commits that the tip reaches,
-- or the error met at an object that the tip reaches, such as one that is missing.
pub all_roots-FindsRoots :
    (o : Objects) (history : List Oid) (fuel : ℕ) (tip : Oid)
    → HasHistory o history
    → walk_fuel o history ≤ fuel
    → FindsRoots o tip (all_roots o fuel tip) × ¬ (all_roots o fuel tip ≡ err GateError.out_of_fuel)
unfolding all_roots
all_roots-FindsRoots o history fuel tip h enough =
    let found : FindsRoots o tip (all_roots o fuel tip) =
      roots_loop-FindsRoots o history h tip fuel (tip ∷ []) [] [] (omega arith)
        (Covers-start (parents_of o) tip) (λ r. refl) in
    (found, FindsRoots-has_fuel o tip _ found)
