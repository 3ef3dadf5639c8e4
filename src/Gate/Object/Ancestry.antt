-- ===== src/Gate/Object/Ancestry.antt =====
-- `descends_from` (crates/kernel/ents-gate/src/object.rs) decides reachability along parents.
use git_ents.Base.{
  ℕ, zero, suc, ◌+◌, ◌≤◌, ◌<◌, ◌≡◌, refl, ◌↔◌, Bool, true, false, List, [], ◌∷◌, inl, inr,
  Bool-cases, Option, some, ok, err, arith, ◌==◌, ==_refl, length, mem, rev_append,
}
use git_ents.Graph.{
  Reaches, Covers, Covers-start, Covers-skip, Covers-visit, Covers-complete, weight, visit_pays,
}
use git_ents.Substrate.Refs.{Oid}
use git_ents.Substrate.Objects.{Objects}
use git_ents.Gate.Errors.{Gate}
use git_ents.Gate.Object.{CommitData, read_commit, descent_loop, descends_from}

abbrev readable_parents : Gate (Option CommitData) → List Oid
readable_parents (ok (some commit)) = commit.parents
readable_parents _ = []

-- The edges of the history: a commit's parents, where it can be read.
abbrev pub parents_of : Objects → Oid → List Oid
parents_of o oid = readable_parents (read_commit o oid)

-- The store holds finitely many commits with parents: those of `history`.
pub record HasHistory (o : Objects) (history : List Oid) : Type 0 where
  pub listed : (x : Oid) → mem x history ≡ false → parents_of o x ≡ []

-- The fuel that a walk from one tip needs.
abbrev pub walk_fuel : Objects → List Oid → ℕ
walk_fuel o history = weight (parents_of o) history [] + 2

-- The answer is a Boolean, and the right one about `G`.
abbrev Decides : Type 0 → Gate Bool → Type 0
Decides G (ok true) = G
Decides G (ok false) = ¬ G
Decides G (err _) = ⊥

module _ (o : Objects) (history : List Oid) (h : HasHistory o history) (start ancestor : Oid) where
  descent_loop-Decides :
      (fuel : ℕ) (queue seen : List Oid)
      → length queue + weight (parents_of o) history seen < fuel
      → mem ancestor seen ≡ false
      → Covers (parents_of o) start queue seen
      → Decides (Reaches (parents_of o) start ancestor) (descent_loop o fuel ancestor queue seen)
  unfolding descent_loop
  descent_loop-Decides zero queue seen b n c = absurd (omega arith)
  descent_loop-Decides (suc fuel) [] seen b n c = λ r. cc (Covers-complete (parents_of o) seen c r)
  descent_loop-Decides (suc fuel) (oid ∷ queue) seen b n c = elim (Bool-cases (oid == ancestor)) [
    | inl e ↦
        let e' : oid ≡ ancestor = ground arith in
        rw e (rw (← e') (c.only oid (ground (arith, ==_refl oid))))
    | inr e ↦ elim (Bool-cases (mem oid seen)) [
      | inl m ↦
          rw (e, m)
            (descent_loop-Decides fuel queue seen (omega arith) n
              (Covers-skip (parents_of o) queue seen m c))
      | inr m ↦
          rw (e, m)
            (descent_loop-Decides fuel (rev_append (parents_of o oid) queue) (oid ∷ seen)
              (omega (arith, visit_pays (parents_of o) history h.listed oid queue seen m))
              (ground arith) (Covers-visit (parents_of o) queue seen c))
    ]
  ]

Decides-total :
    {G : Type 0} (r : Gate Bool) → Decides G r → (b : Bool) × (r ≡ ok b) × ((b ≡ true) ↔ G)
Decides-total (ok true) g = (true, refl, (λ _. g, λ _. refl))
Decides-total (ok false) n = (false, refl, (λ e. cc, λ g. absurd (n g)))
Decides-total (err e) h = absurd h

-- In a store with finitely many commits that have parents, `descends_from` with fuel for each of
-- those parents returns a Boolean, and it is true exactly when the descendant reaches the ancestor
-- along parents.
pub descends_from_iff :
    (o : Objects) (history : List Oid) (fuel : ℕ) (descendant ancestor : Oid)
    → HasHistory o history
    → walk_fuel o history ≤ fuel
    → (b : Bool) × (descends_from o fuel descendant ancestor ≡ ok b)
      × ((b ≡ true) ↔ Reaches (parents_of o) descendant ancestor)
unfolding descends_from
descends_from_iff o history fuel descendant ancestor h enough = Decides-total _ (
    descent_loop-Decides o history h descendant ancestor fuel (descendant ∷ []) [] (omega arith)
      refl (Covers-start (parents_of o) descendant))

-- An answer of true is right whatever the fuel.
descent_loop_sound :
    (o : Objects) (start ancestor : Oid) (fuel : ℕ) (queue seen : List Oid)
    → Covers (parents_of o) start queue seen
    → descent_loop o fuel ancestor queue seen ≡ ok true
    → Reaches (parents_of o) start ancestor
unfolding descent_loop
descent_loop_sound o start ancestor zero queue seen c e = cc
descent_loop_sound o start ancestor (suc fuel) [] seen c e = cc
descent_loop_sound o start ancestor (suc fuel) (oid ∷ queue) seen c e =
    elim (Bool-cases (oid == ancestor)) [
      | inl h ↦
          let e' : oid ≡ ancestor = ground arith in
          rw (← e') (c.only oid (ground (arith, ==_refl oid)))
      | inr h ↦ elim (Bool-cases (mem oid seen)) [
        | inl m ↦
            descent_loop_sound o start ancestor fuel queue seen
              (Covers-skip (parents_of o) queue seen m c) (rw (h, m) at e)
        | inr m ↦
            descent_loop_sound o start ancestor fuel (rev_append (parents_of o oid) queue)
              (oid ∷ seen) (Covers-visit (parents_of o) queue seen c) (rw (h, m) at e)
      ]
    ]

pub descends_from_sound :
    (o : Objects) (fuel : ℕ) (descendant ancestor : Oid)
    → descends_from o fuel descendant ancestor ≡ ok true
    → Reaches (parents_of o) descendant ancestor
unfolding descends_from
descends_from_sound o fuel descendant ancestor =
    descent_loop_sound o descendant ancestor fuel (descendant ∷ []) []
      (Covers-start (parents_of o) descendant)
