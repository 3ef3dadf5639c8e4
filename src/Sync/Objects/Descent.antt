-- ===== src/Sync/Objects/Descent.antt =====
-- `descends_from` (crates/kernel/ents-sync/src/objects.rs) decides reachability along the parents
-- that can be read.
use git_ents.Base.{
  ℕ, zero, suc, ◌+◌, ◌≤◌, ◌<◌, ◌≡◌, ◌≢◌, refl, Bool, true, false, List, [], ◌∷◌, inl, inr,
  Bool-cases, ok, err, arith, ◌==◌, ==_refl, length, mem, rev_append, ap,
}
use git_ents.Graph.{
  Reaches, Covers, Covers-start, Covers-skip, Covers-visit, Covers-complete, weight, visit_pays,
}
use git_ents.Substrate.Refs.{Oid}
use git_ents.Substrate.Objects.{Objects}
use git_ents.Sync.Types.{SyncError, Sync, Sync-cases, out_of_fuel}
use git_ents.Sync.Objects.{decode_commit, parents, descent_loop, descends_from}

abbrev pub or_nil : Sync (List Oid) → List Oid
or_nil (ok xs) = xs
or_nil (err _) = []

-- The edges of the history: the parents that can be read.
abbrev pub parents_of : Objects → Oid → List Oid
parents_of o oid = or_nil (parents o oid)

-- The store holds finitely many commits with parents: those of `history`.
abbrev pub HasHistory : Objects → List Oid → Type 0
HasHistory o history = (x : Oid) → mem x history ≡ false → parents_of o x ≡ []

abbrev pub walk_fuel : Objects → List Oid → ℕ
walk_fuel o history = weight (parents_of o) history [] + 2

pub parents_fuel :
    (o : Objects) (oid : Oid) {e : SyncError} → parents o oid ≡ err e → e ≢ out_of_fuel
unfolding parents decode_commit
parents_fuel o oid h = λ q. let k : parents o oid ≡ err out_of_fuel = rw q at h in ground arith

-- The answer, if there is one, is the right one about `G`.
abbrev pub Answers : Type 0 → Sync Bool → Type 0
Answers G (ok true) = G
Answers G (ok false) = ¬ G
Answers G (err _) = Unit

module _ (o : Objects) (start ancestor : Oid) where
  descent_loop-Answers :
      (fuel : ℕ) (stack seen : List Oid)
      → mem ancestor seen ≡ false
      → Covers (parents_of o) start stack seen
      → Answers (Reaches (parents_of o) start ancestor) (descent_loop o fuel ancestor stack seen)
  unfolding descent_loop
  descent_loop-Answers zero stack seen n c = tt
  descent_loop-Answers (suc fuel) [] seen n c = λ r. cc (Covers-complete (parents_of o) seen c r)
  descent_loop-Answers (suc fuel) (oid ∷ stack) seen n c = elim (Bool-cases (oid == ancestor)) [
    | inl e ↦
        let e' : oid ≡ ancestor = ground arith in
        rw e (rw (← e') (c.only oid (ground (arith, ==_refl oid))))
    | inr e ↦ elim (Bool-cases (mem oid seen)) [
      | inl m ↦
          rw (e, m)
            (descent_loop-Answers fuel stack seen n (Covers-skip (parents_of o) stack seen m c))
      | inr m ↦ elim (Sync-cases (parents o oid)) [
        | inl (ps, p) ↦
            let q : parents_of o oid ≡ ps = ap or_nil p in
            rw (e, m, p, ← q)
              (descent_loop-Answers fuel (rev_append (parents_of o oid) stack) (oid ∷ seen)
                (ground arith) (Covers-visit (parents_of o) stack seen c))
        | inr (x, p) ↦ rw (e, m, p) tt
      ]
    ]
  ]

  -- An answer is right whatever the fuel.
  pub descends_from-Answers :
      (fuel : ℕ)
      → Answers (Reaches (parents_of o) start ancestor) (descends_from o fuel start ancestor)
  unfolding descends_from
  descends_from-Answers fuel =
      descent_loop-Answers fuel (start ∷ []) [] refl (Covers-start (parents_of o) start)

module _ (o : Objects) (history : List Oid) (h : HasHistory o history) (ancestor : Oid) where
  descent_loop_fuel :
      (fuel : ℕ) (stack seen : List Oid)
      → length stack + weight (parents_of o) history seen < fuel
      → descent_loop o fuel ancestor stack seen ≢ err out_of_fuel
  unfolding descent_loop
  descent_loop_fuel zero stack seen b = absurd (omega arith)
  descent_loop_fuel (suc fuel) [] seen b = λ q. cc
  descent_loop_fuel (suc fuel) (oid ∷ stack) seen b = elim (Bool-cases (oid == ancestor)) [
    | inl e ↦ rw e (λ q. cc)
    | inr e ↦ elim (Bool-cases (mem oid seen)) [
      | inl m ↦ rw (e, m) (descent_loop_fuel fuel stack seen (omega arith))
      | inr m ↦ elim (Sync-cases (parents o oid)) [
        | inl (ps, p) ↦
            let q : parents_of o oid ≡ ps = ap or_nil p in
            rw (e, m, p, ← q)
              (descent_loop_fuel fuel (rev_append (parents_of o oid) stack) (oid ∷ seen)
                (omega (arith, visit_pays (parents_of o) history h oid stack seen m)))
        | inr (x, p) ↦ rw (e, m, p) (λ q. parents_fuel o oid p (cc q))
      ]
    ]
  ]

-- With fuel for each parent that is recorded in the store, `descends_from` does not run out of it;
-- and an answer that it gives is true exactly when the descendant reaches the ancestor along
-- parents.
pub descends_from-Decides :
    (o : Objects) (history : List Oid) (fuel : ℕ) (descendant ancestor : Oid)
    → HasHistory o history
    → walk_fuel o history ≤ fuel
    → (descends_from o fuel descendant ancestor ≢ err out_of_fuel)
      × Answers
          (Reaches (parents_of o) descendant ancestor)
          (descends_from o fuel descendant ancestor)
unfolding descends_from
descends_from-Decides o history fuel descendant ancestor h enough = (
  descent_loop_fuel o history h ancestor fuel (descendant ∷ []) [] (omega arith),
  descends_from-Answers o descendant ancestor fuel,
)
