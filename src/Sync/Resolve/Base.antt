-- ===== src/Sync/Resolve/Base.antt =====
-- `merge_base` (crates/kernel/ents-sync/src/resolve.rs) finds a common ancestor if there is one.
use git_ents.Base.{
  ℕ, ◌+◌, ◌≤◌, ◌<◌, ◌≢◌, length, zero, suc, true, false, false≢true, Bool-cases, List, [], ◌∷◌,
  ◌++◌, Option, none, some, ok, err, >>=-eq-ok, ◌==◌, ==_refl, mem, mem-append, rev_append, ◌≡◌,
  ◌↔◌, ap, sym, ◌∙◌, inl, inr, arith,
}
use git_ents.Graph.{
  weight, visit_pays, visit_pays_behind, Reaches, Covers, Covers-start, Covers-skip, Covers-visit,
  Covers-grow, Covers-complete,
}
use git_ents.Substrate.Refs.{Oid}
use git_ents.Substrate.Objects.{Objects}
use git_ents.Sync.Types.{SyncError, Sync, Sync-cases, out_of_fuel}
use git_ents.Sync.Objects.{parents}
use git_ents.Sync.Objects.Descent.{or_nil, parents_of, parents_fuel, HasHistory, walk_fuel}
use git_ents.Sync.Resolve.{ancestors_loop, ancestors, base_loop, merge_base}

error_of : {A : Type 0} {e f : SyncError} → Path (Sync A) (err e) (err f) → e ≡ f
error_of q = cc

module _ (o : Objects) where
  ancestors_loop_iff :
      (fuel : ℕ) (start : Oid) (stack seen all : List Oid)
      → Covers (parents_of o) start stack seen
      → ancestors_loop o fuel stack seen ≡ ok all
      → (x : Oid) → (mem x all ≡ true) ↔ Reaches (parents_of o) start x
  unfolding ancestors_loop
  ancestors_loop_iff zero start stack seen all c h = cc
  ancestors_loop_iff (suc fuel) start [] seen all c h = λ x.
      let e : seen ≡ all = cc in
      rw (← e) ((λ m. c.only x (ground (arith, m))), Covers-complete (parents_of o) seen c)
  ancestors_loop_iff (suc fuel) start (oid ∷ stack) seen all c h =
      elim (Bool-cases (mem oid seen)) [
        | inl m ↦
            ancestors_loop_iff fuel start stack seen all (Covers-skip (parents_of o) stack seen m c)
              (rw (ancestors_loop, m) at h)
        | inr m ↦ elim (Sync-cases (parents o oid)) [
          | inr (e, p) ↦ absurd (let q : err e ≡ ok all = rw (ancestors_loop, m, p) at h in cc q)
          | inl (ps, p) ↦
              let q : parents_of o oid ≡ ps = ap or_nil p in
              ancestors_loop_iff fuel start (rev_append (parents_of o oid) stack) (oid ∷ seen) all
                (Covers-visit (parents_of o) stack seen c) (rw (ancestors_loop, m, p, ← q) at h)
        ]
      ]

  -- What the answer says.
  abbrev pub Answer : Oid → Oid → Option Oid → Type 0
  Answer a b (some c) = Reaches (parents_of o) a c × Reaches (parents_of o) b c
  Answer a b none = (c : Oid) → Reaches (parents_of o) a c → Reaches (parents_of o) b c → ⊥

  base_loop-Answer :
      (fuel : ℕ) (a b : Oid) (all queue seen : List Oid) (found : Option Oid)
      → ((x : Oid) → (mem x all ≡ true) ↔ Reaches (parents_of o) a x)
      → ((x : Oid) → mem x seen ≡ true → mem x all ≡ false)
      → Covers (parents_of o) b queue seen
      → base_loop o fuel all queue seen ≡ ok found
      → Answer a b found
  unfolding base_loop
  base_loop-Answer zero a b all queue seen found is n c h = cc
  base_loop-Answer (suc fuel) a b all [] seen found is n c h =
      let e : none ≡ found = cc in
      rw (← e) (λ x r s.
        let t = (is x).1 r in
        let u = n x (Covers-complete (parents_of o) seen c s) in false≢true (sym u ∙ t))
  base_loop-Answer (suc fuel) a b all (oid ∷ queue) seen found is n c h =
      elim (Bool-cases (mem oid seen)) [
        | inl m ↦
            base_loop-Answer fuel a b all queue seen found is n
              (Covers-skip (parents_of o) queue seen m c) (rw (base_loop, m) at h)
        | inr m ↦ elim (Bool-cases (mem oid all)) [
          | inl k ↦
              let e : ok (some oid) ≡ ok found = rw (base_loop, m, k) at h in
              let e' : some oid ≡ found = cc e in
              rw (← e') ((is oid).0 k, c.only oid (ground (arith, ==_refl oid)))
          | inr k ↦ elim (Sync-cases (parents o oid)) [
            | inr (e, p) ↦ absurd (let q : err e ≡ ok found = rw (base_loop, m, k, p) at h in cc q)
            | inl (ps, p) ↦
                let q : parents_of o oid ≡ ps = ap or_nil p in
                base_loop-Answer fuel a b all (queue ++ parents_of o oid) (oid ∷ seen) found is
                  (λ x s. elim (Bool-cases (oid == x)) [
                    | inl e ↦ let e' : x ≡ oid = ground arith in rw e' k
                    | inr e ↦ n x (ground arith)
                  ])
                  (Covers-grow (parents_of o) queue (queue ++ parents_of o oid) seen
                    (λ x. ground (arith, mem-append x queue (parents_of o oid))) c)
                  (rw (base_loop, m, k, p, ← q) at h)
          ]
        ]
      ]

  merge_base-Answer :
      (fuel : ℕ) (a b : Oid) (found : Option Oid)
      → merge_base o fuel a b ≡ ok found
      → Answer a b found
  unfolding merge_base ancestors
  merge_base-Answer fuel a b found h =
      let (all, e, h') = >>=-eq-ok (ancestors o fuel a) _ h in
      base_loop-Answer fuel a b all (b ∷ []) [] found
        (ancestors_loop_iff fuel a (a ∷ []) [] all (Covers-start (parents_of o) a) e)
        (λ x s. absurd (cc s)) (Covers-start (parents_of o) b) h'

module _ (o : Objects) (history : List Oid) (h : HasHistory o history) where
  ancestors_loop_fuel :
      (fuel : ℕ) (stack seen : List Oid)
      → length stack + weight (parents_of o) history seen < fuel
      → ancestors_loop o fuel stack seen ≢ err out_of_fuel
  unfolding ancestors_loop
  ancestors_loop_fuel zero stack seen b = absurd (omega arith)
  ancestors_loop_fuel (suc fuel) [] seen b = λ q. cc
  ancestors_loop_fuel (suc fuel) (oid ∷ stack) seen b = elim (Bool-cases (mem oid seen)) [
    | inl m ↦ rw m (ancestors_loop_fuel fuel stack seen (omega arith))
    | inr m ↦ elim (Sync-cases (parents o oid)) [
      | inl (ps, p) ↦
          let q : parents_of o oid ≡ ps = ap or_nil p in
          rw (m, p, ← q)
            (ancestors_loop_fuel fuel (rev_append (parents_of o oid) stack) (oid ∷ seen)
              (omega (arith, visit_pays (parents_of o) history h oid stack seen m)))
      | inr (x, p) ↦ rw (m, p) (λ q. parents_fuel o oid p (cc q))
    ]
  ]

  base_loop_fuel :
      (fuel : ℕ) (all queue seen : List Oid)
      → length queue + weight (parents_of o) history seen < fuel
      → base_loop o fuel all queue seen ≢ err out_of_fuel
  unfolding base_loop
  base_loop_fuel zero all queue seen b = absurd (omega arith)
  base_loop_fuel (suc fuel) all [] seen b = λ q. cc
  base_loop_fuel (suc fuel) all (oid ∷ queue) seen b = elim (Bool-cases (mem oid seen)) [
    | inl m ↦ rw m (base_loop_fuel fuel all queue seen (omega arith))
    | inr m ↦ elim (Bool-cases (mem oid all)) [
      | inl k ↦ rw (m, k) (λ q. cc)
      | inr k ↦ elim (Sync-cases (parents o oid)) [
        | inl (ps, p) ↦
            let q : parents_of o oid ≡ ps = ap or_nil p in
            rw (m, k, p, ← q)
              (base_loop_fuel fuel all (queue ++ parents_of o oid) (oid ∷ seen)
                (omega (arith, visit_pays_behind (parents_of o) history h oid queue seen m)))
        | inr (x, p) ↦ rw (m, k, p) (λ q. parents_fuel o oid p (cc q))
      ]
    ]
  ]

  -- With fuel for each parent that is recorded in the store, `merge_base` does not run out of it. If
  -- it answers with a commit, both heads reach it along parents; if it answers with none, there is
  -- no commit that both reach.
  pub merge_base-Decides :
      (fuel : ℕ) (a b : Oid)
      → walk_fuel o history ≤ fuel
      → (merge_base o fuel a b ≢ err out_of_fuel)
        × ((found : Option Oid) → merge_base o fuel a b ≡ ok found → Answer o a b found)
  unfolding merge_base ancestors
  merge_base-Decides fuel a b enough = (
    elim (Sync-cases (ancestors o fuel a)) [
      | inl (all, p) ↦ rw p (base_loop_fuel fuel all (b ∷ []) [] (omega arith))
      | inr (x, p) ↦ rw p (λ q.
          ancestors_loop_fuel fuel (a ∷ []) [] (omega arith) (p ∙ ap (λ e. err e) (error_of q)))
    ],
    merge_base-Answer o fuel a b,
  )
