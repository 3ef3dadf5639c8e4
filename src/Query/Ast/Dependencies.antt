-- ===== src/Query/Ast/Dependencies.antt =====
-- The effects on whose results a query depends.
use git_ents.Base.{
  Bytes, bytes_eq, bytes_eq_iff, true, ◌||◌, List, [], ◌∷◌, ◌++◌, ◌≡◌, ◌↔◌, ◌⊎◌, refl, sym, inl,
  inr, Bool-cases, arith,
}
use git_ents.Query.Ast.{
  StatusFilter, Query, rev, results, meta, op, has_name, collect_dependencies, results_dependencies,
}

-- The query has an atom over the results of the effect.
pub data DependsOn (effect : Bytes) : Query → Type 0 where
  itself : {status : _} → DependsOn effect (results effect status)
  on_left : {o : _} {lhs rhs : Query} → DependsOn effect lhs → DependsOn effect (op o lhs rhs)
  on_right : {o : _} {lhs rhs : Query} → DependsOn effect rhs → DependsOn effect (op o lhs rhs)

has_name-append :
    (e : Bytes) (xs ys : List Bytes) → has_name e (xs ++ ys) ≡ (has_name e xs || has_name e ys)
unfolding has_name
has_name-append e [] ys = refl
has_name-append e (x ∷ xs) ys = ground (arith, has_name-append e xs ys)

same_effect : {e effect : Bytes} {status : _} → DependsOn e (results effect status) → e ≡ effect
same_effect {e} itself = λ i. e

has_name-snoc :
    (e effect : Bytes) (status : StatusFilter) (out : List Bytes)
    → (has_name e (out ++ effect ∷ []) ≡ true)
      ↔ ((has_name e out ≡ true) ⊎ DependsOn e (results effect status))
unfolding has_name
has_name-snoc e effect status out = rw (has_name-append e out (effect ∷ [])) (
  λ h. elim (Bool-cases (has_name e out)) [
    | inl f ↦ inl f
    | inr f ↦
        let same : effect ≡ e = (bytes_eq_iff effect e).0 (ground arith) in inr (rw (← same) itself)
  ],
  λ x. elim x [
    | inl f ↦ ground arith
    | inr t ↦
        let same : bytes_eq effect e ≡ true = (bytes_eq_iff effect e).1 (sym (same_effect t)) in
        ground arith
  ],
)

module _ (e : Bytes) where
  collect_dependencies_iff :
      (query : Query) (out : List Bytes)
      → (has_name e (collect_dependencies query out) ≡ true)
        ↔ ((has_name e out ≡ true) ⊎ DependsOn e query)
  unfolding collect_dependencies
  collect_dependencies_iff (rev expr) out =
      ((λ h. inl h), λ x. elim x [ inl h ↦ h | inr t ↦ elim t [ ] ])
  collect_dependencies_iff (meta glob) out =
      ((λ h. inl h), λ x. elim x [ inl h ↦ h | inr t ↦ elim t [ ] ])
  collect_dependencies_iff (results effect status) out = elim (Bool-cases (has_name effect out)) [
    | inl f ↦ rw f ((λ h. inl h), λ x. elim x [ inl h ↦ h | inr t ↦ rw (same_effect t) f ])
    | inr f ↦ rw f (has_name-snoc e effect status out)
  ]
  collect_dependencies_iff (op o lhs rhs) out =
      let (f, g) = collect_dependencies_iff lhs out in
      let (h, k) = collect_dependencies_iff rhs (collect_dependencies lhs out) in
      (
        λ x. elim (h x) [
          | inl y ↦ elim (f y) [ inl z ↦ inl z | inr t ↦ inr (on_left t) ]
          | inr t ↦ inr (on_right t)
        ],
        λ x. elim x [
          | inl y ↦ k (inl (g (inl y)))
          | inr t ↦ elim t [ on_left u ↦ k (inl (g (inr u))) | on_right u ↦ k (inr u) ]
        ],
      )

  -- `results_dependencies` names an effect exactly when the query has an atom over that effect's
  -- results.
  pub results_dependencies_iff :
      (query : Query) → (has_name e (results_dependencies query) ≡ true) ↔ DependsOn e query
  unfolding results_dependencies
  results_dependencies_iff query =
      let (f, g) = collect_dependencies_iff query [] in
      ((λ x. elim (f x) [ inl y ↦ absurd cc | inr t ↦ t ]), λ t. g (inr t))
