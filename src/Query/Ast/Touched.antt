-- ===== src/Query/Ast/Touched.antt =====
-- What the footprint of a query says of a refname.
use git_ents.Base.{
  Bytes, any, Bool, true, false, ◌||◌, List, [], ◌∷◌, ◌++◌, ok, ◌≡◌, ◌↔◌, ◌⊎◌, refl, inl, inr,
  Bool-cases, Result-cases, arith,
}
use git_ents.Query.Pattern.{ref_pattern, glob_match}
use git_ents.Query.Pattern.Spec.{Matches}
use git_ents.Query.Pattern.Glob.{glob_match_iff}
use git_ents.Query.Rev.{RevExpr, expr_patterns}
use git_ents.Query.Ast.{
  Query, rev, results, meta, op, results_glob, collect_patterns, footprint, footprint_matches,
}
use git_ents.Query.Ast.Sorted.{any-append, any-from_patterns}

-- Some pattern of the list matches the name.
pub data Some : List Bytes → Bytes → Type 0 where
  first : {p : Bytes} {ps : List Bytes} {name : Bytes} → Matches p name → Some (p ∷ ps) name
  later : {p : Bytes} {ps : List Bytes} {name : Bytes} → Some ps name → Some (p ∷ ps) name

-- The name is one that some atom of the query reads.
pub data Touches (name : Bytes) : Query → Type 0 where
  by_rev : {expr : RevExpr} → Some (expr_patterns expr) name → Touches name (rev expr)
  by_results :
      {effect : Bytes} {status : _} {p : Bytes}
      → ref_pattern (results_glob effect) ≡ ok p
      → Matches p name
      → Touches name (results effect status)
  by_meta : {glob : Bytes} → Matches glob name → Touches name (meta glob)
  on_left : {o : _} {lhs rhs : Query} → Touches name lhs → Touches name (op o lhs rhs)
  on_right : {o : _} {lhs rhs : Query} → Touches name rhs → Touches name (op o lhs rhs)

module _ (name : Bytes) where
  abbrev hit : Bytes → Bool
  hit p = glob_match p name

  Some-hit : {ps : List Bytes} → Some ps name → any hit ps ≡ true
  Some-hit (first {p} m) = let e = (glob_match_iff p name).1 m in ground arith
  Some-hit (later s) = let e = Some-hit s in ground arith

  Some-iff : (ps : List Bytes) → (any hit ps ≡ true) ↔ Some ps name
  Some-iff [] = ((λ e. cc), λ s. elim s [ ])
  Some-iff (p ∷ ps) = (
    λ e. elim (Bool-cases (hit p)) [
      | inl f ↦ first ((glob_match_iff p name).0 f)
      | inr f ↦ later ((Some-iff ps).0 (ground arith))
    ],
    Some-hit,
  )

  any_or : (a b : Bool) {P : Type 0} → (b ≡ true) ↔ P → ((a || b) ≡ true) ↔ ((a ≡ true) ⊎ P)
  any_or true b (f, g) = ((λ _. inl refl), λ _. refl)
  any_or false b (f, g) = ((λ e. inr (f e)), λ x. elim x [ inl e ↦ cc | inr q ↦ g q ])

  -- What is put at the end of the patterns adds what it matches.
  grown :
      (out more : List Bytes) {P : Type 0}
      → (any hit more ≡ true) ↔ P
      → (any hit (out ++ more) ≡ true) ↔ ((any hit out ≡ true) ⊎ P)
  grown out more i = rw (any-append hit out more) (any_or (any hit out) (any hit more) i)

  collect_patterns_iff :
      (query : Query) (out : List Bytes)
      → (any hit (collect_patterns query out) ≡ true) ↔ ((any hit out ≡ true) ⊎ Touches name query)
  unfolding collect_patterns ref_pattern
  collect_patterns_iff (rev expr) out =
      grown out (expr_patterns expr)
        ((λ e. by_rev ((Some-iff _).0 e)), λ t. elim t [ by_rev s ↦ Some-hit s ])
  collect_patterns_iff (results effect status) out =
      elim (Result-cases (ref_pattern (results_glob effect))) [
        | inl (p, e) ↦ rw e (
            grown out (p ∷ []) (
              (λ h. by_results e ((glob_match_iff p name).0 (ground arith))),
              λ t. elim t [
                | by_results {p = q} f m ↦
                    let same : q ≡ p = ground arith in
                    let h = (glob_match_iff q name).1 m in ground arith
              ],
            ))
        | inr (x, e) ↦ rw e (
          (λ h. inl h),
          λ y. elim y [ inl h ↦ h | inr t ↦ elim t [ by_results f m ↦ absurd cc ] ],
        )
      ]
  collect_patterns_iff (meta glob) out = grown out (glob ∷ []) (
    (λ h. by_meta ((glob_match_iff glob name).0 (ground arith))),
    λ t. elim t [ by_meta m ↦ let h = (glob_match_iff glob name).1 m in ground arith ],
  )
  collect_patterns_iff (op o lhs rhs) out =
      let (f, g) = collect_patterns_iff lhs out in
      let (h, k) = collect_patterns_iff rhs (collect_patterns lhs out) in
      (
        λ e. elim (h e) [
          | inl x ↦ elim (f x) [ inl y ↦ inl y | inr t ↦ inr (on_left t) ]
          | inr t ↦ inr (on_right t)
        ],
        λ x. elim x [
          | inl y ↦ k (inl (g (inl y)))
          | inr t ↦ elim t [ on_left u ↦ k (inl (g (inr u))) | on_right u ↦ k (inr u) ]
        ],
      )

  -- The footprint of a query, sorted and without repetitions, matches a refname exactly when some
  -- atom of the query reads that refname: a pattern of a `rev()` term, the results of an effect, or
  -- a `meta()` glob.
  pub footprint_iff :
      (query : Query) → (footprint_matches (footprint query) name ≡ true) ↔ Touches name query
  unfolding footprint footprint_matches
  footprint_iff query = rw (any-from_patterns hit (collect_patterns query [])) (
      let (f, g) = collect_patterns_iff query [] in
      ((λ e. elim (f e) [ inl x ↦ absurd cc | inr t ↦ t ]), λ t. g (inr t)))
