-- ===== src/Query/Ast/Sorted.antt =====
-- Sorting and deduplicating patterns keeps what the patterns match.
use git_ents.Base.{
  Bytes, sort_bytes, any-sort_bytes, bytes_eq, bytes_eq_sound, any, Bool, ◌||◌, List, [], ◌∷◌, ◌++◌,
  ◌≡◌, refl, ◌∙◌, inl, inr, Bool-cases, arith,
}
use git_ents.Query.Ast.{dedup_after, dedup, from_patterns}

pub any-append {ℓ} :
    {A : Type ℓ} (f : A → Bool) (xs ys : List A) → any f (xs ++ ys) ≡ (any f xs || any f ys)
any-append f [] ys = refl
any-append f (x ∷ xs) ys = ground (arith, any-append f xs ys)

module _ (f : Bytes → Bool) where
  any-dedup_after :
      (p : Bytes) (qs : List Bytes) → (f p || any f (dedup_after p qs)) ≡ (f p || any f qs)
  unfolding dedup_after
  any-dedup_after p [] = refl
  any-dedup_after p (q ∷ qs) = elim (Bool-cases (bytes_eq p q)) [
    | inl e ↦
        let same : p ≡ q = bytes_eq_sound p q e in
        rw (e, ← same) (ground (arith, any-dedup_after p qs))
    | inr e ↦ rw e (ground (arith, any-dedup_after q qs))
  ]

  any-dedup : (ps : List Bytes) → any f (dedup ps) ≡ any f ps
  unfolding dedup
  any-dedup [] = refl
  any-dedup (p ∷ ps) = any-dedup_after p ps

  pub any-from_patterns : (ps : List Bytes) → any f (from_patterns ps) ≡ any f ps
  unfolding from_patterns
  any-from_patterns ps = any-dedup (sort_bytes ps) ∙ any-sort_bytes f ps
