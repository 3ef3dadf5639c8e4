-- ===== src/Query/Pattern/Prefix.antt =====
-- The prefix overlap test of a pattern, against what the pattern matches.
use git_ents.Base.{Bytes, true, [], ◌∷◌, ◌++◌, ◌≡◌, ◌↔◌, inl, inr, refl, Bool-cases, ◌==◌, arith}
use git_ents.Query.Pattern.{star_byte, any_suffix, may_match}
use git_ents.Query.Pattern.Spec.{Matches, done, byte, skip, eat, Matches-byte}

-- Some text that begins with the prefix matches the pattern.
abbrev pub Overlaps : Bytes → Bytes → Type 0
Overlaps pattern prefix = (rest : Bytes) × Matches pattern (prefix ++ rest)

-- The text that a pattern stands for when its stars take nothing.
matched_by_literal : (pattern : Bytes) → (text : Bytes) × Matches pattern text
matched_by_literal [] = ([], done)
matched_by_literal (c ∷ p) = elim (Bool-cases (c == star_byte)) [
  | inl e ↦
      let e' : c ≡ star_byte = ground arith in
      let (t, m) = matched_by_literal p in (t, rw (e') (skip m))
  | inr e ↦ let (t, m) = matched_by_literal p in (c ∷ t, byte e m)
]

module _ (p : Bytes) (h : (prefix : Bytes) → (may_match p prefix ≡ true) ↔ Overlaps p prefix) where
  star_overlap :
      (prefix : Bytes) → any_suffix (may_match p) prefix ≡ true → Overlaps (star_byte ∷ p) prefix
  star_overlap [] e = let (r, m) = (h []).0 e in (r, skip m)
  star_overlap (b ∷ rest) e = elim (Bool-cases (may_match p (b ∷ rest))) [
    | inl f ↦ let (r, m) = (h (b ∷ rest)).0 f in (r, skip m)
    | inr f ↦ let (r, m) = star_overlap rest (ground arith) in (r, eat m)
  ]

  any_overlap :
      (prefix rest : Bytes)
      → Matches (star_byte ∷ p) (prefix ++ rest)
      → any_suffix (may_match p) prefix ≡ true
  any_overlap [] rest m = let (t, n) = matched_by_literal p in (h []).1 (t, n)
  any_overlap (b ∷ prefix) rest (byte n m) = absurd cc
  any_overlap (b ∷ prefix) rest (skip m) = let f = (h (b ∷ prefix)).1 (rest, m) in ground arith
  any_overlap (b ∷ prefix) rest (eat m) = let f = any_overlap prefix rest m in ground arith

-- The prefix overlap test is exact: it answers yes exactly when some text that begins with the
-- prefix matches the pattern.
pub may_match_iff :
    (pattern prefix : Bytes) → (may_match pattern prefix ≡ true) ↔ Overlaps pattern prefix
unfolding may_match
may_match_iff [] [] = (λ e. ([], done), λ o. refl)
may_match_iff [] (b ∷ rest) = (λ e. cc, λ (r, m). absurd (nothing m))
  where
    nothing : {r : Bytes} → Matches [] (b ∷ r) → ⊥
    nothing m = elim m [ ]
may_match_iff (c ∷ p) [] = (λ e. matched_by_literal (c ∷ p), λ o. refl)
may_match_iff (c ∷ p) (b ∷ rest) = elim (Bool-cases (c == star_byte)) [
  | inl e ↦
      let e' : c ≡ star_byte = ground arith in
      rw (e, e')
        (
          star_overlap p (may_match_iff p) (b ∷ rest),
          λ (r, m). any_overlap p (may_match_iff p) (b ∷ rest) r m,
        )
  | inr e ↦ rw e (
    λ f.
        let (r, m) = (may_match_iff p rest).0 (ground arith) in
        let same : c ≡ b = ground arith in (r, rw (← same) (byte e m)),
    λ (r, m).
        let (same, n) = Matches-byte e m in let f = (may_match_iff p rest).1 (r, n) in ground arith,
  )
]
