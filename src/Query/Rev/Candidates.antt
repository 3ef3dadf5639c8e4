-- ===== src/Query/Rev/Candidates.antt =====
-- The candidates of a short name that the parser takes (crates/kernel/ents-query/src/rev.rs) are
-- patterns that RefPattern::new takes.
use git_ents.Base.{
  ℕ, Bytes, codes, mem, any, starts_with, ◌&&◌, List, [], ◌∷◌, ◌++◌, Option, ok, ◌≡◌, refl, ap, inl,
  inr, Bool-cases, Result-cases, Option-cases, sym, ◌∙◌, length, arith, ◌==◌,
}
use git_ents.Query.Pattern.{ref_pattern, has_double, literal_prefix}
use git_ents.Substrate.Refs.{Oid}
use git_ents.Query.Rev.{
  RevTerm, dwim_candidates, valid_patterns, all_hex, parse_term, parse_glob, parse_name, meta_start,
}
use git_ents.Query.Rev.Domain.{ref_pattern_same}

module _ (b : ℕ) (s : Bytes) where
  abbrev name : Bytes
  name = b ∷ s

  under_refs :
      ref_pattern name ≡ ok name → ref_pattern (codes "refs/" ++ name) ≡ ok (codes "refs/" ++ name)
  unfolding ref_pattern has_double starts_with
  under_refs h = ground arith

  under_tags :
      ref_pattern name ≡ ok name
      → ref_pattern (codes "refs/tags/" ++ name) ≡ ok (codes "refs/tags/" ++ name)
  unfolding ref_pattern has_double starts_with
  under_tags h = ground arith

  under_heads :
      ref_pattern name ≡ ok name
      → ref_pattern (codes "refs/heads/" ++ name) ≡ ok (codes "refs/heads/" ++ name)
  unfolding ref_pattern has_double starts_with
  under_heads h = ground arith

  under_remotes :
      ref_pattern name ≡ ok name
      → ref_pattern (codes "refs/remotes/" ++ name) ≡ ok (codes "refs/remotes/" ++ name)
  unfolding ref_pattern has_double starts_with
  under_remotes h = ground arith

valid_patterns-empty : valid_patterns [] ≡ []
unfolding valid_patterns
valid_patterns-empty = refl

keeps :
    (c : Bytes) {cs : List Bytes}
    → ref_pattern c ≡ ok c
    → valid_patterns cs ≡ cs
    → valid_patterns (c ∷ cs) ≡ c ∷ cs
unfolding valid_patterns
keeps c h rest = rw (h, valid_patterns) (ap (λ ps. c ∷ ps) rest)

no_empty : ref_pattern [] ≡ ok [] → ⊥
unfolding ref_pattern
no_empty h = cc

pub dwim_candidates-valid :
    (n : Bytes) → ref_pattern n ≡ ok n → valid_patterns (dwim_candidates n) ≡ dwim_candidates n
unfolding dwim_candidates
dwim_candidates-valid [] h = absurd (no_empty h)
dwim_candidates-valid (b ∷ s) h =
    let none_left : valid_patterns [] ≡ [] = valid_patterns-empty in
    let remotes = keeps (codes "refs/remotes/" ++ b ∷ s) (under_remotes b s h) none_left in
    let heads = keeps (codes "refs/heads/" ++ b ∷ s) (under_heads b s h) remotes in
    let tags = keeps (codes "refs/tags/" ++ b ∷ s) (under_tags b s h) heads in
    elim (Bool-cases (starts_with (codes "refs/") (b ∷ s))) [
      | inl e ↦ rw e (keeps (b ∷ s) h none_left)
      | inr e ↦ rw e (keeps (codes "refs/" ++ b ∷ s) (under_refs b s h) tags)
    ]

-- Each name of the terms is a pattern that the code accepts.
pub data Named : List RevTerm → Type 0 where
  none_left : Named []
  by_name :
      {n : Bytes} {terms : List RevTerm}
      → ref_pattern n ≡ ok n
      → Named terms
      → Named (RevTerm.name n ∷ terms)
  by_glob : {p : Bytes} {terms : List RevTerm} → Named terms → Named (RevTerm.glob p ∷ terms)
  by_oid : {o : Oid} {terms : List RevTerm} → Named terms → Named (RevTerm.oid o ∷ terms)

parse_glob-Named :
    (text whole_token p : Bytes) {term : RevTerm}
    → parse_glob text whole_token (ok p) ≡ ok term
    → Named (term ∷ [])
parse_glob-Named text whole_token p {term} h =
    elim (Bool-cases (starts_with meta_start (literal_prefix p))) [
      | inl e ↦ ground arith
      | inr e ↦ let same : RevTerm.glob p ≡ term = ground arith in rw (← same) (by_glob none_left)
    ]

parse_name-Named :
    (text whole_token p : Bytes) {term : RevTerm}
    → ref_pattern text ≡ ok p
    → parse_name text whole_token (ok p) ≡ ok term
    → Named (term ∷ [])
parse_name-Named text whole_token p {term} f h =
    elim (Bool-cases (any (starts_with meta_start) (dwim_candidates text))) [
      | inl e ↦ ground arith
      | inr e ↦
          let own : text ≡ p = ref_pattern_same text f in
          let valid : ref_pattern text ≡ ok text = f ∙ ap ok (sym own) in
          let same : RevTerm.name text ≡ term = ground arith in
          rw (← same) (by_name valid none_left)
    ]

-- A name that the parser takes is one that RefPattern::new takes.
pub parse_term-Named :
    (oid_from_hex : Bytes → Option Oid) (text whole_token : Bytes) (term : RevTerm)
    → parse_term oid_from_hex text whole_token ≡ ok term
    → Named (term ∷ [])
unfolding parse_term
parse_term-Named oid_from_hex text whole_token term h =
    elim (Bool-cases (length text == 40 && all_hex text)) [
      | inl e ↦ elim (Option-cases (oid_from_hex text)) [
        | inl f ↦ absurd (ground arith)
        | inr (x, f) ↦
            let same : RevTerm.oid x ≡ term = ground arith in rw (← same) (by_oid none_left)
      ]
      | inr e ↦ elim (Result-cases (ref_pattern text)) [
        | inr (x, f) ↦ absurd (ground arith)
        | inl (p, f) ↦ elim (Bool-cases (mem b'*' text)) [
          | inl g ↦ parse_glob-Named text whole_token p {term = term} (ground arith)
          | inr g ↦ parse_name-Named text whole_token p {term = term} f (ground arith)
        ]
      ]
    ]
