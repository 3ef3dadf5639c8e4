-- ===== src/Query/Rev/Domain.antt =====
-- A revision term stays outside refs/meta.
use git_ents.Base.{
  Bytes, any, starts_with, Bool, false, List, [], ◌∷◌, Option, ok, ◌≡◌, refl, inl, inr, ◌&&◌,
  Option-cases, Result-cases, Bool-cases, ◌==◌, mem, length, arith,
}
use git_ents.Substrate.Refs.{Oid}
use git_ents.Query.Pattern.{star_byte, ref_pattern, literal_prefix}
use git_ents.Query.Rev.{
  RevTerm, dwim_candidates, valid_patterns, term_patterns, meta_start, parse_glob, parse_name,
  all_hex, parse_term,
}

abbrev pub names_meta : Bytes → Bool
names_meta pattern = starts_with meta_start (literal_prefix pattern)

-- The literal prefix begins with nothing that the pattern does not begin with.
starts_with-literal_prefix :
    (p s : Bytes) → starts_with p s ≡ false → starts_with p (literal_prefix s) ≡ false
unfolding starts_with literal_prefix
starts_with-literal_prefix [] s h = cc
starts_with-literal_prefix (b ∷ p) [] h = refl
starts_with-literal_prefix (b ∷ p) (c ∷ s) h = elim (Bool-cases (c == star_byte)) [
  | inl e ↦ rw e refl
  | inr e ↦ elim (Bool-cases (b == c)) [
    | inl f ↦ rw (e, f) (starts_with-literal_prefix p s (rw f at h))
    | inr f ↦ rw (e, f) refl
  ]
]

pub ref_pattern_same : (c : Bytes) {p : Bytes} → ref_pattern c ≡ ok p → c ≡ p
unfolding ref_pattern
ref_pattern_same [] h = cc
ref_pattern_same (b ∷ s) h = ground arith

valid_patterns-outside :
    (cs : List Bytes)
    → any (starts_with meta_start) cs ≡ false
    → any names_meta (valid_patterns cs) ≡ false
unfolding valid_patterns
valid_patterns-outside [] h = refl
valid_patterns-outside (c ∷ cs) h = elim (Result-cases (ref_pattern c)) [
  | inl (p, e) ↦
      let same : c ≡ p = ref_pattern_same c e in
      let outside : starts_with meta_start c ≡ false = ground arith in
      let inner : names_meta p ≡ false =
        starts_with-literal_prefix meta_start p (rw same at outside) in
      ground (arith, valid_patterns-outside cs)
  | inr (x, e) ↦ ground (arith, valid_patterns-outside cs)
]

glob_outside :
    (text whole_token p : Bytes) {term : RevTerm}
    → parse_glob text whole_token (ok p) ≡ ok term
    → any names_meta (term_patterns term) ≡ false
unfolding term_patterns
glob_outside text whole_token p {term} h = elim (Bool-cases (names_meta p)) [
  | inl e ↦ ground arith
  | inr e ↦ let same : RevTerm.glob p ≡ term = ground arith in rw (← same) (rw e refl)
]

name_outside :
    (text whole_token p : Bytes) {term : RevTerm}
    → parse_name text whole_token (ok p) ≡ ok term
    → any names_meta (term_patterns term) ≡ false
unfolding term_patterns
name_outside text whole_token p {term} h =
    elim (Bool-cases (any (starts_with meta_start) (dwim_candidates text))) [
      | inl e ↦ ground arith
      | inr e ↦
          let same : RevTerm.name text ≡ term = ground arith in
          rw (← same) (valid_patterns-outside (dwim_candidates text) e)
    ]

-- A term that `parse_term` accepts never names refs/meta: no pattern that it contributes to a
-- footprint has a literal prefix that begins with refs/meta.
pub parse_term-outside_meta :
    (oid_from_hex : Bytes → Option Oid) (text whole_token : Bytes) (term : RevTerm)
    → parse_term oid_from_hex text whole_token ≡ ok term
    → any names_meta (term_patterns term) ≡ false
unfolding parse_term term_patterns
parse_term-outside_meta oid_from_hex text whole_token term h =
    elim (Bool-cases (length text == 40 && all_hex text)) [
      | inl e ↦ elim (Option-cases (oid_from_hex text)) [
        | inl f ↦ ground arith
        | inr (x, f) ↦ ground arith
      ]
      | inr e ↦ elim (Result-cases (ref_pattern text)) [
        | inr (x, f) ↦ ground arith
        | inl (p, f) ↦ elim (Bool-cases (mem b'*' text)) [
          | inl g ↦ glob_outside text whole_token p {term = term} (ground arith)
          | inr g ↦ name_outside text whole_token p {term = term} (ground arith)
        ]
      ]
    ]
