-- ===== src/Query/Eval/Footprint.antt =====
-- What the footprint is for in crates/kernel/ents-query/src/eval.rs, where entry_set returns early:
-- the tips of a `rev()` or a `meta()` atom under the movement of a ref outside it.
use git_ents.Base.{
  Bytes, codes, bytes_eq, bytes_eq_sound, starts_with, any, Bool, true, false, List, [], ◌∷◌, ◌++◌,
  Option, none, some, Result, ok, ◌>>=◌, ◌≡◌, refl, sym, ap, ◌∙◌, inl, inr, Bool-cases,
  Result-cases, arith, append_assoc, ◌==◌,
}
use git_ents.Substrate.Refs.{Oid, StoreError, RefStoreRead}
use git_ents.Query.Pattern.{star_byte, glob_match}
use git_ents.Query.Pattern.Spec.{Matches, done, byte, skip, eat}
use git_ents.Query.Pattern.Glob.{glob_match_iff}
use git_ents.Query.Rev.{
  RevTerm, RevExpr, dwim_candidates, term_patterns, terms_patterns, expr_patterns,
}
use git_ents.Query.Rev.Candidates.{Named, by_name, by_glob, by_oid, dwim_candidates-valid}
use git_ents.Query.Ast.Sorted.{any-append, any-from_patterns}
use git_ents.Query.Ast.{rev, meta, collect_patterns, footprint, footprint_matches}
use git_ents.Query.Eval.{
  Side, old, new, Transition, get_full, resolve, read_entries, retain_others, push_value,
  apply_transition, iter_refs, first_candidate, tips_where, in_glob, term_tips, resolve_terms,
  rev_tips, meta_tips,
}

-- A glob matches itself, read as a name.
Matches-self : (p : Bytes) → Matches p p
Matches-self [] = done
Matches-self (c ∷ p) = elim (Bool-cases (c == star_byte)) [
  | inl e ↦ (let same : c ≡ 42 = ground (arith, e) in rw same (eat (skip (Matches-self p))))
  | inr e ↦ byte e (Matches-self p)
]

pub glob_match_refl : (p : Bytes) → glob_match p p ≡ true
glob_match_refl p = (glob_match_iff p p).1 (Matches-self p)

tips_where-append :
    (test : Bytes → Bool) (name : Bytes) (value : Option Oid) (out : List (Bytes × Oid))
    → test name ≡ false
    → tips_where test (push_value name value out) ≡ tips_where test out
unfolding tips_where
tips_where-append test name none out h = refl
tips_where-append test name (some oid) [] h = ground arith
tips_where-append test name (some oid) ((n, o) ∷ out) h =
    let again = tips_where-append test name (some oid) out h in
    elim (Bool-cases (test n)) [ inl e ↦ ground arith | inr e ↦ ground arith ]

module _ (is_full_name : Bytes → Bool) (refs : RefStoreRead) (t : Transition) where
  abbrev hit : Bytes → Bool
  hit p = glob_match p t.name

  -- A name that does not match the moved ref is not the moved ref.
  other : (c : Bytes) → hit c ≡ false → bytes_eq t.name c ≡ false
  other c h = elim (Bool-cases (bytes_eq t.name c)) [
    | inl e ↦
        let same = bytes_eq_sound t.name c e in
        let self = glob_match_refl c in
        let there : glob_match c t.name ≡ true = rw same self in absurd cc
    | inr e ↦ e
  ]

  first_candidate-quiet :
      (cs : List Bytes)
      → any hit cs ≡ false
      → first_candidate is_full_name refs cs (some t) new
        ≡ first_candidate is_full_name refs cs (some t) old
  unfolding first_candidate resolve
  first_candidate-quiet [] h = refl
  first_candidate-quiet (c ∷ cs) h =
      let unseen : hit c ≡ false = ground arith in
      let rest = first_candidate-quiet cs (ground arith) in
      rw (other c unseen) (elim (Result-cases (get_full is_full_name refs c)) [
        | inr (e, q) ↦ rw q refl
        | inl (none, q) ↦ rw q rest
        | inl (some oid, q) ↦ rw q refl
      ])

  transition-quiet :
      (test : Bytes → Bool) (prefix : Bytes) (out : List (Bytes × Oid))
      → test t.name ≡ false
      → tips_where test (apply_transition prefix (some t) new out)
        ≡ tips_where test (apply_transition prefix (some t) old out)
  unfolding apply_transition
  transition-quiet test prefix out unseen = elim (Bool-cases (starts_with prefix t.name)) [
    | inl e ↦ rw e (
        tips_where-append test t.name t.new (retain_others t.name out) unseen
        ∙ sym (tips_where-append test t.name t.old (retain_others t.name out) unseen))
    | inr e ↦ rw e refl
  ]

  abbrev scan : (Bytes → Bool) → Bytes → Side → Result StoreError (List Oid)
  scan test prefix side = do
    entries ← iter_refs refs prefix (some t) side
    ok (tips_where test entries)

  -- A scan whose test does not take the moved ref does not see its movement.
  scan-quiet :
      (test : Bytes → Bool) (prefix : Bytes)
      → test t.name ≡ false
      → scan test prefix new ≡ scan test prefix old
  unfolding iter_refs
  scan-quiet test prefix unseen = elim (Result-cases (refs.iter_prefix prefix)) [
    | inr (e, q) ↦ rw q refl
    | inl (entries, q) ↦ rw q (elim (Result-cases (read_entries entries)) [
      | inr (e, r) ↦ rw r refl
      | inl (out, r) ↦ rw r (ap ok (transition-quiet test prefix out unseen))
    ])
  ]

  term_tips-quiet :
      (term : RevTerm) (terms : List RevTerm)
      → Named (term ∷ terms)
      → any hit (term_patterns term) ≡ false
      → (term_tips is_full_name refs term (some t) new
          ≡ term_tips is_full_name refs term (some t) old)
        × Named terms
  unfolding term_tips iter_refs term_patterns
  term_tips-quiet _ terms (by_name {n} valid rest) h =
      let unseen : any hit (dwim_candidates n) ≡ false =
        rw (sym (dwim_candidates-valid n valid)) h in
      (first_candidate-quiet (dwim_candidates n) unseen, rest)
  term_tips-quiet _ terms (by_oid rest) h = (refl, rest)
  term_tips-quiet _ terms (by_glob {p} rest) h =
      (scan-quiet (in_glob p) (codes "refs/") (ground arith), rest)

  resolve_terms-quiet :
      (terms : List RevTerm)
      → Named terms
      → any hit (terms_patterns terms) ≡ false
      → resolve_terms is_full_name refs terms (some t) new
        ≡ resolve_terms is_full_name refs terms (some t) old
  unfolding resolve_terms terms_patterns
  resolve_terms-quiet [] named h = refl
  resolve_terms-quiet (term ∷ terms) named h =
      let split = any-append hit (term_patterns term) (terms_patterns terms) in
      let (same, rest) = term_tips-quiet term terms named (ground arith) in
      let again = resolve_terms-quiet terms rest (ground arith) in rw same (rw again refl)

  terms_patterns-append :
      (xs ys : List RevTerm) → terms_patterns (xs ++ ys) ≡ terms_patterns xs ++ terms_patterns ys
  unfolding terms_patterns
  terms_patterns-append [] ys = refl
  terms_patterns-append (x ∷ xs) ys =
      ap (λ ps. term_patterns x ++ ps) (terms_patterns-append xs ys)
      ∙ sym (append_assoc (term_patterns x) (terms_patterns xs) (terms_patterns ys))

  -- When the footprint of a `rev()` query does not match the ref that moved, the query has the same
  -- positive and negative tips before and after the movement, and the same error when a ref cannot
  -- be read. It is stated for terms whose names RefPattern::new accepts.
  pub rev_tips-quiet :
      (expr : RevExpr)
      → Named expr.include
      → Named expr.exclude
      → footprint_matches (footprint (rev expr)) t.name ≡ false
      → rev_tips is_full_name refs expr (some t) new ≡ rev_tips is_full_name refs expr (some t) old
  unfolding rev_tips expr_patterns footprint footprint_matches collect_patterns
  rev_tips-quiet expr included excluded h =
      let silent =
        sym (any-from_patterns hit (terms_patterns (expr.include ++ expr.exclude))) ∙ h in
      let halves =
        ap (any hit) (terms_patterns-append expr.include expr.exclude)
        ∙ any-append hit (terms_patterns expr.include) (terms_patterns expr.exclude) in
      let front = resolve_terms-quiet expr.include included (ground arith) in
      let back = resolve_terms-quiet expr.exclude excluded (ground arith) in rw front (rw back refl)

  -- The same of a `meta()` query, and the tips that it has.
  meta_tips-quiet :
      (pattern : Bytes)
      → footprint_matches (footprint (meta pattern)) t.name ≡ false
      → meta_tips refs pattern (some t) new ≡ meta_tips refs pattern (some t) old
  unfolding meta_tips footprint footprint_matches collect_patterns
  meta_tips-quiet pattern h =
      let silent = sym (any-from_patterns hit (pattern ∷ [])) ∙ h in
      scan-quiet (λ name. glob_match pattern name) (codes "refs/meta/") (ground arith)
