-- ===== src/Query/Parse/Results.antt =====
-- The same for a `results(effect, status)` atom.
use git_ents.Base.{
  ℕ, Bytes, codes, bytes_eq, bytes_eq_sound, Bool, false, [], ◌∷◌, ◌++◌, append_assoc, Option, some,
  ok, ◌==◌, ◌≡◌, refl, sym, ap, subst, ◌∙◌, inl, inr, Bool-cases, Option-cases, arith,
}
use git_ents.Query.Space.{trim_start, trim_end, trim}
use git_ents.Query.Space.Trim.{trim_same}
use git_ents.Query.Space.Kept.{Free, Free-append, Free-parts, trim-parts}
use git_ents.Query.Ast.{Query, results, StatusFilter, pass, fail, error, any_status}
use git_ents.Query.Ast.Display.{status_text}
use git_ents.Query.Atom.{
  Names, split_comma, status_filter, results_named, results_of, parse_results,
}
use git_ents.Query.Parse.Printed.{Closed, results_args, IsPrintable, by_results}
use git_ents.Query.Parse.Closed.{
  is_parenthesis, put_before-some, Closed-front, Closed-back, Closed-append,
}
use git_ents.Query.Parse.Atoms.{
  is_comma, blank_no_parenthesis, high_no_parenthesis, blank_no_comma, high_no_comma,
}

split_comma-some :
    (s : Bytes) {before after : Bytes}
    → split_comma s ≡ some (before, after)
    → (s ≡ before ++ b',' ∷ after) × Free is_comma before
unfolding split_comma
split_comma-some [] h = cc
split_comma-some (b ∷ s) {before} {after} h = elim (Bool-cases (b == b',')) [
  | inl e ↦
      let found : Option (Bytes × Bytes) = some ([], s) in
      let here : found ≡ some (before, after) = rw e at h in
      let nothing : before ≡ [] = ground arith in
      let rest : s ≡ after = ground arith in
      let byte : b ≡ 44 = ground arith in
      (rw (nothing, byte) (ap (λ x. 44 ∷ x) rest), rw nothing refl)
  | inr e ↦
      let (t, f, g) = put_before-some b (split_comma s) (rw e at h) in
      let (p, q) = split_comma-some s g in (rw f (ap (λ x. b ∷ x) p), rw f (rw (e, q) refl))
]

split_comma-append : (t s : Bytes) → Free is_comma t → split_comma (t ++ b',' ∷ s) ≡ some (t, s)
unfolding split_comma
split_comma-append [] s f = refl
split_comma-append (b ∷ t) s f =
    let e : (b == b',') ≡ false = ground arith in
    rw (e, split_comma, split_comma-append t s (ground arith)) refl

status_filter-text : (s : Bytes) {f : StatusFilter} → status_filter s ≡ some f → s ≡ status_text f
unfolding status_filter
status_filter-text s {f} h = elim (Bool-cases (bytes_eq s (codes "pass"))) [
  | inl e ↦ let same : f ≡ pass = ground arith in rw same (bytes_eq_sound s (codes "pass") e)
  | inr a ↦ elim (Bool-cases (bytes_eq s (codes "fail"))) [
    | inl e ↦ let same : f ≡ fail = ground arith in rw same (bytes_eq_sound s (codes "fail") e)
    | inr b ↦ elim (Bool-cases (bytes_eq s (codes "error"))) [
      | inl e ↦ let same : f ≡ error = ground arith in rw same (bytes_eq_sound s (codes "error") e)
      | inr c ↦ elim (Bool-cases (bytes_eq s (codes "any"))) [
        | inl e ↦
            let same : f ≡ any_status = ground arith in rw same (bytes_eq_sound s (codes "any") e)
        | inr d ↦ absurd (ground arith)
      ]
    ]
  ]
]

status_text-Free : (f : StatusFilter) → Free is_parenthesis (status_text f)
status_text-Free pass = refl
status_text-Free fail = refl
status_text-Free error = refl
status_text-Free any_status = refl

trim-status_text : (f : StatusFilter) → trim (32 ∷ status_text f) ≡ status_text f
unfolding trim trim_start trim_end
trim-status_text pass = refl
trim-status_text fail = refl
trim-status_text error = refl
trim-status_text any_status = refl

results_named-ok :
    (valid_ref : Bytes → Bool) (effect status : Bytes) {query : Query}
    → results_named valid_ref effect status ≡ ok query
    → (f : StatusFilter) × (query ≡ results effect f) × (status ≡ status_text f)
results_named-ok valid_ref effect status {query} h = elim (Option-cases (status_filter status)) [
  | inl e ↦ absurd (ground arith)
  | inr (f, e) ↦ (f, ground arith, status_filter-text status e)
]

module _ (effect w1 v1 w2 v2 : Bytes) (f : StatusFilter) where
  -- The arguments as they were written, and as they are displayed.
  Closed-results_args :
      Free is_parenthesis w1
      → Free is_parenthesis v1
      → Free is_parenthesis w2
      → Free is_parenthesis v2
      → Closed ((w1 ++ (effect ++ v1)) ++ b',' ∷ (w2 ++ (status_text f ++ v2)))
      → Closed (results_args effect f)
  Closed-results_args fw1 fv1 fw2 fv2 c =
      let behind = v1 ++ b',' ∷ (w2 ++ (status_text f ++ v2)) in
      let shape : (w1 ++ (effect ++ v1)) ++ b',' ∷ (w2 ++ (status_text f ++ v2))
          ≡ w1 ++ (effect ++ behind) =
        append_assoc w1 (effect ++ v1) _ ∙ ap (λ x. w1 ++ x) (append_assoc effect v1 _) in
      let status = Free-append is_parenthesis (status_text f) v2 (status_text-Free f) fv2 in
      let after = Free-append is_parenthesis w2 (status_text f ++ v2) fw2 status in
      let free : Free is_parenthesis behind =
        Free-append is_parenthesis v1 (b',' ∷ (w2 ++ (status_text f ++ v2))) fv1 after in
      let alone =
        Closed-back effect behind free
          (Closed-front w1 (effect ++ behind) fw1 (subst (λ (x : Bytes). Closed x) shape c)) in
      Closed-append (effect ++ codes ", ") (status_text f) (status_text-Free f)
        (Closed-append effect (codes ", ") refl alone)

module _ (names : Names) where
  results_of-IsPrintable :
      (before after : Bytes) {query : Query}
      → Closed (before ++ b',' ∷ after)
      → Free is_comma before
      → results_named names.valid_ref (trim before) (trim after) ≡ ok query
      → IsPrintable names query
  unfolding parse_results
  results_of-IsPrintable before after {query} c free h =
      let (f, same, status) = results_named-ok names.valid_ref (trim before) (trim after) h in
      let (w1, v1, e1, a1, b1) =
        trim-parts is_parenthesis blank_no_parenthesis high_no_parenthesis before in
      let (w2, v2, e2, a2, b2) =
        trim-parts is_parenthesis blank_no_parenthesis high_no_parenthesis after in
      let effect = trim before in
      let e3 : after ≡ w2 ++ (status_text f ++ v2) = e2 ∙ ap (λ x. w2 ++ (x ++ v2)) status in
      let written = subst (λ x. Closed (x ++ b',' ∷ after)) e1 c in
      let written' = subst (λ x. Closed ((w1 ++ (effect ++ v1)) ++ b',' ∷ x)) e3 written in
      let (w, v, e4, _, _) = trim-parts is_comma blank_no_comma high_no_comma before in
      let no_comma : Free is_comma effect =
        (Free-parts is_comma effect v
          ((Free-parts is_comma w (effect ++ v) (subst (λ x. Free is_comma x) e4 free)).1)).0 in
      let split : split_comma (results_args effect f) ≡ some (effect, 32 ∷ status_text f) =
        ap split_comma (append_assoc effect (codes ", ") (status_text f))
        ∙ split_comma-append effect (32 ∷ status_text f) no_comma in
      let again : results_named names.valid_ref (trim effect) (trim (32 ∷ status_text f))
          ≡ ok (results effect f) =
        ap (λ x. results_named names.valid_ref x (trim (32 ∷ status_text f))) (trim_same before)
        ∙ ap (results_named names.valid_ref effect) (trim-status_text f ∙ sym status)
        ∙ h
        ∙ ap ok same in
      rw same (
        by_results (Closed-results_args effect w1 v1 w2 v2 f a1 b1 a2 b2 written')
          (λ pos. ap (results_of names.valid_ref pos) split ∙ again))

  pub parse_results-IsPrintable :
      (args : Bytes) (pos : ℕ) {query : Query}
      → Closed args
      → parse_results names.valid_ref args pos ≡ ok query
      → IsPrintable names query
  unfolding parse_results
  parse_results-IsPrintable args pos {query} c h = elim (Option-cases (split_comma args)) [
    | inl e ↦ (let wrong = rw e at h in cc)
    | inr ((before, after), e) ↦
        let (text, free) = split_comma-some args e in
        results_of-IsPrintable before after (subst (λ (x : Bytes). Closed x) text c) free
          (rw e at h)
  ]
