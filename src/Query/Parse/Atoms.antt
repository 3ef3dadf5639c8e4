-- ===== src/Query/Parse/Atoms.antt =====
-- The atoms that the parser accepts are displayed as texts that it accepts.
use git_ents.Base.{
  ℕ, ◌≤◌, Bytes, Bool, true, false, [], ◌∷◌, ◌++◌, Option, ok, ◌>>=◌, >>=-eq-ok, ◌==◌, ◌≡◌, sym, ap,
  subst, ◌∙◌, arith,
}
use git_ents.Query.Space.{is_blank_byte, trim}
use git_ents.Query.Space.Trim.{trim_same}
use git_ents.Query.Space.Kept.{trim-parts}
use git_ents.Query.Pattern.{ref_pattern}
use git_ents.Query.Rev.{RevExpr}
use git_ents.Query.Rev.Domain.{ref_pattern_same}
use git_ents.Query.Rev.Expr.{Terms, with_positive, trimmed_expr, rev_expr, tokens_terms}
use git_ents.Query.Ast.{Query, rev, meta}
use git_ents.Query.Atom.{Names, meta_of, parse_meta, rev_of}
use git_ents.Query.Parse.Printed.{Closed, IsPrintable, by_rev, by_meta}
use git_ents.Query.Parse.Closed.{is_parenthesis, Closed-front, Closed-back}

pub blank_no_parenthesis : (b : ℕ) → is_blank_byte b ≡ true → is_parenthesis b ≡ false
blank_no_parenthesis b h = ground arith

pub high_no_parenthesis : (b : ℕ) → 0x80 ≤ b → is_parenthesis b ≡ false
high_no_parenthesis b h = ground arith

abbrev pub is_comma : ℕ → Bool
is_comma b = b == b','

pub blank_no_comma : (b : ℕ) → is_blank_byte b ≡ true → is_comma b ≡ false
blank_no_comma b h = ground arith

pub high_no_comma : (b : ℕ) → 0x80 ≤ b → is_comma b ≡ false
high_no_comma b h = ground arith

pub Closed-trim : (s : Bytes) → Closed s → Closed (trim s)
Closed-trim s c =
    let (w, v, e, f, g) = trim-parts is_parenthesis blank_no_parenthesis high_no_parenthesis s in
    let whole : Closed (w ++ (trim s ++ v)) = subst (λ (x : Bytes). Closed x) e c in
    Closed-back (trim s) v g (Closed-front w (trim s ++ v) f whole)

with_positive-raw :
    (raw : Bytes) (terms : Terms) {e : RevExpr} → with_positive raw terms ≡ ok e → e.raw ≡ raw
with_positive-raw raw ([], exclude) h = cc
with_positive-raw raw (term ∷ include, exclude) h = ground arith

trimmed_expr-raw :
    (oid_from_hex : Bytes → Option _) (raw : Bytes) {e : RevExpr}
    → trimmed_expr oid_from_hex raw ≡ ok e
    → e.raw ≡ raw
trimmed_expr-raw oid_from_hex [] h = cc
trimmed_expr-raw oid_from_hex (b ∷ raw) h =
    let (terms, _, g) = >>=-eq-ok (tokens_terms oid_from_hex _) _ h in
    with_positive-raw (b ∷ raw) terms g

module _ (names : Names) where
  pub rev_of-IsPrintable :
      (args : Bytes) {query : Query}
      → Closed (trim args)
      → rev_of names args ≡ ok query
      → IsPrintable names query
  unfolding rev_expr
  rev_of-IsPrintable args {query} c h =
      let (e, f, g) = >>=-eq-ok (rev_expr names.oid_from_hex args) _ h in
      let same : query ≡ rev e = ground arith in
      let raw : e.raw ≡ trim args = trimmed_expr-raw names.oid_from_hex (trim args) f in
      rw same (
        by_rev (subst (λ (x : Bytes). Closed x) (sym raw) c)
          (ap (λ x. trimmed_expr names.oid_from_hex x) (ap trim raw ∙ trim_same args) ∙ f))

  meta_of-same :
      (glob pattern : Bytes) {query : Query}
      → meta_of glob pattern ≡ ok query
      → query ≡ meta pattern
  meta_of-same glob pattern h = ground arith

  pub parse_meta-IsPrintable :
      (args : Bytes) {query : Query}
      → Closed (trim args)
      → parse_meta args ≡ ok query
      → IsPrintable names query
  unfolding parse_meta
  parse_meta-IsPrintable args {query} c h =
      let (pattern, f, g) = >>=-eq-ok (ref_pattern (trim args)) _ h in
      let glob : trim args ≡ pattern = ref_pattern_same (trim args) f in
      let same = meta_of-same (trim args) pattern g in
      let text : trim pattern ≡ trim args = ap trim (sym glob) ∙ trim_same args in
      rw same (
        by_meta (subst (λ (x : Bytes). Closed x) glob c) (
          subst (λ (x : Bytes). (ref_pattern x >>= meta_of x) ≡ ok (meta pattern)) (sym text)
            (h ∙ ap ok same)))
