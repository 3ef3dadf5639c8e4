-- ===== src/Query/Rev/Expr.antt =====
-- `RevExpr::parse` of crates/kernel/ents-query/src/rev.rs.
use git_ents.Base.{
  ℕ, Bytes, codes, starts_with, strip_prefix, Bool, false, ◌||◌, ◌&&◌, List, [], ◌∷◌, ◌++◌, Option,
  none, some, Result, ok, err, ◌>>=◌, if◌then◌else◌, ◌==◌,
}
use git_ents.Substrate.Refs.{Oid}
use git_ents.Query.Errors.{ParseError, empty_rev, no_positive_rev, unsupported_rev}
use git_ents.Query.Space.{trim, split_whitespace}
use git_ents.Query.Rev.{RevTerm, RevExpr, parse_term}

-- `token.contains("...")`
unfoldable pub has_three_dots : Bytes → Bool
unfolding starts_with
has_three_dots [] = false
has_three_dots (b ∷ s) = starts_with (codes "...") (b ∷ s) || has_three_dots s

abbrev pub put_before : ℕ → Option (Bytes × Bytes) → Option (Bytes × Bytes)
put_before b none = none
put_before b (some (before, after)) = some (b ∷ before, after)

-- `token.split_once("..")`
unfoldable pub split_dots : Bytes → Option (Bytes × Bytes)
split_dots [] = none
split_dots (a ∷ []) = none
split_dots (a ∷ b ∷ s) =
    let rest = split_dots (b ∷ s) in
    if a == b'.' && b == b'.' then some ([], s) else put_before a rest

-- The positive and the negative terms of a token.
abbrev pub Terms : Type 0
Terms = List RevTerm × List RevTerm

abbrev pub range_terms :
    (Bytes → Option Oid) → Bytes → Option (Bytes × Bytes) → Result ParseError Terms
range_terms oid_from_hex token none = do
  term ← parse_term oid_from_hex token token
  ok (term ∷ [], [])
range_terms oid_from_hex token (some ([], tip)) = err (unsupported_rev token)
range_terms oid_from_hex token (some (b ∷ base, [])) = err (unsupported_rev token)
range_terms oid_from_hex token (some (b ∷ base, c ∷ tip)) = do
  below ← parse_term oid_from_hex (b ∷ base) token
  above ← parse_term oid_from_hex (c ∷ tip) token
  ok (above ∷ [], below ∷ [])

unfoldable pub token_terms : (Bytes → Option Oid) → Bytes → Result ParseError Terms
unfolding strip_prefix has_three_dots split_dots parse_term
token_terms oid_from_hex token = elim (strip_prefix (codes "^") token) [
  | some negated ↦ do term ← parse_term oid_from_hex negated token; ok ([], term ∷ [])
  | none ↦
      if has_three_dots token
      then err (unsupported_rev token)
      else range_terms oid_from_hex token (split_dots token)
]

unfoldable pub tokens_terms : (Bytes → Option Oid) → List Bytes → Result ParseError Terms
unfolding token_terms
tokens_terms oid_from_hex [] = ok ([], [])
tokens_terms oid_from_hex (token ∷ tokens) = do
  (include, exclude) ← token_terms oid_from_hex token
  (includes, excludes) ← tokens_terms oid_from_hex tokens
  ok (include ++ includes, exclude ++ excludes)

abbrev pub with_positive : Bytes → Terms → Result ParseError RevExpr
with_positive raw ([], exclude) = err no_positive_rev
with_positive raw (term ∷ include, exclude) =
    ok (record { include = term ∷ include; exclude = exclude; raw = raw })

abbrev pub trimmed_expr : (Bytes → Option Oid) → Bytes → Result ParseError RevExpr
trimmed_expr oid_from_hex [] = err empty_rev
trimmed_expr oid_from_hex (b ∷ raw) = do
  terms ← tokens_terms oid_from_hex (split_whitespace (b ∷ raw))
  with_positive (b ∷ raw) terms

-- `RevExpr::parse`
unfoldable pub rev_expr : (Bytes → Option Oid) → Bytes → Result ParseError RevExpr
unfolding trim split_whitespace tokens_terms
rev_expr oid_from_hex raw = trimmed_expr oid_from_hex (trim raw)
