-- ===== src/Query/Rev.antt =====
-- The terms of a `rev()` expression (crates/kernel/ents-query/src/rev.rs).
pub mod Domain
pub mod Candidates
pub mod Expr
use git_ents.Base.{
  ℕ, Bytes, codes, mem, any, starts_with, Bool, true, false, not, ◌||◌, ◌&&◌, List, [], ◌∷◌, ◌++◌,
  Option, none, some, Result, ok, err, if◌then◌else◌, ◌==◌, leb, length,
}
use git_ents.Substrate.Refs.{Oid}
use git_ents.Query.Errors.{ParseError, unsupported_rev, meta_in_rev}
use git_ents.Query.Pattern.{ref_pattern, literal_prefix}

pub data RevTerm : Type 0 where
  name glob : Bytes → RevTerm
  oid : Oid → RevTerm

pub record RevExpr : Type 0 where
  pub include : List RevTerm
  pub exclude : List RevTerm
  pub raw : Bytes

unfoldable pub dwim_candidates : Bytes → List Bytes
unfolding starts_with
dwim_candidates short =
    if starts_with (codes "refs/") short
    then short ∷ []
    else (codes "refs/" ++ short)
      ∷ (codes "refs/tags/" ++ short)
      ∷ (codes "refs/heads/" ++ short)
      ∷ (codes "refs/remotes/" ++ short)
      ∷ []

-- `filter_map(|c| RefPattern::new(c).ok())`
unfoldable pub valid_patterns : List Bytes → List Bytes
unfolding ref_pattern
valid_patterns [] = []
valid_patterns (c ∷ cs) = elim (ref_pattern c) [
  | ok pattern ↦ pattern ∷ valid_patterns cs
  | err _ ↦ valid_patterns cs
]

-- `RevTerm::patterns`
unfoldable pub term_patterns : RevTerm → List Bytes
unfolding dwim_candidates valid_patterns
term_patterns (RevTerm.name n) = valid_patterns (dwim_candidates n)
term_patterns (RevTerm.glob pattern) = pattern ∷ []
term_patterns (RevTerm.oid _) = []

unfoldable pub terms_patterns : List RevTerm → List Bytes
unfolding term_patterns
terms_patterns [] = []
terms_patterns (term ∷ terms) = term_patterns term ++ terms_patterns terms

-- `RevExpr::patterns`
unfoldable pub expr_patterns : RevExpr → List Bytes
unfolding terms_patterns
expr_patterns expr = terms_patterns (expr.include ++ expr.exclude)

abbrev pub meta_start : Bytes
meta_start = codes "refs/meta"

abbrev is_hex_digit : ℕ → Bool
is_hex_digit b =
    (leb b'0' b && leb b b'9') || (leb b'a' b && leb b b'f') || (leb b'A' b && leb b b'F')

unfoldable pub all_hex : Bytes → Bool
all_hex [] = true
all_hex (b ∷ s) = is_hex_digit b && all_hex s

abbrev pub parse_oid : Bytes → Option Oid → Result ParseError RevTerm
parse_oid whole_token none = err (unsupported_rev whole_token)
parse_oid whole_token (some found) = ok (RevTerm.oid found)

abbrev pub parse_glob : Bytes → Bytes → Result ParseError Bytes → Result ParseError RevTerm
parse_glob term whole_token (err _) = err (unsupported_rev whole_token)
parse_glob term whole_token (ok pattern) =
    if starts_with meta_start (literal_prefix pattern)
    then err (meta_in_rev term)
    else ok (RevTerm.glob pattern)

abbrev pub parse_name : Bytes → Bytes → Result ParseError Bytes → Result ParseError RevTerm
parse_name term whole_token (err _) = err (unsupported_rev whole_token)
parse_name term whole_token (ok _) =
    if any (starts_with meta_start) (dwim_candidates term)
    then err (meta_in_rev term)
    else ok (RevTerm.name term)

abbrev pub is_blank : Bytes → Bool
is_blank [] = true
is_blank (_ ∷ _) = false

-- `oid_from_hex` is gitoxide's `ObjectId::from_hex`.
unfoldable pub parse_term : (Bytes → Option Oid) → Bytes → Bytes → Result ParseError RevTerm
unfolding starts_with ref_pattern literal_prefix dwim_candidates all_hex
parse_term oid_from_hex term whole_token =
    if is_blank term || any (λ b. mem b (codes "~:@{}^")) term
    then err (unsupported_rev whole_token)
    else if length term == 40 && all_hex term
    then parse_oid whole_token (oid_from_hex term)
    else if mem b'*' term
    then (if starts_with (codes "refs/") term
        then parse_glob term whole_token (ref_pattern term)
        else err (unsupported_rev whole_token))
    else parse_name term whole_token (ref_pattern term)
