-- ===== src/Query/Atom.antt =====
-- The atoms of a query (crates/kernel/ents-query/src/parse.rs): the arguments of `rev`, `results` and
-- `meta`, with StatusFilter::parse of src/ast.rs. gitoxide's part of it is the record Names.
use git_ents.Base.{
  ℕ, Bytes, codes, bytes_eq, mem, starts_with, Bool, true, false, not, ◌||◌, [], ◌∷◌, ◌++◌, Option,
  none, some, Result, ok, err, ◌>>=◌, if◌then◌else◌, ◌==◌,
}
use git_ents.Substrate.Refs.{Oid}
use git_ents.Query.Errors.{
  ParseError, self_keyword, unknown_atom, bad_status, bad_effect_name, expected, meta_glob_outside,
  meta_glob_effect_written,
}
use git_ents.Query.Space.{trim}
use git_ents.Query.Pattern.{ref_pattern, may_match}
use git_ents.Query.Rev.Expr.{rev_expr, put_before}
use git_ents.Query.Ast.{Query, rev, results, meta, StatusFilter, pass, fail, error, any_status}

unfoldable pub split_comma : Bytes → Option (Bytes × Bytes)
split_comma [] = none
split_comma (b ∷ s) =
    let rest = split_comma s in if b == b',' then some ([], s) else put_before b rest

-- `StatusFilter::parse`
unfoldable pub status_filter : Bytes → Option StatusFilter
unfolding bytes_eq
status_filter s =
    if bytes_eq s (codes "pass")
    then some pass
    else if bytes_eq s (codes "fail")
    then some fail
    else if bytes_eq s (codes "error")
    then some error
    else if bytes_eq s (codes "any")
    then some any_status
    else none

abbrev pub is_empty : Bytes → Bool
is_empty [] = true
is_empty (_ ∷ _) = false

unfoldable pub valid_ref_segment : (Bytes → Bool) → Bytes → Bool
valid_ref_segment valid_ref segment =
    valid_ref (codes "refs/meta/results/" ++ segment ++ codes "/x")

abbrev pub with_status : Bytes → Bytes → Option StatusFilter → Result ParseError Query
with_status effect status none = err (bad_status status)
with_status effect status (some filter) = ok (results effect filter)

-- The checks on the trimmed arguments.
abbrev pub results_named : (Bytes → Bool) → Bytes → Bytes → Result ParseError Query
results_named valid_ref effect status =
    if bytes_eq effect (codes "self")
    then err self_keyword
    else if is_empty effect || mem b'/' effect || not (valid_ref_segment valid_ref effect)
    then err (bad_effect_name effect)
    else with_status effect status (status_filter status)

abbrev pub results_of : (Bytes → Bool) → ℕ → Option (Bytes × Bytes) → Result ParseError Query
results_of valid_ref at none = err (expected (codes "results(effect, status)") at)
results_of valid_ref at (some (before, after)) = results_named valid_ref (trim before) (trim after)

unfoldable pub parse_results : (Bytes → Bool) → Bytes → ℕ → Result ParseError Query
unfolding split_comma trim bytes_eq valid_ref_segment status_filter
parse_results valid_ref args at = results_of valid_ref at (split_comma args)

abbrev pub meta_of : Bytes → Bytes → Result ParseError Query
meta_of glob pattern =
    if not (starts_with (codes "refs/meta/") glob)
    then err (meta_glob_outside glob)
    else if may_match pattern (codes "refs/meta/results/")
    then err (meta_glob_effect_written glob (codes "refs/meta/results/"))
    else if may_match pattern (codes "refs/meta/index/")
    then err (meta_glob_effect_written glob (codes "refs/meta/index/"))
    else ok (meta pattern)

unfoldable pub parse_meta : Bytes → Result ParseError Query
unfolding trim ref_pattern starts_with may_match
parse_meta args = do pattern ← ref_pattern (trim args); meta_of (trim args) pattern

-- `gitoxide`'s `ObjectId::from_hex` and `FullName::try_from`.
pub record Names : Type 0 where
  pub oid_from_hex : Bytes → Option Oid
  pub valid_ref : Bytes → Bool

abbrev pub rev_of : Names → Bytes → Result ParseError Query
rev_of names args = do e ← rev_expr names.oid_from_hex args; ok (rev e)

unfoldable pub atom_named : Names → Bytes → Bytes → ℕ → Result ParseError Query
unfolding bytes_eq rev_expr parse_results parse_meta
atom_named names name args at =
    if bytes_eq name (codes "rev")
    then rev_of names args
    else if bytes_eq name (codes "results")
    then parse_results names.valid_ref args at
    else if bytes_eq name (codes "meta")
    then parse_meta args
    else err (unknown_atom name)
