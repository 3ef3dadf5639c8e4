-- ===== src/Query/Parse.antt =====
-- The parser of a query (crates/kernel/ents-query/src/parse.rs). What is
-- left of the input stands beside its position. The recursion runs on fuel.
pub mod Printed
pub mod Operators
pub mod Displayed
pub mod Closed
pub mod Atoms
pub mod Results
pub mod RoundTrip
pub mod Ends
pub mod Left
pub mod Fuel
mod Examples
use git_ents.Base.{
  ℕ, zero, suc, ◌+◌, ◌-◌, ◌*◌, Bytes, codes, bytes_eq, mem, any, starts_with, Bool, true, false,
  not, ◌||◌, ◌&&◌, List, [], ◌∷◌, ◌++◌, Option, none, some, Result, ok, err, ◌>>=◌, if◌then◌else◌,
  ◌==◌, leb, length,
}
use git_ents.Substrate.Refs.{Oid}
use git_ents.Query.Errors.{
  ParseError, unexpected_end, self_keyword, unknown_atom, trailing, bad_status, bad_effect_name,
  expected, unbalanced, meta_glob_outside, meta_glob_effect_written, out_of_fuel,
}
use git_ents.Query.Space.{trim}
use git_ents.Query.Pattern.{ref_pattern, may_match}
use git_ents.Query.Rev.{RevExpr}
use git_ents.Query.Rev.Expr.{rev_expr, put_before}
use git_ents.Query.Ast.{
  Query, rev, results, meta, op, StatusFilter, pass, fail, error, any_status, SetOp, union,
  intersect, difference,
}
use git_ents.Query.Atom.{Names, is_empty, rev_of, atom_named}

pub record Parser : Type 0 where
  pub rest : Bytes
  pub pos : ℕ

abbrev pub is_space : ℕ → Bool
is_space b = mem b (32 ∷ 9 ∷ 10 ∷ 12 ∷ 13 ∷ [])

abbrev pub is_name_byte : ℕ → Bool
is_name_byte b =
    (leb b'0' b && leb b b'9')
    || (leb b'a' b && leb b b'z')
    || (leb b'A' b && leb b b'Z')
    || b == b'_'

abbrev pub peek : Parser → Option ℕ
peek p = elim p.rest [ [] ↦ none | b ∷ _ ↦ some b ]

abbrev tail : Bytes → Bytes
tail [] = []
tail (_ ∷ s) = s

-- `self.pos = self.pos.saturating_add(1)`
abbrev pub advance : Parser → Parser
advance p = record { rest = tail p.rest; pos = suc p.pos }

unfoldable pub skip_from : Bytes → ℕ → Parser
skip_from [] pos = record { rest = []; pos = pos }
skip_from (b ∷ s) pos =
    let further = skip_from s (suc pos) in
    if is_space b then further else record { rest = b ∷ s; pos = pos }

abbrev pub skip_ws : Parser → Parser
skip_ws p = skip_from p.rest p.pos

-- `take_while` with the test that `parse_atom` gives it.
unfoldable pub take_name : Bytes → Bytes × Bytes
take_name [] = ([], [])
take_name (b ∷ s) =
    let (name, rest) = take_name s in if is_name_byte b then (b ∷ name, rest) else ([], b ∷ s)

abbrev pub next_depth : ℕ → ℕ → ℕ
next_depth b depth = if b == b'(' then suc depth else if b == b')' then depth - 1 else depth

-- The loop of `take_balanced`: what is inside, and what is behind the closing parenthesis.
unfoldable pub take_inner : Bytes → ℕ → Option (Bytes × Bytes)
take_inner [] depth = none
take_inner (b ∷ s) depth =
    let rest = take_inner s (next_depth b depth) in
    if b == b')' && next_depth b depth == 0 then some ([], s) else put_before b rest

abbrev pub take_balanced : ℕ → Parser → Result ParseError (Bytes × Parser)
take_balanced opened_at p = elim (take_inner p.rest 1) [
  | none ↦ err (unbalanced opened_at)
  | some (inner, rest) ↦ ok (inner, record { rest = rest; pos = p.pos + length inner + 1 })
]

-- `parse_atom` behind the name.
unfoldable pub atom_args : Names → Bytes → Parser → Result ParseError (Query × Parser)
unfolding skip_from take_inner atom_named
atom_args names name p =
    let q = skip_ws p in
    if elim (peek q) [ none ↦ false | some b ↦ b == b'(' ]
    then (do
      (args, after) ← take_balanced q.pos (advance q)
      query ← atom_named names name args after.pos
      ok (query, after))
    else err (expected (codes "'(' after the atom name") q.pos)

unfoldable pub parse_atom : Names → Parser → Result ParseError (Query × Parser)
unfolding take_name atom_args
parse_atom names p =
    let (name, rest) = take_name p.rest in
    if is_empty name
    then err (expected (codes "an atom (rev, results, or meta)") p.pos)
    else atom_args names name (record { rest = rest; pos = p.pos + length name })

unfoldable pub op_of : Option ℕ → Option SetOp
op_of none = none
op_of (some b) =
    if b == b'|'
    then some union
    else if b == b'&'
    then some intersect
    else if b == b'-'
    then some difference
    else none

-- The closing parenthesis of a query in parentheses.
unfoldable pub close : ℕ → Query × Parser → Result ParseError (Query × Parser)
unfolding skip_from
close opened_at (inner, p) =
    let q = skip_ws p in
    if elim (peek q) [ none ↦ false | some b ↦ b == b')' ]
    then ok (inner, advance q)
    else err (unbalanced opened_at)

-- `parse_query` calls `parse_term`, and goes on with the loop over the operators.
unfoldable mutual
  pub parse_query : ℕ → Names → Parser → Result ParseError (Query × Parser)
  parse_query zero names p = err out_of_fuel
  parse_query (suc fuel) names p = do (lhs, q) ← parse_term fuel names p; parse_ops fuel names lhs q

  pub parse_term : ℕ → Names → Parser → Result ParseError (Query × Parser)
  parse_term zero names p = err out_of_fuel
  parse_term (suc fuel) names p =
      let q = skip_from p.rest p.pos in
      elim (peek q) [
        | none ↦ err unexpected_end
        | some b ↦ elim (b == b'(') [
          | true ↦ do found ← parse_query fuel names (advance q); close q.pos found
          | false ↦ parse_atom names q
        ]
      ]

  pub parse_ops : ℕ → Names → Query → Parser → Result ParseError (Query × Parser)
  parse_ops zero names lhs p = err out_of_fuel
  parse_ops (suc fuel) names lhs p =
      let q = skip_from p.rest p.pos in
      elim (op_of (peek q)) [
        | none ↦ ok (lhs, q)
        | some o ↦ do
          (rhs, r) ← parse_term fuel names (advance q)
          parse_ops fuel names (op o lhs rhs) r
      ]

abbrev pub complete : Query × Parser → Result ParseError Query
complete (query, p) =
    let q = skip_ws p in if is_empty q.rest then ok query else err (trailing q.rest)

-- `parse_query_complete`
unfoldable pub parse_query_complete : Names → Bytes → Result ParseError Query
unfolding parse_query skip_from
parse_query_complete names input = do
  found ← parse_query (2 * length input + 2) names (record { rest = input; pos = 0 })
  complete found

-- The text is one token, with none of the grammar's structure in it.
unfoldable pub is_bare : Bytes → Bool
is_bare token = not (is_empty token || any (λ b. is_space b || mem b (codes "()|&,")) token)

abbrev pub or_bare : Names → Bytes → Result ParseError Query → Result ParseError Query
or_bare names token (ok query) = ok query
or_bare names token (err e) = if not (is_bare token) then err e else rev_of names token

unfoldable pub parse : Names → Bytes → Result ParseError Query
unfolding parse_query_complete is_bare rev_expr trim
parse names input = or_bare names (trim input) (parse_query_complete names input)
