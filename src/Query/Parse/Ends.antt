-- ===== src/Query/Parse/Ends.antt =====
-- The parts of the parser without recursion never report that the fuel ran out.
use git_ents.Base.{
  ℕ, Bytes, codes, bytes_eq, mem, any, starts_with, strip_prefix, ◌+◌, Bool, true, false, ◌||◌,
  ◌&&◌, List, [], ◌∷◌, Option, none, some, Result, ok, err, ◌>>=◌, if◌then◌else◌, ◌==◌, length, ◌≡◌,
  refl, inl, inr, Option-cases, arith,
}
use git_ents.Substrate.Refs.{Oid}
use git_ents.Query.Errors.{
  ParseError, out_of_fuel, unknown_atom, unsupported_rev, unbalanced, expected, trailing,
}
use git_ents.Query.Space.{trim, split_whitespace}
use git_ents.Query.Pattern.{ref_pattern}
use git_ents.Query.Rev.{is_blank, parse_oid, parse_glob, parse_name, parse_term, all_hex}
use git_ents.Query.Rev.Expr.{
  Terms, has_three_dots, split_dots, range_terms, token_terms, tokens_terms, with_positive,
  trimmed_expr, rev_expr,
}
use git_ents.Query.Ast.{Query}
use git_ents.Query.Atom.{
  Names, split_comma, status_filter, is_empty, with_status, results_of, parse_results, meta_of,
  parse_meta, rev_of, atom_named,
}
use git_ents.Query.Parse.{
  Parser, peek, advance, skip_ws, take_name, take_inner, take_balanced, atom_args, parse_atom,
  close, complete,
}

abbrev pub Ends : {A : Type 0} → Result ParseError A → Type 0
Ends r = r ≡ err out_of_fuel → ⊥

pub >>=-Ends :
    {A B : Type 0} (m : Result ParseError A) (rest : A → Result ParseError B)
    → Ends m
    → ((x : A) → m ≡ ok x → Ends (rest x))
    → Ends (m >>= rest)
>>=-Ends (ok x) rest f g h = g x refl h
>>=-Ends (err e) rest f g h = f (ground arith)

ref_pattern-Ends : (s : Bytes) → Ends (ref_pattern s)
unfolding ref_pattern
ref_pattern-Ends [] h = cc
ref_pattern-Ends (b ∷ s) h = ground arith

parse_oid-Ends : (token : Bytes) (o : Option Oid) → Ends (parse_oid token o)
parse_oid-Ends token none h = cc
parse_oid-Ends token (some x) h = cc

parse_glob-Ends :
    (term token : Bytes) (r : Result ParseError Bytes) → Ends (parse_glob term token r)
parse_glob-Ends term token (err e) h = cc
parse_glob-Ends term token (ok p) h = ground arith

parse_name-Ends :
    (term token : Bytes) (r : Result ParseError Bytes) → Ends (parse_name term token r)
parse_name-Ends term token (err e) h = cc
parse_name-Ends term token (ok p) h = ground arith

ok-Ends : {A : Type 0} (x : A) → Ends (ok x)
ok-Ends x h = cc

if-Ends :
    {A : Type 0} (b : Bool) (x y : Result ParseError A)
    → Ends x
    → Ends y
    → Ends (if b then x else y)
if-Ends true x y f g = f
if-Ends false x y f g = g

parse_term-Ends :
    (oid_from_hex : Bytes → Option Oid) (term token : Bytes)
    → Ends (parse_term oid_from_hex term token)
unfolding parse_term
parse_term-Ends oid_from_hex term token =
    if-Ends (is_blank term || any (λ b. mem b (codes "~:@{}^")) term) (err (unsupported_rev token))
      _ (λ h. cc)
      (if-Ends (length term == 40 && all_hex term) _ _ (parse_oid-Ends token (oid_from_hex term)) (
        if-Ends (mem b'*' term) _ _
          (if-Ends (starts_with (codes "refs/") term) _ (err (unsupported_rev token))
            (parse_glob-Ends term token (ref_pattern term)) (λ h. cc))
          (parse_name-Ends term token (ref_pattern term))))

range_terms-Ends :
    (oid_from_hex : Bytes → Option Oid) (token : Bytes) (o : Option (Bytes × Bytes))
    → Ends (range_terms oid_from_hex token o)
range_terms-Ends f token none =
    >>=-Ends (parse_term f token token) _ (parse_term-Ends f token token) (λ x e h. cc)
range_terms-Ends f token (some ([], tip)) = λ h. cc
range_terms-Ends f token (some (b ∷ base, [])) = λ h. cc
range_terms-Ends f token (some (b ∷ base, c ∷ tip)) =
    >>=-Ends (parse_term f (b ∷ base) token) _ (parse_term-Ends f (b ∷ base) token) (λ x e.
      >>=-Ends (parse_term f (c ∷ tip) token) _ (parse_term-Ends f (c ∷ tip) token) (λ y e' h. cc))

token_terms-Ends :
    (oid_from_hex : Bytes → Option Oid) (token : Bytes) → Ends (token_terms oid_from_hex token)
unfolding token_terms
token_terms-Ends f token = elim (Option-cases (strip_prefix (codes "^") token)) [
  | inr (s, e) ↦
      rw (e, token_terms)
        (>>=-Ends (parse_term f s token) _ (parse_term-Ends f s token) (λ x q h. cc))
  | inl e ↦
      rw (e, token_terms)
        (if-Ends (has_three_dots token) _ _ (λ h. cc) (range_terms-Ends f token (split_dots token)))
]

tokens_terms-Ends :
    (oid_from_hex : Bytes → Option Oid) (tokens : List Bytes)
    → Ends (tokens_terms oid_from_hex tokens)
unfolding tokens_terms
tokens_terms-Ends f [] = λ h. cc
tokens_terms-Ends f (token ∷ tokens) =
    >>=-Ends (token_terms f token) _ (token_terms-Ends f token)
      (λ x e. >>=-Ends (tokens_terms f tokens) _ (tokens_terms-Ends f tokens) (λ y e' h. cc))

with_positive-Ends : (raw : Bytes) (terms : Terms) → Ends (with_positive raw terms)
with_positive-Ends raw ([], exclude) h = cc
with_positive-Ends raw (t ∷ include, exclude) h = cc

trimmed_expr-Ends :
    (oid_from_hex : Bytes → Option Oid) (raw : Bytes) → Ends (trimmed_expr oid_from_hex raw)
trimmed_expr-Ends f [] = λ h. cc
trimmed_expr-Ends f (b ∷ raw) =
    >>=-Ends (tokens_terms f (split_whitespace (b ∷ raw))) _ (tokens_terms-Ends f _)
      (λ terms e. with_positive-Ends (b ∷ raw) terms)

pub rev_of-Ends : (names : Names) (args : Bytes) → Ends (rev_of names args)
unfolding rev_expr
rev_of-Ends names args =
    >>=-Ends (rev_expr names.oid_from_hex args) _ (trimmed_expr-Ends names.oid_from_hex (trim args))
      (λ e q h. cc)

with_status-Ends : (effect status : Bytes) (o : Option _) → Ends (with_status effect status o)
with_status-Ends effect status none h = cc
with_status-Ends effect status (some f) h = cc

results_of-Ends :
    (valid_ref : Bytes → Bool) (pos : ℕ) (o : Option (Bytes × Bytes))
    → Ends (results_of valid_ref pos o)
results_of-Ends valid_ref pos none = λ h. cc
results_of-Ends valid_ref pos (some (before, after)) = λ h.
    let a = with_status-Ends (trim before) (trim after) (status_filter (trim after)) in ground arith

meta_of-Ends : (glob pattern : Bytes) → Ends (meta_of glob pattern)
meta_of-Ends glob pattern h = ground arith

parse_meta-Ends : (args : Bytes) → Ends (parse_meta args)
unfolding parse_meta
parse_meta-Ends args =
    >>=-Ends (ref_pattern (trim args)) _ (ref_pattern-Ends (trim args))
      (λ p e. meta_of-Ends (trim args) p)

atom_named-Ends :
    (names : Names) (name args : Bytes) (pos : ℕ) → Ends (atom_named names name args pos)
unfolding atom_named parse_results
atom_named-Ends names name args pos =
    if-Ends (bytes_eq name (codes "rev")) _ _ (rev_of-Ends names args) (
      if-Ends (bytes_eq name (codes "results")) _ _
        (results_of-Ends names.valid_ref pos (split_comma args))
        (if-Ends (bytes_eq name (codes "meta")) (parse_meta args) (err (unknown_atom name))
          (parse_meta-Ends args) (λ h. cc)))

take_balanced-Ends : (opened_at : ℕ) (p : Parser) → Ends (take_balanced opened_at p)
take_balanced-Ends opened_at p h = elim (Option-cases (take_inner p.rest 1)) [
  | inl e ↦ (let wrong = rw (e, take_balanced) at h in cc)
  | inr (x, e) ↦ (let wrong = rw (e, take_balanced) at h in cc)
]

atom_args-Ends : (names : Names) (name : Bytes) (p : Parser) → Ends (atom_args names name p)
unfolding atom_args
atom_args-Ends names name p =
    let q = skip_ws p in
    if-Ends (elim (peek q) [ none ↦ false | some b ↦ b == b'(' ]) _
      (err (expected (codes "'(' after the atom name") q.pos))
      (>>=-Ends (take_balanced q.pos (advance q)) _ (take_balanced-Ends q.pos (advance q)) (λ x e.
        >>=-Ends (atom_named names name x.0 x.1.pos) _ (atom_named-Ends names name x.0 x.1.pos)
          (λ y e'. ok-Ends (y, x.1))))
      (λ h. cc)

pub parse_atom-Ends : (names : Names) (p : Parser) → Ends (parse_atom names p)
unfolding parse_atom
parse_atom-Ends names p =
    let found = take_name p.rest in
    let q : Parser = record { rest = found.1; pos = p.pos + length found.0 } in
    if-Ends (is_empty found.0) (err (expected (codes "an atom (rev, results, or meta)") p.pos)) _
      (λ h. cc) (atom_args-Ends names found.0 q)

pub close-Ends : (opened_at : ℕ) (found : Query × Parser) → Ends (close opened_at found)
unfolding close
close-Ends opened_at (inner, p) =
    if-Ends (elim (peek (skip_ws p)) [ none ↦ false | some b ↦ b == b')' ])
      (ok (inner, advance (skip_ws p))) (err (unbalanced opened_at)) (λ h. cc) (λ h. cc)

pub complete-Ends : (found : Query × Parser) → Ends (complete found)
complete-Ends (query, p) =
    if-Ends (is_empty (skip_ws p).rest) (ok query) (err (trailing (skip_ws p).rest)) (λ h. cc)
      (λ h. cc)
