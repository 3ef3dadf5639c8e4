-- ===== src/Query/Parse/RoundTrip.antt =====
-- What the parser accepts it reads back from its displayed text.
use git_ents.Base.{
  ℕ, zero, suc, ◌+◌, ◌*◌, Bytes, codes, bytes_eq, mem, any, true, false, ◌||◌, [], ◌∷◌, none, some,
  Result, ok, >>=-eq-ok, ◌==◌, length, ◌≡◌, refl, subst, inl, inr, Bool-cases, Option-cases,
  Result-cases, arith,
}
use git_ents.Query.Errors.{ParseError}
use git_ents.Query.Space.{trim}
use git_ents.Query.Space.Kept.{Free}
use git_ents.Query.Ast.{Query, op}
use git_ents.Query.Ast.Display.{display}
use git_ents.Query.Atom.{Names, atom_named, is_empty}
use git_ents.Query.Parse.{
  Parser, advance, peek, skip_ws, skip_from, take_name, take_inner, take_balanced, atom_args,
  parse_atom, is_space, op_of, close, parse_query, parse_term, parse_ops, complete,
  parse_query_complete, is_bare, parse,
}
use git_ents.Query.Parse.Printed.{Closed, IsPrintable, by_op}
use git_ents.Query.Parse.Closed.{is_parenthesis, take_inner-Again, Closed-append}
use git_ents.Query.Parse.Atoms.{Closed-trim, rev_of-IsPrintable, parse_meta-IsPrintable}
use git_ents.Query.Parse.Results.{parse_results-IsPrintable}
use git_ents.Query.Parse.Displayed.{parse-display}

module _ (names : Names) where
  atom_named-IsPrintable :
      (name args : Bytes) (pos : ℕ) {query : Query}
      → Closed args
      → atom_named names name args pos ≡ ok query
      → IsPrintable names query
  unfolding atom_named
  atom_named-IsPrintable name args pos c h = elim (Bool-cases (bytes_eq name (codes "rev"))) [
    | inl e ↦ rev_of-IsPrintable names args (Closed-trim args c) (rw (e, atom_named) at h)
    | inr e ↦ elim (Bool-cases (bytes_eq name (codes "results"))) [
      | inl f ↦ parse_results-IsPrintable names args pos c (rw (e, f, atom_named) at h)
      | inr f ↦ elim (Bool-cases (bytes_eq name (codes "meta"))) [
        | inl g ↦
            parse_meta-IsPrintable names args (Closed-trim args c) (rw (e, f, g, atom_named) at h)
        | inr g ↦ (let wrong = rw (e, f, g, atom_named) at h in cc)
      ]
    ]
  ]

  take_balanced-Closed :
      (opened_at : ℕ) (p : Parser) {inner : Bytes} {after : Parser}
      → take_balanced opened_at p ≡ ok (inner, after)
      → Closed inner
  take_balanced-Closed opened_at p {inner} {after} h = elim (Option-cases (take_inner p.rest 1)) [
    | inl e ↦ (let wrong = rw (e, take_balanced) at h in cc)
    | inr ((s, rest), e) ↦
        let here = rw (e, take_balanced) at h in
        let same : s ≡ inner = ground arith in
        subst (λ (x : Bytes). Closed x) same (λ other. take_inner-Again p.rest 1 other e)
  ]

  -- The query of an outcome is printable.
  abbrev Yields : Result ParseError (Query × Parser) → Type 0
  Yields r = (query : Query) (p : Parser) → r ≡ ok (query, p) → IsPrintable names query

  atom_args-Yields : (name : Bytes) (p : Parser) → Yields (atom_args names name p)
  unfolding atom_args
  atom_args-Yields name p query after h =
      let q = skip_ws p in
      elim (Bool-cases (elim (peek q) [ none ↦ false | some b ↦ b == b'(' ])) [
        | inr e ↦ (let wrong = rw e at h in cc)
        | inl e ↦
            let ((args, r), f, h1) = >>=-eq-ok (take_balanced q.pos (advance q)) _ (rw e at h) in
            let (found, g, h2) = >>=-eq-ok (atom_named names name args r.pos) _ h1 in
            let same : query ≡ found = ground arith in
            rw same
              (atom_named-IsPrintable name args r.pos (take_balanced-Closed q.pos (advance q) f) g)
      ]

  parse_atom-Yields : (p : Parser) → Yields (parse_atom names p)
  unfolding parse_atom
  parse_atom-Yields p query after h =
      let found = take_name p.rest in
      elim (Bool-cases (is_empty found.0)) [
        | inl e ↦ (let wrong = rw e at h in cc)
        | inr e ↦
            atom_args-Yields found.0 (record { rest = found.1; pos = p.pos + length found.0 }) query
              after (rw e at h)
      ]

  close-same :
      (opened_at : ℕ) (inner query : Query) (p after : Parser)
      → close opened_at (inner, p) ≡ ok (query, after)
      → query ≡ inner
  unfolding close
  close-same opened_at inner query p after h =
      elim (Bool-cases (elim (peek (skip_ws p)) [ none ↦ false | some b ↦ b == b')' ])) [
        | inl e ↦ (let here = rw e at h in ground arith)
        | inr e ↦ (let wrong = rw e at h in cc)
      ]

  -- All three functions of the recursion, at one fuel.
  record AllYield (fuel : ℕ) : Type 0 where
    query : (p : Parser) → Yields (parse_query fuel names p)
    term : (p : Parser) → Yields (parse_term fuel names p)
    ops : (lhs : Query) (p : Parser) → IsPrintable names lhs → Yields (parse_ops fuel names lhs p)

  fuel-AllYield : (fuel : ℕ) → AllYield fuel
  unfolding parse_query
  fuel-AllYield zero = record {
    query = λ p query after h. cc;
    term = λ p query after h. cc;
    ops = λ lhs p l query after h. cc;
  }
  fuel-AllYield (suc fuel) =
      let deeper = fuel-AllYield fuel in
      record {
        query = λ p query after h.
            let ((lhs, q), f, g) = >>=-eq-ok (parse_term fuel names p) _ h in
            deeper.ops lhs q (deeper.term p lhs q f) query after g;
        term = λ p query after h.
            let q = skip_from p.rest p.pos in
            elim (Option-cases (peek q)) [
              | inl e ↦ (let wrong = rw (e, parse_term) at h in cc)
              | inr (b, e) ↦ elim (Bool-cases (b == b'(')) [
                | inr f ↦ parse_atom-Yields q query after (rw (e, f, parse_term) at h)
                | inl f ↦
                    let ((inner, r), g, k) =
                      >>=-eq-ok (parse_query fuel names (advance q)) _
                        (rw (e, f, parse_term) at h) in
                    rw (close-same q.pos inner query r after k) (deeper.query (advance q) inner r g)
              ]
            ];
        ops = λ lhs p l query after h.
            let q = skip_from p.rest p.pos in
            elim (Option-cases (op_of (peek q))) [
              | inl e ↦
                  (let here = rw (e, parse_ops) at h in
                    let same : query ≡ lhs = ground arith in rw same l)
              | inr (o, e) ↦
                  let ((rhs, r), g, k) =
                    >>=-eq-ok (parse_term fuel names (advance q)) _ (rw (e, parse_ops) at h) in
                  deeper.ops (op o lhs rhs) r (by_op l (deeper.term (advance q) rhs r g)) query
                    after k
            ];
      }

  complete-same :
      (found : Query) (p : Parser) {query : Query} → complete (found, p) ≡ ok query → query ≡ found
  complete-same found p h = elim (Bool-cases (is_empty (skip_ws p).rest)) [
    | inl e ↦ (let here = rw e at h in ground arith)
    | inr e ↦ (let wrong = rw e at h in cc)
  ]

  complete-IsPrintable :
      (input : Bytes) {query : Query}
      → parse_query_complete names input ≡ ok query
      → IsPrintable names query
  unfolding parse_query_complete
  complete-IsPrintable input {query} h =
      let start : Parser = record { rest = input; pos = 0 } in
      let ((found, p), f, g) = >>=-eq-ok (parse_query (2 * length input + 2) names start) _ h in
      rw (complete-same found p g) ((fuel-AllYield (2 * length input + 2)).query start found p f)

  bare-Free :
      (token : Bytes)
      → any (λ b. is_space b || mem b (codes "()|&,")) token ≡ false
      → Free is_parenthesis token
  bare-Free [] h = refl
  bare-Free (b ∷ token) h =
      let rest = bare-Free token (ground arith) in
      let here : is_parenthesis b ≡ false = ground arith in rw (here, rest) refl

  bare-Closed : (token : Bytes) → is_bare token ≡ true → Closed token
  unfolding is_bare take_inner
  bare-Closed token h = Closed-append [] token (bare-Free token (ground arith)) (λ rest. refl)

  pub parse-IsPrintable :
      (input : Bytes) {query : Query} → parse names input ≡ ok query → IsPrintable names query
  unfolding parse
  parse-IsPrintable input {query} h = elim (Result-cases (parse_query_complete names input)) [
    | inl (found, e) ↦
        let here = rw (e, parse) at h in
        let same : query ≡ found = ground arith in rw same (complete-IsPrintable input e)
    | inr (x, e) ↦ elim (Bool-cases (is_bare (trim input))) [
      | inr f ↦ (let wrong = rw (e, f, parse) at h in cc)
      | inl f ↦
          rev_of-IsPrintable names (trim input)
            (Closed-trim (trim input) (bare-Closed (trim input) f)) (rw (e, f, parse) at h)
    ]
  ]

  -- The text that Display writes for a query that was parsed is parsed as the same query: its atoms
  -- with their arguments, its operators and their grouping.
  pub parse-display-parse :
      (input : Bytes) (query : Query)
      → parse names input ≡ ok query
      → parse names (display query) ≡ ok query
  parse-display-parse input query h = parse-display names query (parse-IsPrintable input h)
