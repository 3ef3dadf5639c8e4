-- ===== src/Query/Parse/Fuel.antt =====
-- The fuel of the parser is enough: each round takes a byte of the input.
use git_ents.Base.{
  ℕ, zero, suc, ◌+◌, ◌*◌, ◌≤◌, Bytes, not, some, Result, ok, err, ◌==◌, length, ◌≡◌, inl, inr,
  Bool-cases, Option-cases, arith,
}
use git_ents.Query.Errors.{ParseError, out_of_fuel}
use git_ents.Query.Space.{trim}
use git_ents.Query.Ast.{Query, op, SetOp}
use git_ents.Query.Atom.{Names}
use git_ents.Query.Parse.{
  Parser, advance, peek, skip_from, op_of, parse_query, parse_term, parse_ops, parse_query_complete,
  is_bare, or_bare, parse,
}
use git_ents.Query.Parse.Ends.{
  Ends, >>=-Ends, rev_of-Ends, parse_atom-Ends, close-Ends, complete-Ends,
}
use git_ents.Query.Parse.Left.{skip_from-length, taken, fuel-AllLeave}

module _ (names : Names) where
  -- What fuel is enough for each, by the length of the input.
  record AllEnd (fuel : ℕ) : Type 0 where
    query : (p : Parser) → 2 * length p.rest + 2 ≤ fuel → Ends (parse_query fuel names p)
    term : (p : Parser) → 2 * length p.rest + 1 ≤ fuel → Ends (parse_term fuel names p)
    ops :
        (lhs : Query) (p : Parser)
        → 2 * length p.rest + 1 ≤ fuel
        → Ends (parse_ops fuel names lhs p)

  op_of-some : (p : Parser) {o : SetOp} → op_of (peek p) ≡ some o → (b : ℕ) × (peek p ≡ some b)
  unfolding op_of
  op_of-some p h = elim (Option-cases (peek p)) [
    | inl e ↦ (let wrong = rw e at h in cc)
    | inr (b, e) ↦ (b, e)
  ]

  fuel-AllEnd : (fuel : ℕ) → AllEnd fuel
  unfolding parse_query
  fuel-AllEnd zero = record {
    query = λ p l h. omega arith;
    term = λ p l h. omega arith;
    ops = λ lhs p l h. omega arith;
  }
  fuel-AllEnd (suc fuel) =
      let deeper = fuel-AllEnd fuel in
      let leave = fuel-AllLeave names fuel in
      record {
        query = λ p l.
            >>=-Ends (parse_term fuel names p) _ (deeper.term p (omega arith))
              (λ x e. deeper.ops x.0 x.1 (omega (arith, l, leave.term p x.0 x.1 e)));
        term = λ p l h.
            let q = skip_from p.rest p.pos in
            let skipped = skip_from-length p.rest p.pos in
            elim (Option-cases (peek q)) [
              | inl e ↦ (let wrong = rw (e, parse_term) at h in cc)
              | inr (b, e) ↦ elim (Bool-cases (b == b'(')) [
                | inr f ↦ parse_atom-Ends names q (rw (e, f, parse_term) at h)
                | inl f ↦
                    >>=-Ends (parse_query fuel names (advance q)) _
                      (deeper.query (advance q) (omega (arith, l, skipped, taken q e)))
                      (λ x g. close-Ends q.pos x) (rw (e, f, parse_term) at h)
              ]
            ];
        ops = λ lhs p l h.
            let q = skip_from p.rest p.pos in
            let skipped = skip_from-length p.rest p.pos in
            elim (Option-cases (op_of (peek q))) [
              | inl e ↦ (let wrong = rw (e, parse_ops) at h in cc)
              | inr (o, e) ↦
                  let (b, there) = op_of-some q e in
                  let shorter = taken q there in
                  >>=-Ends (parse_term fuel names (advance q)) _
                    (deeper.term (advance q) (omega (arith, l, skipped, shorter)))
                    (λ x g.
                      deeper.ops (op o lhs x.0) x.1
                        (omega (arith, l, skipped, shorter, leave.term (advance q) x.0 x.1 g)))
                    (rw (e, parse_ops) at h)
            ];
      }

  or_bare-Ends :
      (token : Bytes) (r : Result ParseError Query) → Ends r → Ends (or_bare names token r)
  or_bare-Ends token (ok query) f = λ h. cc
  or_bare-Ends token (err e) f = elim (Bool-cases (not (is_bare token))) [
    | inl g ↦ rw g f
    | inr g ↦ rw g (rev_of-Ends names token)
  ]

  -- The parser ends on every input, by a query or by an error of the source: its fuel, twice the
  -- length of the input and two, never runs out.
  pub parse-Ends : (input : Bytes) → ¬ (parse names input ≡ err out_of_fuel)
  unfolding parse parse_query_complete
  parse-Ends input =
      let fuel = 2 * length input + 2 in
      let start : Parser = record { rest = input; pos = 0 } in
      or_bare-Ends (trim input) (parse_query_complete names input) (
        >>=-Ends (parse_query fuel names start) _ ((fuel-AllEnd fuel).query start (omega arith))
          (λ found e. complete-Ends found))
