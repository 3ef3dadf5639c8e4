-- ===== src/Query/Parse/Displayed.antt =====
-- Parsing what Display wrote.
use git_ents.Base.{
  ℕ, zero, suc, ◌+◌, ◌-◌, ◌*◌, ◌≤◌, Bytes, codes, Bool, true, false, [], ◌++◌, append-nil, ok,
  ◌>>=◌, length, length-append, ◌≡◌, refl, sym, arith, subst,
}
use git_ents.Query.Ast.{Query, rev, results, meta, op, SetOp, union, intersect, difference}
use git_ents.Query.Ast.Display.{display, in_parentheses, is_op, op_text}
use git_ents.Query.Atom.{Names}
use git_ents.Query.Parse.{
  skip_from, op_of, parse_query, parse_ops, complete, parse_query_complete, parse,
}
use git_ents.Query.Parse.Printed.{at, IsPrintable}
use git_ents.Query.Parse.Operators.{cost, size, display-ReadsQuery}

in_parentheses-length : (b : Bool) (text : Bytes) → (length text ≤ length (in_parentheses b text))
in_parentheses-length false text = omega arith
in_parentheses-length true text = omega (arith, length-append {0} text (codes ")"))

op_text-long : (o : SetOp) → 1 ≤ length (op_text o)
op_text-long union = omega arith
op_text-long intersect = omega arith
op_text-long difference = omega arith

-- The text has more than enough bytes to count the rounds.
display-length : (query : Query) → cost query + size query + 2 ≤ length (display query)
unfolding display
display-length (rev e) = omega (arith, length-append {0} e.raw (codes ")"))
display-length (results effect status) = omega arith
display-length (meta glob) = omega (arith, length-append {0} glob (codes ")"))
display-length (op o lhs rhs) =
    let text = in_parentheses (is_op rhs) (display rhs) in
    omega (
      arith,
      length-append {0} (display lhs ++ codes " " ++ op_text o ++ codes " ") text,
      length-append {0} (display lhs ++ codes " " ++ op_text o) (codes " "),
      length-append {0} (display lhs ++ codes " ") (op_text o),
      length-append {0} (display lhs) (codes " "),
      op_text-long o,
      display-length lhs,
      display-length rhs,
      in_parentheses-length (is_op rhs) (display rhs),
    )

module _ (names : Names) where
  at_end :
      (query : Query) (fuel pos : ℕ)
      → 1 ≤ fuel
      → (parse_ops fuel names query (at [] pos) >>= complete) ≡ ok query
  unfolding parse_ops skip_from op_of
  at_end query zero pos h = absurd (omega arith)
  at_end query (suc fuel) pos h = refl

  -- A printable query is read back from its text.
  pub parse-display :
      (query : Query) → IsPrintable names query → parse names (display query) ≡ ok query
  unfolding parse parse_query_complete
  parse-display query p =
      let text = display query in
      let fuel = 2 * length text + 2 - cost query in
      let long = display-length query in
      let e : 2 * length text + 2 ≡ cost query + fuel = omega (arith, long) in
      let (pos, read) = display-ReadsQuery names query p [] 0 fuel (omega (arith, long)) in
      let whole : parse_query (2 * length text + 2) names (at text 0)
          ≡ parse_ops fuel names query (at [] pos) =
        subst (λ n. parse_query n names (at text 0) ≡ parse_ops fuel names query (at [] pos))
          (sym e)
          (subst
            (λ s.
              parse_query (cost query + fuel) names (at s 0)
              ≡ parse_ops fuel names query (at [] pos))
            (append-nil text) read) in
      rw whole (rw (at_end query fuel pos (omega (arith, long))) refl)
