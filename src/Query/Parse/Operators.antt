-- ===== src/Query/Parse/Operators.antt =====
-- The loop over the operators reads a displayed query.
use git_ents.Base.{
  ℕ, zero, suc, ◌+◌, ◌-◌, ◌≤◌, Bytes, codes, false, [], ◌∷◌, ◌++◌, append_assoc, ok, ◌≡◌, refl, sym,
  ap, ◌∙◌, arith, subst, Bool-cases, inl, inr,
}
use git_ents.Query.Ast.{Query, rev, results, meta, op, SetOp, union, intersect, difference}
use git_ents.Query.Ast.Display.{op_text, in_parentheses, is_op, display}
use git_ents.Query.Atom.{Names}
use git_ents.Query.Parse.{skip_from, close, op_of, parse_query, parse_term, parse_ops}
use git_ents.Query.Parse.Printed.{
  at, IsPrintable, by_rev, by_results, by_meta, by_op, rev-Reads, meta-Reads, results-Reads,
}

-- The rounds of the loop in which a displayed query is read, and the fuel that they need beside.
abbrev pub cost : Query → ℕ
cost (op _ lhs _) = suc (cost lhs)
cost _ = 1

abbrev pub size : Query → ℕ
size (op _ lhs rhs) = size lhs + size rhs + cost rhs + 3
size _ = 1

op_text-append :
    (o : SetOp) (lhs rhs rest : Bytes)
    → (lhs ++ codes " " ++ op_text o ++ codes " " ++ rhs) ++ rest
      ≡ lhs ++ (32 ∷ op_text o ++ 32 ∷ rhs ++ rest)
op_text-append union [] rhs rest = refl
op_text-append intersect [] rhs rest = refl
op_text-append difference [] rhs rest = refl
op_text-append o (b ∷ lhs) rhs rest = ap (λ s. b ∷ s) (op_text-append o lhs rhs rest)

module _ (names : Names) where
  -- What stands before the rest is read as the query.
  abbrev pub ReadsTerm : Bytes → Query → ℕ → Type 0
  ReadsTerm text query fuel =
      (rest : Bytes) (pos : ℕ)
      → (pos' : ℕ) × (parse_term fuel names (at (text ++ rest) pos) ≡ ok (query, at rest pos'))

  -- What stands before the rest is read as the operand of a loop.
  abbrev pub ReadsQuery : Query → Type 0
  ReadsQuery query =
      (rest : Bytes) (pos fuel : ℕ)
      → size query ≤ fuel
      → (pos' : ℕ) × (parse_query (cost query + fuel) names (at (display query ++ rest) pos)
          ≡ parse_ops fuel names query (at rest pos'))

  atom-ReadsTerm :
      {query : Query} (fuel : ℕ)
      → IsPrintable names query
      → is_op query ≡ false
      → ReadsTerm (display query) query (suc fuel)
  unfolding display parse_term skip_from
  atom-ReadsTerm fuel (by_rev {e} closed read) h rest pos = rev-Reads names e rest closed read pos
  atom-ReadsTerm fuel (by_meta {glob} closed read) h rest pos =
      meta-Reads names glob rest closed read pos
  atom-ReadsTerm fuel (by_results {effect} {status} closed read) h rest pos =
      results-Reads names effect status rest closed read pos
  atom-ReadsTerm fuel (by_op p q) h rest pos = cc

  -- A space before a term does not matter.
  space-ReadsTerm :
      (text : Bytes) (query : Query) (fuel : ℕ)
      → ReadsTerm text query fuel
      → ReadsTerm (32 ∷ text) query fuel
  unfolding parse_term skip_from
  space-ReadsTerm text query zero r rest pos = r rest (suc pos)
  space-ReadsTerm text query (suc fuel) r rest pos = r rest (suc pos)

  parenthesis-ReadsTerm :
      (query : Query) (fuel left : ℕ)
      → ReadsQuery query
      → fuel ≡ cost query + suc left
      → size query ≤ suc left
      → ReadsTerm (codes "(" ++ display query ++ codes ")") query (suc fuel)
  unfolding parse_term parse_ops skip_from close op_of
  parenthesis-ReadsTerm query fuel left r e h rest pos =
      let (p, read) = r (b')' ∷ rest) (suc pos) (suc left) h in
      let read' =
        subst
          (λ n.
            parse_query n names (at (display query ++ b')' ∷ rest) (suc pos))
            ≡ parse_ops (suc left) names query (at (b')' ∷ rest) p))
          (sym e) read in
      (suc p, rw (append_assoc (display query) (codes ")") rest) (rw read' refl))

  atom_cost : (query : Query) → is_op query ≡ false → (cost query ≡ 1) × (size query ≡ 1)
  atom_cost (rev e) h = (refl, refl)
  atom_cost (results effect status) h = (refl, refl)
  atom_cost (meta glob) h = (refl, refl)
  atom_cost (op o lhs rhs) h = cc

  -- A query begins with a term.
  query_of_term :
      (query : Query) (text rest : Bytes) (fuel pos pos' : ℕ)
      → parse_term fuel names (at (text ++ rest) pos) ≡ ok (query, at rest pos')
      → parse_query (suc fuel) names (at (text ++ rest) pos)
        ≡ parse_ops fuel names query (at rest pos')
  unfolding parse_query
  query_of_term query text rest fuel pos pos' h = rw h refl

  atom-ReadsQuery :
      (query : Query) → IsPrintable names query → is_op query ≡ false → ReadsQuery query
  atom-ReadsQuery query p h rest pos fuel l =
      let (c, s) = atom_cost query h in
      let e : cost query + fuel ≡ suc fuel = omega (arith, c) in
      let f : fuel ≡ suc (fuel - 1) = omega (arith, s, l) in
      let (pos', read) = atom-ReadsTerm (fuel - 1) p h rest pos in
      let read' =
        subst (λ n. parse_term n names (at (display query ++ rest) pos) ≡ ok (query, at rest pos'))
          (sym f) read in
      (
        pos',
        subst
            (λ n.
              parse_query n names (at (display query ++ rest) pos)
              ≡ parse_ops fuel names query (at rest pos'))
            (sym e) (query_of_term query (display query) rest fuel pos pos' read'),
      )

  -- The loop goes on behind an operator and its operand.
  ops_step :
      (o : SetOp) (lhs rhs : Query) (text rest : Bytes) (fuel pos : ℕ)
      → ReadsTerm text rhs fuel
      → (pos' : ℕ) × (parse_ops (suc fuel) names lhs (at (32 ∷ op_text o ++ 32 ∷ text ++ rest) pos)
          ≡ parse_ops fuel names (op o lhs rhs) (at rest pos'))
  unfolding parse_ops skip_from op_of
  ops_step union lhs rhs text rest fuel pos r =
      let (pos', read) = space-ReadsTerm text rhs fuel r rest (suc (suc pos)) in
      (pos', rw read refl)
  ops_step intersect lhs rhs text rest fuel pos r =
      let (pos', read) = space-ReadsTerm text rhs fuel r rest (suc (suc pos)) in
      (pos', rw read refl)
  ops_step difference lhs rhs text rest fuel pos r =
      let (pos', read) = space-ReadsTerm text rhs fuel r rest (suc (suc pos)) in
      (pos', rw read refl)

  operand-ReadsTerm :
      (query : Query) (fuel : ℕ)
      → IsPrintable names query
      → ReadsQuery query
      → size query + cost query + 2 ≤ fuel
      → ReadsTerm (in_parentheses (is_op query) (display query)) query fuel
  operand-ReadsTerm query zero p r h = absurd (omega arith)
  operand-ReadsTerm query (suc fuel) p r h = elim (Bool-cases (is_op query)) [
    | inr e ↦ rw e (atom-ReadsTerm fuel p e)
    | inl e ↦ rw e (
        parenthesis-ReadsTerm query fuel (fuel - cost query - 1) r (omega (arith, h))
          (omega (arith, h)))
  ]

  op-ReadsQuery :
      (o : SetOp) (lhs rhs : Query)
      → IsPrintable names rhs
      → ReadsQuery lhs
      → ReadsQuery rhs
      → ReadsQuery (op o lhs rhs)
  unfolding display
  op-ReadsQuery o lhs rhs p l r rest pos fuel h =
      let text = in_parentheses (is_op rhs) (display rhs) in
      let whole = op_text-append o (display lhs) text rest in
      let e : cost (op o lhs rhs) + fuel ≡ cost lhs + suc fuel = omega arith in
      let (p1, first) = l (32 ∷ op_text o ++ 32 ∷ text ++ rest) pos (suc fuel) (omega (arith, h)) in
      let (p2, second) =
        ops_step o lhs rhs text rest fuel p1 (operand-ReadsTerm rhs fuel p r (omega (arith, h))) in
      (p2, rw (whole, e) (first ∙ second))

  pub display-ReadsQuery : (query : Query) → IsPrintable names query → ReadsQuery query
  display-ReadsQuery (rev e) p = atom-ReadsQuery (rev e) p refl
  display-ReadsQuery (results effect status) p = atom-ReadsQuery (results effect status) p refl
  display-ReadsQuery (meta glob) p = atom-ReadsQuery (meta glob) p refl
  display-ReadsQuery (op o lhs rhs) (by_op p q) =
      op-ReadsQuery o lhs rhs q (display-ReadsQuery lhs p) (display-ReadsQuery rhs q)
