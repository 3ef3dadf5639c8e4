-- ===== src/Query/Parse/Left.antt =====
-- How much of the input the parts of the parser leave.
use git_ents.Base.{
  ℕ, zero, suc, ◌+◌, ◌≤◌, ◌&&◌, Bytes, false, [], ◌∷◌, Option, none, some, Result, ok, >>=-eq-ok,
  ◌==◌, length, ◌≡◌, refl, ap, inl, inr, Bool-cases, Option-cases, arith,
}
use git_ents.Query.Errors.{ParseError}
use git_ents.Query.Ast.{Query, op}
use git_ents.Query.Atom.{Names, atom_named, is_empty}
use git_ents.Query.Parse.{
  Parser, advance, peek, skip_ws, skip_from, take_name, is_name_byte, is_space, next_depth,
  take_inner, take_balanced, atom_args, parse_atom, op_of, close, parse_query, parse_term,
  parse_ops,
}
use git_ents.Query.Parse.Closed.{put_before-some}

pub skip_from-length : (s : Bytes) (pos : ℕ) → length (skip_from s pos).rest ≤ length s
unfolding skip_from
skip_from-length [] pos = omega arith
skip_from-length (b ∷ s) pos = elim (Bool-cases (is_space b)) [
  | inl e ↦ rw (e, skip_from) (omega (arith, skip_from-length s (suc pos)))
  | inr e ↦ rw (e, skip_from) (omega arith)
]

take_name-length : (s : Bytes) → length (take_name s).1 ≤ length s
unfolding take_name
take_name-length [] = omega arith
take_name-length (b ∷ s) = elim (Bool-cases (is_name_byte b)) [
  | inl e ↦ rw (e, take_name) (omega (arith, take_name-length s))
  | inr e ↦ rw (e, take_name) (omega arith)
]

take_inner-length :
    (s : Bytes) (depth : ℕ) {inner rest : Bytes}
    → take_inner s depth ≡ some (inner, rest)
    → length rest ≤ length s
unfolding take_inner
take_inner-length [] depth h = cc
take_inner-length (b ∷ s) depth {inner} {rest} h =
    elim (Bool-cases (b == b')' && next_depth b depth == 0)) [
      | inl e ↦
          let found : Option (Bytes × Bytes) = some ([], s) in
          let here : found ≡ some (inner, rest) = rw e at h in
          let same : s ≡ rest = ground arith in
          let long = ap (λ (t : Bytes). length t) same in omega arith
      | inr e ↦
          let (t, _, g) = put_before-some b (take_inner s (next_depth b depth)) (rw e at h) in
          omega (arith, take_inner-length s (next_depth b depth) g)
    ]

pub advance-length : (p : Parser) → length (advance p).rest ≤ length p.rest
advance-length (p) = tail_length p.rest
  where
    tail_length : (s : Bytes) → length (advance (record { rest = s; pos = 0 })).rest ≤ length s
    tail_length [] = omega arith
    tail_length (b ∷ s) = omega arith

-- A byte is there, and it is taken.
pub taken : (p : Parser) {b : ℕ} → peek p ≡ some b → suc (length (advance p).rest) ≡ length p.rest
taken p h = tail_length p.rest h
  where
    tail_length :
        (s : Bytes) {b : ℕ}
        → peek (record { rest = s; pos = 0 }) ≡ some b
        → suc (length (advance (record { rest = s; pos = 0 })).rest) ≡ length s
    tail_length [] h = cc
    tail_length (c ∷ s) h = refl

-- What an outcome leaves of the input.
abbrev pub Leaves : ℕ → Result ParseError (Query × Parser) → Type 0
Leaves n r = (query : Query) (p : Parser) → r ≡ ok (query, p) → length p.rest ≤ n

module _ (names : Names) where
  atom_args-Leaves : (name : Bytes) (p : Parser) → Leaves (length p.rest) (atom_args names name p)
  unfolding atom_args
  atom_args-Leaves name p query after h =
      let q = skip_ws p in
      elim (Bool-cases (elim (peek q) [ none ↦ false | some b ↦ b == b'(' ])) [
        | inr e ↦ (let wrong = rw e at h in cc)
        | inl e ↦
            let ((args, r), f, h1) = >>=-eq-ok (take_balanced q.pos (advance q)) _ (rw e at h) in
            let (found, g, h2) = >>=-eq-ok (atom_named names name args r.pos) _ h1 in
            let same : r ≡ after = ground arith in
            let long = ap (λ (x : Parser). length x.rest) same in
            omega (
              arith,
              long,
              take_balanced-length q.pos (advance q) f,
              advance-length q,
              skip_from-length p.rest p.pos,
            )
      ]
    where
      take_balanced-length :
          (opened_at : ℕ) (p : Parser) {inner : Bytes} {after : Parser}
          → take_balanced opened_at p ≡ ok (inner, after)
          → length after.rest ≤ length p.rest
      take_balanced-length opened_at p {inner} {after} h =
          elim (Option-cases (take_inner p.rest 1)) [
            | inl e ↦ (let wrong = rw (e, take_balanced) at h in cc)
            | inr ((s, rest), e) ↦
                let here = rw (e, take_balanced) at h in
                let same : rest ≡ after.rest = ground arith in
                let long = ap (λ (t : Bytes). length t) same in
                omega (arith, long, take_inner-length p.rest 1 e)
          ]

  parse_atom-Leaves : (p : Parser) → Leaves (length p.rest) (parse_atom names p)
  unfolding parse_atom
  parse_atom-Leaves p query after h =
      let found = take_name p.rest in
      let q : Parser = record { rest = found.1; pos = p.pos + length found.0 } in
      elim (Bool-cases (is_empty found.0)) [
        | inl e ↦ (let wrong = rw e at h in cc)
        | inr e ↦
            omega
              (arith, atom_args-Leaves found.0 q query after (rw e at h), take_name-length p.rest)
      ]

  close-Leaves :
      (opened_at : ℕ) (inner : Query) (p : Parser)
      → Leaves (length p.rest) (close opened_at (inner, p))
  unfolding close
  close-Leaves opened_at inner p query after h =
      elim (Bool-cases (elim (peek (skip_ws p)) [ none ↦ false | some b ↦ b == b')' ])) [
        | inr e ↦ (let wrong = rw e at h in cc)
        | inl e ↦
            let here = rw e at h in
            let same : advance (skip_ws p) ≡ after = ground arith in
            let long = ap (λ (x : Parser). length x.rest) same in
            omega (arith, long, advance-length (skip_ws p), skip_from-length p.rest p.pos)
      ]

  -- All three functions of the recursion, at one fuel.
  pub record AllLeave (fuel : ℕ) : Type 0 where
    pub query : (p : Parser) → Leaves (length p.rest) (parse_query fuel names p)
    pub term : (p : Parser) → Leaves (length p.rest) (parse_term fuel names p)
    pub ops : (lhs : Query) (p : Parser) → Leaves (length p.rest) (parse_ops fuel names lhs p)

  pub fuel-AllLeave : (fuel : ℕ) → AllLeave fuel
  unfolding parse_query
  fuel-AllLeave zero = record {
    query = λ p query after h. cc;
    term = λ p query after h. cc;
    ops = λ lhs p query after h. cc;
  }
  fuel-AllLeave (suc fuel) =
      let deeper = fuel-AllLeave fuel in
      record {
        query = λ p query after h.
            let ((lhs, q), f, g) = >>=-eq-ok (parse_term fuel names p) _ h in
            omega (arith, deeper.ops lhs q query after g, deeper.term p lhs q f);
        term = λ p query after h.
            let q = skip_from p.rest p.pos in
            let skipped = skip_from-length p.rest p.pos in
            elim (Option-cases (peek q)) [
              | inl e ↦ (let wrong = rw (e, parse_term) at h in cc)
              | inr (b, e) ↦ elim (Bool-cases (b == b'(')) [
                | inr f ↦
                    omega
                      (arith, skipped, parse_atom-Leaves q query after (rw (e, f, parse_term) at h))
                | inl f ↦
                    let ((inner, r), g, k) =
                      >>=-eq-ok (parse_query fuel names (advance q)) _
                        (rw (e, f, parse_term) at h) in
                    omega (
                      arith,
                      skipped,
                      advance-length q,
                      deeper.query (advance q) inner r g,
                      close-Leaves q.pos inner r query after k,
                    )
              ]
            ];
        ops = λ lhs p query after h.
            let q = skip_from p.rest p.pos in
            let skipped = skip_from-length p.rest p.pos in
            elim (Option-cases (op_of (peek q))) [
              | inl e ↦
                  (let here = rw (e, parse_ops) at h in
                    let same : q ≡ after = ground arith in
                    let long = ap (λ (x : Parser). length x.rest) same in
                    omega (arith, long, skipped))
              | inr (o, e) ↦
                  let ((rhs, r), g, k) =
                    >>=-eq-ok (parse_term fuel names (advance q)) _ (rw (e, parse_ops) at h) in
                  omega (
                    arith,
                    skipped,
                    advance-length q,
                    deeper.term (advance q) rhs r g,
                    deeper.ops (op o lhs rhs) r query after k,
                  )
            ];
      }
