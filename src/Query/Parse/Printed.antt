-- ===== src/Query/Parse/Printed.antt =====
-- The parser reads a displayed query.
use git_ents.Base.{
  ℕ, suc, ◌+◌, Bytes, codes, [], ◌∷◌, ◌++◌, append_assoc, some, ok, length, ◌≡◌, refl, ap,
}
use git_ents.Query.Rev.{RevExpr}
use git_ents.Query.Rev.Expr.{rev_expr}
use git_ents.Query.Ast.{Query, rev, results, meta, op, StatusFilter, SetOp}
use git_ents.Query.Ast.Display.{status_text, display}
use git_ents.Query.Atom.{Names, atom_named, parse_results, parse_meta}
use git_ents.Query.Parse.{Parser, skip_from, take_name, take_inner, atom_args, parse_atom}

abbrev pub at : Bytes → ℕ → Parser
at rest pos = record { rest = rest; pos = pos }

-- A parenthesis behind the text is the one that closes what stands before the text.
abbrev pub Closed : Bytes → Type 0
Closed inner = (rest : Bytes) → take_inner (inner ++ b')' ∷ rest) 1 ≡ some (inner, rest)

abbrev pub results_args : Bytes → StatusFilter → Bytes
results_args effect status = effect ++ codes ", " ++ status_text status

-- The arguments of each atom are read as that atom.
pub data IsPrintable (names : Names) : Query → Type 0 where
  by_rev :
      {e : RevExpr}
      → Closed e.raw
      → rev_expr names.oid_from_hex e.raw ≡ ok e
      → IsPrintable names (rev e)
  by_results :
      {effect : Bytes} {status : StatusFilter}
      → Closed (results_args effect status)
      → ((pos : ℕ)
          → parse_results names.valid_ref (results_args effect status) pos
            ≡ ok (results effect status))
      → IsPrintable names (results effect status)
  by_meta :
      {glob : Bytes}
      → Closed glob
      → parse_meta glob ≡ ok (meta glob)
      → IsPrintable names (meta glob)
  by_op :
      {o : SetOp} {lhs rhs : Query}
      → IsPrintable names lhs
      → IsPrintable names rhs
      → IsPrintable names (op o lhs rhs)

results_text :
    (effect status rest : Bytes)
    → (effect ++ codes ", " ++ status ++ codes ")") ++ rest
      ≡ (effect ++ codes ", " ++ status) ++ b')' ∷ rest
results_text [] status rest = ap (λ s. codes ", " ++ s) (append_assoc status (codes ")") rest)
results_text (b ∷ effect) status rest = ap (λ s. b ∷ s) (results_text effect status rest)

module _ (names : Names) where
  -- The rest of the text is left, at some position.
  abbrev pub Reads : Bytes → Query → Bytes → Type 0
  Reads text query rest =
      (pos : ℕ) → (pos' : ℕ) × (parse_atom names (at (text ++ rest) pos) ≡ ok (query, at rest pos'))

  pub rev-Reads :
      (e : RevExpr) (rest : Bytes)
      → Closed e.raw
      → rev_expr names.oid_from_hex e.raw ≡ ok e
      → Reads (display (rev e)) (rev e) rest
  unfolding display parse_atom atom_args take_name skip_from atom_named
  rev-Reads e rest closed read pos = (
    suc (pos + 3) + length e.raw + 1,
    rw (append_assoc e.raw (codes ")") rest) (rw (closed rest) (rw read refl)),
  )

  pub meta-Reads :
      (glob rest : Bytes)
      → Closed glob
      → parse_meta glob ≡ ok (meta glob)
      → Reads (display (meta glob)) (meta glob) rest
  unfolding display parse_atom atom_args take_name skip_from atom_named
  meta-Reads glob rest closed read pos = (
    suc (pos + 4) + length glob + 1,
    rw (append_assoc glob (codes ")") rest) (rw (closed rest) (rw read refl)),
  )

  pub results-Reads :
      (effect : Bytes) (status : StatusFilter) (rest : Bytes)
      → Closed (results_args effect status)
      → ((pos : ℕ)
          → parse_results names.valid_ref (results_args effect status) pos
            ≡ ok (results effect status))
      → Reads (display (results effect status)) (results effect status) rest
  unfolding display parse_atom atom_args take_name skip_from atom_named
  results-Reads effect status rest closed read pos =
      let after = suc (pos + 7) + length (results_args effect status) + 1 in
      (
        after,
        rw (results_text effect (status_text status) rest)
            (rw (closed rest) (rw (read after) refl)),
      )
