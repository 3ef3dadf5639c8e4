-- ===== src/Query/Ast.antt =====
-- The syntax tree of a query (crates/kernel/ents-query/src/ast.rs) and its footprint
-- (crates/kernel/ents-query/src/pattern.rs, `Footprint`).
pub mod Display
pub mod Sorted
pub mod Touched
pub mod Dependencies
use git_ents.Base.{
  ℕ, zero, suc, Bytes, codes, bytes_eq, sort_bytes, any, Bool, true, false, List, [], ◌∷◌, ◌++◌, ok,
  err, if◌then◌else◌, ◌==◌, ltb,
}
use git_ents.Query.Pattern.{ref_pattern, glob_match}
use git_ents.Query.Rev.{RevExpr, expr_patterns}

pub data StatusFilter : Type 0 where
  pass fail error any_status : StatusFilter

pub data SetOp : Type 0 where
  union intersect difference : SetOp

pub data Query : Type 0 where
  rev : RevExpr → Query
  results : Bytes → StatusFilter → Query
  meta : Bytes → Query
  op : SetOp → Query → Query → Query

-- `patterns.dedup()`: of equal neighbours the first stays.
unfoldable pub dedup_after : Bytes → List Bytes → List Bytes
dedup_after p [] = []
dedup_after p (q ∷ qs) = if bytes_eq p q then dedup_after p qs else q ∷ dedup_after q qs

unfoldable pub dedup : List Bytes → List Bytes
unfolding dedup_after
dedup [] = []
dedup (p ∷ ps) = p ∷ dedup_after p ps

-- `Footprint::from_patterns`
unfoldable pub from_patterns : List Bytes → List Bytes
unfolding dedup
from_patterns patterns = dedup (sort_bytes patterns)

-- `Footprint::matches`
unfoldable pub footprint_matches : List Bytes → Bytes → Bool
footprint_matches patterns name = any (λ p. glob_match p name) patterns

abbrev pub results_glob : Bytes → Bytes
results_glob effect = codes "refs/meta/results/" ++ effect ++ codes "/*"

unfoldable pub collect_patterns : Query → List Bytes → List Bytes
collect_patterns (rev expr) out = out ++ expr_patterns expr
collect_patterns (results effect _) out = elim (ref_pattern (results_glob effect)) [
  | ok pattern ↦ out ++ pattern ∷ []
  | err _ ↦ out
]
collect_patterns (meta glob) out = out ++ glob ∷ []
collect_patterns (op _ lhs rhs) out = collect_patterns rhs (collect_patterns lhs out)

unfoldable pub footprint : Query → List Bytes
unfolding collect_patterns from_patterns
footprint query = from_patterns (collect_patterns query [])

unfoldable pub has_name : Bytes → List Bytes → Bool
has_name n [] = false
has_name n (m ∷ ms) = if bytes_eq m n then true else has_name n ms

unfoldable pub collect_dependencies : Query → List Bytes → List Bytes
unfolding has_name
collect_dependencies (rev _) out = out
collect_dependencies (meta _) out = out
collect_dependencies (results effect _) out =
    if has_name effect out then out else out ++ effect ∷ []
collect_dependencies (op _ lhs rhs) out = collect_dependencies rhs (collect_dependencies lhs out)

unfoldable pub results_dependencies : Query → List Bytes
unfolding collect_dependencies
results_dependencies query = collect_dependencies query []
