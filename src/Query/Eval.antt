-- ===== src/Query/Eval.antt =====
-- How the evaluator reads the refs (crates/kernel/ents-query/src/eval.rs): the state view of a
-- transition, and the tips that a `rev()` or a `meta()` atom starts from. `is_full_name` is
-- gitoxide's `FullName::try_from`.
pub mod Footprint
use git_ents.Base.{
  Bytes, codes, bytes_eq, starts_with, Bool, true, false, not, ◌&&◌, List, [], ◌∷◌, ◌++◌, Option,
  none, some, Result, ok, err, ◌>>=◌, if◌then◌else◌,
}
use git_ents.Substrate.Refs.{Oid, StoreError, RefStoreRead}
use git_ents.Query.Pattern.{glob_match}
use git_ents.Query.Rev.{RevTerm, RevExpr, dwim_candidates}

-- One ref's movement.
pub record Transition : Type 0 where
  pub name : Bytes
  pub old : Option Oid
  pub new : Option Oid

pub data Side : Type 0 where
  old new : Side

-- `match side { Side::Old => t.old, Side::New => t.new }`
abbrev pub side_value : Transition → Side → Option Oid
side_value t Side.old = t.old
side_value t Side.new = t.new

abbrev pub get_full : (Bytes → Bool) → RefStoreRead → Bytes → Result StoreError (Option Oid)
get_full is_full_name refs name = if is_full_name name then refs.get name else ok none

unfoldable pub resolve :
    (Bytes → Bool)
    → RefStoreRead
    → Bytes
    → Option Transition
    → Side
    → Result StoreError (Option Oid)
unfolding bytes_eq
resolve is_full_name refs name none side = get_full is_full_name refs name
resolve is_full_name refs name (some t) side =
    if bytes_eq t.name name then ok (side_value t side) else get_full is_full_name refs name

-- The loop `for entry in ...` with its `entry?`.
unfoldable pub read_entries :
    List (Result StoreError (Bytes × Oid)) → Result StoreError (List (Bytes × Oid))
read_entries [] = ok []
read_entries (entry ∷ entries) = do e ← entry; rest ← read_entries entries; ok (e ∷ rest)

-- `out.retain(|(n, _)| *n != name)`
unfoldable pub retain_others : Bytes → List (Bytes × Oid) → List (Bytes × Oid)
unfolding bytes_eq
retain_others name [] = []
retain_others name ((n, oid) ∷ out) =
    if bytes_eq n name then retain_others name out else (n, oid) ∷ retain_others name out

abbrev pub push_value : Bytes → Option Oid → List (Bytes × Oid) → List (Bytes × Oid)
push_value name none out = out
push_value name (some oid) out = out ++ (name, oid) ∷ []

unfoldable pub apply_transition :
    Bytes → Option Transition → Side → List (Bytes × Oid) → List (Bytes × Oid)
unfolding starts_with retain_others
apply_transition prefix none side out = out
apply_transition prefix (some t) side out =
    if starts_with prefix t.name
    then push_value t.name (side_value t side) (retain_others t.name out)
    else out

unfoldable pub iter_refs :
    RefStoreRead → Bytes → Option Transition → Side → Result StoreError (List (Bytes × Oid))
unfolding read_entries apply_transition
iter_refs refs prefix transition side = do
  entries ← refs.iter_prefix prefix
  out ← read_entries entries
  ok (apply_transition prefix transition side out)

-- The candidates of a short name, up to the first that is there.
unfoldable pub first_candidate :
    (Bytes → Bool)
    → RefStoreRead
    → List Bytes
    → Option Transition
    → Side
    → Result StoreError (List Oid)
unfolding resolve
first_candidate is_full_name refs [] transition side = ok []
first_candidate is_full_name refs (c ∷ cs) transition side = do
  found ← resolve is_full_name refs c transition side
  elim found [
    | none ↦ first_candidate is_full_name refs cs transition side
    | some oid ↦ ok (oid ∷ [])
  ]

-- The refs that a test on the name lets through.
unfoldable pub tips_where : (Bytes → Bool) → List (Bytes × Oid) → List Oid
tips_where test [] = []
tips_where test ((name, oid) ∷ entries) =
    if test name then oid ∷ tips_where test entries else tips_where test entries

abbrev pub in_glob : Bytes → Bytes → Bool
in_glob pattern name = not (starts_with (codes "refs/meta/") name) && glob_match pattern name

unfoldable pub term_tips :
    (Bytes → Bool)
    → RefStoreRead
    → RevTerm
    → Option Transition
    → Side
    → Result StoreError (List Oid)
unfolding dwim_candidates first_candidate iter_refs tips_where starts_with glob_match
term_tips is_full_name refs (RevTerm.oid oid) transition side = ok (oid ∷ [])
term_tips is_full_name refs (RevTerm.name name) transition side =
    first_candidate is_full_name refs (dwim_candidates name) transition side
term_tips is_full_name refs (RevTerm.glob pattern) transition side = do
  entries ← iter_refs refs (codes "refs/") transition side
  ok (tips_where (in_glob pattern) entries)

-- The closure `resolve_terms`.
unfoldable pub resolve_terms :
    (Bytes → Bool)
    → RefStoreRead
    → List RevTerm
    → Option Transition
    → Side
    → Result StoreError (List Oid)
unfolding term_tips
resolve_terms is_full_name refs [] transition side = ok []
resolve_terms is_full_name refs (term ∷ terms) transition side = do
  tips ← term_tips is_full_name refs term transition side
  rest ← resolve_terms is_full_name refs terms transition side
  ok (tips ++ rest)

unfoldable pub rev_tips :
    (Bytes → Bool)
    → RefStoreRead
    → RevExpr
    → Option Transition
    → Side
    → Result StoreError (List Oid × List Oid)
unfolding resolve_terms
rev_tips is_full_name refs expr transition side = do
  include ← resolve_terms is_full_name refs expr.include transition side
  exclude ← resolve_terms is_full_name refs expr.exclude transition side
  ok (include, exclude)

unfoldable pub meta_tips :
    RefStoreRead → Bytes → Option Transition → Side → Result StoreError (List Oid)
unfolding iter_refs tips_where glob_match
meta_tips refs pattern transition side = do
  entries ← iter_refs refs (codes "refs/meta/") transition side
  ok (tips_where (glob_match pattern) entries)
