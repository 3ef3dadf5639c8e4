-- ===== src/Anchor/Project.antt =====
-- Where an anchor stands in a later state (crates/kernel/ents-anchor/src/projection.rs).
pub mod Shown
pub mod Window
pub mod Bounds
use git_ents.Base.{
  ℕ, zero, suc, ◌+◌, ◌-◌, Bytes, bytes_eq, Bool, true, false, not, ◌&&◌, List, [], ◌∷◌, Option,
  none, some, Result, ok, err, ◌>>=◌, if◌then◌else◌, ◌==◌, ltb, leb, length, take, drop,
  checked_mul, saturating_add, min,
}
use git_ents.Substrate.Refs.{Oid}
use git_ents.Anchor.Types.{
  LineRange, Anchor, Projection, current, deleted, relocated, outdated, AnchorError, object, diff,
  missing_path, anchor_commit_missing, no_working_tree, Fallible, Entry, Change, deletion,
  modification, rename, other, Found, absent, no_file, unreadable, file, Repo,
}
use git_ents.Anchor.Capture.{required, resolve_commit, commit_at, read_blob, context_margin}
use git_ents.Anchor.Range.{map_range}

-- The anchored blob still stands at the anchored path.
abbrev pub is_current : Anchor → Option Entry → Bool
is_current anchor none = false
is_current anchor (some e) = e.is_blob && e.object_id == anchor.blob

-- Where the diff says that the anchored path went.
pub data Destination : Type 0 where
  gone untouched : Destination
  at : Bytes → Oid → Bool → Destination

-- The loop over the changes, up to the first that concerns the path.
unfoldable pub find_destination : Bytes → (Bytes → Bytes) → List Change → Destination
unfolding bytes_eq
find_destination path lossy [] = untouched
find_destination path lossy (deletion location ∷ changes) =
    if bytes_eq location path then gone else find_destination path lossy changes
find_destination path lossy (modification location id is_blob ∷ changes) =
    if bytes_eq location path then at path id is_blob else find_destination path lossy changes
find_destination path lossy (rename source location id is_blob ∷ changes) =
    if bytes_eq source path
    then at (lossy location) id is_blob
    else find_destination path lossy changes
find_destination path lossy (other ∷ changes) = find_destination path lossy changes

-- The lines of the range after `map_range`, or nowhere.
abbrev pub mapped : Bytes → Option LineRange → Projection
mapped path none = outdated path
mapped path (some range) = relocated path (some range)

abbrev pub in_changed : Repo → Anchor → Bytes → Oid → Option LineRange → Fallible Projection
in_changed repo anchor path blob none = ok (relocated path none)
in_changed repo anchor path blob (some range) = do
  new ← read_blob repo blob
  ok (mapped path (map_range repo anchor.content new range))

unfoldable pub at_destination : Repo → Anchor → Destination → Fallible Projection
unfolding read_blob map_range
at_destination repo anchor gone = ok deleted
at_destination repo anchor untouched = err (missing_path anchor.commit anchor.path)
at_destination repo anchor (at path blob is_blob) =
    if not is_blob
    then ok (outdated path)
    else if blob == anchor.blob
    then ok (relocated path anchor.lines)
    else in_changed repo anchor path blob anchor.lines

-- What `project_exact` does when the anchor is not current.
unfoldable pub project_diff : Repo → Anchor → Oid → Fallible Projection
unfolding commit_at find_destination at_destination
project_diff repo anchor target_tree =
    if not (repo.has_object anchor.commit) then err (anchor_commit_missing anchor.commit) else do
      commit ← commit_at repo anchor.commit
      anchor_tree ← required object (repo.tree_of commit)
      changes ← required diff (repo.diff_trees anchor_tree target_tree)
      at_destination repo anchor (find_destination anchor.path repo.lossy changes)

unfoldable pub project_exact : Repo → Anchor → Bytes → Fallible Projection
unfolding resolve_commit project_diff
project_exact repo anchor target = do
  target_commit ← resolve_commit repo target
  target_tree ← required object (repo.tree_of target_commit)
  entry ← required object (repo.lookup target_tree anchor.path)
  if is_current anchor entry then ok current else project_diff repo anchor target_tree

-- The number of lines that agree, place by place.
unfoldable pub score : List Bytes → List Bytes → ℕ
unfolding bytes_eq
score [] wanted = 0
score (l ∷ ls) [] = 0
score (l ∷ ls) (w ∷ ws) = (if bytes_eq l w then 1 else 0) + score ls ws

abbrev pub better : Option (ℕ × ℕ) → ℕ → Bool
better none s = true
better (some (_, best)) s = ltb best s

-- The loop over the windows: `start` is the index of the next, and `count` of them are left.
unfoldable pub best_window : ℕ → List Bytes → List Bytes → ℕ → Option (ℕ × ℕ) → Option (ℕ × ℕ)
unfolding score
best_window zero target_lines context_lines start best = best
best_window (suc count) target_lines context_lines start best =
    let s = score (take (length context_lines) (drop start target_lines)) context_lines in
    best_window count target_lines context_lines (suc start)
      (if better best s then some (start, s) else best)

-- `score.checked_mul(2).is_some_and(|doubled| doubled >= window)`
abbrev pub is_enough : ℕ → ℕ → Bool
is_enough window s = elim (checked_mul s 2) [ none ↦ false | some doubled ↦ leb window doubled ]

-- The lines of the range in the window that begins at `start`.
abbrev pub window_range : LineRange → ℕ → LineRange
window_range range start =
    let margin_before = min context_margin (range.start - 1) in
    let range_len = saturating_add (range.end - range.start) 1 in
    let mapped_start = saturating_add (saturating_add start margin_before) 1 in
    record { start = mapped_start; end = saturating_add mapped_start range_len - 1 }

abbrev pub place : Bytes → LineRange → ℕ → Option (ℕ × ℕ) → Projection
place path range window none = outdated path
place path range window (some (start, s)) =
    if is_enough window s then relocated path (some (window_range range start)) else outdated path

unfoldable pub search_window : Bytes → LineRange → List Bytes → List Bytes → Projection
unfolding best_window
search_window path range target_lines context_lines =
    let window = length context_lines in
    if window == 0
    then outdated path
    else if ltb (length target_lines) window
    then outdated path
    else place path range window
        (best_window (length target_lines - window + 1) target_lines context_lines 0 none)

abbrev pub in_context : Repo → Anchor → Option LineRange → Oid → Fallible Projection
in_context repo anchor none blob = ok (relocated anchor.path none)
in_context repo anchor (some range) blob = do
  data_bytes ← read_blob repo blob
  ok (
      search_window anchor.path range (repo.split_lines data_bytes)
        (repo.split_lines anchor.context))

abbrev pub entry_in_context : Repo → Anchor → Option Entry → Fallible Projection
entry_in_context repo anchor none = ok deleted
entry_in_context repo anchor (some e) =
    if not e.is_blob
    then ok (outdated anchor.path)
    else in_context repo anchor anchor.lines e.object_id

unfoldable pub project_from_context : Repo → Anchor → Bytes → Fallible Projection
unfolding resolve_commit read_blob search_window
project_from_context repo anchor target = do
  target_commit ← resolve_commit repo target
  target_tree ← required object (repo.tree_of target_commit)
  entry ← required object (repo.lookup target_tree anchor.path)
  entry_in_context repo anchor entry

abbrev pub or_from_context : Repo → Anchor → Bytes → Fallible Projection → Fallible Projection
or_from_context repo anchor target (err (anchor_commit_missing _)) =
    project_from_context repo anchor target
or_from_context repo anchor target other_result = other_result

unfoldable pub project : Repo → Anchor → Bytes → Fallible Projection
unfolding project_exact project_from_context
project repo anchor target = or_from_context repo anchor target (project_exact repo anchor target)

-- `project_worktree` once the bytes of the path are there.
abbrev pub in_bytes : Repo → Anchor → Bytes → Option LineRange → Projection
in_bytes repo anchor bytes none = relocated anchor.path none
in_bytes repo anchor bytes (some range) =
    mapped anchor.path (map_range repo anchor.content bytes range)

unfoldable pub project_bytes : Repo → Anchor → Bytes → Projection
unfolding bytes_eq map_range
project_bytes repo anchor bytes =
    if bytes_eq bytes anchor.content then current else in_bytes repo anchor bytes anchor.lines

abbrev pub project_found : Repo → Anchor → Found → Fallible Projection
project_found repo anchor absent = ok deleted
project_found repo anchor no_file = ok (outdated anchor.path)
project_found repo anchor unreadable = err object
project_found repo anchor (file content) = ok (project_bytes repo anchor content)

unfoldable pub project_worktree : Repo → Anchor → Option Bytes → Fallible Projection
unfolding project_bytes
project_worktree repo anchor (some buffer) = ok (project_bytes repo anchor buffer)
project_worktree repo anchor none = do
  workdir ← required no_working_tree repo.workdir
  project_found repo anchor (workdir anchor.path)
