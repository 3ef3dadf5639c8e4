-- ===== src/Anchor/Capture.antt =====
-- Taking an anchor (crates/kernel/ents-anchor/src/anchor.rs and src/util.rs).
use git_ents.Base.{
  ℕ, ◌-◌, Bytes, codes, ◌&&◌, List, [], ◌∷◌, ◌++◌, Option, none, some, ok, err, ◌>>=◌,
  if◌then◌else◌, leb, length, take, drop, checked_sub, saturating_add, min,
}
use git_ents.Substrate.Refs.{Oid}
use git_ents.Anchor.Types.{
  LineRange, Anchor, AnchorError, resolve, object, missing_path, lines_out_of_range,
  no_working_tree, Fallible, Entry, Found, file, Repo,
}

-- `.ok_or(...)?`
abbrev pub required : {A : Type 0} → AnchorError → Option A → Fallible A
required e none = err e
required e (some x) = ok x

unfoldable pub resolve_commit : Repo → Bytes → Fallible Oid
resolve_commit repo revision = do
  id ← required (resolve revision) (repo.rev_parse_single revision)
  required (resolve revision) (repo.peel_to_commit id)

unfoldable pub commit_at : Repo → Oid → Fallible Oid
commit_at repo id = required (resolve (repo.hex id)) (repo.peel_to_commit id)

unfoldable pub read_blob : Repo → Oid → Fallible Bytes
read_blob repo id = required object (repo.find_blob id)

abbrev pub concat : List Bytes → Bytes
concat [] = []
concat (l ∷ ls) = l ++ concat ls

-- `all.get(first..last)`
abbrev pub slice : {A : Type 0} → List A → ℕ → ℕ → Option (List A)
slice all first last =
    if leb first last && leb last (length all)
    then some (take (last - first) (drop first all))
    else none

unfoldable pub lines_of : Repo → Bytes → Bytes → LineRange → Fallible Bytes
lines_of repo data_bytes path range =
    let all = repo.split_lines data_bytes in
    let out_of_range = lines_out_of_range path range.start range.end (length all) in
    do
      first ← required out_of_range (checked_sub range.start 1)
      found ← required out_of_range (slice all first range.end)
      ok (repo.lossy (concat found))

abbrev pub context_margin : ℕ
context_margin = 3

abbrev pub or_empty : Option (List Bytes) → List Bytes
or_empty none = []
or_empty (some ls) = ls

-- The bounds of the lines that are kept around a range.
abbrev pub context_start : LineRange → ℕ
context_start range = let start0 = range.start - 1 in start0 - min context_margin start0

abbrev pub context_end : ℕ → LineRange → ℕ
context_end len range = min (saturating_add range.end (min context_margin (len - range.end))) len

unfoldable pub capture_context : (Bytes → List Bytes) → Bytes → Option LineRange → Bytes
capture_context split_lines content none = content
capture_context split_lines content (some range) =
    let all = split_lines content in
    concat (or_empty (slice all (context_start range) (context_end (length all) range)))

abbrev pub check_lines : Repo → Bytes → Bytes → Option LineRange → Fallible Unit
check_lines repo content path none = ok tt
check_lines repo content path (some range) = do _ ← lines_of repo content path range; ok tt

-- `.filter(|entry| entry.mode().is_blob())`
abbrev pub only_blob : Option Entry → Option Entry
only_blob none = none
only_blob (some e) = if e.is_blob then some e else none

unfoldable pub capture : Repo → Bytes → Bytes → Option LineRange → Fallible Anchor
unfolding resolve_commit read_blob lines_of capture_context
capture repo revision path lines = do
  commit ← resolve_commit repo revision
  tree ← required object (repo.tree_of commit)
  found ← required object (repo.lookup tree path)
  entry ← required (missing_path commit path) (only_blob found)
  content ← read_blob repo entry.object_id
  _ ← check_lines repo content path lines
  ok (record {
    commit = commit;
    path = path;
    blob = entry.object_id;
    lines = lines;
    content = content;
    context = capture_context repo.split_lines content lines;
  })

abbrev pub file_content : AnchorError → Found → Fallible Bytes
file_content missing (file content) = ok content
file_content missing _ = err missing

abbrev anchor_dirty :
    Repo → Oid → Bytes → Option LineRange → Bytes → Option Oid × Repo → Fallible Anchor × Repo
anchor_dirty before commit path lines content (none, repo) = (err object, repo)
anchor_dirty before commit path lines content (some blob, repo) = (
  ok (record {
    commit = commit;
    path = path;
    blob = blob;
    lines = lines;
    content = content;
    context = capture_context before.split_lines content lines;
  }),
  repo,
)

-- What `capture_worktree` does before it writes the blob: the commit and the bytes.
unfoldable pub dirty_content : Repo → Bytes → Option LineRange → Fallible (Oid × Bytes)
unfolding resolve_commit lines_of
dirty_content repo path lines = do
  workdir ← required no_working_tree repo.workdir
  commit ← resolve_commit repo (codes "HEAD")
  content ← file_content (missing_path commit path) (workdir path)
  _ ← check_lines repo content path lines
  ok (commit, content)

-- `write_blob` is gitoxide's, with the repository that it leaves.
unfoldable pub capture_worktree :
    (Repo → Bytes → Option Oid × Repo) → Repo → Bytes → Option LineRange → Fallible Anchor × Repo
unfolding dirty_content capture_context
capture_worktree write_blob repo path lines = elim (dirty_content repo path lines) [
  | err e ↦ (err e, repo)
  | ok (commit, content) ↦ anchor_dirty repo commit path lines content (write_blob repo content)
]

unfoldable pub snippet : Repo → Anchor → Fallible Bytes
unfolding lines_of
snippet repo anchor = elim anchor.lines [
  | none ↦ ok (repo.lossy anchor.content)
  | some range ↦ lines_of repo anchor.content anchor.path range
]
