-- ===== src/Anchor/Examples.antt =====
-- Anchors on the sample repository: captured, and projected onto the later commit.
use git_ents.Base.{
  ℕ, Bytes, codes, bytes_eq, some, ok, ◌≡◌, refl, ◌<◌, ◌+◌, length, arith, Bool-cases, inl, inr,
  ◌==◌, u64_mod,
}
use git_ents.Anchor.Types.{LineRange, Anchor, relocated}
use git_ents.Anchor.Capture.{capture, resolve_commit, read_blob, lines_of, capture_context}
use git_ents.Anchor.Range.{map_range}
use git_ents.Anchor.Range.Moved.{Moves, map_range-Moves}
use git_ents.Anchor.Project.{project_exact, project_from_context, score}
use git_ents.Anchor.Project.Shown.{Shows, project_exact-Shows}
use git_ents.Anchor.Project.Bounds.{Fits, project_from_context-Fits}
use git_ents.Anchor.Sample.{repo, repo-IsHonest, repo-Keeps, path, split_lines-IsSplitting}

abbrev second : LineRange
second = record { start = 2; end = 2 }

abbrev third : LineRange
third = record { start = 3; end = 3 }

abbrev anchor : Anchor
anchor = record {
  commit = 1;
  path = path;
  blob = 20;
  lines = some second;
  content = codes "a\nb\n";
  context = codes "a\nb\n";
}

second_captured : capture repo (codes "one") path (some second) ≡ ok anchor
unfolding capture resolve_commit read_blob lines_of capture_context bytes_eq
second_captured = refl

-- A range that ends before it begins is captured too.
inverted_captured :
    (a : Anchor) × (capture repo (codes "one") path (some (record { start = 2; end = 1 })) ≡ ok a)
unfolding capture resolve_commit read_blob lines_of capture_context bytes_eq
inverted_captured = (_, refl)

second_moved : map_range repo anchor.content (codes "x\na\nb\n") second ≡ some third
unfolding map_range bytes_eq
second_moved = refl

map_range-Moves_example :
    Moves (repo.tokens anchor.content) (repo.tokens (codes "x\na\nb\n")) second third
map_range-Moves_example =
    map_range-Moves repo anchor.content (codes "x\na\nb\n") second third
      (repo-IsHonest.hunks anchor.content (codes "x\na\nb\n")) second_moved

second_projected : project_exact repo anchor (codes "two") ≡ ok (relocated path (some third))
unfolding project_exact resolve_commit read_blob bytes_eq map_range
second_projected = refl

two_resolved : resolve_commit repo (codes "two") ≡ ok 2
unfolding resolve_commit bytes_eq
two_resolved = refl

project_exact-Shows_example : Shows repo 12 anchor (relocated path (some third))
project_exact-Shows_example =
    project_exact-Shows repo repo (codes "one") path (codes "two") (some second) anchor 2 12
      (relocated path (some third)) repo-IsHonest second_captured (repo-Keeps anchor) two_resolved
      refl second_projected

second_found : project_from_context repo anchor (codes "two") ≡ ok (relocated path (some third))
unfolding project_from_context resolve_commit read_blob bytes_eq score
second_found = refl

short :
    (id : ℕ) (content : Bytes)
    → repo.find_blob id ≡ some content
    → length (repo.split_lines content) + 1 < u64_mod
short id content h = elim (Bool-cases (id == 20)) [
  | inl e ↦ let same : content ≡ codes "a\nb\n" = ground arith in rw same (omega arith)
  | inr e ↦ elim (Bool-cases (id == 21)) [
    | inl f ↦ let same : content ≡ codes "x\na\nb\n" = ground arith in rw same (omega arith)
    | inr f ↦ absurd (ground arith)
  ]
]

project_from_context-Fits_example :
    Fits repo repo (codes "one") path (codes "two") path second third anchor
project_from_context-Fits_example =
    project_from_context-Fits repo repo (codes "one") path (codes "two") path second third anchor
      split_lines-IsSplitting refl short (omega arith) (omega arith) second_captured second_found
