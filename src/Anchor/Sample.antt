-- ===== src/Anchor/Sample.antt =====
-- A repository for the tests of the anchors: one file, before and after a line is put on top of it.
use git_ents.Base.{
  ℕ, zero, suc, ◌+◌, Bytes, codes, bytes_eq, bytes_eq_sound, Bool, true, false, ◌&&◌, List, [], ◌∷◌,
  ◌++◌, none, some, if◌then◌else◌, ◌==◌, length, take, drop, ◌≡◌, refl, ap, sym, ◌∙◌, Bool-cases,
  inl, inr, arith,
}
use git_ents.Anchor.Types.{Anchor, modification, Hunk, Repo}
use git_ents.Anchor.Capture.{concat}
use git_ents.Anchor.Range.Diff.{IsDiff, no_more, next}
use git_ents.Anchor.Project.Shown.{nothing, tells, changed, Keeps, IsHonest}
use git_ents.Anchor.Project.Bounds.{IsSplitting}

abbrev glue : ℕ → List Bytes → List Bytes
glue c [] = (c ∷ []) ∷ []
glue c (l ∷ ls) = (c ∷ l) ∷ ls

-- A line ends after a newline.
abbrev pub split_lines : Bytes → List Bytes
split_lines [] = []
split_lines (c ∷ s) = let rest = split_lines s in if c == 10 then (c ∷ []) ∷ rest else glue c rest

data Terminated : Bytes → Type 0 where
  newline : Terminated (10 ∷ [])
  then_byte : {c : ℕ} {l : Bytes} → (c == 10) ≡ false → Terminated l → Terminated (c ∷ l)

data Open : Bytes → Type 0 where
  one : {c : ℕ} → (c == 10) ≡ false → Open (c ∷ [])
  more : {c : ℕ} {l : Bytes} → (c == 10) ≡ false → Open l → Open (c ∷ l)

data Lines : List Bytes → Type 0 where
  no_line : Lines []
  last_line : {l : Bytes} → Open l → Lines (l ∷ [])
  line : {l : Bytes} {ls : List Bytes} → Terminated l → Lines ls → Lines (l ∷ ls)

glue-Lines : (c : ℕ) {ls : List Bytes} → (c == 10) ≡ false → Lines ls → Lines (glue c ls)
glue-Lines c e no_line = last_line (one e)
glue-Lines c e (last_line o) = last_line (more e o)
glue-Lines c e (line t r) = line (then_byte e t) r

split_lines-Lines : (s : Bytes) → Lines (split_lines s)
split_lines-Lines [] = no_line
split_lines-Lines (c ∷ s) = elim (Bool-cases (c == 10)) [
  | inl e ↦ let same : c ≡ 10 = ground arith in rw same (line newline (split_lines-Lines s))
  | inr e ↦ rw e (glue-Lines c e (split_lines-Lines s))
]

take-Lines : {ls : List Bytes} (n : ℕ) → Lines ls → Lines (take n ls)
take-Lines zero r = no_line
take-Lines (suc n) no_line = no_line
take-Lines (suc zero) (last_line o) = last_line o
take-Lines (suc (suc n)) (last_line o) = last_line o
take-Lines (suc n) (line t r) = line t (take-Lines n r)

drop-Lines : {ls : List Bytes} (n : ℕ) → Lines ls → Lines (drop n ls)
drop-Lines zero r = r
drop-Lines (suc n) no_line = no_line
drop-Lines (suc zero) (last_line o) = no_line
drop-Lines (suc (suc n)) (last_line o) = no_line
drop-Lines (suc n) (line t r) = drop-Lines n r

split_lines-Terminated :
    {l : Bytes} → Terminated l → (s : Bytes) → split_lines (l ++ s) ≡ l ∷ split_lines s
split_lines-Terminated newline s = refl
split_lines-Terminated (then_byte e t) s = rw (e, split_lines-Terminated t s) refl

split_lines-Open : {l : Bytes} → Open l → split_lines (l ++ []) ≡ l ∷ []
split_lines-Open (one e) = rw e refl
split_lines-Open (more e o) = rw (e, split_lines-Open o) refl

split_lines-concat : {ls : List Bytes} → Lines ls → split_lines (concat ls) ≡ ls
split_lines-concat no_line = refl
split_lines-concat (last_line o) = split_lines-Open o
split_lines-concat (line {l} {ls} t r) =
    split_lines-Terminated t (concat ls) ∙ ap (λ rest. l ∷ rest) (split_lines-concat r)

pub split_lines-IsSplitting : IsSplitting split_lines
split_lines-IsSplitting = record {
  again = λ text first count.
      split_lines-concat (take-Lines count (drop-Lines first (split_lines-Lines text)));
  empty = refl;
}

abbrev same_lines : List Bytes → List Bytes → Bool
same_lines [] [] = true
same_lines (l ∷ ls) (m ∷ ms) = bytes_eq l m && same_lines ls ms
same_lines _ _ = false

same_lines_sound : (ls ms : List Bytes) → same_lines ls ms ≡ true → ls ≡ ms
same_lines_sound [] [] h = refl
same_lines_sound [] (m ∷ ms) h = cc
same_lines_sound (l ∷ ls) [] h = cc
same_lines_sound (l ∷ ls) (m ∷ ms) h = ground (arith, bytes_eq_sound l m, same_lines_sound ls ms)

abbrev replaced : List Bytes → List Bytes → List Hunk
replaced old new =
    record { before_start = 0; before_end = length old; after_start = 0; after_end = length new }
    ∷ []

-- It sees a line that was put on top; all else is a replacement of the whole text.
abbrev pub lines_diff : List Bytes → List Bytes → List Hunk
lines_diff old [] = replaced old []
lines_diff old (l ∷ new) =
    if same_lines old new
    then record { before_start = 0; before_end = 0; after_start = 0; after_end = 1 } ∷ []
    else replaced old (l ∷ new)

drop-all : {A : Type 0} (xs : List A) → drop (length xs) xs ≡ []
drop-all [] = refl
drop-all (x ∷ xs) = drop-all xs

replaced-IsDiff : (old new : List Bytes) → IsDiff old new 0 0 (replaced old new)
replaced-IsDiff old new =
    next 0 refl refl refl (omega arith) (omega arith) (omega arith) (omega arith)
      (no_more (omega arith) (omega arith) (drop-all old ∙ sym (drop-all new)))

lines_diff-IsDiff : (old new : List Bytes) → IsDiff old new 0 0 (lines_diff old new)
lines_diff-IsDiff old [] = replaced-IsDiff old []
lines_diff-IsDiff old (l ∷ new) = elim (Bool-cases (same_lines old new)) [
  | inr e ↦ rw e (replaced-IsDiff old (l ∷ new))
  | inl e ↦ rw e (
      next 0 refl refl refl (omega arith) (omega arith) (omega arith) (omega arith)
        (no_more (omega arith) (omega arith) (same_lines_sound old new e)))
]

abbrev pub path : Bytes
path = codes "f"

-- Commit 1 has the file "a, b" as blob 20, and commit 2 has "x, a, b" as blob 21.
abbrev pub repo : Repo
repo = record {
  rev_parse_single = λ r. if bytes_eq r (codes "one") then some 1 else some 2;
  peel_to_commit = λ id. some id;
  tree_of = λ c. some (c + 10);
  lookup = λ tree p.
      if bytes_eq p (codes "f")
      then some (some (record { is_blob = true; object_id = tree + 9 }))
      else some none;
  find_blob = λ id.
      if id == 20
      then some (codes "a\nb\n")
      else if id == 21
      then some (codes "x\na\nb\n")
      else none;
  has_object = λ _. true;
  diff_trees = λ a b. if b == 12 then some (modification (codes "f") 21 true ∷ []) else none;
  workdir = none;
  hex = λ _. [];
  lossy = λ s. s;
  split_lines = split_lines;
  tokens = split_lines;
  hunks = λ old new. lines_diff (split_lines old) (split_lines new);
}

pub repo-Keeps : (anchor : Anchor) → Keeps repo repo anchor
repo-Keeps anchor = record {
  blob = refl;
  commit = λ c h. cc h;
  tree = λ t h. h;
  entry = λ t h. refl;
}

pub repo-IsHonest : IsHonest repo
unfolding bytes_eq
repo-IsHonest = record {
  hunks = λ old new. lines_diff-IsDiff (split_lines old) (split_lines new);
  diffs = λ a b changes h. elim (Bool-cases (b == 12)) [
    | inr e ↦ (let wrong : none ≡ some changes = rw e at h in cc)
    | inl e ↦
        let tree : b ≡ 12 = ground arith in
        let same : changes ≡ modification (codes "f") 21 true ∷ [] = ground arith in
        rw (same, tree) (tells (changed refl) nothing)
  ];
}
