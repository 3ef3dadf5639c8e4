-- ===== src/Anchor/Types.antt =====
-- The types of crates/kernel/ents-anchor/src/anchor.rs, projection.rs and error.rs, and what the code
-- asks of a repository through gitoxide.
use git_ents.Base.{ℕ, Bytes, Bool, List, Option, Result}
use git_ents.Substrate.Refs.{Oid}

-- Lines from `start` to `end`, both included, the first line being 1.
pub record LineRange : Type 0 where
  pub start : ℕ
  pub end : ℕ

pub record Anchor : Type 0 where
  pub commit : Oid
  pub path : Bytes
  pub blob : Oid
  pub lines : Option LineRange
  pub content : Bytes
  pub context : Bytes

pub data Projection : Type 0 where
  current deleted : Projection
  relocated : Bytes → Option LineRange → Projection
  outdated : Bytes → Projection

-- The texts that gitoxide gives with an error are left out.
pub data AnchorError : Type 0 where
  resolve : Bytes → AnchorError
  object diff no_working_tree codec : AnchorError
  missing_path : Oid → Bytes → AnchorError
  lines_out_of_range : Bytes → ℕ → ℕ → ℕ → AnchorError
  anchor_commit_missing : Oid → AnchorError
  unknown_binding_shape : Oid → List Bytes → AnchorError

abbrev pub Fallible : Type 0 → Type 0
Fallible A = Result AnchorError A

pub record Entry : Type 0 where
  pub is_blob : Bool
  pub object_id : Oid

-- `Change` of gitoxide's diff of two trees; an addition, and a copy, are `other`.
pub data Change : Type 0 where
  deletion : Bytes → Change
  modification : Bytes → Oid → Bool → Change
  rename : Bytes → Bytes → Oid → Bool → Change
  other : Change

-- Half-open ranges of lines, from 0.
pub record Hunk : Type 0 where
  pub before_start : ℕ
  pub before_end : ℕ
  pub after_start : ℕ
  pub after_end : ℕ

-- What the file system has at a path of the working tree.
pub data Found : Type 0 where
  absent no_file unreadable : Found
  file : Bytes → Found

-- A repository, as far as gitoxide shows it, with the text functions of bstr and imara-diff.
pub record Repo : Type 0 where
  -- `rev_parse_single`, and the peeling of an object to a commit
  pub rev_parse_single : Bytes → Option Oid
  pub peel_to_commit : Oid → Option Oid
  -- the tree of a commit, and a path in a tree, which may fail to be read
  pub tree_of : Oid → Option Oid
  pub lookup : Oid → Bytes → Option (Option Entry)
  pub find_blob : Oid → Option Bytes
  pub has_object : Oid → Bool
  pub diff_trees : Oid → Oid → Option (List Change)
  -- the working tree, when there is one
  pub workdir : Option (Bytes → Found)
  pub hex : Oid → Bytes
  pub lossy : Bytes → Bytes
  -- `lines_with_terminator`
  pub split_lines : Bytes → List Bytes
  -- the tokens of `InternedInput`, and the hunks of `Diff::compute`
  pub tokens : Bytes → List Bytes
  pub hunks : Bytes → Bytes → List Hunk
