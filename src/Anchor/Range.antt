-- ===== src/Anchor/Range.antt =====
-- `map_range` of crates/kernel/ents-anchor/src/projection.rs: where a diff moves a range of lines.
pub mod Diff
pub mod Moved
use git_ents.Base.{
  ℕ, ◌+◌, ◌-◌, Bytes, Bool, List, [], ◌∷◌, Option, none, some, if◌then◌else◌, ltb, leb, length,
  checked_add, checked_sub,
}
use git_ents.Anchor.Types.{LineRange, Hunk, Repo}

-- The `?` operator on an `Option`.
infixl 5 ◌>>=?◌
abbrev pub ◌>>=?◌ : {A B : Type 0} → Option A → (A → Option B) → Option B
none >>=? rest = none
some x >>=? rest = rest x

-- The lines added and removed above the range, or `none` where a hunk touches it.
unfoldable pub shift : List Hunk → ℕ → ℕ → ℕ → ℕ → Option (ℕ × ℕ)
shift [] start end added removed = some (added, removed)
shift (h ∷ hs) start end added removed =
    let rest = checked_sub h.before_end h.before_start >>=? λ fewer.
    checked_add removed fewer >>=? λ removed'. checked_sub h.after_end h.after_start >>=? λ more.
    checked_add added more >>=? λ added'. shift hs start end added' removed' in
    if leb h.before_end start
    then rest
    else if leb end h.before_start
    then some (added, removed)
    else none

-- The closure `map`.
abbrev pub map_line : ℕ → ℕ → ℕ → Option ℕ
map_line added removed line = checked_add line added >>=? λ moved. checked_sub moved removed

abbrev pub map_ends : ℕ → ℕ → ℕ × ℕ → Option LineRange
map_ends start end (added, removed) = map_line added removed start >>=? λ s.
    checked_add s 1 >>=? λ first.
    map_line added removed end >>=? λ last. some (record { start = first; end = last })

unfoldable pub map_range : Repo → Bytes → Bytes → LineRange → Option LineRange
unfolding shift
map_range repo old new range = checked_sub range.start 1 >>=? λ start.
    if leb range.end start
    then none
    else if ltb (length (repo.tokens old)) range.end
    then none
    else shift (repo.hunks old new) start range.end 0 0 >>=? map_ends start range.end
