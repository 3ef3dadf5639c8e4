-- ===== src/Anchor/Project/Bounds.antt =====
-- The range that `project_from_context` gives for a captured anchor lies within the file.
use git_ents.Base.{
  ℕ, zero, suc, ◌+◌, ◌-◌, ◌≤◌, ◌<◌, Bytes, List, [], ◌∷◌, true, Option, none, some, ok, >>=-eq-ok,
  length, take, drop, checked_sub, min, u64_mod, ◌≡◌, refl, sym, ap, ◌∙◌, Bool-cases, inl, inr,
  arith, subst,
}
use git_ents.Substrate.Refs.{Oid}
use git_ents.Anchor.Types.{
  LineRange, Anchor, relocated, object, missing_path, lines_out_of_range, Entry, Repo,
}
use git_ents.Anchor.Capture.{
  required, resolve_commit, read_blob, lines_of, check_lines, only_blob, concat, slice, or_empty,
  context_margin, context_start, context_end, capture_context, capture,
}
use git_ents.Anchor.Range.Diff.{length-drop}
use git_ents.Anchor.Project.{
  search_window, in_context, entry_in_context, window_range, project_from_context,
}
use git_ents.Anchor.Project.Shown.{required-ok, read_blob-ok}
use git_ents.Anchor.Project.Window.{IsFound, search_window-IsFound}

-- `lines_with_terminator` gives back lines that it gave before, once they are put together.
pub record IsSplitting (split_lines : Bytes → List Bytes) : Type 0 where
  pub again :
      (text : Bytes) (first count : ℕ)
      → split_lines (concat (take count (drop first (split_lines text))))
        ≡ take count (drop first (split_lines text))
  pub empty : split_lines [] ≡ []

-- A range that `lines_of` accepts.
pub record IsWithin (lines : List Bytes) (range : LineRange) : Type 0 where
  pub positive : 1 ≤ range.start
  pub last : range.end ≤ length lines

lines_of-IsWithin :
    (repo : Repo) (content path : Bytes) (range : LineRange) {text : Bytes}
    → lines_of repo content path range ≡ ok text
    → IsWithin (repo.split_lines content) range
unfolding lines_of
lines_of-IsWithin repo content path range h =
    let all = repo.split_lines content in
    let out = lines_out_of_range path range.start range.end (length all) in
    let (first, f, h1) = >>=-eq-ok (required out (checked_sub range.start 1)) _ h in
    let (found, g, _) = >>=-eq-ok (required out (slice all first range.end)) _ h1 in
    let sub = required-ok out (checked_sub range.start 1) f in
    let cut = required-ok out (slice all first range.end) g in
    record { positive = ground arith; last = ground arith }

length-take : {A : Type 0} (n : ℕ) (xs : List A) → n ≤ length xs → length (take n xs) ≡ n
length-take zero xs h = refl
length-take (suc n) [] h = absurd (omega arith)
length-take (suc n) (x ∷ xs) h = omega (arith, length-take n xs (omega (arith, h)))

-- The context has the range, and the margin before it.
context_length :
    (split_lines : Bytes → List Bytes) (content : Bytes) (range : LineRange)
    → IsSplitting split_lines
    → IsWithin (split_lines content) range
    → range.start ≤ range.end
    → range.end < u64_mod
    → min context_margin (range.start - 1) + (range.end - (range.start - 1))
      ≤ length (split_lines (capture_context split_lines content (some range)))
unfolding capture_context
context_length split_lines content range split w ordered small =
    let all = split_lines content in
    let s = context_start range in
    let e = context_end (length all) range in
    let positive = w.positive in
    let last = w.last in
    let low : s + min context_margin (range.start - 1) ≡ range.start - 1 = ground arith in
    let high : range.end ≤ e = ground arith in
    let within : e ≤ length all = ground arith in
    let cut : slice all s e ≡ some (take (e - s) (drop s all)) = ground arith in
    let left = length-drop s all in
    let long = length-take (e - s) (drop s all) (omega arith) in
    let part = take (e - s) (drop s all) in
    let same : split_lines (concat (or_empty (slice all s e))) ≡ part =
      ap (λ o. split_lines (concat (or_empty o))) cut ∙ split.again content s (e - s) in
    let size = ap (λ (ls : List Bytes). length ls) same in omega arith

window_range-fits :
    (range : LineRange) (at window size : ℕ)
    → 1 ≤ range.start
    → range.start ≤ range.end
    → min context_margin (range.start - 1) + (range.end - (range.start - 1)) ≤ window
    → at + window ≤ size
    → size + 1 < u64_mod
    → (1 ≤ (window_range range at).start)
      × ((window_range range at).start ≤ (window_range range at).end)
      × ((window_range range at).end ≤ size)
      × ((window_range range at).end + range.start ≡ range.end + (window_range range at).start)
window_range-fits range at window size p o w f s =
    (ground arith, ground arith, ground arith, ground arith)

module _ (before repo : Repo) (revision path target q : Bytes) (range moved : LineRange)
    (anchor : Anchor) where
  captured :
      capture before revision path (some range) ≡ ok anchor
      → IsWithin (before.split_lines anchor.content) range
        × (anchor.lines ≡ some range)
        × (anchor.context ≡ capture_context before.split_lines anchor.content (some range))
  unfolding capture
  captured h =
      let (commit, _, h1) = >>=-eq-ok (resolve_commit before revision) _ h in
      let (tree, _, h2) = >>=-eq-ok (required object (before.tree_of commit)) _ h1 in
      let (found, _, h3) = >>=-eq-ok (required object (before.lookup tree path)) _ h2 in
      let (entry, _, h4) = >>=-eq-ok (required (missing_path commit path) (only_blob found)) _ h3 in
      let (content, f, h5) = >>=-eq-ok (read_blob before entry.object_id) _ h4 in
      let (_, c, h6) = >>=-eq-ok (check_lines before content path (some range)) _ h5 in
      let (_, l, _) = >>=-eq-ok (lines_of before content path range) _ c in
      let kept : anchor.content ≡ content = ground arith in
      let within = lines_of-IsWithin before content path range l in
      let context : anchor.context ≡ capture_context before.split_lines content (some range) =
        ground arith in
      (
        subst (λ text. IsWithin (before.split_lines text) range) (sym kept) within,
        ground arith,
        context ∙ ap (λ text. capture_context before.split_lines text (some range)) (sym kept),
      )

  -- The file at the anchored path in the target's tree: the range is a part of it, chosen by the
  -- lines around it.
  pub record Fits : Type 0 where
    pub commit : Oid
    pub of_target : resolve_commit repo target ≡ ok commit
    pub tree : Oid
    pub of_commit : repo.tree_of commit ≡ some tree
    pub id : Oid
    pub file :
        repo.lookup tree anchor.path ≡ some (some (record { is_blob = true; object_id = id }))
    pub unmoved : q ≡ anchor.path
    pub content : Bytes
    pub stored : repo.find_blob id ≡ some content
    pub first : 1 ≤ moved.start
    pub ordered : moved.start ≤ moved.end
    pub last : moved.end ≤ length (repo.split_lines content)
    pub as_long : moved.end + range.start ≡ range.end + moved.start
    pub found :
        IsFound
          (repo.split_lines content)
          (repo.split_lines anchor.context)
          anchor.path
          q
          range
          moved

  from_entry :
      (entry : Option Entry)
      → anchor.lines ≡ some range
      → entry_in_context repo anchor entry ≡ ok (relocated q (some moved))
      → (id : Oid) × (content : Bytes) × (entry ≡ some (record { is_blob = true; object_id = id }))
        × (repo.find_blob id ≡ some content)
        × IsFound
            (repo.split_lines content)
            (repo.split_lines anchor.context)
            anchor.path
            q
            range
            moved
  from_entry none l h = cc
  from_entry (some e) l h = elim (Bool-cases e.is_blob) [
    | inr f ↦ (let wrong = rw f at h in cc)
    | inl f ↦
        let h1 : in_context repo anchor (some range) e.object_id ≡ ok (relocated q (some moved)) =
          rw (f, l) at h in
        let (content, g, h2) = >>=-eq-ok (read_blob repo e.object_id) _ h1 in
        let found : search_window anchor.path range (repo.split_lines content)
              (repo.split_lines anchor.context)
            ≡ relocated q (some moved) =
          ground arith in
        (
          e.object_id,
          content,
          ap (λ b. some (record { is_blob = b; object_id = e.object_id })) f,
          read_blob-ok repo e.object_id g,
          search_window-IsFound _ _ anchor.path range q moved found,
        )
  ]

  -- A range that the fuzzy fallback gives for a captured range of lines lies within the blob at the
  -- anchored path: it begins at line 1 or later, ends at the blob's last line or before, and has as
  -- many lines as were captured; it stands in the first of the windows that agree best with the
  -- captured context, at least half of which is found there. The captured range is not empty, and
  -- the numbers of lines, and the next number, fit a `u64`.
  pub project_from_context-Fits :
      IsSplitting repo.split_lines
      → before.split_lines ≡ repo.split_lines
      → ((id : Oid) (content : Bytes)
          → repo.find_blob id ≡ some content
          → length (repo.split_lines content) + 1 < u64_mod)
      → range.start ≤ range.end
      → range.end < u64_mod
      → capture before revision path (some range) ≡ ok anchor
      → project_from_context repo anchor target ≡ ok (relocated q (some moved))
      → Fits
  unfolding project_from_context
  project_from_context-Fits split shared sized ordered small c h =
      let (within, lines, context) = captured c in
      let (commit, r, h1) = >>=-eq-ok (resolve_commit repo target) _ h in
      let (tree, t, h2) = >>=-eq-ok (required object (repo.tree_of commit)) _ h1 in
      let (entry, g, h3) = >>=-eq-ok (required object (repo.lookup tree anchor.path)) _ h2 in
      let (id, content, file, stored, found) = from_entry entry lines h3 in
      let within' =
        subst (λ (split_lines : Bytes → List Bytes). IsWithin (split_lines anchor.content) range)
          shared within in
      let context' : anchor.context ≡ capture_context repo.split_lines anchor.content (some range) =
        context
        ∙ ap
            (λ (split_lines : Bytes → List Bytes).
              capture_context split_lines anchor.content (some range))
            shared in
      let long = context_length repo.split_lines anchor.content range split within' ordered small in
      let whole = ap (λ text. length (repo.split_lines text)) context' in
      let (a, b, e, f) =
        window_range-fits range found.at (length (repo.split_lines anchor.context))
          (length (repo.split_lines content)) within'.positive ordered (omega (arith, long, whole))
          found.fits (sized id content stored) in
      let starts = ap (λ (r : LineRange). r.start) found.placed in
      let ends = ap (λ (r : LineRange). r.end) found.placed in
      record {
        commit = commit;
        of_target = r;
        tree = tree;
        of_commit = required-ok object (repo.tree_of commit) t;
        id = id;
        file = required-ok object (repo.lookup tree anchor.path) g ∙ ap some file;
        unmoved = found.same;
        content = content;
        stored = stored;
        first = omega (arith, starts, a);
        ordered = omega (arith, starts, ends, b);
        last = omega (arith, ends, e);
        as_long = omega (arith, starts, ends, f);
        found = found;
      }
