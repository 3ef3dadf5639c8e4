-- ===== src/Anchor/Project/Shown.antt =====
-- What an exact projection says of the tree that it projects to.
use git_ents.Base.{
  Bytes, bytes_eq, bytes_eq_sound, Bool, true, false, List, [], ◌∷◌, Option, none, some, ok,
  >>=-eq-ok, if◌then◌else◌, ◌==◌, ◌≡◌, ◌⊎◌, refl, subst, ap, sym, ◌∙◌, Bool-cases, Option-cases,
  inl, inr, arith,
}
use git_ents.Substrate.Refs.{Oid}
use git_ents.Anchor.Types.{
  LineRange, Anchor, Projection, current, deleted, relocated, outdated, AnchorError, object,
  missing_path, resolve, diff, Entry, Change, deletion, modification, rename, other, Repo,
}
use git_ents.Anchor.Capture.{
  required, resolve_commit, read_blob, capture, commit_at, only_blob, check_lines,
}
use git_ents.Anchor.Range.{map_range}
use git_ents.Anchor.Range.Diff.{IsDiff, lines_in}
use git_ents.Anchor.Range.Moved.{map_range-Moves}
use git_ents.Anchor.Project.{
  is_current, Destination, gone, untouched, at, find_destination, mapped, in_changed,
  at_destination, project_diff, project_exact,
}

pub required-ok :
    {A : Type 0} (e : AnchorError) (o : Option A) {x : A} → required e o ≡ ok x → o ≡ some x
required-ok e none h = cc
required-ok e (some y) h = ground arith

pub read_blob-ok :
    (repo : Repo) (id : Oid) {content : Bytes}
    → read_blob repo id ≡ ok content
    → repo.find_blob id ≡ some content
unfolding read_blob
read_blob-ok repo id h = required-ok object (repo.find_blob id) h

module _ (repo : Repo) (tree : Oid) where
  abbrev pub Holds : Bytes → Oid → Bool → Type 0
  Holds path id is_blob =
      repo.lookup tree path ≡ some (some (record { is_blob = is_blob; object_id = id }))

  -- The path that a projection gives for an entry's own: the same, or its lossy text.
  abbrev pub GivenAs : Bytes → Bytes → Type 0
  GivenAs own path = (path ≡ own) ⊎ (path ≡ repo.lossy own)

  -- What a change says of the tree after it, `a` being the tree before it. A path may be deleted
  -- where it goes from a file to a directory, or from a directory to a file.
  pub data Tells (a : Oid) : Change → Type 0 where
    went :
        {path : Bytes}
        → ((old new : Oid)
            → repo.lookup a path ≡ some (some (record { is_blob = true; object_id = old }))
            → ¬ Holds path new true)
        → Tells a (deletion path)
    changed :
        {path : Bytes} {id : Oid} {b : Bool} → Holds path id b → Tells a (modification path id b)
    renamed :
        {source path : Bytes} {id : Oid} {b : Bool}
        → Holds path id b
        → Tells a (rename source path id b)
    elsewhere : Tells a other

  pub data AllTell (a : Oid) : List Change → Type 0 where
    nothing : AllTell a []
    tells : {c : Change} {cs : List Change} → Tells a c → AllTell a cs → AllTell a (c ∷ cs)

  -- What a projection of the anchor shows of the tree.
  pub data Shows (anchor : Anchor) : Projection → Type 0 where
    as_it_was : Holds anchor.path anchor.blob true → Shows anchor current
    not_there : ((id : Oid) → ¬ Holds anchor.path id true) → Shows anchor deleted
    whole_file :
        {own path : Bytes} {id : Oid}
        → GivenAs own path
        → Holds own id true
        → anchor.lines ≡ none
        → Shows anchor (relocated path none)
    same_lines :
        {own path content : Bytes} {id : Oid} {range moved : LineRange}
        → GivenAs own path
        → Holds own id true
        → repo.find_blob id ≡ some content
        → anchor.lines ≡ some range
        → lines_in moved (repo.tokens content) ≡ lines_in range (repo.tokens anchor.content)
        → Shows anchor (relocated path (some moved))
    unplaced :
        {own path : Bytes} {id : Oid} {b : Bool}
        → GivenAs own path
        → Holds own id b
        → Shows anchor (outdated path)

  module _ (anchor : Anchor) where
    data Leads : Destination → Type 0 where
      to_nothing : ((id : Oid) → ¬ Holds anchor.path id true) → Leads gone
      to_nowhere : Leads untouched
      to :
          {own path : Bytes} {id : Oid} {b : Bool}
          → GivenAs own path
          → Holds own id b
          → Leads (at path id b)

    find_destination-Leads :
        {a old : Oid}
        → repo.lookup a anchor.path ≡ some (some (record { is_blob = true; object_id = old }))
        → (changes : List Change) → AllTell a changes
        → Leads (find_destination anchor.path repo.lossy changes)
    unfolding find_destination
    find_destination-Leads was [] nothing = to_nowhere
    find_destination-Leads {old = old} was (deletion path ∷ cs) (tells (went h) rest) =
        elim (Bool-cases (bytes_eq path anchor.path)) [
          | inl e ↦
              let same = bytes_eq_sound path anchor.path e in
              rw (find_destination, e)
                (to_nothing (λ new. rw same at (h old new (rw (← same) at was))))
          | inr e ↦ rw (find_destination, e) (find_destination-Leads was cs rest)
        ]
    find_destination-Leads {old = old} was (modification path id b ∷ cs) (tells (changed h) rest) =
        elim (Bool-cases (bytes_eq path anchor.path)) [
          | inl e ↦
              let same = bytes_eq_sound path anchor.path e in
              rw (find_destination, e) (to (inl refl) (rw (← same) h))
          | inr e ↦ rw (find_destination, e) (find_destination-Leads was cs rest)
        ]
    find_destination-Leads {old = old} was (rename source path id b ∷ cs) (tells (renamed h) rest) =
        elim (Bool-cases (bytes_eq source anchor.path)) [
          | inl e ↦ rw (find_destination, e) (to (inr refl) h)
          | inr e ↦ rw (find_destination, e) (find_destination-Leads was cs rest)
        ]
    find_destination-Leads {old = old} was (other ∷ cs) (tells elsewhere rest) =
        find_destination-Leads was cs rest

    module _ (kept : repo.find_blob anchor.blob ≡ some anchor.content)
        (honest : (old new : Bytes)
          → IsDiff (repo.tokens old) (repo.tokens new) 0 0 (repo.hunks old new)) where
      in_changed-Shows :
          {own path : Bytes} {id : Oid} (lines : Option LineRange) {p : Projection}
          → anchor.lines ≡ lines
          → GivenAs own path
          → Holds own id true
          → in_changed repo anchor path id lines ≡ ok p
          → Shows anchor p
      in_changed-Shows {path = path} {id = id} none {p} e n h r =
          let same : p ≡ relocated path none = ground arith in rw same (whole_file n h e)
      in_changed-Shows {path = path} {id = id} (some range) {p} e n h r =
          let (new, f, g) = >>=-eq-ok (read_blob repo id) _ r in
          let result : p ≡ mapped path (map_range repo anchor.content new range) = ground arith in
          elim (Option-cases (map_range repo anchor.content new range)) [
            | inl m ↦ rw (result ∙ ap (mapped path) m) (unplaced n h)
            | inr (moved, m) ↦
                let lines =
                  map_range-Moves repo anchor.content new range moved (honest anchor.content new)
                    m in
                rw (result ∙ ap (mapped path) m)
                  (same_lines n h (read_blob-ok repo id f) e lines.same)
          ]

      placed-Shows :
          {own : Bytes} (path : Bytes) (id : Oid) (b : Bool) {p : Projection}
          → GivenAs own path
          → Holds own id b
          → at_destination repo anchor (at path id b) ≡ ok p
          → Shows anchor p
      unfolding at_destination
      placed-Shows path id false {p} n h r =
          let same : p ≡ outdated path = ground arith in rw same (unplaced n h)
      placed-Shows path id true {p} n h r = elim (Bool-cases (id == anchor.blob)) [
        | inr e ↦ in_changed-Shows anchor.lines refl n h (rw e at r)
        | inl e ↦
            let result : p ≡ relocated path anchor.lines = ground arith in
            let blob : id ≡ anchor.blob = ground arith in
            elim (Option-cases anchor.lines) [
              | inl l ↦ rw (result ∙ ap (relocated path) l) (whole_file n h l)
              | inr (range, l) ↦
                  rw (result ∙ ap (relocated path) l) (same_lines n h (rw blob kept) l refl)
            ]
      ]

      at_destination-Shows :
          {d : Destination} {p : Projection}
          → Leads d
          → at_destination repo anchor d ≡ ok p
          → Shows anchor p
      unfolding at_destination
      at_destination-Shows {p = p} (to_nothing h) r =
          let same : p ≡ deleted = ground arith in rw same (not_there h)
      at_destination-Shows to_nowhere r = cc
      at_destination-Shows (to {path = path} {id = id} {b = b} n h) r = placed-Shows path id b n h r

      module _
          (diffs : (a : Oid) (changes : List Change)
            → repo.diff_trees a tree ≡ some changes
            → AllTell a changes)
          (was : (commit a : Oid)
            → commit_at repo anchor.commit ≡ ok commit
            → repo.tree_of commit ≡ some a
            → (old : Oid) × (repo.lookup a anchor.path
                ≡ some (some (record { is_blob = true; object_id = old })))) where
        project_diff-Shows :
            {p : Projection} → project_diff repo anchor tree ≡ ok p → Shows anchor p
        unfolding project_diff
        project_diff-Shows {p} r = elim (Bool-cases (repo.has_object anchor.commit)) [
          | inr e ↦ (let wrong = rw e at r in cc)
          | inl e ↦
              let (commit, c, r1) = >>=-eq-ok (commit_at repo anchor.commit) _ (rw e at r) in
              let (a, t, r2) = >>=-eq-ok (required object (repo.tree_of commit)) _ r1 in
              let (changes, f, r3) = >>=-eq-ok (required diff (repo.diff_trees a tree)) _ r2 in
              at_destination-Shows
                (find_destination-Leads
                  (was commit a c (required-ok object (repo.tree_of commit) t)).1 changes
                  (diffs a changes (required-ok diff (repo.diff_trees a tree) f)))
                r3
        ]

        exact-Shows :
            (entry : Option Entry) {p : Projection}
            → repo.lookup tree anchor.path ≡ some entry
            → (if is_current anchor entry then ok current else project_diff repo anchor tree) ≡ ok p
            → Shows anchor p
        exact-Shows none h r = project_diff-Shows r
        exact-Shows (some e) {p} h r = elim (Bool-cases (is_current anchor (some e))) [
          | inr f ↦ project_diff-Shows (rw f at r)
          | inl f ↦
              let shape : e.is_blob ≡ true = ground arith in
              let blob : e.object_id ≡ anchor.blob = ground arith in
              let same : p ≡ current = ground arith in
              let there : Holds anchor.path e.object_id true =
                subst
                  (λ b.
                    repo.lookup tree anchor.path
                    ≡ some (some (record { is_blob = b; object_id = e.object_id })))
                  shape h in
              rw same (as_it_was (rw (← blob) there))
        ]

-- What gitoxide's diffs are for: a diff of trees tells of the second tree, and the hunks of two texts
-- leave out only lines that the texts share.
pub record IsHonest (repo : Repo) : Type 0 where
  pub hunks :
      (old new : Bytes) → IsDiff (repo.tokens old) (repo.tokens new) 0 0 (repo.hunks old new)
  pub diffs :
      (a b : Oid) (changes : List Change)
      → repo.diff_trees a b ≡ some changes
      → AllTell repo b a changes

-- What a repository still has of a captured anchor is what it was: the blob, and what it has of the
-- commit, of the commit's tree and of the entry at the path.
pub record Keeps (before repo : Repo) (anchor : Anchor) : Type 0 where
  pub blob : repo.find_blob anchor.blob ≡ before.find_blob anchor.blob
  pub commit : (c : Oid) → repo.peel_to_commit anchor.commit ≡ some c → c ≡ anchor.commit
  pub tree : (t : Oid) → repo.tree_of anchor.commit ≡ some t → before.tree_of anchor.commit ≡ some t
  pub entry :
      (t : Oid)
      → repo.tree_of anchor.commit ≡ some t
      → repo.lookup t anchor.path ≡ before.lookup t anchor.path

only_blob-some :
    (found : Option Entry) {e : Entry}
    → only_blob found ≡ some e
    → found ≡ some (record { is_blob = true; object_id = e.object_id })
only_blob-some none h = cc
only_blob-some (some f) h = ground arith

-- What a capture has read.
record Captured (before : Repo) (lines : Option LineRange) (anchor : Anchor) : Type 0 where
  content : before.find_blob anchor.blob ≡ some anchor.content
  range : anchor.lines ≡ lines
  tree : Oid
  of_commit : before.tree_of anchor.commit ≡ some tree
  stood :
      before.lookup tree anchor.path
      ≡ some (some (record { is_blob = true; object_id = anchor.blob }))

capture-Captured :
    (repo : Repo) (revision path : Bytes) (lines : Option LineRange) {anchor : Anchor}
    → capture repo revision path lines ≡ ok anchor
    → Captured repo lines anchor
unfolding capture
capture-Captured repo revision path lines {anchor} h =
    let (commit, _, h1) = >>=-eq-ok (resolve_commit repo revision) _ h in
    let (tree, t, h2) = >>=-eq-ok (required object (repo.tree_of commit)) _ h1 in
    let (found, l, h3) = >>=-eq-ok (required object (repo.lookup tree path)) _ h2 in
    let (entry, o, h4) = >>=-eq-ok (required (missing_path commit path) (only_blob found)) _ h3 in
    let (content, f, h5) = >>=-eq-ok (read_blob repo entry.object_id) _ h4 in
    let (_, _, h6) = >>=-eq-ok (check_lines repo content path lines) _ h5 in
    let blob : anchor.blob ≡ entry.object_id = ground arith in
    let kept : anchor.content ≡ content = ground arith in
    let of_commit : anchor.commit ≡ commit = ground arith in
    let at_path : anchor.path ≡ path = ground arith in
    let is_file =
      only_blob-some found (required-ok (missing_path commit path) (only_blob found) o) in
    let there : repo.lookup tree path ≡ some found = required-ok object (repo.lookup tree path) l in
    record {
      content = ap repo.find_blob blob ∙ read_blob-ok repo entry.object_id f ∙ ap some (sym kept);
      range = ground arith;
      tree = tree;
      of_commit = ap repo.tree_of of_commit ∙ required-ok object (repo.tree_of commit) t;
      stood = rw (at_path, blob) (there ∙ ap some is_file);
    }

-- An anchor that was captured is projected truthfully onto any commit of a repository that still has
-- its blob, and has what it still has of its commit as it was: a current anchor stands unchanged at
-- its path in that commit's tree; for a deleted one no file is there, be it that nothing is or a
-- directory; one relocated with lines stands at the path given, in a blob whose lines at the new
-- range are the captured lines; only an anchor of a whole file is relocated without lines, and a
-- file is at the path given; for an outdated one an entry is there. The path given is the entry's
-- own, or its lossy text.
pub project_exact-Shows :
    (before repo : Repo) (revision path target : Bytes) (lines : Option LineRange) (anchor : Anchor)
    (commit tree : Oid) (p : Projection)
    → IsHonest repo
    → capture before revision path lines ≡ ok anchor
    → Keeps before repo anchor
    → resolve_commit repo target ≡ ok commit
    → repo.tree_of commit ≡ some tree
    → project_exact repo anchor target ≡ ok p
    → Shows repo tree anchor p
unfolding project_exact commit_at
project_exact-Shows before repo revision path target lines anchor commit tree p honest c keeps e f
      h =
    let was = capture-Captured before revision path lines c in
    let h1 = rw (e, f) at h in
    let (entry, g, h2) = >>=-eq-ok (required object (repo.lookup tree anchor.path)) _ h1 in
    exact-Shows repo tree anchor (keeps.blob ∙ was.content) honest.hunks (λ a. honest.diffs a tree)
      (λ found a k t. (anchor.blob, stood_at was found a k t)) entry
      (required-ok object (repo.lookup tree anchor.path) g) h2
  where
    stood_at :
        Captured before lines anchor
        → (found a : Oid) → commit_at repo anchor.commit ≡ ok found
        → repo.tree_of found ≡ some a
        → repo.lookup a anchor.path
          ≡ some (some (record { is_blob = true; object_id = anchor.blob }))
    stood_at was found a k t =
        let same =
          keeps.commit found (
            required-ok (resolve (repo.hex anchor.commit)) (repo.peel_to_commit anchor.commit) k) in
        let own : repo.tree_of anchor.commit ≡ some a = rw same at t in
        let one : some was.tree ≡ some a = sym was.of_commit ∙ keeps.tree a own in
        let there : was.tree ≡ a = cc one in keeps.entry a own ∙ rw there at was.stood
