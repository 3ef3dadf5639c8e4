-- ===== src/Anchor/Range/Moved.antt =====
-- Where `map_range` puts a range, the same lines stand.
use git_ents.Base.{
  ℕ, subst, ◌+◌, ◌-◌, ◌≤◌, ◌<◌, ◌≡◌, refl, ap, sym, ◌∙◌, Bytes, List, Option, none, some, ltb, leb,
  length, take, drop, checked_add, checked_sub, fits, u64_mod, Bool-cases, inl, inr, arith,
}
use git_ents.Anchor.Types.{LineRange, Hunk, Repo}
use git_ents.Anchor.Range.Diff.{IsDiff, lines_in, no_more, next, drop_more, part_same, length-drop}
use git_ents.Anchor.Range.{◌>>=?◌, shift, map_line, map_ends, map_range}

>>=?-some :
    {A B : Type 0} (m : Option A) (rest : A → Option B) {b : B}
    → (m >>=? rest) ≡ some b
    → (a : A) × (m ≡ some a) × (rest a ≡ some b)
>>=?-some none rest h = cc
>>=?-some (some a) rest h = (a, refl, h)

fits-some : (n : ℕ) {m : ℕ} → fits n ≡ some m → m ≡ n
fits-some n {m} h = elim (Bool-cases (ltb n u64_mod)) [
  | inl e ↦ (let s : some n ≡ some m = rw e at h in ground arith)
  | inr e ↦ (let s : none ≡ some m = rw e at h in cc)
]

checked_sub-some : (a b : ℕ) {m : ℕ} → checked_sub a b ≡ some m → (m ≡ a - b) × (b ≤ a)
checked_sub-some a b h = ground arith

module _ {ℓ} {A : Type ℓ} (old new : List A) (start end : ℕ) where
  -- The lines of the range, and those that stand at the shifted place.
  pub record Stays (added removed : ℕ) : Type ℓ where
    pub low : removed ≤ start + added
    pub high : end + added - removed ≤ length new
    pub same :
        take (end - start) (drop start old)
        ≡ take (end - start) (drop (start + added - removed) new)

  -- Both ranges begin equally far into parts that agree.
  stays :
      (i j added removed : ℕ)
      → i ≤ start
      → i + added ≡ j + removed
      → end + added - removed ≤ length new
      → take (end - start) (drop (start - i) (drop i old))
        ≡ take (end - start) (drop (start - i) (drop j new))
      → Stays added removed
  stays i j added removed h balance high e =
      let from_i : i + (start - i) ≡ start = omega (arith, h) in
      let from_j : j + (start - i) ≡ start + added - removed = omega (arith, h, balance) in
      record {
        low = omega (arith, h, balance);
        high = high;
        same =
            ap (λ n. take (end - start) (drop n old)) (sym from_i)
            ∙ ap (λ xs. take (end - start) xs) (sym (drop_more i (start - i) old))
            ∙ e
            ∙ ap (λ xs. take (end - start) xs) (drop_more j (start - i) new)
            ∙ ap (λ n. take (end - start) (drop n new)) from_j;
      }

  shift-Stays :
      {i j : ℕ} {hs : List Hunk} (added removed : ℕ) {a r : ℕ}
      → IsDiff old new i j hs
      → i ≤ start
      → start < end
      → end ≤ length old
      → i + added ≡ j + removed
      → shift hs start end added removed ≡ some (a, r)
      → Stays a r
  unfolding shift
  shift-Stays {i} {j} added removed {a} {r} (no_more p q e) h b c balance s =
      let long = ap length e in
      let left = length-drop i old in
      let right = length-drop j new in
      let ea : a ≡ added = ground arith in
      let er : r ≡ removed = ground arith in
      rw ea (
        rw er (
          stays i j added removed h balance (omega (arith, long, left, right, p, q, balance, c))
            (ap (λ xs. take (end - start) (drop (start - i) xs)) e)))
  shift-Stays {i} {j} added removed {a} {r} (next {h = u} {hs} k bs ns e p q m n d) h b c balance
        s =
      elim (Bool-cases (leb u.before_end start)) [
        | inl above ↦
            let (less, f, s1) =
              >>=?-some (checked_sub u.before_end u.before_start) _ (rw above at s) in
            let (removed2, g, s2) = >>=?-some (checked_add removed less) _ s1 in
            let (plus, f', s3) = >>=?-some (checked_sub u.after_end u.after_start) _ s2 in
            let (added2, g', s4) = >>=?-some (checked_add added plus) _ s3 in
            let fewer = checked_sub-some u.before_end u.before_start f in
            let more = checked_sub-some u.after_end u.after_start f' in
            let removed' = fits-some (removed + less) g in
            let added' = fits-some (added + plus) g' in
            shift-Stays added2 removed2 d (ground arith) b c
              (omega (arith, fewer, more, removed', added', bs, ns, p, q, balance)) s4
        | inr t ↦ elim (Bool-cases (leb end u.before_start)) [
          | inl below ↦
              let found : some (added, removed) ≡ some (a, r) = rw (t, below) at s in
              let ea : a ≡ added = ground arith in
              let er : r ≡ removed = ground arith in
              let reach : end ≤ u.before_start = ground arith in
              rw ea (
                rw er (
                  stays i j added removed h balance (omega (arith, reach, bs, ns, balance, q, n)) (
                    part_same k (start - i) (end - start) (drop i old) (drop j new)
                      (omega (arith, reach, bs, h, b)) e)))
          | inr inside ↦ (let wrong : none ≡ some (a, r) = rw (t, inside) at s in cc)
        ]
      ]

-- A range of lines of the new text that has the old range's lines.
pub record Moves {ℓ} {A : Type ℓ} (old new : List A) (range moved : LineRange) : Type ℓ where
  pub first : 1 ≤ moved.start
  pub ordered : moved.start ≤ moved.end
  pub last : moved.end ≤ length new
  pub as_long : moved.end + range.start ≡ range.end + moved.start
  pub same : lines_in moved new ≡ lines_in range old

map_line-some :
    (added removed line : ℕ) {m : ℕ}
    → map_line added removed line ≡ some m
    → m ≡ line + added - removed
map_line-some added removed line h =
    let (moved, f, g) = >>=?-some (checked_add line added) _ h in
    let (e, _) = checked_sub-some moved removed g in
    e ∙ ap (λ n. n - removed) (fits-some (line + added) f)

map_ends-Moves :
    {A : Type 0} (old new : List A) (range : LineRange) (a r : ℕ) {moved : LineRange}
    → 1 ≤ range.start
    → range.start ≤ range.end
    → Stays old new (range.start - 1) range.end a r
    → map_ends (range.start - 1) range.end (a, r) ≡ some moved
    → Moves old new range moved
map_ends-Moves old new range a r {moved} p q t h =
    let (s, f, h1) = >>=?-some (map_line a r (range.start - 1)) _ h in
    let (first, g, h2) = >>=?-some (checked_add s 1) _ h1 in
    let (last, k, h3) = >>=?-some (map_line a r range.end) _ h2 in
    let begins = map_line-some a r (range.start - 1) f in
    let one = fits-some (s + 1) g in
    let ends = map_line-some a r range.end k in
    let result : moved ≡ record { start = first; end = last } = ground arith in
    let low = t.low in
    let span : last - (first - 1) ≡ range.end - (range.start - 1) = omega arith in
    let from : first - 1 ≡ range.start - 1 + a - r = omega arith in
    rw result (record {
      first = omega arith;
      ordered = omega arith;
      last = omega (arith, t.high);
      as_long = omega arith;
      same = rw (span, from) (sym t.same);
    })

module _ (repo : Repo) (old new : Bytes) (range moved : LineRange) where
  from_start :
      (start : ℕ)
      → start ≡ range.start - 1
      → 1 ≤ range.start
      → start < range.end
      → range.end ≤ length (repo.tokens old)
      → IsDiff (repo.tokens old) (repo.tokens new) 0 0 (repo.hunks old new)
      → (shift (repo.hunks old new) start range.end 0 0 >>=? map_ends start range.end) ≡ some moved
      → Moves (repo.tokens old) (repo.tokens new) range moved
  from_start start es positive below within d h =
      let ((a, r), s, m) = >>=?-some (shift (repo.hunks old new) start range.end 0 0) _ h in
      let t =
        shift-Stays (repo.tokens old) (repo.tokens new) start range.end 0 0 d (omega arith) below
          within refl s in
      map_ends-Moves (repo.tokens old) (repo.tokens new) range a r positive
        (omega (arith, es, below))
        (subst (λ n. Stays (repo.tokens old) (repo.tokens new) n range.end a r) es t)
        (subst (λ n. map_ends n range.end (a, r) ≡ some moved) es m)

  -- When the hunks are a diff of the two texts, a range that `map_range` gives has, in the new text,
  -- the lines that the old range has in the old one, and as many; it begins at line 1 or later, is
  -- not empty, and ends within the new text.
  pub map_range-Moves :
      IsDiff (repo.tokens old) (repo.tokens new) 0 0 (repo.hunks old new)
      → map_range repo old new range ≡ some moved
      → Moves (repo.tokens old) (repo.tokens new) range moved
  unfolding map_range
  map_range-Moves d h =
      let (start, f, h1) = >>=?-some (checked_sub range.start 1) _ h in
      let (es, positive) = checked_sub-some range.start 1 f in
      elim (Bool-cases (leb range.end start)) [
        | inl e ↦ (let wrong : none ≡ some moved = rw e at h1 in cc)
        | inr e ↦ elim (Bool-cases (ltb (length (repo.tokens old)) range.end)) [
          | inl g ↦ (let wrong : none ≡ some moved = rw (e, g) at h1 in cc)
          | inr g ↦ from_start start es positive (ground arith) (ground arith) d (rw (e, g) at h1)
        ]
      ]
