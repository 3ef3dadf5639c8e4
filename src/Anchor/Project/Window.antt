-- ===== src/Anchor/Project/Window.antt =====
-- The window of lines that `project_from_context` chooses, and the bounds of the range in it.
use git_ents.Base.{
  ℕ, zero, suc, ◌+◌, ◌-◌, ◌*◌, ◌≤◌, ◌<◌, Bytes, List, Option, none, some, if◌then◌else◌, ◌==◌, ltb,
  length, take, drop, ◌≡◌, refl, Bool-cases, inl, inr, arith, subst,
}
use git_ents.Anchor.Types.{LineRange, relocated}
use git_ents.Anchor.Project.{
  score, better, best_window, is_enough, window_range, place, search_window,
}

-- The first of the indices below `n` at which `f` is largest.
pub record IsFirstMax (f : ℕ → ℕ) (n b : ℕ) : Type 0 where
  pub inside : b < n
  pub most : (x : ℕ) → x < n → f x ≤ f b
  pub first : (x : ℕ) → x < b → f x < f b

abbrev IsBest : (ℕ → ℕ) → ℕ → Option (ℕ × ℕ) → Type 0
IsBest f n none = n ≡ 0
IsBest f n (some (b, s)) = (s ≡ f b) × IsFirstMax f n b

better-IsBest :
    (f : ℕ → ℕ) (n : ℕ) (best : Option (ℕ × ℕ))
    → IsBest f n best
    → IsBest f (suc n) (if better best (f n) then some (n, f n) else best)
better-IsBest f n none e = (
  refl,
  record {
    inside = omega arith;
    most = λ x h. let same : x ≡ n = omega (arith, e, h) in rw same (omega arith);
    first = λ x h. absurd (omega (arith, e, h));
  },
)
better-IsBest f n (some (b, s)) (e, m) = elim (Bool-cases (ltb s (f n))) [
  | inl h ↦ rw h (
    refl,
    record {
      inside = omega arith;
      most = λ x l. elim (Bool-cases (x == n)) [
        | inl q ↦ (let same : x ≡ n = ground arith in rw same (omega arith))
        | inr q ↦ (let low : x < n = ground arith in ground (arith, m.most x low))
      ];
      first = λ x l. ground (arith, m.most x l);
    },
  )
  | inr h ↦ rw h (
    e,
    record {
      inside = omega (arith, m.inside);
      most = λ x l. elim (Bool-cases (x == n)) [
        | inl q ↦ (let same : x ≡ n = ground arith in rw same (ground arith))
        | inr q ↦ m.most x (ground arith)
      ];
      first = m.first;
    },
  )
]

module _ (target context : List Bytes) where
  -- How many lines of the window at an index are the lines of the context.
  abbrev pub agreeing : ℕ → ℕ
  agreeing start = score (take (length context) (drop start target)) context

  best_window-IsBest :
      (count start : ℕ) (best : Option (ℕ × ℕ))
      → IsBest agreeing start best
      → IsBest agreeing (start + count) (best_window count target context start best)
  unfolding best_window
  best_window-IsBest zero start best h = let e : start + 0 ≡ start = omega arith in rw e h
  best_window-IsBest (suc count) start best h =
      let e : start + suc count ≡ suc start + count = omega arith in
      rw e (best_window-IsBest count (suc start) _ (better-IsBest agreeing start best h))

  -- The window at which the context is found.
  pub record IsFound (path q : Bytes) (range moved : LineRange) : Type 0 where
    pub same : q ≡ path
    pub at : ℕ
    pub placed : moved ≡ window_range range at
    pub fits : at + length context ≤ length target
    pub nonempty : 1 ≤ length context
    pub enough : length context ≤ 2 * agreeing at
    pub chosen : IsFirstMax agreeing (length target - length context + 1) at

  place-IsFound :
      (path : Bytes) (range : LineRange) (best : Option (ℕ × ℕ)) {q : Bytes} {moved : LineRange}
      → 1 ≤ length context
      → length context ≤ length target
      → IsBest agreeing (length target - length context + 1) best
      → place path range (length context) best ≡ relocated q (some moved)
      → IsFound path q range moved
  place-IsFound path range none p l b h = cc
  place-IsFound path range (some (start, s)) {q} {moved} p l (e, m) h =
      elim (Bool-cases (is_enough (length context) s)) [
        | inr f ↦ (let wrong = rw f at h in cc)
        | inl f ↦
            let found : relocated path (some (window_range range start))
                ≡ relocated q (some moved) =
              rw f at h in
            let inside = m.inside in
            record {
              same = ground arith;
              at = start;
              placed = ground arith;
              fits = omega (arith, inside, l);
              nonempty = p;
              enough = ground arith;
              chosen = m;
            }
      ]

  -- The range is put into the first of the windows at which the most lines of the context are found,
  -- and at least half of them are found there.
  pub search_window-IsFound :
      (path : Bytes) (range : LineRange) (q : Bytes) (moved : LineRange)
      → search_window path range target context ≡ relocated q (some moved)
      → IsFound path q range moved
  unfolding search_window
  search_window-IsFound path range q moved h = elim (Bool-cases (length context == 0)) [
    | inl e ↦ (let wrong = rw e at h in cc)
    | inr e ↦ elim (Bool-cases (ltb (length target) (length context))) [
      | inl f ↦ (let wrong = rw (e, f) at h in cc)
      | inr f ↦
          place-IsFound path range _ (ground arith) (ground arith)
            (let windows = length target - length context + 1 in
              let e : 0 + windows ≡ windows = omega arith in
              subst (λ n. IsBest agreeing n (best_window windows target context 0 none)) e
                (best_window-IsBest windows 0 none refl))
            (rw (e, f) at h)
    ]
  ]
