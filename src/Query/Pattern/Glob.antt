-- ===== src/Query/Pattern/Glob.antt =====
-- The two-pointer matcher of a pattern, against what the pattern matches. A round either ends with
-- the answer or leaves a smaller cursor from which the same answer is to be found.
use git_ents.Base.{
  ℕ, zero, suc, ◌+◌, ◌-◌, ◌≤◌, ◌<◌, Bytes, Bool, true, false, [], Option, none, some, ◌≡◌, ◌↔◌, inl,
  inr, ap, Bool-cases, Option-cases, ◌==◌, ltb, length, drop, get_elem?, get_elem?-drop,
  get_elem?-none, drop-length, drop-some, arith,
}
use git_ents.Query.Pattern.{
  star_byte, Cursor, Round, next, stop, is_byte, skip_stars, glob_round, glob_loop, laps, glob_fuel,
  start, glob_match,
}
use git_ents.Query.Pattern.Spec.{Matches, done, skip, Matches-resume, Matches-byte}
use git_ents.Query.Pattern.Runs.{
  Run-back, Run-forth, byte_head, star_empty, Suffix-empty, empty_pattern,
}
use git_ents.Query.Pattern.Cursors.{
  Remains, RunSince, Invariant, start-Invariant, rounds_left, RoundDone,
}
use git_ents.Query.Pattern.Rounds.{at_star, at_byte, at_mismatch}

skip_stars_iff :
    (fuel : ℕ) (pattern : Bytes) (p : ℕ)
    → p ≤ length pattern
    → length pattern ≤ p + fuel
    → (skip_stars fuel pattern p ≡ length pattern) ↔ Matches (drop p pattern) []
unfolding skip_stars
skip_stars_iff zero pattern p h enough =
    rw (drop-length pattern p (omega arith)) ((λ _. done), λ _. omega arith)
skip_stars_iff (suc fuel) pattern p h enough = elim (Option-cases (get_elem? pattern p)) [
  | inl e ↦ let (d, l) = get_elem?-none pattern p e in rw (e, d) ((λ _. done), λ _. omega arith)
  | inr (b, e) ↦
      let (d, l) = get_elem?-drop pattern p e in
      elim (Bool-cases (b == star_byte)) [
        | inl f ↦
            let same : b ≡ star_byte = ground arith in
            let (g, k) = skip_stars_iff fuel pattern (suc p) l (omega arith) in
            rw (e, f, d, same) ((λ x. skip (g x)), λ m. k (star_empty m))
        | inr f ↦
            rw (e, f, d)
              ((λ x. absurd (omega arith)), λ m. let (w, x, _) = byte_head f m in absurd cc)
      ]
]

-- When the text is used up, the earlier star has nothing to take.
at_rest :
    (pattern text : Bytes) (c : Cursor) (star : Option ℕ)
    → drop c.t text ≡ []
    → RunSince pattern text c star
    → Remains pattern text c star ↔ Matches (drop c.p pattern) []
at_rest pattern text c none e r = rw e ((λ m. m), λ m. m)
at_rest pattern text c (some s) e r = (
  λ m.
      let (v, suffix, n) = Matches-resume m in
      let (w, suffix', n') = Run-forth r suffix n in
      let none_left : w ≡ [] = Suffix-empty (rw e at suffix') in rw none_left at n',
  λ m. skip (Run-back r (rw e m)),
)

is_byte_sound : (o : Option ℕ) (b : ℕ) → is_byte o b ≡ true → o ≡ some b
is_byte_sound none b h = cc
is_byte_sound (some a) b h = ground arith

module _ (pattern text : Bytes) where
  at_end :
      (c : Cursor)
      → Invariant pattern text c
      → length text ≤ c.t
      → RoundDone pattern text c (stop (skip_stars (length pattern) pattern c.p == length pattern))
  at_end c i h =
      let (f, g) = at_rest pattern text c c.star (drop-length text c.t h) i.since in
      let (k, l) = skip_stars_iff (length pattern) pattern c.p i.in_pattern (omega arith) in
      (λ e. i.remains.1 (g (k (ground arith))), λ m. let e = l (f (i.remains.0 m)) in ground arith)

  other_byte :
      (c : Cursor) (b : ℕ)
      → c.t < length text
      → (b == star_byte) ≡ false
      → get_elem? pattern c.p ≡ some b
      → is_byte (get_elem? text c.t) b ≡ false
      → ¬ Matches (drop c.p pattern) (drop c.t text)
  other_byte c b h f e g m = elim (Option-cases (get_elem? text c.t)) [
    | inl k ↦ let (_, l) = get_elem?-none text c.t k in absurd (omega (arith, l, h))
    | inr (a, k) ↦
        let d = (get_elem?-drop text c.t k).0 in
        let d' = (get_elem?-drop pattern c.p e).0 in
        let same = (Matches-byte f (rw (d, d') at m)).0 in ground arith
  ]

  round-RoundDone :
      (c : Cursor) → Invariant pattern text c → RoundDone pattern text c (glob_round pattern text c)
  unfolding glob_round
  round-RoundDone c i = elim (Bool-cases (ltb c.t (length text))) [
    | inr h ↦ rw h (at_end c i (ground arith))
    | inl h ↦
        let l : c.t < length text = ground arith in
        elim (Option-cases (get_elem? pattern c.p)) [
          | inl e ↦
              let (d, k) = drop-some text c.t l in
              let d' = (get_elem?-none pattern c.p e).0 in
              rw (h, e) (at_mismatch pattern text c i l (λ m. empty_pattern (rw (k, d') at m)))
          | inr (b, e) ↦ elim (Bool-cases (b == star_byte)) [
            | inl f ↦
                let same : b ≡ star_byte = ground arith in
                rw (h, e, f) (at_star pattern text c i (rw same at e))
            | inr f ↦ elim (Bool-cases (is_byte (get_elem? text c.t) b)) [
              | inl g ↦ rw (h, e, f, g) (at_byte pattern text c b i e f (is_byte_sound _ b g))
              | inr g ↦ rw (h, e, f, g) (at_mismatch pattern text c i l (other_byte c b l f e g))
            ]
          ]
        ]
  ]

  after_round :
      (c : Cursor) (r : Round) (further : Cursor → Bool)
      → ((c' : Cursor)
          → Invariant pattern text c'
          → rounds_left pattern text c' < rounds_left pattern text c
          → (further c' ≡ true) ↔ Matches pattern text)
      → RoundDone pattern text c r
      → (elim r [ next c' ↦ further c' | stop b ↦ b ] ≡ true) ↔ Matches pattern text
  after_round c (next c') further ih (i, fewer) = ih c' i fewer
  after_round c (stop b) further ih answer = answer

  glob_loop_iff :
      (fuel : ℕ) (c : Cursor)
      → Invariant pattern text c
      → rounds_left pattern text c < fuel
      → (glob_loop fuel pattern text c ≡ true) ↔ Matches pattern text
  unfolding glob_loop
  glob_loop_iff zero c i h = absurd (omega arith)
  glob_loop_iff (suc fuel) c i h =
      after_round c (glob_round pattern text c) (glob_loop fuel pattern text)
        (λ c' i' fewer. glob_loop_iff fuel c' i' (omega (arith, fewer, h))) (round-RoundDone c i)

-- The two-pointer matcher with its backtracking answers yes exactly when the pattern matches the
-- text: each star stands for some run of bytes, every other byte for itself.
pub glob_match_iff :
    (pattern text : Bytes) → (glob_match pattern text ≡ true) ↔ Matches pattern text
unfolding glob_match
glob_match_iff pattern text =
    glob_loop_iff pattern text (glob_fuel pattern text) start (start-Invariant pattern text)
      (omega (arith, ap (λ n. laps n (length pattern + length text + 1)) unmarked))
  where
    unmarked : length text - 0 ≡ length text
    unmarked = omega arith
