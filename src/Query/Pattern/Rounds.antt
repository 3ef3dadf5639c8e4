-- ===== src/Query/Pattern/Rounds.antt =====
-- The rounds of the matcher that go on: at a star, at an equal byte, and back to the last star.
use git_ents.Base.{
  ℕ, suc, ◌+◌, ◌-◌, ◌<◌, Bytes, false, ◌∷◌, Option, none, some, ◌≡◌, ◌↔◌, inl, inr, Option-cases,
  ◌==◌, length, drop, get_elem?, get_elem?-drop, drop-some, arith,
}
use git_ents.Query.Pattern.{star_byte, Cursor, next, retry}
use git_ents.Query.Pattern.Spec.{
  Matches, byte, skip, eat, Matches-skip_to, Matches-resume, Matches-byte,
}
use git_ents.Query.Pattern.Runs.{
  fresh, more, Run-back, Suffix-join, Run-forth, Run-exact, star_choice,
}
use git_ents.Query.Pattern.Cursors.{Remains, RunSince, Invariant, laps_mono, laps_next, RoundDone}

-- At a further star, what matters is what follows it: an earlier star need take no more.
later_star :
    (pattern text : Bytes) (c : Cursor) (star : Option ℕ) (q : Bytes)
    → drop c.p pattern ≡ star_byte ∷ q
    → RunSince pattern text c star
    → Remains pattern text c star ↔ Matches (star_byte ∷ q) (drop c.t text)
later_star pattern text c none q e r = rw e ((λ m. m), (λ m. m))
later_star pattern text c (some s) q e r = (
  λ m.
      let (v, suffix, n) = Matches-resume m in
      let (w, suffix', n') = Run-forth r suffix n in
      let (x, suffix'', n'') = Matches-resume (rw e at n') in
      Matches-skip_to (Suffix-join suffix' suffix'') n'',
  λ m. skip (Run-back r (rw e m)),
)

-- Where no byte of the text goes on with the literals, the star must take one more.
next_mark :
    (pattern text : Bytes) (c : Cursor) (s d : ℕ)
    → RunSince pattern text c (some s)
    → drop c.mark text ≡ d ∷ drop (suc c.mark) text
    → ¬ Matches (drop c.p pattern) (drop c.t text)
    → Remains pattern text c (some s)
      ↔ Matches (star_byte ∷ drop (suc s) pattern) (drop (suc c.mark) text)
next_mark pattern text c s d r e n = rw e (go, eat)
  where
    go :
        Matches (star_byte ∷ drop (suc s) pattern) (d ∷ drop (suc c.mark) text)
        → Matches (star_byte ∷ drop (suc s) pattern) (drop (suc c.mark) text)
    go m = elim (star_choice m) [ inl f ↦ f | inr f ↦ absurd (n (Run-exact r (rw e f))) ]

module _ (pattern text : Bytes) where
  -- A round at a star.
  pub at_star :
      (c : Cursor)
      → Invariant pattern text c
      → get_elem? pattern c.p ≡ some star_byte
      → RoundDone pattern text c
          (next (record { p = suc c.p; t = c.t; star = some c.p; mark = c.t }))
  at_star c i e =
      let (d, b) = get_elem?-drop pattern c.p e in
      (
        record {
          remains =
              let (f, g) = later_star pattern text c c.star (drop (suc c.p) pattern) d i.since in
              (λ m. f (i.remains.0 m), λ m. i.remains.1 (g m));
          since = fresh;
          starred = b;
          in_pattern = omega (arith, b);
          in_text = i.in_text;
          behind = omega arith;
        },
        omega (
          arith,
          b,
          i.behind,
          laps_mono (length text - c.t) (length text - c.mark) (length pattern + length text + 1)
              (omega (arith, i.behind)),
        ),
      )

  -- A round at a literal byte that the text has too.
  pub at_byte :
      (c : Cursor) (b : ℕ)
      → Invariant pattern text c
      → get_elem? pattern c.p ≡ some b
      → (b == star_byte) ≡ false
      → get_elem? text c.t ≡ some b
      → RoundDone pattern text c
          (next (record { p = suc c.p; t = suc c.t; star = c.star; mark = c.mark }))
  at_byte c b i e n f =
      let l = (get_elem?-drop pattern c.p e).1 in
      let l' = (get_elem?-drop text c.t f).1 in
      (
        record {
          remains = literal c.star i.remains;
          since = extends c.star i.since;
          starred = i.starred;
          in_pattern = omega (arith, l);
          in_text = omega (arith, l');
          behind = omega (arith, i.behind);
        },
        omega (arith, l, l'),
      )
    where
      after : Cursor
      after = record { p = suc c.p; t = suc c.t; star = c.star; mark = c.mark }

      byte_of_pattern : drop c.p pattern ≡ b ∷ drop (suc c.p) pattern
      byte_of_pattern = (get_elem?-drop pattern c.p e).0

      byte_of_text : drop c.t text ≡ b ∷ drop (suc c.t) text
      byte_of_text = (get_elem?-drop text c.t f).0

      literal :
          (star : Option ℕ)
          → Matches pattern text ↔ Remains pattern text c star
          → Matches pattern text ↔ Remains pattern text after star
      literal none (g, h) = (
        λ m. (Matches-byte n (rw (byte_of_pattern, byte_of_text) at (g m))).1,
        λ m. h (rw (byte_of_pattern, byte_of_text) (byte n m)),
      )
      literal (some s) r = r

      extends : (star : Option ℕ) → RunSince pattern text c star → RunSince pattern text after star
      extends none r = tt
      extends (some s) r = more n (rw (byte_of_pattern, byte_of_text) at r)

  -- A round where the literal differs.
  pub at_mismatch :
      (c : Cursor)
      → Invariant pattern text c
      → c.t < length text
      → ¬ Matches (drop c.p pattern) (drop c.t text)
      → RoundDone pattern text c (retry c)
  at_mismatch c i l n = elim (Option-cases c.star) [
    | inl e ↦ let (f, g) = rw e at i.remains in rw e ((λ h. cc), λ m. absurd (n (f m)))
    | inr (s, e) ↦ rw e (
        (
          let (f, g) = rw e at i.remains in
              let (d, marked) = drop-some text c.mark (omega (arith, l, i.behind)) in
              let (f', g') = next_mark pattern text c s d (rw e at i.since) marked n in
              record {
                remains = ((λ m. f' (f m)), (λ m. g (g' m)));
                since = fresh;
                starred = rw e at i.starred;
                in_pattern = omega (arith, rw e at i.starred);
                in_text = omega (arith, l, i.behind);
                behind = omega arith;
              },
          omega (
            arith,
            laps_next (length text) c.mark (length pattern + length text + 1)
                (omega (arith, l, i.behind)),
          ),
        ))
  ]
