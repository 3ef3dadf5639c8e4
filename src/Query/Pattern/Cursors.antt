-- ===== src/Query/Pattern/Cursors.antt =====
-- What holds of the cursor before each round of the matcher, and what a round leaves behind.
use git_ents.Base.{
  ℕ, zero, suc, ◌+◌, ◌-◌, ◌≤◌, ◌<◌, Bytes, true, ◌∷◌, Option, none, some, ◌≡◌, ◌↔◌, ap, length,
  drop, arith,
}
use git_ents.Query.Pattern.{star_byte, Cursor, Round, next, stop, laps, start}
use git_ents.Query.Pattern.Spec.{Matches}
use git_ents.Query.Pattern.Runs.{Run}

-- From the cursor on, the whole pattern matches the whole text exactly if ...
abbrev pub Remains : Bytes → Bytes → Cursor → Option ℕ → Type 0
Remains pattern text c none = Matches (drop c.p pattern) (drop c.t text)
Remains pattern text c (some s) = Matches (star_byte ∷ drop (suc s) pattern) (drop c.mark text)

abbrev pub RunSince : Bytes → Bytes → Cursor → Option ℕ → Type 0
RunSince pattern text c none = Unit {0}
RunSince pattern text c (some s) =
    Run (drop (suc s) pattern) (drop c.mark text) (drop c.p pattern) (drop c.t text)

abbrev pub StarInside : Bytes → Option ℕ → Type 0
StarInside pattern none = Unit {0}
StarInside pattern (some s) = s < length pattern

pub record Invariant (pattern text : Bytes) (c : Cursor) : Type 0 where
  pub remains : Matches pattern text ↔ Remains pattern text c c.star
  pub since : RunSince pattern text c c.star
  pub starred : StarInside pattern c.star
  pub in_pattern : c.p ≤ length pattern
  pub in_text : c.t ≤ length text
  pub behind : c.mark ≤ c.t

pub start-Invariant : (pattern text : Bytes) → Invariant pattern text start
start-Invariant pattern text = record {
  remains = (λ m. m, λ m. m);
  since = tt;
  starred = tt;
  in_pattern = omega arith;
  in_text = omega arith;
  behind = omega arith;
}

-- The attempts left, at so many rounds each, and the rounds left in this attempt.
abbrev pub rounds_left : Bytes → Bytes → Cursor → ℕ
rounds_left pattern text c =
    laps (length text - c.mark) (length pattern + length text + 1)
    + (length pattern - c.p)
    + (length text - c.t)

pub laps_mono : (a b m : ℕ) → a ≤ b → laps a m ≤ laps b m
laps_mono zero b m h = omega arith
laps_mono (suc a) zero m h = absurd (omega arith)
laps_mono (suc a) (suc b) m h = omega (arith, laps_mono a b m (omega arith))

pub laps_next : (n mark m : ℕ) → mark < n → laps (n - mark) m ≡ m + laps (n - suc mark) m
laps_next n mark m h = let e : n - mark ≡ suc (n - suc mark) = omega arith in ap (λ k. laps k m) e

-- What a round leaves behind: a cursor nearer the end, or the answer.
abbrev pub RoundDone : Bytes → Bytes → Cursor → Round → Type 0
RoundDone pattern text c (next c') =
    Invariant pattern text c' × (rounds_left pattern text c' < rounds_left pattern text c)
RoundDone pattern text c (stop b) = (b ≡ true) ↔ Matches pattern text
