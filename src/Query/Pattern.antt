-- ===== src/Query/Pattern.antt =====
-- Refname patterns (crates/kernel/ents-query/src/pattern.rs): their validation, the glob matcher and
-- the prefix overlap test. A pattern is its bytes; an index is a number, read by `get_elem?`.
pub mod Spec
pub mod Runs
pub mod Cursors
pub mod Rounds
pub mod Glob
pub mod Prefix
use git_ents.Base.{
  ℕ, zero, suc, ◌+◌, ◌*◌, Bytes, codes, mem, any, starts_with, Bool, true, false, ◌||◌, ◌&&◌, List,
  [], ◌∷◌, ◌++◌, map, Option, none, some, Result, ok, err, if◌then◌else◌, ◌==◌, ltb, leb, length,
  drop, get_elem?,
}
use git_ents.Query.Errors.{ParseError, bad_pattern, Why}

abbrev pub star_byte : ℕ
star_byte = 42

abbrev is_whitespace : ℕ → Bool
is_whitespace b = mem b (32 ∷ 9 ∷ 10 ∷ 12 ∷ 13 ∷ [])

abbrev is_control : ℕ → Bool
is_control b = ltb b 32 || b == 127

-- `text.contains("..")`, for a text of two equal bytes
unfoldable pub has_double : ℕ → Bytes → Bool
has_double b [] = false
has_double b (c ∷ []) = false
has_double b (c ∷ d ∷ s) = (c == b && d == b) || has_double b (d ∷ s)

abbrev ends_with_byte : ℕ → Bytes → Bool
ends_with_byte b [] = false
ends_with_byte b (c ∷ []) = c == b
ends_with_byte b (_ ∷ c ∷ s) = ends_with_byte b (c ∷ s)

-- `RefPattern::new`
unfoldable pub ref_pattern : Bytes → Result ParseError Bytes
unfolding has_double starts_with
ref_pattern [] = err (bad_pattern [] Why.empty_pattern)
ref_pattern (b ∷ s) =
    let pattern = b ∷ s in
    if any (λ c. is_whitespace c || is_control c) pattern
    then err (bad_pattern pattern Why.whitespace_or_control)
    else if any (λ c. mem c (codes "\\()|&,?[")) pattern
    then err (bad_pattern pattern Why.refname_byte)
    else if has_double b'.' pattern || has_double b'/' pattern
    then err (bad_pattern pattern Why.empty_or_dot_dot_segment)
    else if starts_with (codes "/") pattern || ends_with_byte b'/' pattern
    then err (bad_pattern pattern Why.edge_slash)
    else ok pattern

-- `self.0.split('*').next()`
unfoldable pub literal_prefix : Bytes → Bytes
literal_prefix [] = []
literal_prefix (c ∷ s) = if c == star_byte then [] else c ∷ literal_prefix s

-- The variables of `glob_match`'s loop.
pub record Cursor : Type 0 where
  pub p : ℕ
  pub t : ℕ
  pub star : Option ℕ
  pub mark : ℕ

pub data Round : Type 0 where
  next : Cursor → Round
  stop : Bool → Round

-- The arm `_ => match star`.
abbrev pub retry : Cursor → Round
retry c = elim c.star [
  | none ↦ stop false
  | some s ↦ next (record { p = suc s; t = suc c.mark; star = some s; mark = suc c.mark })
]

abbrev pub is_byte : Option ℕ → ℕ → Bool
is_byte none b = false
is_byte (some a) b = a == b

-- The loop over the stars that are left, with fuel for each byte of the pattern.
unfoldable pub skip_stars : ℕ → Bytes → ℕ → ℕ
skip_stars zero pattern p = p
skip_stars (suc fuel) pattern p =
    let further = skip_stars fuel pattern (suc p) in
    if is_byte (get_elem? pattern p) star_byte then further else p

-- One round of the loop, or what follows it.
unfoldable pub glob_round : Bytes → Bytes → Cursor → Round
unfolding skip_stars
glob_round pattern text c =
    if ltb c.t (length text)
    then elim (get_elem? pattern c.p) [
      | none ↦ retry c
      | some b ↦
          if b == star_byte
          then next (record { p = suc c.p; t = c.t; star = some c.p; mark = c.t })
          else if is_byte (get_elem? text c.t) b
          then next (record { p = suc c.p; t = suc c.t; star = c.star; mark = c.mark })
          else retry c
    ]
    else stop (skip_stars (length pattern) pattern c.p == length pattern)

unfoldable pub glob_loop : ℕ → Bytes → Bytes → Cursor → Bool
unfolding glob_round
glob_loop zero pattern text c = false
glob_loop (suc fuel) pattern text c = elim (glob_round pattern text c) [
  | next c' ↦ glob_loop fuel pattern text c'
  | stop b ↦ b
]

-- At most one attempt for each byte of the text, and for each attempt a round for each byte of both.
abbrev pub laps : ℕ → ℕ → ℕ
laps zero m = 0
laps (suc n) m = m + laps n m

abbrev pub glob_fuel : Bytes → Bytes → ℕ
glob_fuel pattern text = laps (suc (length text)) (length pattern + length text + 1)

abbrev pub start : Cursor
start = record { p = 0; t = 0; star = none; mark = 0 }

unfoldable pub glob_match : Bytes → Bytes → Bool
unfolding glob_loop
glob_match pattern text = glob_loop (glob_fuel pattern text) pattern text start

-- `(0..=prefix.len()).any(|k| test(&prefix[k..]))`
abbrev pub any_suffix : (Bytes → Bool) → Bytes → Bool
any_suffix test [] = test []
any_suffix test (b ∷ rest) = test (b ∷ rest) || any_suffix test rest

unfoldable pub may_match : Bytes → Bytes → Bool
may_match [] [] = true
may_match [] (b ∷ rest) = false
may_match (c ∷ tail) [] = true
may_match (c ∷ tail) (b ∷ rest) =
    if c == star_byte then any_suffix (may_match tail) (b ∷ rest) else c == b && may_match tail rest
