-- ===== src/Query/Space.antt =====
-- `str::trim` and `str::split_whitespace` on the bytes of UTF-8 text: the characters with Unicode's
-- White_Space property take one, two or three bytes.
pub mod Trim
pub mod Kept
use git_ents.Base.{
  ℕ, Bytes, mem, Bool, true, false, ◌||◌, ◌&&◌, List, [], ◌∷◌, ◌++◌, if◌then◌else◌, ◌==◌, leb,
}

-- How many of the first bytes are a white space character.
pub data Blank : Type 0 where
  not_blank one two three : Blank

abbrev pub is_blank_byte : ℕ → Bool
is_blank_byte a = (leb 9 a && leb a 13) || a == 32

-- U+0085 and U+00A0
abbrev pub is_blank_pair : ℕ → ℕ → Bool
is_blank_pair a b = a == 0xc2 && (b == 0x85 || b == 0xa0)

-- U+1680, U+2000 to U+200A, U+2028, U+2029, U+202F, U+205F and U+3000
abbrev pub is_blank_triple : ℕ → ℕ → ℕ → Bool
is_blank_triple a b c =
    (a == 0xe1 && b == 0x9a && c == 0x80)
    || (a == 0xe2
        && b == 0x80
        && ((leb 0x80 c && leb c 0x8a) || c == 0xa8 || c == 0xa9 || c == 0xaf))
    || (a == 0xe2 && b == 0x81 && c == 0x9f)
    || (a == 0xe3 && b == 0x80 && c == 0x80)

unfoldable pub blank1 : ℕ → Blank
blank1 a = if is_blank_byte a then one else not_blank

unfoldable pub blank2 : ℕ → ℕ → Blank
unfolding blank1
blank2 a b = if is_blank_pair a b then two else blank1 a

unfoldable pub blank3 : ℕ → ℕ → ℕ → Blank
unfolding blank2
blank3 a b c = if is_blank_triple a b c then three else blank2 a b

unfoldable pub blank_at : Bytes → Blank
unfolding blank1 blank2 blank3
blank_at [] = not_blank
blank_at (a ∷ []) = blank1 a
blank_at (a ∷ b ∷ []) = blank2 a b
blank_at (a ∷ b ∷ c ∷ s) = blank3 a b c

unfoldable pub trim_start : Bytes → Bytes
unfolding blank1 blank2 blank3
trim_start [] = []
trim_start (a ∷ []) = elim (blank1 a) [ not_blank ↦ a ∷ [] | _ ↦ [] ]
trim_start (a ∷ b ∷ []) = elim (blank2 a b) [
  | not_blank ↦ a ∷ b ∷ []
  | one ↦ trim_start (b ∷ [])
  | _ ↦ []
]
trim_start (a ∷ b ∷ c ∷ s) = elim (blank3 a b c) [
  | not_blank ↦ a ∷ b ∷ c ∷ s
  | one ↦ trim_start (b ∷ c ∷ s)
  | two ↦ trim_start (c ∷ s)
  | three ↦ trim_start s
]

unfoldable pub all_blank : Bytes → Bool
unfolding blank1 blank2 blank3
all_blank [] = true
all_blank (a ∷ []) = elim (blank1 a) [ not_blank ↦ false | _ ↦ true ]
all_blank (a ∷ b ∷ []) = elim (blank2 a b) [
  | not_blank ↦ false
  | one ↦ all_blank (b ∷ [])
  | _ ↦ true
]
all_blank (a ∷ b ∷ c ∷ s) = elim (blank3 a b c) [
  | not_blank ↦ false
  | one ↦ all_blank (b ∷ c ∷ s)
  | two ↦ all_blank (c ∷ s)
  | three ↦ all_blank s
]

-- No byte within a character is the first byte of a white space character.
unfoldable pub trim_end : Bytes → Bytes
unfolding all_blank
trim_end [] = []
trim_end (a ∷ s) = elim (all_blank (a ∷ s)) [ true ↦ [] | false ↦ a ∷ trim_end s ]

unfoldable pub trim : Bytes → Bytes
unfolding trim_start trim_end
trim s = trim_end (trim_start s)

abbrev pub flush : Bytes → List Bytes → List Bytes
flush [] words = words
flush (a ∷ s) words = (a ∷ s) ∷ words

-- The words after a part of one.
unfoldable pub words_after : Bytes → Bytes → List Bytes
unfolding blank1 blank2 blank3
words_after word [] = flush word []
words_after word (a ∷ []) = elim (blank1 a) [
  | not_blank ↦ flush (word ++ a ∷ []) []
  | _ ↦ flush word []
]
words_after word (a ∷ b ∷ []) = elim (blank2 a b) [
  | not_blank ↦ words_after (word ++ a ∷ []) (b ∷ [])
  | one ↦ flush word (words_after [] (b ∷ []))
  | _ ↦ flush word []
]
words_after word (a ∷ b ∷ c ∷ s) = elim (blank3 a b c) [
  | not_blank ↦ words_after (word ++ a ∷ []) (b ∷ c ∷ s)
  | one ↦ flush word (words_after [] (b ∷ c ∷ s))
  | two ↦ flush word (words_after [] (c ∷ s))
  | three ↦ flush word (words_after [] s)
]

unfoldable pub split_whitespace : Bytes → List Bytes
unfolding words_after
split_whitespace s = words_after [] s
