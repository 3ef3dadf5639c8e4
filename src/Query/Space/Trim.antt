-- ===== src/Query/Space/Trim.antt =====
-- Trimming a trimmed text changes nothing.
use git_ents.Base.{
  ℕ, Bytes, true, [], ◌∷◌, ◌++◌, ◌≡◌, refl, sym, ap, ◌∙◌, Bool-cases, inl, inr, ◌⊎◌, arith,
}
use git_ents.Query.Space.{
  Blank, not_blank, one, two, three, blank1, blank2, blank3, blank_at, trim_start, all_blank,
  trim_end, trim,
}

pub Blank-cases : (b : Blank) → (b ≡ not_blank) ⊎ (b ≡ one) ⊎ (b ≡ two) ⊎ (b ≡ three)
Blank-cases not_blank = inl refl
Blank-cases one = inr (inl refl)
Blank-cases two = inr (inr (inl refl))
Blank-cases three = inr (inr (inr refl))

blank_at-trim_start : (s : Bytes) → blank_at (trim_start s) ≡ not_blank
unfolding blank_at trim_start
blank_at-trim_start [] = refl
blank_at-trim_start (a ∷ []) = elim (Blank-cases (blank1 a)) [
  | inl e ↦ rw (e, trim_start) e
  | inr (inl e) ↦ rw (e, trim_start) refl
  | inr (inr (inl e)) ↦ rw (e, trim_start) refl
  | inr (inr (inr e)) ↦ rw (e, trim_start) refl
]
blank_at-trim_start (a ∷ b ∷ []) = elim (Blank-cases (blank2 a b)) [
  | inl e ↦ rw (e, trim_start) e
  | inr (inl e) ↦ rw (e, trim_start) (blank_at-trim_start (b ∷ []))
  | inr (inr (inl e)) ↦ rw (e, trim_start) refl
  | inr (inr (inr e)) ↦ rw (e, trim_start) refl
]
blank_at-trim_start (a ∷ b ∷ c ∷ s) = elim (Blank-cases (blank3 a b c)) [
  | inl e ↦ rw (e, trim_start) e
  | inr (inl e) ↦ rw (e, trim_start) (blank_at-trim_start (b ∷ c ∷ s))
  | inr (inr (inl e)) ↦ rw (e, trim_start) (blank_at-trim_start (c ∷ s))
  | inr (inr (inr e)) ↦ rw (e, trim_start) (blank_at-trim_start s)
]

trim_start_same : (s : Bytes) → blank_at s ≡ not_blank → trim_start s ≡ s
unfolding blank_at trim_start
trim_start_same [] h = refl
trim_start_same (a ∷ []) h = let e : blank1 a ≡ not_blank = h in rw (e, trim_start) refl
trim_start_same (a ∷ b ∷ []) h = let e : blank2 a b ≡ not_blank = h in rw (e, trim_start) refl
trim_start_same (a ∷ b ∷ c ∷ s) h = let e : blank3 a b c ≡ not_blank = h in rw (e, trim_start) refl

-- What is trimmed off the end.
pub trim_end_append : (s : Bytes) → (w : Bytes) × (s ≡ trim_end s ++ w) × (all_blank w ≡ true)
unfolding trim_end all_blank
trim_end_append [] = ([], refl, refl)
trim_end_append (a ∷ s) = elim (Bool-cases (all_blank (a ∷ s))) [
  | inl e ↦ (a ∷ s, rw (e, trim_end) refl, e)
  | inr e ↦ let (w, f, g) = trim_end_append s in (w, rw (e, trim_end) (ap (λ t. a ∷ t) f), g)
]

blank3-not_blank :
    (a b c : ℕ) → blank3 a b c ≡ not_blank → (blank2 a b ≡ not_blank) × (blank1 a ≡ not_blank)
unfolding blank1 blank2 blank3
blank3-not_blank a b c h = (ground arith, ground arith)

blank2-not_blank : (a b : ℕ) → blank2 a b ≡ not_blank → blank1 a ≡ not_blank
unfolding blank1 blank2
blank2-not_blank a b h = ground arith

-- A part of the text from its start begins with no more white space than the text.
blank_at-append : (s w : Bytes) → blank_at (s ++ w) ≡ not_blank → blank_at s ≡ not_blank
unfolding blank_at
blank_at-append [] w h = refl
blank_at-append (a ∷ []) [] h = h
blank_at-append (a ∷ []) (b ∷ []) h = blank2-not_blank a b h
blank_at-append (a ∷ []) (b ∷ c ∷ w) h = (blank3-not_blank a b c h).1
blank_at-append (a ∷ b ∷ []) [] h = h
blank_at-append (a ∷ b ∷ []) (c ∷ w) h = (blank3-not_blank a b c h).0
blank_at-append (a ∷ b ∷ c ∷ s) w h = h

blank1-one : (a b c : ℕ) → blank1 a ≡ one → (blank2 a b ≡ one) × (blank3 a b c ≡ one)
unfolding blank1 blank2 blank3
blank1-one a b c h = (ground arith, ground arith)

pub blank1-two : (a : ℕ) → (blank1 a ≡ two → ⊥) × (blank1 a ≡ three → ⊥)
unfolding blank1
blank1-two a = ((λ h. ground arith), λ h. ground arith)

blank2-two : (a b c : ℕ) → blank2 a b ≡ two → blank3 a b c ≡ two
unfolding blank1 blank2 blank3
blank2-two a b c h = ground arith

blank2-one : (a b c : ℕ) → blank2 a b ≡ one → blank3 a b c ≡ one
unfolding blank1 blank2 blank3
blank2-one a b c h = ground arith

pub blank2-three : (a b : ℕ) → blank2 a b ≡ three → ⊥
unfolding blank1 blank2
blank2-three a b h = ground arith

all_blank_step :
    (a : ℕ) (y : Bytes) → blank1 a ≡ one → all_blank y ≡ true → all_blank (a ∷ y) ≡ true
unfolding all_blank
all_blank_step a [] e h = rw (e, all_blank) refl
all_blank_step a (b ∷ []) e h = rw ((blank1-one a b 0 e).0, all_blank) h
all_blank_step a (b ∷ c ∷ y) e h = rw ((blank1-one a b c e).1, all_blank) h

all_blank-append :
    (x y : Bytes) → all_blank x ≡ true → all_blank y ≡ true → all_blank (x ++ y) ≡ true
unfolding all_blank
all_blank-append [] y h k = k
all_blank-append (a ∷ []) y h k = elim (Blank-cases (blank1 a)) [
  | inl e ↦ (let wrong = rw (e, all_blank) at h in cc)
  | inr (inl e) ↦ all_blank_step a y e k
  | inr (inr (inl e)) ↦ absurd ((blank1-two a).0 e)
  | inr (inr (inr e)) ↦ absurd ((blank1-two a).1 e)
]
all_blank-append (a ∷ b ∷ []) [] h k = h
all_blank-append (a ∷ b ∷ []) (c ∷ y) h k = elim (Blank-cases (blank2 a b)) [
  | inl e ↦ (let wrong = rw (e, all_blank) at h in cc)
  | inr (inl e) ↦
      rw (blank2-one a b c e, all_blank)
        (all_blank-append (b ∷ []) (c ∷ y) (rw (e, all_blank) at h) k)
  | inr (inr (inl e)) ↦ rw (blank2-two a b c e, all_blank) k
  | inr (inr (inr e)) ↦ absurd (blank2-three a b e)
]
all_blank-append (a ∷ b ∷ c ∷ x) y h k = elim (Blank-cases (blank3 a b c)) [
  | inl e ↦ (let wrong = rw (e, all_blank) at h in cc)
  | inr (inl e) ↦ rw (e, all_blank) (all_blank-append (b ∷ c ∷ x) y (rw (e, all_blank) at h) k)
  | inr (inr (inl e)) ↦ rw (e, all_blank) (all_blank-append (c ∷ x) y (rw (e, all_blank) at h) k)
  | inr (inr (inr e)) ↦ rw (e, all_blank) (all_blank-append x y (rw (e, all_blank) at h) k)
]

trim_end_same : (s : Bytes) → trim_end (trim_end s) ≡ trim_end s
unfolding trim_end
trim_end_same [] = refl
trim_end_same (a ∷ s) = elim (Bool-cases (all_blank (a ∷ s))) [
  | inl e ↦ rw (e, trim_end) refl
  | inr e ↦ elim (Bool-cases (all_blank (a ∷ trim_end s))) [
    | inr f ↦ rw (e, f, trim_end) (ap (λ t. a ∷ t) (trim_end_same s))
    | inl f ↦
        let (w, parts, white) = trim_end_append s in
        let whole : all_blank (a ∷ s) ≡ true =
          ap (λ t. all_blank (a ∷ t)) parts ∙ all_blank-append (a ∷ trim_end s) w f white in
        cc
  ]
]

pub trim_same : (s : Bytes) → trim (trim s) ≡ trim s
unfolding trim
trim_same s =
    let u = trim_start s in
    let (w, parts, white) = trim_end_append u in
    let clear : blank_at (trim_end u) ≡ not_blank =
      blank_at-append (trim_end u) w (ap blank_at (sym parts) ∙ blank_at-trim_start s) in
    ap trim_end (trim_start_same (trim_end u) clear) ∙ trim_end_same u
