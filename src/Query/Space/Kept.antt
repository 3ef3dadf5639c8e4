-- ===== src/Query/Space/Kept.antt =====
-- What trimming takes away: white space, in which no byte passes a test that white space fails.
use git_ents.Base.{
  ℕ, ◌≤◌, Bytes, any, Bool, true, false, [], ◌∷◌, ◌++◌, ◌≡◌, refl, ap, ◌∙◌, inl, inr, arith,
}
use git_ents.Query.Space.{
  one, two, three, is_blank_byte, blank1, blank2, blank3, trim_start, all_blank, trim,
}
use git_ents.Query.Space.Trim.{Blank-cases, trim_end_append, blank1-two, blank2-three}

-- No byte passes the test.
abbrev pub Free : (ℕ → Bool) → Bytes → Type 0
Free test s = any test s ≡ false

pub Free-append : (test : ℕ → Bool) (x y : Bytes) → (Free test x → Free test y → Free test (x ++ y))
Free-append test [] y f g = g
Free-append test (b ∷ x) y f g = let rest = Free-append test x y (ground arith) g in ground arith

pub Free-parts : (test : ℕ → Bool) (x y : Bytes) → Free test (x ++ y) → Free test x × Free test y
Free-parts test [] y f = (refl, f)
Free-parts test (b ∷ x) y f = let (g, h) = Free-parts test x y (ground arith) in (ground arith, h)

blank1-byte : (a : ℕ) → blank1 a ≡ one → is_blank_byte a ≡ true
unfolding blank1
blank1-byte a h = ground arith

blank2-byte : (a b : ℕ) → blank2 a b ≡ one → is_blank_byte a ≡ true
unfolding blank1 blank2
blank2-byte a b h = ground arith

blank2-bytes : (a b : ℕ) → blank2 a b ≡ two → (0x80 ≤ a) × (0x80 ≤ b)
unfolding blank1 blank2
blank2-bytes a b h = (ground arith, ground arith)

blank3-byte : (a b c : ℕ) → blank3 a b c ≡ one → is_blank_byte a ≡ true
unfolding blank1 blank2 blank3
blank3-byte a b c h = ground arith

blank3-bytes : (a b c : ℕ) → blank3 a b c ≡ two → (0x80 ≤ a) × (0x80 ≤ b)
unfolding blank1 blank2 blank3
blank3-bytes a b c h = (ground arith, ground arith)

blank3-triple : (a b c : ℕ) → blank3 a b c ≡ three → (0x80 ≤ a) × (0x80 ≤ b) × (0x80 ≤ c)
unfolding blank1 blank2 blank3
blank3-triple a b c h = (ground arith, ground arith, ground arith)

module _ (test : ℕ → Bool) (low : (b : ℕ) → is_blank_byte b ≡ true → test b ≡ false)
    (high : (b : ℕ) → 0x80 ≤ b → test b ≡ false) where
  one_more : (b : ℕ) (s : Bytes) → test b ≡ false → Free test s → Free test (b ∷ s)
  one_more b s e f = rw (e, f) refl

  all_blank-Free : (w : Bytes) → all_blank w ≡ true → Free test w
  unfolding all_blank
  all_blank-Free [] h = refl
  all_blank-Free (a ∷ []) h = elim (Blank-cases (blank1 a)) [
    | inl e ↦ (let wrong = rw (e, all_blank) at h in cc)
    | inr (inl e) ↦ one_more a [] (low a (blank1-byte a e)) refl
    | inr (inr (inl e)) ↦ absurd ((blank1-two a).0 e)
    | inr (inr (inr e)) ↦ absurd ((blank1-two a).1 e)
  ]
  all_blank-Free (a ∷ b ∷ []) h = elim (Blank-cases (blank2 a b)) [
    | inl e ↦ (let wrong = rw (e, all_blank) at h in cc)
    | inr (inl e) ↦
        one_more a (b ∷ []) (low a (blank2-byte a b e))
          (all_blank-Free (b ∷ []) (rw (e, all_blank) at h))
    | inr (inr (inl e)) ↦
        let (f, g) = blank2-bytes a b e in
        one_more a (b ∷ []) (high a f) (one_more b [] (high b g) refl)
    | inr (inr (inr e)) ↦ absurd (blank2-three a b e)
  ]
  all_blank-Free (a ∷ b ∷ c ∷ w) h = elim (Blank-cases (blank3 a b c)) [
    | inl e ↦ (let wrong = rw (e, all_blank) at h in cc)
    | inr (inl e) ↦
        one_more a (b ∷ c ∷ w) (low a (blank3-byte a b c e))
          (all_blank-Free (b ∷ c ∷ w) (rw (e, all_blank) at h))
    | inr (inr (inl e)) ↦
        let (f, g) = blank3-bytes a b c e in
        one_more a (b ∷ c ∷ w) (high a f)
          (one_more b (c ∷ w) (high b g) (all_blank-Free (c ∷ w) (rw (e, all_blank) at h)))
    | inr (inr (inr e)) ↦
        let (f, g, k) = blank3-triple a b c e in
        one_more a (b ∷ c ∷ w) (high a f) (
          one_more b (c ∷ w) (high b g)
            (one_more c w (high c k) (all_blank-Free w (rw (e, all_blank) at h))))
  ]

  -- The text is what is taken off its start, and what is left.
  abbrev Starts : Bytes → Bytes → Type 0
  Starts s t = (w : Bytes) × (s ≡ w ++ t) × Free test w

  more_start : (b : ℕ) (s t : Bytes) → test b ≡ false → Starts s t → Starts (b ∷ s) t
  more_start b s t e (w, f, g) = (b ∷ w, ap (λ x. b ∷ x) f, one_more b w e g)

  trim_start-Starts : (s : Bytes) → Starts s (trim_start s)
  unfolding trim_start
  trim_start-Starts [] = ([], refl, refl)
  trim_start-Starts (a ∷ []) = elim (Blank-cases (blank1 a)) [
    | inl e ↦ ([], rw (e, trim_start) refl, refl)
    | inr (inl e) ↦ (a ∷ [], rw (e, trim_start) refl, one_more a [] (low a (blank1-byte a e)) refl)
    | inr (inr (inl e)) ↦ absurd ((blank1-two a).0 e)
    | inr (inr (inr e)) ↦ absurd ((blank1-two a).1 e)
  ]
  trim_start-Starts (a ∷ b ∷ []) = elim (Blank-cases (blank2 a b)) [
    | inl e ↦ ([], rw (e, trim_start) refl, refl)
    | inr (inl e) ↦
        rw (e, trim_start)
          (more_start a _ _ (low a (blank2-byte a b e)) (trim_start-Starts (b ∷ [])))
    | inr (inr (inl e)) ↦
        let (f, g) = blank2-bytes a b e in
        (
          a ∷ b ∷ [],
          rw (e, trim_start) refl,
          one_more a (b ∷ []) (high a f) (one_more b [] (high b g) refl),
        )
    | inr (inr (inr e)) ↦ absurd (blank2-three a b e)
  ]
  trim_start-Starts (a ∷ b ∷ c ∷ s) = elim (Blank-cases (blank3 a b c)) [
    | inl e ↦ ([], rw (e, trim_start) refl, refl)
    | inr (inl e) ↦
        rw (e, trim_start)
          (more_start a _ _ (low a (blank3-byte a b c e)) (trim_start-Starts (b ∷ c ∷ s)))
    | inr (inr (inl e)) ↦
        let (f, g) = blank3-bytes a b c e in
        rw (e, trim_start)
          (more_start a _ _ (high a f) (more_start b _ _ (high b g) (trim_start-Starts (c ∷ s))))
    | inr (inr (inr e)) ↦
        let (f, g, k) = blank3-triple a b c e in
        rw (e, trim_start)
          (more_start a _ _ (high a f)
            (more_start b _ _ (high b g) (more_start c _ _ (high c k) (trim_start-Starts s))))
  ]

  -- A text is its trimmed part between two parts without the bytes of the test.
  pub trim-parts :
      (s : Bytes) → (w : Bytes) × (v : Bytes) × (s ≡ w ++ (trim s ++ v)) × Free test w × Free test v
  unfolding trim
  trim-parts s =
      let (w, e, f) = trim_start-Starts s in
      let (v, g, white) = trim_end_append (trim_start s) in
      (w, v, e ∙ ap (λ t. w ++ t) g, f, all_blank-Free v white)
