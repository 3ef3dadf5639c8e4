-- ===== src/Anchor/Range/Diff.antt =====
-- What a list of hunks says of two lists of lines.
use git_ents.Base.{
  ℕ, zero, suc, ◌+◌, ◌-◌, ◌≤◌, ◌≡◌, refl, ap, sym, ◌∙◌, List, [], ◌∷◌, length, take, drop, arith,
}
use git_ents.Anchor.Types.{LineRange, Hunk}

-- The lines between the hunks are the same lines in the same order. `i` and `j` are where the part
-- that is left begins, in the old and in the new lines.
pub data IsDiff {ℓ} {A : Type ℓ} (old new : List A) : ℕ → ℕ → List Hunk → Type ℓ where
  no_more :
      {i j : ℕ} → i ≤ length old → j ≤ length new → drop i old ≡ drop j new → IsDiff old new i j []
  next :
      {i j : ℕ} {h : Hunk} {hs : List Hunk} (k : ℕ)
      → h.before_start ≡ i + k
      → h.after_start ≡ j + k
      → take k (drop i old) ≡ take k (drop j new)
      → h.before_start ≤ h.before_end
      → h.after_start ≤ h.after_end
      → h.before_end ≤ length old
      → h.after_end ≤ length new
      → IsDiff old new h.before_end h.after_end hs
      → IsDiff old new i j (h ∷ hs)

abbrev pub lines_in {ℓ} : {A : Type ℓ} → LineRange → List A → List A
lines_in range xs = take (range.end - (range.start - 1)) (drop (range.start - 1) xs)

module _ {ℓ} {A : Type ℓ} where
  drop_nil : (b : ℕ) → drop {A = A} b [] ≡ []
  drop_nil zero = refl
  drop_nil (suc b) = refl

  pub drop_more : (a b : ℕ) (xs : List A) → drop b (drop a xs) ≡ drop (a + b) xs
  drop_more zero b xs = let e : 0 + b ≡ b = omega arith in rw e refl
  drop_more (suc a) b [] = let e : suc a + b ≡ suc (a + b) = omega arith in rw e (drop_nil b)
  drop_more (suc a) b (x ∷ xs) =
      let e : suc a + b ≡ suc (a + b) = omega arith in rw e (drop_more a b xs)

  -- A part of the first `k` elements is a part of the list.
  take_part :
      (k a n : ℕ) (xs : List A) → a + n ≤ k → take n (drop a (take k xs)) ≡ take n (drop a xs)
  take_part zero a zero xs h = refl
  take_part zero a (suc n) xs h = absurd (omega (arith, h))
  take_part (suc k) a n [] h = refl
  take_part (suc k) zero zero (x ∷ xs) h = refl
  take_part (suc k) zero (suc n) (x ∷ xs) h =
      ap (λ ys. x ∷ ys) (take_part k zero n xs (omega (arith, h)))
  take_part (suc k) (suc a) n (x ∷ xs) h = take_part k a n xs (omega (arith, h))

  -- Lists that agree on their first `k` elements agree on any part of those.
  pub part_same :
      (k a n : ℕ) (xs ys : List A)
      → a + n ≤ k
      → take k xs ≡ take k ys
      → take n (drop a xs) ≡ take n (drop a ys)
  part_same k a n xs ys h e =
      sym (take_part k a n xs h) ∙ ap (λ zs. take n (drop a zs)) e ∙ take_part k a n ys h

  pub length-drop : (i : ℕ) (xs : List A) → length (drop i xs) ≡ length xs - i
  length-drop zero xs = omega arith
  length-drop (suc i) [] = omega arith
  length-drop (suc i) (x ∷ xs) = omega (arith, length-drop i xs)
