-- ===== src/Base/Lists.antt =====
-- Lists measured by native numbers, and membership of a number in a list as a test.
use Prim.Native.Nat.{ℕ, zero, suc, ◌+◌, ◌≤◌, ◌<◌}
use mathlib.Core.Path.{◌≡◌, refl}
use mathlib.Core.Logic.{◌⊎◌, inl, inr}
use mathlib.Core.Bool.{Bool, false, ◌||◌}
use mathlib.Core.Option.{Option, none, some}
use mathlib.Core.List.{List, [], ◌∷◌, ◌++◌}
use native.Mathlib.Omega.{arith}
use git_ents.Base.Tests.{◌==◌}

module _ {ℓ} {A : Type ℓ} where
  abbrev pub length : List A → ℕ
  length [] = 0
  length (x ∷ xs) = suc (length xs)

  pub length-append : (xs ys : List A) → length (xs ++ ys) ≡ length xs + length ys
  length-append [] ys = omega arith
  length-append (x ∷ xs) ys = omega (arith, length-append xs ys)

  abbrev pub take : ℕ → List A → List A
  take zero xs = []
  take (suc n) [] = []
  take (suc n) (x ∷ xs) = x ∷ take n xs

  abbrev pub drop : ℕ → List A → List A
  drop zero xs = xs
  drop (suc n) [] = []
  drop (suc n) (x ∷ xs) = drop n xs

  abbrev pub get_elem? : List A → ℕ → Option A
  get_elem? [] n = none
  get_elem? (x ∷ xs) zero = some x
  get_elem? (x ∷ xs) (suc n) = get_elem? xs n

  -- What an index finds is the first element that is left after so many.
  pub get_elem?-drop :
      (xs : List A) (n : ℕ) {x : A}
      → get_elem? xs n ≡ some x
      → (drop n xs ≡ x ∷ drop (suc n) xs) × (n < length xs)
  get_elem?-drop [] n h = cc
  get_elem?-drop (y ∷ xs) zero h = (ground arith, omega arith)
  get_elem?-drop (y ∷ xs) (suc n) h = let (e, b) = get_elem?-drop xs n h in (e, omega (arith, b))

  pub get_elem?-none :
      (xs : List A) (n : ℕ) → get_elem? xs n ≡ none → (drop n xs ≡ []) × (length xs ≤ n)
  get_elem?-none [] zero h = (refl, omega arith)
  get_elem?-none [] (suc n) h = (refl, omega arith)
  get_elem?-none (y ∷ xs) zero h = cc
  get_elem?-none (y ∷ xs) (suc n) h = let (e, b) = get_elem?-none xs n h in (e, omega (arith, b))

  -- Inside the list, what is left begins with some element.
  pub drop-some :
      (xs : List A) (n : ℕ) → n < length xs → (x : A) × (drop n xs ≡ x ∷ drop (suc n) xs)
  drop-some [] n h = absurd (omega arith)
  drop-some (x ∷ xs) zero h = (x, refl)
  drop-some (x ∷ xs) (suc n) h = drop-some xs n (omega (arith, h))

  pub drop-length : (xs : List A) (n : ℕ) → length xs ≤ n → drop n xs ≡ []
  drop-length [] zero h = refl
  drop-length [] (suc n) h = refl
  drop-length (x ∷ xs) zero h = absurd (omega arith)
  drop-length (x ∷ xs) (suc n) h = drop-length xs n (omega arith)

  -- Whether some element passes the test.
  abbrev pub any : (A → Bool) → List A → Bool
  any f [] = false
  any f (x ∷ xs) = f x || any f xs

-- Whether a number is in a list: `contains` of a set of object ids.
abbrev pub mem : ℕ → List ℕ → Bool
mem x [] = false
mem x (y ∷ ys) = y == x || mem x ys

pub mem-append : (x : ℕ) (ys zs : List ℕ) → mem x (ys ++ zs) ≡ (mem x ys || mem x zs)
mem-append x [] zs = refl
mem-append x (y ∷ ys) zs = ground (arith, mem-append x ys zs)

module _ {ℓ} {A : Type ℓ} where
  -- `rev_append xs ys`: the list `xs` turned round, in front of `ys`. It is what `extend` does to a
  -- stack that is kept with its top first.
  abbrev pub rev_append : List A → List A → List A
  rev_append [] ys = ys
  rev_append (x ∷ xs) ys = rev_append xs (x ∷ ys)

  pub length-rev_append : (xs ys : List A) → length (rev_append xs ys) ≡ length xs + length ys
  length-rev_append [] ys = omega arith
  length-rev_append (x ∷ xs) ys = omega (arith, length-rev_append xs (x ∷ ys))

pub mem-rev_append : (x : ℕ) (ys zs : List ℕ) → mem x (rev_append ys zs) ≡ (mem x ys || mem x zs)
mem-rev_append x [] zs = refl
mem-rev_append x (y ∷ ys) zs = ground (arith, mem-rev_append x ys (y ∷ zs))

-- An element of a list.
pub data In {A : Type 0} (x : A) : List A → Type 0 where
  now : {xs : List A} → In x (x ∷ xs)
  later : {y : A} {xs : List A} → In x xs → In x (y ∷ xs)

module _ {A : Type 0} where
  pub In-append : {x : A} (xs ys : List A) → In x xs → In x (xs ++ ys)
  In-append _ ys now = now
  In-append _ ys (later {xs = xs} i) = later (In-append xs ys i)

  pub In-last : (x : A) (xs : List A) → In x (xs ++ x ∷ [])
  In-last x [] = now
  In-last x (y ∷ xs) = later (In-last x xs)

  pub In-snoc : {x : A} (xs : List A) (y : A) → In x (xs ++ y ∷ []) → In x xs ⊎ (x ≡ y)
  In-snoc [] y now = inr refl
  In-snoc [] y (later i) = inl i
  In-snoc (z ∷ xs) y now = inl now
  In-snoc (z ∷ xs) y (later i) = elim (In-snoc xs y i) [ inl k ↦ inl (later k) | inr e ↦ inr e ]
