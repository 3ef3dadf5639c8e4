-- ===== src/Base/Text.antt =====
-- Texts as lists of bytes, with what the code uses of Rust's `str`: equality, `strip_prefix`,
-- `starts_with`, `split_once` and `contains` of a byte.
use Prim.Native.Nat.{ℕ}
use Prim.Native.Char.{code}
use Prim.Native.String.{String}
use mathlib.Core.Path.{◌≡◌, refl}
use mathlib.Core.Logic.{◌↔◌, inl, inr}
use mathlib.Core.Bool.{Bool, true, false, ◌&&◌}
use mathlib.Core.Option.{Option, none, some}
use mathlib.Core.List.{List, [], ◌∷◌, ◌++◌}
use native.Mathlib.Omega.{arith}
use git_ents.Base.Tests.{◌==◌, if◌then◌else◌, Option-cases}
use git_ents.Base.Lists.{mem}

abbrev pub Bytes : Type 0
Bytes = List ℕ

-- The bytes of an ASCII text.
abbrev pub codes : String → Bytes
codes String.[] = []
codes (String.◌∷◌ c s) = code c ∷ codes s

unfoldable pub bytes_eq : Bytes → Bytes → Bool
bytes_eq [] [] = true
bytes_eq (x ∷ xs) (y ∷ ys) = x == y && bytes_eq xs ys
bytes_eq _ _ = false

pub bytes_eq_sound : (xs ys : Bytes) → bytes_eq xs ys ≡ true → xs ≡ ys
unfolding bytes_eq
bytes_eq_sound [] [] h = refl
bytes_eq_sound [] (y ∷ ys) h = cc
bytes_eq_sound (x ∷ xs) [] h = cc
bytes_eq_sound (x ∷ xs) (y ∷ ys) h = ground (arith, bytes_eq_sound xs ys)

pub bytes_eq_refl : (xs : Bytes) → bytes_eq xs xs ≡ true
unfolding bytes_eq
bytes_eq_refl [] = refl
bytes_eq_refl (x ∷ xs) = ground (arith, bytes_eq_refl xs)

pub bytes_eq_iff : (xs ys : Bytes) → (bytes_eq xs ys ≡ true) ↔ (xs ≡ ys)
bytes_eq_iff xs ys = (bytes_eq_sound xs ys, λ e. rw e (bytes_eq_refl ys))

-- `s.strip_prefix(p)`, the prefix first.
unfoldable pub strip_prefix : Bytes → Bytes → Option Bytes
strip_prefix [] s = some s
strip_prefix (c ∷ p) [] = none
strip_prefix (c ∷ p) (d ∷ s) = if c == d then strip_prefix p s else none

pub strip_prefix-append : (p s : Bytes) → strip_prefix p (p ++ s) ≡ some s
unfolding strip_prefix
strip_prefix-append [] s = refl
strip_prefix-append (c ∷ p) s = ground (arith, strip_prefix-append p s)

pub strip_prefix_sound : (p s : Bytes) {r : Bytes} → strip_prefix p s ≡ some r → s ≡ p ++ r
unfolding strip_prefix
strip_prefix_sound [] s h = cc
strip_prefix_sound (c ∷ p) [] h = cc
strip_prefix_sound (c ∷ p) (d ∷ s) {r} h = ground (arith, strip_prefix_sound p s {r = r})

-- `s.starts_with(p)`, the prefix first.
unfoldable pub starts_with : Bytes → Bytes → Bool
starts_with [] s = true
starts_with (c ∷ p) [] = false
starts_with (c ∷ p) (d ∷ s) = c == d && starts_with p s

pub starts_with-append : (p s : Bytes) → starts_with p (p ++ s) ≡ true
unfolding starts_with
starts_with-append [] s = refl
starts_with-append (c ∷ p) s = ground (arith, starts_with-append p s)

pub starts_with-strip_prefix : (p s : Bytes) → starts_with p s ≡ true → (r : Bytes) × (s ≡ p ++ r)
unfolding starts_with
starts_with-strip_prefix [] s h = (s, refl)
starts_with-strip_prefix (c ∷ p) [] h = cc
starts_with-strip_prefix (c ∷ p) (d ∷ s) h =
    let (r, e) = starts_with-strip_prefix p s (ground arith) in (r, ground arith)

-- `s.split_once(c)` at a byte.
unfoldable pub split_once : ℕ → Bytes → Option (Bytes × Bytes)
split_once c [] = none
split_once c (x ∷ s) =
    if x == c
    then some ([], s)
    else elim (split_once c s) [ none ↦ none | some (a, b) ↦ some (x ∷ a, b) ]

pub split_once-append :
    (c : ℕ) (a b : Bytes) → mem c a ≡ false → split_once c (a ++ c ∷ b) ≡ some (a, b)
unfolding split_once
split_once-append c [] b h = ground arith
split_once-append c (x ∷ a) b h = ground (arith, split_once-append c a b)

-- The two parts are the text again, and the first has no separator.
pub split_once_sound :
    (c : ℕ) (s : Bytes) {a b : Bytes}
    → split_once c s ≡ some (a, b)
    → (s ≡ a ++ c ∷ b) × (mem c a ≡ false)
unfolding split_once
split_once_sound c [] h = cc
split_once_sound c (x ∷ s) {a} {b} h = elim (Option-cases (split_once c s)) [
  | inl e ↦ ground arith
  | inr (ab, e) ↦ ground (arith, split_once_sound c s {a = ab.0} {b = ab.1})
]
