-- ===== src/Base/Sort.antt =====
-- `sort` of a list of texts: by the order of their bytes.
use mathlib.Core.Path.{◌≡◌, refl}
use mathlib.Core.Logic.{inl, inr}
use mathlib.Core.Bool.{Bool, true, false, ◌||◌}
use mathlib.Core.List.{List, [], ◌∷◌}
use native.Mathlib.Omega.{arith}
use git_ents.Base.Tests.{◌==◌, ltb, if◌then◌else◌, Bool-cases}
use git_ents.Base.Lists.{any}
use git_ents.Base.Text.{Bytes}

-- The first text is not after the second.
unfoldable pub bytes_leb : Bytes → Bytes → Bool
bytes_leb [] t = true
bytes_leb (a ∷ s) [] = false
bytes_leb (a ∷ s) (b ∷ t) = if a == b then bytes_leb s t else ltb a b

unfoldable pub insert_bytes : Bytes → List Bytes → List Bytes
unfolding bytes_leb
insert_bytes p [] = p ∷ []
insert_bytes p (q ∷ qs) = if bytes_leb p q then p ∷ q ∷ qs else q ∷ insert_bytes p qs

unfoldable pub sort_bytes : List Bytes → List Bytes
unfolding insert_bytes
sort_bytes [] = []
sort_bytes (p ∷ ps) = insert_bytes p (sort_bytes ps)

module _ (f : Bytes → Bool) where
  any-insert_bytes : (p : Bytes) (qs : List Bytes) → any f (insert_bytes p qs) ≡ (f p || any f qs)
  unfolding insert_bytes
  any-insert_bytes p [] = refl
  any-insert_bytes p (q ∷ qs) = elim (Bool-cases (bytes_leb p q)) [
    | inl e ↦ rw e refl
    | inr e ↦ rw e (ground (arith, any-insert_bytes p qs))
  ]

  -- Sorting keeps what some element passes.
  pub any-sort_bytes : (ps : List Bytes) → any f (sort_bytes ps) ≡ any f ps
  unfolding sort_bytes
  any-sort_bytes [] = refl
  any-sort_bytes (p ∷ ps) = ground (arith, any-insert_bytes p (sort_bytes ps), any-sort_bytes ps)

insert_bytes-nonempty : (p : Bytes) (qs : List Bytes) → ¬ (insert_bytes p qs ≡ [])
unfolding insert_bytes
insert_bytes-nonempty p [] h = cc
insert_bytes-nonempty p (q ∷ qs) h = ground arith

-- Only the empty list is sorted to the empty list.
pub sort_bytes-eq-nil : (ps : List Bytes) → sort_bytes ps ≡ [] → ps ≡ []
unfolding sort_bytes
sort_bytes-eq-nil [] h = refl
sort_bytes-eq-nil (p ∷ ps) h = absurd (insert_bytes-nonempty p (sort_bytes ps) h)

pub sort_bytes-nil : sort_bytes [] ≡ []
unfolding sort_bytes
sort_bytes-nil = refl
