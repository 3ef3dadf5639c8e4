-- ===== src/Query/Pattern/Runs.antt =====
-- Comparing literal bytes after a star: what a run of equal bytes says of the matches before it.
use git_ents.Base.{ℕ, Bytes, false, [], ◌∷◌, ◌≡◌, ◌⊎◌, inl, inr, refl, ◌==◌}
use git_ents.Query.Pattern.{star_byte}
use git_ents.Query.Pattern.Spec.{Matches, byte, skip, eat, Suffix, whole, less, Matches-byte}

-- Since the last star, literal bytes alone were compared: from `p` and `t` down to `q` and `u`.
pub data Run : Bytes → Bytes → Bytes → Bytes → Type 0 where
  fresh : {p t : Bytes} → Run p t p t
  more :
      {c : ℕ} {p t q u : Bytes} → (c == star_byte) ≡ false → Run p t (c ∷ q) (c ∷ u) → Run p t q u

pub Run-back : {p t q u : Bytes} → Run p t q u → Matches q u → Matches p t
Run-back fresh m = m
Run-back (more n r) m = Run-back r (byte n m)

pub Suffix-tail : {c d : ℕ} {u v : Bytes} → Suffix (c ∷ u) (d ∷ v) → Suffix u v
Suffix-tail whole = whole
Suffix-tail (less whole) = less whole
Suffix-tail (less (less {c} s)) = less (Suffix-tail {c = c} (less s))

-- A literal byte is matched by itself.
pub byte_head :
    {c : ℕ} {q v : Bytes}
    → (c == star_byte) ≡ false
    → Matches (c ∷ q) v
    → (w : Bytes) × (v ≡ c ∷ w) × Matches q w
byte_head n (byte {c} {p} {t} _ m) = (t, refl, m)
byte_head n (skip m) = absurd cc
byte_head n (eat m) = absurd cc

pub Suffix-join : {t u v : Bytes} → Suffix t u → Suffix u v → Suffix t v
Suffix-join whole s = s
Suffix-join (less r) s = less (Suffix-join r s)

-- Wherever the pattern after the star matches, the literals compared since match there too.
pub Run-forth :
    {p t q u v : Bytes}
    → Run p t q u
    → Suffix t v
    → Matches p v
    → (w : Bytes) × Suffix u w × Matches q w
Run-forth {v = v} fresh s m = (v, s, m)
Run-forth (more n r) s m =
    let (w, s', m') = Run-forth r s m in
    let (x, e, m'') = byte_head n m' in (x, Suffix-tail (rw e at s'), m'')

pub Run-exact : {p t q u : Bytes} → Run p t q u → Matches p t → Matches q u
Run-exact fresh m = m
Run-exact (more n r) m = (Matches-byte n (Run-exact r m)).1

pub star_choice :
    {d : ℕ} {p t : Bytes}
    → Matches (star_byte ∷ p) (d ∷ t)
    → Matches (star_byte ∷ p) t ⊎ Matches p (d ∷ t)
star_choice (byte n m) = absurd cc
star_choice (skip m) = inr m
star_choice (eat m) = inl m

pub star_empty : {p : Bytes} → Matches (star_byte ∷ p) [] → Matches p []
star_empty (skip m) = m

pub Suffix-empty : {u : Bytes} → Suffix [] u → u ≡ []
Suffix-empty whole = refl

pub empty_pattern : {d : ℕ} {t : Bytes} → ¬ Matches [] (d ∷ t)
empty_pattern m = elim m [ ]
