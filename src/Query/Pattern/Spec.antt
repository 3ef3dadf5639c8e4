-- ===== src/Query/Pattern/Spec.antt =====
-- What a refname glob means: a star stands for any run of bytes, any other byte for itself.
use git_ents.Base.{ℕ, Bytes, false, [], ◌∷◌, ◌≡◌, ◌==◌}
use git_ents.Query.Pattern.{star_byte}

pub data Matches : Bytes → Bytes → Type 0 where
  done : Matches [] []
  byte : {c : ℕ} {p t : Bytes} → (c == star_byte) ≡ false → Matches p t → Matches (c ∷ p) (c ∷ t)
  skip : {p t : Bytes} → Matches p t → Matches (star_byte ∷ p) t
  eat : {c : ℕ} {p t : Bytes} → Matches (star_byte ∷ p) t → Matches (star_byte ∷ p) (c ∷ t)

-- The second text is what is left of the first after some bytes.
pub data Suffix : Bytes → Bytes → Type 0 where
  whole : {t : Bytes} → Suffix t t
  less : {c : ℕ} {t u : Bytes} → Suffix t u → Suffix (c ∷ t) u

-- A star takes what is before a suffix, and nothing else.
pub Matches-skip_to : {p t u : Bytes} → Suffix t u → Matches p u → Matches (star_byte ∷ p) t
Matches-skip_to whole m = skip m
Matches-skip_to (less s) m = eat (Matches-skip_to s m)

pub Matches-resume :
    {p t : Bytes} → Matches (star_byte ∷ p) t → (u : Bytes) × Suffix t u × Matches p u
Matches-resume {t} (byte n m) = absurd cc
Matches-resume {t} (skip m) = (t, whole, m)
Matches-resume (eat m) = let (u, s, r) = Matches-resume m in (u, less s, r)

pub Matches-byte :
    {c d : ℕ} {p t : Bytes}
    → (c == star_byte) ≡ false
    → Matches (c ∷ p) (d ∷ t)
    → (c ≡ d) × Matches p t
Matches-byte {c} n (byte _ m) = ((λ i. c), m)
Matches-byte n (skip m) = absurd cc
Matches-byte n (eat m) = absurd cc
