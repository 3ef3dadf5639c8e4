-- ===== src/Base/Fallible.antt =====
-- `Result<T, E>`, and its `?` operator as the bind of a `do` block.
use mathlib.Core.Path.{◌≡◌, refl}
use mathlib.Core.Logic.{◌⊎◌, inl, inr}

pub data Result {ℓ κ} (E : Type ℓ) (T : Type κ) : Type (ℓ ⊔ κ) where
  ok : T → Result E T
  err : E → Result E T

infixl 5 ◌>>=◌
abbrev pub ◌>>=◌ {ℓ κ μ} :
    {E : Type ℓ} {T : Type κ} {U : Type μ} → Result E T → (T → Result E U) → Result E U
err e >>= rest = err e
ok x >>= rest = rest x

-- What a successful bind consists of.
pub >>=-eq-ok {ℓ κ μ} :
    {E : Type ℓ} {T : Type κ} {U : Type μ} (m : Result E T) (rest : T → Result E U) {u : U}
    → (m >>= rest) ≡ ok u
    → (x : T) × (m ≡ ok x) × (rest x ≡ ok u)
>>=-eq-ok (err e) rest h = cc
>>=-eq-ok (ok x) rest h = (x, refl, h)

-- To split on an outcome and keep the equation.
pub Result-cases {ℓ κ} :
    {E : Type ℓ} {T : Type κ} (r : Result E T) → ((x : T) × (r ≡ ok x)) ⊎ ((e : E) × (r ≡ err e))
Result-cases (ok x) = inl (x, refl)
Result-cases (err e) = inr (e, refl)
