-- ===== src/Gate/Errors.antt =====
-- The gate's infrastructure errors (crates/kernel/ents-gate/src/error.rs), without their texts and
-- sources. `out_of_fuel` belongs to the model only.
use git_ents.Base.{Result, ok, err, ◌≡◌, refl, ◌⊎◌, inl, inr}
use git_ents.Substrate.Refs.{Oid, StoreError}

pub data GateError : Type 0 where
  refs : GateError
  object missing decode entity : Oid → GateError
  out_of_fuel : GateError

abbrev pub Gate {ℓ} : Type ℓ → Type ℓ
Gate A = Result GateError A

-- `?` on a read of the ref store.
abbrev pub from_store {ℓ} : {A : Type ℓ} → Result StoreError A → Gate A
from_store (ok a) = ok a
from_store (err _) = err refs

-- To split on an outcome and keep the equation.
pub Gate-cases {ℓ} :
    {A : Type ℓ} (r : Gate A) → ((a : A) × (r ≡ ok a)) ⊎ ((e : GateError) × (r ≡ err e))
Gate-cases (ok a) = inl (a, refl)
Gate-cases (err e) = inr (e, refl)

pub Store-cases {ℓ} :
    {A : Type ℓ} (r : Result StoreError A)
    → ((a : A) × (r ≡ ok a)) ⊎ ((e : StoreError) × (r ≡ err e))
Store-cases (ok a) = inl (a, refl)
Store-cases (err e) = inr (e, refl)
