-- ===== src/Base/Results.antt =====
-- Results of code that may throw. The constructors are the exceptions of the services: those of
-- NestJS with their message, the errors of the database client when the row to update is missing and
-- when a value has not the type of its column, and that of a token that cannot be signed.
use Prim.Native.String.{String}
use mathlib.Core.Path.{◌≡◌, refl}
use mathlib.Core.Logic.{◌⊎◌, inl, inr}

pub data Error : Type 0 where
  bad_request unauthorized not_found conflict forbidden service_unavailable : String → Error
  record_missing invalid_value signing_failed : Error

pub data Result {ℓ} (A : Type ℓ) : Type ℓ where
  ok : A → Result A
  err : Error → Result A

pub Result-cases {ℓ} :
    {A : Type ℓ} (r : Result A) → ((a : A) × (r ≡ ok a)) ⊎ ((e : Error) × (r ≡ err e))
Result-cases (ok a) = inl (a, refl)
Result-cases (err e) = inr (e, refl)
