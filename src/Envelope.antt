-- ===== src/Envelope.antt =====
-- backend/app/api/envelope.py: what an endpoint answers. The request id of the envelope is left out.
use resume_helper.Base.{ℕ, Text, ◌≡◌, refl, ◌⊎◌, inl, inr}

-- `success(data)` and `error(code, message, status_code)`; an exception that leaves the endpoint is
-- answered by the framework.
pub data Response {ℓ} (A : Type ℓ) : Type ℓ where
  success : A → Response A
  error : Text → Text → ℕ → Response A
  unhandled : Text → Response A

-- An answer of a helper that the endpoint returns where it is an error.
abbrev pub and_then {ℓ κ} : {A : Type ℓ} {B : Type κ} → Response A → (A → Response B) → Response B
and_then (success a) f = f a
and_then (error code message status_code) f = error code message status_code
and_then (unhandled name) f = unhandled name

pub Response-cases :
    {A : Type 0} (r : Response A)
    → ((a : A) × (r ≡ success a))
      ⊎ (((code : Text) × (message : Text) × (status_code : ℕ) × (r
              ≡ error code message status_code))
          ⊎ ((name : Text) × (r ≡ unhandled name)))
Response-cases (success a) = inl (a, refl)
Response-cases (error code message status_code) = inr (inl (code, message, status_code, refl))
Response-cases (unhandled name) = inr (inr (name, refl))
