-- ===== src/Http.antt =====
-- The errors that a handler raises (`HTTPException`), and handlers as functions of the tables. An
-- error carries no tables: but for `telemetry_batch`, which says what it leaves, a handler raises its
-- errors before it has written anything.
use mathlib.Core.Path.{subst}
use astra_back.Prelude.{ℕ, ◌≡◌, refl, Bool, true, false}

pub data HttpError : Type 0 where
  model_not_found bad_name not_servable deployment_not_found invalid_api_key
        deployment_not_found_for_key deployment_paused no_artifact batch_too_large run_not_found
        not_authenticated signup_disabled invalid_email invalid_name weak_password email_taken
        invalid_credentials wrong_password integrity_error :
      HttpError

abbrev pub status_code : HttpError → ℕ
status_code model_not_found = 404
status_code bad_name = 400
status_code not_servable = 409
status_code deployment_not_found = 404
status_code invalid_api_key = 401
status_code deployment_not_found_for_key = 404
status_code deployment_paused = 409
status_code no_artifact = 404
status_code batch_too_large = 422
status_code run_not_found = 404
status_code not_authenticated = 401
status_code signup_disabled = 403
status_code invalid_email = 400
status_code invalid_name = 400
status_code weak_password = 400
status_code email_taken = 409
status_code invalid_credentials = 401
status_code wrong_password = 400
status_code integrity_error = 500

pub data Result (A : Type 0) : Type 0 where
  ok : A → Result A
  err : HttpError → Result A

infixl 5 ◌>>=◌ ◌>>◌
abbrev pub ◌>>=◌ : {A B : Type 0} → Result A → (A → Result B) → Result B
ok a >>= f = f a
err e >>= f = err e

abbrev pub ◌>>◌ : {B : Type 0} → Result (Unit {0}) → Result B → Result B
m >> k = m >>= λ _. k

-- `if not test: raise error`
abbrev pub require : Bool → HttpError → Result (Unit {0})
require true e = ok tt
require false e = err e

-- What holds of every result of a chain, by what its first part gives.
pub bind-keeps :
    {A B : Type 0} (P : B → Type 0) {f : A → Result B} (r : Result A)
    → ((a : A) → r ≡ ok a → (b : B) → f a ≡ ok b → P b)
    → (b : B) → (r >>= f) ≡ ok b
    → P b
bind-keeps P (ok a) step b h = step a refl b h
bind-keeps P (err e) step b h = cc

pub ok-keeps : {A : Type 0} (P : A → Type 0) {a : A} → P a → (b : A) → ok a ≡ ok b → P b
ok-keeps P {a} p b h = let same : a ≡ b = cc in subst P same p

pub require-holds : (b : Bool) (e : HttpError) {t : Unit {0}} → require b e ≡ ok t → b ≡ true
require-holds true e h = refl
require-holds false e h = cc
