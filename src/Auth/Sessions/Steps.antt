-- ===== src/Auth/Sessions/Steps.antt =====
-- app/routers/auth.py: the requests that succeed, as steps from the accounts to the accounts.
use astra_back.Prelude.{ℕ, ◌≡◌, Option, Text}
use astra_back.Http.{ok}
use astra_back.Auth.Accounts.{Accounts}
use astra_back.Auth.Tokens.{Crypto, AuthSettings}
use astra_back.Auth.Handlers.{
  NewIds, SignupRequest, AuthReply, PasswordReply, signup, login, update_profile, change_password,
}
use astra_back.Auth.Google.{TokenResponse, IdClaims, Callback, Landing, google_callback}

-- The third-party functions and the settings that the requests run with.
pub record Context : Type 0 where
  pub crypto : Crypto
  pub settings : AuthSettings
  pub validate : Text → Option Text
  pub post : Text → Option TokenResponse
  pub verify : Text → Option IdClaims

pub data Step (x : Context) : Accounts → Accounts → Type 0 where
  signed_up :
      {us : Accounts} (now : ℕ) (ids : NewIds) (body : SignupRequest) (r : AuthReply)
      → signup x.crypto x.settings x.validate now ids body us ≡ ok r
      → Step x us r.users
  logged_in :
      {us : Accounts} (now : ℕ) (email password : Text) (r : AuthReply)
      → login x.crypto x.settings now email password us ≡ ok r
      → Step x us r.users
  profile_updated :
      {us : Accounts} (now : ℕ) (token : Option Text) (name : Text) (r : AuthReply)
      → update_profile x.crypto x.settings now token name us ≡ ok r
      → Step x us r.users
  password_changed :
      {us : Accounts} (now : ℕ) (token : Option Text) (salt current new : Text) (r : PasswordReply)
      → change_password x.crypto x.settings now token salt current new us ≡ ok r
      → Step x us r.users
  called_back :
      {us : Accounts} (now : ℕ) (ids : NewIds) (q : Callback) (l : Landing)
      → google_callback x.crypto x.settings x.post x.verify now ids q us ≡ ok l
      → Step x us l.users

pub data Reach (x : Context) : Accounts → Accounts → Type 0 where
  here : {us : Accounts} → Reach x us us
  next : {us vs ws : Accounts} → Step x us vs → Reach x vs ws → Reach x us ws
