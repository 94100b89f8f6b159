-- ===== src/Auth/Google.antt =====
-- app/auth/google.py and the callback of app/routers/auth.py: an account for a Google identity. The
-- endpoint and the verifier are third-party and are arguments.
use astra_back.Prelude.{
  ℕ, Bool, true, false, not, ◌&&◌, ◌||◌, Option, none, some, [], ◌∷◌, ◌==◌, take, find_if, Text,
  text_eq, codes, strip, is_space, if◌then◌else◌,
}
use astra_back.Store.{update}
use astra_back.Http.{Result, ok, ◌>>=◌}
use astra_back.Auth.Accounts.{by_google, UserRow, Accounts, user_by_email, add_user, lower}
use astra_back.Auth.Tokens.{Crypto, AuthSettings}
use astra_back.Auth.Handlers.{NewIds, cookie_for}

-- What the token endpoint answers; `none` of the endpoint is a failure of the network.
pub record TokenResponse : Type 0 where
  pub status : ℕ
  pub id_token : Option Text

pub record IdClaims : Type 0 where
  pub iss : Option Text
  pub sub : Option Text
  pub email : Option Text
  pub email_verified : Bool
  pub name : Option Text

-- `none` is `GoogleAuthError`.
abbrev pub exchange_code : (Text → Option TokenResponse) → Text → Option Text
exchange_code post code = elim (post code) [
  | none ↦ none
  | some r ↦ if r.status == 200 then r.id_token else none
]

abbrev pub is_google : Option Text → Bool
is_google none = false
is_google (some iss) =
    text_eq iss (codes "accounts.google.com") || text_eq iss (codes "https://accounts.google.com")

abbrev pub verify_id_token : (Text → Option IdClaims) → Text → Option IdClaims
verify_id_token verify token = elim (verify token) [
  | none ↦ none
  | some c ↦ if is_google c.iss then some c else none
]

-- A text that is neither missing nor empty.
abbrev pub is_given : Option Text → Bool
is_given none = false
is_given (some []) = false
is_given (some (c ∷ s)) = true

abbrev pub same_text : Option Text → Option Text → Bool
same_text (some a) (some b) = text_eq a b
same_text _ _ = false

abbrev pub or_text : Option Text → Text → Text
or_text none d = d
or_text (some []) d = d
or_text (some (c ∷ s)) d = c ∷ s

-- `s.split("@")[0]`
abbrev before_at : Text → Text
before_at [] = []
before_at (c ∷ s) = let rest = before_at s in if c == 64 then [] else c ∷ rest

abbrev pub google_email : IdClaims → Text
google_email c = lower (strip is_space (or_text c.email []))

abbrev google_name : IdClaims → Text
google_name c =
    take 80
      (strip is_space (or_text c.name (or_text (some (before_at (google_email c))) (codes "User"))))

abbrev pub google_user : NewIds → IdClaims → UserRow
google_user ids c = record {
  id = ids.user_id;
  email = google_email c;
  password_hash = none;
  name = google_name c;
  created_at = ids.created_at;
  role = codes "user";
  auth_provider = by_google;
  google_sub = c.sub;
  token_version = 0;
}

abbrev pub linked : Option Text → UserRow → UserRow
linked sub u = record u { google_sub = sub }

-- The account of the identity, and the accounts.
pub record Provisioned : Type 0 where
  pub user : UserRow
  pub users : Accounts

abbrev pub returning : Option Text → Accounts → Option UserRow
returning sub users = if is_given sub then find_if (λ u. same_text u.google_sub sub) users else none

abbrev pub link_user : IdClaims → UserRow → Accounts → Provisioned
link_user c u users =
    if not (is_given u.google_sub) && is_given c.sub
    then record { user = linked c.sub u; users = update (λ x. x.id == u.id) (linked c.sub) users }
    else record { user = u; users = users }

abbrev pub provision_by_email : NewIds → IdClaims → Accounts → Option UserRow → Result Provisioned
provision_by_email ids c users (some u) = ok (link_user c u users)
provision_by_email ids c users none = add_user (google_user ids c) users >>= λ users'.
    ok (record { user = google_user ids c; users = users' })

abbrev pub provision_returning : NewIds → IdClaims → Accounts → Option UserRow → Result Provisioned
provision_returning ids c users (some u) = ok (record { user = u; users = users })
provision_returning ids c users none =
    provision_by_email ids c users (user_by_email (google_email c) users)

unfoldable pub provision_google_user : NewIds → IdClaims → Accounts → Result Provisioned
provision_google_user ids c users = provision_returning ids c users (returning c.sub users)

-- The query of the callback, and the cookie that the login page has set.
pub record Callback : Type 0 where
  pub code : Option Text
  pub state : Option Text
  pub error : Option Text
  pub cookie_state : Option Text

-- Back to the login page with an error, or to the application with a session cookie.
pub data Redirect : Type 0 where
  to_login : Text → Redirect
  home : Text → Redirect

pub record Landing : Type 0 where
  pub redirect : Redirect
  pub users : Accounts

abbrev pub refused : Text → Accounts → Result Landing
refused error users = ok (record { redirect = to_login error; users = users })

abbrev pub identity :
    (Text → Option TokenResponse) → (Text → Option IdClaims) → Option Text → Option IdClaims
identity post verify none = none
identity post verify (some code) = elim (exchange_code post code) [
  | none ↦ none
  | some token ↦ verify_id_token verify token
]

module _ (crypto : Crypto) (settings : AuthSettings) where
  abbrev pub landed : ℕ → Provisioned → Result Landing
  landed now p =
      ok (record { redirect = home (cookie_for crypto settings now p.user); users = p.users })

  abbrev pub land : ℕ → NewIds → Accounts → Option IdClaims → Result Landing
  land now ids users none = refused (codes "google") users
  land now ids users (some c) =
      if not (is_given c.email) || not c.email_verified
      then refused (codes "email_unverified") users
      else provision_google_user ids c users >>= landed now

  unfoldable pub google_callback :
      (Text → Option TokenResponse)
      → (Text → Option IdClaims)
      → ℕ
      → NewIds
      → Callback
      → Accounts
      → Result Landing
  google_callback post verify now ids q users =
      if not settings.google_enabled
      then refused (codes "google_disabled") users
      else if is_given q.error || not (is_given q.code)
      then refused (codes "google") users
      else if not (is_given q.state)
          || (not (is_given q.cookie_state) || not (same_text q.state q.cookie_state))
      then refused (codes "state") users
      else land now ids users (identity post verify q.code)
