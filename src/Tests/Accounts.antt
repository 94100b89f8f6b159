-- ===== src/Tests/Accounts.antt =====
-- Accounts and sessions at concrete rows, with functions in place of bcrypt, PyJWT and Google.
use astra_back.Prelude.{
  ℕ, ◌≡◌, refl, true, Option, none, some, List, [], ◌∷◌, pos, Text, codes, text_eq, text_eq_refl,
  strip, is_some, or_else, arith, if◌then◌else◌,
}
use astra_back.Http.{ok}
use astra_back.Auth.Accounts.{UserRow, add_user, normalize_email}
use astra_back.Auth.Tokens.{
  Claim, text, integer, Claims, session_claims, is_current, Crypto, AuthSettings, verify_password,
  create_access_token, decode_access_token, user_from_token, get_current_user,
}
use astra_back.Auth.Handlers.{
  NewIds, SignupRequest, AuthReply, PasswordReply, new_user, with_password, cookie_for, signed_in,
  signup, change_password,
}
use astra_back.Auth.Google.{
  IdClaims, google_user, Callback, home, Landing, provision_google_user, google_callback,
}
use astra_back.Auth.Sessions.Steps.{Context, Reach, here, next, signed_up, called_back}
use astra_back.Auth.Sessions.Unique.{IsUnique, Reach-IsUnique}
use astra_back.Auth.Sessions.Epochs.{Change, Runs, admits, epochs, Reach-refines}
use astra_back.Auth.Sessions.Eviction.{change_password_evicts}
use astra_back.Auth.Sessions.Entry.{GetsIn, signup_opens}
use astra_back.Auth.Sessions.Consent.{IsConsent, google_callback-IsConsent}

abbrev text_code : Claim → ℕ
text_code (text i) = i
text_code _ = 0

abbrev number_code : Claim → ℕ
number_code (integer (pos n)) = n
number_code _ = 0

abbrev plain_encode : Claims → Text → Text
plain_encode c secret = text_code c.sub ∷ number_code c.tv ∷ c.iat ∷ c.exp ∷ []

abbrev if_current : ℕ → Claims → Option Claims
if_current now c = if is_current now c then some c else none

abbrev plain_decode : ℕ → Text → Text → Option Claims
plain_decode now (i ∷ n ∷ a ∷ b ∷ []) secret = if_current now (session_claims i n a b)
plain_decode now _ secret = none

same_if_current :
    (a b : ℕ) (e c d : Claims) → if_current a e ≡ some c → if_current b e ≡ some d → c ≡ d
same_if_current a b e c d h k = ground arith

plain_decode_same :
    (a b : ℕ) (token secret : Text) (c d : Claims)
    → plain_decode a token secret ≡ some c
    → plain_decode b token secret ≡ some d
    → c ≡ d
plain_decode_same a b [] secret c d h k = cc
plain_decode_same a b (i ∷ []) secret c d h k = cc
plain_decode_same a b (i ∷ n ∷ []) secret c d h k = cc
plain_decode_same a b (i ∷ n ∷ s ∷ []) secret c d h k = cc
plain_decode_same a b (i ∷ n ∷ s ∷ t ∷ []) secret c d h k =
    same_if_current a b (session_claims i n s t) c d h k
plain_decode_same a b (i ∷ n ∷ s ∷ t ∷ u ∷ v) secret c d h k = cc

abbrev plain_crypto : Crypto
plain_crypto = record {
  prehash = λ p. p;
  hashpw = λ p salt. 36 ∷ p;
  checkpw = λ p h. some (text_eq h (36 ∷ p));
  encode = plain_encode;
  decode = plain_decode;
  hashpw_shown = λ p salt. refl;
  checkpw-hashpw = λ p salt. rw (text_eq_refl p) refl;
  encode_shown = λ c secret. refl;
  decode-encode = λ i n a b now secret h. rw (h) refl;
  decode_same = plain_decode_same;
}

abbrev open_settings : AuthSettings
open_settings = record {
  jwt_secret = codes "secret";
  jwt_ttl_min = 60;
  signup_enabled = true;
  google_enabled = true;
}

abbrev google_claims : IdClaims
google_claims = record {
  iss = some (codes "accounts.google.com");
  sub = some (codes "10");
  email = some (codes "Bob@x.org");
  email_verified = true;
  name = none;
}

abbrev context : Context
context = record {
  crypto = plain_crypto;
  settings = open_settings;
  validate = λ s. some s;
  post = λ code. some (record { status = 200; id_token = some code });
  verify = λ t. some google_claims;
}

abbrev ada_ids : NewIds
ada_ids = record { user_id = 1; salt = []; created_at = codes "t1" }

abbrev bob_ids : NewIds
bob_ids = record { user_id = 2; salt = []; created_at = codes "t2" }

abbrev ada_body : SignupRequest
ada_body = record { email = codes " Ada@x.org"; password = codes "password1"; name = codes "Ada" }

abbrev ada : UserRow
ada = new_user plain_crypto ada_ids (codes "ada@x.org") (codes "password1") (codes "Ada")

abbrev bob : UserRow
bob = google_user bob_ids google_claims

abbrev ada_reply : AuthReply
ada_reply = signed_in plain_crypto open_settings 1000 ada (ada ∷ [])

abbrev bob_query : Callback
bob_query = record {
  code = some (codes "code");
  state = some (codes "state");
  error = none;
  cookie_state = some (codes "state");
}

abbrev bob_landing : Landing
bob_landing = record {
  redirect = home (cookie_for plain_crypto open_settings 2000 bob);
  users = bob ∷ ada ∷ [];
}

signup_runs :
    signup plain_crypto open_settings context.validate 1000 ada_ids ada_body [] ≡ ok ada_reply
unfolding signup normalize_email strip add_user
signup_runs = refl

callback_runs :
    google_callback plain_crypto open_settings context.post context.verify 2000 bob_ids bob_query
      (ada ∷ [])
    ≡ ok bob_landing
unfolding google_callback provision_google_user add_user strip
callback_runs = refl

two_steps : Reach context [] (bob ∷ ada ∷ [])
two_steps =
    next (signed_up 1000 ada_ids ada_body ada_reply signup_runs)
      (next (called_back 2000 bob_ids bob_query bob_landing callback_runs) here)

Reach-IsUnique_example : IsUnique (bob ∷ ada ∷ [])
Reach-IsUnique_example = Reach-IsUnique context (bob ∷ ada ∷ []) two_steps

Reach-refines_example :
    ((cs : List Change) × Runs cs (epochs []) (epochs (bob ∷ ada ∷ [])))
    × ((now : ℕ) (token : Option Text)
        → is_some (user_from_token plain_crypto open_settings now token (bob ∷ ada ∷ []))
          ≡ admits
              (decode_access_token plain_crypto open_settings now (or_else [] token))
              (epochs (bob ∷ ada ∷ [])))
Reach-refines_example = Reach-refines context [] (bob ∷ ada ∷ []) two_steps

google_callback-IsConsent_example :
    IsConsent context 2000 bob_ids bob_query (ada ∷ []) bob_landing.redirect (bob ∷ ada ∷ [])
google_callback-IsConsent_example =
    google_callback-IsConsent context 2000 bob_ids (ada ∷ []) bob_query bob_landing callback_runs

signup_opens_example : GetsIn context 5000 6000 (codes "ADA@x.org ") (codes "password1") ada_reply
unfolding strip
signup_opens_example =
    signup_opens context 1000 5000 6000 ada_ids ada_body (codes "ADA@x.org ") [] ada_reply
      signup_runs refl (omega arith) (omega arith)

abbrev ada_cookie : Option Text
ada_cookie = some (cookie_for plain_crypto open_settings 1000 ada)

abbrev ada_changed : PasswordReply
ada_changed =
    let new = with_password plain_crypto [] (codes "password2") ada in
    record { cookie = cookie_for plain_crypto open_settings 3000 new; users = new ∷ [] }

ada_current :
    (now : ℕ)
    → is_current now (session_claims 1 0 1 3601) ≡ true
    → get_current_user plain_crypto open_settings now ada_cookie (ada ∷ []) ≡ ok ada
unfolding get_current_user user_from_token decode_access_token create_access_token
ada_current now h = rw (h) refl

change_runs :
    change_password plain_crypto open_settings 3000 ada_cookie []
      (codes "password1")
      (codes "password2")
      (ada ∷ [])
    ≡ ok ada_changed
unfolding change_password get_current_user user_from_token decode_access_token create_access_token
    verify_password
change_runs = refl

ada_opened : user_from_token plain_crypto open_settings 2000 ada_cookie (ada ∷ []) ≡ some ada
unfolding user_from_token decode_access_token create_access_token
ada_opened = refl

change_password_evicts_example :
    user_from_token plain_crypto open_settings 4000 ada_cookie ada_changed.users ≡ none
change_password_evicts_example =
    change_password_evicts context 3000 2000 ada_cookie ada_cookie [] (codes "password1")
      (codes "password2") (ada ∷ []) ada_changed.users ada ada_changed (ada_current 3000 refl)
      change_runs ada_opened here 4000
