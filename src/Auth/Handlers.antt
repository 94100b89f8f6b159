-- ===== src/Auth/Handlers.antt =====
-- app/routers/auth.py: sign-up, login, the profile and the password. A handler that succeeds gives the
-- accounts it leaves and the session cookie it sets.
use astra_back.Prelude.{
  ℕ, ◌+◌, not, Option, none, some, ◌==◌, is_some, Text, codes, strip, is_space,
}
use astra_back.Store.{RowId, Stamp, update}
use astra_back.Http.{
  Result, ok, err, signup_disabled, email_taken, invalid_credentials, wrong_password, require,
  ◌>>=◌, ◌>>◌,
}
use astra_back.Auth.Accounts.{
  by_password, UserRow, Accounts, user_by_email, add_user, lower, MeResponse, me_of,
  normalize_email, check_password, check_name,
}
use astra_back.Auth.Tokens.{
  Crypto, AuthSettings, verify_password, hash_password, create_access_token, get_current_user,
}

-- What the random sources and the clock give to a new account.
pub record NewIds : Type 0 where
  pub user_id : RowId
  pub salt : Text
  pub created_at : Stamp

pub record SignupRequest : Type 0 where
  pub email : Text
  pub password : Text
  pub name : Text

pub record AuthReply : Type 0 where
  pub me : MeResponse
  pub cookie : Option Text
  pub users : Accounts

-- `OkResponse`, with the cookie and the accounts.
pub record PasswordReply : Type 0 where
  pub cookie : Text
  pub users : Accounts

module _ (crypto : Crypto) where
  abbrev pub new_user : NewIds → Text → Text → Text → UserRow
  new_user ids email password name = record {
    id = ids.user_id;
    email = email;
    password_hash = some (hash_password crypto ids.salt password);
    name = name;
    created_at = ids.created_at;
    role = codes "user";
    auth_provider = by_password;
    google_sub = none;
    token_version = 0;
  }

  abbrev pub with_password : Text → Text → UserRow → UserRow
  with_password salt password u = record u {
    password_hash = some (hash_password crypto salt password);
    token_version = u.token_version + 1;
  }

abbrev pub with_name : Text → UserRow → UserRow
with_name name u = record u { name = name }

module _ (crypto : Crypto) (settings : AuthSettings) where
  abbrev pub cookie_for : ℕ → UserRow → Text
  cookie_for now u = create_access_token crypto settings now u.id u.token_version

  abbrev pub signed_in : ℕ → UserRow → Accounts → AuthReply
  signed_in now u users = record { me = me_of u; cookie = some (cookie_for now u); users = users }

  unfoldable pub signup :
      (Text → Option Text) → ℕ → NewIds → SignupRequest → Accounts → Result AuthReply
  signup validate now ids body users =
      require settings.signup_enabled signup_disabled
      >> (normalize_email validate body.email >>= λ email. check_name body.name >>= λ name.
          check_password body.password
          >> (require (not (is_some (user_by_email email users))) email_taken
              >> (add_user (new_user crypto ids email body.password name) users >>= λ users'.
                  ok (signed_in now (new_user crypto ids email body.password name) users'))))

  abbrev pub if_password : ℕ → Text → Accounts → Option UserRow → Result AuthReply
  if_password now password users none = err invalid_credentials
  if_password now password users (some u) =
      require (verify_password crypto password u.password_hash) invalid_credentials
      >> ok (signed_in now u users)

  unfoldable pub login : ℕ → Text → Text → Accounts → Result AuthReply
  login now email password users =
      if_password now password users (user_by_email (lower (strip is_space email)) users)

  -- The request's cookie comes first, as it does in `Depends`.
  unfoldable pub update_profile : ℕ → Option Text → Text → Accounts → Result AuthReply
  update_profile now token body_name users =
      get_current_user crypto settings now token users >>= λ u. check_name body_name >>= λ name.
      ok (record {
        me = me_of (with_name name u);
        cookie = none;
        users = update (λ x. x.id == u.id) (with_name name) users;
      })

  unfoldable pub change_password :
      ℕ → Option Text → Text → Text → Text → Accounts → Result PasswordReply
  change_password now token salt current new users =
      get_current_user crypto settings now token users >>= λ u.
      require (verify_password crypto current u.password_hash) wrong_password
      >> (check_password new
          >> ok (record {
            cookie = cookie_for now (with_password crypto salt new u);
            users = update (λ x. x.id == u.id) (with_password crypto salt new) users;
          }))
