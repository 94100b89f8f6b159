-- ===== src/Auth/Accounts.antt =====
-- app/dbmodels.py: the table `users`, and app/routers/auth.py: the checks of what a client sends. The
-- address is read by `validate_email`, a third-party function that is an argument.
use astra_back.Prelude.{
  ℕ, ◌+◌, Bool, not, ◌&&◌, ◌||◌, Option, none, some, List, ◌∷◌, map, leb, ◌==◌, length, find_if,
  any, Text, text_eq, strip, is_space, if◌then◌else◌,
}
use astra_back.Store.{RowId, Stamp}
use astra_back.Http.{
  Result, ok, err, invalid_email, invalid_name, weak_password, integrity_error, require, ◌>>◌,
}

pub data Provider : Type 0 where
  by_password by_google : Provider

pub record UserRow : Type 0 where
  pub id : RowId
  pub email : Text
  pub password_hash : Option Text
  pub name : Text
  pub created_at : Stamp
  pub role : Text
  pub auth_provider : Provider
  pub google_sub : Option Text
  pub token_version : ℕ

abbrev pub Accounts : Type 0
Accounts = List UserRow

abbrev pub user_at : RowId → Accounts → Option UserRow
user_at i users = find_if (λ u. u.id == i) users

abbrev pub user_by_email : Text → Accounts → Option UserRow
user_by_email email users = find_if (λ u. text_eq u.email email) users

-- `session.add` and `commit` of a new row: the primary key and the column declared `unique` refuse a
-- second row, with an error that no handler catches.
abbrev pub clashes : UserRow → UserRow → Bool
clashes new u = (u.id == new.id) || text_eq u.email new.email

unfoldable pub add_user : UserRow → Accounts → Result Accounts
add_user new users = require (not (any (clashes new) users)) integrity_error >> ok (new ∷ users)

-- `s.lower()`, of ASCII letters
abbrev pub lower : Text → Text
lower s = map (λ c. if leb 65 c && leb c 90 then c + 32 else c) s

-- What the endpoint answers about an account.
pub record MeResponse : Type 0 where
  pub id : RowId
  pub email : Text
  pub name : Text
  pub role : Text
  pub created_at : Stamp
  pub auth_provider : Provider

abbrev pub me_of : UserRow → MeResponse
me_of u = record {
  id = u.id;
  email = u.email;
  name = u.name;
  role = u.role;
  created_at = u.created_at;
  auth_provider = u.auth_provider;
}

abbrev lowered_email : Option Text → Result Text
lowered_email none = err invalid_email
lowered_email (some email) = ok (lower email)

-- `none` of the validator is `EmailNotValidError`.
unfoldable pub normalize_email : (Text → Option Text) → Text → Result Text
normalize_email validate raw = lowered_email (validate (strip is_space raw))

abbrev pub check_password : Text → Result (Unit {0})
check_password pw =
    require (leb 8 (length pw)) weak_password >> require (leb (length pw) 200) weak_password

abbrev pub check_name : Text → Result Text
check_name name =
    require (leb 1 (length (strip is_space name)) && leb (length (strip is_space name)) 80)
      invalid_name
    >> ok (strip is_space name)
