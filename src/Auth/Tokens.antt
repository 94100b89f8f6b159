-- ===== src/Auth/Tokens.antt =====
-- app/auth/security.py and app/auth/dependencies.py: passwords, session tokens, and the account that a
-- token opens. bcrypt and PyJWT are third-party, and SHA-256 is of the standard library: they are the
-- operations of `Crypto`, with what they document as laws. Times are in milliseconds.
use astra_back.Prelude.{
  ℕ, ◌+◌, ◌*◌, ◌/◌, ◌≡◌, Bool, true, false, ◌&&◌, Option, none, some, [], ◌∷◌, ltb, leb, ◌==◌, ℤ,
  pos, negsuc, or_else, Text, text_is_empty, if◌then◌else◌,
}
use astra_back.Store.{RowId}
use astra_back.Http.{Result, ok, err, not_authenticated}
use astra_back.Auth.Accounts.{UserRow, Accounts, user_at}

-- A value of a decoded payload.
pub data Claim : Type 0 where
  absent : Claim
  text : RowId → Claim
  integer : ℤ → Claim
  boolean : Bool → Claim
  structured : Claim

-- `iat` and `exp` are in seconds.
pub record Claims : Type 0 where
  pub sub : Claim
  pub tv : Claim
  pub iat : ℕ
  pub exp : ℕ

-- PyJWT takes a token from its second of issue until its second of expiry.
abbrev pub is_current : ℕ → Claims → Bool
is_current now c = leb (c.iat * 1000) now && ltb now (c.exp * 1000)

-- The payload that the server writes.
abbrev pub session_claims : RowId → ℕ → ℕ → ℕ → Claims
session_claims user_id token_version iat exp = record {
  sub = text user_id;
  tv = integer (pos token_version);
  iat = iat;
  exp = exp;
}

pub record Crypto : Type 0 where
  pub prehash : Text → Text
  -- a password and a salt
  pub hashpw : Text → Text → Text
  -- `none` is `ValueError` or `TypeError`
  pub checkpw : Text → Text → Option Bool
  pub encode : Claims → Text → Text
  -- the time, the token and the secret; `none` is `PyJWTError`
  pub decode : ℕ → Text → Text → Option Claims
  pub hashpw_shown : (p salt : Text) → text_is_empty (hashpw p salt) ≡ false
  pub checkpw-hashpw : (p salt : Text) → checkpw p (hashpw p salt) ≡ some true
  pub encode_shown : (c : Claims) (secret : Text) → text_is_empty (encode c secret) ≡ false
  pub decode-encode :
      (user_id : RowId) (token_version iat exp now : ℕ) (secret : Text)
      → is_current now (session_claims user_id token_version iat exp) ≡ true
      → decode now (encode (session_claims user_id token_version iat exp) secret) secret
        ≡ some (session_claims user_id token_version iat exp)
  -- The payload stands in the token: the time decides whether it is given, not what it is.
  pub decode_same :
      (a b : ℕ) (token secret : Text) (c d : Claims)
      → decode a token secret ≡ some c
      → decode b token secret ≡ some d
      → c ≡ d

pub record AuthSettings : Type 0 where
  pub jwt_secret : Text
  pub jwt_ttl_min : ℕ
  pub signup_enabled : Bool
  pub google_enabled : Bool

-- An OAuth-only account has no hash.
unfoldable pub verify_password : Crypto → Text → Option Text → Bool
verify_password crypto password none = false
verify_password crypto password (some []) = false
verify_password crypto password (some (c ∷ s)) =
    or_else false (crypto.checkpw (crypto.prehash password) (c ∷ s))

abbrev pub hash_password : Crypto → Text → Text → Text
hash_password crypto salt password = crypto.hashpw (crypto.prehash password) salt

abbrev pub epoch_of : Claim → ℤ
epoch_of (integer z) = z
epoch_of (boolean b) = if b then pos 1 else pos 0
epoch_of _ = pos 0

abbrev pub subject : Claim → Claim → Option (RowId × ℤ)
subject (text user_id) tv = some (user_id, epoch_of tv)
subject _ tv = none

abbrev pub subject_of : Option Claims → Option (RowId × ℤ)
subject_of none = none
subject_of (some c) = subject c.sub c.tv

abbrev pub has_epoch : ℕ → ℤ → Bool
has_epoch n (pos m) = n == m
has_epoch n (negsuc m) = false

abbrev pub if_epoch : ℤ → Option UserRow → Option UserRow
if_epoch tv none = none
if_epoch tv (some u) = if has_epoch u.token_version tv then some u else none

abbrev pub opened : Option (RowId × ℤ) → Accounts → Option UserRow
opened none users = none
opened (some (user_id, tv)) users = if_epoch tv (user_at user_id users)

abbrev pub or_unauthenticated : Option UserRow → Result UserRow
or_unauthenticated none = err not_authenticated
or_unauthenticated (some u) = ok u

module _ (crypto : Crypto) (settings : AuthSettings) where
  unfoldable pub create_access_token : ℕ → RowId → ℕ → Text
  create_access_token now user_id token_version =
      crypto.encode
        (session_claims user_id token_version (now / 1000)
          ((now + settings.jwt_ttl_min * 60000) / 1000))
        settings.jwt_secret

  unfoldable pub decode_access_token : ℕ → Text → Option (RowId × ℤ)
  decode_access_token now [] = none
  decode_access_token now (c ∷ s) = subject_of (crypto.decode now (c ∷ s) settings.jwt_secret)

  unfoldable pub user_from_token : ℕ → Option Text → Accounts → Option UserRow
  unfolding decode_access_token
  user_from_token now token users = opened (decode_access_token now (or_else [] token)) users

  unfoldable pub get_current_user : ℕ → Option Text → Accounts → Result UserRow
  unfolding user_from_token
  get_current_user now token users = or_unauthenticated (user_from_token now token users)
