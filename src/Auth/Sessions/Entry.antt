-- ===== src/Auth/Sessions/Entry.antt =====
-- Sign-up and login of app/routers/auth.py: who has an account gets in.
use mathlib.Core.Path.{subst}
use astra_back.Prelude.{
  ℕ, ◌+◌, ◌*◌, ◌/◌, ◌≤◌, ◌<◌, ◌≡◌, refl, sym, ◌∙◌, ap, true, false, some, [], ◌∷◌, any, arith, Text,
  text_eq_refl, text_is_empty, strip, is_space, Bool-cases, inl, inr, same_id,
}
use astra_back.Http.{ok, err, integrity_error, bind-keeps, ok-keeps}
use astra_back.Auth.Accounts.{
  UserRow, Accounts, user_at, user_by_email, lower, add_user, clashes, me_of, normalize_email,
  check_name, check_password,
}
use astra_back.Auth.Tokens.{
  Crypto, AuthSettings, Claims, session_claims, is_current, verify_password, hash_password,
  create_access_token, decode_access_token, user_from_token, get_current_user, subject_of,
}
use astra_back.Auth.Handlers.{
  NewIds, SignupRequest, AuthReply, new_user, cookie_for, signed_in, signup, login,
}
use astra_back.Auth.Sessions.Steps.{Context}
use astra_back.Auth.Sessions.Effects.{guard-keeps}

added_user : (new : UserRow) (us vs : Accounts) → add_user new us ≡ ok vs → new ∷ us ≡ vs
unfolding add_user
added_user new us vs h = elim (Bool-cases (any (clashes new) us)) [
  | inl e ↦ let k : err integrity_error ≡ ok vs = rw (e) at h in absurd (cc)
  | inr e ↦ let k : ok (new ∷ us) ≡ ok vs = rw (e) at h in cc
]

abbrev signed_up_as :
    (x : Context) → ℕ → NewIds → SignupRequest → Accounts → Text → Text → AuthReply
signed_up_as x now ids body us email name =
    let new = new_user x.crypto ids email body.password name in
    signed_in x.crypto x.settings now new (new ∷ us)

-- What a sign-up that succeeds has done.
signup-result :
    (x : Context) (now : ℕ) (ids : NewIds) (body : SignupRequest) (us : Accounts) (r : AuthReply)
    → signup x.crypto x.settings x.validate now ids body us ≡ ok r
    → (email : Text) × (name : Text) × (signed_up_as x now ids body us email name ≡ r)
unfolding signup
signup-result x now ids body us =
    let Done : AuthReply → Type 0 =
      λ r. (email : Text) × (name : Text) × (signed_up_as x now ids body us email name ≡ r) in
    guard-keeps Done _ (
      bind-keeps Done (normalize_email x.validate body.email) λ email _.
        bind-keeps Done (check_name body.name) λ name _.
          guard-keeps Done (check_password body.password) (
            guard-keeps Done _ (
              bind-keeps Done (add_user (new_user x.crypto ids email body.password name) us) λ vs e.
                ok-keeps Done (
                  let new = new_user x.crypto ids email body.password name in
                  (
                    email,
                    name,
                    ap (λ ws. signed_in x.crypto x.settings now new ws) (added_user new us vs e),
                  )))))

module _ (crypto : Crypto) (settings : AuthSettings) where
  verify_hashed :
      (p salt hash : Text)
      → text_is_empty hash ≡ false
      → hash_password crypto salt p ≡ hash
      → verify_password crypto p (some hash) ≡ true
  unfolding verify_password
  verify_hashed p salt [] e h = cc
  verify_hashed p salt (c ∷ s) e h =
      let k : crypto.checkpw (crypto.prehash p) (c ∷ s) ≡ some true =
        subst (λ y. crypto.checkpw (crypto.prehash p) y ≡ some true) h
          (crypto.checkpw-hashpw (crypto.prehash p) salt) in
      rw (k) refl

  verify-hash_password :
      (p salt : Text) → verify_password crypto p (some (hash_password crypto salt p)) ≡ true
  verify-hash_password p salt =
      verify_hashed p salt (hash_password crypto salt p) (crypto.hashpw_shown _ salt) refl

  abbrev pub expiry : ℕ → ℕ
  expiry now = (now + settings.jwt_ttl_min * 60000) / 1000

  decode_shown :
      (at : ℕ) (token : Text) (c : Claims)
      → text_is_empty token ≡ false
      → crypto.decode at token settings.jwt_secret ≡ some c
      → decode_access_token crypto settings at token ≡ subject_of (some c)
  unfolding decode_access_token
  decode_shown at [] c e h = cc
  decode_shown at (d ∷ s) c e h = rw (h) refl

  -- The cookie of an account opens it until it expires.
  cookie_opens :
      (now at : ℕ) (u : UserRow) (us : Accounts)
      → user_at u.id us ≡ some u
      → now ≤ at
      → at < expiry now * 1000
      → get_current_user crypto settings at (some (cookie_for crypto settings now u)) us ≡ ok u
  unfolding get_current_user user_from_token create_access_token
  cookie_opens now at u us h l k =
      let c = session_claims u.id u.token_version (now / 1000) (expiry now) in
      let fresh : is_current at c ≡ true = ground arith in
      let d =
        decode_shown at (crypto.encode c settings.jwt_secret) c
          (crypto.encode_shown c settings.jwt_secret)
          (crypto.decode-encode u.id u.token_version (now / 1000) (expiry now) at
            settings.jwt_secret fresh) in
      rw (d, h, same_id u.token_version) refl

login_of :
    (x : Context) (now : ℕ) (email typed password : Text) (u : UserRow) (us : Accounts)
    → lower (strip is_space typed) ≡ email
    → user_by_email email us ≡ some u
    → verify_password x.crypto password u.password_hash ≡ true
    → login x.crypto x.settings now typed password us ≡ ok (signed_in x.crypto x.settings now u us)
unfolding login
login_of x now email typed password u us e h k = rw (e, h, k) refl

-- The login answers about the account of `r`, and its cookie opens that account at `at`.
abbrev pub GetsIn : Context → ℕ → ℕ → Text → Text → AuthReply → Type 0
GetsIn x back at typed password r =
    (s : AuthReply) × (u : UserRow) × (login x.crypto x.settings back typed password r.users ≡ ok s)
    × (s.users ≡ r.users)
    × (s.me ≡ r.me)
    × (get_current_user x.crypto x.settings at s.cookie r.users ≡ ok u)
    × (me_of u ≡ r.me)

-- After a successful sign-up, a login with the same password and any spelling of the address that
-- differs in case or outer blanks succeeds, changes no account and answers about the new one, and
-- its cookie opens that account until the second of its expiry.
pub signup_opens :
    (x : Context) (now back at : ℕ) (ids : NewIds) (body : SignupRequest) (typed : Text)
    (us : Accounts) (r : AuthReply)
    → signup x.crypto x.settings x.validate now ids body us ≡ ok r
    → lower (strip is_space typed) ≡ r.me.email
    → back ≤ at
    → at < expiry x.crypto x.settings back * 1000
    → GetsIn x back at typed body.password r
signup_opens x now back at ids body typed us r h e l k =
    let (email, name, done) = signup-result x now ids body us r h in
    let new = new_user x.crypto ids email body.password name in
    let all : Accounts = new ∷ us in
    let known : lower (strip is_space typed) ≡ email = e ∙ ap (λ r. r.me.email) (sym done) in
    subst (GetsIn x back at typed body.password) done (
      signed_in x.crypto x.settings back new all,
      new,
      login_of x back email typed body.password new all known (rw (text_eq_refl email) refl)
          (verify-hash_password x.crypto x.settings body.password ids.salt),
      refl,
      refl,
      cookie_opens x.crypto x.settings back at new all (rw (same_id new.id) refl) l k,
      refl,
    )
