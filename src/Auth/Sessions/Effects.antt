-- ===== src/Auth/Sessions/Effects.antt =====
-- Every request that succeeds has one of five effects on the accounts.
use astra_back.Prelude.{
  ℕ, ◌≡◌, refl, true, false, not, ◌&&◌, ◌||◌, Option, none, some, ◌∷◌, ◌==◌, any, arith, if-keeps,
  inl, inr, Text, strip, is_space, [], ℤ, Bool-cases,
}
use mathlib.Core.Path.{subst}
use astra_back.Store.{RowId, update}
use astra_back.Http.{
  Result, ok, err, bind-keeps, ok-keeps, require, ◌>>◌, invalid_credentials, integrity_error,
}
use astra_back.Auth.Accounts.{
  UserRow, Accounts, user_at, user_by_email, add_user, clashes, normalize_email, check_name,
  check_password, lower,
}
use astra_back.Auth.Tokens.{
  Crypto, AuthSettings, verify_password, user_from_token, get_current_user, opened,
  or_unauthenticated, if_epoch,
}
use astra_back.Auth.Handlers.{
  NewIds, SignupRequest, AuthReply, PasswordReply, new_user, with_password, with_name, if_password,
  signup, login, update_profile, change_password,
}
use astra_back.Auth.Google.{
  IdClaims, Provisioned, Landing, google_user, is_given, linked, returning, provision_by_email,
  provision_returning, provision_google_user, land, identity, google_callback, google_email,
  Callback,
}
use astra_back.Auth.Sessions.Steps.{
  Context, Step, signed_up, logged_in, profile_updated, password_changed, called_back,
}

pub data Effect (crypto : Crypto) (us : Accounts) : Accounts → Type 0 where
  same : Effect crypto us us
  added :
      (new : UserRow)
      → any (clashes new) us ≡ false
      → new.token_version ≡ 0
      → returning new.google_sub us ≡ none
      → Effect crypto us (new ∷ us)
  named : (i : RowId) (name : Text) → Effect crypto us (update (λ u. u.id == i) (with_name name) us)
  rekeyed :
      (i : RowId) (u : UserRow) (salt new : Text)
      → user_at i us ≡ some u
      → Effect crypto us (update (λ v. v.id == i) (with_password crypto salt new) us)
  linked_to :
      (i : RowId) (sub : Option Text)
      → returning sub us ≡ none
      → Effect crypto us (update (λ u. u.id == i) (linked sub) us)

-- The account that a session opens stands in the table, under its id.
pub user_at_own :
    (i : RowId) (us : Accounts) (u : UserRow) → user_at i us ≡ some u → (u.id == i) ≡ true
user_at_own i [] u h = cc
user_at_own i (v ∷ us) u h = ground (arith, user_at_own i us u)

own_id :
    (i : RowId) (us : Accounts) (u : UserRow) → user_at i us ≡ some u → user_at u.id us ≡ some u
own_id i us u h =
    let e : i ≡ u.id = ground (arith, user_at_own i us u h) in
    subst (λ j. user_at j us ≡ some u) e h

if_epoch-own : (tv : ℤ) (o : Option UserRow) (u : UserRow) → if_epoch tv o ≡ some u → o ≡ some u
if_epoch-own tv none u h = cc
if_epoch-own tv (some v) u h = ground arith

pub opened-own :
    (d : Option (RowId × ℤ)) (us : Accounts) (u : UserRow)
    → opened d us ≡ some u
    → user_at u.id us ≡ some u
opened-own none us u h = cc
opened-own (some (i, tv)) us u h = own_id i us u (if_epoch-own tv (user_at i us) u h)

unauthenticated-ok : (o : Option UserRow) (u : UserRow) → or_unauthenticated o ≡ ok u → o ≡ some u
unauthenticated-ok none u h = cc
unauthenticated-ok (some v) u h = ground arith

pub get_current_user-own :
    (crypto : Crypto) (settings : AuthSettings) (now : ℕ) (token : Option Text) (us : Accounts)
    (u : UserRow)
    → get_current_user crypto settings now token us ≡ ok u
    → user_at u.id us ≡ some u
unfolding get_current_user user_from_token
get_current_user-own crypto settings now token us u h = opened-own _ us u (unauthenticated-ok _ u h)

-- What holds of a chain that goes on after a guard.
pub guard-keeps :
    {B : Type 0} (P : B → Type 0) (r : Result (Unit {0})) {k : Result B}
    → ((b : B) → k ≡ ok b → P b)
    → (b : B) → (r >> k) ≡ ok b
    → P b
guard-keeps P (ok t) step b h = step b h
guard-keeps P (err e) step b h = cc

add_user-adds :
    (crypto : Crypto) (new : UserRow) (us vs : Accounts)
    → new.token_version ≡ 0
    → returning new.google_sub us ≡ none
    → add_user new us ≡ ok vs
    → Effect crypto us vs
unfolding add_user
add_user-adds crypto new us vs z g h = elim (Bool-cases (any (clashes new) us)) [
  | inl e ↦ let k : err integrity_error ≡ ok vs = rw (e) at h in absurd (cc)
  | inr e ↦
      let k : ok (new ∷ us) ≡ ok vs = rw (e) at h in
      ok-keeps (Effect crypto us) (added new e z g) vs k
]

module _ (x : Context) (us : Accounts) where
  abbrev Leaves : AuthReply → Type 0
  Leaves r = Effect x.crypto us r.users

  signup-Effect :
      (now : ℕ) (ids : NewIds) (body : SignupRequest) (r : AuthReply)
      → signup x.crypto x.settings x.validate now ids body us ≡ ok r
      → Effect x.crypto us r.users
  unfolding signup
  signup-Effect now ids body = guard-keeps Leaves _ (
      bind-keeps Leaves (normalize_email x.validate body.email) λ email _.
        bind-keeps Leaves (check_name body.name) λ name _.
          guard-keeps Leaves (check_password body.password) (
            guard-keeps Leaves _ (
              bind-keeps Leaves (add_user (new_user x.crypto ids email body.password name) us)
                λ vs e. ok-keeps Leaves (
                  add_user-adds x.crypto (new_user x.crypto ids email body.password name) us vs refl
                    refl e))))

  update_profile-Effect :
      (now : ℕ) (token : Option Text) (body_name : Text) (r : AuthReply)
      → update_profile x.crypto x.settings now token body_name us ≡ ok r
      → Effect x.crypto us r.users
  unfolding update_profile
  update_profile-Effect now token body_name =
      bind-keeps Leaves (get_current_user x.crypto x.settings now token us)
        λ u _. bind-keeps Leaves (check_name body_name) λ name _. ok-keeps Leaves (named u.id name)

  abbrev Changes : PasswordReply → Type 0
  Changes r = Effect x.crypto us r.users

  change_password-Effect :
      (now : ℕ) (token : Option Text) (salt current new : Text) (r : PasswordReply)
      → change_password x.crypto x.settings now token salt current new us ≡ ok r
      → Effect x.crypto us r.users
  unfolding change_password
  change_password-Effect now token salt current new =
      bind-keeps Changes (get_current_user x.crypto x.settings now token us) λ u e.
        guard-keeps Changes _ (
          guard-keeps Changes (check_password new) (
            ok-keeps Changes (
              rekeyed u.id u salt new (get_current_user-own x.crypto x.settings now token us u e))))

  if_password-same :
      (now : ℕ) (password : Text) (o : Option UserRow) (r : AuthReply)
      → if_password x.crypto x.settings now password us o ≡ ok r
      → Effect x.crypto us r.users
  if_password-same now password none r h = cc
  if_password-same now password (some u) r h =
      guard-keeps Leaves
        (require (verify_password x.crypto password u.password_hash) invalid_credentials)
        (ok-keeps Leaves same) r h

  login-Effect :
      (now : ℕ) (email password : Text) (r : AuthReply)
      → login x.crypto x.settings now email password us ≡ ok r
      → Effect x.crypto us r.users
  unfolding login
  login-Effect now email password =
      if_password-same now password (user_by_email (lower (strip is_space email)) us)

  abbrev Provides : Provisioned → Type 0
  Provides p = Effect x.crypto us p.users

  provision_by_email-Effect :
      (ids : NewIds) (c : IdClaims) (o : Option UserRow)
      → returning c.sub us ≡ none
      → (p : Provisioned) → provision_by_email ids c us o ≡ ok p
      → Effect x.crypto us p.users
  provision_by_email-Effect ids c none g =
      bind-keeps Provides (add_user (google_user ids c) us)
        λ vs e. ok-keeps Provides (add_user-adds x.crypto (google_user ids c) us vs refl g e)
  provision_by_email-Effect ids c (some u) g = ok-keeps Provides (
      if-keeps Provides (not (is_given u.google_sub) && is_given c.sub) _ _ (linked_to u.id c.sub g)
        same)

  provision_returning-Effect :
      (ids : NewIds) (c : IdClaims) (o : Option UserRow)
      → returning c.sub us ≡ o
      → (p : Provisioned) → provision_returning ids c us o ≡ ok p
      → Effect x.crypto us p.users
  provision_returning-Effect ids c (some u) g = ok-keeps Provides same
  provision_returning-Effect ids c none g =
      provision_by_email-Effect ids c (user_by_email (google_email c) us) g

  abbrev Lands : Landing → Type 0
  Lands l = Effect x.crypto us l.users

  land-Effect :
      (now : ℕ) (ids : NewIds) (o : Option IdClaims) (l : Landing)
      → land x.crypto x.settings now ids us o ≡ ok l
      → Effect x.crypto us l.users
  unfolding provision_google_user
  land-Effect now ids none = ok-keeps Lands same
  land-Effect now ids (some c) =
      if-keeps (λ r. (l : Landing) → r ≡ ok l → Lands l)
        (not (is_given c.email) || not c.email_verified) _ _ (ok-keeps Lands same)
        (bind-keeps Lands (provision_google_user ids c us)
          λ p e. ok-keeps Lands (provision_returning-Effect ids c (returning c.sub us) refl p e))

  google_callback-Effect :
      (now : ℕ) (ids : NewIds) (q : Callback) (l : Landing)
      → google_callback x.crypto x.settings x.post x.verify now ids q us ≡ ok l
      → Effect x.crypto us l.users
  unfolding google_callback
  google_callback-Effect now ids q =
      let Keeps : Result Landing → Type 0 = λ r. (l : Landing) → r ≡ ok l → Lands l in
      if-keeps Keeps (not x.settings.google_enabled) _ _ (ok-keeps Lands same) (
        if-keeps Keeps (is_given q.error || not (is_given q.code)) _ _ (ok-keeps Lands same) (
          if-keeps Keeps _ _ _ (ok-keeps Lands same)
            (land-Effect now ids (identity x.post x.verify q.code))))

-- Every request that succeeds has one of the five effects.
pub Step-Effect : (x : Context) (us vs : Accounts) → Step x us vs → Effect x.crypto us vs
Step-Effect x us vs (signed_up now ids body r h) = signup-Effect x us now ids body r h
Step-Effect x us vs (logged_in now email password r h) = login-Effect x us now email password r h
Step-Effect x us vs (profile_updated now token name r h) =
    update_profile-Effect x us now token name r h
Step-Effect x us vs (password_changed now token salt current new r h) =
    change_password-Effect x us now token salt current new r h
Step-Effect x us vs (called_back now ids q l h) = google_callback-Effect x us now ids q l h
