-- ===== src/Auth/Sessions/Consent.antt =====
-- The callback of app/routers/auth.py signs nobody in who has not come from the login page of this
-- browser with a verified identity.
use astra_back.Prelude.{
  ℕ, ◌≡◌, refl, true, false, not, ◌&&◌, ◌||◌, Option, none, some, if-by, arith, Text,
}
use astra_back.Http.{Result, ok, bind-keeps, ok-keeps}
use astra_back.Auth.Accounts.{Accounts}
use astra_back.Auth.Handlers.{NewIds, cookie_for}
use astra_back.Auth.Google.{
  IdClaims, Provisioned, Callback, Redirect, to_login, home, Landing, is_given, same_text, identity,
  provision_google_user, land, google_callback,
}
use astra_back.Auth.Sessions.Steps.{Context}

-- The identity is verified, and the session is of the account provisioned for it.
abbrev pub IsProvisioned :
    Context → ℕ → NewIds → Option IdClaims → Accounts → Text → Accounts → Type 0
IsProvisioned x now ids o us cookie vs =
    (c : IdClaims) × (p : Provisioned) × (o ≡ some c)
    × (is_given c.email && c.email_verified ≡ true)
    × (provision_google_user ids c us ≡ ok p)
    × (p.users ≡ vs)
    × (cookie_for x.crypto x.settings now p.user ≡ cookie)

-- A redirect to the login page leaves the accounts.
abbrev IsLanded : Context → ℕ → NewIds → Option IdClaims → Accounts → Redirect → Accounts → Type 0
IsLanded x now ids o us (to_login error) vs = us ≡ vs
IsLanded x now ids o us (home cookie) vs = IsProvisioned x now ids o us cookie vs

abbrev pub IsConsent : Context → ℕ → NewIds → Callback → Accounts → Redirect → Accounts → Type 0
IsConsent x now ids q us (to_login error) vs = us ≡ vs
IsConsent x now ids q us (home cookie) vs =
    (x.settings.google_enabled ≡ true)
    × (is_given q.error ≡ false)
    × (is_given q.state && same_text q.state q.cookie_state ≡ true)
    × IsProvisioned x now ids (identity x.post x.verify q.code) us cookie vs

module _ (x : Context) (now : ℕ) (ids : NewIds) (us : Accounts) where
  land-IsLanded :
      (o : Option IdClaims) (l : Landing)
      → land x.crypto x.settings now ids us o ≡ ok l
      → IsLanded x now ids o us l.redirect l.users
  land-IsLanded none = ok-keeps (λ l. IsLanded x now ids none us l.redirect l.users) refl
  land-IsLanded (some c) =
      let Lands : Landing → Type 0 = λ l. IsLanded x now ids (some c) us l.redirect l.users in
      if-by (λ r. (l : Landing) → r ≡ ok l → Lands l)
        (not (is_given c.email) || not c.email_verified) _ _ (λ t. ok-keeps Lands refl)
        (λ t.
          bind-keeps Lands (provision_google_user ids c us)
            λ p e. ok-keeps Lands (c, p, refl, ground arith, e, refl, refl))

  consent :
      (q : Callback) (redirect : Redirect) (vs : Accounts)
      → x.settings.google_enabled ≡ true
      → is_given q.error ≡ false
      → is_given q.state && same_text q.state q.cookie_state ≡ true
      → IsLanded x now ids (identity x.post x.verify q.code) us redirect vs
      → IsConsent x now ids q us redirect vs
  consent q (to_login error) vs a b c h = h
  consent q (home cookie) vs a b c h = (a, b, c, h)

  -- A Google callback that redirects to the login page leaves the accounts, and one that sets a
  -- session cookie was enabled, had no error, carried the state of the cookie of this browser and
  -- a verified identity with an address, and the session is of the account provisioned for that
  -- identity.
  pub google_callback-IsConsent :
      (q : Callback) (l : Landing)
      → google_callback x.crypto x.settings x.post x.verify now ids q us ≡ ok l
      → IsConsent x now ids q us l.redirect l.users
  unfolding google_callback
  google_callback-IsConsent q =
      let Agrees : Landing → Type 0 = λ l. IsConsent x now ids q us l.redirect l.users in
      let Keeps : Result Landing → Type 0 = λ r. (l : Landing) → r ≡ ok l → Agrees l in
      if-by Keeps (not x.settings.google_enabled) _ _ (λ t. ok-keeps Agrees refl)
        (λ a.
          if-by Keeps (is_given q.error || not (is_given q.code)) _ _ (λ t. ok-keeps Agrees refl)
            (λ b.
              if-by Keeps
                (not (is_given q.state)
                  || (not (is_given q.cookie_state) || not (same_text q.state q.cookie_state)))
                _ _ (λ t. ok-keeps Agrees refl)
                (λ c l h.
                  consent q l.redirect l.users (ground arith) (ground arith) (ground arith)
                    (land-IsLanded (identity x.post x.verify q.code) l h))))
