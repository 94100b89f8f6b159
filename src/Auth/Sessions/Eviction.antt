-- ===== src/Auth/Sessions/Eviction.antt =====
-- The password change of app/routers/auth.py closes the sessions that were open before.
use mathlib.Core.Path.{subst}
use astra_back.Prelude.{
  ℕ, ◌+◌, ◌≤◌, ◌<◌, ◌≡◌, refl, sym, ◌∙◌, true, false, Option, none, some, List, [], ◌∷◌, ◌==◌,
  is_some, or_else, arith, ℤ, pos, negsuc, Text, inl, inr, same_id, if-by, Bool-cases,
}
use astra_back.Store.{RowId, update}
use astra_back.Http.{ok, bind-keeps, ok-keeps}
use astra_back.Auth.Accounts.{UserRow, Accounts, user_at, check_password}
use astra_back.Auth.Tokens.{
  Crypto, AuthSettings, Claims, user_from_token, get_current_user, decode_access_token, opened,
  has_epoch, if_epoch, subject_of,
}
use astra_back.Auth.Handlers.{PasswordReply, change_password, with_password}
use astra_back.Auth.Sessions.Steps.{Context, Reach}
use astra_back.Auth.Sessions.Effects.{get_current_user-own, guard-keeps, user_at_own}
use astra_back.Auth.Sessions.Epochs.{
  Epochs, Change, Runs, opens, bumps, apply, admits, epochs, epochs-rekeyed, admits-opened,
  Reach-Runs,
}

-- Epochs do not go back, and no account loses its epoch.
Runs-grows :
    (cs : List Change) (f g : Epochs) (i : RowId) (n : ℕ)
    → Runs cs f g
    → f i ≡ some n
    → (m : ℕ) × (g i ≡ some m) × (n ≤ m)
Runs-grows [] f g i n r h = (n, subst (λ k. k i ≡ some n) r h, omega arith)
Runs-grows (opens j ∷ cs) f g i n r h = Runs-grows cs (apply (opens j) f) g i n r.1 (
    if-by (λ o. o ≡ some n) (j == i) (some 0) (f i)
      (λ t.
        let e : j ≡ i = ground arith in
        let k : f i ≡ none = subst (λ a. f a ≡ none) e r.0 in absurd (cc))
      (λ t. h))
Runs-grows (bumps j ∷ cs) f g i n r h = elim (Bool-cases (j == i)) [
  | inl t ↦
      let (m, e, l) = Runs-grows cs (apply (bumps j) f) g i (n + 1) r.1 (rw (t, h) refl) in
      (m, e, omega arith)
  | inr t ↦ Runs-grows cs (apply (bumps j) f) g i n r.1 (rw (t) h)
]

if_epoch-at :
    (i : RowId) (tv : ℤ) (o : Option UserRow) (v : UserRow)
    → if_epoch tv o ≡ some v
    → (o ≡ some v) × (has_epoch v.token_version tv ≡ true)
if_epoch-at i tv none v h = cc
if_epoch-at i tv (some u) v h = ground arith

has_epoch-other : (n m : ℕ) (tv : ℤ) → has_epoch n tv ≡ true → n < m → has_epoch m tv ≡ false
has_epoch-other n m (pos k) h l = ground arith
has_epoch-other n m (negsuc k) h l = cc

some_none : (o : Option UserRow) → is_some o ≡ false → o ≡ none
some_none none h = refl
some_none (some u) h = cc

subject_same :
    (o p : Option Claims) (s t : RowId × ℤ)
    → ((c d : Claims) → o ≡ some c → p ≡ some d → c ≡ d)
    → subject_of o ≡ some s
    → subject_of p ≡ some t
    → s ≡ t
subject_same none p s t e h k = cc
subject_same (some c) none s t e h k = cc
subject_same (some c) (some d) s t e h k =
    let q : c ≡ d = e c d refl refl in
    let u : subject_of (some d) ≡ some s = subst (λ y. subject_of (some y) ≡ some s) q h in cc

closed-at :
    (i : RowId) (tv : ℤ) (us ws : Accounts) (v : UserRow) (m : ℕ)
    → opened (some (i, tv)) us ≡ some v
    → epochs ws v.id ≡ some m
    → v.token_version < m
    → opened (some (i, tv)) ws ≡ none
closed-at i tv us ws v m h k l =
    let (own, e) = if_epoch-at i tv (user_at i us) v h in
    let w : v.id ≡ i = ground (arith, user_at_own i us v own) in
    let n : epochs ws i ≡ some m = subst (λ j. epochs ws j ≡ some m) w k in
    let shut : has_epoch m tv ≡ false = has_epoch-other v.token_version m tv e l in
    let out : admits (some (i, tv)) (epochs ws) ≡ false = rw (n, admits) shut in
    some_none (opened (some (i, tv)) ws) (admits-opened (some (i, tv)) ws ∙ out)

-- A later epoch closes what opened an earlier one.
opened-closed :
    (o p : Option (RowId × ℤ)) (us ws : Accounts) (v : UserRow) (m : ℕ)
    → ((s t : RowId × ℤ) → o ≡ some s → p ≡ some t → s ≡ t)
    → opened o us ≡ some v
    → epochs ws v.id ≡ some m
    → v.token_version < m
    → opened p ws ≡ none
opened-closed o none us ws v m e h k l = refl
opened-closed none (some t) us ws v m e h k l = cc
opened-closed (some s) (some t) us ws v m e h k l =
    subst (λ y. opened (some y) ws ≡ none) (e s t refl refl) (closed-at s.0 s.1 us ws v m h k l)

rekeyed_epoch :
    (crypto : Crypto) (salt new : Text) (us : Accounts) (u : UserRow)
    → user_at u.id us ≡ some u
    → epochs (update (λ x. x.id == u.id) (with_password crypto salt new) us) u.id
      ≡ some (u.token_version + 1)
unfolding epochs
rekeyed_epoch crypto salt new us u h =
    epochs-rekeyed crypto u.id salt new us u.id ∙ (rw (same_id u.id, h) refl)

module _ (crypto : Crypto) (settings : AuthSettings) where
  -- At two times, a token names the same account and epoch.
  decode_access_token_same :
      (a b : ℕ) (token : Text) (s t : RowId × ℤ)
      → decode_access_token crypto settings a token ≡ some s
      → decode_access_token crypto settings b token ≡ some t
      → s ≡ t
  unfolding decode_access_token
  decode_access_token_same a b [] s t h k = cc
  decode_access_token_same a b (c ∷ x) s t h k =
      subject_same _ _ s t (crypto.decode_same a b (c ∷ x) settings.jwt_secret) h k

  get_current_user_same :
      (now : ℕ) (mine : Option Text) (us : Accounts) (u v : UserRow)
      → get_current_user crypto settings now mine us ≡ ok u
      → get_current_user crypto settings now mine us ≡ ok v
      → u ≡ v
  get_current_user_same now mine us u v h k = let e : ok u ≡ ok v = sym h ∙ k in cc

  password_epoch :
      (now : ℕ) (mine : Option Text) (salt current new : Text) (us : Accounts) (u : UserRow)
      (r : PasswordReply)
      → get_current_user crypto settings now mine us ≡ ok u
      → change_password crypto settings now mine salt current new us ≡ ok r
      → epochs r.users u.id ≡ some (u.token_version + 1)
  unfolding change_password
  password_epoch now mine salt current new us u r h =
      let Later : PasswordReply → Type 0 = λ r. epochs r.users u.id ≡ some (u.token_version + 1) in
      bind-keeps Later (get_current_user crypto settings now mine us)
        (λ v e. guard-keeps Later _ (
          guard-keeps Later (check_password new) (
            ok-keeps Later (
              subst
                (λ w.
                  epochs (update (λ x. x.id == w.id) (with_password crypto salt new) us) u.id
                  ≡ some (u.token_version + 1))
                (get_current_user_same now mine us u v h e)
                (rekeyed_epoch crypto salt new us u
                  (get_current_user-own crypto settings now mine us u h))))))
        r

-- Once a user has changed the password, every token that ever opened the account as it stood
-- before the change, whoever holds it, opens no account at any time, whatever requests follow the
-- change.
pub change_password_evicts :
    (x : Context) (now at : ℕ) (mine token : Option Text) (salt current new : Text)
    (us ws : Accounts) (u : UserRow) (r : PasswordReply)
    → get_current_user x.crypto x.settings now mine us ≡ ok u
    → change_password x.crypto x.settings now mine salt current new us ≡ ok r
    → user_from_token x.crypto x.settings at token us ≡ some u
    → Reach x r.users ws
    → (later : ℕ) → user_from_token x.crypto x.settings later token ws ≡ none
unfolding user_from_token
change_password_evicts x now at mine token salt current new us ws u r h k t reach later =
    let (cs, runs) = Reach-Runs x r.users ws reach in
    let e = password_epoch x.crypto x.settings now mine salt current new us u r h k in
    let (m, f, l) = Runs-grows cs (epochs r.users) (epochs ws) u.id (u.token_version + 1) runs e in
    opened-closed _ _ us ws u m
      (λ s d. decode_access_token_same x.crypto x.settings at later (or_else [] token) s d) t f
      (omega arith)
