-- ===== src/Auth/Sessions/Epochs.antt =====
-- What a session promises, without passwords, addresses or tokens: every account has an epoch, and
-- a session of an epoch is open while the account stands at it. The handlers of app/routers/auth.py
-- refine it.
use mathlib.Core.Path.{fun_ext, subst}
use astra_back.Prelude.{
  sym, ◌++◌, ℕ, ◌+◌, ◌≡◌, refl, Bool, true, false, Option, none, some, List, [], ◌∷◌, ◌==◌, any,
  is_some, or_else, arith, ℤ, Text, if◌then◌else◌,
}
use astra_back.Store.{RowId, update}
use astra_back.Auth.Accounts.{UserRow, Accounts, clashes, user_at}
use astra_back.Auth.Tokens.{Crypto, user_from_token, decode_access_token, opened, has_epoch}
use astra_back.Auth.Handlers.{with_password, with_name}
use astra_back.Auth.Google.{linked}
use astra_back.Auth.Sessions.Steps.{Context, Reach, here, next}
use astra_back.Auth.Sessions.Effects.{Effect, same, added, named, rekeyed, linked_to, Step-Effect}

abbrev pub Epochs : Type 0
Epochs = RowId → Option ℕ

pub data Change : Type 0 where
  opens : RowId → Change
  bumps : RowId → Change

abbrev pub next_epoch : Option ℕ → Option ℕ
next_epoch none = none
next_epoch (some n) = some (n + 1)

abbrev pub apply : Change → Epochs → Epochs
apply (opens j) f i = if j == i then some 0 else f i
apply (bumps j) f i = if j == i then next_epoch (f i) else f i

-- An account is opened once, and an epoch passes only for one that is open.
abbrev pub IsAllowed : Change → Epochs → Type 0
IsAllowed (opens j) f = f j ≡ none
IsAllowed (bumps j) f = is_some (f j) ≡ true

-- The changes lead from the first epochs to the second.
abbrev pub Runs : List Change → Epochs → Epochs → Type 0
Runs [] f g = f ≡ g
Runs (c ∷ cs) f g = IsAllowed c f × Runs cs (apply c f) g

-- Whether a decoded token opens a session.
abbrev pub admits : Option (RowId × ℤ) → Epochs → Bool
admits none f = false
admits (some (i, tv)) f = elim (f i) [ none ↦ false | some n ↦ has_epoch n tv ]

abbrev epoch_in : Option UserRow → Option ℕ
epoch_in none = none
epoch_in (some u) = some u.token_version

-- The abstract view of the accounts.
unfoldable pub epochs : Accounts → Epochs
epochs us i = epoch_in (user_at i us)

epochs-quiet :
    (q : UserRow → Bool) (f : UserRow → UserRow)
    → ((u : UserRow) → (f u).id ≡ u.id)
    → ((u : UserRow) → (f u).token_version ≡ u.token_version)
    → (us : Accounts) (i : RowId) → epochs (update q f us) i ≡ epochs us i
unfolding epochs
epochs-quiet q f e k [] i = refl
epochs-quiet q f e k (u ∷ us) i = ground (arith, e u, k u, epochs-quiet q f e k us i)

pub epochs-rekeyed :
    (crypto : Crypto) (j : RowId) (salt new : Text) (us : Accounts) (i : RowId)
    → epochs (update (λ v. v.id == j) (with_password crypto salt new) us) i
      ≡ apply (bumps j) (epochs us) i
unfolding epochs
epochs-rekeyed crypto j salt new [] i = ground arith
epochs-rekeyed crypto j salt new (u ∷ us) i = ground (arith, epochs-rekeyed crypto j salt new us i)

epochs-fresh :
    (new : UserRow) (us : Accounts) → any (clashes new) us ≡ false → epochs us new.id ≡ none
unfolding epochs
epochs-fresh new [] h = refl
epochs-fresh new (u ∷ us) h = ground (arith, epochs-fresh new us)

epochs-added :
    (new : UserRow) (us : Accounts) (i : RowId)
    → new.token_version ≡ 0
    → epochs (new ∷ us) i ≡ apply (opens new.id) (epochs us) i
unfolding epochs
epochs-added new us i z = ground arith

epochs-known :
    (i : RowId) (us : Accounts) (u : UserRow) → user_at i us ≡ some u → is_some (epochs us i) ≡ true
unfolding epochs
epochs-known i us u h = rw (h) refl

-- Every effect is at most one abstract change.
pub Effect-Runs :
    (crypto : Crypto) (us vs : Accounts)
    → Effect crypto us vs
    → (cs : List Change) × Runs cs (epochs us) (epochs vs)
Effect-Runs crypto us _ same = ([], refl)
Effect-Runs crypto us _ (added new h z g) =
    (opens new.id ∷ [], (epochs-fresh new us h, fun_ext λ i. sym (epochs-added new us i z)))
Effect-Runs crypto us _ (named i name) = (
  [],
  fun_ext λ k. sym (epochs-quiet (λ u. u.id == i) (with_name name) (λ u. refl) (λ u. refl) us k),
)
Effect-Runs crypto us _ (linked_to i sub g) =
    ([], fun_ext λ k. sym (epochs-quiet (λ u. u.id == i) (linked sub) (λ u. refl) (λ u. refl) us k))
Effect-Runs crypto us _ (rekeyed i u salt new h) = (
  bumps i ∷ [],
  (epochs-known i us u h, fun_ext λ k. sym (epochs-rekeyed crypto i salt new us k)),
)

Runs-append :
    (cs ds : List Change) (f g h : Epochs) → Runs cs f g → Runs ds g h → Runs (cs ++ ds) f h
Runs-append [] ds f g h r s = subst (λ k. Runs ds k h) (sym r) s
Runs-append (c ∷ cs) ds f g h r s = (r.0, Runs-append cs ds (apply c f) g h r.1 s)

pub admits-opened :
    (d : Option (RowId × ℤ)) (us : Accounts) → is_some (opened d us) ≡ admits d (epochs us)
unfolding epochs
admits-opened none us = refl
admits-opened (some (i, tv)) us = ground arith

pub Reach-Runs :
    (x : Context) (us vs : Accounts)
    → Reach x us vs
    → (cs : List Change) × Runs cs (epochs us) (epochs vs)
Reach-Runs x us _ here = ([], refl)
Reach-Runs x us ws (next {vs = vs} s t) =
    let (cs, r) = Effect-Runs x.crypto us vs (Step-Effect x us vs s) in
    let (ds, k) = Reach-Runs x vs ws t in
    (cs ++ ds, Runs-append cs ds (epochs us) (epochs vs) (epochs ws) r k)

-- Every sequence of successful sign-ups, logins, profile and password changes and Google callbacks
-- refines the abstract session service, in which an account is opened once at epoch 0 and then
-- only moves to its next epoch; and after it a token opens an account where the account of the
-- token stands at the epoch of the token.
pub Reach-refines :
    (x : Context) (us vs : Accounts)
    → Reach x us vs
    → ((cs : List Change) × Runs cs (epochs us) (epochs vs))
      × ((now : ℕ) (token : Option Text)
          → is_some (user_from_token x.crypto x.settings now token vs)
            ≡ admits (decode_access_token x.crypto x.settings now (or_else [] token)) (epochs vs))
unfolding user_from_token
Reach-refines x us vs r = (
  Reach-Runs x us vs r,
  λ now token. admits-opened (decode_access_token x.crypto x.settings now (or_else [] token)) vs,
)
