-- ===== src/Auth/Sessions/Unique.antt =====
-- No two accounts share an id, an address or a Google identity. Only the first two are constraints of
-- the table in app/dbmodels.py; the third is up to app/routers/auth.py.
use mathlib.Core.Path.{subst}
use astra_back.Prelude.{
  if-by, Bool-cases, inl, inr, ◌≤◌, ◌≡◌, refl, Bool, true, false, ◌&&◌, Option, none, some, [], ◌∷◌,
  ◌==◌, any, count_if, find_if, arith, Text, text_eq, text_eq_iff,
}
use astra_back.Store.{RowId, update}
use astra_back.Auth.Accounts.{UserRow, Accounts, clashes}
use astra_back.Auth.Tokens.{Crypto}
use astra_back.Auth.Handlers.{with_password, with_name}
use astra_back.Auth.Google.{is_given, linked, returning, same_text}
use astra_back.Auth.Sessions.Steps.{Context, Reach, here, next}
use astra_back.Auth.Sessions.Effects.{Effect, same, added, named, rekeyed, linked_to, Step-Effect}

abbrev pub with_id : RowId → UserRow → Bool
with_id i u = u.id == i

abbrev pub with_email : Text → UserRow → Bool
with_email email u = text_eq u.email email

-- A Google identity is a text that is not empty.
abbrev pub with_sub : Option Text → UserRow → Bool
with_sub sub u = is_given sub && same_text u.google_sub sub

pub record IsUnique (us : Accounts) : Type 0 where
  pub ids : (i : RowId) → count_if (with_id i) us ≤ 1
  pub emails : (email : Text) → count_if (with_email email) us ≤ 1
  pub subs : (sub : Option Text) → count_if (with_sub sub) us ≤ 1

-- A change that the test does not see leaves the count.
count-update :
    (p q : UserRow → Bool) (f : UserRow → UserRow)
    → ((u : UserRow) → p (f u) ≡ p u)
    → (us : Accounts) → count_if p (update q f us) ≡ count_if p us
count-update p q f keeps [] = refl
count-update p q f keeps (u ∷ us) = ground (arith, keeps u, count-update p q f keeps us)

fresh_id :
    (new : UserRow) (i : RowId) (us : Accounts)
    → any (clashes new) us ≡ false
    → with_id i new ≡ true
    → count_if (with_id i) us ≡ 0
fresh_id new i [] h e = refl
fresh_id new i (u ∷ us) h e = ground (arith, fresh_id new i us)

fresh_email :
    (new : UserRow) (email : Text) (us : Accounts)
    → any (clashes new) us ≡ false
    → with_email email new ≡ true
    → count_if (with_email email) us ≡ 0
fresh_email new email [] h e = refl
fresh_email new email (u ∷ us) h e =
    ground (arith, fresh_email new email us, text_eq_iff new.email email)

same_text-same : (a b : Option Text) → same_text a b ≡ true → a ≡ b
same_text-same (some a) (some b) h = ground (arith, text_eq_iff a b)
same_text-same none b h = cc
same_text-same (some a) none h = cc

find-none : (p : UserRow → Bool) (us : Accounts) → find_if p us ≡ none → count_if p us ≡ 0
find-none p [] h = refl
find-none p (u ∷ us) h = ground (arith, find-none p us)

count-same :
    (p q : UserRow → Bool)
    → ((u : UserRow) → p u ≡ q u)
    → (us : Accounts) → count_if p us ≡ count_if q us
count-same p q e [] = refl
count-same p q e (u ∷ us) = ground (arith, e u, count-same p q e us)

count-never :
    (p : UserRow → Bool) → ((u : UserRow) → p u ≡ false) → (us : Accounts) → count_if p us ≡ 0
count-never p e [] = refl
count-never p e (u ∷ us) = ground (arith, e u, count-never p e us)

fresh_sub :
    (sub : Option Text) (us : Accounts) → returning sub us ≡ none → count_if (with_sub sub) us ≡ 0
fresh_sub none us h = count-never (with_sub none) (λ u. refl) us
fresh_sub (some []) us h = count-never (with_sub (some [])) (λ u. refl) us
fresh_sub (some (c ∷ s)) us h = find-none (with_sub (some (c ∷ s))) us h

-- A new row that no row of the same key precedes.
count-fresh :
    (p : UserRow → Bool) (new : UserRow) (us : Accounts)
    → count_if p us ≤ 1
    → (p new ≡ true → count_if p us ≡ 0)
    → count_if p (new ∷ us) ≤ 1
count-fresh p new us h k = if-by (λ n. n ≤ 1) (p new) _ _ (λ t. omega (arith, k t)) (λ f. h)

fresh_sub_of :
    (new : UserRow) (sub : Option Text) (us : Accounts)
    → returning new.google_sub us ≡ none
    → with_sub sub new ≡ true
    → count_if (with_sub sub) us ≡ 0
fresh_sub_of new sub us g e =
    let t : new.google_sub ≡ sub = same_text-same new.google_sub sub (ground arith) in
    fresh_sub sub us (subst (λ s. returning s us ≡ none) t g)

-- The rows of an id are linked to `new`: of those with the identity `sub`, none is added unless it is
-- `new`, which no row had.
count-linked_other :
    (i : RowId) (new sub : Option Text) (us : Accounts)
    → (is_given sub && same_text new sub) ≡ false
    → count_if (with_sub sub) (update (with_id i) (linked new) us) ≤ count_if (with_sub sub) us
count-linked_other i new sub [] h = omega arith
count-linked_other i new sub (u ∷ us) h = ground (arith, count-linked_other i new sub us)

count-linked_new :
    (i : RowId) (new sub : Option Text) (us : Accounts)
    → count_if (with_sub sub) us ≡ 0
    → count_if (with_sub sub) (update (with_id i) (linked new) us) ≤ count_if (with_id i) us
count-linked_new i new sub [] h = omega arith
count-linked_new i new sub (u ∷ us) h = ground (arith, count-linked_new i new sub us)

count-linked :
    (i : RowId) (new sub : Option Text) (us : Accounts)
    → IsUnique us
    → returning new us ≡ none
    → count_if (with_sub sub) (update (with_id i) (linked new) us) ≤ 1
count-linked i new sub us v g = elim (Bool-cases (is_given sub && same_text new sub)) [
  | inl e ↦
      let t : new ≡ sub = same_text-same new sub (ground arith) in
      let z : count_if (with_sub sub) us ≡ 0 =
        fresh_sub sub us (subst (λ s. returning s us ≡ none) t g) in
      omega (arith, count-linked_new i new sub us z, v.ids i)
  | inr e ↦ omega (arith, count-linked_other i new sub us e, v.subs sub)
]

-- A change of a row that leaves its three keys.
quiet-IsUnique :
    (q : UserRow → Bool) (f : UserRow → UserRow)
    → ((u : UserRow) → (f u).id ≡ u.id)
    → ((u : UserRow) → (f u).email ≡ u.email)
    → ((u : UserRow) → (f u).google_sub ≡ u.google_sub)
    → (us : Accounts) → IsUnique us
    → IsUnique (update q f us)
quiet-IsUnique q f a b c us v = record {
  ids = λ i. omega (arith, count-update (with_id i) q f (λ u. ground (arith, a u)) us, v.ids i);
  emails =
      λ e. omega (arith, count-update (with_email e) q f (λ u. ground (arith, b u)) us, v.emails e);
  subs = λ s. omega (arith, count-update (with_sub s) q f (λ u. ground (arith, c u)) us, v.subs s);
}

Effect-IsUnique :
    (crypto : Crypto) (us vs : Accounts) → Effect crypto us vs → IsUnique us → IsUnique vs
Effect-IsUnique crypto us _ same v = v
Effect-IsUnique crypto us _ (added new h z g) v = record {
  ids = λ i. count-fresh (with_id i) new us (v.ids i) (fresh_id new i us h);
  emails = λ e. count-fresh (with_email e) new us (v.emails e) (fresh_email new e us h);
  subs = λ s. count-fresh (with_sub s) new us (v.subs s) (fresh_sub_of new s us g);
}
Effect-IsUnique crypto us _ (named i name) v =
    quiet-IsUnique (with_id i) (with_name name) (λ u. refl) (λ u. refl) (λ u. refl) us v
Effect-IsUnique crypto us _ (rekeyed i u salt new h) v =
    quiet-IsUnique (with_id i) (with_password crypto salt new) (λ u. refl) (λ u. refl) (λ u. refl)
      us v
Effect-IsUnique crypto us _ (linked_to i sub g) v = record {
  ids =
      λ k. omega (arith, count-update (with_id k) (with_id i) (linked sub) (λ u. refl) us, v.ids k);
  emails = λ e.
      omega
        (arith, count-update (with_email e) (with_id i) (linked sub) (λ u. refl) us, v.emails e);
  subs = λ s. count-linked i sub s us v g;
}

Reach-keeps : (x : Context) (us vs : Accounts) → Reach x us vs → IsUnique us → IsUnique vs
Reach-keeps x us _ here v = v
Reach-keeps x us ws (next {vs = vs} s t) v =
    Reach-keeps x vs ws t (Effect-IsUnique x.crypto us vs (Step-Effect x us vs s) v)

-- From an empty table, every sequence of successful sign-ups, logins, profile and password changes
-- and Google callbacks leaves no two accounts with one id, one address or one Google identity.
pub Reach-IsUnique : (x : Context) (us : Accounts) → Reach x [] us → IsUnique us
Reach-IsUnique x us r =
    Reach-keeps x [] us r
      (record { ids = λ i. omega arith; emails = λ e. omega arith; subs = λ s. omega arith })
