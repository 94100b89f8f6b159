-- ===== src/Sdk/Retries.antt =====
-- A request ends after its attempts, and its last exchange decides it.
use mathlib.Core.Path.{subst}
use astra_back.Prelude.{
  ℕ, zero, suc, ◌<◌, ◌≤◌, ◌≡◌, ◌⊎◌, refl, ap, arith, max, Option, none, some, List, [], ◌∷◌, ◌++◌,
  All, length, Bool-cases, Option-cases, inl, inr,
}
use astra_back.Sdk.Session.{
  is_success, Exchange, response, http_error, Outcome, returned, raised, gave_up, ends, backoff,
  after, Attempted, attempts, request,
}

-- The failures that may pass: no answer of the server, and four of the error statuses.
abbrev pub IsTransient : Exchange → Type 0
IsTransient http_error = Unit
IsTransient (response status) =
    (status ≡ 429) ⊎ ((status ≡ 502) ⊎ ((status ≡ 503) ⊎ (status ≡ 504)))

abbrev pub IsSuccess : Exchange → Type 0
IsSuccess http_error = ⊥
IsSuccess (response status) = status < 400

-- What the last exchange makes of a request.
pub data Decides (x : Exchange) : Outcome → Type 0 where
  succeeds : (status : ℕ) → x ≡ response status → IsSuccess x → Decides x (returned status)
  rejects :
      (status : ℕ)
      → x ≡ response status
      → ¬ IsSuccess x
      → ¬ IsTransient x
      → Decides x (raised status)
  gives_up : ¬ IsSuccess x → IsTransient x → Decides x (gave_up (some x))

-- With `left` attempts left: some exchanges fail in a way that may pass, one is the last.
pub record IsRequest (max_backoff left : ℕ) {W : Type 0} (a : Attempted W) : Type 0 where
  pub failed : List Exchange
  pub last : Exchange
  pub parts : a.exchanges ≡ failed ++ last ∷ []
  pub tried_again : All IsTransient failed
  pub outcome : Decides last a.outcome
  pub within : length a.exchanges ≤ left
  pub exhausted : (length a.exchanges ≡ left) ⊎ (¬ IsTransient last)
  pub paused : length a.pauses ≡ length failed
  pub short : All (λ p. p ≤ max_backoff) a.pauses

ends-none : (x : Exchange) → ends x ≡ none → IsTransient x × (¬ IsSuccess x)
ends-none http_error h = (tt, λ s. s)
ends-none (response status) h = (transient, λ s. ground arith)
  where
    transient : IsTransient (response status)
    transient = ground arith

ends-some : (x : Exchange) (o : Outcome) → ends x ≡ some o → Decides x o × (¬ IsTransient x)
ends-some http_error o h = cc
ends-some (response status) o h = elim (Bool-cases (is_success status)) [
  | inl e ↦
      let below : status < 400 = ground arith in
      let same : returned status ≡ o = ground arith in
      (subst (Decides (response status)) same (succeeds status refl below), λ t. omega arith)
  | inr e ↦
      let above : ¬ (status < 400) = λ l. ground arith in
      let lasting : ¬ IsTransient (response status) = λ t. ground arith in
      let same : raised status ≡ o = ground arith in
      (subst (Decides (response status)) same (rejects status refl above lasting), lasting)
]

module _ {W : Type 0} (exchange : W → Exchange × W) (jitter : ℕ → ℕ) (max_backoff : ℕ) where
  backoff-le : (attempt : ℕ) → backoff exchange jitter max_backoff attempt ≤ max_backoff
  backoff-le attempt = omega arith

  after-IsRequest :
      (k attempt : ℕ) (x : Exchange) (rest : Attempted W)
      → IsTransient x
      → IsRequest max_backoff (suc k) rest
      → IsRequest max_backoff (suc (suc k)) (
          after exchange jitter max_backoff x
            (backoff exchange jitter max_backoff attempt ∷ rest.pauses)
            rest)
  after-IsRequest k attempt x rest e r = record {
    failed = x ∷ r.failed;
    last = r.last;
    parts = ap (λ l. x ∷ l) r.parts;
    tried_again = (e, r.tried_again);
    outcome = r.outcome;
    within = omega (arith, r.within);
    exhausted = elim r.exhausted [ inl h ↦ inl (ap suc h) | inr o ↦ inr o ];
    paused = ap suc r.paused;
    short = (backoff-le attempt, r.short);
  }

  ended-IsRequest :
      (k : ℕ) (x : Exchange) (o : Outcome) (w : W)
      → ends x ≡ some o
      → IsRequest max_backoff
          (suc k)
          (record { outcome = o; exchanges = x ∷ []; pauses = []; world = w })
  ended-IsRequest k x o w e = record {
    failed = [];
    last = x;
    parts = refl;
    tried_again = tt;
    outcome = (ends-some x o e).0;
    within = omega arith;
    exhausted = inr (ends-some x o e).1;
    paused = refl;
    short = tt;
  }

  attempts-IsRequest :
      (left attempt : ℕ) (last : Option Exchange) (w : W)
      → IsRequest max_backoff
          (suc left)
          (attempts exchange jitter max_backoff (suc left) attempt last w)
  unfolding attempts
  attempts-IsRequest zero attempt last w = elim (Option-cases (ends (exchange w).0)) [
    | inr (o, e) ↦ rw (e, attempts) (ended-IsRequest 0 (exchange w).0 o (exchange w).1 e)
    | inl e ↦
        rw (e, attempts)
          (record {
            failed = [];
            last = (exchange w).0;
            parts = refl;
            tried_again = tt;
            outcome =
                let (may_pass, failing) = ends-none (exchange w).0 e in gives_up failing may_pass;
            within = omega arith;
            exhausted = inl refl;
            paused = refl;
            short = tt;
          })
  ]
  attempts-IsRequest (suc left) attempt last w = elim (Option-cases (ends (exchange w).0)) [
    | inr (o, e) ↦ rw (e, attempts) (ended-IsRequest (suc left) (exchange w).0 o (exchange w).1 e)
    | inl e ↦
        rw (e, attempts)
          (after-IsRequest left attempt (exchange w).0
            (attempts exchange jitter max_backoff (suc left) (suc attempt) (some (exchange w).0)
              (exchange w).1)
            (ends-none (exchange w).0 e).0
            (attempts-IsRequest left (suc attempt) (some (exchange w).0) (exchange w).1))
  ]

-- A request of the SDK ends after at least one exchange and at most its number of attempts, at
-- least 1. All exchanges but the last are failures of the connection or responses 429, 502, 503 or
-- 504. The last decides the outcome: a response below 400 is returned; one of 400 or more with any
-- other status, 500 among them, is raised; and if the last fails like those before it, every attempt
-- was used and its failure is raised. There is one pause between two exchanges, none longer than the
-- maximum.
pub request-IsRequest :
    {W : Type 0} (exchange : W → Exchange × W) (jitter : ℕ → ℕ) (max_backoff max_attempts : ℕ)
    (w : W)
    → IsRequest max_backoff
        (max 1 max_attempts)
        (request exchange jitter max_backoff max_attempts w)
unfolding request
request-IsRequest exchange jitter max_backoff max_attempts w = at (max 1 max_attempts) (omega arith)
  where
    at : (n : ℕ) → 0 < n → IsRequest max_backoff n (attempts exchange jitter max_backoff n 0 none w)
    at zero h = absurd (omega arith)
    at (suc n) h = attempts-IsRequest exchange jitter max_backoff n 0 none w
