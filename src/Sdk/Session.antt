-- ===== src/Sdk/Session.antt =====
-- clients/python/astra_sdk/_http.py: one request with its retries. Times are in milliseconds; what a
-- call of the HTTP client comes to, and the jitter of an attempt, are parameters.
use Prim.Native.Nat.{◌^◌}
use astra_back.Prelude.{
  ℕ, zero, suc, ◌+◌, ◌*◌, min, max, Bool, ◌||◌, Option, none, some, List, [], ◌∷◌, ltb, ◌==◌, any,
  if◌then◌else◌,
}
use astra_back.Telemetry.{TelemetryBatch}
use astra_back.Sdk.Spool.{Reply, acked, refused, unreachable}

pub data Exchange : Type 0 where
  response : ℕ → Exchange
  http_error : Exchange

-- `gave_up none` is the failure of the assertion at the end.
pub data Outcome : Type 0 where
  returned : ℕ → Outcome
  raised : ℕ → Outcome
  gave_up : Option Exchange → Outcome

-- `_RETRYABLE_STATUS`
abbrev retryable_status : List ℕ
retryable_status = 429 ∷ 502 ∷ 503 ∷ 504 ∷ []

abbrev pub is_success : ℕ → Bool
is_success status = ltb status 400 || (status == 304)

abbrev is_retryable : ℕ → Bool
is_retryable status = any (λ s. s == status) retryable_status

-- What one exchange means: an end of the request, or a failure that is tried again.
abbrev pub ends : Exchange → Option Outcome
ends http_error = none
ends (response status) =
    if is_success status
    then some (returned status)
    else if is_retryable status
    then none
    else some (raised status)

-- The outcome, the exchanges in order, the pauses in order, and the outside.
pub record Attempted (W : Type 0) : Type 0 where
  pub outcome : Outcome
  pub exchanges : List Exchange
  pub pauses : List ℕ
  pub world : W

module _ {W : Type 0} (exchange : W → Exchange × W) (jitter : ℕ → ℕ) (max_backoff : ℕ) where
  abbrev pub backoff : ℕ → ℕ
  backoff attempt = min max_backoff (2 ^ attempt * 1000 + jitter attempt)

  -- No pause follows the last attempt.
  abbrev pub pause_before : ℕ → ℕ → List ℕ → List ℕ
  pause_before zero attempt pauses = pauses
  pause_before (suc left) attempt pauses = backoff attempt ∷ pauses

  abbrev pub after : Exchange → List ℕ → Attempted W → Attempted W
  after x pauses rest = record {
    outcome = rest.outcome;
    exchanges = x ∷ rest.exchanges;
    pauses = pauses;
    world = rest.world;
  }

  -- `left` attempts are left, of which this is number `attempt`.
  unfoldable pub attempts : ℕ → ℕ → Option Exchange → W → Attempted W
  attempts zero attempt last w = record {
    outcome = gave_up last;
    exchanges = [];
    pauses = [];
    world = w;
  }
  attempts (suc left) attempt last w = elim (ends (exchange w).0) [
    | some o ↦ record {
      outcome = o;
      exchanges = (exchange w).0 ∷ [];
      pauses = [];
      world = (exchange w).1;
    }
    | none ↦
        let rest = attempts left (suc attempt) (some (exchange w).0) (exchange w).1 in
        after (exchange w).0 (pause_before left attempt rest.pauses) rest
  ]

  unfoldable pub request : ℕ → W → Attempted W
  unfolding attempts
  request max_attempts w = attempts (max 1 max_attempts) 0 none w

-- How the reporter reads an outcome.
abbrev pub reply_of : Outcome → Reply
reply_of (returned status) = acked
reply_of (raised status) = refused status
reply_of (gave_up (some (response status))) = refused status
reply_of (gave_up _) = unreachable

-- The request of `_send_batch`, through a session of the reporter: two attempts, and pauses up to 30 s.
abbrev pub session_post :
    {W : Type 0} → (TelemetryBatch → W → Exchange × W) → (ℕ → ℕ) → W → TelemetryBatch → Reply × W
session_post exchange jitter w b =
    let a = request (exchange b) jitter 30_000 2 w in (reply_of a.outcome, a.world)
