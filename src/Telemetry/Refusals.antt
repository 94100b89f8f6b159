-- ===== src/Telemetry/Refusals.antt =====
-- What a refused batch leaves: app/routers/client_telemetry.py.
use astra_back.Prelude.{
  ℕ, ◌<◌, ◌≡◌, ◌⊎◌, inl, inr, refl, ap, arith, Bool, true, false, Option, Text, leb, if-by,
}
use astra_back.Store.{RowId, Clock, ModelRow, DeploymentRow, ApiKeyRow, Db}
use astra_back.Http.{HttpError, Result, ok, err, batch_too_large, require, ◌>>=◌}
use astra_back.ApiKeys.{touch_key}
use astra_back.Deployments.{resolve}
use astra_back.Telemetry.Batch.{TelemetryBatch, total_items, Accepted}
use astra_back.Telemetry.Ingest.{prior_of, answer, ingest_batch, respond, through, telemetry_batch}

-- Nothing but the keys differs.
abbrev pub IsUntouched : Db → Db → Type 0
IsUntouched db db' = db' ≡ record db { api_keys = db'.api_keys }

module _ (clock : Clock) (now batch_max : ℕ) (batch : TelemetryBatch) (db : Db)
    (e : HttpError) where
  -- Why a batch is refused, by what the key resolves to.
  abbrev pub IsRefused :
      Result (ApiKeyRow × DeploymentRow × ModelRow) → Result (Accepted × ℕ) × Db → Type 0
  IsRefused r answer =
      IsUntouched db answer.1
      × ((r ≡ err e) × (answer.1 ≡ db) ⊎ (e ≡ batch_too_large) × (batch_max < total_items batch))

  touch_key-IsUntouched : (k : ApiKeyRow) → IsUntouched db (touch_key clock now k db)
  unfolding touch_key
  touch_key-IsUntouched k = if-by (IsUntouched db) _ db _ (λ recent. refl) (λ late. refl)

  limited-IsRefused :
      (r : Result (ApiKeyRow × DeploymentRow × ModelRow)) (db' : Db) (x : (Accepted × ℕ) × Db)
      (b : Bool)
      → leb (total_items batch) batch_max ≡ b
      → IsUntouched db db'
      → (respond db' (require b batch_too_large >>= λ _. ok x)).0 ≡ err e
      → IsRefused r (respond db' (require b batch_too_large >>= λ _. ok x))
  limited-IsRefused r db' x true fits u h = absurd (cc)
  limited-IsRefused r db' x false large u h = (u, inr ((cc), ground arith))

  through-IsRefused :
      (r : Result (ApiKeyRow × DeploymentRow × ModelRow))
      → (through clock now batch_max batch db r).0 ≡ err e
      → IsRefused r (through clock now batch_max batch db r)
  unfolding ingest_batch
  through-IsRefused (err e') h = (refl, inl (same_error e' h, refl))
    where
      same_error :
          (f : HttpError)
          → ◌≡◌ {A = Result (Accepted × ℕ)} (err f) (err e)
          → ◌≡◌ {A = Result (ApiKeyRow × DeploymentRow × ModelRow)} (err f) (err e)
      same_error f g = let k : f ≡ e = cc in ap err k
  through-IsRefused (ok (k, d, m)) h =
      let db' = touch_key clock now k db in
      limited-IsRefused (ok (k, d, m)) db'
        (answer clock now d m batch (prior_of batch.batch_id db') db')
        (leb (total_items batch) batch_max) refl (touch_key-IsUntouched k) h

-- A batch that is answered with an error leaves every table but the keys as it was; and either the
-- error is the one that the check of the key gives, and the keys are unchanged too, or it is that
-- the batch is too large, and the batch has more items than the limit.
pub telemetry_batch-IsRefused :
    (hash : Text → Text) (clock : Clock) (now batch_max : ℕ) (deployment_id : RowId)
    (token : Option Text) (batch : TelemetryBatch) (db : Db) (e : HttpError)
    → (telemetry_batch hash clock now batch_max deployment_id token batch db).0 ≡ err e
    → IsRefused clock now batch_max batch db e
        (resolve hash deployment_id token db)
        (telemetry_batch hash clock now batch_max deployment_id token batch db)
unfolding telemetry_batch
telemetry_batch-IsRefused hash clock now batch_max deployment_id token batch db e h =
    through-IsRefused clock now batch_max batch db e (resolve hash deployment_id token db) h
