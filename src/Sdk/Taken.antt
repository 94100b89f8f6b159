-- ===== src/Sdk/Taken.antt =====
-- A batch of the reporter at the server: app/services/client_telemetry.py and the handler
-- `telemetry_batch` of app/routers/client_telemetry.py.
use astra_back.Prelude.{
  ℕ, ◌≤◌, ◌≡◌, refl, ap, true, Option, none, some, Text, leb, inl, inr, ◌⊎◌, arith,
}
use astra_back.Store.{RowId, Clock, ModelRow, DeploymentRow, ApiKeyRow, Db}
use astra_back.Http.{Result, ok, err, HttpError}
use astra_back.ApiKeys.{touch_key}
use astra_back.Deployments.{resolve}
use astra_back.Telemetry.{
  TelemetryBatch, Accepted, total_items, ingest_batch, telemetry_batch, within_lists, through,
  respond,
}
use astra_back.Sdk.Queues.{batch_max, Segment}
use astra_back.Sdk.Bounds.{Fits, IsSegment}

-- The answer of the handler: counts, or the error of the gate on tables that it leaves alone.
abbrev pub IsHandled :
    Result (ApiKeyRow × DeploymentRow × ModelRow) → Db → Result (Accepted × ℕ) × Db → Type 0
IsHandled gate db answer =
    ((counts : Accepted × ℕ) × (db' : Db) × (answer ≡ (ok counts, db')))
    ⊎ ((e : HttpError) × (gate ≡ err e) × (answer ≡ (err e, db)))

-- The server takes such a batch: its lists are within the limits of the schema, the ingestion
-- answers with counts, whichever request reads the ledger when, and the handler answers with counts
-- or with the error that the check of the key gives.
pub record IsTaken (limit : ℕ) (b : TelemetryBatch) : Type 0 where
  pub lists : within_lists b ≡ true
  pub ingested :
      (clock : Clock) (now : ℕ) (dep : DeploymentRow) (model : ModelRow) (seen db : Db)
      → (r : (Accepted × ℕ) × Db) × (ingest_batch clock now dep model b limit seen db ≡ ok r)
  pub handled :
      (hash : Text → Text) (clock : Clock) (now : ℕ) (deployment_id : RowId) (token : Option Text)
      (db : Db)
      → IsHandled
          (resolve hash deployment_id token db)
          db
          (telemetry_batch hash clock now limit deployment_id token b db)

abbrev pub IsTakenIn : ℕ → Option TelemetryBatch → Type 0
IsTakenIn limit none = Unit
IsTakenIn limit (some b) = IsTaken limit b

Fits-ingested :
    (limit : ℕ) (b : TelemetryBatch)
    → batch_max ≤ limit
    → Fits b
    → (clock : Clock) (now : ℕ) (dep : DeploymentRow) (model : ModelRow) (seen db : Db)
    → (r : (Accepted × ℕ) × Db) × (ingest_batch clock now dep model b limit seen db ≡ ok r)
unfolding ingest_batch
Fits-ingested limit b enough fits clock now dep model seen db =
    let small : leb (total_items b) limit ≡ true = ground arith in rw (small) (_, refl)

Fits-IsHandled :
    (limit : ℕ) (b : TelemetryBatch) (clock : Clock) (now : ℕ) (db : Db)
    (gate : Result (ApiKeyRow × DeploymentRow × ModelRow))
    → batch_max ≤ limit
    → Fits b
    → IsHandled gate db (through clock now limit b db gate)
Fits-IsHandled limit b clock now db (err e) enough fits = inr (e, refl, refl)
Fits-IsHandled limit b clock now db (ok (k, d, m)) enough fits =
    let db' = touch_key clock now k db in
    let (r, answered) = Fits-ingested limit b enough fits clock now d m db' db' in
    inl (r.0, r.1, ap (respond db') answered)

pub Fits-IsTaken : (limit : ℕ) → batch_max ≤ limit → (b : TelemetryBatch) → Fits b → IsTaken limit b
unfolding telemetry_batch
Fits-IsTaken limit enough b fits = record {
  lists = ground arith;
  ingested = Fits-ingested limit b enough fits;
  handled = λ hash clock now deployment_id token db.
      Fits-IsHandled limit b clock now db (resolve hash deployment_id token db) enough fits;
}

pub segment-IsTaken :
    (limit : ℕ) → batch_max ≤ limit → (f : Segment) → IsSegment f → IsTakenIn limit f.content
segment-IsTaken limit enough f h = content-IsTaken f.content h
  where
    content-IsTaken :
        (o : Option TelemetryBatch)
        → ((b : TelemetryBatch) → o ≡ some b → Fits b)
        → IsTakenIn limit o
    content-IsTaken none k = tt
    content-IsTaken (some b) k = Fits-IsTaken limit enough b (k b refl)
