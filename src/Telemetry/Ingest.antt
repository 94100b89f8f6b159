-- ===== src/Telemetry/Ingest.antt =====
-- app/services/client_telemetry.py and the handler `telemetry_batch` of
-- app/routers/client_telemetry.py.
use astra_back.Prelude.{
  ℕ, suc, ◌+◌, ◌*◌, Bool, true, false, ◌&&◌, Option, none, some, List, [], ◌∷◌, ◌++◌, leb, ◌==◌,
  find_if, take, Text, text_ltb, codes, if◌then◌else◌,
}
use astra_back.Store.{
  RowId, Stamp, Clock, ModelRow, DeploymentRow, ApiKeyRow, InferenceEventRow, TelemetrySnapshotRow,
  TelemetryWindowStatsRow, ProcessedBatchRow, Db, update,
}
use astra_back.Http.{Result, ok, err, batch_too_large, require, ◌>>◌}
use astra_back.ApiKeys.{touch_key}
use astra_back.Deployments.{resolve}
use astra_back.Telemetry.Batch.{
  ClientEvent, ClientSnapshot, ClientWindowStats, TelemetryBatch, total_items, Accepted,
}

-- `_PAST_CLAMP` and `_FUTURE_CLAMP` in milliseconds
abbrev pub past_clamp : ℕ
past_clamp = 30 * 86_400_000

abbrev pub future_clamp : ℕ
future_clamp = 5 * 60_000

abbrev pub within_clamp : ℕ → Option ℕ → Bool
within_clamp now none = false
within_clamp now (some dt) = leb now (dt + past_clamp) && leb dt (now + future_clamp)

unfoldable pub valid_ts : Clock → ℕ → Stamp → Bool
valid_ts clock now ts = within_clamp now (clock.parse ts)

-- The rows that a loop over the items appends, the newest first, and its two counters.
pub record Tally (R : Type 0) : Type 0 where
  pub rows : List R
  pub accepted : ℕ
  pub dropped : ℕ

-- One of the three loops. They share the counter `dropped`, which each takes over from the one before.
unfoldable pub tally : {A R : Type 0} → (A → Bool) → (A → R) → List A → Tally R → Tally R
tally valid row [] t = t
tally valid row (x ∷ xs) t =
    if valid x
    then tally valid row xs (record t { rows = row x ∷ t.rows; accepted = suc t.accepted })
    else tally valid row xs (record t { dropped = suc t.dropped })

abbrev later : Stamp → Option Stamp → Option Stamp
later ts none = some ts
later ts (some last) = if text_ltb last ts then some ts else some last

-- `last_event_ts` after the loop over the events
unfoldable pub last_ts : (ClientEvent → Bool) → List ClientEvent → Option Stamp → Option Stamp
last_ts valid [] last = last
last_ts valid (ev ∷ evs) last = last_ts valid evs (if valid ev then later ev.ts last else last)

abbrev or_local : Text → Text
or_local [] = codes "local"
or_local (c ∷ s) = c ∷ s

abbrev pub event_row : DeploymentRow → ModelRow → Text → ClientEvent → InferenceEventRow
event_row dep model client_id ev = record {
  user_id = model.user_id;
  model_id = model.id;
  deployment_id = dep.id;
  ts = ev.ts;
  latency_ms = ev.latency_ms;
  success = ev.success;
  error_code = ev.error_code;
  batch_size = ev.batch_size;
  region = or_local ev.region;
  source = codes "client";
  latency_pre_ms = ev.pre_ms;
  latency_post_ms = ev.post_ms;
  client_id = client_id;
  input_sig = ev.input_sig;
}

abbrev pub snapshot_row : DeploymentRow → ModelRow → Text → ClientSnapshot → TelemetrySnapshotRow
snapshot_row dep model client_id snap = record {
  user_id = model.user_id;
  model_id = model.id;
  deployment_id = dep.id;
  client_id = client_id;
  ts = snap.ts;
  cpu_pct = snap.cpu_pct;
  rss_mb = snap.rss_mb;
  throughput_rpm = snap.throughput_rpm;
  dropped_events = snap.dropped_events;
  sdk_version = take 32 snap.sdk_version;
  runtime_json = snap.host_info;
  gpu_util_pct = snap.gpu_util_pct;
  gpu_mem_used_mb = snap.gpu_mem_used_mb;
  gpu_temp_c = snap.gpu_temp_c;
}

abbrev pub window_row :
    DeploymentRow → ModelRow → Text → ClientWindowStats → TelemetryWindowStatsRow
window_row dep model client_id win = record {
  user_id = model.user_id;
  model_id = model.id;
  deployment_id = dep.id;
  client_id = client_id;
  window_start = win.window_start;
  window_end = win.window_end;
  n = win.n;
  input_stats_json = win.inputs;
  output_json = win.output;
}

-- `session.get(ProcessedBatchRow, batch.batchId)`, under `if batch.batchId`
abbrev pub batch_at : RowId → List ProcessedBatchRow → Option ProcessedBatchRow
batch_at i rows = find_if (λ b. b.batch_id == i) rows

abbrev pub prior_of : Option RowId → Db → Option ProcessedBatchRow
prior_of none db = none
prior_of (some i) db = batch_at i db.batches

abbrev pub counts_of : ProcessedBatchRow → Accepted × ℕ
counts_of prior = (
  record {
    events = prior.accepted_events;
    snapshots = prior.accepted_snapshots;
    windows = prior.accepted_windows;
  },
  prior.dropped,
)

-- `last_event_ts and (dep.last_event_at is None or last_event_ts > dep.last_event_at)`
abbrev is_newer : Option Stamp → Option Stamp → Bool
is_newer none at = false
is_newer (some []) at = false
is_newer (some (c ∷ s)) none = true
is_newer (some (c ∷ s)) (some at) = text_ltb at (c ∷ s)

abbrev touch_deployment : DeploymentRow → Option Stamp → List DeploymentRow → List DeploymentRow
touch_deployment dep last deps =
    if is_newer last dep.last_event_at
    then update (λ r. r.id == dep.id) (λ r. record r { last_event_at = last }) deps
    else deps

abbrev pub entry_of : RowId → RowId → Stamp → Accepted → ℕ → ProcessedBatchRow
entry_of i dep_id at accepted dropped = record {
  batch_id = i;
  deployment_id = dep_id;
  received_at = at;
  accepted_events = accepted.events;
  accepted_snapshots = accepted.snapshots;
  accepted_windows = accepted.windows;
  dropped = dropped;
}

abbrev pub add_record :
    Option RowId → RowId → Stamp → Accepted → ℕ → List ProcessedBatchRow → List ProcessedBatchRow
add_record none dep_id at accepted dropped rows = rows
add_record (some i) dep_id at accepted dropped rows = entry_of i dep_id at accepted dropped ∷ rows

module _ (clock : Clock) (now : ℕ) (dep : DeploymentRow) (model : ModelRow)
    (batch : TelemetryBatch) where
  abbrev pub event_tally : Tally InferenceEventRow
  event_tally =
      tally (λ ev. valid_ts clock now ev.ts) (event_row dep model batch.client_id) batch.events
        (record { rows = []; accepted = 0; dropped = 0 })

  abbrev pub snapshot_tally : Tally TelemetrySnapshotRow
  snapshot_tally =
      tally (λ s. valid_ts clock now s.ts) (snapshot_row dep model batch.client_id) batch.snapshots
        (record { rows = []; accepted = 0; dropped = event_tally.dropped })

  abbrev pub window_tally : Tally TelemetryWindowStatsRow
  window_tally =
      tally (λ w. valid_ts clock now w.window_start) (window_row dep model batch.client_id)
        batch.windows (record { rows = []; accepted = 0; dropped = snapshot_tally.dropped })

  abbrev pub accepted_of : Accepted
  accepted_of = record {
    events = event_tally.accepted;
    snapshots = snapshot_tally.accepted;
    windows = window_tally.accepted;
  }

  -- What is committed: the rows, the deployment's last event and the idempotency key.
  unfoldable pub insert_batch : Db → Db
  insert_batch db = record db {
    events = event_tally.rows ++ db.events;
    snapshots = snapshot_tally.rows ++ db.snapshots;
    windows = window_tally.rows ++ db.windows;
    deployments =
        touch_deployment dep (last_ts (λ ev. valid_ts clock now ev.ts) batch.events none)
          db.deployments;
    batches =
        add_record batch.batch_id dep.id (clock.iso now) accepted_of window_tally.dropped
          db.batches;
  }

  -- The commit meets a row with the same key if another request came first: its counts are returned.
  abbrev pub commit : Option ProcessedBatchRow → Db → (Accepted × ℕ) × Db
  commit none db = ((accepted_of, window_tally.dropped), insert_batch db)
  commit (some prior) db = (counts_of prior, db)

  -- `seen` are the tables when the ledger was read and `db` those at the commit: other requests may
  -- have committed in between.
  abbrev pub answer : Option ProcessedBatchRow → Db → (Accepted × ℕ) × Db
  answer none db = commit (prior_of batch.batch_id db) db
  answer (some prior) db = (counts_of prior, db)

  unfoldable pub ingest_batch : ℕ → Db → Db → Result ((Accepted × ℕ) × Db)
  unfolding insert_batch
  ingest_batch batch_max seen db = do
    require (leb (total_items batch) batch_max) batch_too_large
    ok (answer (prior_of batch.batch_id seen) db)

-- An error of the ingestion is answered on the tables that hold the key's new time of use.
abbrev pub respond : Db → Result ((Accepted × ℕ) × Db) → Result (Accepted × ℕ) × Db
respond db (ok (counts, db')) = (ok counts, db')
respond db (err e) = (err e, db)

module _ (clock : Clock) (now batch_max : ℕ) (batch : TelemetryBatch) (db : Db) where
  abbrev pub through : Result (ApiKeyRow × DeploymentRow × ModelRow) → Result (Accepted × ℕ) × Db
  through (err e) = (err e, db)
  through (ok (k, d, m)) =
      let db' = touch_key clock now k db in
      respond db' (ingest_batch clock now d m batch batch_max db' db')

-- The handler, where no other request comes in between.
unfoldable pub telemetry_batch :
    (Text → Text)
    → Clock
    → ℕ
    → ℕ
    → RowId
    → Option Text
    → TelemetryBatch
    → Db
    → Result (Accepted × ℕ) × Db
telemetry_batch hash clock now batch_max deployment_id token batch db =
    through clock now batch_max batch db (resolve hash deployment_id token db)
