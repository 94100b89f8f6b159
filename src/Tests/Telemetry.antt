-- ===== src/Tests/Telemetry.antt =====
-- The telemetry: ingestion, retries, the reporter of the SDK and the monitor at concrete inputs.
use astra_back.Prelude.{
  ℕ, ◌+◌, ◌*◌, ◌≡◌, ◌≢◌, ◌⊎◌, ltb, refl, arith, true, false, none, some, List, [], ◌∷◌, In, length,
  map, reverse, ◌++◌, codes,
}
use astra_back.Store.{warning, opaque_json, AlertRow, InferenceEventRow, Db}
use astra_back.Http.{ok, batch_too_large}
use astra_back.ApiKeys.{resolve_key}
use astra_back.Deployments.{resolve}
use astra_back.Telemetry.{telemetry_batch}
use astra_back.Telemetry.Refusals.{IsRefused, telemetry_batch-IsRefused}
use astra_back.Tests.Fixtures.{digest}
use astra_back.Telemetry.{
  ClientEvent, TelemetryBatch, event_row, Accepted, total_items, day, prior_of, answer,
  ingest_batch, Retention, purge_expired,
}
use astra_back.Telemetry.Counts.{taken, ingest_batch-accounts, ingest_batch-events}
use astra_back.Telemetry.Ledger.{here, next, waited, purged}
use astra_back.Telemetry.Replay.{never_inserted_twice, ingest_batch_retry}
use astra_back.Sdk.{Reporter, Reply, acked, record_event}
use astra_back.Sdk.{Disk, enforce_spool_cap}
use astra_back.Sdk.Cap.{Trimmed, enforce_spool_cap-Trimmed}
use astra_back.Sdk.Runs.{Reach}
use astra_back.Sdk.Runs
use astra_back.Monitor.{Gauges, drift_monitor_pass}
use astra_back.Monitor.Cooldown.{IsSpaced, drift_monitor_pass-IsSpaced}
use astra_back.Monitor.Fleet.{workspace_fleet_health, IsWorst, workspace_fleet_health-IsWorst}
use astra_back.Tests.Fixtures.{clock, serving, serving_model, serving_db}

abbrev pub event_at : ℕ → ClientEvent
event_at t = record {
  ts = t ∷ [];
  latency_ms = 12;
  pre_ms = none;
  post_ms = none;
  success = true;
  error_code = none;
  batch_size = 1;
  region = [];
  input_sig = none;
}

-- The second event lies an hour ahead.
abbrev batch : TelemetryBatch
batch = record {
  client_id = codes "sdk_1";
  batch_id = some 3;
  events = event_at 900 ∷ event_at 3_601_000 ∷ [];
  snapshots = [];
  windows = [];
}

ingest_batch-accounts_example :
    (a : Accepted) × (dropped : ℕ) × (db' : Db) × (ingest_batch clock 1000 serving serving_model
        batch 500 serving_db serving_db
      ≡ ok ((a, dropped), db'))
    × (a.events + a.snapshots + a.windows + dropped ≡ total_items batch)
    × (length db'.events ≡ a.events + length serving_db.events)
    × (length db'.snapshots ≡ a.snapshots + length serving_db.snapshots)
    × (length db'.windows ≡ a.windows + length serving_db.windows)
ingest_batch-accounts_example =
    ingest_batch-accounts clock 1000 serving serving_model batch 500 serving_db serving_db refl refl
      refl

abbrev first_answer : (Accepted × ℕ) × Db
first_answer = answer clock 1000 serving serving_model batch none serving_db

ingest_batch_retry_example :
    ingest_batch clock 2000 serving serving_model batch 500 first_answer.1 first_answer.1
    ≡ ok first_answer
unfolding ingest_batch
ingest_batch_retry_example =
    ingest_batch_retry clock 1000 2000 500 serving serving serving_model serving_model batch 3
      serving_db first_answer refl refl

ingest_batch-events_example :
    first_answer.1.events
    ≡ reverse (
        map
          (event_row serving serving_model batch.client_id)
          (taken clock 1000 serving serving_model batch (prior_of batch.batch_id serving_db)))
      ++ serving_db.events
unfolding ingest_batch
ingest_batch-events_example =
    ingest_batch-events clock 1000 serving serving_model batch 500 serving_db first_answer refl

abbrev retention : Retention
retention = record {
  enabled = true;
  telemetry_days = 30;
  processed_batch_days = 31;
  activity_days = 90;
}

abbrev a_week : ℕ
a_week = 7 * day

-- A week and a purge later the batch comes again.
abbrev purged_db : Db
purged_db = purge_expired retention clock (1000 + a_week) first_answer.1

abbrev second_answer : (Accepted × ℕ) × Db
second_answer =
    answer clock (1000 + a_week) serving serving_model batch (prior_of batch.batch_id purged_db)
      purged_db

never_inserted_twice_example :
    (new new' : List InferenceEventRow) × (first_answer.1.events ≡ new ++ serving_db.events)
    × (second_answer.1.events ≡ new' ++ purged_db.events)
    × ((row row' : InferenceEventRow) → In row new → In row' new' → row.ts ≢ row'.ts)
unfolding ingest_batch
never_inserted_twice_example =
    never_inserted_twice clock retention 500 1000 (1000 + a_week) 3 serving serving serving_model
      serving_model batch first_answer.0 second_answer.0 serving_db first_answer.1 purged_db
      purged_db second_answer.1 (omega arith) refl refl refl
      (next (next here (waited a_week)) purged) refl

-- A file system that does what it is asked for, and one that cannot delete the newest segments.
abbrev sound : Disk
sound = record {
  lists = true;
  measures = λ s. true;
  measures_again = λ s. true;
  reads = λ s. true;
  unlinks = λ s. true;
}

abbrev worn : Disk
worn = record sound { unlinks = λ s. ltb s.millis 6 }

abbrev reporter : Reporter
reporter = record {
  client_id = codes "sdk_1";
  enabled = true;
  events = [];
  snapshots = [];
  windows = [];
  mem_pending = batch ∷ [];
  dropped = 0;
  sent_events = 0;
  window_requests = 0;
  seg_seq = 0;
  spool = true;
  segments = record { millis = 5; seq = 1; size = 100; content = some batch } ∷ [];
}

-- A server that takes every batch, and holds those it took.
abbrev taking : List TelemetryBatch → TelemetryBatch → Reply × List TelemetryBatch
taking w b = (acked, b ∷ w)

abbrev fresh_reporter : Reporter
fresh_reporter = record reporter { mem_pending = []; segments = [] }

abbrev recording : Reporter
recording = record_event 200 (event_at 900) none fresh_reporter

abbrev gauges : Gauges
gauges = record {
  window_ms = 300_000;
  drift_p95_permille = 250;
  drift_error_pct = 5;
  percentile = λ ns q. 100;
  rate = λ n d. n;
  divergence = λ p. 0;
  baseline_p95 = λ p. some 10;
  reference = λ ws. opaque_json 0;
  prediction_drift = λ ref w. none;
  input_shift = λ ref w. none;
  spike_text = λ p95 base. codes "spike";
  error_text = λ pct. codes "errors";
}

-- Alerts an hour old, and traffic whose latency has risen.
abbrev old_alert : AlertRow
old_alert = record {
  id = 60;
  user_id = 1;
  model_id = 7;
  level = warning;
  title = codes "p95 latency spike";
  body = [];
  at = 1000 ∷ [];
}

drift_monitor_pass-IsSpaced_example :
    IsSpaced clock
      (drift_monitor_pass gauges clock 3_601_000 70
        (record first_answer.1 { alerts = old_alert ∷ [] })).alerts
drift_monitor_pass-IsSpaced_example =
    drift_monitor_pass-IsSpaced gauges clock 3_601_000 70
      (record first_answer.1 { alerts = old_alert ∷ [] }) (tt, tt)

-- Three segments of 100 bytes, and a cap of 150.
abbrev over_cap : Reporter
over_cap = record reporter {
  segments =
      record { millis = 5; seq = 1; size = 100; content = some batch }
      ∷ record { millis = 6; seq = 2; size = 100; content = none }
      ∷ record { millis = 7; seq = 3; size = 100; content = some batch }
      ∷ [];
}

enforce_spool_cap-Trimmed_example :
    ((worn.lists ≡ true)
      × (n : ℕ) × Trimmed worn 150 over_cap.segments
          (enforce_spool_cap worn 150 over_cap).segments
          n
      × ((enforce_spool_cap worn 150 over_cap).dropped ≡ over_cap.dropped + n))
    ⊎ ((worn.lists ≡ false) × (enforce_spool_cap worn 150 over_cap ≡ over_cap))
enforce_spool_cap-Trimmed_example = enforce_spool_cap-Trimmed worn 150 over_cap

-- A serving deployment, and one warning.
abbrev warned_db : Db
warned_db = record serving_db { alerts = old_alert ∷ [] }

workspace_fleet_health-IsWorst_example :
    IsWorst 1 warned_db (workspace_fleet_health 1 warned_db).status
workspace_fleet_health-IsWorst_example = workspace_fleet_health-IsWorst 1 warned_db

-- A server that takes one item at a time, and a key that stands.
telemetry_batch-IsRefused_example :
    IsRefused clock 1000 1 batch serving_db batch_too_large
      (resolve digest 5 (some (codes "old")) serving_db)
      (telemetry_batch digest clock 1000 1 5 (some (codes "old")) batch serving_db)
unfolding telemetry_batch ingest_batch resolve resolve_key
telemetry_batch-IsRefused_example =
    telemetry_batch-IsRefused digest clock 1000 1 5 (some (codes "old")) batch serving_db
      batch_too_large refl
