-- ===== src/Jobs.antt =====
-- app/services/jobs.py: the pipeline worker as it changes the tables. A run of `execute_pipeline` is
-- a sequence of what the engine reports, and then its outcome; the engine, the scratch files and the
-- object store are not modelled. Laws stand in Logs, Results and Lifecycle.
pub mod Logs
pub mod Results
use astra_back.Prelude.{
  ℕ, suc, ◌*◌, Bool, true, false, not, ◌&&◌, ◌||◌, Option, none, some, List, [], ◌∷◌, ◌++◌, ltb,
  ◌==◌, take, Text, codes, ℤ, pos, sub_ℕ, round_percent, if◌then◌else◌,
}
use astra_back.Store.{
  RowId, Stamp, draft, failed, ModelRow, running, queued, run_done, run_failed, RunStatus, RunRow,
  completed, ingestion_failed, IngestionRunRow, LogLevel, error_level, IngestionLogRow, CacheKind,
  architecture, pareto, benchmark, pareto_configs, artifact_meta, Payload, ParetoPayload,
  ResultCacheRow, experiment, danger, warning, AlertRow, run_completed, ActivityRow, Db, update,
}
use astra_back.Repositories.{is_busy, is_status_deployed, put_row}

-- The arguments of the job, the texts of its run id and of its timeout, and the time of its writes.
pub record JobCtx : Type 0 where
  pub run_id : RowId
  pub model_id : RowId
  pub user_id : RowId
  pub model_name : Text
  pub run_text : Text
  pub timeout_text : Text
  pub now : Stamp

-- `emit` with the counter that it increments.
unfoldable pub emit : JobCtx → LogLevel → Text → ℕ × Db → ℕ × Db
emit job level message (seq, db) = (
  suc seq,
  record db {
    logs =
        record {
          run_id = job.run_id;
          seq = suc seq;
          ts = job.now;
          level = level;
          message = message;
        }
        ∷ db.logs;
  },
)

-- `total` is the number of trials that the run was created with.
unfoldable pub progress : JobCtx → ℕ → ℕ → Db → Db
progress job total pct db = record db {
  ingestion_runs =
      update (λ r. r.id == job.run_id) (λ r. record r { progress = pct }) db.ingestion_runs;
  runs =
      update (λ r. r.id == job.run_id)
        (λ r. record r { progress_pct = pct; iter = (round_percent (total * pct), total) }) db.runs;
}

abbrev pub is_queued : RunStatus → Bool
is_queued queued = true
is_queued _ = false

-- The worker has picked the job up: only a queued run becomes running.
unfoldable pub pick_up : JobCtx → Db → Db
pick_up job db = record db {
  runs =
      update (λ r. (r.id == job.run_id) && is_queued r.status) (λ r. record r { status = running })
        db.runs;
}

-- What the engine hands back. Of the uploaded artifact: its key, its hash and its size.
pub record Artifacts : Type 0 where
  pub artifact : Option (Text × Text × ℕ)
  pub architecture_payload : Payload
  pub pareto_payload : ParetoPayload
  pub benchmark_payload : Option Payload
  pub trial_configs : Option Payload
  pub meta_payload : Option Payload
  pub best_accuracy : Option ℕ
  pub is_safe : Bool
  pub max_sensitivity : ℕ
  pub risk_text : Text

abbrev put_if : JobCtx → CacheKind → Option Payload → List ResultCacheRow → List ResultCacheRow
put_if job kind none rows = rows
put_if job kind (some p) rows = put_row job.model_id kind p job.user_id rows

-- The cached results; a weights-only run measures nothing and caches its architecture alone.
put_results : JobCtx → Artifacts → Bool → List ResultCacheRow → List ResultCacheRow
put_results job a weights_only rows =
    let rows' = put_row job.model_id architecture a.architecture_payload job.user_id rows in
    if weights_only
    then rows'
    else put_if job artifact_meta a.meta_payload (
        put_if job pareto_configs a.trial_configs (
          put_if job benchmark a.benchmark_payload
            (put_row job.model_id pareto (experiment a.pareto_payload) job.user_id rows')))

abbrev or_zero : Option ℕ → ℕ
or_zero none = 0
or_zero (some n) = n

abbrev delta_of : Option ℕ → Option ℕ → ℤ
delta_of none best = pos 0
delta_of (some base) best = sub_ℕ (or_zero best) base

abbrev finish_run : JobCtx → IngestionRunRow → IngestionRunRow
finish_run job r = record r { status = completed; progress = 100; finished_at = some job.now }

abbrev finish_dash : Artifacts → Bool → RunRow → RunRow
finish_dash a weights_only r = record r {
  status = run_done;
  progress_pct = 100;
  iter = (r.iter.1, r.iter.1);
  best_acc = or_zero a.best_accuracy;
  delta_acc =
      delta_of (if weights_only then none else a.pareto_payload.base_accuracy) a.best_accuracy;
}

abbrev record_artifact : Option (Text × Text × ℕ) → ModelRow → ModelRow
record_artifact none m = m
record_artifact (some (key, sha, size)) m = record m {
  artifact_key = some key;
  artifact_sha256 = some sha;
  artifact_size_bytes = some size;
}

-- The artifact is recorded whatever the status; the status moves only from a busy one.
abbrev pub finish_model : JobCtx → Artifacts → Bool → ModelRow → ModelRow
finish_model job a weights_only m =
    let m' = record_artifact a.artifact m in
    if is_busy m.status
    then record m' {
      status = draft;
      best_accuracy = a.best_accuracy;
      weights_only = weights_only;
      last_optimized_at = some job.now;
      analysis_run_id = none;
    }
    else m'

abbrev risk_alerts : JobCtx → Artifacts → List AlertRow → List AlertRow
risk_alerts job a alerts =
    if not a.is_safe || ltb 70 a.max_sensitivity
    then record {
      id = job.run_id;
      user_id = job.user_id;
      model_id = job.model_id;
      level = warning;
      title = codes "Compression risk — " ++ job.model_name;
      body = a.risk_text;
      at = job.now;
    }
      ∷ alerts
    else alerts

unfoldable pub on_success : JobCtx → Artifacts → Bool → Db → Db
unfolding put_results
on_success job a weights_only db = record db {
  cache = put_results job a weights_only db.cache;
  ingestion_runs = update (λ r. r.id == job.run_id) (finish_run job) db.ingestion_runs;
  runs = update (λ r. r.id == job.run_id) (finish_dash a weights_only) db.runs;
  models = update (λ m. m.id == job.model_id) (finish_model job a weights_only) db.models;
  alerts = risk_alerts job a db.alerts;
  activity =
      record {
        id = job.run_id;
        user_id = job.user_id;
        kind = run_completed;
        text = codes "Run completed — run_" ++ (job.run_text ++ (codes " · " ++ job.model_name));
        timestamp = job.now;
      }
      ∷ db.activity;
}

abbrev pub fail_model : ModelRow → ModelRow
fail_model m =
    if is_status_deployed m.status then m else record m { status = failed; analysis_run_id = none }

unfoldable pub on_failure : JobCtx → Text → Db → Db
on_failure job error db = record db {
  ingestion_runs =
      update (λ r. r.id == job.run_id)
        (λ r. record r {
          status = ingestion_failed;
          error = some (take 500 error);
          finished_at = some job.now;
        })
        db.ingestion_runs;
  runs = update (λ r. r.id == job.run_id) (λ r. record r { status = run_failed }) db.runs;
  models = update (λ m. m.id == job.model_id) fail_model db.models;
  alerts =
      record {
        id = job.run_id;
        user_id = job.user_id;
        model_id = job.model_id;
        level = danger;
        title = codes "Pipeline failed — " ++ job.model_name;
        body = take 200 error;
        at = job.now;
      }
      ∷ db.alerts;
}

-- What the engine reports while it runs, through `emit` and `progress`.
pub data Report : Type 0 where
  logged : LogLevel → Text → Report
  progressed : ℕ → Report

pub data Outcome : Type 0 where
  succeeded : Artifacts → Bool → Outcome
  cancelled crashed : Text → Outcome

unfoldable pub run_reports : JobCtx → ℕ → List Report → ℕ × Db → ℕ × Db
run_reports job total [] s = s
run_reports job total (logged level message ∷ rs) s =
    run_reports job total rs (emit job level message s)
run_reports job total (progressed pct ∷ rs) (seq, db) =
    run_reports job total rs (seq, progress job total pct db)

-- The job boundary: an exception, a cancellation among them, is logged and ends in `_on_failure`.
unfoldable pub finish : JobCtx → Outcome → ℕ × Db → Db
finish job (succeeded a weights_only) (seq, db) = on_success job a weights_only db
finish job (cancelled error) s =
    let message =
      codes "Pipeline cancelled (timeout " ++ (job.timeout_text ++ codes "s or explicit cancel)") in
    on_failure job error (emit job error_level message s).1
finish job (crashed error) s =
    on_failure job error (emit job error_level (codes "Pipeline failed: " ++ error) s).1

unfoldable pub execute_pipeline : JobCtx → ℕ → List Report → Outcome → Db → Db
execute_pipeline job total reports outcome db =
    finish job outcome (run_reports job total reports (0, pick_up job db))
