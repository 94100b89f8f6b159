-- ===== src/Monitor/Pass.antt =====
-- app/services/drift_monitor.py: one pass over the deployments. What it computes in floating point
-- (percentiles, rates, the drift of distributions) and the texts of the alerts are parameters.
use astra_back.Prelude.{
  ℕ, ◌+◌, ◌-◌, ◌*◌, Bool, false, not, ◌&&◌, Option, none, some, List, [], ◌∷◌, ◌++◌, ltb, leb, ◌==◌,
  keep_if, find_if, length, count_if, take, Text, text_ltb, codes, if◌then◌else◌,
}
use astra_back.Store.{
  RowId, Stamp, Clock, warning, danger, AlertLevel, CacheKind, benchmark, drift_ref, Payload,
  DeploymentRow, InferenceEventRow, TelemetryWindowStatsRow, Db,
}
use astra_back.Repositories.{kind_number, payload_of}
use astra_back.Deployments.{is_paused, update_deployment_at}
use astra_back.Monitor.Alerts.{raise_alert}
use astra_back.Monitor.Rollups.{latencies, upsert_rollups}

-- The settings, and the computations on numbers. A rate is in thousandths, a rise in tenths of a
-- percent.
pub record Gauges : Type 0 where
  pub window_ms : ℕ
  pub drift_p95_permille : ℕ
  pub drift_error_pct : ℕ
  pub percentile : List ℕ → ℕ → ℕ
  pub rate : ℕ → ℕ → ℕ
  pub divergence : Payload → ℕ
  pub baseline_p95 : Payload → Option ℕ
  pub reference : List TelemetryWindowStatsRow → Payload
  pub prediction_drift : Payload → TelemetryWindowStatsRow → Option (AlertLevel × Text)
  pub input_shift : Payload → TelemetryWindowStatsRow → Option Text
  pub spike_text : ℕ → ℕ → Text
  pub error_text : ℕ → Text

-- `_REF_WINDOWS`, and `_WINDOW_FRESH_MIN` in milliseconds
abbrev ref_windows : ℕ
ref_windows = 5

abbrev window_fresh : ℕ
window_fresh = 30 * 60_000

-- The first cached row of a model and kind, whoever's.
abbrev pub cached_payload : RowId → CacheKind → Db → Option Payload
cached_payload model_id kind db =
    payload_of
      (find_if (λ r. (r.model_id == model_id) && (kind_number r.kind == kind_number kind)) db.cache)

abbrev latest_ts : Option Stamp → List InferenceEventRow → Option Stamp
latest_ts best [] = best
latest_ts none (e ∷ es) = latest_ts (some e.ts) es
latest_ts (some t) (e ∷ es) = latest_ts (some (if text_ltb t e.ts then e.ts else t)) es

abbrev divergence_of : Gauges → Option Payload → ℕ
divergence_of g none = 0
divergence_of g (some p) = g.divergence p

abbrev rate_or_zero : Gauges → ℕ → ℕ → ℕ
rate_or_zero g n d = if d == 0 then 0 else g.rate n d

-- `if last`: no time stamp, or an empty one, leaves the field.
abbrev or_kept : Option Stamp → Option Stamp → Option Stamp
or_kept none at = at
or_kept (some []) at = at
or_kept (some (c ∷ s)) at = some (c ∷ s)

module _ (g : Gauges) (clock : Clock) (now : ℕ) where
  unfoldable pub events_in_window : RowId → Db → List InferenceEventRow
  events_in_window dep_id db =
      keep_if
        (λ e.
          (e.deployment_id == dep_id)
          && not (text_ltb e.ts (clock.iso (now - g.window_ms)))
          && text_ltb e.ts (clock.iso now))
        db.events

  abbrev pub error_pct : List InferenceEventRow → ℕ
  error_pct events = rate_or_zero g (100 * count_if (λ e. not e.success) events) (length events)

  abbrev pub rolling_p95 : List InferenceEventRow → ℕ
  rolling_p95 events = g.percentile (latencies events) 95

  -- `_update_live_metrics` on the row of the deployment
  abbrev pub live_metrics : List InferenceEventRow → Option Payload → DeploymentRow → DeploymentRow
  live_metrics events bench d = record d {
    qps = rate_or_zero g (1000 * length events) g.window_ms;
    p95 = rolling_p95 events;
    errors_pct = error_pct events;
    accuracy_drift = if length events == 0 then 0 else divergence_of g bench;
    last_event_at = or_kept (latest_ts none events) d.last_event_at;
  }

  unfoldable pub update_live_metrics : DeploymentRow → List InferenceEventRow → Db → Db
  update_live_metrics dep events db =
      update_deployment_at dep.id (live_metrics events (cached_payload dep.model_id benchmark db))
        db

  -- `order_by(window_start)`
  abbrev insert_window :
      TelemetryWindowStatsRow → List TelemetryWindowStatsRow → List TelemetryWindowStatsRow
  insert_window w [] = w ∷ []
  insert_window w (v ∷ vs) =
      if text_ltb v.window_start w.window_start then v ∷ insert_window w vs else w ∷ v ∷ vs

  abbrev pub windows_of : RowId → List TelemetryWindowStatsRow → List TelemetryWindowStatsRow
  windows_of dep_id [] = []
  windows_of dep_id (w ∷ ws) =
      let rest = windows_of dep_id ws in
      if w.deployment_id == dep_id then insert_window w rest else rest

  abbrev pin_reference : DeploymentRow → Payload → Db → Db
  pin_reference dep ref db = record db {
    cache =
        db.cache
        ++ record {
          user_id = dep.user_id;
          model_id = dep.model_id;
          kind = drift_ref dep.id;
          payload = ref;
        }
          ∷ [];
  }

  abbrev pub or_pinned :
      DeploymentRow → List TelemetryWindowStatsRow → Db → Option Payload → Payload × Db
  or_pinned dep windows db (some ref) = (ref, db)
  or_pinned dep windows db none =
      let ref = g.reference (take ref_windows windows) in (ref, pin_reference dep ref db)

  -- `_drift_reference`, where there are more than five windows: the cached one, or a new one.
  unfoldable pub drift_reference : DeploymentRow → List TelemetryWindowStatsRow → Db → Payload × Db
  drift_reference dep windows db =
      or_pinned dep windows db (cached_payload dep.model_id (drift_ref dep.id) db)

  abbrev is_fresh : Option ℕ → Bool
  is_fresh none = false
  is_fresh (some started) = leb now (started + window_fresh)

  abbrev last_of : TelemetryWindowStatsRow → List TelemetryWindowStatsRow → TelemetryWindowStatsRow
  last_of w [] = w
  last_of w (v ∷ vs) = last_of v vs

  module _ (token : ℕ) (dep : DeploymentRow) where
    abbrev pub raise_prediction : Option (AlertLevel × Text) → Db → Db
    raise_prediction none db = db
    raise_prediction (some (level, body)) db =
        (raise_alert clock now token dep level (codes "prediction drift") body db).1

    abbrev pub raise_input : Option Text → Db → Db
    raise_input none db = db
    raise_input (some body) db =
        (raise_alert clock now (token + 1) dep warning (codes "input distribution shift") body db).1

    abbrev pub judge_window : Payload → TelemetryWindowStatsRow → Db → Db
    judge_window ref latest db =
        if is_fresh (clock.parse latest.window_start)
        then raise_input (g.input_shift ref latest)
            (raise_prediction (g.prediction_drift ref latest) db)
        else db

    abbrev pub check_windows : List TelemetryWindowStatsRow → Db → Db
    check_windows [] db = db
    check_windows (w ∷ ws) db =
        let (ref, db') = drift_reference dep (w ∷ ws) db in
        if leb (length (w ∷ ws)) ref_windows then db else judge_window ref (last_of w ws) db'

    unfoldable pub client_drift_checks : Db → Db
    client_drift_checks db = check_windows (windows_of dep.id db.windows) db

    abbrev is_spike : ℕ → Option ℕ → Bool
    is_spike p95 none = false
    is_spike p95 (some base) = ltb 0 base && ltb (base * (1000 + g.drift_p95_permille)) (p95 * 1000)

    abbrev base_or_zero : Option ℕ → ℕ
    base_or_zero none = 0
    base_or_zero (some base) = base

    abbrev pub baseline : Option Payload → Option ℕ
    baseline none = none
    baseline (some p) = g.baseline_p95 p

    abbrev pub check_p95 : List InferenceEventRow → Option ℕ → Db → Db
    check_p95 events base db =
        if is_spike (rolling_p95 events) base
        then (raise_alert clock now (token + 2) dep warning (codes "p95 latency spike")
            (g.spike_text (rolling_p95 events) (base_or_zero base)) db).1
        else db

    abbrev pub check_errors : List InferenceEventRow → Db → Db
    check_errors events db =
        if ltb g.drift_error_pct (error_pct events)
        then (raise_alert clock now (token + 3) dep danger (codes "5xx error spike")
            (g.error_text (error_pct events)) db).1
        else db

    abbrev pub check_events : List InferenceEventRow → Db → Db
    check_events [] db = db
    check_events (e ∷ es) db =
        check_errors (e ∷ es)
          (check_p95 (e ∷ es) (baseline (cached_payload dep.model_id benchmark db)) db)

    -- The body of the loop over the deployments.
    unfoldable pub monitor_deployment : Db → Db
    unfolding client_drift_checks
    monitor_deployment db =
        let events = events_in_window dep.id db in
        let db' =
          upsert_rollups g.percentile dep.id clock events (update_live_metrics dep events db) in
        if is_paused dep.status then db' else check_events events (client_drift_checks db')

  -- A deployment raises at most four alerts, each with a token of its own.
  unfoldable pub monitor_all : ℕ → List DeploymentRow → Db → Db
  monitor_all token [] db = db
  monitor_all token (d ∷ ds) db = monitor_all (4 + token) ds (monitor_deployment token d db)

  unfoldable pub drift_monitor_pass : ℕ → Db → Db
  drift_monitor_pass token db = monitor_all token db.deployments db
