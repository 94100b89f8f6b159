-- ===== src/Monitor/Cooldown.antt =====
-- The monitor never raises an alert of one kind twice within the cooldown.
use mathlib.Core.Path.{subst}
use astra_back.Prelude.{
  ℕ, ◌+◌, ◌-◌, ◌≡◌, refl, sym, Bool, true, false, not, ◌&&◌, both_false, Option, none, some, List,
  [], ◌∷◌, All, arith, Text, codes, text_ltb, if-by, if-keeps,
}
use astra_back.Store.{
  Clock, warning, danger, AlertLevel, AlertRow, benchmark, DeploymentRow, Payload,
  InferenceEventRow, TelemetryWindowStatsRow, Db,
}
use astra_back.Deployments.{is_paused}
use astra_back.Monitor.Alerts.{cooldown, is_kind, recent_alert, new_alert, raise_alert}
use astra_back.Monitor.Rollups.{upsert_rollups}
use astra_back.Monitor.Pass.{
  Gauges, windows_of, cached_payload, baseline, or_pinned, events_in_window, update_live_metrics,
  drift_reference, raise_prediction, raise_input, judge_window, check_windows, client_drift_checks,
  check_p95, check_errors, check_events, monitor_deployment, monitor_all, drift_monitor_pass,
}

module _ (clock : Clock) where
  -- The older alerts of the same model and title lie before the cooldown of the newer one.
  abbrev IsAfter : AlertRow → AlertRow → Type 0
  IsAfter new old =
      is_kind new.model_id new.title old ≡ true
      → (t : ℕ) × (new.at ≡ clock.iso t) × (text_ltb old.at (clock.iso (t - cooldown)) ≡ true)

  abbrev pub IsSpaced : List AlertRow → Type 0
  IsSpaced [] = Unit
  IsSpaced (a ∷ as') = All (IsAfter a) as' × IsSpaced as'

  module _ (now token : ℕ) (dep : DeploymentRow) where
    is_after :
        (level : AlertLevel) (title body : Text) (r : AlertRow)
        → (is_kind dep.model_id title r && not (text_ltb r.at (clock.iso (now - cooldown)))) ≡ false
        → IsAfter (new_alert clock now token dep level title body) r
    is_after level title body r h k =
        (now, refl, not_old (text_ltb r.at (clock.iso (now - cooldown))) k h)
      where
        not_old : {k : Bool} (old : Bool) → k ≡ true → (k && not old) ≡ false → old ≡ true
        not_old old e h = ground arith

    none_recent :
        (level : AlertLevel) (title body : Text) (alerts : List AlertRow)
        → recent_alert clock now dep.model_id title alerts ≡ false
        → All (IsAfter (new_alert clock now token dep level title body)) alerts
    unfolding recent_alert
    none_recent level title body [] h = tt
    none_recent level title body (r ∷ rs) h =
        let (first, older) = both_false _ h in
        (is_after level title body r first, none_recent level title body rs older)

    raise_alert-IsSpaced :
        (level : AlertLevel) (title body : Text) (db : Db)
        → IsSpaced db.alerts
        → IsSpaced (raise_alert clock now token dep level title body db).1.alerts
    unfolding raise_alert
    raise_alert-IsSpaced level title body db v =
        if-by {A = Bool × Db} (λ s. IsSpaced s.1.alerts)
          (recent_alert clock now dep.model_id title db.alerts) (false, db) _ (λ recent. v)
          (λ quiet. (none_recent level title body db.alerts quiet, v))

  module _ (g : Gauges) (now token : ℕ) (dep : DeploymentRow) where
    raise_prediction-IsSpaced :
        (o : Option (AlertLevel × Text)) (db : Db)
        → IsSpaced db.alerts
        → IsSpaced (raise_prediction g clock now token dep o db).alerts
    raise_prediction-IsSpaced none db v = v
    raise_prediction-IsSpaced (some (level, body)) db v =
        raise_alert-IsSpaced now token dep level (codes "prediction drift") body db v

    raise_input-IsSpaced :
        (o : Option Text) (db : Db)
        → IsSpaced db.alerts
        → IsSpaced (raise_input g clock now token dep o db).alerts
    raise_input-IsSpaced none db v = v
    raise_input-IsSpaced (some body) db v =
        raise_alert-IsSpaced now (token + 1) dep warning (codes "input distribution shift") body db
          v

    judge_window-IsSpaced :
        (ref : Payload) (latest : TelemetryWindowStatsRow) (db : Db)
        → IsSpaced db.alerts
        → IsSpaced (judge_window g clock now token dep ref latest db).alerts
    judge_window-IsSpaced ref latest db v =
        if-keeps (λ s. IsSpaced s.alerts) _ _ db
          (raise_input-IsSpaced (g.input_shift ref latest) _
            (raise_prediction-IsSpaced (g.prediction_drift ref latest) db v))
          v

    drift_reference-alerts :
        (ws : List TelemetryWindowStatsRow) (db : Db)
        → (drift_reference g clock now dep ws db).1.alerts ≡ db.alerts
    unfolding drift_reference
    drift_reference-alerts ws db = or_pinned-alerts _
      where
        or_pinned-alerts :
            (o : Option Payload) → (or_pinned g clock now dep ws db o).1.alerts ≡ db.alerts
        or_pinned-alerts none = refl
        or_pinned-alerts (some ref) = refl

    check_windows-IsSpaced :
        (ws : List TelemetryWindowStatsRow) (db : Db)
        → IsSpaced db.alerts
        → IsSpaced (check_windows g clock now token dep ws db).alerts
    check_windows-IsSpaced [] db v = v
    check_windows-IsSpaced (w ∷ ws) db v =
        if-keeps (λ s. IsSpaced s.alerts) _ db _ v
          (judge_window-IsSpaced _ _ _
            (subst IsSpaced (sym (drift_reference-alerts (w ∷ ws) db)) v))

    check_p95-IsSpaced :
        (events : List InferenceEventRow) (base : Option ℕ) (db : Db)
        → IsSpaced db.alerts
        → IsSpaced (check_p95 g clock now token dep events base db).alerts
    check_p95-IsSpaced events base db v =
        if-keeps (λ s. IsSpaced s.alerts) _ _ db
          (raise_alert-IsSpaced now (token + 2) dep warning (codes "p95 latency spike") _ db v) v

    check_errors-IsSpaced :
        (events : List InferenceEventRow) (db : Db)
        → IsSpaced db.alerts
        → IsSpaced (check_errors g clock now token dep events db).alerts
    check_errors-IsSpaced events db v =
        if-keeps (λ s. IsSpaced s.alerts) _ _ db
          (raise_alert-IsSpaced now (token + 3) dep danger (codes "5xx error spike") _ db v) v

    check_events-IsSpaced :
        (events : List InferenceEventRow) (db : Db)
        → IsSpaced db.alerts
        → IsSpaced (check_events g clock now token dep events db).alerts
    check_events-IsSpaced [] db v = v
    check_events-IsSpaced (e ∷ es) db v = check_errors-IsSpaced (e ∷ es) _ (
        check_p95-IsSpaced (e ∷ es)
          (baseline g clock now token dep (cached_payload dep.model_id benchmark db)) db v)

    client_drift_checks-IsSpaced :
        (db : Db)
        → IsSpaced db.alerts
        → IsSpaced (client_drift_checks g clock now token dep db).alerts
    unfolding client_drift_checks
    client_drift_checks-IsSpaced db v =
        check_windows-IsSpaced (windows_of g clock now dep.id db.windows) db v

    live-alerts :
        (events : List InferenceEventRow) (db : Db)
        → (upsert_rollups g.percentile dep.id clock events
            (update_live_metrics g clock now dep events db)).alerts
          ≡ db.alerts
    unfolding upsert_rollups update_live_metrics
    live-alerts events db = refl

    monitor_deployment-IsSpaced :
        (db : Db)
        → IsSpaced db.alerts
        → IsSpaced (monitor_deployment g clock now token dep db).alerts
    unfolding monitor_deployment
    monitor_deployment-IsSpaced db v =
        let events = events_in_window g clock now dep.id db in
        let db' : Db =
          upsert_rollups g.percentile dep.id clock events
            (update_live_metrics g clock now dep events db) in
        let v' : IsSpaced db'.alerts = subst IsSpaced (sym (live-alerts events db)) v in
        if-keeps {A = Db} (λ s. IsSpaced s.alerts) (is_paused dep.status) db' _ v'
          (check_events-IsSpaced events (client_drift_checks g clock now token dep db')
            (client_drift_checks-IsSpaced db' v'))

  monitor_all-IsSpaced :
      (g : Gauges) (now token : ℕ) (deployments : List DeploymentRow) (db : Db)
      → IsSpaced db.alerts
      → IsSpaced (monitor_all g clock now token deployments db).alerts
  unfolding monitor_all
  monitor_all-IsSpaced g now token [] db v = v
  monitor_all-IsSpaced g now token (d ∷ ds) db v =
      monitor_all-IsSpaced g now (4 + token) ds _ (monitor_deployment-IsSpaced g now token d db v)

-- A pass of the drift monitor keeps the alerts spaced: of two alerts of one model with the same
-- title, the older lies more than the cooldown of 15 minutes before the newer.
pub drift_monitor_pass-IsSpaced :
    (g : Gauges) (clock : Clock) (now token : ℕ) (db : Db)
    → IsSpaced clock db.alerts
    → IsSpaced clock (drift_monitor_pass g clock now token db).alerts
unfolding drift_monitor_pass
drift_monitor_pass-IsSpaced g clock now token db v =
    monitor_all-IsSpaced clock g now token db.deployments db v
