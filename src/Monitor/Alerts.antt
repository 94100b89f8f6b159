-- ===== src/Monitor/Alerts.antt =====
-- app/services/drift_monitor.py: alerts with a cooldown. The token of a new alert is an argument.
use astra_back.Prelude.{
  ℕ, ◌-◌, ◌*◌, Bool, true, false, not, ◌&&◌, List, ◌∷◌, ◌++◌, ◌==◌, any, Text, text_eq, text_ltb,
  codes, if◌then◌else◌,
}
use astra_back.Store.{RowId, Clock, DeploymentRow, AlertLevel, AlertRow, accuracy_drift_seen, Db}

-- `_ALERT_COOLDOWN_MIN` in milliseconds
abbrev pub cooldown : ℕ
cooldown = 15 * 60_000

-- An alert of that kind, whenever it was raised.
abbrev pub is_kind : RowId → Text → AlertRow → Bool
is_kind model_id title r = (r.model_id == model_id) && text_eq r.title title

unfoldable pub recent_alert : Clock → ℕ → RowId → Text → List AlertRow → Bool
recent_alert clock now model_id title alerts =
    any (λ r. is_kind model_id title r && not (text_ltb r.at (clock.iso (now - cooldown)))) alerts

module _ (clock : Clock) (now token : ℕ) (dep : DeploymentRow) where
  abbrev pub new_alert : AlertLevel → Text → Text → AlertRow
  new_alert level title body = record {
    id = token;
    user_id = dep.user_id;
    model_id = dep.model_id;
    level = level;
    title = title;
    body = body;
    at = clock.iso now;
  }

  -- Whether an alert was raised, and the tables.
  unfoldable pub raise_alert : AlertLevel → Text → Text → Db → Bool × Db
  raise_alert level title body db =
      if recent_alert clock now dep.model_id title db.alerts then (false, db) else (
        true,
        record db {
          alerts = new_alert level title body ∷ db.alerts;
          activity =
              record {
                id = token;
                user_id = dep.user_id;
                kind = accuracy_drift_seen;
                text = title ++ (codes " — " ++ dep.name);
                timestamp = clock.iso now;
              }
              ∷ db.activity;
        },
      )
