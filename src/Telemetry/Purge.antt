-- ===== src/Telemetry/Purge.antt =====
-- app/services/retention.py
use astra_back.Prelude.{ℕ, ◌-◌, ◌*◌, Bool, text_ltb, if◌then◌else◌}
use astra_back.Store.{Stamp, Clock, Db, delete_where}

pub record Retention : Type 0 where
  pub enabled : Bool
  pub telemetry_days : ℕ
  pub processed_batch_days : ℕ
  pub activity_days : ℕ

abbrev pub day : ℕ
day = 86_400_000

-- `iso(now - timedelta(days=days))`
abbrev pub cutoff : Clock → ℕ → ℕ → Stamp
cutoff clock now days = clock.iso (now - days * day)

unfoldable pub purge_expired : Retention → Clock → ℕ → Db → Db
purge_expired s clock now db =
    let tel_cut = cutoff clock now s.telemetry_days in
    let pb_cut = cutoff clock now s.processed_batch_days in
    let act_cut = cutoff clock now s.activity_days in
    let purged = record db {
      events = delete_where (λ r. text_ltb r.ts tel_cut) db.events;
      snapshots = delete_where (λ r. text_ltb r.ts tel_cut) db.snapshots;
      windows = delete_where (λ r. text_ltb r.window_start tel_cut) db.windows;
      batches = delete_where (λ r. text_ltb r.received_at pb_cut) db.batches;
      alerts = delete_where (λ r. text_ltb r.at act_cut) db.alerts;
      activity = delete_where (λ r. text_ltb r.timestamp act_cut) db.activity;
    } in
    if s.enabled then purged else db
