-- ===== src/Monitor/Rollups.antt =====
-- app/services/drift_monitor.py: the aggregates of one minute, recomputed from the events of the window.
use astra_back.Prelude.{
  ℕ, ◌+◌, ◌-◌, ◌%◌, Bool, not, ◌&&◌, Option, none, some, List, [], ◌∷◌, ◌++◌, ◌==◌, length,
  count_if, text_eq, if◌then◌else◌,
}
use astra_back.Store.{RowId, Stamp, Clock, InferenceEventRow, TelemetryRollupRow, Db}

abbrev pub latencies : List InferenceEventRow → List ℕ
latencies [] = []
latencies (e ∷ es) = let rest = latencies es in if e.success then e.latency_ms ∷ rest else rest

abbrev pub sum : List ℕ → ℕ
sum [] = 0
sum (n ∷ ns) = n + sum ns

-- `iso(dt.replace(second=0, microsecond=0))`
abbrev pub minute_of : Clock → Option ℕ → Option Stamp
minute_of clock none = none
minute_of clock (some t) = some (clock.iso (t - t % 60_000))

-- `by_minute.setdefault(key, []).append(e)`
unfoldable pub add_to :
    Stamp
    → InferenceEventRow
    → List (Stamp × List InferenceEventRow)
    → List (Stamp × List InferenceEventRow)
add_to key e [] = (key, e ∷ []) ∷ []
add_to key e ((k, es) ∷ groups) =
    if text_eq k key then (k, es ++ e ∷ []) ∷ groups else (k, es) ∷ add_to key e groups

abbrev add_by :
    Option Stamp
    → InferenceEventRow
    → List (Stamp × List InferenceEventRow)
    → List (Stamp × List InferenceEventRow)
add_by none e groups = groups
add_by (some key) e groups = add_to key e groups

unfoldable pub by_minute :
    Clock
    → List InferenceEventRow
    → List (Stamp × List InferenceEventRow)
    → List (Stamp × List InferenceEventRow)
by_minute clock [] groups = groups
by_minute clock (e ∷ es) groups =
    by_minute clock es (add_by (minute_of clock (clock.parse e.ts)) e groups)

abbrev pub is_bucket : RowId → Stamp → TelemetryRollupRow → Bool
is_bucket dep_id bucket r = (r.deployment_id == dep_id) && text_eq r.bucket_ts bucket

module _ (percentile : List ℕ → ℕ → ℕ) (dep_id : RowId) where
  abbrev pub rollup : Stamp → List InferenceEventRow → TelemetryRollupRow
  rollup bucket es = record {
    deployment_id = dep_id;
    bucket_ts = bucket;
    count = length es;
    errors = count_if (λ e. not e.success) es;
    sum_latency = sum (latencies es);
    p50 = percentile (latencies es) 50;
    p95 = percentile (latencies es) 95;
    p99 = percentile (latencies es) 99;
  }

  -- The row of the bucket is rewritten, or one is added.
  unfoldable pub put_rollup :
      Stamp → List InferenceEventRow → List TelemetryRollupRow → List TelemetryRollupRow
  put_rollup bucket es [] = rollup bucket es ∷ []
  put_rollup bucket es (r ∷ rows) =
      if is_bucket dep_id bucket r
      then record (rollup bucket es) { deployment_id = r.deployment_id; bucket_ts = r.bucket_ts }
        ∷ rows
      else r ∷ put_rollup bucket es rows

  unfoldable pub put_groups :
      List (Stamp × List InferenceEventRow) → List TelemetryRollupRow → List TelemetryRollupRow
  put_groups [] rows = rows
  put_groups ((bucket, es) ∷ groups) rows = put_groups groups (put_rollup bucket es rows)

  unfoldable pub upsert_rollups : Clock → List InferenceEventRow → Db → Db
  unfolding put_groups by_minute
  upsert_rollups clock events db = record db {
    rollups = put_groups (by_minute clock events []) db.rollups;
  }
