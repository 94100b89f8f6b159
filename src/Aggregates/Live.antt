-- ===== src/Aggregates/Live.antt =====
-- app/services/telemetry_agg.py: the figures of the dashboard. Percentiles, rates and differences of
-- floating point are parameters.
use astra_back.Prelude.{
  ℕ, ◌-◌, ◌*◌, max, not, Option, none, some, List, [], ◌∷◌, ◌==◌, map, length, count_if, Text,
  if◌then◌else◌,
}
use astra_back.Store.{RowId, Stamp, Clock, Db}
use astra_back.Aggregates.Events.{window_of, Sample, fetch_events}
use astra_back.Aggregates.Buckets.{
  Bucket, bucket_bounds, bucket_raw, use_rollups, Weighted, bucket_rollups,
}

-- `delta` is a percentage with its sign, as the program's parameter gives it.
pub record Figures (F : Type 0) : Type 0 where
  pub percentile : List ℕ → ℕ → ℕ
  pub rate : ℕ → ℕ → ℕ
  pub delta_pct : ℕ → ℕ → F

pub record DeltaKpi (F : Type 0) : Type 0 where
  pub value : ℕ
  pub delta : F

pub record TelemetryKpi (F : Type 0) : Type 0 where
  pub requests_per_min : DeltaKpi F
  pub p95_latency_ms : DeltaKpi F
  pub error_rate : DeltaKpi F

pub record TelemetryPoint : Type 0 where
  pub t : Stamp
  pub requests : ℕ
  pub p95 : ℕ

pub record Percentiles : Type 0 where
  pub p50s : List ℕ
  pub p95s : List ℕ
  pub p99s : List ℕ
  pub values : ℕ × ℕ × ℕ

abbrev pub ok_latencies : List Sample → List ℕ
ok_latencies [] = []
ok_latencies (s ∷ ss) = let rest = ok_latencies ss in if s.success then s.latency ∷ rest else rest

module _ {F : Type 0} (g : Figures F) (clock : Clock) (model_id : RowId) (now : ℕ) (db : Db) where
  abbrev rpm_of : ℕ → List Sample → ℕ
  rpm_of window evts = g.rate (60_000 * length evts) window

  abbrev err_of : List Sample → ℕ
  err_of evts =
      if length evts == 0
      then 0
      else g.rate (100 * count_if (λ s. not s.success) evts) (length evts)

  abbrev kpi_of : ℕ → ℕ → DeltaKpi F
  kpi_of prev cur = record { value = cur; delta = g.delta_pct prev cur }

  -- The figures of the window, and their change since the window before.
  unfoldable pub kpi_live : Text → TelemetryKpi F
  kpi_live range =
      let window = (window_of range).0 in
      let cur = fetch_events clock model_id (now - window) now db in
      let prev = fetch_events clock model_id (now - 2 * window) (now - window) db in
      record {
        requests_per_min = kpi_of (rpm_of window prev) (rpm_of window cur);
        p95_latency_ms =
            kpi_of (g.percentile (ok_latencies prev) 95) (g.percentile (ok_latencies cur) 95);
        error_rate = kpi_of (err_of prev) (err_of cur);
      }

  abbrev raw_point : ℕ → Bucket → TelemetryPoint
  raw_point size b = record {
    t = clock.iso b.from;
    requests = g.rate (60_000 * b.count) size;
    p95 = g.percentile b.latencies 95;
  }

  -- `a["wp95"] / c`, where `c` is `a["count"] or 1`
  abbrev average : ℕ → Weighted → ℕ
  average w a = g.rate w (max a.total_count 1)

  abbrev rollup_point : ℕ → Weighted → TelemetryPoint
  rollup_point size a = record {
    t = clock.iso a.start_of;
    requests = g.rate (60_000 * a.total_count) size;
    p95 = average a.wp95 a;
  }

  abbrev rollups_if : Text → Option (List Weighted)
  rollups_if range = if use_rollups range then bucket_rollups clock model_id range now db else none

  abbrev points_of : Text → Option (List Weighted) → List TelemetryPoint
  points_of range none =
      map (raw_point (bucket_bounds range now).size) (bucket_raw clock model_id range now db)
  points_of range (some roll) = map (rollup_point (bucket_bounds range now).size) roll

  unfoldable pub series_live : Text → List TelemetryPoint
  series_live range = points_of range (rollups_if range)

  abbrev percentiles_of : Text → ℕ × ℕ × ℕ → Option (List Weighted) → Percentiles
  percentiles_of range values (some roll) = record {
    p50s = map (λ a. average a.wp50 a) roll;
    p95s = map (λ a. average a.wp95 a) roll;
    p99s = map (λ a. average a.wp99 a) roll;
    values = values;
  }
  percentiles_of range values none =
      let raw = bucket_raw clock model_id range now db in
      record {
        p50s = map (λ b. g.percentile b.latencies 50) raw;
        p95s = map (λ b. g.percentile b.latencies 95) raw;
        p99s = map (λ b. g.percentile b.latencies 99) raw;
        values = values;
      }

  unfoldable pub percentiles_live : Text → Percentiles
  percentiles_live range =
      let overall = ok_latencies (fetch_events clock model_id (now - (window_of range).0) now db) in
      percentiles_of range
        (g.percentile overall 50, g.percentile overall 95, g.percentile overall 99)
        (rollups_if range)
