-- ===== src/Store/Facts.antt =====
-- app/dbmodels.py: the facts that the SDK ships and what is aggregated from them. A rate, a latency or
-- a share is a whole number of the unit to which the program rounds it.
use astra_back.Prelude.{ℕ, Bool, Option, Text}
use astra_back.Store.Rows.{RowId, Stamp}

pub record InferenceEventRow : Type 0 where
  pub user_id : RowId
  pub model_id : RowId
  pub deployment_id : RowId
  pub ts : Stamp
  pub latency_ms : ℕ
  pub success : Bool
  pub error_code : Option Text
  pub batch_size : ℕ
  pub region : Text
  pub source : Text
  pub latency_pre_ms : Option ℕ
  pub latency_post_ms : Option ℕ
  pub client_id : Text
  pub input_sig : Option Text

pub record TelemetrySnapshotRow : Type 0 where
  pub user_id : RowId
  pub model_id : RowId
  pub deployment_id : RowId
  pub client_id : Text
  pub ts : Stamp
  pub cpu_pct : ℕ
  pub rss_mb : ℕ
  pub throughput_rpm : ℕ
  pub dropped_events : ℕ
  pub sdk_version : Text
  pub runtime_json : Text
  pub gpu_util_pct : Option ℕ
  pub gpu_mem_used_mb : Option ℕ
  pub gpu_temp_c : Option ℕ

pub record TelemetryWindowStatsRow : Type 0 where
  pub user_id : RowId
  pub model_id : RowId
  pub deployment_id : RowId
  pub client_id : Text
  pub window_start : Stamp
  pub window_end : Stamp
  pub n : ℕ
  pub input_stats_json : Text
  pub output_json : Text

pub record TelemetryRollupRow : Type 0 where
  pub deployment_id : RowId
  pub bucket_ts : Stamp
  pub count : ℕ
  pub errors : ℕ
  pub sum_latency : ℕ
  pub p50 : ℕ
  pub p95 : ℕ
  pub p99 : ℕ

pub record ProcessedBatchRow : Type 0 where
  pub batch_id : RowId
  pub deployment_id : RowId
  pub received_at : Stamp
  pub accepted_events : ℕ
  pub accepted_snapshots : ℕ
  pub accepted_windows : ℕ
  pub dropped : ℕ
