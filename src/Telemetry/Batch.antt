-- ===== src/Telemetry/Batch.antt =====
-- app/schemas/client_telemetry.py: one batch of the SDK.
use astra_back.Prelude.{ℕ, ◌+◌, ◌&&◌, leb, Bool, Option, List, Text, length}
use astra_back.Store.{RowId, Stamp}

pub record ClientEvent : Type 0 where
  pub ts : Stamp
  pub latency_ms : ℕ
  pub pre_ms : Option ℕ
  pub post_ms : Option ℕ
  pub success : Bool
  pub error_code : Option Text
  pub batch_size : ℕ
  pub region : Text
  pub input_sig : Option Text

-- `host_info` stands for the texts and sizes of the host that are stored as one JSON text.
pub record ClientSnapshot : Type 0 where
  pub ts : Stamp
  pub cpu_pct : ℕ
  pub rss_mb : ℕ
  pub throughput_rpm : ℕ
  pub dropped_events : ℕ
  pub sdk_version : Text
  pub host_info : Text
  pub gpu_util_pct : Option ℕ
  pub gpu_mem_used_mb : Option ℕ
  pub gpu_temp_c : Option ℕ

-- `inputs` and `output` are the two dictionaries, as their JSON texts.
pub record ClientWindowStats : Type 0 where
  pub window_start : Stamp
  pub window_end : Stamp
  pub n : ℕ
  pub inputs : Text
  pub output : Text

-- A batch id is only compared; `none` is also the empty text.
pub record TelemetryBatch : Type 0 where
  pub client_id : Text
  pub batch_id : Option RowId
  pub events : List ClientEvent
  pub snapshots : List ClientSnapshot
  pub windows : List ClientWindowStats

abbrev pub total_items : TelemetryBatch → ℕ
total_items b = length b.events + length b.snapshots + length b.windows

-- The limits of the schema on the three lists. Its limits on single texts and numbers are not modelled.
abbrev pub within_lists : TelemetryBatch → Bool
within_lists b =
    leb (length b.events) 1000 && (leb (length b.snapshots) 500 && leb (length b.windows) 500)

pub record Accepted : Type 0 where
  pub events : ℕ
  pub snapshots : ℕ
  pub windows : ℕ
