-- ===== src/Store/Rows.antt =====
-- app/dbmodels.py. An identifier is only made fresh and compared, so it is a number; the row
-- `run_<id>` of the dashboard and the ingestion run `<id>` have the same one. A time stamp is its
-- text. An accuracy is in hundredths of a point, a latency or rate in thousandths.
use astra_back.Prelude.{ℕ, Bool, Option, List, Text, ℤ}

abbrev pub RowId : Type 0
RowId = ℕ

abbrev pub Stamp : Type 0
Stamp = Text

pub data ModelStatus : Type 0 where
  analyzing optimizing draft deployed failed training : ModelStatus

pub record ModelRow : Type 0 where
  pub id : RowId
  pub user_id : RowId
  pub name : Text
  pub type_full : Text
  pub type_short : Text
  pub format : Text
  pub last_learned_at : Stamp
  pub last_optimized_at : Option Stamp
  pub status : ModelStatus
  pub best_accuracy : Option ℕ
  pub is_deployed : Bool
  pub description : Option Text
  pub analysis_run_id : Option RowId
  pub family : Text
  pub weights_only : Bool
  pub artifact_key : Option Text
  pub source_key : Option Text
  pub artifact_sha256 : Option Text
  pub artifact_size_bytes : Option ℕ

pub data RunStatus : Type 0 where
  running queued run_done run_failed : RunStatus

-- `iter` is the text "i / n".
pub record RunRow : Type 0 where
  pub id : RowId
  pub user_id : RowId
  pub model_id : RowId
  pub name : Text
  pub status : RunStatus
  pub progress_pct : ℕ
  pub iter : ℕ × ℕ
  pub best_acc : ℕ
  pub delta_acc : ℤ
  pub created_at : Stamp

pub data IngestionStatus : Type 0 where
  streaming completed ingestion_failed : IngestionStatus

pub record IngestionRunRow : Type 0 where
  pub id : RowId
  pub user_id : RowId
  pub model_id : RowId
  pub file_name : Text
  pub started_at : Stamp
  pub status : IngestionStatus
  pub progress : ℕ
  pub error : Option Text
  pub finished_at : Option Stamp

pub data LogLevel : Type 0 where
  info warn error_level debug : LogLevel

pub record IngestionLogRow : Type 0 where
  pub run_id : RowId
  pub seq : ℕ
  pub ts : Stamp
  pub level : LogLevel
  pub message : Text

pub data CacheKind : Type 0 where
  architecture pareto benchmark pareto_configs artifact_meta : CacheKind
  drift_ref : RowId → CacheKind

-- A cached payload: of the Pareto experiment what the program reads back, else an opaque value.
pub record ParetoPayload : Type 0 where
  pub accuracies : List ℕ
  pub base_accuracy : Option ℕ
  pub max_accuracy_drop : Option ℕ

pub data Payload : Type 0 where
  experiment : ParetoPayload → Payload
  opaque_json : ℕ → Payload

pub record ResultCacheRow : Type 0 where
  pub user_id : RowId
  pub model_id : RowId
  pub kind : CacheKind
  pub payload : Payload

pub data DeploymentStatus : Type 0 where
  live canary paused : DeploymentStatus

pub record DeploymentRow : Type 0 where
  pub id : RowId
  pub user_id : RowId
  pub model_id : RowId
  pub name : Text
  pub description : Text
  pub region : Text
  pub qps : ℕ
  pub p95 : ℕ
  pub errors_pct : ℕ
  pub accuracy_drift : ℕ
  pub status : DeploymentStatus
  pub created_at : Stamp
  pub last_event_at : Option Stamp

pub record ApiKeyRow : Type 0 where
  pub id : RowId
  pub user_id : RowId
  pub deployment_id : RowId
  pub key_hash : Text
  pub prefix : Text
  pub created_at : Stamp
  pub last_used_at : Option Stamp
  pub revoked : Bool

pub data AlertLevel : Type 0 where
  warning danger : AlertLevel

pub record AlertRow : Type 0 where
  pub id : RowId
  pub user_id : RowId
  pub model_id : RowId
  pub level : AlertLevel
  pub title : Text
  pub body : Text
  pub at : Stamp

pub data ActivityKind : Type 0 where
  model_uploaded run_started run_completed deploy_promoted accuracy_drift_seen : ActivityKind

pub record ActivityRow : Type 0 where
  pub id : RowId
  pub user_id : RowId
  pub kind : ActivityKind
  pub text : Text
  pub timestamp : Stamp
