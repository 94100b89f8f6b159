-- ===== src/Store/Tables.antt =====
-- app/dbmodels.py: all tables that the modelled operations read or write.
use astra_back.Prelude.{List}
use astra_back.Store.Rows.{
  ModelRow, RunRow, IngestionRunRow, IngestionLogRow, ResultCacheRow, DeploymentRow, ApiKeyRow,
  AlertRow, ActivityRow,
}
use astra_back.Store.Facts.{
  InferenceEventRow, TelemetrySnapshotRow, TelemetryWindowStatsRow, TelemetryRollupRow,
  ProcessedBatchRow,
}

pub record Db : Type 0 where
  pub models : List ModelRow
  pub runs : List RunRow
  pub ingestion_runs : List IngestionRunRow
  pub logs : List IngestionLogRow
  pub cache : List ResultCacheRow
  pub deployments : List DeploymentRow
  pub api_keys : List ApiKeyRow
  pub alerts : List AlertRow
  pub activity : List ActivityRow
  pub events : List InferenceEventRow
  pub snapshots : List TelemetrySnapshotRow
  pub windows : List TelemetryWindowStatsRow
  pub rollups : List TelemetryRollupRow
  pub batches : List ProcessedBatchRow
