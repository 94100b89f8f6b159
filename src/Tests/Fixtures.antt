-- ===== src/Tests/Fixtures.antt =====
-- Rows, requests and parameters for the tests.
use astra_back.Prelude.{ℕ, arith, refl, Bool, true, false, Option, none, some, [], ◌∷◌, Text, codes}
use astra_back.Store.{
  RowId, analyzing, draft, deployed, ModelStatus, ModelRow, IngestionRunRow, streaming,
  DeploymentRow, live, ApiKeyRow, Clock, Db, opaque_json,
}
use astra_back.Models.{Naming, Uploaded}
use astra_back.Jobs.{JobCtx, Artifacts}
use astra_back.ApiKeys.{Fresh}

abbrev pub empty_db : Db
empty_db = record {
  models = [];
  runs = [];
  ingestion_runs = [];
  logs = [];
  cache = [];
  deployments = [];
  api_keys = [];
  alerts = [];
  activity = [];
  events = [];
  snapshots = [];
  windows = [];
  rollups = [];
  batches = [];
}

abbrev pub stamp : Text
stamp = codes "2025-01-01T00:00:00.000Z"

abbrev pub model_with : ModelStatus → Option RowId → Bool → Option Text → ModelRow
model_with status run flag artifact = record {
  id = 7;
  user_id = 1;
  name = codes "resnet";
  type_full = codes "CNN";
  type_short = codes "CNN";
  format = codes "ONNX";
  last_learned_at = stamp;
  last_optimized_at = none;
  status = status;
  best_accuracy = none;
  is_deployed = flag;
  description = none;
  analysis_run_id = run;
  family = codes "cnn";
  weights_only = false;
  artifact_key = artifact;
  source_key = none;
  artifact_sha256 = none;
  artifact_size_bytes = none;
}

abbrev pub streaming_run : IngestionRunRow
streaming_run = record {
  id = 7;
  user_id = 1;
  model_id = 7;
  file_name = codes "resnet.onnx";
  started_at = stamp;
  status = streaming;
  progress = 40;
  error = none;
  finished_at = none;
}

-- An upload whose analysis runs.
abbrev pub analyzing_db : Db
analyzing_db = record empty_db {
  models = model_with analyzing (some 7) false none ∷ [];
  ingestion_runs = streaming_run ∷ [];
}

-- A compressed model.
abbrev pub draft_model : ModelRow
draft_model = model_with draft none false (some (codes "artifacts/7.onnx"))

abbrev pub draft_db : Db
draft_db = record empty_db { models = draft_model ∷ [] }

abbrev pub naming : Naming
naming = record {
  infer_format = λ name. (codes "ONNX", codes "ONNX model", codes "ONNX");
  family_from_file_name = λ name format. codes "cnn";
  display_name = λ name. name;
  show_token = λ token. [];
}

abbrev pub upload : Uploaded
upload = record {
  token = 7;
  user_id = 1;
  file_name = codes "resnet.onnx";
  source_key = none;
  now = stamp;
}

abbrev pub job : JobCtx
job = record {
  run_id = 7;
  model_id = 7;
  user_id = 1;
  model_name = codes "resnet";
  run_text = codes "7";
  timeout_text = codes "3600";
  now = stamp;
}

abbrev pub compressed : Artifacts
compressed = record {
  artifact = some (codes "artifacts/7.onnx", codes "ab12", 1000);
  architecture_payload = opaque_json 0;
  pareto_payload = record {
    accuracies = 910 ∷ 905 ∷ [];
    base_accuracy = some 920;
    max_accuracy_drop = none;
  };
  benchmark_payload = none;
  trial_configs = none;
  meta_payload = none;
  best_accuracy = some 910;
  is_safe = true;
  max_sensitivity = 40;
  risk_text = [];
}

abbrev pub digest : Text → Text
digest t = 35 ∷ t

abbrev pub fresh : Fresh
fresh = record { key_id = 90; secret = codes "s3cr3t"; at_time = stamp }

abbrev pub serving : DeploymentRow
serving = record {
  id = 5;
  user_id = 1;
  model_id = 7;
  name = codes "resnet";
  description = [];
  region = codes "ONNX Runtime (on-device)";
  qps = 0;
  p95 = 0;
  errors_pct = 0;
  accuracy_drift = 0;
  status = live;
  created_at = stamp;
  last_event_at = none;
}

abbrev pub old_key : ApiKeyRow
old_key = record {
  id = 80;
  user_id = 1;
  deployment_id = 5;
  key_hash = digest (codes "old");
  prefix = codes "astra";
  created_at = stamp;
  last_used_at = none;
  revoked = false;
}

abbrev pub serving_model : ModelRow
serving_model = model_with deployed none true (some (codes "artifacts/7.onnx"))

-- A model with one deployment and one key.
abbrev pub serving_db : Db
serving_db = record empty_db {
  models = serving_model ∷ [];
  deployments = serving ∷ [];
  api_keys = old_key ∷ [];
}

-- A stamp is the number of milliseconds as one character.
abbrev clock_parse : Text → Option ℕ
clock_parse [] = none
clock_parse (t ∷ ts) = some t

abbrev pub clock : Clock
clock = record {
  iso = λ t. t ∷ [];
  parse = clock_parse;
  iso_order = λ a b. ground arith;
  parse_iso = λ a. refl;
}
