-- ===== src/Models.antt =====
-- app/routers/models.py: start of an ingestion, the completion handshake, rename and delete. Their
-- laws stand in the modules below and in Lifecycle.
pub mod Handshake
use astra_back.Prelude.{
  ℕ, suc, Bool, true, false, not, ◌&&◌, Option, none, some, List, [], ◌∷◌, ◌++◌, max, leb, ◌==◌,
  length, any, Text, codes, strip, is_space, round_tenth, pos, ◌||◌, if◌then◌else◌,
}
use astra_back.Store.{
  RowId, Stamp, ModelStatus, analyzing, optimizing, draft, failed, ModelRow, queued, RunRow,
  IngestionStatus, streaming, ingestion_failed, IngestionRunRow, pareto, Payload, experiment,
  model_uploaded, run_started, ActivityRow, Db, update, delete_first, delete_where,
}
use astra_back.Http.{Result, ok, bad_name, require, ◌>>=◌, ◌>>◌}
use astra_back.Repositories.{
  is_busy, is_id, is_streaming, model_at, ingestion_run_at, update_model, owned_model,
  get_cached_result,
}

-- app/services/formats.py and app/services/family.py, which read the file name, and the text of a
-- token.
pub record Naming : Type 0 where
  pub infer_format : Text → Text × Text × Text
  pub family_from_file_name : Text → Text → Text
  pub display_name : Text → Text
  pub show_token : RowId → Text

pub record Uploaded : Type 0 where
  pub token : RowId
  pub user_id : RowId
  pub file_name : Text
  pub source_key : Option Text
  pub now : Stamp

-- 4 trials in fast mode, else `pareto_trials`.
abbrev pub trial_total : Bool → ℕ → ℕ
trial_total fast_pipeline pareto_trials = if fast_pipeline then 4 else pareto_trials

module _ (naming : Naming) (n_trials : ℕ) (u : Uploaded) where
  abbrev pub new_model : ModelRow
  new_model =
      let (format, type_full, type_short) = naming.infer_format u.file_name in
      record {
        id = u.token;
        user_id = u.user_id;
        name = naming.display_name u.file_name;
        type_full = type_full;
        type_short = type_short;
        format = format;
        last_learned_at = u.now;
        last_optimized_at = none;
        status = analyzing;
        best_accuracy = none;
        is_deployed = false;
        description =
            some (codes "Uploaded " ++ (u.file_name ++ codes " · awaiting sensitivity analysis"));
        analysis_run_id = some u.token;
        family = naming.family_from_file_name u.file_name format;
        weights_only = false;
        artifact_key = none;
        source_key = u.source_key;
        artifact_sha256 = none;
        artifact_size_bytes = none;
      }

  abbrev new_ingestion_run : IngestionRunRow
  new_ingestion_run = record {
    id = u.token;
    user_id = u.user_id;
    model_id = u.token;
    file_name = u.file_name;
    started_at = u.now;
    status = streaming;
    progress = 0;
    error = none;
    finished_at = none;
  }

  abbrev new_run : RunRow
  new_run = record {
    id = u.token;
    user_id = u.user_id;
    model_id = u.token;
    name = naming.display_name u.file_name;
    status = queued;
    progress_pct = 0;
    iter = (0, n_trials);
    best_acc = 0;
    delta_acc = pos 0;
    created_at = u.now;
  }

  -- `_start_ingestion` up to its commit; the job is then enqueued, and its worker is Jobs.
  unfoldable pub start_ingestion : Db → Db
  start_ingestion db = record db {
    models = new_model ∷ db.models;
    ingestion_runs = new_ingestion_run ∷ db.ingestion_runs;
    runs = new_run ∷ db.runs;
    activity =
        record {
          id = u.token;
          user_id = u.user_id;
          kind = model_uploaded;
          text = codes "Model uploaded — " ++ u.file_name;
          timestamp = u.now;
        }
        ∷ record {
          id = u.token;
          user_id = u.user_id;
          kind = run_started;
          text =
              codes "Run started — run_ing_"
              ++ (naming.show_token u.token ++ (codes " · " ++ naming.display_name u.file_name));
          timestamp = u.now;
        }
        ∷ db.activity;
  }

abbrev pub is_analyzing : ModelStatus → Bool
is_analyzing analyzing = true
is_analyzing _ = false

abbrev pub status_streams : Option IngestionRunRow → Bool
status_streams none = false
status_streams (some r) = is_streaming r.status

abbrev pub has_failed : Option IngestionRunRow → Bool
has_failed none = false
has_failed (some r) = elim r.status [ ingestion_failed ↦ true | _ ↦ false ]

-- `session.get(IngestionRunRow, model.analysis_run_id) if model.analysis_run_id else None`
abbrev pub run_of : Option RowId → Db → Option IngestionRunRow
run_of none db = none
run_of (some i) db = ingestion_run_at i db

abbrev max_of : ℕ → List ℕ → ℕ
max_of best [] = best
max_of best (a ∷ as') = max_of (max best a) as'

-- The best accuracy of the cached trials, or what the model had.
abbrev best_of_cached : Option Payload → Option ℕ → Option ℕ
best_of_cached (some (experiment e)) old = elim e.accuracies [
  | [] ↦ old
  | a ∷ as' ↦ some (round_tenth (max_of a as'))
]
best_of_cached _ old = old

abbrev or_empty : Option Text → Text
or_empty none = []
or_empty (some t) = t

-- `f"{description or ''} · sensitivity analysis complete".strip(" ·")`
abbrev completed_text : Option Text → Text
completed_text d =
    strip (λ c. (c == 32) || (c == 183)) (or_empty d ++ codes " · sensitivity analysis complete")

abbrev finish_failed : ModelRow → ModelRow
finish_failed m = record m { status = failed; analysis_run_id = none }

abbrev finish_draft : Option Payload → ModelRow → ModelRow
finish_draft cached m = record m {
  status = draft;
  best_accuracy = best_of_cached cached m.best_accuracy;
  description = some (completed_text m.description);
  analysis_run_id = none;
  last_optimized_at = none;
}

-- The four outcomes for the row of the model. The guarded UPDATE tests the status of the run in the
-- same statement that enters `optimizing`.
abbrev pub completed_row : Option IngestionRunRow → Option Payload → ModelRow → ModelRow
completed_row run cached m =
    if not (is_analyzing m.status)
    then m
    else if status_streams run
    then record m { status = optimizing }
    else if has_failed run
    then finish_failed m
    else finish_draft cached m

-- `ingestion_complete` on the row that the caller owns.
unfoldable pub complete_model : ModelRow → RowId → Db → Db
complete_model m user_id db =
    update_model m.id
      (completed_row (run_of m.analysis_run_id db) (get_cached_result m.id pareto user_id db)) db

unfoldable pub ingestion_complete : RowId → RowId → Db → Result Db
unfolding complete_model
ingestion_complete model_id user_id db = do
  m ← owned_model model_id user_id db
  ok (complete_model m user_id db)

abbrev pub rename_rows : RowId → Text → Db → Db
rename_rows model_id name db = record db {
  models = update (λ m. m.id == model_id) (λ m. record m { name = name }) db.models;
  runs = update (λ r. r.model_id == model_id) (λ r. record r { name = name }) db.runs;
}

unfoldable pub model_rename : RowId → Text → RowId → Db → Result Db
model_rename model_id new_name user_id db = do
  m ← owned_model model_id user_id db
  let name = strip is_space new_name
  require (leb 1 (length name) && leb (length name) 80) bad_name
  ok (rename_rows model_id name db)

abbrev run_belongs : RowId → List IngestionRunRow → RowId → Bool
run_belongs model_id runs i = any (λ r. (r.model_id == model_id) && (r.id == i)) runs

-- The rows of the model go, and its logs; its keys, events and activity stay. The objects in storage
-- and the request to cancel a live job are not rows.
abbrev pub delete_rows : RowId → Db → Db
delete_rows model_id db = record db {
  logs = delete_where (λ l. run_belongs model_id db.ingestion_runs l.run_id) db.logs;
  ingestion_runs = delete_where (λ r. r.model_id == model_id) db.ingestion_runs;
  runs = delete_where (λ r. r.model_id == model_id) db.runs;
  cache = delete_where (λ r. r.model_id == model_id) db.cache;
  alerts = delete_where (λ r. r.model_id == model_id) db.alerts;
  deployments = delete_where (λ d. d.model_id == model_id) db.deployments;
  models = delete_where (λ m. m.id == model_id) db.models;
}

unfoldable pub model_delete : RowId → RowId → Db → Result Db
model_delete model_id user_id db = do
  m ← owned_model model_id user_id db
  ok (delete_rows model_id db)
