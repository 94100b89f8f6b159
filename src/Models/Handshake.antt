-- ===== src/Models/Handshake.antt =====
-- The handshake between `ingestion_complete` and the worker, which may commit in either order.
use astra_back.Prelude.{
  ◌≡◌, refl, sym, ◌∙◌, ap, Bool, true, false, Option, List, [], ◌∷◌, ◌==◌, arith, Text,
}
use astra_back.Store.{RowId, ModelRow, IngestionRunRow, Payload, pareto, Db, update}
use astra_back.Http.{Result, ok, err, ◌>>=◌}
use astra_back.Repositories.{owned_model, get_cached_result}
use astra_back.Repositories.Queries.{owned_model-key, owned_model-update}
use astra_back.Models.{
  completed_row, complete_model, ingestion_complete, status_streams, is_analyzing, run_of,
}
use astra_back.Jobs.{JobCtx, Artifacts, on_success, on_failure, finish_model, fail_model}

abbrev pub models_after : Result Db → Result (List ModelRow)
models_after (ok db) = ok db.models
models_after (err e) = err e

abbrev map_ok : (List ModelRow → List ModelRow) → Result (List ModelRow) → Result (List ModelRow)
map_ok f (ok ms) = ok (f ms)
map_ok f (err e) = err e

-- What a completion does to the models of tables that hold `ms`.
completed_models :
    (model_id user_id : RowId) (db : Db) (m : ModelRow) (ms : List ModelRow)
    → owned_model model_id user_id db ≡ ok m
    → db.models ≡ ms
    → models_after (ingestion_complete model_id user_id db)
      ≡ ok (
          update
            (λ r. r.id == model_id)
            (completed_row
              (run_of m.analysis_run_id db)
              (get_cached_result model_id pareto user_id db))
            ms)
unfolding ingestion_complete complete_model
completed_models model_id user_id db m ms h e =
    let k : m.id ≡ model_id = owned_model-key model_id user_id db m h in
    let step : models_after (ingestion_complete model_id user_id db)
        ≡ ok (
            update (λ r. r.id == m.id)
              (completed_row (run_of m.analysis_run_id db)
                (get_cached_result m.id pareto user_id db))
              db.models) =
      rw (h) refl in
    step
    ∙ ap
        (λ i. ok (
          update (λ r. r.id == i)
            (completed_row (run_of m.analysis_run_id db) (get_cached_result i pareto user_id db))
            db.models))
        k
    ∙ ap
        (λ x. ok (
          update (λ r. r.id == model_id)
            (completed_row (run_of m.analysis_run_id db)
              (get_cached_result model_id pareto user_id db))
            x))
        e

-- An end `g` of the worker's run: it leaves no row analyzing, and does the same to a row that a
-- completion has put to optimizing.
module _ (model_id : RowId) (g : ModelRow → ModelRow) (key : (r : ModelRow) → (g r).id ≡ r.id)
    (settles : (r : ModelRow) → is_analyzing (g r).status ≡ false)
    (run run' : Option IngestionRunRow) (cached cached' : Option Payload)
    (streams : status_streams run ≡ true)
    (forgets : (r : ModelRow) → g (completed_row run cached r) ≡ g r) where
  rows_commute :
      (ms : List ModelRow)
      → update
          (λ r. r.id == model_id)
          g
          (update (λ r. r.id == model_id) (completed_row run cached) ms)
        ≡ update
            (λ r. r.id == model_id)
            (completed_row run' cached')
            (update (λ r. r.id == model_id) g ms)
  rows_commute [] = refl
  rows_commute (m ∷ ms) = ground (arith, rows_commute ms, key m, settles m, forgets m)

forgets_success :
    (job : JobCtx) (a : Artifacts) (w : Bool) (run : Option IngestionRunRow)
    (cached : Option Payload) (r : ModelRow)
    → status_streams run ≡ true
    → finish_model job a w (completed_row run cached r) ≡ finish_model job a w r
forgets_success job a w run cached r h = ground arith

forgets_failure :
    (run : Option IngestionRunRow) (cached : Option Payload) (r : ModelRow)
    → status_streams run ≡ true
    → fail_model (completed_row run cached r) ≡ fail_model r
forgets_failure run cached r h = ground arith

-- Completing a row after another end of it, as a function of the tables.
module _ (model_id user_id : RowId) (g : ModelRow → ModelRow) (worker : Db → Db)
    (does : (db : Db) → (worker db).models ≡ update (λ r. r.id == model_id) g db.models)
    (key : (r : ModelRow) → (g r).id ≡ r.id) (owner : (r : ModelRow) → (g r).user_id ≡ r.user_id)
    (settles : (r : ModelRow) → is_analyzing (g r).status ≡ false)
    (forgets : (run : Option IngestionRunRow) (cached : Option Payload) (r : ModelRow)
      → status_streams run ≡ true
      → g (completed_row run cached r) ≡ g r) where
  ends_commute :
      (db : Db) (m : ModelRow)
      → owned_model model_id user_id db ≡ ok m
      → status_streams (run_of m.analysis_run_id db) ≡ true
      → models_after (ingestion_complete model_id user_id db >>= λ d. ok (worker d))
        ≡ models_after (ingestion_complete model_id user_id (worker db))
  unfolding ingestion_complete
  ends_commute db m h streams =
      let after = owned_model-update model_id user_id g key owner db (worker db) m h (does db) in
      let run = run_of m.analysis_run_id db in
      let cached = get_cached_result model_id pareto user_id db in
      let first : models_after (ingestion_complete model_id user_id db >>= λ d. ok (worker d))
          ≡ map_ok (update (λ r. r.id == model_id) g)
              (models_after (ingestion_complete model_id user_id db)) =
        rw (h) (ap ok (does (complete_model m user_id db))) in
      first
      ∙ ap (map_ok (update (λ r. r.id == model_id) g))
          (completed_models model_id user_id db m db.models h refl)
      ∙ ap ok (
          rows_commute model_id g key settles run (run_of (g m).analysis_run_id (worker db)) cached
            (get_cached_result model_id pareto user_id (worker db)) streams
            (λ r. forgets run cached r streams) db.models)
      ∙ sym (
          completed_models model_id user_id (worker db) (g m)
            (update (λ r. r.id == model_id) g db.models) after (does db))

-- While the run of an owned model streams, completing the ingestion before or after the success of
-- the worker gives the same rows of models.
pub on_success-ingestion_complete :
    (job : JobCtx) (a : Artifacts) (weights_only : Bool) (user_id : RowId) (db : Db) (m : ModelRow)
    → owned_model job.model_id user_id db ≡ ok m
    → status_streams (run_of m.analysis_run_id db) ≡ true
    → models_after
        (ingestion_complete job.model_id user_id db >>= λ d. ok (on_success job a weights_only d))
      ≡ models_after (ingestion_complete job.model_id user_id (on_success job a weights_only db))
unfolding on_success
on_success-ingestion_complete job a weights_only user_id =
    ends_commute job.model_id user_id (finish_model job a weights_only)
      (on_success job a weights_only) (λ db. refl) (λ r. ground arith) (λ r. ground arith)
      (λ r. ground arith) (λ run cached r. forgets_success job a weights_only run cached r)

-- While the run of an owned model streams, completing the ingestion before or after the failure of
-- the worker gives the same rows of models.
pub on_failure-ingestion_complete :
    (job : JobCtx) (error : Text) (user_id : RowId) (db : Db) (m : ModelRow)
    → owned_model job.model_id user_id db ≡ ok m
    → status_streams (run_of m.analysis_run_id db) ≡ true
    → models_after (ingestion_complete job.model_id user_id db >>= λ d. ok (on_failure job error d))
      ≡ models_after (ingestion_complete job.model_id user_id (on_failure job error db))
unfolding on_failure
on_failure-ingestion_complete job error user_id =
    ends_commute job.model_id user_id fail_model (on_failure job error) (λ db. refl)
      (λ r. ground arith) (λ r. ground arith) (λ r. ground arith) forgets_failure

-- A completed row is not completed again.
completed_once :
    (run run' : Option IngestionRunRow) (cached cached' : Option Payload) (r : ModelRow)
    → completed_row run' cached' (completed_row run cached r) ≡ completed_row run cached r
completed_once run run' cached cached' r = ground arith

rows_once :
    (model_id : RowId) (run run' : Option IngestionRunRow) (cached cached' : Option Payload)
    (ms : List ModelRow)
    → update
        (λ r. r.id == model_id)
        (completed_row run' cached')
        (update (λ r. r.id == model_id) (completed_row run cached) ms)
      ≡ update (λ r. r.id == model_id) (completed_row run cached) ms
rows_once model_id run run' cached cached' [] = refl
rows_once model_id run run' cached cached' (m ∷ ms) =
    let again = completed_once run run' cached cached' m in
    let same : (completed_row run cached m).id ≡ m.id = ground arith in
    ground (arith, rows_once model_id run run' cached cached' ms)

-- The two cases of a second completion.
twice_by :
    (model_id user_id : RowId) (db : Db) (r : Result ModelRow)
    → owned_model model_id user_id db ≡ r
    → models_after (ingestion_complete model_id user_id db >>= ingestion_complete model_id user_id)
      ≡ models_after (ingestion_complete model_id user_id db)
unfolding ingestion_complete complete_model
twice_by model_id user_id db (err e) h = rw (h) refl
twice_by model_id user_id db (ok m) h =
    let run = run_of m.analysis_run_id db in
    let cached = get_cached_result model_id pareto user_id db in
    let g = completed_row run cached in
    let db' = complete_model m user_id db in
    let e : db'.models ≡ update (λ r. r.id == model_id) g db.models =
      ap
        (λ i.
          update (λ r. r.id == i) (completed_row run (get_cached_result i pareto user_id db))
            db.models)
        (owned_model-key model_id user_id db m h) in
    let after =
      owned_model-update model_id user_id g (λ r. ground arith) (λ r. ground arith) db db' m h e in
    let step : models_after
          (ingestion_complete model_id user_id db >>= ingestion_complete model_id user_id)
        ≡ models_after (ingestion_complete model_id user_id (complete_model m user_id db)) =
      rw (h) refl in
    step
    ∙ completed_models model_id user_id db' (g m) (update (λ r. r.id == model_id) g db.models) after
        e
    ∙ ap ok (
        rows_once model_id run (run_of (g m).analysis_run_id db') cached
          (get_cached_result model_id pareto user_id db') db.models)
    ∙ sym (completed_models model_id user_id db m db.models h refl)

-- Completing an ingestion twice leaves the rows of models that completing it once leaves, and
-- fails where once fails.
pub ingestion_complete_twice :
    (model_id user_id : RowId) (db : Db)
    → models_after (ingestion_complete model_id user_id db >>= ingestion_complete model_id user_id)
      ≡ models_after (ingestion_complete model_id user_id db)
ingestion_complete_twice model_id user_id db =
    twice_by model_id user_id db (owned_model model_id user_id db) refl
