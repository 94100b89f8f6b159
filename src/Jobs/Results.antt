-- ===== src/Jobs/Results.antt =====
-- How a run of the worker ends, in the tables.
use astra_back.Prelude.{ℕ, ◌≡◌, refl, true, false, some, List, [], ◌∷◌, ◌==◌, arith, All, take}
use astra_back.Store.{RowId, completed, ingestion_failed, IngestionRunRow, Db, update}
use astra_back.Repositories.{is_busy}
use astra_back.Jobs.{
  JobCtx, emit, pick_up, Report, Outcome, succeeded, cancelled, crashed, run_reports, finish,
  execute_pipeline, on_success, on_failure, finish_model, fail_model,
}

-- What the row of a run says in the end: the reports do not decide it.
unfoldable pub RunEnds : JobCtx → Outcome → IngestionRunRow → Type 0
RunEnds job (succeeded a weights_only) r =
    (r.status ≡ completed) × (r.progress ≡ 100) × (r.finished_at ≡ some job.now)
RunEnds job (cancelled error) r =
    (r.status ≡ ingestion_failed)
    × (r.error ≡ some (take 500 error))
    × (r.finished_at ≡ some job.now)
RunEnds job (crashed error) r =
    (r.status ≡ ingestion_failed)
    × (r.error ≡ some (take 500 error))
    × (r.finished_at ≡ some job.now)

-- What an update of the rows with a key says of each of them.
module _ {R : Type 0} (key : R → RowId) (i : RowId) (f : R → R) (P : R → Type 0) where
  All-update_at :
      ((r : R) → (key (f r) == i) ≡ true → P (f r))
      → (rows : List R) → All (λ r. (key r == i) ≡ true → P r) (update (λ r. key r == i) f rows)
  All-update_at h [] = tt
  All-update_at h (r ∷ rows) = (ground (arith, h r), All-update_at h rows)

finish-ends :
    (job : JobCtx) (outcome : Outcome) (s : ℕ × Db)
    → All
        (λ r. (r.id == job.run_id) ≡ true → RunEnds job outcome r)
        (finish job outcome s).ingestion_runs
      × All
          (λ m. (m.id == job.model_id) ≡ true → is_busy m.status ≡ false)
          (finish job outcome s).models
unfolding finish on_success on_failure emit RunEnds
finish-ends job (succeeded a weights_only) (n, db) = (
  All-update_at (λ r. r.id) job.run_id _ (RunEnds job (succeeded a weights_only))
      (λ r e. (refl, refl, refl)) db.ingestion_runs,
  All-update_at (λ m. m.id) job.model_id (finish_model job a weights_only)
      (λ m. is_busy m.status ≡ false) (λ m e. ground arith) db.models,
)
finish-ends job (cancelled error) (n, db) = (
  All-update_at (λ r. r.id) job.run_id _ (RunEnds job (cancelled error)) (λ r e. (refl, refl, refl))
      db.ingestion_runs,
  All-update_at (λ m. m.id) job.model_id fail_model (λ m. is_busy m.status ≡ false)
      (λ m e. ground arith) db.models,
)
finish-ends job (crashed error) (n, db) = (
  All-update_at (λ r. r.id) job.run_id _ (RunEnds job (crashed error)) (λ r e. (refl, refl, refl))
      db.ingestion_runs,
  All-update_at (λ m. m.id) job.model_id fail_model (λ m. is_busy m.status ≡ false)
      (λ m e. ground arith) db.models,
)

-- Whatever the engine reported, a run of the worker ends with every row of its run at the outcome
-- and stamped (completed at 100 percent, or failed with the first 500 characters of the error),
-- and leaves no row of its model analyzing or optimizing.
pub execute_pipeline-ends :
    (job : JobCtx) (total : ℕ) (reports : List Report) (outcome : Outcome) (db : Db)
    → All
        (λ r. (r.id == job.run_id) ≡ true → RunEnds job outcome r)
        (execute_pipeline job total reports outcome db).ingestion_runs
      × All
          (λ m. (m.id == job.model_id) ≡ true → is_busy m.status ≡ false)
          (execute_pipeline job total reports outcome db).models
unfolding execute_pipeline
execute_pipeline-ends job total reports outcome db =
    finish-ends job outcome (run_reports job total reports (0, pick_up job db))
