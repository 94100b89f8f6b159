-- ===== src/Lifecycle/Worker.antt =====
-- The worker and the reconcilers keep the invariant.
use astra_back.Prelude.{refl, List, [], ◌∷◌, Text, ◌==◌, Bool, ℕ, arith}
use astra_back.Store.{deployed, IngestionRunRow, Db, Clock}
use astra_back.Repositories.{
  needs_deploy_status, reconcile_deploy_status, release, reap_run, reap_all,
}
use astra_back.Jobs.{JobCtx, Artifacts, on_success, on_failure, finish_model, fail_model}
use astra_back.Lifecycle.Invariant.{AreValid-update, IsValidDb}

module _ (db : Db) (v : IsValidDb db) where
  -- The success of a run keeps the invariant, whatever happened to its model in the meantime.
  pub on_success-IsValidDb :
      (job : JobCtx) (a : Artifacts) (weights_only : Bool)
      → IsValidDb (on_success job a weights_only db)
  unfolding on_success
  on_success-IsValidDb job a weights_only =
      AreValid-update (λ m. m.id == job.model_id) (finish_model job a weights_only)
        (λ m. ground arith) db.deployments (λ m h e. ground arith) db.models v

  -- So does its failure: a model that was deployed is left alone.
  pub on_failure-IsValidDb : (job : JobCtx) (error : Text) → IsValidDb (on_failure job error db)
  unfolding on_failure
  on_failure-IsValidDb job error =
      AreValid-update (λ m. m.id == job.model_id) fail_model (λ m. ground arith) db.deployments
        (λ m h e. ground arith) db.models v

  pub reconcile_deploy_status-IsValidDb : IsValidDb (reconcile_deploy_status db).1
  unfolding reconcile_deploy_status
  reconcile_deploy_status-IsValidDb =
      AreValid-update needs_deploy_status (λ m. record m { status = deployed }) (λ m. refl)
        db.deployments (λ m h e. ground arith) db.models v

module _ (clock : Clock) (now max_age_sec : ℕ) where
  reap_run-IsValidDb :
      (run : IngestionRunRow) (db : Db)
      → IsValidDb db
      → IsValidDb (reap_run clock now max_age_sec run db)
  unfolding reap_run
  reap_run-IsValidDb run db v =
      AreValid-update (λ m. m.id == run.model_id) (release clock now max_age_sec run)
        (λ m. ground arith) db.deployments (λ m h e. ground arith) db.models v

  pub reap_all-IsValidDb :
      (runs : List IngestionRunRow) (db : Db)
      → IsValidDb db
      → IsValidDb (reap_all clock now max_age_sec runs db).1
  unfolding reap_all
  reap_all-IsValidDb [] db v = v
  reap_all-IsValidDb (run ∷ runs) db v =
      reap_all-IsValidDb runs (reap_run clock now max_age_sec run db) (reap_run-IsValidDb run db v)
