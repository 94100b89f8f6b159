-- ===== src/Lifecycle/Reachable.antt =====
-- Every step keeps the invariant, and so does every run of steps.
use astra_back.Prelude.{Text, leb, length, ◌&&◌, strip, is_space, ◌≡◌, refl, Bool, arith, keep_if}
use astra_back.Store.{Stamp, paused, live, RowId, Db}
use astra_back.Http.{bad_name, not_servable, ok, bind-keeps, ok-keeps, require, require-holds}
use astra_back.Repositories.{owned_model, is_orphaned, reconcile_orphaned_runs, put_cached_result}
use astra_back.Models.{ingestion_complete, model_rename, model_delete}
use astra_back.Jobs.{pick_up, emit, progress}
use astra_back.ApiKeys.{Fresh, rotate_key, revoke_deployment_keys, issue_key, touch_key}
use astra_back.Deployments.{
  CreateRequest, is_executable, relabel, create_deployment, rotate_deployment_key, pause_deployment,
  resume_deployment, update_deployment, delete_deployment, owned_deployment,
}
use astra_back.Lifecycle.Invariant.{IsValidDb}
use astra_back.Lifecycle.Steps.{
  Step, Reach, started, completed_by, renamed, deleted, created, rotated, paused_by, resumed_by,
  relabelled, undeployed, touched, picked_up, emitted, progressed_to, cached, succeeded_with,
  failed_with, badges_healed, orphans_reaped, rows_created, key_issued, keys_revoked, here, next,
}
use astra_back.Lifecycle.Worker.{
  on_success-IsValidDb, on_failure-IsValidDb, reconcile_deploy_status-IsValidDb, reap_all-IsValidDb,
}
use astra_back.Repositories.Queries.{found-at_its_id}
use astra_back.Deployments.Queries.{deployment-at_its_id}
use astra_back.Lifecycle.Handlers.{
  start_ingestion-IsValidDb, complete_model-IsValidDb, rename-IsValidDb, delete-IsValidDb,
  update_deployment_at-IsValidDb, add_deployment-IsValidDb, drop_deployment-IsValidDb,
}

module _ (db : Db) (v : IsValidDb db) where
  ingestion_complete-IsValidDb :
      (model_id user_id : RowId) (db' : Db)
      → ingestion_complete model_id user_id db ≡ ok db'
      → IsValidDb db'
  unfolding ingestion_complete
  ingestion_complete-IsValidDb model_id user_id =
      bind-keeps IsValidDb (owned_model model_id user_id db)
        (λ m e. ok-keeps IsValidDb (complete_model-IsValidDb db v m user_id))

  model_rename-IsValidDb :
      (model_id : RowId) (name : Text) (user_id : RowId) (db' : Db)
      → model_rename model_id name user_id db ≡ ok db'
      → IsValidDb db'
  unfolding model_rename
  model_rename-IsValidDb model_id name user_id =
      bind-keeps IsValidDb (owned_model model_id user_id db) (λ m e.
        bind-keeps IsValidDb
          (require (leb 1 (length (strip is_space name)) && leb (length (strip is_space name)) 80)
            bad_name)
          (λ t k. ok-keeps IsValidDb (rename-IsValidDb db v model_id (strip is_space name))))

  model_delete-IsValidDb :
      (model_id user_id : RowId) (db' : Db)
      → model_delete model_id user_id db ≡ ok db'
      → IsValidDb db'
  unfolding model_delete
  model_delete-IsValidDb model_id user_id =
      bind-keeps IsValidDb (owned_model model_id user_id db)
        (λ m e. ok-keeps IsValidDb (delete-IsValidDb db v model_id))

  create_deployment-IsValidDb :
      (hash : Text → Text) (is_cloud : Text → Bool) (dep_id : RowId) (body : CreateRequest)
      (now : Stamp) (fresh : Fresh) (model_id user_id : RowId) (r : Text × Db)
      → create_deployment hash is_cloud dep_id body now fresh model_id user_id db ≡ ok r
      → IsValidDb r.1
  unfolding create_deployment issue_key
  create_deployment-IsValidDb hash is_cloud dep_id body now fresh model_id user_id =
      bind-keeps (λ r. IsValidDb r.1) (owned_model model_id user_id db)
        (λ m e.
          bind-keeps (λ r. IsValidDb r.1) (require (is_executable m.artifact_key) not_servable)
            (λ t k.
              ok-keeps (λ r. IsValidDb r.1)
                (add_deployment-IsValidDb db v is_cloud dep_id user_id m body now
                  (found-at_its_id model_id user_id db m e)
                  (require-holds (is_executable m.artifact_key) not_servable k))))

  rotate_deployment_key-IsValidDb :
      (hash : Text → Text) (fresh : Fresh) (deployment_id user_id : RowId) (r : Text × Db)
      → rotate_deployment_key hash fresh deployment_id user_id db ≡ ok r
      → IsValidDb r.1
  unfolding rotate_deployment_key rotate_key revoke_deployment_keys issue_key
  rotate_deployment_key-IsValidDb hash fresh deployment_id user_id =
      bind-keeps (λ r. IsValidDb r.1) (owned_deployment deployment_id user_id db)
        (λ d e. ok-keeps (λ r. IsValidDb r.1) v)

  delete_deployment-IsValidDb :
      (deployment_id user_id : RowId) (db' : Db)
      → delete_deployment deployment_id user_id db ≡ ok db'
      → IsValidDb db'
  unfolding delete_deployment
  delete_deployment-IsValidDb deployment_id user_id =
      bind-keeps IsValidDb (owned_deployment deployment_id user_id db) (λ d e.
        ok-keeps IsValidDb
          (drop_deployment-IsValidDb db v d (deployment-at_its_id deployment_id user_id db d e)))

pub Step-IsValidDb : {db db' : Db} → Step db db' → IsValidDb db → IsValidDb db'
unfolding issue_key revoke_deployment_keys touch_key pick_up emit progress put_cached_result
    pause_deployment resume_deployment update_deployment reconcile_orphaned_runs
Step-IsValidDb {db} (started naming n u new none_yet) v =
    start_ingestion-IsValidDb db v naming n u new none_yet
Step-IsValidDb {db} (completed_by i u db' h) v = ingestion_complete-IsValidDb db v i u db' h
Step-IsValidDb {db} (renamed i n u db' h) v = model_rename-IsValidDb db v i n u db' h
Step-IsValidDb {db} (deleted i u db' h) v = model_delete-IsValidDb db v i u db' h
Step-IsValidDb {db} (created hash c i b n f m u k db' h) v =
    create_deployment-IsValidDb db v hash c i b n f m u (k, db') h
Step-IsValidDb {db} (rows_created c i model_id u m b n owned x) v =
    add_deployment-IsValidDb db v c i u m b n (found-at_its_id model_id u db m owned) x
Step-IsValidDb (key_issued hash u i f) v = v
Step-IsValidDb (keys_revoked i) v = v
Step-IsValidDb {db} (rotated hash f i u k db' h) v =
    rotate_deployment_key-IsValidDb db v hash f i u (k, db') h
Step-IsValidDb {db} (paused_by i u db' h) v =
    bind-keeps IsValidDb (owned_deployment i u db)
      (λ d e.
        ok-keeps IsValidDb
          (update_deployment_at-IsValidDb db v i (λ r. record r { status = paused }) (λ r. refl)))
      db' h
Step-IsValidDb {db} (resumed_by i u db' h) v =
    bind-keeps IsValidDb (owned_deployment i u db)
      (λ d e.
        ok-keeps IsValidDb
          (update_deployment_at-IsValidDb db v i (λ r. record r { status = live }) (λ r. refl)))
      db' h
Step-IsValidDb {db} (relabelled n t i u db' h) v =
    bind-keeps IsValidDb (owned_deployment i u db)
      (λ d e. ok-keeps IsValidDb (update_deployment_at-IsValidDb db v i (relabel n t) (λ r. refl)))
      db' h
Step-IsValidDb {db} (undeployed i u db' h) v = delete_deployment-IsValidDb db v i u db' h
Step-IsValidDb {db} (touched clock now key) v = record {
  unique = ground (arith, v.unique);
  rows = ground (arith, v.rows);
}
Step-IsValidDb (picked_up job) v = v
Step-IsValidDb (emitted job l m s) v = v
Step-IsValidDb (progressed_to job t p) v = v
Step-IsValidDb (cached i k p u) v = v
Step-IsValidDb {db} (succeeded_with job a w) v = on_success-IsValidDb db v job a w
Step-IsValidDb {db} (failed_with job e) v = on_failure-IsValidDb db v job e
Step-IsValidDb {db} badges_healed v = reconcile_deploy_status-IsValidDb db v
Step-IsValidDb {db} (orphans_reaped clock now age) v =
    reap_all-IsValidDb clock now age (keep_if (is_orphaned clock now age) db.ingestion_runs) db v

-- From valid tables every sequence of handler, worker and reconciler steps leads to valid tables:
-- model keys are unique, and each model names a run exactly while it is analyzing or optimizing,
-- has no artifact then, has the status "deployed" exactly if its flag says so, and has the flag
-- exactly if it has a deployment. An ingestion starts under a key that no model and no deployment
-- uses.
pub Reach-IsValidDb : {db db' : Db} → IsValidDb db → Reach db db' → IsValidDb db'
Reach-IsValidDb v here = v
Reach-IsValidDb v (next r s) = Step-IsValidDb s (Reach-IsValidDb v r)
