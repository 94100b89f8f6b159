-- ===== src/Lifecycle/Steps.antt =====
-- Every way in which the modelled operations change the tables, one constructor each. Handlers take
-- their effect at their commit; the worker's commits are steps of their own, so that any handler may
-- come between two of them. Deleting the row of a deployment and taking the flag off its model are one
-- step, though the source commits them one after the other.
use astra_back.Prelude.{ℕ, ◌≡◌, Bool, true, false, Option, Text}
use astra_back.Store.{ModelRow, RowId, Stamp, LogLevel, ApiKeyRow, CacheKind, Payload, Db, Clock}
use astra_back.Http.{ok}
use astra_back.Repositories.{
  owned_model, reconcile_deploy_status, reconcile_orphaned_runs, put_cached_result,
}
use astra_back.Models.{
  Naming, Uploaded, start_ingestion, ingestion_complete, model_rename, model_delete,
}
use astra_back.Jobs.{JobCtx, Artifacts, pick_up, emit, progress, on_success, on_failure}
use astra_back.ApiKeys.{Fresh, issue_key, revoke_deployment_keys, touch_key}
use astra_back.Deployments.{
  CreateRequest, is_executable, add_deployment, create_deployment, rotate_deployment_key,
  pause_deployment, resume_deployment, update_deployment, has_deployment, delete_deployment,
}
use astra_back.Lifecycle.Invariant.{has_model}

pub data Step (db : Db) : Db → Type 0 where
  started :
      (naming : Naming) (n_trials : ℕ) (u : Uploaded)
      → has_model u.token db.models ≡ false
      → has_deployment u.token db.deployments ≡ false
      → Step db (start_ingestion naming n_trials u db)
  completed_by :
      (model_id user_id : RowId) (db' : Db)
      → ingestion_complete model_id user_id db ≡ ok db'
      → Step db db'
  renamed :
      (model_id : RowId) (name : Text) (user_id : RowId) (db' : Db)
      → model_rename model_id name user_id db ≡ ok db'
      → Step db db'
  deleted :
      (model_id user_id : RowId) (db' : Db)
      → model_delete model_id user_id db ≡ ok db'
      → Step db db'
  created :
      (hash : Text → Text) (is_cloud : Text → Bool) (dep_id : RowId) (body : CreateRequest)
      (now : Stamp) (fresh : Fresh) (model_id user_id : RowId) (key : Text) (db' : Db)
      → create_deployment hash is_cloud dep_id body now fresh model_id user_id db ≡ ok (key, db')
      → Step db db'
  -- The two commits of `create_deployment`, between which another request may come,
  rows_created :
      (is_cloud : Text → Bool) (dep_id model_id user_id : RowId) (m : ModelRow)
      (body : CreateRequest) (now : Stamp)
      → owned_model model_id user_id db ≡ ok m
      → is_executable m.artifact_key ≡ true
      → Step db (add_deployment is_cloud dep_id user_id m body now db)
  key_issued :
      (hash : Text → Text) (user_id dep_id : RowId) (fresh : Fresh)
      → Step db (issue_key hash user_id dep_id fresh db).1
  -- and the first commit of `delete_deployment` and of a rotation.
  keys_revoked : (deployment_id : RowId) → Step db (revoke_deployment_keys deployment_id db)
  rotated :
      (hash : Text → Text) (fresh : Fresh) (deployment_id user_id : RowId) (key : Text) (db' : Db)
      → rotate_deployment_key hash fresh deployment_id user_id db ≡ ok (key, db')
      → Step db db'
  paused_by :
      (deployment_id user_id : RowId) (db' : Db)
      → pause_deployment deployment_id user_id db ≡ ok db'
      → Step db db'
  resumed_by :
      (deployment_id user_id : RowId) (db' : Db)
      → resume_deployment deployment_id user_id db ≡ ok db'
      → Step db db'
  relabelled :
      (name description : Option Text) (deployment_id user_id : RowId) (db' : Db)
      → update_deployment name description deployment_id user_id db ≡ ok db'
      → Step db db'
  undeployed :
      (deployment_id user_id : RowId) (db' : Db)
      → delete_deployment deployment_id user_id db ≡ ok db'
      → Step db db'
  touched : (clock : Clock) (now : ℕ) (key : ApiKeyRow) → Step db (touch_key clock now key db)
  picked_up : (job : JobCtx) → Step db (pick_up job db)
  emitted :
      (job : JobCtx) (level : LogLevel) (message : Text) (seq : ℕ)
      → Step db (emit job level message (seq, db)).1
  progressed_to : (job : JobCtx) (total pct : ℕ) → Step db (progress job total pct db)
  cached :
      (model_id : RowId) (kind : CacheKind) (payload : Payload) (user_id : RowId)
      → Step db (put_cached_result model_id kind payload user_id db)
  succeeded_with :
      (job : JobCtx) (a : Artifacts) (weights_only : Bool)
      → Step db (on_success job a weights_only db)
  failed_with : (job : JobCtx) (error : Text) → Step db (on_failure job error db)
  badges_healed : Step db (reconcile_deploy_status db).1
  orphans_reaped :
      (clock : Clock) (now max_age_sec : ℕ)
      → Step db (reconcile_orphaned_runs clock now max_age_sec db).1

-- Any number of steps.
pub data Reach (db : Db) : Db → Type 0 where
  here : Reach db db
  next : {d e : Db} → Reach db d → Step d e → Reach db e
