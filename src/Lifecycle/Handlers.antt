-- ===== src/Lifecycle/Handlers.antt =====
-- The handlers keep the invariant.
use astra_back.Prelude.{
  ◌≡◌, refl, true, false, some, Text, ◌==◌, Bool, ℕ, arith, find_if, Bool-cases, inl, inr,
}
use astra_back.Store.{
  RowId, Stamp, pareto, delete_first, DeploymentRow, ModelRow, Db, All-update, All-map,
  All-delete_where,
}
use astra_back.Repositories.{get_cached_result}
use astra_back.Models.{
  Naming, Uploaded, start_ingestion, complete_model, completed_row, run_of, rename_rows,
  delete_rows,
}
use astra_back.ApiKeys.{revoke_deployment_keys}
use astra_back.Deployments.{
  undeploy, CreateRequest, has_deployment, add_deployment, mark_deployed, is_executable,
  drop_deployment, update_deployment_at,
}
use astra_back.Lifecycle.Invariant.{
  IsConsistent, AreValid-update, AreValid-update_found, IsValidDb, has_model, IsUnique-update,
  IsUnique-delete_where, has_deployment-update, has_deployment-delete_first,
  has_deployment-delete_where,
}

module _ (db : Db) (v : IsValidDb db) where
  pub start_ingestion-IsValidDb :
      (naming : Naming) (n_trials : ℕ) (u : Uploaded)
      → has_model u.token db.models ≡ false
      → has_deployment u.token db.deployments ≡ false
      → IsValidDb (start_ingestion naming n_trials u db)
  unfolding start_ingestion
  start_ingestion-IsValidDb naming n_trials u new none_yet = record {
    unique = (new, v.unique);
    rows = (ground arith, v.rows);
  }

  pub complete_model-IsValidDb :
      (m : ModelRow) (user_id : RowId) → IsValidDb (complete_model m user_id db)
  unfolding complete_model
  complete_model-IsValidDb m user_id =
      AreValid-update (λ r. r.id == m.id)
        (completed_row (run_of m.analysis_run_id db) (get_cached_result m.id pareto user_id db))
        (λ r. ground arith) db.deployments (λ r h e. ground arith) db.models v

  pub rename-IsValidDb : (model_id : RowId) (name : Text) → IsValidDb (rename_rows model_id name db)
  rename-IsValidDb model_id name =
      AreValid-update (λ m. m.id == model_id) (λ m. record m { name = name }) (λ m. refl)
        db.deployments (λ m h e. ground arith) db.models v

  pub delete-IsValidDb : (model_id : RowId) → IsValidDb (delete_rows model_id db)
  delete-IsValidDb model_id = record {
    unique = IsUnique-delete_where model_id db.models v.unique;
    rows =
        All-delete_where (IsConsistent db.deployments)
          (IsConsistent (delete_rows model_id db).deployments) (λ m. m.id == model_id)
          (λ m h e. ground (arith, has_deployment-delete_where m.id model_id db.deployments))
          db.models v.rows;
  }

  pub update_deployment_at-IsValidDb :
      (i : RowId) (f : DeploymentRow → DeploymentRow)
      → ((d : DeploymentRow) → (f d).model_id ≡ d.model_id)
      → IsValidDb (update_deployment_at i f db)
  update_deployment_at-IsValidDb i f same = record {
    unique = v.unique;
    rows =
        All-map (IsConsistent db.deployments)
          (IsConsistent (update_deployment_at i f db).deployments)
          (λ m h. ground (arith, has_deployment-update (λ d. d.id == i) f same m.id db.deployments))
          db.models v.rows;
  }

  pub add_deployment-IsValidDb :
      (is_cloud : Text → Bool) (dep_id user_id : RowId) (m : ModelRow) (body : CreateRequest)
      (now : Stamp)
      → find_if (λ r. r.id == m.id) db.models ≡ some m
      → is_executable m.artifact_key ≡ true
      → IsValidDb (add_deployment is_cloud dep_id user_id m body now db)
  add_deployment-IsValidDb is_cloud dep_id user_id m body now e x =
      AreValid-update_found db.deployments
        (add_deployment is_cloud dep_id user_id m body now db).deployments m.id mark_deployed
        (λ r. refl) (λ r h k. ground arith) db.models m v e (λ h. ground arith)

  -- The deployments that remain, and what each model has among them.
  pub drop_deployment-IsValidDb :
      (d : DeploymentRow)
      → find_if (λ r. r.id == d.id) db.deployments ≡ some d
      → IsValidDb (drop_deployment d db)
  unfolding revoke_deployment_keys
  drop_deployment-IsValidDb d e =
      let remaining = delete_first (λ r. r.id == d.id) db.deployments in
      elim (Bool-cases (has_deployment d.model_id remaining)) [
        | inl yes_left ↦ rw yes_left (record {
          unique = v.unique;
          rows =
              All-map (IsConsistent db.deployments) (IsConsistent remaining)
                (λ m h.
                  ground (
                    arith,
                    has_deployment-delete_first (λ r. r.id == d.id) m.id d db.deployments e,
                  ))
                db.models v.rows;
        })
        | inr none_left ↦ rw none_left (record {
          unique =
              IsUnique-update (λ m. m.id == d.model_id) undeploy (λ m. ground arith) db.models
                v.unique;
          rows =
              All-update (IsConsistent db.deployments) (IsConsistent remaining)
                (λ m. m.id == d.model_id) undeploy
                (λ m h.
                  ground (
                    arith,
                    has_deployment-delete_first (λ r. r.id == d.id) m.id d db.deployments e,
                  ))
                db.models v.rows;
        })
      ]
