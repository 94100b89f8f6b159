-- ===== src/Tests/Product.antt =====
-- The tables: handlers, worker, reconcilers and keys at concrete rows.
use astra_back.Prelude.{
  Bool, ◌≡◌, ◌≢◌, refl, true, false, none, some, [], ◌∷◌, ◌==◌, All, Text, codes, if◌then◌else◌,
}
use astra_back.Store.{pareto, info, paused, opaque_json, ModelRow}
use astra_back.Http.{ok, ◌>>=◌}
use astra_back.Repositories.{is_busy, owned_model, get_model, get_cached_result, put_cached_result}
use astra_back.Repositories.Cache.{hit, get_cached_result-put_cached_result}
use astra_back.Models.{start_ingestion, ingestion_complete}
use astra_back.Models.Handshake.{models_after, on_success-ingestion_complete}
use astra_back.Jobs.{on_success, logged, progressed, crashed, execute_pipeline}
use astra_back.Jobs.Logs.{seqs, countdown, lines_of, last_lines, execute_pipeline-numbers}
use astra_back.Jobs.Results.{RunEnds, execute_pipeline-ends}
use astra_back.ApiKeys.{issue_key, new_key, plaintext_of, rotate_key, resolve_key}
use astra_back.ApiKeys.Rotation.{resolve_key-rotate_key, rotate_key-excludes}
use astra_back.Deployments.{
  CreateRequest, create_deployment, new_deployment, add_deployment, mark_deployed, owned_deployment,
  pause_deployment, update_deployment_at, delete_deployment, drop_deployment, resolve,
}
use astra_back.Deployments.Access.{
  IsAuthorized, resolve_authorizes, create_deployment_opens, pause_deployment_closes,
  delete_deployment_closes,
}
use astra_back.Lifecycle.{IsValidDb, here, next, started, succeeded_with}
use astra_back.Lifecycle.Reachable.{Reach-IsValidDb}
use astra_back.Tests.Fixtures.{
  empty_db, analyzing_db, draft_model, draft_db, naming, upload, job, compressed, digest, fresh,
  serving, old_key, serving_model, serving_db, stamp,
}

Reach-IsValidDb_example :
    IsValidDb (on_success job compressed false (start_ingestion naming 4 upload empty_db))
Reach-IsValidDb_example =
    Reach-IsValidDb (record { unique = tt; rows = tt })
      (next (next here (started naming 4 upload refl refl)) (succeeded_with job compressed false))

on_success-ingestion_complete_example :
    models_after
      (ingestion_complete 7 1 analyzing_db >>= λ d. ok (on_success job compressed false d))
    ≡ models_after (ingestion_complete 7 1 (on_success job compressed false analyzing_db))
unfolding owned_model get_model
on_success-ingestion_complete_example =
    on_success-ingestion_complete job compressed false 1 analyzing_db _ refl refl

execute_pipeline-ends_example :
    let db = execute_pipeline job 4 (progressed 30 ∷ []) (crashed (codes "boom")) analyzing_db in
    All (λ r. (r.id == 7) ≡ true → RunEnds job (crashed (codes "boom")) r) db.ingestion_runs
    × All (λ m. (m.id == 7) ≡ true → is_busy m.status ≡ false) db.models
execute_pipeline-ends_example =
    execute_pipeline-ends job 4 (progressed 30 ∷ []) (crashed (codes "boom")) analyzing_db

execute_pipeline-numbers_example :
    seqs 7
      (execute_pipeline job 4
        (logged info [] ∷ progressed 30 ∷ [])
        (crashed (codes "boom"))
        analyzing_db).logs
    ≡ countdown 2
unfolding seqs lines_of last_lines
execute_pipeline-numbers_example =
    execute_pipeline-numbers job 4 (logged info [] ∷ progressed 30 ∷ []) (crashed (codes "boom"))
      analyzing_db refl

get_cached_result-put_cached_result_example :
    get_cached_result 7 pareto 1 (put_cached_result 7 pareto (opaque_json 3) 1 empty_db) ≡ (
      if hit 7 pareto (opaque_json 3) 1 7 pareto 1
      then some (opaque_json 3)
      else get_cached_result 7 pareto 1 empty_db)
get_cached_result-put_cached_result_example =
    get_cached_result-put_cached_result 7 pareto (opaque_json 3) 1 7 pareto 1 empty_db

rotate_key-excludes_example : new_key digest 1 5 fresh ≡ new_key digest 1 5 fresh
unfolding rotate_key
rotate_key-excludes_example =
    rotate_key-excludes digest 1 5 fresh serving_db (some (plaintext_of fresh))
      (new_key digest 1 5 fresh) (resolve_key-rotate_key digest 1 5 fresh serving_db) refl

resolve_authorizes_example :
    IsAuthorized digest 5 (some (codes "old")) serving_db old_key serving serving_model
unfolding resolve resolve_key
resolve_authorizes_example =
    resolve_authorizes digest 5 (some (codes "old")) serving_db old_key serving serving_model refl

abbrev request : CreateRequest
request = record { name = none; region = none; as_canary = true }

abbrev never : Text → Bool
never t = false

create_deployment_opens_example :
    (m : ModelRow) × (owned_model 7 1 draft_db ≡ ok m)
    × (resolve digest 5
          (some (plaintext_of fresh))
          (record (add_deployment never 5 1 draft_model request stamp draft_db) {
            api_keys = new_key digest 1 5 fresh ∷ [];
          })
        ≡ ok (new_key digest 1 5 fresh, new_deployment 5 1 m request stamp, mark_deployed m))
unfolding create_deployment issue_key owned_model get_model
create_deployment_opens_example =
    create_deployment_opens digest never 5 request stamp fresh 7 1 draft_db
      (
        plaintext_of fresh,
        record (add_deployment never 5 1 draft_model request stamp draft_db) {
          api_keys = new_key digest 1 5 fresh ∷ [];
        },
      )
      refl

pause_deployment_closes_example :
    resolve digest 5
      (some (codes "old"))
      (update_deployment_at 5 (λ r. record r { status = paused }) serving_db)
    ≢ ok (old_key, serving, serving_model)
unfolding pause_deployment owned_deployment
pause_deployment_closes_example =
    pause_deployment_closes digest 5 1 (some (codes "old")) serving_db
      (update_deployment_at 5 (λ r. record r { status = paused }) serving_db) old_key serving
      serving_model refl

delete_deployment_closes_example :
    resolve digest 5 (some (codes "old")) (drop_deployment serving serving_db)
    ≢ ok (old_key, serving, serving_model)
unfolding delete_deployment owned_deployment
delete_deployment_closes_example =
    delete_deployment_closes digest 5 1 (some (codes "old")) serving_db
      (drop_deployment serving serving_db) old_key serving serving_model refl
