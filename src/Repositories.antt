-- ===== src/Repositories.antt =====
-- app/repositories.py: the queries that the handlers share, and the two reconcilers.
pub mod Queries
pub mod Cache
pub mod Reconcile
use astra_back.Prelude.{
  ℕ, ◌+◌, ◌*◌, Bool, true, false, not, ◌&&◌, Option, none, some, List, [], ◌∷◌, ltb, ◌==◌, keep_if,
  find_if, any, is_some, Text, codes, if◌then◌else◌,
}
use astra_back.Store.{
  RowId, ModelStatus, analyzing, optimizing, draft, deployed, failed, ModelRow, IngestionStatus,
  streaming, ingestion_failed, IngestionRunRow, CacheKind, architecture, pareto, benchmark,
  pareto_configs, artifact_meta, drift_ref, Payload, ResultCacheRow, DeploymentStatus, live, canary,
  DeploymentRow, Db, update, Clock,
}
use astra_back.Http.{Result, ok, err, model_not_found}

-- `status in ("analyzing", "optimizing")`
abbrev pub is_busy : ModelStatus → Bool
is_busy analyzing = true
is_busy optimizing = true
is_busy _ = false

abbrev pub is_draft : ModelStatus → Bool
is_draft draft = true
is_draft _ = false

abbrev pub is_status_deployed : ModelStatus → Bool
is_status_deployed deployed = true
is_status_deployed _ = false

abbrev pub is_streaming : IngestionStatus → Bool
is_streaming streaming = true
is_streaming _ = false

abbrev pub is_id : Option RowId → RowId → Bool
is_id none i = false
is_id (some j) i = j == i

-- `session.get(ModelRow, model_id)` and the like
abbrev pub model_at : RowId → Db → Option ModelRow
model_at i db = find_if (λ m. m.id == i) db.models

abbrev pub ingestion_run_at : RowId → Db → Option IngestionRunRow
ingestion_run_at i db = find_if (λ r. r.id == i) db.ingestion_runs

abbrev pub update_model : RowId → (ModelRow → ModelRow) → Db → Db
update_model i f db = record db { models = update (λ m. m.id == i) f db.models }

abbrev if_owned : RowId → Option ModelRow → Option ModelRow
if_owned user_id none = none
if_owned user_id (some m) = if m.user_id == user_id then some m else none

unfoldable pub get_model : RowId → RowId → Db → Option ModelRow
get_model model_id user_id db = if_owned user_id (model_at model_id db)

abbrev or_not_found : Option ModelRow → Result ModelRow
or_not_found none = err model_not_found
or_not_found (some m) = ok m

-- Another user's model is not found either, so that its existence does not show.
unfoldable pub owned_model : RowId → RowId → Db → Result ModelRow
unfolding get_model
owned_model model_id user_id db = or_not_found (get_model model_id user_id db)

abbrev pub needs_deploy_status : ModelRow → Bool
needs_deploy_status m = m.is_deployed && is_draft m.status

abbrev names_of : List ModelRow → List Text
names_of [] = []
names_of (m ∷ ms) = m.name ∷ names_of ms

-- The names that were flipped, and the tables.
unfoldable pub reconcile_deploy_status : Db → List Text × Db
reconcile_deploy_status db = (
  names_of (keep_if needs_deploy_status db.models),
  record db { models = update needs_deploy_status (λ m. record m { status = deployed }) db.models },
)

-- The test that a started run could still be running, `now - started < max_age_sec`.
abbrev is_young : ℕ → ℕ → Option ℕ → Bool
is_young now max_age_sec none = true
is_young now max_age_sec (some started) = ltb now (started + 1000 * max_age_sec)

abbrev pub or_orphaned : Option Text → Option Text
or_orphaned none = some (codes "orphaned — worker stopped before the run finished")
or_orphaned (some []) = some (codes "orphaned — worker stopped before the run finished")
or_orphaned (some (c ∷ e)) = some (c ∷ e)

module _ (clock : Clock) (now max_age_sec : ℕ) where
  abbrev pub is_orphaned : IngestionRunRow → Bool
  is_orphaned run =
      is_streaming run.status && not (is_young now max_age_sec (clock.parse run.started_at))

  abbrev pub release : IngestionRunRow → ModelRow → ModelRow
  release run m =
      if is_busy m.status && is_id m.analysis_run_id run.id
      then record m { status = failed; analysis_run_id = none }
      else m

  unfoldable pub reap_run : IngestionRunRow → Db → Db
  reap_run run db = record db {
    ingestion_runs =
        update (λ r. r.id == run.id)
          (λ r. record r {
            status = ingestion_failed;
            error = or_orphaned r.error;
            finished_at = some (clock.iso now);
          })
          db.ingestion_runs;
    models = update (λ m. m.id == run.model_id) (release run) db.models;
  }

  unfoldable pub reap_all : List IngestionRunRow → Db → List RowId × Db
  unfolding reap_run
  reap_all [] db = ([], db)
  reap_all (run ∷ runs) db = let (ids, db') = reap_all runs (reap_run run db) in (run.id ∷ ids, db')

  -- The runs that were failed, and the tables.
  unfoldable pub reconcile_orphaned_runs : Db → List RowId × Db
  unfolding reap_all
  reconcile_orphaned_runs db = reap_all (keep_if is_orphaned db.ingestion_runs) db

-- `status in _SERVING_STATUSES`
abbrev pub is_serving_status : DeploymentStatus → Bool
is_serving_status live = true
is_serving_status canary = true
is_serving_status _ = false

unfoldable pub model_is_serving : RowId → Db → Bool
model_is_serving model_id db =
    any (λ d. (d.model_id == model_id) && is_serving_status d.status) db.deployments

abbrev pub kind_number : CacheKind → ℕ
kind_number architecture = 0
kind_number pareto = 1
kind_number benchmark = 2
kind_number pareto_configs = 3
kind_number artifact_meta = 4
kind_number (drift_ref dep_id) = 5 + dep_id

abbrev pub is_cached : RowId → CacheKind → RowId → ResultCacheRow → Bool
is_cached model_id kind user_id r =
    (r.model_id == model_id) && (kind_number r.kind == kind_number kind) && (r.user_id == user_id)

abbrev pub payload_of : Option ResultCacheRow → Option Payload
payload_of none = none
payload_of (some r) = some r.payload

unfoldable pub get_cached_result : RowId → CacheKind → RowId → Db → Option Payload
get_cached_result model_id kind user_id db =
    payload_of (find_if (is_cached model_id kind user_id) db.cache)

-- The row that the query found is rewritten, or a row is added at the end.
unfoldable pub put_row :
    RowId → CacheKind → Payload → RowId → List ResultCacheRow → List ResultCacheRow
put_row model_id kind payload user_id [] =
    record { user_id = user_id; model_id = model_id; kind = kind; payload = payload } ∷ []
put_row model_id kind payload user_id (r ∷ rs) =
    if is_cached model_id kind user_id r
    then record r { payload = payload } ∷ rs
    else r ∷ put_row model_id kind payload user_id rs

unfoldable pub put_cached_result : RowId → CacheKind → Payload → RowId → Db → Db
unfolding put_row
put_cached_result model_id kind payload user_id db = record db {
  cache = put_row model_id kind payload user_id db.cache;
}
