-- ===== src/Deployments.antt =====
-- app/routers/deployments.py: the lifecycle of a deployment, and the gate of the SDK's requests,
-- `_resolve` of app/routers/client_telemetry.py. The laws stand in Access and in Lifecycle.
pub mod Queries
pub mod Access
use astra_back.Prelude.{
  ℕ, Bool, true, false, not, ◌&&◌, Option, none, some, List, [], ◌∷◌, ◌++◌, ◌==◌, find_if, any,
  take, is_some, Text, codes, ends_with, strip, is_space, if◌then◌else◌,
}
use astra_back.Store.{
  RowId, Stamp, draft, deployed, ModelRow, DeploymentStatus, live, canary, paused, DeploymentRow,
  ApiKeyRow, deploy_promoted, ActivityRow, Db, update, delete_first,
}
use astra_back.Http.{
  Result, ok, err, not_servable, deployment_not_found, invalid_api_key,
  deployment_not_found_for_key, deployment_paused, no_artifact, require, ◌>>=◌, ◌>>◌,
}
use astra_back.Repositories.{is_status_deployed, model_at, update_model, owned_model}
use astra_back.ApiKeys.{Fresh, issue_key, rotate_key, revoke_deployment_keys, resolve_key}

-- `is_executable` of app/services/formats.py
abbrev pub is_executable : Option Text → Bool
is_executable none = false
is_executable (some key) = ends_with (codes ".onnx") key

abbrev serving_runtime : Text
serving_runtime = codes "ONNX Runtime (on-device)"

abbrev pub is_paused : DeploymentStatus → Bool
is_paused paused = true
is_paused _ = false

abbrev pub deployment_at : RowId → Db → Option DeploymentRow
deployment_at i db = find_if (λ d. d.id == i) db.deployments

abbrev or_no_deployment : RowId → Option DeploymentRow → Result DeploymentRow
or_no_deployment user_id none = err deployment_not_found
or_no_deployment user_id (some d) = if d.user_id == user_id then ok d else err deployment_not_found

unfoldable pub owned_deployment : RowId → RowId → Db → Result DeploymentRow
owned_deployment deployment_id user_id db =
    or_no_deployment user_id (deployment_at deployment_id db)

-- The request body; its status is `live` or `canary`.
pub record CreateRequest : Type 0 where
  pub name : Option Text
  pub region : Option Text
  pub as_canary : Bool

-- `value or default`
abbrev or_default : Option Text → Text → Text
or_default none d = d
or_default (some []) d = d
or_default (some (c ∷ s)) d = c ∷ s

abbrev pub initial_status : Bool → DeploymentStatus
initial_status as_canary = if as_canary then canary else live

abbrev pub new_deployment : RowId → RowId → ModelRow → CreateRequest → Stamp → DeploymentRow
new_deployment dep_id user_id m body now = record {
  id = dep_id;
  user_id = user_id;
  model_id = m.id;
  name = or_default body.name m.name;
  description = [];
  region = strip is_space (or_default body.region serving_runtime);
  qps = 0;
  p95 = 0;
  errors_pct = 0;
  accuracy_drift = 0;
  status = initial_status body.as_canary;
  created_at = now;
  last_event_at = none;
}

-- `_runtime_label`; the regular expression of a cloud region is the argument.
abbrev pub runtime_label : (Text → Bool) → Text → Text
runtime_label is_cloud [] = serving_runtime
runtime_label is_cloud (c ∷ s) = if is_cloud (c ∷ s) then serving_runtime else c ∷ s

abbrev runtime_of : CreateRequest → Text
runtime_of body = strip is_space (or_default body.region serving_runtime)

abbrev pub mark_deployed : ModelRow → ModelRow
mark_deployed m = record m { is_deployed = true; status = deployed }

-- The rows that `create_deployment` commits before it issues the key.
abbrev pub add_deployment :
    (Text → Bool) → RowId → RowId → ModelRow → CreateRequest → Stamp → Db → Db
add_deployment is_cloud dep_id user_id m body now db = record db {
  deployments = new_deployment dep_id user_id m body now ∷ db.deployments;
  models = update (λ r. r.id == m.id) mark_deployed db.models;
  activity =
      record {
        id = dep_id;
        user_id = user_id;
        kind = deploy_promoted;
        text =
            codes "Deployment promoted — "
            ++ (m.name ++ (codes " → " ++ runtime_label is_cloud (runtime_of body)));
        timestamp = now;
      }
      ∷ db.activity;
}

-- The plaintext of the deployment's key, and the tables.
unfoldable pub create_deployment :
    (Text → Text)
    → (Text → Bool)
    → RowId
    → CreateRequest
    → Stamp
    → Fresh
    → RowId
    → RowId
    → Db
    → Result (Text × Db)
create_deployment hash is_cloud dep_id body now fresh model_id user_id db = do
  m ← owned_model model_id user_id db
  require (is_executable m.artifact_key) not_servable
  ok (issue_key hash user_id dep_id fresh (add_deployment is_cloud dep_id user_id m body now db))

unfoldable pub rotate_deployment_key :
    (Text → Text) → Fresh → RowId → RowId → Db → Result (Text × Db)
rotate_deployment_key hash fresh deployment_id user_id db = do
  d ← owned_deployment deployment_id user_id db
  ok (rotate_key hash user_id deployment_id fresh db)

abbrev pub update_deployment_at : RowId → (DeploymentRow → DeploymentRow) → Db → Db
update_deployment_at i f db = record db { deployments = update (λ d. d.id == i) f db.deployments }

unfoldable pub pause_deployment : RowId → RowId → Db → Result Db
pause_deployment deployment_id user_id db = do
  d ← owned_deployment deployment_id user_id db
  ok (update_deployment_at deployment_id (λ r. record r { status = paused }) db)

unfoldable pub resume_deployment : RowId → RowId → Db → Result Db
resume_deployment deployment_id user_id db = do
  d ← owned_deployment deployment_id user_id db
  ok (update_deployment_at deployment_id (λ r. record r { status = live }) db)

-- A blank name keeps the old one.
abbrev new_name : Option Text → Text → Text
new_name none old = old
new_name (some t) old = or_default (some (take 80 (strip is_space t))) old

abbrev new_description : Option Text → Text → Text
new_description none old = old
new_description (some t) old = take 280 (strip is_space t)

abbrev pub relabel : Option Text → Option Text → DeploymentRow → DeploymentRow
relabel name description r = record r {
  name = new_name name r.name;
  description = new_description description r.description;
}

unfoldable pub update_deployment : Option Text → Option Text → RowId → RowId → Db → Result Db
update_deployment name description deployment_id user_id db = do
  d ← owned_deployment deployment_id user_id db
  ok (update_deployment_at deployment_id (relabel name description) db)

abbrev pub has_deployment : RowId → List DeploymentRow → Bool
has_deployment model_id deps = any (λ d. d.model_id == model_id) deps

-- A model whose last deployment is gone is a draft again, unless its status moved in the meantime.
abbrev pub undeploy : ModelRow → ModelRow
undeploy m =
    let m' = record m { is_deployed = false } in
    if is_status_deployed m.status then record m' { status = draft } else m'

-- `delete_deployment` on the row that the caller owns.
abbrev pub drop_deployment : DeploymentRow → Db → Db
drop_deployment d db =
    let db' = revoke_deployment_keys d.id db in
    let remaining = delete_first (λ r. r.id == d.id) db'.deployments in
    if has_deployment d.model_id remaining
    then record db' { deployments = remaining }
    else record db' {
      deployments = remaining;
      models = update (λ m. m.id == d.model_id) undeploy db'.models;
    }

unfoldable pub delete_deployment : RowId → RowId → Db → Result Db
delete_deployment deployment_id user_id db = do
  d ← owned_deployment deployment_id user_id db
  ok (drop_deployment d db)

abbrev pub has_text : Option Text → Bool
has_text none = false
has_text (some []) = false
has_text (some (c ∷ s)) = true

abbrev pub resolved_model : Option ModelRow → Result ModelRow
resolved_model none = err no_artifact
resolved_model (some m) = if has_text m.artifact_key then ok m else err no_artifact

abbrev pub key_or_401 : Option ApiKeyRow → Result ApiKeyRow
key_or_401 none = err invalid_api_key
key_or_401 (some k) = ok k

-- The 404 of a key that names another deployment is that of a deployment that is not there.
abbrev pub reachable : ApiKeyRow → RowId → Option DeploymentRow → Result DeploymentRow
reachable k deployment_id none = err deployment_not_found_for_key
reachable k deployment_id (some d) =
    if k.deployment_id == deployment_id then ok d else err deployment_not_found_for_key

-- `_resolve`, after `_bearer` has read the token from the header.
unfoldable pub resolve :
    (Text → Text) → RowId → Option Text → Db → Result (ApiKeyRow × DeploymentRow × ModelRow)
resolve hash deployment_id token db = do
  k ← key_or_401 (resolve_key hash token db)
  d ← reachable k deployment_id (deployment_at deployment_id db)
  require (not (is_paused d.status)) deployment_paused
  m ← resolved_model (model_at d.model_id db)
  ok (k, d, m)
