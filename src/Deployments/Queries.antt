-- ===== src/Deployments/Queries.antt =====
-- What `owned_deployment` gives.
use astra_back.Prelude.{◌≡◌, some, ◌==◌, find_if-passes, arith, sym}
use mathlib.Core.Path.{subst}
use astra_back.Store.{RowId, DeploymentRow, Db}
use astra_back.Http.{ok}
use astra_back.Deployments.{deployment_at, owned_deployment}

-- A deployment that its owner is handed stands at its id,
pub owned_deployment-deployment_at :
    (deployment_id user_id : RowId) (db : Db) (d : DeploymentRow)
    → owned_deployment deployment_id user_id db ≡ ok d
    → deployment_at deployment_id db ≡ some d
unfolding owned_deployment
owned_deployment-deployment_at deployment_id user_id db d h = ground arith

-- it has that key,
pub owned_deployment-key :
    (deployment_id user_id : RowId) (db : Db) (d : DeploymentRow)
    → owned_deployment deployment_id user_id db ≡ ok d
    → d.id ≡ deployment_id
owned_deployment-key deployment_id user_id db d h =
    let found = owned_deployment-deployment_at deployment_id user_id db d h in
    let same = find_if-passes (λ r. r.id == deployment_id) d db.deployments found in ground arith

-- and is found by it.
pub deployment-at_its_id :
    (deployment_id user_id : RowId) (db : Db) (d : DeploymentRow)
    → owned_deployment deployment_id user_id db ≡ ok d
    → deployment_at d.id db ≡ some d
deployment-at_its_id deployment_id user_id db d h =
    subst (λ i. deployment_at i db ≡ some d)
      (sym (owned_deployment-key deployment_id user_id db d h))
      (owned_deployment-deployment_at deployment_id user_id db d h)
