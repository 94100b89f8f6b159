-- ===== src/Deployments/Access.antt =====
-- Who gets through the gate of the SDK's requests.
use astra_back.Prelude.{
  sym, ◌∙◌, text_eq_refl, same_id, ◌≡◌, ◌≢◌, refl, ap, Bool, true, false, Option, some, none, List,
  [], ◌∷◌, ◌==◌, find_if, find_if-In, find_if-passes, arith, Text, text_eq, text_eq_iff, In, inl,
}
use astra_back.Store.{RowId, Stamp, paused, ModelRow, DeploymentRow, ApiKeyRow, Db, update}
use astra_back.Http.{ok, require, require-holds, not_servable, bind-keeps, ok-keeps}
use astra_back.Repositories.{model_at, owned_model}
use astra_back.ApiKeys.{
  Fresh, issue_key, new_key, resolve_key, is_live_key, revoke_deployment_keys, revoke_keys,
  plaintext_of,
}
use astra_back.Repositories.Queries.{find_if-update, found-at_its_id}
use astra_back.ApiKeys.Rotation.{resolve-revoke_keys}
use astra_back.Deployments.Queries.{owned_deployment-key}
use astra_back.Deployments.{
  add_deployment, initial_status, update_deployment_at, CreateRequest, is_executable, has_text,
  is_paused, deployment_at, new_deployment, mark_deployed, create_deployment, pause_deployment,
  delete_deployment, owned_deployment, drop_deployment, resolve,
}

-- The token of a request is a text with the hash that the key row holds.
abbrev pub IsKeyOf : (Text → Text) → Option Text → ApiKeyRow → Type 0
IsKeyOf hash token k = (t : Text) × (token ≡ some t) × (t ≢ []) × (k.key_hash ≡ hash t)

-- What the gate lets through: a stored key of this deployment that is not revoked and has the hash
-- of the token, its row, which is not paused, and its model, which has an artifact.
pub record IsAuthorized (hash : Text → Text) (deployment_id : RowId) (token : Option Text) (db : Db)
    (k : ApiKeyRow) (d : DeploymentRow) (m : ModelRow) : Type 0 where
  pub presented : IsKeyOf hash token k
  pub issued : In k db.api_keys
  pub names : (k.deployment_id == deployment_id) ≡ true
  pub valid : k.revoked ≡ false
  pub serves : is_paused d.status ≡ false
  pub stands : deployment_at deployment_id db ≡ some d
  pub models : model_at d.model_id db ≡ some m
  pub stored : has_text m.artifact_key ≡ true

resolve_key-found :
    (hash : Text → Text) (token : Option Text) (db : Db) (k : ApiKeyRow)
    → resolve_key hash token db ≡ some k
    → IsKeyOf hash token k × In k db.api_keys × (k.revoked ≡ false)
unfolding resolve_key
resolve_key-found hash none db k h = cc
resolve_key-found hash (some []) db k h = cc
resolve_key-found hash (some (c ∷ s)) db k h =
    let live_key = find_if-passes (is_live_key hash (c ∷ s)) k db.api_keys h in
    let same : text_eq k.key_hash (hash (c ∷ s)) ≡ true = ground arith in
    (
      (c ∷ s, refl, λ e. cc, (text_eq_iff k.key_hash (hash (c ∷ s))).0 same),
      find_if-In (is_live_key hash (c ∷ s)) k db.api_keys h,
      ground arith,
    )

resolve-resolve_key :
    (hash : Text → Text) (deployment_id : RowId) (token : Option Text) (db : Db) (k : ApiKeyRow)
    (d : DeploymentRow) (m : ModelRow)
    → resolve hash deployment_id token db ≡ ok (k, d, m)
    → resolve_key hash token db ≡ some k
unfolding resolve
resolve-resolve_key hash deployment_id token db k d m h = ground arith

-- A request that the gate lets through carries a token that is not empty, and the tables hold an
-- unrevoked key of that very deployment whose stored hash is the hash of the token; the deployment
-- stands and is not paused, and its model stands and has an artifact.
pub resolve_authorizes :
    (hash : Text → Text) (deployment_id : RowId) (token : Option Text) (db : Db) (k : ApiKeyRow)
    (d : DeploymentRow) (m : ModelRow)
    → resolve hash deployment_id token db ≡ ok (k, d, m)
    → IsAuthorized hash deployment_id token db k d m
unfolding resolve
resolve_authorizes hash deployment_id token db k d m h =
    let (key, listed, live_key) =
      resolve_key-found hash token db k (resolve-resolve_key hash deployment_id token db k d m h) in
    record {
      presented = key;
      issued = listed;
      names = ground arith;
      valid = live_key;
      serves = ground arith;
      stands = ground arith;
      models = ground arith;
      stored = ground arith;
    }

is_executable-has_text : (key : Option Text) → is_executable key ≡ true → has_text key ≡ true
is_executable-has_text none h = cc
is_executable-has_text (some []) h = cc
is_executable-has_text (some (c ∷ s)) h = refl

serves_at_first : (b : Bool) → is_paused (initial_status b) ≡ false
serves_at_first true = refl
serves_at_first false = refl

-- A request that has passed the key and the deployment, on rows that serve.
passes :
    (hash : Text → Text) (deployment_id : RowId) (token : Option Text) (db : Db) (k : ApiKeyRow)
    (d : DeploymentRow) (m : ModelRow)
    → resolve_key hash token db ≡ some k
    → IsAuthorized hash deployment_id token db k d m
    → resolve hash deployment_id token db ≡ ok (k, d, m)
unfolding resolve
passes hash deployment_id token db k d m h a =
    rw (h, a.stands, a.names) (rw (a.serves, a.models) (rw (a.stored) refl))

-- A request with the key of a new deployment, on the tables in which it was issued.
opens :
    (hash : Text → Text) (is_cloud : Text → Bool) (dep_id : RowId) (body : CreateRequest)
    (now : Stamp) (fresh : Fresh) (user_id : RowId) (db : Db) (m : ModelRow)
    → model_at m.id db ≡ some m
    → is_executable m.artifact_key ≡ true
    → resolve hash dep_id
        (some (plaintext_of fresh))
        (issue_key hash user_id dep_id fresh
          (add_deployment is_cloud dep_id user_id m body now db)).1
      ≡ ok (
        new_key hash user_id dep_id fresh,
        new_deployment dep_id user_id m body now,
        mark_deployed m,
      )
unfolding resolve_key issue_key
opens hash is_cloud dep_id body now fresh user_id db m found x =
    let marked = find_if-update m.id user_id mark_deployed (λ r. refl) db.models m found in
    let stored = is_executable-has_text m.artifact_key x in
    passes hash dep_id (some (plaintext_of fresh))
      (issue_key hash user_id dep_id fresh (add_deployment is_cloud dep_id user_id m body now db)).1
      (new_key hash user_id dep_id fresh) (new_deployment dep_id user_id m body now)
      (mark_deployed m) (rw (text_eq_refl (hash (plaintext_of fresh))) refl)
      (record {
        presented = (plaintext_of fresh, refl, λ e. cc, refl);
        issued = inl refl;
        names = same_id dep_id;
        valid = refl;
        serves = serves_at_first body.as_canary;
        stands = rw (same_id dep_id) refl;
        models = marked;
        stored = stored;
      })

-- If a deployment is created, the caller owns the model, and on the tables that result the key
-- handed out opens the new deployment, with its key row, its row and the model marked as deployed.
pub create_deployment_opens :
    (hash : Text → Text) (is_cloud : Text → Bool) (dep_id : RowId) (body : CreateRequest)
    (now : Stamp) (fresh : Fresh) (model_id user_id : RowId) (db : Db) (r : Text × Db)
    → create_deployment hash is_cloud dep_id body now fresh model_id user_id db ≡ ok r
    → (m : ModelRow) × (owned_model model_id user_id db ≡ ok m)
      × (resolve hash dep_id (some r.0) r.1
          ≡ ok (
            new_key hash user_id dep_id fresh,
            new_deployment dep_id user_id m body now,
            mark_deployed m,
          ))
unfolding create_deployment issue_key
create_deployment_opens hash is_cloud dep_id body now fresh model_id user_id db =
    let Opens : Text × Db → Type 0 = λ r.
      (m : ModelRow) × (owned_model model_id user_id db ≡ ok m)
      × (resolve hash dep_id (some r.0) r.1
          ≡ ok (
            new_key hash user_id dep_id fresh,
            new_deployment dep_id user_id m body now,
            mark_deployed m,
          )) in
    bind-keeps Opens (owned_model model_id user_id db) (λ m e.
      bind-keeps Opens (require (is_executable m.artifact_key) not_servable) (λ t x.
        ok-keeps Opens (
          m,
          e,
          opens hash is_cloud dep_id body now fresh user_id db m
              (found-at_its_id model_id user_id db m e)
              (require-holds (is_executable m.artifact_key) not_servable x),
        )))

find-paused :
    (i : RowId) (d : DeploymentRow) (ds : List DeploymentRow)
    → find_if (λ r. r.id == i) (update (λ r. r.id == i) (λ r. record r { status = paused }) ds)
      ≡ some d
    → is_paused d.status ≡ true
find-paused i d [] h = cc
find-paused i d (x ∷ ds) h = ground (arith, find-paused i d ds)

-- After a deployment is paused, no token opens it.
pub pause_deployment_closes :
    (hash : Text → Text) (deployment_id user_id : RowId) (token : Option Text) (db db' : Db)
    (k : ApiKeyRow) (d : DeploymentRow) (m : ModelRow)
    → pause_deployment deployment_id user_id db ≡ ok db'
    → resolve hash deployment_id token db' ≢ ok (k, d, m)
unfolding pause_deployment
pause_deployment_closes hash deployment_id user_id token db db' k d m =
    bind-keeps (λ after. resolve hash deployment_id token after ≢ ok (k, d, m))
      (owned_deployment deployment_id user_id db)
      (λ found e.
        ok-keeps (λ after. resolve hash deployment_id token after ≢ ok (k, d, m))
          (λ through.
            let a =
              resolve_authorizes hash deployment_id token
                (update_deployment_at deployment_id (λ r. record r { status = paused }) db) k d m
                through in
            let stopped = find-paused deployment_id d db.deployments a.stands in
            ground (arith, a.serves)))
      db'

-- No key of a deployment resolves in tables that have its keys revoked.
revoked-closes :
    (hash : Text → Text) (deployment_id : RowId) (token : Option Text) (keys : List ApiKeyRow)
    (db : Db) (k : ApiKeyRow)
    → db.api_keys ≡ revoke_keys deployment_id keys
    → resolve_key hash token db ≡ some k
    → (k.deployment_id == deployment_id) ≡ false
unfolding resolve_key
revoked-closes hash deployment_id none keys db k e h = cc
revoked-closes hash deployment_id (some []) keys db k e h = cc
revoked-closes hash deployment_id (some (c ∷ s)) keys db k e h =
    resolve-revoke_keys hash deployment_id (c ∷ s) k keys
      (ap (find_if (is_live_key hash (c ∷ s))) (sym e) ∙ h)

drop_deployment-keys :
    (d : DeploymentRow) (db : Db) → (drop_deployment d db).api_keys ≡ revoke_keys d.id db.api_keys
unfolding revoke_deployment_keys
drop_deployment-keys d db = ground arith

-- After a deployment is deleted, no token opens it.
pub delete_deployment_closes :
    (hash : Text → Text) (deployment_id user_id : RowId) (token : Option Text) (db db' : Db)
    (k : ApiKeyRow) (d : DeploymentRow) (m : ModelRow)
    → delete_deployment deployment_id user_id db ≡ ok db'
    → resolve hash deployment_id token db' ≢ ok (k, d, m)
unfolding delete_deployment
delete_deployment_closes hash deployment_id user_id token db db' k d m =
    bind-keeps (λ after. resolve hash deployment_id token after ≢ ok (k, d, m))
      (owned_deployment deployment_id user_id db)
      (λ found e.
        ok-keeps (λ after. resolve hash deployment_id token after ≢ ok (k, d, m))
          (λ through.
            let after = drop_deployment found db in
            let a = resolve_authorizes hash deployment_id token after k d m through in
            let key = owned_deployment-key deployment_id user_id db found e in
            let keys = drop_deployment-keys found db ∙ ap (λ i. revoke_keys i db.api_keys) key in
            let other =
              revoked-closes hash deployment_id token db.api_keys after k keys
                (resolve-resolve_key hash deployment_id token after k d m through) in
            ground (arith, a.names)))
      db'
