-- ===== src/Repositories/Queries.antt =====
-- What `owned_model` gives, before and after an update of the rows.
use astra_back.Prelude.{◌≡◌, true, some, List, [], ◌∷◌, ◌==◌, find_if, find_if-passes, arith, sym}
use mathlib.Core.Path.{subst}
use astra_back.Store.{RowId, ModelRow, Db, update}
use astra_back.Http.{ok}
use astra_back.Repositories.{model_at, get_model, owned_model}

-- A model that its owner is handed stands at its id.
pub owned_model-model_at :
    (model_id user_id : RowId) (db : Db) (m : ModelRow)
    → owned_model model_id user_id db ≡ ok m
    → model_at model_id db ≡ some m
unfolding owned_model get_model
owned_model-model_at model_id user_id db m h = ground arith

-- It has that key,
pub owned_model-key :
    (model_id user_id : RowId) (db : Db) (m : ModelRow)
    → owned_model model_id user_id db ≡ ok m
    → m.id ≡ model_id
owned_model-key model_id user_id db m h =
    let found = owned_model-model_at model_id user_id db m h in
    let same = find_if-passes (λ r. r.id == model_id) m db.models found in ground arith

-- is found by its own key,
pub found-at_its_id :
    (model_id user_id : RowId) (db : Db) (m : ModelRow)
    → owned_model model_id user_id db ≡ ok m
    → model_at m.id db ≡ some m
found-at_its_id model_id user_id db m h =
    subst (λ i. model_at i db ≡ some m) (sym (owned_model-key model_id user_id db m h))
      (owned_model-model_at model_id user_id db m h)

-- and has that owner.
owned_model-owner :
    (model_id user_id : RowId) (db : Db) (m : ModelRow)
    → owned_model model_id user_id db ≡ ok m
    → (m.user_id == user_id) ≡ true
unfolding owned_model get_model
owned_model-owner model_id user_id db m h = ground arith

module _ (model_id user_id : RowId) (g : ModelRow → ModelRow)
    (key : (r : ModelRow) → (g r).id ≡ r.id) where
  pub find_if-update :
      (ms : List ModelRow) (m : ModelRow)
      → find_if (λ r. r.id == model_id) ms ≡ some m
      → find_if (λ r. r.id == model_id) (update (λ r. r.id == model_id) g ms) ≡ some (g m)
  find_if-update [] m h = cc
  find_if-update (x ∷ ms) m h = ground (arith, find_if-update ms m, key x)

  -- An update of the row leaves it with its owner.
  pub owned_model-update :
      ((r : ModelRow) → (g r).user_id ≡ r.user_id)
      → (db db' : Db) (m : ModelRow) → owned_model model_id user_id db ≡ ok m
      → db'.models ≡ update (λ r. r.id == model_id) g db.models
      → owned_model model_id user_id db' ≡ ok (g m)
  unfolding owned_model get_model
  owned_model-update owner db db' m h e =
      let found = find_if-update db.models m (owned_model-model_at model_id user_id db m h) in
      let mine = owned_model-owner model_id user_id db m h in
      let same = owner m in rw (e, found) ground arith
