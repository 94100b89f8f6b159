-- ===== src/Lifecycle/Invariant.antt =====
-- The invariant of the model rows, and how the updates of a table keep it.
use astra_back.Prelude.{
  ◌≡◌, refl, Bool, true, false, not, ◌&&◌, ◌||◌, some, List, [], ◌∷◌, ◌==◌, find_if, any, All,
  is_some, arith, sym, Bool-cases, inl, inr, if◌then◌else◌,
}
use mathlib.Core.Path.{subst}
use astra_back.Store.{
  RowId, ModelRow, DeploymentRow, Db, update, delete_first, delete_where, All-update,
}
use astra_back.Repositories.{is_busy, is_status_deployed}
use astra_back.Deployments.{has_deployment}

-- Of one model: it names a run exactly while it is analyzing or optimizing, it has no artifact then,
-- its status says "deployed" exactly if its flag does, and the flag exactly if it has a deployment.
pub record IsConsistent (deps : List DeploymentRow) (m : ModelRow) : Type 0 where
  pub runs : is_busy m.status ≡ is_some m.analysis_run_id
  pub unfinished : (is_busy m.status && is_some m.artifact_key) ≡ false
  pub badge : is_status_deployed m.status ≡ m.is_deployed
  pub backed : has_deployment m.id deps ≡ m.is_deployed

abbrev pub has_model : RowId → List ModelRow → Bool
has_model i ms = any (λ m. m.id == i) ms

-- No two rows have one primary key.
abbrev pub IsUnique : List ModelRow → Type 0
IsUnique [] = Unit
IsUnique (m ∷ ms) = (has_model m.id ms ≡ false) × IsUnique ms

pub record AreValid (deps : List DeploymentRow) (ms : List ModelRow) : Type 0 where
  pub unique : IsUnique ms
  pub rows : All (IsConsistent deps) ms

abbrev pub IsValidDb : Db → Type 0
IsValidDb db = AreValid db.deployments db.models

module _ (p : ModelRow → Bool) (f : ModelRow → ModelRow)
    (same : (m : ModelRow) → (f m).id ≡ m.id) where
  has_model-update : (i : RowId) (ms : List ModelRow) → has_model i (update p f ms) ≡ has_model i ms
  has_model-update i [] = refl
  has_model-update i (m ∷ ms) = ground (arith, has_model-update i ms, same m)

  pub IsUnique-update : (ms : List ModelRow) → IsUnique ms → IsUnique (update p f ms)
  IsUnique-update [] h = tt
  IsUnique-update (m ∷ ms) h =
      ground (arith, IsUnique-update ms h.1, has_model-update m.id ms, same m)

has_model-delete_where :
    (i k : RowId) (ms : List ModelRow)
    → has_model i ms ≡ false
    → has_model i (delete_where (λ m. m.id == k) ms) ≡ false
has_model-delete_where i k [] h = refl
has_model-delete_where i k (m ∷ ms) h = ground (arith, has_model-delete_where i k ms)

module _ (p : ModelRow → Bool) (f : ModelRow → ModelRow) (same : (m : ModelRow) → (f m).id ≡ m.id)
    (deps : List DeploymentRow)
    (step : (m : ModelRow) → IsConsistent deps m → p m ≡ true → IsConsistent deps (f m)) where
  -- An update of the rows that pass a test, which keeps each row consistent.
  pub AreValid-update : (ms : List ModelRow) → AreValid deps ms → AreValid deps (update p f ms)
  AreValid-update ms v = record {
    unique = IsUnique-update p f same ms v.unique;
    rows =
        All-update (IsConsistent deps) (IsConsistent deps) p f (λ m h. ground (arith, step m h)) ms
          v.rows;
  }

pub IsUnique-delete_where :
    (k : RowId) (ms : List ModelRow) → IsUnique ms → IsUnique (delete_where (λ m. m.id == k) ms)
IsUnique-delete_where k [] h = tt
IsUnique-delete_where k (m ∷ ms) h =
    ground (arith, IsUnique-delete_where k ms h.1, has_model-delete_where m.id k ms h.0)

module _ (P Q : ModelRow → Type 0) (i : RowId) (f : ModelRow → ModelRow)
    (others : (r : ModelRow) → P r → (r.id == i) ≡ false → Q r) where
  All-update_absent :
      (ms : List ModelRow)
      → has_model i ms ≡ false
      → All P ms
      → All Q (update (λ m. m.id == i) f ms)
  All-update_absent [] h a = tt
  All-update_absent (m ∷ ms) h a =
      ground (arith, others m a.0, All-update_absent ms (ground arith) a.1)

  -- An update of the row that a query by its key has found.
  pub All-update_found :
      (ms : List ModelRow) (found : ModelRow)
      → IsUnique ms
      → find_if (λ m. m.id == i) ms ≡ some found
      → (P found → Q (f found))
      → All P ms
      → All Q (update (λ m. m.id == i) f ms)
  All-update_found [] found u e step a = tt
  All-update_found (m ∷ ms) found u e step a = elim (Bool-cases (m.id == i)) [
    | inl here ↦
        let same : found ≡ m = ground arith in
        let absent : has_model i ms ≡ false = ground arith in
        (
          subst (λ b. Q (if b then f m else m)) (sym here)
              (subst (λ x. P x → Q (f x)) same step a.0),
          All-update_absent ms absent a.1,
        )
    | inr there ↦ (
      subst (λ b. Q (if b then f m else m)) (sym there) (others m a.0 there),
      All-update_found ms found u.1 (ground arith) step a.1,
    )
  ]

-- The same for the invariant, where the deployments may have changed as well.
module _ (deps deps' : List DeploymentRow) (i : RowId) (f : ModelRow → ModelRow)
    (same : (m : ModelRow) → (f m).id ≡ m.id)
    (others : (r : ModelRow)
      → IsConsistent deps r
      → (r.id == i) ≡ false
      → IsConsistent deps' r) where
  pub AreValid-update_found :
      (ms : List ModelRow) (found : ModelRow)
      → AreValid deps ms
      → find_if (λ m. m.id == i) ms ≡ some found
      → (IsConsistent deps found → IsConsistent deps' (f found))
      → AreValid deps' (update (λ m. m.id == i) f ms)
  AreValid-update_found ms found v e step = record {
    unique = IsUnique-update (λ m. m.id == i) f same ms v.unique;
    rows =
        All-update_found (IsConsistent deps) (IsConsistent deps') i f others ms found v.unique e
          step v.rows;
  }

-- The deployments of a model, when one is added, changed or deleted.
module _ (p : DeploymentRow → Bool) (f : DeploymentRow → DeploymentRow)
    (same : (d : DeploymentRow) → (f d).model_id ≡ d.model_id) where
  pub has_deployment-update :
      (i : RowId) (ds : List DeploymentRow) → has_deployment i (update p f ds) ≡ has_deployment i ds
  has_deployment-update i [] = refl
  has_deployment-update i (d ∷ ds) = ground (arith, has_deployment-update i ds, same d)

pub has_deployment-delete_first :
    (p : DeploymentRow → Bool) (i : RowId) (d : DeploymentRow) (ds : List DeploymentRow)
    → find_if p ds ≡ some d
    → has_deployment i ds ≡ ((d.model_id == i) || has_deployment i (delete_first p ds))
has_deployment-delete_first p i d [] h = cc
has_deployment-delete_first p i d (x ∷ ds) h = ground (arith, has_deployment-delete_first p i d ds)

pub has_deployment-delete_where :
    (i k : RowId) (ds : List DeploymentRow)
    → has_deployment i (delete_where (λ d. d.model_id == k) ds)
      ≡ (not (i == k) && has_deployment i ds)
has_deployment-delete_where i k [] = ground arith
has_deployment-delete_where i k (d ∷ ds) = ground (arith, has_deployment-delete_where i k ds)
