-- ===== src/Monitor/Fleet.antt =====
-- app/services/fleet.py: the health of a workspace, from its deployments and alerts.
use astra_back.Prelude.{
  ℕ, ◌≡◌, ap, ◌⊎◌, inl, inr, refl, sym, ◌∙◌, arith, Bool, true, false, not, ◌&&◌, ◌||◌, Option,
  none, some, List, [], ◌∷◌, ltb, ◌==◌, keep_if, count_if, length, In, Bool-cases, if-by,
  both_false, if◌then◌else◌,
}
use mathlib.Core.Path.{subst}
use astra_back.Store.{
  RowId, warning, danger, AlertRow, pareto, Payload, experiment, opaque_json, DeploymentRow, Db,
}
use astra_back.Repositories.{get_cached_result}
use astra_back.Deployments.{is_paused}

pub data FleetStatus : Type 0 where
  fleet_danger fleet_warning healthy idle : FleetStatus

pub record FleetHealth : Type 0 where
  pub status : FleetStatus
  pub live_deployments : ℕ
  pub total_deployments : ℕ
  pub drifting_deployments : ℕ
  pub open_alerts : ℕ
  pub danger_alerts : ℕ
  pub warning_alerts : ℕ

-- `(pareto.get("budget") or {}).get("maxAccuracyDrop")`
abbrev budget_drop : Option Payload → Option ℕ
budget_drop none = none
budget_drop (some (experiment p)) = p.max_accuracy_drop
budget_drop (some (opaque_json n)) = none

abbrev model_tolerance : RowId → RowId → Db → Option ℕ
model_tolerance model_id user_id db = budget_drop (get_cached_result model_id pareto user_id db)

abbrev exceeds : ℕ → Option ℕ → Bool
exceeds drift none = false
exceeds drift (some tol) = ltb tol drift

abbrev pub is_live : DeploymentRow → Bool
is_live d = not (is_paused d.status)

abbrev pub is_drifting : RowId → Db → DeploymentRow → Bool
is_drifting user_id db d = exceeds d.accuracy_drift (model_tolerance d.model_id user_id db)

abbrev pub is_danger : AlertRow → Bool
is_danger a = elim a.level [ danger ↦ true | warning ↦ false ]

abbrev pub is_warning : AlertRow → Bool
is_warning a = elim a.level [ warning ↦ true | danger ↦ false ]

unfoldable pub worst : ℕ → ℕ → ℕ → ℕ → FleetStatus
worst dangers drifting warnings live =
    if ltb 0 dangers || ltb 0 drifting
    then fleet_danger
    else if ltb 0 warnings
    then fleet_warning
    else if ltb 0 live
    then healthy
    else idle

unfoldable pub workspace_fleet_health : RowId → Db → FleetHealth
unfolding worst
workspace_fleet_health user_id db =
    let deployments = keep_if (λ d. d.user_id == user_id) db.deployments in
    let alerts = keep_if (λ a. a.user_id == user_id) db.alerts in
    let live = keep_if is_live deployments in
    let drifting = count_if (is_drifting user_id db) live in
    record {
      status =
          worst (count_if is_danger alerts) drifting (count_if is_warning alerts) (length live);
      live_deployments = length live;
      total_deployments = length deployments;
      drifting_deployments = drifting;
      open_alerts = length alerts;
      danger_alerts = count_if is_danger alerts;
      warning_alerts = count_if is_warning alerts;
    }

module _ {A : Type 0} where
  -- Some item passes the test.
  abbrev pub Has : (A → Bool) → List A → Type 0
  Has p xs = (x : A) × In x xs × (p x ≡ true)

  count_if-keep_if :
      (p q : A → Bool) (xs : List A) → count_if q (keep_if p xs) ≡ count_if (λ x. p x && q x) xs
  count_if-keep_if p q [] = refl
  count_if-keep_if p q (x ∷ xs) = ground (arith, count_if-keep_if p q xs)

  length-keep_if : (p : A → Bool) (xs : List A) → length (keep_if p xs) ≡ count_if p xs
  length-keep_if p [] = refl
  length-keep_if p (x ∷ xs) = ground (arith, length-keep_if p xs)

  counted-Has : (p : A → Bool) (xs : List A) → ltb 0 (count_if p xs) ≡ true → Has p xs
  counted-Has p [] h = cc
  counted-Has p (x ∷ xs) h = elim (Bool-cases (p x)) [
    | inl e ↦ (x, inl refl, e)
    | inr e ↦ let (y, m, k) = counted-Has p xs (ground arith) in (y, inr m, k)
  ]

  uncounted : (p : A → Bool) (xs : List A) → ltb 0 (count_if p xs) ≡ false → ¬ Has p xs
  uncounted p [] h (y, m, k) = absurd m
  uncounted p (x ∷ xs) h (y, inl e, k) = let k' = subst (λ z. p z ≡ true) e k in ground arith
  uncounted p (x ∷ xs) h (y, inr m, k) = uncounted p xs (ground arith) (y, m, k)

-- The signals of a workspace.
module _ (user_id : RowId) (db : Db) where
  abbrev pub DangerSignal : Type 0
  DangerSignal =
      Has (λ a. (a.user_id == user_id) && is_danger a) db.alerts
      ⊎ Has (λ d. (d.user_id == user_id) && (is_live d && is_drifting user_id db d)) db.deployments

  abbrev pub WarningSignal : Type 0
  WarningSignal = Has (λ a. (a.user_id == user_id) && is_warning a) db.alerts

  abbrev pub LiveSignal : Type 0
  LiveSignal = Has (λ d. (d.user_id == user_id) && is_live d) db.deployments

  -- The signal that a status stands for, and no worse one.
  abbrev pub IsWorst : FleetStatus → Type 0
  IsWorst fleet_danger = DangerSignal
  IsWorst fleet_warning = (¬ DangerSignal) × WarningSignal
  IsWorst healthy = (¬ DangerSignal) × (¬ WarningSignal) × LiveSignal
  IsWorst idle = (¬ DangerSignal) × (¬ WarningSignal) × (¬ LiveSignal)

  worst-IsWorst :
      (dangers drifting warnings lives : ℕ)
      → dangers ≡ count_if (λ a. (a.user_id == user_id) && is_danger a) db.alerts
      → drifting
        ≡ count_if
            (λ d. (d.user_id == user_id) && (is_live d && is_drifting user_id db d))
            db.deployments
      → warnings ≡ count_if (λ a. (a.user_id == user_id) && is_warning a) db.alerts
      → lives ≡ count_if (λ d. (d.user_id == user_id) && is_live d) db.deployments
      → IsWorst (worst dangers drifting warnings lives)
  unfolding worst
  worst-IsWorst dangers drifting warnings lives d f w l =
      if-by IsWorst (ltb 0 dangers || ltb 0 drifting) fleet_danger _
        (λ some_danger. elim (Bool-cases (ltb 0 dangers)) [
          | inl e ↦ inl (counted-Has _ db.alerts (ap (ltb 0) (sym d) ∙ e))
          | inr e ↦ inr (counted-Has _ db.deployments (ap (ltb 0) (sym f) ∙ ground arith))
        ])
        (λ no_danger.
          let (e, e') = both_false _ no_danger in
          let calm : ¬ DangerSignal = λ m. elim m [
            | inl m ↦ uncounted _ db.alerts (ap (ltb 0) (sym d) ∙ e) m
            | inr m ↦ uncounted _ db.deployments (ap (ltb 0) (sym f) ∙ e') m
          ] in
          if-by IsWorst (ltb 0 warnings) fleet_warning _
            (λ e. (calm, counted-Has _ db.alerts (ap (ltb 0) (sym w) ∙ e)))
            (λ no_warning.
              let quiet : ¬ WarningSignal =
                uncounted _ db.alerts (ap (ltb 0) (sym w) ∙ no_warning) in
              if-by IsWorst (ltb 0 lives) healthy idle
                (λ e. (calm, quiet, counted-Has _ db.deployments (ap (ltb 0) (sym l) ∙ e)))
                (λ e. (calm, quiet, uncounted _ db.deployments (ap (ltb 0) (sym l) ∙ e)))))

-- The status of a workspace is its worst signal: danger means that an alert of the user is at the
-- level danger or that a live deployment of the user drifts past the tolerance of its model;
-- warning means that neither holds and that an alert is at the level warning; healthy means that
-- no alert is at either level, none drifts, and one is live; idle means that none of these holds.
pub workspace_fleet_health-IsWorst :
    (user_id : RowId) (db : Db) → IsWorst user_id db (workspace_fleet_health user_id db).status
unfolding workspace_fleet_health
workspace_fleet_health-IsWorst user_id db =
    let mine : DeploymentRow → Bool = λ d. d.user_id == user_id in
    let drifting = is_drifting user_id db in
    worst-IsWorst user_id db _ _ _ _ (count_if-keep_if _ is_danger db.alerts)
      (count_if-keep_if is_live drifting (keep_if mine db.deployments)
        ∙ count_if-keep_if mine (λ d. is_live d && drifting d) db.deployments)
      (count_if-keep_if _ is_warning db.alerts)
      (length-keep_if is_live (keep_if mine db.deployments)
        ∙ count_if-keep_if mine is_live db.deployments)
