-- ===== src/Repositories/Reconcile.antt =====
-- What the two reconcilers leave.
use astra_back.Prelude.{
  ◌≡◌, refl, ℕ, true, false, some, List, [], ◌∷◌, ◌==◌, any, All, In, inl, inr, any-In, keep_if-In,
  Bool-cases, keep_if, arith,
}
use astra_back.Store.{
  ModelRow, IngestionRunRow, deployed, Db, Clock, update, All-update, ingestion_failed,
}
use astra_back.Repositories.{
  needs_deploy_status, reconcile_deploy_status, is_orphaned, reap_run, or_orphaned, reap_all,
  reconcile_orphaned_runs,
}

healed :
    (ms : List ModelRow)
    → keep_if needs_deploy_status
        (update needs_deploy_status (λ m. record m { status = deployed }) ms)
      ≡ []
healed [] = refl
healed (m ∷ ms) = ground (arith, healed ms)

update_none :
    (ms : List ModelRow)
    → keep_if needs_deploy_status ms ≡ []
    → update needs_deploy_status (λ m. record m { status = deployed }) ms ≡ ms
update_none [] h = refl
update_none (m ∷ ms) h = ground (arith, update_none ms)

-- Reconciling the badges a second time flips no model and changes no row.
pub reconcile_deploy_status_twice :
    (db : Db)
    → reconcile_deploy_status (reconcile_deploy_status db).1 ≡ ([], (reconcile_deploy_status db).1)
unfolding reconcile_deploy_status
reconcile_deploy_status_twice db =
    rw
      (
        healed db.models,
        update_none (update needs_deploy_status (λ m. record m { status = deployed }) db.models)
            (healed db.models),
      )
      refl

module _ (clock : Clock) (now max_age_sec : ℕ) where
  abbrev pub orphans : Db → List IngestionRunRow
  orphans db = keep_if (is_orphaned clock now max_age_sec) db.ingestion_runs

  -- Every orphan of the tables is among the runs.
  abbrev AreListed : List IngestionRunRow → Db → Type 0
  AreListed runs db =
      All (λ r. is_orphaned clock now max_age_sec r ≡ true → any (λ x. x.id == r.id) runs ≡ true)
        db.ingestion_runs

  none_listed :
      (rows : List IngestionRunRow)
      → All (λ r. is_orphaned clock now max_age_sec r ≡ true → false ≡ true) rows
      → keep_if (is_orphaned clock now max_age_sec) rows ≡ []
  none_listed [] h = refl
  none_listed (r ∷ rows) h = elim (Bool-cases (is_orphaned clock now max_age_sec r)) [
    | inl stale ↦ let never = h.0 stale in cc
    | inr young ↦ rw (young) (none_listed rows h.1)
  ]

  reap_run-AreListed :
      (run : IngestionRunRow) (runs : List IngestionRunRow) (db : Db)
      → AreListed (run ∷ runs) db
      → AreListed runs (reap_run clock now max_age_sec run db)
  unfolding reap_run
  reap_run-AreListed run runs db h =
      All-update
        (λ r.
          is_orphaned clock now max_age_sec r ≡ true → any (λ x. x.id == r.id) (run ∷ runs) ≡ true)
        (λ r. is_orphaned clock now max_age_sec r ≡ true → any (λ x. x.id == r.id) runs ≡ true)
        (λ r. r.id == run.id)
        (λ r. record r {
          status = ingestion_failed;
          error = or_orphaned r.error;
          finished_at = some (clock.iso now);
        })
        (λ r step. ground arith) db.ingestion_runs h

  reap_all-clears :
      (runs : List IngestionRunRow) (db : Db)
      → AreListed runs db
      → orphans (reap_all clock now max_age_sec runs db).1 ≡ []
  unfolding reap_all
  reap_all-clears [] db h = none_listed db.ingestion_runs h
  reap_all-clears (run ∷ runs) db h =
      reap_all-clears runs (reap_run clock now max_age_sec run db)
        (reap_run-AreListed run runs db h)

  orphans-AreListed :
      (rows all_rows : List IngestionRunRow)
      → ((r : IngestionRunRow) → In r rows → In r all_rows)
      → All
          (λ r.
            is_orphaned clock now max_age_sec r ≡ true
            → any (λ x. x.id == r.id) (keep_if (is_orphaned clock now max_age_sec) all_rows) ≡ true)
          rows
  orphans-AreListed [] all_rows sub = tt
  orphans-AreListed (r ∷ rows) all_rows sub = (
    λ o.
        any-In (λ x. x.id == r.id) r (keep_if (is_orphaned clock now max_age_sec) all_rows)
          (keep_if-In (is_orphaned clock now max_age_sec) r all_rows (sub r (inl refl)) o)
          (ground arith),
    orphans-AreListed rows all_rows (λ x m. sub x (inr m)),
  )

  -- After the reconciler of orphaned runs no run is orphaned at the same time and age.
  pub reconcile_orphaned_runs_clears :
      (db : Db) → orphans (reconcile_orphaned_runs clock now max_age_sec db).1 ≡ []
  unfolding reconcile_orphaned_runs
  reconcile_orphaned_runs_clears db =
      reap_all-clears (orphans db) db
        (orphans-AreListed db.ingestion_runs db.ingestion_runs (λ r m. m))
