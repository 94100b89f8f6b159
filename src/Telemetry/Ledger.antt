-- ===== src/Telemetry/Ledger.antt =====
-- The ledger of batches while time passes, batches come in and the purge runs.
use astra_back.Prelude.{
  ℕ, ◌+◌, ◌*◌, ◌-◌, ◌≤◌, ◌<◌, ◌≡◌, ◌⊎◌, inl, inr, refl, ap, sym, ◌∙◌, Bool, true, Option, none,
  some, List, [], ◌∷◌, leb, ◌==◌, text_ltb, arith, Bool-cases, same_id,
}
use astra_back.Store.{
  RowId, Stamp, Clock, ModelRow, DeploymentRow, ProcessedBatchRow, Db, delete_where,
}
use astra_back.Http.{ok, batch_too_large, require, bind-keeps, ok-keeps}
use astra_back.Telemetry.Batch.{TelemetryBatch, total_items, Accepted}
use astra_back.Telemetry.Ingest.{
  accepted_of, window_tally, insert_batch, prior_of, entry_of, ingest_batch, batch_at, add_record,
  answer, commit,
}
use astra_back.Telemetry.Purge.{Retention, day, cutoff, purge_expired}

-- What may happen between two deliveries: time passes, a batch is ingested (by a request that may
-- have read the ledger earlier), a purge runs, or an operation that leaves the ledger alone.
pub data Elapse (clock : Clock) (s : Retention) (batch_max now : ℕ) (db : Db)
    : ℕ → Db → Type 0 where
  waited : (dt : ℕ) → Elapse clock s batch_max now db (now + dt) db
  ingested :
      (dep : DeploymentRow) (model : ModelRow) (batch : TelemetryBatch) (seen : Db)
      (counts : Accepted × ℕ) (db' : Db)
      → ingest_batch clock now dep model batch batch_max seen db ≡ ok (counts, db')
      → Elapse clock s batch_max now db now db'
  purged : Elapse clock s batch_max now db now (purge_expired s clock now db)
  elsewhere : (db' : Db) → db'.batches ≡ db.batches → Elapse clock s batch_max now db now db'

pub data Elapsed (clock : Clock) (s : Retention) (batch_max now : ℕ) (db : Db)
    : ℕ → Db → Type 0 where
  here : Elapsed clock s batch_max now db now db
  next :
      {t u : ℕ} {d e : Db}
      → Elapsed clock s batch_max now db t d
      → Elapse clock s batch_max t d u e
      → Elapsed clock s batch_max now db u e

-- The ledger after an ingestion by batch `j`: an entry in front, or none.
find_if-delete_where :
    (i : RowId) (late : ProcessedBatchRow → Bool) (p : ProcessedBatchRow)
    (rows : List ProcessedBatchRow)
    → batch_at i rows ≡ some p
    → (batch_at i (delete_where late rows) ≡ some p) ⊎ (late p ≡ true)
find_if-delete_where i late p [] h = cc
find_if-delete_where i late p (r ∷ rows) h = ground (arith, find_if-delete_where i late p rows)

module _ (clock : Clock) (s : Retention) (batch_max : ℕ) (i : RowId) (since : ℕ) where
  -- The entry of a batch that came in at `since` is there, or was purged in due time.
  pub data IsSettled (now : ℕ) (db : Db) : Type 0 where
    remembered :
        (p : ProcessedBatchRow)
        → since ≤ now
        → batch_at i db.batches ≡ some p
        → p.received_at ≡ clock.iso since
        → IsSettled now db
    expired : since + s.processed_batch_days * day < now → IsSettled now db

  kept_by_record :
      (b : Option RowId) (dep_id : RowId) (at : Stamp) (a : Accepted) (dropped : ℕ) (db : Db)
      (p : ProcessedBatchRow)
      → batch_at i db.batches ≡ some p
      → prior_of b db ≡ none
      → batch_at i (add_record b dep_id at a dropped db.batches) ≡ some p
  kept_by_record none dep_id at a dropped db p h k = h
  kept_by_record (some j) dep_id at a dropped db p h k = elim (Bool-cases (j == i)) [
    | inl same ↦
        let e : j ≡ i = ground arith in
        let missing = ap (λ n. batch_at n db.batches) (sym e) ∙ k in cc
    | inr other ↦ rw (other) h
  ]

  module _ (now : ℕ) (dep : DeploymentRow) (model : ModelRow) (batch : TelemetryBatch) (db : Db)
      (v : IsSettled now db) where
    insert-IsSettled :
        prior_of batch.batch_id db ≡ none
        → IsSettled now (insert_batch clock now dep model batch db)
    unfolding insert_batch
    insert-IsSettled new = elim v [
      | expired late ↦ expired late
      | remembered p since_le found at ↦
          remembered p since_le
            (kept_by_record batch.batch_id dep.id (clock.iso now)
              (accepted_of clock now dep model batch)
              (window_tally clock now dep model batch).dropped db p found new)
            at
    ]

    commit-IsSettled :
        (entry : Option ProcessedBatchRow)
        → prior_of batch.batch_id db ≡ entry
        → IsSettled now (commit clock now dep model batch entry db).1
    commit-IsSettled none e = insert-IsSettled e
    commit-IsSettled (some prior) e = v

    answer-IsSettled :
        (entry : Option ProcessedBatchRow)
        → IsSettled now (answer clock now dep model batch entry db).1
    answer-IsSettled none = commit-IsSettled (prior_of batch.batch_id db) refl
    answer-IsSettled (some prior) = v

    ingest-IsSettled :
        (seen : Db) (r : (Accepted × ℕ) × Db)
        → ingest_batch clock now dep model batch batch_max seen db ≡ ok r
        → IsSettled now r.1
    unfolding ingest_batch
    ingest-IsSettled seen =
        bind-keeps (λ r. IsSettled now r.1)
          (require (leb (total_items batch) batch_max) batch_too_large)
          (λ u k.
            ok-keeps (λ r. IsSettled now r.1) (answer-IsSettled (prior_of batch.batch_id seen)))

  -- An entry that the purge deletes has passed its time.
  due :
      (now : ℕ) (p : ProcessedBatchRow)
      → p.received_at ≡ clock.iso since
      → text_ltb p.received_at (cutoff clock now s.processed_batch_days) ≡ true
      → since + s.processed_batch_days * day < now
  due now p at late =
      let before =
        sym (clock.iso_order since (now - s.processed_batch_days * day))
        ∙ ap (λ stamp. text_ltb stamp (cutoff clock now s.processed_batch_days)) (sym at)
        ∙ late in
      ground arith

  purge-IsSettled :
      (now : ℕ) (db : Db) → IsSettled now db → IsSettled now (purge_expired s clock now db)
  unfolding purge_expired
  purge-IsSettled now db (expired late) = expired late
  purge-IsSettled now db (remembered p since_le found at) = elim (Bool-cases s.enabled) [
    | inr off ↦ rw (off) (remembered p since_le found at)
    | inl on ↦
        rw (on)
          (elim (find_if-delete_where i
            (λ r. text_ltb r.received_at (cutoff clock now s.processed_batch_days)) p db.batches
            found) [
              | inl there ↦ remembered p since_le there at
              | inr late ↦ expired (due now p at late)
            ])
  ]

  Elapse-IsSettled :
      {now t : ℕ} {db e : Db}
      → Elapse clock s batch_max now db t e
      → IsSettled now db
      → IsSettled t e
  Elapse-IsSettled (waited dt) (remembered p since_le found at) =
      remembered p (omega arith) found at
  Elapse-IsSettled (waited dt) (expired late) = expired (omega arith)
  Elapse-IsSettled {now} {t} {db} (ingested dep model batch seen counts db' h) v =
      ingest-IsSettled now dep model batch db v seen (counts, db') h
  Elapse-IsSettled {now} {t} {db} purged v = purge-IsSettled now db v
  Elapse-IsSettled (elsewhere db' same) (remembered p since_le found at) =
      remembered p since_le (ap (batch_at i) same ∙ found) at
  Elapse-IsSettled (elsewhere db' same) (expired late) = expired late

  pub Elapsed-IsSettled :
      {now : ℕ} {db : Db} {t : ℕ} {e : Db}
      → IsSettled now db
      → Elapsed clock s batch_max now db t e
      → IsSettled t e
  Elapsed-IsSettled v here = v
  Elapsed-IsSettled v (next r st) = Elapse-IsSettled st (Elapsed-IsSettled v r)

  -- An ingestion that finds no entry writes one.
  pub first-IsSettled :
      (dep : DeploymentRow) (model : ModelRow) (batch : TelemetryBatch) (db : Db)
      → batch.batch_id ≡ some i
      → prior_of batch.batch_id db ≡ none
      → (r : (Accepted × ℕ) × Db) → ingest_batch clock since dep model batch batch_max db db ≡ ok r
      → IsSettled since r.1
  unfolding ingest_batch insert_batch
  first-IsSettled dep model batch db id new =
      bind-keeps (λ r. IsSettled since r.1)
        (require (leb (total_items batch) batch_max) batch_too_large)
        (λ u k.
          ok-keeps (λ r. IsSettled since r.1)
            (rw (new) (
              rw (new) (
                rw (id) (
                  remembered
                    (entry_of i dep.id (clock.iso since) (accepted_of clock since dep model batch)
                      (window_tally clock since dep model batch).dropped)
                    (omega arith) (rw (same_id i) refl) refl)))))
