-- ===== src/Telemetry/Counts.antt =====
-- What an accepted batch adds, item by item, and what its answer says.
use mathlib.Core.List.{reverse_aux}
use astra_back.Prelude.{
  ℕ, suc, ◌+◌, ◌≡◌, refl, ap, Bool, true, Option, none, some, List, [], ◌∷◌, ◌++◌, leb, keep_if,
  map, reverse, length, length-append, arith, Bool-cases, inl, inr,
}
use astra_back.Store.{Clock, ModelRow, DeploymentRow, ProcessedBatchRow, Db}
use astra_back.Http.{ok, batch_too_large, require, bind-keeps, ok-keeps}
use astra_back.Telemetry.Batch.{ClientEvent, TelemetryBatch, total_items, Accepted}
use astra_back.Telemetry.Ingest.{
  event_row, snapshot_row, window_row, Tally, tally, valid_ts, event_tally, snapshot_tally,
  window_tally, accepted_of, insert_batch, prior_of, ingest_batch, answer,
}

module _ {A R : Type 0} (valid : A → Bool) (row : A → R) where
  -- Every item is accepted or dropped.
  tally-total :
      (xs : List A) (t : Tally R)
      → (tally valid row xs t).accepted + (tally valid row xs t).dropped
        ≡ t.accepted + t.dropped + length xs
  unfolding tally
  tally-total [] t = omega arith
  tally-total (x ∷ xs) t = ground (
    arith,
    tally-total xs (record t { rows = row x ∷ t.rows; accepted = suc t.accepted }),
    tally-total xs (record t { dropped = suc t.dropped }),
  )

  -- There is a row for each accepted item.
  tally-length :
      (xs : List A) (t : Tally R)
      → length (tally valid row xs t).rows + t.accepted
        ≡ length t.rows + (tally valid row xs t).accepted
  unfolding tally
  tally-length [] t = refl
  tally-length (x ∷ xs) t = ground (
    arith,
    tally-length xs (record t { rows = row x ∷ t.rows; accepted = suc t.accepted }),
    tally-length xs (record t { dropped = suc t.dropped }),
  )

  -- The rows are those of the accepted items, the newest first.
  tally-rows :
      (xs : List A) (t : Tally R)
      → (tally valid row xs t).rows ≡ reverse_aux (map row (keep_if valid xs)) t.rows
  unfolding tally
  tally-rows [] t = refl
  tally-rows (x ∷ xs) t = elim (Bool-cases (valid x)) [
    | inl e ↦ rw (e) (tally-rows xs (record t { rows = row x ∷ t.rows; accepted = suc t.accepted }))
    | inr e ↦ rw (e) (tally-rows xs (record t { dropped = suc t.dropped }))
  ]

module _ (clock : Clock) (now : ℕ) (dep : DeploymentRow) (model : ModelRow)
    (batch : TelemetryBatch) where
  abbrev valid_event : ClientEvent → Bool
  valid_event ev = valid_ts clock now ev.ts

  -- The events that an ingestion inserts, when it finds that entry of the ledger.
  abbrev pub taken : Option ProcessedBatchRow → List ClientEvent
  taken none = keep_if valid_event batch.events
  taken (some prior) = []

  accepted_total :
      let a = accepted_of clock now dep model batch in
      a.events + a.snapshots + a.windows + (window_tally clock now dep model batch).dropped
      ≡ total_items batch
  accepted_total = omega (
    arith,
    tally-total valid_event (event_row dep model batch.client_id) batch.events
        (record { rows = []; accepted = 0; dropped = 0 }),
    tally-total (λ s. valid_ts clock now s.ts) (snapshot_row dep model batch.client_id)
        batch.snapshots
        (record {
          rows = [];
          accepted = 0;
          dropped = (event_tally clock now dep model batch).dropped;
        }),
    tally-total (λ w. valid_ts clock now w.window_start) (window_row dep model batch.client_id)
        batch.windows
        (record {
          rows = [];
          accepted = 0;
          dropped = (snapshot_tally clock now dep model batch).dropped;
        }),
  )

  -- One table grows by what its loop accepted.
  grown :
      {A R : Type 0} (valid : A → Bool) (row : A → R) (xs : List A) (d : ℕ) (old : List R)
      → let t = tally valid row xs (record { rows = []; accepted = 0; dropped = d }) in
        length (t.rows ++ old) ≡ t.accepted + length old
  grown valid row xs d old =
      let t = tally valid row xs (record { rows = []; accepted = 0; dropped = d }) in
      omega (
        arith,
        length-append t.rows old,
        tally-length valid row xs (record { rows = []; accepted = 0; dropped = d }),
      )

  insert_batch-lengths :
      (db : Db)
      → let db' = insert_batch clock now dep model batch db in
        let a = accepted_of clock now dep model batch in
        (length db'.events ≡ a.events + length db.events)
        × (length db'.snapshots ≡ a.snapshots + length db.snapshots)
        × (length db'.windows ≡ a.windows + length db.windows)
  unfolding insert_batch
  insert_batch-lengths db = (
    grown valid_event (event_row dep model batch.client_id) batch.events 0 db.events,
    grown (λ s. valid_ts clock now s.ts) (snapshot_row dep model batch.client_id) batch.snapshots
        (event_tally clock now dep model batch).dropped db.snapshots,
    grown (λ w. valid_ts clock now w.window_start) (window_row dep model batch.client_id)
        batch.windows (snapshot_tally clock now dep model batch).dropped db.windows,
  )

  -- A batch within the limit that the ledger does not know is ingested; the accepted and the
  -- dropped items are all of them, and the tables of events, snapshots and windows grow by exactly
  -- what is accepted.
  pub ingest_batch-accounts :
      (batch_max : ℕ) (seen db : Db)
      → leb (total_items batch) batch_max ≡ true
      → prior_of batch.batch_id seen ≡ none
      → prior_of batch.batch_id db ≡ none
      → (a : Accepted) × (dropped : ℕ) × (db' : Db) × (ingest_batch clock now dep model batch
            batch_max seen db
          ≡ ok ((a, dropped), db'))
        × (a.events + a.snapshots + a.windows + dropped ≡ total_items batch)
        × (length db'.events ≡ a.events + length db.events)
        × (length db'.snapshots ≡ a.snapshots + length db.snapshots)
        × (length db'.windows ≡ a.windows + length db.windows)
  unfolding ingest_batch
  ingest_batch-accounts batch_max seen db fits new new' =
      let (e, s, w) = insert_batch-lengths db in
      (
        accepted_of clock now dep model batch,
        (window_tally clock now dep model batch).dropped,
        insert_batch clock now dep model batch db,
        rw (fits, new) (rw (new') refl),
        accepted_total,
        e,
        s,
        w,
      )

  -- If an ingestion succeeds, the table of events is what it was with the rows of the events it
  -- takes in front, the newest first: those with an admitted time stamp if the ledger does not
  -- know the batch, and none if it does.
  pub ingest_batch-events :
      (batch_max : ℕ) (db : Db) (r : (Accepted × ℕ) × Db)
      → ingest_batch clock now dep model batch batch_max db db ≡ ok r
      → r.1.events
        ≡ reverse (map (event_row dep model batch.client_id) (taken (prior_of batch.batch_id db)))
          ++ db.events
  unfolding ingest_batch insert_batch
  ingest_batch-events batch_max db =
      bind-keeps
        (λ r.
          r.1.events
          ≡ reverse (map (event_row dep model batch.client_id) (taken (prior_of batch.batch_id db)))
            ++ db.events)
        (require (leb (total_items batch) batch_max) batch_too_large)
        (λ u k.
          ok-keeps
            (λ r.
              r.1.events
              ≡ reverse
                  (map (event_row dep model batch.client_id) (taken (prior_of batch.batch_id db)))
                ++ db.events)
            (by_entry (prior_of batch.batch_id db) refl))
    where
      by_entry :
          (p : Option ProcessedBatchRow)
          → prior_of batch.batch_id db ≡ p
          → (answer clock now dep model batch p db).1.events
            ≡ reverse (map (event_row dep model batch.client_id) (taken p)) ++ db.events
      by_entry (some prior) e = refl
      by_entry none e = rw (e) (
          ap (λ rows. rows ++ db.events)
            (tally-rows valid_event (event_row dep model batch.client_id) batch.events
              (record { rows = []; accepted = 0; dropped = 0 })))
