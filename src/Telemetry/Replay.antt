-- ===== src/Telemetry/Replay.antt =====
-- A batch that is sent again, soon or late: the ledger answers, and once its entry is purged, the clamp
-- on the time stamps drops what had been inserted.
use astra_back.Prelude.{
  ℕ, ◌+◌, ◌*◌, ◌≤◌, ◌<◌, ◌≡◌, refl, ap, ◌∙◌, ◌≢◌, sym, suc, ◌++◌, List, [], ◌∷◌, Bool, Bool-cases,
  All, In-All, inl, inr, true, false, Option, none, some, leb, In, arith, same_id,
}
use mathlib.Core.Path.{subst}
use astra_back.Store.{
  RowId, Stamp, Clock, ModelRow, DeploymentRow, ProcessedBatchRow, InferenceEventRow, Db,
}
use astra_back.Http.{ok, batch_too_large, require, bind-keeps, ok-keeps}
use astra_back.Telemetry.Batch.{TelemetryBatch, total_items, Accepted}
use astra_back.Telemetry.Ingest.{
  valid_ts, past_clamp, future_clamp, accepted_of, window_tally, insert_batch, prior_of, counts_of,
  entry_of, ingest_batch, answer, Tally, tally, event_tally, event_row, commit,
}
use astra_back.Telemetry.Purge.{Retention, day}
use astra_back.Telemetry.Ledger.{Elapsed, remembered, expired, first-IsSettled, Elapsed-IsSettled}

-- An event that was in time at `since` is out of time once the entry of its batch may be purged.
stale :
    (clock : Clock) (days since now : ℕ) (ts : Stamp)
    → past_clamp + future_clamp ≤ days * day
    → valid_ts clock since ts ≡ true
    → since + days * day < now
    → valid_ts clock now ts ≡ false
unfolding valid_ts
stale clock days since now ts long valid late = ground arith

-- The rows of a loop have what each accepted item gives its row.
tally-All :
    {A R : Type 0} (P : R → Type 0) (valid : A → Bool) (row : A → R)
    → ((x : A) → valid x ≡ true → P (row x))
    → (xs : List A) (t : Tally R) → All P t.rows
    → All P (tally valid row xs t).rows
unfolding tally
tally-All P valid row good [] t h = h
tally-All P valid row good (x ∷ xs) t h = elim (Bool-cases (valid x)) [
  | inl e ↦ rw (e) (
      tally-All P valid row good xs (record t { rows = row x ∷ t.rows; accepted = suc t.accepted })
        (good x e, h))
  | inr e ↦ rw (e) (tally-All P valid row good xs (record t { dropped = suc t.dropped }) h)
]

-- What an ingestion puts in front of the events: rows whose time stamps are admitted, and none if the
-- ledger knows the batch at the commit.
record Inserted (clock : Clock) (now : ℕ) (batch : TelemetryBatch) (db db' : Db) : Type 0 where
  new : List InferenceEventRow
  parts : db'.events ≡ new ++ db.events
  timely : All (λ row. valid_ts clock now row.ts ≡ true) new
  once : (p : ProcessedBatchRow) → prior_of batch.batch_id db ≡ some p → new ≡ []

module _ (clock : Clock) (now : ℕ) (dep : DeploymentRow) (model : ModelRow) (batch : TelemetryBatch)
    (db : Db) where
  nothing : Inserted clock now batch db db
  nothing = record { new = []; parts = refl; timely = tt; once = λ p e. refl }

  commit-Inserted :
      (entry : Option ProcessedBatchRow)
      → prior_of batch.batch_id db ≡ entry
      → Inserted clock now batch db (commit clock now dep model batch entry db).1
  unfolding insert_batch
  commit-Inserted (some prior) e = nothing
  commit-Inserted none e = record {
    new = (event_tally clock now dep model batch).rows;
    parts = refl;
    timely =
        tally-All (λ row. valid_ts clock now row.ts ≡ true) (λ ev. valid_ts clock now ev.ts)
          (event_row dep model batch.client_id) (λ ev v. v) batch.events
          (record { rows = []; accepted = 0; dropped = 0 }) tt;
    once = λ p k. cc (e, k);
  }

  answer-Inserted :
      (entry : Option ProcessedBatchRow)
      → Inserted clock now batch db (answer clock now dep model batch entry db).1
  answer-Inserted (some prior) = nothing
  answer-Inserted none = commit-Inserted (prior_of batch.batch_id db) refl

  ingest-Inserted :
      (batch_max : ℕ) (seen : Db) (r : (Accepted × ℕ) × Db)
      → ingest_batch clock now dep model batch batch_max seen db ≡ ok r
      → Inserted clock now batch db r.1
  unfolding ingest_batch
  ingest-Inserted batch_max seen =
      bind-keeps (λ r. Inserted clock now batch db r.1)
        (require (leb (total_items batch) batch_max) batch_too_large)
        (λ u k.
          ok-keeps (λ r. Inserted clock now batch db r.1)
            (answer-Inserted (prior_of batch.batch_id seen)))

-- Rows that were timely then and rows that are timely once the entry may be purged differ.
apart :
    (clock : Clock) (days since now : ℕ) (new new' : List InferenceEventRow)
    → past_clamp + future_clamp ≤ days * day
    → since + days * day < now
    → All (λ row. valid_ts clock since row.ts ≡ true) new
    → All (λ row. valid_ts clock now row.ts ≡ true) new'
    → (row row' : InferenceEventRow) → In row new
    → In row' new'
    → row.ts ≢ row'.ts
apart clock days since now new new' long late then_all now_all row row' m m' same =
    let valid = In-All (λ r. valid_ts clock since r.ts ≡ true) row new m then_all in
    let valid' = In-All (λ r. valid_ts clock now r.ts ≡ true) row' new' m' now_all in
    let gone = stale clock days since now row.ts long valid late in
    let here : valid_ts clock now row.ts ≡ true =
      subst (λ ts. valid_ts clock now ts ≡ true) (sym same) valid' in
    cc

-- Let a batch with an id be ingested, on tables whose ledger does not know it, and later again, for
-- whichever deployment, by a request that read the ledger at whatever time: both put rows in front of
-- the table of events, and no row of the later ones has the time stamp of a row of the first, so that
-- no event is inserted twice. This holds however much time and whatever other ingestions and purges
-- lie between, if the ledger of batches is kept for at least as long as the window of admitted time
-- stamps, and if nothing but ingestions and purges writes the ledger.
pub never_inserted_twice :
    (clock : Clock) (s : Retention) (batch_max since now : ℕ) (i : RowId) (dep dep' : DeploymentRow)
    (model model' : ModelRow) (batch : TelemetryBatch) (counts counts' : Accepted × ℕ)
    (before after later seen final : Db)
    → past_clamp + future_clamp ≤ s.processed_batch_days * day
    → batch.batch_id ≡ some i
    → prior_of batch.batch_id before ≡ none
    → ingest_batch clock since dep model batch batch_max before before ≡ ok (counts, after)
    → Elapsed clock s batch_max since after now later
    → ingest_batch clock now dep' model' batch batch_max seen later ≡ ok (counts', final)
    → (new new' : List InferenceEventRow) × (after.events ≡ new ++ before.events)
      × (final.events ≡ new' ++ later.events)
      × ((row row' : InferenceEventRow) → In row new → In row' new' → row.ts ≢ row'.ts)
never_inserted_twice clock s batch_max since now i dep dep' model model' batch counts counts' before
      after later seen final long id new first run again =
    let a =
      ingest-Inserted clock since dep model batch before batch_max before (counts, after) first in
    let b =
      ingest-Inserted clock now dep' model' batch later batch_max seen (counts', final) again in
    (
      a.new,
      b.new,
      a.parts,
      b.parts,
      elim (Elapsed-IsSettled clock s batch_max i since
          (first-IsSettled clock s batch_max i since dep model batch before id new (counts, after)
            first)
          run) [
            | remembered p since_le found at ↦ λ row row' m m'.
                let empty = b.once p (ap (λ k. prior_of k later) id ∙ found) in
                absurd (subst (In row') empty m')
            | expired late ↦
                apart clock s.processed_batch_days since now a.new b.new long late a.timely b.timely
          ],
    )

-- What an ingestion with a key answers stands in the ledger afterwards.
recorded :
    (clock : Clock) (now : ℕ) (dep : DeploymentRow) (model : ModelRow) (batch : TelemetryBatch)
    (i : RowId) (db : Db) (entry : Option ProcessedBatchRow)
    → batch.batch_id ≡ some i
    → prior_of batch.batch_id db ≡ entry
    → let (r, db') = answer clock now dep model batch entry db in
      (p : ProcessedBatchRow) × (prior_of batch.batch_id db' ≡ some p) × (counts_of p ≡ r)
unfolding insert_batch
recorded clock now dep model batch i db (some prior) id e = (prior, e, refl)
recorded clock now dep model batch i db none id e = rw (e) (
  entry_of i dep.id (clock.iso now) (accepted_of clock now dep model batch)
      (window_tally clock now dep model batch).dropped,
  rw (id) (rw (same_id i) refl),
  refl,
)

-- If a batch with an id is ingested, ingesting it again at any later or earlier time on the tables
-- that result gives the same counts and changes nothing.
pub ingest_batch_retry :
    (clock : Clock) (now now' batch_max : ℕ) (dep dep' : DeploymentRow) (model model' : ModelRow)
    (batch : TelemetryBatch) (i : RowId) (db : Db) (r : (Accepted × ℕ) × Db)
    → batch.batch_id ≡ some i
    → ingest_batch clock now dep model batch batch_max db db ≡ ok r
    → ingest_batch clock now' dep' model' batch batch_max r.1 r.1 ≡ ok r
unfolding ingest_batch
ingest_batch_retry clock now now' batch_max dep dep' model model' batch i db r id =
    bind-keeps (λ r. ingest_batch clock now' dep' model' batch batch_max r.1 r.1 ≡ ok r)
      (require (leb (total_items batch) batch_max) batch_too_large)
      (λ u k.
        ok-keeps (λ r. ingest_batch clock now' dep' model' batch batch_max r.1 r.1 ≡ ok r)
          (let a = answer clock now dep model batch (prior_of batch.batch_id db) db in
            let (p, found, same) =
              recorded clock now dep model batch i db (prior_of batch.batch_id db) id refl in
            rw (k, found) (ap (λ c. ok (c, a.1)) same)))
      r
