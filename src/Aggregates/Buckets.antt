-- ===== src/Aggregates/Buckets.antt =====
-- app/services/telemetry_agg.py: the buckets of a range, from the events and from the rollups.
use astra_back.Prelude.{
  ℕ, zero, suc, ◌+◌, ◌-◌, ◌*◌, ◌/◌, Bool, not, ◌&&◌, ◌||◌, Option, none, some, List, [], ◌∷◌, ◌++◌,
  ltb, ◌==◌, keep_if, any, Text, text_eq, text_ltb, codes, if◌then◌else◌,
}
use astra_back.Store.{RowId, Clock, TelemetryRollupRow, Db}
use astra_back.Aggregates.Events.{window_of, Sample, fetch_events, deployment_ids}

-- The start, the length and the number of the buckets.
pub record Bounds : Type 0 where
  pub start : ℕ
  pub size : ℕ
  pub n : ℕ

unfoldable pub bucket_bounds : Text → ℕ → Bounds
bucket_bounds range now =
    let (window, n) = window_of range in record { start = now - window; size = window / n; n = n }

-- `idx`, if it lies in the range: a time less than one bucket before the start is cut to 0, as `int` does.
unfoldable pub index_of : Bounds → ℕ → Option ℕ
index_of b t =
    if ltb t b.start
    then (if ltb (b.start - t) b.size && ltb 0 b.n then some 0 else none)
    else if ltb ((t - b.start) / b.size) b.n
    then some ((t - b.start) / b.size)
    else none

pub record Bucket : Type 0 where
  pub from : ℕ
  pub latencies : List ℕ
  pub count : ℕ

abbrev pub empty_buckets : ℕ → ℕ → ℕ → List Bucket
empty_buckets from size zero = []
empty_buckets from size (suc n) =
    record { from = from; latencies = []; count = 0 } ∷ empty_buckets (from + size) size n

abbrev pub counted : Sample → Bucket → Bucket
counted s b = record b {
  count = suc b.count;
  latencies = if s.success then b.latencies ++ s.latency ∷ [] else b.latencies;
}

abbrev pub add_at : ℕ → Sample → List Bucket → List Bucket
add_at i s [] = []
add_at zero s (b ∷ bs) = counted s b ∷ bs
add_at (suc i) s (b ∷ bs) = b ∷ add_at i s bs

abbrev pub add_if : Option ℕ → Sample → List Bucket → List Bucket
add_if none s bs = bs
add_if (some i) s bs = add_at i s bs

unfoldable pub fill : Bounds → List Sample → List Bucket → List Bucket
fill b [] bs = bs
fill b (s ∷ ss) bs = fill b ss (add_if (index_of b s.at) s bs)

unfoldable pub bucket_raw : Clock → RowId → Text → ℕ → Db → List Bucket
unfolding fill
bucket_raw clock model_id range now db =
    let b = bucket_bounds range now in
    fill b (fetch_events clock model_id b.start (b.start + b.size * b.n) db)
      (empty_buckets b.start b.size b.n)

unfoldable pub use_rollups : Text → Bool
use_rollups range = text_eq range (codes "7d") || text_eq range (codes "30d")

-- A bucket of rollups: percentiles weighted by the counts.
pub record Weighted : Type 0 where
  pub start_of : ℕ
  pub total_count : ℕ
  pub total_errors : ℕ
  pub wp50 : ℕ
  pub wp95 : ℕ
  pub wp99 : ℕ

abbrev empty_weighted : ℕ → ℕ → ℕ → List Weighted
empty_weighted from size zero = []
empty_weighted from size (suc n) =
    record { start_of = from; total_count = 0; total_errors = 0; wp50 = 0; wp95 = 0; wp99 = 0 }
    ∷ empty_weighted (from + size) size n

abbrev weighted : TelemetryRollupRow → Weighted → Weighted
weighted r a = record a {
  total_count = a.total_count + r.count;
  total_errors = a.total_errors + r.errors;
  wp50 = a.wp50 + r.p50 * r.count;
  wp95 = a.wp95 + r.p95 * r.count;
  wp99 = a.wp99 + r.p99 * r.count;
}

abbrev weigh_at : ℕ → TelemetryRollupRow → List Weighted → List Weighted
weigh_at i r [] = []
weigh_at zero r (a ∷ as') = weighted r a ∷ as'
weigh_at (suc i) r (a ∷ as') = a ∷ weigh_at i r as'

abbrev weigh_if : Option ℕ → TelemetryRollupRow → List Weighted → List Weighted
weigh_if none r as' = as'
weigh_if (some i) r as' = weigh_at i r as'

abbrev index_if : Bounds → Option ℕ → Option ℕ
index_if b none = none
index_if b (some t) = index_of b t

abbrev weigh_all : Clock → Bounds → List TelemetryRollupRow → List Weighted → List Weighted
weigh_all clock b [] as' = as'
weigh_all clock b (r ∷ rs) as' =
    weigh_all clock b rs (weigh_if (index_if b (clock.parse r.bucket_ts)) r as')

abbrev rows_in : Clock → Bounds → List RowId → List TelemetryRollupRow → List TelemetryRollupRow
rows_in clock b ids rows =
    keep_if
      (λ r.
        any (λ i. i == r.deployment_id) ids
        && not (text_ltb r.bucket_ts (clock.iso b.start))
        && text_ltb r.bucket_ts (clock.iso (b.start + b.size * b.n)))
      rows

abbrev none_if_empty : Clock → Bounds → List TelemetryRollupRow → Option (List Weighted)
none_if_empty clock b [] = none
none_if_empty clock b (r ∷ rs) =
    some (weigh_all clock b (r ∷ rs) (empty_weighted b.start b.size b.n))

unfoldable pub bucket_rollups : Clock → RowId → Text → ℕ → Db → Option (List Weighted)
bucket_rollups clock model_id range now db =
    let b = bucket_bounds range now in
    none_if_empty clock b (rows_in clock b (deployment_ids model_id db) db.rollups)
