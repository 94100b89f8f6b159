-- ===== src/Aggregates/Totals.antt =====
-- Every event of the window is counted in one bucket.
use native.Mathlib.Nat.{div-lt_iff_lt-mul, mul_comm}
use astra_back.Prelude.{
  ℕ, zero, suc, ◌+◌, ◌-◌, ◌*◌, ◌/◌, ◌<◌, ◌≤◌, ◌≡◌, refl, ap, ◌∙◌, arith, true, false, some, List,
  [], ◌∷◌, ltb, keep_if, All, take, length, Text, text_eq, text_ltb, codes, if-by, if-keeps,
}
use mathlib.Core.Path.{subst}
use astra_back.Store.{All-map, RowId, Clock, InferenceEventRow, Db}
use astra_back.Aggregates.Events.{
  window_of, Sample, insert_newest, newest_first, insert_sample, oldest_first, samples, in_window,
  fetch_events, max_events,
}
use astra_back.Aggregates.Buckets.{
  Bounds, bucket_bounds, index_of, Bucket, empty_buckets, add_at, fill, bucket_raw,
}

abbrev pub total_count : List Bucket → ℕ
total_count [] = 0
total_count (b ∷ bs) = b.count + total_count bs

-- The range is a whole number of buckets.
abbrev IsWhole : ℕ × ℕ → Type 0
IsWhole (w, n) = (w / n * n ≡ w) × (0 < w / n) × (0 < n)

window_of-IsWhole : (range : Text) → IsWhole (window_of range)
unfolding window_of
window_of-IsWhole range =
    if-keeps IsWhole (text_eq range (codes "1h")) _ _ (refl, omega arith, omega arith)
      (if-keeps IsWhole (text_eq range (codes "6h")) _ _ (refl, omega arith, omega arith)
        (if-keeps IsWhole (text_eq range (codes "7d")) _ _ (refl, omega arith, omega arith)
          (if-keeps IsWhole (text_eq range (codes "30d")) _ _ (refl, omega arith, omega arith)
            (refl, omega arith, omega arith))))

total_count-add_at :
    (i : ℕ) (s : Sample) (bs : List Bucket)
    → i < length bs
    → total_count (add_at i s bs) ≡ suc (total_count bs)
total_count-add_at i s [] h = absurd (omega arith)
total_count-add_at zero s (b ∷ bs) h = omega arith
total_count-add_at (suc i) s (b ∷ bs) h = omega (arith, total_count-add_at i s bs (omega arith))

length-add_at : (i : ℕ) (s : Sample) (bs : List Bucket) → length (add_at i s bs) ≡ length bs
length-add_at i s [] = refl
length-add_at zero s (b ∷ bs) = refl
length-add_at (suc i) s (b ∷ bs) = ap suc (length-add_at i s bs)

total_count-empty : (from size n : ℕ) → total_count (empty_buckets from size n) ≡ 0
total_count-empty from size zero = refl
total_count-empty from size (suc n) = omega (arith, total_count-empty (from + size) size n)

length-empty : (from size n : ℕ) → length (empty_buckets from size n) ≡ n
length-empty from size zero = refl
length-empty from size (suc n) = ap suc (length-empty (from + size) size n)

-- The server's own stamps say their time.
abbrev pub IsStamped : Clock → InferenceEventRow → Type 0
IsStamped clock e = (t : ℕ) × (e.ts ≡ clock.iso t)

-- The sample lies in a bucket.
abbrev Fits : Bounds → Sample → Type 0
Fits b s = (i : ℕ) × (index_of b s.at ≡ some i) × (i < b.n)

fill-total :
    (b : Bounds) (ss : List Sample) (bs : List Bucket)
    → length bs ≡ b.n
    → All (Fits b) ss
    → total_count (fill b ss bs) ≡ total_count bs + length ss
unfolding fill
fill-total b [] bs n h = omega arith
fill-total b (s ∷ ss) bs n ((i, e, lt), h) =
    rw (e, fill)
      (omega (
        arith,
        fill-total b ss (add_at i s bs) (length-add_at i s bs ∙ n) h,
        total_count-add_at i s bs (omega (arith, n)),
      ))

module _ (start end : ℕ) where
  abbrev Inside : Sample → Type 0
  Inside s = (start ≤ s.at) × (s.at < end)

  insert_sample-Inside :
      (s : Sample) (ss : List Sample) → Inside s → All Inside ss → All Inside (insert_sample s ss)
  insert_sample-Inside s [] h hs = (h, tt)
  insert_sample-Inside s (t ∷ ts) h hs =
      if-keeps (All Inside) (ltb t.at s.at) (t ∷ insert_sample s ts) (s ∷ t ∷ ts)
        (hs.0, insert_sample-Inside s ts h hs.1) (h, hs)

  oldest_first-Inside : (ss : List Sample) → All Inside ss → All Inside (oldest_first ss)
  oldest_first-Inside [] h = tt
  oldest_first-Inside (s ∷ ss) h =
      insert_sample-Inside s (oldest_first ss) h.0 (oldest_first-Inside ss h.1)

  module _ (clock : Clock) (model_id : RowId) where
    abbrev InTime : InferenceEventRow → Type 0
    InTime e = (t : ℕ) × (clock.parse e.ts ≡ some t) × (start ≤ t) × (t < end)

    samples-Inside : (es : List InferenceEventRow) → All InTime es → All Inside (samples clock es)
    samples-Inside [] h = tt
    samples-Inside (e ∷ es) ((t, p, lo, hi), h) = rw (p) ((lo, hi), samples-Inside es h)

    take-InTime : (n : ℕ) (es : List InferenceEventRow) → All InTime es → All InTime (take n es)
    take-InTime zero es h = tt
    take-InTime (suc n) [] h = tt
    take-InTime (suc n) (e ∷ es) h = (h.0, take-InTime n es h.1)

    insert_newest-InTime :
        (e : InferenceEventRow) (es : List InferenceEventRow)
        → InTime e
        → All InTime es
        → All InTime (insert_newest e es)
    insert_newest-InTime e [] h hs = (h, tt)
    insert_newest-InTime e (f ∷ fs) h hs =
        if-keeps (All InTime) (text_ltb e.ts f.ts) (f ∷ insert_newest e fs) (e ∷ f ∷ fs)
          (hs.0, insert_newest-InTime e fs h hs.1) (h, hs)

    newest_first-InTime :
        (es : List InferenceEventRow) → All InTime es → All InTime (newest_first es)
    newest_first-InTime [] h = tt
    newest_first-InTime (e ∷ es) h =
        insert_newest-InTime e (newest_first es) h.0 (newest_first-InTime es h.1)

    stamped-InTime :
        (e : InferenceEventRow)
        → IsStamped clock e
        → in_window clock model_id start end e ≡ true
        → InTime e
    stamped-InTime e (t, at) h =
        let lo : text_ltb (clock.iso t) (clock.iso start) ≡ false =
          subst (λ s. text_ltb s (clock.iso start) ≡ false) at (ground arith) in
        let hi : text_ltb (clock.iso t) (clock.iso end) ≡ true =
          subst (λ s. text_ltb s (clock.iso end) ≡ true) at (ground arith) in
        (
          t,
          ap clock.parse at ∙ clock.parse_iso t,
          ground (arith, lo, clock.iso_order t start),
          ground (arith, hi, clock.iso_order t end),
        )

    keep_if-InTime :
        (es : List InferenceEventRow)
        → All (IsStamped clock) es
        → All InTime (keep_if (in_window clock model_id start end) es)
    keep_if-InTime [] h = tt
    keep_if-InTime (e ∷ es) h =
        if-by (All InTime) (in_window clock model_id start end e)
          (e ∷ keep_if (in_window clock model_id start end) es)
          (keep_if (in_window clock model_id start end) es)
          (λ k. (stamped-InTime e h.0 k, keep_if-InTime es h.1)) (λ k. keep_if-InTime es h.1)

    fetch_events-Inside :
        (db : Db)
        → All (IsStamped clock) db.events
        → All Inside (fetch_events clock model_id start end db)
    unfolding fetch_events
    fetch_events-Inside db h =
        let chosen = keep_if (in_window clock model_id start end) db.events in
        oldest_first-Inside (samples clock (take max_events (newest_first chosen))) (
          samples-Inside (take max_events (newest_first chosen)) (
            take-InTime max_events (newest_first chosen)
              (newest_first-InTime chosen (keep_if-InTime db.events h))))

Inside-Fits :
    (b : Bounds) (s : Sample) → 0 < b.size → Inside b.start (b.start + b.size * b.n) s → Fits b s
unfolding index_of
Inside-Fits b s pos (lo, hi) =
    let q = (s.at - b.start) / b.size in
    let lt : q < b.n = (div-lt_iff_lt-mul pos).1 (rw (mul_comm b.n b.size) (omega arith)) in
    let after : ltb s.at b.start ≡ false = ground arith in
    let low : ltb q b.n ≡ true = ground arith in (q, rw (after) (rw (low) refl), lt)

-- If the time is at least the length of the range since the epoch and all events carry stamps as
-- the server writes them, then the counts of the buckets of a range add up to the number of events
-- that the figures of the same window are computed from: each event falls into one bucket.
pub bucket_raw-total :
    (clock : Clock) (model_id : RowId) (range : Text) (now : ℕ) (db : Db)
    → (window_of range).0 ≤ now
    → All (IsStamped clock) db.events
    → total_count (bucket_raw clock model_id range now db)
      ≡ length (fetch_events clock model_id (now - (window_of range).0) now db)
unfolding bucket_raw bucket_bounds
bucket_raw-total clock model_id range now db long stamped =
    let (whole, pos, some_bucket) = window_of-IsWhole range in
    let b = bucket_bounds range now in
    let end : now - (window_of range).0 + b.size * b.n ≡ now = omega (arith, whole, long) in
    let all = fetch_events clock model_id b.start (b.start + b.size * b.n) db in
    let empty = empty_buckets b.start b.size b.n in
    let filled : total_count (bucket_raw clock model_id range now db)
        ≡ total_count empty + length all =
      fill-total b all empty (length-empty b.start b.size b.n) (
        All-map (Inside b.start (b.start + b.size * b.n)) (Fits b) (λ s h. Inside-Fits b s pos h)
          all (fetch_events-Inside b.start (b.start + b.size * b.n) clock model_id db stamped)) in
    let same : length all ≡ length (fetch_events clock model_id b.start now db) =
      ap (λ e. length (fetch_events clock model_id b.start e db)) end in
    omega (arith, filled, total_count-empty b.start b.size b.n, same)
