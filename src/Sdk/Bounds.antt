-- ===== src/Sdk/Bounds.antt =====
-- What the reporter holds is bounded, and every batch that it makes fits the server's limit.
use astra_back.Prelude.{
  ℕ, suc, ◌+◌, ltb, ◌-◌, ◌≤◌, ◌<◌, ◌≡◌, min, not, Option, none, some, List, [], ◌∷◌, leb, length,
  drop, All, All-append, length-drop-le, if-keeps, length-append, length-take-le, arith,
  if◌then◌else◌,
}
use mathlib.Core.Path.{subst}
use astra_back.Store.{RowId}
use astra_back.Telemetry.{
  ClientEvent, ClientSnapshot, ClientWindowStats, TelemetryBatch, total_items,
}
use astra_back.Sdk.Queues.{
  queue_max, batch_max, small_max, mem_pending_max, Segment, Reporter, push, enqueue, take_window,
  take_snapshot, record_event, drain_to_batch, event_budget,
}
use astra_back.Sdk.Spool.{
  Disk, size_of, total_size, keep_unless, drop_oldest, enforce_spool_cap, put_segment, spool_write,
}

abbrev pub Fits : TelemetryBatch → Type 0
Fits b = total_items b ≤ batch_max

abbrev pub IsSegment : Segment → Type 0
IsSegment s = (b : TelemetryBatch) → s.content ≡ some b → Fits b

pub record IsBounded (r : Reporter) : Type 0 where
  pub events : length r.events ≤ queue_max
  pub snapshots : length r.snapshots ≤ small_max
  pub windows : length r.windows ≤ small_max
  pub held : length r.mem_pending ≤ mem_pending_max
  pub pending : All Fits r.mem_pending
  pub spooled : All IsSegment r.segments

some_injective : {A : Type 0} (x y : A) → some x ≡ some y → x ≡ y
some_injective x y h = cc

pub push-le :
    {A : Type 0} (maxlen : ℕ) (x : A) (q : List A)
    → 0 < maxlen
    → length q ≤ maxlen
    → length (push maxlen x q) ≤ maxlen
unfolding push
push-le maxlen x [] h k = ground arith
push-le maxlen x (y ∷ q) h k =
    ground (arith, length-append q (x ∷ []), length-append (y ∷ q) (x ∷ []))

pub push-All :
    {A : Type 0} (P : A → Type 0) (maxlen : ℕ) (x : A) (q : List A)
    → P x
    → All P q
    → All P (push maxlen x q)
unfolding push
push-All P maxlen x [] h k = ground (arith, h)
push-All P maxlen x (y ∷ q) h k =
    ground (arith, All-append P q (x ∷ []) k.1 (h, tt), All-append P (y ∷ q) (x ∷ []) k (h, tt))

pub take_window-IsBounded :
    (window : Option ClientWindowStats) (r : Reporter)
    → IsBounded r
    → IsBounded (take_window window r)
unfolding take_window
take_window-IsBounded none r v = record {
  events = v.events;
  snapshots = v.snapshots;
  windows = v.windows;
  held = v.held;
  pending = v.pending;
  spooled = v.spooled;
}
take_window-IsBounded (some w) r v = record {
  events = v.events;
  snapshots = v.snapshots;
  windows = push-le small_max w r.windows (omega arith) v.windows;
  held = v.held;
  pending = v.pending;
  spooled = v.spooled;
}

enqueue-IsBounded : (event : ClientEvent) (r : Reporter) → IsBounded r → IsBounded (enqueue event r)
enqueue-IsBounded event r v = record {
  events = push-le queue_max event r.events (omega arith) v.events;
  snapshots = v.snapshots;
  windows = v.windows;
  held = v.held;
  pending = v.pending;
  spooled = v.spooled;
}

pub record_event-IsBounded :
    (window_max : ℕ) (event : ClientEvent) (window : Option ClientWindowStats) (r : Reporter)
    → IsBounded r
    → IsBounded (record_event window_max event window r)
unfolding record_event
record_event-IsBounded window_max event window r v =
    let r' = enqueue event r in
    let v' = enqueue-IsBounded event r v in
    if-keeps IsBounded (not r.enabled) r
      (if leb window_max r'.window_requests then take_window window r' else r') v
      (if-keeps IsBounded (leb window_max r'.window_requests) (take_window window r') r'
        (take_window-IsBounded window r' v') v')

pub take_snapshot-IsBounded :
    (snap : ClientSnapshot) (r : Reporter) → IsBounded r → IsBounded (take_snapshot snap r)
unfolding take_snapshot
take_snapshot-IsBounded snap r v = record {
  events = v.events;
  snapshots = push-le small_max snap r.snapshots (omega arith) v.snapshots;
  windows = v.windows;
  held = v.held;
  pending = v.pending;
  spooled = v.spooled;
}

pub drain-Fits :
    (id : RowId) (r : Reporter) (b : TelemetryBatch)
    → IsBounded r
    → (drain_to_batch id r).0 ≡ some b
    → Fits b
unfolding drain_to_batch
drain-Fits id r b v h = ground (
  arith,
  v.snapshots,
  v.windows,
  length-take-le (min (event_budget r) (length r.events)) r.events,
)

emptied-IsBounded :
    (n : ℕ) (r : Reporter)
    → IsBounded r
    → IsBounded (record r { snapshots = []; windows = []; events = drop n r.events })
emptied-IsBounded n r v = record {
  events = omega (arith, v.events, length-drop-le n r.events);
  snapshots = omega arith;
  windows = omega arith;
  held = v.held;
  pending = v.pending;
  spooled = v.spooled;
}

pub drain-IsBounded : (id : RowId) (r : Reporter) → IsBounded r → IsBounded (drain_to_batch id r).1
unfolding drain_to_batch
drain-IsBounded id r v =
    let e = emptied-IsBounded (min (event_budget r) (length r.events)) r v in
    record {
      events = ground (arith, e.events);
      snapshots = ground arith;
      windows = ground arith;
      held = ground (arith, v.held);
      pending = ground (arith, v.pending);
      spooled = ground (arith, v.spooled);
    }

drop_oldest-All :
    (P : Segment → Type 0) (disk : Disk) (cap_bytes total : ℕ) (segs : List Segment)
    → All P segs
    → All P (drop_oldest disk cap_bytes total segs).0
unfolding drop_oldest
drop_oldest-All P disk cap_bytes total [] h = tt
drop_oldest-All P disk cap_bytes total (s ∷ segs) h =
    let ih = drop_oldest-All P disk cap_bytes (total - size_of disk.measures_again s) segs h.1 in
    let (kept, n) = drop_oldest disk cap_bytes (total - size_of disk.measures_again s) segs in
    if-keeps {A = List Segment × ℕ} (λ t. All P t.0) (ltb cap_bytes total)
      (keep_unless (disk.unlinks s) s kept, suc n) (s ∷ segs, 0)
      (if-keeps (All P) (disk.unlinks s) kept (s ∷ kept) ih (h.0, ih)) h

enforce_spool_cap-All :
    (P : Segment → Type 0) (disk : Disk) (cap_bytes : ℕ) (r : Reporter)
    → All P r.segments
    → All P (enforce_spool_cap disk cap_bytes r).segments
unfolding enforce_spool_cap
enforce_spool_cap-All P disk cap_bytes r h =
    let (kept, n) = drop_oldest disk cap_bytes (total_size disk.measures r.segments) r.segments in
    if-keeps (λ t. All P t.segments) disk.lists
      (record r { segments = kept; dropped = r.dropped + n }) r
      (drop_oldest-All P disk cap_bytes (total_size disk.measures r.segments) r.segments h) h

put_segment-All :
    (P : Segment → Type 0) (s : Segment) (segs : List Segment)
    → P s
    → All P segs
    → All P (put_segment s segs)
unfolding put_segment
put_segment-All P s [] h k = (h, tt)
put_segment-All P s (t ∷ segs) h k = ground (arith, h, put_segment-All P s segs h k.1)

enforce_spool_cap-IsBounded :
    (disk : Disk) (cap_bytes : ℕ) (r : Reporter)
    → IsBounded r
    → IsBounded (enforce_spool_cap disk cap_bytes r)
unfolding enforce_spool_cap
enforce_spool_cap-IsBounded disk cap_bytes r v = record {
  events = ground (arith, v.events);
  snapshots = ground (arith, v.snapshots);
  windows = ground (arith, v.windows);
  held = ground (arith, v.held);
  pending = ground (arith, v.pending);
  spooled = enforce_spool_cap-All IsSegment disk cap_bytes r v.spooled;
}

pub spool_write-IsBounded :
    (disk : Disk) (cap_bytes millis : ℕ) (written : Option ℕ) (b : TelemetryBatch) (r : Reporter)
    → Fits b
    → IsBounded r
    → IsBounded (spool_write disk cap_bytes millis written b r).1
unfolding spool_write
spool_write-IsBounded disk cap_bytes millis none b r fits v =
    let v' = enforce_spool_cap-IsBounded disk cap_bytes r v in
    record {
      events = v'.events;
      snapshots = v'.snapshots;
      windows = v'.windows;
      held = v'.held;
      pending = v'.pending;
      spooled = v'.spooled;
    }
spool_write-IsBounded disk cap_bytes millis (some size) b r fits v =
    let v' = enforce_spool_cap-IsBounded disk cap_bytes r v in
    record {
      events = v'.events;
      snapshots = v'.snapshots;
      windows = v'.windows;
      held = v'.held;
      pending = v'.pending;
      spooled =
          put_segment-All IsSegment _ _ (λ c e. subst Fits (some_injective b c e) fits) v'.spooled;
    }
