-- ===== src/Sdk/Queues.antt =====
-- clients/python/astra_sdk/telemetry.py: what the reporter holds, and how it is filled and drained. The
-- statistics of a window, the sample of the host and the fresh ids are arguments.
use astra_back.Prelude.{
  ℕ, suc, ◌+◌, ◌-◌, min, Bool, true, false, not, ◌&&◌, Option, none, some, List, [], ◌∷◌, ◌++◌, leb,
  ◌==◌, length, take, drop, Text, if◌then◌else◌,
}
use astra_back.Store.{RowId}
use astra_back.Telemetry.{ClientEvent, ClientSnapshot, ClientWindowStats, TelemetryBatch}

-- `_QUEUE_MAX`, `_BATCH_MAX`, the `maxlen` of the two small queues, `_MEM_PENDING_MAX`
abbrev pub queue_max : ℕ
queue_max = 10_000

abbrev pub batch_max : ℕ
batch_max = 450

abbrev pub small_max : ℕ
small_max = 64

abbrev pub mem_pending_max : ℕ
mem_pending_max = 64

-- A file of the spool: the two numbers of its name, its size, and what it holds unless it is corrupt.
pub record Segment : Type 0 where
  pub millis : ℕ
  pub seq : ℕ
  pub size : ℕ
  pub content : Option TelemetryBatch

-- The spool is the directory in the order of its names. A queue has its oldest item in front.
pub record Reporter : Type 0 where
  pub client_id : Text
  pub enabled : Bool
  pub events : List ClientEvent
  pub snapshots : List ClientSnapshot
  pub windows : List ClientWindowStats
  pub mem_pending : List TelemetryBatch
  pub dropped : ℕ
  pub sent_events : ℕ
  pub window_requests : ℕ
  pub seg_seq : ℕ
  pub spool : Bool
  pub segments : List Segment

-- `append` on a `deque` with that `maxlen`: a full one loses its oldest item.
unfoldable pub push : {A : Type 0} → ℕ → A → List A → List A
push maxlen x q = (if length q == maxlen then drop 1 q else q) ++ x ∷ []

abbrev pub one_if_full : {A : Type 0} → ℕ → List A → ℕ
one_if_full maxlen q = if length q == maxlen then 1 else 0

-- `window` is what the aggregator gives: nothing if it has observed nothing.
abbrev push_window : Option ClientWindowStats → List ClientWindowStats → List ClientWindowStats
push_window none q = q
push_window (some w) q = push small_max w q

unfoldable pub take_window : Option ClientWindowStats → Reporter → Reporter
take_window window r = record r { window_requests = 0; windows = push_window window r.windows }

unfoldable pub take_snapshot : ClientSnapshot → Reporter → Reporter
take_snapshot snap r = record r { snapshots = push small_max snap r.snapshots }

abbrev pub enqueue : ClientEvent → Reporter → Reporter
enqueue event r = record r {
  dropped = r.dropped + one_if_full queue_max r.events;
  events = push queue_max event r.events;
  sent_events = suc r.sent_events;
  window_requests = suc r.window_requests;
}

-- `window_max` is `_WINDOW_MAX_REQUESTS`, from the environment.
unfoldable pub record_event : ℕ → ClientEvent → Option ClientWindowStats → Reporter → Reporter
unfolding take_window
record_event window_max event window r =
    let r' = enqueue event r in
    let cut = take_window window r' in
    if not r.enabled then r else if leb window_max r'.window_requests then cut else r'

abbrev is_empty : {A : Type 0} → List A → Bool
is_empty [] = true
is_empty (x ∷ xs) = false

abbrev pub event_budget : Reporter → ℕ
event_budget r = batch_max - length r.snapshots - length r.windows

-- All snapshots and windows, and as many events as still fit.
unfoldable pub drain_to_batch : RowId → Reporter → Option TelemetryBatch × Reporter
drain_to_batch id r =
    let n = min (event_budget r) (length r.events) in
    let events = take n r.events in
    let r' = record r { snapshots = []; windows = []; events = drop n r.events } in
    if is_empty events && is_empty r.snapshots && is_empty r.windows then (none, r') else (
      some (record {
        client_id = r.client_id;
        batch_id = some id;
        events = events;
        snapshots = r.snapshots;
        windows = r.windows;
      }),
      r',
    )
