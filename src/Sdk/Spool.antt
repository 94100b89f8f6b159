-- ===== src/Sdk/Spool.antt =====
-- clients/python/astra_sdk/telemetry.py: the durable spool, and the delivery that deletes a segment
-- only after the server has answered for it.
use astra_back.Prelude.{
  ℕ, suc, ◌+◌, ◌-◌, Bool, true, false, not, ◌&&◌, ◌||◌, Option, none, some, List, [], ◌∷◌, leb, ltb,
  ◌==◌, any, length, if◌then◌else◌,
}
use astra_back.Store.{RowId}
use astra_back.Telemetry.{TelemetryBatch}
use astra_back.Sdk.Queues.{Segment, Reporter, push, one_if_full, mem_pending_max, drain_to_batch}

-- What a POST comes to: a 2xx, an error status, or no connection.
pub data Reply : Type 0 where
  acked : Reply
  refused : ℕ → Reply
  unreachable : Reply

-- `_RETRY_LATER_STATUS`
abbrev retry_later : List ℕ
retry_later = 401 ∷ 403 ∷ 408 ∷ 409 ∷ 429 ∷ []

-- A 4xx that no later attempt can mend.
abbrev pub is_permanent : ℕ → Bool
is_permanent status = leb 400 status && ltb status 500 && not (any (λ s. s == status) retry_later)

-- Whether the batch is finished, and the events that are counted as dropped.
unfoldable pub settle : TelemetryBatch → Reply → Bool × ℕ
settle b acked = (true, 0)
settle b (refused status) = if is_permanent status then (true, length b.events) else (false, 0)
settle b unreachable = (false, 0)

-- What the file system answers while one function of the reporter runs: whether the directory can be
-- listed, and whether a segment can be measured for the total and again by the loop, read, and deleted.
-- The reporter passes over each failure.
pub record Disk : Type 0 where
  pub lists : Bool
  pub measures : Segment → Bool
  pub measures_again : Segment → Bool
  pub reads : Segment → Bool
  pub unlinks : Segment → Bool

-- `_size`
abbrev pub size_of : (Segment → Bool) → Segment → ℕ
size_of measures s = if measures s then s.size else 0

unfoldable pub total_size : (Segment → Bool) → List Segment → ℕ
total_size measures [] = 0
total_size measures (s ∷ segs) = size_of measures s + total_size measures segs

-- A segment whose deletion fails stays.
abbrev pub keep_unless : {A : Type 0} → Bool → A → List A → List A
keep_unless removed x xs = if removed then xs else x ∷ xs

-- The loop of `_enforce_spool_cap`: the segments that stay, and how many count as dropped. A total
-- below 0 ends the loop as 0 does.
unfoldable pub drop_oldest : Disk → ℕ → ℕ → List Segment → List Segment × ℕ
drop_oldest disk cap_bytes total [] = ([], 0)
drop_oldest disk cap_bytes total (s ∷ segs) =
    let (kept, n) = drop_oldest disk cap_bytes (total - size_of disk.measures_again s) segs in
    if ltb cap_bytes total then (keep_unless (disk.unlinks s) s kept, suc n) else (s ∷ segs, 0)

-- A directory that cannot be listed has no segments.
unfoldable pub enforce_spool_cap : Disk → ℕ → Reporter → Reporter
enforce_spool_cap disk cap_bytes r =
    let (kept, n) = drop_oldest disk cap_bytes (total_size disk.measures r.segments) r.segments in
    if disk.lists then record r { segments = kept; dropped = r.dropped + n } else r

abbrev is_before : Segment → Segment → Bool
is_before s t = ltb s.millis t.millis || ((s.millis == t.millis) && ltb s.seq t.seq)

abbrev same_name : Segment → Segment → Bool
same_name s t = (s.millis == t.millis) && (s.seq == t.seq)

-- `os.replace` of the new file to its name.
unfoldable pub put_segment : Segment → List Segment → List Segment
put_segment s [] = s ∷ []
put_segment s (t ∷ segs) =
    if same_name s t
    then s ∷ segs
    else if is_before s t
    then s ∷ t ∷ segs
    else t ∷ put_segment s segs

-- `_spool_write` at that time: `written` is the size of the file, or nothing if it could not be written.
unfoldable pub spool_write : Disk → ℕ → ℕ → Option ℕ → TelemetryBatch → Reporter → Bool × Reporter
unfolding enforce_spool_cap put_segment
spool_write disk cap_bytes millis none b r =
    let r' = enforce_spool_cap disk cap_bytes r in (false, record r' { seg_seq = suc r'.seg_seq })
spool_write disk cap_bytes millis (some size) b r =
    let r' = enforce_spool_cap disk cap_bytes r in
    let s : Segment = record {
      millis = millis;
      seq = suc r'.seg_seq;
      size = size;
      content = some b;
    } in
    (true, record r' { seg_seq = suc r'.seg_seq; segments = put_segment s r'.segments })

abbrev pub hold : TelemetryBatch → Reporter → Reporter
hold b r = record r {
  dropped = r.dropped + one_if_full mem_pending_max r.mem_pending;
  mem_pending = push mem_pending_max b r.mem_pending;
}

abbrev pub hold_unless : TelemetryBatch → Bool × Reporter → Reporter
hold_unless b (true, r) = r
hold_unless b (false, r) = hold b r

-- The first part of `_flush`: a drained batch goes to the spool, or to memory if it cannot.
abbrev pub keep_batch : Disk → ℕ → ℕ → Option ℕ → Option TelemetryBatch × Reporter → Reporter
keep_batch disk cap_bytes millis written (none, r) = r
keep_batch disk cap_bytes millis written (some b, r) =
    hold_unless b (if r.spool then spool_write disk cap_bytes millis written b r else (false, r))

-- A segment that cannot be read is taken for a corrupt one.
abbrev pub batch_in : Disk → Segment → Option TelemetryBatch
batch_in disk s = if disk.reads s then s.content else none

-- The outside is a state that a POST reads and changes.
module _ {W : Type 0} (post : W → TelemetryBatch → Reply × W) where
  -- What a loop over pending batches leaves: whether all are finished, the rest, the events counted
  -- as dropped, and the outside.
  pub record Sent (A : Type 0) : Type 0 where
    pub all_sent : Bool
    pub rest : List A
    pub lost : ℕ
    pub world : W

  abbrev pub with_kept : {A : Type 0} → Bool → A → Sent A → Sent A
  with_kept removed x sent = record sent { rest = keep_unless removed x sent.rest }

  -- One loop over pending items, oldest first, up to the first that has to be retried. An item
  -- without a batch is a corrupt segment, which is deleted. An item that is not `removed` stays though
  -- the loop is done with it.
  unfoldable pub send_all :
      {A : Type 0} → (A → Option TelemetryBatch) → (A → Bool) → W → ℕ → List A → Sent A
  send_all content removed w lost [] = record { all_sent = true; rest = []; lost = lost; world = w }
  send_all content removed w lost (x ∷ xs) = elim (content x) [
    | none ↦ with_kept (removed x) x (send_all content removed w lost xs)
    | some b ↦
        let answer = post w b in
        let outcome = settle b answer.0 in
        let rest = send_all content removed answer.1 (lost + outcome.1) xs in
        if outcome.0
        then with_kept (removed x) x rest
        else record { all_sent = false; rest = x ∷ xs; lost = lost; world = answer.1 }
  ]

  -- `_send_pending`: the spool first, and memory once the loop over the spool is through.
  abbrev pub send_memory : Reporter → W → Bool × Reporter × W
  send_memory r w =
      let sent = send_all (λ b. some b) (λ b. true) w r.dropped r.mem_pending in
      (sent.all_sent, record r { mem_pending = sent.rest; dropped = sent.lost }, sent.world)

  abbrev pub send_spool : Reporter → Sent Segment → Bool × Reporter × W
  send_spool r sent =
      let r' = record r { segments = sent.rest; dropped = sent.lost } in
      if sent.all_sent then send_memory r' sent.world else (false, r', sent.world)

  -- A directory that cannot be listed has no segments to send.
  unfoldable pub send_pending : Disk → Reporter → W → Bool × Reporter × W
  unfolding send_all
  send_pending disk r w =
      if not r.enabled
      then (true, r, w)
      else if r.spool && disk.lists
      then send_spool r (send_all (batch_in disk) disk.unlinks w r.dropped r.segments)
      else send_memory r w

  -- `disk` serves the write to the spool, and `disk'` the pass over what is pending.
  unfoldable pub flush : RowId → Disk → Disk → ℕ → ℕ → Option ℕ → Reporter → W → Bool × Reporter × W
  unfolding send_pending
  flush id disk disk' cap_bytes millis written r w =
      if not r.enabled
      then (true, r, w)
      else send_pending disk' (keep_batch disk cap_bytes millis written (drain_to_batch id r)) w
