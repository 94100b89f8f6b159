-- ===== src/Sdk/Runs.antt =====
-- The reporter over its life: recording, draining, sending, and a restart that finds the old spool.
use astra_back.Prelude.{ℕ, Option, [], Text}
use astra_back.Store.{RowId}
use astra_back.Telemetry.{ClientEvent, ClientSnapshot, ClientWindowStats, TelemetryBatch}
use astra_back.Sdk.Queues.{Reporter, take_window, take_snapshot, record_event}
use astra_back.Sdk.Spool.{Reply, Disk, send_pending, flush}

module _ {W : Type 0} (post : W → TelemetryBatch → Reply × W) where
  -- What a reporter does, and what the outside does on its own.
  pub data Step (r : Reporter) (w : W) : Reporter → W → Type 0 where
    recorded :
        (window_max : ℕ) (event : ClientEvent) (window : Option ClientWindowStats)
        → Step r w (record_event window_max event window r) w
    sampled : (snap : ClientSnapshot) → Step r w (take_snapshot snap r) w
    cut : (window : Option ClientWindowStats) → Step r w (take_window window r) w
    flushed :
        (id : RowId) (disk disk' : Disk) (cap_bytes millis : ℕ) (written : Option ℕ)
        → Step r w
            (flush post id disk disk' cap_bytes millis written r w).1
            (flush post id disk disk' cap_bytes millis written r w).2
    retried : (disk : Disk) → Step r w (send_pending post disk r w).1 (send_pending post disk r w).2
    -- A new process has empty queues, and the segments of the old one.
    restarted :
        (client_id : Text)
        → Step r w
            (record r {
              client_id = client_id;
              events = [];
              snapshots = [];
              windows = [];
              mem_pending = [];
              dropped = 0;
              sent_events = 0;
              window_requests = 0;
              seg_seq = 0;
            })
            w
    elsewhere : (w' : W) → Step r w r w'

  pub data Reach (r : Reporter) (w : W) : Reporter → W → Type 0 where
    here : Reach r w r w
    next : {s t : Reporter} {u v : W} → Reach r w s u → Step s u t v → Reach r w t v
