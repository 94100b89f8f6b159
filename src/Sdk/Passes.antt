-- ===== src/Sdk/Passes.antt =====
-- A flush and a pass over the pending batches keep the bounds of the reporter.
use astra_back.Prelude.{
  ℕ, ◌≤◌, ◌≡◌, refl, ap, Bool, true, false, not, Option, none, some, List, [], ◌∷◌, ◌++◌, All,
  length, keep_if, sym, ◌&&◌, arith, if-keeps, if◌then◌else◌,
}
use mathlib.Core.Path.{subst}
use astra_back.Store.{RowId}
use astra_back.Telemetry.{TelemetryBatch}
use astra_back.Sdk.Queues.{mem_pending_max, Reporter, drain_to_batch}
use astra_back.Sdk.Spool.{
  Reply, Disk, send_all, batch_in, send_memory, send_spool, send_pending, spool_write, hold,
  hold_unless, keep_batch, flush,
}
use astra_back.Sdk.Bounds.{
  IsBounded, Fits, IsSegment, push-le, push-All, drain-Fits, drain-IsBounded, spool_write-IsBounded,
}
use astra_back.Sdk.Delivery.{send_all-Split}

All-kept :
    {A : Type 0} (P : A → Type 0) (p : A → Bool) (xs ys : List A)
    → All P (xs ++ ys)
    → All P (keep_if p xs ++ ys)
All-kept P p [] ys h = h
All-kept P p (x ∷ xs) ys h =
    let ih = All-kept P p xs ys h.1 in
    if-keeps (λ l. All P (l ++ ys)) (p x) (x ∷ keep_if p xs) (keep_if p xs) (h.0, ih) ih

kept-le :
    {A : Type 0} (p : A → Bool) (xs ys : List A) → length (keep_if p xs ++ ys) ≤ length (xs ++ ys)
kept-le p [] ys = omega arith
kept-le p (x ∷ xs) ys = ground (arith, kept-le p xs ys)

module _ {W : Type 0} (post : W → TelemetryBatch → Reply × W) where
  abbrev Any : W → TelemetryBatch → Type 0
  Any w b = Unit

  rest-All :
      {A : Type 0} (P : A → Type 0) (content : A → Option TelemetryBatch) (removed : A → Bool)
      (xs : List A) (w : W) (lost : ℕ)
      → All P xs
      → All P (send_all post content removed w lost xs).rest
  rest-All P content removed xs w lost h =
      let s = send_all-Split post Any (λ w b c d. tt) (λ w b e. tt) content removed xs w lost in
      subst (All P) (sym s.left)
        (All-kept P (λ x. not (removed x)) s.first s.later (subst (All P) s.parts h))

  rest-le :
      {A : Type 0} (content : A → Option TelemetryBatch) (removed : A → Bool) (xs : List A) (w : W)
      (lost : ℕ)
      → length (send_all post content removed w lost xs).rest ≤ length xs
  rest-le content removed xs w lost =
      let s = send_all-Split post Any (λ w b c d. tt) (λ w b e. tt) content removed xs w lost in
      omega
        (arith, ap length s.parts, ap length s.left, kept-le (λ x. not (removed x)) s.first s.later)

  send_memory-IsBounded : (r : Reporter) (w : W) → IsBounded r → IsBounded (send_memory post r w).1
  send_memory-IsBounded r w v = record {
    events = v.events;
    snapshots = v.snapshots;
    windows = v.windows;
    held = omega (arith, v.held, rest-le (λ b. some b) (λ b. true) r.mem_pending w r.dropped);
    pending = rest-All Fits (λ b. some b) (λ b. true) r.mem_pending w r.dropped v.pending;
    spooled = v.spooled;
  }

  pub send_pending-IsBounded :
      (disk : Disk) (r : Reporter) (w : W) → IsBounded r → IsBounded (send_pending post disk r w).1
  unfolding send_pending
  send_pending-IsBounded disk r w v =
      let s = send_all post (batch_in disk) disk.unlinks w r.dropped r.segments in
      let r' = record r { segments = s.rest; dropped = s.lost } in
      let v' : IsBounded r' = record {
        events = v.events;
        snapshots = v.snapshots;
        windows = v.windows;
        held = v.held;
        pending = v.pending;
        spooled = rest-All IsSegment (batch_in disk) disk.unlinks r.segments w r.dropped v.spooled;
      } in
      if-keeps (λ t. IsBounded t.1) (not r.enabled) (true, r, w)
        (if r.spool && disk.lists then send_spool post r s else send_memory post r w) v
        (if-keeps (λ t. IsBounded t.1) (r.spool && disk.lists) (send_spool post r s)
          (send_memory post r w)
          (if-keeps (λ t. IsBounded t.1) s.all_sent (send_memory post r' s.world)
            (false, r', s.world) (send_memory-IsBounded r' s.world v') v')
          (send_memory-IsBounded r w v))

  hold-IsBounded : (b : TelemetryBatch) (r : Reporter) → Fits b → IsBounded r → IsBounded (hold b r)
  hold-IsBounded b r fits v = record {
    events = v.events;
    snapshots = v.snapshots;
    windows = v.windows;
    held = push-le mem_pending_max b r.mem_pending (omega arith) v.held;
    pending = push-All Fits mem_pending_max b r.mem_pending fits v.pending;
    spooled = v.spooled;
  }

  hold_unless-IsBounded :
      (b : TelemetryBatch) (t : Bool × Reporter)
      → Fits b
      → IsBounded t.1
      → IsBounded (hold_unless b t)
  hold_unless-IsBounded b (true, r) fits v = v
  hold_unless-IsBounded b (false, r) fits v = hold-IsBounded b r fits v

  keep_batch-IsBounded :
      (disk : Disk) (cap_bytes millis : ℕ) (written : Option ℕ)
      (d : Option TelemetryBatch × Reporter)
      → ((b : TelemetryBatch) → d.0 ≡ some b → Fits b)
      → IsBounded d.1
      → IsBounded (keep_batch disk cap_bytes millis written d)
  keep_batch-IsBounded disk cap_bytes millis written (none, r) fits v = v
  keep_batch-IsBounded disk cap_bytes millis written (some b, r) fits v =
      hold_unless-IsBounded b
        (if r.spool then spool_write disk cap_bytes millis written b r else (false, r))
        (fits b refl)
        (if-keeps (λ t. IsBounded t.1) r.spool (spool_write disk cap_bytes millis written b r)
          (false, r) (spool_write-IsBounded disk cap_bytes millis written b r (fits b refl) v) v)

  pub flush-IsBounded :
      (id : RowId) (disk disk' : Disk) (cap_bytes millis : ℕ) (written : Option ℕ) (r : Reporter)
      (w : W)
      → IsBounded r
      → IsBounded (flush post id disk disk' cap_bytes millis written r w).1
  unfolding flush
  flush-IsBounded id disk disk' cap_bytes millis written r w v =
      let kept = keep_batch disk cap_bytes millis written (drain_to_batch id r) in
      if-keeps (λ t. IsBounded t.1) (not r.enabled) (true, r, w) (send_pending post disk' kept w) v
        (send_pending-IsBounded disk' kept w (
          keep_batch-IsBounded disk cap_bytes millis written (drain_to_batch id r)
            (λ b e. drain-Fits id r b v e) (drain-IsBounded id r v)))
