-- ===== src/Sdk/Delivery.antt =====
-- What one pass over the pending batches leaves, whatever the outside answers.
use astra_back.Prelude.{
  ℕ, ◌+◌, ◌&&◌, ◌≡◌, refl, ap, Bool, true, false, not, Option, some, List, [], ◌∷◌, ◌++◌, All,
  keep_if, arith, Bool-cases, Option-cases, inl, inr,
}
use mathlib.Core.Path.{subst}
use astra_back.Telemetry.{TelemetryBatch}
use astra_back.Sdk.Queues.{Reporter}
use astra_back.Sdk.Spool.{Reply, settle, Disk, keep_unless, send_all, batch_in}

-- `Done w b`: the outside has dealt with `b`. A batch that is finished is dealt with, and stays so.
module _ {W : Type 0} (post : W → TelemetryBatch → Reply × W) (Done : W → TelemetryBatch → Type 0)
    (stable : (w : W) (b c : TelemetryBatch) → Done w c → Done (post w b).1 c)
    (settles : (w : W) (b : TelemetryBatch)
      → (settle b (post w b).0).0 ≡ true
      → Done (post w b).1 b) where
  module _ {A : Type 0} (content : A → Option TelemetryBatch) (removed : A → Bool) where
    abbrev AllDone : W → List A → Type 0
    AllDone w xs = All (λ x. (b : TelemetryBatch) → content x ≡ some b → Done w b) xs

    -- A first part of what was pending is dealt with, and of it only those items stay that could not
    -- be removed; the later ones stay as they are, and there are none of them if all is sent.
    pub record Split (xs rest : List A) (all_sent : Bool) (w : W) : Type 0 where
      pub first : List A
      pub later : List A
      pub parts : xs ≡ first ++ later
      pub left : rest ≡ keep_if (λ x. not (removed x)) first ++ later
      pub done : AllDone w first
      pub empty : all_sent ≡ true → later ≡ []

    -- What is dealt with stays so during a pass.
    send_all-stable :
        (c : TelemetryBatch) (xs : List A) (w : W) (lost : ℕ)
        → Done w c
        → Done (send_all post content removed w lost xs).world c
    unfolding send_all
    send_all-stable c [] w lost d = d
    send_all-stable c (x ∷ xs) w lost d = elim (Option-cases (content x)) [
      | inl e ↦ rw (e, send_all) (send_all-stable c xs w lost d)
      | inr (b, e) ↦
          let later = stable w b c d in
          elim (Bool-cases (settle b (post w b).0).0) [
            | inl finished ↦
                rw (e, send_all)
                  (rw (finished)
                    (send_all-stable c xs (post w b).1 (lost + (settle b (post w b).0).1) later))
            | inr retried ↦ rw (e, send_all) (rw (retried) later)
          ]
    ]

    -- One item more at the front.
    done_too :
        (x : A) (xs rest : List A) (all_sent : Bool) (w : W)
        → ((b : TelemetryBatch) → content x ≡ some b → Done w b)
        → Split xs rest all_sent w
        → Split (x ∷ xs) (keep_unless (removed x) x rest) all_sent w
    done_too x xs rest all_sent w d s = record {
      first = x ∷ s.first;
      later = s.later;
      parts = ap (λ l. x ∷ l) s.parts;
      left = ground (arith, s.left);
      done = (d, s.done);
      empty = s.empty;
    }

    untouched : (xs : List A) (all_sent : Bool) (w : W) → all_sent ≡ false → Split xs xs all_sent w
    untouched xs all_sent w off = record {
      first = [];
      later = xs;
      parts = refl;
      left = refl;
      done = tt;
      empty = λ h. cc;
    }

    pub send_all-Split :
        (xs : List A) (w : W) (lost : ℕ)
        → let s = send_all post content removed w lost xs in Split xs s.rest s.all_sent s.world
    unfolding send_all
    send_all-Split [] w lost = record {
      first = [];
      later = [];
      parts = refl;
      left = refl;
      done = tt;
      empty = λ h. refl;
    }
    send_all-Split (x ∷ xs) w lost = elim (Option-cases (content x)) [
      | inl e ↦ rw (e, send_all) (done_too x xs _ _ _ (λ b k. cc) (send_all-Split xs w lost))
      | inr (b, e) ↦ elim (Bool-cases (settle b (post w b).0).0) [
        | inl finished ↦
            let n = lost + (settle b (post w b).0).1 in
            let here = send_all-stable b xs (post w b).1 n (settles w b finished) in
            rw (e, send_all)
              (rw (finished) (
                done_too x xs _ _ _
                  (λ c k.
                    let same : b ≡ c = cc in
                    subst (Done (send_all post content removed (post w b).1 n xs).world) same here)
                  (send_all-Split xs (post w b).1 n)))
        | inr retried ↦ rw (e, send_all) (rw (retried) (untouched (x ∷ xs) false (post w b).1 refl))
      ]
    ]

  -- What a pass leaves of the spool and of the memory. What is sent from memory is always removed.
  pub record Passed (disk : Disk) (r : Reporter) (sent : Bool × Reporter × W) : Type 0 where
    pub spooled :
        Split
          (batch_in disk)
          disk.unlinks
          r.segments
          sent.1.segments
          (sent.0 && (r.spool && disk.lists))
          sent.2
    pub held : Split (λ b. some b) (λ b. true) r.mem_pending sent.1.mem_pending sent.0 sent.2
