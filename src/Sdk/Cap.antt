-- ===== src/Sdk/Cap.antt =====
-- What the cap on the spool leaves: clients/python/astra_sdk/telemetry.py, `_enforce_spool_cap`.
use mathlib.Core.Path.{subst}
use astra_back.Prelude.{
  ℕ, suc, ◌+◌, ◌-◌, ◌≤◌, ◌<◌, ◌≡◌, ◌⊎◌, inl, inr, refl, ap, not, Bool, false, true, arith, List, [],
  ◌∷◌, ◌++◌, ltb, length, keep_if, if-by,
}
use astra_back.Sdk.Queues.{Segment, Reporter}
use astra_back.Sdk.Spool.{Disk, size_of, total_size, keep_unless, drop_oldest, enforce_spool_cap}

-- The bytes that segments take.
unfoldable pub sizes : List Segment → ℕ
sizes [] = 0
sizes (s ∷ segs) = s.size + sizes segs

sizes-append : (xs ys : List Segment) → sizes (xs ++ ys) ≡ sizes xs + sizes ys
unfolding sizes
sizes-append [] ys = omega arith
sizes-append (x ∷ xs) ys = omega (arith, sizes-append xs ys)

-- What the total misses is the size of the segments that it could not measure.
total_size-missed :
    (measures : Segment → Bool) (segs : List Segment)
    → total_size measures segs + sizes (keep_if (λ s. not (measures s)) segs) ≡ sizes segs
unfolding total_size sizes
total_size-missed measures [] = refl
total_size-missed measures (s ∷ segs) = ground (arith, total_size-missed measures segs)

module _ (disk : Disk) (cap_bytes : ℕ) where
  -- Each of these segments was passed while the spool, with it in front, was over the cap, but for
  -- the `missed` bytes of segments passed before that could not be measured again.
  abbrev pub IsNeeded : ℕ → List Segment → List Segment → Type 0
  IsNeeded missed [] rest = Unit
  IsNeeded missed (g ∷ gs) rest =
      (cap_bytes < g.size + sizes (gs ++ rest) + missed)
      × IsNeeded (missed + (g.size - size_of disk.measures_again g)) gs rest

  abbrev pub undeleted : List Segment → List Segment
  undeleted segs = keep_if (λ s. not (disk.unlinks s)) segs

  -- The loop passed a first part of the segments; `unmeasured` bytes are not in its total.
  record Swept (unmeasured missed : ℕ) (segs kept : List Segment) (n : ℕ) : Type 0 where
    passed : List Segment
    rest : List Segment
    parts : segs ≡ passed ++ rest
    left : kept ≡ undeleted passed ++ rest
    counted : n ≡ length passed
    fits : sizes rest ≤ cap_bytes + unmeasured
    needed : IsNeeded missed passed rest

  -- One segment more in front.
  over-Swept :
      (s : Segment) (segs kept : List Segment) (n unmeasured missed : ℕ)
      → cap_bytes < s.size + sizes segs + missed
      → Swept unmeasured (missed + (s.size - size_of disk.measures_again s)) segs kept n
      → Swept unmeasured missed (s ∷ segs) (keep_unless (disk.unlinks s) s kept) (suc n)
  over-Swept s segs kept n unmeasured missed over ih = record {
    passed = s ∷ ih.passed;
    rest = ih.rest;
    parts = ap (λ l. s ∷ l) ih.parts;
    left = ground (arith, ih.left);
    counted = ap suc ih.counted;
    fits = ih.fits;
    needed = (subst (λ l. cap_bytes < s.size + sizes l + missed) ih.parts over, ih.needed);
  }

  drop_oldest-Swept :
      (segs : List Segment) (total unmeasured missed : ℕ)
      → sizes segs ≤ total + unmeasured
      → total ≤ sizes segs + missed
      → Swept unmeasured missed segs
          (drop_oldest disk cap_bytes total segs).0
          (drop_oldest disk cap_bytes total segs).1
  unfolding drop_oldest sizes
  drop_oldest-Swept [] total unmeasured missed h k = record {
    passed = [];
    rest = [];
    parts = refl;
    left = refl;
    counted = refl;
    fits = omega arith;
    needed = tt;
  }
  drop_oldest-Swept (s ∷ segs) total unmeasured missed h k =
      let m = size_of disk.measures_again s in
      let known : m ≤ s.size = ground arith in
      let ih =
        drop_oldest-Swept segs (total - m) unmeasured (missed + (s.size - m)) (omega arith)
          (omega arith) in
      let kept = (drop_oldest disk cap_bytes (total - m) segs).0 in
      let n = (drop_oldest disk cap_bytes (total - m) segs).1 in
      if-by {A = List Segment × ℕ} (λ t. Swept unmeasured missed (s ∷ segs) t.0 t.1)
        (ltb cap_bytes total) (keep_unless (disk.unlinks s) s kept, suc n) (s ∷ segs, 0)
        (λ over. over-Swept s segs kept n unmeasured missed (ground arith) ih)
        (λ within. record {
          passed = [];
          rest = s ∷ segs;
          parts = refl;
          left = refl;
          counted = refl;
          fits = ground arith;
          needed = tt;
        })

  -- A first part of the segments was passed and counted, of which those that could not be deleted
  -- stay with the rest. What stays is within the cap but for those and for what the total missed.
  pub record Trimmed (segs kept : List Segment) (n : ℕ) : Type 0 where
    pub passed : List Segment
    pub rest : List Segment
    pub parts : segs ≡ passed ++ rest
    pub left : kept ≡ undeleted passed ++ rest
    pub counted : n ≡ length passed
    pub fits :
        sizes kept
        ≤ cap_bytes + sizes (keep_if (λ s. not (disk.measures s)) segs) + sizes (undeleted passed)
    pub needed : IsNeeded 0 passed rest

  drop_oldest-Trimmed :
      (segs : List Segment)
      → let (kept, n) = drop_oldest disk cap_bytes (total_size disk.measures segs) segs in
        Trimmed segs kept n
  drop_oldest-Trimmed segs =
      let unmeasured = sizes (keep_if (λ s. not (disk.measures s)) segs) in
      let whole = total_size-missed disk.measures segs in
      let p =
        drop_oldest-Swept segs (total_size disk.measures segs) unmeasured 0 (omega arith)
          (omega arith) in
      record {
        passed = p.passed;
        rest = p.rest;
        parts = p.parts;
        left = p.left;
        counted = p.counted;
        fits = omega (arith, ap sizes p.left, sizes-append (undeleted p.passed) p.rest, p.fits);
        needed = p.needed;
      }

-- Enforcing the cap of the spool, if the directory can be listed, passes a first part of the segments
-- and counts each of them as dropped; those that cannot be deleted stay, with all segments behind.
-- What stays takes at most the cap, but for the segments that could not be deleted and those that
-- could not be measured for the total; and each segment was passed while the spool, with it, was over
-- the cap, but for the bytes of segments before it that could not be measured again. If the directory
-- cannot be listed, nothing changes.
pub enforce_spool_cap-Trimmed :
    (disk : Disk) (cap_bytes : ℕ) (r : Reporter)
    → let r' = enforce_spool_cap disk cap_bytes r in
      ((disk.lists ≡ true)
        × (n : ℕ) × Trimmed disk cap_bytes r.segments r'.segments n
        × (r'.dropped ≡ r.dropped + n))
      ⊎ ((disk.lists ≡ false) × (r' ≡ r))
unfolding enforce_spool_cap
enforce_spool_cap-Trimmed disk cap_bytes r =
    let total = total_size disk.measures r.segments in
    let (kept, n) = drop_oldest disk cap_bytes total r.segments in
    let trimmed = drop_oldest-Trimmed disk cap_bytes r.segments in
    if-by
      (λ r'.
        ((disk.lists ≡ true)
          × (n : ℕ) × Trimmed disk cap_bytes r.segments r'.segments n
          × (r'.dropped ≡ r.dropped + n))
        ⊎ ((disk.lists ≡ false) × (r' ≡ r)))
      disk.lists (record r { segments = kept; dropped = r.dropped + n }) r
      (λ on. inl (on, n, trimmed, refl)) (λ off. inr (off, refl))
