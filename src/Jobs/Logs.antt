-- ===== src/Jobs/Logs.antt =====
-- The numbers of the log lines that a run of the worker writes.
use native.Mathlib.Numerals.{unary_clauses}
use astra_back.Prelude.{
  ℕ, zero, suc, if◌then◌else◌, ◌+◌, ◌≡◌, refl, ap, ◌∙◌, List, [], ◌∷◌, ◌==◌, arith, Text, same_id,
}
use astra_back.Store.{RowId, LogLevel, IngestionLogRow, Db}
use astra_back.Jobs.{
  JobCtx, emit, progress, pick_up, Report, logged, progressed, Outcome, succeeded, cancelled,
  crashed, run_reports, finish, execute_pipeline, on_success, on_failure,
}

-- The numbers of the lines of a run, the newest first.
unfoldable pub seqs : RowId → List IngestionLogRow → List ℕ
seqs i [] = []
seqs i (l ∷ ls) = let rest = seqs i ls in if l.run_id == i then l.seq ∷ rest else rest

-- n, n - 1, …, 1
unfoldable pub countdown : ℕ → List ℕ
countdown zero = []
countdown (suc n) = suc n ∷ countdown n

-- The lines that the engine asked for,
unfoldable pub lines_of : List Report → ℕ
lines_of [] = 0
lines_of (logged level message ∷ rs) = suc (lines_of rs)
lines_of (progressed pct ∷ rs) = lines_of rs

-- and the line on a failure.
unfoldable pub last_lines : Outcome → ℕ
last_lines (succeeded a weights_only) = 0
last_lines (cancelled error) = 1
last_lines (crashed error) = 1

abbrev IsNumbered : JobCtx → ℕ × Db → Type 0
IsNumbered job s = seqs job.run_id s.1.logs ≡ countdown s.0

emit-IsNumbered :
    (job : JobCtx) (level : LogLevel) (message : Text) (s : ℕ × Db)
    → IsNumbered job s
    → IsNumbered job (emit job level message s)
unfolding emit seqs countdown
emit-IsNumbered job level message (seq, db) h = rw (same_id job.run_id, h) refl

run_reports-IsNumbered :
    (job : JobCtx) (total : ℕ) (rs : List Report) (s : ℕ × Db)
    → IsNumbered job s
    → IsNumbered job (run_reports job total rs s)
unfolding run_reports progress
run_reports-IsNumbered job total [] s h = h
run_reports-IsNumbered job total (logged level message ∷ rs) s h =
    run_reports-IsNumbered job total rs (emit job level message s)
      (emit-IsNumbered job level message s h)
run_reports-IsNumbered job total (progressed pct ∷ rs) (seq, db) h =
    run_reports-IsNumbered job total rs (seq, progress job total pct db) h

run_reports-count :
    (job : JobCtx) (total : ℕ) (rs : List Report) (s : ℕ × Db)
    → (run_reports job total rs s).0 ≡ s.0 + lines_of rs
unfolding run_reports emit lines_of
run_reports-count job total [] s = omega arith
run_reports-count job total (logged level message ∷ rs) (seq, db) =
    omega (arith, run_reports-count job total rs (emit job level message (seq, db)))
run_reports-count job total (progressed pct ∷ rs) (seq, db) =
    run_reports-count job total rs (seq, progress job total pct db)

finish-IsNumbered :
    (job : JobCtx) (outcome : Outcome) (s : ℕ × Db)
    → IsNumbered job s
    → seqs job.run_id (finish job outcome s).logs ≡ countdown (s.0 + last_lines outcome)
unfolding finish on_success on_failure last_lines emit
finish-IsNumbered job (succeeded a weights_only) s h = simp unary_clauses h
finish-IsNumbered job (cancelled error) s h = simp unary_clauses (emit-IsNumbered job _ _ s h)
finish-IsNumbered job (crashed error) s h = simp unary_clauses (emit-IsNumbered job _ _ s h)

-- A run that has no log lines yet gets lines numbered from 1 without a gap or a repetition: one
-- for each line that the engine asked for, and one more if it does not succeed.
pub execute_pipeline-numbers :
    (job : JobCtx) (total : ℕ) (reports : List Report) (outcome : Outcome) (db : Db)
    → seqs job.run_id db.logs ≡ []
    → seqs job.run_id (execute_pipeline job total reports outcome db).logs
      ≡ countdown (lines_of reports + last_lines outcome)
unfolding execute_pipeline pick_up countdown lines_of
execute_pipeline-numbers job total reports outcome db h =
    let s = run_reports job total reports (0, pick_up job db) in
    let n : s.0 ≡ lines_of reports =
      omega (arith, run_reports-count job total reports (0, pick_up job db)) in
    finish-IsNumbered job outcome s (run_reports-IsNumbered job total reports (0, pick_up job db) h)
    ∙ ap (λ n. countdown (n + last_lines outcome)) n
