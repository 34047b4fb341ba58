-- ===== src/Ome/CrashRecovery/Sweep.antt =====
-- What the start scan does to each row.
use ever_os.Prelude.{
  if◌then◌else◌, keep, contains, ℕ, ◌+◌, String, Bool, ◌&&◌, some, List, [], ◌∷◌, map,
}
use ever_os.Ome.RunRecord.{crashed, RunRecord, RunTable, is_running}
use ever_os.Ome.CrashRecovery.{Job, job_of, is_before_cutoff, crash_error}

module _ (timeout now : ℕ) where
  -- A run whose row is RUNNING and too old.
  abbrev pub is_crashed_run : RunRecord → Bool
  is_crashed_run row = is_running row.status && is_before_cutoff timeout now row

  abbrev pub crashed_row : RunRecord → RunRecord
  crashed_row row = record row {
    status = crashed;
    finished_at = some now;
    error = some crash_error;
  }

  -- The ids that the loop marks.
  abbrev old_ids : List RunRecord → List String
  old_ids rows = map (λ row. row.run_id) (keep (is_before_cutoff timeout now) rows)

  mark_by_ids : List String → RunTable → RunTable
  mark_by_ids ids = map (λ row. if contains ids row.run_id then crashed_row row else row)

  -- The jobs for these rows, each under a fresh run id.
  abbrev pub resumed : (ℕ → String) → List RunRecord → List Job
  resumed fresh [] = []
  resumed fresh (row ∷ rows) = job_of row (fresh 0) ∷ resumed (λ k. fresh (k + 1)) rows
