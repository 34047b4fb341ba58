-- ===== src/Ome/CrashRecovery.antt =====
-- The start scan for crashed runs (src/everos/infra/ome/_background/crash_recovery.py). Times and the
-- timeout are in one unit.
pub mod Sweep
use ever_os.Prelude.{
  ltb, eqb, if◌then◌else◌, ℕ, ◌+◌, String, Bool, Option, none, some, List, [], ◌∷◌,
}
use ever_os.Ome.RunRecord.{RunRecord, RunTable, mark_crashed, find_running}

-- A call of `add_job`.
pub record Job : Type 0 where
  pub strategy_name : String
  pub run_id : String
  pub event_topic : String
  pub event_payload : String
  pub max_retries : ℕ

pub job_of : RunRecord → String → Job
job_of row new_run_id = record {
  strategy_name = row.strategy_name;
  run_id = new_run_id;
  event_topic = row.event_topic;
  event_payload = row.event_payload;
  max_retries = row.max_retries_snapshot;
}

-- `rec.started_at < now - timedelta(seconds=timeout_seconds)`
abbrev pub is_before_cutoff : ℕ → ℕ → RunRecord → Bool
is_before_cutoff timeout now row = ltb (row.started_at + timeout) now

abbrev pub crash_error : String
crash_error = "crash recovery: marked CRASHED after start scan"

-- The loop over the RUNNING rows, with the jobs that it tries to add. `fresh k` is the new run id of
-- the k-th job. An `add_job` that raises is logged; its row stays CRASHED.
pub resume_all : ℕ → ℕ → (ℕ → String) → List RunRecord → RunTable → RunTable × List Job
unfolding job_of
resume_all timeout now fresh [] table = (table, [])
resume_all timeout now fresh (row ∷ rows) table =
    let (skipped, skipped_jobs) = resume_all timeout now fresh rows table in
    let (last, jobs) =
      resume_all timeout now (λ k. fresh (k + 1)) rows
        (mark_crashed row.run_id now crash_error table) in
    if is_before_cutoff timeout now row
    then (last, job_of row (fresh 0) ∷ jobs)
    else (skipped, skipped_jobs)

-- `none`: ValueError for a timeout that is not positive.
pub scan_and_resume : ℕ → ℕ → (ℕ → String) → RunTable → Option (RunTable × List Job)
unfolding resume_all
scan_and_resume timeout now fresh table =
    if eqb timeout 0 then none else some (resume_all timeout now fresh (find_running table) table)
