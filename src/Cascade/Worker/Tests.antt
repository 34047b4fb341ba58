-- ===== src/Cascade/Worker/Tests.antt =====
-- The theorems on the worker at a table of three rows.
use ever_os.Prelude.{
  ltb, Bool-cases, count, ℕ, ◌+◌, min, String, ◌≡◌, refl, inl, inr, true, none, some, [], arith,
}
use ever_os.Cascade.Queue.{get, eligible, mark_failed}
use ever_os.Cascade.Queue.Invariant.{IsValid}
use ever_os.Cascade.Queue.Summary.{backlog}
use ever_os.Cascade.Queue.Progress.{Handled}
use ever_os.Cascade.Queue.Tests.{in_flight, table, table-IsValid}
use ever_os.Cascade.Reconcile.{is_deleted}
use ever_os.Cascade.Scan.{scan_once}
use ever_os.Cascade.Scan.Tests.{disk, inputs, inputs-Unique, walked, swept-backlog}
use ever_os.Cascade.Worker.{
  handled, external, Handler, CascadeWorker, WorkerState, max_total_retries, run_handler,
  process_one, drain_once, drain_passes,
}
use ever_os.Cascade.Worker.Row.{Marked, process_one_marks, persistent_failure}
use ever_os.Cascade.Worker.Drain.{drain_once_lem, drain_passes_empties}
use ever_os.Cascade.Worker.Success.{Succeeds, WithinBudget, drain_passes_handles}
use ever_os.Cascade.Worker.Rest.{cascade_comes_to_rest}

-- The world is a clock that every call of a handler advances.
abbrev obliging : Handler ℕ
obliging = record {
  handle_added_or_modified =
      λ path w. (w + 1, handled (record { upserted = 1; deleted = 0; skipped = 0 }));
  handle_deleted = λ path w. (w + 1, handled (record { upserted = 0; deleted = 1; skipped = 0 }));
  has_lance_repo = true;
}

abbrev unreachable : Handler ℕ
unreachable = record {
  handle_added_or_modified = λ path w. (w + 1, external "timeout");
  handle_deleted = λ path w. (w + 1, external "timeout");
  has_lance_repo = true;
}

abbrev worker_with : Handler ℕ → CascadeWorker ℕ
worker_with handler = record {
  handlers = λ kind. some handler;
  batch_size = 2;
  max_retry = 3;
  retry_backoff = 1;
  optimize_min_interval = 30;
  get_utc_now = λ w. w;
  monotonic = λ w. w;
  sleep = λ seconds w. w + seconds;
  no_handler_error = λ kind. "no handler";
  budget_error = λ count. "retry budget exhausted";
}

abbrev at_start : WorkerState ℕ
at_start = record { queue = table; world = 100; unrecoverable_total = 0; optimizers = [] }

worker-Succeeds : Succeeds (worker_with obliging)
unfolding run_handler
worker-Succeeds = record {
  at = λ kind. (
    obliging,
    refl,
    λ row w. elim (Bool-cases (is_deleted row.change_type)) [
      | inl e ↦ (record { upserted = 0; deleted = 1; skipped = 0 }, rw e refl)
      | inr e ↦ (record { upserted = 1; deleted = 0; skipped = 0 }, rw e refl)
    ],
  );
}

table-WithinBudget : WithinBudget table
table-WithinBudget = (omega arith, (omega arith, (omega arith, tt)))

process_one_marks_example :
    Marked in_flight 3 table (process_one (worker_with unreachable) in_flight at_start).0.queue
process_one_marks_example = process_one_marks (worker_with unreachable) in_flight at_start

drain_once_lem_example :
    let (next, processed) = drain_once (worker_with unreachable) none at_start in
    IsValid next.queue
    × (processed ≡ min 2 (count (eligible none) table))
    × (backlog next.queue + processed ≡ backlog table)
drain_once_lem_example = drain_once_lem (worker_with unreachable) none at_start table-IsValid

drain_passes_empties_example :
    (backlog (drain_passes (worker_with unreachable) none 1 at_start).0.queue ≡ 0)
    × ((drain_passes (worker_with unreachable) none 1 at_start).1 ≡ backlog table)
    × IsValid (drain_passes (worker_with unreachable) none 1 at_start).0.queue
drain_passes_empties_example =
    drain_passes_empties (worker_with unreachable) 1 at_start table-IsValid (omega arith)
      (omega arith)

drain_passes_handles_example :
    Handled
      (get "a.md" table)
      (get "a.md" (drain_passes (worker_with obliging) none 1 at_start).0.queue)
drain_passes_handles_example =
    drain_passes_handles (worker_with obliging) worker-Succeeds 1 at_start table-IsValid
      table-WithinBudget (omega arith) (omega arith) "a.md"

cascade_comes_to_rest_example :
    let swept : WorkerState ℕ = record at_start {
      queue = (scan_once (λ k. k) disk none table).0;
    } in
    let after = (drain_passes (worker_with obliging) none 2 swept).0.queue in
    scan_once (λ k. k + 200) disk none after ≡ (after, some [])
cascade_comes_to_rest_example =
    cascade_comes_to_rest (worker_with obliging) (λ k. k) (λ k. k + 200) disk inputs 2 at_start
      worker-Succeeds table-IsValid table-WithinBudget inputs-Unique walked (omega arith)
      (omega (arith, swept-backlog))

persistent_failure_example :
    (error : String) × (now : ℕ) × ((process_one
        (worker_with unreachable)
        in_flight
        at_start).0.queue
      ≡ mark_failed "b.md" (ltb (0 + 3) max_total_retries) error (0 + 3) now table)
unfolding run_handler
persistent_failure_example =
    persistent_failure (worker_with unreachable) unreachable in_flight at_start refl (omega arith)
      (λ w. ("timeout", refl))
