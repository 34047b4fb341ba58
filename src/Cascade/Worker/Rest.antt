-- ===== src/Cascade/Worker/Rest.antt =====
-- Scanner and worker together: the cascade comes to rest on an unchanged disk.
use ever_os.Prelude.{ℕ, ◌*◌, ◌≤◌, ◌<◌, ◌≡◌, none, some, List, [], arith}
use ever_os.Cascade.Queue.Invariant.{IsValid}
use ever_os.Cascade.Queue.Summary.{backlog}
use ever_os.Cascade.Reconcile.{ScanInput}
use ever_os.Cascade.Reconcile.Table.{UniqueInputs}
use ever_os.Cascade.Scan.{Disk, collect_scan_inputs, scan_once}
use ever_os.Cascade.Scan.Keeps.{scan_once-keeps}
use ever_os.Cascade.Scan.Quiet.{next_sweep_quiet}
use ever_os.Cascade.Worker.{CascadeWorker, WorkerState, max_total_retries, drain_passes}
use ever_os.Cascade.Worker.Drain.{drain_passes_empties}
use ever_os.Cascade.Worker.Success.{Succeeds, WithinBudget, drain_passes_handles}

-- The cascade comes to rest. Take a valid table with no row that has spent its retry budget, a
-- worker with a positive batch size all of whose handlers succeed, and a disk whose walk raises no
-- error and returns no path twice. After a full sweep and a drain with passes enough for the
-- backlog that the sweep leaves, a second full sweep over the same disk decides nothing and leaves
-- the table as it is.
pub cascade_comes_to_rest :
    {World : Type 0} (worker : CascadeWorker World) (clock later : ℕ → ℕ) (disk : Disk)
    (inputs : List ScanInput) (passes : ℕ) (state : WorkerState World)
    → Succeeds worker
    → IsValid state.queue
    → WithinBudget state.queue
    → UniqueInputs inputs
    → collect_scan_inputs disk none ≡ some inputs
    → 0 < worker.batch_size
    → (let swept = (scan_once clock disk none state.queue).0 in
        backlog swept ≤ passes * worker.batch_size)
    → (let swept = record state { queue = (scan_once clock disk none state.queue).0 } in
        let after = (drain_passes worker none passes swept).0.queue in
        scan_once later disk none after ≡ (after, some []))
cascade_comes_to_rest worker clock later disk inputs passes state ok v h u walked b enough =
    let (w, fits) =
      scan_once-keeps max_total_retries (omega arith) clock disk none state.queue v h in
    let swept : WorkerState _ = record state {
      queue = (scan_once clock disk none state.queue).0;
    } in
    let (_, _, valid) = drain_passes_empties worker passes swept w b enough in
    next_sweep_quiet clock later disk state.queue _ inputs v valid u walked
      (drain_passes_handles worker ok passes swept w fits b enough)
