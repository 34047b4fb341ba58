-- ===== src/Cascade/Worker/Success.antt =====
-- A worker all of whose handlers succeed: what a drain makes of each row.
use ever_os.Prelude.{
  eqb, Bool-cases, contains, ℕ, zero, suc, ◌*◌, ◌≤◌, ◌<◌, String, ◌≡◌, sym, subst, inl, inr, false,
  none, some, List, [], ◌∷◌, arith, ◌==◌,
}
use ever_os.Cascade.Queue.{MdChangeState, Queue, is_pending, get, claim_pending_batch, mark_done}
use ever_os.Cascade.Queue.Paths.{paths}
use ever_os.Cascade.Queue.Progress.{
  Handled, Progress, claim_finish-Progress, Progress-refl, Progress-trans, Handled-of-Progress,
}
use ever_os.Cascade.Queue.Finish.{Fin, Fin-compose, Fin-mark_done, Fin-refl}
use ever_os.Cascade.Queue.Budget.{CountsBelow, mark_done-CountsBelow, claim_batch-CountsBelow}
use ever_os.Cascade.Queue.Invariant.{IsValid}
use ever_os.Cascade.Queue.Summary.{backlog, idle_of_backlog}
use ever_os.Cascade.Queue.Rows.{All-rows}
use ever_os.Cascade.Worker.Drain.{queue-schedule_all, drain_once_lem, drain_passes_empties}
use ever_os.Cascade.Worker.{
  HandlerOutcome, handled, Handler, CascadeWorker, WorkerState, max_total_retries, finished,
  run_handler, attempts, process_one, process_batch, drain_once, drain_passes,
}

-- Every kind has a handler, and each call of it returns.
pub record Succeeds {World : Type 0} (worker : CascadeWorker World) : Type 0 where
  pub at :
      (kind : String)
      → (handler : Handler World) × (worker.handlers kind ≡ some handler)
        × ((row : MdChangeState) (w : World)
            → (outcome : HandlerOutcome) × ((run_handler handler row w).1 ≡ handled outcome))

-- No row has spent the retry budget.
abbrev pub WithinBudget : Queue → Type 0
WithinBudget = CountsBelow max_total_retries

module _ {World : Type 0} (worker : CascadeWorker World) (ok : Succeeds worker) where
  attempts_finished :
      (handler : Handler World) (row : MdChangeState) (left attempt from : ℕ) (world : World)
      → ((w : World)
          → (outcome : HandlerOutcome) × ((run_handler handler row w).1 ≡ handled outcome))
      → (outcome : HandlerOutcome) × ((attempts worker handler row left attempt from world).1
          ≡ finished outcome)
  unfolding attempts
  attempts_finished handler row zero attempt from world good =
      let (outcome, e) = good world in (outcome, ground arith)
  attempts_finished handler row (suc left) attempt from world good =
      let (outcome, e) = good world in (outcome, ground arith)

  process_one_done :
      (row : MdChangeState) (state : WorkerState World)
      → row.retry_count < max_total_retries
      → (now : ℕ) × ((process_one worker row state).0.queue ≡ mark_done row.md_path now state.queue)
  unfolding process_one
  process_one_done row state fits =
      let (handler, known, good) = ok.at row.kind in
      let (outcome, e) =
        attempts_finished handler row worker.max_retry 0 row.retry_count state.world (good row) in
      (
        worker.get_utc_now
            (attempts worker handler row worker.max_retry 0 row.retry_count state.world).0,
        ground (arith, known, e),
      )

  process_batch_done :
      (rows : List MdChangeState) (state : WorkerState World) (path : String)
      → WithinBudget rows
      → Fin
          (contains (paths rows) path)
          (get path state.queue)
          (get path (process_batch worker rows state).0.queue)
  unfolding process_batch
  process_batch_done [] state path fits = Fin-refl (get path state.queue)
  process_batch_done (row ∷ rows) state path fits =
      let (now, e) = process_one_done row state fits.0 in
      let next = (process_one worker row state).0 in
      Fin-compose (row.md_path == path) (contains (paths rows) path) (get path state.queue)
        (get path next.queue) _
        (subst (λ q. Fin (row.md_path == path) (get path state.queue) (get path q)) (sym e)
          (Fin-mark_done row.md_path path now state.queue))
        (process_batch_done rows next path fits.1)

  process_batch-WithinBudget :
      (rows : List MdChangeState) (state : WorkerState World)
      → WithinBudget rows
      → WithinBudget state.queue
      → WithinBudget (process_batch worker rows state).0.queue
  unfolding process_batch
  process_batch-WithinBudget [] state fits h = h
  process_batch-WithinBudget (row ∷ rows) state fits h =
      let (now, e) = process_one_done row state fits.0 in
      process_batch-WithinBudget rows (process_one worker row state).0 fits.1
        (rw e (mark_done-CountsBelow max_total_retries row.md_path now state.queue h))

  drain_once-Progress :
      (state : WorkerState World)
      → IsValid state.queue
      → WithinBudget state.queue
      → WithinBudget (drain_once worker none state).0.queue
        × ((path : String)
            → Progress (get path state.queue) (get path (drain_once worker none state).0.queue))
  unfolding drain_once
  drain_once-Progress state v h =
      let now = worker.get_utc_now state.world in
      let claim = claim_pending_batch worker.batch_size none now state.queue in
      let (kept, fits) =
        claim_batch-CountsBelow max_total_retries worker.batch_size none now state.queue v.unique
          h in
      let mid : WorkerState World = record state { queue = claim.0 } in
      (
        rw (queue-schedule_all worker) (process_batch-WithinBudget claim.1 mid fits kept),
        λ path. rw (queue-schedule_all worker) (
            claim_finish-Progress worker.batch_size none now state.queue v path _
              (process_batch_done claim.1 mid path fits)),
      )

  drain_passes-Progress :
      (passes : ℕ) (state : WorkerState World)
      → IsValid state.queue
      → WithinBudget state.queue
      → WithinBudget (drain_passes worker none passes state).0.queue
        × ((path : String)
            → Progress
                (get path state.queue)
                (get path (drain_passes worker none passes state).0.queue))
  unfolding drain_passes
  drain_passes-Progress zero state v h = (h, λ path. Progress-refl _)
  drain_passes-Progress (suc passes) state v h =
      let next = (drain_once worker none state).0 in
      let (fits, once) = drain_once-Progress state v h in
      let (fits', rest) =
        drain_passes-Progress passes next (drain_once_lem worker none state v).0 fits in
      elim (Bool-cases (eqb (drain_once worker none state).1 0)) [
        | inl e ↦ rw e (fits, once)
        | inr e ↦ rw e (fits', λ path. Progress-trans _ _ _ (once path) (rest path))
      ]

  -- On a valid table, when every handler succeeds, no row has spent its retry budget, the batch
  -- size is positive and the passes are enough for the backlog, the drain loop makes every pending
  -- row done, with all but its status and the time of its last attempt as before, leaves every
  -- other row as it was, and adds none.
  pub drain_passes_handles :
      (passes : ℕ) (state : WorkerState World)
      → IsValid state.queue
      → WithinBudget state.queue
      → 0 < worker.batch_size
      → backlog state.queue ≤ passes * worker.batch_size
      → (path : String)
      → Handled (get path state.queue) (get path (drain_passes worker none passes state).0.queue)
  drain_passes_handles passes state v h b enough path =
      let after = (drain_passes worker none passes state).0.queue in
      let (empty, _, _) = drain_passes_empties worker passes state v b enough in
      Handled-of-Progress _ _ ((drain_passes-Progress passes state v h).1 path)
        (All-rows (λ row. is_pending row.status ≡ false) path after (idle_of_backlog after empty))
