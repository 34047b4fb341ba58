-- ===== src/Cascade/Worker/Drain.antt =====
-- The drain loop empties the backlog.
use ever_os.Prelude.{
  eqb, Bool-cases, count, ℕ, zero, suc, ◌+◌, ◌*◌, ◌≤◌, ◌<◌, min, String, ◌≡◌, refl, ◌∙◌, inl, inr,
  Option, none, List, [], ◌∷◌, arith,
}
use ever_os.Cascade.Queue.{MdChangeState, Queue, eligible, claim_pending_batch}
use ever_os.Cascade.Queue.Invariant.{IsValid}
use ever_os.Cascade.Queue.Summary.{backlog, backlog-mark_done, backlog-mark_failed, claim_takes}
use ever_os.Cascade.Queue.Traces.{claim_batch-IsValid, mark_done-IsValid, mark_failed-IsValid}
use ever_os.Cascade.Worker.{
  CascadeWorker, WorkerState, process_one, process_batch, schedule_all, drain_once, drain_passes,
}
use ever_os.Cascade.Worker.Row.{as_done, as_failed, process_one_marks}

-- Without a restriction on the kinds every pending row may be claimed.
count-eligible : (queue : Queue) → count (eligible none) queue ≡ backlog queue
count-eligible [] = refl
count-eligible (row ∷ rows) = ground (arith, count-eligible rows)

module _ {World : Type 0} (worker : CascadeWorker World) where
  -- Marking a row takes nothing off the backlog, and puts nothing on it.
  process_one-backlog :
      (row : MdChangeState) (state : WorkerState World)
      → backlog (process_one worker row state).0.queue ≡ backlog state.queue
  process_one-backlog row state = elim (process_one_marks worker row state) [
    | as_done now fits e ↦ rw e (backlog-mark_done row.md_path now state.queue)
    | as_failed retryable error count now e _ _ _ _ ↦
        rw e (backlog-mark_failed row.md_path retryable error count now state.queue)
  ]

  process_one-IsValid :
      (row : MdChangeState) (state : WorkerState World)
      → IsValid state.queue
      → IsValid (process_one worker row state).0.queue
  process_one-IsValid row state v = elim (process_one_marks worker row state) [
    | as_done now fits e ↦ rw e (mark_done-IsValid row.md_path now state.queue v)
    | as_failed retryable error count now e _ _ _ _ ↦
        rw e (mark_failed-IsValid row.md_path retryable error count now state.queue v)
  ]

  process_batch-keeps :
      (rows : List MdChangeState) (state : WorkerState World)
      → IsValid state.queue
      → IsValid (process_batch worker rows state).0.queue
        × (backlog (process_batch worker rows state).0.queue ≡ backlog state.queue)
  unfolding process_batch
  process_batch-keeps [] state v = (v, refl)
  process_batch-keeps (row ∷ rows) state v =
      let next = (process_one worker row state).0 in
      let (w, e) = process_batch-keeps rows next (process_one-IsValid row state v) in
      (w, e ∙ process_one-backlog row state)

  pub queue-schedule_all :
      (kinds : List String) (state : WorkerState World)
      → (schedule_all worker kinds state).queue ≡ state.queue
  unfolding schedule_all
  queue-schedule_all [] state = refl
  queue-schedule_all (kind ∷ kinds) state = queue-schedule_all kinds _

  -- One drain of a valid table leaves it valid, returns the batch size or the number of the rows
  -- that it may take, whichever is less, and takes that many off the backlog, whatever the
  -- handlers do.
  pub drain_once_lem :
      (kinds : Option (List String)) (state : WorkerState World)
      → IsValid state.queue
      → let (next, processed) = drain_once worker kinds state in
        IsValid next.queue
        × (processed ≡ min worker.batch_size (count (eligible kinds) state.queue))
        × (backlog next.queue + processed ≡ backlog state.queue)
  unfolding drain_once
  drain_once_lem kinds state v =
      let now = worker.get_utc_now state.world in
      let claim = claim_pending_batch worker.batch_size kinds now state.queue in
      let (size, taken) = claim_takes worker.batch_size kinds now state.queue v.unique in
      let (w, e) =
        process_batch-keeps claim.1 (record state { queue = claim.0 })
          (claim_batch-IsValid worker.batch_size kinds now state.queue v) in
      (rw queue-schedule_all w, size, rw queue-schedule_all (omega (arith, e, taken)))

  -- On a valid table, with a positive batch size, no restriction on the kinds and passes enough
  -- for the backlog, the drain loop ends with nothing pending and a valid table, and returns how
  -- many rows were pending, whether their handlers succeed or fail; nothing else writes the table
  -- meanwhile.
  pub drain_passes_empties :
      (passes : ℕ) (state : WorkerState World)
      → IsValid state.queue
      → 0 < worker.batch_size
      → backlog state.queue ≤ passes * worker.batch_size
      → (backlog (drain_passes worker none passes state).0.queue ≡ 0)
        × ((drain_passes worker none passes state).1 ≡ backlog state.queue)
        × IsValid (drain_passes worker none passes state).0.queue
  unfolding drain_passes
  drain_passes_empties zero state v b enough = (omega arith, omega arith, v)
  drain_passes_empties (suc passes) state v b enough =
      let (w, size, left) = drain_once_lem none state v in
      let next = (drain_once worker none state).0 in
      let all = count-eligible state.queue in
      elim (Bool-cases (eqb (drain_once worker none state).1 0)) [
        | inl e ↦ rw e (ground (arith, size, left, all), ground (arith, size, left, all), w)
        | inr e ↦
            let (z, total, valid) =
              drain_passes_empties passes next w b (ground (arith, size, left, all, e)) in
            rw e (z, omega (arith, total, left), valid)
      ]
