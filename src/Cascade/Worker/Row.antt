-- ===== src/Cascade/Worker/Row.antt =====
-- What `_process_one` makes of the claimed row.
use ever_os.Prelude.{
  ltb, leb, Bool-cases, Option-cases, count, ℕ, zero, suc, ◌+◌, ◌*◌, ◌≤◌, ◌<◌, String, ◌≡◌, refl,
  inl, inr, Bool, true, false, some, arith,
}
use ever_os.Cascade.Queue.{MdChangeState, Queue, mark_done, mark_failed}
use ever_os.Cascade.Worker.{
  external, Handler, CascadeWorker, WorkerState, max_total_retries, Verdict, finished, exhausted,
  unrecoverable, run_handler, attempts, process_one, settle, refuse,
}

-- The count in a verdict: attempts are counted from the row's own count, one for each retry.
abbrev pub Counted : ℕ → ℕ → Verdict → Type 0
Counted from left (finished outcome) = Unit
Counted from left (exhausted error count) = count ≡ from + left
Counted from left (unrecoverable error count) = (from ≤ count) × (count ≤ from + left)

-- The mark that a claimed row gets. With a budget already spent the count stays; else it grows by
-- at most the retries of one claim, and the row stays retryable only after all of them have been
-- made, and while the count is below the budget.
pub data Marked (row : MdChangeState) (max_retry : ℕ) (queue after : Queue) : Type 0 where
  as_done :
      (now : ℕ)
      → row.retry_count < max_total_retries
      → after ≡ mark_done row.md_path now queue
      → Marked row max_retry queue after
  as_failed :
      (retryable : Bool) (error : String) (count now : ℕ)
      → after ≡ mark_failed row.md_path retryable error count now queue
      → row.retry_count ≤ count
      → count ≤ row.retry_count + max_retry
      → (max_total_retries ≤ row.retry_count → count ≡ row.retry_count)
      → (retryable ≡ true → (count ≡ row.retry_count + max_retry) × (count < max_total_retries))
      → Marked row max_retry queue after

module _ {World : Type 0} (worker : CascadeWorker World) where
  attempts-Counted :
      (handler : Handler World) (row : MdChangeState) (left attempt from : ℕ) (world : World)
      → Counted from left (attempts worker handler row left attempt from world).1
  unfolding attempts
  attempts-Counted handler row zero attempt from world = ground arith
  attempts-Counted handler row (suc left) attempt from world = ground (
    arith,
    attempts-Counted handler row left (attempt + 1) (from + 1)
        (worker.sleep (worker.retry_backoff * (attempt + 1)) (run_handler handler row world).0),
  )

  settle_marks :
      (row : MdChangeState) (state : WorkerState World) (end : World × Verdict)
      → row.retry_count < max_total_retries
      → Counted row.retry_count worker.max_retry end.1
      → Marked row worker.max_retry state.queue (settle worker row state end).0.queue
  unfolding settle
  settle_marks row state (world, finished outcome) fits c =
      as_done (worker.get_utc_now world) fits refl
  settle_marks row state (world, exhausted error count) fits c =
      as_failed (ltb count max_total_retries) error count (worker.get_utc_now world) refl
        (omega arith) (omega arith) (λ over. absurd (omega arith)) (λ e. (c, ground arith))
  settle_marks row state (world, unrecoverable error count) fits c =
      as_failed false error count (worker.get_utc_now world) refl c.0 c.1
        (λ over. absurd (omega arith)) (λ e. absurd (ground arith))

  -- Whatever the handler does, the queue afterwards is the old one with the row marked done, which
  -- takes a count within the budget, or failed. A failed row's count grows by at most the retries
  -- of one claim, and not at all once the budget is spent; it stays retryable only after all those
  -- retries and while the count is below the budget.
  pub process_one_marks :
      (row : MdChangeState) (state : WorkerState World)
      → Marked row worker.max_retry state.queue (process_one worker row state).0.queue
  unfolding process_one
  process_one_marks row state = elim (Option-cases (worker.handlers row.kind)) [
    | inl e ↦ rw (e, process_one) (refused (worker.no_handler_error row.kind))
    | inr (handler, e) ↦
        rw (e, process_one)
          (elim (Bool-cases (leb max_total_retries row.retry_count)) [
            | inl t ↦ rw t (refused (worker.budget_error row.retry_count))
            | inr t ↦ rw t (
                settle_marks row state _ (ground arith)
                  (attempts-Counted handler row worker.max_retry 0 row.retry_count state.world))
          ])
  ]
    where
      refused :
          (error : String)
          → Marked row worker.max_retry state.queue (refuse worker row error state).queue
      refused error =
          as_failed false error row.retry_count (worker.get_utc_now state.world) refl (omega arith)
            (omega arith) (λ over. refl) (λ e. absurd (ground arith))

  exhausting :
      (handler : Handler World) (row : MdChangeState)
      → ((w : World) → (error : String) × ((run_handler handler row w).1 ≡ external error))
      → (left attempt from : ℕ) (world : World)
      → (error : String) × ((attempts worker handler row left attempt from world).1
          ≡ exhausted error (from + left))
  unfolding attempts
  exhausting handler row fails zero attempt from world =
      let (error, e) = fails world in (error, ground arith)
  exhausting handler row fails (suc left) attempt from world =
      let (error, e) = fails world in
      let (last, f) =
        exhausting handler row fails left (attempt + 1) (from + 1)
          (worker.sleep (worker.retry_backoff * (attempt + 1)) (run_handler handler row world).0) in
      (last, ground (arith, f))

  -- A row within the budget whose handler meets an external error at every call is failed with
  -- all retries of this claim on its count, and stays retryable exactly while the count is below
  -- the budget.
  pub persistent_failure :
      (handler : Handler World) (row : MdChangeState) (state : WorkerState World)
      → worker.handlers row.kind ≡ some handler
      → row.retry_count < max_total_retries
      → ((w : World) → (error : String) × ((run_handler handler row w).1 ≡ external error))
      → (error : String) × (now : ℕ) × ((process_one worker row state).0.queue
          ≡ mark_failed row.md_path
              (ltb (row.retry_count + worker.max_retry) max_total_retries)
              error
              (row.retry_count + worker.max_retry)
              now
              state.queue)
  unfolding process_one
  persistent_failure handler row state known fits fails =
      let end = attempts worker handler row worker.max_retry 0 row.retry_count state.world in
      let (error, e) =
        exhausting handler row fails worker.max_retry 0 row.retry_count state.world in
      (error, worker.get_utc_now end.0, ground (arith, known, e))
