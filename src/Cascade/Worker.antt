-- ===== src/Cascade/Worker.antt =====
-- The claim, dispatch and mark cycle of the worker (src/everos/memory/cascade/worker.py). A handler
-- (src/everos/memory/cascade/handlers/base.py) is an interface: what it does to the world and how
-- its call ends. `World` is all that lies outside the queue: files, the search index, the clock.
pub mod Row
pub mod Drain
pub mod Success
pub mod Rest
mod Tests
use ever_os.Prelude.{
  ltb, leb, eqb, if◌then◌else◌, length, count, contains, ℕ, zero, suc, ◌+◌, ◌*◌, String, Bool,
  false, ◌||◌, Option, none, some, List, [], ◌∷◌,
}
use ever_os.Cascade.Queue.{
  deleted, MdChangeState, Queue, claim_pending_batch, mark_done, mark_failed,
}
use ever_os.Cascade.Reconcile.{is_deleted}
use ever_os.Cascade.Optimizer.{OptimizerStates, schedule_optimize}

pub record HandlerOutcome : Type 0 where
  pub upserted : ℕ
  pub deleted : ℕ
  pub skipped : ℕ

-- How a call of a handler ends: it returns, or it raises `FileNotFoundError`, an
-- `ExternalServiceError`, or any other exception, with the text that the worker formats.
pub data Reply : Type 0 where
  handled : HandlerOutcome → Reply
  file_not_found external other : (error : String) → Reply

pub record Handler (World : Type 0) : Type 0 where
  pub handle_added_or_modified : String → World → World × Reply
  pub handle_deleted : String → World → World × Reply
  pub has_lance_repo : Bool

-- The worker's settings, with the clocks, the sleep between attempts and the texts of two errors.
pub record CascadeWorker (World : Type 0) : Type 0 where
  pub handlers : String → Option (Handler World)
  pub batch_size : ℕ
  pub max_retry : ℕ
  pub retry_backoff : ℕ
  pub optimize_min_interval : ℕ
  pub get_utc_now : World → ℕ
  pub monotonic : World → ℕ
  pub sleep : ℕ → World → World
  pub no_handler_error : String → String
  pub budget_error : ℕ → String

pub record WorkerState (World : Type 0) : Type 0 where
  pub queue : Queue
  pub world : World
  pub unrecoverable_total : ℕ
  pub optimizers : OptimizerStates

abbrev pub max_total_retries : ℕ
max_total_retries = 12

-- How the attempts at one row end, before the row is marked.
pub data Verdict : Type 0 where
  finished : HandlerOutcome → Verdict
  exhausted : (error : String) → (retry_count : ℕ) → Verdict
  unrecoverable : (error : String) → (retry_count : ℕ) → Verdict

abbrev pub wrote : HandlerOutcome → Bool
wrote outcome = ltb 0 outcome.upserted || ltb 0 outcome.deleted

abbrev add_kind : Option String → List String → List String
add_kind none kinds = kinds
add_kind (some kind) kinds = if contains kinds kind then kinds else kind ∷ kinds

module _ {World : Type 0} where
  -- A file that is gone by now is handled as a deletion.
  fold_missing : Handler World → String → World × Reply → World × Reply
  fold_missing handler path (world, file_not_found error) = handler.handle_deleted path world
  fold_missing handler path (world, reply) = (world, reply)

  pub run_handler : Handler World → MdChangeState → World → World × Reply
  unfolding fold_missing
  run_handler handler row world =
      if is_deleted row.change_type
      then handler.handle_deleted row.md_path world
      else fold_missing handler row.md_path (handler.handle_added_or_modified row.md_path world)

  -- The loop over the attempts: `left` retries remain, and `attempt` have been made.
  pub attempts :
      CascadeWorker World
      → Handler World
      → MdChangeState
      → (left attempt retry_count : ℕ) → World
      → World × Verdict
  unfolding run_handler
  attempts worker handler row zero attempt retry_count world =
      let (world', reply) = run_handler handler row world in
      elim reply [
        | handled outcome ↦ (world', finished outcome)
        | external error ↦ (world', exhausted error retry_count)
        | file_not_found error ↦ (world', unrecoverable error retry_count)
        | other error ↦ (world', unrecoverable error retry_count)
      ]
  attempts worker handler row (suc left) attempt retry_count world =
      let (world', reply) = run_handler handler row world in
      elim reply [
        | handled outcome ↦ (world', finished outcome)
        | external error ↦
            attempts worker handler row left (attempt + 1) (retry_count + 1)
              (worker.sleep (worker.retry_backoff * (attempt + 1)) world')
        | file_not_found error ↦ (world', unrecoverable error retry_count)
        | other error ↦ (world', unrecoverable error retry_count)
      ]

  -- The marks at the end of `_process_one`. The kind is returned if the handler has written.
  settle :
      CascadeWorker World
      → MdChangeState
      → WorkerState World
      → World × Verdict
      → WorkerState World × Option String
  settle worker row state (world, finished outcome) = (
    record state {
      queue = mark_done row.md_path (worker.get_utc_now world) state.queue;
      world = world;
    },
    if wrote outcome then some row.kind else none,
  )
  settle worker row state (world, exhausted error count) = (
    record state {
      queue =
          mark_failed row.md_path (ltb count max_total_retries) error count
            (worker.get_utc_now world) state.queue;
      world = world;
    },
    none,
  )
  settle worker row state (world, unrecoverable error count) = (
    record state {
      queue = mark_failed row.md_path false error count (worker.get_utc_now world) state.queue;
      world = world;
      unrecoverable_total = state.unrecoverable_total + 1;
    },
    none,
  )

  -- A row that is failed for good without a call of its handler.
  refuse : CascadeWorker World → MdChangeState → String → WorkerState World → WorkerState World
  refuse worker row error state = record state {
    queue =
        mark_failed row.md_path false error row.retry_count (worker.get_utc_now state.world)
          state.queue;
  }

  pub process_one :
      CascadeWorker World → MdChangeState → WorkerState World → WorkerState World × Option String
  unfolding settle refuse attempts
  process_one worker row state = elim (worker.handlers row.kind) [
    | none ↦ (refuse worker row (worker.no_handler_error row.kind) state, none)
    | some handler ↦
        if leb max_total_retries row.retry_count
        then (refuse worker row (worker.budget_error row.retry_count) state, none)
        else settle worker row state
            (attempts worker handler row worker.max_retry 0 row.retry_count state.world)
  ]

  -- The rows of a batch, one after the other, and the set of the kinds that were written.
  pub process_batch :
      CascadeWorker World → List MdChangeState → WorkerState World → WorkerState World × List String
  unfolding process_one
  process_batch worker [] state = (state, [])
  process_batch worker (row ∷ rows) state =
      let (next, touched) = process_one worker row state in
      let (last, kinds) = process_batch worker rows next in (last, add_kind touched kinds)

  abbrev has_repo : CascadeWorker World → String → Bool
  has_repo worker kind = elim (worker.handlers kind) [ none ↦ false | some h ↦ h.has_lance_repo ]

  pub schedule_all : CascadeWorker World → List String → WorkerState World → WorkerState World
  schedule_all worker [] state = state
  schedule_all worker (kind ∷ kinds) state = schedule_all worker kinds (record state {
    optimizers =
        schedule_optimize worker.optimize_min_interval (worker.monotonic state.world)
          (has_repo worker kind) kind state.optimizers;
  })

  pub drain_once :
      CascadeWorker World → Option (List String) → WorkerState World → WorkerState World × ℕ
  unfolding process_batch schedule_all
  drain_once worker kinds state =
      let (queue, batch) =
        claim_pending_batch worker.batch_size kinds (worker.get_utc_now state.world) state.queue in
      let (done_state, touched) = process_batch worker batch (record state { queue = queue }) in
      (schedule_all worker touched done_state, length batch)

  -- The loop of `drain_until_empty`, over the passes left; the flush of the optimizers that follows
  -- it does not touch the queue.
  pub drain_passes :
      CascadeWorker World → Option (List String) → ℕ → WorkerState World → WorkerState World × ℕ
  unfolding drain_once
  drain_passes worker kinds zero state = (state, 0)
  drain_passes worker kinds (suc passes) state =
      let (next, processed) = drain_once worker kinds state in
      let (last, total) = drain_passes worker kinds passes next in
      if eqb processed 0 then (next, 0) else (last, processed + total)
