-- ===== src/Ome/Runner.antt =====
-- The attempt loop of a strategy run (src/everos/infra/ome/_dispatch/runner.py). The write that
-- starts an attempt may fail, and so may the one that ends it.
pub mod Rest
use ever_os.Prelude.{
  ltb, if◌then◌else◌, ℕ, zero, suc, ◌+◌, String, Bool, Option, none, some, List, [], ◌∷◌, ◌++◌,
}
use ever_os.Ome.RunRecord.{
  RunRecord, RunTable, Start, find_run, mark_running, mark_success, mark_failed, mark_dead_letter,
}

-- How a call of the strategy ends: it returns, is cancelled, breaks its contract, or raises
-- anything else, with the text that is recorded.
pub data StrategyReply : Type 0 where
  strategy_returned cancelled : StrategyReply
  contract_error raised : (error : String) → StrategyReply

-- How an attempt ends: the run has reached its end, it goes on with a retry, or an exception leaves
-- the runner.
pub data Ending : Type 0 where
  terminated retry aborted : Ending

-- One run: the event as it is recorded, what lies outside the run records, and the callback's
-- presence. `World` is all that a strategy, the clock and the sleep act on.
pub record Run (World : Type 0) : Type 0 where
  pub strategy_name : String
  pub event_topic : String
  pub event_payload : String
  pub event_id : String
  pub max_retries_snapshot : ℕ
  pub max_records : ℕ
  pub func : World → World × StrategyReply
  pub get_utc_now : World → ℕ
  pub uuid : World → World × String
  pub sleep_backoff : ℕ → World → World
  pub start_write_fails : World → Bool
  pub end_write_fails : World → Bool
  pub has_on_dead_letter : Bool

pub record RunState (World : Type 0) : Type 0 where
  pub world : World
  pub runs : RunTable
  pub dead_letters : List RunRecord

module _ {World : Type 0} (run : Run World) where
  abbrev start_of : String → ℕ → Start
  start_of run_id attempt = record {
    run_id = run_id;
    strategy_name = run.strategy_name;
    attempt = attempt;
    event_topic = run.event_topic;
    event_payload = run.event_payload;
    max_retries_snapshot = run.max_retries_snapshot;
    event_id = run.event_id;
  }

  -- `none`: the write has failed, and the run is given up.
  pub record_start : String → ℕ → RunState World → Option RunTable
  record_start run_id attempt state =
      if run.start_write_fails state.world
      then none
      else mark_running run.max_records (start_of run_id attempt) (run.get_utc_now state.world)
          state.runs

  -- The callback gets the record, if there is a callback and the record is still there.
  fire : Option RunRecord → List RunRecord → List RunRecord
  fire none fired = fired
  fire (some row) fired = if run.has_on_dead_letter then fired ++ row ∷ [] else fired

  pub terminate_dead_letter : String → String → RunState World → RunState World
  unfolding fire
  terminate_dead_letter run_id error state =
      let runs = mark_dead_letter run_id (run.get_utc_now state.world) error state.runs in
      record state { runs = runs; dead_letters = fire (find_run run_id runs) state.dead_letters }

  -- The end of an attempt. Where its write fails the row stays RUNNING, and where the strategy is
  -- cancelled there is no such write.
  settle : String → ℕ → RunState World → StrategyReply → RunState World × Ending
  unfolding terminate_dead_letter
  settle run_id attempt state strategy_returned =
      if run.end_write_fails state.world then (state, aborted) else (
        record state { runs = mark_success run_id (run.get_utc_now state.world) state.runs },
        terminated,
      )
  settle run_id attempt state cancelled = (state, aborted)
  settle run_id attempt state (contract_error error) =
      if run.end_write_fails state.world
      then (state, aborted)
      else (terminate_dead_letter run_id error state, terminated)
  settle run_id attempt state (raised error) =
      if run.end_write_fails state.world
      then (state, aborted)
      else if ltb attempt run.max_retries_snapshot
      then (
        record state { runs = mark_failed run_id (run.get_utc_now state.world) error state.runs },
        retry,
      )
      else (terminate_dead_letter run_id error state, terminated)

  pub run_one_attempt : String → ℕ → RunState World → RunState World × Ending
  unfolding record_start settle
  run_one_attempt run_id attempt state = elim (record_start run_id attempt state) [
    | none ↦ (state, terminated)
    | some runs ↦
        let (world, reply) = run.func state.world in
        settle run_id attempt (record state { runs = runs; world = world }) reply
  ]

  -- A retry sleeps and takes a new run id.
  next_attempt : ℕ → RunState World → RunState World × String
  next_attempt attempt state =
      let (world, run_id) = run.uuid (run.sleep_backoff attempt state.world) in
      (record state { world = world }, run_id)

  -- The loop from an attempt on, with `left` attempts after it.
  pub attempts : ℕ → ℕ → String → RunState World → RunState World × Ending
  unfolding run_one_attempt next_attempt
  attempts zero attempt run_id state = run_one_attempt run_id attempt state
  attempts (suc left) attempt run_id state =
      let (after, ending) = run_one_attempt run_id attempt state in
      let (slept, next_id) = next_attempt (attempt + 1) after in
      let rest = attempts left (attempt + 1) next_id slept in
      elim ending [ terminated ↦ (after, terminated) | aborted ↦ (after, aborted) | retry ↦ rest ]

  -- The state after the run, and how its last attempt has ended.
  unfoldable pub run_all : String → RunState World → RunState World × Ending
  unfolding attempts
  run_all run_id state = attempts run.max_retries_snapshot 0 run_id state
