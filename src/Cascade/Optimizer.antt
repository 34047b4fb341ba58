-- ===== src/Cascade/Optimizer.antt =====
-- The per-kind maintenance of the search index by the worker
-- (src/everos/memory/cascade/worker.py): throttled `optimize`, prune beats and the fallback
-- rebuild. Times are on the worker's monotonic clock; 0 stands for "never", as in the source.
pub mod Health
mod Tests
use ever_os.Prelude.{
  leb, eqb, if◌then◌else◌, ℕ, zero, suc, ◌+◌, ◌-◌, String, Bool, true, false, ◌||◌, Option, none,
  some, List, [], ◌∷◌, ◌==◌,
}

pub record KindOptimizerState : Type 0 where
  pub last_run_at : ℕ
  pub last_prune_attempt_at : ℕ
  pub last_prune_at : ℕ
  pub dirty : Bool
  pub optimize_failures : ℕ
  pub failures_since_fallback : ℕ
  pub rebuild_retry_at : ℕ
  pub rebuild_attempt : ℕ
  -- the runner in flight, by its initial delay
  pub task : Option ℕ

abbrev pub fresh_state : KindOptimizerState
fresh_state = record {
  last_run_at = 0;
  last_prune_attempt_at = 0;
  last_prune_at = 0;
  dirty = false;
  optimize_failures = 0;
  failures_since_fallback = 0;
  rebuild_retry_at = 0;
  rebuild_attempt = 0;
  task = none;
}

abbrev pub OptimizerStates : Type 0
OptimizerStates = List (String × KindOptimizerState)

pub state_of : String → OptimizerStates → Option KindOptimizerState
state_of kind [] = none
state_of kind ((k, state) ∷ states) = if k == kind then some state else state_of kind states

-- `states.setdefault(kind, fresh)`, then the state replaced by `change` of it.
pub change_state :
    String → (KindOptimizerState → KindOptimizerState) → OptimizerStates → OptimizerStates
change_state kind change [] = (kind, change fresh_state) ∷ []
change_state kind change ((k, state) ∷ states) =
    if k == kind then (k, change state) ∷ states else (k, state) ∷ change_state kind change states

-- Set the trailing-edge flag; start a runner unless one is in flight.
mark_dirty : ℕ → ℕ → KindOptimizerState → KindOptimizerState
mark_dirty min_interval now state = elim state.task [
  | some delay ↦ record state { dirty = true }
  | none ↦ record state { dirty = true; task = some (min_interval - (now - state.last_run_at)) }
]

-- `_schedule_optimize`; nothing happens for a kind whose handler has no `lance_repo`.
pub schedule_optimize : ℕ → ℕ → Bool → String → OptimizerStates → OptimizerStates
unfolding mark_dirty change_state
schedule_optimize min_interval now has_repo kind states =
    if has_repo then change_state kind (mark_dirty min_interval now) states else states

-- How a call of the index repository ends: it returns, it raises a lost commit race, or it raises
-- anything else.
pub data RepoReply : Type 0 where
  returned conflict raised : RepoReply

abbrev pub optimize_failure_alert_threshold : ℕ
optimize_failure_alert_threshold = 5

-- 10 min, 30 min and 3 h, in seconds
abbrev pub rebuild_conflict_backoffs : List ℕ
rebuild_conflict_backoffs = 600 ∷ 1800 ∷ 10800 ∷ []

abbrev pub backoff_at : List ℕ → ℕ → Option ℕ
backoff_at [] i = none
backoff_at (b ∷ bs) zero = some b
backoff_at (b ∷ bs) (suc i) = backoff_at bs i

-- The end of `_run_rebuild_once`, after the rebuild has been run.
settle_rebuild : ℕ → RepoReply → KindOptimizerState → KindOptimizerState
settle_rebuild now returned state = record state { rebuild_attempt = 0; rebuild_retry_at = 0 }
settle_rebuild now raised state = record state { rebuild_attempt = 0; rebuild_retry_at = 0 }
settle_rebuild now conflict state =
    elim (backoff_at rebuild_conflict_backoffs state.rebuild_attempt) [
      | none ↦ record state { rebuild_attempt = 0; rebuild_retry_at = 0 }
      | some delay ↦ record state {
        rebuild_attempt = state.rebuild_attempt + 1;
        rebuild_retry_at = now + delay;
      }
    ]

pub should_prune : ℕ → ℕ → KindOptimizerState → Bool
should_prune prune_interval now state =
    eqb state.last_prune_attempt_at 0 || leb prune_interval (now - state.last_prune_attempt_at)

-- One maintenance call as the worker runs it: when, how it ends, and how the fallback rebuild ends
-- if it is run, and when.
pub record Beat : Type 0 where
  pub now : ℕ
  pub reply : RepoReply
  pub rebuilt_at : ℕ
  pub fallback_reply : RepoReply

abbrev succeeded : Bool → ℕ → KindOptimizerState → KindOptimizerState
succeeded true now state = record state {
  last_prune_at = now;
  optimize_failures = 0;
  failures_since_fallback = 0;
}
succeeded false now state = record state { optimize_failures = 0; failures_since_fallback = 0 }

-- The handling of a failure, and the calls of `_run_rebuild_once` that it makes.
abbrev failed_once : Beat → KindOptimizerState → KindOptimizerState × ℕ
unfolding settle_rebuild
failed_once beat state =
    let counted = record state {
      optimize_failures = state.optimize_failures + 1;
      failures_since_fallback = state.failures_since_fallback + 1;
    } in
    if leb optimize_failure_alert_threshold counted.failures_since_fallback
    then (
      record (settle_rebuild beat.rebuilt_at beat.fallback_reply counted) {
        failures_since_fallback = 0;
      },
      1,
    )
    else (counted, 0)

-- `_run_optimize_once` for a kind with a repository and a state, with the number of rebuilds that
-- it runs.
pub optimize_call : ℕ → Beat → KindOptimizerState → KindOptimizerState × ℕ
unfolding settle_rebuild should_prune
optimize_call prune_interval beat state =
    let heavy = should_prune prune_interval beat.now state in
    let attempted : KindOptimizerState =
      (if heavy then record state { last_prune_attempt_at = beat.now } else state) in
    elim beat.reply [
      | returned ↦ (succeeded heavy beat.now attempted, 0)
      | conflict ↦ (attempted, 0)
      | raised ↦ failed_once beat attempted
    ]

-- The state after it.
pub run_optimize_once : ℕ → Beat → KindOptimizerState → KindOptimizerState
unfolding optimize_call
run_optimize_once prune_interval beat state = (optimize_call prune_interval beat state).0
