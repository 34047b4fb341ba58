-- ===== src/Cascade/Health.antt =====
-- The worker's health signals (src/everos/memory/cascade/worker.py: `health`, `_prune_staleness`
-- and `reasons`). Times are in seconds on the monotonic clock, 0 for a worker that has not started.
pub mod Reasons
mod Tests
use ever_os.Prelude.{
  ltb, leb, eqb, if◌then◌else◌, ℕ, ◌-◌, max, String, Option, none, some, List, [], ◌∷◌, ◌++◌, ◌==◌,
}
use ever_os.Cascade.Optimizer.{
  KindOptimizerState, OptimizerStates, optimize_failure_alert_threshold,
}

pub record CascadeWorkerHealth : Type 0 where
  pub drain_consecutive_failures : ℕ
  pub unrecoverable_total : ℕ
  pub optimize_failure_streak : ℕ
  pub prune_stale_seconds : ℕ
  pub prune_stale_kind : Option String

-- The entries of the list of reasons, without their wording.
pub data Reason : Type 0 where
  drain_loop_failing : (in_a_row : ℕ) → Reason
  optimize_stuck : (in_a_row : ℕ) → Reason
  cleanup_stalled : (kind : String) → (seconds : ℕ) → Reason

abbrev pub drain_failure_alert_threshold : ℕ
drain_failure_alert_threshold = 3

-- Three prune intervals of 300 s.
abbrev pub prune_stale_seconds_alert : ℕ
prune_stale_seconds_alert = 900

abbrev or_unknown : Option String → String
or_unknown none = "unknown"
or_unknown (some kind) = if kind == "" then "unknown" else kind

pub reasons : CascadeWorkerHealth → List Reason
reasons h =
    (if leb drain_failure_alert_threshold h.drain_consecutive_failures
      then drain_loop_failing h.drain_consecutive_failures ∷ []
      else [])
    ++ (if leb optimize_failure_alert_threshold h.optimize_failure_streak
        then optimize_stuck h.optimize_failure_streak ∷ []
        else [])
    ++ (if leb prune_stale_seconds_alert h.prune_stale_seconds
        then cleanup_stalled (or_unknown h.prune_stale_kind) h.prune_stale_seconds ∷ []
        else [])

-- `max(0.0, now - baseline)` of one kind.
abbrev pub stale : ℕ → ℕ → KindOptimizerState → ℕ
stale started_at now state = now - max state.last_prune_at started_at

-- The loop over the kinds; `none` stands for the initial -1.0.
worst_kind : ℕ → ℕ → Option (ℕ × String) → OptimizerStates → Option (ℕ × String)
worst_kind started_at now worst [] = worst
worst_kind started_at now none ((kind, state) ∷ states) =
    worst_kind started_at now (some (stale started_at now state, kind)) states
worst_kind started_at now (some (seconds, worst)) ((kind, state) ∷ states) =
    worst_kind started_at now
      (if ltb seconds (stale started_at now state)
        then some (stale started_at now state, kind)
        else some (seconds, worst))
      states

pub prune_staleness : ℕ → ℕ → OptimizerStates → ℕ × Option String
unfolding worst_kind
prune_staleness started_at now states =
    if eqb started_at 0 then (0, none) else elim (worst_kind started_at now none states) [
      | none ↦ (0, none)
      | some (seconds, kind) ↦ (seconds, some kind)
    ]

-- `max((s.optimize_failures for s in states), default=0)`
pub failure_streak : OptimizerStates → ℕ
failure_streak [] = 0
failure_streak ((kind, state) ∷ states) = max state.optimize_failures (failure_streak states)

pub health : ℕ → ℕ → ℕ → ℕ → OptimizerStates → CascadeWorkerHealth
unfolding prune_staleness failure_streak
health drain_failures unrecoverable_total started_at now states =
    let (seconds, kind) = prune_staleness started_at now states in
    record {
      drain_consecutive_failures = drain_failures;
      unrecoverable_total = unrecoverable_total;
      optimize_failure_streak = failure_streak states;
      prune_stale_seconds = seconds;
      prune_stale_kind = kind;
    }
