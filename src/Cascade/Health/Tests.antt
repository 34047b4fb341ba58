-- ===== src/Cascade/Health/Tests.antt =====
-- The theorems on the health report at two kinds, one of which is in trouble.
use ever_os.Prelude.{leb, any, ◌≡◌, refl, some, [], ◌∷◌, arith}
use ever_os.Cascade.Optimizer.{
  KindOptimizerState, fresh_state, OptimizerStates, optimize_failure_alert_threshold,
}
use ever_os.Cascade.Health.{
  drain_failure_alert_threshold, prune_stale_seconds_alert, reasons, stale, prune_staleness, health,
}
use ever_os.Cascade.Health.Reasons.{
  is_drain_loop_failing, is_optimize_stuck, is_cleanup_stalled, health-reasons,
}

abbrev pruned : KindOptimizerState
pruned = record fresh_state { last_prune_at = 5000 }

abbrev troubled : KindOptimizerState
troubled = record fresh_state { last_prune_at = 2000; optimize_failures = 6 }

abbrev states : OptimizerStates
states = ("episode", pruned) ∷ ("profile", troubled) ∷ []

health-reasons_example :
    let report = reasons (health 1 0 100 5100 states) in
    (any is_drain_loop_failing report ≡ leb drain_failure_alert_threshold 1)
    × (any is_optimize_stuck report
        ≡ any (λ e. leb optimize_failure_alert_threshold e.1.optimize_failures) states)
    × (any is_cleanup_stalled report
        ≡ any (λ e. leb prune_stale_seconds_alert (stale 100 5100 e.1)) states)
health-reasons_example = health-reasons 1 0 100 5100 states (omega arith)

-- Tests: the kind in trouble is named, though the other one has just been pruned.
names_worst : prune_staleness 100 5100 states ≡ (3100, some "profile")
unfolding prune_staleness
names_worst = refl
