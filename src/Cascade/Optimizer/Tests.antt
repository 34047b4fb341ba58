-- ===== src/Cascade/Optimizer/Tests.antt =====
-- The theorems on the maintenance of one kind at a run of six failures.
use ever_os.Prelude.{ℕ, ◌+◌, ◌*◌, ◌≤◌, ◌<◌, ◌≡◌, refl, List, [], ◌∷◌, arith}
use ever_os.Cascade.Optimizer.{
  fresh_state, conflict, raised, should_prune, Beat, optimize_call, run_optimize_once,
}
use ever_os.Cascade.Optimizer.Health.{
  run_beats, failures, fallbacks, fallback_rate, prune_attempts, Spaced, prune_attempts-Spaced,
}

abbrev failing_at : ℕ → Beat
failing_at now = record {
  now = now;
  reply = raised;
  rebuilt_at = now + 1;
  fallback_reply = conflict;
}

abbrev beats : List Beat
beats =
    failing_at 100
    ∷ failing_at 200
    ∷ record (failing_at 300) { reply = conflict }
    ∷ failing_at 400
    ∷ failing_at 500
    ∷ failing_at 600
    ∷ failing_at 700
    ∷ []

fallback_rate_example :
    ((run_beats 250 beats fresh_state).failures_since_fallback < 5)
    × (5 * fallbacks 250 beats fresh_state ≤ 0 + failures beats)
fallback_rate_example = fallback_rate 250 beats fresh_state (omega arith)

prune_attempts-Spaced_example : Spaced 250 0 (prune_attempts 250 beats fresh_state)
prune_attempts-Spaced_example = prune_attempts-Spaced 250 beats fresh_state (omega arith)

-- Tests: the first call and those 250 later attempt a prune, and one rebuild is run.
prunes : prune_attempts 250 beats fresh_state ≡ 100 ∷ 400 ∷ 700 ∷ []
unfolding should_prune run_optimize_once optimize_call
prunes = refl

one_fallback : fallbacks 250 beats fresh_state ≡ 1
unfolding run_optimize_once optimize_call
one_fallback = refl
