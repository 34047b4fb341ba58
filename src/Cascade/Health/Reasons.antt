-- ===== src/Cascade/Health/Reasons.antt =====
-- What the health report says of the kinds.
use ever_os.Prelude.{
  ltb, leb, eqb, Bool-cases, count, any, All, ℕ, ◌≤◌, ◌<◌, String, ◌≡◌, refl, ◌∙◌, ◌⊎◌, inl, inr,
  Bool, true, false, ◌&&◌, Option, none, some, [], ◌∷◌, arith, ◌==◌, eq_refl,
}
use ever_os.Cascade.Optimizer.{
  KindOptimizerState, OptimizerStates, optimize_failure_alert_threshold,
}
use ever_os.Cascade.Health.{
  CascadeWorkerHealth, Reason, drain_loop_failing, optimize_stuck, cleanup_stalled,
  drain_failure_alert_threshold, prune_stale_seconds_alert, reasons, stale, prune_staleness,
  failure_streak, health, worst_kind,
}

module _ (started_at now : ℕ) where
  abbrev pub seconds_of : Option (ℕ × String) → ℕ
  seconds_of none = 0
  seconds_of (some (seconds, kind)) = seconds

  -- This entry is the worst one: it has this name and is stale for that long.
  abbrev pub is_worst : ℕ → String → String × KindOptimizerState → Bool
  is_worst seconds kind entry = entry.0 == kind && eqb (stale started_at now entry.1) seconds

  worst_kind-some :
      (states : OptimizerStates) (seconds : ℕ) (kind : String)
      → (worst : ℕ) × (name : String) × (worst_kind started_at now (some (seconds, kind)) states
          ≡ some (worst, name))
        × (seconds ≤ worst)
        × All (λ entry. stale started_at now entry.1 ≤ worst) states
        × (((worst ≡ seconds) × (name ≡ kind)) ⊎ (0 < count (is_worst worst name) states))
  unfolding worst_kind
  worst_kind-some [] seconds kind = (seconds, kind, refl, omega arith, tt, inl (refl, refl))
  worst_kind-some ((k, state) ∷ states) seconds kind =
      elim (Bool-cases (ltb seconds (stale started_at now state))) [
        | inl e ↦
            let (worst, name, at, le, all, which) =
              worst_kind-some states (stale started_at now state) k in
            (worst, name, rw e at, ground arith, (le, all), inr (ground (arith, eq_refl k)))
        | inr e ↦
            let (worst, name, at, le, all, which) = worst_kind-some states seconds kind in
            (worst, name, rw e at, le, (ground arith, all), ground arith)
      ]

  -- Once the worker has started and some kind has a state, the staleness that is reported is that
  -- of the kind that is named, and no kind has a larger one.
  pub prune_staleness_lem :
      (entry : String × KindOptimizerState) (states : OptimizerStates)
      → 0 < started_at
      → (seconds : ℕ) × (kind : String) × (prune_staleness started_at now (entry ∷ states)
          ≡ (seconds, some kind))
        × All (λ other. stale started_at now other.1 ≤ seconds) (entry ∷ states)
        × (0 < count (is_worst seconds kind) (entry ∷ states))
  unfolding prune_staleness worst_kind
  prune_staleness_lem (k, state) states begun =
      let (worst, name, at, le, all, which) =
        worst_kind-some states (stale started_at now state) k in
      (worst, name, ground (arith, at), (le, all), ground (arith, eq_refl k))

abbrev pub is_drain_loop_failing : Reason → Bool
is_drain_loop_failing (drain_loop_failing n) = true
is_drain_loop_failing _ = false

abbrev pub is_optimize_stuck : Reason → Bool
is_optimize_stuck (optimize_stuck n) = true
is_optimize_stuck _ = false

abbrev pub is_cleanup_stalled : Reason → Bool
is_cleanup_stalled (cleanup_stalled kind seconds) = true
is_cleanup_stalled _ = false

any-reasons :
    (h : CascadeWorkerHealth)
    → (any is_drain_loop_failing (reasons h)
        ≡ leb drain_failure_alert_threshold h.drain_consecutive_failures)
      × (any is_optimize_stuck (reasons h)
          ≡ leb optimize_failure_alert_threshold h.optimize_failure_streak)
      × (any is_cleanup_stalled (reasons h) ≡ leb prune_stale_seconds_alert h.prune_stale_seconds)
unfolding reasons
any-reasons h = ground arith

failure_streak_lem :
    (states : OptimizerStates)
    → leb optimize_failure_alert_threshold (failure_streak states)
      ≡ any (λ e. leb optimize_failure_alert_threshold e.1.optimize_failures) states
unfolding failure_streak
failure_streak_lem [] = refl
failure_streak_lem ((kind, state) ∷ states) = ground (arith, failure_streak_lem states)

none_stale :
    (started_at now worst : ℕ) (states : OptimizerStates)
    → All (λ e. stale started_at now e.1 ≤ worst) states
    → worst < prune_stale_seconds_alert
    → any (λ e. leb prune_stale_seconds_alert (stale started_at now e.1)) states ≡ false
none_stale started_at now worst [] all low = refl
none_stale started_at now worst (e ∷ states) all low =
    ground (arith, none_stale started_at now worst states all.1)

-- The largest element decides whether any is late.
any-stale :
    (started_at now worst : ℕ) (kind : String) (states : OptimizerStates)
    → All (λ e. stale started_at now e.1 ≤ worst) states
    → 0 < count (is_worst started_at now worst kind) states
    → leb prune_stale_seconds_alert worst
      ≡ any (λ e. leb prune_stale_seconds_alert (stale started_at now e.1)) states
any-stale started_at now worst kind [] all some_worst = absurd (omega arith)
any-stale started_at now worst kind (e ∷ states) all some_worst = ground (
  arith,
  any-stale started_at now worst kind states all.1,
  none_stale started_at now worst states all.1,
)

-- The report of a started worker names the drain loop just when three or more drains in a row have
-- failed, the optimizer just when the failure count of some kind is at least five, and the
-- clean-up just when some kind has been stale for at least 900 seconds.
pub health-reasons :
    (drain_failures unrecoverable_total started_at now : ℕ) (states : OptimizerStates)
    → 0 < started_at
    → let report = reasons (health drain_failures unrecoverable_total started_at now states) in
      (any is_drain_loop_failing report ≡ leb drain_failure_alert_threshold drain_failures)
      × (any is_optimize_stuck report
          ≡ any (λ e. leb optimize_failure_alert_threshold e.1.optimize_failures) states)
      × (any is_cleanup_stalled report
          ≡ any (λ e. leb prune_stale_seconds_alert (stale started_at now e.1)) states)
unfolding health
health-reasons drain_failures unrecoverable_total started_at now states begun =
    let report = health drain_failures unrecoverable_total started_at now states in
    let (drain, stuck, stalled) = any-reasons report in
    (drain, stuck ∙ failure_streak_lem states, stalled ∙ seconds_lem states)
  where
    seconds_lem :
        (kinds : OptimizerStates)
        → leb prune_stale_seconds_alert (prune_staleness started_at now kinds).0
          ≡ any (λ e. leb prune_stale_seconds_alert (stale started_at now e.1)) kinds
    seconds_lem [] = unfold prune_staleness worst_kind in ground arith
    seconds_lem (entry ∷ kinds) =
        let (seconds, kind, at, all, which) =
          prune_staleness_lem started_at now entry kinds begun in
        rw at (any-stale started_at now seconds kind (entry ∷ kinds) all which)
