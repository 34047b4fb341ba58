-- ===== src/Cascade/Optimizer/Health.antt =====
-- What the failure counters and the prune clock mean over any sequence of maintenance calls.
use ever_os.Prelude.{
  if◌then◌else◌, Bool-cases, count, ℕ, ◌+◌, ◌*◌, ◌≤◌, ◌<◌, ◌≡◌, refl, ap, ◌∙◌, subst, ◌⊎◌, inl, inr,
  Bool, true, false, List, [], ◌∷◌, arith,
}
use ever_os.Cascade.Optimizer.{
  KindOptimizerState, RepoReply, returned, conflict, raised, should_prune, Beat, optimize_call,
  run_optimize_once,
}

pub run_beats : ℕ → List Beat → KindOptimizerState → KindOptimizerState
run_beats prune_interval [] state = state
run_beats prune_interval (beat ∷ beats) state =
    run_beats prune_interval beats (run_optimize_once prune_interval beat state)

-- Failures since the last call that returned; a lost commit race does not count.
abbrev pub streak : ℕ → List Beat → ℕ
streak n [] = n
streak n (beat ∷ beats) =
    streak (elim beat.reply [ returned ↦ 0 | conflict ↦ n | raised ↦ n + 1 ]) beats

abbrev is_raised : RepoReply → Bool
is_raised raised = true
is_raised _ = false

abbrev pub failures : List Beat → ℕ
failures = count (λ beat. is_raised beat.reply)

-- The rebuilds that the calls run.
abbrev pub fallbacks : ℕ → List Beat → KindOptimizerState → ℕ
fallbacks prune_interval [] state = 0
fallbacks prune_interval (beat ∷ beats) state =
    (optimize_call prune_interval beat state).1
    + fallbacks prune_interval beats (run_optimize_once prune_interval beat state)

module _ (prune_interval : ℕ) where
  streak-step :
      (beat : Beat) (state : KindOptimizerState)
      → (run_optimize_once prune_interval beat state).optimize_failures ≡ elim beat.reply [
        | returned ↦ 0
        | conflict ↦ state.optimize_failures
        | raised ↦ state.optimize_failures + 1
      ]
  unfolding run_optimize_once optimize_call
  streak-step beat state = ground arith

  rate-step :
      (beat : Beat) (state : KindOptimizerState)
      → state.failures_since_fallback < 5
      → ((run_optimize_once prune_interval beat state).failures_since_fallback < 5)
        × (5 * (optimize_call prune_interval beat state).1
              + (run_optimize_once prune_interval beat state).failures_since_fallback
            ≤ state.failures_since_fallback + (if is_raised beat.reply then 1 else 0))
  unfolding run_optimize_once optimize_call
  rate-step beat state h = (ground arith, ground arith)

  -- The failure count that the health check reads is the number of failures since the last call
  -- that returned: lost commit races leave it alone, and so does the fallback rebuild.
  pub optimize_failures-run_beats :
      (beats : List Beat) (state : KindOptimizerState)
      → (run_beats prune_interval beats state).optimize_failures
        ≡ streak state.optimize_failures beats
  unfolding run_beats
  optimize_failures-run_beats [] state = refl
  optimize_failures-run_beats (beat ∷ beats) state =
      optimize_failures-run_beats beats (run_optimize_once prune_interval beat state)
      ∙ ap (λ n. streak n beats) (streak-step beat state)

  -- From a count of failures since the last rebuild below five, the fallback rebuild runs at most
  -- once in five failures, and that count stays below five.
  pub fallback_rate :
      (beats : List Beat) (state : KindOptimizerState)
      → state.failures_since_fallback < 5
      → ((run_beats prune_interval beats state).failures_since_fallback < 5)
        × (5 * fallbacks prune_interval beats state
            ≤ state.failures_since_fallback + failures beats)
  unfolding run_beats
  fallback_rate [] state h = (h, omega arith)
  fallback_rate (beat ∷ beats) state h =
      let (below, rate) = rate-step beat state h in
      let (later, total) =
        fallback_rate beats (run_optimize_once prune_interval beat state) below in
      (later, ground arith)

  -- When the heavy beats of a sequence are attempted.
  abbrev pub prune_attempts : List Beat → KindOptimizerState → List ℕ
  prune_attempts [] state = []
  prune_attempts (beat ∷ beats) state =
      let rest = prune_attempts beats (run_optimize_once prune_interval beat state) in
      if should_prune prune_interval beat.now state then beat.now ∷ rest else rest

  -- Each time lies an interval after the one before it; the first may follow no attempt at all.
  abbrev pub Spaced : ℕ → List ℕ → Type 0
  Spaced last [] = Unit
  Spaced last (t ∷ ts) = ((last ≡ 0) ⊎ (last + prune_interval ≤ t)) × Spaced t ts

  attempt-step :
      (beat : Beat) (state : KindOptimizerState)
      → (run_optimize_once prune_interval beat state).last_prune_attempt_at ≡ (
          if should_prune prune_interval beat.now state
          then beat.now
          else state.last_prune_attempt_at)
  unfolding run_optimize_once optimize_call
  attempt-step beat state = ground arith

  attempt_due :
      (now : ℕ) (state : KindOptimizerState)
      → 0 < prune_interval
      → should_prune prune_interval now state ≡ true
      → (state.last_prune_attempt_at ≡ 0) ⊎ (state.last_prune_attempt_at + prune_interval ≤ now)
  unfolding should_prune
  attempt_due now state h e = ground arith

  -- With a positive prune interval, each attempt at a prune lies at least the interval after the
  -- one before it, or follows a recorded time of 0, which stands for none; this holds also where
  -- an attempt fails.
  pub prune_attempts-Spaced :
      (beats : List Beat) (state : KindOptimizerState)
      → 0 < prune_interval
      → Spaced state.last_prune_attempt_at (prune_attempts beats state)
  prune_attempts-Spaced [] state h = tt
  prune_attempts-Spaced (beat ∷ beats) state h =
      let next = run_optimize_once prune_interval beat state in
      let rest = prune_attempts-Spaced beats next h in
      elim (Bool-cases (should_prune prune_interval beat.now state)) [
        | inl e ↦
            let at : next.last_prune_attempt_at ≡ beat.now =
              ground (arith, attempt-step beat state) in
            rw e (
              attempt_due beat.now state h e,
              subst (λ t. Spaced t (prune_attempts beats next)) at rest,
            )
        | inr e ↦
            let at : next.last_prune_attempt_at ≡ state.last_prune_attempt_at =
              ground (arith, attempt-step beat state) in
            rw e (subst (λ t. Spaced t (prune_attempts beats next)) at rest)
      ]
