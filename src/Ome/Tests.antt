-- ===== src/Ome/Tests.antt =====
-- The theorems on the gates at two strategies.
use ever_os.Prelude.{
  if◌then◌else◌, ne-of-test, keep, count, ℕ, ◌+◌, ◌*◌, ◌≤◌, ◌<◌, String, ◌≡◌, refl, true, false,
  none, some, List, [], ◌∷◌, map, arith, ◌==◌,
}
use ever_os.Ome.Counter.{CounterTable, fetch, microseconds}
use ever_os.Ome.Counter.Rate.{
  GateCheck, run_checks, is_here, passes, progress, last_pass, threshold_rate, cooldown_spacing,
}
use ever_os.Ome.Registry.{BaseEvent, immediate, always, field_is_set, StrategyMeta, Registry}
use ever_os.Ome.Dispatcher.{dispatch, will_run, inspect}
use ever_os.Ome.Dispatcher.DryRun.{inspect_predicts_dispatch}

abbrev counters : CounterTable
counters =
    record {
      strategy_name = "atomic";
      bucket_key = "u1";
      counter = 1;
      last_passed_ts = some 5000000;
    }
    ∷ record { strategy_name = "profile"; bucket_key = "u1"; counter = 2; last_passed_ts = none }
    ∷ []

abbrev check : String → ℕ → ℕ → ℕ → GateCheck
check name threshold cooldown now = record {
  strategy_name = name;
  bucket_key = "u1";
  threshold = threshold;
  cooldown_seconds = cooldown;
  now = now;
}

abbrev quick : List GateCheck
quick = check "atomic" 2 0 10 ∷ check "profile" 3 60 11 ∷ check "atomic" 2 0 12 ∷ []

threshold_rate_example :
    (passes "atomic" "u1" quick counters * 2 + progress "atomic" "u1" (run_checks quick counters)
      ≡ progress "atomic" "u1" counters + count (is_here "atomic" "u1") quick)
    × (progress "atomic" "u1" (run_checks quick counters) < 2)
unfolding fetch
threshold_rate_example =
    threshold_rate "atomic" "u1" 2 quick counters
      ((λ h. (refl, refl)), ((λ h. absurd (ground arith)), ((λ h. (refl, refl)), tt))) (omega arith)

abbrev slow : List GateCheck
slow = check "atomic" 1 3 9000000 ∷ check "atomic" 1 3 10000000 ∷ check "atomic" 1 3 12000000 ∷ []

cooldown_spacing_example :
    (last : ℕ) × (last_pass "atomic" "u1" (run_checks slow counters) ≡ some last)
    × (5000000 + passes "atomic" "u1" slow counters * microseconds 3 ≤ last)
unfolding fetch
cooldown_spacing_example =
    cooldown_spacing "atomic" "u1" 3 (omega arith) slow counters 5000000
      ((λ h. refl), ((λ h. refl), ((λ h. refl), tt))) refl

abbrev saved : BaseEvent
saved = record {
  event_class = "everos.memory.events:EpisodeSaved";
  fields = λ field. if field == "user_id" then some ("u1", true) else none;
}

abbrev atomic : StrategyMeta
atomic = record {
  name = "atomic";
  trigger = immediate ("everos.memory.events:EpisodeSaved" ∷ []);
  applies_to = field_is_set "user_id";
  gate = some (record { threshold = 2; cooldown_seconds = 0; event_field = some "user_id" });
  max_retries = none;
  enabled = true;
}

abbrev profile : StrategyMeta
profile = record atomic { name = "profile"; applies_to = always; gate = none }

abbrev registry : Registry
registry = atomic ∷ profile ∷ []

inspect_predicts_dispatch_example :
    (last : CounterTable) × (out : List (StrategyMeta × String)) × (dispatch
        (λ k. k)
        (λ k. "run")
        saved
        false
        none
        registry
        counters
      ≡ some (last, out))
    × (map (λ run. run.0.name) out
        ≡ map (λ info. info.strategy_name) (keep will_run (inspect saved registry counters)))
inspect_predicts_dispatch_example =
    inspect_predicts_dispatch (λ k. k) (λ k. "run") saved registry counters
      ((ne-of-test _ _ refl, tt), (tt, tt))
      ((λ gate e. ground arith), ((λ gate e. ground arith), tt))
