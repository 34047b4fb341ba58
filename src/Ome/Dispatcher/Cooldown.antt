-- ===== src/Ome/Dispatcher/Cooldown.antt =====
-- The dry run and the cooldown, for a registry of one strategy.
use ever_os.Ome.Counter.{
  CounterTable, fetch, last_passed_of, cooldown_ok, incr_and_check, get_progress,
}
use ever_os.Ome.Counter.Rows.{incr_and_check-passed}
use ever_os.Ome.Dispatcher.{
  routes_to, safe_applies, bucket_key, dispatch, will_run, inspect, pass_gate, dispatch_all,
  candidates, route_info,
}
use ever_os.Ome.Registry.{BaseEvent, Counter, StrategyMeta, listens, lookup_by_event}
use ever_os.Prelude.{
  keep, ℕ, ◌+◌, ◌≤◌, String, ◌≡◌, true, false, ◌&&◌, none, some, [], ◌∷◌, map, arith,
}

-- While a cooldown runs the dry run is wrong, in a registry of one strategy: an enabled strategy that applies, whose counter is
-- due and whose cooldown has not elapsed, is reported as running, and is not dispatched to.
inspect_misses_cooldown :
    (clock : ℕ → ℕ) (fresh : ℕ → String) (event : BaseEvent) (meta : StrategyMeta) (gate : Counter)
    (table : CounterTable)
    → meta.gate ≡ some gate
    → listens event.event_class meta ≡ true
    → (routes_to event meta && meta.enabled && safe_applies meta event) ≡ true
    → gate.threshold ≤ get_progress meta.name (bucket_key event gate.event_field) table + 1
    → cooldown_ok
        (last_passed_of (fetch meta.name (bucket_key event gate.event_field) table))
        gate.cooldown_seconds
        (clock 0)
      ≡ false
    → ((last : CounterTable) × (dispatch clock fresh event false none (meta ∷ []) table
          ≡ some (last, [])))
      × (map (λ info. info.strategy_name) (keep will_run (inspect event (meta ∷ []) table))
          ≡ meta.name ∷ [])
unfolding dispatch candidates inspect lookup_by_event dispatch_all route_info pass_gate
inspect_misses_cooldown clock fresh event meta gate table gated heard open_gates due waits = (
  (
    (incr_and_check meta.name (bucket_key event gate.event_field) gate.threshold
        gate.cooldown_seconds (clock 0) table).0,
    ground (arith, gated, heard, open_gates, due, waits, passed),
  ),
  ground (arith, gated, heard, open_gates, due),
)
  where
    passed :
        (incr_and_check meta.name
          (bucket_key event gate.event_field)
          gate.threshold
          gate.cooldown_seconds
          (clock 0)
          table).1
        ≡ false
    passed = ground (
      arith,
      due,
      waits,
      incr_and_check-passed meta.name (bucket_key event gate.event_field) gate.threshold
          gate.cooldown_seconds (clock 0) table,
    )
