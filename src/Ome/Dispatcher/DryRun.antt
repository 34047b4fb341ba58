-- ===== src/Ome/Dispatcher/DryRun.antt =====
-- `inspect` and `dispatch` side by side.
use ever_os.Prelude.{
  if◌then◌else◌, test-of-ne, keep, All, All-keep, ℕ, ◌+◌, String, ◌≡◌, refl, sym, ◌≢◌, Bool, false,
  ◌&&◌, ◌||◌, Option, none, some, List, [], ◌∷◌, map, arith,
}
use ever_os.Ome.Counter.{CounterTable, incr_and_check, get_progress}
use ever_os.Ome.Counter.Rows.{get_progress_lem, incr_and_check_lem, incr_and_check-passed}
use ever_os.Ome.Registry.{
  BaseEvent, Counter, StrategyMeta, Registry, listens, lookup_by_event, UniqueNames,
}
use ever_os.Ome.Dispatcher.{
  routes_to, safe_applies, bucket_key, dispatch, will_run, inspect, pass_gate, dispatch_all,
  candidates, route_info,
}

-- Every gate runs without a cooldown.
abbrev pub NoCooldown : StrategyMeta → Type 0
NoCooldown meta = (gate : Counter) → meta.gate ≡ some gate → gate.cooldown_seconds ≡ 0

-- One pass through the loop of `dispatch_all`.
abbrev gate_step : ℕ → BaseEvent → StrategyMeta → CounterTable → CounterTable × Bool
gate_step now event meta table =
    if routes_to event meta && (false || meta.enabled) && safe_applies meta event
    then pass_gate now event meta table
    else (table, false)

-- The gates of one strategy without a cooldown pass just when the dry run says so.
gate_step-will_run :
    (now : ℕ) (event : BaseEvent) (meta : StrategyMeta) (table : CounterTable)
    → NoCooldown meta
    → (gate_step now event meta table).1
      ≡ (routes_to event meta && will_run (route_info event table meta))
unfolding route_info pass_gate
gate_step-will_run now event meta table free = go meta.gate refl
  where
    go :
        (gate : Option Counter)
        → meta.gate ≡ gate
        → (gate_step now event meta table).1
          ≡ (routes_to event meta && will_run (route_info event table meta))
    go none e = rw e (ground arith)
    go (some gate) e = rw e (
        ground (
          arith,
          free gate e,
          incr_and_check-passed meta.name (bucket_key event gate.event_field) gate.threshold
              gate.cooldown_seconds now table,
        ))

-- A strategy's gate leaves the counters of other names alone.
gate_step-others :
    (now : ℕ) (event : BaseEvent) (meta : StrategyMeta) (table : CounterTable)
    (other bucket : String)
    → other ≢ meta.name
    → get_progress other bucket (gate_step now event meta table).0 ≡ get_progress other bucket table
unfolding pass_gate
gate_step-others now event meta table other bucket ne = go meta.gate refl
  where
    go :
        (gate : Option Counter)
        → meta.gate ≡ gate
        → get_progress other bucket (gate_step now event meta table).0
          ≡ get_progress other bucket table
    go none e = rw e (ground arith)
    go (some gate) e = rw e (
        ground (
          arith,
          test-of-ne meta.name other (λ p. ne (sym p)),
          get_progress_lem other bucket table,
          get_progress_lem other bucket
              (incr_and_check meta.name (bucket_key event gate.event_field) gate.threshold
                gate.cooldown_seconds now table).0,
          (incr_and_check_lem meta.name (bucket_key event gate.event_field) gate.threshold
              gate.cooldown_seconds now table other bucket).0,
        ))

-- The dry run over a table that differs from another only in the counters of other names.
route_info-others :
    (now : ℕ) (event : BaseEvent) (meta : StrategyMeta) (table : CounterTable)
    (other : StrategyMeta)
    → other.name ≢ meta.name
    → route_info event (gate_step now event meta table).0 other ≡ route_info event table other
unfolding route_info
route_info-others now event meta table other ne = go other.gate refl
  where
    go :
        (gate : Option Counter)
        → other.gate ≡ gate
        → route_info event (gate_step now event meta table).0 other ≡ route_info event table other
    go none e = rw e refl
    go (some gate) e =
        rw
          (
            e,
            gate_step-others now event meta table other.name (bucket_key event gate.event_field) ne,
          )
          refl

-- The names that the dry run reports for a list of candidates.
abbrev predicted : BaseEvent → CounterTable → List StrategyMeta → List String
predicted event table metas =
    map (λ info. info.strategy_name)
      (keep will_run (map (route_info event table) (keep (routes_to event) metas)))

predicted-others :
    (now : ℕ) (event : BaseEvent) (meta : StrategyMeta) (table : CounterTable)
    (metas : List StrategyMeta)
    → All (λ other. other.name ≢ meta.name) metas
    → predicted event (gate_step now event meta table).0 metas ≡ predicted event table metas
predicted-others now event meta table [] h = refl
predicted-others now event meta table (other ∷ metas) h = ground (
  arith,
  route_info-others now event meta table other h.0,
  predicted-others now event meta table metas h.1,
)

name-route_info :
    (event : BaseEvent) (table : CounterTable) (meta : StrategyMeta)
    → (route_info event table meta).strategy_name ≡ meta.name
unfolding route_info
name-route_info event table meta = refl

dispatch_all_lem :
    (event : BaseEvent) (metas : List StrategyMeta) (clock : ℕ → ℕ) (fresh : ℕ → String)
    (table : CounterTable)
    → UniqueNames metas
    → All NoCooldown metas
    → map (λ run. run.0.name) (dispatch_all clock fresh event false metas table).1
      ≡ predicted event table metas
unfolding dispatch_all
dispatch_all_lem event [] clock fresh table u free = refl
dispatch_all_lem event (meta ∷ metas) clock fresh table u free = ground (
  arith,
  gate_step-will_run (clock 0) event meta table free.0,
  predicted-others (clock 0) event meta table metas u.0,
  name-route_info event table meta,
  dispatch_all_lem event metas (λ k. clock (k + 1)) (λ k. fresh (k + 1))
      (gate_step (clock 0) event meta table).0 u.1 free.1,
)

UniqueNames-keep :
    (p : StrategyMeta → Bool) (metas : List StrategyMeta)
    → UniqueNames metas
    → UniqueNames (keep p metas)
UniqueNames-keep p [] u = u
UniqueNames-keep p (meta ∷ metas) u =
    ground
      (arith, All-keep (λ other. other.name ≢ meta.name) p metas u.0, UniqueNames-keep p metas u.1)

-- Where registered names are different and no gate has a cooldown, the dry run is right:
-- `dispatch`, with no name given and no force, returns runs of just the strategies that `inspect`
-- reports as running, in the same order, though the counters change while it goes through them.
pub inspect_predicts_dispatch :
    (clock : ℕ → ℕ) (fresh : ℕ → String) (event : BaseEvent) (registry : Registry)
    (table : CounterTable)
    → UniqueNames registry
    → All NoCooldown registry
    → (last : CounterTable) × (out : List (StrategyMeta × String)) × (dispatch clock fresh event
          false none registry table
        ≡ some (last, out))
      × (map (λ run. run.0.name) out
          ≡ map (λ info. info.strategy_name) (keep will_run (inspect event registry table)))
unfolding dispatch candidates inspect lookup_by_event
inspect_predicts_dispatch clock fresh event registry table u free =
    let metas = keep (listens event.event_class) registry in
    let result = dispatch_all clock fresh event false metas table in
    (
      result.0,
      result.1,
      refl,
      dispatch_all_lem event metas clock fresh table (UniqueNames-keep _ registry u)
          (All-keep NoCooldown _ registry free),
    )
