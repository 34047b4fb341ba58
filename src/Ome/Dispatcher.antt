-- ===== src/Ome/Dispatcher.antt =====
-- The routing of an event through the gates (src/everos/infra/ome/_dispatch/dispatcher.py).
pub mod DryRun
pub mod Cooldown
use ever_os.Prelude.{
  leb, if◌then◌else◌, keep, ℕ, ◌+◌, String, Bool, true, false, ◌&&◌, ◌||◌, Option, none, some, List,
  [], ◌∷◌, map, ◌==◌,
}
use ever_os.Ome.Counter.{CounterTable, incr_and_check, get_progress}
use ever_os.Ome.Registry.{
  BaseEvent, always, callable, field_is_set, StrategyMeta, Registry, get_meta, lookup_by_event,
}

abbrev field_text : Option (String × Bool) → Option String
field_text none = none
field_text (some (text, truth)) = some text

abbrev field_truth : Option (String × Bool) → Bool
field_truth none = false
field_truth (some (text, truth)) = truth

-- A tick names its one recipient.
unfoldable pub routes_to : BaseEvent → StrategyMeta → Bool
routes_to event meta = elim (field_text (event.fields "strategy_name")) [
  | none ↦ true
  | some target ↦ target == meta.name
]

-- A predicate that raises does not apply.
unfoldable pub safe_applies : StrategyMeta → BaseEvent → Bool
safe_applies meta event = elim meta.applies_to [
  | always ↦ true
  | callable spec ↦ elim (spec event) [ none ↦ false | some answer ↦ answer ]
  | field_is_set field ↦ field_truth (event.fields field)
]

unfoldable pub bucket_key : BaseEvent → Option String → String
bucket_key event none = "__all__"
bucket_key event (some field) = elim (field_text (event.fields field)) [
  | none ↦ "__none__"
  | some text ↦ text
]

-- The counter gate of one strategy at a time: the new table, and whether it passes.
pass_gate : ℕ → BaseEvent → StrategyMeta → CounterTable → CounterTable × Bool
unfolding bucket_key
pass_gate now event meta table = elim meta.gate [
  | none ↦ (table, true)
  | some gate ↦
      let (after, passed, _) =
        incr_and_check meta.name (bucket_key event gate.event_field) gate.threshold
          gate.cooldown_seconds now table in
      (after, passed)
]

-- The loop over the candidates. `clock k` and `fresh k` are the time and the new run id of the
-- k-th candidate.
dispatch_all :
    (ℕ → ℕ)
    → (ℕ → String)
    → BaseEvent
    → Bool
    → List StrategyMeta
    → CounterTable
    → CounterTable × List (StrategyMeta × String)
unfolding routes_to safe_applies pass_gate
dispatch_all clock fresh event force_enabled [] table = (table, [])
dispatch_all clock fresh event force_enabled (meta ∷ metas) table =
    let open_gates =
      routes_to event meta && (force_enabled || meta.enabled) && safe_applies meta event in
    let checked = if open_gates then pass_gate (clock 0) event meta table else (table, false) in
    let (last, out) =
      dispatch_all (λ k. clock (k + 1)) (λ k. fresh (k + 1)) event force_enabled metas checked.0 in
    (last, if checked.1 then (meta, fresh 0) ∷ out else out)

candidates : BaseEvent → Option String → Registry → Option (List StrategyMeta)
candidates event none registry = some (lookup_by_event event.event_class registry)
candidates event (some name) registry = elim (get_meta name registry) [
  | none ↦ none
  | some meta ↦ some (meta ∷ [])
]

-- `none`: KeyError for an unknown `strategy_filter`.
pub dispatch :
    (ℕ → ℕ)
    → (ℕ → String)
    → BaseEvent
    → Bool
    → Option String
    → Registry
    → CounterTable
    → Option (CounterTable × List (StrategyMeta × String))
unfolding candidates dispatch_all
dispatch clock fresh event force_enabled strategy_filter registry table =
    elim (candidates event strategy_filter registry) [
      | none ↦ none
      | some metas ↦ some (dispatch_all clock fresh event force_enabled metas table)
    ]

pub record CounterProgress : Type 0 where
  pub current : ℕ
  pub threshold : ℕ

pub record StrategyRouteInfo : Type 0 where
  pub strategy_name : String
  pub enabled_pass : Bool
  pub applies_to_pass : Bool
  pub counter_pass : Bool
  pub counter_progress : Option CounterProgress

abbrev pub will_run : StrategyRouteInfo → Bool
will_run info = info.enabled_pass && info.applies_to_pass && info.counter_pass

route_info : BaseEvent → CounterTable → StrategyMeta → StrategyRouteInfo
unfolding safe_applies bucket_key
route_info event table meta =
    let applies_pass = meta.enabled && safe_applies meta event in
    let progress =
      if applies_pass
      then elim meta.gate [
        | none ↦ none
        | some gate ↦ some (record {
          current = get_progress meta.name (bucket_key event gate.event_field) table + 1;
          threshold = gate.threshold;
        })
      ]
      else none in
    record {
      strategy_name = meta.name;
      enabled_pass = meta.enabled;
      applies_to_pass = applies_pass;
      counter_pass =
          applies_pass
          && elim progress [ none ↦ true | some seen ↦ leb seen.threshold seen.current ];
      counter_progress = progress;
    }

pub inspect : BaseEvent → Registry → CounterTable → List StrategyRouteInfo
unfolding routes_to route_info
inspect event registry table =
    map (route_info event table)
      (keep (routes_to event) (lookup_by_event event.event_class registry))
