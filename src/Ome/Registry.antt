-- ===== src/Ome/Registry.antt =====
-- The strategies of the engine and their registry (src/everos/infra/ome/decorator.py, gates.py,
-- triggers.py, events.py and _dispatch/registry.py). An event class is named by its topic; the
-- functions of the strategies and the cron expressions are not part of a strategy here.
use ever_os.Prelude.{
  if◌then◌else◌, keep, All, contains, ℕ, String, ◌≢◌, Bool, Option, none, some, List, [], ◌∷◌, ◌++◌,
  ◌==◌,
}

-- A field that an event lacks, or that is `None`, reads as `none`; another one as its text and its
-- truth value.
pub record BaseEvent : Type 0 where
  pub event_class : String
  pub fields : String → Option (String × Bool)

pub data Trigger : Type 0 where
  immediate : (on : List String) → Trigger
  cron : Trigger
  idle : (on : List String) → (event_field : String) → (idle_seconds : ℕ) → Trigger

-- A callable returns a truth value, or `none` where it raises.
pub data AppliesTo : Type 0 where
  always : AppliesTo
  callable : (BaseEvent → Option Bool) → AppliesTo
  field_is_set : String → AppliesTo

pub record Counter : Type 0 where
  pub threshold : ℕ
  pub cooldown_seconds : ℕ
  pub event_field : Option String

pub record StrategyMeta : Type 0 where
  pub name : String
  pub trigger : Trigger
  pub applies_to : AppliesTo
  pub gate : Option Counter
  pub max_retries : Option ℕ
  pub enabled : Bool

-- The dict of the registry, in the order of registration.
abbrev pub Registry : Type 0
Registry = List StrategyMeta

abbrev pub cron_tick : String
cron_tick = "everos.infra.ome.events:CronTick"

abbrev pub idle_tick : String
idle_tick = "everos.infra.ome.events:IdleTick"

-- `none`: KeyError.
pub get_meta : String → Registry → Option StrategyMeta
get_meta name [] = none
get_meta name (meta ∷ metas) = if meta.name == name then some meta else get_meta name metas

-- `none`: StartupValidationError for a duplicate name.
pub register : StrategyMeta → Registry → Option Registry
unfolding get_meta
register meta registry = elim (get_meta meta.name registry) [
  | none ↦ some (registry ++ meta ∷ [])
  | some found ↦ none
]

abbrev pub listens : String → StrategyMeta → Bool
listens event_class meta = elim meta.trigger [
  | immediate on ↦ contains on event_class
  | cron ↦ event_class == cron_tick
  | idle on event_field idle_seconds ↦ event_class == idle_tick
]

unfoldable pub lookup_by_event : String → Registry → List StrategyMeta
lookup_by_event event_class = keep (listens event_class)

-- Registered names are different.
abbrev pub UniqueNames : Registry → Type 0
UniqueNames [] = Unit
UniqueNames (meta ∷ metas) = All (λ other. other.name ≢ meta.name) metas × UniqueNames metas
