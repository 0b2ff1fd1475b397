-- ===== src/Route/Generation/State.antt =====
-- internal/route/matcher.go: the state of `GenerationRegistry`. Generations stand in a store under
-- references, since a lease keeps the generation that admitted it.
use paperboat_tunnel.Base.{
  ℕ, Bool, true, false, List, [], ◌∷◌, Option, none, some, ◌==◌, if◌then◌else◌, length, ℕ_discrete,
  ℤ, pos, pos_part, ltbℤ, Result, ok, err,
}
use paperboat_tunnel.Base.Maps.{Map, get, put}
use paperboat_tunnel.Base.Strings.{Str}
use paperboat_tunnel.Route.Rule.{RouteRule, Error, generation_stale, invalid}

pub record GenerationState : Type 0 where
  pub generation : ℕ
  pub rules : List RouteRule
  pub cancelled : Bool
  pub ready : Bool
  pub accepting : Bool
  pub streams : ℕ
  pub drained : Bool

pub record RouteMatch : Type 0 where
  pub rule : RouteRule
  pub host : Str
  pub path : Str
  pub generation : ℕ

-- A `StreamLease` of the registry; `is_open` until its `Close` has run.
pub record StreamLease : Type 0 where
  pub id : ℕ
  pub state : ℕ
  pub matched : RouteMatch
  pub is_open : Bool

pub data LifecycleType : Type 0 where
  stage_accepted stage_rejected stale_rejected generation_ready activated : LifecycleType
  drain_started drain_completed drain_forced : LifecycleType
  stream_acquired stream_released stream_overload : LifecycleType

-- What `emitLifecycle` is called with; the rules by their number.
pub record Lifecycle : Type 0 where
  pub event : LifecycleType
  pub generation : ℕ
  pub previous_generation : ℕ
  pub route_count : ℕ
  pub active_streams : ℕ

pub record GenerationRegistry : Type 0 where
  pub maximum_routes : ℕ
  pub maximum_streams : ℕ
  pub states : Map ℕ GenerationState
  pub next_state : ℕ
  pub active : Option ℕ
  pub pending : Option ℕ
  pub closed : Bool
  pub leases : List StreamLease
  pub next_lease : ℕ
  pub events : List Lifecycle

-- A registry for two numbers that are not negative.
unfoldable pub new_registry : ℕ → ℕ → GenerationRegistry
new_registry maximum_routes maximum_streams = record {
  maximum_routes = if maximum_routes == 0 then 4096 else maximum_routes;
  maximum_streams = if maximum_streams == 0 then 16384 else maximum_streams;
  states = [];
  next_state = 0;
  active = none;
  pending = none;
  closed = false;
  leases = [];
  next_lease = 0;
  events = [];
}

-- NewGenerationRegistryWithOptions
unfoldable pub new_registry_with_options : ℤ → ℤ → Result Error GenerationRegistry
new_registry_with_options maximum_routes maximum_streams =
    if ltbℤ maximum_streams (pos 0)
    then err invalid
    else ok (new_registry (pos_part maximum_routes) (pos_part maximum_streams))

-- The state that a pointer of the registry points to.
unfoldable pub deref : GenerationRegistry → Option ℕ → Option GenerationState
deref g none = none
deref g (some r) = get ℕ_discrete g.states r

unfoldable pub store : ℕ → GenerationState → GenerationRegistry → GenerationRegistry
store r s g = record g { states = put ℕ_discrete g.states r s }

unfoldable pub emit : LifecycleType → ℕ → ℕ → ℕ → ℕ → GenerationRegistry → GenerationRegistry
emit event generation previous rules streams g = record g {
  events =
      record {
        event = event;
        generation = generation;
        previous_generation = previous;
        route_count = rules;
        active_streams = streams;
      }
      ∷ g.events;
}

-- emitStageRejection
unfoldable pub reject_stage : ℕ → List RouteRule → Error → GenerationRegistry → GenerationRegistry
unfolding emit
reject_stage generation rules generation_stale g =
    emit stale_rejected generation 0 (length rules) 0
      (emit stage_rejected generation 0 (length rules) 0 g)
reject_stage generation rules cause g = emit stage_rejected generation 0 (length rules) 0 g

unfoldable pub cancel_state : Option ℕ → GenerationRegistry → GenerationRegistry
unfolding deref store
cancel_state r g = elim r [
  | none ↦ g
  | some i ↦ elim (get ℕ_discrete g.states i) [
    | none ↦ g
    | some s ↦ store i (record s { cancelled = true }) g
  ]
]

abbrev pub Outcome : Type 0
Outcome = GenerationRegistry × Option Error

-- `p != nil && test(p.generation)`
abbrev pub if_some : Option GenerationState → (ℕ → Bool) → Bool
if_some none test = false
if_some (some s) test = test s.generation

-- `len(p.rules)`, where `p` is not nil.
abbrev pub rule_count : Option GenerationState → ℕ
rule_count none = 0
rule_count (some s) = length s.rules
