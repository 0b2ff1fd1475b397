-- ===== src/Route/Generation/Stage.antt =====
-- internal/route/matcher.go: `StageGeneration`, `MarkGenerationReady` and `discardPending`.
use paperboat_tunnel.Base.{
  ℕ, Bool, suc, true, false, ◌||◌, List, Option, none, some, ltb, leb, ◌==◌, if◌then◌else◌, same,
  length, ok, err,
}
use paperboat_tunnel.Base.Strings.{Str}
use paperboat_tunnel.Route.Rule.{
  RouteRule, rules-discrete, Error, invalid, generation_stale, generation_not_ready,
  generation_conflict, generation_closed,
}
use paperboat_tunnel.Route.Overlap.{normalize_rules}
use paperboat_tunnel.Route.Generation.State.{
  GenerationState, stage_accepted, stale_rejected, generation_ready, GenerationRegistry, deref,
  store, emit, reject_stage, cancel_state, Outcome, if_some, rule_count,
}

pub data Fence : Type 0 where
  passes repeated : Fence
  refused : Error → Fence

-- The switch that compares a staged generation with the active or the pending one.
unfoldable pub fence : Option GenerationState → ℕ → List RouteRule → Fence
fence none generation rules = passes
fence (some s) generation rules =
    if ltb generation s.generation
    then refused generation_stale
    else if generation == s.generation
    then (if same rules-discrete s.rules rules then repeated else refused generation_conflict)
    else passes

-- newGenerationState
abbrev pub new_generation_state : ℕ → List RouteRule → GenerationState
new_generation_state generation rules = record {
  generation = generation;
  rules = rules;
  cancelled = false;
  ready = false;
  accepting = false;
  streams = 0;
  drained = false;
}

-- A new state is stored as the pending one.
unfoldable pub install : ℕ → List RouteRule → GenerationRegistry → GenerationRegistry
unfolding store
install generation rules g = record (store g.next_state (new_generation_state generation rules) g) {
  pending = some g.next_state;
  next_state = suc g.next_state;
}

-- One of the two switches of `StageGeneration`: it ends the call, or goes on.
unfoldable pub through : Fence → ℕ → List RouteRule → GenerationRegistry → Outcome → Outcome
unfolding emit
through passes generation rules g next = next
through repeated generation rules g next =
    (emit stage_accepted generation 0 (length rules) 0 g, none)
through (refused e) generation rules g next = (reject_stage generation rules e g, some e)

-- `StageGeneration` behind the normalization of the rules.
unfoldable pub stage_normal : ℕ → List RouteRule → GenerationRegistry → Outcome
unfolding emit
stage_normal generation rules g =
    if g.closed
    then (reject_stage generation rules generation_closed g, some generation_closed)
    else through (fence (deref g g.active) generation rules) generation rules g (
        through (fence (deref g g.pending) generation rules) generation rules g (
          emit stage_accepted generation 0 (length rules) 0
              (install generation rules (cancel_state g.pending g)),
          none,
        ))

module _ (to_ascii : Str → Option Str) where
  unfoldable pub stage_generation : ℕ → List RouteRule → GenerationRegistry → Outcome
  stage_generation generation rules g =
      if generation == 0
      then (reject_stage generation rules invalid g, some invalid)
      else elim (normalize_rules to_ascii generation rules g.maximum_routes) [
        | err e ↦ (reject_stage generation rules e g, some e)
        | ok normal ↦ stage_normal generation normal g
      ]

-- The refusal of a generation that is not the pending one.
unfoldable pub refuse_other : Bool → ℕ → GenerationRegistry → Outcome
unfolding emit
refuse_other stale generation g =
    if stale
    then (emit stale_rejected generation 0 0 0 g, some generation_stale)
    else (g, some generation_not_ready)

unfoldable pub mark_pending :
    ℕ → Option GenerationState → Option ℕ → Option GenerationState → GenerationRegistry → Outcome
unfolding store emit
mark_pending generation current (some r) (some p) g =
    if p.generation == generation
    then (
      emit generation_ready generation 0 (length p.rules) 0 (store r (record p { ready = true }) g),
      none,
    )
    else refuse_other (ltb generation p.generation || if_some current (λ a. leb generation a))
        generation g
mark_pending generation current _ _ g =
    refuse_other (if_some current (λ a. leb generation a)) generation g

unfoldable pub mark_generation_ready : ℕ → GenerationRegistry → Outcome
unfolding emit mark_pending
mark_generation_ready generation g =
    let current = deref g g.active in
    if g.closed
    then (g, some generation_closed)
    else if if_some current (λ a. a == generation)
    then (emit generation_ready generation 0 (rule_count current) 0 g, none)
    else mark_pending generation current g.pending (deref g g.pending) g

unfoldable pub discard_pending : ℕ → GenerationRegistry → GenerationRegistry
discard_pending generation g =
    if if_some (deref g g.pending) (λ p. p == generation)
    then record (cancel_state g.pending g) { pending = none }
    else g
