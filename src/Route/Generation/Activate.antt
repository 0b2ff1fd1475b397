-- ===== src/Route/Generation/Activate.antt =====
-- internal/route/matcher.go: `ActivateGeneration`, `ApplyGeneration`. A wait for the old
-- generation is a value of `Progress`; the environment decides how it ends.
use paperboat_tunnel.Base.{
  ℕ, Bool, true, false, ◌&&◌, ◌||◌, List, Option, none, some, ltb, ◌==◌, if◌then◌else◌, length, ok,
  err, ℕ_discrete,
}
use paperboat_tunnel.Base.Maps.{get}
use paperboat_tunnel.Base.Strings.{Str}
use paperboat_tunnel.Route.Rule.{
  RouteRule, Error, generation_not_ready, generation_closed, drain_timeout,
}
use paperboat_tunnel.Route.Overlap.{normalize_rules}
use paperboat_tunnel.Route.Generation.State.{
  GenerationState, stage_rejected, activated, drain_started, drain_completed, drain_forced,
  GenerationRegistry, deref, store, emit, Outcome, if_some, rule_count,
}
use paperboat_tunnel.Route.Generation.Stage.{
  refuse_other, stage_generation, mark_generation_ready, discard_pending,
}

-- How far the call came: its result, or a wait for the drained channel of an old generation.
pub data Progress : Type 0 where
  finished : Option Error → Progress
  waits_for : ℕ → Progress

-- generationState.markDrained
unfoldable pub mark_drained : GenerationState → GenerationState
mark_drained s = record s { drained = true; cancelled = true }

-- The old generation stops accepting, and is drained at once if it has no streams.
unfoldable pub retire : ℕ → GenerationState → ℕ → GenerationRegistry → GenerationRegistry × Progress
unfolding store emit mark_drained
retire r old generation g =
    let started = emit drain_started old.generation generation (length old.rules) old.streams g in
    if old.streams == 0
    then (
      emit drain_completed old.generation generation (length old.rules) 0
          (store r (mark_drained (record old { accepting = false })) started),
      finished none,
    )
    else (store r (record old { accepting = false }) started, waits_for r)

-- The pending generation, which is ready, becomes the active one.
unfoldable pub make_active : ℕ → GenerationState → GenerationRegistry → GenerationRegistry
unfolding store
make_active p next g = record (store p (record next { accepting = true }) g) {
  active = some p;
  pending = none;
}

-- The emissions of a promotion, and the retirement of the old generation, if there is one.
unfoldable pub replace :
    Option ℕ
    → Option GenerationState
    → GenerationState
    → GenerationRegistry
    → GenerationRegistry × Progress
unfolding emit
replace (some r) (some old) next g =
    retire r old next.generation
      (emit activated next.generation old.generation (length next.rules) next.streams g)
replace _ _ next g =
    (emit activated next.generation 0 (length next.rules) next.streams g, finished none)

unfoldable pub promote : ℕ → GenerationState → GenerationRegistry → GenerationRegistry × Progress
promote p next g = replace g.active (deref g g.active) next (make_active p next g)

abbrev pub ends : Outcome → GenerationRegistry × Progress
ends o = (o.0, finished o.1)

unfoldable pub activate_pending :
    ℕ
    → Option GenerationState
    → Option ℕ
    → Option GenerationState
    → GenerationRegistry
    → GenerationRegistry × Progress
activate_pending generation current (some r) (some p) g =
    if p.generation == generation
    then (if p.ready then promote r p g else (g, finished (some generation_not_ready)))
    else ends (
        refuse_other (if_some current (ltb generation) || ltb generation p.generation) generation g)
activate_pending generation current _ _ g =
    ends (refuse_other (if_some current (ltb generation)) generation g)

unfoldable pub is_nil : Option ℕ → Bool
is_nil none = true
is_nil (some r) = false

stream_count : Option GenerationState → ℕ
stream_count none = 0
stream_count (some s) = s.streams

-- `ActivateGeneration` up to its wait.
unfoldable pub activate_generation : ℕ → GenerationRegistry → GenerationRegistry × Progress
unfolding emit is_nil stream_count
activate_generation generation g =
    let current = deref g g.active in
    if g.closed
    then (g, finished (some generation_closed))
    else if if_some current (λ a. a == generation) && is_nil g.pending
    then (emit activated generation 0 (rule_count current) (stream_count current) g, finished none)
    else activate_pending generation current g.pending (deref g g.pending) g

-- How the wait ends: the old generation drained, the context ended, or the timer fired.
pub data Wake : Type 0 where
  drained : Wake
  context_done : Error → Wake
  timer_fired : Wake

unfoldable pub force_drain : ℕ → ℕ → GenerationRegistry → GenerationRegistry
unfolding store emit
force_drain r generation g = elim (get ℕ_discrete g.states r) [
  | none ↦ g
  | some old ↦
      emit drain_forced old.generation generation (length old.rules) old.streams
        (store r (record old { cancelled = true }) g)
]

-- The end of `ActivateGeneration`, for the old generation `r`.
unfoldable pub finish_activation : ℕ → ℕ → Wake → GenerationRegistry → Outcome
unfolding emit
finish_activation r generation drained g = elim (get ℕ_discrete g.states r) [
  | none ↦ (g, none)
  | some old ↦ (emit drain_completed old.generation generation (length old.rules) 0 g, none)
]
finish_activation r generation (context_done e) g = (force_drain r generation g, some e)
finish_activation r generation timer_fired g = (force_drain r generation g, some drain_timeout)

-- Behind the call of `MarkGenerationReady` in `ApplyGeneration`.
unfoldable pub after_mark : ℕ → Outcome → GenerationRegistry × Progress
after_mark generation (g, some e) = (g, finished (some e))
after_mark generation (g, none) = activate_generation generation g

module _ (to_ascii : Str → Option Str) where
  -- `ApplyGeneration` up to the wait. `ready` is what the callback returns for the rules.
  unfoldable pub apply_generation :
      ℕ
      → List RouteRule
      → (List RouteRule → Option Error)
      → GenerationRegistry
      → GenerationRegistry × Progress
  unfolding emit
  apply_generation generation rules ready g =
      let (staged, outcome) = stage_generation to_ascii generation rules g in
      elim outcome [
        | some e ↦ (staged, finished (some e))
        | none ↦ elim (normalize_rules to_ascii generation rules g.maximum_routes) [
          | err e ↦ (staged, finished (some e))
          | ok normal ↦ elim (ready normal) [
            | some e ↦ (
              emit stage_rejected generation 0 (length normal) 0
                  (discard_pending generation staged),
              finished (some e),
            )
            | none ↦ after_mark generation (mark_generation_ready generation staged)
          ]
        ]
      ]
