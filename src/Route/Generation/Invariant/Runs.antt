-- ===== src/Route/Generation/Invariant/Runs.antt =====
-- internal/route/matcher.go: the calls of a `GenerationRegistry` in any order, as separate steps
-- under its mutex.
use paperboat_tunnel.Base.{
  ℕ, List, [], ◌∷◌, Option, none, some, Option-cases, Result-cases, inl, inr,
}
use paperboat_tunnel.Base.Strings.{Str}
use paperboat_tunnel.Route.Rule.{RouteRule, Error}
use paperboat_tunnel.Route.Overlap.{normalize_rules}
use paperboat_tunnel.Route.Generation.State.{GenerationRegistry, Outcome, new_registry}
use paperboat_tunnel.Route.Generation.Stage.{
  stage_generation, mark_generation_ready, discard_pending,
}
use paperboat_tunnel.Route.Generation.Activate.{
  Wake, activate_generation, after_mark, apply_generation, finish_activation,
}
use paperboat_tunnel.Route.Generation.Stream.{acquire, close_lease, close_registry}
use paperboat_tunnel.Route.Generation.Invariant.{Inv, emit-Inv, new_registry-Inv}
use paperboat_tunnel.Route.Generation.Invariant.Stage.{
  discard_pending-Inv, mark_generation_ready-Inv, stage_generation-Inv,
}
use paperboat_tunnel.Route.Generation.Invariant.Activate.{
  activate_generation-Inv, finish_activation-Inv,
}
use paperboat_tunnel.Route.Generation.Invariant.Stream.{
  acquire-Inv, close_lease-Inv, close_registry-Inv,
}

-- A call, or a part of a call that holds the mutex.
pub data Call : Type 0 where
  stages : ℕ → List RouteRule → Call
  marks discards activates : ℕ → Call
  wakes : ℕ → ℕ → Wake → Call
  applies : ℕ → List RouteRule → (List RouteRule → Option Error) → Call
  acquires : Str → Str → Call
  closes_lease : ℕ → Call
  closes : Call

after_mark-Inv : (n : ℕ) (o : Outcome) → Inv o.0 → Inv (after_mark n o).0
unfolding after_mark
after_mark-Inv n (g, some e) v = v
after_mark-Inv n (g, none) v = activate_generation-Inv n g v

module _ (to_ascii : Str → Option Str) where
  apply_generation-Inv :
      (n : ℕ) (rules : List RouteRule) (ready : List RouteRule → Option Error)
      (g : GenerationRegistry)
      → Inv g
      → Inv (apply_generation to_ascii n rules ready g).0
  unfolding apply_generation
  apply_generation-Inv n rules ready g v =
      let w = stage_generation-Inv to_ascii n rules g v in
      elim (Option-cases (stage_generation to_ascii n rules g).1) [
        | inr (e, q) ↦ rw (q, apply_generation) w
        | inl q ↦ elim (Result-cases (normalize_rules to_ascii n rules g.maximum_routes)) [
          | inr (e, p) ↦ rw (q, p, apply_generation) w
          | inl (normal, p) ↦ elim (Option-cases (ready normal)) [
            | inr (e, d) ↦
                rw (q, p, d, apply_generation) (emit-Inv _ _ _ _ _ _ (discard_pending-Inv n _ w))
            | inl d ↦
                rw (q, p, d, apply_generation)
                  (after_mark-Inv n _ (mark_generation_ready-Inv n _ w))
          ]
        ]
      ]

  unfoldable pub step : Call → GenerationRegistry → GenerationRegistry
  step (stages n rules) g = (stage_generation to_ascii n rules g).0
  step (marks n) g = (mark_generation_ready n g).0
  step (discards n) g = discard_pending n g
  step (activates n) g = (activate_generation n g).0
  step (wakes r n w) g = (finish_activation r n w g).0
  step (applies n rules ready) g = (apply_generation to_ascii n rules ready g).0
  step (acquires host path) g = (acquire to_ascii host path g).0
  step (closes_lease id) g = close_lease id g
  step closes g = close_registry g

  unfoldable pub run : List Call → GenerationRegistry → GenerationRegistry
  run [] g = g
  run (c ∷ calls) g = run calls (step c g)

  pub step-Inv : (c : Call) (g : GenerationRegistry) → Inv g → Inv (step c g)
  unfolding step
  step-Inv (stages n rules) g v = stage_generation-Inv to_ascii n rules g v
  step-Inv (marks n) g v = mark_generation_ready-Inv n g v
  step-Inv (discards n) g v = discard_pending-Inv n g v
  step-Inv (activates n) g v = activate_generation-Inv n g v
  step-Inv (wakes r n w) g v = finish_activation-Inv r n w g v
  step-Inv (applies n rules ready) g v = apply_generation-Inv n rules ready g v
  step-Inv (acquires host path) g v = acquire-Inv to_ascii host path g v
  step-Inv (closes_lease id) g v = close_lease-Inv id g v
  step-Inv closes g v = close_registry-Inv g v

  pub run-Inv : (calls : List Call) (g : GenerationRegistry) → Inv g → Inv (run calls g)
  unfolding run
  run-Inv [] g v = v
  run-Inv (c ∷ calls) g v = run-Inv calls (step c g) (step-Inv c g v)

  -- Every registry that any calls reach from a new one satisfies `Inv`: the stream count of each
  -- generation is the number of its open leases and at most the configured maximum, only the
  -- active generation accepts streams, a pending generation is newer than the active one and has
  -- no streams, and until the registry is closed a drained generation has no streams and accepts
  -- none.
  pub reached-Inv :
      (maximum_routes maximum_streams : ℕ) (calls : List Call)
      → Inv (run calls (new_registry maximum_routes maximum_streams))
  reached-Inv m n calls = run-Inv calls (new_registry m n) (new_registry-Inv m n)
