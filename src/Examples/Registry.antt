-- ===== src/Examples/Registry.antt =====
-- internal/route/matcher.go: a generation that is staged, activated, used and replaced.
use paperboat_tunnel.Base.{
  ◌≡◌, arith, false, true, ◌>>=◌, some, ℕ_discrete, refl, ℕ, zero, suc, List, [], ◌∷◌,
}
use mathlib.Core.Path.{subst}
use paperboat_tunnel.Base.Strings.{codes}
use paperboat_tunnel.Route.Generation.State.{
  GenerationRegistry, GenerationState, StreamLease, new_registry,
}
use paperboat_tunnel.Base.Maps.{get}
use paperboat_tunnel.Route.Generation.Stream.{
  accepting_state, acquire, close_lease, find_open, match_request,
}
use paperboat_tunnel.Route.Generation.Serving.{acquire-matches, close_lease-drains, within_limit}
use paperboat_tunnel.Route.Generation.Activate.{drained}
use paperboat_tunnel.Route.Generation.Invariant.{Inv, StateOk, open_count}
use paperboat_tunnel.Route.Generation.Invariant.Runs.{
  Call, acquires, activates, closes, closes_lease, marks, reached-Inv, run, stages, wakes,
}
use paperboat_tunnel.Examples.Rules.{ascii, exact_rule, wildcard_rule}

abbrev rollout : List Call
rollout =
    stages 1 (exact_rule ∷ [])
    ∷ marks 1
    ∷ activates 1
    ∷ acquires (codes "a.b.c") (codes "/x")
    ∷ stages 2 (wildcard_rule ∷ exact_rule ∷ [])
    ∷ marks 2
    ∷ activates 2
    ∷ closes_lease 0
    ∷ wakes 0 2 drained
    ∷ closes
    ∷ []

reached-Inv_example : Inv (run ascii rollout (new_registry 0 0))
reached-Inv_example = reached-Inv ascii 0 0 rollout

acquire-matches_example :
    (acquire ascii (codes "a.b.c") (codes "/x") (run ascii rollout (new_registry 0 0))).1 ≡ (
      match_request ascii (codes "a.b.c") (codes "/x") (run ascii rollout (new_registry 0 0))
      >>= within_limit
          (accepting_state (run ascii rollout (new_registry 0 0)))
          (run ascii rollout (new_registry 0 0)).maximum_streams)
acquire-matches_example =
    acquire-matches ascii (codes "a.b.c") (codes "/x") (run ascii rollout (new_registry 0 0))

-- A generation that was replaced and has one stream left.
abbrev replaced : GenerationState
replaced = record {
  generation = 1;
  rules = exact_rule ∷ [];
  cancelled = false;
  ready = true;
  accepting = false;
  streams = 1;
  drained = false;
}

abbrev last_lease : StreamLease
last_lease = record {
  id = 0;
  state = 0;
  matched = record { rule = exact_rule; host = codes "a.b.c"; path = codes "/x"; generation = 1 };
  is_open = true;
}

abbrev draining : GenerationRegistry
draining = record (new_registry 0 0) {
  states = (0, replaced) ∷ [];
  next_state = 1;
  leases = last_lease ∷ [];
  next_lease = 1;
}

replaced_fits : StateOk draining 0 replaced
unfolding new_registry open_count
replaced_fits = record {
  fresh = omega arith;
  counted = refl;
  bounded = omega arith;
  sole = λ h. cc;
  idle = λ h. cc;
  waiting = λ h. cc;
}

draining-StateOk :
    (r : ℕ) (s : GenerationState) → get ℕ_discrete draining.states r ≡ some s → StateOk draining r s
unfolding get ℕ_discrete
draining-StateOk zero s h =
    let e : replaced ≡ s = cc in subst (λ t. StateOk draining 0 t) e replaced_fits
draining-StateOk (suc r) s h = absurd (ground arith)

draining-Inv : Inv draining
unfolding open_count new_registry
draining-Inv = record {
  each = draining-StateOk;
  unleased = λ r h. ground arith;
  ordered = λ a p s t ha hp. cc;
  stored = λ a ha. cc;
}

close_lease-drains_example :
    (t : GenerationState) × (get ℕ_discrete (close_lease 0 draining).states 0 ≡ some t)
    × (t.drained ≡ true)
    × (t.streams ≡ 0)
unfolding get find_open open_count ℕ_discrete
close_lease-drains_example =
    close_lease-drains 0 last_lease replaced draining draining-Inv refl refl refl refl
