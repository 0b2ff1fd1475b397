-- ===== src/Route/Generation/Stream.antt =====
-- internal/route/matcher.go: `Match`, `Acquire`, `StreamLease.Close` and `release`, the queries of
-- the registry, and its `Close`.
use paperboat_tunnel.Base.{
  ℕ, suc, ◌+◌, ◌-◌, Bool, true, false, not, ◌&&◌, List, [], ◌∷◌, Option, none, some, leb, ◌==◌,
  if◌then◌else◌, length, Result, ok, err, ◌>>=◌, or_err, ℕ_discrete,
}
use paperboat_tunnel.Base.Maps.{get}
use paperboat_tunnel.Base.Strings.{Str, codes, eq_str}
use paperboat_tunnel.Route.Rule.{RouteRule, Error, no_match, stream_overloaded}
use paperboat_tunnel.Route.Request.{normalize_request_path, normalize_match_host}
use paperboat_tunnel.Route.Match.{choose_rule, choose_host_rule}
use paperboat_tunnel.Route.Generation.State.{
  GenerationState, RouteMatch, StreamLease, stream_acquired, stream_released, stream_overload,
  GenerationRegistry, deref, store, emit, cancel_state,
}
use paperboat_tunnel.Route.Generation.Activate.{mark_drained}

-- The active generation, if it accepts streams.
unfoldable pub accepting_state : GenerationRegistry → Option GenerationState
unfolding deref
accepting_state g = elim (deref g g.active) [
  | none ↦ none
  | some s ↦ if s.accepting then some s else none
]

module _ (to_ascii : Str → Option Str) where
  -- The host and the path in normal form, or `ErrNoMatch`.
  unfoldable pub normalize_request : Str → Str → Result Error (Str × Str)
  unfolding normalize_match_host normalize_request_path
  normalize_request host path = elim (normalize_match_host to_ascii host) [
    | err _ ↦ err no_match
    | ok h ↦ elim (normalize_request_path path) [ err _ ↦ err no_match | ok p ↦ ok (h, p) ]
  ]

  -- GenerationRegistry.Match
  unfoldable pub match_request : Str → Str → GenerationRegistry → Result Error RouteMatch
  match_request host path g = do
    (h, p) ← normalize_request host path
    active ← or_err (accepting_state g) no_match
    rule ← choose_rule active.rules h p
    ok (record { rule = rule; host = h; path = p; generation = active.generation })

-- A lease of the state `r`, which has one stream more.
unfoldable pub grant : ℕ → GenerationState → RouteMatch → GenerationRegistry → GenerationRegistry
unfolding store emit
grant r s matched g =
    let lease : StreamLease = record {
      id = g.next_lease;
      state = r;
      matched = matched;
      is_open = true;
    } in
    emit stream_acquired s.generation 0 1 (s.streams + 1)
      (record (store r (record s { streams = s.streams + 1 }) g) {
        leases = lease ∷ g.leases;
        next_lease = suc g.next_lease;
      })

-- `Acquire` behind the choice of the rule.
unfoldable pub admit_chosen :
    ℕ
    → GenerationState
    → Str
    → Str
    → Result Error RouteRule
    → GenerationRegistry
    → GenerationRegistry × Result Error RouteMatch
unfolding emit
admit_chosen r s host path (err e) g = (g, err e)
admit_chosen r s host path (ok rule) g =
    if leb g.maximum_streams s.streams
    then (emit stream_overload s.generation 0 1 s.streams g, err stream_overloaded)
    else (let matched : RouteMatch = record {
      rule = rule;
      host = host;
      path = path;
      generation = s.generation;
    } in
        (grant r s matched g, ok matched))

-- `Acquire` on the active generation `r`, for a request in normal form.
unfoldable pub admit :
    ℕ
    → GenerationState
    → Str
    → Str
    → GenerationRegistry
    → GenerationRegistry × Result Error RouteMatch
admit r s host path g =
    if not s.accepting
    then (g, err no_match)
    else admit_chosen r s host path (choose_rule s.rules host path) g

unfoldable pub admit_active :
    Option ℕ
    → Option GenerationState
    → Str
    → Str
    → GenerationRegistry
    → GenerationRegistry × Result Error RouteMatch
admit_active (some r) (some s) host path g = admit r s host path g
admit_active _ _ host path g = (g, err no_match)

module _ (to_ascii : Str → Option Str) where
  -- GenerationRegistry.Acquire; the lease is the newest of the registry.
  unfoldable pub acquire :
      Str → Str → GenerationRegistry → GenerationRegistry × Result Error RouteMatch
  acquire host path g = elim (normalize_request to_ascii host path) [
    | err e ↦ (g, err e)
    | ok request ↦ admit_active g.active (deref g g.active) request.0 request.1 g
  ]

-- GenerationRegistry.release
unfoldable pub release_state : GenerationState → GenerationState
unfolding mark_drained
release_state s =
    let fewer : GenerationState = record s { streams = s.streams - 1 } in
    if not s.accepting && fewer.streams == 0 then mark_drained fewer else fewer

unfoldable pub release : ℕ → GenerationRegistry → GenerationRegistry
unfolding store emit release_state
release r g = elim (get ℕ_discrete g.states r) [
  | none ↦ g
  | some s ↦
      store r (release_state s)
        (emit stream_released s.generation 0 (length s.rules) (s.streams - 1) g)
]

-- The open lease with an ID.
unfoldable pub find_open : ℕ → List StreamLease → Option StreamLease
find_open id [] = none
find_open id (l ∷ leases) = if l.id == id && l.is_open then some l else find_open id leases

unfoldable pub shut : ℕ → List StreamLease → List StreamLease
shut id [] = []
shut id (l ∷ leases) =
    let rest = shut id leases in
    if l.id == id && l.is_open then record l { is_open = false } ∷ leases else l ∷ rest

-- StreamLease.Close, which acts once. The goroutine of `Acquire` calls it too, when the request's
-- context or the generation's context ends.
unfoldable pub close_lease : ℕ → GenerationRegistry → GenerationRegistry
unfolding release
close_lease id g = elim (find_open id g.leases) [
  | none ↦ g
  | some l ↦ release l.state (record g { leases = shut id g.leases })
]

-- GenerationRegistry.HasActiveGeneration
unfoldable pub has_active_generation : GenerationRegistry → Bool
unfolding accepting_state
has_active_generation g = elim (accepting_state g) [ none ↦ false | some _ ↦ true ]

-- GenerationRegistry.Generation
unfoldable pub current_generation : GenerationRegistry → ℕ
unfolding accepting_state
current_generation g = elim (accepting_state g) [ none ↦ 0 | some s ↦ s.generation ]

-- GenerationRegistry.Snapshot
unfoldable pub snapshot : GenerationRegistry → Option (ℕ × List RouteRule)
unfolding accepting_state
snapshot g = elim (accepting_state g) [ none ↦ none | some s ↦ some (s.generation, s.rules) ]

module _ (to_ascii : Str → Option Str) where
  -- GenerationRegistry.RouteState
  unfoldable pub route_state : Str → GenerationRegistry → Option (Str × Str × Str)
  unfolding accepting_state choose_host_rule
  route_state host g = elim (normalize_match_host to_ascii host) [
    | err _ ↦ none
    | ok h ↦ elim (accepting_state g) [
      | none ↦ none
      | some s ↦ elim (choose_host_rule s.rules h) [
        | none ↦ none
        | some rule ↦ some (
          rule.kind,
          if eq_str rule.observed_state [] then codes "ready" else rule.observed_state,
          rule.reason,
        )
      ]
    ]
  ]

unfoldable pub drain_state : Option ℕ → GenerationRegistry → GenerationRegistry
unfolding store mark_drained
drain_state none g = g
drain_state (some r) g = elim (get ℕ_discrete g.states r) [
  | none ↦ g
  | some s ↦ store r (mark_drained s) g
]

-- GenerationRegistry.Close
unfoldable pub close_registry : GenerationRegistry → GenerationRegistry
unfolding drain_state
close_registry g =
    if g.closed
    then g
    else drain_state g.active (cancel_state g.pending (record g { closed = true }))
