-- ===== src/Route/Generation/Serving.antt =====
-- internal/route/matcher.go: what `Acquire` grants, against `Match`, and what the end of the last
-- stream of an old generation does.
use paperboat_tunnel.Base.{
  ℕ, ◌≡◌, refl, ◌∙◌, Bool, true, false, not, Option, none, some, arith, Option-cases, Result-cases,
  inl, inr, Result, ok, err, ◌>>=◌, or_err, leb, if◌then◌else◌, ℕ_discrete,
}
use paperboat_tunnel.Base.Maps.{get, get-put}
use paperboat_tunnel.Base.Strings.{Str}
use paperboat_tunnel.Route.Rule.{Error, RouteRule, no_match, stream_overloaded}
use paperboat_tunnel.Route.Match.{choose_rule}
use paperboat_tunnel.Route.Generation.State.{
  GenerationRegistry, GenerationState, RouteMatch, StreamLease, deref, emit, store,
}
use paperboat_tunnel.Route.Generation.Activate.{mark_drained}
use paperboat_tunnel.Route.Generation.Stream.{
  accepting_state, acquire, admit, admit_active, admit_chosen, close_lease, find_open,
  match_request, normalize_request, release_state, shut,
}
use paperboat_tunnel.Route.Generation.Invariant.{Inv, open_count}
use paperboat_tunnel.Route.Generation.Invariant.Stream.{release_stored}

-- The limit on the streams of the active generation.
unfoldable pub within_limit : Option GenerationState → ℕ → RouteMatch → Result Error RouteMatch
within_limit none maximum m = err no_match
within_limit (some s) maximum m = if leb maximum s.streams then err stream_overloaded else ok m

-- `Match` behind the normalization of the request.
unfoldable match_normal : Option GenerationState → Str → Str → Result Error RouteMatch
match_normal active host path = do
  s ← or_err active no_match
  rule ← choose_rule s.rules host path
  ok (record { rule = rule; host = host; path = path; generation = s.generation })

unfoldable accepting_of : Option GenerationState → Option GenerationState
accepting_of none = none
accepting_of (some s) = if s.accepting then some s else none

chosen-matches :
    (r : ℕ) (s : GenerationState) (host path : Str) (chosen : Result Error RouteRule)
    (g : GenerationRegistry)
    → (admit_chosen r s host path chosen g).1 ≡ (
        chosen >>= λ rule.
        within_limit
          (some s)
          g.maximum_streams
          (record { rule = rule; host = host; path = path; generation = s.generation }))
unfolding admit_chosen within_limit
chosen-matches r s host path (err e) g = refl
chosen-matches r s host path (ok rule) g = ground arith

bind_assoc :
    (chosen : Result Error RouteRule) (f : RouteRule → RouteMatch)
    (h : RouteMatch → Result Error RouteMatch)
    → (chosen >>= λ rule. h (f rule)) ≡ (chosen >>= λ rule. ok (f rule)) >>= h
bind_assoc (ok rule) f h = refl
bind_assoc (err e) f h = refl

gate-matches :
    (accepting : Bool) (r : ℕ) (s : GenerationState) (host path : Str) (g : GenerationRegistry)
    → (if not accepting
        then (g, err no_match)
        else admit_chosen r s host path (choose_rule s.rules host path) g).1
      ≡ (match_normal (if accepting then some s else none) host path
          >>= within_limit (if accepting then some s else none) g.maximum_streams)
unfolding match_normal
gate-matches false r s host path g = refl
gate-matches true r s host path g =
    chosen-matches r s host path (choose_rule s.rules host path) g
    ∙ bind_assoc (choose_rule s.rules host path)
        (λ rule. record { rule = rule; host = host; path = path; generation = s.generation })
        (within_limit (some s) g.maximum_streams)

admit-matches :
    (r : Option ℕ) (o : Option GenerationState) (host path : Str) (g : GenerationRegistry)
    → deref g r ≡ o
    → (admit_active r o host path g).1 ≡ (
        match_normal (accepting_of o) host path >>= within_limit (accepting_of o) g.maximum_streams)
unfolding admit_active admit match_normal accepting_of deref
admit-matches none none host path g h = refl
admit-matches none (some s) host path g h = absurd (ground arith)
admit-matches (some r) none host path g h = refl
admit-matches (some r) (some s) host path g h = gate-matches s.accepting r s host path g

accepting_state-of : (g : GenerationRegistry) → accepting_state g ≡ accepting_of (deref g g.active)
unfolding accepting_state accepting_of
accepting_state-of g = elim (Option-cases (deref g g.active)) [
  | inl e ↦ rw (e, accepting_state) refl
  | inr (s, e) ↦ rw (e, accepting_state) refl
]

-- `Acquire` returns what `Match` returns for the same request, but for `ErrStreamOverloaded` where
-- `Match` finds a rule and the active generation has the maximum of streams.
pub acquire-matches :
    (to_ascii : Str → Option Str) (host path : Str) (g : GenerationRegistry)
    → (acquire to_ascii host path g).1
      ≡ (match_request to_ascii host path g >>= within_limit (accepting_state g) g.maximum_streams)
unfolding acquire match_request match_normal
acquire-matches to_ascii host path g = elim (Result-cases (normalize_request to_ascii host path)) [
  | inr (e, q) ↦ rw (q, acquire, match_request) refl
  | inl (request, q) ↦
      rw (q, accepting_state-of g, acquire, match_request)
        (admit-matches g.active (deref g g.active) request.0 request.1 g refl)
]

release_state-drained :
    (s : GenerationState)
    → s.accepting ≡ false
    → s.streams ≡ 1
    → ((release_state s).drained ≡ true) × ((release_state s).streams ≡ 0)
unfolding release_state mark_drained
release_state-drained s stopped one = (ground arith, ground arith)

-- In a registry that satisfies `Inv`: closing the last open lease of a generation that no longer
-- accepts streams marks the generation as drained, which ends the wait of its activation.
pub close_lease-drains :
    (id : ℕ) (l : StreamLease) (s : GenerationState) (g : GenerationRegistry)
    → Inv g
    → find_open id g.leases ≡ some l
    → get ℕ_discrete g.states l.state ≡ some s
    → s.accepting ≡ false
    → open_count l.state g.leases ≡ 1
    → (t : GenerationState) × (get ℕ_discrete (close_lease id g).states l.state ≡ some t)
      × (t.drained ≡ true)
      × (t.streams ≡ 0)
unfolding close_lease store emit
close_lease-drains id l s g v hl hs stopped last =
    let t = release_state s in
    let done = release_state-drained s stopped (omega (arith, (v.each l.state s hs).counted)) in
    (
      t,
      rw (hl, close_lease)
          (rw (release_stored l.state s (record g { leases = shut id g.leases }) hs)
            (ground (arith, get-put ℕ_discrete g.states l.state l.state t))),
      done.0,
      done.1,
    )
