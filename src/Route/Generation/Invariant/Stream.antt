-- ===== src/Route/Generation/Invariant/Stream.antt =====
-- internal/route/matcher.go: streams keep the invariant, and so does closing the registry.
use paperboat_tunnel.Base.{
  ℕ, ◌+◌, ◌-◌, ◌<◌, ◌≡◌, refl, inl, inr, true, not, List, [], ◌∷◌, Option, none, some, arith,
  Option-cases, if_cases, Result, ok, err, Result-cases, ◌==◌, leb, if◌then◌else◌, length,
  ℕ_discrete,
}
use paperboat_tunnel.Base.Maps.{get, get-put}
use paperboat_tunnel.Base.Strings.{Str}
use paperboat_tunnel.Route.Rule.{RouteRule, Error}
use paperboat_tunnel.Route.Generation.State.{
  GenerationState, StreamLease, RouteMatch, GenerationRegistry, deref, store, emit, cancel_state,
}
use paperboat_tunnel.Route.Match.{choose_rule}
use paperboat_tunnel.Route.Generation.State.{stream_released}
use paperboat_tunnel.Route.Generation.Activate.{mark_drained}
use paperboat_tunnel.Route.Generation.Stream.{
  normalize_request, grant, admit, admit_chosen, admit_active, acquire, release_state, release,
  find_open, shut, close_lease, drain_state, close_registry,
}
use paperboat_tunnel.Route.Generation.Invariant.{StateOk, Inv, open_count, emit-Inv, store-Inv}
use paperboat_tunnel.Route.Generation.Invariant.Stage.{cancel_state-Inv}

module _ (r : ℕ) (s : GenerationState) (m : RouteMatch) (g : GenerationRegistry) where
  grant-Inv :
      Inv g
      → g.active ≡ some r
      → get ℕ_discrete g.states r ≡ some s
      → s.accepting ≡ true
      → s.streams < g.maximum_streams
      → Inv (grant r s m g)
  unfolding grant store emit open_count
  grant-Inv v ha hs accepts room = record {
    each = λ j u h. ground (
      arith,
      get-put ℕ_discrete g.states r j (record s { streams = s.streams + 1 }),
      v.each j u,
      v.each r s hs,
      v.ordered r r s s,
      h,
    );
    unleased = λ j h. ground (arith, v.unleased j h, v.each r s hs);
    ordered = λ a p x y xa xp hx hy. ground (
      arith,
      get-put ℕ_discrete g.states r a (record s { streams = s.streams + 1 }),
      get-put ℕ_discrete g.states r p (record s { streams = s.streams + 1 }),
      v.ordered a p x y,
      v.ordered a p s y,
      v.ordered a p x s,
      v.ordered a p s s,
    );
    stored = λ a xa.
        ground (
          arith,
          get-put ℕ_discrete g.states r a (record s { streams = s.streams + 1 }),
          v.stored a,
        );
  }

pub open_count-shut :
    (r id : ℕ) (leases : List StreamLease) (l : StreamLease)
    → find_open id leases ≡ some l
    → open_count r leases ≡ (if l.state == r then 1 else 0) + open_count r (shut id leases)
unfolding find_open shut open_count
open_count-shut r id [] l h = cc
open_count-shut r id (x ∷ leases) l h = ground (arith, open_count-shut r id leases l)

module _ (id : ℕ) (l : StreamLease) (s : GenerationState) (g : GenerationRegistry) where
  abbrev released : GenerationRegistry
  released = store l.state (release_state s) (record g { leases = shut id g.leases })

  released-Inv :
      Inv g
      → find_open id g.leases ≡ some l
      → get ℕ_discrete g.states l.state ≡ some s
      → Inv released
  unfolding store release_state mark_drained
  released-Inv v hl hs = record {
    each = λ j u h. ground (
      arith,
      get-put ℕ_discrete g.states l.state j (release_state s),
      open_count-shut j id g.leases l hl,
      v.each j u,
      v.each l.state s hs,
      h,
    );
    unleased = λ j h. ground (arith, v.unleased j h, open_count-shut j id g.leases l hl);
    ordered = λ a p x y xa xp hx hy. ground (
      arith,
      get-put ℕ_discrete g.states l.state a (release_state s),
      get-put ℕ_discrete g.states l.state p (release_state s),
      v.ordered a p x y,
      v.ordered a p s y,
      v.ordered a p x s,
      v.ordered a p s s,
    );
    stored =
        λ a xa. ground (arith, get-put ℕ_discrete g.states l.state a (release_state s), v.stored a);
  }

-- A lease of no stored state.
unstored-Inv :
    (id : ℕ) (l : StreamLease) (g : GenerationRegistry)
    → Inv g
    → find_open id g.leases ≡ some l
    → get ℕ_discrete g.states l.state ≡ none
    → Inv (record g { leases = shut id g.leases })
unstored-Inv id l g v hl hs = record {
  each = λ j u h. ground (arith, open_count-shut j id g.leases l hl, v.each j u h);
  unleased = λ j h. ground (arith, v.unleased j h, open_count-shut j id g.leases l hl);
  ordered = v.ordered;
  stored = v.stored;
}

pub release_stored :
    (r : ℕ) (s : GenerationState) (g : GenerationRegistry)
    → get ℕ_discrete g.states r ≡ some s
    → release r g
      ≡ store r
          (release_state s)
          (emit stream_released s.generation 0 (length s.rules) (s.streams - 1) g)
unfolding release
release_stored r s g e = rw (e, release)

release_unstored :
    (r : ℕ) (g : GenerationRegistry) → get ℕ_discrete g.states r ≡ none → release r g ≡ g
unfolding release
release_unstored r g e = rw (e, release)

pub close_lease-Inv : (id : ℕ) (g : GenerationRegistry) → Inv g → Inv (close_lease id g)
unfolding close_lease store emit
close_lease-Inv id g v = elim (Option-cases (find_open id g.leases)) [
  | inl e ↦ rw (e, close_lease) v
  | inr (l, e) ↦ elim (Option-cases (get ℕ_discrete g.states l.state)) [
    | inl q ↦
        rw (e, close_lease)
          (rw (release_unstored l.state (record g { leases = shut id g.leases }) q)
            (unstored-Inv id l g v e q))
    | inr (s, q) ↦
        rw (e, close_lease)
          (rw (release_stored l.state s (record g { leases = shut id g.leases }) q)
            (emit-Inv _ _ _ _ _ _ (released-Inv id l s g v e q)))
  ]
]

abbrev KeepsStream : GenerationRegistry × Result Error RouteMatch → Type 0
KeepsStream o = Inv o.0

chosen-Inv :
    (r : ℕ) (s : GenerationState) (host path : Str) (chosen : Result Error RouteRule)
    (g : GenerationRegistry)
    → Inv g
    → g.active ≡ some r
    → get ℕ_discrete g.states r ≡ some s
    → s.accepting ≡ true
    → Inv (admit_chosen r s host path chosen g).0
unfolding admit_chosen
chosen-Inv r s host path (err e) g v ha hs accepts = v
chosen-Inv r s host path (ok rule) g v ha hs accepts =
    if_cases KeepsStream (leb g.maximum_streams s.streams) (λ _. emit-Inv _ _ _ _ _ _ v)
      (λ room. grant-Inv r s _ g v ha hs accepts (ground arith))

admit_active-Inv :
    (r : Option ℕ) (o : Option GenerationState) (host path : Str) (g : GenerationRegistry)
    → Inv g
    → g.active ≡ r
    → deref g r ≡ o
    → Inv (admit_active r o host path g).0
unfolding admit_active admit deref
admit_active-Inv (some r) (some s) host path g v ha hs =
    if_cases KeepsStream (not s.accepting)
      {y = admit_chosen r s host path (choose_rule s.rules host path) g} (λ _. v)
      (λ a. chosen-Inv r s host path _ g v ha hs (ground arith))
admit_active-Inv none o host path g v ha hs = v
admit_active-Inv (some r) none host path g v ha hs = v

pub acquire-Inv :
    (to_ascii : Str → Option Str) (host path : Str) (g : GenerationRegistry)
    → Inv g
    → Inv (acquire to_ascii host path g).0
unfolding acquire
acquire-Inv to_ascii host path g v = elim (Result-cases (normalize_request to_ascii host path)) [
  | inl (request, e) ↦
      rw (e, acquire) (admit_active-Inv g.active _ request.0 request.1 g v refl refl)
  | inr (x, e) ↦ rw (e, acquire) v
]

closing-Inv : (g : GenerationRegistry) → Inv g → Inv (record g { closed = true })
closing-Inv g v = record {
  each = λ r s h.
      let k = v.each r s h in
      record {
        fresh = k.fresh;
        counted = k.counted;
        bounded = k.bounded;
        sole = k.sole;
        idle = λ _ c. cc;
        waiting = k.waiting;
      };
  unleased = v.unleased;
  ordered = v.ordered;
  stored = v.stored;
}

-- `Close` drains the active generation, whatever its streams.
drained-fits :
    (r : ℕ) (s : GenerationState) (g : GenerationRegistry)
    → Inv g
    → g.active ≡ some r
    → g.closed ≡ true
    → get ℕ_discrete g.states r ≡ some s
    → StateOk g r (mark_drained s)
unfolding mark_drained
drained-fits r s g v ha c e =
    let k = v.each r s e in
    record {
      fresh = k.fresh;
      counted = k.counted;
      bounded = k.bounded;
      sole = k.sole;
      idle = λ _ c'. cc;
      waiting = λ hp. ground (arith, v.ordered r r s s ha hp e e);
    }

drain_state-Inv :
    (r : Option ℕ) (g : GenerationRegistry)
    → Inv g
    → g.active ≡ r
    → g.closed ≡ true
    → Inv (drain_state r g)
unfolding drain_state mark_drained
drain_state-Inv none g v ha c = v
drain_state-Inv (some r) g v ha c = elim (Option-cases (get ℕ_discrete g.states r)) [
  | inl e ↦ rw (e, drain_state) v
  | inr (s, e) ↦
      rw (e, drain_state) (store-Inv r s (mark_drained s) g e refl (drained-fits r s g v ha c e) v)
]

cancel_state-keeps :
    (r : Option ℕ) (g : GenerationRegistry)
    → ((cancel_state r g).active ≡ g.active) × ((cancel_state r g).closed ≡ g.closed)
unfolding cancel_state store
cancel_state-keeps none g = (refl, refl)
cancel_state-keeps (some r) g = elim (Option-cases (get ℕ_discrete g.states r)) [
  | inl e ↦ rw (e, cancel_state) (refl, refl)
  | inr (s, e) ↦ rw (e, cancel_state) (refl, refl)
]

pub close_registry-Inv : (g : GenerationRegistry) → Inv g → Inv (close_registry g)
unfolding close_registry
close_registry-Inv g v =
    if_cases Inv g.closed (λ _. v)
      λ _.
        let kept = cancel_state-keeps g.pending (record g { closed = true }) in
        drain_state-Inv g.active _ (cancel_state-Inv g.pending _ (closing-Inv g v)) kept.0 kept.1
