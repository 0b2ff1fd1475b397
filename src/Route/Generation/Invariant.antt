-- ===== src/Route/Generation/Invariant.antt =====
-- internal/route/matcher.go: what holds of `GenerationRegistry` between two calls.
pub mod Stage
pub mod Activate
pub mod Stream
pub mod Runs
use paperboat_tunnel.Base.{
  ℕ, zero, suc, ◌+◌, ◌-◌, ◌≤◌, ◌<◌, ◌≡◌, ◌≢◌, refl, ◌⊎◌, inl, inr, Bool, true, false, not, ◌&&◌,
  List, [], ◌∷◌, Option, none, some, arith, Option-cases, ◌==◌, if◌then◌else◌, ℕ_discrete,
}
use paperboat_tunnel.Base.Maps.{get, put, get-put}
use paperboat_tunnel.Route.Generation.State.{
  GenerationState, StreamLease, GenerationRegistry, LifecycleType, new_registry, deref, store, emit,
  cancel_state,
}

-- The open leases of a state.
unfoldable pub open_count : ℕ → List StreamLease → ℕ
open_count r [] = 0
open_count r (l ∷ leases) =
    let rest = open_count r leases in if l.is_open && l.state == r then suc rest else rest

pub record StateOk (g : GenerationRegistry) (r : ℕ) (s : GenerationState) : Type 0 where
  pub fresh : r < g.next_state
  pub counted : s.streams ≡ open_count r g.leases
  pub bounded : s.streams ≤ g.maximum_streams
  pub sole : s.accepting ≡ true → g.active ≡ some r
  pub idle : s.drained ≡ true → g.closed ≡ false → (s.streams ≡ 0) × (s.accepting ≡ false)
  pub waiting : g.pending ≡ some r → (s.streams ≡ 0) × (s.drained ≡ false)

pub record Inv (g : GenerationRegistry) : Type 0 where
  pub each : (r : ℕ) (s : GenerationState) → get ℕ_discrete g.states r ≡ some s → StateOk g r s
  pub unleased : (r : ℕ) → g.next_state ≤ r → open_count r g.leases ≡ 0
  pub ordered :
      (a p : ℕ) (s t : GenerationState)
      → g.active ≡ some a
      → g.pending ≡ some p
      → get ℕ_discrete g.states a ≡ some s
      → get ℕ_discrete g.states p ≡ some t
      → s.generation < t.generation
  pub stored : (a : ℕ) → g.active ≡ some a → get ℕ_discrete g.states a ≢ none

pub new_registry-Inv : (m n : ℕ) → Inv (new_registry m n)
unfolding new_registry open_count get
new_registry-Inv m n = record {
  each = λ r s h. cc;
  unleased = λ r h. refl;
  ordered = λ a p s t h. cc;
  stored = λ a h. cc;
}

pub emit-Inv :
    (e : LifecycleType) (a b c d : ℕ) (g : GenerationRegistry) → Inv g → Inv (emit e a b c d g)
unfolding emit
emit-Inv e a b c d g v = record {
  each = λ r s h.
      let k = v.each r s h in
      record {
        fresh = k.fresh;
        counted = k.counted;
        bounded = k.bounded;
        sole = k.sole;
        idle = k.idle;
        waiting = k.waiting;
      };
  unleased = v.unleased;
  ordered = v.ordered;
  stored = v.stored;
}

-- A state may be replaced by one of the same generation that is fit for its place.
module _ (r : ℕ) (s t : GenerationState) (g : GenerationRegistry) where
  store-each :
      Inv g
      → StateOk g r t
      → (j : ℕ) (u : GenerationState) → get ℕ_discrete (store r t g).states j ≡ some u
      → StateOk (store r t g) j u
  unfolding store
  store-each v ok j u h = ground (arith, get-put ℕ_discrete g.states r j t, v.each j u)

  pub store-Inv :
      get ℕ_discrete g.states r ≡ some s
      → t.generation ≡ s.generation
      → StateOk g r t
      → Inv g
      → Inv (store r t g)
  unfolding store
  store-Inv present same_gen ok v = record {
    each = store-each v ok;
    unleased = v.unleased;
    ordered = λ a p x y ha hp hx hy. ground (
      arith,
      get-put ℕ_discrete g.states r a t,
      get-put ℕ_discrete g.states r p t,
      v.ordered a p x y,
      v.ordered a p s y,
      v.ordered a p x s,
      v.ordered a p s s,
    );
    stored = λ a ha. ground (arith, get-put ℕ_discrete g.states r a t, v.stored a);
  }
