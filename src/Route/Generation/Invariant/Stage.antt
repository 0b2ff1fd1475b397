-- ===== src/Route/Generation/Invariant/Stage.antt =====
-- internal/route/matcher.go: staging, marking and discarding keep the invariant.
use paperboat_tunnel.Base.{
  ℕ, ◌<◌, ◌≡◌, refl, inl, inr, Bool, true, List, Option, none, some, arith, Option-cases,
  Bool-cases, if_cases, Result-cases, ◌==◌, ℕ_discrete,
}
use paperboat_tunnel.Base.Maps.{get, get-put}
use paperboat_tunnel.Base.Strings.{Str}
use paperboat_tunnel.Route.Rule.{RouteRule, Error, generation_stale, generation_closed, invalid}
use paperboat_tunnel.Route.Generation.State.{
  GenerationState, GenerationRegistry, deref, store, cancel_state, reject_stage, Outcome, if_some,
}
use paperboat_tunnel.Route.Overlap.{normalize_rules}
use paperboat_tunnel.Route.Generation.Stage.{
  Fence, passes, repeated, refused, fence, new_generation_state, install, through, stage_normal,
  stage_generation, refuse_other, mark_pending, mark_generation_ready, discard_pending,
}
use paperboat_tunnel.Route.Generation.Invariant.{StateOk, Inv, emit-Inv, store-Inv}

pub cancelled-Inv :
    (r : ℕ) (s : GenerationState) (g : GenerationRegistry)
    → get ℕ_discrete g.states r ≡ some s
    → Inv g
    → Inv (store r (record s { cancelled = true }) g)
cancelled-Inv r s g e v =
    let k = v.each r s e in
    store-Inv r s (record s { cancelled = true }) g e refl
      (record {
        fresh = k.fresh;
        counted = k.counted;
        bounded = k.bounded;
        sole = k.sole;
        idle = k.idle;
        waiting = k.waiting;
      })
      v

pub cancel_state-Inv : (r : Option ℕ) (g : GenerationRegistry) → Inv g → Inv (cancel_state r g)
unfolding cancel_state
cancel_state-Inv none g v = v
cancel_state-Inv (some r) g v = elim (Option-cases (get ℕ_discrete g.states r)) [
  | inl e ↦ rw (e, cancel_state) v
  | inr (s, e) ↦ rw (e, cancel_state) (cancelled-Inv r s g e v)
]

reject_stage-Inv :
    (n : ℕ) (rules : List RouteRule) (e : Error) (g : GenerationRegistry)
    → Inv g
    → Inv (reject_stage n rules e g)
unfolding reject_stage
reject_stage-Inv n rules generation_stale g v = emit-Inv _ _ _ _ _ _ (emit-Inv _ _ _ _ _ _ v)
reject_stage-Inv n rules _ g v = emit-Inv _ _ _ _ _ _ v

abbrev pub KeepsInv : Outcome → Type 0
KeepsInv o = Inv o.0

-- The generation is newer than the active one.
abbrev Newer : ℕ → GenerationRegistry → Type 0
Newer n g =
    (a : ℕ) (s : GenerationState)
    → g.active ≡ some a
    → get ℕ_discrete g.states a ≡ some s
    → s.generation < n

-- A stored reference is an old one.
pub active_fresh : (g : GenerationRegistry) (a : ℕ) → Inv g → g.active ≡ some a → a < g.next_state
active_fresh g a v h = elim (Option-cases (get ℕ_discrete g.states a)) [
  | inl e ↦ absurd (v.stored a h e)
  | inr (s, e) ↦ (v.each a s e).fresh
]

module _ (n : ℕ) (rules : List RouteRule) (g : GenerationRegistry) where
  install-each :
      Inv g
      → (j : ℕ) (u : GenerationState) → get ℕ_discrete (install n rules g).states j ≡ some u
      → StateOk (install n rules g) j u
  unfolding install store
  install-each v j u h = ground (
    arith,
    get-put ℕ_discrete g.states g.next_state j (new_generation_state n rules),
    v.each j u,
    v.unleased j,
    h,
  )

  install-Inv : Newer n g → Inv g → Inv (install n rules g)
  unfolding install store
  install-Inv newer v = record {
    each = install-each v;
    unleased = λ r h. v.unleased r (omega arith);
    ordered = λ a p s t ha hp hs ht. ground (
      arith,
      get-put ℕ_discrete g.states g.next_state a (new_generation_state n rules),
      get-put ℕ_discrete g.states g.next_state p (new_generation_state n rules),
      newer a s,
      active_fresh g a v,
    );
    stored = λ a ha. ground (
      arith,
      get-put ℕ_discrete g.states g.next_state a (new_generation_state n rules),
      v.stored a,
    );
  }

cancel_state-Newer :
    (n : ℕ) (r : Option ℕ) (g : GenerationRegistry) → Newer n g → Newer n (cancel_state r g)
unfolding cancel_state
cancel_state-Newer n none g newer a s ha hs = newer a s ha hs
cancel_state-Newer n (some r) g newer a s ha hs = cancelled (get ℕ_discrete g.states r) refl
  where
    cancelled : (o : Option GenerationState) → get ℕ_discrete g.states r ≡ o → s.generation < n
    cancelled none e = newer a s (rw (e, cancel_state) at ha) (rw (e, cancel_state) at hs)
    cancelled (some x) e = ground (
      arith,
      get-put ℕ_discrete g.states r a (record x { cancelled = true }),
      newer a s,
      newer a x,
    )

fence-Newer :
    (n : ℕ) (rules : List RouteRule) (g : GenerationRegistry)
    → fence (deref g g.active) n rules ≡ passes
    → Newer n g
unfolding fence deref
fence-Newer n rules g h a s ha hs = ground arith

through-Inv :
    (f : Fence) (n : ℕ) (rules : List RouteRule) (g : GenerationRegistry) (next : Outcome)
    → Inv g
    → (f ≡ passes → Inv next.0)
    → Inv (through f n rules g next).0
unfolding through
through-Inv passes n rules g next v k = k refl
through-Inv repeated n rules g next v k = emit-Inv _ _ _ _ _ _ v
through-Inv (refused e) n rules g next v k = reject_stage-Inv n rules e g v

stage_normal-Inv :
    (n : ℕ) (rules : List RouteRule) (g : GenerationRegistry)
    → Inv g
    → Inv (stage_normal n rules g).0
unfolding stage_normal
stage_normal-Inv n rules g v =
    if_cases KeepsInv g.closed (λ _. reject_stage-Inv n rules generation_closed g v)
      λ _. through-Inv _ n rules g _ v λ newer. through-Inv _ n rules g _ v λ _.
        emit-Inv _ _ _ _ _ _ (
          install-Inv n rules (cancel_state g.pending g)
            (cancel_state-Newer n g.pending g (fence-Newer n rules g newer))
            (cancel_state-Inv g.pending g v))

pub stage_generation-Inv :
    (to_ascii : Str → Option Str) (n : ℕ) (rules : List RouteRule) (g : GenerationRegistry)
    → Inv g
    → Inv (stage_generation to_ascii n rules g).0
unfolding stage_generation
stage_generation-Inv to_ascii n rules g v = elim (Bool-cases (n == 0)) [
  | inl e ↦ rw (e, stage_generation) (reject_stage-Inv n rules invalid g v)
  | inr e ↦ elim (Result-cases (normalize_rules to_ascii n rules g.maximum_routes)) [
    | inl (normal, p) ↦ rw (e, p, stage_generation) (stage_normal-Inv n normal g v)
    | inr (x, p) ↦ rw (e, p, stage_generation) (reject_stage-Inv n rules x g v)
  ]
]

mark_ready-Inv :
    (r : ℕ) (p : GenerationState) (g : GenerationRegistry)
    → get ℕ_discrete g.states r ≡ some p
    → Inv g
    → Inv (store r (record p { ready = true }) g)
mark_ready-Inv r p g e v =
    store-Inv r p (record p { ready = true }) g e refl
      (let k = v.each r p e in
        record {
          fresh = k.fresh;
          counted = k.counted;
          bounded = k.bounded;
          sole = k.sole;
          idle = k.idle;
          waiting = k.waiting;
        })
      v

pub refuse_other-Inv :
    (b : Bool) (n : ℕ) (g : GenerationRegistry) → Inv g → Inv (refuse_other b n g).0
unfolding refuse_other
refuse_other-Inv b n g v = if_cases KeepsInv b (λ _. emit-Inv _ _ _ _ _ _ v) (λ _. v)

mark_pending-Inv :
    (n : ℕ) (c : Option GenerationState) (r : Option ℕ) (o : Option GenerationState)
    (g : GenerationRegistry)
    → deref g r ≡ o
    → Inv g
    → Inv (mark_pending n c r o g).0
unfolding mark_pending deref
mark_pending-Inv n c (some r) (some p) g e v =
    if_cases KeepsInv (p.generation == n) (λ _. emit-Inv _ _ _ _ _ _ (mark_ready-Inv r p g e v))
      (λ _. refuse_other-Inv _ n g v)
mark_pending-Inv n c (some r) none g e v = refuse_other-Inv _ n g v
mark_pending-Inv n c none o g e v = refuse_other-Inv _ n g v

pub mark_generation_ready-Inv :
    (n : ℕ) (g : GenerationRegistry) → Inv g → Inv (mark_generation_ready n g).0
unfolding mark_generation_ready
mark_generation_ready-Inv n g v =
    if_cases KeepsInv g.closed (λ _. v)
      λ _.
        if_cases KeepsInv (if_some (deref g g.active) (λ a. a == n))
          {y = mark_pending n (deref g g.active) g.pending (deref g g.pending) g}
          (λ _. emit-Inv _ _ _ _ _ _ v) (λ _. mark_pending-Inv n _ g.pending _ g refl v)

pub discard_pending-Inv : (n : ℕ) (g : GenerationRegistry) → Inv g → Inv (discard_pending n g)
unfolding discard_pending
discard_pending-Inv n g v =
    if_cases Inv _
      (λ _. without_pending (cancel_state g.pending g) (cancel_state-Inv g.pending g v)) (λ _. v)
  where
    without_pending : (h : GenerationRegistry) → Inv h → Inv (record h { pending = none })
    without_pending h w = record {
      each = λ r s q.
          let k = w.each r s q in
          record {
            fresh = k.fresh;
            counted = k.counted;
            bounded = k.bounded;
            sole = k.sole;
            idle = k.idle;
            waiting = λ q. cc;
          };
      unleased = w.unleased;
      ordered = λ a p s t ha hp hs ht. cc;
      stored = w.stored;
    }
