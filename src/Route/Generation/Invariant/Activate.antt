-- ===== src/Route/Generation/Invariant/Activate.antt =====
-- internal/route/matcher.go: an activation keeps the invariant, up to its wait and behind it.
use paperboat_tunnel.Base.{
  ℕ, ◌≡◌, ◌≢◌, refl, inl, inr, true, false, ◌&&◌, Option, none, some, arith, Option-cases, if_cases,
  ◌==◌, if◌then◌else◌, ℕ_discrete,
}
use paperboat_tunnel.Base.Maps.{get, put, get-put}
use paperboat_tunnel.Route.Rule.{generation_not_ready}
use paperboat_tunnel.Route.Generation.State.{
  GenerationState, GenerationRegistry, deref, store, emit, Outcome, if_some,
}
use paperboat_tunnel.Route.Generation.Activate.{
  Progress, finished, mark_drained, retire, make_active, replace, promote, activate_pending,
  activate_generation, Wake, drained, context_done, timer_fired, force_drain, finish_activation,
  ends, is_nil,
}
use paperboat_tunnel.Route.Generation.Invariant.{StateOk, Inv, emit-Inv}
use paperboat_tunnel.Route.Generation.Invariant.Stage.{refuse_other-Inv, cancelled-Inv}

abbrev Keeps : GenerationRegistry × Progress → Type 0
Keeps o = Inv o.0

-- The registry behind a promotion: `p` is active and accepts, and the old generation does not.
module _ (p r : ℕ) (next old retired : GenerationState) (g : GenerationRegistry) where
  abbrev promoted : GenerationRegistry
  promoted =
      store r retired
        (record (store p (record next { accepting = true }) g) { active = some p; pending = none })

  promoted-each :
      Inv g
      → g.active ≡ some r
      → g.pending ≡ some p
      → get ℕ_discrete g.states p ≡ some next
      → get ℕ_discrete g.states r ≡ some old
      → StateOk g r retired
      → retired.accepting ≡ false
      → (retired.drained ≡ true → g.closed ≡ false → retired.streams ≡ 0)
      → (j : ℕ) (u : GenerationState) → get ℕ_discrete promoted.states j ≡ some u
      → StateOk promoted j u
  unfolding store
  promoted-each v ha hp hn ho fit stopped idle j u h = ground (
    arith,
    get-put ℕ_discrete (put ℕ_discrete g.states p (record next { accepting = true })) r j retired,
    get-put ℕ_discrete g.states p j (record next { accepting = true }),
    v.each j u,
    v.each p next hn,
  )

  promoted-Inv :
      Inv g
      → g.active ≡ some r
      → g.pending ≡ some p
      → get ℕ_discrete g.states p ≡ some next
      → get ℕ_discrete g.states r ≡ some old
      → StateOk g r retired
      → retired.accepting ≡ false
      → (retired.drained ≡ true → g.closed ≡ false → retired.streams ≡ 0)
      → Inv promoted
  unfolding store
  promoted-Inv v ha hp hn ho fit stopped idle = record {
    each = promoted-each v ha hp hn ho fit stopped idle;
    unleased = v.unleased;
    ordered = λ a q s t _ hq. cc;
    stored = λ a h. ground (
      arith,
      get-put ℕ_discrete (put ℕ_discrete g.states p (record next { accepting = true })) r a retired,
      get-put ℕ_discrete g.states p a (record next { accepting = true }),
    );
  }

-- The first activation: there is no old generation.
module _ (p : ℕ) (next : GenerationState) (g : GenerationRegistry) where
  abbrev alone : GenerationRegistry
  alone = record (store p (record next { accepting = true }) g) { active = some p; pending = none }

  alone-Inv :
      Inv g
      → g.active ≡ none
      → g.pending ≡ some p
      → get ℕ_discrete g.states p ≡ some next
      → Inv alone
  unfolding store
  alone-Inv v ha hp hn = record {
    each = λ j u h. ground (
      arith,
      get-put ℕ_discrete g.states p j (record next { accepting = true }),
      v.each j u,
      v.each p next hn,
    );
    unleased = v.unleased;
    ordered = λ a q s t _ hq. cc;
    stored =
        λ a h. ground (arith, get-put ℕ_discrete g.states p a (record next { accepting = true }));
  }

-- The old generation is not the pending one.
active-not-pending :
    (g : GenerationRegistry) (r p : ℕ) (old next : GenerationState)
    → Inv g
    → g.active ≡ some r
    → g.pending ≡ some p
    → get ℕ_discrete g.states r ≡ some old
    → get ℕ_discrete g.states p ≡ some next
    → r ≢ p
active-not-pending g r p old next v ha hp ho hn e =
    ground (arith, v.ordered r p old next ha hp ho hn)

module _ (g : GenerationRegistry) (r : ℕ) (old : GenerationState) (v : Inv g)
    (ho : get ℕ_discrete g.states r ≡ some old) where
  stopped-StateOk : g.pending ≢ some r → StateOk g r (record old { accepting = false })
  stopped-StateOk np =
      let k = v.each r old ho in
      record {
        fresh = k.fresh;
        counted = k.counted;
        bounded = k.bounded;
        sole = λ q. cc;
        idle = λ d c. ((k.idle d c).0, refl);
        waiting = λ q. absurd (np q);
      }

  drained-StateOk :
      g.pending ≢ some r
      → old.streams ≡ 0
      → StateOk g r (mark_drained (record old { accepting = false }))
  unfolding mark_drained
  drained-StateOk np e =
      let k = v.each r old ho in
      record {
        fresh = k.fresh;
        counted = k.counted;
        bounded = k.bounded;
        sole = λ q. cc;
        idle = λ d c. (e, refl);
        waiting = λ q. absurd (np q);
      }

module _ (p : ℕ) (next : GenerationState) (g : GenerationRegistry) (v : Inv g)
    (hp : g.pending ≡ some p) (hn : get ℕ_discrete g.states p ≡ some next) where
  replace-Inv :
      (r : Option ℕ) (o : Option GenerationState)
      → g.active ≡ r
      → deref g r ≡ o
      → Inv (replace r o next (make_active p next g)).0
  unfolding replace retire store emit make_active deref
  replace-Inv none o ha ho = emit-Inv _ _ _ _ _ _ (alone-Inv p next g v ha hp hn)
  replace-Inv (some r) none ha ho = absurd (v.stored r ha ho)
  replace-Inv (some r) (some old) ha ho =
      let np = active-not-pending g r p old next v ha hp ho hn in
      let np' : g.pending ≢ some r = λ q. np (cc) in
      if_cases Keeps (old.streams == 0)
        (λ e. emit-Inv _ _ _ _ _ _ (
          emit-Inv _ _ _ _ _ _ (
            emit-Inv _ _ _ _ _ _ (
              promoted-Inv p r next old _ g v ha hp hn ho
                (drained-StateOk g r old v ho np' (ground arith)) refl (λ _ _. ground arith)))))
        (λ e.
          (emit-Inv _ _ _ _ _ _ (
            emit-Inv _ _ _ _ _ _ (
              promoted-Inv p r next old _ g v ha hp hn ho (stopped-StateOk g r old v ho np') refl
                (λ d c. ((v.each r old ho).idle d c).0)))))

ends-Inv : (o : Outcome) → Inv o.0 → Inv (ends o).0
ends-Inv o v = v

activate_pending-Inv :
    (n : ℕ) (c : Option GenerationState) (r : Option ℕ) (o : Option GenerationState)
    (g : GenerationRegistry)
    → g.pending ≡ r
    → deref g r ≡ o
    → Inv g
    → Inv (activate_pending n c r o g).0
unfolding activate_pending promote deref
activate_pending-Inv n c (some r) (some p) g hr ho v =
    if_cases Keeps (p.generation == n)
      {x = if p.ready then promote r p g else (g, finished (some generation_not_ready))}
      (λ _.
        if_cases Keeps p.ready
          (λ _. replace-Inv r p g v hr ho g.active (deref g g.active) refl refl) (λ _. v))
      (λ _. refuse_other-Inv _ n g v)
activate_pending-Inv n c (some r) none g hr ho v = refuse_other-Inv _ n g v
activate_pending-Inv n c none o g hr ho v = refuse_other-Inv _ n g v

pub activate_generation-Inv :
    (n : ℕ) (g : GenerationRegistry) → Inv g → Inv (activate_generation n g).0
unfolding activate_generation
activate_generation-Inv n g v =
    if_cases Keeps g.closed (λ _. v)
      λ _.
        if_cases Keeps (if_some (deref g g.active) (λ a. a == n) && is_nil g.pending)
          {y = activate_pending n (deref g g.active) g.pending (deref g g.pending) g}
          (λ _. emit-Inv _ _ _ _ _ _ v) (λ _. activate_pending-Inv n _ g.pending _ g refl refl v)

force_drain-Inv : (r n : ℕ) (g : GenerationRegistry) → Inv g → Inv (force_drain r n g)
unfolding force_drain
force_drain-Inv r n g v = elim (Option-cases (get ℕ_discrete g.states r)) [
  | inl e ↦ rw (e, force_drain) v
  | inr (s, e) ↦ rw (e, force_drain) (emit-Inv _ _ _ _ _ _ (cancelled-Inv r s g e v))
]

pub finish_activation-Inv :
    (r n : ℕ) (w : Wake) (g : GenerationRegistry) → Inv g → Inv (finish_activation r n w g).0
unfolding finish_activation
finish_activation-Inv r n drained g v = elim (Option-cases (get ℕ_discrete g.states r)) [
  | inl e ↦ rw (e, finish_activation) v
  | inr (s, e) ↦ rw (e, finish_activation) (emit-Inv _ _ _ _ _ _ v)
]
finish_activation-Inv r n (context_done x) g v = force_drain-Inv r n g v
finish_activation-Inv r n timer_fired g v = force_drain-Inv r n g v
