-- ===== src/Route/Attachments/Runs.antt =====
-- internal/route/route.go: the attachments behind any calls, and the revisions of a route.
use paperboat_tunnel.Base.{
  ℕ, ◌≤◌, ◌≡◌, ◌⊎◌, ◌∙◌, sym, refl, if_cases, ◌>>=◌, ◌>>◌, refuse_if, true, false, List, [], ◌∷◌,
  Option, none, some, arith, Option-cases, inl, inr, Result, ok, err, same_refl,
}
use mathlib.Core.Path.{subst}
use paperboat_tunnel.Base.Maps.{Map, get, get-put}
use paperboat_tunnel.Base.Strings.{Str, Str-discrete}
use paperboat_tunnel.Route.Rule.{Error, stale}
use paperboat_tunnel.Route.Request.{normalize_host}
use paperboat_tunnel.Route.Attachments.{
  Attachment, Attachment-discrete, Registry, any_stale, attach, attach_found, attach_new, detach,
  is_stale, new_attachments, replace_all, same_route, signal_gained, signal_lost, keeps_owner,
  set_attachment, signal_changed,
}
use paperboat_tunnel.Route.Attachments.Inverse.{
  Inverse, Keeps, KeepsRegistry, attach-Inverse, detach-Inverse, new_attachments-Inverse,
  replace_all-Inverse,
}

pub data Call : Type 0 where
  attaches : Attachment → Call
  detaches : Str → ℕ → Call
  replaces : List Attachment → Call

-- A call that fails leaves the registry as it is.
unfoldable pub attached : Result Error (Registry × Attachment) → Registry → Registry
attached (ok o) r = o.0
attached (err e) r = r

unfoldable pub or_old : Result Error Registry → Registry → Registry
or_old (ok next) r = next
or_old (err e) r = r

unfoldable pub step : Call → Registry → Registry
step (attaches a) r = attached (attach a r) r
step (detaches id revision) r = or_old (detach id revision r) r
step (replaces attachments) r = or_old (replace_all attachments r) r

unfoldable pub run : List Call → Registry → Registry
run [] r = r
run (c ∷ calls) r = run calls (step c r)

attached-Inverse :
    (o : Result Error (Registry × Attachment)) (r : Registry)
    → Inverse r
    → Keeps o
    → Inverse (attached o r)
unfolding attached
attached-Inverse (ok o) r v k = k
attached-Inverse (err e) r v k = v

or_old-Inverse :
    (o : Result Error Registry) (r : Registry) → Inverse r → KeepsRegistry o → Inverse (or_old o r)
unfolding or_old
or_old-Inverse (ok next) r v k = k
or_old-Inverse (err e) r v k = v

step-Inverse : (c : Call) (r : Registry) → Inverse r → Inverse (step c r)
unfolding step
step-Inverse (attaches a) r v = attached-Inverse _ r v (attach-Inverse a r v)
step-Inverse (detaches id revision) r v = or_old-Inverse _ r v (detach-Inverse id revision r v)
step-Inverse (replaces attachments) r v = or_old-Inverse _ r v (replace_all-Inverse attachments r)

run-Inverse : (calls : List Call) (r : Registry) → Inverse r → Inverse (run calls r)
unfolding run
run-Inverse [] r v = v
run-Inverse (c ∷ calls) r v = run-Inverse calls (step c r) (step-Inverse c r v)

-- Behind any calls on a new registry of attachments, the two maps are inverse: each attachment
-- stands under its ID and owns its host, and each host is owned by the attachment that has it, so
-- no two attachments have the same host.
pub reached-Inverse :
    (preview_base_domain runtime_base_domain : Str) (calls : List Call)
    → Inverse (run calls (new_attachments preview_base_domain runtime_base_domain))
reached-Inverse p q calls = run-Inverse calls (new_attachments p q) (new_attachments-Inverse p q)

-- The later attachment of a route is no older, and is the same route if it is as old.
abbrev pub Follows : Attachment → Attachment → Type 0
Follows x y = (x.revision ≤ y.revision) × (y.revision ≡ x.revision → same_route x y ≡ true)

not_stale-Follows : (x y : Attachment) → is_stale y x ≡ false → Follows x y
unfolding is_stale
not_stale-Follows x y h = (ground arith, λ e. ground arith)

self-Follows : (x : Attachment) → Follows x x
unfolding same_route
self-Follows x = (omega arith, λ e. same_refl Attachment-discrete _)

any_stale-Follows :
    (m : Map Str Attachment) (next : Registry) (id : Str) (x y : Attachment)
    → any_stale m next ≡ false
    → get Str-discrete m id ≡ some x
    → get Str-discrete next.by_id id ≡ some y
    → is_stale y x ≡ false
unfolding any_stale get
any_stale-Follows [] next id x y h hx hy = absurd (ground arith)
any_stale-Follows (p ∷ m) next id x y h hx hy = ground (arith, any_stale-Follows m next id x y)

-- The attachment of a route is the one before, or is not stale against it.
abbrev pub Newer : Attachment → Attachment → Type 0
Newer x y = (y ≡ x) ⊎ (is_stale y x ≡ false)

Newer-Follows : (x y : Attachment) → Newer x y → Follows x y
Newer-Follows x y (inl e) = subst (λ t. Follows x t) (sym e) (self-Follows x)
Newer-Follows x y (inr h) = not_stale-Follows x y h

attach_found-Newer :
    (o : Option Attachment) (a x y : Attachment) (id : Str) (r : Registry)
    (k : Registry × Attachment)
    → get Str-discrete r.by_id a.id ≡ o
    → attach_found o a r ≡ ok k
    → get Str-discrete r.by_id id ≡ some x
    → get Str-discrete k.0.by_id id ≡ some y
    → Newer x y
unfolding attach_found attach_new set_attachment signal_changed
attach_found-Newer none a x y id r k ho h hx hy =
    ground (arith, get-put Str-discrete r.by_id a.id id a)
attach_found-Newer (some c) a x y id r k ho h hx hy =
    ground (arith, get-put Str-discrete r.by_id a.id id a)

attach-Newer :
    (given x y : Attachment) (id : Str) (r : Registry) (k : Registry × Attachment)
    → attach given r ≡ ok k
    → get Str-discrete r.by_id id ≡ some x
    → get Str-discrete k.0.by_id id ≡ some y
    → Newer x y
unfolding attach
attach-Newer given x y id r k h hx hy =
    let a : Attachment = record given { host = normalize_host given.host } in
    attach_found-Newer _ a x y id r k refl (ground arith) hx hy

signal_lost-by_id :
    (m : Map Str Str) (r next out : Registry) → (signal_lost m r next out).by_id ≡ out.by_id
unfolding signal_lost signal_changed
signal_lost-by_id [] r next out = refl
signal_lost-by_id (p ∷ m) r next out =
    signal_lost-by_id m r next _
    ∙ if_cases SameIds (keeps_owner (get Str-discrete next.by_host p.0) p.1 r next) (λ _. refl)
        (λ _. refl)
  where
    SameIds : Registry → Type 0
    SameIds s = s.by_id ≡ out.by_id

signal_gained-by_id :
    (m : Map Str Str) (r out : Registry) → (signal_gained m r out).by_id ≡ out.by_id
unfolding signal_gained signal_changed
signal_gained-by_id [] r out = refl
signal_gained-by_id (p ∷ m) r out = elim (Option-cases (get Str-discrete r.by_host p.0)) [
  | inl e ↦ rw (e, signal_gained) (signal_gained-by_id m r (signal_changed p.0 out))
  | inr (id, e) ↦ rw (e, signal_gained) (signal_gained-by_id m r out)
]

replaced-Newer :
    (o : Result Error Registry) (r k : Registry) (id : Str) (x y : Attachment)
    → (do
      next ← o
      refuse_if (any_stale r.by_id next) stale
      ok (
          signal_gained next.by_host r (
            signal_lost r.by_host r next
              (record r { by_id = next.by_id; by_host = next.by_host }))))
      ≡ ok k
    → get Str-discrete r.by_id id ≡ some x
    → get Str-discrete k.by_id id ≡ some y
    → is_stale y x ≡ false
replaced-Newer (err e) r k id x y h hx hy = absurd (ground arith)
replaced-Newer (ok next) r k id x y h hx hy =
    let out : Registry = record r { by_id = next.by_id; by_host = next.by_host } in
    let lost = signal_lost-by_id r.by_host r next out in
    let gained = signal_gained-by_id next.by_host r (signal_lost r.by_host r next out) in
    ground (arith, lost, gained, any_stale-Follows r.by_id next id x y)

-- A route that is attached before and behind a successful `Attach` of any attachment has a
-- revision that is no lower than before, and is the same route if the revision is the same.
pub attach-Follows :
    (given x y : Attachment) (id : Str) (r : Registry) (k : Registry × Attachment)
    → attach given r ≡ ok k
    → get Str-discrete r.by_id id ≡ some x
    → get Str-discrete k.0.by_id id ≡ some y
    → Follows x y
attach-Follows given x y id r k h hx hy = Newer-Follows x y (attach-Newer given x y id r k h hx hy)

-- A route that is attached before and behind a successful `Replace` has a revision that is no lower
-- than before, and is the same route if the revision is the same.
pub replace_all-Follows :
    (attachments : List Attachment) (x y : Attachment) (id : Str) (r k : Registry)
    → replace_all attachments r ≡ ok k
    → get Str-discrete r.by_id id ≡ some x
    → get Str-discrete k.by_id id ≡ some y
    → Follows x y
unfolding replace_all
replace_all-Follows attachments x y id r k h hx hy =
    not_stale-Follows x y (replaced-Newer _ r k id x y h hx hy)
