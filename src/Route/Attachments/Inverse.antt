-- ===== src/Route/Attachments/Inverse.antt =====
-- internal/route/route.go: the map of hosts is the inverse of the map of attachments.
use paperboat_tunnel.Base.{
  ℕ, ◌≡◌, refl, false, not, ◌||◌, List, [], ◌∷◌, Option, none, some, arith, Option-cases,
  Bool-cases, inl, inr, Result, ok, err, ◌>>=◌, ◌>>◌, refuse_if, if_cases, ◌==◌, if◌then◌else◌,
  same,
}
use paperboat_tunnel.Base.Maps.{Map, get, delete, get-put, get-delete}
use paperboat_tunnel.Base.Strings.{Str, Str-discrete}
use paperboat_tunnel.Route.Rule.{Error, stale}
use paperboat_tunnel.Route.Request.{normalize_host}
use paperboat_tunnel.Route.Attachments.{
  Attachment, Attachment-discrete, Registry, any_stale, attach, attach_all, attach_found,
  attach_new, detach, detach_found, expected_domain, forget_host, is_direct_child, is_incomplete,
  is_stale, is_taken, keeps_owner, new_attachments, replace_all, set_attachment, signal_changed,
  signal_gained, signal_lost,
}

abbrev pub host_of : Option Attachment → Option Str
host_of none = none
host_of (some a) = some a.host

-- Each attachment stands under its ID and owns its host, and each host is owned by an attachment
-- that has it.
pub record Inverse (r : Registry) : Type 0 where
  pub owning :
      (id : Str) (a : Attachment)
      → get Str-discrete r.by_id id ≡ some a
      → (a.id ≡ id) × (get Str-discrete r.by_host a.host ≡ some id)
  pub owned :
      (host id : Str)
      → get Str-discrete r.by_host host ≡ some id
      → host_of (get Str-discrete r.by_id id) ≡ some host

abbrev pub Keeps : Result Error (Registry × Attachment) → Type 0
Keeps (ok o) = Inverse o.0
Keeps (err e) = Unit

abbrev pub KeepsRegistry : Result Error Registry → Type 0
KeepsRegistry (ok r) = Inverse r
KeepsRegistry (err e) = Unit

pub new_attachments-Inverse : (p q : Str) → Inverse (new_attachments p q)
unfolding new_attachments get
new_attachments-Inverse p q = record {
  owning = λ id a h. absurd (ground arith);
  owned = λ host id h. absurd (ground arith);
}

signal_changed-Inverse : (host : Str) (r : Registry) → Inverse r → Inverse (signal_changed host r)
unfolding signal_changed
signal_changed-Inverse host r v = record { owning = v.owning; owned = v.owned }

module _ (a : Attachment) (r : Registry) where
  set_attachment-Inverse :
      (current : Option Attachment)
      → Inverse r
      → get Str-discrete r.by_id a.id ≡ current
      → is_taken (get Str-discrete r.by_host a.host) a.id ≡ false
      → Inverse (set_attachment current a r)
  unfolding set_attachment forget_host is_taken
  set_attachment-Inverse none v hc free = record {
    owning = λ id x h. ground (
      arith,
      get-put Str-discrete r.by_id a.id id a,
      get-put Str-discrete r.by_host a.host x.host a.id,
      v.owning id x,
    );
    owned = λ host id h. ground (
      arith,
      get-put Str-discrete r.by_id a.id id a,
      get-put Str-discrete r.by_host a.host host a.id,
      v.owned host id,
    );
  }
  set_attachment-Inverse (some c) v hc free =
      let left = delete Str-discrete r.by_host c.host in
      record {
        owning = λ id x h. ground (
          arith,
          get-put Str-discrete r.by_id a.id id a,
          get-put Str-discrete left a.host x.host a.id,
          get-delete Str-discrete r.by_host c.host x.host,
          v.owning id x,
          v.owning a.id c,
        );
        owned = λ host id h. ground (
          arith,
          get-put Str-discrete r.by_id a.id id a,
          get-put Str-discrete left a.host host a.id,
          get-delete Str-discrete r.by_host c.host host,
          v.owned host id,
        );
      }

attach_new-Inverse :
    (current : Option Attachment) (a : Attachment) (r : Registry)
    → Inverse r
    → get Str-discrete r.by_id a.id ≡ current
    → Keeps (attach_new current a r)
unfolding attach_new
attach_new-Inverse current a r v hc =
    if_cases Keeps (is_taken (get Str-discrete r.by_host a.host) a.id) (λ _. tt)
      (λ free. signal_changed-Inverse a.host _ (set_attachment-Inverse a r current v hc free))

attach_found-Inverse :
    (current : Option Attachment) (a : Attachment) (r : Registry)
    → Inverse r
    → get Str-discrete r.by_id a.id ≡ current
    → Keeps (attach_found current a r)
unfolding attach_found
attach_found-Inverse none a r v hc = attach_new-Inverse none a r v hc
attach_found-Inverse (some c) a r v hc =
    if_cases Keeps (same Attachment-discrete c a)
      {y = if is_stale a c then err stale else attach_new (some c) a r} (λ _. v)
      (λ _. if_cases Keeps (is_stale a c) (λ _. tt) (λ _. attach_new-Inverse (some c) a r v hc))

pub attach-Inverse : (given : Attachment) (r : Registry) → Inverse r → Keeps (attach given r)
unfolding attach
attach-Inverse given r v =
    let a : Attachment = record given { host = normalize_host given.host } in
    if_cases Keeps (is_incomplete a || not (is_direct_child a.host (expected_domain a r))) (λ _. tt)
      (λ _. attach_found-Inverse _ a r v refl)

detach_found-Inverse :
    (o : Option Attachment) (id : Str) (revision : ℕ) (r : Registry)
    → Inverse r
    → get Str-discrete r.by_id id ≡ o
    → KeepsRegistry (detach_found o id revision r)
unfolding detach_found
detach_found-Inverse none id revision r v h = v
detach_found-Inverse (some a) id revision r v h =
    if_cases KeepsRegistry (not (revision == a.revision)) (λ _. tt)
      λ _. signal_changed-Inverse a.host _ (record {
        owning = λ i x q. ground (
          arith,
          get-delete Str-discrete r.by_id id i,
          get-delete Str-discrete r.by_host a.host x.host,
          v.owning i x,
          v.owning id a,
        );
        owned = λ host i q. ground (
          arith,
          get-delete Str-discrete r.by_id id i,
          get-delete Str-discrete r.by_host a.host host,
          v.owned host i,
        );
      })

pub detach-Inverse :
    (id : Str) (revision : ℕ) (r : Registry) → Inverse r → KeepsRegistry (detach id revision r)
unfolding detach
detach-Inverse id revision r v = detach_found-Inverse _ id revision r v refl

attached-then :
    (o : Result Error (Registry × Attachment)) (f : Registry → Result Error Registry)
    → Keeps o
    → ((r : Registry) → Inverse r → KeepsRegistry (f r))
    → KeepsRegistry (o >>= λ p. f p.0)
attached-then (ok p) f k h = h p.0 k
attached-then (err e) f k h = tt

attach_all-Inverse :
    (attachments : List Attachment) (r : Registry)
    → Inverse r
    → KeepsRegistry (attach_all attachments r)
unfolding attach_all
attach_all-Inverse [] r v = v
attach_all-Inverse (a ∷ attachments) r v =
    attached-then (attach a r) (attach_all attachments) (attach-Inverse a r v)
      (attach_all-Inverse attachments)

signal_lost-Inverse :
    (m : Map Str Str) (r next out : Registry) → Inverse out → Inverse (signal_lost m r next out)
unfolding signal_lost
signal_lost-Inverse [] r next out v = v
signal_lost-Inverse (p ∷ m) r next out v = signal_lost-Inverse m r next _ (
    if_cases Inverse (keeps_owner (get Str-discrete next.by_host p.0) p.1 r next) (λ _. v)
      (λ _. signal_changed-Inverse p.0 out v))

signal_gained-Inverse :
    (m : Map Str Str) (r out : Registry) → Inverse out → Inverse (signal_gained m r out)
unfolding signal_gained
signal_gained-Inverse [] r out v = v
signal_gained-Inverse (p ∷ m) r out v = elim (Option-cases (get Str-discrete r.by_host p.0)) [
  | inl e ↦ rw (e, signal_gained) (signal_gained-Inverse m r _ (signal_changed-Inverse p.0 out v))
  | inr (id, e) ↦ rw (e, signal_gained) (signal_gained-Inverse m r out v)
]

replaced-Inverse :
    (o : Result Error Registry) (r : Registry)
    → KeepsRegistry o
    → KeepsRegistry (do
      next ← o
      refuse_if (any_stale r.by_id next) stale
      ok (
          signal_gained next.by_host r (
            signal_lost r.by_host r next
              (record r { by_id = next.by_id; by_host = next.by_host }))))
replaced-Inverse (err e) r k = tt
replaced-Inverse (ok next) r k = elim (Bool-cases (any_stale r.by_id next)) [
  | inl e ↦ rw e tt
  | inr e ↦ rw e (
      signal_gained-Inverse next.by_host r _
        (signal_lost-Inverse r.by_host r next _ (record { owning = k.owning; owned = k.owned })))
]

pub replace_all-Inverse :
    (attachments : List Attachment) (r : Registry) → KeepsRegistry (replace_all attachments r)
unfolding replace_all
replace_all-Inverse attachments r = replaced-Inverse _ r (
    attach_all-Inverse attachments _
      (new_attachments-Inverse r.preview_base_domain r.runtime_base_domain))
