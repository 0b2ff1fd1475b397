-- ===== src/Route/Attachments.antt =====
-- internal/route/route.go: `Registry` and the attachments of single routes. A notification channel
-- of a host is a number: the channel `n` is closed when the host's number is above it.
pub mod Inverse
pub mod Runs
use paperboat_tunnel.Base.{
  ℕ, suc, Bool, true, false, not, ◌&&◌, ◌||◌, List, [], ◌∷◌, Option, none, some, ℤ, Result, ok, err,
  ◌>>=◌, ◌>>◌, refuse_if, ltb, ◌==◌, if◌then◌else◌, same, ℕ_discrete, map,
}
use mathlib.Core.Bool.{Bool-discrete}
use paperboat_tunnel.Base.Maps.{Map, get, put, delete}
use paperboat_tunnel.Base.Strings.{Str, Str-discrete, contains, eq_str, has_suffix, trim_suffix}
use paperboat_tunnel.Go.Text.{str_lt}
use paperboat_tunnel.Route.Rule.{
  Error, conflict, helper_https_wss, invalid, preview_https_wss, stale,
}
use paperboat_tunnel.Route.Request.{normalize_host}

pub record Attachment : Type 0 where
  pub id : Str
  pub revision : ℕ
  pub environment : Str
  pub node : Str
  pub generation : ℕ
  pub config_generation : ℕ
  pub kind : Str
  pub host : Str
  pub target : Str
  pub match_type : Str
  pub wildcard_suffix : Str
  pub path_prefix : Str
  pub priority : ℤ
  pub protocol : Str
  pub origin_scheme : Str
  pub preserve_host : Bool
  pub host_override : Str
  pub desired_state : Str
  pub preview_state : Str
  pub preview_reason : Str

unfoldable ℤ-discrete : Discrete ℤ
unfolding ℕ_discrete
ℤ-discrete = hlevel ℕ_discrete

unfoldable pub Attachment-discrete : Discrete Attachment
unfolding Str-discrete ℕ_discrete ℤ-discrete Bool-discrete
Attachment-discrete = hlevel (Str-discrete, ℕ_discrete, ℤ-discrete, Bool-discrete)

pub record Registry : Type 0 where
  pub preview_base_domain : Str
  pub runtime_base_domain : Str
  pub by_id : Map Str Attachment
  pub by_host : Map Str Str
  pub changed : Map Str ℕ

unfoldable pub new_attachments : Str → Str → Registry
new_attachments preview_base_domain runtime_base_domain = record {
  preview_base_domain = normalize_host preview_base_domain;
  runtime_base_domain = normalize_host runtime_base_domain;
  by_id = [];
  by_host = [];
  changed = [];
}

-- The channel of a host, which is made on first use.
unfoldable pub changed_of : Str → Registry → ℕ
changed_of host r = elim (get Str-discrete r.changed host) [ none ↦ 0 | some n ↦ n ]

-- signalChangedLocked
unfoldable pub signal_changed : Str → Registry → Registry
signal_changed host r = record r {
  changed = put Str-discrete r.changed host (suc (changed_of host r));
}

-- sameRoute
unfoldable pub same_route : Attachment → Attachment → Bool
same_route a b =
    same Attachment-discrete (record a { preview_state = []; preview_reason = [] })
      (record b { preview_state = []; preview_reason = [] })

unfoldable pub is_incomplete : Attachment → Bool
is_incomplete a =
    eq_str a.id []
    || a.revision == 0
    || eq_str a.environment []
    || eq_str a.node []
    || a.generation == 0
    || eq_str a.host []
    || eq_str a.target []
    || not (eq_str a.kind helper_https_wss) && not (eq_str a.kind preview_https_wss)

unfoldable pub expected_domain : Attachment → Registry → Str
expected_domain a r =
    if eq_str a.kind helper_https_wss then r.runtime_base_domain else r.preview_base_domain

-- One label in front of the domain.
unfoldable pub is_direct_child : Str → Str → Bool
is_direct_child host domain =
    let suffix = b'.' ∷ domain in
    let prefix = trim_suffix host suffix in
    not (eq_str domain [])
    && has_suffix host suffix
    && not (eq_str prefix [])
    && not (contains prefix b'.')

unfoldable pub is_stale : Attachment → Attachment → Bool
is_stale a current =
    ltb a.revision current.revision || a.revision == current.revision && not (same_route current a)

-- The host is owned by another route.
unfoldable pub is_taken : Option Str → Str → Bool
is_taken none id = false
is_taken (some owner) id = not (eq_str owner id)

unfoldable pub forget_host : Option Attachment → Map Str Str → Map Str Str
forget_host none by_host = by_host
forget_host (some current) by_host = delete Str-discrete by_host current.host

-- The two maps with `a`, and without the host that its route had before.
unfoldable pub set_attachment : Option Attachment → Attachment → Registry → Registry
set_attachment current a r = record r {
  by_id = put Str-discrete r.by_id a.id a;
  by_host = put Str-discrete (forget_host current r.by_host) a.host a.id;
}

unfoldable pub attach_new :
    Option Attachment → Attachment → Registry → Result Error (Registry × Attachment)
attach_new current a r =
    if is_taken (get Str-discrete r.by_host a.host) a.id
    then err conflict
    else ok (signal_changed a.host (set_attachment current a r), a)

-- `Attach` behind its checks of the attachment.
unfoldable pub attach_found :
    Option Attachment → Attachment → Registry → Result Error (Registry × Attachment)
attach_found none a r = attach_new none a r
attach_found (some current) a r =
    if same Attachment-discrete current a
    then ok (r, current)
    else if is_stale a current
    then err stale
    else attach_new (some current) a r

unfoldable pub attach : Attachment → Registry → Result Error (Registry × Attachment)
attach given r =
    let a : Attachment = record given { host = normalize_host given.host } in
    if is_incomplete a || not (is_direct_child a.host (expected_domain a r))
    then err invalid
    else attach_found (get Str-discrete r.by_id a.id) a r

unfoldable pub detach_found : Option Attachment → Str → ℕ → Registry → Result Error Registry
detach_found none id revision r = ok r
detach_found (some a) id revision r =
    if not (revision == a.revision)
    then err stale
    else ok (
        signal_changed a.host (record r {
          by_id = delete Str-discrete r.by_id id;
          by_host = delete Str-discrete r.by_host a.host;
        }))

unfoldable pub detach : Str → ℕ → Registry → Result Error Registry
detach id revision r = detach_found (get Str-discrete r.by_id id) id revision r

-- Registry.Get
unfoldable pub get_attachment : Str → Registry → Option Attachment
get_attachment id r = get Str-discrete r.by_id id

-- Registry.Owns
unfoldable pub owns : Attachment → Registry → Bool
owns a r = elim (get Str-discrete r.by_id a.id) [
  | none ↦ false
  | some current ↦ same_route current a
]

unfoldable pub attach_all : List Attachment → Registry → Result Error Registry
attach_all [] r = ok r
attach_all (a ∷ attachments) r = attach a r >>= λ o. attach_all attachments o.0

-- The loop of `Replace` that refuses an older revision.
unfoldable pub any_stale : Map Str Attachment → Registry → Bool
any_stale [] next = false
any_stale (p ∷ by_id) next =
    let rest = any_stale by_id next in
    elim (get Str-discrete next.by_id p.0) [
      | none ↦ rest
      | some replacement ↦ is_stale replacement p.1 || rest
    ]

-- `sameRoute` on two reads of a map, which give the zero attachment where the key is missing: it is
-- not the route of an attachment, which has an ID.
unfoldable pub same_routes : Option Attachment → Option Attachment → Bool
same_routes (some a) (some b) = same_route a b
same_routes none none = true
same_routes _ _ = false

unfoldable pub keeps_owner : Option Str → Str → Registry → Registry → Bool
keeps_owner none id r next = false
keeps_owner (some owner) id r next =
    eq_str owner id && same_routes (get Str-discrete r.by_id id) (get Str-discrete next.by_id owner)

-- The hosts of which `Replace` signals a change: those whose owner changes, and the new ones.
unfoldable pub signal_lost : Map Str Str → Registry → Registry → Registry → Registry
signal_lost [] r next out = out
signal_lost (p ∷ by_host) r next out = signal_lost by_host r next (
    if keeps_owner (get Str-discrete next.by_host p.0) p.1 r next
    then out
    else signal_changed p.0 out)

unfoldable pub signal_gained : Map Str Str → Registry → Registry → Registry
signal_gained [] r out = out
signal_gained (p ∷ by_host) r out =
    signal_gained by_host r
      (elim (get Str-discrete r.by_host p.0) [ none ↦ signal_changed p.0 out | some id ↦ out ])

-- Registry.Replace
unfoldable pub replace_all : List Attachment → Registry → Result Error Registry
replace_all attachments r = do
  next ← attach_all attachments (new_attachments r.preview_base_domain r.runtime_base_domain)
  refuse_if (any_stale r.by_id next) stale
  ok (
      signal_gained next.by_host r
        (signal_lost r.by_host r next (record r { by_id = next.by_id; by_host = next.by_host })))

unfoldable pub insert_attachment : Attachment → List Attachment → List Attachment
insert_attachment a [] = a ∷ []
insert_attachment a (x ∷ xs) =
    let rest = insert_attachment a xs in if str_lt x.id a.id then x ∷ rest else a ∷ x ∷ xs

unfoldable pub sort_attachments : Map Str Attachment → List Attachment
sort_attachments [] = []
sort_attachments (p ∷ by_id) = insert_attachment p.1 (sort_attachments by_id)

-- Registry.Snapshot
unfoldable pub attachments_of : Registry → List Attachment
attachments_of r = sort_attachments r.by_id
