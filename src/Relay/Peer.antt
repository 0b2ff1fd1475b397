-- ===== src/Relay/Peer.antt =====
-- internal/peerrelay/manager.go: `Manager`, which pairs two endpoints of a relay. A stream is the
-- carrier that it came by; closing it is I/O. `run` ends in `finalize`, which is a step of its own, and
-- so are the calls of the expiry timer. Times are nanoseconds since Go's zero time.
pub mod Capacity
pub mod SingleUse
use mathlib.Core.Bool.{Bool-discrete}
use paperboat_tunnel.Base.{
  ℕ, ◌+◌, ◌*◌, ◌-◌, Bool, true, false, not, ◌&&◌, ◌||◌, List, [], ◌∷◌, Option, none, some, Result,
  ok, err, leb, ltb, ◌==◌, if◌then◌else◌, length, same, ℕ_discrete,
}
use paperboat_tunnel.Base.Maps.{Map, get, put, delete}
use paperboat_tunnel.Base.Strings.{Str, Str-discrete, eq_str}

pub data Error : Type 0 where
  invalid capacity conflict is_draining revoked expired limit is_closed canceled : Error

pub data Role : Type 0 where
  initiator host unknown_role : Role

pub data Carrier : Type 0 where
  quic wss unknown_carrier : Carrier

unfoldable pub Carrier-discrete : Discrete Carrier
Carrier-discrete = hlevel

-- The allocation and the handle are 16 bytes each.
pub record Binding : Type 0 where
  pub route_allocation : Str
  pub stream_handle : Str
  pub environment_id : Str
  pub route_id : Str
  pub route_revision : ℕ
  pub intent_id : Str
  pub attempt : ℕ
  pub network : ℕ
  pub expires_at : ℕ
  pub maximum_bytes : ℕ

pub record Admission : Type 0 where
  pub binding : Binding
  pub role : Role
  pub carrier : Carrier

pub record RelayKey : Type 0 where
  pub binding : Binding
  pub carrier : Carrier

pub record StreamKey : Type 0 where
  pub route_allocation : Str
  pub stream_handle : Str
  pub carrier : Carrier

unfoldable pub RelayKey-discrete : Discrete RelayKey
RelayKey-discrete = hlevel (Str-discrete, ℕ_discrete, Carrier-discrete)

unfoldable pub StreamKey-discrete : Discrete StreamKey
StreamKey-discrete = hlevel (Str-discrete, Carrier-discrete)

-- The report timeout is in nanoseconds.
pub record Config : Type 0 where
  pub maximum_pending : ℕ
  pub maximum_active : ℕ
  pub maximum_consumed : ℕ
  pub buffer_bytes : ℕ
  pub report_timeout : ℕ

unfoldable pub config_valid : Config → Bool
config_valid c =
    ltb 0 c.maximum_pending
    && leb c.maximum_pending 16384
    && ltb 0 c.maximum_active
    && leb c.maximum_active 65536
    && ltb 0 c.maximum_consumed
    && leb c.maximum_consumed 1048576
    && leb 4096 c.buffer_bytes
    && leb c.buffer_bytes 262144
    && ltb 0 c.report_timeout
    && leb c.report_timeout 60000000000

-- A relay with its two legs.
pub record Relay : Type 0 where
  pub initiator_leg : Bool
  pub host_leg : Bool
  pub started : Bool
  pub has_expired : Bool

pub record Manager : Type 0 where
  pub config : Config
  pub relays : Map RelayKey Relay
  pub consumed : Map StreamKey ℕ
  pub draining : Bool
  pub closed : Bool

-- No maximum of consumed streams is that of `DevelopmentConfig`.
unfoldable pub with_default : Config → Config
with_default c = if c.maximum_consumed == 0 then record c { maximum_consumed = 65536 } else c

-- `NewManager`, with a recorder.
unfoldable pub new_pairing : Config → Result Error Manager
new_pairing c =
    if not (config_valid (with_default c))
    then err invalid
    else ok (record {
      config = with_default c;
      relays = [];
      consumed = [];
      draining = false;
      closed = false;
    })

unfoldable pub stream_key : RelayKey → StreamKey
stream_key k = record {
  route_allocation = k.binding.route_allocation;
  stream_handle = k.binding.stream_handle;
  carrier = k.carrier;
}

abbrev pub no_bytes : Str
no_bytes = 0 ∷ 0 ∷ 0 ∷ 0 ∷ 0 ∷ 0 ∷ 0 ∷ 0 ∷ 0 ∷ 0 ∷ 0 ∷ 0 ∷ 0 ∷ 0 ∷ 0 ∷ 0 ∷ []

abbrev pub is_name : Str → Bool
is_name s = not (eq_str s []) && leb (length s) 128

abbrev pub is_known_role : Role → Bool
is_known_role unknown_role = false
is_known_role _ = true

abbrev pub is_known_carrier : Carrier → Bool
is_known_carrier unknown_carrier = false
is_known_carrier _ = true

unfoldable pub valid_admission : Admission → ℕ → Bool
valid_admission a now =
    is_known_role a.role
    && is_known_carrier a.carrier
    && not (eq_str a.binding.route_allocation no_bytes)
    && not (eq_str a.binding.stream_handle no_bytes)
    && is_name a.binding.environment_id
    && is_name a.binding.route_id
    && ltb 0 a.binding.route_revision
    && is_name a.binding.intent_id
    && ltb 0 a.binding.attempt
    && ltb 0 a.binding.network
    && ltb now a.binding.expires_at
    && ltb 0 a.binding.maximum_bytes
    && leb a.binding.maximum_bytes 1099511627776

-- The relays that have started, or that have not.
unfoldable pub count_started : Bool → Map RelayKey Relay → ℕ
count_started started [] = 0
count_started started ((k, r) ∷ relays) =
    let rest = count_started started relays in
    if same Bool-discrete r.started started then rest + 1 else rest

unfoldable pub prune_consumed : ℕ → Map StreamKey ℕ → Map StreamKey ℕ
prune_consumed now [] = []
prune_consumed now ((k, expires_at) ∷ consumed) =
    let rest = prune_consumed now consumed in
    if leb expires_at now then rest else (k, expires_at) ∷ rest

abbrev pub is_host : Role → Bool
is_host host = true
is_host _ = false

-- Whether the leg of the role is taken.
abbrev pub leg_of : Role → Relay → Bool
leg_of role r = if is_host role then r.host_leg else r.initiator_leg

unfoldable pub with_leg : Role → Relay → Relay
with_leg role r =
    if is_host role then record r { host_leg = true } else record r { initiator_leg = true }

-- A relay with both legs starts.
unfoldable pub started_if_paired : Relay → Relay
started_if_paired r =
    if r.initiator_leg && r.host_leg && not r.started then record r { started = true } else r

abbrev pub new_relay : Relay
new_relay = record { initiator_leg = false; host_leg = false; started = false; has_expired = false }

abbrev pub Reply : Type 0
Reply = Manager × Option Error

unfoldable pub set_relay : RelayKey → Relay → Manager → Manager
set_relay k r m = record m { relays = put RelayKey-discrete m.relays k r }

-- The legs of `Attach`, with the relay of the key; a new one is set only with its first leg.
unfoldable pub attach_found : Option Relay → RelayKey → Role → Manager → Reply
attach_found none k role m =
    if leb m.config.maximum_consumed (length m.consumed + length m.relays)
    then (m, some capacity)
    else if leb m.config.maximum_pending (count_started false m.relays)
    then (m, some capacity)
    else (set_relay k (with_leg role new_relay) m, none)
attach_found (some r) k role m =
    if r.has_expired
    then (m, some expired)
    else if leg_of role r
    then (m, some conflict)
    else if not r.started
        && (r.initiator_leg || r.host_leg)
        && leb m.config.maximum_active (count_started true m.relays)
    then (m, some capacity)
    else (set_relay k (started_if_paired (with_leg role r)) m, none)

unfoldable pub is_some_time : Option ℕ → Bool
is_some_time none = false
is_some_time (some t) = true

-- `Attach` up to its wait; the flag says that the context is cancelled. It reads the clock twice: at
-- `checked` for the admission, at `now` behind the lock.
unfoldable pub attach_stream : Bool → ℕ → ℕ → Admission → Manager → Reply
attach_stream cancelled checked now a m =
    let k : RelayKey = record { binding = a.binding; carrier = a.carrier } in
    let pruned = record m { consumed = prune_consumed now m.consumed } in
    if not (valid_admission a checked)
    then (m, some invalid)
    else if cancelled
    then (m, some canceled)
    else if m.closed
    then (pruned, some is_closed)
    else if m.draining
    then (pruned, some is_draining)
    else if is_some_time (get StreamKey-discrete pruned.consumed (stream_key k))
    then (pruned, some conflict)
    else attach_found (get RelayKey-discrete m.relays k) k a.role pruned

-- `finalize`, for the relay of a key; it runs once, and takes the relay out.
unfoldable pub finalize_found : Option Relay → RelayKey → Manager → Manager
finalize_found none k m = m
finalize_found (some r) k m = record m {
  relays = delete RelayKey-discrete m.relays k;
  consumed = put StreamKey-discrete m.consumed (stream_key k) k.binding.expires_at;
}

unfoldable pub finalize : RelayKey → Manager → Manager
finalize k m = finalize_found (get RelayKey-discrete m.relays k) k m

-- The first part of `expirePending`; `finalize` follows.
unfoldable pub expire_found : Option Relay → RelayKey → Manager → Manager
expire_found none k m = m
expire_found (some r) k m = if r.started then m else set_relay k (record r { has_expired = true }) m

unfoldable pub expire_pending : RelayKey → Manager → Manager
expire_pending k m = expire_found (get RelayKey-discrete m.relays k) k m

unfoldable pub begin_relay_drain : Manager → Manager
begin_relay_drain m = record m { draining = true }

-- The first part of `Close`; each relay is finalized behind it.
unfoldable pub close_manager : Manager → Manager
close_manager m = record m { closed = true; draining = true }
