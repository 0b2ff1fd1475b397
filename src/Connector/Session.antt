-- ===== src/Connector/Session.antt =====
-- internal/connectorprotocol/session.go: the state of `ServerSession` and what its methods share.
-- A method takes the sessions of the registry and gives them back with the session and its result.
-- The contexts and receivers are there, and the registry is, as NewServer sees to.
pub mod Acknowledge
pub mod Offer
pub mod Draining
pub mod Renewal
pub mod Accept
pub mod Invariant
pub mod Served
pub mod Activation
pub mod Ended
pub mod Limits
use paperboat_tunnel.Base.{
  ℕ, ◌+◌, ◌-◌, ◌*◌, Bool, true, false, not, ◌&&◌, ◌||◌, List, [], ◌∷◌, Option, none, some, Result,
  ok, err, leb, ltb, ◌==◌, if◌then◌else◌,
}
use paperboat_tunnel.Base.Strings.{Str, eq_str}
use paperboat_tunnel.Connector.Error.{
  Code, Error, Reason, code_credential_expired, code_error, code_heartbeat_timeout,
  code_lease_expired, code_session_closed, code_stale_session, reason_credential_expired,
  reason_heartbeat_timeout, reason_lease_expired, reason_session_replaced,
}
use paperboat_tunnel.Connector.Message.{Ack, Delta, Snapshot, AckKind, AckStatus}
use paperboat_tunnel.Connector.DrainMessage.{Drain, DrainStatus}
use paperboat_tunnel.Connector.Auth.{AuthResult, Lease, millisecond}
use paperboat_tunnel.Connector.Registry.{
  SessionRef, Sessions, active_session, disconnect_session, is_current,
}

pub data SessionState : Type 0 where
  session_new session_awaiting_snapshot session_awaiting_ready session_ready : SessionState
  session_draining session_closed : SessionState

pub record ServerConfig : Type 0 where
  pub capabilities : List Str
  pub lease_duration : ℕ
  pub heartbeat_interval : ℕ

pub record Welcome : Type 0 where
  pub protocol : Str
  pub version : Str
  pub session_id : Str
  pub capabilities : List Str
  pub lease : Lease
  pub requires_snapshot : Bool
  pub server_time : ℕ

pub record ServerSession : Type 0 where
  pub ref : SessionRef
  pub auth : AuthResult
  pub lease : Lease
  pub welcome : Welcome
  pub pending_snapshot : Option Snapshot
  pub pending_delta : Option Delta
  pub active : Snapshot
  pub has_active : Bool
  pub candidate : Snapshot
  pub has_candidate : Bool
  pub ready_generation : ℕ
  pub needs_snapshot : Bool
  pub state : SessionState
  pub last_heartbeat : ℕ
  pub last_heartbeat_sent_at : ℕ
  pub drain : Option Drain
  pub drain_status : DrainStatus
  pub drain_code : Option Code
  pub drain_completed : Bool
  pub disconnect_reason : Reason

abbrev pub Outcome : Type 0 → Type 0
Outcome A = Sessions × ServerSession × Result Error A

abbrev pub is_closed : SessionState → Bool
is_closed session_closed = true
is_closed _ = false

abbrev pub is_ready : SessionState → Bool
is_ready session_ready = true
is_ready _ = false

abbrev pub is_draining : SessionState → Bool
is_draining session_draining = true
is_draining _ = false

-- `closeLocked`
unfoldable pub close_locked : Reason → Sessions → ServerSession → Sessions × ServerSession
close_locked reason m s = if is_closed s.state then (m, s) else (
  (disconnect_session s.ref reason m).0,
  record s { state = session_closed; disconnect_reason = reason },
)

unfoldable pub close_with : {A : Type 0} → Reason → Error → Sessions → ServerSession → Outcome A
close_with reason e m s = ((close_locked reason m s).0, (close_locked reason m s).1, err e)

-- The heartbeat is older than two intervals.
unfoldable pub is_silent : ℕ → ServerSession → Bool
is_silent now s =
    not (s.last_heartbeat == 0)
    && ltb (2 * (s.lease.heartbeat_interval_ms * millisecond)) (now - s.last_heartbeat)

-- `ensureActiveLocked`, and what follows where it returns nil.
unfoldable pub ensure_active :
    {A : Type 0} → ℕ → Sessions → ServerSession → ServerSession × Result Error A → Outcome A
ensure_active now m s follows =
    if is_closed s.state
    then (m, s, err (code_error code_session_closed s.disconnect_reason false))
    else if not (is_current (active_session s.ref.connector_id m) s.ref)
    then close_with reason_session_replaced
        (code_error code_stale_session reason_session_replaced false) m s
    else if leb s.auth.credential_expires_at now
    then close_with reason_credential_expired
        (code_error code_credential_expired reason_credential_expired true) m s
    else if leb s.lease.expires_at now
    then close_with reason_lease_expired (code_error code_lease_expired reason_lease_expired true) m
        s
    else if is_silent now s
    then close_with reason_heartbeat_timeout
        (code_error code_heartbeat_timeout reason_heartbeat_timeout true) m s
    else (m, follows.0, follows.1)

-- The return of a method where the check of its message failed, and what follows where it passed.
abbrev pub checked :
    {A : Type 0} → Result Error (Unit {0}) → Sessions → ServerSession → Outcome A → Outcome A
checked (ok _) m s follows = follows
checked (err e) m s follows = (m, s, err e)

-- `matchesIdentity`
unfoldable pub matches_identity : ServerSession → Str → Str → Str → Str → ℕ → Bool
matches_identity s account_id tunnel_id connector_id session_id process_generation =
    eq_str account_id s.auth.account_id
    && eq_str tunnel_id s.ref.tunnel_id
    && eq_str connector_id s.ref.connector_id
    && eq_str session_id s.ref.session_id
    && process_generation == s.ref.process_generation

-- The active snapshot is the one that was reported ready.
unfoldable pub serves_active : ServerSession → Bool
serves_active s = s.has_active && s.ready_generation == s.active.generation

-- `restoreStateLocked`
unfoldable pub restore_state : ServerSession → ServerSession
unfolding serves_active
restore_state s =
    if serves_active s && not s.needs_snapshot
    then record s { state = session_ready }
    else record s { state = session_awaiting_snapshot }

-- `makeAckLocked`
unfoldable pub make_ack : ServerSession → AckKind → AckStatus → ℕ → Str → Ack
make_ack s kind status generation content_hash = record {
  account_id = s.auth.account_id;
  tunnel_id = s.ref.tunnel_id;
  connector_id = s.ref.connector_id;
  session_id = s.ref.session_id;
  process_generation = s.ref.process_generation;
  kind = kind;
  status = status;
  generation = generation;
  content_hash = content_hash;
  code = none;
}

-- `bindSnapshot` with the identity of a session.
unfoldable pub bind_snapshot : Snapshot → Str → Str → Str → ℕ → Snapshot
bind_snapshot p account_id connector_id session_id process_generation = record p {
  account_id = account_id;
  connector_id = connector_id;
  session_id = session_id;
  process_generation = process_generation;
}

-- `Current`: the active snapshot, whether it is ready, and the generation that was reported ready.
unfoldable pub current_snapshot : ServerSession → Option (Snapshot × Bool × ℕ)
unfolding serves_active
current_snapshot s =
    if s.has_active
    then some (
      s.active,
      is_ready s.state && not s.needs_snapshot && s.ready_generation == s.active.generation,
      s.ready_generation,
    )
    else none

-- `CheckLease`
unfoldable pub check_lease : ℕ → Sessions → ServerSession → Outcome (Unit {0})
check_lease now m s = ensure_active now m s (s, ok tt)
