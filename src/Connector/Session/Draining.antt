-- ===== src/Connector/Session/Draining.antt =====
-- internal/connectorprotocol/session.go: the drain of a connector, and the end of a session.
use paperboat_tunnel.Base.{
  ℕ, Bool, true, false, not, ◌&&◌, ◌||◌, Option, none, some, Result, ok, err, ◌==◌, same,
  if◌then◌else◌,
}
use paperboat_tunnel.Base.Strings.{Str, eq_str}
use paperboat_tunnel.Connector.Error.{
  Code, Code-discrete, Error, Reason, code_canceled, code_capability_missing,
  code_content_hash_mismatch, code_drain_rejected, code_error, code_identity_mismatch,
  code_invalid_input, code_not_ready, code_session_conflict, code_stale_generation,
  code_stale_session, plain, reason_authentication, reason_canceled, reason_capability_missing,
  reason_snapshot_rejected, reason_stale_generation, valid_disconnect_reason,
}
use paperboat_tunnel.Connector.Capability.{drain_capability, has_capability}
use paperboat_tunnel.Connector.DrainMessage.{
  Drain, DrainAck, DrainStatus, drain_accepted, drain_completed, drain_forced, drain_other,
  drain_progress, drain_rejected, validate_drain, validate_drain_ack,
}
use paperboat_tunnel.Connector.Registry.{Sessions}
use paperboat_tunnel.Connector.Session.{
  Outcome, ServerSession, checked, close_locked, ensure_active, is_ready, matches_identity,
  restore_state, serves_active, session_draining,
}
use paperboat_tunnel.Connector.Session.Acknowledge.{Reply, is_valid}

unfoldable pub DrainStatus-discrete : Discrete DrainStatus
DrainStatus-discrete = hlevel

-- Two codes are the same, where `none` is the empty one.
unfoldable pub same_code : Option Code → Option Code → Bool
unfolding Code-discrete
same_code none none = true
same_code (some a) (some b) = same Code-discrete a b
same_code _ _ = false

unfoldable pub drain_of : ServerSession → Str → ℕ → Bool → Drain
drain_of s drain_id deadline force = record {
  account_id = s.auth.account_id;
  tunnel_id = s.ref.tunnel_id;
  connector_id = s.ref.connector_id;
  session_id = s.ref.session_id;
  process_generation = s.ref.process_generation;
  drain_id = drain_id;
  generation = s.active.generation;
  content_hash = s.active.content_hash;
  deadline = deadline;
  stop_new_streams = true;
  force_after_deadline = force;
}

unfoldable pub start_validated : Result Error (Unit {0}) → Drain → ServerSession → Reply Drain
start_validated (err e) request s = (s, err e)
start_validated (ok _) request s = (
  record s {
    drain = some request;
    drain_status = drain_accepted;
    drain_code = none;
    drain_completed = false;
    state = session_draining;
  },
  ok request,
)

unfoldable pub begin_over : Option Drain → ℕ → Str → ℕ → Bool → ServerSession → Reply Drain
begin_over (some d) later drain_id deadline force s =
    if eq_str d.drain_id drain_id
    then (s, ok d)
    else (s, err (code_error code_session_conflict reason_stale_generation true))
begin_over none later drain_id deadline force s =
    if not (serves_active s) || s.needs_snapshot || not (is_ready s.state)
    then (s, err (code_error code_not_ready reason_snapshot_rejected true))
    else start_validated (validate_drain (drain_of s drain_id deadline force) later)
        (drain_of s drain_id deadline force) s

unfoldable pub begin_open : ℕ → Str → ℕ → Bool → ServerSession → Reply Drain
begin_open later drain_id deadline force s =
    if not (has_capability s.welcome.capabilities drain_capability)
    then (s, err (code_error code_capability_missing reason_capability_missing false))
    else begin_over s.drain later drain_id deadline force s

-- The flag says that the context is cancelled; `now` and `later` are the two times that are read.
unfoldable pub begin_session_drain :
    Bool → ℕ → ℕ → Str → ℕ → Bool → Sessions → ServerSession → Outcome Drain
begin_session_drain cancelled now later drain_id deadline force m s =
    if cancelled
    then (m, s, err (code_error code_canceled reason_canceled true))
    else ensure_active now m s (begin_open later drain_id deadline force s)

-- The switch on the status of an acknowledgement, on the session that took it over.
unfoldable pub settle : DrainStatus → ServerSession → Reply (Unit {0})
settle drain_accepted s = (s, ok tt)
settle drain_progress s = (s, ok tt)
settle drain_completed s = (record s { drain_completed = true }, ok tt)
settle drain_forced s = (record s { drain_completed = true }, ok tt)
settle drain_rejected s = (
  restore_state (record s { drain_completed = true }),
  err (code_error code_drain_rejected reason_snapshot_rejected false),
)
settle drain_other s = (s, err (plain code_invalid_input))

unfoldable pub drain_ack_over : Option Drain → DrainAck → ServerSession → Reply (Unit {0})
unfolding DrainStatus-discrete same_code
drain_ack_over none a s = (s, err (code_error code_stale_session reason_stale_generation false))
drain_ack_over (some d) a s =
    if not (eq_str a.drain_id d.drain_id)
    then (s, err (code_error code_stale_session reason_stale_generation false))
    else if not (a.generation == d.generation) || not (eq_str a.content_hash d.content_hash)
    then (s, err (code_error code_content_hash_mismatch reason_snapshot_rejected false))
    else if s.drain_completed
    then (if same DrainStatus-discrete a.status s.drain_status && same_code a.code s.drain_code
        then (s, ok tt)
        else (s, err (code_error code_stale_generation reason_stale_generation false)))
    else settle a.status (record s { drain_status = a.status; drain_code = a.code })

unfoldable pub drain_ack_open : DrainAck → ServerSession → Reply (Unit {0})
drain_ack_open a s =
    if not
      (matches_identity s a.account_id a.tunnel_id a.connector_id a.session_id a.process_generation)
    then (s, err (code_error code_identity_mismatch reason_authentication false))
    else drain_ack_over s.drain a s

unfoldable pub handle_drain_ack :
    Bool → ℕ → DrainAck → Sessions → ServerSession → Outcome (Unit {0})
handle_drain_ack cancelled now a m s =
    if cancelled
    then (m, s, err (code_error code_canceled reason_canceled true))
    else checked (validate_drain_ack a) m s (ensure_active now m s (drain_ack_open a s))

abbrev pub is_drain_rejected : DrainStatus → Bool
is_drain_rejected drain_rejected = true
is_drain_rejected _ = false

abbrev pub addresses_drain : Option Drain → DrainAck → Bool
addresses_drain none a = false
addresses_drain (some d) a =
    eq_str a.drain_id d.drain_id
    && a.generation == d.generation
    && eq_str a.content_hash d.content_hash

unfoldable pub can_persist_negative_drain_ack : DrainAck → ServerSession → Bool
can_persist_negative_drain_ack a s =
    is_drain_rejected a.status
    && is_valid (validate_drain_ack a)
    && matches_identity s a.account_id a.tunnel_id a.connector_id a.session_id a.process_generation
    && addresses_drain s.drain a

-- `Close`
unfoldable pub close_session : Reason → Sessions → ServerSession → Outcome (Unit {0})
close_session reason m s =
    if not (valid_disconnect_reason reason)
    then (m, s, err (plain code_invalid_input))
    else ((close_locked reason m s).0, (close_locked reason m s).1, ok tt)
