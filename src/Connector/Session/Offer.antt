-- ===== src/Connector/Session/Offer.antt =====
-- internal/connectorprotocol/session.go: what the edge offers to a connector, and its heartbeats.
use paperboat_tunnel.Base.{
  ℕ, ◌+◌, ◌-◌, Bool, true, false, not, ◌&&◌, ◌||◌, [], Option, none, some, Result, ok, err, leb,
  ltb, ◌==◌, if◌then◌else◌,
}
use paperboat_tunnel.Base.Strings.{Str, eq_str}
use paperboat_tunnel.Connector.Error.{
  Error, code_content_hash_mismatch, code_delta_rejected, code_error, code_generation_gap,
  code_heartbeat_timeout, code_identity_mismatch, code_invalid_input, code_not_ready,
  code_snapshot_rejected, code_snapshot_required, code_stale_generation, code_stale_session,
  reason_authentication, reason_generation_gap, reason_heartbeat_timeout, reason_malformed,
  reason_snapshot_rejected, reason_stale_generation,
}
use paperboat_tunnel.Connector.Message.{
  Delta, Documents, Heartbeat, HeartbeatAck, Snapshot, max_clock_skew, validate_delta,
  validate_heartbeat, validate_snapshot,
}
use paperboat_tunnel.Connector.Registry.{Sessions}
use paperboat_tunnel.Connector.Session.{
  Outcome, ServerConfig, ServerSession, bind_snapshot, checked, ensure_active, matches_identity,
  serves_active, session_awaiting_snapshot,
}
use paperboat_tunnel.Connector.Session.Acknowledge.{Reply}

-- A field of a message that is set has the session's value.
abbrev pub is_other : Str → Str → Bool
is_other value own = not (eq_str value []) && not (eq_str value own)

abbrev pub is_other_number : ℕ → ℕ → Bool
is_other_number value own = not (value == 0) && not (value == own)

unfoldable pub is_foreign_snapshot : Snapshot → ServerSession → Bool
is_foreign_snapshot p s =
    is_other p.account_id s.auth.account_id
    || is_other p.connector_id s.ref.connector_id
    || is_other p.session_id s.ref.session_id
    || is_other_number p.process_generation s.ref.process_generation

-- The return for a generation that the session already has.
unfoldable pub known_snapshot : Snapshot → Snapshot → ServerSession → Reply (Unit {0})
known_snapshot p known s =
    if not (eq_str p.content_hash known.content_hash)
    then (s, err (code_error code_content_hash_mismatch reason_snapshot_rejected false))
    else (s, ok tt)

unfoldable pub bind_to : ServerSession → Snapshot → Snapshot
unfolding bind_snapshot
bind_to s p =
    bind_snapshot p s.auth.account_id s.ref.connector_id s.ref.session_id s.ref.process_generation

unfoldable pub replace_offer : Snapshot → ServerSession → ServerSession
replace_offer p s =
    if s.has_active
    then record s { pending_delta = none; pending_snapshot = some (bind_to s p) }
    else record s {
      pending_delta = none;
      pending_snapshot = some (bind_to s p);
      state = session_awaiting_snapshot;
    }

unfoldable pub offer_over : Option Snapshot → Snapshot → ServerSession → Reply (Unit {0})
offer_over none p s = (replace_offer p s, ok tt)
offer_over (some offered) p s =
    if p.generation == offered.generation
    then known_snapshot p offered s
    else (replace_offer p s, ok tt)

unfoldable pub snapshot_open : Snapshot → ServerSession → Reply (Unit {0})
snapshot_open p s =
    if not (eq_str p.tunnel_id s.ref.tunnel_id) || is_foreign_snapshot p s
    then (s, err (code_error code_identity_mismatch reason_authentication false))
    else if s.has_active && ltb p.generation s.active.generation
    then (s, err (code_error code_stale_generation reason_stale_generation false))
    else if s.has_candidate && p.generation == s.candidate.generation
    then known_snapshot p s.candidate s
    else if s.has_active && p.generation == s.active.generation
    then known_snapshot p s.active s
    else offer_over s.pending_snapshot p s

-- The check of an offered snapshot, whose error is passed on as ErrSnapshotRejected.
abbrev pub checked_as :
    {A : Type 0}
    → Error
    → Result Error (Unit {0})
    → Sessions
    → ServerSession
    → Outcome A
    → Outcome A
checked_as e (ok _) m s follows = follows
checked_as e (err _) m s follows = (m, s, err e)

abbrev pub is_some : {A : Type 0} → Option A → Bool
is_some none = false
is_some (some _) = true

unfoldable pub is_foreign_delta : Delta → ServerSession → Bool
is_foreign_delta d s =
    not (eq_str d.tunnel_id s.ref.tunnel_id)
    || is_other d.account_id s.auth.account_id
    || is_other d.connector_id s.ref.connector_id
    || is_other d.session_id s.ref.session_id
    || is_other_number d.process_generation s.ref.process_generation

unfoldable pub bind_delta : ServerSession → Delta → Delta
bind_delta s d = record d {
  account_id = s.auth.account_id;
  connector_id = s.ref.connector_id;
  session_id = s.ref.session_id;
  process_generation = s.ref.process_generation;
}

unfoldable pub delta_open : Delta → ServerSession → Reply (Unit {0})
delta_open d s =
    if not (serves_active s) || s.needs_snapshot
    then (s, err (code_error code_not_ready reason_snapshot_rejected true))
    else if is_some s.pending_snapshot || is_some s.pending_delta || s.has_candidate
    then (s, err (code_error code_generation_gap reason_generation_gap true))
    else if is_foreign_delta d s
        || not (d.previous_generation == s.active.generation)
        || not (eq_str d.previous_content_hash s.active.content_hash)
    then (s, err (code_error code_generation_gap reason_generation_gap true))
    else (record s { pending_delta = some (bind_delta s d) }, ok tt)

module _ (docs : Documents) where
  unfoldable pub offer_snapshot : ℕ → Snapshot → Sessions → ServerSession → Outcome (Unit {0})
  offer_snapshot now p m s =
      checked_as (code_error code_snapshot_rejected reason_snapshot_rejected false)
        (validate_snapshot docs p) m s (ensure_active now m s (snapshot_open p s))

  unfoldable pub offer_delta : ℕ → Delta → Sessions → ServerSession → Outcome (Unit {0})
  offer_delta now d m s =
      checked_as (code_error code_delta_rejected reason_generation_gap false)
        (validate_delta docs d) m s (ensure_active now m s (delta_open d s))

-- The snapshot that a heartbeat has to report.
unfoldable pub expected_or : Option Snapshot → ServerSession → Option Snapshot
expected_or pending s =
    if s.has_active then some s.active else if s.has_candidate then some s.candidate else pending

-- The readiness is withdrawn, and the active snapshot is kept.
unfoldable pub withdraw : ServerSession → ServerSession
withdraw s =
    if s.has_active
    then record s { needs_snapshot = true; ready_generation = 0; state = session_awaiting_snapshot }
    else s

-- The lease behind a heartbeat: no longer than the credential.
unfoldable pub extended : ServerConfig → ℕ → ServerSession → ℕ
extended config now s =
    if ltb s.auth.credential_expires_at (now + config.lease_duration)
    then s.auth.credential_expires_at
    else now + config.lease_duration

abbrev pub snapshot_required : Error
snapshot_required = code_error code_snapshot_required reason_generation_gap true

unfoldable pub beat :
    Option Snapshot → ServerConfig → ℕ → Heartbeat → ServerSession → Reply HeartbeatAck
beat none config now h s = (s, err snapshot_required)
beat (some expected) config now h s =
    if not (h.last_applied_generation == expected.generation)
      || not (eq_str h.last_applied_hash expected.content_hash)
    then (withdraw s, err snapshot_required)
    else (
      record s {
        last_heartbeat_sent_at = h.sent_at;
        last_heartbeat = now;
        lease = record s.lease { expires_at = extended config now s };
      },
      ok (record {
        account_id = s.auth.account_id;
        tunnel_id = s.ref.tunnel_id;
        connector_id = s.ref.connector_id;
        session_id = s.ref.session_id;
        process_generation = s.ref.process_generation;
        lease_expires_at = extended config now s;
        server_time = now;
      }),
    )

unfoldable pub heartbeat_open : ServerConfig → ℕ → Heartbeat → ServerSession → Reply HeartbeatAck
heartbeat_open config now h s =
    if not
      (matches_identity s h.account_id h.tunnel_id h.connector_id h.session_id h.process_generation)
    then (s, err (code_error code_identity_mismatch reason_authentication false))
    else if ltb (now + max_clock_skew) h.sent_at
    then (s, err (code_error code_invalid_input reason_malformed false))
    else if ltb h.sent_at (now - max_clock_skew)
    then (s, err (code_error code_heartbeat_timeout reason_heartbeat_timeout true))
    else if not (s.last_heartbeat_sent_at == 0) && leb h.sent_at s.last_heartbeat_sent_at
    then (s, err (code_error code_stale_session reason_stale_generation false))
    else beat (expected_or s.pending_snapshot s) config now h s

unfoldable pub handle_heartbeat :
    ServerConfig → ℕ → Heartbeat → Sessions → ServerSession → Outcome HeartbeatAck
handle_heartbeat config now h m s =
    checked (validate_heartbeat h) m s (ensure_active now m s (heartbeat_open config now h s))
