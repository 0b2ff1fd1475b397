-- ===== src/Connector/Session/Accept.antt =====
-- internal/connectorprotocol/session.go: `Server.Accept`, with the checks of a hello. The
-- authenticator, the source of snapshots and the source of session IDs are arguments.
use paperboat_tunnel.Base.{
  ℕ, ◌+◌, ◌/◌, ◌%◌, ◌^◌, Bool, true, false, not, ◌&&◌, ◌||◌, List, [], Option, none, some, Result,
  ok, err, ◌>>=◌, ◌>>◌, refuse_if, or_err, ltb, ◌==◌, if◌then◌else◌,
}
use paperboat_tunnel.Base.Strings.{Str, codes, eq_str}
use paperboat_tunnel.Connector.Error.{
  Error, code_authentication_failed, code_error, code_identity_mismatch, code_invalid_input,
  code_session_conflict, code_snapshot_rejected, plain, reason_authentication, reason_none,
  reason_snapshot_rejected,
}
use paperboat_tunnel.Connector.Identity.{valid_identifier}
use paperboat_tunnel.Connector.Capability.{
  negotiate_capabilities, negotiate_version, validate_capabilities,
}
use paperboat_tunnel.Connector.Message.{Documents, Snapshot, validate_snapshot}
use paperboat_tunnel.Connector.DrainMessage.{drain_other}
use paperboat_tunnel.Connector.Auth.{
  AuthRequest, AuthResult, Lease, millisecond, validate_auth, validate_lease, validate_result,
}
use paperboat_tunnel.Connector.Registry.{AttachResult, SessionRef, Sessions, attach_session}
use paperboat_tunnel.Connector.Session.{
  ServerConfig, ServerSession, bind_snapshot, session_awaiting_snapshot,
}
use paperboat_tunnel.Connector.Session.Acknowledge.{is_valid, no_snapshot}

pub record Hello : Type 0 where
  pub protocol : Str
  pub min_version : Str
  pub max_version : Str
  pub account_id : Str
  pub tunnel_id : Str
  pub connector_id : Str
  pub host_id : Str
  pub process_generation : ℕ
  pub capabilities : List Str
  pub auth : AuthRequest

abbrev pub protocol_name : Str
protocol_name = codes "paperboat.connector"

abbrev pub forget : {A : Type 0} → Result Error A → Result Error (Unit {0})
forget (ok _) = ok tt
forget (err e) = err e

unfoldable pub validate_hello : Hello → ℕ → Result Error (Unit {0})
validate_hello h now =
    refuse_if
      (not (eq_str h.protocol protocol_name)
        || eq_str h.min_version []
        || eq_str h.max_version []
        || not (valid_identifier h.account_id)
        || not (valid_identifier h.tunnel_id)
        || not (valid_identifier h.connector_id)
        || not (valid_identifier h.host_id)
        || h.process_generation == 0)
      (plain code_invalid_input)
    >> forget (negotiate_version h.min_version h.max_version)
    >> validate_capabilities h.capabilities
    >> refuse_if
        (not (eq_str h.auth.account_id h.account_id)
          || not (eq_str h.auth.tunnel_id h.tunnel_id)
          || not (eq_str h.auth.connector_id h.connector_id)
          || not (eq_str h.auth.host_id h.host_id)
          || not (h.auth.process_generation == h.process_generation))
        (code_error code_identity_mismatch reason_authentication false)
    >> validate_auth h.auth now

abbrev pub refused : Error
refused = code_error code_authentication_failed reason_authentication false

-- The result of the authenticator is one for the hello.
unfoldable pub is_result_for : AuthResult → Hello → ℕ → Bool
is_result_for a h now =
    is_valid (validate_result a now)
    && eq_str a.account_id h.account_id
    && eq_str a.tunnel_id h.tunnel_id
    && eq_str a.connector_id h.connector_id
    && eq_str a.host_id h.host_id
    && eq_str a.identity_key_id h.auth.identity_key_id
    && eq_str a.identity_key_thumbprint h.auth.identity_key_thumbprint
    && a.process_generation == h.process_generation

unfoldable pub first_expiry : ServerConfig → ℕ → AuthResult → ℕ
first_expiry config now a =
    if ltb (now + config.lease_duration) a.lease_expires_at
    then now + config.lease_duration
    else a.lease_expires_at

unfoldable pub first_lease : ServerConfig → ℕ → AuthResult → Str → Lease
first_lease config now a session_id = record {
  session_id = session_id;
  expires_at = first_expiry config now a;
  heartbeat_interval_ms = config.heartbeat_interval / millisecond % 2 ^ 32;
}

unfoldable pub ref_of : Hello → Str → SessionRef
ref_of h session_id = record {
  tunnel_id = h.tunnel_id;
  connector_id = h.connector_id;
  session_id = session_id;
  process_generation = h.process_generation;
}

unfoldable pub new_session :
    ServerConfig → ℕ → Hello → Str → List Str → AuthResult → Snapshot → Str → ServerSession
new_session config now h version capabilities a snapshot session_id = record {
  ref = ref_of h session_id;
  auth = a;
  lease = first_lease config now a session_id;
  welcome = record {
    protocol = protocol_name;
    version = version;
    session_id = session_id;
    capabilities = capabilities;
    lease = first_lease config now a session_id;
    requires_snapshot = true;
    server_time = now;
  };
  pending_snapshot =
      some (bind_snapshot snapshot h.account_id h.connector_id session_id h.process_generation);
  pending_delta = none;
  active = no_snapshot;
  has_active = false;
  candidate = no_snapshot;
  has_candidate = false;
  ready_generation = 0;
  needs_snapshot = false;
  state = session_awaiting_snapshot;
  last_heartbeat = now;
  last_heartbeat_sent_at = 0;
  drain = none;
  drain_status = drain_other;
  drain_code = none;
  drain_completed = false;
  disconnect_reason = reason_none;
}

-- The last step of `Accept`: the session is made where the registry attached it.
abbrev pub attached :
    Sessions × Result Error AttachResult → ServerSession → Sessions × Result Error ServerSession
attached (m, ok _) s = (m, ok s)
attached (m, err e) s = (m, err e)

abbrev pub admit_new : Result Error ServerSession → Sessions → Sessions × Result Error ServerSession
admit_new (err e) m = (m, err e)
admit_new (ok s) m = attached (attach_session s.ref m) s

module _ (docs : Documents) (authenticate : AuthRequest → Option AuthResult)
    (snapshot_for : Str → Option Snapshot) (session_id : Option Str) where
  -- `Accept` up to its call of the registry.
  unfoldable pub prepare : ServerConfig → ℕ → Hello → Result Error ServerSession
  prepare config now h =
      validate_hello h now
      >> (negotiate_version h.min_version h.max_version >>= λ version.
          negotiate_capabilities h.capabilities config.capabilities >>= λ capabilities.
          or_err (authenticate h.auth) refused >>= λ a.
          refuse_if (not (is_result_for a h now)) refused
          >> (or_err (snapshot_for h.tunnel_id)
                (code_error code_snapshot_rejected reason_snapshot_rejected true)
              >>= λ snapshot.
                  refuse_if
                    (not (is_valid (validate_snapshot docs snapshot))
                      || not (eq_str snapshot.tunnel_id h.tunnel_id))
                    (code_error code_snapshot_rejected reason_snapshot_rejected false)
                  >> (or_err session_id
                        (code_error code_session_conflict reason_authentication true)
                      >>= λ id.
                          refuse_if (not (valid_identifier id))
                            (code_error code_session_conflict reason_authentication true)
                          >> refuse_if
                              (not (is_valid (validate_lease (first_lease config now a id) now)))
                              refused
                          >> ok (new_session config now h version capabilities a snapshot id))))

  unfoldable pub accept :
      ServerConfig → ℕ → Hello → Sessions → Sessions × Result Error ServerSession
  accept config now h m = admit_new (prepare config now h) m
