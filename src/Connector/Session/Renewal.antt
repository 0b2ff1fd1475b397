-- ===== src/Connector/Session/Renewal.antt =====
-- internal/connectorprotocol/session.go: `Renew`. It asks the authenticator between two locked parts,
-- where other calls may come: each part is a step of its own.
use paperboat_tunnel.Base.{
  ℕ, ◌+◌, Bool, true, false, not, ◌&&◌, ◌||◌, Result, ok, err, ltb, ◌==◌, same, if◌then◌else◌,
}
use paperboat_tunnel.Base.Strings.{eq_str}
use paperboat_tunnel.Connector.Error.{
  Error, code_authentication_failed, code_credential_expired, code_error, code_identity_mismatch,
  code_session_conflict, reason_authentication, reason_credential_expired, reason_stale_generation,
}
use paperboat_tunnel.Connector.Auth.{
  AuthResult, AuthResult-discrete, RenewalRequest, validate_renewal, validate_result,
}
use paperboat_tunnel.Connector.Registry.{SessionRef, SessionRef-discrete, Sessions}
use paperboat_tunnel.Connector.Session.{
  Outcome, ServerConfig, ServerSession, checked, ensure_active,
}
use paperboat_tunnel.Connector.Session.Acknowledge.{Reply, is_valid}
use paperboat_tunnel.Connector.Session.Offer.{is_other}

-- What the first part keeps for the second one.
pub record Renewal : Type 0 where
  pub expected : AuthResult
  pub ref : SessionRef
  pub now : ℕ

unfoldable pub is_own_request : RenewalRequest → ServerSession → Bool
is_own_request r s =
    eq_str r.session_id s.ref.session_id
    && eq_str r.account_id s.auth.account_id
    && eq_str r.tunnel_id s.ref.tunnel_id
    && eq_str r.connector_id s.ref.connector_id
    && eq_str r.host_id s.auth.host_id
    && eq_str r.identity_key_id s.auth.identity_key_id
    && eq_str r.identity_key_thumbprint s.auth.identity_key_thumbprint
    && r.process_generation == s.ref.process_generation
    && r.credential_generation == s.auth.credential_generation

unfoldable pub renewal_open : ℕ → RenewalRequest → ServerSession → Reply Renewal
renewal_open now r s =
    if not (is_own_request r s)
    then (s, err (code_error code_identity_mismatch reason_authentication false))
    else (s, ok (record { expected = s.auth; ref = s.ref; now = now }))

unfoldable pub begin_renewal : ℕ → RenewalRequest → Sessions → ServerSession → Outcome Renewal
begin_renewal now r m s =
    checked (validate_renewal r now) m s (ensure_active now m s (renewal_open now r s))

-- The authenticator's result is one for the session that asked.
unfoldable pub is_own_result : AuthResult → Renewal → Bool
is_own_result a w =
    is_valid (validate_result a w.now)
    && eq_str a.account_id w.expected.account_id
    && eq_str a.tunnel_id w.ref.tunnel_id
    && eq_str a.connector_id w.ref.connector_id
    && not (is_other a.session_id w.ref.session_id)
    && eq_str a.host_id w.expected.host_id
    && eq_str a.identity_key_id w.expected.identity_key_id
    && eq_str a.identity_key_thumbprint w.expected.identity_key_thumbprint
    && a.process_generation == w.ref.process_generation
    && not (ltb a.credential_generation w.expected.credential_generation)

unfoldable pub renewed_expiry : ServerConfig → ℕ → AuthResult → ℕ
renewed_expiry config now a =
    if ltb (now + config.lease_duration) a.lease_expires_at
    then now + config.lease_duration
    else a.lease_expires_at

unfoldable pub renewed_open : ServerConfig → AuthResult → Renewal → ServerSession → Reply AuthResult
renewed_open config a w s =
    if not (same AuthResult-discrete s.auth w.expected)
      || not (same SessionRef-discrete s.ref w.ref)
    then (s, err (code_error code_session_conflict reason_stale_generation true))
    else (
      record s {
        auth = record a { session_id = w.ref.session_id };
        lease = record s.lease { expires_at = renewed_expiry config w.now a };
        last_heartbeat = w.now;
      },
      ok (record a { session_id = w.ref.session_id }),
    )

-- The second part, with what the authenticator returned.
unfoldable pub finish_renewal :
    ServerConfig
    → ℕ
    → Result Error AuthResult
    → Renewal
    → Sessions
    → ServerSession
    → Outcome AuthResult
finish_renewal config later (err e) w m s =
    (m, s, err (code_error code_credential_expired reason_credential_expired true))
finish_renewal config later (ok a) w m s =
    if not (is_own_result a w)
    then (m, s, err (code_error code_authentication_failed reason_authentication false))
    else ensure_active later m s (renewed_open config a w s)
