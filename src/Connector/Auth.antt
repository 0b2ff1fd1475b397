-- ===== src/Connector/Auth.antt =====
-- internal/connectorprotocol/protocol.go: the signed requests of a connector, the result of its
-- authentication, and the lease of its session. The signatures are the authenticator's.
use paperboat_tunnel.Base.{
  ℕ, ◌+◌, ◌-◌, ◌*◌, Bool, true, false, not, ◌&&◌, ◌||◌, Result, ◌>>◌, refuse_if, leb, ltb, ◌==◌,
  ℕ_discrete,
}
use paperboat_tunnel.Base.Strings.{Str, Str-discrete}
use paperboat_tunnel.Connector.Error.{
  Error, code_authentication_failed, code_credential_expired, code_error, code_invalid_input, plain,
  reason_authentication, reason_credential_expired,
}
use paperboat_tunnel.Connector.Identity.{
  valid_identifier, valid_identity_key, valid_if_set, valid_nonce, valid_proof,
}
use paperboat_tunnel.Connector.Message.{max_clock_skew, max_lease, second}

pub record AuthRequest : Type 0 where
  pub account_id : Str
  pub tunnel_id : Str
  pub connector_id : Str
  pub host_id : Str
  pub identity_key_id : Str
  pub identity_key_thumbprint : Str
  pub process_generation : ℕ
  pub credential_generation : ℕ
  pub nonce : Str
  pub signed_proof : Str
  pub issued_at : ℕ
  pub expires_at : ℕ

-- With the proof required, as `Validate` calls it.
unfoldable pub validate_auth : AuthRequest → ℕ → Result Error (Unit {0})
unfolding valid_identifier valid_identity_key valid_nonce valid_proof
validate_auth a now =
    refuse_if
      (not (valid_identifier a.account_id)
        || not (valid_identifier a.tunnel_id)
        || not (valid_identifier a.connector_id)
        || not (valid_identifier a.host_id)
        || not (valid_identity_key a.identity_key_id a.identity_key_thumbprint))
      (plain code_invalid_input)
    >> refuse_if
        (not (valid_nonce a.nonce)
          || a.process_generation == 0
          || a.credential_generation == 0
          || a.issued_at == 0
          || a.expires_at == 0
          || leb a.expires_at a.issued_at
          || ltb (900 * second) (a.expires_at - a.issued_at)
          || not (valid_proof a.signed_proof))
        (plain code_invalid_input)
    >> refuse_if
        (not (now == 0)
          && (ltb (now + max_clock_skew) a.issued_at
              || ltb max_clock_skew (now - a.issued_at)
              || leb a.expires_at now))
        (code_error code_credential_expired reason_credential_expired true)

pub record AuthResult : Type 0 where
  pub account_id : Str
  pub tunnel_id : Str
  pub connector_id : Str
  pub session_id : Str
  pub host_id : Str
  pub identity_key_id : Str
  pub identity_key_thumbprint : Str
  pub process_generation : ℕ
  pub credential_generation : ℕ
  pub credential_expires_at : ℕ
  pub lease_expires_at : ℕ

unfoldable pub AuthResult-discrete : Discrete AuthResult
AuthResult-discrete = hlevel (Str-discrete, ℕ_discrete)

unfoldable pub is_result_shaped : AuthResult → Bool
unfolding valid_identifier valid_identity_key valid_if_set
is_result_shaped a =
    valid_identifier a.account_id
    && valid_identifier a.tunnel_id
    && valid_identifier a.connector_id
    && valid_identifier a.host_id
    && valid_if_set a.session_id
    && valid_identity_key a.identity_key_id a.identity_key_thumbprint
    && not (a.process_generation == 0)
    && not (a.credential_generation == 0)

unfoldable pub validate_result : AuthResult → ℕ → Result Error (Unit {0})
validate_result a now =
    refuse_if
      (not (is_result_shaped a)
        || a.credential_expires_at == 0
        || a.lease_expires_at == 0
        || ltb a.credential_expires_at a.lease_expires_at)
      (plain code_authentication_failed)
    >> refuse_if
        (not (now == 0)
          && (leb a.credential_expires_at now
              || leb a.lease_expires_at now
              || ltb max_lease (a.lease_expires_at - now)))
        (plain code_authentication_failed)

pub record RenewalRequest : Type 0 where
  pub session_id : Str
  pub account_id : Str
  pub tunnel_id : Str
  pub connector_id : Str
  pub host_id : Str
  pub identity_key_id : Str
  pub identity_key_thumbprint : Str
  pub process_generation : ℕ
  pub credential_generation : ℕ
  pub nonce : Str
  pub signed_proof : Str
  pub requested_at : ℕ

-- `ValidateAt`
unfoldable pub validate_renewal : RenewalRequest → ℕ → Result Error (Unit {0})
unfolding valid_identifier valid_identity_key valid_nonce valid_proof
validate_renewal r now =
    refuse_if
      (not (valid_identifier r.session_id)
        || not (valid_identifier r.account_id)
        || not (valid_identifier r.tunnel_id)
        || not (valid_identifier r.connector_id)
        || not (valid_identifier r.host_id)
        || not (valid_identity_key r.identity_key_id r.identity_key_thumbprint)
        || r.process_generation == 0
        || r.credential_generation == 0
        || not (valid_nonce r.nonce)
        || r.requested_at == 0
        || not (valid_proof r.signed_proof))
      (plain code_invalid_input)
    >> refuse_if
        (not (now == 0)
          && (ltb (now + max_clock_skew) r.requested_at
              || ltb max_clock_skew (now - r.requested_at)))
        (code_error code_authentication_failed reason_authentication false)

pub record Lease : Type 0 where
  pub session_id : Str
  pub expires_at : ℕ
  pub heartbeat_interval_ms : ℕ

abbrev pub millisecond : ℕ
millisecond = 1000000

unfoldable pub validate_lease : Lease → ℕ → Result Error (Unit {0})
unfolding valid_identifier
validate_lease l now =
    refuse_if
      (not (valid_identifier l.session_id) || l.expires_at == 0 || l.heartbeat_interval_ms == 0)
      (plain code_invalid_input)
    >> refuse_if
        (not (now == 0)
          && (leb l.expires_at now
              || ltb max_lease (l.expires_at - now)
              || leb (l.expires_at - now) (l.heartbeat_interval_ms * millisecond)))
        (plain code_invalid_input)
