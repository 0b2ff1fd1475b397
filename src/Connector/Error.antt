-- ===== src/Connector/Error.antt =====
-- internal/connectorprotocol/protocol.go: the errors of the protocol. The text of a cause is left
-- out, and so is RetryAfter, which codeError does not set.
use paperboat_tunnel.Base.{Bool, true, false}

-- The codes of the package; any other text is `code_other`.
pub data Code : Type 0 where
  code_invalid_input code_malformed_frame code_frame_too_large code_protocol_incompatible : Code
  code_capability_missing code_authentication_failed code_credential_expired : Code
  code_identity_mismatch code_session_conflict code_session_closed code_lease_expired : Code
  code_heartbeat_timeout code_snapshot_required code_generation_gap code_stale_generation : Code
  code_content_hash_mismatch code_snapshot_rejected code_delta_rejected code_not_ready : Code
  code_canceled code_stale_session code_unsupported_message code_drain_rejected : Code
  code_drain_timeout code_credential_rotation_rejected code_credential_rotation_not_ready : Code
  code_credential_rotation_failed code_other : Code

-- DisconnectReason; `reason_none` is the empty text and `reason_other` any text that the package
-- does not name.
pub data Reason : Type 0 where
  reason_none reason_protocol_mismatch reason_capability_missing reason_malformed : Reason
  reason_authentication reason_credential_expired reason_lease_expired : Reason
  reason_heartbeat_timeout reason_session_replaced reason_stale_generation : Reason
  reason_snapshot_rejected reason_generation_gap reason_credential_rotation reason_canceled : Reason
  reason_server_shutdown reason_protocol_closed reason_other : Reason

pub record Error : Type 0 where
  pub code : Code
  pub reason : Reason
  pub retryable : Bool

abbrev pub code_error : Code → Reason → Bool → Error
code_error code reason retryable = record { code = code; reason = reason; retryable = retryable }

-- The variables ErrInvalidInput and so on.
abbrev pub plain : Code → Error
plain code = code_error code reason_none false

unfoldable pub valid_code : Code → Bool
valid_code code_other = false
valid_code _ = true

unfoldable pub valid_disconnect_reason : Reason → Bool
valid_disconnect_reason reason_none = false
valid_disconnect_reason reason_other = false
valid_disconnect_reason _ = true

unfoldable pub Code-discrete : Discrete Code
Code-discrete = hlevel
