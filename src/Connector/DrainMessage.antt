-- ===== src/Connector/DrainMessage.antt =====
-- internal/connectorprotocol/protocol.go: the messages by which a connector is drained.
use paperboat_tunnel.Base.{
  ℕ, ◌-◌, Bool, true, false, not, ◌&&◌, ◌||◌, Option, none, some, Result, ◌>>◌, refuse_if, leb, ltb,
  ◌==◌, same,
}
use paperboat_tunnel.Base.Strings.{Str}
use paperboat_tunnel.Connector.Error.{
  Code, Code-discrete, Error, code_drain_rejected, code_drain_timeout, code_invalid_input, plain,
}
use paperboat_tunnel.Connector.Identity.{hash_pattern, valid_identifier}
use paperboat_tunnel.Connector.Message.{max_lease, valid_sender}

abbrev pub max_active_streams : ℕ
max_active_streams = 1048576

pub data DrainStatus : Type 0 where
  drain_accepted drain_progress drain_completed drain_forced drain_rejected drain_other :
      DrainStatus

pub record Drain : Type 0 where
  pub account_id : Str
  pub tunnel_id : Str
  pub connector_id : Str
  pub session_id : Str
  pub process_generation : ℕ
  pub drain_id : Str
  pub generation : ℕ
  pub content_hash : Str
  pub deadline : ℕ
  pub stop_new_streams : Bool
  pub force_after_deadline : Bool

unfoldable pub validate_drain : Drain → ℕ → Result Error (Unit {0})
unfolding hash_pattern valid_identifier
validate_drain d now =
    refuse_if
      (not (valid_sender d.account_id d.tunnel_id d.connector_id d.session_id d.process_generation)
        || not (valid_identifier d.drain_id)
        || d.generation == 0
        || not (hash_pattern d.content_hash)
        || d.deadline == 0
        || not d.stop_new_streams)
      (plain code_invalid_input)
    >> refuse_if (not (now == 0) && (leb d.deadline now || ltb max_lease (d.deadline - now)))
        (plain code_invalid_input)

pub record DrainAck : Type 0 where
  pub account_id : Str
  pub tunnel_id : Str
  pub connector_id : Str
  pub session_id : Str
  pub process_generation : ℕ
  pub drain_id : Str
  pub generation : ℕ
  pub content_hash : Str
  pub status : DrainStatus
  pub active_streams : ℕ
  pub forced_close : Bool
  pub code : Option Code

unfoldable pub is_code : Code → Option Code → Bool
unfolding Code-discrete
is_code code none = false
is_code code (some c) = same Code-discrete code c

abbrev pub is_absent : Option Code → Bool
is_absent none = true
is_absent (some c) = false

-- What each status asks of the other fields.
unfoldable pub is_status_valid : DrainStatus → ℕ → Bool → Option Code → Bool
is_status_valid drain_accepted active forced code = not forced && is_absent code
is_status_valid drain_progress active forced code = not forced && is_absent code
is_status_valid drain_completed active forced code = active == 0 && not forced && is_absent code
is_status_valid drain_forced active forced code =
    forced && is_code code_drain_timeout code && active == 0
is_status_valid drain_rejected active forced code = not forced && is_code code_drain_rejected code
is_status_valid drain_other active forced code = false

unfoldable pub validate_drain_ack : DrainAck → Result Error (Unit {0})
unfolding hash_pattern valid_identifier is_status_valid
validate_drain_ack a =
    refuse_if
      (not (valid_sender a.account_id a.tunnel_id a.connector_id a.session_id a.process_generation)
        || not (valid_identifier a.drain_id)
        || a.generation == 0
        || not (hash_pattern a.content_hash)
        || ltb max_active_streams a.active_streams
        || not (is_status_valid a.status a.active_streams a.forced_close a.code))
      (plain code_invalid_input)
