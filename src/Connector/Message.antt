-- ===== src/Connector/Message.antt =====
-- internal/connectorprotocol/protocol.go: the messages between the edge and a connector, and the
-- checks of a single message. Times are nanoseconds since Go's zero time, which is 0.
use paperboat_tunnel.Base.{
  ℕ, ◌+◌, ◌*◌, ◌%◌, ◌^◌, Bool, true, false, not, ◌&&◌, ◌||◌, ◌++◌, Option, none, some, Result, ◌>>◌,
  refuse_if, ltb, ◌==◌, length,
}
use paperboat_tunnel.Base.Strings.{Str, codes, eq_str}
use paperboat_tunnel.Connector.Error.{
  Code, Error, code_content_hash_mismatch, code_delta_rejected, code_error, code_generation_gap,
  code_invalid_input, code_snapshot_rejected, plain, reason_generation_gap,
  reason_snapshot_rejected, valid_code,
}
use paperboat_tunnel.Connector.Identity.{hash_pattern, valid_identifier, valid_if_set}

abbrev pub max_snapshot_bytes : ℕ
max_snapshot_bytes = 4194304

abbrev pub max_delta_bytes : ℕ
max_delta_bytes = 1048576

abbrev pub second : ℕ
second = 1000000000

abbrev pub max_clock_skew : ℕ
max_clock_skew = 120 * second

abbrev pub max_lease : ℕ
max_lease = 86400 * second

pub record Snapshot : Type 0 where
  pub account_id : Str
  pub tunnel_id : Str
  pub connector_id : Str
  pub session_id : Str
  pub process_generation : ℕ
  pub generation : ℕ
  pub content_hash : Str
  pub payload : Str

pub record Delta : Type 0 where
  pub account_id : Str
  pub tunnel_id : Str
  pub connector_id : Str
  pub session_id : Str
  pub process_generation : ℕ
  pub previous_generation : ℕ
  pub generation : ℕ
  pub previous_content_hash : Str
  pub content_hash : Str
  pub payload : Str

-- The callees on the JSON of a payload: canonicalJSON, which fails on malformed JSON, the
-- hexadecimal digest of SHA-256, and whether validateConfigSnapshotPayload accepts it for a tunnel
-- and a generation.
pub record Documents : Type 0 where
  pub canonical_json : Str → ℕ → Option Str
  pub digest : Str → Str
  pub is_config : Str → Str → ℕ → Bool

-- Whether a payload is in its canonical form.
abbrev pub is_canonical : Option Str → Str → Bool
is_canonical none payload = false
is_canonical (some canonical) payload = eq_str canonical payload

module _ (docs : Documents) where
  unfoldable pub validate_snapshot : Snapshot → Result Error (Unit {0})
  unfolding valid_identifier valid_if_set hash_pattern
  validate_snapshot s =
      refuse_if
        (not (valid_identifier s.tunnel_id)
          || not (valid_if_set s.account_id)
          || not (valid_if_set s.session_id)
          || s.generation == 0
          || not (hash_pattern s.content_hash)
          || length s.payload == 0
          || ltb max_snapshot_bytes (length s.payload))
        (plain code_invalid_input)
      >> refuse_if (not (is_canonical (docs.canonical_json s.payload max_snapshot_bytes) s.payload))
          (code_error code_content_hash_mismatch reason_snapshot_rejected false)
      >> refuse_if (not (eq_str s.content_hash (codes "sha256:" ++ docs.digest s.payload)))
          (code_error code_content_hash_mismatch reason_snapshot_rejected false)
      >> refuse_if (not (docs.is_config s.payload s.tunnel_id s.generation))
          (code_error code_snapshot_rejected reason_snapshot_rejected false)

  unfoldable pub validate_delta : Delta → Result Error (Unit {0})
  unfolding valid_identifier valid_if_set hash_pattern
  validate_delta d =
      refuse_if
        (not (valid_identifier d.tunnel_id)
          || not (valid_if_set d.account_id)
          || not (valid_if_set d.session_id)
          || not (hash_pattern d.previous_content_hash)
          || not (hash_pattern d.content_hash)
          || length d.payload == 0
          || ltb max_delta_bytes (length d.payload))
        (plain code_invalid_input)
      >> refuse_if
          (d.previous_generation == 0 || not (d.generation == (d.previous_generation + 1) % 2 ^ 64))
          (code_error code_generation_gap reason_generation_gap true)
      >> refuse_if (not (is_canonical (docs.canonical_json d.payload max_delta_bytes) d.payload))
          (code_error code_content_hash_mismatch reason_generation_gap false)
      >> refuse_if (not (eq_str d.content_hash (codes "sha256:" ++ docs.digest d.payload)))
          (code_error code_content_hash_mismatch reason_generation_gap false)
      >> refuse_if (not (docs.is_config d.payload d.tunnel_id d.generation))
          (code_error code_delta_rejected reason_generation_gap false)

-- AckKind and AckStatus; any other text is `ack_unknown` and `ack_other`.
pub data AckKind : Type 0 where
  ack_snapshot ack_delta ack_ready ack_renewal ack_unknown : AckKind

pub data AckStatus : Type 0 where
  ack_applied ack_duplicate ack_rejected ack_snapshot_required ack_other : AckStatus

abbrev pub is_ack_snapshot : AckKind → Bool
is_ack_snapshot ack_snapshot = true
is_ack_snapshot _ = false

abbrev pub is_ack_delta : AckKind → Bool
is_ack_delta ack_delta = true
is_ack_delta _ = false

abbrev pub is_known_kind : AckKind → Bool
is_known_kind ack_unknown = false
is_known_kind _ = true

-- Whether a code stands where the status asks for one, and none elsewhere.
unfoldable pub is_code_of : AckStatus → Option Code → Bool
unfolding valid_code
is_code_of ack_rejected (some code) = valid_code code
is_code_of ack_rejected none = false
is_code_of ack_other _ = false
is_code_of _ none = true
is_code_of _ (some code) = false

pub record Ack : Type 0 where
  pub account_id : Str
  pub tunnel_id : Str
  pub connector_id : Str
  pub session_id : Str
  pub process_generation : ℕ
  pub kind : AckKind
  pub status : AckStatus
  pub generation : ℕ
  pub content_hash : Str
  pub code : Option Code

-- The five fields that name a session, as each message of a connector carries them.
abbrev pub valid_sender : Str → Str → Str → Str → ℕ → Bool
valid_sender account_id tunnel_id connector_id session_id process_generation =
    valid_identifier account_id
    && valid_identifier tunnel_id
    && valid_identifier connector_id
    && valid_identifier session_id
    && not (process_generation == 0)

unfoldable pub validate_ack : Ack → Result Error (Unit {0})
unfolding hash_pattern valid_identifier is_code_of
validate_ack a =
    refuse_if
      (not (valid_sender a.account_id a.tunnel_id a.connector_id a.session_id a.process_generation)
        || not (is_known_kind a.kind)
        || a.generation == 0
        || not (hash_pattern a.content_hash)
        || not (is_code_of a.status a.code))
      (plain code_invalid_input)

pub record Readiness : Type 0 where
  pub account_id : Str
  pub session_id : Str
  pub tunnel_id : Str
  pub connector_id : Str
  pub process_generation : ℕ
  pub generation : ℕ
  pub content_hash : Str
  pub edge_ready : Bool
  pub route_ready : Bool
  pub origin_ready : Bool

unfoldable pub validate_readiness : Readiness → Result Error (Unit {0})
unfolding hash_pattern valid_identifier
validate_readiness r =
    refuse_if
      (not (valid_sender r.account_id r.tunnel_id r.connector_id r.session_id r.process_generation)
        || r.generation == 0
        || not (hash_pattern r.content_hash))
      (plain code_invalid_input)

pub record Heartbeat : Type 0 where
  pub account_id : Str
  pub session_id : Str
  pub tunnel_id : Str
  pub connector_id : Str
  pub process_generation : ℕ
  pub last_applied_generation : ℕ
  pub last_applied_hash : Str
  pub sent_at : ℕ

unfoldable pub validate_heartbeat : Heartbeat → Result Error (Unit {0})
unfolding hash_pattern valid_identifier
validate_heartbeat h =
    refuse_if
      (not (valid_sender h.account_id h.tunnel_id h.connector_id h.session_id h.process_generation)
        || h.last_applied_generation == 0
        || not (hash_pattern h.last_applied_hash)
        || h.sent_at == 0)
      (plain code_invalid_input)

pub record HeartbeatAck : Type 0 where
  pub account_id : Str
  pub tunnel_id : Str
  pub connector_id : Str
  pub session_id : Str
  pub process_generation : ℕ
  pub lease_expires_at : ℕ
  pub server_time : ℕ
