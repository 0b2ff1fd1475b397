-- ===== src/Connector/Registry.antt =====
-- internal/connectorprotocol/session.go: `SessionRegistry`, the live session of each connector.
pub mod Replaced
use paperboat_tunnel.Base.{
  ℕ, Bool, true, false, not, ◌&&◌, ◌||◌, [], Option, none, some, Result, ok, err, leb, ◌==◌,
  if◌then◌else◌, same, length, ℕ_discrete,
}
use paperboat_tunnel.Base.Maps.{Map, get, put, delete}
use paperboat_tunnel.Base.Strings.{Str, Str-discrete, eq_str}
use paperboat_tunnel.Connector.Error.{
  Error, Reason, code_error, code_identity_mismatch, code_invalid_input, code_session_conflict,
  code_stale_session, plain, reason_authentication, reason_stale_generation,
  valid_disconnect_reason,
}
use paperboat_tunnel.Connector.Identity.{valid_identifier}

pub record SessionRef : Type 0 where
  pub tunnel_id : Str
  pub connector_id : Str
  pub session_id : Str
  pub process_generation : ℕ

unfoldable pub SessionRef-discrete : Discrete SessionRef
SessionRef-discrete = hlevel (Str-discrete, ℕ_discrete)

unfoldable pub is_valid_ref : SessionRef → Bool
unfolding valid_identifier
is_valid_ref r =
    valid_identifier r.tunnel_id
    && valid_identifier r.connector_id
    && valid_identifier r.session_id
    && not (r.process_generation == 0)

pub record AttachResult : Type 0 where
  pub current : SessionRef
  pub replaced : Option SessionRef

abbrev pub Sessions : Type 0
Sessions = Map Str SessionRef

abbrev pub new_sessions : Sessions
new_sessions = []

-- `Attach` behind its guard, with the session that the connector has.
unfoldable pub attach_over :
    Option SessionRef → SessionRef → Sessions → Sessions × Result Error AttachResult
attach_over none r m =
    (put Str-discrete m r.connector_id r, ok (record { current = r; replaced = none }))
attach_over (some previous) r m =
    if not (eq_str previous.tunnel_id r.tunnel_id)
    then (m, err (code_error code_identity_mismatch reason_authentication false))
    else if leb r.process_generation previous.process_generation
    then (m, err (code_error code_session_conflict reason_stale_generation false))
    else (
      put Str-discrete m r.connector_id r,
      ok (record { current = r; replaced = some previous }),
    )

unfoldable pub attach_session : SessionRef → Sessions → Sessions × Result Error AttachResult
attach_session r m =
    if not (is_valid_ref r)
    then (m, err (plain code_invalid_input))
    else attach_over (get Str-discrete m r.connector_id) r m

unfoldable pub is_current : Option SessionRef → SessionRef → Bool
is_current none r = false
is_current (some current) r = same SessionRef-discrete current r

unfoldable pub disconnect_from :
    Option SessionRef → SessionRef → Sessions → Sessions × Result Error (Unit {0})
disconnect_from none r m = (m, ok tt)
disconnect_from (some current) r m =
    if not (same SessionRef-discrete current r)
    then (m, err (code_error code_stale_session reason_stale_generation false))
    else (delete Str-discrete m r.connector_id, ok tt)

unfoldable pub disconnect_session :
    SessionRef → Reason → Sessions → Sessions × Result Error (Unit {0})
disconnect_session r reason m =
    if not (is_valid_ref r) || not (valid_disconnect_reason reason)
    then (m, err (plain code_invalid_input))
    else disconnect_from (get Str-discrete m r.connector_id) r m

unfoldable pub active_session : Str → Sessions → Option SessionRef
active_session connector_id m =
    if not (valid_identifier connector_id) then none else get Str-discrete m connector_id

unfoldable pub count_sessions : Sessions → ℕ
count_sessions m = length m
