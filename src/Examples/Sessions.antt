-- ===== src/Examples/Sessions.antt =====
-- internal/connectorprotocol: calls on the session of one connector.
use paperboat_tunnel.Base.{
  ◌*◌, ◌<◌, ◌≡◌, ◌≢◌, refl, true, false, [], ◌∷◌, none, some, ok, err, arith, inr,
}
use paperboat_tunnel.Base.{ℕ_discrete}
use paperboat_tunnel.Base.Maps.{get, put}
use paperboat_tunnel.Base.Strings.{Str-discrete, codes, has_prefix}
use paperboat_tunnel.Connector.Identity.{
  valid_identifier, identifier_pattern, is_alphanumeric, is_identifier_char, all_chars,
  hash_pattern, is_hex_char,
}
use paperboat_tunnel.Connector.Message.{
  Ack, Heartbeat, HeartbeatAck, is_code_of, second, validate_ack,
}
use paperboat_tunnel.Connector.Registry.{
  SessionRef, SessionRef-discrete, active_session, attach_over, attach_session, disconnect_session,
  is_current, is_valid_ref,
}
use paperboat_tunnel.Connector.Registry.Replaced.{attach-protects}
use paperboat_tunnel.Connector.Session.{
  ServerSession, bind_snapshot, is_silent, make_ack, matches_identity, session_awaiting_ready,
}
use paperboat_tunnel.Connector.Error.{Reason, code_generation_gap}
use paperboat_tunnel.Connector.Session.Acknowledge.{
  ack_offered, ack_open, ack_snapshot_offer, handle_ack, snapshot_rejected,
}
use paperboat_tunnel.Connector.Session.Ended.{Inert, step-Inert}
use paperboat_tunnel.Connector.Session.Limits.{handle_ack-gap}
use paperboat_tunnel.Connector.Session.Served.{ServesOn, step-ServesOn}
use paperboat_tunnel.Connector.Session.Activation.{Live, acknowledged, ensure_active-live}
use paperboat_tunnel.Connector.Session.Offer.{bind_to}
use paperboat_tunnel.Connector.Session.Accept.{first_expiry, first_lease, new_session, ref_of}
use paperboat_tunnel.Connector.Session.Invariant.Runs.{reports, step}
use paperboat_tunnel.Examples.Fixture.{
  docs, now, hello, config_of, server, session, sessions, report_of,
}
use paperboat_tunnel.Examples.Handshake.{session_ok}

live : Live now sessions session
unfolding new_session ref_of first_lease first_expiry is_current active_session get is_silent
    valid_identifier identifier_pattern is_alphanumeric is_identifier_char all_chars Str-discrete
    SessionRef-discrete ℕ_discrete
live = (refl, refl, omega arith, omega arith, refl)

valid_applied : validate_ack (acknowledged (config_of 6) session) ≡ ok tt
unfolding validate_ack make_ack new_session ref_of is_code_of hash_pattern is_hex_char has_prefix
    valid_identifier identifier_pattern is_alphanumeric is_identifier_char all_chars Str-discrete
valid_applied = refl

-- The session with generation 6 acknowledged.
abbrev waiting : ServerSession
waiting = record session {
  pending_snapshot = none;
  candidate = bind_to session (config_of 6);
  has_candidate = true;
  state = session_awaiting_ready;
}

step-ServesOn_example :
    ServesOn
      (reports now (report_of 6))
      waiting
      (step docs server (reports now (report_of 6)) sessions waiting).1
step-ServesOn_example = step-ServesOn docs server sessions waiting (reports now (report_of 6))

replaced : is_current (active_session session.ref.connector_id []) session.ref ≡ false
unfolding is_current active_session get new_session ref_of valid_identifier identifier_pattern
    is_alphanumeric is_identifier_char all_chars
replaced = refl

step-Inert_example :
    Inert
      (reports now (report_of 6))
      []
      waiting
      (step docs server (reports now (report_of 6)) [] waiting)
step-Inert_example = step-Inert docs server [] waiting (reports now (report_of 6)) (inr replaced)

abbrev successor : SessionRef
successor = record (ref_of hello (codes "s2")) { process_generation = 5 }

attached : attach_session successor sessions ≡ (
  (codes "con", successor) ∷ [],
  ok (record { current = successor; replaced = some (ref_of hello (codes "s1")) }),
)
unfolding attach_session attach_over get put ref_of is_valid_ref Str-discrete valid_identifier
    identifier_pattern is_alphanumeric is_identifier_char all_chars
attached = refl

attach-protects_example :
    ((q : SessionRef)
      → get Str-discrete sessions (codes "con") ≡ some q
      → (q.tunnel_id ≡ codes "tun") × (q.process_generation < 5))
    × (active_session (codes "con") ((codes "con", successor) ∷ []) ≡ some successor)
    × ((q : SessionRef) (reason : Reason)
        → q ≢ successor
        → active_session
            (codes "con")
            (disconnect_session q reason ((codes "con", successor) ∷ [])).0
          ≡ some successor)
unfolding ref_of
attach-protects_example =
    attach-protects successor sessions ((codes "con", successor) ∷ [])
      (record { current = successor; replaced = some (ref_of hello (codes "s1")) }) attached

abbrev heartbeat : Heartbeat
heartbeat = record {
  account_id = codes "acc";
  session_id = codes "s1";
  tunnel_id = codes "tun";
  connector_id = codes "con";
  process_generation = 4;
  last_applied_generation = 5;
  last_applied_hash = (config_of 5).content_hash;
  sent_at = now;
}

abbrev reply : HeartbeatAck
reply = record {
  account_id = codes "acc";
  tunnel_id = codes "tun";
  connector_id = codes "con";
  session_id = codes "s1";
  process_generation = 4;
  lease_expires_at = 1045 * second;
  server_time = now;
}

-- An acknowledgement of a generation that is not offered.
abbrev stray : Ack
stray = acknowledged (config_of 6) session

stray_rejected : (ack_open stray session).1 ≡ err snapshot_rejected
unfolding ack_open ack_offered ack_snapshot_offer matches_identity make_ack new_session ref_of
    bind_snapshot Str-discrete
stray_rejected = refl

stray_refused : (handle_ack now stray sessions session).2 ≡ err snapshot_rejected
unfolding handle_ack
stray_refused =
    rw (valid_applied, ensure_active-live now sessions session (ack_open stray session) live)
      stray_rejected

handle_ack-gap_example : snapshot_rejected.code ≢ code_generation_gap
handle_ack-gap_example =
    handle_ack-gap stray session session_ok now sessions snapshot_rejected stray_refused
