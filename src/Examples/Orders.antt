-- ===== src/Examples/Orders.antt =====
-- internal/connectorprotocol: two runs of a session whose order matters.
use paperboat_tunnel.Base.{◌*◌, ◌≡◌, refl, true, false, none}
use paperboat_tunnel.Base.Strings.{Str-discrete, codes, has_prefix}
use paperboat_tunnel.Connector.Capability.{has_capability}
use paperboat_tunnel.Connector.Identity.{
  valid_identifier, identifier_pattern, is_alphanumeric, is_identifier_char, all_chars,
  hash_pattern, is_hex_char,
}
use paperboat_tunnel.Connector.Message.{second}
use paperboat_tunnel.Connector.DrainMessage.{validate_drain}
use paperboat_tunnel.Connector.Session.{
  ServerSession, bind_snapshot, make_ack, is_draining, is_ready, serves_active, matches_identity,
}
use paperboat_tunnel.Connector.Session.Acknowledge.{
  ack_offered, ack_open, readiness_open, is_about, promote, stage, ack_snapshot_offer,
}
use paperboat_tunnel.Connector.Session.Activation.{acknowledged}
use paperboat_tunnel.Connector.Session.Offer.{
  offer_over, replace_offer, snapshot_open, bind_to, is_foreign_snapshot,
}
use paperboat_tunnel.Connector.Session.Accept.{new_session, ref_of}
use paperboat_tunnel.Connector.Session.Draining.{begin_open, begin_over, drain_of, start_validated}
use paperboat_tunnel.Examples.Fixture.{now, config_of, session, report_of}

-- Generation 7 is staged, 6 is offered, and both are applied and reported ready: the session serves 6
-- at last.
abbrev two_offers : ServerSession
two_offers =
    (snapshot_open (config_of 6)
      (ack_open (acknowledged (config_of 7) session) (snapshot_open (config_of 7) session).0).0).0

abbrev served_seven : ServerSession
served_seven = (readiness_open (report_of 7) two_offers).0

abbrev served_six : ServerSession
served_six =
    (readiness_open (report_of 6) (ack_open (acknowledged (config_of 6) session) served_seven).0).0

test_newer_replaced : (served_seven.active.generation ≡ 7) × (served_six.active.generation ≡ 6)
unfolding snapshot_open is_foreign_snapshot offer_over replace_offer bind_to bind_snapshot ack_open
    ack_offered ack_snapshot_offer stage serves_active readiness_open is_about promote
    matches_identity make_ack new_session ref_of Str-discrete
test_newer_replaced = (refl, refl)

-- A drain of the served snapshot is begun, and a further report makes the session ready again.
abbrev drained : ServerSession
drained = (begin_open now (codes "d1") (1030 * second) false served_seven).0

test_drain_and_ready :
    (is_draining drained.state ≡ true)
    × (is_ready (readiness_open (report_of 7) (record drained { pending_snapshot = none })).0.state
        ≡ true)
unfolding begin_open begin_over start_validated drain_of validate_drain valid_identifier
    identifier_pattern is_alphanumeric is_identifier_char all_chars hash_pattern is_hex_char
    has_prefix has_capability snapshot_open is_foreign_snapshot offer_over replace_offer bind_to
    bind_snapshot ack_open ack_offered ack_snapshot_offer stage serves_active readiness_open
    is_about promote matches_identity make_ack new_session ref_of Str-discrete
test_drain_and_ready = (refl, refl)
