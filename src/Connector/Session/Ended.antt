-- ===== src/Connector/Session/Ended.antt =====
-- internal/connectorprotocol/session.go: a session that is closed, or that the registry replaced.
use paperboat_tunnel.Base.{◌≡◌, ◌⊎◌, true, false, ok, err, arith}
use paperboat_tunnel.Connector.Error.{reason_session_replaced}
use paperboat_tunnel.Connector.Message.{Documents}
use paperboat_tunnel.Connector.Registry.{Sessions, active_session, is_current}
use paperboat_tunnel.Connector.Registry.Replaced.{disconnect-other}
use paperboat_tunnel.Connector.Session.{
  ServerConfig, ServerSession, check_lease, close_locked, session_closed, close_with, ensure_active,
  is_closed,
}
use paperboat_tunnel.Connector.Session.Acknowledge.{handle_ack, handle_readiness}
use paperboat_tunnel.Connector.Session.Draining.{
  begin_session_drain, close_session, handle_drain_ack,
}
use paperboat_tunnel.Connector.Session.Offer.{handle_heartbeat, offer_delta, offer_snapshot}
use paperboat_tunnel.Connector.Session.Renewal.{begin_renewal, finish_renewal}
use paperboat_tunnel.Connector.Session.Invariant.Runs.{
  Call, acks, acks_drain, beats, checks, closes, offers, offers_delta, others, renewed, renews,
  reports, starts_drain, step,
}

-- The session is closed, and nothing but its state and the reason changes.
abbrev pub Closed : ServerSession → ServerSession → Type 0
Closed s t =
    (is_closed s.state ≡ false)
    × (t ≡ record s { state = session_closed; disconnect_reason = t.disconnect_reason })

-- The registry and the session stay, but for a session that is closed.
abbrev pub Rests : Sessions → ServerSession → Sessions × ServerSession → Type 0
Rests m s o = (o.0 ≡ m) × ((o.1 ≡ s) ⊎ Closed s o.1)

abbrev pub Inert : Call → Sessions → ServerSession → Sessions × ServerSession → Type 0
Inert (others m2) m s o = Unit
Inert _ m s o = Rests m s o

module _ (docs : Documents) (config : ServerConfig) (m : Sessions) (s : ServerSession) where
  -- A session that is closed, or that the registry does not have as the active one of its connector,
  -- changes nothing in the registry with any call; it is not changed itself, but for being closed where
  -- it is not, which sets its state and its reason and nothing else.
  pub step-Inert :
      (c : Call)
      → (is_closed s.state ≡ true)
        ⊎ (is_current (active_session s.ref.connector_id m) s.ref ≡ false)
      → Inert c m s (step docs config c m s)
  unfolding step handle_ack handle_readiness offer_snapshot offer_delta handle_heartbeat
      begin_session_drain handle_drain_ack begin_renewal finish_renewal check_lease close_session
      ensure_active close_with close_locked
  step-Inert (acks now a) h = ground (arith, disconnect-other s.ref reason_session_replaced m)
  step-Inert (reports now r) h = ground (arith, disconnect-other s.ref reason_session_replaced m)
  step-Inert (offers now p) h = ground (arith, disconnect-other s.ref reason_session_replaced m)
  step-Inert (offers_delta now d) h =
      ground (arith, disconnect-other s.ref reason_session_replaced m)
  step-Inert (beats now b) h = ground (arith, disconnect-other s.ref reason_session_replaced m)
  step-Inert (starts_drain c now later id deadline force) h =
      ground (arith, disconnect-other s.ref reason_session_replaced m)
  step-Inert (acks_drain c now a) h =
      ground (arith, disconnect-other s.ref reason_session_replaced m)
  step-Inert (renews now r) h = ground (arith, disconnect-other s.ref reason_session_replaced m)
  step-Inert (renewed now (err e) w) h = ground arith
  step-Inert (renewed now (ok a) w) h =
      ground (arith, disconnect-other s.ref reason_session_replaced m)
  step-Inert (checks now) h = ground (arith, disconnect-other s.ref reason_session_replaced m)
  step-Inert (closes reason) h = ground (arith, disconnect-other s.ref reason m)
  step-Inert (others m2) h = tt
