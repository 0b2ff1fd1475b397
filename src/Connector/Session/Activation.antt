-- ===== src/Connector/Session/Activation.antt =====
-- internal/connectorprotocol/session.go: an offered snapshot that the connector applies and reports
-- ready is served.
use paperboat_tunnel.Base.{ℕ, ◌<◌, ◌≡◌, ◌≢◌, true, false, none, some, arith}
use paperboat_tunnel.Connector.Message.{Ack, Snapshot, ack_applied, ack_snapshot}
use paperboat_tunnel.Connector.Registry.{Sessions, active_session, is_current}
use paperboat_tunnel.Connector.Session.{
  ServerSession, ensure_active, is_closed, is_silent, make_ack,
}
use paperboat_tunnel.Connector.Session.Acknowledge.{Reply, stage}
use paperboat_tunnel.Connector.Session.Offer.{bind_to, replace_offer}

-- What `ensureActiveLocked` asks for.
abbrev pub Live : ℕ → Sessions → ServerSession → Type 0
Live now m s =
    (is_closed s.state ≡ false)
    × (is_current (active_session s.ref.connector_id m) s.ref ≡ true)
    × (now < s.auth.credential_expires_at)
    × (now < s.lease.expires_at)
    × (is_silent now s ≡ false)

pub ensure_active-live :
    {A : Type 0} (now : ℕ) (m : Sessions) (s : ServerSession) (follows : Reply A)
    → Live now m s
    → ensure_active now m s follows ≡ (m, follows.0, follows.1)
unfolding ensure_active
ensure_active-live now m s follows live = ground arith

-- A snapshot that the session does not have yet and that is no older than the active one.
abbrev pub Fresh : Snapshot → ServerSession → Type 0
Fresh p s =
    (s.has_active ≡ true → s.active.generation < p.generation)
    × (s.has_candidate ≡ true → s.candidate.generation ≢ p.generation)
    × ((q : Snapshot) → s.pending_snapshot ≡ some q → q.generation ≢ p.generation)

-- The session with the offer acknowledged.
abbrev staged : Snapshot → ServerSession → ServerSession
staged p s =
    stage (bind_to s p)
      (record (replace_offer p s) { pending_snapshot = none; needs_snapshot = false })

abbrev pub acknowledged : Snapshot → ServerSession → Ack
acknowledged p s = make_ack s ack_snapshot ack_applied p.generation p.content_hash
