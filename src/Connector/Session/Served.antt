-- ===== src/Connector/Session/Served.antt =====
-- internal/connectorprotocol/session.go: which snapshot a session serves, and since when.
use paperboat_tunnel.Base.{ℕ, ◌≡◌, ◌⊎◌, Bool, true, Option, none, some, ok, err, arith}
use paperboat_tunnel.Base.Strings.{Str}
use paperboat_tunnel.Connector.Message.{Ack, Delta, Documents, Heartbeat, Readiness, Snapshot}
use paperboat_tunnel.Connector.DrainMessage.{DrainAck}
use paperboat_tunnel.Connector.Registry.{Sessions}
use paperboat_tunnel.Connector.Session.{
  ServerConfig, ServerSession, check_lease, close_locked, close_with, ensure_active, restore_state,
}
use paperboat_tunnel.Connector.Session.Acknowledge.{
  ack_delta_offer, ack_nothing, ack_offered, ack_open, ack_snapshot_offer, handle_ack,
  handle_readiness, is_about, promote, readiness_open, stage,
}
use paperboat_tunnel.Connector.Session.Draining.{
  begin_open, begin_over, begin_session_drain, close_session, drain_ack_open, drain_ack_over,
  handle_drain_ack, settle, start_validated,
}
use paperboat_tunnel.Connector.Session.Offer.{
  beat, delta_open, expected_or, handle_heartbeat, heartbeat_open, known_snapshot, offer_delta,
  offer_over, offer_snapshot, replace_offer, snapshot_open, withdraw,
}
use paperboat_tunnel.Connector.Session.Renewal.{
  begin_renewal, finish_renewal, renewal_open, renewed_open,
}
use paperboat_tunnel.Connector.Session.Invariant.Runs.{
  Call, acks, acks_drain, beats, checks, closes, offers, offers_delta, others, renewed, renews,
  reports, starts_drain, step,
}

abbrev pub SameActive : ServerSession → ServerSession → Type 0
SameActive s t = (t.active ≡ s.active) × (t.has_active ≡ s.has_active)

restore-active : (s : ServerSession) → SameActive s (restore_state s)
unfolding restore_state
restore-active s = ground arith

stage-active : (p : Snapshot) (s : ServerSession) → SameActive s (stage p s)
unfolding stage
stage-active p s = ground arith

ack_snapshot-active :
    (p : Snapshot) (a : Ack) (s : ServerSession) → SameActive s (ack_snapshot_offer p a s).0
unfolding ack_snapshot_offer stage restore_state
ack_snapshot-active p a s = ground arith

ack_delta-active :
    (d : Delta) (a : Ack) (s : ServerSession) → SameActive s (ack_delta_offer d a s).0
unfolding ack_delta_offer stage restore_state
ack_delta-active d a s = ground arith

ack_offered-active :
    (p : Option Snapshot) (d : Option Delta) (a : Ack) (s : ServerSession)
    → SameActive s (ack_offered p d a s).0
unfolding ack_offered ack_nothing
ack_offered-active (some p) d a s = ack_snapshot-active p a s
ack_offered-active none (some d) a s = ack_delta-active d a s
ack_offered-active none none a s = ground arith

ack_open-active : (a : Ack) (s : ServerSession) → SameActive s (ack_open a s).0
unfolding ack_open
ack_open-active a s = ground (arith, ack_offered-active s.pending_snapshot s.pending_delta a s)

snapshot_open-active : (p : Snapshot) (s : ServerSession) → SameActive s (snapshot_open p s).0
unfolding snapshot_open known_snapshot offer_over replace_offer
snapshot_open-active p s = ground arith

delta_open-active : (d : Delta) (s : ServerSession) → SameActive s (delta_open d s).0
unfolding delta_open
delta_open-active d s = ground arith

heartbeat_open-active :
    (config : ServerConfig) (now : ℕ) (h : Heartbeat) (s : ServerSession)
    → SameActive s (heartbeat_open config now h s).0
unfolding heartbeat_open beat expected_or withdraw
heartbeat_open-active config now h s = ground arith

begin_open-active :
    (later : ℕ) (id : Str) (deadline : ℕ) (force : Bool) (s : ServerSession)
    → SameActive s (begin_open later id deadline force s).0
unfolding begin_open begin_over start_validated
begin_open-active later id deadline force s = ground arith

drain_ack_open-active : (a : DrainAck) (s : ServerSession) → SameActive s (drain_ack_open a s).0
unfolding drain_ack_open drain_ack_over settle restore_state
drain_ack_open-active a s = ground arith

-- The candidate was reported ready on every side.
abbrev pub Promoted : Readiness → ServerSession → ServerSession → Type 0
Promoted r s t =
    (s.has_candidate ≡ true)
    × (t.active ≡ s.candidate)
    × (r.generation ≡ s.candidate.generation)
    × (r.content_hash ≡ s.candidate.content_hash)
    × (r.edge_ready ≡ true)
    × (r.route_ready ≡ true)
    × (r.origin_ready ≡ true)

readiness_open-active :
    (r : Readiness) (s : ServerSession)
    → SameActive s (readiness_open r s).0 ⊎ Promoted r s (readiness_open r s).0
unfolding readiness_open promote is_about
readiness_open-active r s = ground arith

-- Where a call does not report a promoted candidate ready, the active snapshot stays.
abbrev pub ServesOn : Call → ServerSession → ServerSession → Type 0
ServesOn (reports now r) s t = SameActive s t ⊎ Promoted r s t
ServesOn _ s t = SameActive s t

module _ (docs : Documents) (config : ServerConfig) (m : Sessions) (s : ServerSession) where
  -- Only a report that every side of the candidate is ready changes the snapshot that a session
  -- serves, and then to the candidate, of which it names the generation and the hash: behind any
  -- other call the active snapshot is the one before.
  pub step-ServesOn : (c : Call) → ServesOn c s (step docs config c m s).1
  unfolding step handle_ack handle_readiness offer_snapshot offer_delta handle_heartbeat
      begin_session_drain handle_drain_ack begin_renewal renewal_open finish_renewal renewed_open
      check_lease close_session ensure_active close_with close_locked
  step-ServesOn (acks now a) = ground (arith, ack_open-active a s)
  step-ServesOn (reports now r) = ground (arith, readiness_open-active r s)
  step-ServesOn (offers now p) = ground (arith, snapshot_open-active p s)
  step-ServesOn (offers_delta now d) = ground (arith, delta_open-active d s)
  step-ServesOn (beats now h) = ground (arith, heartbeat_open-active config now h s)
  step-ServesOn (starts_drain c now later id deadline force) =
      ground (arith, begin_open-active later id deadline force s)
  step-ServesOn (acks_drain c now a) = ground (arith, drain_ack_open-active a s)
  step-ServesOn (renews now r) = ground arith
  step-ServesOn (renewed now (err e) w) = ground arith
  step-ServesOn (renewed now (ok a) w) = ground arith
  step-ServesOn (checks now) = ground arith
  step-ServesOn (closes reason) = ground arith
  step-ServesOn (others m2) = ground arith
