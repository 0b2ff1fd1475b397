-- ===== src/Connector/Session/Invariant/Runs.antt =====
-- internal/connectorprotocol/session.go: a `ServerSession` behind any calls of its methods, between
-- which the registry may change in any way.
use paperboat_tunnel.Base.{
  ℕ, ◌≡◌, Bool, true, not, ◌||◌, List, [], ◌∷◌, Option, Result, ok, arith, bind_ok, refuse_ok,
  or_err, refuse_if, ◌>>◌,
}
use mathlib.Core.Path.{subst}
use paperboat_tunnel.Base.Strings.{Str, eq_str}
use paperboat_tunnel.Connector.Error.{
  Error, Reason, code_error, code_session_conflict, code_snapshot_rejected, reason_authentication,
  reason_snapshot_rejected,
}
use paperboat_tunnel.Connector.Auth.{AuthRequest, AuthResult, RenewalRequest, validate_lease}
use paperboat_tunnel.Connector.Capability.{negotiate_capabilities, negotiate_version}
use paperboat_tunnel.Connector.Identity.{valid_identifier}
use paperboat_tunnel.Connector.Message.{
  Ack, Delta, Documents, Heartbeat, Readiness, Snapshot, validate_snapshot,
}
use paperboat_tunnel.Connector.DrainMessage.{DrainAck}
use paperboat_tunnel.Connector.Registry.{Sessions}
use paperboat_tunnel.Connector.Session.{ServerConfig, ServerSession, bind_snapshot, check_lease}
use paperboat_tunnel.Connector.Session.Accept.{
  Hello, first_expiry, first_lease, is_result_for, new_session, prepare, ref_of, refused,
  validate_hello,
}
use paperboat_tunnel.Connector.Session.Acknowledge.{is_valid, handle_ack, handle_readiness}
use paperboat_tunnel.Connector.Session.Draining.{
  begin_session_drain, close_session, handle_drain_ack,
}
use paperboat_tunnel.Connector.Session.Offer.{handle_heartbeat, offer_delta, offer_snapshot}
use paperboat_tunnel.Connector.Session.Renewal.{Renewal, begin_renewal, finish_renewal}
use paperboat_tunnel.Connector.Session.Invariant.{SessionOk, ensure_active-SessionOk, kept}
use paperboat_tunnel.Connector.Session.Invariant.Acks.{
  handle_ack-SessionOk, handle_readiness-SessionOk,
}
use paperboat_tunnel.Connector.Session.Invariant.Drains.{
  begin_drain-SessionOk, close_session-SessionOk, handle_drain_ack-SessionOk,
}
use paperboat_tunnel.Connector.Session.Invariant.Offers.{
  begin_renewal-SessionOk, finish_renewal-SessionOk, handle_heartbeat-SessionOk,
  offer_delta-SessionOk, offer_snapshot-SessionOk, lease_within,
}

-- A call with the times that it reads.
pub data Call : Type 0 where
  acks : ℕ → Ack → Call
  reports : ℕ → Readiness → Call
  offers : ℕ → Snapshot → Call
  offers_delta : ℕ → Delta → Call
  beats : ℕ → Heartbeat → Call
  starts_drain : Bool → ℕ → ℕ → Str → ℕ → Bool → Call
  acks_drain : Bool → ℕ → DrainAck → Call
  renews : ℕ → RenewalRequest → Call
  renewed : ℕ → Result Error AuthResult → Renewal → Call
  checks : ℕ → Call
  closes : Reason → Call
  -- Other sessions attach and disconnect.
  others : Sessions → Call

module _ (docs : Documents) (config : ServerConfig) where
  unfoldable pub step : Call → Sessions → ServerSession → Sessions × ServerSession
  step (acks now a) m s = ((handle_ack now a m s).0, (handle_ack now a m s).1)
  step (reports now r) m s = ((handle_readiness now r m s).0, (handle_readiness now r m s).1)
  step (offers now p) m s = ((offer_snapshot docs now p m s).0, (offer_snapshot docs now p m s).1)
  step (offers_delta now d) m s = ((offer_delta docs now d m s).0, (offer_delta docs now d m s).1)
  step (beats now h) m s =
      ((handle_heartbeat config now h m s).0, (handle_heartbeat config now h m s).1)
  step (starts_drain c now later id deadline force) m s = (
    (begin_session_drain c now later id deadline force m s).0,
    (begin_session_drain c now later id deadline force m s).1,
  )
  step (acks_drain c now a) m s =
      ((handle_drain_ack c now a m s).0, (handle_drain_ack c now a m s).1)
  step (renews now r) m s = ((begin_renewal now r m s).0, (begin_renewal now r m s).1)
  step (renewed now r w) m s =
      ((finish_renewal config now r w m s).0, (finish_renewal config now r w m s).1)
  step (checks now) m s = ((check_lease now m s).0, (check_lease now m s).1)
  step (closes reason) m s = ((close_session reason m s).0, (close_session reason m s).1)
  step (others m2) m s = (m2, s)

  unfoldable pub run : List Call → Sessions → ServerSession → Sessions × ServerSession
  run [] m s = (m, s)
  run (c ∷ cs) m s = run cs (step c m s).0 (step c m s).1

  pub step-SessionOk :
      (c : Call) (m : Sessions) (s : ServerSession) → SessionOk s → SessionOk (step c m s).1
  unfolding step check_lease
  step-SessionOk (acks now a) m s v = handle_ack-SessionOk now a m s v
  step-SessionOk (reports now r) m s v = handle_readiness-SessionOk now r m s v
  step-SessionOk (offers now p) m s v = offer_snapshot-SessionOk docs now m s v p
  step-SessionOk (offers_delta now d) m s v = offer_delta-SessionOk docs now m s v d
  step-SessionOk (beats now h) m s v = handle_heartbeat-SessionOk config now m s v h
  step-SessionOk (starts_drain c now later id deadline force) m s v =
      begin_drain-SessionOk c now later id deadline force m s v
  step-SessionOk (acks_drain c now a) m s v = handle_drain_ack-SessionOk c now a m s v
  step-SessionOk (renews now r) m s v = begin_renewal-SessionOk config now m s v r
  step-SessionOk (renewed now r w) m s v = finish_renewal-SessionOk config now m s v r w
  step-SessionOk (checks now) m s v = ensure_active-SessionOk now m s (s, ok tt) v (kept s _ v)
  step-SessionOk (closes reason) m s v = close_session-SessionOk reason m s v
  step-SessionOk (others m2) m s v = v

  run-SessionOk :
      (cs : List Call) (m : Sessions) (s : ServerSession) → SessionOk s → SessionOk (run cs m s).1
  unfolding run
  run-SessionOk [] m s v = v
  run-SessionOk (c ∷ cs) m s v =
      run-SessionOk cs (step c m s).0 (step c m s).1 (step-SessionOk c m s v)

new_session-SessionOk :
    (config : ServerConfig) (now : ℕ) (h : Hello) (version : Str) (capabilities : List Str)
    (a : AuthResult) (p : Snapshot) (id : Str)
    → is_result_for a h now ≡ true
    → p.tunnel_id ≡ h.tunnel_id
    → SessionOk (new_session config now h version capabilities a p id)
unfolding new_session ref_of first_lease first_expiry bind_snapshot is_result_for
new_session-SessionOk config now h version capabilities a p id own bound =
    let within = lease_within a now (ground arith) in
    record {
      serving = λ q. absurd (ground arith);
      draining = λ q. absurd (ground arith);
      parts = (
        (λ d q. absurd (ground arith)),
        (λ q r. ground (arith, own, bound)),
        (λ q. absurd (ground arith)),
        (λ q. absurd (ground arith)),
        ground (arith, within),
        (λ d q. absurd (ground arith)),
      );
    }

module _ (docs : Documents) (authenticate : AuthRequest → Option AuthResult)
    (snapshot_for : Str → Option Snapshot) (session_id : Option Str) (config : ServerConfig)
    (now : ℕ) (h : Hello) (s : ServerSession) where
  prepared :
      prepare docs authenticate snapshot_for session_id config now h ≡ ok s
      → (version : Str) × (capabilities : List Str) × (a : AuthResult) × (p : Snapshot) × (id : Str)
        × (is_result_for a h now ≡ true)
        × (p.tunnel_id ≡ h.tunnel_id)
        × (new_session config now h version capabilities a p id ≡ s)
  unfolding prepare
  prepared e =
      let checked = bind_ok (validate_hello h now) _ e in
      let version = bind_ok (negotiate_version h.min_version h.max_version) _ checked.2 in
      let capabilities =
        bind_ok (negotiate_capabilities h.capabilities config.capabilities) _ version.2 in
      let known = bind_ok (or_err (authenticate h.auth) refused) _ capabilities.2 in
      let own = refuse_ok (not (is_result_for known.0 h now)) refused _ known.2 in
      let snapshot =
        bind_ok
          (or_err (snapshot_for h.tunnel_id)
            (code_error code_snapshot_rejected reason_snapshot_rejected true))
          _ own.1 in
      let fit =
        refuse_ok
          (not (is_valid (validate_snapshot docs snapshot.0))
            || not (eq_str snapshot.0.tunnel_id h.tunnel_id))
          _ _ snapshot.2 in
      let id =
        bind_ok (or_err session_id (code_error code_session_conflict reason_authentication true)) _
          fit.1 in
      let leased =
        bind_ok
          (refuse_if (not (valid_identifier id.0))
              (code_error code_session_conflict reason_authentication true)
            >> refuse_if (not (is_valid (validate_lease (first_lease config now known.0 id.0) now)))
                refused)
          _ id.2 in
      (
        version.0,
        capabilities.0,
        known.0,
        snapshot.0,
        id.0,
        ground (arith, own.0),
        ground (arith, fit.0),
        ground (arith, leased.2),
      )

  -- Behind any calls on an accepted session, between which the registry may change in any way: a
  -- session in the ready or the draining state has an active snapshot, whose generation was reported
  -- ready, and needs no other one; a session in the draining state has a drain that is about its
  -- active snapshot; a pending delta stands alone and follows the active snapshot; the snapshots
  -- (pending, candidate and active), the pending delta and the drain, in any state, carry the
  -- session's identity: its account, tunnel, connector, session and process generation; and the lease
  -- ends no later than the credential.
  pub reached-SessionOk :
      (cs : List Call) (m : Sessions)
      → prepare docs authenticate snapshot_for session_id config now h ≡ ok s
      → SessionOk (run docs config cs m s).1
  reached-SessionOk cs m e =
      let (version, capabilities, a, p, id, own, bound, made) = prepared e in
      run-SessionOk docs config cs m s (
        subst SessionOk made
          (new_session-SessionOk config now h version capabilities a p id own bound))
