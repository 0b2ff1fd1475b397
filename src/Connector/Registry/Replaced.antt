-- ===== src/Connector/Registry/Replaced.antt =====
-- internal/connectorprotocol/session.go: a session that another one has replaced in the registry.
use paperboat_tunnel.Base.{
  ◌<◌, ◌≡◌, ◌≢◌, refl, true, false, Option, none, some, ok, arith, Option-cases, inl, inr,
}
use paperboat_tunnel.Base.Maps.{get, put, get-put, get-delete}
use paperboat_tunnel.Base.Strings.{Str-discrete}
use paperboat_tunnel.Connector.Error.{Reason}
use paperboat_tunnel.Connector.Identity.{valid_identifier}
use paperboat_tunnel.Connector.Registry.{
  AttachResult, SessionRef, Sessions, active_session, attach_over, attach_session, disconnect_from,
  disconnect_session, is_current, is_valid_ref,
}

-- A session that the registry does not have takes nothing out of it.
pub disconnect-other :
    (r : SessionRef) (reason : Reason) (m : Sessions)
    → is_current (active_session r.connector_id m) r ≡ false
    → (disconnect_session r reason m).0 ≡ m
unfolding disconnect_session disconnect_from active_session is_current is_valid_ref
disconnect-other r reason m h = elim (Option-cases (get Str-discrete m r.connector_id)) [
  | inl e ↦ rw (e, disconnect_from) (ground arith)
  | inr (c, e) ↦ ground (arith, e)
]

attach_over-put :
    (o : Option SessionRef) (r : SessionRef) (m m2 : Sessions) (a : AttachResult)
    → attach_over o r m ≡ (m2, ok a)
    → (m2 ≡ put Str-discrete m r.connector_id r)
      × ((q : SessionRef)
          → o ≡ some q
          → (q.tunnel_id ≡ r.tunnel_id) × (q.process_generation < r.process_generation))
unfolding attach_over
attach_over-put none r m m2 a h = (ground arith, λ q e. absurd (ground arith))
attach_over-put (some p) r m m2 a h = (ground arith, λ q e. ground arith)

disconnect_from-keeps :
    (o : Option SessionRef) (q r : SessionRef) (m : Sessions)
    → get Str-discrete m q.connector_id ≡ o
    → get Str-discrete m r.connector_id ≡ some r
    → q ≢ r
    → get Str-discrete (disconnect_from o q m).0 r.connector_id ≡ some r
unfolding disconnect_from
disconnect_from-keeps none q r m e h other = h
disconnect_from-keeps (some c) q r m e h other =
    ground (arith, get-delete Str-discrete m q.connector_id r.connector_id)

disconnect-keeps :
    (q r : SessionRef) (reason : Reason) (m : Sessions)
    → get Str-discrete m r.connector_id ≡ some r
    → q ≢ r
    → get Str-discrete (disconnect_session q reason m).0 r.connector_id ≡ some r
unfolding disconnect_session
disconnect-keeps q r reason m h other =
    ground (arith, disconnect_from-keeps (get Str-discrete m q.connector_id) q r m refl h other)

-- A session attaches over another one of its connector only in the same tunnel and with a greater
-- process generation. From then on it is the active session of its connector, and no other session
-- that disconnects takes it out of the registry, whatever its reason.
pub attach-protects :
    (r : SessionRef) (m m2 : Sessions) (a : AttachResult)
    → attach_session r m ≡ (m2, ok a)
    → ((q : SessionRef)
        → get Str-discrete m r.connector_id ≡ some q
        → (q.tunnel_id ≡ r.tunnel_id) × (q.process_generation < r.process_generation))
      × (active_session r.connector_id m2 ≡ some r)
      × ((q : SessionRef) (reason : Reason)
          → q ≢ r
          → active_session r.connector_id (disconnect_session q reason m2).0 ≡ some r)
unfolding attach_session active_session is_valid_ref
attach-protects r m m2 a h =
    let made = attach_over-put (get Str-discrete m r.connector_id) r m m2 a (ground arith) in
    let there : get Str-discrete m2 r.connector_id ≡ some r =
      ground (arith, made.0, get-put Str-discrete m r.connector_id r.connector_id r) in
    let named : valid_identifier r.connector_id ≡ true = ground arith in
    (
      made.1,
      ground (arith, there, named),
      λ q reason other. ground (arith, disconnect-keeps q r reason m2 there other, named),
    )
