-- ===== src/Connector/Session/Invariant/Acks.antt =====
-- internal/connectorprotocol/session.go: acknowledgements and readiness keep the invariant.
use paperboat_tunnel.Base.{
  ℕ, ◌≡◌, refl, sym, true, false, not, ◌&&◌, ◌||◌, Option, none, some, arith, if_cases, ◌==◌,
  Option-cases, inl, inr,
}
use mathlib.Core.Path.{subst}
use paperboat_tunnel.Base.Strings.{eq_str}
use paperboat_tunnel.Connector.Message.{
  Ack, Delta, Readiness, Snapshot, is_ack_delta, is_ack_snapshot, validate_ack, validate_readiness,
}
use paperboat_tunnel.Connector.Registry.{Sessions}
use paperboat_tunnel.Connector.Session.{ServerSession, matches_identity, serves_active}
use paperboat_tunnel.Connector.Session.Acknowledge.{
  ack_delta_offer, ack_nothing, ack_offered, ack_open, ack_snapshot_offer, handle_ack,
  handle_readiness, is_about, is_negative, promote, readiness_open, snapshot_of_delta,
}
use paperboat_tunnel.Connector.Session.Invariant.{
  Keeps, kept, Parts, SessionOk, checked-SessionOk, ensure_active-SessionOk,
  restore_state-SessionOk, stage-SessionOk,
}

pub no_delta :
    (s : ServerSession) (p : Snapshot)
    → SessionOk s
    → s.pending_snapshot ≡ some p
    → s.pending_delta ≡ none
no_delta s p v h = elim (Option-cases s.pending_delta) [
  | inl e ↦ e
  | inr (d, e) ↦ absurd (ground (arith, h, v.parts.0 d e))
]

ack_snapshot_offer-SessionOk :
    (p : Snapshot) (a : Ack) (s : ServerSession)
    → SessionOk s
    → s.pending_snapshot ≡ some p
    → Keeps (ack_snapshot_offer p a s)
unfolding ack_snapshot_offer serves_active
ack_snapshot_offer-SessionOk p a s v h =
    let e = no_delta s p v h in
    if_cases Keeps
      (not (is_ack_snapshot a.kind)
        || not (a.generation == p.generation)
        || not (eq_str a.content_hash p.content_hash))
      (λ _. kept s _ v)
      λ _.
        if_cases Keeps (is_negative a.status)
          (λ _. kept _ _ (
            restore_state-SessionOk (record s { pending_snapshot = none; needs_snapshot = true })
              (
                (λ d q. absurd (ground (arith, e, q))),
                (λ q r. absurd (ground arith)),
                v.parts.2,
                v.parts.3,
                v.parts.4,
                v.parts.5,
              )))
          (λ _. kept _ _ (
            stage-SessionOk p (record s { pending_snapshot = none; needs_snapshot = false })
              (record {
                serving = λ q. ground (arith, v.serving q);
                draining = v.draining;
                parts = (
                  (λ d q. absurd (ground (arith, e, q))),
                  (λ q r. absurd (ground arith)),
                  v.parts.2,
                  v.parts.3,
                  v.parts.4,
                  v.parts.5,
                );
              })
              e (v.parts.1 p h)))

ack_delta_offer-SessionOk :
    (d : Delta) (a : Ack) (s : ServerSession)
    → SessionOk s
    → s.pending_delta ≡ some d
    → Keeps (ack_delta_offer d a s)
unfolding ack_delta_offer snapshot_of_delta serves_active
ack_delta_offer-SessionOk d a s v h =
    let gone : Parts (record s { pending_delta = none }) =
      ((λ q r. absurd (ground arith)), v.parts.1, v.parts.2, v.parts.3, v.parts.4, v.parts.5) in
    let settled : SessionOk (record s { pending_delta = none }) = record {
      serving = v.serving;
      draining = v.draining;
      parts = gone;
    } in
    if_cases Keeps
      (not (is_ack_delta a.kind)
        || not (a.generation == d.generation)
        || not (eq_str a.content_hash d.content_hash))
      (λ _. kept s _ v)
      λ _.
        if_cases Keeps (is_negative a.status)
          (λ _. kept _ _ (
            restore_state-SessionOk (record s { pending_delta = none; needs_snapshot = true })
              gone))
          λ _.
            if_cases Keeps
              (s.has_active
                && (not (d.previous_generation == s.active.generation)
                    || not (eq_str d.previous_content_hash s.active.content_hash)))
              (λ _. kept _ _ settled)
              (λ _. kept _ _ (
                stage-SessionOk (snapshot_of_delta d s) (record s { pending_delta = none }) settled
                  refl (refl, (v.parts.0 d h).0.1, refl, refl, refl)))

ack_nothing-same : (a : Ack) (s : ServerSession) → (ack_nothing a s).0 ≡ s
unfolding ack_nothing
ack_nothing-same a s = ground arith

ack_offered-SessionOk :
    (p : Option Snapshot) (d : Option Delta) (a : Ack) (s : ServerSession)
    → SessionOk s
    → s.pending_snapshot ≡ p
    → s.pending_delta ≡ d
    → Keeps (ack_offered p d a s)
unfolding ack_offered
ack_offered-SessionOk (some p) d a s v h e = ack_snapshot_offer-SessionOk p a s v h
ack_offered-SessionOk none (some d) a s v h e = ack_delta_offer-SessionOk d a s v e
ack_offered-SessionOk none none a s v h e = record {
  behind = subst SessionOk (sym (ack_nothing-same a s)) v;
}

pub ack_open-SessionOk : (a : Ack) (s : ServerSession) → SessionOk s → Keeps (ack_open a s)
unfolding ack_open
ack_open-SessionOk a s v =
    if_cases Keeps
      (not (
        matches_identity s a.account_id a.tunnel_id a.connector_id a.session_id
          a.process_generation))
      (λ _. kept s _ v)
      (λ _. ack_offered-SessionOk s.pending_snapshot s.pending_delta a s v refl refl)

pub readiness_open-SessionOk :
    (r : Readiness) (s : ServerSession) → SessionOk s → Keeps (readiness_open r s)
unfolding readiness_open promote serves_active is_about
readiness_open-SessionOk r s v =
    if_cases Keeps
      (not (
        matches_identity s r.account_id r.tunnel_id r.connector_id r.session_id
          r.process_generation))
      (λ _. kept s _ v)
      λ _.
        if_cases Keeps (not (is_about r s)) (λ _. kept s _ v)
          λ about.
            if_cases Keeps (not r.edge_ready || not r.route_ready || not r.origin_ready)
              (λ _. kept s _ v)
              λ _. kept _ _ (record {
                serving = λ _. ground arith;
                draining = λ q. absurd (ground arith);
                parts = (
                  (λ d q. let f = v.parts.0 d (ground arith) in ground (arith, f)),
                  (λ p q. let o = v.parts.1 p (ground arith) in ground (arith, o)),
                  (λ q. absurd (ground arith)),
                  (λ q. ground (arith, v.parts.2, v.parts.3)),
                  ground (arith, v.parts.4),
                  (λ d q. let o = v.parts.5 d (ground arith) in ground (arith, o)),
                );
              })

pub handle_ack-SessionOk :
    (now : ℕ) (a : Ack) (m : Sessions) (s : ServerSession)
    → SessionOk s
    → SessionOk (handle_ack now a m s).1
unfolding handle_ack
handle_ack-SessionOk now a m s v =
    checked-SessionOk (validate_ack a) m s _ v
      (ensure_active-SessionOk now m s (ack_open a s) v (ack_open-SessionOk a s v))

pub handle_readiness-SessionOk :
    (now : ℕ) (r : Readiness) (m : Sessions) (s : ServerSession)
    → SessionOk s
    → SessionOk (handle_readiness now r m s).1
unfolding handle_readiness
handle_readiness-SessionOk now r m s v =
    checked-SessionOk (validate_readiness r) m s _ v
      (ensure_active-SessionOk now m s (readiness_open r s) v (readiness_open-SessionOk r s v))
