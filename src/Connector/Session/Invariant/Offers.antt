-- ===== src/Connector/Session/Invariant/Offers.antt =====
-- internal/connectorprotocol/session.go: offers, heartbeats and renewals keep the invariant.
use paperboat_tunnel.Base.{
  ℕ, ◌+◌, ◌-◌, ◌≤◌, ◌≡◌, refl, true, false, not, ◌&&◌, ◌||◌, Option, none, some, Result, ok, err,
  arith, if_cases, leb, ltb, ◌==◌, same,
}
use paperboat_tunnel.Base.Strings.{eq_str}
use paperboat_tunnel.Connector.Error.{Error}
use paperboat_tunnel.Connector.Auth.{
  AuthResult, AuthResult-discrete, RenewalRequest, validate_renewal, validate_result,
}
use paperboat_tunnel.Connector.Message.{
  Delta, Documents, Heartbeat, Snapshot, max_clock_skew, validate_delta, validate_heartbeat,
  validate_snapshot,
}
use paperboat_tunnel.Connector.Registry.{SessionRef-discrete, Sessions}
use paperboat_tunnel.Connector.Session.{
  Outcome, ServerConfig, ServerSession, bind_snapshot, matches_identity, serves_active,
}
use paperboat_tunnel.Connector.Session.Acknowledge.{is_valid}
use paperboat_tunnel.Connector.Session.Offer.{
  beat, bind_delta, bind_to, checked_as, delta_open, expected_or, extended, handle_heartbeat,
  heartbeat_open, is_foreign_delta, is_foreign_snapshot, is_some, known_snapshot, offer_delta,
  offer_over, offer_snapshot, replace_offer, snapshot_open, withdraw,
}
use paperboat_tunnel.Connector.Session.Renewal.{
  Renewal, begin_renewal, finish_renewal, is_own_request, is_own_result, renewal_open,
  renewed_expiry, renewed_open,
}
use paperboat_tunnel.Connector.Session.Invariant.{
  Keeps, SessionOk, checked-SessionOk, ensure_active-SessionOk, kept,
}

replace_offer-SessionOk :
    (p : Snapshot) (s : ServerSession)
    → p.tunnel_id ≡ s.ref.tunnel_id
    → SessionOk s
    → SessionOk (replace_offer p s)
unfolding replace_offer bind_to bind_snapshot serves_active
replace_offer-SessionOk p s own v =
    if_cases SessionOk s.has_active
      (λ h. record {
        serving = v.serving;
        draining = v.draining;
        parts = (
          (λ d q. absurd (ground arith)),
          (λ q r. ground arith),
          v.parts.2,
          v.parts.3,
          v.parts.4,
          v.parts.5,
        );
      })
      λ h. record {
        serving = λ q. absurd (ground arith);
        draining = λ q. absurd (ground arith);
        parts = (
          (λ d q. absurd (ground arith)),
          (λ q r. ground arith),
          v.parts.2,
          v.parts.3,
          v.parts.4,
          v.parts.5,
        );
      }

known_snapshot-SessionOk :
    (p known : Snapshot) (s : ServerSession) → SessionOk s → Keeps (known_snapshot p known s)
unfolding known_snapshot
known_snapshot-SessionOk p known s v =
    if_cases Keeps (not (eq_str p.content_hash known.content_hash)) (λ _. kept s _ v)
      (λ _. kept s _ v)

offer_over-SessionOk :
    (o : Option Snapshot) (p : Snapshot) (s : ServerSession)
    → p.tunnel_id ≡ s.ref.tunnel_id
    → SessionOk s
    → Keeps (offer_over o p s)
unfolding offer_over
offer_over-SessionOk none p s own v = kept _ _ (replace_offer-SessionOk p s own v)
offer_over-SessionOk (some offered) p s own v =
    if_cases Keeps (p.generation == offered.generation)
      (λ _. known_snapshot-SessionOk p offered s v)
      (λ _. kept _ _ (replace_offer-SessionOk p s own v))

snapshot_open-SessionOk :
    (p : Snapshot) (s : ServerSession) → SessionOk s → Keeps (snapshot_open p s)
unfolding snapshot_open
snapshot_open-SessionOk p s v =
    if_cases Keeps (not (eq_str p.tunnel_id s.ref.tunnel_id) || is_foreign_snapshot p s)
      (λ _. kept s _ v)
      λ own.
        if_cases Keeps (s.has_active && ltb p.generation s.active.generation) (λ _. kept s _ v)
          λ _.
            if_cases Keeps (s.has_candidate && p.generation == s.candidate.generation)
              (λ _. known_snapshot-SessionOk p s.candidate s v)
              λ _.
                if_cases Keeps (s.has_active && p.generation == s.active.generation)
                  (λ _. known_snapshot-SessionOk p s.active s v)
                  (λ _. offer_over-SessionOk s.pending_snapshot p s (ground arith) v)

no_some : {A : Type 0} (o : Option A) → is_some o ≡ false → o ≡ none
no_some none h = refl
no_some (some a) h = absurd (ground arith)

delta_open-SessionOk : (d : Delta) (s : ServerSession) → SessionOk s → Keeps (delta_open d s)
unfolding delta_open serves_active bind_delta is_foreign_delta
delta_open-SessionOk d s v =
    if_cases Keeps (not (serves_active s) || s.needs_snapshot) (λ _. kept s _ v)
      λ serves.
        if_cases Keeps (is_some s.pending_snapshot || is_some s.pending_delta || s.has_candidate)
          (λ _. kept s _ v)
          λ free.
            if_cases Keeps
              (is_foreign_delta d s
                || not (d.previous_generation == s.active.generation)
                || not (eq_str d.previous_content_hash s.active.content_hash))
              (λ _. kept s _ v)
              λ next. kept _ _ (record {
                serving = v.serving;
                draining = v.draining;
                parts = (
                  (λ e q. (
                    ground arith,
                    no_some s.pending_snapshot (ground arith),
                    ground arith,
                    ground arith,
                    ground arith,
                    ground arith,
                  )),
                  v.parts.1,
                  v.parts.2,
                  v.parts.3,
                  v.parts.4,
                  v.parts.5,
                );
              })

checked_as-SessionOk :
    {A : Type 0} (e : Error) (r : Result Error (Unit {0})) (m : Sessions) (s : ServerSession)
    (follows : Outcome A)
    → SessionOk s
    → SessionOk follows.1
    → SessionOk (checked_as e r m s follows).1
checked_as-SessionOk e (ok _) m s follows v w = w
checked_as-SessionOk e (err _) m s follows v w = v

module _ (docs : Documents) (now : ℕ) (m : Sessions) (s : ServerSession) (v : SessionOk s) where
  pub offer_snapshot-SessionOk : (p : Snapshot) → SessionOk (offer_snapshot docs now p m s).1
  unfolding offer_snapshot
  offer_snapshot-SessionOk p =
      checked_as-SessionOk _ (validate_snapshot docs p) m s _ v
        (ensure_active-SessionOk now m s (snapshot_open p s) v (snapshot_open-SessionOk p s v))

  pub offer_delta-SessionOk : (d : Delta) → SessionOk (offer_delta docs now d m s).1
  unfolding offer_delta
  offer_delta-SessionOk d =
      checked_as-SessionOk _ (validate_delta docs d) m s _ v
        (ensure_active-SessionOk now m s (delta_open d s) v (delta_open-SessionOk d s v))

withdraw-SessionOk : (s : ServerSession) → SessionOk s → SessionOk (withdraw s)
unfolding withdraw
withdraw-SessionOk s v =
    if_cases SessionOk s.has_active
      (λ h. record {
        serving = λ q. absurd (ground arith);
        draining = λ q. absurd (ground arith);
        parts = v.parts;
      })
      (λ _. v)

beat-SessionOk :
    (o : Option Snapshot) (config : ServerConfig) (now : ℕ) (h : Heartbeat) (s : ServerSession)
    → SessionOk s
    → Keeps (beat o config now h s)
unfolding beat extended serves_active
beat-SessionOk none config now h s v = kept s _ v
beat-SessionOk (some expected) config now h s v =
    if_cases Keeps
      (not (h.last_applied_generation == expected.generation)
        || not (eq_str h.last_applied_hash expected.content_hash))
      (λ _. kept _ _ (withdraw-SessionOk s v))
      λ _. kept _ _ (record {
        serving = v.serving;
        draining = v.draining;
        parts = (v.parts.0, v.parts.1, v.parts.2, v.parts.3, ground arith, v.parts.5);
      })

heartbeat_open-SessionOk :
    (config : ServerConfig) (now : ℕ) (h : Heartbeat) (s : ServerSession)
    → SessionOk s
    → Keeps (heartbeat_open config now h s)
unfolding heartbeat_open
heartbeat_open-SessionOk config now h s v =
    if_cases Keeps
      (not (
        matches_identity s h.account_id h.tunnel_id h.connector_id h.session_id
          h.process_generation))
      (λ _. kept s _ v)
      λ _.
        if_cases Keeps (ltb (now + max_clock_skew) h.sent_at) (λ _. kept s _ v)
          λ _.
            if_cases Keeps (ltb h.sent_at (now - max_clock_skew)) (λ _. kept s _ v)
              λ _.
                if_cases Keeps
                  (not (s.last_heartbeat_sent_at == 0) && leb h.sent_at s.last_heartbeat_sent_at)
                  (λ _. kept s _ v)
                  (λ _. beat-SessionOk (expected_or s.pending_snapshot s) config now h s v)

renewal_open-SessionOk :
    (now : ℕ) (r : RenewalRequest) (s : ServerSession) → SessionOk s → Keeps (renewal_open now r s)
unfolding renewal_open
renewal_open-SessionOk now r s v =
    if_cases Keeps (not (is_own_request r s)) (λ _. kept s _ v) (λ _. kept s _ v)

-- A result that is accepted has a lease within the credential.
pub lease_within :
    (a : AuthResult) (now : ℕ)
    → is_valid (validate_result a now) ≡ true
    → a.lease_expires_at ≤ a.credential_expires_at
unfolding validate_result
lease_within a now h = ground arith

renewed_open-SessionOk :
    (config : ServerConfig) (a : AuthResult) (w : Renewal) (s : ServerSession)
    → is_own_result a w ≡ true
    → SessionOk s
    → Keeps (renewed_open config a w s)
unfolding renewed_open renewed_expiry is_own_result serves_active
renewed_open-SessionOk config a w s own v =
    let within = lease_within a w.now (ground arith) in
    if_cases Keeps
      (not (same AuthResult-discrete s.auth w.expected)
        || not (same SessionRef-discrete s.ref w.ref))
      (λ _. kept s _ v)
      λ unchanged.
        let e : a.account_id ≡ s.auth.account_id = ground arith in
        kept _ _ (record {
          serving = v.serving;
          draining = v.draining;
          parts = (
            (λ d q. ground (arith, v.parts.0 d q, e)),
            (λ p q. ground (arith, v.parts.1 p q, e)),
            (λ q. ground (arith, v.parts.2 q, e)),
            (λ q. ground (arith, v.parts.3 q, e)),
            ground (arith, within),
            (λ d q. ground (arith, v.parts.5 d q, e)),
          );
        })

module _ (config : ServerConfig) (now : ℕ) (m : Sessions) (s : ServerSession)
    (v : SessionOk s) where
  pub handle_heartbeat-SessionOk : (h : Heartbeat) → SessionOk (handle_heartbeat config now h m s).1
  unfolding handle_heartbeat
  handle_heartbeat-SessionOk h = checked-SessionOk (validate_heartbeat h) m s _ v (
      ensure_active-SessionOk now m s (heartbeat_open config now h s) v
        (heartbeat_open-SessionOk config now h s v))

  pub begin_renewal-SessionOk : (r : RenewalRequest) → SessionOk (begin_renewal now r m s).1
  unfolding begin_renewal
  begin_renewal-SessionOk r =
      checked-SessionOk (validate_renewal r now) m s _ v (
        ensure_active-SessionOk now m s (renewal_open now r s) v (renewal_open-SessionOk now r s v))

  pub finish_renewal-SessionOk :
      (r : Result Error AuthResult) (w : Renewal) → SessionOk (finish_renewal config now r w m s).1
  unfolding finish_renewal
  finish_renewal-SessionOk (err e) w = v
  finish_renewal-SessionOk (ok a) w =
      let P : Outcome AuthResult → Type 0 = λ o. SessionOk o.1 in
      if_cases P (not (is_own_result a w)) (λ _. v)
        (λ own.
          ensure_active-SessionOk now m s (renewed_open config a w s) v
            (renewed_open-SessionOk config a w s (ground arith) v))
