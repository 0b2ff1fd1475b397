-- ===== src/Connector/Session/Limits.antt =====
-- internal/connectorprotocol/session.go: the lease of a session, and an error that does not come.
use paperboat_tunnel.Base.{
  ℕ, ◌+◌, ◌≤◌, ◌≡◌, ◌≢◌, ◌⊎◌, refl, not, Option, none, some, Result, ok, err, arith, if_cases, leb,
  same_refl,
}
use paperboat_tunnel.Base.Strings.{Str-discrete}
use paperboat_tunnel.Connector.Error.{Error, code_generation_gap}
use paperboat_tunnel.Connector.Message.{Ack, Delta, HeartbeatAck, Snapshot, validate_ack}
use paperboat_tunnel.Connector.Registry.{Sessions, active_session, is_current}
use paperboat_tunnel.Connector.Session.{
  Outcome, ServerConfig, ServerSession, checked, close_with, ensure_active, is_closed, is_silent,
}
use paperboat_tunnel.Connector.Session.Acknowledge.{
  Reply, ack_delta_offer, ack_nothing, ack_offered, ack_open, ack_snapshot_offer, handle_ack,
}
use paperboat_tunnel.Connector.Session.Invariant.{SessionOk}

-- What a reply to a heartbeat says of the lease.
abbrev pub Extends : ServerConfig → ℕ → ServerSession → ServerSession → HeartbeatAck → Type 0
Extends config now s t a =
    (a.lease_expires_at ≤ s.auth.credential_expires_at)
    × (a.lease_expires_at ≤ now + config.lease_duration)
    × ((a.lease_expires_at ≡ s.auth.credential_expires_at)
        ⊎ (a.lease_expires_at ≡ now + config.lease_duration))
    × (t.lease.expires_at ≡ a.lease_expires_at)

other_code :
    (d e : Error)
    → d.code ≢ code_generation_gap
    → Path (Result Error (Unit {0})) (err d) (err e)
    → e.code ≢ code_generation_gap
other_code d e h q g = ground (arith, h, q, g)

module _ (a : Ack) (s : ServerSession) (v : SessionOk s) where
  ack_offered-gap :
      (p : Option Snapshot) (d : Option Delta) (e : Error)
      → s.pending_delta ≡ d
      → (ack_offered p d a s).1 ≡ err e
      → e.code ≢ code_generation_gap
  unfolding ack_offered ack_snapshot_offer ack_nothing ack_delta_offer
  ack_offered-gap (some p) d e q h = λ g. ground arith
  ack_offered-gap none none e q h = λ g. ground arith
  ack_offered-gap none (some d) e q h =
      let f = v.parts.0 d q in λ g. ground (arith, f, same_refl Str-discrete s.active.content_hash)

  ack_open-gap : (e : Error) → (ack_open a s).1 ≡ err e → e.code ≢ code_generation_gap
  unfolding ack_open
  ack_open-gap e h = ground (arith, ack_offered-gap s.pending_snapshot s.pending_delta e refl)

  ensure_active-gap :
      (now : ℕ) (m : Sessions) (follows : Reply (Unit {0})) (e : Error)
      → (follows.1 ≡ err e → e.code ≢ code_generation_gap)
      → (ensure_active now m s follows).2 ≡ err e
      → e.code ≢ code_generation_gap
  unfolding ensure_active close_with
  ensure_active-gap now m follows e inner =
      let P : Outcome (Unit {0}) → Type 0 = λ o. o.2 ≡ err e → e.code ≢ code_generation_gap in
      if_cases P (is_closed s.state) (λ _. other_code _ e (λ g. absurd (ground arith)))
        λ _.
          if_cases P (not (is_current (active_session s.ref.connector_id m) s.ref))
            (λ _. other_code _ e (λ g. absurd (ground arith)))
            λ _.
              if_cases P (leb s.auth.credential_expires_at now)
                (λ _. other_code _ e (λ g. absurd (ground arith)))
                λ _.
                  if_cases P (leb s.lease.expires_at now)
                    (λ _. other_code _ e (λ g. absurd (ground arith)))
                    λ _.
                      if_cases P (is_silent now s)
                        (λ _. other_code _ e (λ g. absurd (ground arith))) (λ _. inner)

  checked-gap :
      (r : Result Error (Unit {0})) (m : Sessions) (follows : Outcome (Unit {0})) (e : Error)
      → (r ≡ err e → e.code ≢ code_generation_gap)
      → (follows.2 ≡ err e → e.code ≢ code_generation_gap)
      → (checked r m s follows).2 ≡ err e
      → e.code ≢ code_generation_gap
  checked-gap (ok _) m follows e bad inner h = inner h
  checked-gap (err _) m follows e bad inner h = bad h

  invalid-gap : (e : Error) → validate_ack a ≡ err e → e.code ≢ code_generation_gap
  unfolding validate_ack
  invalid-gap e h = ground arith

  -- HandleAck never ends in ErrGenerationGap: in a session that satisfies the invariant, the pending
  -- delta follows the active snapshot at the time of its acknowledgement.
  pub handle_ack-gap :
      (now : ℕ) (m : Sessions) (e : Error)
      → (handle_ack now a m s).2 ≡ err e
      → e.code ≢ code_generation_gap
  unfolding handle_ack
  handle_ack-gap now m e =
      let follows = ack_open a s in
      checked-gap (validate_ack a) m (ensure_active now m s follows) e (invalid-gap e)
        (ensure_active-gap now m follows e (ack_open-gap e))
