-- ===== src/Connector/Session/Invariant.antt =====
-- internal/connectorprotocol/session.go: what holds of a `ServerSession` between two calls.
pub mod Acks
pub mod Offers
pub mod Drains
pub mod Runs
use paperboat_tunnel.Base.{
  ℕ, ◌≤◌, ◌≡◌, refl, Bool, true, false, not, ◌&&◌, ◌||◌, Option, none, some, Result, ok, err, arith,
  if_cases, leb, ltb, ◌==◌, if◌then◌else◌,
}
use paperboat_tunnel.Base.Strings.{Str, eq_str, Str-discrete}
use paperboat_tunnel.Connector.Error.{
  Error, Reason, reason_credential_expired, reason_heartbeat_timeout, reason_lease_expired,
  reason_session_replaced,
}
use paperboat_tunnel.Connector.Message.{Ack, Delta, Snapshot, Readiness}
use paperboat_tunnel.Connector.DrainMessage.{Drain}
use paperboat_tunnel.Connector.Registry.{SessionRef, Sessions, active_session, is_current}
use paperboat_tunnel.Connector.Session.{
  Outcome, ServerSession, SessionState, is_silent, checked, close_locked, close_with, ensure_active,
  is_closed, is_draining, is_ready, restore_state, serves_active, session_closed,
}
use paperboat_tunnel.Connector.Session.Acknowledge.{
  Reply, ack_delta_offer, ack_nothing, ack_offered, ack_open, ack_snapshot_offer, is_about, promote,
  readiness_open, snapshot_of_delta, stage,
}

-- The fields of a message carry the identity of a session, which `matchesIdentity` compares.
abbrev pub Owns : ServerSession → Str → Str → Str → Str → ℕ → Type 0
Owns s account_id tunnel_id connector_id session_id process_generation =
    (account_id ≡ s.auth.account_id)
    × (tunnel_id ≡ s.ref.tunnel_id)
    × (connector_id ≡ s.ref.connector_id)
    × (session_id ≡ s.ref.session_id)
    × (process_generation ≡ s.ref.process_generation)

abbrev pub Own : ServerSession → Snapshot → Type 0
Own s p = Owns s p.account_id p.tunnel_id p.connector_id p.session_id p.process_generation

abbrev pub OwnDelta : ServerSession → Delta → Type 0
OwnDelta s d = Owns s d.account_id d.tunnel_id d.connector_id d.session_id d.process_generation

abbrev pub OwnDrain : ServerSession → Drain → Type 0
OwnDrain s d = Owns s d.account_id d.tunnel_id d.connector_id d.session_id d.process_generation

-- A pending delta carries the session's identity, stands alone, and follows the active snapshot.
abbrev pub Follows : ServerSession → Delta → Type 0
Follows s d =
    OwnDelta s d
    × (s.pending_snapshot ≡ none)
    × (s.has_candidate ≡ false)
    × (s.has_active ≡ true)
    × (d.previous_generation ≡ s.active.generation)
    × (d.previous_content_hash ≡ s.active.content_hash)

-- There is a drain, and it is about the active snapshot.
abbrev pub DrainsActive : ServerSession → Type 0
DrainsActive s =
    (d : Drain) × (s.drain ≡ some d)
    × (d.generation ≡ s.active.generation)
    × (d.content_hash ≡ s.active.content_hash)

-- What does not depend on the state: the snapshots, the lease, and whose a drain is.
abbrev pub Parts : ServerSession → Type 0
Parts s =
    ((d : Delta) → s.pending_delta ≡ some d → Follows s d)
    × ((p : Snapshot) → s.pending_snapshot ≡ some p → Own s p)
    × (s.has_candidate ≡ true → Own s s.candidate)
    × (s.has_active ≡ true → Own s s.active)
    × (s.lease.expires_at ≤ s.auth.credential_expires_at)
    × ((d : Drain) → s.drain ≡ some d → OwnDrain s d)

-- A session that serves or drains has reported its active snapshot ready.
pub record SessionOk (s : ServerSession) : Type 0 where
  pub serving :
      (is_ready s.state || is_draining s.state) ≡ true
      → (serves_active s ≡ true) × (s.needs_snapshot ≡ false)
  pub draining : is_draining s.state ≡ true → DrainsActive s
  pub parts : Parts s

-- A reply leaves a session that satisfies the invariant.
pub record Keeps {A : Type 0} (r : Reply A) : Type 0 where
  pub behind : SessionOk r.0

pub kept : {A : Type 0} (s : ServerSession) (r : Result Error A) → SessionOk s → Keeps (s, r)
kept s r v = record { behind = v }

closed-SessionOk :
    (s : ServerSession) (reason : Reason)
    → SessionOk s
    → SessionOk (record s { state = session_closed; disconnect_reason = reason })
closed-SessionOk s reason v = record {
  serving = λ h. absurd (ground arith);
  draining = λ h. absurd (ground arith);
  parts = v.parts;
}

pub close_locked-SessionOk :
    (reason : Reason) (m : Sessions) (s : ServerSession)
    → SessionOk s
    → SessionOk (close_locked reason m s).1
unfolding close_locked
close_locked-SessionOk reason m s v =
    if_cases (λ (w : Sessions × ServerSession). SessionOk w.1) (is_closed s.state) (λ _. v)
      (λ _. closed-SessionOk s reason v)

pub ensure_active-SessionOk :
    {A : Type 0} (now : ℕ) (m : Sessions) (s : ServerSession) (follows : Reply A)
    → SessionOk s
    → Keeps follows
    → SessionOk (ensure_active now m s follows).1
unfolding ensure_active close_with
ensure_active-SessionOk {A = A} now m s follows v w =
    let P : Outcome A → Type 0 = λ o. SessionOk o.1 in
    let closed = λ (reason : Reason). close_locked-SessionOk reason m s v in
    if_cases P (is_closed s.state) (λ _. v)
      λ _.
        if_cases P (not (is_current (active_session s.ref.connector_id m) s.ref))
          (λ _. closed reason_session_replaced)
          λ _.
            if_cases P (leb s.auth.credential_expires_at now)
              (λ _. closed reason_credential_expired)
              λ _.
                if_cases P (leb s.lease.expires_at now) (λ _. closed reason_lease_expired)
                  λ _.
                    if_cases P (is_silent now s) (λ _. closed reason_heartbeat_timeout)
                      (λ _. w.behind)

pub checked-SessionOk :
    {A : Type 0} (r : Result Error (Unit {0})) (m : Sessions) (s : ServerSession)
    (follows : Outcome A)
    → SessionOk s
    → SessionOk follows.1
    → SessionOk (checked r m s follows).1
checked-SessionOk (ok _) m s follows v w = w
checked-SessionOk (err _) m s follows v w = v

pub restore_state-SessionOk : (s : ServerSession) → Parts s → SessionOk (restore_state s)
unfolding restore_state
restore_state-SessionOk s v =
    if_cases SessionOk (serves_active s && not s.needs_snapshot)
      (λ h. record {
        serving = λ _. ground (arith, h);
        draining = λ q. absurd (ground arith);
        parts = v;
      })
      λ _. record {
        serving = λ q. absurd (ground arith);
        draining = λ q. absurd (ground arith);
        parts = v;
      }

-- A candidate is set where nothing is pending.
pub stage-SessionOk :
    (p : Snapshot) (s : ServerSession)
    → SessionOk s
    → s.pending_delta ≡ none
    → Own s p
    → SessionOk (stage p s)
unfolding stage serves_active
stage-SessionOk p s v e o =
    let parts : Parts (record s { candidate = p; has_candidate = true }) = (
      (λ d h. absurd (ground (arith, e, h))),
      v.parts.1,
      (λ _. o),
      v.parts.3,
      v.parts.4,
      v.parts.5,
    ) in
    if_cases SessionOk (serves_active s)
      (λ h. record { serving = v.serving; draining = v.draining; parts = parts })
      λ _. record {
        serving = λ q. absurd (ground arith);
        draining = λ q. absurd (ground arith);
        parts = parts;
      }
