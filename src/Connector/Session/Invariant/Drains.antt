-- ===== src/Connector/Session/Invariant/Drains.antt =====
-- internal/connectorprotocol/session.go: the drain and the end of a session keep the invariant.
use paperboat_tunnel.Base.{
  ℕ, ◌≡◌, refl, Bool, true, false, not, ◌&&◌, ◌||◌, Option, none, some, Result, ok, err, arith,
  if_cases, ◌==◌, same,
}
use paperboat_tunnel.Base.Strings.{Str, eq_str}
use paperboat_tunnel.Connector.Capability.{drain_capability, has_capability}
use paperboat_tunnel.Connector.Error.{Error, Reason, valid_disconnect_reason}
use paperboat_tunnel.Connector.DrainMessage.{
  Drain, DrainAck, DrainStatus, drain_accepted, drain_completed, drain_forced, drain_other,
  drain_progress, drain_rejected, validate_drain, validate_drain_ack,
}
use paperboat_tunnel.Connector.Registry.{Sessions}
use paperboat_tunnel.Connector.Session.{
  Outcome, ServerSession, is_ready, matches_identity, serves_active,
}
use paperboat_tunnel.Connector.Session.Draining.{
  DrainStatus-discrete, begin_open, begin_over, begin_session_drain, close_session, drain_ack_open,
  drain_ack_over, drain_of, handle_drain_ack, same_code, settle, start_validated,
}
use paperboat_tunnel.Connector.Session.Invariant.{
  Keeps, SessionOk, checked-SessionOk, close_locked-SessionOk, ensure_active-SessionOk, kept,
  restore_state-SessionOk,
}

start_validated-SessionOk :
    (r : Result Error (Unit {0})) (id : Str) (deadline : ℕ) (force : Bool) (s : ServerSession)
    → serves_active s ≡ true
    → s.needs_snapshot ≡ false
    → SessionOk s
    → Keeps (start_validated r (drain_of s id deadline force) s)
unfolding start_validated drain_of serves_active
start_validated-SessionOk (err e) id deadline force s h n v = kept s _ v
start_validated-SessionOk (ok _) id deadline force s h n v = kept _ _ (record {
  serving = λ _. (h, n);
  draining = λ _. (drain_of s id deadline force, refl, refl, refl);
  parts = (v.parts.0, v.parts.1, v.parts.2, v.parts.3, v.parts.4, (λ d q. ground arith));
})

begin_over-SessionOk :
    (o : Option Drain) (later : ℕ) (id : Str) (deadline : ℕ) (force : Bool) (s : ServerSession)
    → SessionOk s
    → Keeps (begin_over o later id deadline force s)
unfolding begin_over
begin_over-SessionOk (some d) later id deadline force s v =
    if_cases Keeps (eq_str d.drain_id id) (λ _. kept s _ v) (λ _. kept s _ v)
begin_over-SessionOk none later id deadline force s v =
    if_cases Keeps (not (serves_active s) || s.needs_snapshot || not (is_ready s.state))
      (λ _. kept s _ v)
      (λ h.
        start_validated-SessionOk (validate_drain (drain_of s id deadline force) later) id deadline
          force s (ground arith) (ground arith) v)

begin_open-SessionOk :
    (later : ℕ) (id : Str) (deadline : ℕ) (force : Bool) (s : ServerSession)
    → SessionOk s
    → Keeps (begin_open later id deadline force s)
unfolding begin_open
begin_open-SessionOk later id deadline force s v =
    if_cases Keeps (not (has_capability s.welcome.capabilities drain_capability)) (λ _. kept s _ v)
      (λ _. begin_over-SessionOk s.drain later id deadline force s v)

pub begin_drain-SessionOk :
    (cancelled : Bool) (now later : ℕ) (id : Str) (deadline : ℕ) (force : Bool) (m : Sessions)
    (s : ServerSession)
    → SessionOk s
    → SessionOk (begin_session_drain cancelled now later id deadline force m s).1
unfolding begin_session_drain
begin_drain-SessionOk cancelled now later id deadline force m s v =
    let P : Outcome Drain → Type 0 = λ o. SessionOk o.1 in
    if_cases P cancelled (λ _. v)
      (λ _.
        ensure_active-SessionOk now m s (begin_open later id deadline force s) v
          (begin_open-SessionOk later id deadline force s v))

completed-SessionOk :
    (s : ServerSession) → SessionOk s → SessionOk (record s { drain_completed = true })
unfolding serves_active
completed-SessionOk s v = record { serving = v.serving; draining = v.draining; parts = v.parts }

settle-SessionOk :
    (status : DrainStatus) (s : ServerSession) → SessionOk s → Keeps (settle status s)
unfolding settle
settle-SessionOk drain_accepted s v = kept s _ v
settle-SessionOk drain_progress s v = kept s _ v
settle-SessionOk drain_completed s v = kept _ _ (completed-SessionOk s v)
settle-SessionOk drain_forced s v = kept _ _ (completed-SessionOk s v)
settle-SessionOk drain_rejected s v =
    kept _ _ (restore_state-SessionOk (record s { drain_completed = true }) v.parts)
settle-SessionOk drain_other s v = kept s _ v

drain_ack_over-SessionOk :
    (o : Option Drain) (a : DrainAck) (s : ServerSession)
    → SessionOk s
    → Keeps (drain_ack_over o a s)
unfolding drain_ack_over serves_active
drain_ack_over-SessionOk none a s v = kept s _ v
drain_ack_over-SessionOk (some d) a s v =
    if_cases Keeps (not (eq_str a.drain_id d.drain_id)) (λ _. kept s _ v)
      λ _.
        if_cases Keeps
          (not (a.generation == d.generation) || not (eq_str a.content_hash d.content_hash))
          (λ _. kept s _ v)
          λ _.
            if_cases Keeps s.drain_completed
              (λ _.
                if_cases Keeps
                  (same DrainStatus-discrete a.status s.drain_status
                    && same_code a.code s.drain_code)
                  (λ _. kept s _ v) (λ _. kept s _ v))
              (λ _.
                settle-SessionOk a.status
                  (record s { drain_status = a.status; drain_code = a.code })
                  (record { serving = v.serving; draining = v.draining; parts = v.parts }))

drain_ack_open-SessionOk :
    (a : DrainAck) (s : ServerSession) → SessionOk s → Keeps (drain_ack_open a s)
unfolding drain_ack_open
drain_ack_open-SessionOk a s v =
    if_cases Keeps
      (not (
        matches_identity s a.account_id a.tunnel_id a.connector_id a.session_id
          a.process_generation))
      (λ _. kept s _ v) (λ _. drain_ack_over-SessionOk s.drain a s v)

pub handle_drain_ack-SessionOk :
    (cancelled : Bool) (now : ℕ) (a : DrainAck) (m : Sessions) (s : ServerSession)
    → SessionOk s
    → SessionOk (handle_drain_ack cancelled now a m s).1
unfolding handle_drain_ack
handle_drain_ack-SessionOk cancelled now a m s v =
    let P : Outcome (Unit {0}) → Type 0 = λ o. SessionOk o.1 in
    if_cases P cancelled (λ _. v)
      (λ _.
        checked-SessionOk (validate_drain_ack a) m s _ v
          (ensure_active-SessionOk now m s (drain_ack_open a s) v (drain_ack_open-SessionOk a s v)))

pub close_session-SessionOk :
    (reason : Reason) (m : Sessions) (s : ServerSession)
    → SessionOk s
    → SessionOk (close_session reason m s).1
unfolding close_session
close_session-SessionOk reason m s v =
    let P : Outcome (Unit {0}) → Type 0 = λ o. SessionOk o.1 in
    if_cases P (not (valid_disconnect_reason reason)) (λ _. v)
      (λ _. close_locked-SessionOk reason m s v)
