-- ===== src/Connector/Session/Acknowledge.antt =====
-- internal/connectorprotocol/session.go: the acknowledgements and the readiness of a connector.
use paperboat_tunnel.Base.{
  ℕ, Bool, true, false, not, ◌&&◌, ◌||◌, [], Option, none, some, Result, ok, err, ◌==◌,
  if◌then◌else◌,
}
use paperboat_tunnel.Base.Strings.{eq_str}
use paperboat_tunnel.Connector.Error.{
  Error, code_delta_rejected, code_error, code_generation_gap, code_identity_mismatch,
  code_invalid_input, code_not_ready, code_snapshot_rejected, code_snapshot_required,
  code_stale_generation, reason_authentication, reason_generation_gap, reason_malformed,
  reason_snapshot_rejected, reason_stale_generation,
}
use paperboat_tunnel.Connector.Message.{
  Ack, AckStatus, Delta, Readiness, Snapshot, ack_applied, ack_duplicate, ack_ready, ack_rejected,
  ack_snapshot_required, is_ack_delta, is_ack_snapshot, validate_ack, validate_readiness,
}
use paperboat_tunnel.Connector.Session.{
  Outcome, ServerSession, checked, ensure_active, make_ack, matches_identity, restore_state,
  serves_active, session_awaiting_ready, session_ready,
}
use paperboat_tunnel.Connector.Registry.{Sessions}

-- What a method does behind `ensureActiveLocked`.
abbrev pub Reply : Type 0 → Type 0
Reply A = ServerSession × Result Error A

abbrev pub is_negative : AckStatus → Bool
is_negative ack_rejected = true
is_negative ack_snapshot_required = true
is_negative _ = false

abbrev pub is_duplicate : AckStatus → Bool
is_duplicate ack_duplicate = true
is_duplicate _ = false

-- The error that a rejected offer ends in.
abbrev pub rejection : AckStatus → Error → Error
rejection ack_snapshot_required e = code_error code_snapshot_required reason_generation_gap true
rejection _ e = e

-- A candidate is set: a session that serves its active snapshot keeps its state.
unfoldable pub stage : Snapshot → ServerSession → ServerSession
unfolding serves_active
stage p s =
    if serves_active s
    then record s { candidate = p; has_candidate = true }
    else record s { candidate = p; has_candidate = true; state = session_awaiting_ready }

abbrev pub snapshot_rejected : Error
snapshot_rejected = code_error code_snapshot_rejected reason_snapshot_rejected false

unfoldable pub ack_snapshot_offer : Snapshot → Ack → ServerSession → Reply (Unit {0})
ack_snapshot_offer p a s =
    if not (is_ack_snapshot a.kind)
      || not (a.generation == p.generation)
      || not (eq_str a.content_hash p.content_hash)
    then (s, err snapshot_rejected)
    else if is_negative a.status
    then (
      restore_state (record s { pending_snapshot = none; needs_snapshot = true }),
      err (rejection a.status snapshot_rejected),
    )
    else (stage p (record s { pending_snapshot = none; needs_snapshot = false }), ok tt)

-- The snapshot that a delta of this session describes.
unfoldable pub snapshot_of_delta : Delta → ServerSession → Snapshot
snapshot_of_delta d s = record {
  account_id = s.auth.account_id;
  tunnel_id = d.tunnel_id;
  connector_id = s.ref.connector_id;
  session_id = s.ref.session_id;
  process_generation = s.ref.process_generation;
  generation = d.generation;
  content_hash = d.content_hash;
  payload = d.payload;
}

unfoldable pub ack_delta_offer : Delta → Ack → ServerSession → Reply (Unit {0})
ack_delta_offer d a s =
    if not (is_ack_delta a.kind)
      || not (a.generation == d.generation)
      || not (eq_str a.content_hash d.content_hash)
    then (s, err (code_error code_delta_rejected reason_generation_gap false))
    else if is_negative a.status
    then (
      restore_state (record s { pending_delta = none; needs_snapshot = true }),
      err (rejection a.status (code_error code_delta_rejected reason_snapshot_rejected false)),
    )
    else if s.has_active
        && (not (d.previous_generation == s.active.generation)
            || not (eq_str d.previous_content_hash s.active.content_hash))
    then (
      record s { pending_delta = none },
      err (code_error code_generation_gap reason_generation_gap true),
    )
    else (stage (snapshot_of_delta d s) (record s { pending_delta = none }), ok tt)

abbrev pub stale_generation : Error
stale_generation = code_error code_stale_generation reason_stale_generation false

-- Nothing is offered: only a duplicate of what the session has is accepted.
unfoldable pub ack_nothing : Ack → ServerSession → Reply (Unit {0})
ack_nothing a s =
    if not (is_duplicate a.status)
    then (s, err (code_error code_invalid_input reason_malformed false))
    else if not s.has_candidate && not s.has_active
    then (s, err stale_generation)
    else if s.has_candidate
    then (if not (a.generation == s.candidate.generation)
          || not (eq_str a.content_hash s.candidate.content_hash)
        then (s, err stale_generation)
        else (s, ok tt))
    else if not (a.generation == s.active.generation)
        || not (eq_str a.content_hash s.active.content_hash)
    then (s, err stale_generation)
    else (s, ok tt)

unfoldable pub ack_offered : Option Snapshot → Option Delta → Ack → ServerSession → Reply (Unit {0})
ack_offered (some p) _ a s = ack_snapshot_offer p a s
ack_offered none (some d) a s = ack_delta_offer d a s
ack_offered none none a s = ack_nothing a s

unfoldable pub ack_open : Ack → ServerSession → Reply (Unit {0})
ack_open a s =
    if not
      (matches_identity s a.account_id a.tunnel_id a.connector_id a.session_id a.process_generation)
    then (s, err (code_error code_identity_mismatch reason_authentication false))
    else ack_offered s.pending_snapshot s.pending_delta a s

unfoldable pub handle_ack : ℕ → Ack → Sessions → ServerSession → Outcome (Unit {0})
handle_ack now a m s = checked (validate_ack a) m s (ensure_active now m s (ack_open a s))

abbrev pub is_valid : {A : Type 0} → Result Error A → Bool
is_valid (ok _) = true
is_valid (err _) = false

abbrev pub addresses_offer : Option Snapshot → Option Delta → Ack → Bool
addresses_offer (some p) _ a =
    is_ack_snapshot a.kind && a.generation == p.generation && eq_str a.content_hash p.content_hash
addresses_offer none (some d) a =
    is_ack_delta a.kind && a.generation == d.generation && eq_str a.content_hash d.content_hash
addresses_offer none none a = false

unfoldable pub can_persist_negative_ack : Ack → ServerSession → Bool
can_persist_negative_ack a s =
    is_negative a.status
    && is_valid (validate_ack a)
    && matches_identity s a.account_id a.tunnel_id a.connector_id a.session_id a.process_generation
    && addresses_offer s.pending_snapshot s.pending_delta a

-- The readiness is about the candidate, or about the active snapshot where there is no candidate.
unfoldable pub is_about : Readiness → ServerSession → Bool
is_about r s =
    if s.has_candidate
    then r.generation == s.candidate.generation && eq_str r.content_hash s.candidate.content_hash
    else s.has_active
      && r.generation == s.active.generation
      && eq_str r.content_hash s.active.content_hash

abbrev pub no_snapshot : Snapshot
no_snapshot = record {
  account_id = [];
  tunnel_id = [];
  connector_id = [];
  session_id = [];
  process_generation = 0;
  generation = 0;
  content_hash = [];
  payload = [];
}

-- The candidate becomes the active snapshot.
unfoldable pub promote : ServerSession → ServerSession
promote s =
    if s.has_candidate
    then record s {
      active = s.candidate;
      has_active = true;
      candidate = no_snapshot;
      has_candidate = false;
    }
    else s

unfoldable pub readiness_open : Readiness → ServerSession → Reply Ack
readiness_open r s =
    if not
      (matches_identity s r.account_id r.tunnel_id r.connector_id r.session_id r.process_generation)
    then (s, err (code_error code_identity_mismatch reason_authentication false))
    else if not (is_about r s)
    then (s, err stale_generation)
    else if not r.edge_ready || not r.route_ready || not r.origin_ready
    then (s, err (code_error code_not_ready reason_snapshot_rejected true))
    else (
      record (promote s) {
        needs_snapshot = false;
        ready_generation = r.generation;
        state = session_ready;
      },
      ok (make_ack s ack_ready ack_applied r.generation r.content_hash),
    )

unfoldable pub handle_readiness : ℕ → Readiness → Sessions → ServerSession → Outcome Ack
handle_readiness now r m s =
    checked (validate_readiness r) m s (ensure_active now m s (readiness_open r s))
