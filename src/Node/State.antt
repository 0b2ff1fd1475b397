-- ===== src/Node/State.antt =====
-- internal/node/state.go: `State`, whose snapshot is the whole state. A time is the nanoseconds
-- since Go's zero time.
pub mod Phases
use paperboat_tunnel.Base.{ℕ, Bool, true, false}
use paperboat_tunnel.Base.Strings.{Str}

pub data Phase : Type 0 where
  starting ready draining stopped : Phase

pub record Snapshot : Type 0 where
  pub node_id : Str
  pub phase : Phase
  pub live : Bool
  pub is_ready : Bool
  pub drain_deadline : ℕ

unfoldable pub new_state : Str → Snapshot
new_state id = record {
  node_id = id;
  phase = starting;
  live = true;
  is_ready = false;
  drain_deadline = 0;
}

unfoldable pub mark_ready : Snapshot → Snapshot × Bool
mark_ready s = elim s.phase [
  | starting ↦ (record s { phase = ready; is_ready = true }, true)
  | _ ↦ (s, false)
]

unfoldable pub begin_drain : ℕ → Snapshot → Snapshot × Bool
begin_drain deadline s = elim s.phase [
  | draining ↦ (s, false)
  | stopped ↦ (s, false)
  | _ ↦ (record s { phase = draining; is_ready = false; drain_deadline = deadline }, true)
]

unfoldable pub set_control_available : Bool → Snapshot → Snapshot × Bool
set_control_available available s = elim s.phase [
  | ready ↦ (record s { is_ready = available }, true)
  | _ ↦ (s, false)
]

unfoldable pub mark_stopped : Snapshot → Snapshot
mark_stopped s = record s { phase = stopped; live = false; is_ready = false }
