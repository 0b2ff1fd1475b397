-- ===== src/Node/State/Phases.antt =====
-- internal/node/state.go: the phases in the order in which a node goes through them.
use paperboat_tunnel.Base.{ℕ, ◌≤◌, ◌≡◌, ◌≢◌, Bool, true, false, List, [], ◌∷◌, arith}
use paperboat_tunnel.Base.Strings.{Str}
use paperboat_tunnel.Node.State.{
  Phase, Snapshot, begin_drain, draining, mark_ready, mark_stopped, new_state, ready,
  set_control_available, starting, stopped,
}

pub data Call : Type 0 where
  marks_ready marks_stopped : Call
  begins_drain : ℕ → Call
  sets_control : Bool → Call

unfoldable pub step : Call → Snapshot → Snapshot
step marks_ready s = (mark_ready s).0
step marks_stopped s = mark_stopped s
step (begins_drain deadline) s = (begin_drain deadline s).0
step (sets_control available) s = (set_control_available available s).0

unfoldable pub run : List Call → Snapshot → Snapshot
run [] s = s
run (c ∷ calls) s = run calls (step c s)

-- A node is ready only in its ready phase, and is live unless it has stopped.
pub record PhaseOk (s : Snapshot) : Type 0 where
  pub serves : s.is_ready ≡ true → s.phase ≡ ready
  pub lives : s.live ≡ true → s.phase ≢ stopped
  pub dies : s.live ≡ false → s.phase ≡ stopped

abbrev pub rank : Phase → ℕ
rank starting = 0
rank ready = 1
rank draining = 2
rank stopped = 3

step-PhaseOk : (c : Call) (s : Snapshot) → PhaseOk s → PhaseOk (step c s)
unfolding step mark_ready begin_drain set_control_available mark_stopped
step-PhaseOk c s v = record {
  serves = λ h. ground (arith, v.serves, h);
  lives = λ h q. ground (arith, v.lives, h, q);
  dies = λ h. ground (arith, v.dies, h);
}

step_forward : (c : Call) (s : Snapshot) → rank s.phase ≤ rank (step c s).phase
unfolding step mark_ready begin_drain set_control_available mark_stopped
step_forward c s = ground arith

run-PhaseOk : (calls : List Call) (s : Snapshot) → PhaseOk s → PhaseOk (run calls s)
unfolding run
run-PhaseOk [] s v = v
run-PhaseOk (c ∷ calls) s v = run-PhaseOk calls (step c s) (step-PhaseOk c s v)

run_forward : (calls : List Call) (s : Snapshot) → rank s.phase ≤ rank (run calls s).phase
unfolding run
run_forward [] s = omega arith
run_forward (c ∷ calls) s = omega (arith, step_forward c s, run_forward calls (step c s))

new_state-PhaseOk : (id : Str) → PhaseOk (new_state id)
unfolding new_state
new_state-PhaseOk id = record { serves = λ h. cc; lives = λ h q. cc; dies = λ h. cc }

-- After any calls on a new node, it is ready only in its ready phase and live just while it has not
-- stopped, and no further calls bring it back to an earlier phase in the order starting, ready,
-- draining, stopped.
pub run-phases :
    (id : Str) (calls more : List Call)
    → PhaseOk (run calls (new_state id))
      × (rank (run calls (new_state id)).phase ≤ rank (run more (run calls (new_state id))).phase)
run-phases id calls more = (
  run-PhaseOk calls (new_state id) (new_state-PhaseOk id),
  run_forward more (run calls (new_state id)),
)
