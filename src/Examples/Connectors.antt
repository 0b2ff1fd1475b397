-- ===== src/Examples/Connectors.antt =====
-- internal/node: a node that serves, replaces a connector and drains.
use paperboat_tunnel.Base.{◌≡◌, refl, ◌↔◌, ◌<◌, none, List, [], ◌∷◌, true, false, ok, ◌≤◌, arith}
use paperboat_tunnel.Base.Strings.{codes}
use paperboat_tunnel.Node.State.{Snapshot, new_state, ready}
use paperboat_tunnel.Node.State.Phases.{
  PhaseOk, begins_drain, marks_ready, marks_stopped, rank, run-phases, sets_control,
}
use paperboat_tunnel.Node.State.Phases as Phases
use paperboat_tunnel.Node.Manager.{
  Manager, close_stream, drain_is_done, new_manager, start_drain, admit_connector,
  replace_connector, open_stream, total_streams, add_connectors, add_retired, saturating_add,
}
use paperboat_tunnel.Node.Manager.Ledger.{
  Call, admits, closes, opens, replaces, starts_drain, streams_of,
}
use paperboat_tunnel.Node.Manager.Streams.{run, ledger_run, run-ledger, close_stream-counted}
use paperboat_tunnel.Node.Manager.Drain.{Refused, drain-empty, start_drain-fences}

abbrev serving : Snapshot
serving = record {
  node_id = codes "n";
  phase = ready;
  live = true;
  is_ready = true;
  drain_deadline = 0;
}

abbrev empty : Manager
empty = record { state = serving; capacity = 1; connectors = [] }

empty_made : new_manager serving 1 ≡ ok empty
unfolding new_manager
empty_made = refl

abbrev calls : List Call
calls =
    admits (codes "c") 1
    ∷ opens (codes "c") 1
    ∷ opens (codes "c") 1
    ∷ replaces (codes "c") 2
    ∷ closes (codes "c") 1
    ∷ starts_drain 7
    ∷ []

run-ledger_example :
    streams_of (run calls empty) (codes "c") 1 ≡ ledger_run calls empty (codes "c") 1 0
run-ledger_example = run-ledger serving 1 empty calls (codes "c") 1 (omega arith) empty_made

-- Two connectors, one of which has an old generation with a stream.
abbrev busy : Manager
busy = record empty {
  connectors = (codes "c", record { generation = 2; streams = 0; retired = (1, 1) ∷ [] }) ∷ [];
}

close_stream-counted_example :
    ((close_stream (codes "c") 1 busy).1 ≡ none) ↔ (0 < streams_of busy (codes "c") 1)
close_stream-counted_example = close_stream-counted (codes "c") 1 busy

abbrev quiet : Manager
quiet = record empty {
  connectors = (codes "c", record { generation = 2; streams = 0; retired = [] }) ∷ [];
}

quiet_done : drain_is_done quiet ≡ true
unfolding drain_is_done total_streams add_connectors add_retired saturating_add
quiet_done = refl

drain-empty_example : streams_of quiet (codes "c") 2 ≡ 0
drain-empty_example = drain-empty quiet (codes "c") 2 quiet_done

start_drain-fences_example :
    Refused (start_drain 7 busy) (admit_connector (codes "d") 1 (start_drain 7 busy))
    × Refused (start_drain 7 busy) (replace_connector (codes "d") 1 (start_drain 7 busy))
    × Refused (start_drain 7 busy) (open_stream (codes "d") 1 (start_drain 7 busy))
start_drain-fences_example = start_drain-fences 7 1 (codes "d") busy

run-phases_example :
    PhaseOk (Phases.run (marks_ready ∷ sets_control false ∷ []) (new_state (codes "n")))
    × (rank (Phases.run (marks_ready ∷ sets_control false ∷ []) (new_state (codes "n"))).phase
        ≤ rank
            (Phases.run
              (begins_drain 7 ∷ marks_stopped ∷ [])
              (Phases.run (marks_ready ∷ sets_control false ∷ []) (new_state (codes "n")))).phase)
run-phases_example =
    run-phases (codes "n") (marks_ready ∷ sets_control false ∷ [])
      (begins_drain 7 ∷ marks_stopped ∷ [])
