-- ===== src/Node/Manager/Streams.antt =====
-- internal/node/manager.go: the streams that a `Manager` counts, against a ledger of what was
-- opened and closed.
use paperboat_tunnel.Base.{
  ℕ, ◌≤◌, ◌<◌, ◌≡◌, refl, ◌↔◌, not, ◌||◌, List, [], ◌∷◌, Option, none, some, ok, arith, if_cases,
  ◌==◌,
}
use paperboat_tunnel.Base.Maps.{get}
use paperboat_tunnel.Base.Strings.{Str, eq_str}
use paperboat_tunnel.Node.Manager.{
  Connector, Manager, Outcome, admit_connector, close_found, close_stream, find, force_drain,
  is_draining, is_phase_ready, max_uint32, open_stream, remove_connector, replace_connector,
  start_drain, new_manager,
}
use paperboat_tunnel.Node.State.{Snapshot}
use paperboat_tunnel.Node.Manager.Invariant.{
  ManagerOk, admit_connector-ManagerOk, close_stream-ManagerOk, force_drain-ManagerOk,
  open_stream-ManagerOk, remove_connector-ManagerOk, replace_connector-ManagerOk,
  start_drain-ManagerOk, new_manager-ManagerOk,
}
use paperboat_tunnel.Node.Manager.Ledger.{
  Call, admits, replaces, opens, closes, removes, starts_drain, forces_drain, step, ledger_step,
  count_of, count_in, streams_of, admit-ledger, replace-ledger, remove-ledger, open-ledger,
  close-ledger,
}

step-ManagerOk : (c : Call) (m : Manager) → ManagerOk m → ManagerOk (step c m).0
unfolding step
step-ManagerOk (admits id g) m v = admit_connector-ManagerOk id g m v
step-ManagerOk (replaces id g) m v = replace_connector-ManagerOk id g m v
step-ManagerOk (opens id g) m v = open_stream-ManagerOk id g m v
step-ManagerOk (closes id g) m v = close_stream-ManagerOk id g m v
step-ManagerOk (removes id) m v = remove_connector-ManagerOk id m v
step-ManagerOk (starts_drain deadline) m v = start_drain-ManagerOk deadline m v
step-ManagerOk forces_drain m v = force_drain-ManagerOk m v

admit_connector-ledger :
    (id : Str) (g : ℕ) (m : Manager) (j : Str) (h : ℕ)
    → ManagerOk m
    → streams_of (admit_connector id g m).0 j h ≡ streams_of m j h
unfolding admit_connector
admit_connector-ledger id g m j h v =
    if_cases KeepsCounts (eq_str id [] || g == 0) (λ _. refl)
      λ _.
        if_cases KeepsCounts (not (is_phase_ready m.state.phase)) (λ _. refl)
          λ _. admit-ledger m v j h _ id g refl
  where
    KeepsCounts : Outcome → Type 0
    KeepsCounts o = streams_of o.0 j h ≡ streams_of m j h

replace_connector-ledger :
    (id : Str) (g : ℕ) (m : Manager) (j : Str) (h : ℕ)
    → ManagerOk m
    → streams_of (replace_connector id g m).0 j h ≡ streams_of m j h
unfolding replace_connector
replace_connector-ledger id g m j h v =
    if_cases KeepsCounts (eq_str id [] || g == 0) (λ _. refl)
      λ _.
        if_cases KeepsCounts (not (is_phase_ready m.state.phase)) (λ _. refl)
          λ _. replace-ledger m v j h _ id g refl
  where
    KeepsCounts : Outcome → Type 0
    KeepsCounts o = streams_of o.0 j h ≡ streams_of m j h

open_stream-ledger :
    (id : Str) (g : ℕ) (m : Manager) (j : Str) (h : ℕ)
    → ManagerOk m
    → streams_of (open_stream id g m).0 j h
      ≡ ledger_step (opens id g) (open_stream id g m).1 j h (streams_of m j h)
unfolding open_stream ledger_step streams_of
open_stream-ledger id g m j h v =
    if_cases Opened (not (is_phase_ready m.state.phase)) (λ _. ledger_refused)
      λ _. open-ledger m v j h _ id g refl
  where
    Opened : Outcome → Type 0
    Opened o = streams_of o.0 j h ≡ ledger_step (opens id g) o.1 j h (streams_of m j h)

    ledger_refused : Opened (m, some is_draining)
    ledger_refused = refl

close_stream-ledger :
    (id : Str) (g : ℕ) (m : Manager) (j : Str) (h : ℕ)
    → ManagerOk m
    → streams_of (close_stream id g m).0 j h
      ≡ ledger_step (closes id g) (close_stream id g m).1 j h (streams_of m j h)
unfolding close_stream
close_stream-ledger id g m j h v = close-ledger m v j h (find id m) id g refl

remove_connector-ledger :
    (id : Str) (m : Manager) (j : Str) (h : ℕ)
    → ManagerOk m
    → streams_of (remove_connector id m).0 j h ≡ streams_of m j h
unfolding remove_connector
remove_connector-ledger id m j h v = remove-ledger m v j h (find id m) id refl

step-ledger :
    (c : Call) (m : Manager) (j : Str) (h : ℕ)
    → ManagerOk m
    → streams_of (step c m).0 j h ≡ ledger_step c (step c m).1 j h (streams_of m j h)
unfolding step ledger_step streams_of count_in find start_drain force_drain get
step-ledger (admits id g) m j h v = admit_connector-ledger id g m j h v
step-ledger (replaces id g) m j h v = replace_connector-ledger id g m j h v
step-ledger (opens id g) m j h v = open_stream-ledger id g m j h v
step-ledger (closes id g) m j h v = close_stream-ledger id g m j h v
step-ledger (removes id) m j h v = remove_connector-ledger id m j h v
step-ledger (starts_drain deadline) m j h v = refl
step-ledger forces_drain m j h v = refl

unfoldable pub run : List Call → Manager → Manager
run [] m = m
run (c ∷ calls) m = run calls (step c m).0

-- The entry of the ledger for a generation of a connector after some calls, by their errors.
unfoldable pub ledger_run : List Call → Manager → Str → ℕ → ℕ → ℕ
ledger_run [] m j h n = n
ledger_run (c ∷ calls) m j h n =
    ledger_run calls (step c m).0 j h (ledger_step c (step c m).1 j h n)

runs-ledger :
    (calls : List Call) (m : Manager) (j : Str) (h n : ℕ)
    → ManagerOk m
    → streams_of m j h ≡ n
    → streams_of (run calls m) j h ≡ ledger_run calls m j h n
unfolding run ledger_run
runs-ledger [] m j h n v e = e
runs-ledger (c ∷ calls) m j h n v e =
    runs-ledger calls (step c m).0 j h _ (step-ManagerOk c m v) (rw (step-ledger c m j h v, e) refl)

-- After any calls on a new manager of a capacity below 2^32, the streams that the manager counts
-- for a generation of a connector are those of the ledger: the opened ones less the closed ones,
-- whatever was admitted, replaced, removed or drained meanwhile, and none behind a forced drain.
pub run-ledger :
    (state : Snapshot) (capacity : ℕ) (m : Manager) (calls : List Call) (j : Str) (h : ℕ)
    → capacity ≤ max_uint32
    → new_manager state capacity ≡ ok m
    → streams_of (run calls m) j h ≡ ledger_run calls m j h 0
unfolding new_manager streams_of count_in find get
run-ledger state capacity m calls j h room e =
    runs-ledger calls m j h 0 (new_manager-ManagerOk state capacity m room e) (ground arith)

close_found-counted :
    (o : Option Connector) (id : Str) (g : ℕ) (m : Manager)
    → find id m ≡ o
    → ((close_found o id g m).1 ≡ none) ↔ (0 < streams_of m id g)
unfolding close_found streams_of count_in count_of
close_found-counted none id g m e = (λ h. absurd (ground arith), λ h. absurd (ground arith))
close_found-counted (some c) id g m e = (λ h. ground arith, λ h. ground arith)

-- Closing a stream succeeds just if the manager counts one for this generation of the connector.
pub close_stream-counted :
    (id : Str) (g : ℕ) (m : Manager) → ((close_stream id g m).1 ≡ none) ↔ (0 < streams_of m id g)
unfolding close_stream
close_stream-counted id g m = close_found-counted (find id m) id g m refl
