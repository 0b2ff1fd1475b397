-- ===== src/Node/Manager/Drain.antt =====
-- internal/node/manager.go: when a drain ends by itself, and what a draining node accepts.
use paperboat_tunnel.Base.{
  ℕ, ◌≡◌, ◌≢◌, refl, true, false, ◌||◌, [], ◌∷◌, none, arith, if_cases, ◌==◌,
}
use paperboat_tunnel.Base.Maps.{Map, get}
use paperboat_tunnel.Base.Strings.{Str, Str-discrete, eq_str}
use paperboat_tunnel.Node.State.{begin_drain}
use paperboat_tunnel.Node.Manager.{
  Connector, Manager, Outcome, add_connectors, add_retired, drain_is_done, find, retired_streams,
  saturating_add, total_streams, admit_connector, replace_connector, open_stream, start_drain,
  is_phase_ready,
}
use paperboat_tunnel.Node.Manager.Ledger.{count_in, count_of, streams_of}

saturating_add-zero : (a b : ℕ) → saturating_add a b ≡ 0 → (a ≡ 0) × (b ≡ 0)
unfolding saturating_add
saturating_add-zero a b h = (ground arith, ground arith)

add_retired-zero :
    (r : Map ℕ ℕ) (n g : ℕ) → add_retired r n ≡ 0 → (n ≡ 0) × (retired_streams r g ≡ 0)
unfolding add_retired retired_streams get
add_retired-zero [] n g h = (h, refl)
add_retired-zero (p ∷ r) n g h =
    let rest = add_retired-zero r (saturating_add n p.1) g h in
    let parts = saturating_add-zero n p.1 rest.0 in (parts.0, ground (arith, parts.1, rest.1))

add_connectors-zero :
    (cs : Map Str Connector) (n g : ℕ) (id : Str)
    → add_connectors cs n ≡ 0
    → (n ≡ 0) × (count_in (get Str-discrete cs id) g ≡ 0)
unfolding add_connectors count_in get count_of
add_connectors-zero [] n g id h = (h, refl)
add_connectors-zero (p ∷ cs) n g id h =
    let rest = add_connectors-zero cs _ g id h in
    let old = add_retired-zero p.1.retired _ g rest.0 in
    let parts = saturating_add-zero n p.1.streams old.0 in
    (parts.0, ground (arith, parts.1, old.1, rest.1))

-- When a drain ends by itself, no generation of any connector has a stream.
pub drain-empty : (m : Manager) (id : Str) (g : ℕ) → drain_is_done m ≡ true → streams_of m id g ≡ 0
unfolding drain_is_done total_streams streams_of find
drain-empty m id g h = (add_connectors-zero m.connectors 0 g id (ground arith)).1

drained-phase :
    (deadline : ℕ) (m : Manager) → is_phase_ready (start_drain deadline m).state.phase ≡ false
unfolding start_drain begin_drain
drained-phase deadline m = ground arith

-- The manager is as it was, and the call has failed.
abbrev pub Refused : Manager → Outcome → Type 0
Refused m o = (o.0 ≡ m) × (o.1 ≢ none)

module _ (id : Str) (g : ℕ) (m : Manager) (fenced : is_phase_ready m.state.phase ≡ false) where
  fenced-Refused :
      Refused m (admit_connector id g m)
      × Refused m (replace_connector id g m)
      × Refused m (open_stream id g m)
  unfolding admit_connector replace_connector open_stream
  fenced-Refused = (
    if_cases (Refused m) (eq_str id [] || g == 0) (λ _. (refl, λ h. cc))
        (λ _. rw (fenced) (refl, λ h. cc)),
    if_cases (Refused m) (eq_str id [] || g == 0) (λ _. (refl, λ h. cc))
        (λ _. rw (fenced) (refl, λ h. cc)),
    rw (fenced) (refl, λ h. cc),
  )

-- Behind the start of a drain, no connector is admitted or replaced and no stream is opened: each
-- such call returns an error and leaves the manager as it is.
pub start_drain-fences :
    (deadline g : ℕ) (id : Str) (m : Manager)
    → Refused (start_drain deadline m) (admit_connector id g (start_drain deadline m))
      × Refused (start_drain deadline m) (replace_connector id g (start_drain deadline m))
      × Refused (start_drain deadline m) (open_stream id g (start_drain deadline m))
start_drain-fences deadline g id m =
    fenced-Refused id g (start_drain deadline m) (drained-phase deadline m)
