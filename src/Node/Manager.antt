-- ===== src/Node/Manager.antt =====
-- internal/node/manager.go: `Manager`. Streams are uint32 and generations uint64 in the source; an
-- addition that the source does not guard wraps here too. The channel `wake` is left out: it only
-- tells `Drain` when to look at the total again.
pub mod Invariant
pub mod Ledger
pub mod Streams
pub mod Drain
use paperboat_tunnel.Base.{
  ℕ, ◌+◌, ◌-◌, ◌%◌, ◌^◌, Bool, true, false, not, ◌&&◌, ◌||◌, List, [], ◌∷◌, ◌++◌, Option, none,
  some, Result, ok, err, ltb, leb, ◌==◌, if◌then◌else◌, length, ℕ_discrete,
}
use paperboat_tunnel.Base.Maps.{Map, get, put, delete}
use paperboat_tunnel.Base.Strings.{Str, Str-discrete, eq_str}
use paperboat_tunnel.Node.State.{Phase, Snapshot, begin_drain, draining, ready}

pub data Error : Type 0 where
  not_ready capacity_exhausted unknown is_draining : Error

pub record Connector : Type 0 where
  pub generation : ℕ
  pub streams : ℕ
  pub retired : Map ℕ ℕ

pub record Manager : Type 0 where
  pub state : Snapshot
  pub capacity : ℕ
  pub connectors : Map Str Connector

abbrev pub Outcome : Type 0
Outcome = Manager × Option Error

abbrev pub max_uint32 : ℕ
max_uint32 = 4294967295

unfoldable pub new_manager : Snapshot → ℕ → Result Error Manager
new_manager state capacity =
    if capacity == 0
    then err capacity_exhausted
    else ok (record { state = state; capacity = capacity; connectors = [] })

abbrev pub is_phase_ready : Phase → Bool
is_phase_ready ready = true
is_phase_ready _ = false

abbrev pub is_phase_draining : Phase → Bool
is_phase_draining draining = true
is_phase_draining _ = false

unfoldable pub find : Str → Manager → Option Connector
find id m = get Str-discrete m.connectors id

unfoldable pub set_connector : Str → Connector → Manager → Manager
set_connector id c m = record m { connectors = put Str-discrete m.connectors id c }

unfoldable pub admit_found : Option Connector → Str → ℕ → Manager → Outcome
admit_found (some c) id generation m = (m, none)
admit_found none id generation m =
    if leb m.capacity (length m.connectors % 4294967296)
    then (m, some capacity_exhausted)
    else (set_connector id (record { generation = generation; streams = 0; retired = [] }) m, none)

unfoldable pub admit_connector : Str → ℕ → Manager → Outcome
admit_connector id generation m =
    if eq_str id [] || generation == 0
    then (m, some unknown)
    else if not (is_phase_ready m.state.phase)
    then (m, some not_ready)
    else admit_found (find id m) id generation m

-- `retired[generation]`, which is 0 where the key is missing.
unfoldable pub retired_streams : Map ℕ ℕ → ℕ → ℕ
retired_streams retired generation = elim (get ℕ_discrete retired generation) [
  | none ↦ 0
  | some n ↦ n
]

unfoldable pub retire : Connector → Map ℕ ℕ
unfolding retired_streams
retire c =
    if c.streams == 0
    then c.retired
    else put ℕ_discrete c.retired c.generation
        ((retired_streams c.retired c.generation + c.streams) % 4294967296)

unfoldable pub replace_found : Option Connector → Str → ℕ → Manager → Outcome
replace_found none id generation m = (m, some unknown)
replace_found (some c) id generation m =
    if leb generation c.generation then (m, some unknown) else (
      set_connector id (record { generation = generation; streams = 0; retired = retire c }) m,
      none,
    )

unfoldable pub replace_connector : Str → ℕ → Manager → Outcome
replace_connector id generation m =
    if eq_str id [] || generation == 0
    then (m, some unknown)
    else if not (is_phase_ready m.state.phase)
    then (m, some not_ready)
    else replace_found (find id m) id generation m

unfoldable pub remove_found : Option Connector → Str → Manager → Outcome
remove_found none id m = (m, some unknown)
remove_found (some c) id m =
    if not (c.streams == 0) || not (length c.retired == 0)
    then (m, some is_draining)
    else (record m { connectors = delete Str-discrete m.connectors id }, none)

unfoldable pub remove_connector : Str → Manager → Outcome
remove_connector id m = remove_found (find id m) id m

unfoldable pub open_found : Option Connector → Str → ℕ → Manager → Outcome
open_found none id generation m = (m, some unknown)
open_found (some c) id generation m =
    if not (c.generation == generation)
    then (m, some unknown)
    else if c.streams == max_uint32
    then (m, some capacity_exhausted)
    else (set_connector id (record c { streams = c.streams + 1 }) m, none)

unfoldable pub open_stream : Str → ℕ → Manager → Outcome
open_stream id generation m =
    if not (is_phase_ready m.state.phase)
    then (m, some is_draining)
    else open_found (find id m) id generation m

-- A retired generation with one stream less, which is dropped when it has none left.
unfoldable pub retired_less : Map ℕ ℕ → ℕ → Map ℕ ℕ
unfolding retired_streams
retired_less retired generation =
    let left = retired_streams retired generation - 1 in
    if left == 0
    then delete ℕ_discrete (put ℕ_discrete retired generation left) generation
    else put ℕ_discrete retired generation left

unfoldable pub close_found : Option Connector → Str → ℕ → Manager → Outcome
close_found none id generation m = (m, some unknown)
close_found (some c) id generation m =
    if c.generation == generation && ltb 0 c.streams
    then (set_connector id (record c { streams = c.streams - 1 }) m, none)
    else if ltb 0 (retired_streams c.retired generation)
    then (set_connector id (record c { retired = retired_less c.retired generation }) m, none)
    else (m, some unknown)

unfoldable pub close_stream : Str → ℕ → Manager → Outcome
close_stream id generation m = close_found (find id m) id generation m

unfoldable pub saturating_add : ℕ → ℕ → ℕ
saturating_add current value =
    if ltb (max_uint32 - current) value then max_uint32 else current + value

unfoldable pub add_retired : Map ℕ ℕ → ℕ → ℕ
add_retired [] total = total
add_retired (p ∷ retired) total = add_retired retired (saturating_add total p.1)

unfoldable pub add_connectors : Map Str Connector → ℕ → ℕ
add_connectors [] total = total
add_connectors (p ∷ connectors) total =
    add_connectors connectors (add_retired p.1.retired (saturating_add total p.1.streams))

-- totalStreamsLocked
unfoldable pub total_streams : Manager → ℕ
total_streams m = add_connectors m.connectors 0

-- The start of `Drain`.
unfoldable pub start_drain : ℕ → Manager → Manager
start_drain deadline m = record m { state = (begin_drain deadline m.state).0 }

-- A turn of the loop of `Drain`: whether the total is zero, and it returns that nothing was forced.
unfoldable pub drain_is_done : Manager → Bool
drain_is_done m = total_streams m == 0

-- The end of `Drain` when the timer fires or the context ends: it returns that it was forced.
unfoldable pub force_drain : Manager → Manager
force_drain m = record m { connectors = [] }

pub record ConnectorSnapshot : Type 0 where
  pub id : Str
  pub generation : ℕ
  pub streams : ℕ

pub record ManagerSnapshot : Type 0 where
  pub connectors : List ConnectorSnapshot
  pub streams : ℕ
  pub capacity : ℕ
  pub draining_now : Bool

unfoldable pub snapshot_retired : Str → Map ℕ ℕ → List ConnectorSnapshot
snapshot_retired id [] = []
snapshot_retired id (p ∷ retired) =
    record { id = id; generation = p.0; streams = p.1 } ∷ snapshot_retired id retired

unfoldable pub snapshot_connectors : Map Str Connector → List ConnectorSnapshot
snapshot_connectors [] = []
snapshot_connectors (p ∷ connectors) =
    record { id = p.0; generation = p.1.generation; streams = p.1.streams }
    ∷ (snapshot_retired p.0 p.1.retired ++ snapshot_connectors connectors)

-- Manager.Snapshot, whose sum runs over the same counts in the same order as the total's.
unfoldable pub snapshot : Manager → ManagerSnapshot
snapshot m = record {
  connectors = snapshot_connectors m.connectors;
  streams = add_connectors m.connectors 0;
  capacity = m.capacity;
  draining_now = is_phase_draining m.state.phase;
}
