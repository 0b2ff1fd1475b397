-- ===== src/Node/Manager/Invariant.antt =====
-- internal/node/manager.go: what holds of each connector of a `Manager` between two calls.
use paperboat_tunnel.Base.{
  ℕ, ◌+◌, ◌-◌, ◌%◌, ◌⊎◌, ◌≤◌, ◌<◌, ◌≡◌, refl, not, ◌&&◌, ◌||◌, [], Option, none, some, ok, arith,
  Option-cases, if_cases, ltb, leb, ◌==◌, if◌then◌else◌, length, ℕ_discrete, inl, inr,
}
use paperboat_tunnel.Base.Maps.{
  get, put, get-put, get-delete, length-put_new, length-put_old, length-delete-le,
}
use paperboat_tunnel.Base.Strings.{Str, Str-discrete, eq_str}
use paperboat_tunnel.Node.State.{Snapshot}
use paperboat_tunnel.Node.Manager.{
  Connector, Manager, Outcome, admit_connector, admit_found, close_found, close_stream, find,
  force_drain, is_phase_ready, max_uint32, new_manager, open_found, open_stream, remove_connector,
  remove_found, replace_connector, replace_found, retire, retired_less, retired_streams,
  set_connector, start_drain, unknown, capacity_exhausted,
}

-- The counts fit in 32 bits, and the retired generations are older and still have streams.
pub record ConnectorOk (c : Connector) : Type 0 where
  pub fits : c.streams ≤ max_uint32
  pub older :
      (g n : ℕ)
      → get ℕ_discrete c.retired g ≡ some n
      → (0 < n) × (n ≤ max_uint32) × (g < c.generation)

pub record ManagerOk (m : Manager) : Type 0 where
  pub each : (id : Str) (c : Connector) → find id m ≡ some c → ConnectorOk c
  pub bounded : length m.connectors ≤ m.capacity
  pub small : m.capacity ≤ max_uint32

pub new_manager-ManagerOk :
    (s : Snapshot) (capacity : ℕ) (m : Manager)
    → capacity ≤ max_uint32
    → new_manager s capacity ≡ ok m
    → ManagerOk m
unfolding new_manager find get
new_manager-ManagerOk s capacity m room h = record {
  each = λ id c q. absurd (ground arith);
  bounded = ground arith;
  small = ground arith;
}

module _ (id : Str) (c : Connector) (m : Manager) where
  set-ManagerOk :
      ManagerOk m
      → ConnectorOk c
      → length (put Str-discrete m.connectors id c) ≤ m.capacity
      → ManagerOk (set_connector id c m)
  unfolding set_connector find
  set-ManagerOk v fit room = record {
    each = λ j x h. ground (arith, get-put Str-discrete m.connectors id j c, v.each j x);
    bounded = room;
    small = v.small;
  }

pub retired-at :
    (c : Connector) (g : ℕ) → ConnectorOk c → (retired_streams c.retired g ≡ 0) ⊎ (g < c.generation)
unfolding retired_streams
retired-at c g v = elim (Option-cases (get ℕ_discrete c.retired g)) [
  | inl e ↦ inl (rw (e, retired_streams))
  | inr (n, e) ↦ inr (v.older g n e).2
]

retire-ConnectorOk :
    (c : Connector) (generation : ℕ)
    → ConnectorOk c
    → c.generation < generation
    → ConnectorOk (record { generation = generation; streams = 0; retired = retire c })
unfolding retire retired_streams
retire-ConnectorOk c generation v newer =
    let none_yet = retired-at c c.generation v in
    record {
      fits = ground arith;
      older = λ g n h. ground (
        arith,
        get-put ℕ_discrete c.retired c.generation g
            ((retired_streams c.retired c.generation + c.streams) % 4294967296),
        v.older g n,
        v.fits,
      );
    }

retired_less-ConnectorOk :
    (c : Connector) (g : ℕ)
    → ConnectorOk c
    → 0 < retired_streams c.retired g
    → ConnectorOk (record c { retired = retired_less c.retired g })
unfolding retired_less retired_streams
retired_less-ConnectorOk c g v some_left = record {
  fits = v.fits;
  older = λ h n q.
      let left = retired_streams c.retired g - 1 in
      ground (
        arith,
        get-put ℕ_discrete c.retired g h left,
        get-delete ℕ_discrete (put ℕ_discrete c.retired g left) g h,
        v.older h n,
        v.older g (retired_streams c.retired g),
      );
}

abbrev Keeps : Outcome → Type 0
Keeps o = ManagerOk o.0

admit_found-ManagerOk :
    (o : Option Connector) (id : Str) (g : ℕ) (m : Manager)
    → ManagerOk m
    → find id m ≡ o
    → ManagerOk (admit_found o id g m).0
unfolding admit_found find get
admit_found-ManagerOk (some c) id g m v h = v
admit_found-ManagerOk none id g m v h =
    if_cases Keeps (leb m.capacity (length m.connectors % 4294967296)) (λ _. v)
      λ room.
        let fresh : Connector = record { generation = g; streams = 0; retired = [] } in
        set-ManagerOk id fresh m v
          (record { fits = ground arith; older = λ i n q. absurd (ground arith) })
          (ground (arith, length-put_new Str-discrete m.connectors id fresh h, v.bounded, v.small))

module _ (id : Str) (c d : Connector) (m : Manager) where
  update-ManagerOk :
      ManagerOk m → find id m ≡ some c → ConnectorOk d → ManagerOk (set_connector id d m)
  unfolding find
  update-ManagerOk v h fit =
      set-ManagerOk id d m v fit
        (omega (arith, length-put_old Str-discrete m.connectors id d c h, v.bounded))

replace_found-ManagerOk :
    (o : Option Connector) (id : Str) (g : ℕ) (m : Manager)
    → ManagerOk m
    → find id m ≡ o
    → ManagerOk (replace_found o id g m).0
unfolding replace_found
replace_found-ManagerOk none id g m v h = v
replace_found-ManagerOk (some c) id g m v h =
    if_cases Keeps (leb g c.generation) (λ _. v)
      λ newer. update-ManagerOk id c _ m v h (retire-ConnectorOk c g (v.each id c h) (ground arith))

remove_found-ManagerOk :
    (o : Option Connector) (id : Str) (m : Manager)
    → ManagerOk m
    → ManagerOk (remove_found o id m).0
unfolding remove_found find
remove_found-ManagerOk none id m v = v
remove_found-ManagerOk (some c) id m v =
    if_cases Keeps (not (c.streams == 0) || not (length c.retired == 0)) (λ _. v)
      λ _. record {
        each = λ j x h. ground (arith, get-delete Str-discrete m.connectors id j, v.each j x);
        bounded = omega (arith, length-delete-le Str-discrete m.connectors id, v.bounded);
        small = v.small;
      }

open_found-ManagerOk :
    (o : Option Connector) (id : Str) (g : ℕ) (m : Manager)
    → ManagerOk m
    → find id m ≡ o
    → ManagerOk (open_found o id g m).0
unfolding open_found
open_found-ManagerOk none id g m v h = v
open_found-ManagerOk (some c) id g m v h =
    let k = v.each id c h in
    if_cases Keeps (not (c.generation == g))
      {y = if c.streams == max_uint32
        then (m, some capacity_exhausted)
        else (set_connector id (record c { streams = c.streams + 1 }) m, none)}
      (λ _. v)
      (λ _.
        if_cases Keeps (c.streams == max_uint32) (λ _. v)
          (λ room.
            update-ManagerOk id c _ m v h
              (record { fits = ground (arith, k.fits); older = k.older })))

close_found-ManagerOk :
    (o : Option Connector) (id : Str) (g : ℕ) (m : Manager)
    → ManagerOk m
    → find id m ≡ o
    → ManagerOk (close_found o id g m).0
unfolding close_found
close_found-ManagerOk none id g m v h = v
close_found-ManagerOk (some c) id g m v h =
    let k = v.each id c h in
    if_cases Keeps (c.generation == g && ltb 0 c.streams)
      {y = if ltb 0 (retired_streams c.retired g)
        then (set_connector id (record c { retired = retired_less c.retired g }) m, none)
        else (m, some unknown)}
      (λ _.
        update-ManagerOk id c _ m v h (record { fits = omega (arith, k.fits); older = k.older }))
      (λ _.
        if_cases Keeps (ltb 0 (retired_streams c.retired g))
          (λ left. update-ManagerOk id c _ m v h (retired_less-ConnectorOk c g k (ground arith)))
          (λ _. v))

pub admit_connector-ManagerOk :
    (id : Str) (g : ℕ) (m : Manager) → ManagerOk m → ManagerOk (admit_connector id g m).0
unfolding admit_connector
admit_connector-ManagerOk id g m v =
    if_cases Keeps (eq_str id [] || g == 0) (λ _. v)
      λ _.
        if_cases Keeps (not (is_phase_ready m.state.phase)) (λ _. v)
          λ _. admit_found-ManagerOk _ id g m v refl

pub replace_connector-ManagerOk :
    (id : Str) (g : ℕ) (m : Manager) → ManagerOk m → ManagerOk (replace_connector id g m).0
unfolding replace_connector
replace_connector-ManagerOk id g m v =
    if_cases Keeps (eq_str id [] || g == 0) (λ _. v)
      λ _.
        if_cases Keeps (not (is_phase_ready m.state.phase)) (λ _. v)
          λ _. replace_found-ManagerOk _ id g m v refl

pub remove_connector-ManagerOk :
    (id : Str) (m : Manager) → ManagerOk m → ManagerOk (remove_connector id m).0
unfolding remove_connector
remove_connector-ManagerOk id m v = remove_found-ManagerOk _ id m v

pub open_stream-ManagerOk :
    (id : Str) (g : ℕ) (m : Manager) → ManagerOk m → ManagerOk (open_stream id g m).0
unfolding open_stream
open_stream-ManagerOk id g m v =
    if_cases Keeps (not (is_phase_ready m.state.phase)) (λ _. v)
      λ _. open_found-ManagerOk _ id g m v refl

pub close_stream-ManagerOk :
    (id : Str) (g : ℕ) (m : Manager) → ManagerOk m → ManagerOk (close_stream id g m).0
unfolding close_stream
close_stream-ManagerOk id g m v = close_found-ManagerOk _ id g m v refl

pub start_drain-ManagerOk :
    (deadline : ℕ) (m : Manager) → ManagerOk m → ManagerOk (start_drain deadline m)
unfolding start_drain find
start_drain-ManagerOk deadline m v = record {
  each = λ j x h. v.each j x h;
  bounded = v.bounded;
  small = v.small;
}

pub force_drain-ManagerOk : (m : Manager) → ManagerOk m → ManagerOk (force_drain m)
unfolding force_drain find get
force_drain-ManagerOk m v = record {
  each = λ j x h. absurd (ground arith);
  bounded = omega arith;
  small = v.small;
}
