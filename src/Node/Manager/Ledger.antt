-- ===== src/Node/Manager/Ledger.antt =====
-- internal/node/manager.go: the streams that a `Manager` counts for a generation of a connector,
-- and what each part of a call does to them.
use paperboat_tunnel.Base.{
  ℕ, ◌+◌, ◌-◌, ◌%◌, ◌<◌, ◌≡◌, refl, ◌&&◌, [], ◌∷◌, Option, none, some, arith, ◌==◌, if◌then◌else◌,
  length, ℕ_discrete,
}
use paperboat_tunnel.Base.Maps.{Map, get, put, get-put, get-delete}
use paperboat_tunnel.Base.Strings.{Str, Str-discrete, eq_str}
use paperboat_tunnel.Node.Manager.{
  Connector, Error, Manager, Outcome, admit_connector, admit_found, close_found, close_stream, find,
  force_drain, open_found, open_stream, remove_connector, remove_found, replace_connector,
  replace_found, retire, retired_less, retired_streams, set_connector, start_drain,
}
use paperboat_tunnel.Node.Manager.Invariant.{ConnectorOk, ManagerOk, retired-at}

-- The streams of a generation of a connector.
unfoldable pub count_of : Connector → ℕ → ℕ
count_of c g = (if c.generation == g then c.streams else 0) + retired_streams c.retired g

unfoldable pub count_in : Option Connector → ℕ → ℕ
count_in none g = 0
count_in (some c) g = count_of c g

unfoldable pub streams_of : Manager → Str → ℕ → ℕ
streams_of m id g = count_in (find id m) g

retire-count :
    (c : Connector) (generation g : ℕ)
    → ConnectorOk c
    → c.generation < generation
    → count_of (record { generation = generation; streams = 0; retired = retire c }) g
      ≡ count_of c g
unfolding count_of retire retired_streams
retire-count c generation g v newer = ground (
  arith,
  get-put ℕ_discrete c.retired c.generation g
      ((retired_streams c.retired c.generation + c.streams) % 4294967296),
  retired-at c c.generation v,
  retired-at c generation v,
  v.fits,
)

less-count :
    (c : Connector) (g h : ℕ)
    → 0 < retired_streams c.retired g
    → count_of (record c { retired = retired_less c.retired g }) h
      ≡ (if g == h then count_of c h - 1 else count_of c h)
unfolding count_of retired_less retired_streams
less-count c g h left =
    let less = retired_streams c.retired g - 1 in
    ground (
      arith,
      get-put ℕ_discrete c.retired g h less,
      get-delete ℕ_discrete (put ℕ_discrete c.retired g less) g h,
    )

fewer-count :
    (c : Connector) (g h : ℕ)
    → c.generation ≡ g
    → 0 < c.streams
    → count_of (record c { streams = c.streams - 1 }) h
      ≡ (if g == h then count_of c h - 1 else count_of c h)
unfolding count_of
fewer-count c g h e left = ground arith

empty_streams : (r : Map ℕ ℕ) (g : ℕ) → length r ≡ 0 → retired_streams r g ≡ 0
unfolding retired_streams get
empty_streams [] g e = refl
empty_streams (p ∷ r) g e = absurd (omega arith)

empty_count : (c : Connector) (g : ℕ) → c.streams ≡ 0 → length c.retired ≡ 0 → count_of c g ≡ 0
unfolding count_of
empty_count c g e q = ground (arith, empty_streams c.retired g q)

-- The calls of a manager.
pub data Call : Type 0 where
  admits replaces opens closes : Str → ℕ → Call
  removes : Str → Call
  starts_drain : ℕ → Call
  forces_drain : Call

unfoldable pub step : Call → Manager → Outcome
step (admits id g) m = admit_connector id g m
step (replaces id g) m = replace_connector id g m
step (opens id g) m = open_stream id g m
step (closes id g) m = close_stream id g m
step (removes id) m = remove_connector id m
step (starts_drain deadline) m = (start_drain deadline m, none)
step forces_drain m = (force_drain m, none)

-- What a call does to the ledger of open streams, by its error: an opened stream is added, a
-- closed one removed, and a forced drain forgets all.
unfoldable pub ledger_step : Call → Option Error → Str → ℕ → ℕ → ℕ
ledger_step (opens id g) none j h n = if eq_str id j && g == h then n + 1 else n
ledger_step (closes id g) none j h n = if eq_str id j && g == h then n - 1 else n
ledger_step forces_drain none j h n = 0
ledger_step _ _ j h n = n

module _ (m : Manager) (v : ManagerOk m) (j : Str) (h : ℕ) where
  pub admit-ledger :
      (o : Option Connector) (id : Str) (g : ℕ)
      → find id m ≡ o
      → streams_of (admit_found o id g m).0 j h ≡ streams_of m j h
  unfolding admit_found streams_of find set_connector count_in count_of retired_streams get
  admit-ledger (some c) id g e = refl
  admit-ledger none id g e = ground (
    arith,
    get-put Str-discrete m.connectors id j (record { generation = g; streams = 0; retired = [] }),
  )

  pub replace-ledger :
      (o : Option Connector) (id : Str) (g : ℕ)
      → find id m ≡ o
      → streams_of (replace_found o id g m).0 j h ≡ streams_of m j h
  unfolding replace_found streams_of find set_connector count_in
  replace-ledger none id g e = refl
  replace-ledger (some c) id g e = ground (
    arith,
    get-put Str-discrete m.connectors id j
        (record { generation = g; streams = 0; retired = retire c }),
    retire-count c g h (v.each id c e),
  )

  pub remove-ledger :
      (o : Option Connector) (id : Str)
      → find id m ≡ o
      → streams_of (remove_found o id m).0 j h ≡ streams_of m j h
  unfolding remove_found streams_of find count_in
  remove-ledger none id e = refl
  remove-ledger (some c) id e =
      ground (arith, get-delete Str-discrete m.connectors id j, empty_count c h)

  pub open-ledger :
      (o : Option Connector) (id : Str) (g : ℕ)
      → find id m ≡ o
      → streams_of (open_found o id g m).0 j h
        ≡ ledger_step (opens id g) (open_found o id g m).1 j h (streams_of m j h)
  unfolding open_found streams_of find set_connector count_in count_of ledger_step
  open-ledger none id g e = refl
  open-ledger (some c) id g e =
      ground (arith, get-put Str-discrete m.connectors id j (record c { streams = c.streams + 1 }))

  pub close-ledger :
      (o : Option Connector) (id : Str) (g : ℕ)
      → find id m ≡ o
      → streams_of (close_found o id g m).0 j h
        ≡ ledger_step (closes id g) (close_found o id g m).1 j h (streams_of m j h)
  unfolding close_found streams_of find set_connector count_in ledger_step
  close-ledger none id g e = refl
  close-ledger (some c) id g e = ground (
    arith,
    get-put Str-discrete m.connectors id j (record c { streams = c.streams - 1 }),
    get-put Str-discrete m.connectors id j (record c { retired = retired_less c.retired g }),
    fewer-count c g h,
    less-count c g h,
  )
