-- ===== src/Usage/Counters.antt =====
-- internal/usage/counter.go: `Counters`, absolute byte counts of 64 bits that saturate.
pub mod Accounting
pub mod Restored
use paperboat_tunnel.Base.{
  ℕ, ◌+◌, ◌-◌, Bool, true, false, not, ◌&&◌, ◌||◌, List, [], ◌∷◌, Option, none, some, ltb, leb,
  if◌then◌else◌, map, ℕ_discrete,
}
use paperboat_tunnel.Base.Maps.{Map, get, put}
use paperboat_tunnel.Base.Strings.{Str, Str-discrete, codes, eq_str}

pub record Key : Type 0 where
  pub node : Str
  pub epoch : Str
  pub environment : Str
  pub route : Str
  pub direction : Str
  pub revision : ℕ

unfoldable pub Key-discrete : Discrete Key
unfolding Str-discrete ℕ_discrete
Key-discrete = hlevel (Str-discrete, ℕ_discrete)

-- counterIdentity
unfoldable pub counter_identity : Key → Key
counter_identity k = record k { revision = 0 }

pub record CounterRecord : Type 0 where
  pub key : Key
  pub bytes : ℕ

pub record Counters : Type 0 where
  pub values : Map Key CounterRecord
  pub restored_baseline : Map Key ℕ

abbrev pub new_counters : Counters
new_counters = record { values = []; restored_baseline = [] }

abbrev pub max_uint64 : ℕ
max_uint64 = 18446744073709551615

abbrev zero_record : CounterRecord
zero_record = record {
  key = record {
    node = [];
    epoch = [];
    environment = [];
    route = [];
    direction = [];
    revision = 0;
  };
  bytes = 0;
}

-- `c.values[k]`, which is the zero record where the key is missing.
unfoldable pub record_at : Counters → Key → CounterRecord
record_at c k = elim (get Key-discrete c.values k) [ none ↦ zero_record | some r ↦ r ]

-- The count behind an addition, or behind an absolute observation.
unfoldable pub next_bytes : Bool → ℕ → ℕ → ℕ
next_bytes add old bytes =
    if add
    then (if ltb (max_uint64 - old) bytes then max_uint64 else old + bytes)
    else if ltb old bytes
    then bytes
    else old

unfoldable pub next_record : Key → ℕ → Bool → CounterRecord → CounterRecord
next_record k bytes add old = record {
  key = if leb old.key.revision k.revision then k else old.key;
  bytes = next_bytes add old.bytes bytes;
}

-- The total and the increase stand behind the counters.
unfoldable pub update : Key → ℕ → Bool → Counters → Counters × ℕ × ℕ
update k bytes add c =
    let old = record_at c (counter_identity k) in
    let new = next_record k bytes add old in
    (
      record c { values = put Key-discrete c.values (counter_identity k) new },
      new.bytes,
      new.bytes - old.bytes,
    )

unfoldable pub add : Key → ℕ → Counters → Counters × ℕ
add k bytes c = let (next, total, delta) = update k bytes true c in (next, total)

unfoldable pub observe : Key → ℕ → Counters → Counters × ℕ
observe k absolute c = let (next, total, delta) = update k absolute false c in (next, total)

unfoldable pub reconcile : Key → ℕ → Counters → Counters × ℕ
reconcile k absolute c = let (next, total, delta) = update k absolute false c in (next, delta)

unfoldable pub get_bytes : Key → Counters → ℕ
get_bytes k c = (record_at c (counter_identity k)).bytes

-- Counters.Snapshot
unfoldable pub counter_records : Counters → List CounterRecord
counter_records c = map (λ p. p.1) c.values

unfoldable pub is_restorable : Key → Bool
is_restorable k = not (
    eq_str k.node []
    || eq_str k.epoch []
    || eq_str k.environment []
    || eq_str k.route []
    || not (eq_str k.direction (codes "ingress")) && not (eq_str k.direction (codes "egress")))

abbrev pub or_zero : Option ℕ → ℕ
or_zero none = 0
or_zero (some n) = n

-- `if bytes > m[k] { m[k] = bytes }`
unfoldable pub raise : Map Key ℕ → Key → ℕ → Map Key ℕ
raise m k bytes =
    if ltb (or_zero (get Key-discrete m k)) bytes then put Key-discrete m k bytes else m

-- The first loop of `RestoreCounters`.
unfoldable pub partition : List CounterRecord → Map Key ℕ → Map Key ℕ
partition [] partitions = partitions
partition (r ∷ records) partitions =
    partition records (if is_restorable r.key then raise partitions r.key r.bytes else partitions)

-- The second loop. Saturated sums do not depend on the order of the partitions.
unfoldable pub sum_partitions : Map Key ℕ → Counters → Counters
sum_partitions [] c = c
sum_partitions (p ∷ partitions) c =
    let next = (add p.0 p.1 c).0 in
    sum_partitions partitions
      (record next { restored_baseline = raise next.restored_baseline (counter_identity p.0) p.1 })

unfoldable pub restore_counters : List CounterRecord → Counters
restore_counters records = sum_partitions (partition records []) new_counters

unfoldable pub baseline : Counters → CounterRecord → ℕ
baseline c r = elim (get Key-discrete c.restored_baseline (counter_identity r.key)) [
  | none ↦ r.bytes
  | some value ↦ value
]
