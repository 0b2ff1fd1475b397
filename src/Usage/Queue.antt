-- ===== src/Usage/Queue.antt =====
-- internal/usage/counter.go: `Queue`, the bounded queue of usage reports. The order in which Go
-- ranges over the map of pending reports is an argument of `enqueue_latest`, since the result
-- depends on it. A time is the nanoseconds since Go's zero time.
pub mod Sizes
pub mod Bounded
pub mod Runs
use paperboat_tunnel.Base.{
  ℕ, ◌+◌, ◌-◌, Bool, true, false, not, ◌&&◌, ◌||◌, List, [], ◌∷◌, ◌++◌, Option, none, some, Result,
  ok, err, ◌>>=◌, ltb, leb, ◌==◌, if◌then◌else◌, length, ℤ, pos, pos_part, ltbℤ, same, map,
}
use paperboat_tunnel.Base.Maps.{Map, get, put, delete}
use paperboat_tunnel.Base.Strings.{Str, Str-discrete, eq_str}
use paperboat_tunnel.Usage.Counters.{Key, Key-discrete, counter_identity}

pub data Error : Type 0 where
  queue_full : Error

pub record Report : Type 0 where
  pub operation_id : Str
  pub key : Key
  pub bytes : ℕ
  pub interval_from : ℕ
  pub interval_to : ℕ
  pub payload : Str

pub record Queue : Type 0 where
  pub max_reports : ℕ
  pub max_bytes : ℕ
  pub bytes : ℕ
  pub pending : Map Str Report
  pub order : List Str

unfoldable pub new_queue : ℤ → ℤ → Result Error Queue
new_queue max_reports max_bytes =
    if ltbℤ max_reports (pos 1) || ltbℤ max_bytes (pos 1)
    then err queue_full
    else ok (record {
      max_reports = pos_part max_reports;
      max_bytes = pos_part max_bytes;
      bytes = 0;
      pending = [];
      order = [];
    })

-- The guard of `Enqueue` and `EnqueueLatest`.
unfoldable pub is_malformed : Report → Queue → Bool
is_malformed r q =
    eq_str r.operation_id [] || length r.payload == 0 || ltb q.max_bytes (length r.payload)

-- A report behind the others, if there is room.
unfoldable pub append_report : Report → Queue → Result Error Queue
append_report r q =
    if leb q.max_reports (length q.pending) || ltb (q.max_bytes - length r.payload) q.bytes
    then err queue_full
    else ok (record q {
      pending = put Str-discrete q.pending r.operation_id r;
      order = q.order ++ (r.operation_id ∷ []);
      bytes = q.bytes + length r.payload;
    })

unfoldable pub same_report : Report → Report → Bool
same_report r s = same Key-discrete r.key s.key && r.bytes == s.bytes && eq_str r.payload s.payload

unfoldable pub enqueue_found : Option Report → Report → Queue → Result Error Queue
enqueue_found none r q = append_report r q
enqueue_found (some existing) r q = if same_report existing r then ok q else err queue_full

unfoldable pub enqueue : Report → Queue → Result Error Queue
enqueue r q =
    if is_malformed r q
    then err queue_full
    else enqueue_found (get Str-discrete q.pending r.operation_id) r q

-- The loop that renames the first entry of the order.
unfoldable pub rename_first : Str → Str → List Str → List Str
rename_first id new [] = []
rename_first id new (x ∷ order) =
    let rest = rename_first id new order in if eq_str x id then new ∷ order else x ∷ rest

-- The body of the loop of `EnqueueLatest` for the pending report of the same counter.
unfoldable pub replace_report : Str → Report → Report → Queue → Result Error Queue
replace_report id current r q =
    if leb r.bytes current.bytes
    then ok q
    else if ltb q.bytes (length current.payload)
        || ltb (q.max_bytes - length r.payload) (q.bytes - length current.payload)
    then err queue_full
    else ok (record q {
      pending = put Str-discrete (delete Str-discrete q.pending id) r.operation_id r;
      bytes = q.bytes - length current.payload + length r.payload;
      order = rename_first id r.operation_id q.order;
    })

unfoldable pub same_counter : Report → Report → Bool
same_counter r s = same Key-discrete (counter_identity r.key) (counter_identity s.key)

unfoldable pub latest_from : List Str → Report → Queue → Result Error Queue
latest_from [] r q = append_report r q
latest_from (id ∷ keys) r q =
    let rest = latest_from keys r q in
    elim (get Str-discrete q.pending id) [
      | none ↦ rest
      | some current ↦ if same_counter current r then replace_report id current r q else rest
    ]

unfoldable pub enqueue_latest : List Str → Report → Queue → Result Error Queue
enqueue_latest keys r q = if is_malformed r q then err queue_full else latest_from keys r q

unfoldable pub next_from : List Str → Map Str Report → Option Report
next_from [] pending = none
next_from (id ∷ order) pending =
    let rest = next_from order pending in
    elim (get Str-discrete pending id) [ none ↦ rest | some r ↦ some r ]

-- Queue.Next
unfoldable pub next_report : Queue → Option Report
next_report q = next_from q.order q.pending

unfoldable pub ack_found : Option Report → Str → Queue → Queue × Bool
ack_found none id q = (q, false)
ack_found (some r) id q = (
  record q { pending = delete Str-discrete q.pending id; bytes = q.bytes - length r.payload },
  true,
)

-- Queue.Ack
unfoldable pub ack : Str → Queue → Queue × Bool
ack id q = ack_found (get Str-discrete q.pending id) id q

-- Queue.Len
unfoldable pub queue_len : Queue → ℕ
queue_len q = length q.pending

unfoldable pub oldest_from : List Str → Map Str Report → ℕ → ℕ
oldest_from [] pending oldest = oldest
oldest_from (id ∷ order) pending oldest = elim (get Str-discrete pending id) [
  | none ↦ oldest_from order pending oldest
  | some r ↦
      let at = if r.interval_from == 0 then r.interval_to else r.interval_from in
      oldest_from order pending
        (if oldest == 0 || not (at == 0) && ltb at oldest then at else oldest)
]

pub record QueueStats : Type 0 where
  pub reports : ℕ
  pub bytes : ℕ
  pub max_reports : ℕ
  pub max_bytes : ℕ
  pub oldest_at : ℕ

-- Queue.Stats
unfoldable pub queue_stats : Queue → QueueStats
queue_stats q = record {
  reports = length q.pending;
  bytes = q.bytes;
  max_reports = q.max_reports;
  max_bytes = q.max_bytes;
  oldest_at = oldest_from q.order q.pending 0;
}

unfoldable pub any_counter : Key → Map Str Report → Bool
any_counter k [] = false
any_counter k (p ∷ pending) =
    same Key-discrete (counter_identity p.1.key) (counter_identity k) || any_counter k pending

-- Queue.HasKey
unfoldable pub has_key : Key → Queue → Bool
has_key k q = any_counter k q.pending

unfoldable pub reports_in : List Str → Map Str Report → List Report
reports_in [] pending = []
reports_in (id ∷ order) pending =
    let rest = reports_in order pending in
    elim (get Str-discrete pending id) [ none ↦ rest | some r ↦ r ∷ rest ]

-- Queue.Snapshot
unfoldable pub queue_state : Queue → List Report
queue_state q = reports_in q.order q.pending

unfoldable pub enqueue_all : List Report → Queue → Result Error Queue
enqueue_all [] q = ok q
enqueue_all (r ∷ reports) q = enqueue r q >>= enqueue_all reports

unfoldable pub restore_queue : List Report → ℤ → ℤ → Result Error Queue
restore_queue reports max_reports max_bytes =
    new_queue max_reports max_bytes >>= enqueue_all reports
