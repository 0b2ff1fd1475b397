-- ===== src/Examples/Usage.antt =====
-- internal/usage/counter.go: counters and reports of two routes.
use paperboat_tunnel.Base.{ℕ, ◌+◌, ◌≤◌, ◌≡◌, refl, true, false, List, [], ◌∷◌, none, ok, arith, pos}
use paperboat_tunnel.Base.Maps.{get, put, delete}
use paperboat_tunnel.Base.Strings.{Str, Str-discrete, codes}
use paperboat_tunnel.Usage.Counters.{
  CounterRecord, Key, baseline, get_bytes, max_uint64, new_counters, restore_counters, record_at,
}
use paperboat_tunnel.Usage.Counters.Accounting as Accounting
use paperboat_tunnel.Usage.Counters.Accounting.{Update, increases, run-increases}
use paperboat_tunnel.Usage.Counters.Restored.{restored-baseline}
use paperboat_tunnel.Usage.Queue.{
  Queue, Report, ack, ack_found, append_report, enqueue, enqueue_all, enqueue_found, is_malformed,
  new_queue, next_from, next_report, restore_queue,
}
use paperboat_tunnel.Usage.Queue.Bounded.{QueueOk}
use paperboat_tunnel.Usage.Queue.Runs.{
  acks, enqueues, enqueues_latest, next_report-none, or_old, restored-QueueOk, run, step,
}

abbrev key_of : Str → ℕ → Key
key_of route revision = record {
  node = codes "n";
  epoch = codes "e";
  environment = codes "v";
  route = route;
  direction = codes "ingress";
  revision = revision;
}

abbrev added : ℕ → ℕ → Update
added revision bytes = record { key = key_of (codes "r") revision; bytes = bytes; adds = true }

abbrev observed : ℕ → ℕ → Update
observed revision bytes = record { key = key_of (codes "r") revision; bytes = bytes; adds = false }

no_bytes : get_bytes (key_of (codes "r") 3) new_counters ≤ max_uint64
unfolding get_bytes record_at get
no_bytes = omega arith

run-increases_example :
    (get_bytes
        (key_of (codes "r") 3)
        (Accounting.run (added 1 5 ∷ observed 2 9 ∷ added 1 2 ∷ []) new_counters)
      ≡ get_bytes (key_of (codes "r") 3) new_counters
        + increases (key_of (codes "r") 3) (added 1 5 ∷ observed 2 9 ∷ added 1 2 ∷ []) new_counters)
    × (get_bytes
          (key_of (codes "r") 3)
          (Accounting.run (added 1 5 ∷ observed 2 9 ∷ added 1 2 ∷ []) new_counters)
        ≤ max_uint64)
run-increases_example =
    run-increases (key_of (codes "r") 3) (added 1 5 ∷ observed 2 9 ∷ added 1 2 ∷ []) new_counters
      no_bytes (omega arith, (omega arith, (omega arith, tt)))

-- The records of two revisions of one counter.
abbrev stored : List CounterRecord
stored =
    record { key = key_of (codes "r") 1; bytes = 5 }
    ∷ record { key = key_of (codes "r") 2; bytes = 7 }
    ∷ []

restored-baseline_example :
    baseline (restore_counters stored) (record {
      key = key_of (codes "r") 2;
      bytes = get_bytes (key_of (codes "r") 2) (restore_counters stored);
    })
    ≤ get_bytes (key_of (codes "r") 2) (restore_counters stored)
restored-baseline_example =
    restored-baseline stored (key_of (codes "r") 2) (omega arith, (omega arith, tt))

abbrev report_of : Str → Str → ℕ → Report
report_of id route bytes = record {
  operation_id = id;
  key = key_of route 1;
  bytes = bytes;
  interval_from = 1;
  interval_to = 2;
  payload = codes "{}";
}

abbrev start : Queue
start = record { max_reports = 2; max_bytes = 9; bytes = 0; pending = []; order = [] }

start_made : restore_queue [] (pos 2) (pos 9) ≡ ok start
unfolding restore_queue new_queue enqueue_all
start_made = refl

restored-QueueOk_example : QueueOk (
    run
      (enqueues (report_of (codes "a") (codes "r") 4)
        ∷ enqueues_latest (codes "a" ∷ []) (report_of (codes "b") (codes "r") 8)
        ∷ acks (codes "b")
        ∷ [])
      start)
restored-QueueOk_example =
    restored-QueueOk [] (pos 2) (pos 9) start
      (enqueues (report_of (codes "a") (codes "r") 4)
        ∷ enqueues_latest (codes "a" ∷ []) (report_of (codes "b") (codes "r") 8)
        ∷ acks (codes "b")
        ∷ [])
      start_made

-- An acknowledged report leaves its name in the order.
abbrev acked : Queue
acked = record start { order = codes "a" ∷ [] }

acked-QueueOk : QueueOk acked
unfolding run step or_old enqueue is_malformed enqueue_found append_report ack ack_found get put
    delete Str-discrete
acked-QueueOk =
    restored-QueueOk [] (pos 2) (pos 9) start
      (enqueues (report_of (codes "a") (codes "r") 4) ∷ acks (codes "a") ∷ []) start_made

nothing_next : next_report acked ≡ none
unfolding next_report next_from get
nothing_next = refl

next_report-none_example : acked.pending ≡ []
next_report-none_example = next_report-none acked acked-QueueOk nothing_next
