-- ===== src/Usage/Queue/Runs.antt =====
-- internal/usage/counter.go: the report queue behind any calls.
use paperboat_tunnel.Base.{
  ◌≡◌, ◌≢◌, refl, true, List, [], ◌∷◌, none, some, arith, Result, ok, err, ◌>>=◌, ℤ,
}
use paperboat_tunnel.Base.Maps.{Map, get}
use paperboat_tunnel.Base.Strings.{Str, Str-discrete}
use paperboat_tunnel.Usage.Queue.{
  Error, Queue, Report, ack, enqueue, enqueue_all, enqueue_latest, new_queue, next_from,
  next_report, restore_queue,
}
use paperboat_tunnel.Usage.Queue.Bounded.{
  Keeps, QueueOk, ack-QueueOk, enqueue-QueueOk, enqueue_latest-QueueOk, listed, new_queue-QueueOk,
}

pub data Call : Type 0 where
  enqueues : Report → Call
  enqueues_latest : List Str → Report → Call
  acks : Str → Call

-- A call that fails leaves the queue as it is.
unfoldable pub or_old : Result Error Queue → Queue → Queue
or_old (ok next) q = next
or_old (err e) q = q

unfoldable pub step : Call → Queue → Queue
step (enqueues r) q = or_old (enqueue r q) q
step (enqueues_latest keys r) q = or_old (enqueue_latest keys r q) q
step (acks id) q = (ack id q).0

unfoldable pub run : List Call → Queue → Queue
run [] q = q
run (c ∷ calls) q = run calls (step c q)

or_old-QueueOk : (o : Result Error Queue) (q : Queue) → QueueOk q → Keeps o → QueueOk (or_old o q)
unfolding or_old
or_old-QueueOk (ok next) q v k = k
or_old-QueueOk (err e) q v k = v

step-QueueOk : (c : Call) (q : Queue) → QueueOk q → QueueOk (step c q)
unfolding step
step-QueueOk (enqueues r) q v = or_old-QueueOk _ q v (enqueue-QueueOk r q v)
step-QueueOk (enqueues_latest keys r) q v = or_old-QueueOk _ q v (enqueue_latest-QueueOk keys r q v)
step-QueueOk (acks id) q v = ack-QueueOk id q v

run-QueueOk : (calls : List Call) (q : Queue) → QueueOk q → QueueOk (run calls q)
unfolding run
run-QueueOk [] q v = v
run-QueueOk (c ∷ calls) q v = run-QueueOk calls (step c q) (step-QueueOk c q v)

bind-Keeps :
    (o : Result Error Queue) (f : Queue → Result Error Queue)
    → Keeps o
    → ((q : Queue) → QueueOk q → Keeps (f q))
    → Keeps (o >>= f)
bind-Keeps (ok q) f k h = h q k
bind-Keeps (err e) f k h = tt

enqueue_all-QueueOk :
    (reports : List Report) (q : Queue) → QueueOk q → Keeps (enqueue_all reports q)
unfolding enqueue_all
enqueue_all-QueueOk [] q v = v
enqueue_all-QueueOk (r ∷ reports) q v =
    bind-Keeps (enqueue r q) (enqueue_all reports) (enqueue-QueueOk r q v)
      (enqueue_all-QueueOk reports)

restore_queue-QueueOk : (reports : List Report) (n b : ℤ) → Keeps (restore_queue reports n b)
unfolding restore_queue
restore_queue-QueueOk reports n b =
    bind-Keeps (new_queue n b) (enqueue_all reports) (new_queue-QueueOk n b)
      (enqueue_all-QueueOk reports)

-- Behind any calls on a restored queue, whatever the order in which `EnqueueLatest` ranges over the
-- map, the payloads take at most the counted bytes, these are at most the maximum, there are at
-- most the maximum of reports, and each pending report is in the order.
pub restored-QueueOk :
    (reports : List Report) (max_reports max_bytes : ℤ) (q : Queue) (calls : List Call)
    → restore_queue reports max_reports max_bytes ≡ ok q
    → QueueOk (run calls q)
restored-QueueOk reports n b q calls h =
    let made = restore_queue-QueueOk reports n b in run-QueueOk calls q (rw h at made)

next_from-listed :
    (order : List Str) (pending : Map Str Report) (id : Str) (r : Report)
    → listed id order ≡ true
    → get Str-discrete pending id ≡ some r
    → next_from order pending ≢ none
unfolding listed next_from
next_from-listed [] pending id r h g e = cc
next_from-listed (x ∷ order) pending id r h g e =
    ground (arith, next_from-listed order pending id r)

next_of_pending :
    (order : List Str) (pending : Map Str Report)
    → ((id : Str) (r : Report) → get Str-discrete pending id ≡ some r → listed id order ≡ true)
    → next_from order pending ≡ none
    → pending ≡ []
unfolding get
next_of_pending order [] h e = refl
next_of_pending order ((id, r) ∷ pending) h e =
    absurd
      (next_from-listed order ((id, r) ∷ pending) id r (h id r (ground arith)) (ground arith) e)

-- In a queue that satisfies `QueueOk`, `Next` has no report only if none is pending: no report is
-- lost from the order.
pub next_report-none : (q : Queue) → QueueOk q → next_report q ≡ none → q.pending ≡ []
unfolding next_report
next_report-none q v h = next_of_pending q.order q.pending v.in_order h
