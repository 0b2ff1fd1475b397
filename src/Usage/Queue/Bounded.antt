-- ===== src/Usage/Queue/Bounded.antt =====
-- internal/usage/counter.go: the bounds of the report queue, and that each pending report is in its
-- order.
use paperboat_tunnel.Base.{
  ◌+◌, ◌-◌, ◌≤◌, ◌≡◌, ◌≢◌, refl, Bool, true, false, ◌||◌, List, [], ◌∷◌, ◌++◌, Option, none, some,
  arith, Option-cases, inl, inr, Result, ok, err, if_cases, ltb, leb, if◌then◌else◌, length, ℤ,
  ltbℤ, pos,
}
use paperboat_tunnel.Base.Maps.{get, put, delete, get-put, get-delete, length-delete-le}
use paperboat_tunnel.Base.Strings.{Str, Str-discrete, eq_str}
use paperboat_tunnel.Usage.Queue.{
  Error, Queue, Report, ack, ack_found, append_report, enqueue, enqueue_found, enqueue_latest,
  is_malformed, latest_from, new_queue, queue_full, rename_first, replace_report, same_counter,
  same_report,
}
use paperboat_tunnel.Usage.Queue.Sizes.{
  length-delete, length-put_le, total, total-delete, total-put,
}

unfoldable pub listed : Str → List Str → Bool
listed id [] = false
listed id (x ∷ order) = eq_str x id || listed id order

-- The payloads fit in the bytes that are counted, which fit in the maximum, the reports are few
-- enough, and each pending report is in the order.
pub record QueueOk (q : Queue) : Type 0 where
  pub held : total q.pending ≤ q.bytes
  pub fits : q.bytes ≤ q.max_bytes
  pub few : length q.pending ≤ q.max_reports
  pub in_order :
      (id : Str) (r : Report) → get Str-discrete q.pending id ≡ some r → listed id q.order ≡ true

abbrev pub Keeps : Result Error Queue → Type 0
Keeps (ok q) = QueueOk q
Keeps (err e) = Unit

listed-append :
    (id new : Str) (order : List Str)
    → listed id (order ++ (new ∷ [])) ≡ (listed id order || eq_str new id)
unfolding listed
listed-append id new [] = ground arith
listed-append id new (x ∷ order) = ground (arith, listed-append id new order)

rename_first-others :
    (old new id : Str) (order : List Str)
    → old ≢ id
    → listed id order ≡ true
    → listed id (rename_first old new order) ≡ true
unfolding listed rename_first
rename_first-others old new id [] n h = h
rename_first-others old new id (x ∷ order) n h =
    ground (arith, rename_first-others old new id order)

rename_first-new :
    (old new : Str) (order : List Str)
    → listed old order ≡ true
    → listed new (rename_first old new order) ≡ true
unfolding listed rename_first
rename_first-new old new [] h = h
rename_first-new old new (x ∷ order) h = ground (arith, rename_first-new old new order)

append_report-QueueOk :
    (r : Report) (q : Queue)
    → QueueOk q
    → length r.payload ≤ q.max_bytes
    → Keeps (append_report r q)
unfolding append_report
append_report-QueueOk r q v small =
    if_cases Keeps
      (leb q.max_reports (length q.pending) || ltb (q.max_bytes - length r.payload) q.bytes)
      (λ _. tt)
      (λ room. record {
        held = omega (arith, v.held, total-put q.pending r.operation_id r);
        fits = ground (arith, v.fits);
        few = ground (arith, length-put_le q.pending r.operation_id r);
        in_order = λ id s h. ground (
          arith,
          listed-append id r.operation_id q.order,
          get-put Str-discrete q.pending r.operation_id id r,
          v.in_order id s,
        );
      })

enqueue_found-QueueOk :
    (o : Option Report) (r : Report) (q : Queue)
    → QueueOk q
    → length r.payload ≤ q.max_bytes
    → Keeps (enqueue_found o r q)
unfolding enqueue_found
enqueue_found-QueueOk none r q v small = append_report-QueueOk r q v small
enqueue_found-QueueOk (some s) r q v small = if_cases Keeps (same_report s r) (λ _. v) (λ _. tt)

pub enqueue-QueueOk : (r : Report) (q : Queue) → QueueOk q → Keeps (enqueue r q)
unfolding enqueue is_malformed
enqueue-QueueOk r q v =
    if_cases Keeps (is_malformed r q) (λ _. tt)
      (λ fine. enqueue_found-QueueOk _ r q v (ground arith))

replace_report-QueueOk :
    (id : Str) (s r : Report) (q : Queue)
    → QueueOk q
    → length r.payload ≤ q.max_bytes
    → get Str-discrete q.pending id ≡ some s
    → Keeps (replace_report id s r q)
unfolding replace_report
replace_report-QueueOk id s r q v small h =
    let left = delete Str-discrete q.pending id in
    let gone = total-delete q.pending id s h in
    if_cases Keeps (leb r.bytes s.bytes)
      {y = if ltb q.bytes (length s.payload)
          || ltb (q.max_bytes - length r.payload) (q.bytes - length s.payload)
        then err queue_full
        else ok (record q {
          pending = put Str-discrete left r.operation_id r;
          bytes = q.bytes - length s.payload + length r.payload;
          order = rename_first id r.operation_id q.order;
        })}
      (λ _. v)
      (λ _.
        if_cases Keeps
          (ltb q.bytes (length s.payload)
            || ltb (q.max_bytes - length r.payload) (q.bytes - length s.payload))
          (λ _. tt)
          (λ room. record {
            held = omega (arith, v.held, gone, total-put left r.operation_id r);
            fits = ground (arith, v.fits);
            few =
                omega (
                  arith,
                  v.few,
                  length-put_le left r.operation_id r,
                  length-delete q.pending id s h,
                );
            in_order = λ i t e. ground (
              arith,
              get-put Str-discrete left r.operation_id i r,
              get-delete Str-discrete q.pending id i,
              v.in_order i t,
              v.in_order id s h,
              rename_first-new id r.operation_id q.order,
              rename_first-others id r.operation_id i q.order,
            );
          }))

latest_from-QueueOk :
    (keys : List Str) (r : Report) (q : Queue)
    → QueueOk q
    → length r.payload ≤ q.max_bytes
    → Keeps (latest_from keys r q)
unfolding latest_from
latest_from-QueueOk [] r q v small = append_report-QueueOk r q v small
latest_from-QueueOk (id ∷ keys) r q v small =
    let rest = latest_from-QueueOk keys r q v small in
    elim (Option-cases (get Str-discrete q.pending id)) [
      | inl e ↦ rw (e, latest_from) rest
      | inr (s, e) ↦
          rw (e, latest_from)
            (if_cases Keeps (same_counter s r) (λ _. replace_report-QueueOk id s r q v small e)
              (λ _. rest))
    ]

pub enqueue_latest-QueueOk :
    (keys : List Str) (r : Report) (q : Queue) → QueueOk q → Keeps (enqueue_latest keys r q)
unfolding enqueue_latest is_malformed
enqueue_latest-QueueOk keys r q v =
    if_cases Keeps (is_malformed r q) (λ _. tt)
      (λ fine. latest_from-QueueOk keys r q v (ground arith))

ack_found-QueueOk :
    (o : Option Report) (id : Str) (q : Queue)
    → QueueOk q
    → get Str-discrete q.pending id ≡ o
    → QueueOk (ack_found o id q).0
unfolding ack_found
ack_found-QueueOk none id q v h = v
ack_found-QueueOk (some r) id q v h = record {
  held = omega (arith, v.held, total-delete q.pending id r h);
  fits = omega (arith, v.fits);
  few = omega (arith, v.few, length-delete-le Str-discrete q.pending id);
  in_order = λ i t e. ground (arith, get-delete Str-discrete q.pending id i, v.in_order i t);
}

pub ack-QueueOk : (id : Str) (q : Queue) → QueueOk q → QueueOk (ack id q).0
unfolding ack
ack-QueueOk id q v = ack_found-QueueOk _ id q v refl

pub new_queue-QueueOk : (n b : ℤ) → Keeps (new_queue n b)
unfolding new_queue get total
new_queue-QueueOk n b =
    if_cases Keeps (ltbℤ n (pos 1) || ltbℤ b (pos 1)) (λ _. tt)
      λ _. record {
        held = omega arith;
        fits = omega arith;
        few = omega arith;
        in_order = λ id r h. absurd (ground arith);
      }
