-- ===== src/Usage/Counters/Restored.antt =====
-- internal/usage/counter.go: the baselines of restored counters.
use paperboat_tunnel.Base.{
  ℕ, ◌≤◌, ◌≡◌, ◌⊎◌, true, List, [], ◌∷◌, some, arith, Option-cases, inl, inr, ltb, same, All,
  if_cases,
}
use paperboat_tunnel.Base.Maps.{Map, get, put, get-put}
use paperboat_tunnel.Usage.Counters.{
  CounterRecord, Counters, Key, Key-discrete, add, baseline, counter_identity, get_bytes,
  max_uint64, new_counters, next_bytes, or_zero, partition, raise, record_at, restore_counters,
  sum_partitions, update, is_restorable,
}
use paperboat_tunnel.Usage.Counters.Accounting.{same_counter-bytes, update-bytes}

-- No baseline is above its count, and the counts fit.
pub record Covered (c : Counters) : Type 0 where
  pub below :
      (k : Key) (v : ℕ)
      → get Key-discrete c.restored_baseline (counter_identity k) ≡ some v
      → v ≤ get_bytes k c
  pub fits : (k : Key) → get_bytes k c ≤ max_uint64

raise-get :
    (m : Map Key ℕ) (k j : Key) (b v : ℕ)
    → get Key-discrete (raise m k b) j ≡ some v
    → (get Key-discrete m j ≡ some v) ⊎ ((k ≡ j) × (v ≡ b))
unfolding raise
raise-get m k j b v h = ground (arith, get-put Key-discrete m k j b)

module _ (k : Key) (b : ℕ) (c : Counters) (v : Covered c) (small : b ≤ max_uint64) where
  abbrev added : Counters
  added = (add k b c).0

  added-bytes :
      (j : Key)
      → (get_bytes j c ≤ get_bytes j added)
        × (get_bytes j added ≤ max_uint64)
        × (counter_identity k ≡ counter_identity j → b ≤ get_bytes j added)
  unfolding add next_bytes
  added-bytes j =
      let h = update-bytes k j b true c in
      let own = same_counter-bytes k j c in
      let f = v.fits j in
      (ground (arith, h, own, f), ground (arith, h, own, f), λ e. ground (arith, h, own, f, e))

  -- One turn of the second loop.
  turn-Covered :
      Covered
        (record added { restored_baseline = raise added.restored_baseline (counter_identity k) b })
  unfolding get_bytes record_at add update
  turn-Covered = record {
    below = λ j x h.
        let after = added-bytes j in
        elim (raise-get c.restored_baseline (counter_identity k) (counter_identity j) b x h) [
          | inl e ↦ ground (arith, v.below j x e, after.0)
          | inr (e, q) ↦ ground (arith, after.2, e, q)
        ];
    fits = λ j. (added-bytes j).1;
  }

abbrev Fits : Map Key ℕ → Type 0
Fits = All (λ p. p.1 ≤ max_uint64)

put-Fits :
    (m : Map Key ℕ) (k : Key) (b : ℕ) → Fits m → b ≤ max_uint64 → Fits (put Key-discrete m k b)
unfolding put
put-Fits [] k b f small = (small, tt)
put-Fits ((j, n) ∷ m) k b f small =
    if_cases Fits (same Key-discrete j k) (λ _. (small, f.1)) (λ _. (f.0, put-Fits m k b f.1 small))

raise-Fits : (m : Map Key ℕ) (k : Key) (b : ℕ) → Fits m → b ≤ max_uint64 → Fits (raise m k b)
unfolding raise
raise-Fits m k b f small =
    if_cases Fits (ltb (or_zero (get Key-discrete m k)) b) (λ _. put-Fits m k b f small) (λ _. f)

partition-Fits :
    (records : List CounterRecord) (m : Map Key ℕ)
    → All (λ r. r.bytes ≤ max_uint64) records
    → Fits m
    → Fits (partition records m)
unfolding partition
partition-Fits [] m small f = f
partition-Fits (r ∷ records) m small f =
    partition-Fits records _ small.1
      (if_cases Fits (is_restorable r.key) (λ _. raise-Fits m r.key r.bytes f small.0) (λ _. f))

sum_partitions-Covered :
    (m : Map Key ℕ) (c : Counters) → Covered c → Fits m → Covered (sum_partitions m c)
unfolding sum_partitions
sum_partitions-Covered [] c v f = v
sum_partitions-Covered (p ∷ m) c v f = sum_partitions-Covered m _ (turn-Covered p.0 p.1 c v f.0) f.1

new_counters-Covered : Covered new_counters
unfolding get get_bytes record_at
new_counters-Covered = record { below = λ k x h. absurd (ground arith); fits = λ k. omega arith }

-- For restored records of at most 2^64 - 1 bytes, what the counters take as already acknowledged of
-- a key never exceeds its count.
pub restored-baseline :
    (records : List CounterRecord) (k : Key)
    → All (λ r. r.bytes ≤ max_uint64) records
    → baseline
        (restore_counters records)
        (record { key = k; bytes = get_bytes k (restore_counters records) })
      ≤ get_bytes k (restore_counters records)
unfolding baseline restore_counters
restored-baseline records k small =
    let v =
      sum_partitions-Covered (partition records []) new_counters new_counters-Covered
        (partition-Fits records [] small tt) in
    elim (Option-cases
      (get Key-discrete (restore_counters records).restored_baseline (counter_identity k))) [
        | inl e ↦ rw (e, baseline) (omega arith)
        | inr (x, e) ↦ rw (e, baseline) (v.below k x e)
      ]
