-- ===== src/Usage/Counters/Accounting.antt =====
-- internal/usage/counter.go: the counts behind a run of updates.
use paperboat_tunnel.Base.{
  ℕ, ◌+◌, ◌-◌, ◌≤◌, ◌≡◌, refl, Bool, true, List, [], ◌∷◌, arith, All, same, if◌then◌else◌,
}
use paperboat_tunnel.Base.Maps.{get-put}
use paperboat_tunnel.Usage.Counters.{
  Counters, Key, Key-discrete, counter_identity, get_bytes, max_uint64, next_bytes, next_record,
  record_at, update,
}

abbrev pub same_counter : Key → Key → Bool
same_counter j k = same Key-discrete (counter_identity j) (counter_identity k)

pub update-bytes :
    (k j : Key) (bytes : ℕ) (add : Bool) (c : Counters)
    → get_bytes j (update k bytes add c).0
      ≡ (if same_counter k j then next_bytes add (get_bytes k c) bytes else get_bytes j c)
unfolding update get_bytes record_at next_record
update-bytes k j bytes add c = ground (
  arith,
  get-put Key-discrete c.values (counter_identity k) (counter_identity j)
      (next_record k bytes add (record_at c (counter_identity k))),
)

next_bytes-rise : (add : Bool) (old bytes : ℕ) → old ≤ max_uint64 → old ≤ next_bytes add old bytes
unfolding next_bytes
next_bytes-rise add old bytes h = ground arith

next_bytes-bound :
    (add : Bool) (old bytes : ℕ)
    → old ≤ max_uint64
    → bytes ≤ max_uint64
    → next_bytes add old bytes ≤ max_uint64
unfolding next_bytes
next_bytes-bound add old bytes h g = ground arith

-- The updates of some counters: a key, a number of bytes and whether they are added.
pub record Update : Type 0 where
  pub key : Key
  pub bytes : ℕ
  pub adds : Bool

unfoldable pub run : List Update → Counters → Counters
run [] c = c
run (u ∷ updates) c = run updates (update u.key u.bytes u.adds c).0

-- The sum of the increases that the updates of one counter return.
unfoldable pub increases : Key → List Update → Counters → ℕ
increases j [] c = 0
increases j (u ∷ updates) c =
    (if same_counter u.key j then (update u.key u.bytes u.adds c).2 else 0)
    + increases j updates (update u.key u.bytes u.adds c).0

pub same_counter-bytes :
    (k j : Key) (c : Counters) → same_counter k j ≡ true → get_bytes k c ≡ get_bytes j c
unfolding get_bytes record_at
same_counter-bytes k j c h = ground arith

update-increase :
    (k : Key) (bytes : ℕ) (add : Bool) (c : Counters)
    → (update k bytes add c).2 ≡ next_bytes add (get_bytes k c) bytes - get_bytes k c
unfolding update get_bytes next_record
update-increase k bytes add c = refl

-- For updates of at most 2^64 - 1 bytes on counters of at most that, the count of a key behind the
-- updates is the count before plus the increases that the updates of its counter returned, and
-- is at most 2^64 - 1 again.
pub run-increases :
    (j : Key) (updates : List Update) (c : Counters)
    → get_bytes j c ≤ max_uint64
    → All (λ u. u.bytes ≤ max_uint64) updates
    → (get_bytes j (run updates c) ≡ get_bytes j c + increases j updates c)
      × (get_bytes j (run updates c) ≤ max_uint64)
unfolding run increases
run-increases j [] c h fits = (omega arith, h)
run-increases j (u ∷ updates) c h fits =
    let after = update-bytes u.key j u.bytes u.adds c in
    let increase = update-increase u.key u.bytes u.adds c in
    let own = same_counter-bytes u.key j c in
    let rise = next_bytes-rise u.adds (get_bytes j c) u.bytes h in
    let bound = next_bytes-bound u.adds (get_bytes j c) u.bytes h fits.0 in
    let next = (update u.key u.bytes u.adds c).0 in
    let small : get_bytes j next ≤ max_uint64 = ground (arith, after, own, bound) in
    let rest = run-increases j updates next small fits.1 in
    (ground (arith, after, increase, own, rise, rest.0), rest.1)
