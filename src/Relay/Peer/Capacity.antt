-- ===== src/Relay/Peer/Capacity.antt =====
-- internal/peerrelay/manager.go: the capacities of a `Manager` behind any calls.
use paperboat_tunnel.Base.{
  ℕ, ◌+◌, ◌≤◌, ◌<◌, ◌≡◌, refl, Bool, true, false, not, ◌&&◌, ◌||◌, List, [], ◌∷◌, Option, none,
  some, ok, arith, leb, if◌then◌else◌, if_cases, length, same, Option-cases, inl, inr,
}
use mathlib.Core.Bool.{Bool-discrete}
use paperboat_tunnel.Base.Maps.{
  Map, get, put, delete, length-put_new, length-put_old, length-delete-le,
}
use paperboat_tunnel.Relay.Peer.{
  Config, new_pairing, Admission, Manager, Relay, RelayKey, RelayKey-discrete, Reply, Role,
  StreamKey, StreamKey-discrete, attach_found, attach_stream, begin_relay_drain, close_manager,
  count_started, expire_found, expire_pending, finalize, finalize_found, is_some_time, leg_of,
  new_relay, prune_consumed, set_relay, started_if_paired, stream_key, valid_admission, with_leg,
}

abbrev one_if : Bool → Relay → ℕ
one_if b r = if same Bool-discrete r.started b then 1 else 0

module _ (b : Bool) (k : RelayKey) (r : Relay) where
  count-put_new :
      (m : Map RelayKey Relay)
      → get RelayKey-discrete m k ≡ none
      → count_started b (put RelayKey-discrete m k r) ≡ count_started b m + one_if b r
  unfolding get put count_started
  count-put_new [] h = ground arith
  count-put_new ((j, q) ∷ m) h = ground (arith, count-put_new m)

  count-put_old :
      (m : Map RelayKey Relay) (o : Relay)
      → get RelayKey-discrete m k ≡ some o
      → count_started b (put RelayKey-discrete m k r) + one_if b o ≡ count_started b m + one_if b r
  unfolding get put count_started
  count-put_old [] o h = absurd (ground arith)
  count-put_old ((j, q) ∷ m) o h = ground (arith, count-put_old m o)

count-delete :
    (b : Bool) (k : RelayKey) (m : Map RelayKey Relay)
    → count_started b (delete RelayKey-discrete m k) ≤ count_started b m
unfolding delete count_started
count-delete b k [] = omega arith
count-delete b k ((j, q) ∷ m) = ground (arith, count-delete b k m)

length-delete-lt :
    (m : Map RelayKey Relay) (k : RelayKey) (r : Relay)
    → get RelayKey-discrete m k ≡ some r
    → length (delete RelayKey-discrete m k) < length m
unfolding get delete
length-delete-lt [] k r h = absurd (ground arith)
length-delete-lt ((j, q) ∷ m) k r h =
    ground (arith, length-delete-lt m k r, length-delete-le RelayKey-discrete m k)

length-prune_consumed : (now : ℕ) (m : Map StreamKey ℕ) → length (prune_consumed now m) ≤ length m
unfolding prune_consumed
length-prune_consumed now [] = omega arith
length-prune_consumed now ((k, t) ∷ m) = ground (arith, length-prune_consumed now m)

length-put_time :
    (m : Map StreamKey ℕ) (k : StreamKey) (t : ℕ)
    → length (put StreamKey-discrete m k t) ≤ length m + 1
length-put_time m k t = elim (Option-cases (get StreamKey-discrete m k)) [
  | inl e ↦ omega (arith, length-put_new StreamKey-discrete m k t e)
  | inr (u, e) ↦ omega (arith, length-put_old StreamKey-discrete m k t u e)
]

-- The counts of a manager are within its configuration.
pub record WithinLimits (m : Manager) : Type 0 where
  pub consumed : length m.consumed + length m.relays ≤ m.config.maximum_consumed
  pub waiting : count_started false m.relays ≤ m.config.maximum_pending
  pub active : count_started true m.relays ≤ m.config.maximum_active

new_pairing-WithinLimits : (c : Config) (m : Manager) → new_pairing c ≡ ok m → WithinLimits m
unfolding new_pairing count_started
new_pairing-WithinLimits c m h = record {
  consumed = ground arith;
  waiting = ground arith;
  active = ground arith;
}

attach_found-WithinLimits :
    (o : Option Relay) (k : RelayKey) (role : Role) (m : Manager)
    → get RelayKey-discrete m.relays k ≡ o
    → WithinLimits m
    → WithinLimits (attach_found o k role m).0
unfolding attach_found set_relay with_leg started_if_paired
attach_found-WithinLimits none k role m h v =
    let P : Reply → Type 0 = λ p. WithinLimits p.0 in
    if_cases P (leb m.config.maximum_consumed (length m.consumed + length m.relays)) (λ _. v)
      λ room.
        if_cases P (leb m.config.maximum_pending (count_started false m.relays)) (λ _. v)
          λ free. record {
            consumed =
                ground
                  (arith, length-put_new RelayKey-discrete m.relays k (with_leg role new_relay) h);
            waiting = ground (arith, count-put_new false k (with_leg role new_relay) m.relays h);
            active =
                ground (arith, v.active, count-put_new true k (with_leg role new_relay) m.relays h);
          }
attach_found-WithinLimits (some r) k role m h v =
    let P : Reply → Type 0 = λ p. WithinLimits p.0 in
    let next = started_if_paired (with_leg role r) in
    if_cases P r.has_expired (λ _. v)
      λ _.
        if_cases P (leg_of role r) (λ _. v)
          λ own.
            if_cases P
              (not r.started
                && (r.initiator_leg || r.host_leg)
                && leb m.config.maximum_active (count_started true m.relays))
              (λ _. v)
              λ room. record {
                consumed =
                    ground
                      (arith, v.consumed, length-put_old RelayKey-discrete m.relays k next r h);
                waiting = ground (arith, v.waiting, count-put_old false k next m.relays r h);
                active =
                    ground (arith, v.active, room, own, count-put_old true k next m.relays r h);
              }

attach_stream-WithinLimits :
    (cancelled : Bool) (checked now : ℕ) (a : Admission) (m : Manager)
    → WithinLimits m
    → WithinLimits (attach_stream cancelled checked now a m).0
unfolding attach_stream
attach_stream-WithinLimits cancelled checked now a m v =
    let P : Reply → Type 0 = λ p. WithinLimits p.0 in
    let k : RelayKey = record { binding = a.binding; carrier = a.carrier } in
    let pruned : WithinLimits (record m { consumed = prune_consumed now m.consumed }) = record {
      consumed = ground (arith, v.consumed, length-prune_consumed now m.consumed);
      waiting = v.waiting;
      active = v.active;
    } in
    if_cases P (not (valid_admission a checked)) (λ _. v)
      λ _.
        if_cases P cancelled (λ _. v)
          λ _.
            if_cases P m.closed (λ _. pruned)
              λ _.
                if_cases P m.draining (λ _. pruned)
                  λ _.
                    if_cases P
                      (is_some_time
                        (get StreamKey-discrete (prune_consumed now m.consumed) (stream_key k)))
                      (λ _. pruned)
                      (λ _.
                        attach_found-WithinLimits (get RelayKey-discrete m.relays k) k a.role
                          (record m { consumed = prune_consumed now m.consumed }) refl pruned)

finalize_found-WithinLimits :
    (o : Option Relay) (k : RelayKey) (m : Manager)
    → get RelayKey-discrete m.relays k ≡ o
    → WithinLimits m
    → WithinLimits (finalize_found o k m)
unfolding finalize_found
finalize_found-WithinLimits none k m h v = v
finalize_found-WithinLimits (some r) k m h v = record {
  consumed = omega (
    arith,
    v.consumed,
    length-delete-lt m.relays k r h,
    length-put_time m.consumed (stream_key k) k.binding.expires_at,
  );
  waiting = omega (arith, v.waiting, count-delete false k m.relays);
  active = omega (arith, v.active, count-delete true k m.relays);
}

expire_found-WithinLimits :
    (o : Option Relay) (k : RelayKey) (m : Manager)
    → get RelayKey-discrete m.relays k ≡ o
    → WithinLimits m
    → WithinLimits (expire_found o k m)
unfolding expire_found set_relay
expire_found-WithinLimits none k m h v = v
expire_found-WithinLimits (some r) k m h v =
    let next : Relay = record r { has_expired = true } in
    if_cases WithinLimits r.started (λ _. v)
      (λ _. record {
        consumed = omega (arith, v.consumed, length-put_old RelayKey-discrete m.relays k next r h);
        waiting = omega (arith, v.waiting, count-put_old false k next m.relays r h);
        active = omega (arith, v.active, count-put_old true k next m.relays r h);
      })

pub data Call : Type 0 where
  attaches : Bool → ℕ → ℕ → Admission → Call
  finalizes : RelayKey → Call
  expires : RelayKey → Call
  drains : Call
  closes : Call

unfoldable pub step : Call → Manager → Manager
step (attaches cancelled checked now a) m = (attach_stream cancelled checked now a m).0
step (finalizes k) m = finalize k m
step (expires k) m = expire_pending k m
step drains m = begin_relay_drain m
step closes m = close_manager m

unfoldable pub run : List Call → Manager → Manager
run [] m = m
run (c ∷ cs) m = run cs (step c m)

step-WithinLimits : (c : Call) (m : Manager) → WithinLimits m → WithinLimits (step c m)
unfolding step finalize expire_pending begin_relay_drain close_manager
step-WithinLimits (attaches cancelled checked now a) m v =
    attach_stream-WithinLimits cancelled checked now a m v
step-WithinLimits (finalizes k) m v =
    finalize_found-WithinLimits (get RelayKey-discrete m.relays k) k m refl v
step-WithinLimits (expires k) m v =
    expire_found-WithinLimits (get RelayKey-discrete m.relays k) k m refl v
step-WithinLimits drains m v = record {
  consumed = v.consumed;
  waiting = v.waiting;
  active = v.active;
}
step-WithinLimits closes m v = record {
  consumed = v.consumed;
  waiting = v.waiting;
  active = v.active;
}

run-WithinLimits : (cs : List Call) (m : Manager) → WithinLimits m → WithinLimits (run cs m)
unfolding run
run-WithinLimits [] m v = v
run-WithinLimits (c ∷ cs) m v = run-WithinLimits cs (step c m) (step-WithinLimits c m v)

-- Behind any calls on a new manager: the relays and the consumed streams together, the relays that
-- wait for their second endpoint, and those that run stay within the configured maxima.
pub new-WithinLimits :
    (c : Config) (m : Manager) (cs : List Call) → new_pairing c ≡ ok m → WithinLimits (run cs m)
new-WithinLimits c m cs h = run-WithinLimits cs m (new_pairing-WithinLimits c m h)
