-- ===== src/Relay/Peer/SingleUse.antt =====
-- internal/peerrelay/manager.go: a stream handle is used for one relay.
use paperboat_tunnel.Base.{
  ℕ, ◌<◌, ◌≡◌, ◌≢◌, Bool, List, [], ◌∷◌, Option, none, some, arith, if_cases, Option-cases, inl,
  inr,
}
use paperboat_tunnel.Base.Maps.{Map, get, get-put}
use paperboat_tunnel.Relay.Peer.{
  Admission, Manager, Relay, RelayKey, RelayKey-discrete, Role, StreamKey, StreamKey-discrete,
  attach_found, attach_stream, begin_relay_drain, close_manager, expire_found, expire_pending,
  finalize, finalize_found, is_some_time, prune_consumed, set_relay, stream_key,
}
use paperboat_tunnel.Relay.Peer.Capacity.{
  Call, attaches, closes, drains, expires, finalizes, run, step,
}

module _ (sk : StreamKey) (t : ℕ) where
  abbrev pub IsConsumed : Manager → Type 0
  IsConsumed m = get StreamKey-discrete m.consumed sk ≡ some t

  -- Calls that read a time before `t` behind the lock, and that finalize no relay of this stream.
  abbrev pub Before : Call → Type 0
  Before (attaches cancelled checked now a) = now < t
  Before (finalizes k) = stream_key k ≢ sk
  Before _ = Unit

  prune-consumed :
      (now : ℕ) (c : Map StreamKey ℕ)
      → now < t
      → get StreamKey-discrete c sk ≡ some t
      → get StreamKey-discrete (prune_consumed now c) sk ≡ some t
  unfolding get prune_consumed
  prune-consumed now [] e h = absurd (ground arith)
  prune-consumed now ((k, u) ∷ c) e h = ground (arith, prune-consumed now c e)

  attach_found-consumed :
      (o : Option Relay) (k : RelayKey) (role : Role) (m : Manager)
      → (attach_found o k role m).0.consumed ≡ m.consumed
  unfolding attach_found set_relay
  attach_found-consumed none k role m = ground arith
  attach_found-consumed (some r) k role m = ground arith

  attach-IsConsumed :
      (cancelled : Bool) (checked now : ℕ) (a : Admission) (m : Manager)
      → now < t
      → IsConsumed m
      → IsConsumed (attach_stream cancelled checked now a m).0
  unfolding attach_stream
  attach-IsConsumed cancelled checked now a m e h =
      let k : RelayKey = record { binding = a.binding; carrier = a.carrier } in
      ground (
        arith,
        h,
        prune-consumed now m.consumed e h,
        attach_found-consumed (get RelayKey-discrete m.relays k) k a.role
            (record m { consumed = prune_consumed now m.consumed }),
      )

  finalize-IsConsumed :
      (o : Option Relay) (k : RelayKey) (m : Manager)
      → stream_key k ≢ sk
      → IsConsumed m
      → IsConsumed (finalize_found o k m)
  unfolding finalize_found
  finalize-IsConsumed none k m e h = h
  finalize-IsConsumed (some r) k m e h =
      ground
        (arith, h, e, get-put StreamKey-discrete m.consumed (stream_key k) sk k.binding.expires_at)

  step-IsConsumed : (c : Call) (m : Manager) → Before c → IsConsumed m → IsConsumed (step c m)
  unfolding step finalize expire_pending expire_found set_relay begin_relay_drain close_manager
  step-IsConsumed (attaches cancelled checked now a) m e h =
      attach-IsConsumed cancelled checked now a m e h
  step-IsConsumed (finalizes k) m e h =
      finalize-IsConsumed (get RelayKey-discrete m.relays k) k m e h
  step-IsConsumed (expires k) m e h = elim (Option-cases (get RelayKey-discrete m.relays k)) [
    | inl q ↦ rw (q, expire_found) h
    | inr (r, q) ↦ rw (q, expire_found) (if_cases IsConsumed r.started (λ _. h) (λ _. h))
  ]
  step-IsConsumed drains m e h = h
  step-IsConsumed closes m e h = h

  abbrev pub AllBefore : List Call → Type 0
  AllBefore [] = Unit
  AllBefore (c ∷ cs) = Before c × AllBefore cs

  run-IsConsumed :
      (cs : List Call) (m : Manager) → AllBefore cs → IsConsumed m → IsConsumed (run cs m)
  unfolding run
  run-IsConsumed [] m e h = h
  run-IsConsumed (c ∷ cs) m e h = run-IsConsumed cs (step c m) e.1 (step-IsConsumed c m e.0 h)

refused-consumed :
    (cancelled : Bool) (checked now t : ℕ) (a : Admission) (m : Manager)
    → now < t
    → get StreamKey-discrete m.consumed
        (stream_key (record { binding = a.binding; carrier = a.carrier }))
      ≡ some t
    → (attach_stream cancelled checked now a m).1 ≢ none
unfolding attach_stream is_some_time
refused-consumed cancelled checked now t a m e h = λ q.
    let k : RelayKey = record { binding = a.binding; carrier = a.carrier } in
    ground (arith, h, q, prune-consumed (stream_key k) t now m.consumed e h)

-- Behind the end of a relay, and any calls that end no other relay of the same stream: no endpoint is
-- attached to the stream again, whatever else its admission says, as long as each clock reading of
-- these calls behind the lock is before the end of the binding.
pub finalize-single_use :
    (k : RelayKey) (r : Relay) (m : Manager) (cs : List Call) (cancelled : Bool) (checked now : ℕ)
    (a : Admission)
    → get RelayKey-discrete m.relays k ≡ some r
    → AllBefore (stream_key k) k.binding.expires_at cs
    → now < k.binding.expires_at
    → stream_key (record { binding = a.binding; carrier = a.carrier }) ≡ stream_key k
    → (attach_stream cancelled checked now a (run cs (finalize k m))).1 ≢ none
unfolding finalize finalize_found
finalize-single_use k r m cs cancelled checked now a h before early same_stream =
    let gone : IsConsumed (stream_key k) k.binding.expires_at (finalize k m) = ground (
      arith,
      h,
      get-put StreamKey-discrete m.consumed (stream_key k) (stream_key k) k.binding.expires_at,
    ) in
    let still = run-IsConsumed (stream_key k) k.binding.expires_at cs (finalize k m) before gone in
    refused-consumed cancelled checked now k.binding.expires_at a (run cs (finalize k m)) early
      (ground (arith, still, same_stream))
