-- ===== src/Examples/Pairing.antt =====
-- internal/peerrelay/manager.go: a relay is paired, ends, and is asked for again.
use paperboat_tunnel.Base.{◌≡◌, ◌≢◌, refl, true, false, List, [], ◌∷◌, none, some, ok, arith}
use paperboat_tunnel.Base.Strings.{Str-discrete, codes}
use paperboat_tunnel.Base.Maps.{get, put, delete}
use paperboat_tunnel.Relay.Peer.{
  Admission, Binding, Config, Manager, RelayKey, attach_found, attach_stream, count_started,
  finalize, host, initiator, quic, set_relay, started_if_paired, stream_key, valid_admission,
  config_valid, new_pairing, with_default, with_leg, Relay, RelayKey-discrete, StreamKey-discrete,
  Carrier-discrete, prune_consumed, is_some_time, Role,
}
use paperboat_tunnel.Relay.Peer.Capacity.{
  Call, WithinLimits, attaches, expires, finalizes, run, new-WithinLimits, step,
}
use paperboat_tunnel.Relay.Peer.SingleUse.{finalize-single_use}

abbrev binding : Binding
binding = record {
  route_allocation = codes "aaaaaaaaaaaaaaaa";
  stream_handle = codes "hhhhhhhhhhhhhhhh";
  environment_id = codes "env";
  route_id = codes "route";
  route_revision = 1;
  intent_id = codes "intent";
  attempt = 1;
  network = 1;
  expires_at = 100;
  maximum_bytes = 4096;
}

abbrev from : Role → Admission
from role = record { binding = binding; role = role; carrier = quic }

abbrev key : RelayKey
key = record { binding = binding; carrier = quic }

abbrev config : Config
config = record {
  maximum_pending = 1;
  maximum_active = 1;
  maximum_consumed = 2;
  buffer_bytes = 4096;
  report_timeout = 1000000000;
}

abbrev empty : Manager
empty = record { config = config; relays = []; consumed = []; draining = false; closed = false }

created : new_pairing config ≡ ok empty
unfolding new_pairing with_default config_valid
created = refl

abbrev calls : List Call
calls =
    attaches false 10 10 (from initiator)
    ∷ attaches false 20 20 (from host)
    ∷ finalizes key
    ∷ attaches false 30 30 (from host)
    ∷ []

new-WithinLimits_example : WithinLimits (run calls empty)
new-WithinLimits_example = new-WithinLimits config empty calls created

abbrev paired : Relay
paired = record { initiator_leg = true; host_leg = true; started = true; has_expired = false }

abbrev serving : Manager
serving = record {
  config = config;
  relays = (key, paired) ∷ [];
  consumed = [];
  draining = false;
  closed = false;
}

served :
    run (attaches false 10 10 (from initiator) ∷ attaches false 20 20 (from host) ∷ []) empty
    ≡ serving
unfolding run step attach_stream attach_found valid_admission count_started set_relay
    started_if_paired with_leg get put delete prune_consumed is_some_time stream_key
    RelayKey-discrete StreamKey-discrete Carrier-discrete Str-discrete
served = refl

-- The same stream, with another attempt.
abbrev retried : Admission
retried = record { binding = record binding { attempt = 2 }; role = host; carrier = quic }

found : get RelayKey-discrete serving.relays key ≡ some paired
unfolding get RelayKey-discrete Carrier-discrete Str-discrete
found = refl

finalize-single_use_example :
    (attach_stream false 50 50 retried
      (run (attaches false 40 40 (from initiator) ∷ expires key ∷ []) (finalize key serving))).1
    ≢ none
unfolding stream_key
finalize-single_use_example =
    finalize-single_use key paired serving
      (attaches false 40 40 (from initiator) ∷ expires key ∷ []) false 50 50 retried found
      (omega arith, (tt, tt)) (omega arith) refl
