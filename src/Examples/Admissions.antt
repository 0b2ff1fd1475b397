-- ===== src/Examples/Admissions.antt =====
-- internal/datacarrier/admission.go: one admission, from its pull to a stream.
use paperboat_tunnel.Base.{
  ◌≡◌, refl, sym, ap, ◌∙◌, Bool, true, false, List, [], ◌∷◌, none, some, ok, All, mem_cases,
  mem_nil, inl, inr,
}
use mathlib.Core.List.{Memᴰ}
use mathlib.Core.Path.{subst}
use paperboat_tunnel.Base.Maps.{delete, get, put}
use paperboat_tunnel.Base.Strings.{
  Str, Str-discrete, codes, contains, has_prefix, has_suffix, trim_suffix,
}
use paperboat_tunnel.Go.Text.{byte_at, contains_any, split, to_lower, trim_space}
use paperboat_tunnel.Connector.Identity.{
  all_chars, hash_pattern, identifier_pattern, is_alphanumeric, is_hex_char, is_identifier_char,
  is_key_char, valid_identifier,
}
use paperboat_tunnel.Carrier.Admission.{
  Checks, ExpectedAdmission, Identity, Identity-discrete, are_labels, exact_equal, is_any_hex,
  is_host_char, is_label, is_private, key_of, valid_admission_host, valid_epoch, valid_identity,
  validate_admission, wanted_route,
}
use paperboat_tunnel.Carrier.Admission.Pull.{
  add_new, checked_new, install_pending, installed, pendings, stand_in,
}
use paperboat_tunnel.Carrier.Admission.Registry.{
  Done, Registry, all_pending, is_exact, mark_admitted, mark_all, mark_one, new_expected,
  no_admission, or_zero,
}
use paperboat_tunnel.Carrier.Admission.Stream.{
  StreamOpen, authorize_from, authorize_stream, binding_from, is_candidate, matches_open,
  peer_binding,
}
use paperboat_tunnel.Carrier.Admission.Acknowledged.Streams.{
  Authorizes, Call, InForce, authorize_stream-acknowledged, installs, marks, run, step,
}
use paperboat_tunnel.Carrier.Admission.Kept.{install_pending-kept}
use paperboat_tunnel.Carrier.Admission.Peer.{IsBound, peer_binding_unique}

-- In place of package url and of the keys: each endpoint and each key passes.
abbrev checks : Checks
checks = record { binds = λ endpoint hostname. true; check_key = λ key thumbprint. ok tt }

abbrev identity : Identity
identity = record {
  account_id = codes "acc";
  host_id = codes "host";
  tunnel_id = codes "tun";
  connector_id = codes "con";
  session_id = codes "s1";
  process_generation = 4;
  generation = 5;
}

abbrev admission : Bool → ExpectedAdmission
admission admitted = record {
  schema = codes "paperboat.preview-tunnel/v1";
  kind = codes "preview_carrier_attachment";
  edge_node_id = codes "edge";
  preview_id = codes "pre";
  operation_id = codes "op";
  owner_device_id = codes "host";
  owner_session_id = codes "own";
  identity = identity;
  lease_generation = 1;
  config_generation = 5;
  config_content_hash =
      codes "sha256:0123456789abcdef0123456789abcdef0123456789abcdef0123456789abcdef";
  route_id = codes "route";
  edge_process_epoch = codes "epoch_0001";
  server_spki = codes "sha256:0123456789abcdef0123456789abcdef0123456789abcdef0123456789abcdef";
  server_chain = codes "pem";
  access_mode = codes "public";
  route_kind = codes "preview_public_https_wss";
  hostname = codes "a.test";
  route_revision = 1;
  attachment_generation = 1;
  endpoint = codes "https://a.test";
  expires_at = 900;
  machine_key = codes "key";
  machine_thumbprint = codes "thumb";
  admitted = admitted;
}

abbrev wanted : StreamOpen
wanted = record {
  protocol = [];
  version = [];
  account_id = codes "acc";
  tunnel_id = codes "tun";
  connector_id = codes "con";
  session_id = codes "s1";
  process_generation = 4;
  generation = 5;
  route_id = codes "route";
  request_id = codes "req";
  kind = codes "http";
}

abbrev empty : Registry
empty = record {
  node_id = codes "edge";
  process_epoch = codes "epoch_0001";
  maximum = 8;
  closed = false;
  by_key = [];
  pending = [];
}

abbrev serving : Registry
serving = record empty { by_key = (key_of (admission true), admission true) ∷ [] }

made : new_expected (codes "edge") (codes "epoch_0001") 8 ≡ ok empty
unfolding new_expected valid_epoch is_key_char valid_identifier identifier_pattern is_alphanumeric
    is_identifier_char all_chars
made = refl

host_fits : valid_admission_host (codes "a.test") ≡ true
unfolding valid_admission_host are_labels is_label is_host_char all_chars to_lower trim_suffix
    has_suffix trim_space contains_any contains split byte_at Str-discrete
host_fits = refl

valid : validate_admission checks (admission false) 100 (codes "edge") ≡ ok tt
unfolding validate_admission valid_epoch is_key_char valid_identity valid_identifier
    identifier_pattern is_alphanumeric is_identifier_char all_chars hash_pattern is_hex_char
    is_any_hex has_prefix wanted_route is_private Str-discrete
valid = rw host_fits refl

pulled : install_pending checks 100 (admission false ∷ []) empty ≡ (
  record empty {
    by_key = (key_of (admission false), admission false) ∷ [];
    pending = (key_of (admission false), admission false) ∷ [];
  },
  none,
)
unfolding install_pending installed pendings checked_new add_new stand_in key_of get put
    Str-discrete
pulled = rw valid refl

acknowledged :
    mark_admitted (admission true ∷ []) (record empty {
      by_key = (key_of (admission false), admission false) ∷ [];
      pending = (key_of (admission false), admission false) ∷ [];
    })
    ≡ (serving, none)
unfolding mark_admitted all_pending is_exact mark_all mark_one or_zero exact_equal key_of get put
    delete Str-discrete Identity-discrete
acknowledged = refl

abbrev calls : List Call
calls = installs checks 100 (admission false ∷ []) ∷ marks (admission true ∷ []) ∷ []

ran : run calls empty ≡ serving
unfolding run step
ran =
    ap (λ (d : Done). (mark_admitted (admission true ∷ []) d.0).0) pulled
    ∙ ap (λ (d : Done). d.0) acknowledged

abbrev InRun : ExpectedAdmission → Type 0
InRun a = (k : Str) × Memᴰ (k, a) (run calls empty).by_key

entries : (a : ExpectedAdmission) → Memᴰ a (admission true ∷ []) → InRun a
entries a h = elim (mem_cases h) [
  | inl e ↦ (
    key_of (admission true),
    subst (λ (r : Registry). Memᴰ (key_of (admission true), a) r.by_key) (sym ran)
        (Memᴰ.head (ap (λ (x : ExpectedAdmission). (key_of (admission true), x)) e)),
  )
  | inr e ↦ absurd (mem_nil e)
]

authorized_serving :
    authorize_stream false none 100 identity wanted (admission true ∷ []) serving ≡ ok tt
unfolding authorize_stream authorize_from is_candidate matches_open is_private valid_identity
    valid_identifier identifier_pattern is_alphanumeric is_identifier_char all_chars Str-discrete
    Identity-discrete
authorized_serving = refl

authorized :
    authorize_stream false none 100 identity wanted (admission true ∷ []) (run calls empty) ≡ ok tt
authorized =
    subst
      (λ (r : Registry).
        authorize_stream false none 100 identity wanted (admission true ∷ []) r ≡ ok tt)
      (sym ran) authorized_serving

authorize_stream-acknowledged_example :
    (a : ExpectedAdmission) × Memᴰ (key_of a, a) (run calls empty).by_key
    × InForce calls empty a
    × Authorizes none 100 identity wanted a
    × (matches_open a.identity wanted ≡ true)
    × ((run calls empty).closed ≡ false)
authorize_stream-acknowledged_example =
    authorize_stream-acknowledged (codes "edge") (codes "epoch_0001") 8 empty calls none 100
      identity wanted (admission true ∷ []) made entries authorized

there : get Str-discrete serving.by_key (key_of (admission true)) ≡ some (admission true)
unfolding get key_of Str-discrete
there = refl

install_pending-kept_example :
    get Str-discrete
      (install_pending checks 100 (admission false ∷ []) serving).0.by_key
      (key_of (admission true))
    ≡ some (admission true)
install_pending-kept_example =
    install_pending-kept checks 100 (key_of (admission true)) (admission true) refl
      (admission false ∷ []) serving there

bound :
    peer_binding (λ a. true) (codes "key") (codes "thumb") 100 (admission true ∷ []) serving
    ≡ ok identity
unfolding peer_binding binding_from Str-discrete
bound = refl

peer_binding_unique_example :
    ((a : ExpectedAdmission) × Memᴰ a (admission true ∷ [])
      × IsBound (λ b. true) (codes "key") (codes "thumb") 100 a
      × (a.identity ≡ identity))
    × All
        (λ a. IsBound (λ b. true) (codes "key") (codes "thumb") 100 a → a.identity ≡ identity)
        (admission true ∷ [])
    × (serving.closed ≡ false)
peer_binding_unique_example =
    peer_binding_unique (λ a. true) (codes "key") (codes "thumb") 100 identity (admission true ∷ [])
      serving bound

-- MarkAdmitted with an admission twice replaces its entry by the empty admission.
test_marked_twice :
    (mark_all
      (admission true ∷ admission true ∷ [])
      (record empty { pending = (key_of (admission false), admission false) ∷ [] })).by_key
    ≡ (key_of (admission true), record no_admission { admitted = true }) ∷ []
unfolding mark_all mark_one or_zero key_of get put delete Str-discrete
test_marked_twice = refl
