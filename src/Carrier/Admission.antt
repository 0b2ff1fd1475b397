-- ===== src/Carrier/Admission.antt =====
-- internal/datacarrier/admission.go: `ExpectedAdmission` and its checks. Times are nanoseconds since
-- Go's zero time, which is 0.
pub mod Registry
pub mod Pull
pub mod Stream
pub mod Fits
pub mod Acknowledged
pub mod Kept
pub mod Peer
use paperboat_tunnel.Base.{
  ℕ, ◌-◌, ◌≡◌, Bool, true, false, not, ◌&&◌, ◌||◌, List, [], ◌∷◌, ◌++◌, Result, arith,
  if◌then◌else◌, ok, err, ◌>>◌, refuse_if, leb, ltb, ◌==◌, same, length, drop, ℕ_discrete,
}
use paperboat_tunnel.Base.Strings.{Str, Str-discrete, codes, eq_str, has_prefix, trim_suffix}
use paperboat_tunnel.Go.Text.{byte_at, contains_any, split, to_lower, trim_space, within}
use paperboat_tunnel.Connector.Identity.{all_chars, hash_pattern, is_key_char, valid_identifier}

pub data Error : Type 0 where
  invalid_config carrier_closed identity_mismatch route_denied canceled : Error
  not_expected expired conflict : Error

pub record Identity : Type 0 where
  pub account_id : Str
  pub host_id : Str
  pub tunnel_id : Str
  pub connector_id : Str
  pub session_id : Str
  pub process_generation : ℕ
  pub generation : ℕ

unfoldable pub Identity-discrete : Discrete Identity
Identity-discrete = hlevel (Str-discrete, ℕ_discrete)

unfoldable pub valid_identity : Identity → Bool
unfolding valid_identifier
valid_identity i =
    valid_identifier i.account_id
    && valid_identifier i.host_id
    && valid_identifier i.tunnel_id
    && valid_identifier i.connector_id
    && valid_identifier i.session_id
    && not (i.process_generation == 0)
    && not (i.generation == 0)

pub record ExpectedAdmission : Type 0 where
  pub schema : Str
  pub kind : Str
  pub edge_node_id : Str
  pub preview_id : Str
  pub operation_id : Str
  pub owner_device_id : Str
  pub owner_session_id : Str
  pub identity : Identity
  pub lease_generation : ℕ
  pub config_generation : ℕ
  pub config_content_hash : Str
  pub route_id : Str
  pub edge_process_epoch : Str
  pub server_spki : Str
  pub server_chain : Str
  pub access_mode : Str
  pub route_kind : Str
  pub hostname : Str
  pub route_revision : ℕ
  pub attachment_generation : ℕ
  pub endpoint : Str
  pub expires_at : ℕ
  pub machine_key : Str
  pub machine_thumbprint : Str
  pub admitted : Bool

-- The callees on a URL and on a key: whether the endpoint binds the hostname, and the error of
-- decodeMachinePublicKey.
pub record Checks : Type 0 where
  pub binds : Str → Str → Bool
  pub check_key : Str → Str → Result Error (Unit {0})

-- connectorprotocol.ValidateOpaqueEpoch
unfoldable pub valid_epoch : Str → Bool
unfolding all_chars is_key_char
valid_epoch value = leb 8 (length value) && leb (length value) 128 && all_chars is_key_char value

unfoldable pub is_host_char : ℕ → Bool
is_host_char c = c == b'-' || within b'a' b'z' c || within b'0' b'9' c

unfoldable pub is_label : Str → Bool
unfolding all_chars is_host_char
is_label label =
    not (eq_str label [])
    && leb (length label) 63
    && not (byte_at label 0 == b'-')
    && not (byte_at label (length label - 1) == b'-')
    && all_chars is_host_char label

unfoldable pub are_labels : List Str → Bool
unfolding is_label
are_labels [] = true
are_labels (label ∷ labels) = is_label label && are_labels labels

abbrev pub host_name : Str → Str
host_name value = to_lower (trim_suffix (trim_space value) (codes "."))

unfoldable pub valid_admission_host : Str → Bool
unfolding are_labels
valid_admission_host value =
    not (eq_str (host_name value) [])
    && leb (length (host_name value)) 253
    && not (contains_any (host_name value) (codes "/:@[] \t\r\n"))
    && are_labels (split (host_name value) b'.')

unfoldable pub is_any_hex : ℕ → Bool
is_any_hex c = within b'0' b'9' c || within b'a' b'f' c || within b'A' b'F' c

abbrev pub access_private : Str
access_private = codes "private"

unfoldable pub is_private : ExpectedAdmission → Bool
is_private a = eq_str a.access_mode access_private

unfoldable pub wanted_route : ExpectedAdmission → Str
unfolding is_private
wanted_route a =
    if is_private a then codes "preview_private_https_wss" else codes "preview_public_https_wss"

unfoldable pub validate_admission : Checks → ExpectedAdmission → ℕ → Str → Result Error (Unit {0})
unfolding valid_identifier valid_epoch valid_identity hash_pattern valid_admission_host all_chars
    is_any_hex wanted_route is_private
validate_admission checks a now node_id =
    refuse_if
      (not (eq_str a.schema (codes "paperboat.preview-tunnel/v1"))
        || not (eq_str a.kind (codes "preview_carrier_attachment"))
        || eq_str node_id []
        || not (eq_str a.edge_node_id node_id)
        || not (valid_identifier a.edge_node_id)
        || not (valid_epoch a.edge_process_epoch)
        || not (valid_identifier a.preview_id)
        || not (valid_identifier a.operation_id)
        || not (valid_identifier a.route_id)
        || not (valid_identifier a.owner_device_id)
        || not (valid_identifier a.owner_session_id)
        || not (valid_identity a.identity))
      not_expected
    >> refuse_if (not (eq_str a.identity.host_id a.owner_device_id)) conflict
    >> refuse_if
        (a.lease_generation == 0
          || a.config_generation == 0
          || a.route_revision == 0
          || a.attachment_generation == 0
          || not (eq_str a.access_mode (codes "public")) && not (is_private a)
          || not (eq_str a.route_kind (wanted_route a))
          || not (valid_admission_host a.hostname)
          || not (checks.binds a.endpoint a.hostname)
          || not (hash_pattern a.config_content_hash)
          || not (length a.server_spki == 71)
          || not (has_prefix a.server_spki (codes "sha256:"))
          || not (all_chars is_any_hex (drop 7 a.server_spki))
          || length a.server_chain == 0
          || ltb 65536 (length a.server_chain))
        not_expected
    >> refuse_if (a.expires_at == 0 || leb a.expires_at now) expired
    >> checks.check_key a.machine_key a.machine_thumbprint

-- The key of an admission: its operation and its route, with a zero byte between them.
unfoldable pub key_of : ExpectedAdmission → Str
key_of a = a.operation_id ++ 0 ∷ a.route_id

unfoldable pub identity_equal : ExpectedAdmission → ExpectedAdmission → Bool
identity_equal a b =
    same Identity-discrete a.identity b.identity
    && eq_str a.machine_key b.machine_key
    && eq_str a.machine_thumbprint b.machine_thumbprint

-- All that an admission binds; `admitted` is left out.
unfoldable pub exact_equal : ExpectedAdmission → ExpectedAdmission → Bool
exact_equal a b =
    eq_str a.schema b.schema
    && eq_str a.kind b.kind
    && eq_str a.edge_node_id b.edge_node_id
    && eq_str a.edge_process_epoch b.edge_process_epoch
    && eq_str a.server_spki b.server_spki
    && eq_str a.server_chain b.server_chain
    && eq_str a.preview_id b.preview_id
    && eq_str a.operation_id b.operation_id
    && eq_str a.owner_device_id b.owner_device_id
    && eq_str a.owner_session_id b.owner_session_id
    && same Identity-discrete a.identity b.identity
    && a.lease_generation == b.lease_generation
    && a.config_generation == b.config_generation
    && eq_str a.config_content_hash b.config_content_hash
    && eq_str a.route_id b.route_id
    && eq_str a.access_mode b.access_mode
    && eq_str a.route_kind b.route_kind
    && eq_str a.hostname b.hostname
    && a.route_revision == b.route_revision
    && a.attachment_generation == b.attachment_generation
    && eq_str a.endpoint b.endpoint
    && a.expires_at == b.expires_at
    && eq_str a.machine_key b.machine_key
    && eq_str a.machine_thumbprint b.machine_thumbprint

exact_equal_lem :
    (a b : ExpectedAdmission) → exact_equal a b ≡ true → a ≡ record b { admitted = a.admitted }
unfolding exact_equal
exact_equal_lem a b h = ground arith
