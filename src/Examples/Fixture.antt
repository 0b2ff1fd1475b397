-- ===== src/Examples/Fixture.antt =====
-- internal/connectorprotocol: a hello of one connector, what it is checked against, and its session.
use paperboat_tunnel.Base.{ℕ, ◌*◌, true, List, [], ◌∷◌, some}
use paperboat_tunnel.Base.Strings.{Str, codes}
use paperboat_tunnel.Connector.Auth.{AuthRequest, AuthResult}
use paperboat_tunnel.Connector.Capability.{required_capabilities}
use paperboat_tunnel.Connector.Message.{Documents, Readiness, Snapshot, second}
use paperboat_tunnel.Connector.Registry.{Sessions}
use paperboat_tunnel.Connector.Session.{ServerConfig, ServerSession}
use paperboat_tunnel.Connector.Session.Accept.{Hello, new_session, protocol_name, ref_of}

-- In place of JSON and SHA-256: each payload is canonical and has one digest.
abbrev pub docs : Documents
docs = record {
  canonical_json = λ payload size. some payload;
  digest = λ payload. codes "0123456789abcdef0123456789abcdef0123456789abcdef0123456789abcdef";
  is_config = λ payload tunnel generation. true;
}

abbrev pub now : ℕ
now = 1000 * second

abbrev pub thumbprint : Str
thumbprint = codes "0123456789012345678901234567890123456789abc"

abbrev pub capabilities : List Str
capabilities = codes "connector.drain.v1" ∷ required_capabilities

abbrev pub request : AuthRequest
request = record {
  account_id = codes "acc";
  tunnel_id = codes "tun";
  connector_id = codes "con";
  host_id = codes "host";
  identity_key_id = codes "ed25519:0123456789012345678901234567890123456789abc";
  identity_key_thumbprint = thumbprint;
  process_generation = 4;
  credential_generation = 1;
  nonce = codes "0123456789abcdef";
  signed_proof = codes "0123456789abcdef0123456789abcdef";
  issued_at = 999 * second;
  expires_at = 1060 * second;
}

abbrev pub hello : Hello
hello = record {
  protocol = protocol_name;
  min_version = codes "1.0";
  max_version = codes "1.3";
  account_id = codes "acc";
  tunnel_id = codes "tun";
  connector_id = codes "con";
  host_id = codes "host";
  process_generation = 4;
  capabilities = capabilities;
  auth = request;
}

abbrev pub credential : AuthResult
credential = record {
  account_id = codes "acc";
  tunnel_id = codes "tun";
  connector_id = codes "con";
  session_id = [];
  host_id = codes "host";
  identity_key_id = codes "ed25519:0123456789012345678901234567890123456789abc";
  identity_key_thumbprint = thumbprint;
  process_generation = 4;
  credential_generation = 1;
  credential_expires_at = 4600 * second;
  lease_expires_at = 1060 * second;
}

abbrev pub config_of : ℕ → Snapshot
config_of generation = record {
  account_id = [];
  tunnel_id = codes "tun";
  connector_id = [];
  session_id = [];
  process_generation = 0;
  generation = generation;
  content_hash = codes "sha256:0123456789abcdef0123456789abcdef0123456789abcdef0123456789abcdef";
  payload = codes "{}";
}

abbrev pub server : ServerConfig
server = record {
  capabilities = capabilities;
  lease_duration = 45 * second;
  heartbeat_interval = 5 * second;
}

abbrev pub session : ServerSession
session =
    new_session server now hello (codes "1.0") capabilities credential (config_of 5) (codes "s1")

abbrev pub sessions : Sessions
sessions = (codes "con", ref_of hello (codes "s1")) ∷ []

abbrev pub report_of : ℕ → Readiness
report_of generation = record {
  account_id = codes "acc";
  session_id = codes "s1";
  tunnel_id = codes "tun";
  connector_id = codes "con";
  process_generation = 4;
  generation = generation;
  content_hash = (config_of generation).content_hash;
  edge_ready = true;
  route_ready = true;
  origin_ready = true;
}
