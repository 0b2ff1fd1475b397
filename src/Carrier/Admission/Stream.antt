-- ===== src/Carrier/Admission/Stream.antt =====
-- internal/datacarrier/admission.go: what the registry answers about streams and identities. The entries
-- of the map come in the order in which it is ranged over.
use paperboat_tunnel.Base.{
  ℕ, Bool, false, not, ◌&&◌, ◌||◌, List, [], ◌∷◌, Option, none, some, Result, ok, err, leb, ltb,
  ◌==◌, if◌then◌else◌, same,
}
use paperboat_tunnel.Base.Strings.{Str, codes, eq_str}
use paperboat_tunnel.Carrier.Admission.{
  Error, ExpectedAdmission, Identity, Identity-discrete, canceled, carrier_closed, conflict,
  expired, identity_mismatch, is_private, not_expected, route_denied, valid_identity,
}
use paperboat_tunnel.Carrier.Admission.Registry.{Registry}

-- What a stream asks for, of connectorprotocol.StreamOpen.
pub record StreamOpen : Type 0 where
  pub protocol : Str
  pub version : Str
  pub account_id : Str
  pub tunnel_id : Str
  pub connector_id : Str
  pub session_id : Str
  pub process_generation : ℕ
  pub generation : ℕ
  pub route_id : Str
  pub request_id : Str
  pub kind : Str

pub record PrivateAccessDecision : Type 0 where
  pub allowed : Bool
  pub expires_at : ℕ
  pub resource_id : Str
  pub route_id : Str
  pub operation_id : Str
  pub carrier_session_id : Str
  pub route_generation : ℕ
  pub process_generation : ℕ
  pub config_generation : ℕ
  pub protocol : Str

-- `Identity.matches`
unfoldable pub matches_open : Identity → StreamOpen → Bool
matches_open i wanted =
    eq_str wanted.account_id i.account_id
    && eq_str wanted.tunnel_id i.tunnel_id
    && eq_str wanted.connector_id i.connector_id
    && eq_str wanted.session_id i.session_id
    && wanted.process_generation == i.process_generation
    && wanted.generation == i.generation

unfoldable pub is_allowed : Option PrivateAccessDecision → ℕ → ExpectedAdmission → Bool
is_allowed none now a = false
is_allowed (some d) now a =
    d.allowed
    && not (d.expires_at == 0)
    && ltb now d.expires_at
    && eq_str d.resource_id a.preview_id
    && eq_str d.route_id a.route_id
    && eq_str d.operation_id a.operation_id
    && eq_str d.carrier_session_id a.identity.session_id
    && d.route_generation == a.route_revision
    && d.process_generation == a.identity.process_generation
    && d.config_generation == a.identity.generation
    && (eq_str d.protocol (codes "http") || eq_str d.protocol (codes "tcp"))

unfoldable pub is_candidate : Identity → StreamOpen → ExpectedAdmission → Bool
is_candidate i wanted a =
    a.admitted && same Identity-discrete a.identity i && eq_str a.route_id wanted.route_id

-- The loop: the first entry of the identity and the route decides.
unfoldable pub authorize_from :
    Option PrivateAccessDecision
    → ℕ
    → Identity
    → StreamOpen
    → List ExpectedAdmission
    → Result Error (Unit {0})
unfolding is_private
authorize_from decision now i wanted [] = err not_expected
authorize_from decision now i wanted (a ∷ ranged) =
    let rest = authorize_from decision now i wanted ranged in
    if not (is_candidate i wanted a)
    then rest
    else if leb a.expires_at now
    then err expired
    else if is_private a && not (is_allowed decision now a)
    then err route_denied
    else ok tt

-- The flag says that the context is cancelled; the decision is the one that the context carries.
unfoldable pub authorize_stream :
    Bool
    → Option PrivateAccessDecision
    → ℕ
    → Identity
    → StreamOpen
    → List ExpectedAdmission
    → Registry
    → Result Error (Unit {0})
authorize_stream cancelled decision now i wanted ranged r =
    if cancelled
    then err canceled
    else if not (valid_identity i) || not (matches_open i wanted)
    then err identity_mismatch
    else if r.closed
    then err carrier_closed
    else authorize_from decision now i wanted ranged

-- The filter of `ForIdentity`, in the order of the map.
unfoldable pub for_identity : Identity → ℕ → List ExpectedAdmission → List ExpectedAdmission
for_identity i now [] = []
for_identity i now (a ∷ ranged) =
    let rest = for_identity i now ranged in
    if a.admitted && same Identity-discrete a.identity i && ltb now a.expires_at
    then a ∷ rest
    else rest

-- The loop of `PeerBinding`: `is_named` says whether the certificate names the identity of an entry.
unfoldable pub binding_from :
    (ExpectedAdmission → Bool)
    → Str
    → Str
    → ℕ
    → Option Identity
    → List ExpectedAdmission
    → Result Error Identity
binding_from is_named key thumbprint now none [] = err not_expected
binding_from is_named key thumbprint now (some i) [] = ok i
binding_from is_named key thumbprint now found (a ∷ ranged) =
    let rest = binding_from is_named key thumbprint now found ranged in
    let first = binding_from is_named key thumbprint now (some a.identity) ranged in
    if not a.admitted
      || leb a.expires_at now
      || not (eq_str a.machine_key key)
      || not (eq_str a.machine_thumbprint thumbprint)
      || not (is_named a)
    then rest
    else elim found [
      | none ↦ first
      | some i ↦ if same Identity-discrete i a.identity then rest else err conflict
    ]

unfoldable pub peer_binding :
    (ExpectedAdmission → Bool)
    → Str
    → Str
    → ℕ
    → List ExpectedAdmission
    → Registry
    → Result Error Identity
peer_binding is_named key thumbprint now ranged r =
    if r.closed then err carrier_closed else binding_from is_named key thumbprint now none ranged
