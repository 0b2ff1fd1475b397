-- ===== src/Examples/Handshake.antt =====
-- internal/connectorprotocol: the hello is accepted.
use paperboat_tunnel.Base.{◌≤◌, ◌≡◌, refl, true, ◌&&◌, [], ◌∷◌, some, ok, length}
use paperboat_tunnel.Base.Strings.{Str, Str-discrete, codes, contains, has_prefix}
use paperboat_tunnel.Connector.Auth.{
  validate_auth, validate_result, is_result_shaped, validate_lease,
}
use paperboat_tunnel.Connector.Capability.{
  are_distinct, has_all, has_capability, negotiate_capabilities, negotiate_version, supported_of,
  validate_capabilities, negotiated, capability_pattern, digits_value, is_capability_char,
  is_compatible, is_digit, parse_number, parse_parts, parse_version, select_version,
}
use paperboat_tunnel.Connector.Identity.{
  valid_identifier, identifier_pattern, is_alphanumeric, is_identifier_char, all_chars,
  valid_identity_key, identity_key_id_pattern, identity_thumbprint_pattern, is_key_char,
  valid_nonce, valid_proof, is_one_line, valid_if_set, hash_pattern, is_hex_char,
}
use paperboat_tunnel.Go.Text.{contains_any, split, trim_space}
use paperboat_tunnel.Connector.Capability.Common.{negotiate_capabilities-common}
use paperboat_tunnel.Connector.Message.{validate_snapshot}
use paperboat_tunnel.Connector.Session.Accept.{
  first_expiry, first_lease, is_result_for, prepare, validate_hello,
}
use paperboat_tunnel.Connector.Session.Invariant.{SessionOk}
use paperboat_tunnel.Connector.Session.Invariant.Runs.{offers, reached-SessionOk, reports, run}
use paperboat_tunnel.Examples.Fixture.{
  docs, now, capabilities, request, hello, credential, config_of, server, session, sessions,
  report_of,
}

agreed : negotiate_version hello.min_version hello.max_version ≡ ok (codes "1.0")
unfolding negotiate_version parse_version select_version parse_parts parse_number split is_digit
    all_chars digits_value is_compatible
agreed = refl

valid_capabilities : validate_capabilities capabilities ≡ ok tt
unfolding validate_capabilities are_distinct has_all has_capability capability_pattern
    is_capability_char all_chars Str-discrete
valid_capabilities = refl

negotiated_all : negotiate_capabilities capabilities capabilities ≡ ok capabilities
unfolding negotiate_capabilities negotiated supported_of has_capability Str-discrete
negotiated_all = rw valid_capabilities refl

valid_request : validate_auth request now ≡ ok tt
unfolding validate_auth valid_identifier identifier_pattern is_alphanumeric is_identifier_char
    all_chars Str-discrete valid_identity_key identity_key_id_pattern identity_thumbprint_pattern
    is_key_char has_prefix valid_nonce valid_proof is_one_line trim_space contains_any contains
valid_request = refl

valid_hello : validate_hello hello now ≡ ok tt
unfolding validate_hello valid_identifier identifier_pattern is_alphanumeric is_identifier_char
    all_chars Str-discrete
valid_hello = rw (agreed, valid_capabilities, valid_request) refl

own : is_result_for credential hello now ≡ true
unfolding is_result_for validate_result is_result_shaped valid_if_set valid_identifier
    identifier_pattern is_alphanumeric is_identifier_char all_chars Str-discrete valid_identity_key
    identity_key_id_pattern identity_thumbprint_pattern is_key_char has_prefix
own = refl

valid_config : validate_snapshot docs (config_of 5) ≡ ok tt
unfolding validate_snapshot valid_if_set hash_pattern is_hex_char has_prefix valid_identifier
    identifier_pattern is_alphanumeric is_identifier_char all_chars Str-discrete
valid_config = refl

named : valid_identifier (codes "s1") ≡ true
unfolding valid_identifier identifier_pattern is_alphanumeric is_identifier_char all_chars
    Str-discrete
named = refl

leased : validate_lease (first_lease server now credential (codes "s1")) now ≡ ok tt
unfolding validate_lease first_lease first_expiry valid_identifier identifier_pattern
    is_alphanumeric is_identifier_char all_chars Str-discrete
leased = refl

prepared :
    prepare docs
      (λ r. some credential)
      (λ t. some (config_of 5))
      (some (codes "s1"))
      server
      now
      hello
    ≡ ok session
unfolding prepare Str-discrete
prepared = rw (valid_hello, agreed, negotiated_all, own, valid_config, named, leased) refl

reached-SessionOk_example :
    SessionOk
      (run docs server
        (offers now (config_of 6) ∷ reports now (report_of 5) ∷ [])
        sessions
        session).1
reached-SessionOk_example =
    reached-SessionOk docs (λ r. some credential) (λ t. some (config_of 5)) (some (codes "s1"))
      server now hello session (offers now (config_of 6) ∷ reports now (report_of 5) ∷ []) sessions
      prepared

pub session_ok : SessionOk session
unfolding run
session_ok =
    reached-SessionOk docs (λ r. some credential) (λ t. some (config_of 5)) (some (codes "s1"))
      server now hello session [] sessions prepared

negotiate_capabilities-common_example :
    (validate_capabilities capabilities ≡ ok tt)
    × (length capabilities ≤ length capabilities)
    × ((c : Str)
        → has_capability capabilities c
          ≡ (has_capability capabilities c && has_capability capabilities c))
negotiate_capabilities-common_example =
    negotiate_capabilities-common capabilities capabilities capabilities negotiated_all
