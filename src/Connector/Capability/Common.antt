-- ===== src/Connector/Capability/Common.antt =====
-- internal/connectorprotocol/protocol.go: what the negotiation of capabilities selects.
use paperboat_tunnel.Base.{
  ◌≤◌, ◌≡◌, refl, ◌&&◌, List, [], ◌∷◌, Result, ok, err, arith, bind_ok, length,
}
use mathlib.Core.Path.{subst}
use paperboat_tunnel.Base.Strings.{Str}
use paperboat_tunnel.Connector.Error.{Error}
use paperboat_tunnel.Connector.Capability.{
  has_capability, negotiate_capabilities, negotiated, supported_of, validate_capabilities,
}

supported_of-has :
    (offered supported : List Str) (c : Str)
    → has_capability (supported_of offered supported) c
      ≡ (has_capability offered c && has_capability supported c)
unfolding supported_of has_capability
supported_of-has [] supported c = refl
supported_of-has (o ∷ offered) supported c = ground (arith, supported_of-has offered supported c)

length-supported_of :
    (offered supported : List Str) → length (supported_of offered supported) ≤ length offered
unfolding supported_of
length-supported_of [] supported = omega arith
length-supported_of (o ∷ offered) supported = ground (arith, length-supported_of offered supported)

negotiated-ok :
    (r : Result Error (Unit {0})) (xs ys : List Str)
    → negotiated r xs ≡ ok ys
    → (r ≡ ok tt) × (xs ≡ ys)
unfolding negotiated
negotiated-ok (ok tt) xs ys h = (refl, ground arith)
negotiated-ok (err e) xs ys h = absurd (ground arith)

-- A negotiation that succeeds selects the capabilities that both sides have, no more and no fewer;
-- the selection is valid by itself, so it has each required capability and none twice.
pub negotiate_capabilities-common :
    (offered supported selected : List Str)
    → negotiate_capabilities offered supported ≡ ok selected
    → (validate_capabilities selected ≡ ok tt)
      × (length selected ≤ length offered)
      × ((c : Str)
          → has_capability selected c ≡ (has_capability offered c && has_capability supported c))
unfolding negotiate_capabilities
negotiate_capabilities-common offered supported selected h =
    let one = bind_ok (validate_capabilities offered) _ h in
    let two = bind_ok (validate_capabilities supported) _ one.2 in
    let made =
      negotiated-ok (validate_capabilities (supported_of offered supported))
        (supported_of offered supported) selected two.2 in
    subst
      (λ (xs : List Str).
        (validate_capabilities xs ≡ ok tt)
        × (length xs ≤ length offered)
        × ((c : Str)
            → has_capability xs c ≡ (has_capability offered c && has_capability supported c)))
      made.1 (made.0, length-supported_of offered supported, supported_of-has offered supported)
