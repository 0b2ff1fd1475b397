-- ===== src/Connector/Capability.antt =====
-- internal/connectorprotocol/protocol.go: the version and the capabilities that both sides speak.
pub mod Common
use paperboat_tunnel.Base.{
  ℕ, suc, ◌+◌, ◌-◌, ◌*◌, ◌^◌, Bool, true, false, not, ◌&&◌, ◌||◌, List, [], ◌∷◌, Option, none, some,
  Result, ok, err, ◌>>◌, leb, ltb, ◌==◌, if◌then◌else◌, length,
}
use paperboat_tunnel.Base.Strings.{Str, codes, eq_str}
use paperboat_tunnel.Go.Text.{split, within}
use paperboat_tunnel.Connector.Error.{
  Error, code_capability_missing, code_error, code_invalid_input, code_protocol_incompatible, plain,
  reason_capability_missing, reason_protocol_mismatch,
}
use paperboat_tunnel.Connector.Identity.{all_chars}

abbrev pub max_capabilities : ℕ
max_capabilities = 64

abbrev pub max_capability_bytes : ℕ
max_capability_bytes = 128

abbrev pub drain_capability : Str
drain_capability = codes "connector.drain.v1"

abbrev pub required_capabilities : List Str
required_capabilities =
    codes "config.snapshot.v1"
    ∷ codes "config.delta.v1"
    ∷ codes "config.ack.v1"
    ∷ codes "session.heartbeat.v1"
    ∷ codes "auth.renew.v1"
    ∷ []

unfoldable pub is_capability_char : ℕ → Bool
is_capability_char c =
    within b'a' b'z' c || within b'0' b'9' c || c == b'_' || c == b'.' || c == b'-'

-- `^[a-z][a-z0-9_.-]{1,127}$`
unfoldable pub capability_pattern : Str → Bool
unfolding is_capability_char all_chars
capability_pattern [] = false
capability_pattern (c ∷ s) =
    within b'a' b'z' c && all_chars is_capability_char s && leb 1 (length s) && leb (length s) 127

unfoldable pub has_capability : List Str → Str → Bool
has_capability [] capability = false
has_capability (value ∷ values) capability =
    eq_str value capability || has_capability values capability

-- The loop over the values: each has the pattern, and none stands twice.
unfoldable pub are_distinct : List Str → List Str → Bool
unfolding capability_pattern has_capability
are_distinct seen [] = true
are_distinct seen (value ∷ values) =
    leb (length value) max_capability_bytes
    && capability_pattern value
    && not (has_capability seen value)
    && are_distinct (value ∷ seen) values

unfoldable pub has_all : List Str → List Str → Bool
unfolding has_capability
has_all values [] = true
has_all values (required ∷ rest) = has_capability values required && has_all values rest

unfoldable pub validate_capabilities : List Str → Result Error (Unit {0})
unfolding are_distinct has_all
validate_capabilities values =
    if length values == 0 || ltb max_capabilities (length values)
    then err (plain code_capability_missing)
    else if not (are_distinct [] values)
    then err (plain code_invalid_input)
    else if not (has_all values required_capabilities)
    then err (code_error code_capability_missing reason_capability_missing false)
    else ok tt

-- The offered values that are supported, in their order.
unfoldable pub supported_of : List Str → List Str → List Str
unfolding has_capability
supported_of [] supported = []
supported_of (value ∷ offered) supported =
    let rest = supported_of offered supported in
    if has_capability supported value then value ∷ rest else rest

unfoldable pub negotiated : Result Error (Unit {0}) → List Str → Result Error (List Str)
negotiated (ok _) selected = ok selected
negotiated (err e) selected =
    err (code_error code_capability_missing reason_capability_missing false)

unfoldable pub negotiate_capabilities : List Str → List Str → Result Error (List Str)
negotiate_capabilities offered supported =
    validate_capabilities offered
    >> (validate_capabilities supported
        >> negotiated (validate_capabilities (supported_of offered supported))
            (supported_of offered supported))

unfoldable pub is_digit : ℕ → Bool
is_digit c = within b'0' b'9' c

unfoldable pub digits_value : ℕ → Str → ℕ
digits_value n [] = n
digits_value n (c ∷ s) = digits_value (n * 10 + (c - b'0')) s

-- A number that strconv.Atoi reads and strconv.Itoa prints in the same way.
unfoldable pub parse_number : Str → Option ℕ
unfolding is_digit all_chars digits_value
parse_number [] = none
parse_number (c ∷ s) =
    if not (all_chars is_digit (c ∷ s))
      || c == b'0' && not (length s == 0)
      || leb (2 ^ 63) (digits_value 0 (c ∷ s))
    then none
    else some (digits_value 0 (c ∷ s))

abbrev pub both : Option ℕ → Option ℕ → Option (ℕ × ℕ)
both (some major) (some minor) = some (major, minor)
both _ _ = none

unfoldable pub parse_parts : List Str → Option (ℕ × ℕ)
unfolding parse_number
parse_parts (major ∷ minor ∷ []) = both (parse_number major) (parse_number minor)
parse_parts _ = none

unfoldable pub parse_version : Str → Option (ℕ × ℕ)
unfolding split parse_parts
parse_version value = parse_parts (split value b'.')

-- Whether version 1.0 lies between two versions.
unfoldable pub is_compatible : ℕ × ℕ → ℕ × ℕ → Bool
is_compatible low high = not (
    ltb high.0 low.0
    || ltb 1 low.0
    || ltb high.0 1
    || low.0 == 1 && ltb 0 low.1
    || high.0 == 1 && ltb high.1 0)

abbrev pub protocol_version : Str
protocol_version = codes "1.0"

unfoldable pub select_version : Option (ℕ × ℕ) → Option (ℕ × ℕ) → Result Error Str
unfolding is_compatible
select_version (some low) (some high) =
    if is_compatible low high
    then ok protocol_version
    else err (code_error code_protocol_incompatible reason_protocol_mismatch false)
select_version _ _ = err (code_error code_protocol_incompatible reason_protocol_mismatch false)

-- The pattern of a version says no more than that both parts are digits, which `parse_version` asks.
unfoldable pub negotiate_version : Str → Str → Result Error Str
unfolding parse_version select_version
negotiate_version min_version max_version =
    select_version (parse_version min_version) (parse_version max_version)
