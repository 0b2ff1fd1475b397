-- ===== src/Connector/Identity.antt =====
-- internal/connectorprotocol/protocol.go: the shapes of identifiers, keys, hashes and proofs. Each
-- regular expression is anchored and has one class of characters behind a fixed part.
use paperboat_tunnel.Base.{ℕ, Bool, true, false, not, ◌&&◌, ◌||◌, [], ◌∷◌, leb, ◌==◌, length, drop}
use paperboat_tunnel.Base.Strings.{Str, codes, eq_str, has_prefix}
use paperboat_tunnel.Go.Text.{contains_any, trim_space, within}

abbrev pub max_identifier_bytes : ℕ
max_identifier_bytes = 128

abbrev pub max_proof_bytes : ℕ
max_proof_bytes = 16384

abbrev pub max_nonce_bytes : ℕ
max_nonce_bytes = 128

unfoldable pub all_chars : (ℕ → Bool) → Str → Bool
all_chars p [] = true
all_chars p (c ∷ s) = p c && all_chars p s

unfoldable pub is_alphanumeric : ℕ → Bool
is_alphanumeric c = within b'A' b'Z' c || within b'a' b'z' c || within b'0' b'9' c

unfoldable pub is_identifier_char : ℕ → Bool
unfolding is_alphanumeric
is_identifier_char c = is_alphanumeric c || c == b'.' || c == b'_' || c == b':' || c == b'-'

-- `^[A-Za-z0-9][A-Za-z0-9._:-]{0,127}$`
unfoldable pub identifier_pattern : Str → Bool
unfolding is_alphanumeric is_identifier_char all_chars
identifier_pattern [] = false
identifier_pattern (c ∷ s) =
    is_alphanumeric c && all_chars is_identifier_char s && leb (length s) 127

unfoldable pub valid_identifier : Str → Bool
unfolding identifier_pattern
valid_identifier value = identifier_pattern value && leb (length value) max_identifier_bytes

-- An identifier that may be empty.
unfoldable pub valid_if_set : Str → Bool
unfolding valid_identifier
valid_if_set value = eq_str value [] || valid_identifier value

unfoldable pub is_hex_char : ℕ → Bool
is_hex_char c = within b'0' b'9' c || within b'a' b'f' c

-- `^sha256:[0-9a-f]{64}$`
unfoldable pub hash_pattern : Str → Bool
unfolding all_chars is_hex_char
hash_pattern value =
    has_prefix value (codes "sha256:")
    && length (drop 7 value) == 64
    && all_chars is_hex_char (drop 7 value)

unfoldable pub is_key_char : ℕ → Bool
unfolding is_alphanumeric
is_key_char c = is_alphanumeric c || c == b'_' || c == b'-'

-- `^[A-Za-z0-9_-]{43}$`
unfoldable pub identity_thumbprint_pattern : Str → Bool
unfolding all_chars is_key_char
identity_thumbprint_pattern value = length value == 43 && all_chars is_key_char value

-- `^ed25519:[A-Za-z0-9_-]{43}$`
unfoldable pub identity_key_id_pattern : Str → Bool
unfolding identity_thumbprint_pattern
identity_key_id_pattern value =
    has_prefix value (codes "ed25519:") && identity_thumbprint_pattern (drop 8 value)

unfoldable pub valid_identity_key : Str → Str → Bool
unfolding identity_key_id_pattern identity_thumbprint_pattern
valid_identity_key key_id thumbprint =
    identity_key_id_pattern key_id
    && identity_thumbprint_pattern thumbprint
    && eq_str (drop 8 key_id) thumbprint

-- No spaces around a text, and no line break in it.
unfoldable pub is_one_line : Str → Bool
is_one_line value = eq_str (trim_space value) value && not (contains_any value (codes "\r\n"))

unfoldable pub valid_proof : Str → Bool
unfolding is_one_line
valid_proof value = leb 32 (length value) && leb (length value) max_proof_bytes && is_one_line value

-- The nonce of a signed request.
unfoldable pub valid_nonce : Str → Bool
unfolding is_one_line
valid_nonce value = leb 16 (length value) && leb (length value) max_nonce_bytes && is_one_line value
