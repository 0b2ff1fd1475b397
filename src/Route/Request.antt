-- ===== src/Route/Request.antt =====
-- internal/route/matcher.go and route.go: the normal form of hosts and request paths.
use paperboat_tunnel.Base.{
  ℕ, ◌-◌, Bool, false, not, ◌&&◌, ◌||◌, List, [], ◌∷◌, Option, none, some, ltb, leb, ◌==◌,
  if◌then◌else◌, length, Result, ok, err, ◌>>=◌, ◌>>◌, refuse_if, or_err,
}
use paperboat_tunnel.Base.Strings.{
  Str, codes, eq_str, has_prefix, has_suffix, trim_suffix, contains,
}
use paperboat_tunnel.Go.Text.{
  within, byte_at, trim_space, to_lower, contains_any, contains_twice, split, valid_utf8,
}
use paperboat_tunnel.Go.Net.{split_host_port, is_ip}
use paperboat_tunnel.Route.Rule.{Error, invalid}

-- "\r\n\x00"
abbrev pub line_breaks : Str
line_breaks = 13 ∷ 10 ∷ 0 ∷ []

-- The loop over the segments of a path.
unfoldable pub has_dot_segment : List Str → Bool
has_dot_segment [] = false
has_dot_segment (segment ∷ segments) =
    eq_str segment (codes ".") || eq_str segment (codes "..") || has_dot_segment segments

unfoldable pub normalize_request_path : Str → Result Error Str
unfolding has_dot_segment has_prefix trim_suffix contains_any contains_twice split
normalize_request_path path = if eq_str path [] then ok (codes "/") else (do
  refuse_if
      (not (has_prefix path (codes "/"))
        || contains_any path (13 ∷ 10 ∷ 0 ∷ b'?' ∷ b'#' ∷ [])
        || contains_twice path b'/')
      invalid
  refuse_if (has_dot_segment (split path b'/')) invalid
  ok (if ltb 1 (length path) then trim_suffix path (codes "/") else path))

-- The loop over the labels of a host.
unfoldable pub has_bad_label : List Str → Bool
unfolding byte_at
has_bad_label [] = false
has_bad_label (label ∷ labels) =
    length label == 0
    || ltb 63 (length label)
    || byte_at label 0 == b'-'
    || byte_at label (length label - 1) == b'-'
    || has_bad_label labels

-- The host without its port, if it has one.
unfoldable pub without_port : Str → Result Error Str
unfolding split_host_port contains
without_port host = elim (split_host_port host) [
  | some parsed ↦ ok parsed
  | none ↦ if contains host b':' then err invalid else ok host
]

-- `to_ascii` is idna.Lookup.ToASCII, `none` where it returns an error.
module _ (to_ascii : Str → Option Str) where
  unfoldable pub normalize_match_host : Str → Result Error Str
  unfolding has_bad_label without_port trim_space to_lower contains_any contains_twice split
      trim_suffix is_ip valid_utf8
  normalize_match_host raw = do
    let trimmed = trim_space raw
    refuse_if (eq_str trimmed [] || contains_any trimmed (13 ∷ 10 ∷ 0 ∷ 32 ∷ b'/' ∷ b'?' ∷ []))
        invalid
    bare ← without_port trimmed
    let host = trim_suffix bare (codes ".")
    refuse_if (eq_str host [] || is_ip host) invalid
    refuse_if (not (valid_utf8 host)) invalid
    ascii ← or_err (to_ascii host) invalid
    refuse_if (eq_str ascii [] || ltb 253 (length ascii) || contains_twice ascii b'.') invalid
    refuse_if (has_bad_label (split ascii b'.')) invalid
    ok (to_lower ascii)

-- normalizeHost of route.go
unfoldable pub normalize_host : Str → Str
unfolding trim_space trim_suffix to_lower
normalize_host host = to_lower (trim_suffix (trim_space host) (codes "."))

is_lower_hex : ℕ → Bool
is_lower_hex c = within b'0' b'9' c || within b'a' b'f' c

-- Reads `n` characters of a class, and gives the rest to `next`.
read_class : ℕ → (ℕ → Bool) → (Str → Bool) → Str → Bool
read_class ℕ.zero class next s = next s
read_class (ℕ.suc n) class next [] = false
read_class (ℕ.suc n) class next (c ∷ s) = class c && read_class n class next s

-- opaqueTunnelEndpointLabelPattern
unfoldable pub is_opaque_label : Str → Bool
unfolding read_class is_lower_hex
is_opaque_label = read_class 8 is_lower_hex (
    read_class 1 (λ c. c == b'-')
      (read_class 4 is_lower_hex (
        read_class 1 (λ c. c == b'-')
          (read_class 4 is_lower_hex (
            read_class 1 (λ c. c == b'-')
              (read_class 1 (λ c. c == b'8' || c == b'9' || c == b'a' || c == b'b')
                (read_class 3 is_lower_hex (
                  read_class 1 (λ c. c == b'-')
                    (read_class 12 is_lower_hex (λ rest. eq_str rest []))))))))))

first_label : List Str → Str
first_label [] = []
first_label (label ∷ labels) = label

unfoldable pub valid_opaque_tunnel_hostname : Str → Bool
unfolding trim_space normalize_host is_opaque_label split first_label
valid_opaque_tunnel_hostname raw =
    let host = trim_space raw in
    not (eq_str host [])
    && eq_str host (normalize_host host)
    && leb 2 (length (split host b'.'))
    && is_opaque_label (first_label (split host b'.'))

-- `some prefix` for `prefix.base`.
cut_domain : Str → Str → Option Str
unfolding has_suffix trim_suffix
cut_domain host base =
    if has_suffix host (b'.' ∷ base) then some (trim_suffix host (b'.' ∷ base)) else none

unfoldable pub valid_managed_tunnel_hostname : Str → Str → Bool
unfolding trim_space normalize_host is_opaque_label contains cut_domain
valid_managed_tunnel_hostname raw raw_base =
    let host = trim_space raw in
    let base = normalize_host raw_base in
    not (eq_str host [] || not (eq_str host (normalize_host host)) || eq_str base [])
    && elim (cut_domain host base) [
      | none ↦ false
      | some prefix ↦ is_opaque_label prefix && not (contains prefix b'.')
    ]
