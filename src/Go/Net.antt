-- ===== src/Go/Net.antt =====
-- Package net: net.SplitHostPort and whether net.ParseIP reads a text.
use paperboat_tunnel.Base.{
  ℕ, zero, suc, ◌+◌, ◌-◌, ◌*◌, Bool, true, false, not, ◌&&◌, ◌||◌, List, [], ◌∷◌, Option, none,
  some, leb, ltb, ◌==◌, if◌then◌else◌, length, take, drop,
}
use paperboat_tunnel.Base.Strings.{Str, eq_str, contains}
use paperboat_tunnel.Go.Text.{within, byte_at, split}

-- strings.IndexByte
index_from : ℕ → Str → ℕ → Option ℕ
index_from i [] c = none
index_from i (x ∷ s) c = let rest = index_from (suc i) s c in if x == c then some i else rest

unfoldable pub index_byte : Str → ℕ → Option ℕ
unfolding index_from
index_byte = index_from 0

-- strings.LastIndexByte
last_index_from : ℕ → Option ℕ → Str → ℕ → Option ℕ
last_index_from i found [] c = found
last_index_from i found (x ∷ s) c = last_index_from (suc i) (if x == c then some i else found) s c

unfoldable pub last_index_byte : Str → ℕ → Option ℕ
unfolding last_index_from
last_index_byte = last_index_from 0 none

-- A host in brackets, where the last colon stands at `i` and the first `]` at `end`.
bracketed : Str → ℕ → Option ℕ → Option Str
unfolding contains
bracketed s i none = none
bracketed s i (some end) =
    if not (end + 1 == i) || contains (drop 1 s) b'[' || contains (drop (end + 1) s) b']'
    then none
    else some (drop 1 (take end s))

-- The host of net.SplitHostPort, `none` where it returns an error.
unfoldable pub split_host_port : Str → Option Str
unfolding last_index_byte index_byte bracketed contains byte_at
split_host_port s = elim (last_index_byte s b':') [
  | none ↦ none
  | some i ↦
      if byte_at s 0 == b'['
      then bracketed s i (index_byte s b']')
      else if contains (take i s) b':' || contains s b'[' || contains s b']'
      then none
      else some (take i s)
]

-- The value of a run of decimal digits below 256; `none` also where it is empty or has a leading 0.
octet_from : ℕ → ℕ → Str → Bool
octet_from digits value [] = not (digits == 0)
octet_from digits value (c ∷ s) =
    let next = value * 10 + (c - b'0') in
    within b'0' b'9' c
    && not (digits == 1 && value == 0)
    && leb next 255
    && octet_from (digits + 1) next s

all_octets : List Str → Bool
unfolding octet_from
all_octets [] = true
all_octets (s ∷ pieces) = octet_from 0 0 s && all_octets pieces

parse_ipv4 : Str → Bool
unfolding all_octets split
parse_ipv4 s = length (split s b'.') == 4 && all_octets (split s b'.')

is_hex : ℕ → Bool
is_hex c = within b'0' b'9' c || within b'a' b'f' c || within b'A' b'F' c

hex_run : Str → ℕ
unfolding is_hex
hex_run [] = 0
hex_run (c ∷ s) = let rest = hex_run s in if is_hex c then suc rest else 0

-- The loop of netip.ParseAddr on an IPv6 text with no zone: `i` bytes are read, and `gap` says that
-- `::` was seen. A round reads two bytes of the address, so eight rounds are enough.
ipv6_from : ℕ → ℕ → Bool → Str → Bool
unfolding hex_run byte_at parse_ipv4
ipv6_from zero i gap s = eq_str s [] && not gap
ipv6_from (suc n) i gap s =
    let run = hex_run s in
    let rest = drop run s in
    let after = drop 1 rest in
    let last = ipv6_from n (i + 2) true (drop 1 after) in
    let more = ipv6_from n (i + 2) gap after in
    if run == 0 || ltb 4 run
    then false
    else if byte_at rest 0 == b'.'
    then (gap || i == 12)
      && leb (i + 4) 16
      && parse_ipv4 s
      && (if i + 4 == 16 then not gap else gap)
    else if eq_str rest []
    then (if i + 2 == 16 then not gap else gap)
    else if not (byte_at rest 0 == b':') || eq_str after []
    then false
    else if byte_at after 0 == b':'
    then not gap && (if eq_str (drop 1 after) [] then not (i + 2 == 16) else last)
    else more

parse_ipv6 : Str → Bool
unfolding ipv6_from byte_at
parse_ipv6 s =
    if byte_at s 0 == b':' && byte_at s 1 == b':'
    then eq_str (drop 2 s) [] || ipv6_from 8 0 true (drop 2 s)
    else ipv6_from 8 0 false s

-- Which of `.`, `:` and `%` comes first decides how netip.ParseAddr reads the text.
parse_by : Str → Str → Bool
unfolding parse_ipv4 parse_ipv6 contains
parse_by whole [] = false
parse_by whole (c ∷ s) =
    if c == b'.'
    then parse_ipv4 whole
    else if c == b':'
    then not (contains whole b'%') && parse_ipv6 whole
    else not (c == b'%') && parse_by whole s

-- Whether net.ParseIP returns an address; it refuses a zone.
unfoldable pub is_ip : Str → Bool
unfolding parse_by
is_ip s = parse_by s s
