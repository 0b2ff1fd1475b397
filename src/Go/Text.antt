-- ===== src/Go/Text.antt =====
-- Packages strings and unicode/utf8, on texts as lists of bytes.
use paperboat_tunnel.Base.{
  ℕ, zero, suc, ◌+◌, ◌-◌, Bool, true, false, ◌&&◌, ◌||◌, List, [], ◌∷◌, reverse, leb, ltb, ◌==◌,
  if◌then◌else◌, length, drop,
}
use paperboat_tunnel.Base.Strings.{Str, contains, has_prefix}

-- Whether a byte lies in a range.
abbrev pub within : ℕ → ℕ → ℕ → Bool
within lo hi c = leb lo c && leb c hi

-- The byte at an index; 256 past the end.
unfoldable pub byte_at : Str → ℕ → ℕ
byte_at [] i = 256
byte_at (x ∷ s) zero = x
byte_at (x ∷ s) (suc i) = byte_at s i

-- The characters of unicode.IsSpace, by their UTF-8 bytes.
space_one : ℕ → Bool
space_one a = a == 32 || within 9 13 a

space_two : ℕ → ℕ → Bool
space_two a b = a == 0xC2 && (b == 0x85 || b == 0xA0)

space_three : ℕ → ℕ → ℕ → Bool
space_three a b c =
    a == 0xE1 && b == 0x9A && c == 0x80
    || a == 0xE2 && b == 0x80 && (within 0x80 0x8A c || c == 0xA8 || c == 0xA9 || c == 0xAF)
    || a == 0xE2 && b == 0x81 && c == 0x9F
    || a == 0xE3 && b == 0x80 && c == 0x80

space_width : (ℕ → Bool) → (ℕ → ℕ → Bool) → (ℕ → ℕ → ℕ → Bool) → Str → ℕ
unfolding byte_at
space_width one two three s =
    if one (byte_at s 0)
    then 1
    else if two (byte_at s 0) (byte_at s 1)
    then 2
    else if three (byte_at s 0) (byte_at s 1) (byte_at s 2)
    then 3
    else 0

-- Drops spaces from the front; `n` bounds the rounds, and the length of the text is enough.
drop_spaces : ℕ → (Str → ℕ) → Str → Str
drop_spaces zero width s = s
drop_spaces (suc n) width s =
    let rest = drop_spaces n width (drop (width s) s) in if width s == 0 then s else rest

trim_left : Str → Str
unfolding drop_spaces space_width space_one space_two space_three
trim_left s = drop_spaces (length s) (space_width space_one space_two space_three) s

-- From the end: the bytes of a character stand in the other order.
trim_right : Str → Str
unfolding drop_spaces space_width space_one space_two space_three
trim_right s = reverse (
    drop_spaces (length s)
      (space_width space_one (λ b a. space_two a b) (λ c b a. space_three a b c)) (reverse s))

-- strings.TrimSpace
unfoldable pub trim_space : Str → Str
unfolding trim_left trim_right
trim_space s = trim_right (trim_left s)

lower_byte : ℕ → ℕ
lower_byte a = if within b'A' b'Z' a then a + 32 else a

-- strings.ToLower, as far as its result has ASCII characters: the letters A to Z, U+0130 and U+212A
-- become ASCII letters. Any other character of several bytes stays one, and is kept as it is.
unfoldable pub to_lower : Str → Str
unfolding lower_byte
to_lower (a ∷ b ∷ c ∷ s) =
    let one = to_lower (b ∷ c ∷ s) in
    let two = to_lower (c ∷ s) in
    let three = to_lower s in
    if within b'A' b'Z' a
    then (a + 32) ∷ one
    else if a == 0xC4 && b == 0xB0
    then b'i' ∷ two
    else if a == 0xE2 && b == 0x84 && c == 0xAA
    then b'k' ∷ three
    else a ∷ one
to_lower (a ∷ b ∷ []) =
    if a == 0xC4 && b == 0xB0 then b'i' ∷ [] else lower_byte a ∷ lower_byte b ∷ []
to_lower (a ∷ []) = lower_byte a ∷ []
to_lower [] = []

-- strings.ContainsAny with a set of ASCII characters
unfoldable pub contains_any : Str → Str → Bool
unfolding contains
contains_any [] set = false
contains_any (x ∷ s) set = contains set x || contains_any s set

-- strings.Contains of one ASCII character written twice
unfoldable pub contains_twice : Str → ℕ → Bool
unfolding byte_at
contains_twice [] c = false
contains_twice (x ∷ s) c = x == c && byte_at s 0 == c || contains_twice s c

-- strings.TrimPrefix
unfoldable pub trim_prefix : Str → Str → Str
unfolding has_prefix
trim_prefix s p = if has_prefix s p then drop (length p) s else s

-- The first byte joins the first piece, or ends it.
extend : Bool → ℕ → List Str → List Str
extend true x pieces = [] ∷ pieces
extend false x [] = (x ∷ []) ∷ []
extend false x (piece ∷ pieces) = (x ∷ piece) ∷ pieces

-- strings.Split at an ASCII character
unfoldable pub split : Str → ℕ → List Str
unfolding extend
split [] c = [] ∷ []
split (x ∷ s) c = extend (x == c) x (split s c)

-- What may follow a leading byte: how many bytes, and the range of the first of them.
record Lead : Type 0 where
  count : ℕ
  low : ℕ
  high : ℕ
  valid : Bool

lead : ℕ → Lead
lead c =
    if ltb c 0x80
    then record { count = 0; low = 0; high = 0; valid = true }
    else if within 0xC2 0xDF c
    then record { count = 1; low = 0x80; high = 0xBF; valid = true }
    else if c == 0xE0
    then record { count = 2; low = 0xA0; high = 0xBF; valid = true }
    else if c == 0xED
    then record { count = 2; low = 0x80; high = 0x9F; valid = true }
    else if within 0xE1 0xEF c
    then record { count = 2; low = 0x80; high = 0xBF; valid = true }
    else if c == 0xF0
    then record { count = 3; low = 0x90; high = 0xBF; valid = true }
    else if within 0xF1 0xF3 c
    then record { count = 3; low = 0x80; high = 0xBF; valid = true }
    else if c == 0xF4
    then record { count = 3; low = 0x80; high = 0x8F; valid = true }
    else record { count = 0; low = 0; high = 0; valid = false }

next_lead : Lead → ℕ → Lead
unfolding lead
next_lead l c =
    if l.count == 0
    then lead c
    else record { count = l.count - 1; low = 0x80; high = 0xBF; valid = within l.low l.high c }

utf8_from : Lead → Str → Bool
unfolding next_lead
utf8_from l [] = l.valid && l.count == 0
utf8_from l (c ∷ s) = l.valid && utf8_from (next_lead l c) s

-- utf8.ValidString
unfoldable pub valid_utf8 : Str → Bool
unfolding utf8_from
valid_utf8 = utf8_from (record { count = 0; low = 0; high = 0; valid = true })

-- The order of Go's strings.
unfoldable pub str_lt : Str → Str → Bool
str_lt s [] = false
str_lt [] (y ∷ t) = true
str_lt (x ∷ s) (y ∷ t) = ltb x y || x == y && str_lt s t
