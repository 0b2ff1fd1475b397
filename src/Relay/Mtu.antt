-- ===== src/Relay/Mtu.antt =====
-- internal/relaypmtu/frame.go: the probe frames of the path MTU. The nonce of crypto/rand and
-- HMAC-SHA256 are parameters.
pub mod RoundTrip
use paperboat_tunnel.Base.{
  ℕ, ◌+◌, ◌-◌, Bool, not, ◌&&◌, ◌||◌, [], ◌∷◌, ◌++◌, Result, ok, err, ◌>>=◌, ◌>>◌, refuse_if, leb,
  ltb, ◌==◌, if◌then◌else◌, length, take, drop,
}
use paperboat_tunnel.Base.Strings.{Str, codes, eq_str}
use paperboat_tunnel.Go.Text.{byte_at}
use paperboat_tunnel.Go.Bytes.{be16_at, put_be16, slice, zeros}

abbrev pub minimum_size : ℕ
minimum_size = 1200

abbrev pub maximum_size : ℕ
maximum_size = 1500

abbrev pub header_size : ℕ
header_size = 26

abbrev pub tag_size : ℕ
tag_size = 32

abbrev pub magic : Str
magic = codes "PBMT"

abbrev pub kind_request : ℕ
kind_request = 1

abbrev pub kind_reply : ℕ
kind_reply = 2

pub data Error : Type 0 where
  invalid unauthenticated : Error

-- `nonce` is what rand.Read puts into bytes 8 to 23.
unfoldable pub build_request : Str → Str → ℕ → Result Error Str
build_request nonce token size =
    if eq_str token []
      || ltb (maximum_size - header_size - tag_size) (length token)
      || ltb size minimum_size
      || ltb maximum_size size
      || ltb size (header_size + length token + tag_size)
    then err invalid
    else ok (
        magic
        ++ 1
          ∷ kind_request
          ∷ (put_be16 size
              ++ (nonce
                  ++ (put_be16 (length token)
                      ++ (token ++ zeros (size - (header_size + length token)))))))

unfoldable pub is_request : Str → Bool
is_request frame =
    leb 6 (length frame)
    && eq_str (take 4 frame) magic
    && byte_at frame 4 == 1
    && byte_at frame 5 == kind_request

unfoldable pub valid : Str → ℕ → Bool
valid frame kind =
    leb minimum_size (length frame)
    && leb (length frame) maximum_size
    && eq_str (take 4 frame) magic
    && byte_at frame 4 == 1
    && byte_at frame 5 == kind
    && be16_at frame 6 == length frame

-- The token that a request carries.
unfoldable pub token_of : Str → Str
token_of frame = slice header_size (be16_at frame 24) frame

-- The response without its tag: the request's first 24 bytes with the kind of a reply, and zeros.
unfoldable pub reply_body : Str → Str
reply_body frame =
    take 5 frame ++ kind_reply ∷ (slice 6 18 frame ++ zeros (length frame - tag_size - 24))

module _ (hmac : Str → Str → Str) where
  unfoldable pub handle : (Str → Bool) → Str → Result Error Str
  handle authenticate frame =
      if not (valid frame kind_request)
      then err invalid
      else if be16_at frame 24 == 0 || ltb (length frame) (header_size + be16_at frame 24)
      then err invalid
      else if not (authenticate (token_of frame))
      then err unauthenticated
      else ok (reply_body frame ++ hmac (token_of frame) (reply_body frame))

  unfoldable pub parse_response : Str → Str → Result Error (Unit {0})
  parse_response response request =
      if not (valid request kind_request)
        || not (valid response kind_reply)
        || not (length response == length request)
        || not (eq_str (slice 8 16 response) (slice 8 16 request))
      then err invalid
      else if be16_at request 24 == 0
          || ltb (length request) (header_size + be16_at request 24 + tag_size)
      then err invalid
      else if not (
          eq_str (drop (length response - tag_size) response)
            (hmac (token_of request) (take (length response - tag_size) response)))
      then err unauthenticated
      else ok tt
