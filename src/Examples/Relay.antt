-- ===== src/Examples/Relay.antt =====
-- internal/relaypmtu/frame.go: a probe of 1200 bytes and its answer.
use paperboat_tunnel.Base.{◌-◌, ◌+◌, ◌≤◌, ◌≡◌, refl, true, Bool, ◌∷◌, ◌++◌, ok, length}
use paperboat_tunnel.Base.Strings.{Str, Str-discrete, codes}
use paperboat_tunnel.Go.Text.{byte_at}
use paperboat_tunnel.Go.Bytes.{put_be16, zeros, length-zeros}
use paperboat_tunnel.Relay.Mtu.{
  build_request, handle, header_size, kind_request, magic, maximum_size, parse_response, token_of,
  reply_body, valid,
}
use paperboat_tunnel.Relay.Mtu.RoundTrip.{length-handle, parse_response-handle}

-- In place of HMAC-SHA256, and a token that is always accepted.
abbrev no_hmac : Str → Str → Str
no_hmac key text = zeros 32

abbrev accept : Str → Bool
accept token = true

abbrev token : Str
token = codes "t"

abbrev probe : Str
probe =
    magic
    ++ 1
      ∷ kind_request
      ∷ (put_be16 1200 ++ (zeros 16 ++ (put_be16 1 ++ (token ++ zeros (1200 - (header_size + 1))))))

built : build_request (zeros 16) token 1200 ≡ ok probe
unfolding build_request Str-discrete
built = refl

parse_response-handle_example :
    (response : Str) × (handle no_hmac accept probe ≡ ok response)
    × (length response ≡ length probe)
    × (parse_response no_hmac response probe ≡ ok tt)
parse_response-handle_example =
    parse_response-handle no_hmac accept (zeros 16) token probe 1200 (λ key text. length-zeros 32)
      (length-zeros 16) refl built

abbrev answer : Str
answer = reply_body probe ++ zeros 32

handled : handle no_hmac accept probe ≡ ok answer
unfolding handle valid token_of reply_body byte_at zeros Str-discrete
handled = refl

length-handle_example :
    (length answer ≡ length probe)
    × (length answer ≤ maximum_size)
    × (accept (token_of probe) ≡ true)
length-handle_example =
    length-handle no_hmac accept probe answer (λ key text. length-zeros 32) handled
