-- ===== src/Relay/Mtu/RoundTrip.antt =====
-- internal/relaypmtu/frame.go: a probe is answered by a response that its sender accepts.
use paperboat_tunnel.Base.{
  ℕ, ◌+◌, ◌-◌, ◌≤◌, ◌<◌, ◌≡◌, ◌≢◌, refl, ap, ◌∙◌, Bool, true, [], ◌∷◌, ◌++◌, arith, ok, length,
  take, drop, length-append, length-take, same_refl,
}
use mathlib.Core.List.{append_assoc}
use mathlib.Core.Path.{subst}
use paperboat_tunnel.Base.Strings.{Str, Str-discrete}
use paperboat_tunnel.Go.Text.{byte_at}
use paperboat_tunnel.Go.Bytes.{
  be16_at, byte_at-append, drop_behind, drop-append, length-zeros, put_be16, slice, take_behind,
  zeros, length-drop,
}
use paperboat_tunnel.Relay.Mtu.{
  build_request, handle, header_size, kind_reply, kind_request, magic, maximum_size, minimum_size,
  parse_response, reply_body, tag_size, token_of, valid,
}

-- A request with the parts that `BuildRequest` writes.
module _ (nonce token : Str) (k : ℕ) (random : length nonce ≡ 16) where
  abbrev tail : Str
  tail = put_be16 (length token) ++ (token ++ zeros k)

  abbrev request : ℕ → Str
  request size = magic ++ 1 ∷ kind_request ∷ (put_be16 size ++ (nonce ++ tail))

  length-tail : length tail ≡ 2 + length token + k
  length-tail = omega (arith, length-append token (zeros k), length-zeros k)

  length-request : (size : ℕ) → length (request size) ≡ 26 + length token + k
  length-request size = omega (arith, length-append nonce tail, random, length-tail)

  be16_at-request : (size : ℕ) → length token < 65536 → be16_at (request size) 24 ≡ length token
  unfolding byte_at
  be16_at-request size small =
      let high = byte_at-append nonce tail 0 16 (omega (arith, random)) in
      let low = byte_at-append nonce tail 1 17 (omega (arith, random)) in omega (arith, high, low)

  token-request : (size : ℕ) → length token < 65536 → token_of (request size) ≡ token
  unfolding token_of
  token-request size small =
      ap (λ n. take n (drop header_size (request size))) (be16_at-request size small)
      ∙ ap (take (length token)) (drop-append nonce tail 2 18 (omega (arith, random)))
      ∙ take_behind token (zeros k) (length token) refl

  valid-request :
      (size : ℕ)
      → size ≡ 26 + length token + k
      → minimum_size ≤ size
      → size ≤ maximum_size
      → valid (request size) kind_request ≡ true
  unfolding valid byte_at
  valid-request size e low high = ground (arith, length-request size, same_refl Str-discrete magic)

  abbrev reply : ℕ → Str
  reply size = reply_body (request size)

  reply-parts :
      (size : ℕ)
      → reply size
        ≡ magic
          ++ 1
            ∷ kind_reply
            ∷ (put_be16 size ++ (nonce ++ zeros (length (request size) - tag_size - 24)))
  unfolding reply_body
  reply-parts size =
      ap
        (λ (s : Str).
          magic
          ++ 1
            ∷ kind_reply
            ∷ (put_be16 size ++ (s ++ zeros (length (request size) - tag_size - 24))))
        (take_behind nonce tail 16 random)

  length-reply :
      (size : ℕ)
      → size ≡ 26 + length token + k
      → minimum_size ≤ size
      → length (reply size) ≡ size - 32
  length-reply size e low = omega (
    arith,
    ap length (reply-parts size),
    length-append nonce (zeros (length (request size) - tag_size - 24)),
    length-zeros (length (request size) - tag_size - 24),
    length-request size,
    random,
  )

  -- The response with the tag `m`.
  module _ (size : ℕ) (e : size ≡ 26 + length token + k) (low : minimum_size ≤ size)
      (high : size ≤ maximum_size) (m : Str) (tag : length m ≡ 32) where
    length-response : length (reply size ++ m) ≡ size
    length-response = omega (arith, length-append (reply size) m, length-reply size e low)

    response-parts :
        reply size ++ m
        ≡ magic
          ++ 1
            ∷ kind_reply
            ∷ (put_be16 size ++ (nonce ++ (zeros (length (request size) - tag_size - 24) ++ m)))
    response-parts =
        ap (λ (s : Str). s ++ m) (reply-parts size)
        ∙ ap (λ (s : Str). magic ++ 1 ∷ kind_reply ∷ (put_be16 size ++ s))
            (append_assoc nonce (zeros (length (request size) - tag_size - 24)) m)

    valid-response : valid (reply size ++ m) kind_reply ≡ true
    unfolding valid byte_at
    valid-response =
        let n : length (reply size ++ m) ≡ size = length-response in
        rw (n, response-parts, valid) (ground (arith, same_refl Str-discrete magic))

    nonce-response : slice 8 16 (reply size ++ m) ≡ nonce
    nonce-response =
        ap (slice 8 16) response-parts
        ∙ take_behind nonce (zeros (length (request size) - tag_size - 24) ++ m) 16 random

    nonce-request : slice 8 16 (request size) ≡ nonce
    nonce-request = take_behind nonce tail 16 random

    tag-response : drop (length (reply size ++ m) - tag_size) (reply size ++ m) ≡ m
    tag-response =
        drop_behind (reply size) m _ (omega (arith, length-response, length-reply size e low))

    body-response : take (length (reply size ++ m) - tag_size) (reply size ++ m) ≡ reply size
    body-response =
        take_behind (reply size) m _ (omega (arith, length-response, length-reply size e low))

module _ (hmac : Str → Str → Str) (authenticate : Str → Bool) (nonce token : Str) (k size : ℕ)
    (random : length nonce ≡ 16) (e : size ≡ 26 + length token + k) (low : minimum_size ≤ size)
    (high : size ≤ maximum_size) (given : 0 < length token) (room : 58 + length token ≤ size) where
  abbrev sent : Str
  sent = request nonce token k random size

  abbrev answer : Str
  answer = reply nonce token k random size

  handle-request :
      authenticate token ≡ true → handle hmac authenticate sent ≡ ok (answer ++ hmac token answer)
  unfolding handle
  handle-request known =
      let v = valid-request nonce token k random size e low high in
      let n = be16_at-request nonce token k random size (omega arith) in
      let t = token-request nonce token k random size (omega arith) in
      let l = length-request nonce token k random size in ground (arith, v, n, t, l, known)

  parse_response-answer :
      length (hmac token answer) ≡ 32
      → parse_response hmac (answer ++ hmac token answer) sent ≡ ok tt
  unfolding parse_response
  parse_response-answer tag =
      let m = hmac token answer in
      let v = valid-request nonce token k random size e low high in
      let w = valid-response nonce token k random size e low high m tag in
      let n = be16_at-request nonce token k random size (omega arith) in
      let t = token-request nonce token k random size (omega arith) in
      let l = length-request nonce token k random size in
      let r = length-response nonce token k random size e low high m tag in
      let a = nonce-response nonce token k random size e low high m tag in
      let b = nonce-request nonce token k random size e low high m tag in
      let c = tag-response nonce token k random size e low high m tag in
      let d = body-response nonce token k random size e low high m tag in
      ground (arith, v, w, n, t, l, r, a, b, c, d)

positive : (s : Str) → s ≢ [] → 0 < length s
positive [] h = absurd (h refl)
positive (x ∷ s) h = omega arith

-- Where `hmac` returns 32 bytes, the nonce has 16 and the token is accepted: `Handle` answers a probe
-- that `BuildRequest` made by a response of the same length, and `ParseResponse` accepts the response
-- for this probe.
pub parse_response-handle :
    (hmac : Str → Str → Str) (authenticate : Str → Bool) (nonce token frame : Str) (size : ℕ)
    → ((key text : Str) → length (hmac key text) ≡ 32)
    → length nonce ≡ 16
    → authenticate token ≡ true
    → build_request nonce token size ≡ ok frame
    → (response : Str) × (handle hmac authenticate frame ≡ ok response)
      × (length response ≡ length frame)
      × (parse_response hmac response frame ≡ ok tt)
unfolding build_request
parse_response-handle hmac authenticate nonce token frame size tags random known h =
    let k = size - (26 + length token) in
    let made : (request nonce token k random size ≡ frame)
        × (size ≡ 26 + length token + k)
        × (1200 ≤ size)
        × (size ≤ 1500)
        × (58 + length token ≤ size)
        × (token ≢ []) =
      ground arith in
    let given : 0 < length token = positive token made.5 in
    let e = made.1 in
    let body = answer hmac authenticate nonce token k size random e made.2 made.3 given made.4 in
    let tag = hmac token body in
    subst
      (λ f.
        (response : Str) × (handle hmac authenticate f ≡ ok response)
        × (length response ≡ length f)
        × (parse_response hmac response f ≡ ok tt))
      made.0
      (
        body ++ tag,
        handle-request hmac authenticate nonce token k size random e made.2 made.3 given made.4
            known,
        omega (
          arith,
          length-response nonce token k random size e made.2 made.3 tag (tags token body),
          length-request nonce token k random size,
        ),
        parse_response-answer hmac authenticate nonce token k size random e made.2 made.3 given
            made.4 (tags token body),
      )

length-reply_body :
    (frame : Str) → 56 ≤ length frame → length (reply_body frame) ≡ length frame - 32
unfolding reply_body
length-reply_body frame h =
    let zs = zeros (length frame - tag_size - 24) in
    omega (
      arith,
      length-append (take 5 frame) (kind_reply ∷ (slice 6 18 frame ++ zs)),
      length-append (slice 6 18 frame) zs,
      length-take 5 frame (omega arith),
      length-take 18 (drop 6 frame) (omega (arith, length-drop 6 frame)),
      length-zeros (length frame - tag_size - 24),
    )

-- Where `hmac` returns 32 bytes, `Handle` never sends more bytes than it received: a response to any
-- datagram is as long as the datagram, has at most 1500 bytes, and is sent only if the token that
-- the datagram carries is accepted.
pub length-handle :
    (hmac : Str → Str → Str) (authenticate : Str → Bool) (frame response : Str)
    → ((key text : Str) → length (hmac key text) ≡ 32)
    → handle hmac authenticate frame ≡ ok response
    → (length response ≡ length frame)
      × (length response ≤ maximum_size)
      × (authenticate (token_of frame) ≡ true)
unfolding handle valid
length-handle hmac authenticate frame response tags h =
    let m = hmac (token_of frame) (reply_body frame) in
    ground (
      arith,
      length-append (reply_body frame) m,
      length-reply_body frame,
      tags (token_of frame) (reply_body frame),
    )
