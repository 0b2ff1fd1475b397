-- ===== src/Operation/Journal/Single.antt =====
-- internal/operation/journal.go: a credential and an operation are used once.
use paperboat_tunnel.Base.{ℕ, ◌≡◌, refl, sym, ap, true, false, ◌⊎◌, Option, none, some, arith, ok}
use paperboat_tunnel.Base.Maps.{get, get-put}
use paperboat_tunnel.Base.Strings.{Str, Str-discrete}
use paperboat_tunnel.Operation.Journal.{
  Entry, Journal, Outcome, Request, consume, consume_found, duplicate, insert, is_refused,
  new_entry,
}
use paperboat_tunnel.Operation.Journal.Invariant.{JournalOk, consume-JournalOk}

-- The journal holds the decision `d` of the request with the hash `hash`.
pub record Holds (j : Journal) (r : Request) (hash d : Str) : Type 0 where
  pub entry : Entry
  pub by_operation : get Str-discrete j.by_operation r.operation_id ≡ some entry
  pub by_jti : get Str-discrete j.by_jti r.jti ≡ some entry
  pub same_operation : entry.operation_id ≡ r.operation_id
  pub same_jti : entry.jti ≡ r.jti
  pub same_hash : entry.request_hash ≡ hash
  pub decides : entry.decision ≡ d

found-Holds :
    (o t : Option Entry) (r : Request) (hash : Str) (j k : Journal) (x : Outcome)
    → JournalOk j
    → get Str-discrete j.by_operation r.operation_id ≡ o
    → get Str-discrete j.by_jti r.jti ≡ t
    → consume_found o t r hash j ≡ (k, ok x)
    → Holds k r hash x.decision
unfolding consume_found duplicate insert
found-Holds (some e) t r hash j k x v ho ht h = record {
  entry = e;
  by_operation = ground arith;
  by_jti = ground (arith, v.operations r.operation_id e ho);
  same_operation = ground arith;
  same_jti = ground arith;
  same_hash = ground arith;
  decides = ground arith;
}
found-Holds none (some e) r hash j k x v ho ht h = absurd (ground (arith, v.credentials r.jti e ht))
found-Holds none none r hash j k x v ho ht h =
    let e = new_entry r hash in
    record {
      entry = e;
      by_operation =
          ground (arith, get-put Str-discrete j.by_operation r.operation_id r.operation_id e);
      by_jti = ground (arith, get-put Str-discrete j.by_jti r.jti r.jti e);
      same_operation = refl;
      same_jti = refl;
      same_hash = refl;
      decides = ground arith;
    }

found-single :
    (o t : Option Entry) (r s : Request) (hash other d : Str) (k m : Journal) (y : Outcome)
    → JournalOk k
    → Holds k r hash d
    → (s.operation_id ≡ r.operation_id) ⊎ (s.jti ≡ r.jti)
    → get Str-discrete k.by_operation s.operation_id ≡ o
    → get Str-discrete k.by_jti s.jti ≡ t
    → consume_found o t s other k ≡ (m, ok y)
    → (s.operation_id ≡ r.operation_id)
      × (s.jti ≡ r.jti)
      × (other ≡ hash)
      × (y.decision ≡ d)
      × (y.duplicate ≡ true)
      × (m ≡ k)
unfolding consume_found duplicate
found-single (some e) t r s hash other d k m y w b shared ho ht h = ground (
  arith,
  w.operations s.operation_id e ho,
  b.by_operation,
  b.by_jti,
  b.same_operation,
  b.same_jti,
  b.same_hash,
  b.decides,
)
found-single none (some e) r s hash other d k m y w b shared ho ht h =
    absurd (ground (arith, w.credentials s.jti e ht))
found-single none none r s hash other d k m y w b shared ho ht h =
    absurd (ground (arith, b.by_operation, b.by_jti))

module _ (sha256 : Str → Str) where
  consume-Holds :
      (now : ℕ) (r : Request) (j k : Journal) (x : Outcome)
      → JournalOk j
      → consume sha256 now r j ≡ (k, ok x)
      → Holds k r (sha256 r.canonical) x.decision
  unfolding consume
  consume-Holds now r j k x v h =
      found-Holds _ _ r (sha256 r.canonical) j k x v refl refl (ground arith)

  -- In a journal that satisfies `JournalOk`: after a request has been granted, the same request is
  -- granted again at any time at which it is not refused as invalid, with the decision of the first
  -- time and marked as a duplicate, and the journal stays as it is.
  pub consume-again :
      (now later : ℕ) (r : Request) (j k : Journal) (x : Outcome)
      → JournalOk j
      → consume sha256 now r j ≡ (k, ok x)
      → is_refused later r ≡ false
      → consume sha256 later r k ≡ (k, ok (record { decision = x.decision; duplicate = true }))
  unfolding consume consume_found duplicate
  consume-again now later r j k x v h valid =
      let b = consume-Holds now r j k x v h in
      rw (valid, b.by_operation)
        (ground (arith, b.same_operation, b.same_jti, b.same_hash, b.decides))

  -- In a journal that satisfies `JournalOk`: after a request has been granted, a request that
  -- names its operation ID or its credential ID is granted only if it has both IDs and the same
  -- hash of its document, and then as a duplicate with the first decision.
  pub consume-single :
      (now later : ℕ) (r s : Request) (j k m : Journal) (x y : Outcome)
      → JournalOk j
      → consume sha256 now r j ≡ (k, ok x)
      → (s.operation_id ≡ r.operation_id) ⊎ (s.jti ≡ r.jti)
      → consume sha256 later s k ≡ (m, ok y)
      → (s.operation_id ≡ r.operation_id)
        × (s.jti ≡ r.jti)
        × (sha256 s.canonical ≡ sha256 r.canonical)
        × (y.decision ≡ x.decision)
        × (y.duplicate ≡ true)
        × (m ≡ k)
  unfolding consume
  consume-single now later r s j k m x y v h shared q =
      let w = consume-JournalOk sha256 now r j v in
      found-single _ _ r s (sha256 r.canonical) (sha256 s.canonical) x.decision k m y
        (rw (sym (ap (λ o. o.0) h)) w) (consume-Holds now r j k x v h) shared refl refl
        (ground arith)
