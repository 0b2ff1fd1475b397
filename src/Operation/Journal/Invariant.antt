-- ===== src/Operation/Journal/Invariant.antt =====
-- internal/operation/journal.go: the two maps of a journal hold the same entries.
use paperboat_tunnel.Base.{
  ℕ, ◌≤◌, ◌≡◌, refl, false, List, [], ◌∷◌, Option, none, some, arith, Result, ok, Option-cases,
  Result-cases, inl, inr, if_cases, leb, ltb, length, ℤ,
}
use paperboat_tunnel.Base.Maps.{get, get-put, get-delete, length-put_new, length-delete-le}
use paperboat_tunnel.Base.Strings.{Str, Str-discrete}
use paperboat_tunnel.Operation.Journal.{
  Entry, Error, Journal, Outcome, Record, Request, consume, consume_found, insert, is_refused,
  new_entry, new_journal, remove_expired, remove_expired_key, remove_expired_keys, restore,
  restore_record, restore_records, restored_entry,
}

-- Each entry stands in both maps, under its own IDs.
pub record JournalOk (j : Journal) : Type 0 where
  pub operations :
      (id : Str) (e : Entry)
      → get Str-discrete j.by_operation id ≡ some e
      → (e.operation_id ≡ id) × (get Str-discrete j.by_jti e.jti ≡ some e)
  pub credentials :
      (jti : Str) (e : Entry)
      → get Str-discrete j.by_jti jti ≡ some e
      → (e.jti ≡ jti) × (get Str-discrete j.by_operation e.operation_id ≡ some e)
  pub bounded : length j.by_operation ≤ j.max_entries

pub new_journal-JournalOk : (n : ℤ) (j : Journal) → new_journal n ≡ ok j → JournalOk j
unfolding new_journal get
new_journal-JournalOk n j h = ground arith

module _ (e : Entry) (j : Journal) where
  pub insert-JournalOk :
      JournalOk j
      → get Str-discrete j.by_operation e.operation_id ≡ none
      → get Str-discrete j.by_jti e.jti ≡ none
      → leb j.max_entries (length j.by_operation) ≡ false
      → JournalOk (insert e j)
  unfolding insert
  insert-JournalOk v ho hj room = record {
    operations = λ id x h. ground (
      arith,
      get-put Str-discrete j.by_operation e.operation_id id e,
      get-put Str-discrete j.by_jti e.jti x.jti e,
      v.operations id x,
    );
    credentials = λ jti x h. ground (
      arith,
      get-put Str-discrete j.by_jti e.jti jti e,
      get-put Str-discrete j.by_operation e.operation_id x.operation_id e,
      v.credentials jti x,
    );
    bounded = ground (arith, length-put_new Str-discrete j.by_operation e.operation_id e ho);
  }

abbrev KeepsLeft : ℕ × Journal → Type 0
KeepsLeft o = JournalOk o.1

abbrev Keeps : Journal × Result Error Outcome → Type 0
Keeps o = JournalOk o.0

consume_found-JournalOk :
    (o t : Option Entry) (request : Request) (hash : Str) (j : Journal)
    → JournalOk j
    → get Str-discrete j.by_operation request.operation_id ≡ o
    → get Str-discrete j.by_jti request.jti ≡ t
    → JournalOk (consume_found o t request hash j).0
unfolding consume_found
consume_found-JournalOk (some e) t request hash j v ho ht = v
consume_found-JournalOk none (some e) request hash j v ho ht = v
consume_found-JournalOk none none request hash j v ho ht =
    if_cases Keeps (leb j.max_entries (length j.by_operation)) (λ _. v)
      (insert-JournalOk (new_entry request hash) j v ho ht)

pub consume-JournalOk :
    (sha256 : Str → Str) (now : ℕ) (request : Request) (j : Journal)
    → JournalOk j
    → JournalOk (consume sha256 now request j).0
unfolding consume
consume-JournalOk sha256 now request j v =
    if_cases Keeps (is_refused now request) (λ _. v)
      (λ _. consume_found-JournalOk _ _ request (sha256 request.canonical) j v refl refl)

remove_expired_key-JournalOk :
    (now : ℕ) (id : Str) (o : Option Entry) (j : Journal)
    → JournalOk j
    → get Str-discrete j.by_operation id ≡ o
    → JournalOk (remove_expired_key now id o j).1
unfolding remove_expired_key
remove_expired_key-JournalOk now id none j v h = v
remove_expired_key-JournalOk now id (some e) j v h =
    if_cases KeepsLeft (ltb now e.retain_until) (λ _. v)
      λ _. record {
        operations = λ i x q. ground (
          arith,
          get-delete Str-discrete j.by_operation id i,
          get-delete Str-discrete j.by_jti e.jti x.jti,
          v.operations i x,
          v.operations id e h,
        );
        credentials = λ t x q. ground (
          arith,
          get-delete Str-discrete j.by_jti e.jti t,
          get-delete Str-discrete j.by_operation id x.operation_id,
          v.credentials t x,
          v.operations id e h,
        );
        bounded = omega (arith, length-delete-le Str-discrete j.by_operation id, v.bounded);
      }

remove_expired_keys-JournalOk :
    (now : ℕ) (keys : List Str) (n : ℕ) (j : Journal)
    → JournalOk j
    → JournalOk (remove_expired_keys now keys n j).1
unfolding remove_expired_keys
remove_expired_keys-JournalOk now [] n j v = v
remove_expired_keys-JournalOk now (id ∷ keys) n j v =
    remove_expired_keys-JournalOk now keys _ _ (remove_expired_key-JournalOk now id _ j v refl)

pub remove_expired-JournalOk :
    (now : ℕ) (j : Journal) → JournalOk j → JournalOk (remove_expired now j).1
unfolding remove_expired
remove_expired-JournalOk now j v = remove_expired_keys-JournalOk now _ 0 j v

module _ (hex_decode : Str → Option Str) where
  restore_record-JournalOk :
      (r : Record) (j k : Journal)
      → JournalOk j
      → restore_record hex_decode r j ≡ ok k
      → JournalOk k
  unfolding restore_record
  restore_record-JournalOk r j k v h = elim (Option-cases (hex_decode r.request_hash)) [
    | inl e ↦ absurd (ground arith)
    | inr (raw, e) ↦
        let insert_lem = insert-JournalOk (restored_entry r raw) j v in
        ground (arith, e, insert_lem)
  ]

  restore_records-JournalOk :
      (records : List Record) (j k : Journal)
      → JournalOk j
      → restore_records hex_decode records j ≡ ok k
      → JournalOk k
  unfolding restore_records
  restore_records-JournalOk [] j k v h = ground arith
  restore_records-JournalOk (r ∷ records) j k v h =
      elim (Result-cases (restore_record hex_decode r j)) [
        | inl (next, e) ↦
            restore_records-JournalOk records next k (restore_record-JournalOk r j next v e)
              (ground arith)
        | inr (x, e) ↦ absurd (ground arith)
      ]

  pub restore-JournalOk :
      (records : List Record) (n : ℤ) (j : Journal)
      → restore hex_decode records n ≡ ok j
      → JournalOk j
  unfolding restore
  restore-JournalOk records n j h = elim (Result-cases (new_journal n)) [
    | inl (k, e) ↦
        restore_records-JournalOk records k j (new_journal-JournalOk n k e) (ground arith)
    | inr (x, e) ↦ absurd (ground arith)
  ]

pub data Call : Type 0 where
  consumes : ℕ → Request → Call
  removes : ℕ → Call

module _ (sha256 : Str → Str) where
  unfoldable pub step : Call → Journal → Journal
  step (consumes now request) j = (consume sha256 now request j).0
  step (removes now) j = (remove_expired now j).1

  unfoldable pub run : List Call → Journal → Journal
  run [] j = j
  run (c ∷ calls) j = run calls (step c j)

  step-JournalOk : (c : Call) (j : Journal) → JournalOk j → JournalOk (step c j)
  unfolding step
  step-JournalOk (consumes now request) j v = consume-JournalOk sha256 now request j v
  step-JournalOk (removes now) j v = remove_expired-JournalOk now j v

  run-JournalOk : (calls : List Call) (j : Journal) → JournalOk j → JournalOk (run calls j)
  unfolding run
  run-JournalOk [] j v = v
  run-JournalOk (c ∷ calls) j v = run-JournalOk calls (step c j) (step-JournalOk c j v)

  -- Every journal that any calls reach from one that `Restore` returns satisfies `JournalOk`: each
  -- entry stands in the map of operations and in the map of credentials under its own IDs, so that
  -- neither map has an entry the other lacks, and there are at most `max_entries` operations.
  pub restored-JournalOk :
      (hex_decode : Str → Option Str) (records : List Record) (max_entries : ℤ) (j : Journal)
      (calls : List Call)
      → restore hex_decode records max_entries ≡ ok j
      → JournalOk (run calls j)
  restored-JournalOk hex_decode records max_entries j calls h =
      run-JournalOk calls j (restore-JournalOk hex_decode records max_entries j h)
