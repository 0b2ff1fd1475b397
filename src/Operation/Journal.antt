-- ===== src/Operation/Journal.antt =====
-- internal/operation/journal.go: `Journal`, which binds a credential ID and an operation ID to one
-- decision. A time is the nanoseconds since Go's zero time; crypto/sha256 and encoding/hex are
-- parameters.
pub mod Single
pub mod Invariant
use paperboat_tunnel.Base.{
  ℕ, ◌+◌, Bool, true, false, not, ◌&&◌, ◌||◌, List, [], ◌∷◌, Option, none, some, Result, ok, err,
  ◌>>=◌, ◌>>◌, refuse_if, or_err, ltb, leb, ◌==◌, if◌then◌else◌, length, map, ℤ, pos_part, pos,
  ltbℤ,
}
use paperboat_tunnel.Base.Maps.{Map, get, put, delete}
use paperboat_tunnel.Base.Strings.{Str, Str-discrete, eq_str}
use paperboat_tunnel.Go.Text.{str_lt}

abbrev max_document_bytes : ℕ
max_document_bytes = 1048576

-- time.Unix(0, 0)
abbrev pub unix_epoch : ℕ
unix_epoch = 62135596800000000000

pub data Error : Type 0 where
  invalid replay full : Error

pub record Request : Type 0 where
  pub operation_id : Str
  pub jti : Str
  pub canonical : Str
  pub decision : Str
  pub retain_until : ℕ

pub record Outcome : Type 0 where
  pub decision : Str
  pub duplicate : Bool

pub record Record : Type 0 where
  pub operation_id : Str
  pub jti : Str
  pub request_hash : Str
  pub decision : Str
  pub retain_until : ℕ

pub record Entry : Type 0 where
  pub operation_id : Str
  pub jti : Str
  pub request_hash : Str
  pub decision : Str
  pub retain_until : ℕ

pub record Journal : Type 0 where
  pub max_entries : ℕ
  pub by_operation : Map Str Entry
  pub by_jti : Map Str Entry

unfoldable pub new_journal : ℤ → Result Error Journal
new_journal max_entries =
    if ltbℤ max_entries (pos 1)
    then err invalid
    else ok (record { max_entries = pos_part max_entries; by_operation = []; by_jti = [] })

-- The guard of `Consume`.
unfoldable pub is_refused : ℕ → Request → Bool
is_refused now request =
    eq_str request.operation_id []
    || eq_str request.jti []
    || length request.canonical == 0
    || ltb max_document_bytes (length request.canonical)
    || ltb max_document_bytes (length request.decision)
    || not (ltb now request.retain_until)

unfoldable pub duplicate : Entry → Request → Str → Result Error Outcome
duplicate existing request hash =
    if not (eq_str existing.operation_id request.operation_id)
      || not (eq_str existing.jti request.jti)
      || not (eq_str existing.request_hash hash)
    then err replay
    else ok (record { decision = existing.decision; duplicate = true })

abbrev pub new_entry : Request → Str → Entry
new_entry request hash = record {
  operation_id = request.operation_id;
  jti = request.jti;
  request_hash = hash;
  decision = request.decision;
  retain_until = request.retain_until;
}

unfoldable pub insert : Entry → Journal → Journal
insert e j = record j {
  by_operation = put Str-discrete j.by_operation e.operation_id e;
  by_jti = put Str-discrete j.by_jti e.jti e;
}

-- `Consume` behind its guard, with what the two maps hold.
unfoldable pub consume_found :
    Option Entry → Option Entry → Request → Str → Journal → Journal × Result Error Outcome
consume_found (some existing) _ request hash j = (j, duplicate existing request hash)
consume_found none (some existing) request hash j = (j, duplicate existing request hash)
consume_found none none request hash j =
    if leb j.max_entries (length j.by_operation) then (j, err full) else (
      insert (new_entry request hash) j,
      ok (record { decision = request.decision; duplicate = false }),
    )

module _ (sha256 : Str → Str) where
  unfoldable pub consume : ℕ → Request → Journal → Journal × Result Error Outcome
  consume now request j =
      if is_refused now request
      then (j, err invalid)
      else consume_found (get Str-discrete j.by_operation request.operation_id)
          (get Str-discrete j.by_jti request.jti) request (sha256 request.canonical) j

-- The body of the loop of `RemoveExpired`, for the key `id` of the first map.
unfoldable pub remove_expired_key : ℕ → Str → Option Entry → Journal → ℕ × Journal
remove_expired_key now id none j = (0, j)
remove_expired_key now id (some existing) j = if ltb now existing.retain_until then (0, j) else (
  1,
  record j {
    by_operation = delete Str-discrete j.by_operation id;
    by_jti = delete Str-discrete j.by_jti existing.jti;
  },
)

unfoldable pub remove_expired_keys : ℕ → List Str → ℕ → Journal → ℕ × Journal
remove_expired_keys now [] removed j = (removed, j)
remove_expired_keys now (id ∷ keys) removed j =
    let (more, left) = remove_expired_key now id (get Str-discrete j.by_operation id) j in
    remove_expired_keys now keys (removed + more) left

unfoldable pub remove_expired : ℕ → Journal → ℕ × Journal
remove_expired now j = remove_expired_keys now (map (λ p. p.0) j.by_operation) 0 j

unfoldable pub len : Journal → ℕ
len j = length j.by_operation

module _ (hex_encode : Str → Str) where
  abbrev to_record : Entry → Record
  to_record e = record {
    operation_id = e.operation_id;
    jti = e.jti;
    request_hash = hex_encode e.request_hash;
    decision = e.decision;
    retain_until = e.retain_until;
  }

  unfoldable pub insert_sorted : Record → List Record → List Record
  insert_sorted r [] = r ∷ []
  insert_sorted r (x ∷ xs) =
      let rest = insert_sorted r xs in
      if str_lt x.operation_id r.operation_id then x ∷ rest else r ∷ x ∷ xs

  unfoldable pub snapshot_entries : Map Str Entry → List Record
  snapshot_entries [] = []
  snapshot_entries (p ∷ m) = insert_sorted (to_record p.1) (snapshot_entries m)

  -- Journal.Snapshot
  unfoldable pub snapshot : Journal → List Record
  snapshot j = snapshot_entries j.by_operation

abbrev is_some : Option Entry → Bool
is_some none = false
is_some (some e) = true

abbrev pub restored_entry : Record → Str → Entry
restored_entry r raw = record {
  operation_id = r.operation_id;
  jti = r.jti;
  request_hash = raw;
  decision = r.decision;
  retain_until = r.retain_until;
}

module _ (hex_decode : Str → Option Str) where
  -- The body of the loop of `Restore`.
  unfoldable pub restore_record : Record → Journal → Result Error Journal
  restore_record r j = do
    refuse_if
        (eq_str r.operation_id []
          || eq_str r.jti []
          || ltb max_document_bytes (length r.decision)
          || not (ltb unix_epoch r.retain_until))
        invalid
    raw ← or_err (hex_decode r.request_hash) invalid
    refuse_if (not (length raw == 32)) invalid
    refuse_if
        (is_some (get Str-discrete j.by_operation r.operation_id)
          || is_some (get Str-discrete j.by_jti r.jti)
          || leb j.max_entries (length j.by_operation))
        invalid
    ok (insert (restored_entry r raw) j)

  unfoldable pub restore_records : List Record → Journal → Result Error Journal
  restore_records [] j = ok j
  restore_records (r ∷ records) j = do next ← restore_record r j; restore_records records next

  unfoldable pub restore : List Record → ℤ → Result Error Journal
  restore records max_entries = do j ← new_journal max_entries; restore_records records j
