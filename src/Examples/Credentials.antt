-- ===== src/Examples/Credentials.antt =====
-- internal/operation/journal.go: a credential that is used twice.
use paperboat_tunnel.Base.{◌≡◌, refl, inr, true, false, [], ◌∷◌, Option, some, ok, pos}
use paperboat_tunnel.Base.Maps.{get, put}
use paperboat_tunnel.Base.Strings.{Str, Str-discrete, codes}
use paperboat_tunnel.Operation.Journal.{
  Journal, Outcome, Record, Request, consume, consume_found, duplicate, insert, is_refused,
  new_entry, new_journal, restore, restore_record, restore_records, restored_entry,
}
use paperboat_tunnel.Operation.Journal.Invariant.{
  consumes, removes, run, restored-JournalOk, JournalOk, new_journal-JournalOk,
}
use paperboat_tunnel.Operation.Journal.Single.{consume-again, consume-single}

-- A stand-in for crypto/sha256.
abbrev hash : Str → Str
hash s = s

abbrev fresh : Journal
fresh = record { max_entries = 2; by_operation = []; by_jti = [] }

fresh_made : new_journal (pos 2) ≡ ok fresh
unfolding new_journal
fresh_made = refl

abbrev first_use : Request
first_use = record {
  operation_id = codes "op";
  jti = codes "j";
  canonical = codes "{}";
  decision = codes "yes";
  retain_until = 9;
}

abbrev used : Journal
used = record {
  max_entries = 2;
  by_operation = (codes "op", new_entry first_use (codes "{}")) ∷ [];
  by_jti = (codes "j", new_entry first_use (codes "{}")) ∷ [];
}

abbrev granted : Outcome
granted = record { decision = codes "yes"; duplicate = false }

abbrev granted_again : Outcome
granted_again = record { decision = codes "yes"; duplicate = true }

first_granted : consume hash 5 first_use fresh ≡ (used, ok granted)
unfolding consume consume_found insert is_refused get put Str-discrete
first_granted = refl

second_granted : consume hash 6 first_use used ≡ (used, ok granted_again)
unfolding consume consume_found duplicate is_refused get put Str-discrete
second_granted = refl

in_time : is_refused 6 first_use ≡ false
unfolding is_refused Str-discrete
in_time = refl

consume-again_example : consume hash 6 first_use used ≡ (used, ok granted_again)
consume-again_example =
    consume-again hash 5 6 first_use fresh used granted
      (new_journal-JournalOk (pos 2) fresh fresh_made) first_granted in_time

consume-single_example :
    (first_use.operation_id ≡ first_use.operation_id)
    × (first_use.jti ≡ first_use.jti)
    × (hash first_use.canonical ≡ hash first_use.canonical)
    × (granted_again.decision ≡ granted.decision)
    × (granted_again.duplicate ≡ true)
    × (used ≡ used)
consume-single_example =
    consume-single hash 5 6 first_use first_use fresh used used granted granted_again
      (new_journal-JournalOk (pos 2) fresh fresh_made) first_granted (inr refl) second_granted

-- A stand-in for encoding/hex.
abbrev decode : Str → Option Str
decode s = some s

abbrev long_hash : Str
long_hash = codes "0123456789abcdef0123456789abcdef"

abbrev kept : Record
kept = record {
  operation_id = codes "old";
  jti = codes "k";
  request_hash = long_hash;
  decision = codes "no";
  retain_until = 62135596800000000009;
}

abbrev restored : Journal
restored = record {
  max_entries = 2;
  by_operation = (codes "old", restored_entry kept long_hash) ∷ [];
  by_jti = (codes "k", restored_entry kept long_hash) ∷ [];
}

record_accepted : restore decode (kept ∷ []) (pos 2) ≡ ok restored
unfolding restore restore_records restore_record new_journal insert get put Str-discrete
record_accepted = refl

restored-JournalOk_example : JournalOk (run hash (consumes 5 first_use ∷ removes 10 ∷ []) restored)
restored-JournalOk_example =
    restored-JournalOk hash decode (kept ∷ []) (pos 2) restored
      (consumes 5 first_use ∷ removes 10 ∷ []) record_accepted
