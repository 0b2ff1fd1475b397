-- ===== src/Carrier/Admission/Registry.antt =====
-- internal/datacarrier/admission.go: `ExpectedAdmissionRegistry`, with the calls that
-- acknowledge, commit and detach admissions. The channel `changed`, which only
-- wakes WaitForIdentity, is left out.

use paperboat_tunnel.Base.{
  ℕ, Bool, true, false, not, ◌&&◌, ◌||◌, List, [], ◌∷◌, Option, none, some, Result, ok, err, ltb,
  ◌==◌, if◌then◌else◌,
}
use paperboat_tunnel.Base.Maps.{Map, get, put, delete}
use paperboat_tunnel.Base.Strings.{Str, Str-discrete}
use paperboat_tunnel.Connector.Identity.{valid_identifier}
use paperboat_tunnel.Carrier.Admission.{
  Error, ExpectedAdmission, Identity, carrier_closed, conflict, exact_equal, invalid_config, key_of,
  valid_epoch,
}

abbrev pub Entries : Type 0
Entries = Map Str ExpectedAdmission

pub record Registry : Type 0 where
  pub node_id : Str
  pub process_epoch : Str
  pub maximum : ℕ
  pub closed : Bool
  pub by_key : Entries
  pub pending : Entries

abbrev pub max_expected_admissions : ℕ
max_expected_admissions = 4096

-- The configured maximum, where 0 means the default.
abbrev pub maximum_or_default : ℕ → ℕ
maximum_or_default n = if n == 0 then max_expected_admissions else n

unfoldable pub new_expected : Str → Str → ℕ → Result Error Registry
unfolding valid_identifier valid_epoch
new_expected node_id process_epoch maximum =
    if not (valid_identifier node_id)
      || not (valid_epoch process_epoch)
      || ltb max_expected_admissions (maximum_or_default maximum)
    then err invalid_config
    else ok (record {
      node_id = node_id;
      process_epoch = process_epoch;
      maximum = maximum_or_default maximum;
      closed = false;
      by_key = [];
      pending = [];
    })

abbrev pub Done : Type 0
Done = Registry × Option Error

unfoldable pub is_exact : Option ExpectedAdmission → ExpectedAdmission → Bool
is_exact none a = false
is_exact (some current) a = exact_equal current a

-- The first loop of `MarkAdmitted`.
unfoldable pub all_pending : Entries → List ExpectedAdmission → Bool
all_pending pending [] = true
all_pending pending (a ∷ xs) =
    is_exact (get Str-discrete pending (key_of a)) a && all_pending pending xs

abbrev pub no_identity : Identity
no_identity = record {
  account_id = [];
  host_id = [];
  tunnel_id = [];
  connector_id = [];
  session_id = [];
  process_generation = 0;
  generation = 0;
}

-- The zero value that Go reads at a missing key.
abbrev pub no_admission : ExpectedAdmission
no_admission = record {
  schema = [];
  kind = [];
  edge_node_id = [];
  preview_id = [];
  operation_id = [];
  owner_device_id = [];
  owner_session_id = [];
  identity = no_identity;
  lease_generation = 0;
  config_generation = 0;
  config_content_hash = [];
  route_id = [];
  edge_process_epoch = [];
  server_spki = [];
  server_chain = [];
  access_mode = [];
  route_kind = [];
  hostname = [];
  route_revision = 0;
  attachment_generation = 0;
  endpoint = [];
  expires_at = 0;
  machine_key = [];
  machine_thumbprint = [];
  admitted = false;
}

unfoldable pub or_zero : Option ExpectedAdmission → ExpectedAdmission
or_zero none = no_admission
or_zero (some a) = a

unfoldable pub mark_one : ExpectedAdmission → Registry → Registry
unfolding or_zero
mark_one a r = record r {
  by_key =
      put Str-discrete r.by_key (key_of a)
        (record (or_zero (get Str-discrete r.pending (key_of a))) { admitted = true });
  pending = delete Str-discrete r.pending (key_of a);
}

-- The second loop of `MarkAdmitted`.
unfoldable pub mark_all : List ExpectedAdmission → Registry → Registry
mark_all [] r = r
mark_all (a ∷ xs) r = mark_all xs (mark_one a r)

unfoldable pub mark_admitted : List ExpectedAdmission → Registry → Done
mark_admitted xs r =
    if r.closed
    then (r, some carrier_closed)
    else if not (all_pending r.pending xs)
    then (r, some conflict)
    else (mark_all xs r, none)

-- The new set of `Commit`; none if an admission in it is not admitted.
unfoldable pub committed : List ExpectedAdmission → Entries → Option Entries
committed [] m = some m
committed (a ∷ xs) m = if a.admitted then committed xs (put Str-discrete m (key_of a) a) else none

unfoldable pub is_current_entry : Option ExpectedAdmission → ExpectedAdmission → Bool
is_current_entry none a = false
is_current_entry (some current) a = current.admitted && exact_equal current a

unfoldable pub all_current : Entries → Entries → Bool
all_current by_key [] = true
all_current by_key ((k, a) ∷ next) =
    is_current_entry (get Str-discrete by_key k) a && all_current by_key next

unfoldable pub commit_found : Option Entries → Registry → Done
commit_found none r = (r, some conflict)
commit_found (some next) r =
    if r.closed
    then (r, some carrier_closed)
    else if not (all_current r.by_key next)
    then (r, some conflict)
    else (record r { by_key = next; pending = [] }, none)

unfoldable pub commit : List ExpectedAdmission → Registry → Done
commit xs r = commit_found (committed xs []) r

unfoldable pub remove_over : Option ExpectedAdmission → ExpectedAdmission → Registry → Done
remove_over none a r = (r, none)
remove_over (some current) a r =
    if not (exact_equal current a)
    then (r, some conflict)
    else (record r { by_key = delete Str-discrete r.by_key (key_of a) }, none)

unfoldable pub remove_admission : ExpectedAdmission → Registry → Done
remove_admission a r = remove_over (get Str-discrete r.by_key (key_of a)) a r

unfoldable pub close_expected : Registry → Registry
close_expected r = record r { closed = true }
