-- ===== src/Carrier/Admission/Pull.antt =====
-- internal/datacarrier/admission.go: the calls of `ExpectedAdmissionRegistry` that take in admissions.
use mathlib.Core.Bool.{Bool-discrete}
use paperboat_tunnel.Base.{
  ℕ, Bool, false, not, ◌&&◌, List, [], ◌∷◌, Option, none, some, Result, ok, err, ◌>>=◌, leb, ltb,
  ◌==◌, if◌then◌else◌, length, same,
}
use paperboat_tunnel.Base.Maps.{get, put}
use paperboat_tunnel.Base.Strings.{Str-discrete, eq_str}
use paperboat_tunnel.Carrier.Admission.{
  Checks, Error, ExpectedAdmission, carrier_closed, conflict, exact_equal, identity_equal, key_of,
  validate_admission,
}
use paperboat_tunnel.Carrier.Admission.Registry.{Done, Entries, Registry}

-- `next[key]` is set where it is missing.
unfoldable pub add_new :
    Option ExpectedAdmission → ExpectedAdmission → Entries → Result Error Entries
add_new (some _) a m = err conflict
add_new none a m = ok (put Str-discrete m (key_of a) a)

-- An admission of the prior set stays admitted if its identity and generations are the same.
unfoldable pub inherit : Option ExpectedAdmission → ExpectedAdmission → ExpectedAdmission
inherit none a = a
inherit (some old) a =
    if identity_equal old a
      && old.attachment_generation == a.attachment_generation
      && old.lease_generation == a.lease_generation
      && old.route_revision == a.route_revision
    then record a { admitted = old.admitted }
    else a

unfoldable pub replaced_by : Result Error Entries → Registry → Done
replaced_by (err e) r = (r, some e)
replaced_by (ok next) r =
    if r.closed then (r, some carrier_closed) else (record r { by_key = next; pending = [] }, none)

abbrev pub is_admitted : Option ExpectedAdmission → Bool
is_admitted none = false
is_admitted (some a) = a.admitted

-- A pending entry stands in for a missing one or for one that is not admitted.
unfoldable pub stand_in : Entries → Entries → Entries
stand_in [] m = m
stand_in ((k, a) ∷ next) m =
    stand_in next (if is_admitted (get Str-discrete m k) then m else put Str-discrete m k a)

unfoldable pub installed : Result Error Entries → Registry → Done
installed (err e) r = (r, some e)
installed (ok next) r =
    if r.closed
    then (r, some carrier_closed)
    else (record r { pending = next; by_key = stand_in next r.by_key }, none)

unfoldable pub upsert_over : Option ExpectedAdmission → ExpectedAdmission → Registry → Done
upsert_over (some current) a r =
    if exact_equal current a && same Bool-discrete current.admitted a.admitted
    then (r, none)
    else if ltb a.attachment_generation current.attachment_generation
    then (r, some conflict)
    else (record r { by_key = put Str-discrete r.by_key (key_of a) a }, none)
upsert_over none a r =
    if leb r.maximum (length r.by_key)
    then (r, some conflict)
    else (record r { by_key = put Str-discrete r.by_key (key_of a) a }, none)

unfoldable pub upsert_checked : Result Error (Unit {0}) → ExpectedAdmission → Registry → Done
upsert_checked (err e) a r = (r, some e)
upsert_checked (ok _) a r =
    if not (eq_str a.edge_process_epoch r.process_epoch)
    then (r, some conflict)
    else if r.closed
    then (r, some carrier_closed)
    else upsert_over (get Str-discrete r.by_key (key_of a)) a r

module _ (checks : Checks) (now : ℕ) where
  unfoldable pub checked_new :
      Registry → ExpectedAdmission → ExpectedAdmission → Entries → Result Error Entries
  checked_new r a entry m = validate_admission checks a now r.node_id >>= λ _.
      if not (eq_str a.edge_process_epoch r.process_epoch)
      then err conflict
      else add_new (get Str-discrete m (key_of entry)) entry m

  -- The loop of `Replace`.
  unfoldable pub replacements : Registry → List ExpectedAdmission → Entries → Result Error Entries
  replacements r [] m = ok m
  replacements r (a ∷ xs) m =
      checked_new r a (inherit (get Str-discrete r.by_key (key_of a)) a) m >>= λ next.
      replacements r xs next

  -- The loop of `InstallPending`.
  unfoldable pub pendings : Registry → List ExpectedAdmission → Entries → Result Error Entries
  pendings r [] m = ok m
  pendings r (a ∷ xs) m =
      checked_new r (record a { admitted = false }) (record a { admitted = false }) m >>= λ next.
      pendings r xs next

  unfoldable pub replace_admissions : List ExpectedAdmission → Registry → Done
  replace_admissions xs r =
      if ltb r.maximum (length xs) then (r, some conflict) else replaced_by (replacements r xs []) r

  unfoldable pub install_pending : List ExpectedAdmission → Registry → Done
  install_pending xs r =
      if ltb r.maximum (length xs) then (r, some conflict) else installed (pendings r xs []) r

  unfoldable pub upsert_admission : ExpectedAdmission → Registry → Done
  upsert_admission a r = upsert_checked (validate_admission checks a now r.node_id) a r
