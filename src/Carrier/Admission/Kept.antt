-- ===== src/Carrier/Admission/Kept.antt =====
-- internal/datacarrier/admission.go: a pull that is not acknowledged yet closes no route.
use paperboat_tunnel.Base.{
  ℕ, ◌≡◌, true, false, List, [], ◌∷◌, some, Result, ok, err, arith, ltb, if◌then◌else◌, if_cases,
  length, same, Bool-cases, inl, inr,
}
use paperboat_tunnel.Base.Maps.{get, put, get-put}
use paperboat_tunnel.Base.Strings.{Str, Str-discrete}
use paperboat_tunnel.Carrier.Admission.{Checks, Error, ExpectedAdmission}
use paperboat_tunnel.Carrier.Admission.Pull.{
  install_pending, installed, is_admitted, pendings, stand_in,
}
use paperboat_tunnel.Carrier.Admission.Registry.{Done, Entries, Registry}

module _ (checks : Checks) (now : ℕ) (k : Str) (a : ExpectedAdmission)
    (on : a.admitted ≡ true) where
  put-kept :
      (m : Entries) (j : Str) (b : ExpectedAdmission)
      → get Str-discrete m k ≡ some a
      → is_admitted (get Str-discrete m j) ≡ false
      → get Str-discrete (put Str-discrete m j b) k ≡ some a
  put-kept m j b h q = elim (Bool-cases (same Str-discrete j k)) [
    | inl e ↦ absurd (ground (arith, e, h, q, on))
    | inr e ↦ ground (arith, get-put Str-discrete m j k b, e, h)
  ]

  stand_in-kept :
      (next m : Entries)
      → get Str-discrete m k ≡ some a
      → get Str-discrete (stand_in next m) k ≡ some a
  unfolding stand_in
  stand_in-kept [] m h = h
  stand_in-kept ((j, b) ∷ next) m h =
      stand_in-kept next (if is_admitted (get Str-discrete m j) then m else put Str-discrete m j b)
        (if_cases (λ (n : Entries). get Str-discrete n k ≡ some a)
          (is_admitted (get Str-discrete m j)) (λ _. h) (λ q. put-kept m j b h q))

  installed-kept :
      (o : Result Error Entries) (r : Registry)
      → get Str-discrete r.by_key k ≡ some a
      → get Str-discrete (installed o r).0.by_key k ≡ some a
  unfolding installed
  installed-kept (err e) r h = h
  installed-kept (ok next) r h =
      if_cases (λ (d : Done). get Str-discrete d.0.by_key k ≡ some a) r.closed (λ _. h)
        (λ _. stand_in-kept next r.by_key h)

  -- InstallPending keeps each admitted entry as it is, whatever was pulled and whether or not the call
  -- succeeds: the entry leaves the registry only by a later call.
  pub install_pending-kept :
      (xs : List ExpectedAdmission) (r : Registry)
      → get Str-discrete r.by_key k ≡ some a
      → get Str-discrete (install_pending checks now xs r).0.by_key k ≡ some a
  unfolding install_pending
  install_pending-kept xs r h =
      if_cases (λ (d : Done). get Str-discrete d.0.by_key k ≡ some a) (ltb r.maximum (length xs))
        (λ _. h) (λ _. installed-kept (pendings checks now r xs []) r h)
