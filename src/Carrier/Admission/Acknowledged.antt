-- ===== src/Carrier/Admission/Acknowledged.antt =====
-- internal/datacarrier/admission.go: only what the control plane acknowledged lets a carrier open a stream.
pub mod Dropped
pub mod Streams
use paperboat_tunnel.Base.{
  ℕ, ◌≤◌, ◌<◌, ◌≡◌, ◌⊎◌, inl, inr, refl, Bool, true, false, not, ◌&&◌, ◌||◌, List, [], ◌∷◌, Option,
  none, some, Result, ok, err, arith, All, leb, ltb, ◌==◌, if◌then◌else◌, same, if_cases,
  Option-cases, Bool-cases, sym, ap, bind_ok, ok_injective, unless_ok, length,
}
use mathlib.Core.Path.{subst}
use paperboat_tunnel.Base.Maps.{Map, get, put, delete, get-put, get-delete}
use paperboat_tunnel.Base.Strings.{Str, Str-discrete, eq_str}
use paperboat_tunnel.Carrier.Admission.{
  Checks, Error, ExpectedAdmission, Identity, Identity-discrete, exact_equal, exact_equal_lem,
  is_private, key_of, valid_identity, validate_admission,
}
use paperboat_tunnel.Carrier.Admission.Pull.{
  add_new, checked_new, install_pending, installed, is_admitted, pendings, stand_in,
}
use paperboat_tunnel.Carrier.Admission.Registry.{
  Done, Entries, Registry, all_current, all_pending, close_expected, commit, commit_found,
  committed, is_current_entry, is_exact, mark_admitted, mark_all, mark_one, new_expected,
  no_admission, or_zero, remove_admission, remove_over,
}
use paperboat_tunnel.Carrier.Admission.Fits.{
  AllFit, Fits, NoneAdmitted, delete-AllFit, delete-NoneAdmitted, get-Fits, put-AllFit,
  put-NoneAdmitted,
}

add_new-NoneAdmitted :
    (o : Option ExpectedAdmission) (a : ExpectedAdmission) (m n : Entries)
    → NoneAdmitted m
    → a.admitted ≡ false
    → add_new o a m ≡ ok n
    → NoneAdmitted n
unfolding add_new
add_new-NoneAdmitted (some _) a m n v w h = absurd (ground arith)
add_new-NoneAdmitted none a m n v w h =
    subst NoneAdmitted (ok_injective h) (put-NoneAdmitted m (key_of a) a v w)

pendings-NoneAdmitted :
    (checks : Checks) (now : ℕ) (r : Registry) (xs : List ExpectedAdmission) (m n : Entries)
    → NoneAdmitted m
    → pendings checks now r xs m ≡ ok n
    → NoneAdmitted n
unfolding pendings checked_new
pendings-NoneAdmitted checks now r [] m n v h = subst NoneAdmitted (ok_injective h) v
pendings-NoneAdmitted checks now r (a ∷ xs) m n v h =
    let entry : ExpectedAdmission = record a { admitted = false } in
    let next = bind_ok (checked_new checks now r entry entry m) _ h in
    let valid = bind_ok (validate_admission checks entry now r.node_id) _ next.1 in
    pendings-NoneAdmitted checks now r xs next.0 n
      (add_new-NoneAdmitted (get Str-discrete m (key_of entry)) entry m next.0 v refl
        (unless_ok (not (eq_str entry.edge_process_epoch r.process_epoch)) _ valid.2))
      next.2

module _ (P : ExpectedAdmission → Type 0) where
  stand_in-AllFit :
      (checks : Checks) (now : ℕ) (next m : Entries)
      → NoneAdmitted next
      → AllFit P m
      → AllFit P (stand_in next m)
  unfolding stand_in
  stand_in-AllFit checks now [] m w v = v
  stand_in-AllFit checks now ((k, a) ∷ next) m w v =
      stand_in-AllFit checks now next
        (if is_admitted (get Str-discrete m k) then m else put Str-discrete m k a) w.1
        (if_cases (AllFit P) (is_admitted (get Str-discrete m k)) (λ _. v)
          (λ _. put-AllFit P m k a v (λ h. absurd (ground (arith, h, w.0)))))

-- What is pending for an admission that is marked is this admission, or is gone.
abbrev Marked : Entries → ExpectedAdmission → Type 0
Marked m a =
    (get Str-discrete m (key_of a) ≡ none)
    ⊎ ((b : ExpectedAdmission) × (get Str-discrete m (key_of a) ≡ some b)
        × (exact_equal b a ≡ true))

all_pending-Marked :
    (m : Entries) (xs : List ExpectedAdmission) → all_pending m xs ≡ true → All (Marked m) xs
unfolding all_pending is_exact
all_pending-Marked m [] h = tt
all_pending-Marked m (a ∷ xs) h = (
  elim (Option-cases (get Str-discrete m (key_of a))) [
    | inl e ↦ inl e
    | inr (b, e) ↦ inr (b, e, ground (arith, e))
  ],
  all_pending-Marked m xs (ground arith),
)

delete-Marked :
    (m : Entries) (k : Str) (a : ExpectedAdmission)
    → Marked m a
    → Marked (delete Str-discrete m k) a
delete-Marked m k a (inl e) = inl (ground (arith, get-delete Str-discrete m k (key_of a), e))
delete-Marked m k a (inr (b, e, q)) = elim (Bool-cases (same Str-discrete k (key_of a))) [
  | inl s ↦ inl (ground (arith, get-delete Str-discrete m k (key_of a), s))
  | inr s ↦ inr (b, ground (arith, get-delete Str-discrete m k (key_of a), s, e), q)
]

delete-AllMarked :
    (m : Entries) (k : Str) (xs : List ExpectedAdmission)
    → All (Marked m) xs
    → All (Marked (delete Str-discrete m k)) xs
delete-AllMarked m k [] v = tt
delete-AllMarked m k (a ∷ xs) v = (delete-Marked m k a v.0, delete-AllMarked m k xs v.1)

same_admission :
    (b a : ExpectedAdmission)
    → b.admitted ≡ true
    → a.admitted ≡ true
    → exact_equal b a ≡ true
    → a ≡ b
same_admission b a h w q = ground (arith, exact_equal_lem b a q, h, w)

-- The registry between two calls.
pub record RegistryOk (P : ExpectedAdmission → Type 0) (r : Registry) : Type 0 where
  pub current : AllFit P r.by_key
  pub pending : NoneAdmitted r.pending

module _ (P : ExpectedAdmission → Type 0) where
  -- The entry that a marked admission becomes.
  or_zero-Fits :
      (m : Entries) (a : ExpectedAdmission)
      → Marked m a
      → P (record a { admitted = true })
      → Fits P (key_of a) (record (or_zero (get Str-discrete m (key_of a))) { admitted = true })
  unfolding or_zero key_of
  or_zero-Fits m a (inl e) w h = inr (rw e refl)
  or_zero-Fits m a (inr (b, e, q)) w h =
      let same_binding : record b { admitted = true } ≡ record a { admitted = true } =
        ap (λ (x : ExpectedAdmission). record x { admitted = true }) (exact_equal_lem b a q) in
      inl (rw e (subst P (sym same_binding) w, ap key_of (sym same_binding)))

  mark_all-RegistryOk :
      (xs : List ExpectedAdmission) (r : Registry)
      → RegistryOk P r
      → All (Marked r.pending) xs
      → All (λ a. P (record a { admitted = true })) xs
      → RegistryOk P (mark_all xs r)
  unfolding mark_all mark_one
  mark_all-RegistryOk [] r v w q = v
  mark_all-RegistryOk (a ∷ xs) r v w q =
      mark_all-RegistryOk xs (mark_one a r)
        (record {
          current = put-AllFit P r.by_key (key_of a) _ v.current (or_zero-Fits r.pending a w.0 q.0);
          pending = delete-NoneAdmitted r.pending (key_of a) v.pending;
        })
        (delete-AllMarked r.pending (key_of a) xs w.1) q.1

  mark_admitted-RegistryOk :
      (xs : List ExpectedAdmission) (r : Registry)
      → RegistryOk P r
      → ((mark_admitted xs r).1 ≡ none → All (λ a. P (record a { admitted = true })) xs)
      → RegistryOk P (mark_admitted xs r).0
  unfolding mark_admitted
  mark_admitted-RegistryOk xs r v w =
      if_cases
        (λ (o : Done).
          (o.1 ≡ none → All (λ a. P (record a { admitted = true })) xs) → RegistryOk P o.0)
        r.closed (λ _ _. v)
        (λ _.
          if_cases
            (λ (o : Done).
              (o.1 ≡ none → All (λ a. P (record a { admitted = true })) xs) → RegistryOk P o.0)
            (not (all_pending r.pending xs)) (λ _ _. v)
            (λ known q.
              mark_all-RegistryOk xs r v (all_pending-Marked r.pending xs (ground arith)) (q refl)))
        w

  installed-RegistryOk :
      (checks : Checks) (now : ℕ) (o : Result Error Entries) (r : Registry)
      → RegistryOk P r
      → ((next : Entries) → o ≡ ok next → NoneAdmitted next)
      → RegistryOk P (installed o r).0
  unfolding installed
  installed-RegistryOk checks now (err e) r v w = v
  installed-RegistryOk checks now (ok next) r v w =
      if_cases (λ (o : Done). RegistryOk P o.0) r.closed (λ _. v)
        (λ _. record {
          current = stand_in-AllFit P checks now next r.by_key (w next refl) v.current;
          pending = w next refl;
        })

  install_pending-RegistryOk :
      (checks : Checks) (now : ℕ) (xs : List ExpectedAdmission) (r : Registry)
      → RegistryOk P r
      → RegistryOk P (install_pending checks now xs r).0
  unfolding install_pending
  install_pending-RegistryOk checks now xs r v =
      if_cases (λ (o : Done). RegistryOk P o.0) (ltb r.maximum (length xs)) (λ _. v)
        (λ _.
          installed-RegistryOk checks now (pendings checks now r xs []) r v
            (λ next h. pendings-NoneAdmitted checks now r xs [] next tt h))
