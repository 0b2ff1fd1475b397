-- ===== src/Carrier/Admission/Acknowledged/Dropped.antt =====
-- internal/datacarrier/admission.go: what a detach and a commit take out of the registry.
use paperboat_tunnel.Base.{
  ◌≡◌, ◌≢◌, inl, inr, refl, true, not, List, [], ◌∷◌, Option, none, some, arith, All, same,
  if_cases, Option-cases, sym, ◌∙◌,
}
use mathlib.Core.List.{Memᴰ}
use mathlib.Core.Path.{subst}
use paperboat_tunnel.Base.Maps.{get, put, delete_absent}
use paperboat_tunnel.Base.Strings.{Str, Str-discrete}
use paperboat_tunnel.Carrier.Admission.{Error, ExpectedAdmission, exact_equal, key_of}
use paperboat_tunnel.Carrier.Admission.Registry.{
  Done, Entries, Registry, all_current, commit, commit_found, committed, is_current_entry,
  remove_admission, remove_over,
}
use paperboat_tunnel.Carrier.Admission.Fits.{AllFit, Fits, delete-AllFit, get-Fits, weaken-AllFit}
use paperboat_tunnel.Carrier.Admission.Acknowledged.{RegistryOk, same_admission}

-- `K`, where a call succeeded.
abbrev pub WhereDone : Option Error → Type 0 → Type 0
WhereDone none K = K
WhereDone (some e) K = Unit

module _ (P : ExpectedAdmission → Type 0) where
  pub still :
      (Q : ExpectedAdmission → Type 0) (r : Registry)
      → ((a : ExpectedAdmission) → P a → Q a)
      → RegistryOk P r
      → RegistryOk Q r
  still Q r f v = record { current = weaken-AllFit P Q r.by_key f v.current; pending = v.pending }

  -- Behind a detach: what `P` holds of and what has another key.
  abbrev pub Remains : ExpectedAdmission → Option Error → ExpectedAdmission → Type 0
  Remains b e a = P a × WhereDone e (key_of a ≢ key_of b)

  remove_over-RegistryOk :
      (o : Option ExpectedAdmission) (b : ExpectedAdmission) (r : Registry)
      → get Str-discrete r.by_key (key_of b) ≡ o
      → RegistryOk P r
      → RegistryOk (Remains b (remove_over o b r).1) (remove_over o b r).0
  unfolding remove_over
  remove_over-RegistryOk none b r h v = record {
    current =
        subst (AllFit (Remains b none)) (delete_absent Str-discrete r.by_key (key_of b) h)
          (delete-AllFit P (Remains b none) r.by_key (key_of b) (λ a p q. (p, q)) v.current);
    pending = v.pending;
  }
  remove_over-RegistryOk (some current) b r h v =
      if_cases (λ (o : Done). RegistryOk (Remains b o.1) o.0) (not (exact_equal current b))
        (λ _. still _ r (λ a p. (p, tt)) v)
        (λ _. record {
          current =
              delete-AllFit P (Remains b none) r.by_key (key_of b) (λ a p q. (p, q)) v.current;
          pending = v.pending;
        })

  pub remove_admission-RegistryOk :
      (b : ExpectedAdmission) (r : Registry)
      → RegistryOk P r
      → RegistryOk (Remains b (remove_admission b r).1) (remove_admission b r).0
  unfolding remove_admission
  remove_admission-RegistryOk b r v =
      remove_over-RegistryOk (get Str-discrete r.by_key (key_of b)) b r refl v

-- The entries of the set that `Commit` makes are admissions of its list, under their keys.
abbrev IsFrom : List ExpectedAdmission → Str × ExpectedAdmission → Type 0
IsFrom xs e = Memᴰ e.1 xs × (e.0 ≡ key_of e.1)

put-IsFrom :
    (xs : List ExpectedAdmission) (a : ExpectedAdmission) (m : Entries)
    → Memᴰ a xs
    → All (IsFrom xs) m
    → All (IsFrom xs) (put Str-discrete m (key_of a) a)
unfolding put
put-IsFrom xs a [] w v = ((w, refl), tt)
put-IsFrom xs a ((j, b) ∷ m) w v =
    if_cases (All (IsFrom xs)) (same Str-discrete j (key_of a)) (λ _. ((w, refl), v.1))
      (λ _. (v.0, put-IsFrom xs a m w v.1))

committed-IsFrom :
    (xs ys : List ExpectedAdmission) (m next : Entries)
    → ((a : ExpectedAdmission) → Memᴰ a ys → Memᴰ a xs)
    → All (IsFrom xs) m
    → committed ys m ≡ some next
    → All (IsFrom xs) next
unfolding committed
committed-IsFrom xs [] m next f v h = subst (All (IsFrom xs)) (ground (arith, h)) v
committed-IsFrom xs (a ∷ ys) m next f v h =
    if_cases (λ (o : Option Entries). o ≡ some next → All (IsFrom xs) next) a.admitted
      (λ _ q.
        committed-IsFrom xs ys (put Str-discrete m (key_of a) a) next (λ b w. f b (Memᴰ.tail w))
          (put-IsFrom xs a m (f a (Memᴰ.head refl)) v) q)
      (λ _ q. absurd (ground (arith, q))) h

module _ (P : ExpectedAdmission → Type 0) (xs : List ExpectedAdmission) where
  -- Behind a commit: what `P` holds of and what is in the list.
  abbrev pub Chosen : Option Error → ExpectedAdmission → Type 0
  Chosen e a = P a × WhereDone e (Memᴰ a xs)

  -- An admission that equals an admitted entry fits as it does.
  current-Fits :
      (k : Str) (b a : ExpectedAdmission)
      → Fits P k b
      → b.admitted ≡ true
      → exact_equal b a ≡ true
      → IsFrom xs (k, a)
      → Fits (Chosen none) k a
  current-Fits k b a v h q from w =
      let e : a ≡ b = same_admission b a h w q in
      elim (v h) [ inl (p, _) ↦ inl ((subst P (sym e) p, from.0), from.1) | inr z ↦ inr (e ∙ z) ]

  all_current-AllFit :
      (m next : Entries)
      → AllFit P m
      → All (IsFrom xs) next
      → all_current m next ≡ true
      → AllFit (Chosen none) next
  unfolding all_current is_current_entry
  all_current-AllFit m [] v from h = tt
  all_current-AllFit m ((k, a) ∷ next) v from h = (
    elim (Option-cases (get Str-discrete m k)) [
      | inl e ↦ absurd (ground (arith, e))
      | inr (b, e) ↦
          current-Fits k b a (get-Fits P m k b v e) (ground (arith, e)) (ground (arith, e)) from.0
    ],
    all_current-AllFit m next v from.1 (ground arith),
  )

  commit_found-RegistryOk :
      (o : Option Entries) (r : Registry)
      → ((next : Entries) → o ≡ some next → All (IsFrom xs) next)
      → RegistryOk P r
      → RegistryOk (Chosen (commit_found o r).1) (commit_found o r).0
  unfolding commit_found
  commit_found-RegistryOk none r from v = still P _ r (λ a p. (p, tt)) v
  commit_found-RegistryOk (some next) r from v =
      let Q : Done → Type 0 = λ d. RegistryOk (Chosen d.1) d.0 in
      if_cases Q r.closed (λ _. still P _ r (λ a p. (p, tt)) v)
        λ _.
          if_cases Q (not (all_current r.by_key next)) (λ _. still P _ r (λ a p. (p, tt)) v)
            (λ h. record {
              current = all_current-AllFit r.by_key next v.current (from next refl) (ground arith);
              pending = tt;
            })

  pub commit-RegistryOk :
      (r : Registry) → RegistryOk P r → RegistryOk (Chosen (commit xs r).1) (commit xs r).0
  unfolding commit
  commit-RegistryOk r v =
      commit_found-RegistryOk (committed xs []) r
        (λ next h. committed-IsFrom xs xs [] next (λ a w. w) tt h) v
