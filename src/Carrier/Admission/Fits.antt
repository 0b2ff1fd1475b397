-- ===== src/Carrier/Admission/Fits.antt =====
-- internal/datacarrier/admission.go: what holds of each entry of a map of admissions.
use paperboat_tunnel.Base.{
  ◌≡◌, ◌≢◌, ◌⊎◌, inl, inr, true, false, [], ◌∷◌, Option, some, arith, All, same, if_cases,
}
use mathlib.Core.Path.{subst}
use paperboat_tunnel.Base.Maps.{get, put, delete}
use paperboat_tunnel.Base.Strings.{Str, Str-discrete}
use paperboat_tunnel.Carrier.Admission.{ExpectedAdmission, key_of}
use paperboat_tunnel.Carrier.Admission.Registry.{Entries, no_admission}

-- An admitted entry satisfies `P` and stands under its key, or is the empty admission.
abbrev pub Fits : (ExpectedAdmission → Type 0) → Str → ExpectedAdmission → Type 0
Fits P k a =
    a.admitted ≡ true → (P a × (k ≡ key_of a)) ⊎ (a ≡ record no_admission { admitted = true })

abbrev pub AllFit : (ExpectedAdmission → Type 0) → Entries → Type 0
AllFit P m = All (λ (e : Str × ExpectedAdmission). Fits P e.0 e.1) m

some_injective : {a b : ExpectedAdmission} → some a ≡ some b → a ≡ b
some_injective h = ground (arith, h)

same_key : (j k : Str) → same Str-discrete j k ≡ true → j ≡ k
same_key j k h = ground (arith, h)

module _ (P : ExpectedAdmission → Type 0) where
  pub put-AllFit :
      (m : Entries) (k : Str) (a : ExpectedAdmission)
      → AllFit P m
      → Fits P k a
      → AllFit P (put Str-discrete m k a)
  unfolding put
  put-AllFit [] k a v w = (w, tt)
  put-AllFit ((j, b) ∷ m) k a v w =
      if_cases (AllFit P) (same Str-discrete j k) (λ _. (w, v.1))
        (λ _. (v.0, put-AllFit m k a v.1 w))

  pub get-Fits :
      (m : Entries) (k : Str) (a : ExpectedAdmission)
      → AllFit P m
      → get Str-discrete m k ≡ some a
      → Fits P k a
  unfolding get
  get-Fits [] k a v h = absurd (ground arith)
  get-Fits ((j, b) ∷ m) k a v h =
      if_cases (λ (o : Option ExpectedAdmission). o ≡ some a → Fits P k a) (same Str-discrete j k)
        (λ e q. subst (Fits P k) (some_injective q) (subst (λ i. Fits P i b) (same_key j k e) v.0))
        (λ _ q. get-Fits m k a v.1 q) h

module _ (P Q : ExpectedAdmission → Type 0) where
  weaken-Fits :
      (k : Str) (a : ExpectedAdmission) → (P a → k ≡ key_of a → Q a) → Fits P k a → Fits Q k a
  weaken-Fits k a f v h = elim (v h) [ inl (p, e) ↦ inl (f p e, e) | inr e ↦ inr e ]

  pub weaken-AllFit :
      (m : Entries) → ((a : ExpectedAdmission) → P a → Q a) → AllFit P m → AllFit Q m
  weaken-AllFit [] f v = tt
  weaken-AllFit ((j, b) ∷ m) f v = (weaken-Fits j b (λ p _. f b p) v.0, weaken-AllFit m f v.1)

  -- What is left behind a deletion stands under another key.
  pub delete-AllFit :
      (m : Entries) (k : Str)
      → ((a : ExpectedAdmission) → P a → key_of a ≢ k → Q a)
      → AllFit P m
      → AllFit Q (delete Str-discrete m k)
  unfolding delete
  delete-AllFit [] k f v = tt
  delete-AllFit ((j, b) ∷ m) k f v =
      if_cases (AllFit Q) (same Str-discrete j k) (λ _. delete-AllFit m k f v.1)
        (λ other. (
          weaken-Fits j b (λ p e. f b p (λ q. ground (arith, other, e, q))) v.0,
          delete-AllFit m k f v.1,
        ))

-- No entry of a pending set is admitted.
abbrev pub NoneAdmitted : Entries → Type 0
NoneAdmitted m = All (λ (e : Str × ExpectedAdmission). e.1.admitted ≡ false) m

pub put-NoneAdmitted :
    (m : Entries) (k : Str) (a : ExpectedAdmission)
    → NoneAdmitted m
    → a.admitted ≡ false
    → NoneAdmitted (put Str-discrete m k a)
unfolding put
put-NoneAdmitted [] k a v w = (w, tt)
put-NoneAdmitted ((j, b) ∷ m) k a v w =
    if_cases NoneAdmitted (same Str-discrete j k) (λ _. (w, v.1))
      (λ _. (v.0, put-NoneAdmitted m k a v.1 w))

pub delete-NoneAdmitted :
    (m : Entries) (k : Str) → NoneAdmitted m → NoneAdmitted (delete Str-discrete m k)
unfolding delete
delete-NoneAdmitted [] k v = tt
delete-NoneAdmitted ((j, b) ∷ m) k v =
    if_cases NoneAdmitted (same Str-discrete j k) (λ _. delete-NoneAdmitted m k v.1)
      (λ _. (v.0, delete-NoneAdmitted m k v.1))
