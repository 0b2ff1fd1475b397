-- ===== src/Carrier/Admission/Acknowledged/Streams.antt =====
-- internal/datacarrier/admission.go: the admissions that let a stream open, behind any calls.
use paperboat_tunnel.Base.{
  ℕ, ◌<◌, ◌≡◌, ◌≢◌, ◌⊎◌, inl, inr, refl, sym, ap, ◌∙◌, true, false, List, [], ◌∷◌, Option, none, ok,
  arith, All, Bool-cases, mem_cases, mem_nil,
}
use mathlib.Core.List.{Memᴰ}
use mathlib.Core.Path.{subst}
use paperboat_tunnel.Base.Strings.{Str}
use paperboat_tunnel.Carrier.Admission.{
  Checks, ExpectedAdmission, Identity, is_private, key_of, valid_identity,
}
use paperboat_tunnel.Connector.Identity.{valid_identifier, identifier_pattern}
use paperboat_tunnel.Carrier.Admission.Pull.{install_pending}
use paperboat_tunnel.Carrier.Admission.Registry.{
  Entries, Registry, close_expected, commit, mark_admitted, new_expected, no_admission,
  remove_admission,
}
use paperboat_tunnel.Carrier.Admission.Stream.{
  PrivateAccessDecision, StreamOpen, authorize_from, authorize_stream, is_allowed, is_candidate,
  matches_open,
}
use paperboat_tunnel.Carrier.Admission.Fits.{AllFit, Fits}
use paperboat_tunnel.Carrier.Admission.Acknowledged.{
  RegistryOk, install_pending-RegistryOk, mark_admitted-RegistryOk,
}
use paperboat_tunnel.Carrier.Admission.Acknowledged.Dropped.{
  WhereDone, commit-RegistryOk, remove_admission-RegistryOk, still,
}

-- The calls by which the edge pulls, acknowledges and detaches admissions.
pub data Call : Type 0 where
  installs : Checks → ℕ → List ExpectedAdmission → Call
  marks : List ExpectedAdmission → Call
  commits : List ExpectedAdmission → Call
  removes : ExpectedAdmission → Call
  closes : Call

unfoldable pub step : Call → Registry → Registry
step (installs checks now xs) r = (install_pending checks now xs r).0
step (marks xs) r = (mark_admitted xs r).0
step (commits xs) r = (commit xs r).0
step (removes a) r = (remove_admission a r).0
step closes r = close_expected r

unfoldable pub run : List Call → Registry → Registry
run [] r = r
run (c ∷ cs) r = run cs (step c r)

-- An admission of a list, as MarkAdmitted makes it.
abbrev pub Marks : List ExpectedAdmission → ExpectedAdmission → Type 0
Marks xs a = (b : ExpectedAdmission) × Memᴰ b xs × (a ≡ record b { admitted = true })

-- What is in force behind a call, where `L` was before it: a MarkAdmitted that succeeds adds its
-- admissions, a Commit that succeeds keeps those of its list, and a Remove that succeeds keeps those
-- with another key.
abbrev pub After : Call → Registry → (ExpectedAdmission → Type 0) → ExpectedAdmission → Type 0
After (marks xs) r L a = L a ⊎ (((mark_admitted xs r).1 ≡ none) × Marks xs a)
After (commits xs) r L a = L a × WhereDone (commit xs r).1 (Memᴰ a xs)
After (removes b) r L a = L a × WhereDone (remove_admission b r).1 (key_of a ≢ key_of b)
After _ r L a = L a

unfoldable pub Live :
    (ExpectedAdmission → Type 0) → List Call → Registry → ExpectedAdmission → Type 0
unfolding step
Live L [] r = L
Live L (c ∷ cs) r = Live (After c r L) cs (step c r)

-- What the calls of a run put in force, where nothing was before.
abbrev pub InForce : List Call → Registry → ExpectedAdmission → Type 0
InForce cs r a = Live (λ b. ⊥) cs r a

marked :
    (xs ys : List ExpectedAdmission)
    → ((b : ExpectedAdmission) → Memᴰ b ys → Memᴰ b xs)
    → All (λ a. Marks xs (record a { admitted = true })) ys
marked xs [] f = tt
marked xs (b ∷ ys) f = ((b, f b (Memᴰ.head refl), refl), marked xs ys (λ c h. f c (Memᴰ.tail h)))

weaken-All :
    (P Q : ExpectedAdmission → Type 0) (xs : List ExpectedAdmission)
    → ((a : ExpectedAdmission) → P a → Q a)
    → All P xs
    → All Q xs
weaken-All P Q [] f v = tt
weaken-All P Q (a ∷ xs) f v = (f a v.0, weaken-All P Q xs f v.1)

module _ (P : ExpectedAdmission → Type 0) where
  step-RegistryOk : (c : Call) (r : Registry) → RegistryOk P r → RegistryOk (After c r P) (step c r)
  unfolding step close_expected
  step-RegistryOk (installs checks now xs) r v = install_pending-RegistryOk P checks now xs r v
  step-RegistryOk (marks xs) r v =
      let Q : ExpectedAdmission → Type 0 = After (marks xs) r P in
      mark_admitted-RegistryOk Q xs r (still P Q r (λ a p. inl p) v) (λ done.
        weaken-All (λ a. Marks xs (record a { admitted = true }))
          (λ a. Q (record a { admitted = true })) xs (λ a h. inr (done, h))
          (marked xs xs (λ b h. h)))
  step-RegistryOk (commits xs) r v = commit-RegistryOk P xs r v
  step-RegistryOk (removes b) r v = remove_admission-RegistryOk P b r v
  step-RegistryOk closes r v = record { current = v.current; pending = v.pending }

run-RegistryOk :
    (P : ExpectedAdmission → Type 0) (cs : List Call) (r : Registry)
    → RegistryOk P r
    → RegistryOk (Live P cs r) (run cs r)
unfolding run Live
run-RegistryOk P [] r v = v
run-RegistryOk P (c ∷ cs) r v = run-RegistryOk (After c r P) cs (step c r) (step-RegistryOk P c r v)

module _ (P : ExpectedAdmission → Type 0) where
  new_expected-RegistryOk :
      (node_id epoch : Str) (maximum : ℕ) (r : Registry)
      → new_expected node_id epoch maximum ≡ ok r
      → RegistryOk P r
  unfolding new_expected
  new_expected-RegistryOk node_id epoch maximum r h =
      let empty : (r.by_key ≡ []) × (r.pending ≡ []) = ground arith in
      record {
        current = subst (AllFit P) (sym empty.0) tt;
        pending =
            subst (λ m. All (λ (e : Str × ExpectedAdmission). e.1.admitted ≡ false) m) (sym empty.1)
              tt;
      }

  entry-Fits : (m : Entries) (e : Str × ExpectedAdmission) → AllFit P m → Memᴰ e m → Fits P e.0 e.1
  entry-Fits [] e v h = absurd (mem_nil h)
  entry-Fits (x ∷ m) e v h = elim (mem_cases h) [
    | inl q ↦ subst (λ (y : Str × ExpectedAdmission). Fits P y.0 y.1) (sym q) v.0
    | inr q ↦ entry-Fits m e v.1 q
  ]

-- What the entry says that lets a stream open.
abbrev pub Authorizes :
    Option PrivateAccessDecision → ℕ → Identity → StreamOpen → ExpectedAdmission → Type 0
Authorizes decision now i wanted a =
    (a.admitted ≡ true)
    × (a.identity ≡ i)
    × (a.route_id ≡ wanted.route_id)
    × (now < a.expires_at)
    × (is_private a ≡ true → is_allowed decision now a ≡ true)

authorize_from-Authorizes :
    (decision : Option PrivateAccessDecision) (now : ℕ) (i : Identity) (wanted : StreamOpen)
    (ranged : List ExpectedAdmission)
    → authorize_from decision now i wanted ranged ≡ ok tt
    → (a : ExpectedAdmission) × Memᴰ a ranged × Authorizes decision now i wanted a
unfolding authorize_from is_candidate
authorize_from-Authorizes decision now i wanted [] h = absurd (ground arith)
authorize_from-Authorizes decision now i wanted (a ∷ ranged) h =
    elim (Bool-cases (is_candidate i wanted a)) [
      | inl q ↦ (a, Memᴰ.head refl, ground (arith, q))
      | inr q ↦
          let rest = authorize_from-Authorizes decision now i wanted ranged (ground (arith, q)) in
          (rest.0, Memᴰ.tail rest.1, rest.2)
    ]

nobody-invalid : valid_identity no_admission.identity ≡ false
unfolding valid_identity valid_identifier identifier_pattern
nobody-invalid = refl

-- Behind any calls on a new registry that pull, acknowledge, commit, detach or close, in any order
-- and whatever their arguments, where a stream is authorized: the registry is not closed, and it has
-- an entry, under its key, of the stream's identity and route that has not expired and that the
-- decision on a private access fits. This entry is an admission that a MarkAdmitted of the run
-- acknowledged, behind which no Remove of its key and no Commit without it succeeded.
pub authorize_stream-acknowledged :
    (node_id epoch : Str) (maximum : ℕ) (r : Registry) (cs : List Call)
    (decision : Option PrivateAccessDecision) (now : ℕ) (i : Identity) (wanted : StreamOpen)
    (ranged : List ExpectedAdmission)
    → new_expected node_id epoch maximum ≡ ok r
    → ((a : ExpectedAdmission) → Memᴰ a ranged → (k : Str) × Memᴰ (k, a) (run cs r).by_key)
    → authorize_stream false decision now i wanted ranged (run cs r) ≡ ok tt
    → (a : ExpectedAdmission) × Memᴰ (key_of a, a) (run cs r).by_key
      × InForce cs r a
      × Authorizes decision now i wanted a
      × (matches_open a.identity wanted ≡ true)
      × ((run cs r).closed ≡ false)
unfolding authorize_stream
authorize_stream-acknowledged node_id epoch maximum r cs decision now i wanted ranged made entries
      h =
    let L = Live (λ b. ⊥) cs r in
    let v = run-RegistryOk (λ b. ⊥) cs r (new_expected-RegistryOk _ node_id epoch maximum r made) in
    let found = authorize_from-Authorizes decision now i wanted ranged (ground (arith, h)) in
    let a = found.0 in
    let (k, there) = entries a found.1 in
    let own : matches_open a.identity wanted ≡ true =
      subst (λ (j : Identity). matches_open j wanted ≡ true) (sym found.2.1) (ground (arith, h)) in
    let alive : (run cs r).closed ≡ false = ground (arith, h) in
    elim (entry-Fits L (run cs r).by_key (k, a) v.current there found.2.0) [
      | inl (p, e) ↦ (a, subst (λ j. Memᴰ (j, a) (run cs r).by_key) e there, p, found.2, own, alive)
      | inr e ↦
          let nobody : i ≡ no_admission.identity =
            sym found.2.1 ∙ ap (λ (x : ExpectedAdmission). x.identity) e in
          absurd (ground (arith, h, nobody-invalid, ap valid_identity nobody))
    ]
