-- ===== src/Carrier/Admission/Peer.antt =====
-- internal/datacarrier/admission.go: the identity of a carrier's certificate.
use paperboat_tunnel.Base.{
  ℕ, ◌≡◌, ◌<◌, refl, Bool, true, false, not, ◌||◌, List, [], ◌∷◌, none, some, ok, arith, leb, All,
  inl, inr, Bool-cases,
}
use mathlib.Core.List.{Memᴰ}
use paperboat_tunnel.Base.Strings.{Str, eq_str}
use paperboat_tunnel.Carrier.Admission.{ExpectedAdmission, Identity}
use paperboat_tunnel.Carrier.Admission.Registry.{Registry}
use paperboat_tunnel.Carrier.Admission.Stream.{binding_from, peer_binding}

module _ (is_named : ExpectedAdmission → Bool) (key thumbprint : Str) (now : ℕ) where
  -- An entry that the certificate fits: admitted, not expired, with its key and its name.
  abbrev pub IsBound : ExpectedAdmission → Type 0
  IsBound a =
      (a.admitted ≡ true)
      × (now < a.expires_at)
      × (a.machine_key ≡ key)
      × (a.machine_thumbprint ≡ thumbprint)
      × (is_named a ≡ true)

  binding_from-some :
      (i j : Identity) (ranged : List ExpectedAdmission)
      → binding_from is_named key thumbprint now (some i) ranged ≡ ok j
      → (i ≡ j) × All (λ a. IsBound a → a.identity ≡ j) ranged
  unfolding binding_from
  binding_from-some i j [] h = (ground (arith, h), tt)
  binding_from-some i j (a ∷ ranged) h =
      let rest : binding_from is_named key thumbprint now (some i) ranged ≡ ok j =
        ground (arith, h) in
      let v = binding_from-some i j ranged rest in (v.0, ((λ b. ground (arith, h, b, v.0)), v.1))

  binding_from-none :
      (j : Identity) (ranged : List ExpectedAdmission)
      → binding_from is_named key thumbprint now none ranged ≡ ok j
      → ((a : ExpectedAdmission) × Memᴰ a ranged × IsBound a × (a.identity ≡ j))
        × All (λ a. IsBound a → a.identity ≡ j) ranged
  unfolding binding_from
  binding_from-none j [] h = absurd (ground (arith, h))
  binding_from-none j (a ∷ ranged) h =
      elim (Bool-cases (
        not a.admitted
        || leb a.expires_at now
        || not (eq_str a.machine_key key)
        || not (eq_str a.machine_thumbprint thumbprint)
        || not (is_named a))) [
          | inl q ↦
              let rest : binding_from is_named key thumbprint now none ranged ≡ ok j =
                ground (arith, h, q) in
              let v = binding_from-none j ranged rest in
              ((v.0.0, Memᴰ.tail v.0.1, v.0.2, v.0.3), ((λ b. absurd (ground (arith, q, b))), v.1))
          | inr q ↦
              let rest : binding_from is_named key thumbprint now (some a.identity) ranged ≡ ok j =
                ground (arith, h, q) in
              let v = binding_from-some a.identity j ranged rest in
              ((a, Memᴰ.head refl, ground (arith, q), v.0), ((λ _. v.0), v.1))
        ]

  -- The identity that PeerBinding returns is that of an entry that the certificate fits, and of each
  -- such entry: a certificate that fits entries of two identities is refused. The registry is open.
  pub peer_binding_unique :
      (j : Identity) (ranged : List ExpectedAdmission) (r : Registry)
      → peer_binding is_named key thumbprint now ranged r ≡ ok j
      → ((a : ExpectedAdmission) × Memᴰ a ranged × IsBound a × (a.identity ≡ j))
        × All (λ a. IsBound a → a.identity ≡ j) ranged
        × (r.closed ≡ false)
  unfolding peer_binding
  peer_binding_unique j ranged r h =
      let v = binding_from-none j ranged (ground (arith, h)) in (v.0, v.1, ground (arith, h))
