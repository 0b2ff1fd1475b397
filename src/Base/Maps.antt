-- ===== src/Base/Maps.antt =====
-- Go's maps, as association lists over keys with decidable equality. `put` replaces in place, so
-- no key stands twice in a map that is built from `[]`.
use mathlib.Core.Path.{◌≡◌, refl}
use mathlib.Core.Option.{Option, none, some}
use mathlib.Core.List.{List, [], ◌∷◌}
use Prim.Native.Nat.{◌+◌, ◌≤◌}
use native.Mathlib.Omega.{arith}
use paperboat_tunnel.Base.Tests.{if◌then◌else◌, same}
use paperboat_tunnel.Base.Lists.{length}

abbrev pub Map {ℓ κ} : Type ℓ → Type κ → Type (ℓ ⊔ κ)
Map K V = List (K × V)

module _ {ℓ κ} {K : Type ℓ} {V : Type κ} (d : Discrete K) where
  unfoldable pub get : Map K V → K → Option V
  get [] k = none
  get ((j, v) ∷ m) k = if same d j k then some v else get m k

  unfoldable pub put : Map K V → K → V → Map K V
  put [] k v = (k, v) ∷ []
  put ((j, w) ∷ m) k v = let rest = put m k v in if same d j k then (k, v) ∷ m else (j, w) ∷ rest

  unfoldable pub delete : Map K V → K → Map K V
  delete [] k = []
  delete ((j, w) ∷ m) k = let rest = delete m k in if same d j k then rest else (j, w) ∷ rest

  pub get-put :
      (m : Map K V) (k j : K) (v : V) → get (put m k v) j ≡ (if same d k j then some v else get m j)
  unfolding get put
  get-put [] k j v = refl
  get-put ((i, w) ∷ m) k j v = ground (arith, get-put m k j v)

  pub get-delete :
      (m : Map K V) (k j : K) → get (delete m k) j ≡ (if same d k j then none else get m j)
  unfolding get delete
  get-delete [] k j = ground arith
  get-delete ((i, w) ∷ m) k j = ground (arith, get-delete m k j)

  -- Writing a key that is there keeps the size, and a new key adds one.
  pub length-put_old :
      (m : Map K V) (k : K) (v w : V) → get m k ≡ some w → length (put m k v) ≡ length m
  unfolding get put
  length-put_old [] k v w h = ground arith
  length-put_old ((i, u) ∷ m) k v w h = ground (arith, length-put_old m k v w)

  pub length-put_new :
      (m : Map K V) (k : K) (v : V) → get m k ≡ none → length (put m k v) ≡ length m + 1
  unfolding get put
  length-put_new [] k v h = refl
  length-put_new ((i, u) ∷ m) k v h = ground (arith, length-put_new m k v)

  pub length-delete-le : (m : Map K V) (k : K) → length (delete m k) ≤ length m
  unfolding delete
  length-delete-le [] k = omega arith
  length-delete-le ((i, u) ∷ m) k = ground (arith, length-delete-le m k)

  pub delete_absent : (m : Map K V) (k : K) → get m k ≡ none → delete m k ≡ m
  unfolding get delete
  delete_absent [] k h = refl
  delete_absent ((i, u) ∷ m) k h = ground (arith, delete_absent m k)
