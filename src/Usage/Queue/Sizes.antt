-- ===== src/Usage/Queue/Sizes.antt =====
-- internal/usage/counter.go: the size of the pending reports under a write and a removal.
use paperboat_tunnel.Base.{ℕ, ◌+◌, ◌≤◌, ◌≡◌, [], ◌∷◌, some, arith, length}
use paperboat_tunnel.Base.Maps.{Map, get, put, delete, length-delete-le}
use paperboat_tunnel.Base.Strings.{Str, Str-discrete}
use paperboat_tunnel.Usage.Queue.{Report}

-- The bytes of the payloads.
unfoldable pub total : Map Str Report → ℕ
total [] = 0
total (p ∷ m) = length p.1.payload + total m

pub total-put :
    (m : Map Str Report) (k : Str) (r : Report)
    → total (put Str-discrete m k r) ≤ total m + length r.payload
unfolding total put
total-put [] k r = omega arith
total-put ((j, s) ∷ m) k r = ground (arith, total-put m k r)

total-delete-le : (m : Map Str Report) (k : Str) → total (delete Str-discrete m k) ≤ total m
unfolding total delete
total-delete-le [] k = omega arith
total-delete-le ((j, s) ∷ m) k = ground (arith, total-delete-le m k)

pub total-delete :
    (m : Map Str Report) (k : Str) (r : Report)
    → get Str-discrete m k ≡ some r
    → total (delete Str-discrete m k) + length r.payload ≤ total m
unfolding total delete get
total-delete [] k r h = ground arith
total-delete ((j, s) ∷ m) k r h = ground (arith, total-delete m k r, total-delete-le m k)

pub length-put_le :
    (m : Map Str Report) (k : Str) (r : Report) → length (put Str-discrete m k r) ≤ length m + 1
unfolding put
length-put_le [] k r = omega arith
length-put_le ((j, s) ∷ m) k r = ground (arith, length-put_le m k r)

pub length-delete :
    (m : Map Str Report) (k : Str) (r : Report)
    → get Str-discrete m k ≡ some r
    → length (delete Str-discrete m k) + 1 ≤ length m
unfolding delete get
length-delete [] k r h = ground arith
length-delete ((j, s) ∷ m) k r h =
    ground (arith, length-delete m k r, length-delete-le Str-discrete m k)
