-- ===== src/Base/Strings.antt =====
-- Go's strings, as their bytes, and what the program uses of package strings.
use Prim.Native.Char.{code}
use Prim.Native.Nat.{ℕ, suc, ◌-◌}
use Prim.Native.String.{String}
use mathlib.Core.Bool.{Bool, false, ◌&&◌, ◌||◌}
use mathlib.Core.List.{List, [], ◌∷◌}
use native.Mathlib.Decide.{ℕ_discrete}
use paperboat_tunnel.Base.Tests.{leb, ◌==◌, same, if◌then◌else◌}
use paperboat_tunnel.Base.Lists.{length, take, drop}

abbrev pub Str : Type 0
Str = List ℕ

abbrev pub codes : String → Str
codes String.[] = []
codes (String.◌∷◌ c s) = code c ∷ codes s

unfoldable pub Str-discrete : Discrete Str
unfolding ℕ_discrete
Str-discrete = hlevel ℕ_discrete

abbrev pub eq_str : Str → Str → Bool
eq_str = same Str-discrete

-- strings.HasPrefix
unfoldable pub has_prefix : Str → Str → Bool
has_prefix s p = leb (length p) (length s) && eq_str (take (length p) s) p

-- strings.HasSuffix
unfoldable pub has_suffix : Str → Str → Bool
has_suffix s p = leb (length p) (length s) && eq_str (drop (length s - length p) s) p

-- strings.TrimSuffix
unfoldable pub trim_suffix : Str → Str → Str
unfolding has_suffix
trim_suffix s p = if has_suffix s p then take (length s - length p) s else s

-- strings.ContainsRune of an ASCII character
unfoldable pub contains : Str → ℕ → Bool
contains [] c = false
contains (x ∷ s) c = x == c || contains s c

-- strings.Count of an ASCII character
unfoldable pub count : Str → ℕ → ℕ
count [] c = 0
count (x ∷ s) c = let rest = count s c in if x == c then suc rest else rest
