-- ===== src/Base/Affix.antt =====
-- Prefixes, suffixes and the first occurrence of a character.
use paperboat_tunnel.Base.{
  ℕ, zero, suc, ◌-◌, ◌≡◌, refl, ap, true, false, [], ◌∷◌, ◌++◌, arith, length, take, drop,
  length-append, take-append-drop, take_of_append,
}
use paperboat_tunnel.Base.Strings.{Str, has_suffix, has_prefix, trim_suffix, contains}

drop_of_append : (xs ys : Str) → drop (length xs) (xs ++ ys) ≡ ys
drop_of_append [] ys = refl
drop_of_append (x ∷ xs) ys = drop_of_append xs ys

-- A text that ends in a suffix is what stands before the suffix, and the suffix.
pub has_suffix-append : (s p : Str) → has_suffix s p ≡ true → s ≡ trim_suffix s p ++ p
unfolding has_suffix trim_suffix
has_suffix-append s p h = ground (arith, take-append-drop (length s - length p) s)

pub append-has_suffix : (s p : Str) → has_suffix (s ++ p) p ≡ true
unfolding has_suffix
append-has_suffix s p =
    ground (arith, drop_of_append s p, length-append s p, ap (λ (n : ℕ). drop n (s ++ p)) diff)
  where
    diff : length (s ++ p) - length p ≡ length s
    diff = omega (arith, length-append s p)

pub trim_suffix_of_append : (s p : Str) → trim_suffix (s ++ p) p ≡ s
unfolding trim_suffix
trim_suffix_of_append s p =
    ground (arith, append-has_suffix s p, take_of_append s p, ap (λ (n : ℕ). take n (s ++ p)) diff)
  where
    diff : length (s ++ p) - length p ≡ length s
    diff = omega (arith, length-append s p)

pub take-length : (s : Str) → take (length s) s ≡ s
take-length [] = refl
take-length (x ∷ s) = rw (take-length s)

take_of_take : (n : ℕ) (s p q : Str) → take n s ≡ p ++ q → take (length p) s ≡ p
take_of_take n s [] q h = refl
take_of_take zero s (x ∷ p) q h = cc
take_of_take (suc n) [] (x ∷ p) q h = cc
take_of_take (suc n) (y ∷ s) (x ∷ p) q h = ground (arith, take_of_take n s p q (cc))

-- A text that begins with `p` and more shows `p` by its length.
pub take_of_has_prefix : (s p q : Str) → has_prefix s (p ++ q) ≡ true → take (length p) s ≡ p
unfolding has_prefix
take_of_has_prefix s p q h = take_of_take (length (p ++ q)) s p q (ground arith)

-- The text behind the first occurrence of a character is determined.
pub after_first :
    (c : ℕ) (p q s t : Str)
    → contains p c ≡ false
    → contains q c ≡ false
    → p ++ c ∷ s ≡ q ++ c ∷ t
    → s ≡ t
unfolding contains
after_first c [] [] s t hp hq e = cc
after_first c [] (y ∷ q) s t hp hq e = ground arith
after_first c (x ∷ p) [] s t hp hq e = ground arith
after_first c (x ∷ p) (y ∷ q) s t hp hq e = after_first c p q s t (ground arith) (ground arith) (cc)
