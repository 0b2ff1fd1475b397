-- ===== src/Go/Bytes.antt =====
-- Byte slices and encoding/binary, on lists of bytes.
use paperboat_tunnel.Base.{
  ℕ, zero, suc, ◌+◌, ◌*◌, ◌/◌, ◌%◌, ◌-◌, ◌≡◌, refl, sym, [], ◌∷◌, ◌++◌, arith, length, take, drop,
  take_of_append,
}
use paperboat_tunnel.Base.Strings.{Str}
use paperboat_tunnel.Go.Text.{byte_at}

-- binary.BigEndian.PutUint16 of a number that is cut to 16 bits.
abbrev pub put_be16 : ℕ → Str
put_be16 n = (n / 256 % 256) ∷ (n % 256) ∷ []

-- binary.BigEndian.Uint16 at an index
abbrev pub be16_at : Str → ℕ → ℕ
be16_at s i = byte_at s i * 256 + byte_at s (suc i)

-- `s[from:from+size]`
abbrev pub slice : ℕ → ℕ → Str → Str
slice from size s = take size (drop from s)

-- A cleared slice.
unfoldable pub zeros : ℕ → Str
zeros zero = []
zeros (suc n) = 0 ∷ zeros n

pub length-zeros : (n : ℕ) → length (zeros n) ≡ n
unfolding zeros
length-zeros zero = refl
length-zeros (suc n) = omega (arith, length-zeros n)

module _ (xs ys : Str) (n : ℕ) where
  pub take_behind : length xs ≡ n → take n (xs ++ ys) ≡ xs
  take_behind e = rw (sym e) (take_of_append xs ys)

pub drop_behind : (xs ys : Str) (n : ℕ) → length xs ≡ n → drop n (xs ++ ys) ≡ ys
drop_behind [] ys zero e = refl
drop_behind [] ys (suc n) e = absurd (omega arith)
drop_behind (x ∷ xs) ys zero e = absurd (omega arith)
drop_behind (x ∷ xs) ys (suc n) e = drop_behind xs ys n (omega arith)

pub byte_at-append :
    (xs ys : Str) (i k : ℕ) → k ≡ length xs + i → byte_at (xs ++ ys) k ≡ byte_at ys i
unfolding byte_at
byte_at-append [] ys i k e = let e' : k ≡ i = omega arith in rw e' refl
byte_at-append (x ∷ xs) ys i zero e = absurd (omega arith)
byte_at-append (x ∷ xs) ys i (suc k) e = byte_at-append xs ys i k (omega arith)

pub length-drop : (n : ℕ) (s : Str) → length (drop n s) ≡ length s - n
length-drop zero s = omega arith
length-drop (suc n) [] = omega arith
length-drop (suc n) (x ∷ s) = omega (arith, length-drop n s)

pub drop-append : (xs ys : Str) (i k : ℕ) → k ≡ length xs + i → drop k (xs ++ ys) ≡ drop i ys
drop-append [] ys i k e = let e' : k ≡ i = omega arith in rw e' refl
drop-append (x ∷ xs) ys i zero e = absurd (omega arith)
drop-append (x ∷ xs) ys i (suc k) e = drop-append xs ys i k (omega arith)
