-- ===== src/Base/Text.antt =====
-- Byte strings: `std::string` and `std::string_view`, and what the program uses of them.
use Prim.Native.Nat.{ℕ, zero, suc, ◌+◌, ◌-◌, ◌/◌, ◌%◌}
use Prim.Native.Char.{code}
use Prim.Native.String.{String}
use mathlib.Core.Path.{◌≡◌, refl}
use mathlib.Core.Bool.{Bool, true, false, ◌&&◌}
use mathlib.Core.List.{List, [], ◌∷◌, ◌++◌}
use mathlib.Core.Option.{Option, none, some}
use native.Mathlib.Omega.{arith}
use edge_tts_cpp.Base.Lists.{replicate, length, drop}
use edge_tts_cpp.Base.Tests.{ltb, ◌==◌, if◌then◌else◌}

abbrev pub Bytes : Type 0
Bytes = List ℕ

abbrev pub codes : String → Bytes
codes String.[] = []
codes (String.◌∷◌ c s) = code c ∷ codes s

-- A literal of the source. Shut, so that its bytes show only where a proof opens it.
unfoldable pub lit : String → Bytes
lit s = codes s

-- `a == b` of two strings.
unfoldable pub bytes_eq : Bytes → Bytes → Bool
bytes_eq [] [] = true
bytes_eq [] (y ∷ ys) = false
bytes_eq (x ∷ xs) [] = false
bytes_eq (x ∷ xs) (y ∷ ys) = x == y && bytes_eq xs ys

pub bytes_eq_refl : (s : Bytes) → bytes_eq s s ≡ true
unfolding bytes_eq
bytes_eq_refl [] = refl
bytes_eq_refl (x ∷ xs) = ground (arith, bytes_eq_refl xs)

pub bytes_eq_sound : (s t : Bytes) → bytes_eq s t ≡ true → s ≡ t
unfolding bytes_eq
bytes_eq_sound [] [] h = refl
bytes_eq_sound [] (y ∷ ys) h = ground arith
bytes_eq_sound (x ∷ xs) [] h = ground arith
bytes_eq_sound (x ∷ xs) (y ∷ ys) h = ground (arith, bytes_eq_sound xs ys)

unfoldable pub is_empty : Bytes → Bool
is_empty [] = true
is_empty (x ∷ xs) = false

-- `s.find(c)`: the first position of a byte.
unfoldable pub find_byte : ℕ → Bytes → Option ℕ
find_byte c [] = none
find_byte c (x ∷ xs) =
    if x == c then some 0 else elim (find_byte c xs) [ none ↦ none | some i ↦ some (suc i) ]

-- `s.rfind(c, n - 1)`: the last position of a byte below `n`.
unfoldable pub rfind_below : ℕ → ℕ → Bytes → Option ℕ
rfind_below c zero s = none
rfind_below c (suc n) [] = none
rfind_below c (suc n) (x ∷ xs) = elim (rfind_below c n xs) [
  | some i ↦ some (suc i)
  | none ↦ if x == c then some 0 else none
]

unfoldable pub starts_with : Bytes → Bytes → Bool
starts_with [] s = true
starts_with (p ∷ ps) [] = false
starts_with (p ∷ ps) (x ∷ xs) = x == p && starts_with ps xs

pub starts_with_split : (p s : Bytes) → starts_with p s ≡ true → s ≡ p ++ drop (length p) s
unfolding starts_with
starts_with_split [] s h = refl
starts_with_split (p ∷ ps) [] h = ground arith
starts_with_split (p ∷ ps) (x ∷ xs) h = ground (arith, starts_with_split ps xs)

-- `s.find(p)`: the first position of a byte string.
unfoldable pub find : Bytes → Bytes → Option ℕ
find p [] = if starts_with p [] then some 0 else none
find p (x ∷ xs) =
    if starts_with p (x ∷ xs)
    then some 0
    else elim (find p xs) [ none ↦ none | some i ↦ some (suc i) ]

-- The decimal digits of a number, before `out`. Fuel above the number is enough.
unfoldable pub decimal_loop : ℕ → ℕ → Bytes → Bytes
decimal_loop zero n out = out
decimal_loop (suc fuel) n out =
    let rest = decimal_loop fuel (n / 10) ((b'0' + n % 10) ∷ out) in
    if ltb n 10 then (b'0' + n) ∷ out else rest

pub decimal_loop-append :
    (fuel n : ℕ) (out rest : Bytes)
    → decimal_loop fuel n out ++ rest ≡ decimal_loop fuel n (out ++ rest)
unfolding decimal_loop
decimal_loop-append zero n out rest = refl
decimal_loop-append (suc fuel) n out rest =
    ground (arith, decimal_loop-append fuel (n / 10) ((b'0' + n % 10) ∷ out) rest)

-- `std::to_string` of a number that is not negative.
unfoldable pub to_decimal : ℕ → Bytes
unfolding decimal_loop
to_decimal n = decimal_loop (suc n) n []

-- `%02d` and `%04d` of a number that is not negative.
unfoldable pub padded : ℕ → ℕ → Bytes
unfolding to_decimal
padded width n = let d = to_decimal n in replicate (width - length d) b'0' ++ d
