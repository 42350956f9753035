-- ===== src/Communication/HttpDate/Scanning.antt =====
-- HttpDate.cpp: what the conversions of `sscanf` read of printed numbers and of the names of months.
use edge_tts_cpp.Base.{
  not, ℕ, zero, suc, ◌+◌, ◌-◌, ◌*◌, ◌/◌, ◌%◌, ◌≤◌, ◌<◌, ◌≡◌, refl, ap, ◌∙◌, Bool, true, false, ◌&&◌,
  none, some, [], ◌∷◌, ◌++◌, Bytes, length, append_assoc, decimal_loop, decimal_loop-append,
  to_decimal, padded, replicate, get_elem?, leb, ◌==◌, arith, pos, Bool-cases, inl, inr, ==_iff,
}
use edge_tts_cpp.Communication.HttpDate.{
  skip_space, scan_digits, scan_number, scan_sign, scan_int, to_int, until_nul, scan_word,
  month_names, month_number,
}

-- Whether the bytes start with a digit.
unfoldable pub starts_digit : Bytes → Bool
starts_digit [] = false
starts_digit (c ∷ s) = leb b'0' c && leb c b'9'

scan_digit :
    (n d : ℕ) (s : Bytes) → d < 10 → scan_digits n ((b'0' + d) ∷ s) ≡ scan_digits (n * 10 + d) s
unfolding scan_digits
scan_digit n d s h = ground arith

scan_decimal_loop :
    (fuel n : ℕ) (out : Bytes)
    → n < fuel
    → scan_digits 0 (decimal_loop fuel n out) ≡ scan_digits n out
unfolding decimal_loop
scan_decimal_loop zero n out h = ground arith
scan_decimal_loop (suc fuel) n out h = ground (
  arith,
  scan_digit 0 n out,
  scan_decimal_loop fuel (n / 10) ((b'0' + n % 10) ∷ out),
  scan_digit (n / 10) (n % 10) out,
)

starts_digit-decimal_loop :
    (fuel n : ℕ) (out : Bytes) → n < fuel → starts_digit (decimal_loop fuel n out) ≡ true
unfolding decimal_loop starts_digit
starts_digit-decimal_loop zero n out h = ground arith
starts_digit-decimal_loop (suc fuel) n out h =
    ground (arith, starts_digit-decimal_loop fuel (n / 10) ((b'0' + n % 10) ∷ out))

scan_zeros : (k : ℕ) (s : Bytes) → scan_digits 0 (replicate k b'0' ++ s) ≡ scan_digits 0 s
scan_zeros zero s = refl
scan_zeros (suc k) s = scan_digit 0 0 _ (omega arith) ∙ scan_zeros k s

starts_digit-zeros :
    (k : ℕ) (s : Bytes) → starts_digit s ≡ true → starts_digit (replicate k b'0' ++ s) ≡ true
unfolding starts_digit
starts_digit-zeros zero s h = h
starts_digit-zeros (suc k) s h = refl

padded-append :
    (w n : ℕ) (s : Bytes)
    → padded w n ++ s ≡ replicate (w - length (to_decimal n)) b'0' ++ decimal_loop (suc n) n s
unfolding padded to_decimal
padded-append w n s =
    append_assoc (replicate (w - length (to_decimal n)) b'0') (to_decimal n) s
    ∙ ap (λ t. replicate (w - length (to_decimal n)) b'0' ++ t) (decimal_loop-append (suc n) n [] s)

scan_padded : (w n : ℕ) (s : Bytes) → scan_digits 0 (padded w n ++ s) ≡ scan_digits n s
scan_padded w n s =
    ap (scan_digits 0) (padded-append w n s)
    ∙ scan_zeros (w - length (to_decimal n)) (decimal_loop (suc n) n s)
    ∙ scan_decimal_loop (suc n) n s (omega arith)

starts_digit-padded : (w n : ℕ) (s : Bytes) → starts_digit (padded w n ++ s) ≡ true
starts_digit-padded w n s =
    ap starts_digit (padded-append w n s)
    ∙ starts_digit-zeros (w - length (to_decimal n)) (decimal_loop (suc n) n s)
        (starts_digit-decimal_loop (suc n) n s (omega arith))

scan_sign-digits :
    (s r : Bytes) (n : ℕ)
    → starts_digit s ≡ true
    → scan_digits 0 s ≡ (n, r)
    → scan_sign (skip_space s) ≡ some (pos n, r)
unfolding starts_digit scan_sign scan_number skip_space
scan_sign-digits [] r n h e = ground arith
scan_sign-digits (c ∷ s) r n h e = ground arith

to_int-small : (n : ℕ) → n < 2147483648 → to_int (pos n) ≡ pos n
unfolding to_int
to_int-small n h = ground arith

scan_int-digits :
    (s r : Bytes) (n : ℕ)
    → n < 2147483648
    → starts_digit s ≡ true
    → scan_digits 0 s ≡ (n, r)
    → scan_int s ≡ some (pos n, r)
unfolding scan_int
scan_int-digits s r n l h e =
    rw (scan_sign-digits s r n h e) (ap (λ k. some (k, r)) (to_int-small n l))

scan_stop :
    (n c : ℕ) (s : Bytes) → starts_digit (c ∷ s) ≡ false → scan_digits n (c ∷ s) ≡ (n, c ∷ s)
unfolding scan_digits starts_digit
scan_stop n c s h = ground arith

-- A number in two digits or more, behind a space or not, up to a byte that is no digit.
pub scan_int-padded :
    (w n c : ℕ) (s : Bytes)
    → n < 2147483648
    → starts_digit (c ∷ s) ≡ false
    → scan_int (padded w n ++ c ∷ s) ≡ some (pos n, c ∷ s)
scan_int-padded w n c s l h =
    scan_int-digits (padded w n ++ c ∷ s) (c ∷ s) n l (starts_digit-padded w n (c ∷ s))
      (scan_padded w n (c ∷ s) ∙ scan_stop n c s h)

-- Whether the bytes are all kept by a C string.
unfoldable pub no_nul : Bytes → Bool
no_nul [] = true
no_nul (c ∷ s) = not (c == 0) && no_nul s

pub until_nul-append : (s t : Bytes) → no_nul s ≡ true → until_nul (s ++ t) ≡ s ++ until_nul t
unfolding no_nul until_nul
until_nul-append [] t h = refl
until_nul-append (c ∷ s) t h = ground (arith, until_nul-append s t)

no_nul-decimal_loop :
    (fuel n : ℕ) (out : Bytes) → no_nul out ≡ true → no_nul (decimal_loop fuel n out) ≡ true
unfolding no_nul decimal_loop
no_nul-decimal_loop zero n out h = h
no_nul-decimal_loop (suc fuel) n out h =
    ground (arith, no_nul-decimal_loop fuel (n / 10) ((b'0' + n % 10) ∷ out))

no_nul-zeros : (k : ℕ) (s : Bytes) → no_nul s ≡ true → no_nul (replicate k b'0' ++ s) ≡ true
unfolding no_nul
no_nul-zeros zero s h = h
no_nul-zeros (suc k) s h = ground (arith, no_nul-zeros k s h)

pub no_nul-padded : (w n : ℕ) → no_nul (padded w n) ≡ true
unfolding padded to_decimal no_nul
no_nul-padded w n =
    no_nul-zeros (w - length (to_decimal n)) (to_decimal n) (no_nul-decimal_loop (suc n) n [] refl)

-- The name of a month; empty where there is none.
unfoldable pub month_name : ℕ → Bytes
unfolding month_names
month_name m = elim (get_elem? month_names (m - 1)) [ none ↦ [] | some name ↦ name ]

-- What is needed of a name: how it is scanned, and its number.
abbrev pub Reads : ℕ → Type 0
Reads m =
    ((s : Bytes) → scan_word (b' ' ∷ (month_name m ++ b' ' ∷ s)) ≡ some (month_name m, b' ' ∷ s))
    × (month_number 1 month_names (month_name m) ≡ m)
    × (no_nul (month_name m) ≡ true)

abbrev pub AllReads : ℕ → Type 0
AllReads zero = Unit
AllReads (suc m) = Reads (suc m) × AllReads m

pub all_read : AllReads 12
unfolding no_nul scan_word month_name month_number month_names
all_read = (
  (λ s. refl, refl, refl),
  (
    (λ s. refl, refl, refl),
    (
      (λ s. refl, refl, refl),
      (
        (λ s. refl, refl, refl),
        (
          (λ s. refl, refl, refl),
          (
            (λ s. refl, refl, refl),
            (
              (λ s. refl, refl, refl),
              (
                (λ s. refl, refl, refl),
                (
                  (λ s. refl, refl, refl),
                  (
                    (λ s. refl, refl, refl),
                    ((λ s. refl, refl, refl), ((λ s. refl, refl, refl), tt)),
                  ),
                ),
              ),
            ),
          ),
        ),
      ),
    ),
  ),
)

pub read_month : (n m : ℕ) → AllReads n → 1 ≤ m → m ≤ n → Reads m
read_month zero m r h k = absurd (omega arith)
read_month (suc n) m r h k = elim (Bool-cases (m == suc n)) [
  | inl e ↦ rw (((==_iff m (suc n)).0 e)) r.0
  | inr e ↦ read_month n m r.1 h (ground arith)
]
