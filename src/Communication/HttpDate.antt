-- ===== src/Communication/HttpDate.antt =====
-- modules/communication: HttpDate.cpp, with what its `sscanf` format reads.
pub mod Calendar
pub mod RoundTrip
pub mod Scanning
use edge_tts_cpp.Base.{
  ℕ, zero, suc, ◌+◌, ◌-◌, ◌*◌, ◌/◌, Bool, ◌&&◌, ◌||◌, Option, none, some, List, [], ◌∷◌, Bytes,
  codes, leb, ltb, ◌==◌, if◌then◌else◌, bytes_eq, is_empty, ℤ, pos, ◌+ℤ◌, ◌-ℤ◌, ◌*ℤ◌, tdiv, ltb_ℤ,
  sub_ℕ, negsuc, ◌%◌, ◌^◌, ◌≡◌, refl,
}

infixl 5 ◌>>=◌
abbrev ◌>>=◌ : {A B : Type 0} → Option A → (A → Option B) → Option B
none >>= f = none
some a >>= f = f a

unfoldable pub days_from_civil : ℤ → ℕ → ℤ → ℤ
unfolding ◌+ℤ◌ ◌-ℤ◌ ◌*ℤ◌ tdiv
days_from_civil year m d =
    let y : ℤ = if leb m 2 then year -ℤ pos 1 else year in
    let era = tdiv y 400 in
    let yoe = y -ℤ era *ℤ pos 400 in
    let doy = pos ((153 * (if ltb 2 m then m - 3 else m + 9) + 2) / 5) +ℤ d -ℤ pos 1 in
    let doe = yoe *ℤ pos 365 +ℤ tdiv yoe 4 -ℤ tdiv yoe 100 +ℤ doy in
    era *ℤ pos 146097 +ℤ doe -ℤ pos 719468

-- `isspace` of the C locale.
unfoldable pub is_space : ℕ → Bool
is_space c = c == b' ' || (leb 9 c && leb c 13)

unfoldable pub skip_space : Bytes → Bytes
unfolding is_space
skip_space [] = []
skip_space (c ∷ s) = if is_space c then skip_space s else c ∷ s

-- `%*[^,]`: a byte or more up to a comma.
unfoldable pub skip_to_comma : Bytes → Bytes
skip_to_comma [] = []
skip_to_comma (c ∷ s) = if c == b',' then c ∷ s else skip_to_comma s

unfoldable pub scan_weekday : Bytes → Option Bytes
unfolding skip_to_comma
scan_weekday [] = none
scan_weekday (c ∷ s) = if c == b',' then none else some (skip_to_comma s)

unfoldable pub scan_literal : ℕ → Bytes → Option Bytes
scan_literal x [] = none
scan_literal x (c ∷ s) = if c == x then some s else none

-- The digits behind `n`.
unfoldable pub scan_digits : ℕ → Bytes → ℕ × Bytes
scan_digits n [] = (n, [])
scan_digits n (c ∷ s) =
    if leb b'0' c && leb c b'9' then scan_digits (n * 10 + (c - b'0')) s else (n, c ∷ s)

-- One digit or more.
unfoldable pub scan_number : Bytes → Option (ℕ × Bytes)
unfolding scan_digits
scan_number [] = none
scan_number (c ∷ s) = if leb b'0' c && leb c b'9' then some (scan_digits 0 (c ∷ s)) else none

unfoldable pub scan_sign : Bytes → Option (ℤ × Bytes)
unfolding scan_number
scan_sign [] = none
scan_sign (c ∷ s) =
    if c == b'-'
    then (do (n, r) ← scan_number s; some (sub_ℕ 0 n, r))
    else if c == b'+'
    then (do (n, r) ← scan_number s; some (pos n, r))
    else do (n, r) ← scan_number (c ∷ s); some (pos n, r)

-- What is stored for a number: `strtol` stops at the bounds of 64 bits, and the `int` takes the low 32.
unfoldable pub to_int : ℤ → ℤ
to_int (pos n) =
    let k = (if ltb n (2 ^ 63) then n else 2 ^ 63 - 1) % 2 ^ 32 in
    if ltb k (2 ^ 31) then pos k else negsuc (2 ^ 32 - 1 - k)
to_int (negsuc n) =
    let k = (if ltb n (2 ^ 63) then n else 2 ^ 63 - 1) % 2 ^ 32 in
    if ltb k (2 ^ 31) then negsuc k else pos (2 ^ 32 - 1 - k)

-- `%d`.
unfoldable pub scan_int : Bytes → Option (ℤ × Bytes)
unfolding scan_sign skip_space to_int
scan_int s = do (n, r) ← scan_sign (skip_space s); some (to_int n, r)

-- Up to `n` bytes that are no space.
unfoldable pub scan_up_to : ℕ → Bytes → Bytes × Bytes
unfolding is_space
scan_up_to zero s = ([], s)
scan_up_to (suc n) [] = ([], [])
scan_up_to (suc n) (c ∷ s) =
    let (w, r) = scan_up_to n s in if is_space c then ([], c ∷ s) else (c ∷ w, r)

-- `%7s`.
unfoldable pub scan_word : Bytes → Option (Bytes × Bytes)
unfolding scan_up_to is_empty skip_space
scan_word s = let (w, r) = scan_up_to 7 (skip_space s) in if is_empty w then none else some (w, r)

pub record Fields : Type 0 where
  pub day : ℤ
  pub mon : Bytes
  pub year : ℤ
  pub hour : ℤ
  pub min : ℤ
  pub sec : ℤ

-- `sscanf(s, "%*[^,], %d %7s %d %d:%d:%d %7s", …) == 7`.
unfoldable pub scan_fields : Bytes → Option Fields
unfolding scan_weekday scan_literal scan_int scan_word
scan_fields s = do
  s0 ← scan_weekday s
  s1 ← scan_literal b',' s0
  (day, s2) ← scan_int s1
  (mon, s3) ← scan_word s2
  (year, s4) ← scan_int s3
  (hour, s5) ← scan_int s4
  s6 ← scan_literal b':' s5
  (min, s7) ← scan_int s6
  s8 ← scan_literal b':' s7
  (sec, s9) ← scan_int s8
  (tz, s10) ← scan_word s9
  some (record { day = day; mon = mon; year = year; hour = hour; min = min; sec = sec })

unfoldable pub month_names : List Bytes
month_names =
    codes "Jan"
    ∷ codes "Feb"
    ∷ codes "Mar"
    ∷ codes "Apr"
    ∷ codes "May"
    ∷ codes "Jun"
    ∷ codes "Jul"
    ∷ codes "Aug"
    ∷ codes "Sep"
    ∷ codes "Oct"
    ∷ codes "Nov"
    ∷ codes "Dec"
    ∷ []

-- The month's number from `i` on; 0 if no name fits.
unfoldable pub month_number : ℕ → List Bytes → Bytes → ℕ
unfolding bytes_eq
month_number i [] mon = 0
month_number i (n ∷ ns) mon = if bytes_eq mon n then i else month_number (i + 1) ns mon

unfoldable pub is_outside : ℤ → ℕ → ℕ → Bool
is_outside x lo hi = ltb_ℤ x (pos lo) || ltb_ℤ (pos hi) x

-- The sum, for the number of the month.
unfoldable pub total : Fields → ℕ → ℤ
total f month =
    days_from_civil f.year month f.day *ℤ pos 86400
    +ℤ f.hour *ℤ pos 3600
    +ℤ f.min *ℤ pos 60
    +ℤ f.sec

-- The checks, in their order.
unfoldable pub timestamp : Fields → Option ℤ
unfolding month_number month_names is_outside
timestamp f =
    let month = month_number 1 month_names f.mon in
    if month == 0
    then none
    else if is_outside f.day 1 31
    then none
    else if is_outside f.hour 0 23
    then none
    else if is_outside f.min 0 59
    then none
    else if is_outside f.sec 0 60
    then none
    else some (total f month)

-- `s.c_str()`, as far as `sscanf` reads it.
unfoldable pub until_nul : Bytes → Bytes
until_nul [] = []
until_nul (c ∷ s) = if c == 0 then [] else c ∷ until_nul s

unfoldable pub parse_http_date : Bytes → Option ℤ
unfolding scan_fields timestamp is_empty until_nul
parse_http_date date =
    if is_empty date then none else do f ← scan_fields (until_nul date); timestamp f

parse_runs : parse_http_date (codes "Sun, 06 Nov 1994 08:49:37 GMT") ≡ some (pos 784111777)
unfolding parse_http_date total days_from_civil ◌+ℤ◌ ◌*ℤ◌ to_int
parse_runs = refl

-- A name with a NUL byte ends the text, and a year beyond an `int` is cut to its low 32 bits.
nul_runs : parse_http_date (83 ∷ 0 ∷ codes "n, 06 Nov 1994 08:49:37 GMT") ≡ none
unfolding parse_http_date until_nul
nul_runs = refl

wrapped_runs : parse_http_date (codes "Sun, 06 Nov 4294969290 08:49:37 GMT") ≡ some (pos 784111777)
unfolding parse_http_date total days_from_civil ◌+ℤ◌ ◌*ℤ◌ to_int
wrapped_runs = refl
