-- ===== src/Communication/HttpDate/RoundTrip.antt =====
-- HttpDate.cpp: the dates that a server sends.
use edge_tts_cpp.Base.{
  ℕ, ◌+◌, ◌*◌, ◌/◌, ◌%◌, ◌≤◌, ◌<◌, ◌≡◌, refl, ap, ◌∙◌, false, true, some, [], ◌∷◌, ◌++◌, Bytes,
  codes, padded, ◌==◌, arith, ℤ, pos, ◌≢◌,
}
use edge_tts_cpp.Communication.HttpDate.{
  is_outside, total, days_from_civil, scan_weekday, skip_to_comma, scan_literal, scan_fields,
  timestamp, parse_http_date, until_nul, month_names, month_number,
}
use edge_tts_cpp.Communication.HttpDate.Calendar.{
  date_after, date_after-IsDate, date_after-year, day_range, days_from_civil-date_after, pos-add,
  pos-mul,
}
use edge_tts_cpp.Communication.HttpDate.Scanning.{
  starts_digit, scan_int-padded, month_name, all_read, read_month, no_nul, no_nul-padded,
  until_nul-append,
}

-- A date of RFC 7231 behind a name of the day, `n` seconds after the epoch.
unfoldable pub to_http_date : Bytes → ℕ → Bytes
to_http_date weekday n =
    let t = date_after (n / 86400) in
    let s = n % 86400 in
    weekday
    ++ (b','
        ∷ b' '
        ∷ (padded 2 t.day
            ++ (b' '
                ∷ (month_name t.month
                    ++ (b' '
                        ∷ (padded 4 t.year
                            ++ (b' '
                                ∷ (padded 2 (s / 3600)
                                    ++ (b':'
                                        ∷ (padded 2 (s % 3600 / 60)
                                            ++ (b':'
                                                ∷ (padded 2 (s % 3600 % 60)
                                                    ++ codes " GMT"))))))))))))

-- A name of the day has no comma and no NUL.
abbrev pub IsDayName : Bytes → Type 0
IsDayName [] = Unit
IsDayName (c ∷ s) = ((c ≢ b',') × (c ≢ 0)) × IsDayName s

skip_to_comma_lem : (w s : Bytes) → IsDayName w → skip_to_comma (w ++ b',' ∷ s) ≡ b',' ∷ s
unfolding skip_to_comma
skip_to_comma_lem [] s h = refl
skip_to_comma_lem (c ∷ w) s h = ground (arith, skip_to_comma_lem w s h.1)

scan_weekday_lem :
    (c : ℕ) (w s : Bytes) → IsDayName (c ∷ w) → scan_weekday ((c ∷ w) ++ b',' ∷ s) ≡ some (b',' ∷ s)
unfolding scan_weekday
scan_weekday_lem c w s h = ground (arith, skip_to_comma_lem w s h.1)

no_nul-name : (w : Bytes) → IsDayName w → no_nul w ≡ true
unfolding no_nul
no_nul-name [] h = refl
no_nul-name (c ∷ w) h = ground (arith, no_nul-name w h.1)

-- A date is a C string.
until_nul-date : (w : Bytes) (n : ℕ) → IsDayName w → until_nul (to_http_date w n) ≡ to_http_date w n
unfolding to_http_date until_nul
until_nul-date w n h =
    let t = date_after (n / 86400) in
    let v = date_after-IsDate (n / 86400) in
    let s = n % 86400 in
    let named = (read_month 12 t.month all_read v.from_january v.to_december).2 in
    rw (until_nul-append w _ (no_nul-name w h)) (
      rw (until_nul-append (padded 2 t.day) _ (no_nul-padded 2 t.day)) (
        rw (until_nul-append (month_name t.month) _ named) (
          rw (until_nul-append (padded 4 t.year) _ (no_nul-padded 4 t.year)) (
            rw (until_nul-append (padded 2 (s / 3600)) _ (no_nul-padded 2 (s / 3600))) (
              rw (until_nul-append (padded 2 (s % 3600 / 60)) _ (no_nul-padded 2 (s % 3600 / 60))) (
                rw (until_nul-append (padded 2 (s % 3600 % 60)) _ (no_nul-padded 2 (s % 3600 % 60)))
                  refl))))))

scan_fields_lem :
    (c : ℕ) (w : Bytes) (n : ℕ)
    → IsDayName (c ∷ w)
    → n < 172800000000000
    → scan_fields (to_http_date (c ∷ w) n)
      ≡ some (record {
        day = pos (date_after (n / 86400)).day;
        mon = month_name (date_after (n / 86400)).month;
        year = pos (date_after (n / 86400)).year;
        hour = pos (n % 86400 / 3600);
        min = pos (n % 86400 % 3600 / 60);
        sec = pos (n % 86400 % 3600 % 60);
      })
unfolding scan_fields to_http_date starts_digit scan_literal
scan_fields_lem c w n h l =
    let t = date_after (n / 86400) in
    let v = date_after-IsDate (n / 86400) in
    let s = n % 86400 in
    let zone = codes " GMT" in
    let secs = padded 2 (s % 3600 % 60) ++ zone in
    let mins = padded 2 (s % 3600 / 60) ++ b':' ∷ secs in
    let hours = padded 2 (s / 3600) ++ b':' ∷ mins in
    let years = padded 4 t.year ++ b' ' ∷ hours in
    let months = month_name t.month ++ b' ' ∷ years in
    let r = read_month 12 t.month all_read v.from_january v.to_december in
    let years_fit : t.year < 2147483648 = omega (arith, date_after-year (n / 86400)) in
    let days_fit : t.day < 2147483648 = omega (arith, day_range (n / 86400)) in
    rw (scan_weekday_lem c w (b' ' ∷ (padded 2 t.day ++ b' ' ∷ months)) h) (
      rw (scan_int-padded 2 t.day b' ' months days_fit refl) (
        rw (r.0 years) (
          rw (scan_int-padded 4 t.year b' ' hours years_fit refl) (
            rw (scan_int-padded 2 (s / 3600) b':' mins (omega arith) refl) (
              rw (scan_int-padded 2 (s % 3600 / 60) b':' secs (omega arith) refl) (
                rw (scan_int-padded 2 (s % 3600 % 60) b' ' (codes "GMT") (omega arith) refl)
                  refl))))))

inside : (x lo hi : ℕ) → lo ≤ x → x ≤ hi → is_outside (pos x) lo hi ≡ false
unfolding is_outside
inside x lo hi h k = ground arith

total_lem :
    (mon : Bytes) (year : ℤ) (m day days hour min sec : ℕ)
    → days_from_civil year m (pos day) ≡ pos days
    → total
        (record {
          day = pos day;
          mon = mon;
          year = year;
          hour = pos hour;
          min = pos min;
          sec = pos sec;
        })
        m
      ≡ pos (days * 86400 + hour * 3600 + min * 60 + sec)
unfolding total
total_lem mon year m day days hour min sec numbered =
    rw
      (
        numbered,
        pos-mul days 86400,
        pos-mul hour 3600,
        pos-add (days * 86400) (hour * 3600),
        pos-mul min 60,
        pos-add (days * 86400 + hour * 3600) (min * 60),
        pos-add (days * 86400 + hour * 3600 + min * 60) sec,
      )
      refl

timestamp_lem :
    (mon : Bytes) (year : ℤ) (m day days hour min sec : ℕ)
    → month_number 1 month_names mon ≡ m
    → 1 ≤ m
    → (1 ≤ day) × (day ≤ 31)
    → days_from_civil year m (pos day) ≡ pos days
    → hour < 24
    → min < 60
    → sec < 60
    → timestamp (record {
      day = pos day;
      mon = mon;
      year = year;
      hour = pos hour;
      min = pos min;
      sec = pos sec;
    })
      ≡ some (pos (days * 86400 + hour * 3600 + min * 60 + sec))
unfolding timestamp
timestamp_lem mon year m day days hour min sec number some_month d numbered h k l =
    let not_zero : (m == 0) ≡ false = ground arith in
    rw
      (
        number,
        not_zero,
        inside day 1 31 d.0 d.1,
        inside hour 0 23 (omega arith) (omega arith),
        inside min 0 59 (omega arith) (omega arith),
        inside sec 0 60 (omega arith) (omega arith),
        total_lem mon year m day days hour min sec numbered,
      )
      refl

-- The date of RFC 7231 that is n seconds after 1970-01-01 00:00:00, by the rules of the calendar and
-- behind any name of the day that is not empty and has no comma and no NUL, is parsed to n, for every
-- n below 172,800,000,000,000 (two thousand million days, whose years fit an `int`).
pub parse_http_date-to_http_date :
    (c : ℕ) (w : Bytes) (n : ℕ)
    → IsDayName (c ∷ w)
    → n < 172800000000000
    → parse_http_date (to_http_date (c ∷ w) n) ≡ some (pos n)
unfolding parse_http_date to_http_date
parse_http_date-to_http_date c w n h l =
    let t = date_after (n / 86400) in
    let v = date_after-IsDate (n / 86400) in
    let r = read_month 12 t.month all_read v.from_january v.to_december in
    let x = n % 86400 in
    rw (until_nul-date (c ∷ w) n h, scan_fields_lem c w n h l)
      (timestamp_lem (month_name t.month) (pos t.year) t.month t.day (n / 86400) (x / 3600)
          (x % 3600 / 60) (x % 3600 % 60) r.1 v.from_january (day_range (n / 86400))
          (days_from_civil-date_after (n / 86400)) (omega arith) (omega arith) (omega arith)
        ∙ ap (λ k. some (pos k)) (omega arith))
