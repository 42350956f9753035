-- ===== src/Communication/HttpDate/Calendar.antt =====
-- HttpDate.cpp: the day numbers of the Gregorian calendar.
use edge_tts_cpp.Base.{
  ℕ, zero, suc, ◌+◌, ◌-◌, ◌*◌, ◌/◌, ◌%◌, ◌≤◌, ◌<◌, Bool, true, false, ◌||◌, ltb, leb, ◌==◌,
  if◌then◌else◌, ◌≡◌, refl, ap, ◌∙◌, sym, arith, ℤ, pos, ◌+ℤ◌, ◌-ℤ◌, ◌*ℤ◌, tdiv, Bool-cases, inl,
  inr, ltb→lt, ltb→le,
}
use edge_tts_cpp.Communication.HttpDate.{days_from_civil}

-- A day of the calendar, as it stands in the header: 6, November and 1994.
pub record Date : Type 0 where
  pub day : ℕ
  pub month : ℕ
  pub year : ℕ

abbrev pub civil : ℕ → ℕ → ℕ → Date
civil a b c = record { day = c; month = b; year = a }

unfoldable pub is_leap : ℕ → Bool
is_leap y = if y % 400 == 0 then true else if y % 100 == 0 then false else y % 4 == 0

unfoldable pub days_in_month : ℕ → ℕ → ℕ
unfolding is_leap
days_in_month y m =
    if m == 4 || m == 6 || m == 9 || m == 11
    then 30
    else if m == 2
    then (if is_leap y then 29 else 28)
    else 31

-- The day after, by the rules of the calendar.
unfoldable pub next_day : Date → Date
unfolding days_in_month
next_day t =
    if ltb t.day (days_in_month t.year t.month)
    then record t { day = t.day + 1 }
    else if ltb t.month 12
    then civil t.year (t.month + 1) 1
    else civil (t.year + 1) 1 1

-- The date of a day that is counted from 1970-01-01.
unfoldable pub date_after : ℕ → Date
unfolding next_day
date_after zero = civil 1970 1 1
date_after (suc n) = next_day (date_after n)

pub record IsDate (t : Date) : Type 0 where
  pub from_epoch : 1970 ≤ t.year
  pub from_first : 1 ≤ t.day
  pub to_last : t.day ≤ days_in_month t.year t.month
  pub from_january : 1 ≤ t.month
  pub to_december : t.month ≤ 12

next_day-IsDate : (t : Date) → IsDate t → IsDate (next_day t)
unfolding next_day days_in_month is_leap
next_day-IsDate t v = ground arith

pub date_after-IsDate : (n : ℕ) → IsDate (date_after n)
unfolding date_after days_in_month
date_after-IsDate zero = omega arith
date_after-IsDate (suc n) = next_day-IsDate (date_after n) (date_after-IsDate n)

next_day-year : (t : Date) → (next_day t).year ≤ t.year + 1
unfolding next_day
next_day-year t = ground arith

pub date_after-year : (n : ℕ) → (date_after n).year ≤ 1970 + n
unfolding date_after
date_after-year zero = omega arith
date_after-year (suc n) = omega (arith, next_day-year (date_after n), date_after-year n)

-- The formula on the natural numbers, before the epoch is taken off: a year starts in March.
unfoldable march_years : ℕ → ℕ
march_years y =
    y / 400 * 146097
    + ((y - y / 400 * 400) * 365 + (y - y / 400 * 400) / 4 - (y - y / 400 * 400) / 100)

abbrev march_months : ℕ → ℕ
march_months k = (153 * k + 2) / 5

unfoldable civil_days : Date → ℕ
unfolding march_years
civil_days t =
    if leb t.month 2
    then march_years (t.year - 1) + (march_months (t.month + 9) + t.day - 1)
    else march_years t.year + (march_months (t.month - 3) + t.day - 1)

march_years-suc :
    (y : ℕ) → march_years (suc y) ≡ march_years y + (if is_leap (suc y) then 366 else 365)
unfolding march_years is_leap
march_years-suc y = ground arith

pub pos-add : (a b : ℕ) → pos a +ℤ pos b ≡ pos (a + b)
unfolding ◌+ℤ◌
pos-add a b = ground arith

pos-sub : (a b : ℕ) → b ≤ a → pos a -ℤ pos b ≡ pos (a - b)
unfolding ◌-ℤ◌
pos-sub a b h = ground arith

pub pos-mul : (a b : ℕ) → pos a *ℤ pos b ≡ pos (a * b)
unfolding ◌*ℤ◌
pos-mul a b = ground arith

civil_days-day : (y m d : ℕ) → 1 ≤ d → civil_days (civil y m (d + 1)) ≡ civil_days (civil y m d) + 1
unfolding civil_days
civil_days-day y m d h = elim (Bool-cases (leb m 2)) [
  | inl t ↦ rw (t) (omega arith)
  | inr t ↦ rw (t) (omega arith)
]

months_apart :
    (y m : ℕ) → 3 ≤ m → m < 12 → march_months (m + 1 - 3) ≡ march_months (m - 3) + days_in_month y m
unfolding days_in_month
months_apart y m h k = ground arith

january : (y : ℕ) → civil_days (civil y 2 1) ≡ civil_days (civil y 1 (days_in_month y 1)) + 1
unfolding civil_days days_in_month
january y = omega arith

february :
    (y : ℕ)
    → civil_days (civil (suc y) 3 1) ≡ civil_days (civil (suc y) 2 (days_in_month (suc y) 2)) + 1
unfolding civil_days days_in_month
february y = ground (arith, march_years-suc y)

later_month :
    (y m : ℕ)
    → 3 ≤ m
    → m < 12
    → civil_days (civil y (m + 1) 1) ≡ civil_days (civil y m (days_in_month y m)) + 1
unfolding civil_days
later_month y m h k =
    let f : leb m 2 ≡ false = ground arith in
    let g : leb (m + 1) 2 ≡ false = ground arith in rw (f, g) (omega (arith, months_apart y m h k))

civil_days-month :
    (y m : ℕ)
    → 1 ≤ y
    → 1 ≤ m
    → m < 12
    → civil_days (civil y (m + 1) 1) ≡ civil_days (civil y m (days_in_month y m)) + 1
civil_days-month zero m hy h k = absurd (omega arith)
civil_days-month y zero hy h k = absurd (omega arith)
civil_days-month (suc y) (suc zero) hy h k = january (suc y)
civil_days-month (suc y) (suc (suc zero)) hy h k = february y
civil_days-month (suc y) (suc (suc (suc m))) hy h k =
    later_month (suc y) (suc (suc (suc m))) (omega arith) k

civil_days-year : (y : ℕ) → civil_days (civil (y + 1) 1 1) ≡ civil_days (civil y 12 31) + 1
unfolding civil_days
civil_days-year y = omega arith

december : (y : ℕ) → 31 ≡ days_in_month y 12
unfolding days_in_month
december y = refl

civil_days-next_day : (t : Date) → IsDate t → civil_days (next_day t) ≡ civil_days t + 1
unfolding next_day
civil_days-next_day t v = elim (Bool-cases (ltb t.day (days_in_month t.year t.month))) [
  | inl a ↦ rw a (civil_days-day t.year t.month t.day v.from_first)
  | inr a ↦
      let last : t.day ≡ days_in_month t.year t.month =
        omega (arith, ltb→le t.day (days_in_month t.year t.month) a, v.to_last) in
      elim (Bool-cases (ltb t.month 12)) [
        | inl b ↦
            rw (a, b)
              (civil_days-month t.year t.month (omega arith) v.from_january (ltb→lt t.month 12 b)
                ∙ ap (λ d. civil_days (civil t.year t.month d) + 1) (sym last))
        | inr b ↦
            let m : t.month ≡ 12 = omega (arith, ltb→le t.month 12 b, v.to_december) in
            rw (a, b)
              (civil_days-year t.year
                ∙ ap (λ d. civil_days (civil t.year 12 d) + 1)
                    (december t.year ∙ ap (days_in_month t.year) (sym m) ∙ sym last)
                ∙ ap (λ k. civil_days (civil t.year k t.day) + 1) (sym m))
      ]
]

civil_days-date_after : (n : ℕ) → civil_days (date_after n) ≡ 719468 + n
unfolding date_after civil_days
civil_days-date_after zero = refl
civil_days-date_after (suc n) =
    civil_days-next_day (date_after n) (date_after-IsDate n)
    ∙ ap (λ k. k + 1) (civil_days-date_after n)
    ∙ omega arith

-- The formula of the code, where nothing is negative before the last step.
abbrev from_march : ℕ → ℕ → ℕ → ℤ
from_march y k d =
    let era = tdiv (pos y) 400 in
    let yoe = pos y -ℤ era *ℤ pos 400 in
    let doy = pos (march_months k) +ℤ pos d -ℤ pos 1 in
    let doe = yoe *ℤ pos 365 +ℤ tdiv yoe 4 -ℤ tdiv yoe 100 +ℤ doy in
    era *ℤ pos 146097 +ℤ doe -ℤ pos 719468

from_march_lem :
    (y k d n : ℕ)
    → 1 ≤ d
    → march_years y + (march_months k + d - 1) ≡ 719468 + n
    → from_march y k d ≡ pos n
unfolding march_years tdiv
from_march_lem y k d n l total =
    let era = y / 400 in
    let yoe = y - era * 400 in
    let a = yoe * 365 + yoe / 4 in
    let b = march_months k + d in
    rw
      (
        pos-mul era 400,
        pos-sub y (era * 400) (omega arith),
        pos-add (march_months k) d,
        pos-mul era 146097,
        pos-mul yoe 365,
        pos-add (yoe * 365) (yoe / 4),
        pos-sub a (yoe / 100) (omega arith),
        pos-sub b 1 (omega arith),
        pos-add (a - yoe / 100) (b - 1),
        pos-add (era * 146097) (a - yoe / 100 + (b - 1)),
        pos-sub (era * 146097 + (a - yoe / 100 + (b - 1))) 719468 (omega arith),
      )
      (ap pos (omega arith))

days_from_civil-civil_days :
    (t : Date) (n : ℕ)
    → IsDate t
    → civil_days t ≡ 719468 + n
    → days_from_civil (pos t.year) t.month (pos t.day) ≡ pos n
unfolding days_from_civil civil_days
days_from_civil-civil_days t n v e = elim (Bool-cases (leb t.month 2)) [
  | inl a ↦
      let f : ltb 2 t.month ≡ false = ground arith in
      rw (a, f)
        (rw (pos-sub t.year 1 (omega (arith, v.from_epoch)))
          (from_march_lem (t.year - 1) (t.month + 9) t.day n v.from_first (rw a at e)))
  | inr a ↦
      let f : ltb 2 t.month ≡ true = ground arith in
      rw (a, f) (from_march_lem t.year (t.month - 3) t.day n v.from_first (rw a at e))
]

-- For every n, the formula numbers the civil that the calendar reaches n days after 1970-01-01, by its
-- rules for the lengths of months and for leap years, with n.
pub days_from_civil-date_after :
    (n : ℕ)
    → days_from_civil (pos (date_after n).year) (date_after n).month (pos (date_after n).day)
      ≡ pos n
days_from_civil-date_after n =
    days_from_civil-civil_days (date_after n) n (date_after-IsDate n) (civil_days-date_after n)

-- The first and the last day of a month are from 1 to 31.
pub day_range : (n : ℕ) → (1 ≤ (date_after n).day) × ((date_after n).day ≤ 31)
unfolding days_in_month
day_range n = ground (arith, date_after-IsDate n)
