-- ===== src/Prelude/Dates.antt =====
-- Python's `datetime.date`: the count of days, and texts such as `2026-05-31` and `20260531`. The form
-- with a week is not read.
use nyc_pa_aws_gitops.Prelude.{
  ℕ, zero, suc, ◌+◌, ◌-◌, ◌*◌, ◌/◌, ◌%◌, code, String, ◌≡◌, refl, Bool, not, ◌&&◌, ◌||◌, ◌==◌,
  Option, none, some, ltb, leb, eqb, if◌then◌else◌, is_digit, strip_prefix,
}

pub record Date : Type 0 where
  pub year : ℕ
  pub month : ℕ
  pub day : ℕ

abbrev pub is_leap : ℕ → Bool
is_leap y = eqb (y % 4) 0 && (not (eqb (y % 100) 0) || eqb (y % 400) 0)

abbrev february : ℕ → ℕ
february y = if is_leap y then 29 else 28

-- The days of the months before the month `m`, and of the month `m`.
abbrev pub before_month : ℕ → ℕ → ℕ
before_month y m =
    if ltb m 2 then 0 else if ltb m 3 then 31 else 31 + february y + (153 * (m - 3) + 2) / 5

abbrev pub month_days : ℕ → ℕ → ℕ
month_days y m =
    if eqb m 2 then february y else if eqb m 4 || (eqb m 6 || (eqb m 9 || eqb m 11)) then 30 else 31

-- `d.toordinal()`
unfoldable pub ordinal : Date → ℕ
ordinal d =
    let y = d.year - 1 in 365 * y + y / 4 - y / 100 + y / 400 + before_month d.year d.month + d.day

-- A number of `n` digits, and what follows it.
unfoldable read_digits : ℕ → ℕ → String → Option (ℕ × String)
read_digits zero acc s = some (acc, s)
read_digits (suc n) acc String.[] = none
read_digits (suc n) acc (String.◌∷◌ c s) =
    let rest = read_digits n (acc * 10 + (code c - b'0')) s in
    if is_digit (code c) then rest else none

abbrev in_calendar : ℕ → ℕ → ℕ → String → Option Date
in_calendar y m d rest =
    if rest == "" && (leb 1 y && (leb 1 m && (leb m 12 && (leb 1 d && leb d (month_days y m)))))
    then some (record { year = y; month = m; day = d })
    else none

abbrev day_of : ℕ → ℕ → Option (ℕ × String) → Option Date
day_of y m none = none
day_of y m (some (d, rest)) = in_calendar y m d rest

abbrev dashed_day : ℕ → ℕ → Option String → Option Date
dashed_day y m none = none
dashed_day y m (some s) = day_of y m (read_digits 2 0 s)

abbrev dashed_month : ℕ → Option (ℕ × String) → Option Date
dashed_month y none = none
dashed_month y (some (m, rest)) = dashed_day y m (strip_prefix "-" rest)

abbrev plain_month : ℕ → Option (ℕ × String) → Option Date
plain_month y none = none
plain_month y (some (m, rest)) = day_of y m (read_digits 2 0 rest)

abbrev behind_year : ℕ → String → Option String → Option Date
behind_year y rest none = plain_month y (read_digits 2 0 rest)
behind_year y rest (some s) = dashed_month y (read_digits 2 0 s)

abbrev year_of : Option (ℕ × String) → Option Date
year_of none = none
year_of (some (y, rest)) = behind_year y rest (strip_prefix "-" rest)

-- `datetime.date.fromisoformat(s)`
unfoldable pub date_of : String → Option Date
unfolding read_digits strip_prefix
date_of s = year_of (read_digits 4 0 s)

dashed_example : date_of "2026-05-31" ≡ some (record { year = 2026; month = 5; day = 31 })
unfolding date_of
dashed_example = refl

plain_example : date_of "20240229" ≡ some (record { year = 2024; month = 2; day = 29 })
unfolding date_of
plain_example = refl

absent_example : date_of "2026-02-29" ≡ none
unfolding date_of
absent_example = refl

first_example : ordinal (record { year = 1; month = 1; day = 1 }) ≡ 1
unfolding ordinal
first_example = refl

day_example : ordinal (record { year = 2026; month = 11; day = 25 }) ≡ 739945
unfolding ordinal
day_example = refl
