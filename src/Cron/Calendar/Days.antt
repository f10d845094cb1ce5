-- ===== src/Cron/Calendar/Days.antt =====
-- cron.rs: the civil date of a day names that day, and its month and day are in range.
use voodoo_store.Prelude.{
  ℕ, true, not, ◌&&◌, ◌||◌, ◌==◌, ◌+◌, ◌-◌, ◌*◌, ◌/◌, ◌%◌, ◌<◌, ◌≤◌, ◌≡◌, Bool, refl, subst, ◌∙◌,
  arith, leb, if◌then◌else◌,
}
use voodoo_store.Prelude.Int.{ℤ, pos, pos_part, ◌+ℤ◌, ◌-ℤ◌, ◌*ℤ◌, leb_ℤ, div_euclid}
use voodoo_store.Cron.Calendar.{Civil, month_of, year_of_era, civil_of_era, era_of, civil_from_days}

-- The days before a year that starts in March, counted from the first of March of year 0.
abbrev pub days_before : ℕ → ℕ
days_before year = 365 * year + year / 4 - year / 100 + year / 400

-- The months from March on, with the number of the month of a civil date.
abbrev pub months_from_march : ℕ → ℕ
months_from_march month = if leb month 2 then month + 9 else month - 3

-- The year from March to February that a month of a year is in.
abbrev pub march_year : ℕ → ℕ → ℕ
march_year year month = if leb month 2 then year - 1 else year

-- The days of a civil date since the first of March of year 0.
abbrev pub day_number : ℕ → ℕ → ℕ → ℕ
day_number year month day =
    days_before (march_year year month) + (153 * months_from_march month + 2) / 5 + (day - 1)

module _ (doe : ℕ) (h : doe < 146097) where
  day_of_year : ℕ
  unfolding year_of_era
  day_of_year = let yoe = year_of_era doe in doe - (365 * yoe + yoe / 4 - yoe / 100)

  year_bounds : year_of_era doe < 400
  unfolding year_of_era
  year_bounds = omega arith

  day_of_year_bounds : day_of_year ≤ 365
  unfolding day_of_year year_of_era
  day_of_year_bounds = omega arith

  day_of_year_lem : let yoe = year_of_era doe in 365 * yoe + yoe / 4 - yoe / 100 + day_of_year ≡ doe
  unfolding day_of_year year_of_era
  day_of_year_lem = omega arith

-- The days before a year of an era.
era_days :
    (era yoe : ℕ)
    → yoe < 400
    → days_before (yoe + era * 400) ≡ era * 146097 + (365 * yoe + yoe / 4 - yoe / 100)
era_days era yoe h = omega arith

month_bounds :
    (doy : ℕ)
    → doy ≤ 365
    → let mp = (5 * doy + 2) / 153 in
      let day = doy - (153 * mp + 2) / 5 + 1 in
      (mp ≤ 11) × (day ≤ 31) × ((153 * mp + 2) / 5 + (day - 1) ≡ doy)
month_bounds doy h = (omega arith, omega arith, omega arith)

month_of_bounds :
    (mp : ℕ)
    → mp ≤ 11
    → (1 ≤ month_of mp) × (month_of mp ≤ 12) × (months_from_march (month_of mp) ≡ mp)
month_of_bounds mp h = (ground arith, ground arith, ground arith)

abbrev pub is_leap : ℕ → Bool
is_leap year = year % 4 == 0 && (not (year % 100 == 0) || year % 400 == 0)

abbrev pub days_in_month : ℕ → ℕ → ℕ
days_in_month year month =
    if month == 2
    then (if is_leap year then 29 else 28)
    else if (month == 4) || (month == 6) || (month == 9) || (month == 11)
    then 30
    else 31

-- A day of February that is the last of a year from March on needs a leap year.
leap_of_last :
    (doe : ℕ) (h : doe < 146097) → day_of_year doe h ≡ 365 → is_leap (year_of_era doe + 1) ≡ true
unfolding day_of_year year_of_era
leap_of_last doe h last = ground arith

month_len :
    (doy year : ℕ)
    → doy ≤ 365
    → (doy ≡ 365 → is_leap (year + 1) ≡ true)
    → let mp = (5 * doy + 2) / 153 in
      let day = doy - (153 * mp + 2) / 5 + 1 in
      let month = month_of mp in day ≤ days_in_month (year + (if leb month 2 then 1 else 0)) month
month_len doy year h leap = ground arith

is_leap-era : (year era : ℕ) → is_leap (year + era * 400) ≡ is_leap year
is_leap-era year era = ground arith

-- The date of a day, counted from the first of March of year 0.
abbrev pub IsDate : ℕ → Civil → Type 0
IsDate z civil =
    (civil.year ≡ pos (pos_part civil.year))
    × (1 ≤ civil.month)
    × (civil.month ≤ 12)
    × (1 ≤ civil.day)
    × (civil.day ≤ days_in_month (pos_part civil.year) civil.month)
    × (day_number (pos_part civil.year) civil.month civil.day ≡ z)

civil_year :
    (yoe era bonus : ℕ) → pos yoe +ℤ pos era *ℤ pos 400 +ℤ pos bonus ≡ pos (yoe + era * 400 + bonus)
unfolding ◌+ℤ◌ ◌*ℤ◌
civil_year yoe era bonus = ground arith

abbrev bonus : ℕ → ℕ
bonus month = if leb month 2 then 1 else 0

march_year_lem : (year month : ℕ) → march_year (year + bonus month) month ≡ year
march_year_lem year month = ground arith

module _ (yoe era doy : ℕ) (small : yoe < 400) (short : doy ≤ 365)
    (leap : doy ≡ 365 → is_leap (yoe + 1) ≡ true) where
  year : ℕ
  year = yoe + era * 400

  mp : ℕ
  mp = (5 * doy + 2) / 153

  month : ℕ
  unfolding mp
  month = month_of mp

  day : ℕ
  unfolding mp
  day = doy - (153 * mp + 2) / 5 + 1

  leap_year : doy ≡ 365 → is_leap (year + 1) ≡ true
  unfolding year
  leap_year last =
      let e : yoe + 1 + era * 400 ≡ year + 1 = omega arith in
      subst (λ n. is_leap n ≡ true) e (is_leap-era (yoe + 1) era ∙ leap last)

  number :
      day_number (year + bonus month) month day
      ≡ era * 146097 + (365 * yoe + yoe / 4 - yoe / 100) + doy
  unfolding year month day mp
  number =
      let (low, _, whole) = month_bounds doy short in
      let (_, _, back) = month_of_bounds mp low in
      rw (march_year_lem year month, back, era_days era yoe small) (omega (arith, whole))

  year_and_day-IsDate : IsDate (era * 146097 + (365 * yoe + yoe / 4 - yoe / 100) + doy) (record {
    year = pos yoe +ℤ pos era *ℤ pos 400 +ℤ pos (bonus month);
    month = month;
    day = day;
  })
  unfolding year month day mp
  year_and_day-IsDate =
      let (low, most, whole) = month_bounds doy short in
      let (first, last, back) = month_of_bounds mp low in
      rw (civil_year yoe era (bonus month))
        (refl, first, last, omega arith, month_len doy year short leap_year, number)

civil_of_era-IsDate :
    (era doe : ℕ) → doe < 146097 → IsDate (era * 146097 + doe) (civil_of_era (pos era) doe)
unfolding civil_of_era day_of_year month day mp
civil_of_era-IsDate era doe h =
    let doy = day_of_year doe h in
    let yoe = year_of_era doe in
    let e : era * 146097 + (365 * yoe + yoe / 4 - yoe / 100) + doy ≡ era * 146097 + doe =
      omega (arith, day_of_year_lem doe h) in
    subst (λ z. IsDate z (civil_of_era (pos era) doe)) e
      (year_and_day-IsDate yoe era doy (year_bounds doe h) (day_of_year_bounds doe h)
        (leap_of_last doe h))

era_of-pos : (z : ℕ) → era_of (pos z) ≡ pos (z / 146097)
unfolding era_of div_euclid
era_of-pos z = let e : leb_ℤ (pos 0) (pos z) ≡ true = ground arith in rw e refl

day_of_era : (z : ℕ) → pos_part (pos z -ℤ pos (z / 146097) *ℤ pos 146097) ≡ z % 146097
unfolding ◌-ℤ◌ ◌*ℤ◌
day_of_era z = ground arith

-- The date that the code finds for a day from the first of March of year 0 on is the one date of the
-- Gregorian calendar with that day: its month and its day of the month exist in its year, and the days
-- from the first of March of year 0 to it, 719468 more than those since the start of 1970, are counted
-- year by year and month by month.
pub civil_from_days-IsDate :
    (z : ℕ) (days_since_epoch : ℤ)
    → days_since_epoch +ℤ pos 719468 ≡ pos z
    → IsDate z (civil_from_days days_since_epoch)
unfolding civil_from_days
civil_from_days-IsDate z days_since_epoch e =
    rw (e, era_of-pos z, day_of_era z)
      (let w : z / 146097 * 146097 + z % 146097 ≡ z = omega arith in
        subst (λ n. IsDate n (civil_of_era (pos (z / 146097)) (z % 146097))) w
          (civil_of_era-IsDate (z / 146097) (z % 146097) (omega arith)))
