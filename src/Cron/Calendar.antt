-- ===== src/Cron/Calendar.antt =====
-- cron.rs: the civil date of a day.
pub mod Days
use voodoo_store.Prelude.{ℕ, ◌+◌, ◌-◌, ◌*◌, ◌/◌, Bool, true, false, ltb, leb, if◌then◌else◌}
use voodoo_store.Prelude.Int.{ℤ, pos, pos_part, ◌+ℤ◌, ◌-ℤ◌, ◌*ℤ◌, leb_ℤ, div_euclid}

pub record Civil : Type 0 where
  pub year : ℤ
  pub month : ℕ
  pub day : ℕ

abbrev pub month_of : ℕ → ℕ
month_of mp = if ltb mp 10 then mp + 3 else mp - 9

unfoldable pub year_of_era : ℕ → ℕ
year_of_era doe = (doe - doe / 1460 + doe / 36524 - doe / 146096) / 365

-- The date on a day of an era; none of the differences is negative.
unfoldable pub civil_of_era : ℤ → ℕ → Civil
unfolding year_of_era
civil_of_era era doe =
    let yoe = year_of_era doe in
    let doy = doe - (365 * yoe + yoe / 4 - yoe / 100) in
    let mp = (5 * doy + 2) / 153 in
    let month = month_of mp in
    record {
      year = pos yoe +ℤ era *ℤ pos 400 +ℤ pos (if leb month 2 then 1 else 0);
      month = month;
      day = doy - (153 * mp + 2) / 5 + 1;
    }

unfoldable pub era_of : ℤ → ℤ
era_of z = div_euclid (if leb_ℤ (pos 0) z then z else z -ℤ pos 146096) 146097

-- The day of the era is never negative.
unfoldable pub civil_from_days : ℤ → Civil
unfolding era_of
civil_from_days days_since_epoch =
    let z = days_since_epoch +ℤ pos 719468 in
    let era = era_of z in civil_of_era era (pos_part (z -ℤ era *ℤ pos 146097))
