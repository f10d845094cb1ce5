-- ===== src/Cron.antt =====
-- cron.rs: cron expressions, the times that they match and the next of them.
pub mod Chars
pub mod Fields
pub mod Utf8
pub mod Calendar
pub mod Next
mod Tests
use voodoo_store.Prelude.{
  ℕ, zero, suc, ◌+◌, ◌*◌, ◌%◌, Bool, true, false, ◌&&◌, ◌||◌, Option, none, some, List, [], ◌∷◌,
  if◌then◌else◌,
}
use voodoo_store.Prelude.Int.{ℤ, pos, ◌+ℤ◌, ◌*ℤ◌, ltb_ℤ, div_euclid, rem_euclid}
use voodoo_store.Result.{Result, ok, err, ok_or, ◌>>=◌}
use voodoo_store.Bytes.{codes}
use voodoo_store.Bytes.Words.{fits, i64_half, checked_add_i64}
use voodoo_store.Cron.Chars.{Text, split_whitespace}
use voodoo_store.Cron.Fields
use voodoo_store.Cron.Fields.{Field, CronError, invalid_field_count, time_overflow, invalid_field}
use voodoo_store.Cron.Calendar.{civil_from_days}

pub record CronExpression : Type 0 where
  pub minute : Field
  pub hour : Field
  pub day_of_month : Field
  pub month : Field
  pub day_of_week : Field

unfoldable pub parse_fields : List Text → Result CronError CronExpression
parse_fields (p0 ∷ p1 ∷ p2 ∷ p3 ∷ p4 ∷ []) = do
  minute ← Fields.parse p0 0 59
  hour ← Fields.parse p1 0 23
  day_of_month ← Fields.parse p2 1 31
  month ← Fields.parse p3 1 12
  day_of_week ← Fields.parse p4 0 6
  ok (record {
    minute = minute;
    hour = hour;
    day_of_month = day_of_month;
    month = month;
    day_of_week = day_of_week;
  })
parse_fields _ = err invalid_field_count

unfoldable pub parse : Text → Result CronError CronExpression
unfolding parse_fields
parse expression = parse_fields (split_whitespace expression)

-- Rust's `as u8`.
abbrev pub as_u8 : ℕ → ℕ
as_u8 n = n % 256

abbrev pub day_match : Bool → Bool → Bool → Bool → Bool
day_match true true dom_match dow_match = true
day_match true false dom_match dow_match = dow_match
day_match false true dom_match dow_match = dom_match
day_match false false dom_match dow_match = dom_match || dow_match

-- Whether a time in milliseconds matches.
unfoldable pub matches_utc_ms : CronExpression → ℤ → Bool
matches_utc_ms cron timestamp_ms =
    let seconds = div_euclid timestamp_ms 1000 in
    let minutes = div_euclid seconds 60 in
    let days = div_euclid minutes 1440 in
    let minute = as_u8 (rem_euclid minutes 60) in
    let hour = as_u8 (rem_euclid (div_euclid minutes 60) 24) in
    let civil = civil_from_days days in
    let dow = as_u8 (rem_euclid (days +ℤ pos 4) 7) in
    if ltb_ℤ civil.year (pos 1970)
    then false
    else Fields.matches cron.minute minute
      && Fields.matches cron.hour hour
      && Fields.matches cron.month (as_u8 civil.month)
      && day_match cron.day_of_month.wildcard cron.day_of_week.wildcard
          (Fields.matches cron.day_of_month (as_u8 civil.day)) (Fields.matches cron.day_of_week dow)

abbrev pub minute_ms : ℕ
minute_ms = 60000

-- `i64::checked_mul`.
abbrev pub checked_mul_i64 : ℤ → ℤ → Option ℤ
checked_mul_i64 a b = if fits i64_half (a *ℤ b) then some (a *ℤ b) else none

abbrev pub max_minutes : ℕ
max_minutes = 8 * 366 * 24 * 60

-- The `for` loop, with the number of rounds to go.
unfoldable pub search_from : ℕ → CronExpression → ℤ → Result CronError ℤ
search_from zero cron candidate =
    err (invalid_field (codes "no matching time within search horizon"))
search_from (suc rounds) cron candidate = elim (matches_utc_ms cron candidate) [
  | true ↦ ok candidate
  | false ↦ elim (checked_add_i64 candidate (pos minute_ms)) [
    | none ↦ err time_overflow
    | some next ↦ search_from rounds cron next
  ]
]

-- The first whole minute after a time.
unfoldable pub base_after : ℤ → Result CronError ℤ
base_after after_ms = do
  minute ← ok_or (checked_add_i64 (div_euclid after_ms minute_ms) (pos 1)) time_overflow
  ok_or (checked_mul_i64 minute (pos minute_ms)) time_overflow

unfoldable pub next_after_utc_ms : CronExpression → ℤ → Result CronError ℤ
unfolding search_from base_after
next_after_utc_ms cron after_ms = base_after after_ms >>= search_from max_minutes cron
