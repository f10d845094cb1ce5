-- ===== src/Cron/Tests.antt =====
-- Runs of cron.rs, the code's own tests among them.
use mathlib.Core.List.{Memᴰ}
use voodoo_store.Prelude.{
  ℕ, zero, suc, ◌+◌, ◌-◌, ◌≡◌, ◌↔◌, ◌==◌, refl, Bool, true, false, List, [], ◌∷◌, arith,
}
use voodoo_store.Prelude.Int.{pos, ◌+ℤ◌, ◌-ℤ◌, ◌*ℤ◌, div_euclid, rem_euclid}
use voodoo_store.Result.{ok, err, ◌>>=◌}
use voodoo_store.Bytes.{codes}
use voodoo_store.Cron
use voodoo_store.Cron.{CronExpression, next_after_utc_ms, max_minutes}
use voodoo_store.Cron.Fields
use voodoo_store.Cron.Chars.{
  Text, split_whitespace, split, is_whitespace, split_once, u8_digits, unsigned, parse_u8,
}
use voodoo_store.Cron.Calendar.{civil_from_days, civil_of_era, era_of, year_of_era}
use voodoo_store.Cron.Fields.{invalid_field_count, invalid_field, Field, none_allowed}
use voodoo_store.Cron.Fields.Meaning.{PartMeans, parse-matches}
use voodoo_store.Cron.Next.{NextPost, next_after_utc_ms-NextPost}
use voodoo_store.Cron.Calendar.Days.{IsDate, civil_from_days-IsDate}

next_minute :
    (Cron.parse (codes "*/5 * * * *") >>= λ cron. Cron.next_after_utc_ms cron (pos 0))
    ≡ ok (pos 300000)
unfolding Cron.parse split_whitespace split is_whitespace Fields.parse Fields.parse_parts
    Fields.parse_part Fields.parse_step split_once u8_digits unsigned parse_u8 Fields.parse_range
    Fields.parse_value Fields.mark Fields.allow Fields.allowed_at Fields.matches Cron.parse_fields
    ◌+ℤ◌ ◌-ℤ◌ ◌*ℤ◌ div_euclid rem_euclid civil_from_days civil_of_era era_of year_of_era
    Cron.base_after Cron.matches_utc_ms Cron.search_from Cron.next_after_utc_ms
next_minute = refl

few_fields : Cron.parse (codes "* * * *") ≡ err invalid_field_count
unfolding Cron.parse split_whitespace split is_whitespace Fields.parse Fields.parse_parts
    Fields.parse_part Fields.parse_step split_once u8_digits unsigned parse_u8 Fields.parse_range
    Fields.parse_value Fields.mark Fields.allow Fields.allowed_at Fields.matches Cron.parse_fields
few_fields = refl

large_minute : Cron.parse (codes "60 * * * *") ≡ err (invalid_field (codes "60"))
unfolding Cron.parse split_whitespace split is_whitespace Fields.parse Fields.parse_parts
    Fields.parse_part Fields.parse_step split_once u8_digits unsigned parse_u8 Fields.parse_range
    Fields.parse_value Fields.mark Fields.allow Fields.allowed_at Fields.matches Cron.parse_fields
large_minute = refl

weekday :
    (Cron.parse (codes "0 0 1 * 5") >>= λ cron. ok (Cron.matches_utc_ms cron (pos 0))) ≡ ok true
unfolding Cron.parse split_whitespace split is_whitespace Fields.parse Fields.parse_parts
    Fields.parse_part Fields.parse_step split_once u8_digits unsigned parse_u8 Fields.parse_range
    Fields.parse_value Fields.mark Fields.allow Fields.allowed_at Fields.matches Cron.parse_fields
    ◌+ℤ◌ ◌-ℤ◌ ◌*ℤ◌ div_euclid rem_euclid civil_from_days civil_of_era era_of year_of_era
    Cron.base_after Cron.matches_utc_ms Cron.search_from Cron.next_after_utc_ms
weekday = refl

abbrev any_of : ℕ → ℕ → Field
any_of min max = record {
  min = min;
  max = max;
  allowed = all_allowed (max - min + 1);
  wildcard = true;
}
  where
    all_allowed : ℕ → List Bool
    all_allowed zero = []
    all_allowed (suc n) = true ∷ all_allowed n

-- "0 * * * *"
abbrev hourly : CronExpression
hourly = record {
  minute = record { min = 0; max = 59; allowed = true ∷ none_allowed 59; wildcard = false };
  hour = any_of 0 23;
  day_of_month = any_of 1 31;
  month = any_of 1 12;
  day_of_week = any_of 0 6;
}

hourly_lem : Cron.parse (codes "0 * * * *") ≡ ok hourly
unfolding Cron.parse split_whitespace split is_whitespace Fields.parse Fields.parse_parts
    Fields.parse_part Fields.parse_step split_once u8_digits unsigned parse_u8 Fields.parse_range
    Fields.parse_value Fields.mark Fields.allow Fields.allowed_at Fields.matches Cron.parse_fields
hourly_lem = refl

next_after_utc_ms-NextPost_example :
    NextPost hourly (pos 1000) max_minutes (next_after_utc_ms hourly (pos 1000))
next_after_utc_ms-NextPost_example = next_after_utc_ms-NextPost hourly (pos 1000) (omega arith)

-- The first, the fourth and the last of seven days.
abbrev three_days : Field
three_days = record {
  min = 0;
  max = 6;
  allowed = true ∷ false ∷ false ∷ true ∷ false ∷ false ∷ true ∷ [];
  wildcard = false;
}

parse-matches_example : (Fields.matches three_days 3 ≡ true) ↔ (
    (part : Text) × Memᴰ part (split (λ c. c == b',') (codes "*/3"))
    × PartMeans (codes "*/3") 0 6 part 3)
unfolding Cron.parse split_whitespace split is_whitespace Fields.parse Fields.parse_parts
    Fields.parse_part Fields.parse_step split_once u8_digits unsigned parse_u8 Fields.parse_range
    Fields.parse_value Fields.mark Fields.allow Fields.allowed_at Fields.matches Cron.parse_fields
parse-matches_example = parse-matches (codes "*/3") 0 6 (omega arith) (omega arith) refl 3

-- The 29th of February 2024.
civil_from_days-IsDate_example : IsDate 739250 (civil_from_days (pos 19782))
unfolding ◌+ℤ◌
civil_from_days-IsDate_example = civil_from_days-IsDate 739250 (pos 19782) refl

leap_day : civil_from_days (pos 19782) ≡ record { year = pos 2024; month = 2; day = 29 }
unfolding ◌+ℤ◌ ◌-ℤ◌ ◌*ℤ◌ div_euclid civil_from_days civil_of_era era_of year_of_era
leap_day = refl
