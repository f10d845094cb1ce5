-- ===== src/Cron/Fields.antt =====
-- cron.rs: one field of an expression, the values that it allows.
pub mod Ranges
pub mod Grammar
pub mod Parts
pub mod Allowed
pub mod Meaning
use voodoo_store.Prelude.{
  ℕ, zero, suc, ◌+◌, ◌-◌, Bool, true, false, not, ◌&&◌, ◌||◌, Option, none, some, List, [], ◌∷◌,
  ◌==◌, ltb, leb, if◌then◌else◌,
}
use voodoo_store.Result.{Result, ok, err, fail_if, ok_or, ◌>>=◌, ◌>>◌}
use voodoo_store.Cron.Chars.{Text, text_eq, split, split_once, parse_u8}

pub data CronError : Type 0 where
  invalid_field_count time_overflow : CronError
  invalid_field : Text → CronError

pub record Field : Type 0 where
  pub min : ℕ
  pub max : ℕ
  pub allowed : List Bool
  pub wildcard : Bool

-- `vec![false; n]`
abbrev pub none_allowed : ℕ → List Bool
none_allowed zero = []
none_allowed (suc n) = false ∷ none_allowed n

-- `allowed[i] = true`, for an index in range.
unfoldable pub allow : ℕ → List Bool → List Bool
allow i [] = []
allow zero (value ∷ values) = true ∷ values
allow (suc i) (value ∷ values) = value ∷ allow i values

-- `allowed[i]`, for an index in range.
unfoldable pub allowed_at : List Bool → ℕ → Bool
allowed_at [] i = false
allowed_at (value ∷ values) zero = value
allowed_at (value ∷ values) (suc i) = allowed_at values i

abbrev pub any : List Bool → Bool
any [] = false
any (value ∷ values) = value || any values

unfoldable pub parse_value : Text → ℕ → ℕ → Text → Result CronError ℕ
parse_value value min max original = do
  value ← ok_or (parse_u8 value) (invalid_field original)
  fail_if (ltb value min || ltb max value) (invalid_field original)
  ok value

-- The two branches on `part.split_once('/')`.
unfoldable pub parse_step : Text → Text → Result CronError (Text × ℕ)
parse_step input part = elim (split_once b'/' part) [
  | some (base, step) ↦ do
    step ← ok_or (parse_u8 step) (invalid_field input)
    fail_if (step == 0) (invalid_field input)
    ok (base, step)
  | none ↦ ok (part, 1)
]

-- The start and the end of a part.
unfoldable pub parse_range : Text → Text → ℕ → ℕ → Result CronError (ℕ × ℕ)
parse_range input base min max =
    if text_eq base (b'*' ∷ []) then ok (min, max) else (elim (split_once b'-' base) [
      | some (start, end) ↦ do
        start ← parse_value start min max input
        end ← parse_value end min max input
        ok (start, end)
      | none ↦ do value ← parse_value base min max input; ok (value, value)
    ])

-- The `loop` over the values of a part, on fuel.
unfoldable pub mark : ℕ → ℕ → ℕ → ℕ → ℕ → List Bool → List Bool
mark zero min value step end allowed = allowed
mark (suc fuel) min value step end allowed =
    elim (ltb (value + step) 256 && leb (value + step) end) [
      | false ↦ allow (value - min) allowed
      | true ↦ mark fuel min (value + step) step end (allow (value - min) allowed)
    ]

-- Each round adds one at least.
abbrev pub mark_range : ℕ → ℕ → ℕ → ℕ → List Bool → List Bool
mark_range min start step end = mark (suc (end - start)) min start step end

-- The body of the loop over the parts.
unfoldable pub parse_part : Text → ℕ → ℕ → Text → List Bool → Result CronError (List Bool)
parse_part input min max part allowed = do
  (base, step) ← parse_step input part
  (start, end) ← parse_range input base min max
  fail_if (ltb end start) (invalid_field input)
  ok (mark_range min start step end allowed)

unfoldable pub parse_parts : Text → ℕ → ℕ → List Text → List Bool → Result CronError (List Bool)
parse_parts input min max [] allowed = ok allowed
parse_parts input min max (part ∷ parts) allowed =
    parse_part input min max part allowed >>= λ allowed. parse_parts input min max parts allowed

unfoldable pub parse : Text → ℕ → ℕ → Result CronError Field
parse input min max = do
  allowed ← parse_parts input min max (split (λ c. c == b',') input) (none_allowed (max - min + 1))
  fail_if (not (any allowed)) (invalid_field input)
  ok (record { min = min; max = max; allowed = allowed; wildcard = text_eq input (b'*' ∷ []) })

unfoldable pub matches : Field → ℕ → Bool
matches field value =
    if ltb value field.min || ltb field.max value
    then false
    else allowed_at field.allowed (value - field.min)
