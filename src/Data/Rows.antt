-- ===== src/Data/Rows.antt =====
-- data_import.py: `_normalize_rows`. none is a ValueError that is no DataImportValidationError.
use open_quant_studio.Base.{
  ℕ, suc, ◌==◌, ◌&&◌, ◌||◌, Bool, true, false, Option, none, some, ◌>>=◌, List, [], ◌∷◌, ◌++◌,
  if◌then◌else◌, leb,
}
use open_quant_studio.Base.Int.{ℤ}
use open_quant_studio.Data.Decimal.{
  Decimal, is_at_most_zero, is_below_zero, ltb_decimal, max_decimal, min_decimal, is_too_fine,
  atoms_of, is_unprintable,
}

pub data Field : Type 0 where
  timestamp_field symbol_field open_field high_field low_field close_field volume_field : Field

pub data Complaint : Type 0 where
  is_required not_a_date not_finite_decimal not_increasing not_unique not_above_zero : Complaint
  is_negative_volume below_open_or_close above_open_or_close below_low too_many_places : Complaint

pub record Detail : Type 0 where
  pub row_number : ℕ
  pub field : Field
  pub message : Complaint

-- What `_timestamp` makes of a cell: it is blank, no date, or an instant in microseconds.
pub data Moment : Type 0 where
  blank unparsed : Moment
  instant : ℕ → Moment

-- What `Decimal` makes of a cell: an InvalidOperation or a value that is not finite, or a number.
pub data Number : Type 0 where
  refused : Number
  finite : Decimal → Number

-- The mapped cells of a row; the symbol is none if it is blank.
pub record Row : Type 0 where
  pub moment : Moment
  pub symbol : Option ℕ
  pub open_cell : Number
  pub high_cell : Number
  pub low_cell : Number
  pub close_cell : Number
  pub volume_cell : Number

pub record Values : Type 0 where
  pub open_price : Decimal
  pub high_price : Decimal
  pub low_price : Decimal
  pub close_price : Decimal
  pub volume_value : Decimal

pub record Normalized : Type 0 where
  pub timestamp : ℕ
  pub symbol : ℕ
  pub open_atoms : ℤ
  pub high_atoms : ℤ
  pub low_atoms : ℤ
  pub close_atoms : ℤ
  pub volume_atoms : ℤ

abbrev pub detail : ℕ → Field → Complaint → Detail
detail row_number field message = record {
  row_number = row_number;
  field = field;
  message = message;
}

-- A detail that is appended under a condition.
abbrev pub complain : Bool → Detail → List Detail
complain true d = d ∷ []
complain false d = []

-- `_timestamp`, `_required_text` and `_decimal`: the value, and what they append to the details.
abbrev pub moment_details : ℕ → Moment → List Detail
moment_details index blank = detail index timestamp_field is_required ∷ []
moment_details index unparsed = detail index timestamp_field not_a_date ∷ []
moment_details index (instant t) = []

abbrev pub symbol_details : ℕ → Option ℕ → List Detail
symbol_details index none = detail index symbol_field is_required ∷ []
symbol_details index (some s) = []

abbrev pub number_details : ℕ → Field → Number → List Detail
number_details index field refused = detail index field not_finite_decimal ∷ []
number_details index field (finite d) = []

unfoldable pub reading_details : ℕ → Row → List Detail
reading_details index row =
    moment_details index row.moment
    ++ (symbol_details index row.symbol
        ++ (number_details index open_field row.open_cell
            ++ (number_details index high_field row.high_cell
                ++ (number_details index low_field row.low_cell
                    ++ (number_details index close_field row.close_cell
                        ++ number_details index volume_field row.volume_cell)))))

abbrev pub moment_of : Moment → Option ℕ
moment_of (instant t) = some t
moment_of _ = none

abbrev pub number_of : Number → Option Decimal
number_of refused = none
number_of (finite d) = some d

unfoldable pub values_of : Row → Option Values
values_of row = number_of row.open_cell >>= λ open_value. number_of row.high_cell >>= λ high_value.
    number_of row.low_cell >>= λ low_value. number_of row.close_cell >>= λ close_value.
    number_of row.volume_cell >>= λ volume_value. some (record {
      open_price = open_value;
      high_price = high_value;
      low_price = low_value;
      close_price = close_value;
      volume_value = volume_value;
    })

-- The variables of the loop; the dictionary has its newest entry first.
pub record Loop : Type 0 where
  pub normalized : List Normalized
  pub details : List Detail
  pub previous_timestamp_by_symbol : List (ℕ × ℕ)
  pub observed_keys : List (ℕ × ℕ)

unfoldable pub previous_of : ℕ → List (ℕ × ℕ) → Option ℕ
previous_of symbol [] = none
previous_of symbol ((s, t) ∷ entries) = if s == symbol then some t else previous_of symbol entries

abbrev pub is_late : ℕ → Option ℕ → Bool
is_late t none = false
is_late t (some previous) = leb t previous

unfoldable pub is_observed : ℕ → ℕ → List (ℕ × ℕ) → Bool
is_observed t symbol [] = false
is_observed t symbol ((u, s) ∷ keys) = t == u && symbol == s || is_observed t symbol keys

unfoldable pub order_details : ℕ → ℕ → ℕ → Loop → List Detail
order_details index t symbol loop =
    complain (is_late t (previous_of symbol loop.previous_timestamp_by_symbol))
      (detail index timestamp_field not_increasing)
    ++ complain (is_observed t symbol loop.observed_keys) (detail index symbol_field not_unique)

unfoldable pub price_details : ℕ → Values → List Detail
price_details index v =
    complain (is_at_most_zero v.open_price) (detail index open_field not_above_zero)
    ++ (complain (is_at_most_zero v.high_price) (detail index high_field not_above_zero)
        ++ (complain (is_at_most_zero v.low_price) (detail index low_field not_above_zero)
            ++ (complain (is_at_most_zero v.close_price) (detail index close_field not_above_zero)
                ++ (complain (is_below_zero v.volume_value)
                      (detail index volume_field is_negative_volume)
                    ++ (complain (ltb_decimal v.high_price (max_decimal v.open_price v.close_price))
                          (detail index high_field below_open_or_close)
                        ++ (complain
                              (ltb_decimal (min_decimal v.open_price v.close_price) v.low_price)
                              (detail index low_field above_open_or_close)
                            ++ complain (ltb_decimal v.high_price v.low_price)
                                (detail index high_field below_low)))))))

abbrev pub too_fine : Decimal → Bool
too_fine d = is_too_fine d.exponent

unfoldable pub atoms_details : ℕ → Values → List Detail
atoms_details index v =
    complain (too_fine v.open_price) (detail index open_field too_many_places)
    ++ (complain (too_fine v.high_price) (detail index high_field too_many_places)
        ++ (complain (too_fine v.low_price) (detail index low_field too_many_places)
            ++ (complain (too_fine v.close_price) (detail index close_field too_many_places)
                ++ complain (too_fine v.volume_value) (detail index volume_field too_many_places))))

abbrev pub any_value : (Decimal → Bool) → Values → Bool
any_value p v =
    p v.open_price || (p v.high_price || (p v.low_price || (p v.close_price || p v.volume_value)))

abbrev pub normalized_row : ℕ → ℕ → Values → Normalized
normalized_row t symbol v = record {
  timestamp = t;
  symbol = symbol;
  open_atoms = atoms_of v.open_price;
  high_atoms = atoms_of v.high_price;
  low_atoms = atoms_of v.low_price;
  close_atoms = atoms_of v.close_price;
  volume_atoms = atoms_of v.volume_value;
}

abbrev pub checked_loop : ℕ → ℕ → ℕ → Values → Loop → Loop
checked_loop index t symbol v loop = record {
  normalized =
      if any_value too_fine v
      then loop.normalized
      else loop.normalized ++ normalized_row t symbol v ∷ [];
  details =
      loop.details
      ++ (order_details index t symbol loop ++ (price_details index v ++ atoms_details index v));
  previous_timestamp_by_symbol = (symbol, t) ∷ loop.previous_timestamp_by_symbol;
  observed_keys = (t, symbol) ∷ loop.observed_keys;
}

-- The body of the loop after its `continue`.
unfoldable pub checked : ℕ → ℕ → ℕ → Values → Loop → Option Loop
checked index t symbol v loop =
    if any_value is_unprintable v then none else some (checked_loop index t symbol v loop)

abbrev pub read_into : ℕ → Row → Loop → Loop
read_into index row loop = record {
  normalized = loop.normalized;
  details = loop.details ++ reading_details index row;
  previous_timestamp_by_symbol = loop.previous_timestamp_by_symbol;
  observed_keys = loop.observed_keys;
}

unfoldable pub step : ℕ → Option ℕ → Option ℕ → Option Values → Loop → Option Loop
step index (some t) (some symbol) (some v) loop = checked index t symbol v loop
step index _ _ _ loop = some loop

unfoldable pub run_rows : ℕ → List Row → Loop → Option Loop
run_rows index [] loop = some loop
run_rows index (row ∷ rows) loop =
    step index (moment_of row.moment) row.symbol (values_of row) (read_into index row loop)
    >>= run_rows (suc index) rows

-- A DataImportValidationError with its details, or the rows.
pub data Normalization : Type 0 where
  invalid : List Detail → Normalization
  accepted : List Normalized → Normalization

abbrev empty_loop : Loop
empty_loop = record {
  normalized = [];
  details = [];
  previous_timestamp_by_symbol = [];
  observed_keys = [];
}

abbrev pub verdict_of : List Detail → List Normalized → Normalization
verdict_of [] rows = accepted rows
verdict_of (d ∷ details) rows = invalid (d ∷ details)

unfoldable pub normalize_rows : List Row → Option Normalization
normalize_rows rows =
    run_rows 2 rows empty_loop >>= λ loop. some (verdict_of loop.details loop.normalized)
