-- ===== src/Data/Snapshot.antt =====
-- data_import.py: `read_data_import`, `_validate_mapping`, `build_data_snapshot` and
-- `_build_portfolio_data_snapshot`. none is an exception that is no DataImportValidationError. The
-- JSON bodies are the encodings of the snapshot and of the market's input.
use open_quant_studio.Base.{
  ℕ, suc, ◌/◌, ◌%◌, ◌==◌, ◌&&◌, ◌||◌, Bool, true, false, Option, none, some, ◌>>=◌, List, [], ◌∷◌,
  ◌++◌, map, if◌then◌else◌, ltb, leb, length, get_last?, sorted, distinct,
}
use open_quant_studio.Base.Int.{ℤ}
use open_quant_studio.Data.Rows.{
  Field, timestamp_field, symbol_field, open_field, high_field, low_field, close_field,
  volume_field, Detail, Row, Normalized, Normalization, invalid, accepted, normalize_rows,
}

abbrev pub max_data_rows : ℕ
max_data_rows = 250_000

-- The contents of a DataImportValidationError.
pub data Failure : Type 0 where
  bad_rows : List Detail → Failure
  bad_source bad_timezone bad_market multi_symbol_market : Failure
  columns_unavailable : List Field → Failure
  session_incomplete : (session_index : ℕ) → Failure

pub data Result (A : Type 0) : Type 0 where
  refused : Failure → Result A
  built : A → Result A

pub data Market : Type 0 where
  a_share_daily crypto_linear_perp other_market : Market

-- A portfolio's bar, the normalized row less its timestamp.
pub record Bar : Type 0 where
  pub symbol : ℕ
  pub open_atoms : ℤ
  pub high_atoms : ℤ
  pub low_atoms : ℤ
  pub close_atoms : ℤ
  pub volume_atoms : ℤ

pub record Session : Type 0 where
  pub timestamp : ℕ
  pub bars : List Bar

abbrev pub bar_of : Normalized → Bar
bar_of row = record {
  symbol = row.symbol;
  open_atoms = row.open_atoms;
  high_atoms = row.high_atoms;
  low_atoms = row.low_atoms;
  close_atoms = row.close_atoms;
  volume_atoms = row.volume_atoms;
}

-- The text of a timestamp ends in "Z", which comes after the "." of a fraction of a second: a whole
-- second comes after its fractions.
abbrev pub fraction_rank : ℕ → ℕ
fraction_rank t = if t % 1_000_000 == 0 then 1_000_000 else t % 1_000_000

abbrev pub text_leb : ℕ → ℕ → Bool
text_leb t u =
    if t / 1_000_000 == u / 1_000_000
    then leb (fraction_rank t) (fraction_rank u)
    else leb (t / 1_000_000) (u / 1_000_000)

-- The order of the keys (timestamp, symbol).
abbrev pub key_leb : Normalized → Normalized → Bool
key_leb a b =
    if a.timestamp == b.timestamp then leb a.symbol b.symbol else text_leb a.timestamp b.timestamp

-- `sorted` of the set of the symbols.
unfoldable pub symbols_of : List Normalized → List ℕ
symbols_of rows = sorted leb (distinct (map (λ (row : Normalized). row.symbol) rows))

abbrev new_session : Normalized → Session
new_session row = record { timestamp = row.timestamp; bars = bar_of row ∷ [] }

-- The body of the loop: a row goes into the last session if that has its timestamp.
unfoldable pub add_row : Normalized → List Session → List Session
add_row row [] = new_session row ∷ []
add_row row (s ∷ []) =
    if s.timestamp == row.timestamp
    then record { timestamp = s.timestamp; bars = s.bars ++ bar_of row ∷ [] } ∷ []
    else s ∷ new_session row ∷ []
add_row row (s ∷ t ∷ sessions) = s ∷ add_row row (t ∷ sessions)

unfoldable pub group_rows : List Normalized → List Session → List Session
group_rows [] sessions = sessions
group_rows (row ∷ rows) sessions = group_rows rows (add_row row sessions)

unfoldable pub symbols_eq : List ℕ → List ℕ → Bool
symbols_eq [] [] = true
symbols_eq [] (t ∷ ts) = false
symbols_eq (s ∷ ss) [] = false
symbols_eq (s ∷ ss) (t ∷ ts) = s == t && symbols_eq ss ts

abbrev pub symbols_in : Session → List ℕ
symbols_in session = map (λ (bar : Bar). bar.symbol) session.bars

-- The number of the first session with other symbols than those expected.
unfoldable pub first_incomplete : ℕ → List ℕ → List Session → Option ℕ
first_incomplete index expected_symbols [] = none
first_incomplete index expected_symbols (session ∷ sessions) =
    if symbols_eq (symbols_in session) expected_symbols
    then first_incomplete (suc index) expected_symbols sessions
    else some index

-- What differs in the accounts of the markets.
pub record Account : Type 0 where
  pub symbols : List ℕ
  pub starting_balance_atoms : ℕ
  pub lot_size : ℕ
  pub allow_research_short : Option Bool
  pub commission_rate_atoms : ℕ
  pub stamp_duty_rate_atoms : Option ℕ
  pub maker_fee_rate_atoms : Option ℕ
  pub taker_fee_rate_atoms : Option ℕ
  pub slippage_atoms : ℕ

-- `_market_account`
unfoldable pub market_account : Market → ℕ → Result Account
market_account a_share_daily symbol = built (record {
  symbols = symbol ∷ [];
  starting_balance_atoms = 1_000_000_000;
  lot_size = 100;
  allow_research_short = some true;
  commission_rate_atoms = 600;
  stamp_duty_rate_atoms = some 1000;
  maker_fee_rate_atoms = some 0;
  taker_fee_rate_atoms = some 0;
  slippage_atoms = 10;
})
market_account crypto_linear_perp symbol = built (record {
  symbols = symbol ∷ [];
  starting_balance_atoms = 1_000_000_000;
  lot_size = 1;
  allow_research_short = some false;
  commission_rate_atoms = 0;
  stamp_duty_rate_atoms = some 0;
  maker_fee_rate_atoms = some 200;
  taker_fee_rate_atoms = some 600;
  slippage_atoms = 10;
})
market_account other_market symbol = refused bad_market

-- `_portfolio_market_account`
unfoldable pub portfolio_market_account : List ℕ → Account
portfolio_market_account symbols = record {
  symbols = symbols;
  starting_balance_atoms = 1_000_000_000;
  lot_size = 100;
  allow_research_short = none;
  commission_rate_atoms = 600;
  stamp_duty_rate_atoms = some 1000;
  maker_fee_rate_atoms = none;
  taker_fee_rate_atoms = none;
  slippage_atoms = 10;
}

-- A numbered element of the market's input; `can_buy` and `can_sell` are true in every bar.
unfoldable pub numbered {ℓ} : {A : Type ℓ} → ℕ → List A → List (ℕ × A)
numbered index [] = []
numbered index (x ∷ xs) = (index, x) ∷ numbered (suc index) xs

-- The rows of the body: of one symbol, or in sessions.
pub data Content : Type 0 where
  bars : List Normalized → Content
  sessions : List Session → Content

-- The market's input numbers the rows or the sessions from 1, and leaves the volume out.
pub data MarketInput : Type 0 where
  bar_input : List (ℕ × Normalized) → MarketInput
  session_input : List (ℕ × Session) → MarketInput

pub record DataSnapshotMaterial : Type 0 where
  pub symbol : Option ℕ
  pub symbols : List ℕ
  pub session_count : ℕ
  pub schema_version : ℕ
  pub sample_start : ℕ
  pub sample_end : ℕ
  pub row_count : ℕ
  pub content : Content
  pub account : Account
  pub market_input : MarketInput

abbrev pub get_first? {ℓ} : {A : Type ℓ} → List A → Option A
get_first? [] = none
get_first? (x ∷ xs) = some x

abbrev pub portfolio : List ℕ → ℕ → List Session → Option (Result DataSnapshotMaterial)
portfolio symbols row_count grouped = get_first? grouped >>= λ first. get_last? grouped >>= λ last.
    some (
      built (record {
        symbol = none;
        symbols = symbols;
        session_count = length grouped;
        schema_version = 2;
        sample_start = first.timestamp;
        sample_end = last.timestamp;
        row_count = row_count;
        content = sessions grouped;
        account = portfolio_market_account symbols;
        market_input = session_input (numbered 1 grouped);
      }))

abbrev pub unless_incomplete :
    Option ℕ → Option (Result DataSnapshotMaterial) → Option (Result DataSnapshotMaterial)
unless_incomplete none outcome = outcome
unless_incomplete (some index) outcome = some (refused (session_incomplete index))

unfoldable pub build_portfolio_data_snapshot :
    List Normalized → List ℕ → Option (Result DataSnapshotMaterial)
build_portfolio_data_snapshot normalized_rows symbols =
    let rows = sorted key_leb normalized_rows in
    let grouped = group_rows rows [] in
    unless_incomplete (first_incomplete 1 symbols grouped) (portfolio symbols (length rows) grouped)

abbrev single_of : List Normalized → ℕ → Result Account → Option (Result DataSnapshotMaterial)
single_of rows symbol (refused failure) = some (refused failure)
single_of rows symbol (built account) = get_first? rows >>= λ first. get_last? rows >>= λ last.
    some (
      built (record {
        symbol = some symbol;
        symbols = symbol ∷ [];
        session_count = length rows;
        schema_version = 1;
        sample_start = first.timestamp;
        sample_end = last.timestamp;
        row_count = length rows;
        content = bars rows;
        account = account;
        market_input = bar_input (numbered 1 rows);
      }))

abbrev is_a_share : Market → Bool
is_a_share a_share_daily = true
is_a_share _ = false

-- After the normalization, by the number of symbols.
unfoldable pub assemble : Market → List Normalized → List ℕ → Option (Result DataSnapshotMaterial)
assemble market rows [] = none
assemble market rows (symbol ∷ []) = single_of rows symbol (market_account market symbol)
assemble market rows (s ∷ t ∷ symbols) =
    if is_a_share market
    then build_portfolio_data_snapshot rows (s ∷ t ∷ symbols)
    else some (refused multi_symbol_market)

abbrev after_rows : Market → Normalization → Option (Result DataSnapshotMaterial)
after_rows market (invalid details) = some (refused (bad_rows details))
after_rows market (accepted rows) = assemble market rows (symbols_of rows)

abbrev fields : List Field
fields =
    timestamp_field ∷ symbol_field ∷ open_field ∷ high_field ∷ low_field ∷ close_field
    ∷ volume_field ∷ []

abbrev is_in : Option ℕ → List ℕ → Bool
is_in none columns = false
is_in (some c) [] = false
is_in (some c) (d ∷ columns) = c == d || is_in (some c) columns

-- `_validate_mapping`
unfoldable pub unavailable : (Field → Option ℕ) → List ℕ → List Field → List Field
unavailable mapping columns [] = []
unavailable mapping columns (field ∷ rest) =
    let others = unavailable mapping columns rest in
    if is_in (mapping field) columns then others else field ∷ others

abbrev after_mapping :
    List Field → Option (Result DataSnapshotMaterial) → Option (Result DataSnapshotMaterial)
after_mapping [] outcome = outcome
after_mapping (field ∷ rest) outcome = some (refused (columns_unavailable (field ∷ rest)))

-- What the Arrow readers make of a file: an error, or its columns and rows. `cells` reads the mapped
-- cells of a row in a zone, `zone` is none where there is no such timezone.
pub record Reader (Raw Zone : Type 0) : Type 0 where
  pub table : Option (List ℕ × List Raw)
  pub zone : Option Zone
  pub cells : (Field → Option ℕ) → Zone → Raw → Row

module _ {Raw Zone : Type 0} (reader : Reader Raw Zone) where
  -- `read_data_import`
  unfoldable pub read_data_import : Option (List ℕ × List Raw)
  read_data_import = reader.table >>= λ (columns, rows).
      if length rows == 0 || ltb max_data_rows (length rows) then none else some (columns, rows)

  abbrev in_zone :
      Market → (Field → Option ℕ) → List Raw → Option Zone → Option (Result DataSnapshotMaterial)
  in_zone market mapping rows none = some (refused bad_timezone)
  in_zone market mapping rows (some zone) =
      normalize_rows (map (reader.cells mapping zone) rows) >>= after_rows market

  abbrev of_source :
      Market
      → (Field → Option ℕ)
      → Option (List ℕ × List Raw)
      → Option (Result DataSnapshotMaterial)
  of_source market mapping none = some (refused bad_source)
  of_source market mapping (some (columns, rows)) =
      after_mapping (unavailable mapping columns fields) (in_zone market mapping rows reader.zone)

  unfoldable pub build_data_snapshot :
      Market → (Field → Option ℕ) → Option (Result DataSnapshotMaterial)
  build_data_snapshot market mapping = of_source market mapping read_data_import
