-- ===== src/Data/Tests.antt =====
-- data_import.py: two sessions of two symbols, and one row that no text can be written for.
use open_quant_studio.Base.{
  ℕ, ◌≡◌, refl, false, none, some, List, [], ◌∷◌, All, length, arith, sorted, insert_sorted,
  rounded,
}
use open_quant_studio.Base.Int.{ℤ, pos, negsuc}
use open_quant_studio.Data.Decimal.{
  Decimal, ltb_decimal, atoms_of, with_sign, gap, is_unprintable, print_limit,
}
use open_quant_studio.Data.Exact.{atoms_of_lem}
use open_quant_studio.Data.Rows.{
  instant, finite, Row, Normalized, accepted, reading_details, values_of, previous_of, is_observed,
  order_details, price_details, atoms_details, checked, step, run_rows, normalize_rows,
}
use open_quant_studio.Data.Bars.{AllAccepted, Increasing}
use open_quant_studio.Data.Accepted.{normalize_accepted}
use open_quant_studio.Data.Atoms.{IsOrderedBar, normalize_ordered}
use Prim.Native.Nat.{◌*◌, ◌^◌}
use open_quant_studio.Data.Snapshot.{
  crypto_linear_perp, built, refused, DataSnapshotMaterial, multi_symbol_market, sessions,
  session_input, bar_of, Session, key_leb, add_row, group_rows, symbols_eq, first_incomplete,
  numbered, portfolio_market_account, build_portfolio_data_snapshot, assemble,
}
use open_quant_studio.Data.Sessions.{rows_of, AllComplete, portfolio_sessions}
use open_quant_studio.Data.Sorted.{Climbs, IsWithin, portfolio_in_time}

abbrev number : ℕ → ℤ → Decimal
number coefficient exponent = record {
  is_signed = false;
  coefficient = coefficient;
  exponent = exponent;
}

-- An open of 1.5, a high of 2, a low of 1.25, a close of 1.75 and a volume of 1E+2.
abbrev pub row_at : ℕ → ℕ → Row
row_at t symbol = record {
  moment = instant t;
  symbol = some symbol;
  open_cell = finite (number 15 (negsuc 0));
  high_cell = finite (number 2 (pos 0));
  low_cell = finite (number 125 (negsuc 1));
  close_cell = finite (number 175 (negsuc 1));
  volume_cell = finite (number 1 (pos 2));
}

abbrev pub normalized_at : ℕ → ℕ → Normalized
normalized_at t symbol = record {
  timestamp = t;
  symbol = symbol;
  open_atoms = pos 15_000;
  high_atoms = pos 20_000;
  low_atoms = pos 12_500;
  close_atoms = pos 17_500;
  volume_atoms = pos 1_000_000;
}

abbrev pub file : List Row
file = row_at 5 1 ∷ row_at 5 2 ∷ row_at 7 2 ∷ row_at 7 1 ∷ []

abbrev pub file_rows : List Normalized
file_rows = normalized_at 5 1 ∷ normalized_at 5 2 ∷ normalized_at 7 2 ∷ normalized_at 7 1 ∷ []

pub normalizes : normalize_rows file ≡ some (accepted file_rows)
unfolding normalize_rows run_rows step values_of checked order_details price_details atoms_details
    reading_details previous_of is_observed ltb_decimal atoms_of rounded is_unprintable print_limit
normalizes = refl

-- A row with an open of 1E+5000.
abbrev vast_row : Row
vast_row = record {
  moment = instant 5;
  symbol = some 1;
  open_cell = finite (number 1 (pos 5000));
  high_cell = finite (number 1 (pos 5000));
  low_cell = finite (number 1 (pos 5000));
  close_cell = finite (number 1 (pos 5000));
  volume_cell = finite (number 1 (pos 0));
}

raises_other : normalize_rows (vast_row ∷ []) ≡ none
unfolding normalize_rows run_rows step values_of checked is_unprintable print_limit rounded
raises_other = refl

normalize_accepted_example : AllAccepted file file_rows × Increasing file_rows
normalize_accepted_example = normalize_accepted file file_rows normalizes

normalize_ordered_example : All IsOrderedBar file_rows
normalize_ordered_example = normalize_ordered file file_rows (ground arith) normalizes

atoms_of_lem_example :
    atoms_of (number 125 (negsuc 1)) ≡ with_sign false (125 * 10 ^ gap (negsuc 1) (negsuc 3))
atoms_of_lem_example = atoms_of_lem (number 125 (negsuc 1)) refl (ground arith)

abbrev session_at : ℕ → Session
session_at t = record {
  timestamp = t;
  bars = bar_of (normalized_at t 1) ∷ bar_of (normalized_at t 2) ∷ [];
}

abbrev material : DataSnapshotMaterial
material = record {
  symbol = none;
  symbols = 1 ∷ 2 ∷ [];
  session_count = 2;
  schema_version = 2;
  sample_start = 5;
  sample_end = 7;
  row_count = 4;
  content = sessions (session_at 5 ∷ session_at 7 ∷ []);
  account = portfolio_market_account (1 ∷ 2 ∷ []);
  market_input = session_input ((1, session_at 5) ∷ (2, session_at 7) ∷ []);
}

builds : build_portfolio_data_snapshot file_rows (1 ∷ 2 ∷ []) ≡ some (built material)
unfolding build_portfolio_data_snapshot sorted insert_sorted group_rows add_row first_incomplete
    symbols_eq numbered
builds = refl

-- A portfolio is refused in any other market than that of A shares.
crypto_refused :
    assemble crypto_linear_perp file_rows (1 ∷ 2 ∷ []) ≡ some (refused multi_symbol_market)
unfolding assemble
crypto_refused = refl

-- Half a second past a second, and that second, come in the order of their texts.
fraction_first :
    sorted key_leb (normalized_at 1_000_000 1 ∷ normalized_at 1_500_000 1 ∷ [])
    ≡ normalized_at 1_500_000 1 ∷ normalized_at 1_000_000 1 ∷ []
unfolding sorted insert_sorted
fraction_first = refl

portfolio_sessions_example :
    (grouped : List Session) × (material.content ≡ sessions grouped)
    × (rows_of grouped ≡ sorted key_leb file_rows)
    × AllComplete (1 ∷ 2 ∷ []) grouped
    × (material.session_count ≡ length grouped)
    × (material.row_count ≡ material.session_count * 2)
portfolio_sessions_example = portfolio_sessions file_rows (1 ∷ 2 ∷ []) material builds

-- The later session comes first in the file.
abbrev daily_rows : List Normalized
daily_rows =
    normalized_at 2_000_000 2
    ∷ normalized_at 2_000_000 1
    ∷ normalized_at 1_000_000 1
    ∷ normalized_at 1_000_000 2
    ∷ []

abbrev daily : DataSnapshotMaterial
daily = record material {
  sample_start = 1_000_000;
  sample_end = 2_000_000;
  content = sessions (session_at 1_000_000 ∷ session_at 2_000_000 ∷ []);
  market_input = session_input ((1, session_at 1_000_000) ∷ (2, session_at 2_000_000) ∷ []);
}

builds_daily : build_portfolio_data_snapshot daily_rows (1 ∷ 2 ∷ []) ≡ some (built daily)
unfolding build_portfolio_data_snapshot sorted insert_sorted group_rows add_row first_incomplete
    symbols_eq numbered
builds_daily = refl

portfolio_in_time_example :
    (grouped : List Session) × (daily.content ≡ sessions grouped)
    × Climbs 0 grouped
    × IsWithin daily grouped
portfolio_in_time_example =
    portfolio_in_time daily_rows (1 ∷ 2 ∷ []) daily (refl, (refl, (refl, (refl, tt)))) builds_daily
