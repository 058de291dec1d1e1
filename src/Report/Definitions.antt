-- ===== src/Report/Definitions.antt =====
-- run_report.py: `_definitions`, the documentation that a report carries of each of its fields.
use Prim.Native.String.{String}
use open_quant_studio.Base.{List, [], ◌∷◌, ◌++◌}

pub record Definition : Type 0 where
  pub field_name : String
  pub name : String
  pub unit : String
  pub formula : String
  pub inputs : List String
  pub empty_behavior : String

-- The rows of `_PERIOD_FIELDS` and those of `_SUMMARY_FIELDS`.
abbrev pub period_definitions : List Definition
period_definitions =
    record {
      field_name = "start_at";
      name = "Period start";
      unit = "RFC3339 timestamp";
      formula = "first equity_curve[].timestamp";
      inputs = "equity_curve[].timestamp" ∷ [];
      empty_behavior = "null when equity_curve is empty";
    }
    ∷ record {
      field_name = "end_at";
      name = "Period end";
      unit = "RFC3339 timestamp";
      formula = "last equity_curve[].timestamp";
      inputs = "equity_curve[].timestamp" ∷ [];
      empty_behavior = "null when equity_curve is empty";
    }
    ∷ record {
      field_name = "session_count";
      name = "Sessions";
      unit = "count";
      formula = "count distinct equity_curve[].session_seq";
      inputs = "equity_curve[].session_seq" ∷ [];
      empty_behavior = "0 when equity_curve is empty";
    }
    ∷ []

abbrev pub summary_definitions : List Definition
summary_definitions =
    record {
      field_name = "starting_equity_atoms";
      name = "Starting equity";
      unit = "account atoms";
      formula = "engine metrics starting_equity_atoms";
      inputs = "metrics.starting_equity_atoms" ∷ [];
      empty_behavior = "engine starting equity";
    }
    ∷ record {
      field_name = "ending_equity_atoms";
      name = "Ending equity";
      unit = "account atoms";
      formula = "last equity_curve[].equity_atoms";
      inputs = "equity_curve[].equity_atoms" ∷ [];
      empty_behavior = "starting equity when equity_curve is empty";
    }
    ∷ record {
      field_name = "net_pnl_atoms";
      name = "Net P&L";
      unit = "account atoms";
      formula = "ending equity - starting equity";
      inputs = "ending_equity_atoms" ∷ "starting_equity_atoms" ∷ [];
      empty_behavior = "0 when equity_curve is empty";
    }
    ∷ record {
      field_name = "total_return_rate_atoms";
      name = "Total return";
      unit = "rate atoms (1e-6)";
      formula = "trunc_toward_zero(net P&L * 1000000 / starting equity)";
      inputs = "net_pnl_atoms" ∷ "starting_equity_atoms" ∷ "rate_scale=1000000" ∷ [];
      empty_behavior = "0 when starting equity is zero";
    }
    ∷ record {
      field_name = "max_drawdown_atoms";
      name = "Maximum drawdown";
      unit = "account atoms";
      formula = "minimum equity - running peak";
      inputs = "equity_curve[].equity_atoms" ∷ [];
      empty_behavior = "0 when equity_curve is empty";
    }
    ∷ record {
      field_name = "max_drawdown_rate_atoms";
      name = "Maximum drawdown rate";
      unit = "rate atoms (1e-6)";
      formula = "trunc_toward_zero(drawdown * 1000000 / running peak)";
      inputs = "equity_curve[].equity_atoms" ∷ "rate_scale=1000000" ∷ [];
      empty_behavior = "0 when equity_curve is empty";
    }
    ∷ record {
      field_name = "gross_exposure_atoms";
      name = "Gross exposure";
      unit = "account atoms";
      formula = "abs(v1 equity - cash) or v2 market value";
      inputs =
          "equity_curve[].equity_atoms" ∷ "equity_curve[].cash_atoms"
          ∷ "equity_curve[].market_value_atoms" ∷ [];
      empty_behavior = "0 when equity_curve is empty";
    }
    ∷ record {
      field_name = "net_exposure_atoms";
      name = "Net exposure";
      unit = "account atoms";
      formula = "v1 equity - cash or v2 market value";
      inputs =
          "equity_curve[].equity_atoms" ∷ "equity_curve[].cash_atoms"
          ∷ "equity_curve[].market_value_atoms" ∷ [];
      empty_behavior = "0 when equity_curve is empty";
    }
    ∷ record {
      field_name = "total_fees_atoms";
      name = "Fees";
      unit = "account atoms";
      formula = "sum trades[].fee_atoms";
      inputs = "trades[].fee_atoms" ∷ [];
      empty_behavior = "0 when trades is empty";
    }
    ∷ record {
      field_name = "total_stamp_duty_atoms";
      name = "Stamp duty";
      unit = "account atoms";
      formula = "sum trades[].stamp_duty_atoms";
      inputs = "trades[].stamp_duty_atoms" ∷ [];
      empty_behavior = "0 when trades is empty";
    }
    ∷ record {
      field_name = "total_funding_atoms";
      name = "Funding";
      unit = "account atoms";
      formula = "-sum funding_ledger[].wallet_delta_atoms (funding cost)";
      inputs = "funding_ledger[].wallet_delta_atoms" ∷ [];
      empty_behavior = "0 when funding_ledger is empty";
    }
    ∷ record {
      field_name = "total_slippage_atoms";
      name = "Slippage";
      unit = "account atoms";
      formula = "sum trades[].slippage_atoms";
      inputs = "trades[].slippage_atoms" ∷ [];
      empty_behavior = "0 when trades is empty";
    }
    ∷ record {
      field_name = "order_count";
      name = "Orders";
      unit = "count";
      formula = "len(orders)";
      inputs = "orders" ∷ [];
      empty_behavior = "0 when orders is empty";
    }
    ∷ record {
      field_name = "fill_count";
      name = "Fills";
      unit = "count";
      formula = "len(trades)";
      inputs = "trades" ∷ [];
      empty_behavior = "0 when trades is empty";
    }
    ∷ record {
      field_name = "closed_trade_count";
      name = "Closed trades";
      unit = "count";
      formula = "count trades[].position_effect == close";
      inputs = "trades[].position_effect" ∷ [];
      empty_behavior = "0 when trades is empty";
    }
    ∷ record {
      field_name = "open_position_count";
      name = "Open positions";
      unit = "count";
      formula = "count symbols whose last signed_quantity is non-zero";
      inputs = "positions[].signed_quantity" ∷ "positions[].symbol" ∷ [];
      empty_behavior = "0 when positions is empty";
    }
    ∷ []

abbrev pub definitions : List Definition
definitions = period_definitions ++ summary_definitions
