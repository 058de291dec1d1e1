-- ===== src/Report/Input.antt =====
-- run_report.py: the engine's result and the read model of a run, as far as a report reads them. A
-- decimal text of an integer is the integer, timestamps and identifiers are numbers.
use open_quant_studio.Base.{ℕ, Option, List}
use open_quant_studio.Base.Int.{ℤ}
use open_quant_studio.Strategy.Host.{PositionEffect}

-- A point of `equity_curve`. Schema 1 has `cash_atoms`, schema 2 has `market_value_atoms`; the field
-- that a schema lacks is not read.
pub record Point : Type 0 where
  pub session_seq : ℕ
  pub timestamp : ℕ
  pub equity_atoms : ℤ
  pub cash_atoms : ℤ
  pub market_value_atoms : ℤ

pub record Trade : Type 0 where
  pub fee_atoms : ℤ
  pub stamp_duty_atoms : ℤ
  pub slippage_atoms : ℤ
  pub position_effect : PositionEffect

-- A row of `positions`; a single account's rows have no symbol.
pub record Position : Type 0 where
  pub symbol : Option ℕ
  pub signed_quantity : ℤ

pub record Metrics : Type 0 where
  pub starting_equity_atoms : ℤ
  pub ending_equity_atoms : ℤ
  pub net_pnl_atoms : ℤ
  pub total_return_rate_atoms : ℤ
  pub max_drawdown_atoms : ℤ
  pub max_drawdown_rate_atoms : ℤ
  pub total_fees_atoms : ℤ
  pub total_stamp_duty_atoms : ℤ
  pub total_funding_atoms : ℤ
  pub total_slippage_atoms : ℤ
  pub fill_count : ℕ
  pub closed_trade_count : ℕ
  pub open_position_count : ℕ

pub record Costs : Type 0 where
  pub commission_atoms : ℤ
  pub stamp_duty_atoms : ℤ
  pub funding_atoms : ℤ
  pub slippage_atoms : ℤ

-- `funding_ledger` holds the `wallet_delta_atoms` of its entries, `orders` their identifiers. A list
-- that the result lacks is the empty list, as `result.get(…, [])` takes it.
pub record EngineResult : Type 0 where
  pub schema_version : ℕ
  pub engine_version : ℕ
  pub account_model : ℕ
  pub metrics : Metrics
  pub costs : Costs
  pub equity_curve : List Point
  pub trades : List Trade
  pub orders : List ℕ
  pub positions : List Position
  pub funding_ledger : List ℤ
