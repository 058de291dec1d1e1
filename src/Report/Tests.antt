-- ===== src/Report/Tests.antt =====
-- A short run: equity 100, 120, 90, 110 with one round trip.
use open_quant_studio.Base.{
  ℕ, suc, ◌*◌, ◌≤◌, ◌<◌, ◌≡◌, ◌⊎◌, ◌↔◌, refl, arith, true, some, List, [], ◌∷◌, length,
}
use open_quant_studio.Base.Int.{pos, negsuc, ◌-ℤ◌, neg_ℤ, sum_ℤ, abs_ℤ, ◌+ℤ◌, ◌*ℤ◌}
use open_quant_studio.Strategy.Host.{opening, closing}
use open_quant_studio.Report.Input.{Point, Position, EngineResult}
use open_quant_studio.Report.Summary.{
  trunc_div, is_negative, differs, drawdown_of, run_drawdown, last_positions, set_position,
  count_open, count_closing, reference_summary,
}
use open_quant_studio.Report.Build.{reconciliation, all_passed}
use open_quant_studio.Report.Rates.{trunc_div_bounds}
use open_quant_studio.Report.Drawdown.{equities, deepest_fall, max_drawdown_lem}
use open_quant_studio.Report.Positions.{final_open, open_positions}
use open_quant_studio.Report.Certified.{Agrees, reconciliation_iff, reconciled_metrics}

abbrev point : ℕ → ℕ → Point
point seq equity = record {
  session_seq = seq;
  timestamp = seq;
  equity_atoms = pos equity;
  cash_atoms = pos equity;
  market_value_atoms = pos 0;
}

abbrev curve : List Point
curve = point 1 120 ∷ point 2 90 ∷ point 3 110 ∷ []

abbrev positions : List Position
positions =
    record { symbol = some 1; signed_quantity = pos 1 }
    ∷ record { symbol = some 2; signed_quantity = pos 5 }
    ∷ record { symbol = some 1; signed_quantity = pos 0 }
    ∷ []

abbrev result : EngineResult
result = record {
  schema_version = 1;
  engine_version = 1;
  account_model = 1;
  metrics = record {
    starting_equity_atoms = pos 100;
    ending_equity_atoms = pos 110;
    net_pnl_atoms = pos 10;
    total_return_rate_atoms = pos 100_000;
    max_drawdown_atoms = negsuc 29;
    max_drawdown_rate_atoms = negsuc 249_999;
    total_fees_atoms = pos 3;
    total_stamp_duty_atoms = pos 0;
    total_funding_atoms = negsuc 0;
    total_slippage_atoms = pos 2;
    fill_count = 2;
    closed_trade_count = 1;
    open_position_count = 1;
  };
  costs = record {
    commission_atoms = pos 3;
    stamp_duty_atoms = pos 0;
    funding_atoms = negsuc 0;
    slippage_atoms = pos 2;
  };
  equity_curve = curve;
  trades =
      record {
        fee_atoms = pos 1;
        stamp_duty_atoms = pos 0;
        slippage_atoms = pos 1;
        position_effect = opening;
      }
      ∷ record {
        fee_atoms = pos 2;
        stamp_duty_atoms = pos 0;
        slippage_atoms = pos 1;
        position_effect = closing;
      }
      ∷ [];
  orders = 1 ∷ 2 ∷ [];
  positions = positions;
  funding_ledger = pos 1 ∷ [];
}

passes : (reconciliation result (reference_summary result)).is_passed ≡ true
unfolding reconciliation all_passed reference_summary drawdown_of run_drawdown last_positions
    set_position count_open count_closing trunc_div ◌-ℤ◌ ◌*ℤ◌ ◌+ℤ◌ neg_ℤ sum_ℤ
passes = refl

trunc_div_bounds_example :
    (abs_ℤ (trunc_div (negsuc 6) (pos 2)) * 2 ≤ 7)
    × (7 < suc (abs_ℤ (trunc_div (negsuc 6) (pos 2))) * 2)
    × ((trunc_div (negsuc 6) (pos 2) ≡ pos 0)
        ⊎ (is_negative (trunc_div (negsuc 6) (pos 2))
            ≡ differs (is_negative (negsuc 6)) (is_negative (pos 2))))
trunc_div_bounds_example = trunc_div_bounds (negsuc 6) (pos 2) (ground arith)

max_drawdown_lem_example :
    (drawdown_of (pos 100) curve).max_drawdown ≡ deepest_fall (pos 100 ∷ equities curve)
max_drawdown_lem_example = max_drawdown_lem (pos 100) curve

open_positions_example : count_open (last_positions positions []) ≡ final_open positions
open_positions_example = open_positions positions

reconciliation_iff_example :
    ((reconciliation result (reference_summary result)).is_passed ≡ true)
    ↔ Agrees result.metrics result.costs (reference_summary result)
reconciliation_iff_example = reconciliation_iff result (reference_summary result)

reconciled_metrics_example :
    let m = result.metrics in
    (m.net_pnl_atoms ≡ m.ending_equity_atoms -ℤ m.starting_equity_atoms)
    × (m.max_drawdown_atoms ≡ deepest_fall (m.starting_equity_atoms ∷ equities curve))
    × (m.open_position_count ≡ final_open positions)
    × (m.total_funding_atoms ≡ neg_ℤ (sum_ℤ result.funding_ledger))
    × (m.fill_count ≡ length result.trades)
    × (result.costs.commission_atoms ≡ m.total_fees_atoms)
    × (result.costs.stamp_duty_atoms ≡ m.total_stamp_duty_atoms)
    × (result.costs.funding_atoms ≡ m.total_funding_atoms)
    × (result.costs.slippage_atoms ≡ m.total_slippage_atoms)
reconciled_metrics_example = reconciled_metrics result passes
