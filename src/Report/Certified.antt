-- ===== src/Report/Certified.antt =====
-- What a passed reconciliation says of the engine's metrics.
use open_quant_studio.Base.{sym, ap, ◌∙◌, ◌&&◌, ◌≡◌, refl, ◌↔◌, Bool, true, ◌∷◌, arith, length}
use open_quant_studio.Base.Int.{ℤ, pos, ◌-ℤ◌, neg_ℤ, sum_ℤ, eqb_ℤ, eqb_ℤ_refl}
use open_quant_studio.Report.Input.{EngineResult, Metrics, Costs}
use open_quant_studio.Report.Summary.{Summary, reference_summary}
use open_quant_studio.Report.Build.{reconciliation, all_passed}
use open_quant_studio.Report.Drawdown.{equities, deepest_fall, max_drawdown_lem}
use open_quant_studio.Report.Positions.{final_open, open_positions}

-- The published metrics and costs are those of the summary.
pub record Agrees (m : Metrics) (c : Costs) (s : Summary) : Type 0 where
  pub starting_equity_atoms : m.starting_equity_atoms ≡ s.starting_equity_atoms
  pub ending_equity_atoms : m.ending_equity_atoms ≡ s.ending_equity_atoms
  pub net_pnl_atoms : m.net_pnl_atoms ≡ s.net_pnl_atoms
  pub total_return_rate_atoms : m.total_return_rate_atoms ≡ s.total_return_rate_atoms
  pub max_drawdown_atoms : m.max_drawdown_atoms ≡ s.max_drawdown_atoms
  pub max_drawdown_rate_atoms : m.max_drawdown_rate_atoms ≡ s.max_drawdown_rate_atoms
  pub total_fees_atoms : m.total_fees_atoms ≡ s.total_fees_atoms
  pub total_stamp_duty_atoms : m.total_stamp_duty_atoms ≡ s.total_stamp_duty_atoms
  pub total_funding_atoms : m.total_funding_atoms ≡ s.total_funding_atoms
  pub total_slippage_atoms : m.total_slippage_atoms ≡ s.total_slippage_atoms
  pub fill_count : m.fill_count ≡ s.fill_count
  pub closed_trade_count : m.closed_trade_count ≡ s.closed_trade_count
  pub open_position_count : m.open_position_count ≡ s.open_position_count
  pub cost_commission_atoms : c.commission_atoms ≡ s.total_fees_atoms
  pub cost_stamp_duty_atoms : c.stamp_duty_atoms ≡ s.total_stamp_duty_atoms
  pub cost_funding_atoms : c.funding_atoms ≡ s.total_funding_atoms
  pub cost_slippage_atoms : c.slippage_atoms ≡ s.total_slippage_atoms

both : {a b : ℤ} {rest : Bool} → a ≡ b → rest ≡ true → (eqb_ℤ a b && rest) ≡ true
both {a} {b} e h = rw e (rw (eqb_ℤ_refl b) h)

module _ (result : EngineResult) (s : Summary) where
  passed-Agrees : (reconciliation result s).is_passed ≡ true → Agrees result.metrics result.costs s
  unfolding reconciliation all_passed
  passed-Agrees h = record {
    starting_equity_atoms = ground arith;
    ending_equity_atoms = ground arith;
    net_pnl_atoms = ground arith;
    total_return_rate_atoms = ground arith;
    max_drawdown_atoms = ground arith;
    max_drawdown_rate_atoms = ground arith;
    total_fees_atoms = ground arith;
    total_stamp_duty_atoms = ground arith;
    total_funding_atoms = ground arith;
    total_slippage_atoms = ground arith;
    fill_count = ground arith;
    closed_trade_count = ground arith;
    open_position_count = ground arith;
    cost_commission_atoms = ground arith;
    cost_stamp_duty_atoms = ground arith;
    cost_funding_atoms = ground arith;
    cost_slippage_atoms = ground arith;
  }

  Agrees-passed : Agrees result.metrics result.costs s → (reconciliation result s).is_passed ≡ true
  unfolding reconciliation all_passed
  Agrees-passed a = both a.starting_equity_atoms (
      both a.ending_equity_atoms (
        both a.net_pnl_atoms (
          both a.total_return_rate_atoms (
            both a.max_drawdown_atoms (
              both a.max_drawdown_rate_atoms (
                both a.total_fees_atoms (
                  both a.total_stamp_duty_atoms (
                    both a.total_funding_atoms (
                      both a.total_slippage_atoms (
                        both (ap pos a.fill_count) (
                          both (ap pos a.closed_trade_count) (
                            both (ap pos a.open_position_count) (
                              both a.cost_commission_atoms (
                                both a.cost_stamp_duty_atoms (
                                  both a.cost_funding_atoms
                                    (both a.cost_slippage_atoms (refl)))))))))))))))))

-- A report's reconciliation passes exactly when each of the thirteen metrics and the four costs that
-- the engine publishes is the value of the report's summary.
pub reconciliation_iff :
    (result : EngineResult) (s : Summary)
    → ((reconciliation result s).is_passed ≡ true) ↔ Agrees result.metrics result.costs s
reconciliation_iff result s = (passed-Agrees result s, Agrees-passed result s)

-- When the reconciliation of a result with its own summary passes, the engine's metrics are those
-- of the ledgers: the net P&L is the ending less the starting equity, the maximum drawdown is the
-- deepest fall of the equity, the open positions are the rows that are not zero and not replaced,
-- the funding is the inverse of the wallet's movements, the fills are the trades, and each cost is
-- the total of its metric.
pub reconciled_metrics :
    (result : EngineResult)
    → (reconciliation result (reference_summary result)).is_passed ≡ true
    → let m = result.metrics in
      (m.net_pnl_atoms ≡ m.ending_equity_atoms -ℤ m.starting_equity_atoms)
      × (m.max_drawdown_atoms
          ≡ deepest_fall (m.starting_equity_atoms ∷ equities result.equity_curve))
      × (m.open_position_count ≡ final_open result.positions)
      × (m.total_funding_atoms ≡ neg_ℤ (sum_ℤ result.funding_ledger))
      × (m.fill_count ≡ length result.trades)
      × (result.costs.commission_atoms ≡ m.total_fees_atoms)
      × (result.costs.stamp_duty_atoms ≡ m.total_stamp_duty_atoms)
      × (result.costs.funding_atoms ≡ m.total_funding_atoms)
      × (result.costs.slippage_atoms ≡ m.total_slippage_atoms)
unfolding reference_summary
reconciled_metrics result h =
    let a = passed-Agrees result (reference_summary result) h in
    let m = result.metrics in
    (
      a.net_pnl_atoms ∙ ap (λ e. e -ℤ m.starting_equity_atoms) (sym a.ending_equity_atoms),
      a.max_drawdown_atoms ∙ max_drawdown_lem m.starting_equity_atoms result.equity_curve,
      a.open_position_count ∙ open_positions result.positions,
      a.total_funding_atoms,
      a.fill_count,
      a.cost_commission_atoms ∙ sym a.total_fees_atoms,
      a.cost_stamp_duty_atoms ∙ sym a.total_stamp_duty_atoms,
      a.cost_funding_atoms ∙ sym a.total_funding_atoms,
      a.cost_slippage_atoms ∙ sym a.total_slippage_atoms,
    )
