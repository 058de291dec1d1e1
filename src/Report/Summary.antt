-- ===== src/Report/Summary.antt =====
-- run_report.py: `_trunc_div`, `_period` and `_reference_summary`.
use open_quant_studio.Base.{
  ℕ, ◌+◌, ◌/◌, ◌==◌, not, Bool, true, false, Option, none, some, List, [], ◌∷◌, map, if◌then◌else◌,
  length, get_last?,
}
use open_quant_studio.Base.Int.{ℤ, pos, ◌-ℤ◌, ◌*ℤ◌, neg_ℤ, abs_ℤ, sum_ℤ, eqb_ℤ, ltb_ℤ, max_ℤ, min_ℤ}
use open_quant_studio.Domain.Table.{exists?}
use open_quant_studio.Strategy.Host.{opening, closing}
use open_quant_studio.Report.Input.{Point, Trade, Position, EngineResult}

abbrev pub rate_scale : ℕ
rate_scale = 1_000_000

abbrev pub is_negative : ℤ → Bool
is_negative a = ltb_ℤ a (pos 0)

abbrev pub differs : Bool → Bool → Bool
differs true b = not b
differs false b = b

unfoldable pub trunc_div : ℤ → ℤ → ℤ
trunc_div numerator denominator =
    if eqb_ℤ denominator (pos 0)
    then pos 0
    else let quotient = abs_ℤ numerator / abs_ℤ denominator in
      if differs (is_negative numerator) (is_negative denominator)
      then neg_ℤ (pos quotient)
      else pos quotient

-- The set of the sequence numbers, as the list of its members.
abbrev pub insert_seq : ℕ → List ℕ → List ℕ
insert_seq seq seqs = if exists? (λ s. s == seq) seqs then seqs else seq ∷ seqs

unfoldable pub session_seqs : List Point → List ℕ
session_seqs [] = []
session_seqs (point ∷ curve) = insert_seq point.session_seq (session_seqs curve)

pub record Period : Type 0 where
  pub start_at : Option ℕ
  pub end_at : Option ℕ
  pub session_count : ℕ

abbrev timestamp_of : Option Point → Option ℕ
timestamp_of none = none
timestamp_of (some point) = some point.timestamp

abbrev first : List Point → Option Point
first [] = none
first (point ∷ curve) = some point

abbrev pub period : EngineResult → Period
period result = record {
  start_at = timestamp_of (first result.equity_curve);
  end_at = timestamp_of (get_last? result.equity_curve);
  session_count = length (session_seqs result.equity_curve);
}

-- The variables of the loop over the curve.
pub record Drawdown : Type 0 where
  pub peak_equity : ℤ
  pub max_drawdown : ℤ
  pub max_drawdown_rate : ℤ

abbrev pub step_drawdown : ℤ → Drawdown → Drawdown
step_drawdown equity d =
    let peak_equity = max_ℤ d.peak_equity equity in
    let drawdown = equity -ℤ peak_equity in
    let drawdown_rate = trunc_div (drawdown *ℤ rate_scale) peak_equity in
    record {
      peak_equity = peak_equity;
      max_drawdown = min_ℤ d.max_drawdown drawdown;
      max_drawdown_rate = min_ℤ d.max_drawdown_rate drawdown_rate;
    }

unfoldable pub run_drawdown : List Point → Drawdown → Drawdown
run_drawdown [] d = d
run_drawdown (point ∷ curve) d = run_drawdown curve (step_drawdown point.equity_atoms d)

unfoldable pub drawdown_of : ℤ → List Point → Drawdown
drawdown_of starting_equity curve =
    run_drawdown curve
      (record { peak_equity = starting_equity; max_drawdown = pos 0; max_drawdown_rate = pos 0 })

-- The key of a position: its symbol, or `"__single_account__"`.
abbrev pub same_key : Option ℕ → Option ℕ → Bool
same_key none none = true
same_key (some a) (some b) = a == b
same_key _ _ = false

-- `last_positions[symbol] = quantity`
unfoldable pub set_position : Option ℕ → ℤ → List (Option ℕ × ℤ) → List (Option ℕ × ℤ)
set_position symbol quantity [] = (symbol, quantity) ∷ []
set_position symbol quantity ((key, value) ∷ rest) =
    if same_key key symbol
    then (key, quantity) ∷ rest
    else (key, value) ∷ set_position symbol quantity rest

unfoldable pub last_positions : List Position → List (Option ℕ × ℤ) → List (Option ℕ × ℤ)
last_positions [] dict = dict
last_positions (position ∷ positions) dict =
    last_positions positions (set_position position.symbol position.signed_quantity dict)

unfoldable pub count_open : List (Option ℕ × ℤ) → ℕ
count_open [] = 0
count_open ((key, quantity) ∷ rest) = (if eqb_ℤ quantity (pos 0) then 0 else 1) + count_open rest

unfoldable pub count_closing : List Trade → ℕ
count_closing [] = 0
count_closing (trade ∷ trades) =
    elim trade.position_effect [ closing ↦ 1 | opening ↦ 0 ] + count_closing trades

abbrev ending_equity_of : ℤ → List Point → ℤ
ending_equity_of starting_equity curve = elim (get_last? curve) [
  | some point ↦ point.equity_atoms
  | none ↦ starting_equity
]

-- The final point's exposure, gross and net.
abbrev pub exposure_at : ℕ → Point → ℤ × ℤ
exposure_at schema_version point =
    if schema_version == 2
    then (point.market_value_atoms, point.market_value_atoms)
    else let net = point.equity_atoms -ℤ point.cash_atoms in (pos (abs_ℤ net), net)

abbrev pub exposure_of : EngineResult → ℤ × ℤ
exposure_of result = elim (get_last? result.equity_curve) [
  | some point ↦ exposure_at result.schema_version point
  | none ↦ (pos 0, pos 0)
]

pub record Summary : Type 0 where
  pub starting_equity_atoms : ℤ
  pub ending_equity_atoms : ℤ
  pub net_pnl_atoms : ℤ
  pub total_return_rate_atoms : ℤ
  pub max_drawdown_atoms : ℤ
  pub max_drawdown_rate_atoms : ℤ
  pub gross_exposure_atoms : ℤ
  pub net_exposure_atoms : ℤ
  pub total_fees_atoms : ℤ
  pub total_stamp_duty_atoms : ℤ
  pub total_funding_atoms : ℤ
  pub total_slippage_atoms : ℤ
  pub order_count : ℕ
  pub fill_count : ℕ
  pub closed_trade_count : ℕ
  pub open_position_count : ℕ

unfoldable pub reference_summary : EngineResult → Summary
reference_summary result =
    let curve = result.equity_curve in
    let starting_equity = result.metrics.starting_equity_atoms in
    let ending_equity = ending_equity_of starting_equity curve in
    let net_pnl = ending_equity -ℤ starting_equity in
    let drawdown = drawdown_of starting_equity curve in
    let exposure = exposure_of result in
    record {
      starting_equity_atoms = starting_equity;
      ending_equity_atoms = ending_equity;
      net_pnl_atoms = net_pnl;
      total_return_rate_atoms = trunc_div (net_pnl *ℤ rate_scale) starting_equity;
      max_drawdown_atoms = drawdown.max_drawdown;
      max_drawdown_rate_atoms = drawdown.max_drawdown_rate;
      gross_exposure_atoms = exposure.0;
      net_exposure_atoms = exposure.1;
      total_fees_atoms = sum_ℤ (map (λ (t : Trade). t.fee_atoms) result.trades);
      total_stamp_duty_atoms = sum_ℤ (map (λ (t : Trade). t.stamp_duty_atoms) result.trades);
      total_funding_atoms = neg_ℤ (sum_ℤ result.funding_ledger);
      total_slippage_atoms = sum_ℤ (map (λ (t : Trade). t.slippage_atoms) result.trades);
      order_count = length result.orders;
      fill_count = length result.trades;
      closed_trade_count = count_closing result.trades;
      open_position_count = count_open (last_positions result.positions []);
    }
