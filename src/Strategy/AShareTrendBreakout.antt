-- ===== src/Strategy/AShareTrendBreakout.antt =====
-- strategies/a_share_trend_breakout/strategy.py: enter long above the last three closes, leave by a
-- trailing stop from the peak or below the average of three closes.
pub mod Rules
pub mod Tests
use Prim.Native.Nat.{min}
use Prim.Native.String.{String}
use open_quant_studio.Base.{
  ℕ, suc, ◌+◌, ◌-◌, ◌==◌, ◌||◌, if◌then◌else◌, List, [], ◌∷◌, ◌++◌, Option, none, some, ◌>>=◌, Bool,
  false, length, last_n,
}
use open_quant_studio.Base.Int.{ℤ, pos, ◌*ℤ◌, ◌//ℤ◌, sum_ℤ, ltb_ℤ, leb_ℤ, eqb_ℤ, max_ℤ}
use open_quant_studio.Strategy.Host.{
  Side, buy, sell, PositionEffect, opening, closing, Intent, Bar, maximum,
}

abbrev pub strategy_id : String
strategy_id = "a_share_trend_breakout"

abbrev breakout_window : ℕ
breakout_window = 3

abbrev trend_window : ℕ
trend_window = 3

abbrev stop_loss_bps : ℕ
stop_loss_bps = 600

abbrev pub lot_size : ℕ
lot_size = 100

-- The global `STATE`.
pub record State : Type 0 where
  pub closes : List ℤ
  pub symbol : Option String
  pub position : ℤ
  pub peak_close : Option ℤ
  pub intent_seq : ℕ

-- The new `STATE`, and the intents that `on_start` returns.
abbrev pub on_start : State × List Intent
on_start =
    (record { closes = []; symbol = none; position = pos 0; peak_close = none; intent_seq = 0 }, [])

unfoldable pub order : String → Side → PositionEffect → State → State × Intent
order symbol side position_effect s =
    let seq = s.intent_seq + 1 in
    (
      record s { intent_seq = seq },
      record {
        intent_id = (strategy_id, seq);
        intent_seq = seq;
        symbol = symbol;
        side = side;
        position_effect = position_effect;
        quantity = lot_size;
        order_type = "market";
        limit_price_atoms = none;
        stop_price_atoms = none;
        time_in_force = "day";
        oco_group = none;
      },
    )

-- `return [order(symbol, side, position_effect)]`
abbrev send : String → Side → PositionEffect → State → State × List Intent
send symbol side position_effect s =
    let (s', intent) = order symbol side position_effect s in (s', intent ∷ [])

-- `len(prior_closes) == BREAKOUT_WINDOW and close > max(prior_closes)`
abbrev breaks_out : ℤ → List ℤ → Option Bool
breaks_out close prior_closes =
    if length prior_closes == breakout_window
    then maximum prior_closes >>= (λ highest. some (ltb_ℤ highest close))
    else some false

-- The branch of `on_bar` at position 0; `s` has the new close already.
enter : Bar → List ℤ → State → Option (State × List Intent)
unfolding order
enter bar prior_closes s = do
  breakout ← breaks_out bar.close_atoms prior_closes
  some (
      if breakout
      then send bar.symbol buy opening
          (record s { position = pos 1; peak_close = some bar.close_atoms })
      else (s, []))

abbrev stop_hit : ℤ → ℤ → Bool
stop_hit close peak = leb_ℤ (close *ℤ 10_000) (peak *ℤ (10_000 - stop_loss_bps))

abbrev trend_average : List ℤ → ℤ
trend_average closes = sum_ℤ (last_n trend_window closes) //ℤ min (length closes) trend_window

-- The rest of `on_bar`. `max(None, close)` raises.
leave : Bar → State → Option (State × List Intent)
unfolding order
leave bar s = do
  old_peak ← s.peak_close
  let close = bar.close_atoms
  let peak = max_ℤ old_peak close
  let trend_reversed = ltb_ℤ close (trend_average s.closes)
  some (
      if stop_hit close peak || trend_reversed
      then send bar.symbol sell closing (record s { position = pos 0; peak_close = none })
      else (record s { peak_close = some peak }, []))

pub on_bar : Bar → State → Option (State × List Intent)
unfolding enter leave
on_bar bar s =
    let prior_closes = last_n breakout_window s.closes in
    let s' = record s { closes = s.closes ++ bar.close_atoms ∷ []; symbol = some bar.symbol } in
    if eqb_ℤ s.position (pos 0) then enter bar prior_closes s' else leave bar s'
