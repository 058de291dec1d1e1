-- ===== src/Strategy/CryptoTrend.antt =====
-- strategies/crypto_trend/strategy.py: long while the average of three closes is above that of four,
-- with a stop below the entry.
pub mod Rules
pub mod Tests
use Prim.Native.String.{String}
use open_quant_studio.Base.{
  ℕ, suc, ◌+◌, ◌||◌, ◌&&◌, ◌-◌, ltb, if◌then◌else◌, List, [], ◌∷◌, ◌++◌, Option, none, some, ◌>>=◌,
  Bool, length, last_n,
}
use open_quant_studio.Base.Int.{ℤ, pos, ◌*ℤ◌, ◌//ℤ◌, sum_ℤ, ltb_ℤ, leb_ℤ, eqb_ℤ}
use open_quant_studio.Strategy.Host.{Side, buy, sell, PositionEffect, opening, closing, Intent, Bar}

abbrev pub strategy_id : String
strategy_id = "crypto_trend"

abbrev fast_window : ℕ
fast_window = 3

abbrev slow_window : ℕ
slow_window = 4

abbrev stop_loss_bps : ℕ
stop_loss_bps = 500

abbrev pub contracts : ℕ
contracts = 1

-- The global `STATE`.
pub record State : Type 0 where
  pub closes : List ℤ
  pub position : ℤ
  pub entry_close : Option ℤ
  pub intent_seq : ℕ

-- The new `STATE`, and the intents that `on_start` returns.
abbrev pub on_start : State × List Intent
on_start = (record { closes = []; position = pos 0; entry_close = none; intent_seq = 0 }, [])

unfoldable pub order : String → Side → PositionEffect → State → State × Intent
order symbol side position_effect s =
    let seq = s.intent_seq + 1 in
    (
      record s { intent_seq = seq },
      record {
        intent_id = (strategy_id, seq);
        intent_seq = seq;
        symbol = symbol;
        side = side;
        position_effect = position_effect;
        quantity = contracts;
        order_type = "market";
        limit_price_atoms = none;
        stop_price_atoms = none;
        time_in_force = "day";
        oco_group = none;
      },
    )

-- `return [order(symbol, side, position_effect)]`
abbrev send : String → Side → PositionEffect → State → State × List Intent
send symbol side position_effect s =
    let (s', intent) = order symbol side position_effect s in (s', intent ∷ [])

abbrev fast_average : List ℤ → ℤ
fast_average closes = sum_ℤ (last_n fast_window closes) //ℤ fast_window

abbrev slow_average : List ℤ → ℤ
slow_average closes = sum_ℤ (last_n slow_window closes) //ℤ slow_window

abbrev stop_hit : ℤ → ℤ → Bool
stop_hit close entry = leb_ℤ (close *ℤ 10_000) (entry *ℤ (10_000 - stop_loss_bps))

abbrev crosses_up : List ℤ → Bool
crosses_up closes = ltb_ℤ (slow_average closes) (fast_average closes)

abbrev trend_reversed : List ℤ → Bool
trend_reversed closes = ltb_ℤ (fast_average closes) (slow_average closes)

-- The body of `if STATE["position"] == 1`. `None * 9_500` raises.
leave : Bar → State → Option (State × List Intent)
unfolding order
leave bar s = do
  entry ← s.entry_close
  some (
      if stop_hit bar.close_atoms entry || trend_reversed s.closes
      then send bar.symbol sell closing (record s { position = pos 0; entry_close = none })
      else (s, []))

-- `on_bar` once there are enough closes; `s` has the new close already.
trade : Bar → State → Option (State × List Intent)
unfolding order leave
trade bar s =
    if eqb_ℤ s.position (pos 0) && crosses_up s.closes
    then some (
        send bar.symbol buy opening
          (record s { position = pos 1; entry_close = some bar.close_atoms }))
    else if eqb_ℤ s.position (pos 1)
    then leave bar s
    else some (s, [])

pub on_bar : Bar → State → Option (State × List Intent)
unfolding trade
on_bar bar s =
    let s' = record s { closes = s.closes ++ bar.close_atoms ∷ [] } in
    if ltb (length s'.closes) slow_window then some (s', []) else trade bar s'
