-- ===== src/Strategy/AShareResearchShort.antt =====
-- strategies/a_share_research_short/strategy.py: enter short below the last three closes, cover by a
-- stop above the entry or above the average of three closes.
pub mod Rules
pub mod Tests
use Prim.Native.Nat.{min}
use Prim.Native.String.{String}
use open_quant_studio.Base.{
  ℕ, suc, ◌+◌, ◌==◌, ◌||◌, if◌then◌else◌, List, [], ◌∷◌, ◌++◌, Option, none, some, ◌>>=◌, Bool,
  false, length, last_n,
}
use open_quant_studio.Base.Int.{ℤ, pos, negsuc, ◌*ℤ◌, ◌//ℤ◌, sum_ℤ, ltb_ℤ, leb_ℤ, eqb_ℤ}
use open_quant_studio.Strategy.Host.{
  Side, buy, sell, PositionEffect, opening, closing, Intent, Bar, minimum,
}

abbrev pub strategy_id : String
strategy_id = "a_share_research_short"

abbrev breakdown_window : ℕ
breakdown_window = 3

abbrev cover_window : ℕ
cover_window = 3

abbrev stop_loss_bps : ℕ
stop_loss_bps = 600

abbrev pub lot_size : ℕ
lot_size = 100

-- The global `STATE`.
pub record State : Type 0 where
  pub closes : List ℤ
  pub position : ℤ
  pub entry_close : Option ℤ
  pub intent_seq : ℕ

-- The new `STATE`, and the intents that `on_start` returns.
abbrev pub on_start : State × List Intent
on_start = (record { closes = []; position = pos 0; entry_close = none; intent_seq = 0 }, [])

unfoldable pub order : String → Side → PositionEffect → State → State × Intent
order symbol side position_effect s =
    let seq = s.intent_seq + 1 in
    (
      record s { intent_seq = seq },
      record {
        intent_id = (strategy_id, seq);
        intent_seq = seq;
        symbol = symbol;
        side = side;
        position_effect = position_effect;
        quantity = lot_size;
        order_type = "market";
        limit_price_atoms = none;
        stop_price_atoms = none;
        time_in_force = "day";
        oco_group = none;
      },
    )

-- `return [order(symbol, side, position_effect)]`
abbrev send : String → Side → PositionEffect → State → State × List Intent
send symbol side position_effect s =
    let (s', intent) = order symbol side position_effect s in (s', intent ∷ [])

-- `len(prior_closes) == BREAKDOWN_WINDOW and close < min(prior_closes)`
abbrev breaks_down : ℤ → List ℤ → Option Bool
breaks_down close prior_closes =
    if length prior_closes == breakdown_window
    then minimum prior_closes >>= (λ lowest. some (ltb_ℤ close lowest))
    else some false

-- The branch of `on_bar` at position 0; `s` has the new close already.
enter : Bar → List ℤ → State → Option (State × List Intent)
unfolding order
enter bar prior_closes s = do
  breakdown ← breaks_down bar.close_atoms prior_closes
  some (
      if breakdown
      then send bar.symbol sell opening
          (record s { position = negsuc 0; entry_close = some bar.close_atoms })
      else (s, []))

abbrev stop_hit : ℤ → ℤ → Bool
stop_hit close entry = leb_ℤ (entry *ℤ (10_000 + stop_loss_bps)) (close *ℤ 10_000)

abbrev cover_average : List ℤ → ℤ
cover_average closes = sum_ℤ (last_n cover_window closes) //ℤ min (length closes) cover_window

-- The rest of `on_bar`. `None * 10_600` raises.
leave : Bar → State → Option (State × List Intent)
unfolding order
leave bar s = do
  entry ← s.entry_close
  let close = bar.close_atoms
  let trend_reversed = ltb_ℤ (cover_average s.closes) close
  some (
      if stop_hit close entry || trend_reversed
      then send bar.symbol buy closing (record s { position = pos 0; entry_close = none })
      else (s, []))

pub on_bar : Bar → State → Option (State × List Intent)
unfolding enter leave
on_bar bar s =
    let prior_closes = last_n breakdown_window s.closes in
    let s' = record s { closes = s.closes ++ bar.close_atoms ∷ [] } in
    if eqb_ℤ s.position (pos 0) then enter bar prior_closes s' else leave bar s'
