-- ===== src/Strategy/CryptoMeanReversion.antt =====
-- strategies/crypto_mean_reversion/strategy.py: enter long 5% below the mean of the last three
-- closes, leave at a recovery of 5% or a loss of 7% from the entry.
pub mod Rules
pub mod Tests
use Prim.Native.String.{String}
use open_quant_studio.Base.{
  ℕ, suc, ◌+◌, ◌==◌, ◌||◌, ◌&&◌, ◌-◌, if◌then◌else◌, List, [], ◌∷◌, ◌++◌, Option, none, some, ◌>>=◌,
  Bool, false, length, last_n,
}
use open_quant_studio.Base.Int.{ℤ, pos, ◌*ℤ◌, ◌//ℤ◌, sum_ℤ, ltb_ℤ, leb_ℤ, eqb_ℤ}
use open_quant_studio.Strategy.Host.{Side, buy, sell, PositionEffect, opening, closing, Intent, Bar}

abbrev pub strategy_id : String
strategy_id = "crypto_mean_reversion"

abbrev mean_window : ℕ
mean_window = 3

abbrev entry_discount_bps : ℕ
entry_discount_bps = 500

abbrev recovery_bps : ℕ
recovery_bps = 500

abbrev stop_loss_bps : ℕ
stop_loss_bps = 700

abbrev pub contracts : ℕ
contracts = 1

-- The global `STATE`.
pub record State : Type 0 where
  pub closes : List ℤ
  pub position : ℤ
  pub entry_close : Option ℤ
  pub intent_seq : ℕ

-- The new `STATE`, and the intents that `on_start` returns.
abbrev pub on_start : State × List Intent
on_start = (record { closes = []; position = pos 0; entry_close = none; intent_seq = 0 }, [])

unfoldable pub order : String → Side → PositionEffect → State → State × Intent
order symbol side position_effect s =
    let seq = s.intent_seq + 1 in
    (
      record s { intent_seq = seq },
      record {
        intent_id = (strategy_id, seq);
        intent_seq = seq;
        symbol = symbol;
        side = side;
        position_effect = position_effect;
        quantity = contracts;
        order_type = "market";
        limit_price_atoms = none;
        stop_price_atoms = none;
        time_in_force = "day";
        oco_group = none;
      },
    )

-- `return [order(symbol, side, position_effect)]`
abbrev send : String → Side → PositionEffect → State → State × List Intent
send symbol side position_effect s =
    let (s', intent) = order symbol side position_effect s in (s', intent ∷ [])

-- `len(prior_closes) == MEAN_WINDOW` and the close is at the discount.
abbrev discounted : ℤ → List ℤ → Bool
discounted close prior_closes =
    length prior_closes == mean_window
    && leb_ℤ (close *ℤ 10_000)
        ((sum_ℤ prior_closes //ℤ mean_window) *ℤ (10_000 - entry_discount_bps))

-- The branch of `on_bar` at position 0; `s` has the new close already.
enter : Bar → List ℤ → State → State × List Intent
unfolding order
enter bar prior_closes s =
    if discounted bar.close_atoms prior_closes
    then send bar.symbol buy opening
        (record s { position = pos 1; entry_close = some bar.close_atoms })
    else (s, [])

abbrev recovered : ℤ → ℤ → Bool
recovered close entry = leb_ℤ (entry *ℤ (10_000 + recovery_bps)) (close *ℤ 10_000)

abbrev stop_hit : ℤ → ℤ → Bool
stop_hit close entry = leb_ℤ (close *ℤ 10_000) (entry *ℤ (10_000 - stop_loss_bps))

-- The rest of `on_bar`. `None * 10_500` raises.
leave : Bar → State → Option (State × List Intent)
unfolding order
leave bar s = do
  entry ← s.entry_close
  let close = bar.close_atoms
  some (
      if recovered close entry || stop_hit close entry
      then send bar.symbol sell closing (record s { position = pos 0; entry_close = none })
      else (s, []))

pub on_bar : Bar → State → Option (State × List Intent)
unfolding enter leave
on_bar bar s =
    let prior_closes = last_n mean_window s.closes in
    let s' = record s { closes = s.closes ++ bar.close_atoms ∷ [] } in
    if eqb_ℤ s.position (pos 0) then some (enter bar prior_closes s') else leave bar s'
