-- ===== src/Strategy/AShareRotation/Tests.antt =====
-- The rotation over three sessions: the second symbol leads, and then no symbol does.
use open_quant_studio.Base.{◌≡◌, refl, some, List, [], ◌∷◌}
use open_quant_studio.Base.Int.{◌*ℤ◌, ◌//ℤ◌}
use open_quant_studio.Strategy.Host.{buy, sell, opening, closing}
use open_quant_studio.Strategy.AShareRotation.{
  bbb, Order, strategy_id, State, on_start, order, momentum_bps, leader_after_completed_session,
  rotate, trade, close_of, complete, on_bar, release,
}
use open_quant_studio.Strategy.AShareRotation.Rules.{
  Prices, bars_of, Replays, release_a_share_rotation,
}

abbrev sessions : List Prices
sessions =
    record { aaa_below = 99; bbb_below = 99; ccc_below = 99 }
    ∷ record { aaa_below = 100; bbb_below = 109; ccc_below = 101 }
    ∷ record { aaa_below = 100; bbb_below = 108; ccc_below = 99 }
    ∷ []

abbrev tape : List Order
tape =
    record {
      intent_id = (strategy_id, 1);
      intent_seq = 1;
      symbol = bbb;
      side = buy;
      position_effect = opening;
      quantity = 100;
    }
    ∷ record {
      intent_id = (strategy_id, 2);
      intent_seq = 2;
      symbol = bbb;
      side = sell;
      position_effect = closing;
      quantity = 100;
    }
    ∷ []

rotation_tape : (last : State) × (release (bars_of 1 sessions) on_start ≡ some (last, tape))
unfolding release on_bar complete close_of trade rotate order leader_after_completed_session
    momentum_bps ◌*ℤ◌ ◌//ℤ◌
rotation_tape = (_, refl)

release_a_share_rotation_example : Replays 1 sessions on_start
release_a_share_rotation_example = release_a_share_rotation sessions
