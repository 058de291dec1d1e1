-- ===== src/Strategy/AShareRotation.antt =====
-- strategies/a_share_rotation/strategy.py: three A shares, ranked by their momentum at the close of a
-- session. none is an exception.
pub mod Rules
pub mod Tests
use Prim.Native.String.{String}
use open_quant_studio.Base.{
  ℕ, suc, ◌+◌, ◌==◌, leb, if◌then◌else◌, List, [], ◌∷◌, ◌++◌, Option, none, some, ◌>>=◌, Bool, true,
  false, length,
}
use open_quant_studio.Base.Int.{ℤ, pos, negsuc, neg_ℤ, ◌*ℤ◌, ◌//ℤ◌, ltb_ℤ, leb_ℤ}
use open_quant_studio.Strategy.Host.{Side, buy, sell, PositionEffect, opening, closing}

abbrev pub strategy_id : String
strategy_id = "a_share_rotation"

-- The three texts of UNIVERSE, in their order, and any other text.
pub data Symbol : Type 0 where
  aaa bbb ccc : Symbol
  other : ℕ → Symbol

abbrev momentum_periods : ℕ
momentum_periods = 1

abbrev min_momentum_bps : ℤ
min_momentum_bps = pos 10_100

abbrev lot_size : ℕ
lot_size = 100

pub record PortfolioBar : Type 0 where
  pub session_seq : ℕ
  pub symbol : Symbol
  pub close_atoms : ℤ
  pub session_end : Bool

-- The dict that `order` returns, less the keys that are constants.
pub record Order : Type 0 where
  pub intent_id : String × ℕ
  pub intent_seq : ℕ
  pub symbol : Symbol
  pub side : Side
  pub position_effect : PositionEffect
  pub quantity : ℕ

-- The global `STATE`. The closes of the session and the history of a symbol have the newest first.
pub record State : Type 0 where
  pub active_session : Option ℕ
  pub session_closes : List (Symbol × ℤ)
  pub aaa_history : List ℤ
  pub bbb_history : List ℤ
  pub ccc_history : List ℤ
  pub held_symbol : Option Symbol
  pub intent_seq : ℕ

abbrev pub on_start : State
on_start = record {
  active_session = none;
  session_closes = [];
  aaa_history = [];
  bbb_history = [];
  ccc_history = [];
  held_symbol = none;
  intent_seq = 0;
}

abbrev pub symbol_eq : Symbol → Symbol → Bool
symbol_eq aaa aaa = true
symbol_eq bbb bbb = true
symbol_eq ccc ccc = true
symbol_eq (other a) (other b) = a == b
symbol_eq _ _ = false

abbrev pub held_eq : Option Symbol → Option Symbol → Bool
held_eq none none = true
held_eq (some a) (some b) = symbol_eq a b
held_eq _ _ = false

unfoldable pub order : Symbol → Side → PositionEffect → State → State × Order
order symbol side position_effect s =
    let seq = s.intent_seq + 1 in
    (
      record s { intent_seq = seq },
      record {
        intent_id = (strategy_id, seq);
        intent_seq = seq;
        symbol = symbol;
        side = side;
        position_effect = position_effect;
        quantity = lot_size;
      },
    )

-- `//`, which raises on zero.
abbrev pub floor_div : ℤ → ℤ → Option ℤ
floor_div a (pos n) = if n == 0 then none else some (a //ℤ n)
floor_div a (negsuc n) = some (neg_ℤ a //ℤ suc n)

-- `momentum_bps`
unfoldable pub momentum_bps : List ℤ → Option ℤ
momentum_bps (now ∷ before ∷ history) = floor_div (now *ℤ 10_000) before
momentum_bps _ = none

-- `min` by the key (-momentum, symbol) keeps the first of two equal ones.
abbrev pub leading : Symbol × ℤ → Symbol × ℤ → Symbol × ℤ
leading a b = if ltb_ℤ a.1 b.1 then b else a

-- `leader_after_completed_session`, with the leader's momentum.
unfoldable pub leader_after_completed_session : State → Option (Symbol × ℤ)
leader_after_completed_session s = momentum_bps s.aaa_history >>= λ a.
    momentum_bps s.bbb_history >>= λ b.
    momentum_bps s.ccc_history >>= λ c. some (leading (leading (aaa, a) (bbb, b)) (ccc, c))

abbrev pub target_of : Symbol × ℤ → Option Symbol
target_of leader = if leb_ℤ min_momentum_bps leader.1 then some leader.0 else none

-- The orders for a change of the held symbol, the close first.
abbrev pub open_target : Option Symbol → State → State × List Order
open_target none s = (s, [])
open_target (some symbol) s = let (s', o) = order symbol buy opening s in (s', o ∷ [])

abbrev pub close_held : Option Symbol → State → State × List Order
close_held none s = (s, [])
close_held (some symbol) s = let (s', o) = order symbol sell closing s in (s', o ∷ [])

unfoldable pub rotate : Option Symbol → State → State × List Order
rotate target s =
    let (s1, closes) = close_held s.held_symbol s in
    let (s2, opens) = open_target target s1 in (record s2 { held_symbol = target }, closes ++ opens)

unfoldable pub trade : State → Option (State × List Order)
trade s = leader_after_completed_session s >>= λ leader.
    if held_eq s.held_symbol (target_of leader)
    then some (s, [])
    else some (rotate (target_of leader) s)

unfoldable pub close_of : Symbol → List (Symbol × ℤ) → Option ℤ
close_of symbol [] = none
close_of symbol ((s, close) ∷ closes) =
    if symbol_eq s symbol then some close else close_of symbol closes

-- After the last bar of a session.
unfoldable pub complete : State → Option (State × List Order)
complete s = close_of aaa s.session_closes >>= λ a. close_of bbb s.session_closes >>= λ b.
    close_of ccc s.session_closes >>= λ c.
    let s' = record s {
      aaa_history = a ∷ s.aaa_history;
      bbb_history = b ∷ s.bbb_history;
      ccc_history = c ∷ s.ccc_history;
    } in
    if leb (length s'.aaa_history) momentum_periods then some (s', []) else trade s'

abbrev is_active : ℕ → Option ℕ → Bool
is_active seq none = false
is_active seq (some active) = active == seq

abbrev pub note_close : PortfolioBar → State → State
note_close bar s = record s {
  active_session = some bar.session_seq;
  session_closes =
      (bar.symbol, bar.close_atoms)
      ∷ (if is_active bar.session_seq s.active_session then s.session_closes else []);
}

unfoldable pub on_bar : PortfolioBar → State → Option (State × List Order)
on_bar bar s = if bar.session_end then complete (note_close bar s) else some (note_close bar s, [])

-- The host's release of the bars.
unfoldable pub release : List PortfolioBar → State → Option (State × List Order)
release [] s = some (s, [])
release (bar ∷ bars) s =
    on_bar bar s >>= λ (s', orders). release bars s' >>= λ (s'', tape). some (s'', orders ++ tape)
