-- ===== src/Strategy/CryptoTrend/Rules.antt =====
-- strategies/crypto_trend/strategy.py: the calls of on_bar and its entry.
use Prim.Native.String.{String}
use open_quant_studio.Base.{
  ℕ, ◌≡◌, refl, ◌⊎◌, inl, inr, List, [], ◌∷◌, ◌++◌, Option, none, some, length, Bool, true, false,
  if◌then◌else◌, Bool-cases, ltb, ap, sym, ◌∙◌, ◌||◌, append_assoc, add-one, arith,
}
use open_quant_studio.Base.Int.{ℤ, pos, eqb_ℤ}
use open_quant_studio.Strategy.Host.{
  buy, sell, Intent, Bar, replay, trace, Side, PositionEffect, opening, closing,
}
use open_quant_studio.Strategy.Discipline.{
  Phase, Follows, flat, held, Profile, Tape, Disciplined, net_quantity, exposure, replay-Keeps,
  next_closes, closes_since,
}
use open_quant_studio.Strategy.CryptoTrend.{
  State, on_start, on_bar, trade, leave, order, crosses_up, trend_reversed, slow_window, stop_hit,
  strategy_id, contracts,
}

abbrev pub profile : Profile
profile = record { strategy_id = strategy_id; quantity = contracts; entry = buy }

-- Flat, with no entry and no closes since one.
pub record IsFlat (since : List ℤ) (s : State) : Type 0 where
  pub no_closes : since ≡ []
  pub position : s.position ≡ pos 0
  pub entry_close : s.entry_close ≡ none

-- Long one contract; `entry_close` is the first of the closes `since` the entry, which are the
-- last ones seen.
pub record IsHeld (since : List ℤ) (s : State) : Type 0 where
  pub position : s.position ≡ pos 1
  pub before : List ℤ
  pub entry : ℤ
  pub after : List ℤ
  pub from_entry : since ≡ entry ∷ after
  pub split : s.closes ≡ before ++ since
  pub entry_close : s.entry_close ≡ some entry

abbrev pub IsSound : List ℤ → State → Type 0
IsSound since s = IsFlat since s ⊎ IsHeld since s

abbrev pub phase : State → Phase
phase s = if eqb_ℤ s.position (pos 0) then flat else held

-- What a call owes for a bar that begins in phase `f` with the closes `since` and `n` intents sent.
abbrev Owes : Phase → ℕ → Bar → List ℤ → Option (State × List Intent) → Type 0
Owes f n bar since result =
    (s' : State) × (intents : List Intent) × (result ≡ some (s', intents))
    × IsSound (next_closes since bar intents) s'
    × Tape profile f n intents (phase s') s'.intent_seq

order-Follows :
    (symbol : String) (side : Side) (effect : PositionEffect) (s : State)
    → Follows profile side effect s.intent_seq (order symbol side effect s).1
unfolding order
order-Follows symbol side effect s = record {
  identity = ap {B = String × ℕ} (λ k. (strategy_id, k)) (add-one s.intent_seq);
  numbered = add-one s.intent_seq;
  sided = refl;
  effected = refl;
  sized = refl;
}

module _ (bar : Bar) (before : List ℤ) (s : State) where
  enter-Owes :
      (b : Bool)
      → IsFlat [] s
      → s.closes ≡ before ++ bar.close_atoms ∷ []
      → crosses_up s.closes ≡ b
      → Owes flat s.intent_seq bar [] (trade bar s)
  unfolding trade
  enter-Owes true h split e =
      let test : eqb_ℤ s.position (pos 0) ≡ true = ap (λ p. eqb_ℤ p (pos 0)) h.position in
      let entered = record s { position = pos 1; entry_close = some bar.close_atoms } in
      (
        (order bar.symbol buy opening entered).0,
        (order bar.symbol buy opening entered).1 ∷ [],
        rw (test, e) refl,
        inr (record {
          position = refl;
          before = before;
          entry = bar.close_atoms;
          after = [];
          from_entry = refl;
          split = split;
          entry_close = refl;
        }),
        (order-Follows bar.symbol buy opening entered, (refl, sym (add-one s.intent_seq))),
      )
  enter-Owes false h split e =
      let test : eqb_ℤ s.position (pos 0) ≡ true = ap (λ p. eqb_ℤ p (pos 0)) h.position in
      let test' : eqb_ℤ s.position (pos 1) ≡ false = ap (λ p. eqb_ℤ p (pos 1)) h.position in
      (s, [], rw (test, e, test') refl, inl h, (rw (h.position) refl, refl))

  leave-Owes :
      (rest : List ℤ) (entry : ℤ) (b : Bool)
      → s.position ≡ pos 1
      → s.closes ≡ before ++ ((entry ∷ rest) ++ bar.close_atoms ∷ [])
      → s.entry_close ≡ some entry
      → (stop_hit bar.close_atoms entry || trend_reversed s.closes) ≡ b
      → Owes held s.intent_seq bar (entry ∷ rest) (leave bar s)
  unfolding leave
  leave-Owes rest entry true position split entered e =
      let left = record s { position = pos 0; entry_close = none } in
      (
        (order bar.symbol sell closing left).0,
        (order bar.symbol sell closing left).1 ∷ [],
        rw (entered, e) refl,
        inl (record { no_closes = refl; position = refl; entry_close = refl }),
        (order-Follows bar.symbol sell closing left, (refl, sym (add-one s.intent_seq))),
      )
  leave-Owes rest entry false position split entered e = (
    s,
    [],
    rw (entered, e) refl,
    inr (record {
      position = position;
      before = before;
      entry = entry;
      after = rest ++ bar.close_atoms ∷ [];
      from_entry = refl;
      split = split;
      entry_close = entered;
    }),
    (rw position refl, refl),
  )

trade-eq-leave :
    (bar : Bar) (s : State)
    → eqb_ℤ s.position (pos 0) ≡ false
    → eqb_ℤ s.position (pos 1) ≡ true
    → trade bar s ≡ leave bar s
unfolding trade
trade-eq-leave bar s e e' = rw (e, e') refl

-- `STATE` once the close is appended.
abbrev seen : Bar → State → State
seen bar s = record s { closes = s.closes ++ bar.close_atoms ∷ [] }

seen-IsSound :
    (bar : Bar) (since : List ℤ) (s : State)
    → IsSound since s
    → IsSound (next_closes since bar []) (seen bar s)
seen-IsSound bar [] s (inl h) =
    inl (record { no_closes = refl; position = h.position; entry_close = h.entry_close })
seen-IsSound bar (x ∷ since) s (inl h) = absurd (ground (arith, h.no_closes))
seen-IsSound bar [] s (inr h) = absurd (ground (arith, h.from_entry))
seen-IsSound bar (x ∷ since) s (inr h) = inr (record {
  position = h.position;
  before = h.before;
  entry = h.entry;
  after = h.after ++ bar.close_atoms ∷ [];
  from_entry = ap (λ c. c ++ bar.close_atoms ∷ []) h.from_entry;
  split = ap (λ c. c ++ bar.close_atoms ∷ []) h.split ∙ append_assoc h.before (x ∷ since) _;
  entry_close = h.entry_close;
})

trade-Owes :
    (bar : Bar) (since : List ℤ) (s : State)
    → IsSound since s
    → Owes (phase s) s.intent_seq bar since (trade bar (seen bar s))
trade-Owes bar [] s (inl h) =
    let test : eqb_ℤ s.position (pos 0) ≡ true = ap (λ p. eqb_ℤ p (pos 0)) h.position in
    rw test (
      enter-Owes bar s.closes (seen bar s) _
        (record { no_closes = refl; position = h.position; entry_close = h.entry_close }) refl refl)
trade-Owes bar (x ∷ since) s (inl h) = absurd (ground (arith, h.no_closes))
trade-Owes bar [] s (inr h) = absurd (ground (arith, h.from_entry))
trade-Owes bar (x ∷ since) s (inr h) =
    let test : eqb_ℤ s.position (pos 0) ≡ false = ap (λ p. eqb_ℤ p (pos 0)) h.position in
    let test' : eqb_ℤ s.position (pos 1) ≡ true = ap (λ p. eqb_ℤ p (pos 1)) h.position in
    let first : h.entry ≡ x = ground (arith, h.from_entry) in
    let split = ap (λ c. c ++ bar.close_atoms ∷ []) h.split ∙ append_assoc h.before (x ∷ since) _ in
    rw (test, trade-eq-leave bar (seen bar s) test test')
      (leave-Owes bar h.before (seen bar s) since x _ h.position split
        (h.entry_close ∙ ap some first) refl)

on_bar-Owes :
    (bar : Bar) (since : List ℤ) (s : State)
    → IsSound since s
    → Owes (phase s) s.intent_seq bar since (on_bar bar s)
unfolding on_bar
on_bar-Owes bar since s h =
    elim (Bool-cases (ltb (length (s.closes ++ bar.close_atoms ∷ [])) slow_window)) [
      | inl short ↦ rw short (seen bar s, [], refl, seen-IsSound bar since s h, (refl, refl))
      | inr enough ↦ rw enough (trade-Owes bar since s h)
    ]

disciplined : Disciplined profile on_bar
disciplined = record {
  IsSound = IsSound;
  phase = phase;
  seq = λ s. s.intent_seq;
  step = on_bar-Owes;
}

-- Whatever bars are released after `on_start`, no call raises. The position is 0 with no entry, or
-- 1 with `entry_close` the close of the bar of the last order that opened. The tape alternates
-- between a buy that opens and a sell that closes, each of one contract, numbered 1, 2, 3, …;
-- `intent_seq` is its length, and the contracts bought less those sold are one while the position
-- is 1 and none else.
pub replay_crypto_trend :
    (bars : List Bar)
    → (s : State) × (tape : List Intent) × (replay on_bar bars on_start.0 ≡ some (s, tape))
      × (calls : List (Bar × List Intent)) × (trace on_bar bars on_start.0 ≡ some calls)
      × IsSound (closes_since [] calls) s
      × Tape profile flat 0 tape (phase s) s.intent_seq
      × (s.intent_seq ≡ length tape)
      × (net_quantity tape ≡ exposure profile (phase s))
unfolding disciplined
replay_crypto_trend bars =
    replay-Keeps disciplined bars on_start.0
      (inl (record { no_closes = refl; position = refl; entry_close = refl })) refl refl
