-- ===== src/Strategy/CryptoBreakout/Rules.antt =====
-- strategies/crypto_breakout/strategy.py: the calls of on_bar and its peak.
use Prim.Native.String.{String}
use open_quant_studio.Base.{
  ℕ, ◌≡◌, refl, ◌⊎◌, inl, inr, List, [], ◌∷◌, ◌++◌, Option, none, some, length, Bool, true, false,
  ◌==◌, if◌then◌else◌, Bool-cases, ap, sym, ◌∙◌, last_n, ◌||◌, append_assoc, add-one, arith,
}
use open_quant_studio.Base.Int.{ℤ, pos, eqb_ℤ, ltb_ℤ, max_ℤ}
use open_quant_studio.Strategy.Host.{
  buy, sell, Intent, Bar, replay, trace, maximum, maximum-cons, maximum-snoc, Side, PositionEffect,
  opening, closing,
}
use open_quant_studio.Strategy.Discipline.{
  Phase, Follows, flat, held, Profile, Tape, Disciplined, net_quantity, exposure, replay-Keeps,
  next_closes, closes_since,
}
use open_quant_studio.Strategy.CryptoBreakout.{
  State, on_start, on_bar, enter, leave, order, breaks_out, breakout_window, stop_hit, exit_average,
  strategy_id, contracts,
}

abbrev pub profile : Profile
profile = record { strategy_id = strategy_id; quantity = contracts; entry = buy }

-- Flat, with no peak and no closes since an entry.
pub record IsFlat (since : List ℤ) (s : State) : Type 0 where
  pub no_closes : since ≡ []
  pub position : s.position ≡ pos 0
  pub peak_close : s.peak_close ≡ none

-- Long one contract; the peak is the highest of the closes `since` the entry, which are the last
-- ones seen.
pub record IsHeld (since : List ℤ) (s : State) : Type 0 where
  pub position : s.position ≡ pos 1
  pub before : List ℤ
  pub peak : ℤ
  pub split : s.closes ≡ before ++ since
  pub peak_close : s.peak_close ≡ some peak
  pub highest : maximum since ≡ some peak

abbrev pub IsSound : List ℤ → State → Type 0
IsSound since s = IsFlat since s ⊎ IsHeld since s

abbrev pub phase : State → Phase
phase s = if eqb_ℤ s.position (pos 0) then flat else held

-- What a call owes for a bar that begins in phase `f` with the closes `since` and `n` intents sent.
abbrev Owes : Phase → ℕ → Bar → List ℤ → Option (State × List Intent) → Type 0
Owes f n bar since result =
    (s' : State) × (intents : List Intent) × (result ≡ some (s', intents))
    × IsSound (next_closes since bar intents) s'
    × Tape profile f n intents (phase s') s'.intent_seq

order-Follows :
    (symbol : String) (side : Side) (effect : PositionEffect) (s : State)
    → Follows profile side effect s.intent_seq (order symbol side effect s).1
unfolding order
order-Follows symbol side effect s = record {
  identity = ap {B = String × ℕ} (λ k. (strategy_id, k)) (add-one s.intent_seq);
  numbered = add-one s.intent_seq;
  sided = refl;
  effected = refl;
  sized = refl;
}

breaks_out_total : (close : ℤ) (prior : List ℤ) → (b : Bool) × (breaks_out close prior ≡ some b)
breaks_out_total close [] = (false, refl)
breaks_out_total close (x ∷ xs) =
    let (m, e) = maximum-cons x xs in
    elim (Bool-cases (length (x ∷ xs) == breakout_window)) [
      | inl full ↦ (ltb_ℤ m close, rw (full, e) refl)
      | inr short ↦ (false, rw short refl)
    ]

module _ (bar : Bar) (before : List ℤ) (s : State) where
  enter-Owes :
      (prior : List ℤ) (b : Bool)
      → IsFlat [] s
      → s.closes ≡ before ++ bar.close_atoms ∷ []
      → breaks_out bar.close_atoms prior ≡ some b
      → Owes flat s.intent_seq bar [] (enter bar prior s)
  unfolding enter maximum
  enter-Owes prior true h split e =
      let entered = record s { position = pos 1; peak_close = some bar.close_atoms } in
      (
        (order bar.symbol buy opening entered).0,
        (order bar.symbol buy opening entered).1 ∷ [],
        rw e refl,
        inr (record {
          position = refl;
          before = before;
          peak = bar.close_atoms;
          split = split;
          peak_close = refl;
          highest = refl;
        }),
        (order-Follows bar.symbol buy opening entered, (refl, sym (add-one s.intent_seq))),
      )
  enter-Owes prior false h split e = (s, [], rw e refl, inl h, (rw (h.position) refl, refl))

  leave-Owes :
      (first : ℤ) (rest : List ℤ) (peak : ℤ) (b : Bool)
      → s.position ≡ pos 1
      → s.closes ≡ before ++ ((first ∷ rest) ++ bar.close_atoms ∷ [])
      → s.peak_close ≡ some peak
      → maximum (first ∷ rest) ≡ some peak
      → (stop_hit bar.close_atoms (max_ℤ peak bar.close_atoms)
          || ltb_ℤ bar.close_atoms (exit_average s.closes))
        ≡ b
      → Owes held s.intent_seq bar (first ∷ rest) (leave bar s)
  unfolding leave
  leave-Owes first rest peak true position split held_peak highest e =
      let left = record s { position = pos 0; peak_close = none } in
      (
        (order bar.symbol sell closing left).0,
        (order bar.symbol sell closing left).1 ∷ [],
        rw (held_peak, e) refl,
        inl (record { no_closes = refl; position = refl; peak_close = refl }),
        (order-Follows bar.symbol sell closing left, (refl, sym (add-one s.intent_seq))),
      )
  leave-Owes first rest peak false position split held_peak highest e = (
    record s { peak_close = some (max_ℤ peak bar.close_atoms) },
    [],
    rw (held_peak, e) refl,
    inr (record {
      position = position;
      before = before;
      peak = max_ℤ peak bar.close_atoms;
      split = split;
      peak_close = refl;
      highest = maximum-snoc (first ∷ rest) peak bar.close_atoms highest;
    }),
    (rw position refl, refl),
  )

on_bar-Owes :
    (bar : Bar) (since : List ℤ) (s : State)
    → IsSound since s
    → Owes (phase s) s.intent_seq bar since (on_bar bar s)
unfolding on_bar maximum
on_bar-Owes bar [] s (inl h) =
    let prior = last_n breakout_window s.closes in
    let (b, e) = breaks_out_total bar.close_atoms prior in
    let test : eqb_ℤ s.position (pos 0) ≡ true = ap (λ p. eqb_ℤ p (pos 0)) h.position in
    rw test (
      enter-Owes bar s.closes (record s { closes = s.closes ++ bar.close_atoms ∷ [] }) prior b
        (record { no_closes = refl; position = h.position; peak_close = h.peak_close }) refl e)
on_bar-Owes bar (x ∷ since) s (inl h) = absurd (ground (arith, h.no_closes))
on_bar-Owes bar [] s (inr h) = absurd (ground (arith, h.highest))
on_bar-Owes bar (x ∷ since) s (inr h) =
    let test : eqb_ℤ s.position (pos 0) ≡ false = ap (λ p. eqb_ℤ p (pos 0)) h.position in
    rw test (
      leave-Owes bar h.before (record s { closes = s.closes ++ bar.close_atoms ∷ [] }) x since
        h.peak _ h.position
        (ap (λ c. c ++ bar.close_atoms ∷ []) h.split ∙ append_assoc h.before (x ∷ since) _)
        h.peak_close h.highest refl)

disciplined : Disciplined profile on_bar
disciplined = record {
  IsSound = IsSound;
  phase = phase;
  seq = λ s. s.intent_seq;
  step = on_bar-Owes;
}

-- Whatever bars are released after `on_start`, no call raises. The position is 0 with no peak, or 1
-- with `peak_close` the highest of the closes from the bar of the last order that opened, that bar
-- included, to the last bar. The tape alternates between a buy that opens and a sell that closes,
-- each of one contract, numbered 1, 2, 3, …; `intent_seq` is its length, and the contracts bought
-- less those sold are one while the position is 1 and none else.
pub replay_crypto_breakout :
    (bars : List Bar)
    → (s : State) × (tape : List Intent) × (replay on_bar bars on_start.0 ≡ some (s, tape))
      × (calls : List (Bar × List Intent)) × (trace on_bar bars on_start.0 ≡ some calls)
      × IsSound (closes_since [] calls) s
      × Tape profile flat 0 tape (phase s) s.intent_seq
      × (s.intent_seq ≡ length tape)
      × (net_quantity tape ≡ exposure profile (phase s))
unfolding disciplined
replay_crypto_breakout bars =
    replay-Keeps disciplined bars on_start.0
      (inl (record { no_closes = refl; position = refl; peak_close = refl })) refl refl
