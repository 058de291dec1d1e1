-- ===== src/Strategy/AShareResearchShort/Rules.antt =====
-- strategies/a_share_research_short/strategy.py: the calls of on_bar and its entry.
use Prim.Native.String.{String}
use open_quant_studio.Base.{
  ℕ, ◌≡◌, refl, ◌⊎◌, inl, inr, List, [], ◌∷◌, ◌++◌, Option, none, some, length, Bool, true, false,
  ◌==◌, if◌then◌else◌, Bool-cases, ap, sym, ◌∙◌, last_n, ◌||◌, append_assoc, add-one, arith,
}
use open_quant_studio.Base.Int.{ℤ, pos, negsuc, eqb_ℤ, ltb_ℤ}
use open_quant_studio.Strategy.Host.{
  buy, sell, Intent, Bar, replay, trace, minimum-cons, Side, PositionEffect, opening, closing,
}
use open_quant_studio.Strategy.Discipline.{
  Phase, Follows, flat, held, Profile, Tape, Disciplined, net_quantity, exposure, replay-Keeps,
  next_closes, closes_since,
}
use open_quant_studio.Strategy.AShareResearchShort.{
  State, on_start, on_bar, enter, leave, order, breaks_down, breakdown_window, stop_hit,
  cover_average, strategy_id, lot_size,
}

abbrev pub profile : Profile
profile = record { strategy_id = strategy_id; quantity = lot_size; entry = sell }

-- Flat, with no entry and no closes since one.
pub record IsFlat (since : List ℤ) (s : State) : Type 0 where
  pub no_closes : since ≡ []
  pub position : s.position ≡ pos 0
  pub entry_close : s.entry_close ≡ none

-- Short one lot; `entry_close` is the first of the closes `since` the entry, which are the
-- last ones seen.
pub record IsHeld (since : List ℤ) (s : State) : Type 0 where
  pub position : s.position ≡ negsuc 0
  pub before : List ℤ
  pub entry : ℤ
  pub after : List ℤ
  pub from_entry : since ≡ entry ∷ after
  pub split : s.closes ≡ before ++ since
  pub entry_close : s.entry_close ≡ some entry

abbrev pub IsSound : List ℤ → State → Type 0
IsSound since s = IsFlat since s ⊎ IsHeld since s

abbrev pub phase : State → Phase
phase s = if eqb_ℤ s.position (pos 0) then flat else held

-- What a call owes for a bar that begins in phase `f` with the closes `since` and `n` intents sent.
abbrev Owes : Phase → ℕ → Bar → List ℤ → Option (State × List Intent) → Type 0
Owes f n bar since result =
    (s' : State) × (intents : List Intent) × (result ≡ some (s', intents))
    × IsSound (next_closes since bar intents) s'
    × Tape profile f n intents (phase s') s'.intent_seq

order-Follows :
    (symbol : String) (side : Side) (effect : PositionEffect) (s : State)
    → Follows profile side effect s.intent_seq (order symbol side effect s).1
unfolding order
order-Follows symbol side effect s = record {
  identity = ap {B = String × ℕ} (λ k. (strategy_id, k)) (add-one s.intent_seq);
  numbered = add-one s.intent_seq;
  sided = refl;
  effected = refl;
  sized = refl;
}

breaks_down_total : (close : ℤ) (prior : List ℤ) → (b : Bool) × (breaks_down close prior ≡ some b)
breaks_down_total close [] = (false, refl)
breaks_down_total close (x ∷ xs) =
    let (m, e) = minimum-cons x xs in
    elim (Bool-cases (length (x ∷ xs) == breakdown_window)) [
      | inl full ↦ (ltb_ℤ close m, rw (full, e) refl)
      | inr short ↦ (false, rw short refl)
    ]

module _ (bar : Bar) (before : List ℤ) (s : State) where
  enter-Owes :
      (prior : List ℤ) (b : Bool)
      → IsFlat [] s
      → s.closes ≡ before ++ bar.close_atoms ∷ []
      → breaks_down bar.close_atoms prior ≡ some b
      → Owes flat s.intent_seq bar [] (enter bar prior s)
  unfolding enter
  enter-Owes prior true h split e =
      let entered = record s { position = negsuc 0; entry_close = some bar.close_atoms } in
      (
        (order bar.symbol sell opening entered).0,
        (order bar.symbol sell opening entered).1 ∷ [],
        rw e refl,
        inr (record {
          position = refl;
          before = before;
          entry = bar.close_atoms;
          after = [];
          from_entry = refl;
          split = split;
          entry_close = refl;
        }),
        (order-Follows bar.symbol sell opening entered, (refl, sym (add-one s.intent_seq))),
      )
  enter-Owes prior false h split e = (s, [], rw e refl, inl h, (rw (h.position) refl, refl))

  leave-Owes :
      (rest : List ℤ) (entry : ℤ) (b : Bool)
      → s.position ≡ negsuc 0
      → s.closes ≡ before ++ ((entry ∷ rest) ++ bar.close_atoms ∷ [])
      → s.entry_close ≡ some entry
      → (stop_hit bar.close_atoms entry || ltb_ℤ (cover_average s.closes) bar.close_atoms) ≡ b
      → Owes held s.intent_seq bar (entry ∷ rest) (leave bar s)
  unfolding leave
  leave-Owes rest entry true position split entered e =
      let left = record s { position = pos 0; entry_close = none } in
      (
        (order bar.symbol buy closing left).0,
        (order bar.symbol buy closing left).1 ∷ [],
        rw (entered, e) refl,
        inl (record { no_closes = refl; position = refl; entry_close = refl }),
        (order-Follows bar.symbol buy closing left, (refl, sym (add-one s.intent_seq))),
      )
  leave-Owes rest entry false position split entered e = (
    s,
    [],
    rw (entered, e) refl,
    inr (record {
      position = position;
      before = before;
      entry = entry;
      after = rest ++ bar.close_atoms ∷ [];
      from_entry = refl;
      split = split;
      entry_close = entered;
    }),
    (rw position refl, refl),
  )

on_bar-Owes :
    (bar : Bar) (since : List ℤ) (s : State)
    → IsSound since s
    → Owes (phase s) s.intent_seq bar since (on_bar bar s)
unfolding on_bar
on_bar-Owes bar [] s (inl h) =
    let prior = last_n breakdown_window s.closes in
    let (b, e) = breaks_down_total bar.close_atoms prior in
    let test : eqb_ℤ s.position (pos 0) ≡ true = ap (λ p. eqb_ℤ p (pos 0)) h.position in
    rw test (
      enter-Owes bar s.closes (record s { closes = s.closes ++ bar.close_atoms ∷ [] }) prior b
        (record { no_closes = refl; position = h.position; entry_close = h.entry_close }) refl e)
on_bar-Owes bar (x ∷ since) s (inl h) = absurd (ground (arith, h.no_closes))
on_bar-Owes bar [] s (inr h) = absurd (ground (arith, h.from_entry))
on_bar-Owes bar (x ∷ since) s (inr h) =
    let test : eqb_ℤ s.position (pos 0) ≡ false = ap (λ p. eqb_ℤ p (pos 0)) h.position in
    let first : h.entry ≡ x = ground (arith, h.from_entry) in
    rw test (
      leave-Owes bar h.before (record s { closes = s.closes ++ bar.close_atoms ∷ [] }) since x _
        h.position
        (ap (λ c. c ++ bar.close_atoms ∷ []) h.split ∙ append_assoc h.before (x ∷ since) _)
        (h.entry_close ∙ ap some first) refl)

disciplined : Disciplined profile on_bar
disciplined = record {
  IsSound = IsSound;
  phase = phase;
  seq = λ s. s.intent_seq;
  step = on_bar-Owes;
}

-- Whatever bars are released after `on_start`, no call raises. The position is 0 with no entry, or
-- -1 with `entry_close` the close of the bar of the last order that opened. The tape alternates
-- between a sell that opens and a buy that closes, each of one lot, numbered 1, 2, 3, …;
-- `intent_seq` is its length, and the shares bought less those sold are minus one lot while the
-- position is -1 and none else.
pub replay_a_share_research_short :
    (bars : List Bar)
    → (s : State) × (tape : List Intent) × (replay on_bar bars on_start.0 ≡ some (s, tape))
      × (calls : List (Bar × List Intent)) × (trace on_bar bars on_start.0 ≡ some calls)
      × IsSound (closes_since [] calls) s
      × Tape profile flat 0 tape (phase s) s.intent_seq
      × (s.intent_seq ≡ length tape)
      × (net_quantity tape ≡ exposure profile (phase s))
unfolding disciplined
replay_a_share_research_short bars =
    replay-Keeps disciplined bars on_start.0
      (inl (record { no_closes = refl; position = refl; entry_close = refl })) refl refl
