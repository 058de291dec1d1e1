-- ===== src/Formal/Timing.antt =====
-- When the intents of a tape are known and take effect.
use open_quant_studio.Base.{
  ℕ, ◌+◌, ◌≡◌, refl, ◌⊎◌, inl, inr, false, Option, none, some, List, [], ◌∷◌, ◌++◌, arith,
  if◌then◌else◌, All, All-map, OnSome, OnSome->>=, OnSome-at, Bool-cases,
}
use open_quant_studio.Base.Int.{ℤ, pos, ◌≤ℤ◌, ◌<ℤ◌, ltb_ℤ}
use open_quant_studio.Domain.Table.{All-snoc}
use open_quant_studio.Formal.Protocol.{
  MarketBar, Requested, absent, requested_at, malformed, Item, intent, not_intent, Stamped, Request,
  start_frame, bar_frame, start_response, bar_response, Process, object, bar_list,
}
use open_quant_studio.Formal.Host.{
  Tape, append_intent, append_intents, is_stale, effective_of, exchange, release, run_bars,
  run_strategy_host, request,
}

-- An intent is known at a close, of session `known` or of a bar, and takes effect at the open of the
-- bar after that close, or later.
abbrev pub InSlot : ℤ → List MarketBar → Stamped → Type 0
InSlot known [] s = ⊥
InSlot known (bar ∷ bars) s =
    ((s.known_at ≡ known) × (bar.session_seq ≤ℤ s.effective_at)) ⊎ InSlot bar.session_seq bars s

abbrev pub IsAfter : ℤ → Option ℤ → Type 0
IsAfter seq none = Unit
IsAfter seq (some lo) = lo <ℤ seq

-- The `intent_seq` ascends strictly from above `lo`, and ends at `hi`.
abbrev pub Ascends : Option ℤ → List Stamped → Option ℤ → Type 0
Ascends lo [] hi = lo ≡ hi
Ascends lo (s ∷ tape) hi = IsAfter s.intent_seq lo × Ascends (some s.intent_seq) tape hi

Ascends-snoc :
    (lo : Option ℤ) (tape : List Stamped) (hi : Option ℤ) (s : Stamped)
    → Ascends lo tape hi
    → IsAfter s.intent_seq hi
    → Ascends lo (tape ++ s ∷ []) (some s.intent_seq)
Ascends-snoc lo [] hi s a h = (rw a h, refl)
Ascends-snoc lo (x ∷ tape) hi s a h = (a.0, Ascends-snoc (some x.intent_seq) tape hi s a.1 h)

stale-IsAfter : (seq : ℤ) (last : Option ℤ) → is_stale seq last ≡ false → IsAfter seq last
stale-IsAfter seq none h = tt
stale-IsAfter seq (some last) h = ground arith

OnSome-any {ℓ} : {A : Type ℓ} (m : Option A) → OnSome (λ _. Unit {0}) m
OnSome-any none = tt
OnSome-any (some a) = tt

record IsTape (P : Stamped → Type 0) (tape : Tape) : Type 0 where
  timely : All P tape.emitted
  ascends : Ascends none tape.emitted tape.last_intent_seq

module _ (P : Stamped → Type 0) where
  effective-late :
      (effective seq : ℤ) (r : Requested)
      → OnSome (λ (at : ℤ × ℤ). effective ≤ℤ at.0) (effective_of effective seq r)
  effective-late effective seq absent = omega arith
  effective-late effective seq (requested_at session is_open stable) =
      elim (Bool-cases (ltb_ℤ session effective)) [
        | inl e ↦ rw e tt
        | inr e ↦ elim (Bool-cases is_open) [
          | inl o ↦ rw (e, o) (ground arith)
          | inr o ↦ rw (e, o) tt
        ]
      ]
  effective-late effective seq malformed = tt

  append_intent-IsTape :
      (known effective : ℤ) (item : Item) (tape : Tape)
      → ((s : Stamped) → s.known_at ≡ known → effective ≤ℤ s.effective_at → P s)
      → IsTape P tape
      → OnSome (IsTape P) (append_intent known effective item tape)
  unfolding append_intent
  append_intent-IsTape known effective (intent seq requested body) tape fits law =
      elim (Bool-cases (is_stale seq tape.last_intent_seq)) [
        | inl e ↦ rw e tt
        | inr e ↦ rw e (
            OnSome->>= (λ (at : ℤ × ℤ). effective ≤ℤ at.0) (IsTape P)
              (effective_of effective seq requested) _ (effective-late effective seq requested)
              (λ at late. record {
                timely = All-snoc P tape.emitted _ law.timely (fits _ refl late);
                ascends =
                    Ascends-snoc none tape.emitted tape.last_intent_seq _ law.ascends
                      (stale-IsAfter seq tape.last_intent_seq e);
              }))
      ]
  append_intent-IsTape known effective not_intent tape fits law = tt

  append_intents-IsTape :
      (known effective : ℤ) (items : List Item) (tape : Tape)
      → ((s : Stamped) → s.known_at ≡ known → effective ≤ℤ s.effective_at → P s)
      → IsTape P tape
      → OnSome (IsTape P) (append_intents known effective items tape)
  unfolding append_intents
  append_intents-IsTape known effective [] tape fits law = law
  append_intents-IsTape known effective (item ∷ items) tape fits law =
      OnSome->>= (IsTape P) (IsTape P) (append_intent known effective item tape) _
        (append_intent-IsTape known effective item tape fits law)
        (λ t l. append_intents-IsTape known effective items t fits l)

module _ (P : Stamped → Type 0) (process : Process) (token : ℕ → ℕ) where
  release-IsTape :
      (bar : MarketBar) (bars : List MarketBar) (id : ℕ) (sent : List Request) (tape : Tape)
      → ((s : Stamped) → InSlot bar.session_seq bars s → P s)
      → IsTape P tape
      → OnSome
          (λ (t : Tape × List Request). IsTape P t.0)
          (release process token (bar ∷ bars) id sent tape)
  unfolding release
  release-IsTape bar [] id sent tape fits law =
      let r = request process token (bar_frame bar) (id + 1) in
      OnSome->>= (λ _. Unit {0}) (λ (t : Tape × List Request). IsTape P t.0)
        (exchange process token bar_response r sent) _ (OnSome-any _) (λ items _. law)
  release-IsTape bar (next ∷ bars) id sent tape fits law =
      let r = request process token (bar_frame bar) (id + 1) in
      OnSome->>= (λ _. Unit {0}) (λ (t : Tape × List Request). IsTape P t.0)
        (exchange process token bar_response r sent) _ (OnSome-any _)
        λ items _.
          OnSome->>= (IsTape P) (λ (t : Tape × List Request). IsTape P t.0)
            (append_intents bar.session_seq next.session_seq items tape) _
            (append_intents-IsTape P bar.session_seq next.session_seq items tape
              (λ s k e. fits s (inl (k, e))) law)
            (λ t l. release-IsTape next bars (id + 1) (sent ++ r ∷ []) t (λ s i. fits s (inr i)) l)

  run_bars-IsTape :
      (bars : List MarketBar)
      → ((s : Stamped) → InSlot (pos 0) bars s → P s)
      → OnSome
          (λ emitted. All P emitted × (hi : Option ℤ) × Ascends none emitted hi)
          (run_bars process token bars)
  unfolding run_bars
  run_bars-IsTape [] fits = tt
  run_bars-IsTape (bar ∷ bars) fits =
      let start = request process token start_frame 1 in
      let Ends : List Stamped → Type 0 =
        λ emitted. All P emitted × (hi : Option ℤ) × Ascends none emitted hi in
      OnSome->>= (λ _. Unit {0}) Ends (exchange process token start_response start []) _
        (OnSome-any _)
        λ items _.
          OnSome->>= (IsTape P) Ends
            (append_intents (pos 0) bar.session_seq items
              (record { emitted = []; last_intent_seq = none }))
            _
            (append_intents-IsTape P (pos 0) bar.session_seq items _ (λ s k e. fits s (inl (k, e)))
              (record { timely = tt; ascends = refl }))
            λ tape law.
              OnSome->>= (λ (t : Tape × List Request). IsTape P t.0) Ends
                (release process token (bar ∷ bars) 1 (start ∷ []) tape) _
                (release-IsTape bar bars 1 (start ∷ []) tape (λ s i. fits s (inr i)) law)
                λ t l. finish-Ends t l
    where
      finish-Ends :
          (t : Tape × List Request)
          → IsTape P t.0
          → OnSome
              (λ emitted. All P emitted × (hi : Option ℤ) × Ascends none emitted hi)
              (if process.ends_well t.1 then some t.0.emitted else none)
      finish-Ends t l = elim (Bool-cases (process.ends_well t.1)) [
        | inl e ↦ rw e (l.timely, t.0.last_intent_seq, l.ascends)
        | inr e ↦ rw e tt
      ]

-- When the host returns a tape, its `intent_seq` ascends strictly, and each of its intents is
-- stamped as known at the close of session 0 or of a bar that is not the last, and takes effect at
-- the open of the bar after that close, or later.
pub host_stamps :
    (process : Process) (token : ℕ → ℕ) (bars : List MarketBar) (intents : Option (List Stamped))
    (emitted : List Stamped)
    → run_strategy_host process token (object (bar_list bars) intents) ≡ some emitted
    → All (InSlot (pos 0) bars) emitted × (hi : Option ℤ) × Ascends none emitted hi
unfolding run_strategy_host
host_stamps process token bars intents emitted h =
    OnSome-at _ (run_bars process token bars) emitted
      (run_bars-IsTape (InSlot (pos 0) bars) process token bars (λ s i. i)) h

-- The `session_seq` of the bars ascends strictly from above `lo`.
abbrev pub Sessions : ℤ → List MarketBar → Type 0
Sessions lo [] = Unit
Sessions lo (bar ∷ bars) = (lo <ℤ bar.session_seq) × Sessions bar.session_seq bars

slot_ahead :
    (lo : ℤ) (bars : List MarketBar) (s : Stamped)
    → Sessions lo bars
    → InSlot lo bars s
    → s.known_at <ℤ s.effective_at
slot_ahead lo [] s a i = elim i [ ]
slot_ahead lo (bar ∷ bars) s a (inl (k, e)) = rw k (ground (arith, a.0))
slot_ahead lo (bar ∷ bars) s a (inr i) = slot_ahead bar.session_seq bars s a.1 i

-- Where the sessions of the bars ascend from above 0, no intent of a tape takes effect in the
-- session at whose close it is known, or before.
pub host_no_lookahead :
    (process : Process) (token : ℕ → ℕ) (bars : List MarketBar) (intents : Option (List Stamped))
    (emitted : List Stamped)
    → Sessions (pos 0) bars
    → run_strategy_host process token (object (bar_list bars) intents) ≡ some emitted
    → All (λ (s : Stamped). s.known_at <ℤ s.effective_at) emitted
host_no_lookahead process token bars intents emitted ordered h =
    All-map (InSlot (pos 0) bars) _ emitted (λ s i. slot_ahead (pos 0) bars s ordered i)
      (host_stamps process token bars intents emitted h).0
