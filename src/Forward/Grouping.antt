-- ===== src/Forward/Grouping.antt =====
-- Where a transcript holds the intents of a tape.
use open_quant_studio.Base.{
  sym, ap, ◌∙◌, ℕ, ◌+◌, ◌≡◌, refl, inl, inr, true, false, some, List, [], ◌∷◌, ◌++◌, append_assoc,
  append-nil, arith, if◌then◌else◌, All, All-map, Bool-cases,
}
use open_quant_studio.Base.Int.{ℤ, eqb_ℤ, eqb_ℤ→eq, eqb_ℤ_refl}
use open_quant_studio.Formal.Protocol.{MarketBar, Stamped}
use open_quant_studio.Formal.Timing.{InSlot}
use open_quant_studio.Forward.{
  Groups, get_group, clear_group, bar_groups, append_to, fill, Observation, observe,
}

-- The intents that are known at a session, in the order of the tape.
abbrev pub known_at : ℤ → List Stamped → List Stamped
known_at seq [] = []
known_at seq (s ∷ tape) =
    let rest = known_at seq tape in if eqb_ℤ s.known_at seq then s ∷ rest else rest

abbrev pub observations_of : ℕ → List Stamped → List MarketBar → List Observation
observations_of index tape [] = []
observations_of index tape (bar ∷ bars) =
    record { bar_index = index; bar = bar; intent_group = known_at bar.session_seq tape }
    ∷ observations_of (index + 1) tape bars

-- The groups after a loop over the tape, against those before it.
abbrev pub Grows : List Stamped → Groups → Groups → Type 0
Grows tape groups filled =
    (seq : ℤ) (group : List Stamped)
    → get_group seq groups ≡ some group
    → get_group seq filled ≡ some (group ++ known_at seq tape)

abbrev pub HasGroup : Groups → ℤ → Type 0
HasGroup groups seq = (group : List Stamped) × (get_group seq groups ≡ some group)

here-grows :
    (s : Stamped) (key : ℤ) (group : List Stamped) (groups : Groups) (seq : ℤ) (old : List Stamped)
    → eqb_ℤ key s.known_at ≡ true
    → get_group seq ((key, group) ∷ groups) ≡ some old
    → get_group seq ((key, group ++ s ∷ []) ∷ groups) ≡ some (old ++ known_at seq (s ∷ []))
unfolding get_group
here-grows s key group groups seq old e h =
    let same : key ≡ s.known_at = eqb_ℤ→eq key s.known_at e in
    elim (Bool-cases (eqb_ℤ s.known_at seq)) [
      | inl f ↦ ground (arith, same, f, h)
      | inr f ↦ ground (arith, same, f, h, append-nil old)
    ]

there-grows :
    (s : Stamped) (key : ℤ) (group : List Stamped) (groups filled : Groups) (seq : ℤ)
    (old : List Stamped)
    → eqb_ℤ key s.known_at ≡ false
    → (get_group seq groups ≡ some old → get_group seq filled ≡ some (old ++ known_at seq (s ∷ [])))
    → get_group seq ((key, group) ∷ groups) ≡ some old
    → get_group seq ((key, group) ∷ filled) ≡ some (old ++ known_at seq (s ∷ []))
unfolding get_group
there-grows s key group groups filled seq old e grows h = elim (Bool-cases (eqb_ℤ key seq)) [
  | inl k ↦
      let same : key ≡ seq = eqb_ℤ→eq key seq k in
      let other : eqb_ℤ s.known_at seq ≡ false = ground (arith, same) in
      rw (k, other) (ground (arith, k, append-nil old))
  | inr k ↦ rw k (grows (rw k at h))
]

append-total :
    (s : Stamped) (groups : Groups)
    → HasGroup groups s.known_at
    → (filled : Groups) × (append_to s groups ≡ some filled) × Grows (s ∷ []) groups filled
unfolding append_to get_group
append-total s [] (group, h) = absurd (ground arith)
append-total s ((key, group) ∷ groups) (g, h) = elim (Bool-cases (eqb_ℤ key s.known_at)) [
  | inl e ↦ (
    (key, group ++ s ∷ []) ∷ groups,
    rw e refl,
    λ seq old k. here-grows s key group groups seq old e k,
  )
  | inr e ↦
      let (filled, done, grows) = append-total s groups (g, rw e at h) in
      (
        (key, group) ∷ filled,
        rw (e, done) refl,
        λ seq old k. there-grows s key group groups filled seq old e (grows seq old) k,
      )
]

known_at-cons :
    (seq : ℤ) (s : Stamped) (tape : List Stamped)
    → known_at seq (s ∷ []) ++ known_at seq tape ≡ known_at seq (s ∷ tape)
known_at-cons seq s tape = ground arith

pub fill-total :
    (tape : List Stamped) (groups : Groups)
    → All (λ (s : Stamped). HasGroup groups s.known_at) tape
    → (filled : Groups) × (fill tape groups ≡ some filled) × Grows tape groups filled
unfolding fill
fill-total [] groups a = (groups, refl, λ seq group h. h ∙ ap some (sym (append-nil group)))
fill-total (s ∷ tape) groups a =
    let (next, done, grows) = append-total s groups a.0 in
    let (filled, done', grows') = fill-total tape next (
      All-map _ _ tape
        (λ x (group, h). (group ++ known_at x.known_at (s ∷ []), grows x.known_at group h)) a.1) in
    (
      filled,
      rw done done',
      λ seq group h.
          grows' seq (group ++ known_at seq (s ∷ [])) (grows seq group h)
          ∙ ap some (
              append_assoc group (known_at seq (s ∷ [])) (known_at seq tape)
              ∙ ap (λ t. group ++ t) (known_at-cons seq s tape)),
    )

-- The bars' groups are there, and empty.
abbrev pub IsEmpty : Groups → ℤ → Type 0
IsEmpty groups seq = get_group seq groups ≡ some []

clear-own : (seq : ℤ) (groups : Groups) → IsEmpty (clear_group seq groups) seq
unfolding get_group clear_group
clear-own seq [] = ground (arith, eqb_ℤ_refl seq)
clear-own seq ((key, group) ∷ groups) = ground (arith, clear-own seq groups)

clear-keeps :
    (seq other : ℤ) (groups : Groups)
    → IsEmpty groups other
    → IsEmpty (clear_group seq groups) other
unfolding get_group clear_group
clear-keeps seq other [] h = absurd (ground arith)
clear-keeps seq other ((key, group) ∷ groups) h = ground (arith, clear-keeps seq other groups)

pub bars-keep :
    (bars : List MarketBar) (seq : ℤ) (groups : Groups)
    → IsEmpty groups seq
    → IsEmpty (bar_groups bars groups) seq
unfolding bar_groups
bars-keep [] seq groups h = h
bars-keep (bar ∷ bars) seq groups h =
    bars-keep bars seq (clear_group bar.session_seq groups)
      (clear-keeps bar.session_seq seq groups h)

pub bars-IsEmpty :
    (bars : List MarketBar) (groups : Groups)
    → All (λ (bar : MarketBar). IsEmpty (bar_groups bars groups) bar.session_seq) bars
unfolding bar_groups
bars-IsEmpty [] groups = tt
bars-IsEmpty (bar ∷ bars) groups = (
  bars-keep bars bar.session_seq (clear_group bar.session_seq groups)
      (clear-own bar.session_seq groups),
  bars-IsEmpty bars (clear_group bar.session_seq groups),
)

pub observe-lem :
    (bars : List MarketBar) (tape : List Stamped) (index : ℕ) (groups : Groups)
    → All
        (λ (bar : MarketBar).
          get_group bar.session_seq groups ≡ some (known_at bar.session_seq tape))
        bars
    → observe index bars groups ≡ some (observations_of index tape bars)
unfolding observe
observe-lem [] tape index groups a = refl
observe-lem (bar ∷ bars) tape index groups a =
    rw (a.0, observe-lem bars tape (index + 1) groups a.1) refl

pub slot-IsEmpty :
    (bars : List MarketBar) (lo : ℤ) (groups : Groups) (s : Stamped)
    → IsEmpty groups lo
    → All (λ (bar : MarketBar). IsEmpty groups bar.session_seq) bars
    → InSlot lo bars s
    → IsEmpty groups s.known_at
slot-IsEmpty [] lo groups s h a i = elim i [ ]
slot-IsEmpty (bar ∷ bars) lo groups s h a (inl (k, e)) = ap (λ seq. get_group seq groups) k ∙ h
slot-IsEmpty (bar ∷ bars) lo groups s h a (inr i) =
    slot-IsEmpty bars bar.session_seq groups s a.0 a.1 i
