-- ===== src/Strategy/Discipline.antt =====
-- The contract of a strategy that trades one position: what each call of `on_bar` owes, and what that
-- makes of a replay.
use Prim.Native.String.{String}
use open_quant_studio.Base.{
  ℕ, suc, ◌+◌, ◌≡◌, refl, sym, ◌∙◌, List, [], ◌∷◌, ◌++◌, Option, some, arith, length,
}
use open_quant_studio.Base.Int.{ℤ, pos, ◌+ℤ◌, neg_ℤ, int_laws, zero-+ℤ, +ℤ_assoc}
use open_quant_studio.Strategy.Host.{
  Side, buy, sell, PositionEffect, opening, closing, Intent, Bar, replay, trace,
}

pub data Phase : Type 0 where
  flat held : Phase

-- What the intents of one strategy have in common.
pub record Profile : Type 0 where
  pub strategy_id : String
  pub quantity : ℕ
  pub entry : Side

abbrev pub opposite : Side → Side
opposite buy = sell
opposite sell = buy

pub record Follows (p : Profile) (side : Side) (effect : PositionEffect) (seq : ℕ) (i : Intent)
    : Type 0 where
  pub identity : i.intent_id ≡ (p.strategy_id, suc seq)
  pub numbered : i.intent_seq ≡ suc seq
  pub sided : i.side ≡ side
  pub effected : i.position_effect ≡ effect
  pub sized : i.quantity ≡ p.quantity

-- `Tape p f n tape f' n'`: from phase `f` and the number `n` the tape leads to `f'` and `n'`.
abbrev pub Tape : Profile → Phase → ℕ → List Intent → Phase → ℕ → Type 0
Tape p f n [] f' n' = (f ≡ f') × (n ≡ n')
Tape p flat n (i ∷ tape) f' n' = Follows p p.entry opening n i × Tape p held (suc n) tape f' n'
Tape p held n (i ∷ tape) f' n' =
    Follows p (opposite p.entry) closing n i × Tape p flat (suc n) tape f' n'

Tape-append :
    (p : Profile) (f : Phase) (n : ℕ) (xs : List Intent) (g : Phase) (m : ℕ) (ys : List Intent)
    (h : Phase) (k : ℕ)
    → Tape p f n xs g m
    → Tape p g m ys h k
    → Tape p f n (xs ++ ys) h k
Tape-append p f n [] g m ys h k (same, numbers) t = rw (same, numbers) t
Tape-append p flat n (x ∷ xs) g m ys h k (here, rest) t =
    (here, Tape-append p held (suc n) xs g m ys h k rest t)
Tape-append p held n (x ∷ xs) g m ys h k (here, rest) t =
    (here, Tape-append p flat (suc n) xs g m ys h k rest t)

Tape-length :
    (p : Profile) (f : Phase) (n : ℕ) (xs : List Intent) (g : Phase) (m : ℕ)
    → Tape p f n xs g m
    → m ≡ n + length xs
Tape-length p f n [] g m t = omega arith
Tape-length p flat n (x ∷ xs) g m t = omega (arith, Tape-length p held (suc n) xs g m t.1)
Tape-length p held n (x ∷ xs) g m t = omega (arith, Tape-length p flat (suc n) xs g m t.1)

-- The signed quantity that a tape has bought and sold.
abbrev pub signed_quantity : Side → ℕ → ℤ
signed_quantity buy q = pos q
signed_quantity sell q = neg_ℤ (pos q)

unfoldable pub net_quantity : List Intent → ℤ
net_quantity [] = pos 0
net_quantity (i ∷ tape) = signed_quantity i.side i.quantity +ℤ net_quantity tape

abbrev pub exposure : Profile → Phase → ℤ
exposure p flat = pos 0
exposure p held = signed_quantity p.entry p.quantity

Follows-signed :
    (p : Profile) (side : Side) (effect : PositionEffect) (n : ℕ) (i : Intent)
    → Follows p side effect n i
    → signed_quantity i.side i.quantity ≡ signed_quantity side p.quantity
Follows-signed p side effect n i h = cc

signed-opposite : (s : Side) (q : ℕ) → signed_quantity s q +ℤ signed_quantity (opposite s) q ≡ pos 0
signed-opposite buy q = omega int_laws
signed-opposite sell q = omega int_laws

Tape-net :
    (p : Profile) (f : Phase) (n : ℕ) (xs : List Intent) (g : Phase) (m : ℕ)
    → Tape p f n xs g m
    → exposure p f +ℤ net_quantity xs ≡ exposure p g
unfolding net_quantity
Tape-net p f n [] g m (same, numbers) = rw same (omega int_laws)
Tape-net p flat n (x ∷ xs) g m (here, rest) =
    zero-+ℤ _ ∙ rw (Follows-signed p p.entry opening n x here) (Tape-net p held (suc n) xs g m rest)
Tape-net p held n (x ∷ xs) g m (here, rest) =
    rw (Follows-signed p (opposite p.entry) closing n x here, ← +ℤ_assoc, signed-opposite)
      (Tape-net p flat (suc n) xs g m rest)

-- The closes from the bar of the last order that opened, that bar included; none after an order that
-- closed. `since` are those before the call.
abbrev pub next_closes : List ℤ → Bar → List Intent → List ℤ
next_closes [] bar [] = []
next_closes (x ∷ since) bar [] = (x ∷ since) ++ bar.close_atoms ∷ []
next_closes since bar (i ∷ intents) = elim i.position_effect [
  | opening ↦ bar.close_atoms ∷ []
  | closing ↦ []
]

abbrev pub closes_since : List ℤ → List (Bar × List Intent) → List ℤ
closes_since since [] = since
closes_since since ((bar, intents) ∷ calls) = closes_since (next_closes since bar intents) calls

-- What one call of a strategy's `on_bar` owes: under its invariant, which speaks of the closes since
-- the entry, it raises nothing, keeps the invariant, and sends what its phase and its counter allow.
pub record Disciplined {S : Type 0} (p : Profile) (on_bar : Bar → S → Option (S × List Intent))
    : Type 1 where
  pub IsSound : List ℤ → S → Type 0
  pub phase : S → Phase
  pub seq : S → ℕ
  pub step :
      (bar : Bar) (since : List ℤ) (s : S)
      → IsSound since s
      → (s' : S) × (intents : List Intent) × (on_bar bar s ≡ some (s', intents))
        × IsSound (next_closes since bar intents) s'
        × Tape p (phase s) (seq s) intents (phase s') (seq s')

module _ {S : Type 0} {p : Profile} {on_bar : Bar → S → Option (S × List Intent)}
    (d : Disciplined p on_bar) where
  open d use {IsSound, phase, seq, step}

  replay-Tape :
      (bars : List Bar) (since : List ℤ) (s : S)
      → IsSound since s
      → (s' : S) × (tape : List Intent) × (replay on_bar bars s ≡ some (s', tape))
        × (calls : List (Bar × List Intent)) × (trace on_bar bars s ≡ some calls)
        × IsSound (closes_since since calls) s'
        × Tape p (phase s) (seq s) tape (phase s') (seq s')
  unfolding replay trace
  replay-Tape [] since s h = (s, [], refl, [], refl, h, (refl, refl))
  replay-Tape (bar ∷ bars) since s h =
      let (s', intents, called, sound, first) = step bar since s h in
      let (s'', tape, played, calls, traced, sound', rest) =
        replay-Tape bars (next_closes since bar intents) s' sound in
      (
        s'',
        intents ++ tape,
        rw (called, played) refl,
        (bar, intents) ∷ calls,
        rw (called, traced) refl,
        sound',
        Tape-append p (phase s) (seq s) intents (phase s') (seq s') tape (phase s'') (seq s'') first
            rest,
      )

  -- What a whole replay from a flat state owes.
  abbrev pub Keeps : List Bar → S → Type 0
  Keeps bars s =
      (s' : S) × (tape : List Intent) × (replay on_bar bars s ≡ some (s', tape))
      × (calls : List (Bar × List Intent)) × (trace on_bar bars s ≡ some calls)
      × IsSound (closes_since [] calls) s'
      × Tape p flat 0 tape (phase s') (seq s')
      × (seq s' ≡ length tape)
      × (net_quantity tape ≡ exposure p (phase s'))

  pub replay-Keeps :
      (bars : List Bar) (s : S) → IsSound [] s → phase s ≡ flat → seq s ≡ 0 → Keeps bars s
  replay-Keeps bars s h is_flat unused =
      let (s', tape, played, calls, traced, sound, t) = replay-Tape bars [] s h in
      let t' : Tape p flat 0 tape (phase s') (seq s') = rw (is_flat, unused) at t in
      (
        s',
        tape,
        played,
        calls,
        traced,
        sound,
        t',
        omega (arith, Tape-length p flat 0 tape (phase s') (seq s') t'),
        sym (zero-+ℤ _) ∙ Tape-net p flat 0 tape (phase s') (seq s') t',
      )
