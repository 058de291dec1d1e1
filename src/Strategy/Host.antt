-- ===== src/Strategy/Host.antt =====
-- What the catalog's strategies and the host exchange: bars, order intents, and the sequential
-- release of bars. Only the fields of a bar that a strategy reads are kept.
use Prim.Native.String.{String}
use open_quant_studio.Base.{
  ℕ, List, [], ◌∷◌, ◌++◌, Option, none, some, ◌>>=◌, Bool, ◌≡◌, refl, arith,
}
use open_quant_studio.Base.Int.{ℤ, max_ℤ, min_ℤ}

pub data Side : Type 0 where
  buy sell : Side

-- "open" and "close"
pub data PositionEffect : Type 0 where
  opening closing : PositionEffect

-- The dict that `order` returns. `intent_id` holds the two parts that the f-string joins by a colon,
-- and `quantity` the number whose decimal text the dict holds.
pub record Intent : Type 0 where
  pub intent_id : String × ℕ
  pub intent_seq : ℕ
  pub symbol : String
  pub side : Side
  pub position_effect : PositionEffect
  pub quantity : ℕ
  pub order_type : String
  pub limit_price_atoms : Option ℤ
  pub stop_price_atoms : Option ℤ
  pub time_in_force : String
  pub oco_group : Option String

pub record Bar : Type 0 where
  pub session_seq : ℕ
  pub symbol : String
  pub close_atoms : ℤ
  pub session_end : Bool

-- `max(xs)` and `min(xs)`, which raise on the empty list.
unfoldable pub maximum : List ℤ → Option ℤ
maximum [] = none
maximum (x ∷ []) = some x
maximum (x ∷ y ∷ xs) = maximum (y ∷ xs) >>= λ m. some (max_ℤ x m)

unfoldable pub minimum : List ℤ → Option ℤ
minimum [] = none
minimum (x ∷ []) = some x
minimum (x ∷ y ∷ xs) = minimum (y ∷ xs) >>= λ m. some (min_ℤ x m)

pub maximum-cons : (x : ℤ) (xs : List ℤ) → (m : ℤ) × (maximum (x ∷ xs) ≡ some m)
unfolding maximum
maximum-cons x [] = (x, refl)
maximum-cons x (y ∷ xs) = let (m, e) = maximum-cons y xs in (max_ℤ x m, rw e refl)

pub minimum-cons : (x : ℤ) (xs : List ℤ) → (m : ℤ) × (minimum (x ∷ xs) ≡ some m)
unfolding minimum
minimum-cons x [] = (x, refl)
minimum-cons x (y ∷ xs) = let (m, e) = minimum-cons y xs in (min_ℤ x m, rw e refl)

pub maximum-snoc :
    (xs : List ℤ) (m x : ℤ) → maximum xs ≡ some m → maximum (xs ++ x ∷ []) ≡ some (max_ℤ m x)
unfolding maximum
maximum-snoc [] m x h = cc
maximum-snoc (y ∷ []) m x h = ground arith
maximum-snoc (y ∷ z ∷ xs) m x h =
    let (n, e) = maximum-cons z xs in rw (maximum-snoc (z ∷ xs) n x e) (ground (arith, e))

-- The host releases the bars one at a time; the intents of each are appended to the tape.
module _ {S : Type 0} (on_bar : Bar → S → Option (S × List Intent)) where
  unfoldable pub replay : List Bar → S → Option (S × List Intent)
  replay [] s = some (s, [])
  replay (bar ∷ bars) s = do
    (s', intents) ← on_bar bar s
    (s'', tape) ← replay bars s'
    some (s'', intents ++ tape)

  -- The bars, each with the intents of its call.
  unfoldable pub trace : List Bar → S → Option (List (Bar × List Intent))
  trace [] s = some []
  trace (bar ∷ bars) s = do
    (s', intents) ← on_bar bar s
    calls ← trace bars s'
    some ((bar, intents) ∷ calls)
