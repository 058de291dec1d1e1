-- ===== src/Data/Atoms.antt =====
-- The prices of accepted rows, in atoms.
use open_quant_studio.Base.{sym, ap, ◌∙◌, ℕ, ◌<◌, ◌≡◌, some, List, [], ◌∷◌, arith, All}
use native.Mathlib.Nat.{mul-pos}
use mathlib.Core.Path.{subst}
use open_quant_studio.Base.Int.{pos, negsuc, ◌<ℤ◌, ◌≤ℤ◌}
use open_quant_studio.Data.Decimal.{Decimal, gap, with_sign, atoms_of}
use open_quant_studio.Data.Ordered.{value_of, pow-pos}
use open_quant_studio.Data.Exact.{atoms_of_lem}
use open_quant_studio.Data.Rows.{
  Number, refused, finite, Row, Normalized, Values, accepted, normalize_rows, normalized_row,
}
use open_quant_studio.Data.Bars.{IsPrice, IsBar, IsAccepted, AllAccepted}
use open_quant_studio.Data.Accepted.{normalize_accepted}

-- A number of at most 24 digits.
abbrev pub IsShort : Number → Type 0
IsShort refused = Unit
IsShort (finite d) = d.coefficient < 1_000_000_000_000_000_000_000_000

abbrev pub HasShortPrices : Row → Type 0
HasShortPrices row =
    IsShort row.open_cell × IsShort row.high_cell × IsShort row.low_cell × IsShort row.close_cell

-- Atoms above zero with the low below and the high above the others.
abbrev pub IsOrderedBar : Normalized → Type 0
IsOrderedBar n =
    (pos 0 <ℤ n.low_atoms)
    × (n.low_atoms ≤ℤ n.open_atoms)
    × (n.low_atoms ≤ℤ n.close_atoms)
    × (n.open_atoms ≤ℤ n.high_atoms)
    × (n.close_atoms ≤ℤ n.high_atoms)

price_atoms : (d : Decimal) → IsPrice d → IsShort (finite d) → atoms_of d ≡ pos (value_of d)
price_atoms d (plus, above, fine) short =
    atoms_of_lem d fine short ∙ ap (λ b. with_sign b (value_of d)) plus

value-pos : (d : Decimal) → IsPrice d → 0 < value_of d
value-pos d (plus, above, fine) = mul-pos above (pow-pos (gap d.exponent (negsuc 3)))

bar_atoms :
    (t symbol : ℕ) (v : Values)
    → IsBar v
    → IsShort (finite v.open_price)
    → IsShort (finite v.high_price)
    → IsShort (finite v.low_price)
    → IsShort (finite v.close_price)
    → IsOrderedBar (normalized_row t symbol v)
bar_atoms t symbol v (o, h, l, c, volume, fine, oh, ch, lo, lc) so sh sl sc =
    let low = value-pos v.low_price l in
    rw
      (
        price_atoms v.open_price o so,
        price_atoms v.high_price h sh,
        price_atoms v.low_price l sl,
        price_atoms v.close_price c sc,
      )
      (omega arith, omega arith, omega arith, omega arith, omega arith)

accepted_atoms :
    (row : Row) (n : Normalized) → HasShortPrices row → IsAccepted row n → IsOrderedBar n
accepted_atoms row n short (v, read, same, bar) =
    let (so, sh, sl, sc) = subst HasShortPrices read short in
    subst IsOrderedBar (sym same) (bar_atoms n.timestamp n.symbol v bar so sh sl sc)

All-IsOrderedBar :
    (rows : List Row) (out : List Normalized)
    → All HasShortPrices rows
    → AllAccepted rows out
    → All IsOrderedBar out
All-IsOrderedBar [] [] short ok = tt
All-IsOrderedBar [] (n ∷ out) short ok = elim ok [ ]
All-IsOrderedBar (row ∷ rows) [] short ok = elim ok [ ]
All-IsOrderedBar (row ∷ rows) (n ∷ out) short ok =
    (accepted_atoms row n short.0 ok.0, All-IsOrderedBar rows out short.1 ok.1)

-- When rows whose prices have at most 24 digits are accepted, each low in atoms is above zero and at
-- most the open and the close, and these are at most the high.
pub normalize_ordered :
    (rows : List Row) (out : List Normalized)
    → All HasShortPrices rows
    → normalize_rows rows ≡ some (accepted out)
    → All IsOrderedBar out
normalize_ordered rows out short h =
    All-IsOrderedBar rows out short (normalize_accepted rows out h).0
