-- ===== src/Data/Bars.antt =====
-- Rows and bars that `_normalize_rows` has nothing to say against.
use open_quant_studio.Base.{
  ℕ, ◌<◌, ◌≤◌, ◌≡◌, ◌≢◌, refl, ◌⊎◌, Bool, true, false, Option, none, some, List, [], ◌∷◌, ◌++◌,
  arith, All,
}
use open_quant_studio.Data.Decimal.{Decimal, is_at_most_zero, is_below_zero, is_too_fine}
use open_quant_studio.Data.Ordered.{value_of, Compares, compare, above-max, below-min}
use open_quant_studio.Data.Rows.{
  Detail, Moment, blank, unparsed, instant, Number, refused, finite, Row, Values, Normalized,
  complain, reading_details, price_details, atoms_details, any_value, too_fine, normalized_row,
}

-- A row whose cells are an instant, a symbol and five numbers.
abbrev pub reading : ℕ → ℕ → Values → Row
reading t symbol v = record {
  moment = instant t;
  symbol = some symbol;
  open_cell = finite v.open_price;
  high_cell = finite v.high_price;
  low_cell = finite v.low_price;
  close_cell = finite v.close_price;
  volume_cell = finite v.volume_value;
}

abbrev pub IsPrice : Decimal → Type 0
IsPrice d = (d.is_signed ≡ false) × (0 < d.coefficient) × (is_too_fine d.exponent ≡ false)

-- Prices of at most four places with the low below and the high above the others, and a volume.
abbrev pub IsBar : Values → Type 0
IsBar v =
    IsPrice v.open_price
    × IsPrice v.high_price
    × IsPrice v.low_price
    × IsPrice v.close_price
    × (is_below_zero v.volume_value ≡ false)
    × (is_too_fine v.volume_value.exponent ≡ false)
    × (value_of v.open_price ≤ value_of v.high_price)
    × (value_of v.close_price ≤ value_of v.high_price)
    × (value_of v.low_price ≤ value_of v.open_price)
    × (value_of v.low_price ≤ value_of v.close_price)

abbrev pub IsAccepted : Row → Normalized → Type 0
IsAccepted row n =
    (v : Values) × (row ≡ reading n.timestamp n.symbol v)
    × (n ≡ normalized_row n.timestamp n.symbol v)
    × IsBar v

-- Every row is accepted as the normalized row at its place.
abbrev pub AllAccepted : List Row → List Normalized → Type 0
AllAccepted [] [] = Unit
AllAccepted [] (n ∷ out) = ⊥
AllAccepted (row ∷ rows) [] = ⊥
AllAccepted (row ∷ rows) (n ∷ out) = IsAccepted row n × AllAccepted rows out

-- A later row has another symbol or a later time.
abbrev pub IsFollowedBy : Normalized → Normalized → Type 0
IsFollowedBy n later = (n.symbol ≢ later.symbol) ⊎ (n.timestamp < later.timestamp)

abbrev pub Increasing : List Normalized → Type 0
Increasing [] = Unit
Increasing (n ∷ ns) = All (IsFollowedBy n) ns × Increasing ns

pub append-none {ℓ} : {A : Type ℓ} (xs ys : List A) → xs ++ ys ≡ [] → (xs ≡ []) × (ys ≡ [])
append-none [] ys h = (refl, h)
append-none (x ∷ xs) ys h = absurd (ground arith)

pub complain-none : (b : Bool) (d : Detail) → complain b d ≡ [] → b ≡ false
complain-none true d h = absurd (ground arith)
complain-none false d h = refl

pub reading_lem :
    (index : ℕ) (m : Moment) (s : Option ℕ) (o h l c v : Number)
    → reading_details index (record {
      moment = m;
      symbol = s;
      open_cell = o;
      high_cell = h;
      low_cell = l;
      close_cell = c;
      volume_cell = v;
    })
      ≡ []
    → (t : ℕ) × (symbol : ℕ) × (values : Values) × (record {
      moment = m;
      symbol = s;
      open_cell = o;
      high_cell = h;
      low_cell = l;
      close_cell = c;
      volume_cell = v;
    }
        ≡ reading t symbol values)
unfolding reading_details
reading_lem index blank s o h l c v e = absurd (ground arith)
reading_lem index unparsed s o h l c v e = absurd (ground arith)
reading_lem index (instant t) none o h l c v e = absurd (ground arith)
reading_lem index (instant t) (some s) refused h l c v e = absurd (ground arith)
reading_lem index (instant t) (some s) (finite o) refused l c v e = absurd (ground arith)
reading_lem index (instant t) (some s) (finite o) (finite h) refused c v e = absurd (ground arith)
reading_lem index (instant t) (some s) (finite o) (finite h) (finite l) refused v e =
    absurd (ground arith)
reading_lem index (instant t) (some s) (finite o) (finite h) (finite l) (finite c) refused e =
    absurd (ground arith)
reading_lem index (instant t) (some s) (finite o) (finite h) (finite l) (finite c) (finite v) e = (
  t,
  s,
  record { open_price = o; high_price = h; low_price = l; close_price = c; volume_value = v },
  refl,
)

price_lem : (d : Decimal) → is_at_most_zero d ≡ false → is_too_fine d.exponent ≡ false → IsPrice d
price_lem d h fine = ground arith

prices-Compares : (a b : Decimal) → IsPrice a → IsPrice b → Compares a b
prices-Compares a b p q = compare a b p.0 q.0 p.2 q.2

-- A row's five numbers, when they add nothing to the details.
pub bar_lem :
    (index : ℕ) (v : Values)
    → price_details index v ≡ []
    → atoms_details index v ≡ []
    → IsBar v × (any_value too_fine v ≡ false)
unfolding price_details atoms_details
bar_lem index v p a =
    let (a1, ar1) = append-none _ _ a in
    let (a2, ar2) = append-none _ _ ar1 in
    let (a3, ar3) = append-none _ _ ar2 in
    let (a4, a5) = append-none _ _ ar3 in
    let (p1, r1) = append-none _ _ p in
    let (p2, r2) = append-none _ _ r1 in
    let (p3, r3) = append-none _ _ r2 in
    let (p4, r4) = append-none _ _ r3 in
    let (p5, r5) = append-none _ _ r4 in
    let (p6, r6) = append-none _ _ r5 in
    let (p7, p8) = append-none _ _ r6 in
    let fo = complain-none _ _ a1 in
    let fh = complain-none _ _ a2 in
    let fl = complain-none _ _ a3 in
    let fc = complain-none _ _ a4 in
    let fv = complain-none _ _ a5 in
    let o = price_lem v.open_price (complain-none _ _ p1) fo in
    let h = price_lem v.high_price (complain-none _ _ p2) fh in
    let l = price_lem v.low_price (complain-none _ _ p3) fl in
    let c = price_lem v.close_price (complain-none _ _ p4) fc in
    let (oh, ch) =
      above-max v.high_price v.open_price v.close_price (prices-Compares _ _ h o)
        (prices-Compares _ _ h c) (prices-Compares _ _ o c) (complain-none _ _ p6) in
    let (lo, lc) =
      below-min v.low_price v.open_price v.close_price (prices-Compares _ _ o l)
        (prices-Compares _ _ c l) (prices-Compares _ _ c o) (complain-none _ _ p7) in
    ((o, h, l, c, complain-none _ _ p5, fv, oh, ch, lo, lc), rw (fo, fh, fl, fc, fv) refl)
