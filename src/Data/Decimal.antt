-- ===== src/Data/Decimal.antt =====
-- data_import.py: the finite `Decimal` values, their order, and `_atoms`.
use open_quant_studio.Base.{
  ℕ, suc, ◌+◌, ◌-◌, ◌*◌, ◌/◌, ◌==◌, ◌&&◌, ◌||◌, not, Bool, true, false, if◌then◌else◌, leb, rounded,
}
use Prim.Native.Nat.{◌^◌}
use open_quant_studio.Base.Int.{ℤ, pos, negsuc, neg_ℤ, ltb_ℤ}

-- The value is the coefficient times ten to the exponent, with a sign.
pub record Decimal : Type 0 where
  pub is_signed : Bool
  pub coefficient : ℕ
  pub exponent : ℤ

abbrev pub price_scale : ℕ
price_scale = 10_000

abbrev pub is_zero : Decimal → Bool
is_zero d = d.coefficient == 0

-- `value <= 0`
abbrev pub is_at_most_zero : Decimal → Bool
is_at_most_zero d = is_zero d || d.is_signed

-- `value < 0`
abbrev pub is_below_zero : Decimal → Bool
is_below_zero d = not (is_zero d) && d.is_signed

-- By how much the first exponent exceeds the second, or zero.
abbrev pub gap : ℤ → ℤ → ℕ
gap (pos e) (pos f) = e - f
gap (pos e) (negsuc f) = e + suc f
gap (negsuc e) (pos f) = 0
gap (negsuc e) (negsuc f) = f - e

abbrev pub with_sign : Bool → ℕ → ℤ
with_sign true n = neg_ℤ (pos n)
with_sign false n = pos n

-- The order is exact: both coefficients are brought to the lower exponent.
unfoldable pub ltb_decimal : Decimal → Decimal → Bool
ltb_decimal a b =
    ltb_ℤ (with_sign a.is_signed (a.coefficient * 10 ^ gap a.exponent b.exponent))
      (with_sign b.is_signed (b.coefficient * 10 ^ gap b.exponent a.exponent))

-- `max` and `min` keep the first of two equal arguments.
abbrev pub max_decimal : Decimal → Decimal → Decimal
max_decimal a b = if ltb_decimal a b then b else a

abbrev pub min_decimal : Decimal → Decimal → Decimal
min_decimal a b = if ltb_decimal b a then b else a

-- `value.as_tuple().exponent < -4`
abbrev pub is_too_fine : ℤ → Bool
is_too_fine (pos e) = false
is_too_fine (negsuc e) = leb 4 e

-- `int(value * PRICE_SCALE)`, without the sign: truncated towards zero.
abbrev pub magnitude : ℤ → ℕ → ℕ
magnitude (pos e) product = product * 10 ^ e
magnitude (negsuc e) product = product / 10 ^ suc e

unfoldable pub atoms_of : Decimal → ℤ
atoms_of d = with_sign d.is_signed (magnitude d.exponent (rounded (d.coefficient * price_scale)))

-- `str` of an integer raises a ValueError from 4301 digits on.
unfoldable pub print_limit : ℕ
print_limit = 10 ^ 4300

unfoldable pub is_unprintable : Decimal → Bool
is_unprintable d =
    not (is_too_fine d.exponent)
    && leb print_limit (magnitude d.exponent (rounded (d.coefficient * price_scale)))
