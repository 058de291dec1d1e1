-- ===== src/Data/Ordered.antt =====
-- The order of two numbers, and of their values in atoms.
use open_quant_studio.Base.{
  ℕ, zero, suc, ◌+◌, ◌-◌, ◌*◌, ◌≤◌, ◌<◌, ◌≡◌, ap, sym, ◌∙◌, true, false, arith, inl, inr, ltb,
  Bool-cases,
}
use Prim.Native.Nat.{◌^◌, min}
use native.Mathlib.Nat.{mul_assoc, mul-le-mul_right, pow-suc}
use open_quant_studio.Base.Int.{ℤ, pos, negsuc}
use open_quant_studio.Data.Decimal.{
  Decimal, gap, is_too_fine, ltb_decimal, max_decimal, min_decimal,
}

-- The value in ten-thousandths, without the sign.
abbrev pub value_of : Decimal → ℕ
value_of d = d.coefficient * 10 ^ gap d.exponent (negsuc 3)

zero_right : (a : ℕ) → a + 0 ≡ a
zero_right a = omega arith

pow_add : (a m : ℕ) → 10 ^ (a + m) ≡ 10 ^ a * 10 ^ m
pow_add a zero = omega (arith, ap (λ n. 10 ^ n) (zero_right a))
pow_add a (suc m) =
    let shift : 10 ^ (a + suc m) ≡ 10 ^ suc (a + m) = ap (λ n. 10 ^ n) (omega arith) in
    shift
    ∙ pow-suc 10 (a + m)
    ∙ ap (λ n. n * 10) (pow_add a m)
    ∙ (mul_assoc (10 ^ a) (10 ^ m) 10 ∙ ap (λ n. 10 ^ a * n) (sym (pow-suc 10 m)))

leb_of : (x y : ℕ) → ltb (x + 0) (y + 0) ≡ false → y ≤ x
leb_of x y h = ground arith

ltb_of : (x y : ℕ) → ltb (x + 0) (y + 0) ≡ true → x ≤ y
ltb_of x y h = ground arith

pub pow-pos : (m : ℕ) → 0 < 10 ^ m
pow-pos zero = omega arith
pow-pos (suc m) = omega (arith, pow-suc 10 m, pow-pos m)

scaled_le : (x y g h m : ℕ) → x * 10 ^ g ≤ y * 10 ^ h → x * 10 ^ (g + m) ≤ y * 10 ^ (h + m)
scaled_le x y g h m le =
    rw
      (
        pow_add g m,
        pow_add h m,
        sym (mul_assoc x (10 ^ g) (10 ^ m)),
        sym (mul_assoc y (10 ^ h) (10 ^ m)),
      )
      (mul-le-mul_right (10 ^ m) le)

-- Two exponents of at least -4, against -4.
gap_split :
    (e f : ℤ)
    → is_too_fine e ≡ false
    → is_too_fine f ≡ false
    → (m : ℕ) × (gap e (negsuc 3) ≡ gap e f + m) × (gap f (negsuc 3) ≡ gap f e + m)
gap_split (pos e) (pos f) h k = (min e f + 4, omega arith, omega arith)
gap_split (pos e) (negsuc f) h k = (3 - f, ground arith, ground arith)
gap_split (negsuc e) (pos f) h k = (3 - e, ground arith, ground arith)
gap_split (negsuc e) (negsuc f) h k = (min (3 - e) (3 - f), ground arith, ground arith)

-- What a comparison of two numbers without a sign says of their values.
abbrev pub Compares : Decimal → Decimal → Type 0
Compares a b =
    (ltb_decimal a b ≡ false → value_of b ≤ value_of a)
    × (ltb_decimal a b ≡ true → value_of a ≤ value_of b)

pub compare :
    (a b : Decimal)
    → a.is_signed ≡ false
    → b.is_signed ≡ false
    → is_too_fine a.exponent ≡ false
    → is_too_fine b.exponent ≡ false
    → Compares a b
unfolding ltb_decimal
compare a b plus plus' fine fine' =
    let (m, left, right) = gap_split a.exponent b.exponent fine fine' in
    let up : ℕ = a.coefficient * 10 ^ gap a.exponent b.exponent in
    let down : ℕ = b.coefficient * 10 ^ gap b.exponent a.exponent in
    rw (plus, plus', left, right)
      (
        λ h.
            scaled_le b.coefficient a.coefficient (gap b.exponent a.exponent)
              (gap a.exponent b.exponent) m (leb_of up down h),
        λ h.
            scaled_le a.coefficient b.coefficient (gap a.exponent b.exponent)
              (gap b.exponent a.exponent) m (ltb_of up down h),
      )

-- A number that is not below the greater of two is at least each of them.
pub above-max :
    (h o c : Decimal)
    → Compares h o
    → Compares h c
    → Compares o c
    → ltb_decimal h (max_decimal o c) ≡ false
    → (value_of o ≤ value_of h) × (value_of c ≤ value_of h)
above-max h o c ho hc oc e = elim (Bool-cases (ltb_decimal o c)) [
  | inl b ↦
      let top : value_of c ≤ value_of h = hc.0 (rw b at e) in (omega (arith, oc.1 b, top), top)
  | inr b ↦
      let top : value_of o ≤ value_of h = ho.0 (rw b at e) in (top, omega (arith, oc.0 b, top))
]

-- A number that is not above the lesser of two is at most each of them.
pub below-min :
    (l o c : Decimal)
    → Compares o l
    → Compares c l
    → Compares c o
    → ltb_decimal (min_decimal o c) l ≡ false
    → (value_of l ≤ value_of o) × (value_of l ≤ value_of c)
below-min l o c ol cl co e = elim (Bool-cases (ltb_decimal c o)) [
  | inl b ↦
      let low : value_of l ≤ value_of c = cl.0 (rw b at e) in (omega (arith, co.1 b, low), low)
  | inr b ↦
      let low : value_of l ≤ value_of o = ol.0 (rw b at e) in (low, omega (arith, co.0 b, low))
]
