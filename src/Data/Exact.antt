-- ===== src/Data/Exact.antt =====
-- When the atoms of a number are exact.
use open_quant_studio.Base.{
  ℕ, zero, suc, ◌+◌, ◌*◌, ◌<◌, ◌≡◌, ap, sym, ◌∙◌, false, arith, rounded-id,
}
use Prim.Native.Nat.{◌^◌}
use native.Mathlib.Nat.{mul_assoc, mul_comm, pow-suc}
use open_quant_studio.Base.Int.{ℤ, pos, negsuc}
use open_quant_studio.Data.Decimal.{
  Decimal, gap, price_scale, is_too_fine, magnitude, with_sign, atoms_of,
}

pow-four : (e : ℕ) → 10 ^ (e + 4) ≡ 10 ^ e * 10_000
pow-four e =
    let shift : 10 ^ (e + 4) ≡ 10 ^ suc (suc (suc (suc e))) = ap (λ n. 10 ^ n) (omega arith) in
    omega (
      arith,
      shift,
      pow-suc 10 e,
      pow-suc 10 (suc e),
      pow-suc 10 (suc (suc e)),
      pow-suc 10 (suc (suc (suc e))),
    )

magnitude-exact :
    (e : ℤ) (c : ℕ)
    → is_too_fine e ≡ false
    → magnitude e (c * price_scale) ≡ c * 10 ^ gap e (negsuc 3)
magnitude-exact (pos e) c h =
    let tail : 10 ^ (e + 4) ≡ 10 ^ e * 10_000 = pow-four e in
    mul_assoc c price_scale (10 ^ e) ∙ ap (λ n. c * n) (mul_comm price_scale (10 ^ e) ∙ sym tail)
magnitude-exact (negsuc zero) c h = omega arith
magnitude-exact (negsuc (suc zero)) c h = omega arith
magnitude-exact (negsuc (suc (suc zero))) c h = omega arith
magnitude-exact (negsuc (suc (suc (suc zero)))) c h = omega arith
magnitude-exact (negsuc (suc (suc (suc (suc e))))) c h = absurd (ground arith)

-- A number of at most four decimal places and a coefficient of at most 24 digits has exactly ten
-- thousand times its value as its atoms: they are the coefficient times ten to the exponent plus
-- four.
pub atoms_of_lem :
    (d : Decimal)
    → is_too_fine d.exponent ≡ false
    → d.coefficient < 1_000_000_000_000_000_000_000_000
    → atoms_of d ≡ with_sign d.is_signed (d.coefficient * 10 ^ gap d.exponent (negsuc 3))
unfolding atoms_of
atoms_of_lem d fine small =
    ap (λ n. with_sign d.is_signed n)
      (ap (magnitude d.exponent) (rounded-id (d.coefficient * price_scale) (omega arith))
        ∙ magnitude-exact d.exponent d.coefficient fine)
