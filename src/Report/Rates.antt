-- ===== src/Report/Rates.antt =====
-- The direction in which `_trunc_div` divides.
use open_quant_studio.Base.{ℕ, zero, suc, refl, ◌*◌, ◌/◌, ◌≤◌, ◌<◌, ◌≡◌, ◌≢◌, ◌⊎◌, arith}
use open_quant_studio.Base.Int.{ℤ, pos, negsuc, abs_ℤ, neg_ℤ}
use open_quant_studio.Report.Summary.{trunc_div, is_negative, differs}

quotient_bounds : (a b : ℕ) → 0 < b → (a / b * b ≤ a) × (a < suc (a / b) * b)
quotient_bounds a b h = grind arith

nonzero_abs : (d : ℤ) → d ≢ pos 0 → 0 < abs_ℤ d
nonzero_abs (pos zero) h = absurd (h refl)
nonzero_abs (pos (suc n)) h = omega arith
nonzero_abs (negsuc n) h = omega arith

trunc_div-abs : (n d : ℤ) → d ≢ pos 0 → abs_ℤ (trunc_div n d) ≡ abs_ℤ n / abs_ℤ d
unfolding trunc_div neg_ℤ
trunc_div-abs n d h = ground (arith, nonzero_abs d)

trunc_div_sign :
    (n d : ℤ)
    → d ≢ pos 0
    → (trunc_div n d ≡ pos 0)
      ⊎ (is_negative (trunc_div n d) ≡ differs (is_negative n) (is_negative d))
unfolding trunc_div neg_ℤ
trunc_div_sign n d h = ground (arith, nonzero_abs d)

-- By a denominator other than zero, the absolute value of `_trunc_div` is that of the exact quotient
-- rounded down, and it is zero or has the sign of the exact quotient.
pub trunc_div_bounds :
    (n d : ℤ)
    → d ≢ pos 0
    → (abs_ℤ (trunc_div n d) * abs_ℤ d ≤ abs_ℤ n)
      × (abs_ℤ n < suc (abs_ℤ (trunc_div n d)) * abs_ℤ d)
      × ((trunc_div n d ≡ pos 0)
          ⊎ (is_negative (trunc_div n d) ≡ differs (is_negative n) (is_negative d)))
trunc_div_bounds n d h =
    let (below, above) = quotient_bounds (abs_ℤ n) (abs_ℤ d) (nonzero_abs d h) in
    rw (trunc_div-abs n d h) (below, above, trunc_div_sign n d h)
