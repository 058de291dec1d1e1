-- ===== src/Base/Context.antt =====
-- The default context of Python's decimal numbers.
use Prim.Native.Nat.{ℕ, zero, suc, ◌*◌, ◌/◌, ◌%◌, ◌<◌, ◌≤◌, ◌^◌}
use mathlib.Core.Path.{◌≡◌, ap, sym, ◌∙◌}
use mathlib.Core.Logic.{inl, inr}
use mathlib.Core.Bool.{◌&&◌, ◌||◌}
use native.Mathlib.Omega.{arith}
use native.Mathlib.Nat.{pow-succ', pow-zero, div-div-eq-div-mul}
use open_quant_studio.Base.Tests.{ltb, ◌==◌, if◌then◌else◌, Bool-cases}

-- A product is rounded to the 28 digits of the default context, half to even.
abbrev pub precision_limit : ℕ
precision_limit = 10_000_000_000_000_000_000_000_000_000

unfoldable pub excess_digits : ℕ → ℕ → ℕ
excess_digits zero n = 0
excess_digits (suc fuel) n =
    let rest = excess_digits fuel (n / 10) in if ltb n precision_limit then 0 else suc rest

abbrev half_even : ℕ → ℕ → ℕ
half_even n unit =
    let q = n / unit in
    let r = n % unit in
    if ltb unit (2 * r) || unit == 2 * r && q % 2 == 1 then suc q * unit else q * unit

unfoldable pub rounded : ℕ → ℕ
rounded n = if ltb n precision_limit then n else half_even n (10 ^ excess_digits n n)

excess-bounds : (fuel n : ℕ) → n ≤ fuel → n / 10 ^ excess_digits fuel n < precision_limit
unfolding excess_digits
excess-bounds zero n h = ground (arith, pow-zero 10)
excess-bounds (suc fuel) n h = elim (Bool-cases (ltb n precision_limit)) [
  | inl e ↦ rw e (ground (arith, pow-zero 10))
  | inr e ↦ rw e (
      let shift : n / 10 ^ suc (excess_digits fuel (n / 10))
          ≡ n / 10 / 10 ^ excess_digits fuel (n / 10) =
        ap (λ d. n / d) (pow-succ' 10 (excess_digits fuel (n / 10)))
        ∙ sym (div-div-eq-div-mul n 10 (10 ^ excess_digits fuel (n / 10))) in
      rw shift (excess-bounds fuel (n / 10) (ground arith)))
]

-- The fuel of the count of excess digits is enough: without them, a product has at most the 28
-- digits of the context.
excess_digits_lem : (n : ℕ) → n / 10 ^ excess_digits n n < precision_limit
excess_digits_lem n = excess-bounds n n (omega arith)

pub rounded-id : (n : ℕ) → n < precision_limit → rounded n ≡ n
unfolding rounded
rounded-id n h = ground arith
