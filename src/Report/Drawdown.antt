-- ===== src/Report/Drawdown.antt =====
-- The maximum drawdown, by a description that needs no running peak.
use open_quant_studio.Base.{sym, ap, ◌∙◌, ◌≡◌, refl, List, [], ◌∷◌, map, arith}
use open_quant_studio.Base.Int.{ℤ, pos, ◌-ℤ◌, ◌≤ℤ◌, max_ℤ, min_ℤ, -ℤ_parts}
use open_quant_studio.Report.Input.{Point}
use open_quant_studio.Report.Summary.{Drawdown, step_drawdown, run_drawdown, drawdown_of}

abbrev pub equities : List Point → List ℤ
equities = map (λ (p : Point). p.equity_atoms)

-- The lowest of zero and the differences of the later values against `x`.
abbrev pub lowest_from : ℤ → List ℤ → ℤ
lowest_from x [] = pos 0
lowest_from x (y ∷ ys) = min_ℤ (y -ℤ x) (lowest_from x ys)

-- The lowest of zero and every difference of a later value against an earlier one.
abbrev pub deepest_fall : List ℤ → ℤ
deepest_fall [] = pos 0
deepest_fall (x ∷ xs) = min_ℤ (lowest_from x xs) (deepest_fall xs)

minus-max : (x y z : ℤ) → z -ℤ max_ℤ x y ≡ min_ℤ (z -ℤ x) (z -ℤ y)
minus-max x y z = ground (arith, -ℤ_parts z x, -ℤ_parts z y)

min_swap : (a b c d : ℤ) → min_ℤ (min_ℤ a b) (min_ℤ c d) ≡ min_ℤ (min_ℤ a c) (min_ℤ b d)
min_swap a b c d = ground arith

lowest_from-max :
    (x y : ℤ) (ys : List ℤ)
    → lowest_from (max_ℤ x y) ys ≡ min_ℤ (lowest_from x ys) (lowest_from y ys)
lowest_from-max x y [] = refl
lowest_from-max x y (z ∷ ys) =
    rw (lowest_from-max x y ys, minus-max x y z)
      (min_swap (z -ℤ x) (z -ℤ y) (lowest_from x ys) (lowest_from y ys))

minus_peak : (x y : ℤ) → y -ℤ max_ℤ x y ≡ min_ℤ (y -ℤ x) (pos 0)
minus_peak x y = ground (arith, -ℤ_parts y x, -ℤ_parts y y)

min_assoc : (a b c : ℤ) → min_ℤ (min_ℤ a b) c ≡ min_ℤ a (min_ℤ b c)
min_assoc a b c = ground arith

min_absorb : (a : ℤ) → a ≤ℤ pos 0 → min_ℤ (pos 0) a ≡ a
min_absorb a h = ground arith

min_le : (l m f : ℤ) → l ≤ℤ pos 0 → min_ℤ (min_ℤ l m) f ≤ℤ pos 0
min_le l m f h = ground arith

-- One step of the loop, in terms of what is left of the curve: `l` from the old peak, `m` from the
-- new value, `f` within the rest.
fall_step :
    (x y d l m f : ℤ)
    → d ≤ℤ pos 0
    → l ≤ℤ pos 0
    → min_ℤ (min_ℤ d (y -ℤ max_ℤ x y)) (min_ℤ (min_ℤ l m) f)
      ≡ min_ℤ d (min_ℤ (min_ℤ (y -ℤ x) l) (min_ℤ m f))
fall_step x y d l m f h k =
    let a = y -ℤ x in
    let rest = min_ℤ (min_ℤ l m) f in
    ap (λ t. min_ℤ (min_ℤ d t) rest) (minus_peak x y)
    ∙ min_assoc d (min_ℤ a (pos 0)) rest
    ∙ ap (min_ℤ d) (
        min_assoc a (pos 0) rest
        ∙ ap (min_ℤ a) (min_absorb rest (min_le l m f k) ∙ min_assoc l m f)
        ∙ sym (min_assoc a l (min_ℤ m f)))

lowest_from_le : (x : ℤ) (ys : List ℤ) → lowest_from x ys ≤ℤ pos 0
lowest_from_le x [] = omega arith
lowest_from_le x (y ∷ ys) = ground (arith, lowest_from_le x ys)

step_le :
    (d : Drawdown) (y : ℤ) → d.max_drawdown ≤ℤ pos 0 → (step_drawdown y d).max_drawdown ≤ℤ pos 0
step_le d y h = ground arith

run-fall :
    (curve : List Point) (d : Drawdown)
    → d.max_drawdown ≤ℤ pos 0
    → (run_drawdown curve d).max_drawdown
      ≡ min_ℤ d.max_drawdown (deepest_fall (d.peak_equity ∷ equities curve))
unfolding run_drawdown
run-fall [] d h = ground arith
run-fall (point ∷ curve) d h =
    let x = d.peak_equity in
    let y = point.equity_atoms in
    let rest = equities curve in
    run-fall curve (step_drawdown y d) (step_le d y h)
    ∙ ap (λ l. min_ℤ (min_ℤ d.max_drawdown (y -ℤ max_ℤ x y)) (min_ℤ l (deepest_fall rest)))
        (lowest_from-max x y rest)
    ∙ fall_step x y d.max_drawdown (lowest_from x rest) (lowest_from y rest) (deepest_fall rest) h
        (lowest_from_le x rest)

fall_le : (xs : List ℤ) → deepest_fall xs ≤ℤ pos 0
fall_le [] = omega arith
fall_le (x ∷ xs) = ground (arith, lowest_from_le x xs, fall_le xs)

-- The loop over the curve finds the deepest fall from any value to a later one, the starting equity
-- included, or zero if the curve never falls.
pub max_drawdown_lem :
    (starting_equity : ℤ) (curve : List Point)
    → (drawdown_of starting_equity curve).max_drawdown
      ≡ deepest_fall (starting_equity ∷ equities curve)
unfolding drawdown_of
max_drawdown_lem starting_equity curve =
    run-fall curve _ (omega arith) ∙ ground (arith, fall_le (starting_equity ∷ equities curve))
