-- ===== src/Base/Sorting.antt =====
-- Python's `sorted` and the elements of a set, under names of the language.
use Prim.Native.Nat.{ℕ}
use mathlib.Core.Path.{◌≡◌}
use mathlib.Core.Logic.{inl, inr}
use mathlib.Core.Bool.{Bool, true, false}
use mathlib.Core.List.{List, [], ◌∷◌}
use open_quant_studio.Base.Lists.{All}
use open_quant_studio.Base.Tests.{◌==◌, if◌then◌else◌, Bool-cases}

module _ {ℓ} {A : Type ℓ} (leb : A → A → Bool) where
  unfoldable pub insert_sorted : A → List A → List A
  insert_sorted x [] = x ∷ []
  insert_sorted x (y ∷ ys) = if leb x y then x ∷ y ∷ ys else y ∷ insert_sorted x ys

  -- `sorted`, which is stable; `leb` compares the keys of two elements.
  unfoldable pub sorted : List A → List A
  sorted [] = []
  sorted (x ∷ xs) = insert_sorted x (sorted xs)

  -- Each key is at most the next one.
  abbrev pub IsSorted : List A → Type 0
  IsSorted [] = Unit
  IsSorted (x ∷ []) = Unit
  IsSorted (x ∷ y ∷ ys) = (leb x y ≡ true) × IsSorted (y ∷ ys)

  insert-All {κ} :
      (P : A → Type κ) (x : A) (xs : List A) → P x → All P xs → All P (insert_sorted x xs)
  unfolding insert_sorted
  insert-All P x [] h a = (h, tt)
  insert-All P x (y ∷ ys) h a = elim (Bool-cases (leb x y)) [
    | inl e ↦ rw e (h, a)
    | inr e ↦ rw e (a.0, insert-All P x ys h a.1)
  ]

  pub sorted-All {κ} : (P : A → Type κ) (xs : List A) → All P xs → All P (sorted xs)
  unfolding sorted
  sorted-All P [] a = tt
  sorted-All P (x ∷ xs) a = insert-All P x (sorted xs) a.0 (sorted-All P xs a.1)

  module _ (total : (x y : A) → leb x y ≡ false → leb y x ≡ true) where
    insert-IsSorted : (x : A) (xs : List A) → IsSorted xs → IsSorted (insert_sorted x xs)
    unfolding insert_sorted
    insert-IsSorted x [] s = tt
    insert-IsSorted x (y ∷ []) s = elim (Bool-cases (leb x y)) [
      | inl e ↦ rw e (e, tt)
      | inr e ↦ rw e (total x y e, tt)
    ]
    insert-IsSorted x (y ∷ z ∷ zs) s = elim (Bool-cases (leb x y)) [
      | inl e ↦ rw e (e, s)
      | inr e ↦ rw e (behind x y z zs (total x y e) s.0 (insert-IsSorted x (z ∷ zs) s.1))
    ]
      where
        behind :
            (x y z : A) (zs : List A)
            → leb y x ≡ true
            → leb y z ≡ true
            → IsSorted (insert_sorted x (z ∷ zs))
            → IsSorted (y ∷ insert_sorted x (z ∷ zs))
        behind x y z zs h k s = elim (Bool-cases (leb x z)) [
          | inl e ↦ rw e (h, rw e at s)
          | inr e ↦ rw e (k, rw e at s)
        ]

    pub sorted-IsSorted : (xs : List A) → IsSorted (sorted xs)
    unfolding sorted
    sorted-IsSorted [] = tt
    sorted-IsSorted (x ∷ xs) = insert-IsSorted x (sorted xs) (sorted-IsSorted xs)

abbrev holds : ℕ → List ℕ → Bool
holds x [] = false
holds x (y ∷ ys) = if x == y then true else holds x ys

-- The elements of `set(xs)`, each once.
unfoldable pub distinct : List ℕ → List ℕ
distinct [] = []
distinct (x ∷ xs) = let rest = distinct xs in if holds x xs then rest else x ∷ rest
