-- ===== src/Domain/Table.antt =====
-- The SQL statements that the domain service executes, over a table as the list of its rows in the
-- order of insertion: SELECT … fetchone(), UPDATE … WHERE with its rowcount, COUNT(*).
use mathlib.Core.Path.{subst}
use open_quant_studio.Base.{
  sym, ap, ◌∙◌, ℕ, ◌+◌, ◌≡◌, refl, inl, inr, Bool, true, false, Option, none, some, List, [], ◌∷◌,
  ◌++◌, arith, if◌then◌else◌, length, All, Bool-cases,
}

module _ {ℓ} {R : Type ℓ} where
  -- SELECT … WHERE p, fetchone()
  abbrev pub find? : (R → Bool) → List R → Option R
  find? p [] = none
  find? p (r ∷ t) = if p r then some r else find? p t

  abbrev pub exists? : (R → Bool) → List R → Bool
  exists? p t = elim (find? p t) [ some _ ↦ true | none ↦ false ]

  -- UPDATE … SET f WHERE p
  abbrev pub update : (R → Bool) → (R → R) → List R → List R
  update p f [] = []
  update p f (r ∷ t) = (if p r then f r else r) ∷ update p f t

  -- COUNT(*) … WHERE p, and the rowcount of an UPDATE
  abbrev pub count_rows : (R → Bool) → List R → ℕ
  count_rows p [] = 0
  count_rows p (r ∷ t) = (if p r then 1 else 0) + count_rows p t

module _ {ℓ} {R : Type ℓ} where
  pub find?-holds : (p : R → Bool) (t : List R) (r : R) → find? p t ≡ some r → p r ≡ true
  find?-holds p [] r h = cc
  find?-holds p (x ∷ t) r h = ground (arith, find?-holds p t r)

  pub find?-All {κ} :
      (P : R → Type κ) (p : R → Bool) (t : List R) (r : R) → All P t → find? p t ≡ some r → P r
  find?-All P p [] r a h = cc
  find?-All P p (x ∷ t) r a h = elim (Bool-cases (p x)) [
    | inl e ↦ let same : some x ≡ some r = rw e at h in let same' : x ≡ r = cc in subst P same' a.0
    | inr e ↦ find?-All P p t r a.1 (rw e at h)
  ]

  pub All-update {κ} :
      (P : R → Type κ) (p : R → Bool) (f : R → R) (t : List R)
      → ((r : R) → p r ≡ true → P r → P (f r))
      → All P t
      → All P (update p f t)
  All-update P p f [] keep a = tt
  All-update P p f (x ∷ t) keep a = elim (Bool-cases (p x)) [
    | inl e ↦ rw e (keep x e a.0, All-update P p f t keep a.1)
    | inr e ↦ rw e (a.0, All-update P p f t keep a.1)
  ]

  pub All-snoc {κ} : (P : R → Type κ) (t : List R) (r : R) → All P t → P r → All P (t ++ r ∷ [])
  All-snoc P [] r a h = (h, tt)
  All-snoc P (x ∷ t) r a h = (a.0, All-snoc P t r a.1 h)

  pub length-update : (p : R → Bool) (f : R → R) (t : List R) → length (update p f t) ≡ length t
  length-update p f [] = refl
  length-update p f (x ∷ t) = ground (arith, length-update p f t)

  -- An UPDATE that leaves the key of `q` alone is seen by the next SELECT.
  pub find?-update :
      (q p : R → Bool) (f : R → R) (t : List R) (r : R)
      → ((x : R) → q (f x) ≡ q x)
      → find? q t ≡ some r
      → p r ≡ true
      → find? q (update p f t) ≡ some (f r)
  find?-update q p f [] r same h e = cc
  find?-update q p f (x ∷ t) r same h e = elim (Bool-cases (q x)) [
    | inl found ↦
        let here : some x ≡ some r = rw found at h in
        let here' : x ≡ r = cc in rw (here', e, same r ∙ ap q (sym here') ∙ found) refl
    | inr other ↦ ground (arith, same x, find?-update q p f t r same, other)
  ]

  -- An UPDATE of other rows is not seen.
  pub find?-update_ne :
      (q p : R → Bool) (f : R → R) (t : List R)
      → ((x : R) → q (f x) ≡ q x)
      → ((x : R) → q x ≡ true → p x ≡ false)
      → find? q (update p f t) ≡ find? q t
  find?-update_ne q p f [] same apart = refl
  find?-update_ne q p f (x ∷ t) same apart =
      ground (arith, same x, apart x, find?-update_ne q p f t same apart)

  -- A SELECT after an INSERT of the first row that fits.
  pub find?-snoc :
      (p : R → Bool) (t : List R) (r : R)
      → find? p t ≡ none
      → p r ≡ true
      → find? p (t ++ r ∷ []) ≡ some r
  find?-snoc p [] r h e = rw e refl
  find?-snoc p (x ∷ t) r h e = ground (arith, find?-snoc p t r)
