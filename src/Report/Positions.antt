-- ===== src/Report/Positions.antt =====
-- The count of open positions, by a description that needs no dictionary.
use open_quant_studio.Base.{
  sym, ap, ◌∙◌, ℕ, ◌+◌, ◌≡◌, refl, Bool, true, false, Option, List, [], ◌∷◌, arith, if◌then◌else◌,
  inl, inr, Bool-cases,
}
use open_quant_studio.Base.Int.{ℤ, pos, eqb_ℤ}
use open_quant_studio.Domain.Table.{exists?}
use open_quant_studio.Report.Input.{Position}
use open_quant_studio.Report.Summary.{same_key, set_position, last_positions, count_open}

abbrev pub of_symbol : Option ℕ → Position → Bool
of_symbol symbol p = same_key p.symbol symbol

abbrev pub is_open : ℤ → ℕ
is_open quantity = if eqb_ℤ quantity (pos 0) then 0 else 1

-- The rows that are not zero and have no later row of their symbol.
abbrev pub final_open : List Position → ℕ
final_open [] = 0
final_open (p ∷ positions) =
    (if exists? (of_symbol p.symbol) positions then 0 else is_open p.signed_quantity)
    + final_open positions

-- The open entries of a dictionary whose keys no row sets again.
abbrev kept_open : List (Option ℕ × ℤ) → List Position → ℕ
kept_open [] positions = 0
kept_open ((key, quantity) ∷ dict) positions =
    (if exists? (of_symbol key) positions then 0 else is_open quantity) + kept_open dict positions

-- Keys are distinct.
abbrev has_key : Option ℕ → List (Option ℕ × ℤ) → Bool
has_key symbol = exists? (λ (e : Option ℕ × ℤ). same_key e.0 symbol)

abbrev IsDict : List (Option ℕ × ℤ) → Type 0
IsDict [] = Unit
IsDict ((key, quantity) ∷ dict) = (has_key key dict ≡ false) × IsDict dict

same_key→eq : (a b : Option ℕ) → same_key a b ≡ true → a ≡ b
same_key→eq a b h = ground arith

same_key_sym : (a b : Option ℕ) → same_key a b ≡ same_key b a
same_key_sym a b = ground arith

has_key-set :
    (symbol key : Option ℕ) (quantity : ℤ) (dict : List (Option ℕ × ℤ))
    → has_key key dict ≡ false
    → same_key symbol key ≡ false
    → has_key key (set_position symbol quantity dict) ≡ false
unfolding set_position
has_key-set symbol key quantity [] h e = ground arith
has_key-set symbol key quantity ((k, v) ∷ dict) h e =
    ground (arith, has_key-set symbol key quantity dict)

set-IsDict :
    (symbol : Option ℕ) (quantity : ℤ) (dict : List (Option ℕ × ℤ))
    → IsDict dict
    → IsDict (set_position symbol quantity dict)
unfolding set_position
set-IsDict symbol quantity [] law = (refl, tt)
set-IsDict symbol quantity ((k, v) ∷ dict) law = elim (Bool-cases (same_key k symbol)) [
  | inl e ↦ rw e law
  | inr e ↦ rw e (
    has_key-set symbol k quantity dict law.0 (same_key_sym symbol k ∙ e),
    set-IsDict symbol quantity dict law.1,
  )
]

same_key_refl : (a : Option ℕ) → same_key a a ≡ true
same_key_refl a = ground arith

kept-skip :
    (p : Position) (positions : List Position) (dict : List (Option ℕ × ℤ))
    → has_key p.symbol dict ≡ false
    → kept_open dict (p ∷ positions) ≡ kept_open dict positions
kept-skip p positions [] h = refl
kept-skip p positions ((k, v) ∷ dict) h =
    ground (arith, same_key_sym p.symbol k, kept-skip p positions dict)

-- Setting a key: what the dictionary keeps beyond the row itself.
set-kept :
    (p : Position) (positions : List Position) (dict : List (Option ℕ × ℤ))
    → IsDict dict
    → kept_open (set_position p.symbol p.signed_quantity dict) positions
      ≡ (if exists? (of_symbol p.symbol) positions then 0 else is_open p.signed_quantity)
        + kept_open dict (p ∷ positions)
unfolding set_position
set-kept p positions [] law = refl
set-kept p positions ((k, v) ∷ dict) law = elim (Bool-cases (same_key k p.symbol)) [
  | inl e ↦
      let same : k ≡ p.symbol = same_key→eq k p.symbol e in
      let skip = kept-skip p positions dict (ap (λ s. has_key s dict) (sym same) ∙ law.0) in
      rw same (ground (arith, skip, same_key_refl p.symbol))
  | inr e ↦
      let back = same_key_sym p.symbol k ∙ e in
      ground (arith, e, back, set-kept p positions dict law.1)
]

count_open-kept : (dict : List (Option ℕ × ℤ)) → count_open dict ≡ kept_open dict []
unfolding count_open
count_open-kept [] = refl
count_open-kept ((k, v) ∷ dict) = ap (λ n. is_open v + n) (count_open-kept dict)

last-kept :
    (positions : List Position) (dict : List (Option ℕ × ℤ))
    → IsDict dict
    → count_open (last_positions positions dict) ≡ kept_open dict positions + final_open positions
unfolding last_positions
last-kept [] dict law = omega (arith, count_open-kept dict)
last-kept (p ∷ positions) dict law =
    last-kept positions (set_position p.symbol p.signed_quantity dict)
      (set-IsDict p.symbol p.signed_quantity dict law)
    ∙ omega (arith, set-kept p positions dict law)

-- The report counts as open exactly the rows with a quantity that no later row of the same symbol
-- replaces.
pub open_positions :
    (positions : List Position) → count_open (last_positions positions []) ≡ final_open positions
open_positions positions = omega (arith, last-kept positions [] tt)
