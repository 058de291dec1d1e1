-- ===== src/Data/Accepted.antt =====
-- What the rows of a file are like when `_normalize_rows` accepts them.
use open_quant_studio.Base.{
  sym, ap, ◌∙◌, ℕ, suc, ◌≤◌, ◌==◌, ◌≡◌, refl, inl, inr, false, Option, none, some, >>=-eq-some,
  List, [], ◌∷◌, ◌++◌, append_assoc, append-nil, arith, All, All-map, Bool-cases,
}
use mathlib.Core.Path.{subst}
use open_quant_studio.Domain.Table.{All-snoc}
use open_quant_studio.Data.Decimal.{is_unprintable}
use open_quant_studio.Data.Rows.{
  Detail, Row, Values, Normalized, Loop, values_of, previous_of, is_late, order_details,
  price_details, atoms_details, any_value, checked_loop, normalized_row, checked, read_into, step,
  run_rows, accepted, verdict_of, normalize_rows, moment_of,
}
use open_quant_studio.Data.Bars.{
  reading, IsAccepted, AllAccepted, IsFollowedBy, Increasing, append-none, complain-none,
  reading_lem, bar_lem,
}

-- The dictionary has a time for the symbol of the row, and no earlier one.
abbrev IsKnown : List (ℕ × ℕ) → Normalized → Type 0
IsKnown entries n = (t : ℕ) × (previous_of n.symbol entries ≡ some t) × (n.timestamp ≤ t)

abbrev IsOrdered : Loop → Type 0
IsOrdered loop =
    Increasing loop.normalized × All (IsKnown loop.previous_timestamp_by_symbol) loop.normalized

Increasing-snoc :
    (ns : List Normalized) (n : Normalized)
    → Increasing ns
    → All (λ (m : Normalized). IsFollowedBy m n) ns
    → Increasing (ns ++ n ∷ [])
Increasing-snoc [] n i a = (tt, tt)
Increasing-snoc (m ∷ ns) n i a =
    (All-snoc (IsFollowedBy m) ns n i.0 a.0, Increasing-snoc ns n i.1 a.1)

-- A row that is not late follows the rows that the dictionary knows.
known-IsFollowedBy :
    (entries : List (ℕ × ℕ)) (m n : Normalized)
    → is_late n.timestamp (previous_of n.symbol entries) ≡ false
    → IsKnown entries m
    → IsFollowedBy m n
known-IsFollowedBy entries m n h (t, e, le) = elim (Bool-cases (m.symbol == n.symbol)) [
  | inl same ↦
      let eq : m.symbol ≡ n.symbol = ground arith in
      let known : previous_of n.symbol entries ≡ some t = rw eq at e in
      inr (ground (arith, rw known at h))
  | inr other ↦ inl (ground arith)
]

-- An entry for a row that is not late keeps the rows known.
entry-IsKnown :
    (entries : List (ℕ × ℕ)) (m n : Normalized)
    → IsFollowedBy m n
    → IsKnown entries m
    → IsKnown ((n.symbol, n.timestamp) ∷ entries) m
unfolding previous_of
entry-IsKnown entries m n f (t, e, le) = elim (Bool-cases (n.symbol == m.symbol)) [
  | inl same ↦ (n.timestamp, rw same refl, ground arith)
  | inr other ↦ (t, rw other e, le)
]

newest-IsKnown :
    (entries : List (ℕ × ℕ)) (n : Normalized) → IsKnown ((n.symbol, n.timestamp) ∷ entries) n
unfolding previous_of
newest-IsKnown entries n = (n.timestamp, ground arith, omega arith)

checked-details :
    (index t symbol : ℕ) (v : Values) (loop next : Loop)
    → checked index t symbol v loop ≡ some next
    → next.details ≡ []
    → (any_value is_unprintable v ≡ false)
      × (loop.details ≡ [])
      × (order_details index t symbol loop ≡ [])
      × (price_details index v ≡ [])
      × (atoms_details index v ≡ [])
unfolding checked
checked-details index t symbol v loop next h e = elim (Bool-cases (any_value is_unprintable v)) [
  | inl raises ↦ absurd (ground (arith, rw raises at h))
  | inr fine ↦
      let result : checked_loop index t symbol v loop ≡ next = ground (arith, rw fine at h) in
      let all = ap (λ l. l.details) result ∙ e in
      let (d, rest) = append-none _ _ all in
      let (o, rest') = append-none _ _ rest in
      let (p, a) = append-none _ _ rest' in (fine, d, o, p, a)
]

-- One turn of the loop that leaves no detail.
checked_lem :
    (index t symbol : ℕ) (v : Values) (loop next : Loop)
    → checked index t symbol v loop ≡ some next
    → next.details ≡ []
    → IsOrdered loop
    → (n : Normalized) × (next.normalized ≡ loop.normalized ++ n ∷ [])
      × IsAccepted (reading t symbol v) n
      × IsOrdered next
unfolding checked order_details
checked_lem index t symbol v loop next h e ordered =
    let (fine, d, o, p, a) = checked-details index t symbol v loop next h e in
    let (bar, exact) = bar_lem index v p a in
    let late : is_late t (previous_of symbol loop.previous_timestamp_by_symbol) ≡ false =
      complain-none _ _ (append-none _ _ o).0 in
    let n = normalized_row t symbol v in
    let result : checked_loop index t symbol v loop ≡ next = ground (arith, rw fine at h) in
    let rows : next.normalized ≡ loop.normalized ++ n ∷ [] =
      ap (λ l. l.normalized) (sym result) ∙ (rw exact refl) in
    let entries : next.previous_timestamp_by_symbol
        ≡ (symbol, t) ∷ loop.previous_timestamp_by_symbol =
      ap (λ l. l.previous_timestamp_by_symbol) (sym result) in
    let follow : All (λ (m : Normalized). IsFollowedBy m n) loop.normalized =
      All-map _ _ loop.normalized
        (λ m k. known-IsFollowedBy loop.previous_timestamp_by_symbol m n late k) ordered.1 in
    (
      n,
      rows,
      (v, refl, refl, bar),
      rw (rows, entries)
          (
            Increasing-snoc loop.normalized n ordered.0 follow,
            All-snoc _ loop.normalized n
                (All-map _ _ loop.normalized
                  (λ m k.
                    entry-IsKnown loop.previous_timestamp_by_symbol m n
                      (known-IsFollowedBy loop.previous_timestamp_by_symbol m n late k) k)
                  ordered.1)
                (newest-IsKnown loop.previous_timestamp_by_symbol n),
          ),
    )

step-details :
    (index : ℕ) (t symbol : Option ℕ) (v : Option Values) (loop next : Loop)
    → step index t symbol v loop ≡ some next
    → next.details ≡ []
    → loop.details ≡ []
unfolding step
step-details index (some t) (some symbol) (some v) loop next h e =
    (checked-details index t symbol v loop next h e).1
step-details index (some t) (some symbol) none loop next h e = ground arith
step-details index (some t) none v loop next h e = ground arith
step-details index none symbol v loop next h e = ground arith

run-details :
    (index : ℕ) (rows : List Row) (loop end : Loop)
    → run_rows index rows loop ≡ some end
    → end.details ≡ []
    → loop.details ≡ []
unfolding run_rows
run-details index [] loop end h e = ground arith
run-details index (row ∷ rows) loop end h e =
    let (next, stepped, ran) = >>=-eq-some _ _ h in
    let before =
      step-details index _ _ _ _ next stepped (run-details (suc index) rows next end ran e) in
    (append-none _ _ before).0

step_lem :
    (index : ℕ) (row : Row) (loop next : Loop)
    → step index (moment_of row.moment) row.symbol (values_of row) (read_into index row loop)
      ≡ some next
    → next.details ≡ []
    → IsOrdered loop
    → (n : Normalized) × (next.normalized ≡ loop.normalized ++ n ∷ [])
      × IsAccepted row n
      × IsOrdered next
unfolding step values_of
step_lem index row loop next h e ordered =
    let before = step-details index _ _ _ _ next h e in
    let (t, symbol, v, same) =
      reading_lem index row.moment row.symbol row.open_cell row.high_cell row.low_cell
        row.close_cell row.volume_cell (append-none _ _ before).1 in
    rw same (
      checked_lem index t symbol v (read_into index (reading t symbol v) loop) next
        (subst
          (λ (r : Row).
            step index (moment_of r.moment) r.symbol (values_of r) (read_into index r loop)
            ≡ some next)
          same h)
        e ordered)

run_lem :
    (index : ℕ) (rows : List Row) (loop end : Loop)
    → run_rows index rows loop ≡ some end
    → end.details ≡ []
    → IsOrdered loop
    → (out : List Normalized) × (end.normalized ≡ loop.normalized ++ out)
      × AllAccepted rows out
      × IsOrdered end
unfolding run_rows
run_lem index [] loop end h e ordered =
    let same : loop ≡ end = ground arith in
    (
      [],
      ap (λ l. l.normalized) (sym same) ∙ sym (append-nil loop.normalized),
      tt,
      subst IsOrdered same ordered,
    )
run_lem index (row ∷ rows) loop end h e ordered =
    let (next, stepped, ran) = >>=-eq-some _ _ h in
    let (n, added, ok, ordered') =
      step_lem index row loop next stepped (run-details (suc index) rows next end ran e) ordered in
    let (out, rest, oks, final) = run_lem (suc index) rows next end ran e ordered' in
    (
      n ∷ out,
      rest ∙ ap (λ ns. ns ++ out) added ∙ append_assoc loop.normalized (n ∷ []) out,
      (ok, oks),
      final,
    )

accepted-none :
    (details : List Detail) (rows out : List Normalized)
    → verdict_of details rows ≡ accepted out
    → (details ≡ []) × (rows ≡ out)
accepted-none [] rows out h = (refl, ground arith)
accepted-none (d ∷ details) rows out h = absurd (ground arith)

-- When the rows of a file are accepted, none is left out: each one has an instant, a symbol, four
-- prices above zero with the low below and the high above the others and a volume not below zero,
-- all of at most four decimal places, and it is normalized at its place. The times of the rows of
-- one symbol increase strictly.
pub normalize_accepted :
    (rows : List Row) (out : List Normalized)
    → normalize_rows rows ≡ some (accepted out)
    → AllAccepted rows out × Increasing out
unfolding normalize_rows
normalize_accepted rows out h =
    let (end, ran, verdict) = >>=-eq-some (run_rows 2 rows _) _ h in
    let (clean, same) = accepted-none end.details end.normalized out (ground arith) in
    let (ns, all, ok, ordered) = run_lem 2 rows _ end ran clean (tt, tt) in
    let all_rows : ns ≡ out = sym all ∙ same in
    (subst (AllAccepted rows) all_rows ok, subst Increasing same ordered.0)
