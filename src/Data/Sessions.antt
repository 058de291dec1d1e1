-- ===== src/Data/Sessions.antt =====
-- What the sessions of a portfolio's snapshot hold.
use open_quant_studio.Base.{
  sym, ap, ◌∙◌, ℕ, suc, ◌*◌, ◌==◌, ◌≡◌, refl, inl, inr, true, Option, none, some, >>=-eq-some, List,
  [], ◌∷◌, ◌++◌, append_assoc, append-nil, map, arith, length, get_last?, length-append, All,
  Bool-cases, sorted,
}
use open_quant_studio.Data.Rows.{Normalized}
use open_quant_studio.Data.Snapshot.{
  Result, built, Bar, Session, bar_of, key_leb, add_row, group_rows, symbols_eq, symbols_in,
  first_incomplete, sessions, DataSnapshotMaterial, build_portfolio_data_snapshot,
  unless_incomplete, portfolio,
}

-- A session's bar as a row, and the rows of the sessions in their order.
abbrev pub row_of : ℕ → Bar → Normalized
row_of t bar = record {
  timestamp = t;
  symbol = bar.symbol;
  open_atoms = bar.open_atoms;
  high_atoms = bar.high_atoms;
  low_atoms = bar.low_atoms;
  close_atoms = bar.close_atoms;
  volume_atoms = bar.volume_atoms;
}

abbrev pub rows_of : List Session → List Normalized
rows_of [] = []
rows_of (s ∷ rest) = map (row_of s.timestamp) s.bars ++ rows_of rest

map-snoc {ℓ κ} :
    {A : Type ℓ} {B : Type κ} (f : A → B) (xs : List A) (x : A)
    → map f (xs ++ x ∷ []) ≡ map f xs ++ f x ∷ []
map-snoc f [] x = refl
map-snoc f (y ∷ xs) x = ap (λ t. f y ∷ t) (map-snoc f xs x)

row_of-bar_of : (t : ℕ) (row : Normalized) → t ≡ row.timestamp → row_of t (bar_of row) ≡ row
row_of-bar_of t row e = ap (λ u. row_of u (bar_of row)) e

rows_of-add_row :
    (row : Normalized) (grouped : List Session)
    → rows_of (add_row row grouped) ≡ rows_of grouped ++ row ∷ []
unfolding add_row
rows_of-add_row row [] = refl
rows_of-add_row row (s ∷ []) = elim (Bool-cases (s.timestamp == row.timestamp)) [
  | inl e ↦
      let same : s.timestamp ≡ row.timestamp = ground arith in
      rw e (
        append-nil (map (row_of s.timestamp) (s.bars ++ bar_of row ∷ []))
        ∙ map-snoc (row_of s.timestamp) s.bars (bar_of row)
        ∙ ap (λ r. map (row_of s.timestamp) s.bars ++ r ∷ []) (row_of-bar_of s.timestamp row same)
        ∙ ap (λ t. t ++ row ∷ []) (sym (append-nil (map (row_of s.timestamp) s.bars))))
  | inr e ↦ rw e (ap (λ t. t ++ row ∷ []) (sym (append-nil (map (row_of s.timestamp) s.bars))))
]
rows_of-add_row row (s ∷ t ∷ rest) =
    ap (λ r. map (row_of s.timestamp) s.bars ++ r) (rows_of-add_row row (t ∷ rest))
    ∙ sym (append_assoc (map (row_of s.timestamp) s.bars) (rows_of (t ∷ rest)) (row ∷ []))

rows_of-group_rows :
    (rows : List Normalized) (grouped : List Session)
    → rows_of (group_rows rows grouped) ≡ rows_of grouped ++ rows
unfolding group_rows
rows_of-group_rows [] grouped = sym (append-nil (rows_of grouped))
rows_of-group_rows (row ∷ rows) grouped =
    rows_of-group_rows rows (add_row row grouped)
    ∙ ap (λ t. t ++ rows) (rows_of-add_row row grouped)
    ∙ append_assoc (rows_of grouped) (row ∷ []) rows

symbols_eq→eq : (s t : List ℕ) → symbols_eq s t ≡ true → s ≡ t
unfolding symbols_eq
symbols_eq→eq [] [] h = refl
symbols_eq→eq [] (b ∷ t) h = absurd (ground arith)
symbols_eq→eq (a ∷ s) [] h = absurd (ground arith)
symbols_eq→eq (a ∷ s) (b ∷ t) h = ground (arith, symbols_eq→eq s t)

-- The sessions whose symbols are those of the portfolio.
abbrev pub AllComplete : List ℕ → List Session → Type 0
AllComplete symbols = All (λ (s : Session). symbols_in s ≡ symbols)

complete :
    (index : ℕ) (symbols : List ℕ) (grouped : List Session)
    → first_incomplete index symbols grouped ≡ none
    → AllComplete symbols grouped
unfolding first_incomplete
complete index symbols [] h = tt
complete index symbols (s ∷ rest) h = elim (Bool-cases (symbols_eq (symbols_in s) symbols)) [
  | inl e ↦ (symbols_eq→eq (symbols_in s) symbols e, complete (suc index) symbols rest (rw e at h))
  | inr e ↦ absurd (ground (arith, rw e at h))
]

length-map {ℓ κ} :
    {A : Type ℓ} {B : Type κ} (f : A → B) (xs : List A) → length (map f xs) ≡ length xs
length-map f [] = refl
length-map f (x ∷ xs) = ap suc (length-map f xs)

length-rows_of :
    (symbols : List ℕ) (grouped : List Session)
    → AllComplete symbols grouped
    → length (rows_of grouped) ≡ length grouped * length symbols
length-rows_of symbols [] a = omega arith
length-rows_of symbols (s ∷ rest) a =
    let width : length s.bars ≡ length symbols =
      sym (length-map (λ (b : Bar). b.symbol) s.bars) ∙ ap length a.0 in
    length-append (map (row_of s.timestamp) s.bars) (rows_of rest)
    ∙ omega (arith, length-map (row_of s.timestamp) s.bars, width, length-rows_of symbols rest a.1)

pub complete_or_not :
    (verdict : Option ℕ) (outcome : Option (Result DataSnapshotMaterial))
    (material : DataSnapshotMaterial)
    → unless_incomplete verdict outcome ≡ some (built material)
    → (verdict ≡ none) × (outcome ≡ some (built material))
complete_or_not none outcome material h = (refl, h)
complete_or_not (some index) outcome material h = absurd (ground arith)

pub portfolio_lem :
    (symbols : List ℕ) (row_count : ℕ) (grouped : List Session) (material : DataSnapshotMaterial)
    → portfolio symbols row_count grouped ≡ some (built material)
    → (material.content ≡ sessions grouped)
      × (material.session_count ≡ length grouped)
      × (material.row_count ≡ row_count)
portfolio_lem symbols row_count [] material h = absurd (ground arith)
portfolio_lem symbols row_count (s ∷ grouped) material h =
    let (last, found, rest) = >>=-eq-some (get_last? (s ∷ grouped)) _ h in ground (arith, rest)

-- A portfolio's snapshot has the sorted rows in its sessions, each row once and in their order;
-- each session has every symbol once, in order, and the rows are as many as the sessions times the
-- symbols.
pub portfolio_sessions :
    (rows : List Normalized) (symbols : List ℕ) (material : DataSnapshotMaterial)
    → build_portfolio_data_snapshot rows symbols ≡ some (built material)
    → (grouped : List Session) × (material.content ≡ sessions grouped)
      × (rows_of grouped ≡ sorted key_leb rows)
      × AllComplete symbols grouped
      × (material.session_count ≡ length grouped)
      × (material.row_count ≡ material.session_count * length symbols)
unfolding build_portfolio_data_snapshot
portfolio_sessions rows symbols material h =
    let grouped = group_rows (sorted key_leb rows) [] in
    let (none_missing, done) = complete_or_not _ _ material h in
    let (content, sessions_counted, rows_counted) = portfolio_lem symbols _ grouped material done in
    let all = complete 1 symbols grouped none_missing in
    let same = rows_of-group_rows (sorted key_leb rows) [] in
    (
      grouped,
      content,
      same,
      all,
      sessions_counted,
      rows_counted
          ∙ ap length (sym same)
          ∙ length-rows_of symbols grouped all
          ∙ ap (λ n. n * length symbols) (sym sessions_counted),
    )
