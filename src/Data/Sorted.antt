-- ===== src/Data/Sorted.antt =====
-- The order in which a portfolio's sessions come.
use open_quant_studio.Base.{
  ℕ, ◌+◌, ◌/◌, ◌%◌, ◌==◌, ◌≤◌, ◌≡◌, inl, inr, true, false, some, List, [], ◌∷◌, All, arith,
  if◌then◌else◌, leb, Bool-cases, All-map, get_last?, sym, >>=-eq-some, IsSorted, sorted,
  sorted-All, sorted-IsSorted,
}
use open_quant_studio.Data.Rows.{Normalized}
use open_quant_studio.Data.Snapshot.{
  fraction_rank, text_leb, key_leb, built, Session, add_row, group_rows, sessions,
  DataSnapshotMaterial, portfolio, build_portfolio_data_snapshot,
}
use open_quant_studio.Data.Sessions.{portfolio_lem, complete_or_not}

leb_total : (x y : ℕ) → leb x y ≡ false → leb y x ≡ true
leb_total x y h = ground arith

ranked_total :
    (s f s' f' : ℕ)
    → (if s == s' then leb f f' else leb s s') ≡ false
    → (if s' == s then leb f' f else leb s' s) ≡ true
ranked_total s f s' f' h = ground arith

text_total : (t u : ℕ) → text_leb t u ≡ false → text_leb u t ≡ true
text_total t u h =
    ranked_total (t / 1_000_000) (fraction_rank t) (u / 1_000_000) (fraction_rank u) h

key_total : (a b : Normalized) → key_leb a b ≡ false → key_leb b a ≡ true
key_total a b h = ground (arith, text_total a.timestamp b.timestamp, leb_total a.symbol b.symbol)

-- The timestamp is a whole number of seconds.
abbrev pub IsWhole : Normalized → Type 0
IsWhole row = row.timestamp % 1_000_000 ≡ 0

whole_leb : (t u : ℕ) → t % 1_000_000 ≡ 0 → u % 1_000_000 ≡ 0 → text_leb t u ≡ true → t ≤ u
whole_leb t u h k e = ground arith

key_leb-le :
    (a b : Normalized) → IsWhole a → IsWhole b → key_leb a b ≡ true → a.timestamp ≤ b.timestamp
key_leb-le a b h k e = elim (Bool-cases (a.timestamp == b.timestamp)) [
  | inl s ↦ ground arith
  | inr s ↦ whole_leb a.timestamp b.timestamp h k (rw s at e)
]

-- No row comes before `lo` or before the row ahead of it.
Rises : ℕ → List Normalized → Type 0
Rises lo [] = Unit
Rises lo (row ∷ rows) = (lo ≤ row.timestamp) × Rises row.timestamp rows

sorted-Rises :
    (lo : ℕ) (row : Normalized) (rows : List Normalized)
    → lo ≤ row.timestamp
    → All IsWhole (row ∷ rows)
    → IsSorted key_leb (row ∷ rows)
    → Rises lo (row ∷ rows)
unfolding Rises
sorted-Rises lo row [] h a s = (h, tt)
sorted-Rises lo row (next ∷ rows) h a s =
    (h, sorted-Rises row.timestamp next rows (key_leb-le row next a.0 a.1.0 s.0) a.1 s.1)

Rises-of : (rows : List Normalized) → All IsWhole rows → IsSorted key_leb rows → Rises 0 rows
unfolding Rises
Rises-of [] a s = tt
Rises-of (row ∷ rows) a s = sorted-Rises 0 row rows (omega arith) a s

-- Each session is at `lo` or later, and later than the one ahead of it.
abbrev pub Climbs : ℕ → List Session → Type 0
Climbs lo [] = Unit
Climbs lo (s ∷ rest) = (lo ≤ s.timestamp) × Climbs (s.timestamp + 1) rest

abbrev Until : ℕ → List Session → Type 0
Until hi = All (λ (s : Session). s.timestamp ≤ hi)

Until-later : (lo hi : ℕ) (grouped : List Session) → lo ≤ hi → Until lo grouped → Until hi grouped
Until-later lo hi [] h u = tt
Until-later lo hi (s ∷ rest) h u = (omega (arith, u.0), Until-later lo hi rest h u.1)

module _ (row : Normalized) where
  add_row-Until :
      (grouped : List Session)
      → Until row.timestamp grouped
      → Until row.timestamp (add_row row grouped)
  unfolding add_row
  add_row-Until [] u = (omega arith, tt)
  add_row-Until (s ∷ []) u = elim (Bool-cases (s.timestamp == row.timestamp)) [
    | inl e ↦ rw e (u.0, tt)
    | inr e ↦ rw e (u.0, (omega arith, tt))
  ]
  add_row-Until (s ∷ t ∷ rest) u = (u.0, add_row-Until (t ∷ rest) u.1)

  add_row-Climbs :
      (lo : ℕ) (grouped : List Session)
      → lo ≤ row.timestamp
      → Until row.timestamp grouped
      → Climbs lo grouped
      → Climbs lo (add_row row grouped)
  unfolding add_row
  add_row-Climbs lo [] h u c = (h, tt)
  add_row-Climbs lo (s ∷ []) h u c = elim (Bool-cases (s.timestamp == row.timestamp)) [
    | inl e ↦ rw e (c.0, tt)
    | inr e ↦ rw e (c.0, (ground (arith, u.0), tt))
  ]
  add_row-Climbs lo (s ∷ t ∷ rest) h u c =
      (c.0, add_row-Climbs (s.timestamp + 1) (t ∷ rest) (omega (arith, c.1.0, u.1.0)) u.1 c.1)

group_rows-Climbs :
    (rows : List Normalized) (hi : ℕ) (grouped : List Session)
    → Rises hi rows
    → Until hi grouped
    → Climbs 0 grouped
    → Climbs 0 (group_rows rows grouped)
unfolding group_rows Rises
group_rows-Climbs [] hi grouped r u c = c
group_rows-Climbs (row ∷ rows) hi grouped r u c =
    let reached = Until-later hi row.timestamp grouped r.0 u in
    group_rows-Climbs rows row.timestamp (add_row row grouped) r.1
      (add_row-Until row grouped reached) (add_row-Climbs row 0 grouped (omega arith) reached c)

last-latest :
    (lo : ℕ) (s : Session) (rest : List Session) (last : Session)
    → Climbs lo (s ∷ rest)
    → get_last? (s ∷ rest) ≡ some last
    → All (λ (x : Session). (lo ≤ x.timestamp) × (x.timestamp ≤ last.timestamp)) (s ∷ rest)
last-latest lo s [] last c h = let same : s ≡ last = cc in rw (sym same) ((c.0, omega arith), tt)
last-latest lo s (t ∷ rest) last c h =
    let later = last-latest (s.timestamp + 1) t rest last c.1 h in
    (
      (c.0, omega (arith, later.0.0, later.0.1)),
      All-map _ _ (t ∷ rest) (λ x b. (omega (arith, b.0, c.0), b.1)) later,
    )

-- The sessions lie between the snapshot's start and its end.
abbrev pub IsWithin : DataSnapshotMaterial → List Session → Type 0
IsWithin material =
    All
      (λ (x : Session). (material.sample_start ≤ x.timestamp) × (x.timestamp ≤ material.sample_end))

portfolio-IsWithin :
    (symbols : List ℕ) (row_count : ℕ) (grouped : List Session) (material : DataSnapshotMaterial)
    → portfolio symbols row_count grouped ≡ some (built material)
    → Climbs 0 grouped
    → IsWithin material grouped
portfolio-IsWithin symbols row_count [] material h c = tt
portfolio-IsWithin symbols row_count (s ∷ rest) material h c =
    let (last, found, built_from) = >>=-eq-some (get_last? (s ∷ rest)) _ h in
    let start : material.sample_start ≡ s.timestamp = ground (arith, built_from) in
    let end : material.sample_end ≡ last.timestamp = ground (arith, built_from) in
    All-map _ _ (s ∷ rest) (λ x b. (omega (arith, start, b.0), omega (arith, end, b.1)))
      (last-latest s.timestamp s rest last (omega arith, c.1) found)

-- When every row of a portfolio is at a whole second, its snapshot's sessions are in time: each is
-- later than the one ahead of it, and all lie between the snapshot's start and its end.
pub portfolio_in_time :
    (rows : List Normalized) (symbols : List ℕ) (material : DataSnapshotMaterial)
    → All IsWhole rows
    → build_portfolio_data_snapshot rows symbols ≡ some (built material)
    → (grouped : List Session) × (material.content ≡ sessions grouped)
      × Climbs 0 grouped
      × IsWithin material grouped
unfolding build_portfolio_data_snapshot
portfolio_in_time rows symbols material whole h =
    let ordered = sorted key_leb rows in
    let grouped = group_rows ordered [] in
    let (none_missing, done) = complete_or_not _ _ material h in
    let (content, sessions_counted, rows_counted) = portfolio_lem symbols _ grouped material done in
    let rises =
      Rises-of ordered (sorted-All key_leb IsWhole rows whole)
        (sorted-IsSorted key_leb key_total rows) in
    let climbs = group_rows-Climbs ordered 0 [] rises tt tt in
    (grouped, content, climbs, portfolio-IsWithin symbols _ grouped material done climbs)
