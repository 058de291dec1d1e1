-- ===== src/Strategy/AShareRotation/Rules.antt =====
-- The rotation over complete sessions with prices above zero.
use open_quant_studio.Base.{
  ℕ, zero, suc, ◌≤◌, ◌==◌, ◌≡◌, refl, inl, inr, Bool, true, false, if◌then◌else◌, List, [], ◌∷◌,
  ◌++◌, Option, none, some, ◌>>=◌, arith, leb, length, Bool-cases, Option-cases, >>=-eq-some,
}
use open_quant_studio.Base.Int.{ℤ, pos, negsuc, ◌*ℤ◌, ◌//ℤ◌}
use open_quant_studio.Strategy.Host.{buy, sell, opening, closing}
use open_quant_studio.Strategy.AShareRotation.{
  Symbol, aaa, bbb, ccc, PortfolioBar, Order, State, on_start, symbol_eq, held_eq, order,
  momentum_bps, leader_after_completed_session, target_of, leading, rotate, trade, close_of,
  complete, note_close, on_bar, release,
}

-- What an account that holds one symbol at most takes: a purchase when it holds none, and the sale
-- of the symbol that it holds.
abbrev pub take_order : Option Symbol → Order → Option (Option Symbol)
take_order none o = elim o.side [
  | buy ↦ elim o.position_effect [ opening ↦ some (some o.symbol) | closing ↦ none ]
  | sell ↦ none
]
take_order (some held) o = elim o.side [
  | buy ↦ none
  | sell ↦ elim o.position_effect [
    | opening ↦ none
    | closing ↦ if symbol_eq o.symbol held then some none else none
  ]
]

-- What it holds after a tape.
abbrev pub settle : Option Symbol → List Order → Option (Option Symbol)
settle held [] = some held
settle held (o ∷ tape) = take_order held o >>= λ next. settle next tape

-- The closes of a session, one atom below each price.
pub record Prices : Type 0 where
  pub aaa_below : ℕ
  pub bbb_below : ℕ
  pub ccc_below : ℕ

abbrev bar_at : ℕ → Symbol → ℕ → Bool → PortfolioBar
bar_at seq symbol below session_end = record {
  session_seq = seq;
  symbol = symbol;
  close_atoms = pos (suc below);
  session_end = session_end;
}

-- The bars of the sessions, numbered from `seq`, with the end of each marked.
abbrev pub bars_of : ℕ → List Prices → List PortfolioBar
bars_of seq [] = []
bars_of seq (p ∷ sessions) =
    bar_at seq aaa p.aaa_below false
    ∷ bar_at seq bbb p.bbb_below false
    ∷ bar_at seq ccc p.ccc_below true
    ∷ bars_of (suc seq) sessions

abbrev IsPriced : List ℤ → Type 0
IsPriced [] = Unit
IsPriced (pos zero ∷ history) = ⊥
IsPriced (pos (suc n) ∷ history) = IsPriced history
IsPriced (negsuc n ∷ history) = ⊥

record IsReady (s : State) : Type 0 where
  aaa_priced : IsPriced s.aaa_history
  bbb_priced : IsPriced s.bbb_history
  ccc_priced : IsPriced s.ccc_history
  bbb_length : length s.bbb_history ≡ length s.aaa_history
  ccc_length : length s.ccc_history ≡ length s.aaa_history

symbol_eq_refl : (s : Symbol) → symbol_eq s s ≡ true
symbol_eq_refl s = ground arith

settle-append :
    (held next last : Option Symbol) (tape rest : List Order)
    → settle held tape ≡ some next
    → settle next rest ≡ some last
    → settle held (tape ++ rest) ≡ some last
settle-append held next last [] rest h k = ground (arith, h, k)
settle-append held next last (o ∷ tape) rest h k =
    let (mid, taken, settled) = >>=-eq-some (take_order held o) _ h in
    rw taken (settle-append mid next last tape rest settled k)

rotate-settle :
    (target : Option Symbol) (s : State) → settle s.held_symbol (rotate target s).1 ≡ some target
unfolding rotate order
rotate-settle none s = elim (Option-cases s.held_symbol) [
  | inl e ↦ rw e refl
  | inr (x, e) ↦ rw (e, symbol_eq_refl x) refl
]
rotate-settle (some target) s = elim (Option-cases s.held_symbol) [
  | inl e ↦ rw e refl
  | inr (x, e) ↦ rw (e, symbol_eq_refl x) refl
]

rotate-IsReady : (target : Option Symbol) (s : State) → IsReady s → IsReady (rotate target s).0
unfolding rotate order
rotate-IsReady none s ready = elim (Option-cases s.held_symbol) [
  | inl e ↦ rw e record {
    aaa_priced = ready.aaa_priced;
    bbb_priced = ready.bbb_priced;
    ccc_priced = ready.ccc_priced;
    bbb_length = ready.bbb_length;
    ccc_length = ready.ccc_length;
  }
  | inr (x, e) ↦ rw e record {
    aaa_priced = ready.aaa_priced;
    bbb_priced = ready.bbb_priced;
    ccc_priced = ready.ccc_priced;
    bbb_length = ready.bbb_length;
    ccc_length = ready.ccc_length;
  }
]
rotate-IsReady (some target) s ready = elim (Option-cases s.held_symbol) [
  | inl e ↦ rw e record {
    aaa_priced = ready.aaa_priced;
    bbb_priced = ready.bbb_priced;
    ccc_priced = ready.ccc_priced;
    bbb_length = ready.bbb_length;
    ccc_length = ready.ccc_length;
  }
  | inr (x, e) ↦ rw e record {
    aaa_priced = ready.aaa_priced;
    bbb_priced = ready.bbb_priced;
    ccc_priced = ready.ccc_priced;
    bbb_length = ready.bbb_length;
    ccc_length = ready.ccc_length;
  }
]

momentum-total :
    (now : ℤ) (history : List ℤ)
    → IsPriced history
    → 1 ≤ length history
    → (m : ℤ) × (momentum_bps (now ∷ history) ≡ some m)
unfolding momentum_bps
momentum-total now [] priced long = absurd (omega arith)
momentum-total now (pos zero ∷ history) priced long = elim priced [ ]
momentum-total now (pos (suc n) ∷ history) priced long = (now *ℤ 10_000 //ℤ suc n, ground arith)
momentum-total now (negsuc n ∷ history) priced long = elim priced [ ]

abbrev Trades : State → Type 0
Trades s =
    (next : State) × (orders : List Order) × (trade s ≡ some (next, orders))
    × IsReady next
    × (settle s.held_symbol orders ≡ some next.held_symbol)

trade-total :
    (s : State) (leader : Symbol × ℤ)
    → leader_after_completed_session s ≡ some leader
    → IsReady s
    → Trades s
unfolding trade rotate
trade-total s leader found ready = elim (Bool-cases (held_eq s.held_symbol (target_of leader))) [
  | inl e ↦ (s, [], rw (found, e) refl, ready, refl)
  | inr e ↦ (
    (rotate (target_of leader) s).0,
    (rotate (target_of leader) s).1,
    rw (found, e) refl,
    rotate-IsReady (target_of leader) s ready,
    rotate-settle (target_of leader) s,
  )
]

abbrev Completes : State → Type 0
Completes s =
    (next : State) × (orders : List Order) × (complete s ≡ some (next, orders))
    × IsReady next
    × (settle s.held_symbol orders ≡ some next.held_symbol)

abbrev with_closes : ℤ → ℤ → ℤ → State → State
with_closes a b c s = record s {
  aaa_history = a ∷ s.aaa_history;
  bbb_history = b ∷ s.bbb_history;
  ccc_history = c ∷ s.ccc_history;
}

leader-total :
    (a b c : ℤ) (s : State)
    → IsReady s
    → 1 ≤ length s.aaa_history
    → (leader : Symbol × ℤ) × (leader_after_completed_session (with_closes a b c s) ≡ some leader)
unfolding leader_after_completed_session
leader-total a b c s ready long =
    let (ma, ea) = momentum-total a s.aaa_history ready.aaa_priced long in
    let (mb, eb) =
      momentum-total b s.bbb_history ready.bbb_priced (omega (arith, ready.bbb_length)) in
    let (mc, ec) =
      momentum-total c s.ccc_history ready.ccc_priced (omega (arith, ready.ccc_length)) in
    (leading (leading (aaa, ma) (bbb, mb)) (ccc, mc), rw (ea, eb, ec) refl)

complete-total :
    (a b c : ℕ) (s : State)
    → close_of aaa s.session_closes ≡ some (pos (suc a))
    → close_of bbb s.session_closes ≡ some (pos (suc b))
    → close_of ccc s.session_closes ≡ some (pos (suc c))
    → IsReady s
    → Completes s
unfolding complete
complete-total a b c s ea eb ec ready =
    let next = with_closes (pos (suc a)) (pos (suc b)) (pos (suc c)) s in
    let ready' : IsReady next = record {
      aaa_priced = ready.aaa_priced;
      bbb_priced = ready.bbb_priced;
      ccc_priced = ready.ccc_priced;
      bbb_length = omega (arith, ready.bbb_length);
      ccc_length = omega (arith, ready.ccc_length);
    } in
    elim (Bool-cases (leb (length next.aaa_history) 1)) [
      | inl e ↦ (next, [], rw (ea, eb, ec, e) refl, ready', refl)
      | inr e ↦
          let (leader, found) =
            leader-total (pos (suc a)) (pos (suc b)) (pos (suc c)) s ready (ground arith) in
          let (last, orders, traded, good, settled) = trade-total next leader found ready' in
          (last, orders, rw (ea, eb, ec, e) traded, good, settled)
    ]

-- The bars of one session.
abbrev noted : ℕ → Prices → State → State
noted seq p s = note_close (bar_at seq ccc p.ccc_below true) (
    note_close (bar_at seq bbb p.bbb_below false) (note_close (bar_at seq aaa p.aaa_below false) s))

same_session : (seq : ℕ) → (seq == seq) ≡ true
same_session seq = ground arith

session-total : (seq : ℕ) (p : Prices) (s : State) → IsReady s → Completes (noted seq p s)
unfolding close_of
session-total seq p s ready =
    complete-total p.aaa_below p.bbb_below p.ccc_below (noted seq p s) (rw (same_session seq) refl)
      (rw (same_session seq) refl) refl
      (record {
        aaa_priced = ready.aaa_priced;
        bbb_priced = ready.bbb_priced;
        ccc_priced = ready.ccc_priced;
        bbb_length = ready.bbb_length;
        ccc_length = ready.ccc_length;
      })

abbrev pub Replays : ℕ → List Prices → State → Type 0
Replays seq sessions s =
    (last : State) × (tape : List Order) × (release (bars_of seq sessions) s ≡ some (last, tape))
    × (settle s.held_symbol tape ≡ some last.held_symbol)

replay-total : (seq : ℕ) (sessions : List Prices) (s : State) → IsReady s → Replays seq sessions s
unfolding release on_bar
replay-total seq [] s ready = (s, [], refl, refl)
replay-total seq (p ∷ sessions) s ready =
    let (next, orders, completed, ready', settled) = session-total seq p s ready in
    let (last, tape, released, settled') = replay-total (suc seq) sessions next ready' in
    (
      last,
      orders ++ tape,
      rw (completed, released) refl,
      settle-append s.held_symbol next.held_symbol last.held_symbol orders tape settled settled',
    )

-- Over complete sessions with prices above zero, no bar makes on_bar raise, and an account that
-- starts empty can take the orders one by one: it never buys while it holds a symbol, it sells only
-- the symbol that it holds, and it ends with the symbol that the state names.
pub release_a_share_rotation : (sessions : List Prices) → Replays 1 sessions on_start
release_a_share_rotation sessions = replay-total 1 sessions on_start (record {
  aaa_priced = tt;
  bbb_priced = tt;
  ccc_priced = tt;
  bbb_length = refl;
  ccc_length = refl;
})
