-- ===== src/Formal/Bounded.antt =====
-- What a frame that has been read looks like.
use open_quant_studio.Base.{
  sym, ap, ◌∙◌, ℕ, zero, suc, ◌-◌, ◌==◌, ◌≤◌, ◌≡◌, refl, true, false, some, List, [], ◌∷◌, ◌++◌,
  leb, arith, length, length-append, append_assoc, OnSome, OnSome-at, Bool-cases, inl, inr,
}
use Prim.Native.Nat.{min}
use open_quant_studio.Formal.Frame.{
  newline, take, Turn, time_is_up, arrives, has_newline, ends_at_newline, read_bounded_frame,
  max_strategy_frame_bytes,
}

-- A newline, and before it none.
abbrev pub IsFrame : List ℕ → Type 0
IsFrame frame = (body : List ℕ) × (frame ≡ body ++ newline ∷ []) × (has_newline body ≡ false)

length-take : (n : ℕ) (xs : List ℕ) → length (take n xs) ≤ n
length-take zero xs = omega arith
length-take (suc n) [] = omega arith
length-take (suc n) (x ∷ xs) = omega (arith, length-take n xs)

has_newline-append :
    (xs ys : List ℕ)
    → has_newline xs ≡ false
    → has_newline ys ≡ false
    → has_newline (xs ++ ys) ≡ false
unfolding has_newline
has_newline-append [] ys h k = k
has_newline-append (x ∷ xs) ys h k = ground (arith, has_newline-append xs ys)

ends-IsFrame : (chunk : List ℕ) → ends_at_newline chunk ≡ true → IsFrame chunk
unfolding ends_at_newline has_newline
ends-IsFrame [] h = absurd (ground arith)
ends-IsFrame (b ∷ []) h = let e : b ≡ newline = ground arith in ([], rw e refl, refl)
ends-IsFrame (b ∷ c ∷ chunk) h = elim (Bool-cases (b == newline)) [
  | inl e ↦ absurd (ground arith)
  | inr e ↦
      let (body, split, none_in) = ends-IsFrame (c ∷ chunk) (ground arith) in
      (b ∷ body, ap (λ t. b ∷ t) split, rw e none_in)
]

fits :
    (limit : ℕ) (frame chunk : List ℕ)
    → leb limit (length frame) ≡ false
    → length chunk ≤ min 4096 (limit - length frame)
    → length (frame ++ chunk) ≤ limit
fits limit frame chunk room short =
    let below : length frame ≤ limit = ground arith in omega (arith, length-append frame chunk)

read-IsFrame :
    (limit : ℕ) (turns : List Turn) (frame : List ℕ)
    → has_newline frame ≡ false
    → OnSome (λ f. IsFrame f × (length f ≤ limit)) (read_bounded_frame limit turns frame)
unfolding read_bounded_frame
read-IsFrame limit [] frame h = tt
read-IsFrame limit (time_is_up ∷ turns) frame h = tt
read-IsFrame limit (arrives available ∷ turns) frame h =
    let chunk = take (min 4096 (limit - length frame)) available in
    elim (Bool-cases (leb limit (length frame))) [
      | inl full ↦ rw full tt
      | inr room ↦ elim (Bool-cases (length chunk == 0)) [
        | inl done ↦ rw (room, done) tt
        | inr some_ ↦ elim (Bool-cases (has_newline chunk)) [
          | inr open_ ↦
              rw (room, some_, open_)
                (read-IsFrame limit turns (frame ++ chunk) (has_newline-append frame chunk h open_))
          | inl found ↦ elim (Bool-cases (ends_at_newline chunk)) [
            | inr beyond ↦ rw (room, some_, found, beyond) tt
            | inl last ↦
                let (body, split, none_in) = ends-IsFrame chunk last in
                rw (room, some_, found, last)
                  (
                    (
                      frame ++ body,
                      ap (λ t. frame ++ t) split ∙ sym (append_assoc frame body (newline ∷ [])),
                      has_newline-append frame body h none_in,
                    ),
                    fits limit frame chunk room
                        (length-take (min 4096 (limit - length frame)) available),
                  )
          ]
        ]
      ]
    ]

-- A frame that the host accepts ends with its only newline, and is no longer than the limit.
pub IsFrame-bounds :
    (turns : List Turn) (frame : List ℕ)
    → read_bounded_frame max_strategy_frame_bytes turns [] ≡ some frame
    → IsFrame frame × (length frame ≤ max_strategy_frame_bytes)
unfolding has_newline
IsFrame-bounds turns frame h =
    OnSome-at _ (read_bounded_frame max_strategy_frame_bytes turns []) frame
      (read-IsFrame max_strategy_frame_bytes turns [] refl) h
