-- ===== src/Formal/Frame.antt =====
-- formal_runner.py: `_read_bounded_frame` and `_encode_frame`, on bytes.
use open_quant_studio.Base.{
  ℕ, zero, suc, ◌-◌, ◌==◌, Bool, true, false, Option, none, some, List, [], ◌∷◌, ◌++◌, leb,
  if◌then◌else◌, length,
}
use Prim.Native.Nat.{min}

abbrev pub max_strategy_frame_bytes : ℕ
max_strategy_frame_bytes = 1_048_576

abbrev pub newline : ℕ
newline = 10

abbrev pub take {ℓ} : {A : Type ℓ} → ℕ → List A → List A
take zero xs = []
take (suc n) [] = []
take (suc n) (x ∷ xs) = x ∷ take n xs

-- One turn of the selector: the time is up, or bytes are there, of which `os.read` returns as many
-- as have come, and no more than it is asked for. None at all is the end of the stream.
pub data Turn : Type 0 where
  time_is_up : Turn
  arrives : List ℕ → Turn

-- `chunk.find(b"\n") >= 0`, and whether the first one is the last byte of the chunk.
unfoldable pub has_newline : List ℕ → Bool
has_newline [] = false
has_newline (b ∷ chunk) = if b == newline then true else has_newline chunk

unfoldable pub ends_at_newline : List ℕ → Bool
ends_at_newline [] = false
ends_at_newline (b ∷ []) = b == newline
ends_at_newline (b ∷ c ∷ chunk) = if b == newline then false else ends_at_newline (c ∷ chunk)

-- `limit` is the bound on the length of a frame. The turns that follow the last one of the list are
-- past the deadline.
unfoldable pub read_bounded_frame : ℕ → List Turn → List ℕ → Option (List ℕ)
read_bounded_frame limit [] frame = none
read_bounded_frame limit (time_is_up ∷ turns) frame = none
read_bounded_frame limit (arrives available ∷ turns) frame =
    let chunk = take (min 4096 (limit - length frame)) available in
    let rest = read_bounded_frame limit turns (frame ++ chunk) in
    if leb limit (length frame)
    then none
    else if length chunk == 0
    then none
    else if has_newline chunk
    then if ends_at_newline chunk then some (frame ++ chunk) else none
    else rest
