-- ===== src/Formal/Host.antt =====
-- formal_runner.py: `run_strategy_host`. none is its None.
use open_quant_studio.Base.{
  ℕ, ◌+◌, ◌==◌, ◌&&◌, ◌||◌, not, Bool, true, false, Option, none, some, ◌>>=◌, List, [], ◌∷◌, ◌++◌,
  if◌then◌else◌,
}
use open_quant_studio.Base.Int.{ℤ, pos, leb_ℤ, ltb_ℤ}
use open_quant_studio.Formal.Protocol.{
  MarketBar, Requested, absent, requested_at, malformed, Item, intent, not_intent, Stamped,
  FrameType, start_frame, bar_frame, Request, ResponseType, start_response, bar_response, item_list,
  not_list, Response, Reading, nothing, response, Process, bar_list, Parsed, object,
}

abbrev pub protocol_version : ℕ
protocol_version = 2

abbrev type_eq : ResponseType → ResponseType → Bool
type_eq start_response start_response = true
type_eq bar_response bar_response = true
type_eq _ _ = false

abbrev is_id : ℕ → Option ℕ → Bool
is_id request_id none = false
is_id request_id (some id) = id == request_id

-- The tests of a response.
abbrev pub answers : ResponseType → Request → Response → Bool
answers frame_type request r =
    r.protocol_version == protocol_version
    && type_eq r.frame_type frame_type
    && is_id request.request_id r.request_id
    && r.request_token == request.request_token

-- `read_response`
unfoldable pub read_response : ResponseType → Request → Reading → Option (List Item)
read_response frame_type request nothing = none
read_response frame_type request (response r is_pending) = elim r.intents [
  | item_list items ↦ if answers frame_type request r && not is_pending then some items else none
  | not_list ↦ none
]

-- The variables `emitted` and `last_intent_seq`.
pub record Tape : Type 0 where
  pub emitted : List Stamped
  pub last_intent_seq : Option ℤ

abbrev pub is_stale : ℤ → Option ℤ → Bool
is_stale stable_seq none = false
is_stale stable_seq (some last) = leb_ℤ stable_seq last

-- The stamp that takes effect: a requested one must not be earlier than the next open.
abbrev pub effective_of : ℤ → ℤ → Requested → Option (ℤ × ℤ)
effective_of effective_session_seq stable_seq absent = some (effective_session_seq, stable_seq)
effective_of effective_session_seq stable_seq (requested_at session_seq is_open stable) =
    if ltb_ℤ session_seq effective_session_seq || not is_open
    then none
    else some (session_seq, stable)
effective_of effective_session_seq stable_seq malformed = none

-- The body of the loop of `append_intents`.
unfoldable pub append_intent : ℤ → ℤ → Item → Tape → Option Tape
append_intent known effective (intent stable_seq requested body) tape =
    if is_stale stable_seq tape.last_intent_seq
    then none
    else effective_of effective stable_seq requested >>= λ at. some (record {
      emitted =
          tape.emitted
          ++ record {
            intent_seq = stable_seq;
            body = body;
            known_at = known;
            effective_at = at.0;
            effective_stable_seq = at.1;
          }
            ∷ [];
      last_intent_seq = some stable_seq;
    })
append_intent known effective not_intent tape = none

unfoldable pub append_intents : ℤ → ℤ → List Item → Tape → Option Tape
append_intents known effective [] tape = some tape
append_intents known effective (item ∷ items) tape =
    append_intent known effective item tape >>= append_intents known effective items

-- `token` gives the token of each request, by its identifier.
module _ (process : Process) (token : ℕ → ℕ) where
  abbrev pub request : FrameType → ℕ → Request
  request frame_type request_id = record {
    frame_type = frame_type;
    request_id = request_id;
    request_token = token request_id;
  }

  -- Sends a request after those sent before it, and reads the response.
  unfoldable pub exchange : ResponseType → Request → List Request → Option (List Item)
  exchange frame_type r sent =
      if process.can_send r
      then read_response frame_type r (process.reply (sent ++ r ∷ []))
      else none

  -- The loop over the bars, after the request `request_id`; the intents of the last bar are dropped.
  -- It also returns the requests that have been sent.
  unfoldable pub release : List MarketBar → ℕ → List Request → Tape → Option (Tape × List Request)
  release [] request_id sent tape = some (tape, sent)
  release (bar ∷ []) request_id sent tape =
      let r = request (bar_frame bar) (request_id + 1) in
      exchange bar_response r sent >>= λ items. some (tape, sent ++ r ∷ [])
  release (bar ∷ next ∷ bars) request_id sent tape =
      let r = request (bar_frame bar) (request_id + 1) in
      exchange bar_response r sent >>= λ items.
      append_intents bar.session_seq next.session_seq items tape
      >>= release (next ∷ bars) (request_id + 1) (sent ++ r ∷ [])

  abbrev finish : Tape × List Request → Option (List Stamped)
  finish (tape, sent) = if process.ends_well sent then some tape.emitted else none

  unfoldable pub run_bars : List MarketBar → Option (List Stamped)
  run_bars [] = none
  run_bars (bar ∷ bars) =
      let start = request start_frame 1 in
      exchange start_response start [] >>= λ items.
      append_intents (pos 0) bar.session_seq items (record { emitted = []; last_intent_seq = none })
      >>= λ tape. release (bar ∷ bars) 1 (start ∷ []) tape >>= finish

  unfoldable pub run_strategy_host : Parsed → Option (List Stamped)
  run_strategy_host (object (bar_list bars) intents) = run_bars bars
  run_strategy_host _ = none
