-- ===== src/Formal/Protocol.antt =====
-- formal_runner.py: what the host and a strategy's process exchange. A JSON value is what the code
-- tests of it; an `int` is an integer.
use open_quant_studio.Base.{ℕ, Bool, Option, List}
use open_quant_studio.Base.Int.{ℤ}

-- A bar of the market input; `body` stands for its other keys.
pub record MarketBar : Type 0 where
  pub session_seq : ℤ
  pub body : ℕ

-- `intent.get("effective_at")`: None, a dict of the three keys with two integers, or any other
-- value.
pub data Requested : Type 0 where
  absent : Requested
  requested_at : (session_seq : ℤ) (is_open : Bool) (stable_seq : ℤ) → Requested
  malformed : Requested

-- An element of a response's `intents`: a dict whose `intent_seq` is an `int`, or any other value.
pub data Item : Type 0 where
  intent : (intent_seq : ℤ) (effective_at : Requested) (body : ℕ) → Item
  not_intent : Item

-- An intent that the host has stamped: `known_at` and `effective_at` are the session numbers of the
-- two stamps, of phase "close" and "open". The `stable_seq` of `known_at` is `intent_seq`.
pub record Stamped : Type 0 where
  pub intent_seq : ℤ
  pub body : ℕ
  pub known_at : ℤ
  pub effective_at : ℤ
  pub effective_stable_seq : ℤ

pub data FrameType : Type 0 where
  start_frame : FrameType
  bar_frame : MarketBar → FrameType

pub record Request : Type 0 where
  pub frame_type : FrameType
  pub request_id : ℕ
  pub request_token : ℕ

-- "start_response" and "bar_response"
pub data ResponseType : Type 0 where
  start_response bar_response other_response : ResponseType

pub data Items : Type 0 where
  item_list : List Item → Items
  not_list : Items

-- A dict with exactly the keys of a response; `request_id` is none if it is no `int`.
pub record Response : Type 0 where
  pub protocol_version : ℕ
  pub frame_type : ResponseType
  pub request_id : Option ℕ
  pub request_token : ℕ
  pub intents : Items

-- What reading a response gives: nothing usable (no frame in time, no JSON, other keys, an error of
-- the operating system), or a response, with whether bytes are pending behind it.
pub data Reading : Type 0 where
  nothing : Reading
  response : Response → (is_pending : Bool) → Reading

-- The operating system and the strategy's process: whether a request can be sent, what comes back
-- after the requests so far, and whether the process ends in time with code 0 and no more output.
pub record Process : Type 0 where
  pub can_send : Request → Bool
  pub reply : List Request → Reading
  pub ends_well : List Request → Bool

-- The value of "bars": a list of dicts whose `session_seq` is an `int`, any other value, or none.
pub data Bars : Type 0 where
  bar_list : List MarketBar → Bars
  bad_bars : Bars
  missing_bars : Bars

-- What `json.loads` makes of the engine's input. `intents` is the list of intents, if it is one.
pub data Parsed : Type 0 where
  unreadable : Parsed
  not_object : Parsed
  object : Bars → (intents : Option (List Stamped)) → Parsed
