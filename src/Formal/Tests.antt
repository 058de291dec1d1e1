-- ===== src/Formal/Tests.antt =====
-- formal_runner.py: a strategy that emits one intent with every response, over three bars.
use open_quant_studio.Base.{
  ℕ, ◌+◌, ◌≤◌, ◌≡◌, refl, arith, true, false, Option, none, some, List, [], ◌∷◌, All, length,
}
use open_quant_studio.Base.Int.{ℤ, pos, ◌<ℤ◌}
use open_quant_studio.Formal.Protocol.{
  MarketBar, absent, intent, Stamped, FrameType, start_frame, bar_frame, Request, ResponseType,
  start_response, bar_response, item_list, Reading, nothing, response, Process, bar_list, object,
}
use open_quant_studio.Formal.Host.{
  protocol_version, read_response, append_intent, append_intents, exchange, release, run_bars,
  run_strategy_host,
}
use open_quant_studio.Formal.Frame.{
  arrives, newline, has_newline, ends_at_newline, read_bounded_frame, max_strategy_frame_bytes,
}
use open_quant_studio.Formal.Bounded.{IsFrame, IsFrame-bounds}
use open_quant_studio.Formal.Timing.{InSlot, Ascends, Sessions, host_stamps, host_no_lookahead}
use open_quant_studio.Formal.Gates.{
  Engine, dict, tape_eq, check_result, smoke_run, import_strategy, execute_formal_run,
}
use open_quant_studio.Formal.Verdicts.{succeeded, execute_success}

abbrev pub token : ℕ → ℕ
token id = id + 100

abbrev type_of : FrameType → ResponseType
type_of start_frame = start_response
type_of (bar_frame bar) = bar_response

abbrev reply_to : Request → Reading
reply_to r =
    response
      (record {
        protocol_version = protocol_version;
        frame_type = type_of r.frame_type;
        request_id = some r.request_id;
        request_token = r.request_token;
        intents = item_list (intent (pos r.request_id) absent 7 ∷ []);
      })
      false

abbrev reply_last : List Request → Reading
reply_last [] = nothing
reply_last (r ∷ []) = reply_to r
reply_last (r ∷ s ∷ sent) = reply_last (s ∷ sent)

abbrev pub strategy : Process
strategy = record { can_send = λ r. true; reply = reply_last; ends_well = λ sent. true }

abbrev pub bars : List MarketBar
bars =
    record { session_seq = pos 1; body = 10 }
    ∷ record { session_seq = pos 2; body = 20 }
    ∷ record { session_seq = pos 3; body = 30 }
    ∷ []

abbrev stamped : ℕ → ℕ → Stamped
stamped seq known = record {
  intent_seq = pos seq;
  body = 7;
  known_at = pos known;
  effective_at = pos (known + 1);
  effective_stable_seq = pos seq;
}

abbrev pub tape : List Stamped
tape = stamped 1 0 ∷ stamped 2 1 ∷ stamped 3 2 ∷ []

pub host_tape : run_strategy_host strategy token (object (bar_list bars) (some tape)) ≡ some tape
unfolding run_strategy_host run_bars release exchange read_response append_intents append_intent
host_tape = refl

abbrev engine : Engine
engine = record { run = some 5; parse = λ n. dict (some 2) (some 1) }

runs :
    (execute_formal_run strategy token engine 1 2 (object (bar_list bars) (some tape))).error_code
    ≡ none
unfolding execute_formal_run import_strategy smoke_run check_result tape_eq run_strategy_host
    run_bars release exchange read_response append_intents append_intent
runs = refl

frame_read :
    read_bounded_frame max_strategy_frame_bytes
      (arrives (1 ∷ 2 ∷ []) ∷ arrives (newline ∷ []) ∷ [])
      []
    ≡ some (1 ∷ 2 ∷ newline ∷ [])
unfolding read_bounded_frame has_newline ends_at_newline
frame_read = refl

IsFrame-bounds_example :
    IsFrame (1 ∷ 2 ∷ newline ∷ []) × (length (1 ∷ 2 ∷ newline ∷ []) ≤ max_strategy_frame_bytes)
IsFrame-bounds_example =
    IsFrame-bounds (arrives (1 ∷ 2 ∷ []) ∷ arrives (newline ∷ []) ∷ []) (1 ∷ 2 ∷ newline ∷ [])
      frame_read

host_stamps_example : All (InSlot (pos 0) bars) tape × (hi : Option ℤ) × Ascends none tape hi
host_stamps_example = host_stamps strategy token bars (some tape) tape host_tape

sessions : Sessions (pos 0) bars
sessions = ground arith

host_no_lookahead_example : All (λ (s : Stamped). s.known_at <ℤ s.effective_at) tape
host_no_lookahead_example =
    host_no_lookahead strategy token bars (some tape) tape sessions host_tape

execute_success_example :
    (emitted : List Stamped) × (result : ℕ) × (run_strategy_host strategy token
        (object (bar_list bars) (some tape))
      ≡ some emitted)
    × (some tape ≡ some emitted)
    × (engine.run ≡ some result)
    × (engine.parse result ≡ dict (some 2) (some 1))
    × (execute_formal_run strategy token engine 1 2 (object (bar_list bars) (some tape))
        ≡ succeeded result emitted)
execute_success_example = execute_success strategy token engine 1 2 (bar_list bars) (some tape) runs
