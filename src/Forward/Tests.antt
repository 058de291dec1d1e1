-- ===== src/Forward/Tests.antt =====
-- forward_replay.py: the replay of a strategy that emits an intent with every response.
use open_quant_studio.Base.{ℕ, ◌+◌, ◌≡◌, ◌↔◌, true, some, List, [], ◌∷◌}
use open_quant_studio.Formal.Protocol.{Stamped, bar_list, object}
use open_quant_studio.Formal.Host.{run_strategy_host}
use open_quant_studio.Formal.Tests.{token, strategy, bars, tape}
use open_quant_studio.Forward.{passed, Identity, ForwardReplayResult, replay_forward_test}
use open_quant_studio.Forward.Verdict.{expected, replay_total, replay_passed_iff}

abbrev encode : List Stamped → List ℕ
encode [] = []
encode (s ∷ tape) = s.body ∷ encode tape

abbrev sha256 : List ℕ → ℕ
sha256 [] = 1
sha256 (b ∷ bytes) = b + sha256 bytes

abbrev identity : Identity
identity = record {
  forward_test_id = 1;
  source_run_id = 2;
  source_revision_id = 3;
  data_snapshot_id = 4;
  strategy_protocol_version = 2;
  timing_authority = 5;
  source_intent_tape_sha256 = 22;
}

replay_total_example :
    replay_forward_test encode sha256 identity
      (encode tape)
      strategy
      token
      true
      (object (bar_list bars) (some tape))
    ≡ some (
        expected encode sha256 identity
          (encode tape)
          true
          bars
          (run_strategy_host strategy token (object (bar_list bars) (some tape))))
replay_total_example =
    replay_total encode sha256 identity (encode tape) strategy token true bars (some tape)

replay_passed_iff_example :
    ((result : ForwardReplayResult) × (replay_forward_test encode sha256 identity
          (encode tape)
          strategy
          token
          true
          (object (bar_list bars) (some tape))
        ≡ some result)
      × (result.transcript.status ≡ passed))
    ↔ ((true ≡ true)
        × (replayed : List Stamped) × (run_strategy_host strategy token
              (object (bar_list bars) (some tape))
            ≡ some replayed)
        × (encode replayed ≡ encode tape))
replay_passed_iff_example =
    replay_passed_iff encode sha256 identity (encode tape) strategy token true bars (some tape)
