-- ===== src/Forward.antt =====
-- services/quant-domain/src/quant_domain/forward_replay.py: the replay of a succeeded run over its
-- historical bars. none is an exception.
pub mod Grouping
pub mod Verdict
pub mod Tests
use open_quant_studio.Base.{
  ℕ, ◌+◌, ◌==◌, ◌&&◌, Bool, true, false, Option, none, some, ◌>>=◌, List, [], ◌∷◌, ◌++◌,
  if◌then◌else◌, length,
}
use open_quant_studio.Base.Int.{ℤ, pos, eqb_ℤ}
use open_quant_studio.Formal.Protocol.{
  MarketBar, Stamped, Process, Bars, bar_list, bad_bars, missing_bars, Parsed, unreadable,
  not_object, object,
}
use open_quant_studio.Formal.Host.{run_strategy_host}

-- `intent_groups`, a dict from session numbers.
abbrev pub Groups : Type 0
Groups = List (ℤ × List Stamped)

unfoldable pub get_group : ℤ → Groups → Option (List Stamped)
get_group seq [] = none
get_group seq ((key, group) ∷ groups) = if eqb_ℤ key seq then some group else get_group seq groups

-- `groups[seq] = []`
unfoldable pub clear_group : ℤ → Groups → Groups
clear_group seq [] = (seq, []) ∷ []
clear_group seq ((key, group) ∷ groups) =
    if eqb_ℤ key seq then (key, []) ∷ groups else (key, group) ∷ clear_group seq groups

-- `{0: [], **{bar["session_seq"]: [] for bar in bars}}`
unfoldable pub bar_groups : List MarketBar → Groups → Groups
bar_groups [] groups = groups
bar_groups (bar ∷ bars) groups = bar_groups bars (clear_group bar.session_seq groups)

abbrev pub empty_groups : List MarketBar → Groups
empty_groups bars = bar_groups bars ((pos 0, []) ∷ [])

-- `intent_groups[seq].append(intent)`, which raises on a missing key.
unfoldable pub append_to : Stamped → Groups → Option Groups
append_to s [] = none
append_to s ((key, group) ∷ groups) =
    let rest = append_to s groups in
    if eqb_ℤ key s.known_at
    then some ((key, group ++ s ∷ []) ∷ groups)
    else rest >>= λ g. some ((key, group) ∷ g)

unfoldable pub fill : List Stamped → Groups → Option Groups
fill [] groups = some groups
fill (s ∷ tape) groups = append_to s groups >>= fill tape

pub record Observation : Type 0 where
  pub bar_index : ℕ
  pub bar : MarketBar
  pub intent_group : List Stamped

unfoldable pub observe : ℕ → List MarketBar → Groups → Option (List Observation)
observe index [] groups = some []
observe index (bar ∷ bars) groups = get_group bar.session_seq groups >>= λ group.
    observe (index + 1) bars groups >>= λ observations.
    some (record { bar_index = index; bar = bar; intent_group = group } ∷ observations)

pub data Status : Type 0 where
  passed failed : Status

pub data ErrorCode : Type 0 where
  source_run_not_succeeded strategy_protocol_failed transcript_integrity_mismatch : ErrorCode

-- The identifiers that a caller gives and that the result passes on.
pub record Identity : Type 0 where
  pub forward_test_id : ℕ
  pub source_run_id : ℕ
  pub source_revision_id : ℕ
  pub data_snapshot_id : ℕ
  pub strategy_protocol_version : ℕ
  pub timing_authority : ℕ
  pub source_intent_tape_sha256 : ℕ

pub record Transcript : Type 0 where
  pub identity : Identity
  pub start_intent_group : List Stamped
  pub bar_observations : List Observation
  pub released_bar_count : ℕ
  pub source_intent_tape_byte_size : ℕ
  pub intent_tape_sha256 : ℕ
  pub intent_tape_byte_size : ℕ
  pub status : Status
  pub error_code : Option ErrorCode

-- The result's transcript is the encoding of the one here, with its digest.
pub record ForwardReplayResult : Type 0 where
  pub intent_tape : List ℕ
  pub transcript : Transcript

unfoldable pub bytes_eq : List ℕ → List ℕ → Bool
bytes_eq [] [] = true
bytes_eq [] (b ∷ t) = false
bytes_eq (a ∷ s) [] = false
bytes_eq (a ∷ s) (b ∷ t) = a == b && bytes_eq s t

-- `encode` is `canonical_json_bytes` of a tape, `sha256` the digest of bytes.
module _ (encode : List Stamped → List ℕ) (sha256 : List ℕ → ℕ) (identity : Identity)
    (source_intent_tape : List ℕ) where
  -- `_result`
  unfoldable pub result_of :
      List MarketBar → List Stamped → ℕ → Status → Option ErrorCode → Option ForwardReplayResult
  result_of bars replayed_intents released_bar_count status error_code =
      fill replayed_intents (empty_groups bars) >>= λ groups.
      get_group (pos 0) groups >>= λ start_group. observe 0 bars groups >>= λ observations.
      let intent_tape = encode replayed_intents in
      some (record {
        intent_tape = intent_tape;
        transcript = record {
          identity = identity;
          start_intent_group = start_group;
          bar_observations = observations;
          released_bar_count = released_bar_count;
          source_intent_tape_byte_size = length source_intent_tape;
          intent_tape_sha256 = sha256 intent_tape;
          intent_tape_byte_size = length intent_tape;
          status = status;
          error_code = error_code;
        };
      })

  abbrev fails : ErrorCode → Option ForwardReplayResult
  fails error_code = result_of [] [] 0 failed (some error_code)

  abbrev judge : List MarketBar → List Stamped → Option ForwardReplayResult
  judge bars replayed =
      if bytes_eq (encode replayed) source_intent_tape
      then result_of bars replayed (length bars) passed none
      else result_of bars replayed (length bars) failed (some transcript_integrity_mismatch)

  unfoldable pub after_host : List MarketBar → Option (List Stamped) → Option ForwardReplayResult
  after_host bars none = fails strategy_protocol_failed
  after_host bars (some replayed) = judge bars replayed

  -- `parsed_market_input["bars"]`
  abbrev pub bars_of : Parsed → Option (List MarketBar)
  bars_of (object (bar_list bars) intents) = some bars
  bars_of (object bad_bars intents) = some []
  bars_of _ = none

  -- `is_succeeded` tells that the source run's status is "succeeded".
  unfoldable pub replay_forward_test :
      Process → (ℕ → ℕ) → (is_succeeded : Bool) → Parsed → Option ForwardReplayResult
  replay_forward_test process token is_succeeded market = bars_of market >>= λ bars.
      if is_succeeded
      then after_host bars (run_strategy_host process token market)
      else fails source_run_not_succeeded
