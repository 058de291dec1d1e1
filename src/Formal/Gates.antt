-- ===== src/Formal/Gates.antt =====
-- formal_runner.py: `execute_formal_run`.
use open_quant_studio.Base.{
  ℕ, ◌==◌, ◌&&◌, Bool, true, false, Option, none, some, List, [], ◌∷◌, if◌then◌else◌,
}
use open_quant_studio.Base.Int.{eqb_ℤ}
use open_quant_studio.Formal.Protocol.{Stamped, Process, Parsed, unreadable, not_object, object}
use open_quant_studio.Formal.Host.{run_strategy_host}

pub data Outcome : Type 0 where
  passed failed : Outcome

-- The dict of the three `GATE_NAMES`.
pub record Gates : Type 0 where
  pub contract : Outcome
  pub strategy_import : Outcome
  pub smoke_run : Outcome

pub data ErrorCode : Type 0 where
  contract_gate_failed strategy_import_failed smoke_run_failed engine_result_contract_failed :
      ErrorCode

-- What `json.loads` makes of the engine's result: no dict, or one with its two versions.
pub data ParsedResult : Type 0 where
  not_dict : ParsedResult
  dict : (schema_version engine_version : Option ℕ) → ParsedResult

-- The engine, which raises a ValueError or returns bytes, and the parse of these.
pub record Engine : Type 0 where
  pub run : Option ℕ
  pub parse : ℕ → ParsedResult

-- The intent tape is the encoding of these intents.
pub record FormalExecution : Type 0 where
  pub engine_result : Option ℕ
  pub gates : Gates
  pub error_code : Option ErrorCode
  pub intent_tape : Option (List Stamped)

abbrev pub stamped_eq : Stamped → Stamped → Bool
stamped_eq a b =
    eqb_ℤ a.intent_seq b.intent_seq
    && a.body == b.body
    && eqb_ℤ a.known_at b.known_at
    && eqb_ℤ a.effective_at b.effective_at
    && eqb_ℤ a.effective_stable_seq b.effective_stable_seq

unfoldable pub tape_eq : List Stamped → List Stamped → Bool
tape_eq [] [] = true
tape_eq [] (b ∷ t) = false
tape_eq (a ∷ s) [] = false
tape_eq (a ∷ s) (b ∷ t) = stamped_eq a b && tape_eq s t

abbrev pub same_intents : List Stamped → Option (List Stamped) → Bool
same_intents emitted none = false
same_intents emitted (some intents) = tape_eq emitted intents

abbrev pub opt_is : ℕ → Option ℕ → Bool
opt_is n none = false
opt_is n (some m) = m == n

abbrev fails : Gates → ErrorCode → FormalExecution
fails gates error_code = record {
  engine_result = none;
  gates = gates;
  error_code = some error_code;
  intent_tape = none;
}

abbrev failed_gates : Gates
failed_gates = record { contract = failed; strategy_import = failed; smoke_run = failed }

abbrev contract_gates : Gates
contract_gates = record { contract = passed; strategy_import = failed; smoke_run = failed }

abbrev import_gates : Gates
import_gates = record { contract = passed; strategy_import = passed; smoke_run = failed }

abbrev all_gates : Gates
all_gates = record { contract = passed; strategy_import = passed; smoke_run = passed }

module _ (process : Process) (token : ℕ → ℕ) (engine : Engine)
    (expected_engine_version expected_output_schema_version : ℕ) where
  -- After the engine has returned.
  unfoldable pub check_result : List Stamped → ℕ → ParsedResult → FormalExecution
  check_result strategy_intents engine_result not_dict =
      fails all_gates engine_result_contract_failed
  check_result strategy_intents engine_result (dict schema_version engine_version) =
      if opt_is expected_output_schema_version schema_version
        && opt_is expected_engine_version engine_version
      then record {
        engine_result = some engine_result;
        gates = all_gates;
        error_code = none;
        intent_tape = some strategy_intents;
      }
      else fails all_gates engine_result_contract_failed

  unfoldable pub smoke_run : List Stamped → Option ℕ → FormalExecution
  smoke_run strategy_intents none = fails import_gates smoke_run_failed
  smoke_run strategy_intents (some engine_result) =
      check_result strategy_intents engine_result (engine.parse engine_result)

  unfoldable pub import_strategy : Option (List Stamped) → Option (List Stamped) → FormalExecution
  import_strategy intents none = fails contract_gates strategy_import_failed
  import_strategy intents (some strategy_intents) =
      if same_intents strategy_intents intents
      then smoke_run strategy_intents engine.run
      else fails contract_gates strategy_import_failed

  unfoldable pub execute_formal_run : Parsed → FormalExecution
  execute_formal_run unreadable = fails failed_gates contract_gate_failed
  execute_formal_run not_object = fails failed_gates contract_gate_failed
  execute_formal_run (object bars intents) =
      import_strategy intents (run_strategy_host process token (object bars intents))
