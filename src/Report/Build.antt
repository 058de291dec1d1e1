-- ===== src/Report/Build.antt =====
-- run_report.py: `_reconciliation`, `_artifact_id`, `_artifact_sha256` and `build_run_report`.
use Prim.Native.String.{String}
use open_quant_studio.Base.{ℕ, ◌&&◌, Bool, true, Option, none, some, ◌>>=◌, List, [], ◌∷◌, ◌++◌}
use open_quant_studio.Base.Int.{ℤ, eqb_ℤ, pos}
use open_quant_studio.Report.Input.{Metrics, Costs, EngineResult}
use open_quant_studio.Report.Summary.{Summary, Period, period, reference_summary}
use open_quant_studio.Report.Definitions.{Definition, definitions}

-- A count is the integer that it is.
pub record Check : Type 0 where
  pub field_name : String
  pub expected : ℤ
  pub actual : ℤ
  pub is_passed : Bool

abbrev pub check : String → ℤ → ℤ → Check
check field_name expected actual = record {
  field_name = field_name;
  expected = expected;
  actual = actual;
  is_passed = eqb_ℤ expected actual;
}

abbrev pub metric_checks : Metrics → Summary → List Check
metric_checks m s =
    check "metrics.starting_equity_atoms" m.starting_equity_atoms s.starting_equity_atoms
    ∷ check "metrics.ending_equity_atoms" m.ending_equity_atoms s.ending_equity_atoms
    ∷ check "metrics.net_pnl_atoms" m.net_pnl_atoms s.net_pnl_atoms
    ∷ check "metrics.total_return_rate_atoms" m.total_return_rate_atoms s.total_return_rate_atoms
    ∷ check "metrics.max_drawdown_atoms" m.max_drawdown_atoms s.max_drawdown_atoms
    ∷ check "metrics.max_drawdown_rate_atoms" m.max_drawdown_rate_atoms s.max_drawdown_rate_atoms
    ∷ check "metrics.total_fees_atoms" m.total_fees_atoms s.total_fees_atoms
    ∷ check "metrics.total_stamp_duty_atoms" m.total_stamp_duty_atoms s.total_stamp_duty_atoms
    ∷ check "metrics.total_funding_atoms" m.total_funding_atoms s.total_funding_atoms
    ∷ check "metrics.total_slippage_atoms" m.total_slippage_atoms s.total_slippage_atoms
    ∷ check "metrics.fill_count" (pos m.fill_count) (pos s.fill_count)
    ∷ check "metrics.closed_trade_count" (pos m.closed_trade_count) (pos s.closed_trade_count)
    ∷ check "metrics.open_position_count" (pos m.open_position_count) (pos s.open_position_count)
    ∷ []

abbrev pub cost_checks : Costs → Summary → List Check
cost_checks c s =
    check "costs.commission_atoms" c.commission_atoms s.total_fees_atoms
    ∷ check "costs.stamp_duty_atoms" c.stamp_duty_atoms s.total_stamp_duty_atoms
    ∷ check "costs.funding_atoms" c.funding_atoms s.total_funding_atoms
    ∷ check "costs.slippage_atoms" c.slippage_atoms s.total_slippage_atoms
    ∷ []

-- `all(check["passed"] for check in checks)`
unfoldable pub all_passed : List Check → Bool
all_passed [] = true
all_passed (c ∷ checks) = c.is_passed && all_passed checks

pub record Reconciliation : Type 0 where
  pub is_passed : Bool
  pub checks : List Check

unfoldable pub reconciliation : EngineResult → Summary → Reconciliation
unfolding all_passed
reconciliation result summary =
    let checks = metric_checks result.metrics summary ++ cost_checks result.costs summary in
    record { is_passed = all_passed checks; checks = checks }

-- The row of `run`.
pub record Run : Type 0 where
  pub run_id : ℕ
  pub run_spec_id : ℕ
  pub project_id : ℕ
  pub activity_id : ℕ
  pub variant_id : ℕ
  pub candidate_revision_id : ℕ
  pub calculation_hash : Option ℕ
  pub finished_at : ℕ
  pub engine_result_artifact_id : Option ℕ
  pub manifest_artifact_id : Option ℕ

pub record Spec : Type 0 where
  pub data_snapshot_id : ℕ
  pub data_snapshot_sha256 : ℕ
  pub strategy_tree_oid : ℕ
  pub parameters_sha256 : ℕ
  pub cost_model_sha256 : ℕ
  pub environment_lock_sha256 : ℕ
  pub price_basis : ℕ
  pub cutoff : ℕ
  pub timezone : ℕ
  pub sample_start : ℕ
  pub sample_end : ℕ

pub record ArtifactRef : Type 0 where
  pub artifact_id : ℕ
  pub sha256 : ℕ

-- `engine_result_sha256` is `engine_result.sha256` of the manifest.
pub record Manifest : Type 0 where
  pub run_spec : Spec
  pub engine_result_sha256 : Option ℕ

-- `artifacts` has two kinds, either of which may be missing.
pub record RunDetail : Type 0 where
  pub run : Run
  pub engine_result : EngineResult
  pub run_spec : Option Spec
  pub manifest : Option Manifest
  pub engine_result_artifact : Option ArtifactRef
  pub manifest_artifact : Option ArtifactRef

abbrev id_of : Option ArtifactRef → Option ℕ
id_of none = none
id_of (some artifact) = some artifact.artifact_id

abbrev pub artifact_id : Option ℕ → Option ArtifactRef → Option ℕ
artifact_id (some direct) artifact = some direct
artifact_id none artifact = id_of artifact

abbrev manifest_sha256 : RunDetail → Option Manifest → Option ℕ
manifest_sha256 detail none = detail.run.calculation_hash
manifest_sha256 detail (some manifest) = elim manifest.engine_result_sha256 [
  | some sha256 ↦ some sha256
  | none ↦ detail.run.calculation_hash
]

abbrev pub artifact_sha256 : RunDetail → Option ArtifactRef → Option ℕ
artifact_sha256 detail (some artifact) = some artifact.sha256
artifact_sha256 detail none = manifest_sha256 detail detail.manifest

abbrev manifest_spec : Option Manifest → Option Spec
manifest_spec none = none
manifest_spec (some manifest) = some manifest.run_spec

-- Without a spec and a manifest, the subscript of None raises.
abbrev pub spec_of : Option Spec → Option Manifest → Option Spec
spec_of (some spec) manifest = some spec
spec_of none manifest = manifest_spec manifest

pub record Identities : Type 0 where
  pub engine_result_sha256 : Option ℕ
  pub engine_version : ℕ
  pub engine_schema_version : ℕ
  pub account_model : ℕ
  pub spec : Spec

pub record RunReport : Type 0 where
  pub report_version : String
  pub run : Run
  pub status : String
  pub identities : Identities
  pub period : Period
  pub summary : Summary
  pub reconciliation : Reconciliation
  pub definitions : List Definition
  pub engine_result_artifact_id : Option ℕ
  pub manifest_artifact_id : Option ℕ

-- The report of one succeeded run.
unfoldable pub build_run_report : RunDetail → Option RunReport
build_run_report detail = spec_of detail.run_spec detail.manifest >>= λ spec.
    let result = detail.engine_result in
    let summary = reference_summary result in
    some (record {
      report_version = "m9-v1";
      run = detail.run;
      status = "succeeded";
      identities = record {
        engine_result_sha256 = artifact_sha256 detail detail.engine_result_artifact;
        engine_version = result.engine_version;
        engine_schema_version = result.schema_version;
        account_model = result.account_model;
        spec = spec;
      };
      period = period result;
      summary = summary;
      reconciliation = reconciliation result summary;
      definitions = definitions;
      engine_result_artifact_id =
          artifact_id detail.run.engine_result_artifact_id detail.engine_result_artifact;
      manifest_artifact_id = artifact_id detail.run.manifest_artifact_id detail.manifest_artifact;
    })
