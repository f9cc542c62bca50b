-- ===== src/Evaluation/Runner.antt =====
-- The report of the evaluation, Run of internal/evaluation/runner.go.
pub mod Reports
pub mod Judged
mod Tests
use on_call_agent.Base.{
  ℕ, zero, suc, ◌+◌, Bool, true, false, not, ◌&&◌, ◌||◌, List, [], ◌∷◌, ◌++◌, Option, none, some, ℤ,
  pos, negsuc, if◌then◌else◌, ltb_ℤ, Text, is_empty, Result, ok, err,
}
use on_call_agent.Evaluation.Dataset.{Case, matches_tags}
use on_call_agent.Evaluation.Metrics.{
  Floats, recall_at_k, mrr, ndcg_at_k, exact_match, token_f1, tool_set_accuracy,
}
use on_call_agent.Evaluation.Judge.{JudgeInput, JudgeScore}
use on_call_agent.Evaluation.Stages.{EvalConfig, Dependencies, CaseResult, run_case}

pub record Aggregate (F : Type 0) : Type 0 where
  pub mean : F
  pub count : ℕ

-- The map of aggregates, whose nine keys are there from the start.
pub record Aggregates (F : Type 0) : Type 0 where
  pub recalls : Aggregate F
  pub mrrs : Aggregate F
  pub ndcgs : Aggregate F
  pub exacts : Aggregate F
  pub f1s : Aggregate F
  pub tool_sets : Aggregate F
  pub relevances : Aggregate F
  pub faithfulnesses : Aggregate F
  pub completenesses : Aggregate F

-- Report without the time.
pub record Report (F E : Type 0) : Type 0 where
  pub report_config : EvalConfig
  pub cases : List (CaseResult F E)
  pub aggregates : Aggregates F
  pub failed_cases : ℕ

-- `if cfg.TopK <= 0`
abbrev pub with_top_k : EvalConfig → EvalConfig
with_top_k cfg = if ltb_ℤ (pos 0) cfg.top_k then cfg else record cfg { top_k = pos 5 }

module _ {F : Type 0} (fl : Floats F) where
  -- addAggregate
  unfoldable pub add_aggregate : Aggregate F → Option F → Aggregate F
  add_aggregate current none = current
  add_aggregate current (some value) = record {
    mean =
        fl.divide (fl.plus (fl.times current.mean (fl.of_nat current.count)) value)
          (fl.of_nat (suc current.count));
    count = suc current.count;
  }

  abbrev pub no_values : Aggregate F
  no_values = record { mean = fl.of_nat 0; count = 0 }

module _ {F E : Type 0} (fl : Floats F) (truncate : F → ℤ) (tokens : Text → List Text) where
  -- addCaseAggregates
  unfoldable pub add_case_aggregates : Aggregates F → CaseResult F E → Aggregates F
  add_case_aggregates a r =
      let m = r.metrics in
      let score : (JudgeScore F → F) → Option F =
        λ part. elim r.judged [ none ↦ none | some s ↦ some (part s) ] in
      record {
        recalls = add_aggregate fl a.recalls m.recall_metric;
        mrrs = add_aggregate fl a.mrrs m.mrr_metric;
        ndcgs = add_aggregate fl a.ndcgs m.ndcg_metric;
        exacts = add_aggregate fl a.exacts m.exact_metric;
        f1s = add_aggregate fl a.f1s m.f1_metric;
        tool_sets = add_aggregate fl a.tool_sets m.tools_metric;
        relevances = add_aggregate fl a.relevances (score (λ s. s.relevance));
        faithfulnesses = add_aggregate fl a.faithfulnesses (score (λ s. s.faithfulness));
        completenesses = add_aggregate fl a.completenesses (score (λ s. s.completeness));
      }

  -- The loop of Run over the cases.
  unfoldable pub run_cases : List Case → EvalConfig → Dependencies F E → Report F E → Report F E
  run_cases [] cfg deps report = report
  run_cases (item ∷ items) cfg deps report =
      if not (matches_tags item.tags cfg.selected_tags)
      then run_cases items cfg deps report
      else (let result = run_case fl truncate tokens item cfg deps in
          run_cases items cfg deps (record report {
            failed_cases =
                if is_empty result.errors then report.failed_cases else suc report.failed_cases;
            cases = report.cases ++ result ∷ [];
            aggregates = add_case_aggregates report.aggregates result;
          }))

  -- Run
  unfoldable pub run : List Case → EvalConfig → Dependencies F E → Report F E
  run items cfg deps =
      let cfg' = with_top_k cfg in
      run_cases items cfg' deps (record {
        report_config = cfg';
        cases = [];
        aggregates = record {
          recalls = no_values fl;
          mrrs = no_values fl;
          ndcgs = no_values fl;
          exacts = no_values fl;
          f1s = no_values fl;
          tool_sets = no_values fl;
          relevances = no_values fl;
          faithfulnesses = no_values fl;
          completenesses = no_values fl;
        };
        failed_cases = 0;
      })

-- Report.Validate: whether there is an error.
unfoldable pub selects_nothing : {F E : Type 0} → Report F E → Bool
selects_nothing report = is_empty report.cases
