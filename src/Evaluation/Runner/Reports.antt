-- ===== src/Evaluation/Runner/Reports.antt =====
-- What a report says of its cases.
use on_call_agent.Base.{
  ◌≡◌, refl, ◌∙◌, ℕ, suc, ◌+◌, List, [], ◌∷◌, ◌++◌, append_assoc, append-nil, Option, none, some,
  if◌then◌else◌, arith, Text, is_empty, map, Bool-cases, Option-cases, inl, inr,
}
use on_call_agent.Evaluation.Dataset.{Case, matches_tags}
use on_call_agent.Evaluation.Metrics.{Floats}
use on_call_agent.Evaluation.Judge.{JudgeScore}
use on_call_agent.Evaluation.Stages.{EvalConfig, Dependencies, CaseResult, run_case}
use on_call_agent.Evaluation.Runner.{
  Aggregate, Aggregates, Report, add_aggregate, add_case_aggregates, run_cases, run, with_top_k,
  no_values,
}
use on_call_agent.Base.{ℤ}

-- The cases that the tags select.
abbrev pub selected : List Text → List Case → List Case
selected tags [] = []
selected tags (item ∷ items) =
    if matches_tags item.tags tags then item ∷ selected tags items else selected tags items

module _ {F E : Type 0} where
  -- How many results have errors, and how many have a value.
  abbrev pub failures : List (CaseResult F E) → ℕ
  failures [] = 0
  failures (r ∷ rs) = (if is_empty r.errors then 0 else 1) + failures rs

  abbrev pub having : (CaseResult F E → Option F) → List (CaseResult F E) → ℕ
  having value [] = 0
  having value (r ∷ rs) = (elim (value r) [ none ↦ 0 | some x ↦ 1 ]) + having value rs

  -- One of the judge's scores, of a result that was judged.
  abbrev pub judge_value : (JudgeScore F → F) → CaseResult F E → Option F
  judge_value part r = elim r.judged [ none ↦ none | some s ↦ some (part s) ]

module _ {F E : Type 0} (fl : Floats F) (truncate : F → ℤ) (tokens : Text → List Text)
    (cfg : EvalConfig) (deps : Dependencies F E) where
  abbrev pub results : List Case → List (CaseResult F E)
  results items =
      map (λ item. run_case fl truncate tokens item cfg deps) (selected cfg.selected_tags items)

  -- One turn of the loop, for a case that the tags select.
  abbrev with_result : Report F E → CaseResult F E → Report F E
  with_result report result = record report {
    failed_cases = if is_empty result.errors then report.failed_cases else suc report.failed_cases;
    cases = report.cases ++ result ∷ [];
    aggregates = add_case_aggregates fl truncate tokens report.aggregates result;
  }

  run_cases_lem :
      (items : List Case) (report : Report F E)
      → let report' = run_cases fl truncate tokens items cfg deps report in
        (report'.cases ≡ report.cases ++ results items)
        × (report'.failed_cases ≡ report.failed_cases + failures (results items))
  unfolding run_cases
  run_cases_lem [] report = ground (arith, append-nil report.cases)
  run_cases_lem (item ∷ items) report =
      let result = run_case fl truncate tokens item cfg deps in
      let (a, b) = run_cases_lem items (with_result report result) in
      let (c, d) = run_cases_lem items report in
      elim (Bool-cases (matches_tags item.tags cfg.selected_tags)) [
        | inl e ↦
            rw e (a ∙ append_assoc report.cases (result ∷ []) (results items), ground (arith, b))
        | inr e ↦ rw e (c, d)
      ]

  -- An aggregate counts the values that the cases have.
  run_cases-count :
      (part : Aggregates F → Aggregate F) (value : CaseResult F E → Option F)
      → ((a : Aggregates F) (r : CaseResult F E)
          → part (add_case_aggregates fl truncate tokens a r) ≡ add_aggregate fl (part a) (value r))
      → (items : List Case) (report : Report F E)
      → (part (run_cases fl truncate tokens items cfg deps report).aggregates).count
        ≡ (part report.aggregates).count + having value (results items)
  unfolding run_cases add_aggregate
  run_cases-count part value law [] report = omega arith
  run_cases-count part value law (item ∷ items) report =
      let result = run_case fl truncate tokens item cfg deps in
      let added = law report.aggregates result in
      let a = run_cases-count part value law items (with_result report result) in
      let c = run_cases-count part value law items report in
      elim (Bool-cases (matches_tags item.tags cfg.selected_tags)) [
        | inl e ↦ rw e (elim (Option-cases (value result)) [
          | inl n ↦ ground (arith, a, added, n)
          | inr (x, n) ↦ ground (arith, a, added, n)
        ])
        | inr e ↦ rw e c
      ]

-- A report holds these results, and counts their failures and their values.
abbrev pub Reported : {F E : Type 0} → Report F E → List (CaseResult F E) → Type 0
Reported report rs =
    (report.cases ≡ rs)
    × (report.failed_cases ≡ failures rs)
    × (report.aggregates.recalls.count ≡ having (λ r. r.metrics.recall_metric) rs)
    × (report.aggregates.mrrs.count ≡ having (λ r. r.metrics.mrr_metric) rs)
    × (report.aggregates.ndcgs.count ≡ having (λ r. r.metrics.ndcg_metric) rs)
    × (report.aggregates.exacts.count ≡ having (λ r. r.metrics.exact_metric) rs)
    × (report.aggregates.f1s.count ≡ having (λ r. r.metrics.f1_metric) rs)
    × (report.aggregates.tool_sets.count ≡ having (λ r. r.metrics.tools_metric) rs)
    × (report.aggregates.relevances.count ≡ having (judge_value (λ s. s.relevance)) rs)
    × (report.aggregates.faithfulnesses.count ≡ having (judge_value (λ s. s.faithfulness)) rs)
    × (report.aggregates.completenesses.count ≡ having (judge_value (λ s. s.completeness)) rs)

-- A report has one result for each case that the tags select, in the order of the dataset; it counts
-- as failed the results with errors, and each aggregate counts the results that have its value, where
-- the three of the judge count the judged ones.
pub run-reports :
    {F E : Type 0} (fl : Floats F) (truncate : F → ℤ) (tokens : Text → List Text)
    (items : List Case) (cfg : EvalConfig) (deps : Dependencies F E)
    → let report = run fl truncate tokens items cfg deps in
      let rs = results fl truncate tokens (with_top_k cfg) deps items in Reported report rs
unfolding run add_case_aggregates
run-reports {F} {E} fl truncate tokens items cfg deps =
    let cfg' = with_top_k cfg in
    let first : Report F E = record {
      report_config = cfg';
      cases = [];
      aggregates = record {
        recalls = no_values fl;
        mrrs = no_values fl;
        ndcgs = no_values fl;
        exacts = no_values fl;
        f1s = no_values fl;
        tool_sets = no_values fl;
        relevances = no_values fl;
        faithfulnesses = no_values fl;
        completenesses = no_values fl;
      };
      failed_cases = 0;
    } in
    let (a, b) = run_cases_lem fl truncate tokens cfg' deps items first in
    let rs = results fl truncate tokens cfg' deps items in
    let counted : (part : Aggregates F → Aggregate F)
        → (value : CaseResult F E → Option F)
        → ((a : Aggregates F) (r : CaseResult F E)
            → part (add_case_aggregates fl truncate tokens a r)
              ≡ add_aggregate fl (part a) (value r))
        → (part first.aggregates).count ≡ 0
        → (part (run_cases fl truncate tokens items cfg' deps first).aggregates).count
          ≡ having value rs =
      λ part value law zero.
        omega
          (arith, zero, run_cases-count fl truncate tokens cfg' deps part value law items first) in
    (
      a,
      omega (arith, b),
      counted (λ a. a.recalls) (λ r. r.metrics.recall_metric) (λ a r. refl) refl,
      counted (λ a. a.mrrs) (λ r. r.metrics.mrr_metric) (λ a r. refl) refl,
      counted (λ a. a.ndcgs) (λ r. r.metrics.ndcg_metric) (λ a r. refl) refl,
      counted (λ a. a.exacts) (λ r. r.metrics.exact_metric) (λ a r. refl) refl,
      counted (λ a. a.f1s) (λ r. r.metrics.f1_metric) (λ a r. refl) refl,
      counted (λ a. a.tool_sets) (λ r. r.metrics.tools_metric) (λ a r. refl) refl,
      counted (λ a. a.relevances) (judge_value (λ s. s.relevance)) (λ a r. refl) refl,
      counted (λ a. a.faithfulnesses) (judge_value (λ s. s.faithfulness)) (λ a r. refl) refl,
      counted (λ a. a.completenesses) (judge_value (λ s. s.completeness)) (λ a r. refl) refl,
    )
