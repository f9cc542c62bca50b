-- ===== src/Evaluation/Runner/Tests.antt =====
-- A run over two cases, of which the tags select one, with a judge that is a chat model.
use on_call_agent.Base.{
  ◌≡◌, refl, ℕ, suc, Bool, true, false, List, [], ◌∷◌, Option, none, some, ℤ, pos, ltb, Text, codes,
  nat_eq, list_eq, Result, ok, err,
}
use on_call_agent.Evaluation.Dataset.{Case, matches_tags}
use on_call_agent.Evaluation.Metrics.Tests.{whole}
use on_call_agent.Evaluation.Judge.{JudgeInput, JudgeScore, JudgeError, evaluate, parse_judge_score}
use on_call_agent.Evaluation.Documents.{Document, other_value}
use on_call_agent.Evaluation.Stages.{EvalConfig, Dependencies, CaseResult, run_case}
use on_call_agent.Evaluation.Runner.{run, run_cases}
use on_call_agent.Evaluation.Runner.Reports.{run-reports, results, Reported}
use on_call_agent.Evaluation.Runner.Judged.{run-judged, IsFair}

abbrev case_of : Text → Text → Case
case_of id tag = record {
  case_id = id;
  case_question = codes "why";
  relevant_doc_ids = codes "d" ∷ [];
  reference_answer = [];
  expected_tools = none;
  tags = tag ∷ [];
}

abbrev two_cases : List Case
two_cases = case_of (codes "1") (codes "db") ∷ case_of (codes "2") (codes "net") ∷ []

abbrev config : EvalConfig
config = record {
  top_k = pos 0;
  selected_tags = codes "net" ∷ [];
  run_retrieval = true;
  run_agent = true;
  run_judge = true;
  model_name = [];
  embedding_name = [];
  revision = [];
}

abbrev above_one : ℕ → Bool
above_one n = ltb 1 n

abbrev never : ℕ → Bool
never n = false

abbrev fair : JudgeScore ℕ
fair = record { relevance = 1; faithfulness = 1; completeness = 0; reason = codes "ok" }

abbrev marshal : JudgeInput → Option Text
marshal input = some input.input_answer

abbrev decode : Text → Option (JudgeScore ℕ × Bool)
decode content = some (fair, true)

abbrev model : Option (Text → Result ℕ (Option Text))
model = some (λ payload. ok (some payload))

abbrev document : Document ℕ
document = record {
  doc_id = codes "d";
  doc_content = [];
  meta_rank = other_value;
  meta_distance = other_value;
}

abbrev deps : Dependencies ℕ (JudgeError ℕ)
deps = record {
  retrieve = some (λ question k. ok (some document ∷ []));
  agent = some (λ question. ([], ok (some question)));
  judge = some (evaluate never above_one marshal decode model);
}

abbrev cut : ℕ → ℤ
cut n = pos n

abbrev one_token : Text → List Text
one_token t = t ∷ []

one_case : (run whole cut one_token two_cases config deps).aggregates.recalls.count ≡ 1
unfolding run run_cases matches_tags on_call_agent.Evaluation.Runner.add_case_aggregates
    on_call_agent.Evaluation.Runner.add_aggregate run_case
    on_call_agent.Evaluation.Stages.agent_stage on_call_agent.Evaluation.Stages.judge_stage evaluate
    parse_judge_score on_call_agent.Base.trim_space on_call_agent.Evaluation.Stages.score_answer
    on_call_agent.Evaluation.Stages.retrieval_stage on_call_agent.Evaluation.Stages.score_retrieval
one_case = refl

run-reports_example :
    Reported
      (run whole cut one_token two_cases config deps)
      (results whole cut one_token (record config { top_k = pos 5 }) deps two_cases)
run-reports_example = run-reports whole cut one_token two_cases config deps

abbrev second : CaseResult ℕ (JudgeError ℕ)
second =
    run_case whole cut one_token (case_of (codes "2") (codes "net"))
      (record config { top_k = pos 5 }) deps

run-judged_example : IsFair never above_one fair
unfolding run run_cases matches_tags run_case on_call_agent.Evaluation.Stages.agent_stage
    on_call_agent.Evaluation.Stages.judge_stage evaluate parse_judge_score
    on_call_agent.Base.trim_space
run-judged_example =
    run-judged never above_one whole cut one_token two_cases config deps marshal decode model refl 0
      second fair refl refl
