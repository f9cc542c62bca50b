-- ===== src/Evaluation/Stages/Outcomes.antt =====
-- What a result without errors holds, and where its judgement comes from.
use on_call_agent.Base.{
  ◌≡◌, refl, List, Option, none, some, arith, ℤ, Text, Result, ok, Result-cases, Option-cases, inl,
  inr,
}
use on_call_agent.Evaluation.Dataset.{Case}
use on_call_agent.Evaluation.Metrics.{Floats}
use on_call_agent.Evaluation.Documents.{Document, document_contents, recorded}
use on_call_agent.Evaluation.Judge.{JudgeInput, JudgeScore}
use on_call_agent.Evaluation.Stages.{
  EvalConfig, Dependencies, CaseResult, retrieval_stage, agent_stage, judge_stage, score_answer,
  run_case, opened,
}

module _ {F E : Type 0} (fl : Floats F) (truncate : F → ℤ) (tokens : Text → List Text) (item : Case)
    (cfg : EvalConfig) (deps : Dependencies F E) where
  judge_stage-judged :
      (docs : List (Option (Document F))) (r : CaseResult F E) (s : JudgeScore F)
      → r.judged ≡ none
      → (judge_stage fl truncate tokens item cfg deps docs r).judged ≡ some s
      → (judge : JudgeInput → Result E (JudgeScore F)) × (input : JudgeInput) × (deps.judge
          ≡ some judge)
        × (judge input ≡ ok s)
  unfolding judge_stage
  judge_stage-judged docs r s none_yet h = elim (Option-cases deps.judge) [
    | inl n ↦ absurd (ground (arith, n, h, none_yet))
    | inr (judge, n) ↦
        let input : JudgeInput = record {
          input_question = item.case_question;
          input_answer = r.answer;
          input_reference = item.reference_answer;
          contexts = document_contents docs;
        } in
        elim (Result-cases (judge input)) [
          | inl (score, e) ↦ (judge, input, n, ground (arith, n, h, e, none_yet))
          | inr (x, e) ↦ absurd (ground (arith, n, h, e, none_yet))
        ]
  ]

  agent_stage-judged :
      (docs : List (Option (Document F))) (r : CaseResult F E) (s : JudgeScore F)
      → r.judged ≡ none
      → (agent_stage fl truncate tokens item cfg deps docs r).judged ≡ some s
      → (judge : JudgeInput → Result E (JudgeScore F)) × (input : JudgeInput) × (deps.judge
          ≡ some judge)
        × (judge input ≡ ok s)
  unfolding agent_stage
  agent_stage-judged docs r s none_yet h = elim (Option-cases deps.agent) [
    | inl n ↦ absurd (ground (arith, n, h, none_yet))
    | inr (f, n) ↦ elim (Result-cases (f item.case_question).1) [
      | inr (e, q) ↦ absurd (ground (arith, n, h, q, none_yet))
      | inl (message, q) ↦ elim (Option-cases message) [
        | inl m ↦ absurd (ground (arith, n, h, q, m, none_yet))
        | inr (text, m) ↦
            let called = recorded (f item.case_question).0 in
            let ran : CaseResult F E = record r {
              tools = called;
              answer = text;
              metrics = score_answer fl tokens item text called r.metrics;
            } in
            judge_stage-judged docs ran s none_yet (ground (arith, n, h, q, m, none_yet))
      ]
    ]
  ]

  retrieval_stage-judged :
      (r : CaseResult F E)
      → r.judged ≡ none
      → (retrieval_stage fl truncate tokens item cfg deps r).0.judged ≡ none
  unfolding retrieval_stage
  retrieval_stage-judged r h = ground (arith, h)

  -- A result is judged only by the judge that the run was given.
  pub run_case-judged :
      (s : JudgeScore F)
      → (run_case fl truncate tokens item cfg deps).judged ≡ some s
      → (judge : JudgeInput → Result E (JudgeScore F)) × (input : JudgeInput) × (deps.judge
          ≡ some judge)
        × (judge input ≡ ok s)
  unfolding run_case
  run_case-judged s h =
      let (r, docs) =
        retrieval_stage fl truncate tokens item cfg deps (opened fl truncate tokens item) in
      agent_stage-judged _ _ s (retrieval_stage-judged (opened fl truncate tokens item) refl) h
