-- ===== src/Evaluation/Stages.antt =====
-- One case of the evaluation, runCase of internal/evaluation/runner.go. What a run depends on, the
-- retriever, the agent and the judge, is a record of functions, each of which may be missing; an error
-- is an `E`.
pub mod Outcomes
use on_call_agent.Base.{
  ℕ, zero, suc, ◌+◌, Bool, true, false, not, ◌&&◌, ◌||◌, List, [], ◌∷◌, ◌++◌, Option, none, some, ℤ,
  pos, negsuc, if◌then◌else◌, ltb_ℤ, Text, is_empty, Result, ok, err,
}
use on_call_agent.Evaluation.Dataset.{Case, matches_tags}
use on_call_agent.Evaluation.Metrics.{
  Floats, recall_at_k, mrr, ndcg_at_k, exact_match, token_f1, tool_set_accuracy,
}
use on_call_agent.Evaluation.Judge.{JudgeInput, JudgeScore}
use on_call_agent.Evaluation.Documents.{
  Document, RetrievedDocument, RunInfo, recorded, document_ids, document_contents,
  retrieved_documents,
}

pub record EvalConfig : Type 0 where
  pub top_k : ℤ
  pub selected_tags : List Text
  pub run_retrieval : Bool
  pub run_agent : Bool
  pub run_judge : Bool
  pub model_name : Text
  pub embedding_name : Text
  pub revision : Text

-- The agent answers with the starts that the recorder's handler saw, and a message's content or nil.
pub record Dependencies (F E : Type 0) : Type 0 where
  pub retrieve : Option (Text → ℤ → Result E (List (Option (Document F))))
  pub agent : Option (Text → List (Option RunInfo) × Result E (Option Text))
  pub judge : Option (JudgeInput → Result E (JudgeScore F))

pub data CaseError (E : Type 0) : Type 0 where
  retrieval_missing agent_missing agent_empty judge_missing : CaseError E
  retrieval_failed agent_failed judge_failed : E → CaseError E

pub record CaseMetrics (F : Type 0) : Type 0 where
  pub recall_metric : Option F
  pub mrr_metric : Option F
  pub ndcg_metric : Option F
  pub exact_metric : Option F
  pub f1_metric : Option F
  pub tools_metric : Option F

pub record CaseResult (F E : Type 0) : Type 0 where
  pub result_id : Text
  pub result_question : Text
  pub retrieved : List (RetrievedDocument F)
  pub answer : Text
  pub tools : List Text
  pub metrics : CaseMetrics F
  pub judged : Option (JudgeScore F)
  pub errors : List (CaseError E)

module _ {F : Type 0} (fl : Floats F) where
  -- The scores of a retrieval, where the case names relevant documents.
  unfoldable pub score_retrieval :
      Case → ℤ → List (Option (Document F)) → CaseMetrics F → CaseMetrics F
  score_retrieval item k docs m =
      if is_empty item.relevant_doc_ids
      then m
      else (let ids = document_ids docs in
          record m {
            recall_metric = some (recall_at_k fl ids item.relevant_doc_ids k);
            mrr_metric = some (mrr fl ids item.relevant_doc_ids);
            ndcg_metric = some (ndcg_at_k fl ids item.relevant_doc_ids k);
          })

module _ {F : Type 0} (fl : Floats F) (tokens : Text → List Text) where
  -- The scores of an answer.
  unfoldable pub score_answer : Case → Text → List Text → CaseMetrics F → CaseMetrics F
  score_answer item text called m =
      let reference = item.reference_answer in
      let scored = if is_empty reference then m else record m {
        exact_metric = some (exact_match fl (tokens text) (tokens reference));
        f1_metric = some (token_f1 fl (tokens text) (tokens reference)).f1;
      } in
      elim item.expected_tools [
        | none ↦ scored
        | some expected ↦ record scored {
          tools_metric = some (tool_set_accuracy fl called expected);
        }
      ]

module _ {F E : Type 0} (fl : Floats F) (truncate : F → ℤ) (tokens : Text → List Text) where
  -- A result before its stages.
  abbrev pub opened : Case → CaseResult F E
  opened item = record {
    result_id = item.case_id;
    result_question = item.case_question;
    retrieved = [];
    answer = [];
    tools = [];
    metrics = record {
      recall_metric = none;
      mrr_metric = none;
      ndcg_metric = none;
      exact_metric = none;
      f1_metric = none;
      tools_metric = none;
    };
    judged = none;
    errors = [];
  }

  abbrev pub fail : CaseResult F E → CaseError E → CaseResult F E
  fail r e = record r { errors = r.errors ++ e ∷ [] }

  -- The first stage, with the documents for the judge.
  unfoldable pub retrieval_stage :
      Case
      → EvalConfig
      → Dependencies F E
      → CaseResult F E
      → CaseResult F E × List (Option (Document F))
  retrieval_stage item cfg deps r = if not cfg.run_retrieval then (r, []) else (elim deps.retrieve [
    | none ↦ (fail r retrieval_missing, [])
    | some f ↦ elim (f item.case_question cfg.top_k) [
      | err e ↦ (fail r (retrieval_failed e), [])
      | ok docs ↦ (
        record r {
          retrieved = retrieved_documents truncate docs;
          metrics = score_retrieval fl item cfg.top_k docs r.metrics;
        },
        docs,
      )
    ]
  ])

  unfoldable pub judge_stage :
      Case
      → EvalConfig
      → Dependencies F E
      → List (Option (Document F))
      → CaseResult F E
      → CaseResult F E
  judge_stage item cfg deps docs r = if not cfg.run_judge then r else (elim deps.judge [
    | none ↦ fail r judge_missing
    | some evaluate ↦
        (let input : JudgeInput = record {
          input_question = item.case_question;
          input_answer = r.answer;
          input_reference = item.reference_answer;
          contexts = document_contents docs;
        } in
          elim (evaluate input) [
            | err e ↦ fail r (judge_failed e)
            | ok score ↦ record r { judged = some score }
          ])
  ])

  unfoldable pub agent_stage :
      Case
      → EvalConfig
      → Dependencies F E
      → List (Option (Document F))
      → CaseResult F E
      → CaseResult F E
  agent_stage item cfg deps docs r = if not cfg.run_agent then r else (elim deps.agent [
    | none ↦ fail r agent_missing
    | some f ↦
        (let (infos, outcome) = f item.case_question in
          let called = recorded infos in
          let ran : CaseResult F E = record r { tools = called } in
          elim outcome [
            | err e ↦ fail ran (agent_failed e)
            | ok none ↦ fail ran agent_empty
            | ok (some text) ↦ judge_stage item cfg deps docs (record ran {
              answer = text;
              metrics = score_answer fl tokens item text called ran.metrics;
            })
          ])
  ])

  -- runCase
  unfoldable pub run_case : Case → EvalConfig → Dependencies F E → CaseResult F E
  run_case item cfg deps =
      let (r, docs) = retrieval_stage item cfg deps (opened item) in
      agent_stage item cfg deps docs r
