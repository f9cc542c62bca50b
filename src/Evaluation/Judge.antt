-- ===== src/Evaluation/Judge.antt =====
-- The judge of the evaluation, internal/evaluation/judge.go. JSON and the chat model are parameters,
-- and so is the float64 of the scores.
use on_call_agent.Base.{
  Bool, not, ◌||◌, List, Option, none, some, if◌then◌else◌, Text, is_empty, trim_space, Result, ok,
  err,
}

pub record JudgeInput : Type 0 where
  pub input_question : Text
  pub input_answer : Text
  pub input_reference : Text
  pub contexts : List Text

pub record JudgeScore (F : Type 0) : Type 0 where
  pub relevance : F
  pub faithfulness : F
  pub completeness : F
  pub reason : Text

pub data JudgeError (E : Type 0) : Type 0 where
  not_configured not_marshalled no_message bad_score trailing_data out_of_range reason_required :
      JudgeError E
  model_failed : E → JudgeError E

module _ {F : Type 0} (below_zero above_one : F → Bool) where
  abbrev pub is_outside : F → Bool
  is_outside x = below_zero x || above_one x

  -- parseJudgeScore; the decoder answers with a score and with whether the text ends there.
  unfoldable pub parse_judge_score :
      {E : Type 0}
      → (Text → Option (JudgeScore F × Bool))
      → Text
      → Result (JudgeError E) (JudgeScore F)
  parse_judge_score decode content = elim (decode content) [
    | none ↦ err bad_score
    | some (score, ends) ↦
        if not ends
        then err trailing_data
        else if is_outside score.relevance
            || is_outside score.faithfulness
            || is_outside score.completeness
        then err out_of_range
        else if is_empty (trim_space score.reason)
        then err reason_required
        else ok score
  ]

  -- ModelJudge.Evaluate. The chat model gets the payload as its user message and answers with the
  -- content of a message, or with nil.
  unfoldable pub evaluate :
      {E : Type 0}
      → (JudgeInput → Option Text)
      → (Text → Option (JudgeScore F × Bool))
      → Option (Text → Result E (Option Text))
      → JudgeInput
      → Result (JudgeError E) (JudgeScore F)
  evaluate marshal decode none input = err not_configured
  evaluate marshal decode (some generate) input = elim (marshal input) [
    | none ↦ err not_marshalled
    | some payload ↦ elim (generate payload) [
      | err e ↦ err (model_failed e)
      | ok none ↦ err no_message
      | ok (some content) ↦ parse_judge_score decode content
    ]
  ]
