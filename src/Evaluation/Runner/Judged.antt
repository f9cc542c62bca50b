-- ===== src/Evaluation/Runner/Judged.antt =====
-- The judge's scores in a report.
use on_call_agent.Base.{
  ◌≡◌, sym, ap, ◌∙◌, ℕ, zero, suc, Bool, false, List, [], ◌∷◌, Option, none, some, arith, ℤ, Text,
  map, is_empty, trim_space, get_elem?, Result, ok, Result-cases, Option-cases, inl, inr,
}
use on_call_agent.Evaluation.Dataset.{Case}
use on_call_agent.Evaluation.Metrics.{Floats}
use on_call_agent.Evaluation.Judge.{
  JudgeInput, JudgeScore, JudgeError, evaluate, parse_judge_score, is_outside,
}
use on_call_agent.Evaluation.Stages.{EvalConfig, Dependencies, CaseResult, run_case}
use on_call_agent.Evaluation.Stages.Outcomes.{run_case-judged}
use on_call_agent.Evaluation.Runner.{run, with_top_k}
use on_call_agent.Evaluation.Runner.Reports.{results, selected, run-reports}

map-get_elem? :
    {A B : Type 0} (f : A → B) (xs : List A) (i : ℕ) (y : B)
    → get_elem? (map f xs) i ≡ some y
    → (x : A) × (f x ≡ y)
map-get_elem? f [] i y h = absurd (ground (arith, h))
map-get_elem? f (x ∷ xs) zero y h = (x, ground (arith, h))
map-get_elem? f (x ∷ xs) (suc i) y h = map-get_elem? f xs i y h

module _ {F : Type 0} (below_zero above_one : F → Bool) where
  -- Scores from 0 to 1, and a reason.
  abbrev pub IsFair : JudgeScore F → Type 0
  IsFair s =
      (is_outside below_zero above_one s.relevance ≡ false)
      × (is_outside below_zero above_one s.faithfulness ≡ false)
      × (is_outside below_zero above_one s.completeness ≡ false)
      × (is_empty (trim_space s.reason) ≡ false)

  parse_judge_score-IsFair :
      {E : Type 0} (decode : Text → Option (JudgeScore F × Bool)) (content : Text)
      (s : JudgeScore F)
      → ◌≡◌ {A = Result (JudgeError E) (JudgeScore F)}
          (parse_judge_score below_zero above_one decode content)
          (ok s)
      → IsFair s
  unfolding parse_judge_score
  parse_judge_score-IsFair decode content s h = elim (Option-cases (decode content)) [
    | inl n ↦ absurd (ground (arith, n, h))
    | inr ((score, ends), n) ↦ ground (arith, n, h)
  ]

  evaluate-IsFair :
      {E : Type 0} (marshal : JudgeInput → Option Text)
      (decode : Text → Option (JudgeScore F × Bool))
      (model : Option (Text → Result E (Option Text))) (input : JudgeInput) (s : JudgeScore F)
      → evaluate below_zero above_one marshal decode model input ≡ ok s
      → IsFair s
  unfolding evaluate
  evaluate-IsFair marshal decode none input s h = absurd (ground (arith, h))
  evaluate-IsFair {E = E} marshal decode (some generate) input s h =
      elim (Option-cases (marshal input)) [
        | inl n ↦ absurd (ground (arith, n, h))
        | inr (payload, n) ↦ elim (Result-cases (generate payload)) [
          | inr (e, q) ↦ absurd (ground (arith, n, q, h))
          | inl (none, q) ↦ absurd (ground (arith, n, q, h))
          | inl (some content, q) ↦
              parse_judge_score-IsFair {E = E} decode content s (ground (arith, n, q, h))
        ]
      ]

  module _ {E : Type 0} (fl : Floats F) (truncate : F → ℤ) (tokens : Text → List Text)
      (cfg : EvalConfig) (deps : Dependencies F (JudgeError E)) where
    results-get_elem? :
        (items : List Case) (i : ℕ) (r : CaseResult F (JudgeError E))
        → get_elem? (results fl truncate tokens cfg deps items) i ≡ some r
        → (item : Case) × (run_case fl truncate tokens item cfg deps ≡ r)
    results-get_elem? items i r h =
        map-get_elem? (λ item. run_case fl truncate tokens item cfg deps)
          (selected cfg.selected_tags items) i r h

  -- When the judge is a chat model, then however the model answers, each judgement in a report has its
  -- three scores from 0 to 1 and a reason.
  pub run-judged :
      {E : Type 0} (fl : Floats F) (truncate : F → ℤ) (tokens : Text → List Text)
      (items : List Case) (cfg : EvalConfig) (deps : Dependencies F (JudgeError E))
      (marshal : JudgeInput → Option Text) (decode : Text → Option (JudgeScore F × Bool))
      (model : Option (Text → Result E (Option Text)))
      → deps.judge ≡ some (evaluate below_zero above_one marshal decode model)
      → (i : ℕ) (r : CaseResult F (JudgeError E)) (s : JudgeScore F)
      → get_elem? (run fl truncate tokens items cfg deps).cases i ≡ some r
      → r.judged ≡ some s
      → IsFair s
  run-judged {E = E} fl truncate tokens items cfg deps marshal decode model by i r s at judged =
      let reported = run-reports fl truncate tokens items cfg deps in
      let (item, ran) =
        results-get_elem? fl truncate tokens (with_top_k cfg) deps items i r
          (sym (ap (λ rs. get_elem? rs i) reported.0) ∙ at) in
      let (judge, input, given, answered) =
        run_case-judged fl truncate tokens item (with_top_k cfg) deps s
          (ap (λ (q : CaseResult F (JudgeError E)). q.judged) ran ∙ judged) in
      evaluate-IsFair marshal decode model input s cc
