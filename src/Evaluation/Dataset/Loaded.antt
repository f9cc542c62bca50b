-- ===== src/Evaluation/Dataset/Loaded.antt =====
-- What a dataset that loads without an error looks like.
use on_call_agent.Base.{
  contains, ℕ, suc, ◌≡◌, Bool, true, not, ◌&&◌, List, [], ◌∷◌, Option, arith, Text, is_empty,
  trim_space, ok, Result-cases, Option-cases, Bool-cases, inl, inr, nat_eq, list_eq,
}
use on_call_agent.Evaluation.Dataset.{Case, trimmed, load_lines, load_jsonl}

-- Every case has an id and a question, no id is one of `seen`, and none comes twice.
abbrev pub well_formed : List Text → List Case → Bool
well_formed seen [] = true
well_formed seen (c ∷ cases) =
    not (is_empty c.case_id)
    && not (is_empty c.case_question)
    && not (contains c.case_id seen)
    && well_formed (c.case_id ∷ seen) cases

load_lines-well_formed :
    (unmarshal : Text → Option Case) (complete : Bool) (line : ℕ) (seen lines : List Text)
    (cases : List Case)
    → load_lines unmarshal complete line seen lines ≡ ok cases
    → well_formed seen cases ≡ true
unfolding load_lines
load_lines-well_formed unmarshal complete line seen [] cases h = ground arith
load_lines-well_formed unmarshal complete line seen (raw ∷ rest) cases h =
    elim (Option-cases (unmarshal (trim_space raw))) [
      | inl q ↦
          load_lines-well_formed unmarshal complete (suc line) seen rest cases (ground (arith, q))
      | inr (c, q) ↦ elim (Bool-cases (is_empty (trim_space raw))) [
        | inl blank ↦
            load_lines-well_formed unmarshal complete (suc line) seen rest cases
              (ground (arith, q, blank))
        | inr full ↦
            elim (Result-cases
              (load_lines unmarshal complete (suc line) ((trimmed c).case_id ∷ seen) rest)) [
                | inr (e, f) ↦ absurd (ground (arith, q, full, f))
                | inl (more, f) ↦
                    let ih =
                      load_lines-well_formed unmarshal complete (suc line)
                        ((trimmed c).case_id ∷ seen) rest more f in
                    ground (arith, q, full, f, ih)
              ]
      ]
    ]

-- In a dataset that LoadJSONL returns, every case has an id and a question that are not blank, and
-- no two cases have the same id.
load_jsonl-well_formed :
    (unmarshal : Text → Option Case) (complete : Bool) (lines : List Text) (cases : List Case)
    → load_jsonl unmarshal complete lines ≡ ok cases
    → well_formed [] cases ≡ true
unfolding load_jsonl
load_jsonl-well_formed unmarshal complete lines cases h =
    load_lines-well_formed unmarshal complete 0 [] lines cases h
