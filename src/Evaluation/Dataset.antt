-- ===== src/Evaluation/Dataset.antt =====
-- LoadJSONL of internal/evaluation/dataset.go over the lines that the scanner returned, and matchesTags
-- of runner.go. JSON is a parameter.
mod Loaded
mod Tests
use on_call_agent.Base.{
  contains, ℕ, suc, ◌≡◌, refl, Bool, true, false, not, ◌&&◌, ◌||◌, List, [], ◌∷◌, ◌++◌, Option,
  none, some, arith, if◌then◌else◌, ◌=?◌, Text, is_empty, trim_space, Result, ok, err, nat_eq,
  list_eq,
}

pub record Case : Type 0 where
  pub case_id : Text
  pub case_question : Text
  pub relevant_doc_ids : List Text
  pub reference_answer : Text
  pub expected_tools : Option (List Text)
  pub tags : List Text

-- The reason, in each constructor with the number of the line.
pub data DatasetError : Type 0 where
  bad_json id_required question_required duplicate_id : ℕ → DatasetError
  read_failed : DatasetError

abbrev pub trimmed : Case → Case
trimmed c = record c { case_id = trim_space c.case_id; case_question = trim_space c.case_question }

-- The cases that are read after `item`, a case that passed its checks.
abbrev pub add_case {ℓ} : {E : Type ℓ} → Case → Result E (List Case) → Result E (List Case)
add_case item (ok cases) = ok (item ∷ cases)
add_case item (err e) = err e

-- The loop over the lines; `line` is the number of the line before, `seen` the ids so far, and
-- `complete` whether the scanner stops at the end without an error.
unfoldable pub load_lines :
    (Text → Option Case) → Bool → ℕ → List Text → List Text → Result DatasetError (List Case)
load_lines unmarshal complete line seen [] = if complete then ok [] else err read_failed
load_lines unmarshal complete line seen (raw ∷ rest) =
    let skipped = load_lines unmarshal complete (suc line) seen rest in
    let text = trim_space raw in
    elim (unmarshal text) [
      | none ↦ if is_empty text then skipped else err (bad_json (suc line))
      | some c ↦
          (let item = trimmed c in
            let more = load_lines unmarshal complete (suc line) (item.case_id ∷ seen) rest in
            if is_empty text
            then skipped
            else if is_empty item.case_id
            then err (id_required (suc line))
            else if is_empty item.case_question
            then err (question_required (suc line))
            else if contains item.case_id seen
            then err (duplicate_id (suc line))
            else add_case item more)
    ]

-- LoadJSONL
unfoldable pub load_jsonl :
    (Text → Option Case) → Bool → List Text → Result DatasetError (List Case)
load_jsonl unmarshal complete lines = load_lines unmarshal complete 0 [] lines

-- matchesTags
unfoldable pub matches_tags : List Text → List Text → Bool
matches_tags case_tags [] = true
matches_tags case_tags (tag ∷ []) = contains tag case_tags
matches_tags case_tags (tag ∷ next ∷ rest) =
    contains tag case_tags || matches_tags case_tags (next ∷ rest)
