-- ===== src/Evaluation/Dataset/Tests.antt =====
-- A dataset of two lines, with a blank one between them.
use on_call_agent.Base.{[], Option, none, some, Text, codes, nat_eq, list_eq}
use on_call_agent.Evaluation.Dataset.{Case}

abbrev case_of : Text → Case
case_of id = record {
  case_id = id;
  case_question = codes "why?";
  relevant_doc_ids = [];
  reference_answer = [];
  expected_tools = none;
  tags = [];
}

abbrev unmarshal : Text → Option Case
unmarshal text = some (case_of text)
