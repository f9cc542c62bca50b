-- ===== src/Evaluation/Documents.antt =====
-- What the runner of the evaluation takes from documents and callbacks, internal/evaluation/runner.go.
use on_call_agent.Base.{
  ℕ, suc, Bool, List, [], ◌∷◌, Option, none, some, ℤ, pos, if◌then◌else◌, ltb_ℤ, Text, is_empty,
}

-- A value of a document's metadata, by its Go type; a missing one is `other_value`.
pub data MetaValue (F : Type 0) : Type 0 where
  int_value int64_value : ℤ → MetaValue F
  float64_value float32_value : F → MetaValue F
  other_value : MetaValue F

pub record Document (F : Type 0) : Type 0 where
  pub doc_id : Text
  pub doc_content : Text
  pub meta_rank : MetaValue F
  pub meta_distance : MetaValue F

pub record RetrievedDocument (F : Type 0) : Type 0 where
  pub retrieved_id : Text
  pub rank : ℤ
  pub distance : Option F

-- A callback's RunInfo.
pub record RunInfo : Type 0 where
  pub is_tool : Bool
  pub info_name : Text
  pub info_type : Text

-- toolRecorder: the names that the handler keeps.
unfoldable pub recorded : List (Option RunInfo) → List Text
recorded [] = []
recorded (none ∷ infos) = recorded infos
recorded (some info ∷ infos) =
    let rest = recorded infos in
    if info.is_tool
    then (if is_empty info.info_name then info.info_type else info.info_name) ∷ rest
    else rest

-- documentIDs
unfoldable pub document_ids : {F : Type 0} → List (Option (Document F)) → List Text
document_ids [] = []
document_ids (none ∷ docs) = document_ids docs
document_ids (some doc ∷ docs) = doc.doc_id ∷ document_ids docs

-- documentContents
unfoldable pub document_contents : {F : Type 0} → List (Option (Document F)) → List Text
document_contents [] = []
document_contents (none ∷ docs) = document_contents docs
document_contents (some doc ∷ docs) = doc.doc_content ∷ document_contents docs

-- numericFloat, with the conversion from float32 done.
unfoldable pub numeric_float : {F : Type 0} → MetaValue F → Option F
numeric_float (int_value n) = none
numeric_float (int64_value n) = none
numeric_float (float64_value x) = some x
numeric_float (float32_value x) = some x
numeric_float other_value = none

-- numericInt; `truncate` converts a float64.
unfoldable pub numeric_int : {F : Type 0} → (F → ℤ) → MetaValue F → Option ℤ
numeric_int truncate (int_value n) = some n
numeric_int truncate (int64_value n) = some n
numeric_int truncate (float64_value x) = some (truncate x)
numeric_int truncate (float32_value x) = none
numeric_int truncate other_value = none

module _ {F : Type 0} (truncate : F → ℤ) where
  -- The loop of retrievedDocuments from one index on.
  unfoldable pub ranked_from : ℕ → List (Option (Document F)) → List (RetrievedDocument F)
  ranked_from index [] = []
  ranked_from index (none ∷ docs) = ranked_from (suc index) docs
  ranked_from index (some doc ∷ docs) =
      record {
        retrieved_id = doc.doc_id;
        rank = elim (numeric_int truncate doc.meta_rank) [ none ↦ pos (suc index) | some n ↦ n ];
        distance = numeric_float doc.meta_distance;
      }
      ∷ ranked_from (suc index) docs

  -- sort.SliceStable by rank: each document goes behind those before it that rank no later.
  unfoldable pub insert_ranked :
      RetrievedDocument F → List (RetrievedDocument F) → List (RetrievedDocument F)
  insert_ranked d [] = d ∷ []
  insert_ranked d (x ∷ xs) =
      let rest = insert_ranked d xs in if ltb_ℤ x.rank d.rank then x ∷ rest else d ∷ x ∷ xs

  unfoldable pub sort_ranked : List (RetrievedDocument F) → List (RetrievedDocument F)
  sort_ranked [] = []
  sort_ranked (d ∷ ds) = insert_ranked d (sort_ranked ds)

  -- retrievedDocuments
  unfoldable pub retrieved_documents : List (Option (Document F)) → List (RetrievedDocument F)
  retrieved_documents docs = sort_ranked (ranked_from 0 docs)
