-- ===== src/Retriever/Scope.antt =====
-- Whose documents a principal gets.
use on_call_agent.Base.{
  ◌≡◌, ℕ, Bool, true, ◌&&◌, List, [], ◌∷◌, ◌++◌, Option, none, some, Text, codes, map, nat_eq,
  list_eq, ok,
}
use on_call_agent.Retriever.{Milvus, SearchRequest}
use on_call_agent.Retriever.Documents.{SearchHit, SearchResult, Document}

-- Whether all that could be read of the ids in the results pass a test, and all of some texts.
abbrev pub all_pass : (Text → Bool) → List Text → Bool
all_pass test [] = true
all_pass test (i ∷ ids) = test i && all_pass test ids

abbrev pub ids_pass : (Text → Bool) → List (Option Text) → Bool
ids_pass test [] = true
ids_pass test (none ∷ ids) = ids_pass test ids
ids_pass test (some i ∷ ids) = test i && ids_pass test ids

abbrev pub results_pass : {F E : Type 0} → (Text → Bool) → List (SearchResult F E) → Bool
results_pass test [] = true
results_pass test (r ∷ results) =
    (elim r.ids [ none ↦ true | some ids ↦ ids_pass test ids ]) && results_pass test results

-- The ids of hits.
abbrev pub hit_ids : {F : Type 0} → List (SearchHit F) → List Text
hit_ids hits = map (λ h. h.hit_id) hits

-- What Milvus promises of a filter: a search gives only documents for which the filter holds.
abbrev pub Filters : {F E : Type 0} → (Text → Text → Bool) → Milvus F E → Type 0
Filters {F = F} {E = E} holds client =
    (request : SearchRequest) (results : List (SearchResult F E))
    → client.search request ≡ ok results
    → results_pass (holds request.filter) results ≡ true

-- The filter of a tenant.
abbrev pub filter_of : (Text → Text) → Text → Text
filter_of quote tenant = codes "metadata[\"tenant_id\"] == " ++ quote tenant

module _ {F E M : Type 0} (leq : F → F → Bool) (is_positive : F → Bool) (quote : Text → Text)
    (unmarshal : Text → Option M → Option (Option M)) (stamp : M → F → ℕ → M) (no_meta : M)
    (client : Milvus F E) where
  abbrev pub document_ids : List (Document M) → List Text
  document_ids docs = map (λ d. d.id) docs
