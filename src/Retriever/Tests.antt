-- ===== src/Retriever/Tests.antt =====
-- A collection with two documents of one tenant.
use on_call_agent.Base.{
  ℕ, Bool, List, [], ◌∷◌, Option, none, some, pos, if◌then◌else◌, ◌=?◌, ltb, Text, codes, nat_eq,
  list_eq, ok,
}
use on_call_agent.Base.Map.{get}
use on_call_agent.Retriever.{Milvus, SearchRequest, RetrieverConfig, Embedder, vector_to_bytes}
use on_call_agent.Retriever.Documents.{SearchHit, SearchResult, Column, Document}
use on_call_agent.Retriever.Scope.{filter_of}

abbrev same : Text → Text
same t = t

abbrev acme : Text
acme = codes "tenant-acme"

abbrev holds : Text → Text → Bool
holds filter i = filter =? filter_of same acme

abbrev found : SearchResult ℕ ℕ
found = record {
  result_error = none;
  ids = some (some (codes "a") ∷ some (codes "b") ∷ []);
  scores = 1 ∷ 9 ∷ [];
}

abbrev columns : List Column
columns =
    record { column_name = codes "id"; values = some (codes "b") ∷ some (codes "a") ∷ [] }
    ∷ record { column_name = codes "content"; values = some (codes "B") ∷ some (codes "A") ∷ [] }
    ∷ []

abbrev client : Milvus ℕ ℕ
client = record {
  search = λ request. ok (if request.filter =? filter_of same acme then found ∷ [] else []);
  get = λ ids. ok columns;
}

abbrev keep : Text → Option ℕ → Option (Option ℕ)
keep t m = some m

abbrev last_rank : ℕ → ℕ → ℕ → ℕ
last_rank m distance rank = rank

abbrev config : RetrieverConfig ℕ
config = record { top_k = pos 5; distance_threshold = some 5 }

abbrev embed : Embedder ℕ
embed query = ok ((7 ∷ []) ∷ [])

abbrev positive : ℕ → Bool
positive n = ltb 0 n

abbrev near_document : Document ℕ
near_document = record { id = codes "a"; content = codes "A"; metadata = some 1 }

abbrev hits : List (SearchHit ℕ)
hits = record { hit_id = codes "a"; hit_distance = 1; hit_rank = 1 } ∷ []

abbrev one_value : List ℕ
one_value = 1065353216 ∷ []
