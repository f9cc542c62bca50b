-- ===== src/Retriever.antt =====
-- Retrieval from Milvus, internal/ai/retriever/retriever.go. The Milvus client, the embedder, JSON,
-- strconv and the float64 of distances are parameters.
pub mod Documents
pub mod Bytes
pub mod Scope
mod Tests
use on_call_agent.Base.{
  ℕ, zero, suc, ◌+◌, ◌/◌, ◌%◌, ◌^◌, Bool, true, false, not, ◌||◌, ◌==◌, List, [], ◌∷◌, ◌++◌, Option,
  none, some, ℤ, pos, negsuc, if◌then◌else◌, ltb_ℤ, Text, codes, is_empty, length, map, Result, ok,
  err,
}
use on_call_agent.Auth.Service.{Principal}
use on_call_agent.Retriever.Documents.{
  SearchHit, SearchResult, Column, Document, RetrieveError, search_hits, filter_hits,
  documents_for_hits, tenant_required, embedder_missing, embedding_failed, embedding_size,
  search_failed, get_failed,
}

pub record RetrieverConfig (F : Type 0) : Type 0 where
  pub top_k : ℤ
  pub distance_threshold : Option F

-- loadRetrieverConfig, with the texts of the two settings, where they are set.
unfoldable pub load_retriever_config :
    {F : Type 0}
    → (Text → Option ℤ)
    → (Text → Option F)
    → (F → Bool)
    → Option Text
    → Option Text
    → RetrieverConfig F
load_retriever_config atoi parse_float is_positive top_k_text threshold_text = record {
  top_k = elim top_k_text [
    | none ↦ pos 5
    | some t ↦ elim (atoi t) [ none ↦ pos 5 | some k ↦ if ltb_ℤ (pos 0) k then k else pos 5 ]
  ];
  distance_threshold = elim threshold_text [
    | none ↦ none
    | some t ↦ elim (parse_float t) [
      | none ↦ none
      | some x ↦ if is_positive x then some x else none
    ]
  ];
}

-- The four bytes of a float32's bits, the lowest first.
abbrev pub bytes_of : ℕ → List ℕ
bytes_of bits =
    bits % 2 ^ 8 ∷ bits / 2 ^ 8 % 2 ^ 8 ∷ bits / 2 ^ 16 % 2 ^ 8 ∷ bits / 2 ^ 24 % 2 ^ 8 ∷ []

-- vectorToBytes, of the bits of the vector's values.
unfoldable pub vector_to_bytes : List ℕ → List ℕ
vector_to_bytes [] = []
vector_to_bytes (bits ∷ vector) = bytes_of bits ++ vector_to_bytes vector

-- What Search is called with that is not constant.
pub record SearchRequest : Type 0 where
  pub filter : Text
  pub vector : List ℕ
  pub limit : ℤ

-- The calls of the Milvus client; Get is asked for documents by their ids.
pub record Milvus (F E : Type 0) : Type 0 where
  pub search : SearchRequest → Result E (List (SearchResult F E))
  pub get : List Text → Result E (List Column)

-- An embedder gives the bits of the vectors for a text.
abbrev pub Embedder : Type 0 → Type 0
Embedder E = Text → Result E (List (List ℕ))

-- tenantFilterExpression; `quote` is strconv.Quote.
unfoldable pub tenant_filter_expression :
    {E : Type 0} → (Text → Text) → Option Principal → Result (RetrieveError E) Text
tenant_filter_expression quote none = err tenant_required
tenant_filter_expression quote (some p) =
    if is_empty p.tenant_id
    then err tenant_required
    else ok (codes "metadata[\"tenant_id\"] == " ++ quote p.tenant_id)

module _ {F E M : Type 0} (leq : F → F → Bool) (is_positive : F → Bool) (quote : Text → Text)
    (unmarshal : Text → Option M → Option (Option M)) (stamp : M → F → ℕ → M) (no_meta : M)
    (client : Milvus F E) where
  -- After the search: the hits, filtered, and their documents.
  unfoldable pub fetch :
      Option F → List (SearchResult F E) → Result (RetrieveError E) (List (Document M))
  fetch threshold results = elim (search_hits results) [
    | err e ↦ err e
    | ok found ↦
        (let hits = filter_hits leq is_positive found threshold in
          if is_empty hits
          then ok []
          else (elim (client.get (map (λ (h : SearchHit F). h.hit_id) hits)) [
            | err e ↦ err (get_failed e)
            | ok columns ↦ documents_for_hits unmarshal stamp no_meta columns hits
          ]))
  ]

  -- The query's vector is known: the search.
  unfoldable pub search_vector :
      Text → RetrieverConfig F → ℤ → List (List ℕ) → Result (RetrieveError E) (List (Document M))
  search_vector filter config k [] = err embedding_size
  search_vector filter config k (v ∷ w ∷ vs) = err embedding_size
  search_vector filter config k (v ∷ []) =
      elim (client.search (record { filter = filter; vector = vector_to_bytes v; limit = k })) [
        | err e ↦ err (search_failed e)
        | ok results ↦ fetch config.distance_threshold results
      ]

  -- Retrieve, with what the options say of the number of hits and the embedder.
  unfoldable pub retrieve :
      Option Principal
      → RetrieverConfig F
      → Option (Embedder E)
      → Option ℤ
      → Option (Embedder E)
      → Text
      → Result (RetrieveError E) (List (Document M))
  retrieve principal config embedder option_k option_embedder query =
      elim (tenant_filter_expression quote principal) [
        | err e ↦ err e
        | ok filter ↦
            (let k : ℤ = elim option_k [ none ↦ config.top_k | some n ↦ n ] in
              let chosen : Option (Embedder E) = elim option_embedder [
                | none ↦ embedder
                | some e ↦ some e
              ] in
              elim chosen [
                | none ↦ err embedder_missing
                | some embed ↦ elim (embed query) [
                  | err e ↦ err (embedding_failed e)
                  | ok vectors ↦ search_vector filter config k vectors
                ]
              ])
      ]
