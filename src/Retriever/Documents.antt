-- ===== src/Retriever/Documents.antt =====
-- Hits and documents: searchHits, filterHits, columnsToDocuments and documentsForHits of
-- internal/ai/retriever/retriever.go. A document's metadata is an `M`, or nil.
pub mod Ordered
use on_call_agent.Base.{
  ℕ, suc, Bool, true, false, not, ◌==◌, List, [], ◌∷◌, ◌++◌, Option, none, some, if◌then◌else◌,
  ◌=?◌, Text, codes, is_empty, length, nat_eq, list_eq, Result, ok, err,
}
use on_call_agent.Base.Map.{get, put}

pub record SearchHit (F : Type 0) : Type 0 where
  pub hit_id : Text
  pub hit_distance : F
  pub hit_rank : ℕ

-- A client's SearchResult: its error, its ids, each of which may not be read as a text, or nil, and
-- the scores.
pub record SearchResult (F E : Type 0) : Type 0 where
  pub result_error : Option E
  pub ids : Option (List (Option Text))
  pub scores : List F

pub record Column : Type 0 where
  pub column_name : Text
  pub values : List (Option Text)

-- A schema.Document.
pub record Document (M : Type 0) : Type 0 where
  pub id : Text
  pub content : Text
  pub metadata : Option M

pub data RetrieveError (E : Type 0) : Type 0 where
  tenant_required embedder_missing embedding_size score_mismatch unreadable_id unreadable_column
        column_mismatch bad_metadata :
      RetrieveError E
  embedding_failed search_failed result_failed get_failed : E → RetrieveError E
  document_missing : Text → RetrieveError E

-- The loop over the ids of one result, of which there are as many as scores.
unfoldable pub read_hits :
    {F E : Type 0}
    → List (Option Text)
    → List F
    → List (SearchHit F)
    → Result (RetrieveError E) (List (SearchHit F))
read_hits [] scores hits = ok hits
read_hits (i ∷ ids) [] hits = ok hits
read_hits (none ∷ ids) (x ∷ scores) hits = err unreadable_id
read_hits (some i ∷ ids) (x ∷ scores) hits =
    if is_empty i
    then read_hits ids scores hits
    else read_hits ids scores
        (hits ++ record { hit_id = i; hit_distance = x; hit_rank = suc (length hits) } ∷ [])

-- searchHits, with the hits so far.
unfoldable pub hits_from :
    {F E : Type 0}
    → List (SearchResult F E)
    → List (SearchHit F)
    → Result (RetrieveError E) (List (SearchHit F))
hits_from [] hits = ok hits
hits_from (result ∷ results) hits = elim result.result_error [
  | some e ↦ err (result_failed e)
  | none ↦ elim result.ids [
    | none ↦ hits_from results hits
    | some ids ↦
        if not (length result.scores == length ids)
        then err score_mismatch
        else (elim (read_hits ids result.scores hits) [
          | err e ↦ err e
          | ok more ↦ hits_from results more
        ])
  ]
]

unfoldable pub search_hits :
    {F E : Type 0} → List (SearchResult F E) → Result (RetrieveError E) (List (SearchHit F))
search_hits results = hits_from results []

module _ {F : Type 0} (leq : F → F → Bool) (is_positive : F → Bool) where
  -- The loop of filterHits.
  unfoldable pub near : F → List (SearchHit F) → List (SearchHit F)
  near threshold [] = []
  near threshold (h ∷ hits) =
      let rest = near threshold hits in if leq h.hit_distance threshold then h ∷ rest else rest

  -- filterHits of valueOrZero: no threshold is 0, which keeps every hit.
  unfoldable pub filter_hits : List (SearchHit F) → Option F → List (SearchHit F)
  filter_hits hits none = hits
  filter_hits hits (some threshold) = if is_positive threshold then near threshold hits else hits

-- A document for each value of the first column.
abbrev pub blank : {M : Type 0} → M → List (Option Text) → List (Document M)
blank no_meta [] = []
blank no_meta (v ∷ values) =
    record { id = []; content = []; metadata = some no_meta } ∷ blank no_meta values

module _ {E M : Type 0} (unmarshal : Text → Option M → Option (Option M)) where
  -- The switch on the column's name, for one document.
  unfoldable pub set_value : Text → Text → Document M → Result (RetrieveError E) (Document M)
  set_value name value d =
      if name =? codes "id"
      then ok (record d { id = value })
      else if name =? codes "content"
      then ok (record d { content = value })
      else if name =? codes "metadata"
      then (if is_empty value then ok d else (elim (unmarshal value d.metadata) [
        | none ↦ err bad_metadata
        | some m ↦ ok (record d { metadata = m })
      ]))
      else ok d

  -- The loop over one column's values.
  unfoldable pub set_values :
      Text → List (Option Text) → List (Document M) → Result (RetrieveError E) (List (Document M))
  set_values name [] docs = ok docs
  set_values name (v ∷ values) [] = ok []
  set_values name (none ∷ values) (d ∷ docs) = err unreadable_column
  set_values name (some v ∷ values) (d ∷ docs) =
      let rest = set_values name values docs in
      elim (set_value name v d) [
        | err e ↦ err e
        | ok d' ↦ elim rest [ err e ↦ err e | ok ds ↦ ok (d' ∷ ds) ]
      ]

  -- The loop over the columns.
  unfoldable pub set_columns :
      List Column → List (Document M) → Result (RetrieveError E) (List (Document M))
  set_columns [] docs = ok docs
  set_columns (c ∷ columns) docs =
      if not (length c.values == length docs)
      then err column_mismatch
      else (elim (set_values c.column_name c.values docs) [
        | err e ↦ err e
        | ok docs' ↦ set_columns columns docs'
      ])

  -- columnsToDocuments
  unfoldable pub columns_to_documents :
      M → List Column → Result (RetrieveError E) (List (Document M))
  columns_to_documents no_meta [] = ok []
  columns_to_documents no_meta (c ∷ columns) = set_columns (c ∷ columns) (blank no_meta c.values)

-- byID: of documents with one id the last.
unfoldable pub by_id :
    {M : Type 0} → List (Document M) → List (Text × Document M) → List (Text × Document M)
by_id [] m = m
by_id (d ∷ docs) m = by_id docs (put d.id d m)

-- The three writes to a document's metadata.
unfoldable pub stamped :
    {F M : Type 0} → (M → F → ℕ → M) → M → SearchHit F → Document M → Document M
stamped {M = M} stamp no_meta h d =
    let m : M = elim d.metadata [ none ↦ no_meta | some m ↦ m ] in
    record d { metadata = some (stamp m h.hit_distance h.hit_rank) }

module _ {F E M : Type 0} (stamp : M → F → ℕ → M) (no_meta : M) where
  -- The loop over the hits. Hits of one id have one document, so the writes go to what `m` holds, and
  -- the result is what it holds in the end.
  unfoldable pub stamp_hits :
      List (SearchHit F)
      → List (Text × Document M)
      → Result (RetrieveError E) (List (Text × Document M))
  stamp_hits [] m = ok m
  stamp_hits (h ∷ hits) m = elim (get h.hit_id m) [
    | none ↦ err (document_missing h.hit_id)
    | some d ↦ stamp_hits hits (put h.hit_id (stamped stamp no_meta h d) m)
  ]

-- The documents of the hits, in the hits' order.
abbrev pub ordered :
    {F M : Type 0} → List (SearchHit F) → List (Text × Document M) → List (Document M)
ordered [] m = []
ordered (h ∷ hits) m =
    let rest = ordered hits m in elim (get h.hit_id m) [ none ↦ rest | some d ↦ d ∷ rest ]

-- documentsForHits
unfoldable pub documents_for_hits :
    {F E M : Type 0}
    → (Text → Option M → Option (Option M))
    → (M → F → ℕ → M)
    → M
    → List Column
    → List (SearchHit F)
    → Result (RetrieveError E) (List (Document M))
documents_for_hits unmarshal stamp no_meta columns hits =
    elim (columns_to_documents unmarshal no_meta columns) [
      | err e ↦ err e
      | ok documents ↦ elim (stamp_hits stamp no_meta hits (by_id documents [])) [
        | err e ↦ err e
        | ok m ↦ ok (ordered hits m)
      ]
    ]
