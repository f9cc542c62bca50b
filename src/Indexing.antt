-- ===== src/Indexing.antt =====
-- Indexing an uploaded file: tenantScopedTransformer and stableChunkID of
-- internal/ai/agent/knowledge_index_pipeline/transformer.go, and buildIntoIndex of
-- internal/controller/chat/chat_v1_file_upload.go. The loader, the splitter and Milvus are parameters.
pub mod Scope
mod Tests
use on_call_agent.Base.{
  ℕ, Bool, true, false, not, ◌==◌, List, [], ◌∷◌, ◌++◌, Option, none, some, if◌then◌else◌, ◌=?◌,
  Text, codes, is_empty, map, Result, ok, err, nat_eq, list_eq,
}
use on_call_agent.Auth.Service.{Principal}
use on_call_agent.Retriever.Documents.{Column}

-- A chunk as the splitter makes it, with the tenant in its metadata.
pub record Chunk : Type 0 where
  pub chunk_id : Text
  pub chunk_text : Text
  pub chunk_tenant : Option Text

pub data IndexError (E : Type 0) : Type 0 where
  tenant_required : IndexError E
  load_failed connect_failed query_failed transform_failed store_failed : E → IndexError E

-- The loop over the documents.
unfoldable pub stamp_chunks : Text → List Chunk → List Chunk
stamp_chunks tenant [] = []
stamp_chunks tenant (c ∷ chunks) =
    record c { chunk_tenant = some tenant } ∷ stamp_chunks tenant chunks

-- tenantScopedTransformer.Transform, with what the inner transformer answers.
unfoldable pub transform :
    {E : Type 0} → Option Principal → Result E (List Chunk) → Result (IndexError E) (List Chunk)
transform none inner = err tenant_required
transform (some p) inner = if is_empty p.tenant_id then err tenant_required else (elim inner [
  | err e ↦ err (transform_failed e)
  | ok chunks ↦ ok (stamp_chunks p.tenant_id chunks)
])

-- The separators of a path, where that of the platform is `/`.
abbrev pub to_slash : ℕ → ℕ
to_slash c = if c == b'\\' then b'/' else c

-- stableChunkID; `print` is %d, `sha256_hex` the hash in hexadecimal digits.
unfoldable pub stable_chunk_id : (ℕ → Text) → (Text → Text) → Text → ℕ → Text
stable_chunk_id print sha256_hex original index =
    sha256_hex (map to_slash original ++ codes ":" ++ print index)

-- What buildIntoIndex calls, over a state `S` of the collection. A loaded document is given by its
-- `_source`, and Delete answers whether it succeeded.
pub record Parts (S E : Type 0) : Type 0 where
  pub graph_built : Bool
  pub load : Result E (List Text)
  pub connect : Result E (Unit {0})
  pub query : S → Text → Result E (List Column)
  pub delete : S → Text → S × Bool
  pub split : Result E (List Chunk)
  pub store : S → List Chunk → S × Result E (List Text)

-- A nil graph or an empty list of documents makes it panic.
pub data Outcome (E : Type 0) : Type 0 where
  indexed : List Text → Outcome E
  index_failed : IndexError E → Outcome E
  panicked : Outcome E

-- The ids of one column that can be read.
unfoldable pub readable_ids : List (Option Text) → List Text
readable_ids [] = []
readable_ids (none ∷ values) = readable_ids values
readable_ids (some i ∷ values) = i ∷ readable_ids values

unfoldable pub ids_to_delete : List Column → List Text
ids_to_delete [] = []
ids_to_delete (c ∷ columns) =
    let rest = ids_to_delete columns in
    if c.column_name =? codes "id" then readable_ids c.values ++ rest else rest

-- strings.Join with `","`.
unfoldable pub join_ids : List Text → Text
join_ids [] = []
join_ids (i ∷ []) = i
join_ids (i ∷ j ∷ ids) = i ++ codes "\",\"" ++ join_ids (j ∷ ids)

module _ {S E : Type 0} (parts : Parts S E) where
  -- The deletion of what was found; that it failed is only printed.
  unfoldable pub delete_found : S → List Column → S
  delete_found s columns =
      let ids = ids_to_delete columns in
      if is_empty ids
      then s
      else (parts.delete s (codes "id in [\"" ++ join_ids ids ++ codes "\"]")).0

  -- The graph: the loader, the transformer and the indexer.
  unfoldable pub invoke_graph : Option Principal → S → S × Outcome E
  invoke_graph principal s = if not parts.graph_built then (s, panicked) else (elim parts.load [
    | err e ↦ (s, index_failed (load_failed e))
    | ok sources ↦ elim (transform principal parts.split) [
      | err e ↦ (s, index_failed e)
      | ok chunks ↦
          (let (s', r) = parts.store s chunks in
            (s', elim r [ err e ↦ index_failed (store_failed e) | ok ids ↦ indexed ids ]))
    ]
  ])

  -- buildIntoIndex
  unfoldable pub build_into_index : Option Principal → S → S × Outcome E
  build_into_index principal s = elim parts.load [
    | err e ↦ (s, index_failed (load_failed e))
    | ok sources ↦ elim parts.connect [
      | err e ↦ (s, index_failed (connect_failed e))
      | ok _ ↦ elim sources [
        | [] ↦ (s, panicked)
        | source ∷ rest ↦
            (let filter = codes "metadata[\"_source\"] == \"" ++ source ++ codes "\"" in
              elim (parts.query s filter) [
                | err e ↦ (s, index_failed (query_failed e))
                | ok columns ↦ invoke_graph principal (delete_found s columns)
              ])
      ]
    ]
  ]
