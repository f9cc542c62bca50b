-- ===== src/Indexing/Tests.antt =====
-- An upload over a collection of chunks that no query finds.
use on_call_agent.Base.{
  ◌≡◌, refl, true, List, [], ◌∷◌, ◌++◌, none, some, Text, codes, ok, nat_eq, list_eq,
}
use on_call_agent.Auth.Service.{principal_of}
use on_call_agent.Auth.Service.Tests.{alice}
use on_call_agent.Retriever.Documents.{Column}
use on_call_agent.Indexing.{
  Chunk, Parts, index_failed, tenant_required, transform, delete_found, ids_to_delete, readable_ids,
  invoke_graph, build_into_index,
}
use on_call_agent.Indexing.Scope.{IsScoped, build_into_index-IsScoped}

abbrev chunk : Chunk
chunk = record { chunk_id = codes "1"; chunk_text = codes "text"; chunk_tenant = none }

-- The collection holds one chunk of the file already.
abbrev columns : List Column
columns = record { column_name = codes "id"; values = some (codes "1") ∷ [] } ∷ []

abbrev parts : Parts (List Chunk) Text
parts = record {
  graph_built = true;
  load = ok (codes "a.md" ∷ []);
  connect = ok tt;
  query = λ chunks filter. ok columns;
  delete = λ chunks expression. ([], true);
  split = ok (chunk ∷ []);
  store = λ chunks more. (chunks ++ more, ok (codes "1" ∷ []));
}

-- Without a principal nothing is indexed, but what was there of the file is gone.
deleted_first : build_into_index parts none (chunk ∷ []) ≡ ([], index_failed tenant_required)
unfolding build_into_index invoke_graph transform delete_found ids_to_delete readable_ids
deleted_first = refl

build_into_index-IsScoped_example :
    IsScoped parts
      (some (principal_of alice))
      (build_into_index parts (some (principal_of alice)) (chunk ∷ []))
      (codes "1" ∷ [])
unfolding build_into_index invoke_graph transform
build_into_index-IsScoped_example =
    build_into_index-IsScoped parts (some (principal_of alice)) (chunk ∷ []) (codes "1" ∷ []) refl
