-- ===== src/Indexing/Scope.antt =====
-- Which tenant an indexed file belongs to.
use on_call_agent.Base.{
  ◌≡◌, refl, subst, sym, ap, ◌∙◌, Bool, true, false, ◌&&◌, List, [], ◌∷◌, ◌++◌, Option, none, some,
  ◌=?◌, Text, codes, is_empty, arith, Result, ok, Result-cases, Option-cases, Bool-cases, inl, inr,
  nat_eq, list_eq, list_beq_iff,
}
use on_call_agent.Auth.Service.{Principal}
use on_call_agent.Indexing.{
  Chunk, IndexError, Parts, Outcome, indexed, stamp_chunks, transform, delete_found, invoke_graph,
  build_into_index,
}

-- Whether all chunks carry a tenant.
abbrev pub all_of : Text → List Chunk → Bool
all_of tenant [] = true
all_of tenant (c ∷ chunks) =
    (elim c.chunk_tenant [ none ↦ false | some t ↦ t =? tenant ]) && all_of tenant chunks

all_of-stamp_chunks :
    (tenant : Text) (chunks : List Chunk) → all_of tenant (stamp_chunks tenant chunks) ≡ true
unfolding stamp_chunks
all_of-stamp_chunks tenant [] = refl
all_of-stamp_chunks tenant (c ∷ chunks) =
    ground (arith, list_beq_iff tenant tenant, all_of-stamp_chunks tenant chunks)

module _ {S E : Type 0} (parts : Parts S E) (principal : Option Principal) where
  -- How an indexing ended that stored its chunks.
  abbrev pub IsScoped : S × Outcome E → List Text → Type 0
  IsScoped end ids =
      (p : Principal) × (chunks : List Chunk) × (before : S) × (principal ≡ some p)
      × (is_empty p.tenant_id ≡ false)
      × (all_of p.tenant_id chunks ≡ true)
      × (parts.store before chunks ≡ (end.0, ok ids))

  transform_lem :
      (inner : Result E (List Chunk)) (chunks : List Chunk)
      → transform principal inner ≡ ok chunks
      → (p : Principal) × (principal ≡ some p)
        × (is_empty p.tenant_id ≡ false)
        × (all_of p.tenant_id chunks ≡ true)
  unfolding transform
  transform_lem inner chunks h = elim (Option-cases principal) [
    | inl n ↦ absurd (ground (arith, h, n))
    | inr (p, n) ↦ elim (Bool-cases (is_empty p.tenant_id)) [
      | inl e ↦ absurd (ground (arith, h, n, e))
      | inr e ↦ elim (Result-cases inner) [
        | inr (x, q) ↦ absurd (ground (arith, h, n, e, q))
        | inl (cs, q) ↦
            let same : stamp_chunks p.tenant_id cs ≡ chunks = ground (arith, h, n, e, q) in
            (p, n, e, ap (all_of p.tenant_id) (sym same) ∙ all_of-stamp_chunks p.tenant_id cs)
      ]
    ]
  ]

  invoke_graph-IsScoped :
      (s : S) (ids : List Text)
      → (invoke_graph parts principal s).1 ≡ indexed ids
      → IsScoped (invoke_graph parts principal s) ids
  unfolding invoke_graph
  invoke_graph-IsScoped s ids h = elim (Bool-cases parts.graph_built) [
    | inr b ↦ absurd (ground (arith, h, b))
    | inl b ↦ elim (Result-cases parts.load) [
      | inr (x, l) ↦ absurd (ground (arith, h, b, l))
      | inl (sources, l) ↦
          let made : Result (IndexError E) (List Chunk) = transform principal parts.split in
          elim (Result-cases made) [
            | inr (x, m) ↦ absurd (ground (arith, h, b, l, m))
            | inl (chunks, m) ↦
                let (p, n, e, a) = transform_lem parts.split chunks m in
                elim (Result-cases (parts.store s chunks).1) [
                  | inr (x, r) ↦ absurd (ground (arith, h, b, l, m, r))
                  | inl (stored, r) ↦ (p, chunks, s, n, e, a, ground (arith, h, b, l, m, r))
                ]
          ]
    ]
  ]

  -- An upload that reports its chunks as indexed was made by a principal with a tenant, and what it
  -- stored are chunks that all carry that tenant.
  pub build_into_index-IsScoped :
      (s : S) (ids : List Text)
      → (build_into_index parts principal s).1 ≡ indexed ids
      → IsScoped (build_into_index parts principal s) ids
  unfolding build_into_index
  build_into_index-IsScoped s ids h = elim (Result-cases parts.load) [
    | inr (x, l) ↦ absurd (ground (arith, h, l))
    | inl ([], l) ↦ absurd (ground (arith, h, l))
    | inl (source ∷ rest, l) ↦ elim (Result-cases parts.connect) [
      | inr (x, c) ↦ absurd (ground (arith, h, l, c))
      | inl (u, c) ↦
          let filter : Text = codes "metadata[\"_source\"] == \"" ++ source ++ codes "\"" in
          elim (Result-cases (parts.query s filter)) [
            | inr (x, q) ↦ absurd (ground (arith, h, l, c, q))
            | inl (columns, q) ↦
                let s' : S = delete_found parts s columns in
                let e : build_into_index parts principal s ≡ invoke_graph parts principal s' =
                  ground (arith, l, c, q) in
                subst (λ end. IsScoped end ids) (sym e)
                  (invoke_graph-IsScoped s' ids (ap (λ (end : S × Outcome E). end.1) (sym e) ∙ h))
          ]
    ]
  ]
