-- ===== src/Retriever/Documents/Ordered.antt =====
-- Which documents the hits get.
use on_call_agent.Base.{
  ◌≡◌, refl, subst, sym, ap, ◌∙◌, ℕ, List, [], ◌∷◌, Option, some, Text, arith, map, nat_eq, list_eq,
  list_beq_iff, Result, ok, Result-cases, Option-cases, inl, inr,
}
use on_call_agent.Base.Map.{get, put, get-put}
use on_call_agent.Retriever.Documents.{
  SearchHit, Column, Document, RetrieveError, by_id, stamped, stamp_hits, ordered,
  documents_for_hits, columns_to_documents,
}

module _ {M : Type 0} where
  -- A document is kept under its id.
  abbrev Keyed : List (Text × Document M) → Type 0
  Keyed m = (k : Text) (d : Document M) → get k m ≡ some d → d.id ≡ k

  nil-Keyed : Keyed []
  unfolding get
  nil-Keyed k d e = absurd (ground (arith, e))

  put-Keyed : (m : List (Text × Document M)) (d : Document M) → Keyed m → Keyed (put d.id d m)
  put-Keyed m d keyed k d' h =
      let old = keyed k d' in ground (arith, h, old, get-put d.id k d m, list_beq_iff d.id k)

  by_id-Keyed :
      (docs : List (Document M)) (m : List (Text × Document M)) → Keyed m → Keyed (by_id docs m)
  unfolding by_id
  by_id-Keyed [] m keyed = keyed
  by_id-Keyed (d ∷ docs) m keyed = by_id-Keyed docs (put d.id d m) (put-Keyed m d keyed)

module _ {F M : Type 0} (stamp : M → F → ℕ → M) (no_meta : M) where
  stamped-Keyed :
      (m : List (Text × Document M)) (h : SearchHit F) (d : Document M)
      → Keyed m
      → get h.hit_id m ≡ some d
      → Keyed (put h.hit_id (stamped stamp no_meta h d) m)
  unfolding stamped
  stamped-Keyed m h d keyed at k d' e =
      let old = keyed k d' in
      let own = keyed h.hit_id d at in
      ground (
        arith,
        e,
        old,
        own,
        get-put h.hit_id k (stamped stamp no_meta h d) m,
        list_beq_iff h.hit_id k,
      )

module _ {F E M : Type 0} (stamp : M → F → ℕ → M) (no_meta : M) where
  -- What was there stays there.
  stamp_hits-keeps :
      (hits : List (SearchHit F)) (m m' : List (Text × Document M)) (k : Text) (d : Document M)
      → ◌≡◌ {A = Result (RetrieveError E) (List (Text × Document M))}
          (stamp_hits stamp no_meta hits m)
          (ok m')
      → get k m ≡ some d
      → (d' : Document M) × (get k m' ≡ some d')
  unfolding stamp_hits
  stamp_hits-keeps [] m m' k d h at = (d, ground (arith, h, at))
  stamp_hits-keeps (x ∷ hits) m m' k d h at = elim (Option-cases (get x.hit_id m)) [
    | inl n ↦ absurd (ground (arith, h, n))
    | inr (d', n) ↦
        let s = stamped stamp no_meta x d' in
        elim (Option-cases (get k (put x.hit_id s m))) [
          | inl q ↦ absurd (ground (arith, q, at, get-put x.hit_id k s m))
          | inr (d'', q) ↦
              stamp_hits-keeps hits (put x.hit_id s m) m' k d'' (ground (arith, h, n)) q
        ]
  ]

  ids_lem :
      (hits : List (SearchHit F)) (m m' : List (Text × Document M))
      → ◌≡◌ {A = Result (RetrieveError E) (List (Text × Document M))}
          (stamp_hits stamp no_meta hits m)
          (ok m')
      → Keyed m
      → (map (λ (d : Document M). d.id) (ordered hits m')
          ≡ map (λ (h : SearchHit F). h.hit_id) hits)
        × Keyed m'
  unfolding stamp_hits
  ids_lem [] m m' h keyed = let e : m ≡ m' = ground (arith, h) in (refl, subst Keyed e keyed)
  ids_lem (x ∷ hits) m m' h keyed = elim (Option-cases (get x.hit_id m)) [
    | inl n ↦ absurd (ground (arith, h, n))
    | inr (d, n) ↦
        let s = stamped stamp no_meta x d in
        let m'' : List (Text × Document M) = put x.hit_id s m in
        let rest : ◌≡◌ {A = Result (RetrieveError E) (List (Text × Document M))}
            (stamp_hits stamp no_meta hits m'') (ok m') =
          ground (arith, h, n) in
        let (ids, keyed') = ids_lem hits m'' m' rest (stamped-Keyed stamp no_meta m x d keyed n) in
        let there : get x.hit_id m'' ≡ some s =
          ground (arith, get-put x.hit_id x.hit_id s m, list_beq_iff x.hit_id x.hit_id) in
        let (d', at) = stamp_hits-keeps hits m'' m' x.hit_id s rest there in
        let own = keyed' x.hit_id d' at in (ground (arith, at, own, ids), keyed')
  ]

-- Retrieved documents come in the order of the hits, one for each hit and with its id.
pub documents_for_hits-ids :
    {F E M : Type 0} (unmarshal : Text → Option M → Option (Option M)) (stamp : M → F → ℕ → M)
    (no_meta : M) (columns : List Column) (hits : List (SearchHit F)) (docs : List (Document M))
    → ◌≡◌ {A = Result (RetrieveError E) (List (Document M))}
        (documents_for_hits unmarshal stamp no_meta columns hits)
        (ok docs)
    → map (λ (d : Document M). d.id) docs ≡ map (λ (h : SearchHit F). h.hit_id) hits
unfolding documents_for_hits
documents_for_hits-ids {F = F} {E = E} {M = M} unmarshal stamp no_meta columns hits docs h =
    let read : Result (RetrieveError E) (List (Document M)) =
      columns_to_documents unmarshal no_meta columns in
    elim (Result-cases read) [
      | inr (e, q) ↦ absurd (ground (arith, h, q))
      | inl (documents, q) ↦
          let m : List (Text × Document M) = by_id documents [] in
          let stamping : Result (RetrieveError E) (List (Text × Document M)) =
            stamp_hits stamp no_meta hits m in
          elim (Result-cases stamping) [
            | inr (e, r) ↦ absurd (ground (arith, h, q, r))
            | inl (m', r) ↦
                let (ids, _) =
                  ids_lem stamp no_meta hits m m' r (by_id-Keyed documents [] nil-Keyed) in
                let same : ordered hits m' ≡ docs = ground (arith, h, q, r) in
                ap (map (λ (d : Document M). d.id)) (sym same) ∙ ids
          ]
    ]
