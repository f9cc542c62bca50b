-- ===== src/Evaluation/Metrics/Ranks.antt =====
-- What the scores of a ranking say of one another.
use on_call_agent.Base.{
  ◌≡◌, ◌↔◌, refl, sym, subst, ap, ◌∙◌, ℕ, zero, suc, ◌+◌, ◌≤◌, ◌<◌, true, false, List, [], ◌∷◌,
  ◌++◌, none, some, pos, if◌then◌else◌, arith, Text, is_empty, contains, all_differ,
  unique_from-differ, length, take, drop, take-append-drop, length-take, ltb, nat_eq, list_eq,
  Bool-cases, inl, inr,
}
use on_call_agent.Evaluation.Metrics.{
  Floats, hits_at, first_rank, top, gains, ideal_gains, gain, ndcg_at_k, string_set, unique_strings,
  count_in, all_in,
}
use on_call_agent.Evaluation.Metrics.Counting.{
  count_in_comm, count_in-all, count_in-append, count_in-bound, all_differ-top,
}
use on_call_agent.Evaluation.Metrics.Sets.{string_set-differ}

unique_strings-differ : (xs : List Text) → all_differ (unique_strings xs) ≡ true
unfolding unique_strings
unique_strings-differ xs = unique_from-differ [] xs

-- RecallAtK counts each relevant document that is among the first k different ones retrieved, once;
-- so it divides by no less than what it divides.
hits_at_lem :
    (retrieved relevant : List Text) (k : ℕ)
    → (hits_at retrieved relevant k
        ≡ count_in (top k (unique_strings retrieved)) (string_set relevant))
      × (hits_at retrieved relevant k ≤ length (string_set relevant))
unfolding hits_at
hits_at_lem retrieved relevant k =
    let set = string_set-differ relevant in
    let ranked = all_differ-top k (unique_strings retrieved) (unique_strings-differ retrieved) in
    (
      count_in_comm (string_set relevant) (top k (unique_strings retrieved)) set ranked,
      count_in-bound (string_set relevant) (top k (unique_strings retrieved)) set ranked,
    )

-- Ranks are counted from where the loop starts.
first_rank_lem :
    (set : List Text) (index : ℕ) (ids : List Text) (rank : ℕ)
    → first_rank set index ids ≡ some rank
    → index < rank
unfolding first_rank
first_rank_lem set index [] rank h = absurd (ground (arith, h))
first_rank_lem set index (id ∷ ids) rank h =
    ground (arith, h, first_rank_lem set (suc index) ids rank)

first_rank-none :
    (set : List Text) (index : ℕ) (ids : List Text)
    → first_rank set index ids ≡ none
    → count_in set ids ≡ 0
unfolding first_rank count_in
first_rank-none set index [] h = refl
first_rank-none set index (id ∷ ids) h = ground (arith, h, first_rank-none set (suc index) ids)

-- The first rank is within the first k exactly when one of the first k counts.
rank_within :
    (set : List Text) (index : ℕ) (ids : List Text) (rank k : ℕ)
    → first_rank set index ids ≡ some rank
    → ((0 < count_in set (take k ids)) ↔ (rank ≤ index + k))
unfolding first_rank count_in
rank_within set index [] rank k h = absurd (ground (arith, h))
rank_within set index (id ∷ ids) rank zero h =
    ground (arith, h, first_rank_lem set index (id ∷ ids) rank)
rank_within set index (id ∷ ids) rank (suc k) h =
    ground (arith, h, rank_within set (suc index) ids rank k)

take-all : (k : ℕ) (xs : List Text) → length xs ≤ k → take k xs ≡ xs
take-all zero [] h = refl
take-all zero (x ∷ xs) h = absurd (omega (arith, h))
take-all (suc k) [] h = refl
take-all (suc k) (x ∷ xs) h =
    let shorter : length xs ≤ k = omega (arith, h) in ap (λ ys. x ∷ ys) (take-all k xs shorter)

top_lem : (k : ℕ) (xs : List Text) → top k xs ≡ take k xs
top_lem k xs = ground (arith, take-all k xs)

-- The rank by which MRR scores a retrieval is at most k exactly when RecallAtK counts something among
-- the first k.
first_rank-hits_at :
    (retrieved relevant : List Text) (rank k : ℕ)
    → first_rank (string_set relevant) 0 (unique_strings retrieved) ≡ some rank
    → ((0 < hits_at retrieved relevant k) ↔ (rank ≤ k))
unfolding hits_at
first_rank-hits_at retrieved relevant rank k h = ground (
  arith,
  top_lem k (unique_strings retrieved),
  rank_within (string_set relevant) 0 (unique_strings retrieved) rank k h,
)

take-take : (n k : ℕ) (xs : List Text) → n ≤ k → take n (take k xs) ≡ take n xs
take-take zero k xs h = refl
take-take (suc n) zero xs h = absurd (omega (arith, h))
take-take (suc n) (suc k) [] h = refl
take-take (suc n) (suc k) (x ∷ xs) h =
    let le : n ≤ k = omega (arith, h) in ap (λ ys. x ∷ ys) (take-take n k xs le)

module _ {F : Type 0} (fl : Floats F) where
  gains-all :
      (set : List Text) (dcg : F) (index : ℕ) (ids : List Text)
      → all_in ids set ≡ true
      → gains fl set dcg index ids ≡ ideal_gains fl dcg index (length ids)
  unfolding gains ideal_gains all_in
  gains-all set dcg index [] h = refl
  gains-all set dcg index (id ∷ ids) h =
      ground (arith, h, gains-all set (fl.plus dcg (gain fl index)) (suc index) ids)

  gains-none :
      (set : List Text) (dcg : F) (index : ℕ) (ids : List Text)
      → count_in set ids ≡ 0
      → gains fl set dcg index ids ≡ dcg
  unfolding gains count_in
  gains-none set dcg index [] h = refl
  gains-none set dcg index (id ∷ ids) h = ground (arith, h, gains-none set dcg (suc index) ids)

  gains-append :
      (set : List Text) (dcg : F) (index : ℕ) (xs ys : List Text)
      → gains fl set dcg index (xs ++ ys)
        ≡ gains fl set (gains fl set dcg index xs) (index + length xs) ys
  unfolding gains
  gains-append set dcg index [] ys =
      let e : index ≡ index + 0 = omega arith in ap (λ i. gains fl set dcg i ys) e
  gains-append set dcg index (x ∷ xs) ys =
      let dcg' : F = if contains x set then fl.plus dcg (gain fl index) else dcg in
      let e : suc index + length xs ≡ index + suc (length xs) = omega arith in
      gains-append set dcg' (suc index) xs ys
      ∙ ap (λ i. gains fl set (gains fl set dcg' (suc index) xs) i ys) e

  -- Once as many relevant documents were met as there are, the rest of the ranking adds nothing.
  gains-exhausted :
      (set : List Text) (xs ys : List Text)
      → all_differ set ≡ true
      → all_differ (xs ++ ys) ≡ true
      → all_in xs set ≡ true
      → length xs ≡ length set
      → gains fl set (fl.of_nat 0) 0 (xs ++ ys) ≡ ideal_gains fl (fl.of_nat 0) 0 (length xs)
  gains-exhausted set xs ys ds dr within full =
      let nothing : count_in set ys ≡ 0 = omega (
        arith,
        full,
        count_in-append set xs ys,
        count_in-all set xs within,
        count_in-bound set (xs ++ ys) ds dr,
      ) in
      gains-append set (fl.of_nat 0) 0 xs ys
      ∙ gains-none set (gains fl set (fl.of_nat 0) 0 xs) (0 + length xs) ys nothing
      ∙ gains-all set (fl.of_nat 0) 0 xs within

  abbrev pub ideal_count : List Text → ℕ → ℕ
  ideal_count set k = if ltb k (length set) then k else length set

  -- A ranking that begins with relevant documents, as many as there are, or as are asked for.
  dcg-ideal :
      (set ranked : List Text) (k : ℕ)
      → all_differ set ≡ true
      → all_differ ranked ≡ true
      → ideal_count set k ≤ length ranked
      → all_in (take (ideal_count set k) ranked) set ≡ true
      → gains fl set (fl.of_nat 0) 0 (top k ranked)
        ≡ ideal_gains fl (fl.of_nat 0) 0 (ideal_count set k)
  dcg-ideal set ranked k ds dr enough within = elim (Bool-cases (ltb k (length set))) [
    | inl fewer ↦
        let count : ideal_count set k ≡ k = ground (arith, fewer) in
        let all : all_in (take k ranked) set ≡ true =
          subst (λ n. all_in (take n ranked) set ≡ true) count within in
        let size : length (take k ranked) ≡ k =
          ground (arith, length-take k ranked, enough, count) in
        ap (gains fl set (fl.of_nat 0) 0) (top_lem k ranked)
        ∙ gains-all set (fl.of_nat 0) 0 (take k ranked) all
        ∙ ap (ideal_gains fl (fl.of_nat 0) 0) (size ∙ sym count)
    | inr enough_asked ↦
        let n = length set in
        let zs : List Text = top k ranked in
        let count : ideal_count set k ≡ n = ground (arith, enough_asked) in
        let first : take n zs ≡ take n ranked =
          ap (take n) (top_lem k ranked) ∙ take-take n k ranked (ground (arith, enough_asked)) in
        let all : all_in (take n zs) set ≡ true =
          ap (λ xs. all_in xs set) first
          ∙ subst (λ m. all_in (take m ranked) set ≡ true) count within in
        let size : length (take n zs) ≡ n =
          ap length first ∙ ground (arith, length-take n ranked, enough, count) in
        let whole : take n zs ++ drop n zs ≡ zs = take-append-drop n zs in
        let differ : all_differ (take n zs ++ drop n zs) ≡ true =
          ap all_differ whole ∙ all_differ-top k ranked dr in
        ap (gains fl set (fl.of_nat 0) 0) (sym whole)
        ∙ gains-exhausted set (take n zs) (drop n zs) ds differ all size
        ∙ ap (ideal_gains fl (fl.of_nat 0) 0) (size ∙ sym count)
  ]

  -- NDCGAtK is 1 for a ranking of which the first documents are all relevant, as many of them as there
  -- are relevant ones or as k, whatever follows them; if the ideal gain, the sum that the code divides
  -- by, is not zero and divided by itself is 1.
  pub ndcg_at_k-ideal :
      (retrieved relevant : List Text) (k : ℕ)
      → let set = string_set relevant in
        let ranked = unique_strings retrieved in
        let count = ideal_count set (suc k) in
        let idcg = ideal_gains fl (fl.of_nat 0) 0 count in
        is_empty set ≡ false
        → count ≤ length ranked
        → all_in (take count ranked) set ≡ true
        → fl.is_zero idcg ≡ false
        → fl.divide idcg idcg ≡ fl.of_nat 1
        → ndcg_at_k fl retrieved relevant (pos (suc k)) ≡ fl.of_nat 1
  unfolding ndcg_at_k
  ndcg_at_k-ideal retrieved relevant k nonempty enough within counts itself =
      let ideal =
        dcg-ideal (string_set relevant) (unique_strings retrieved) (suc k)
          (string_set-differ relevant) (unique_strings-differ retrieved) enough within in
      rw nonempty (rw counts (rw ideal itself))
