-- ===== src/Evaluation/Metrics.antt =====
-- The scores, internal/evaluation/metrics.go. Numbers of Go's float64 are an abstract type with the
-- operations that the code uses on them; unicode's classes and case are parameters. A Go map used as a
-- set is the list of its members.
pub mod Counting
pub mod Sets
pub mod Ranks
pub mod Tokens
pub mod Tests
use on_call_agent.Base.{
  ℕ, zero, suc, ◌+◌, min, Bool, true, false, not, ◌&&◌, ◌||◌, List, [], ◌∷◌, ◌++◌, Option, none,
  some, ℤ, pos, negsuc, if◌then◌else◌, ltb, ◌==◌, ◌=?◌, Text, is_empty, contains, unique_from,
  length, take, map, nat_eq, list_eq,
}

-- float64, with `log2` of the integer that the code converts before it.
pub record Floats (F : Type 0) : Type 0 where
  pub of_nat : ℕ → F
  pub plus : F → F → F
  pub times : F → F → F
  pub divide : F → F → F
  pub log2 : ℕ → F
  pub is_zero : F → Bool
  pub is_positive : F → Bool

pub record Score (F : Type 0) : Type 0 where
  pub precision : F
  pub recall : F
  pub f1 : F

-- uniqueStrings
unfoldable pub unique_strings : List Text → List Text
unique_strings values = unique_from [] values

-- stringSet
unfoldable pub string_set : List Text → List Text
string_set values = unique_from [] values

-- `ranked[:k]` when there are more; a k that is not positive returned before.
abbrev pub top : ℕ → List Text → List Text
top k ranked = if ltb k (length ranked) then take k ranked else ranked

-- How many of the second list are in the first: the counting loop of RecallAtK.
unfoldable pub count_in : List Text → List Text → ℕ
count_in set [] = 0
count_in set (id ∷ ids) = let rest = count_in set ids in if contains id set then suc rest else rest

-- What RecallAtK divides.
unfoldable pub hits_at : List Text → List Text → ℕ → ℕ
hits_at retrieved relevant k = count_in (string_set relevant) (top k (unique_strings retrieved))

-- The loop of MRR, from the rank before the list's first.
unfoldable pub first_rank : List Text → ℕ → List Text → Option ℕ
first_rank set index [] = none
first_rank set index (id ∷ ids) =
    let later = first_rank set (suc index) ids in
    if contains id set then some (suc index) else later

-- The words of tokenize; `word` holds the letters since the last flush, in lower case.
unfoldable pub flush_word : (ℕ → ℕ) → List ℕ → List Text → List Text
flush_word to_lower [] tokens = tokens
flush_word to_lower (c ∷ word) tokens = map to_lower (c ∷ word) ∷ tokens

unfoldable pub tokenize_from : (ℕ → Bool) → (ℕ → Bool) → (ℕ → ℕ) → List ℕ → Text → List Text
tokenize_from is_han is_word to_lower word [] = flush_word to_lower word []
tokenize_from is_han is_word to_lower word (c ∷ s) =
    let after = tokenize_from is_han is_word to_lower [] s in
    if is_han c
    then flush_word to_lower word ((c ∷ []) ∷ after)
    else if is_word c
    then tokenize_from is_han is_word to_lower (word ++ to_lower c ∷ []) s
    else flush_word to_lower word after

-- tokenize; `is_word` is that the rune is a letter or a digit.
unfoldable pub tokenize : (ℕ → Bool) → (ℕ → Bool) → (ℕ → ℕ) → Text → List Text
tokenize is_han is_word to_lower value = tokenize_from is_han is_word to_lower [] value

-- strings.Join with a space.
unfoldable pub join_words : List Text → Text
join_words [] = []
join_words (w ∷ []) = w
join_words (w ∷ v ∷ words) = w ++ 32 ∷ join_words (v ∷ words)

-- tokenCounts: what the map holds for a token; a missing key reads as 0.
unfoldable pub token_count : Text → List Text → ℕ
token_count token [] = 0
token_count token (t ∷ tokens) =
    let rest = token_count token tokens in if t =? token then suc rest else rest

-- The loop over the counts of the answer, in whatever order the map gives them: a sum.
unfoldable pub overlap_of : List Text → List Text → List Text → ℕ
overlap_of [] actual expected = 0
overlap_of (token ∷ tokens) actual expected =
    let count = token_count token actual in
    let expected_count = token_count token expected in
    (if ltb expected_count count then expected_count else count) + overlap_of tokens actual expected

unfoldable pub overlap : List Text → List Text → ℕ
overlap actual expected = overlap_of (unique_from [] actual) actual expected

-- Whether all of the first set are in the second.
unfoldable pub all_in : List Text → List Text → Bool
all_in [] set = true
all_in (x ∷ xs) set = contains x set && all_in xs set

-- ToolSetAccuracy, as whether it is 1.
unfoldable pub same_tools : List Text → List Text → Bool
same_tools actual expected =
    let actual_set = string_set actual in
    let expected_set = string_set expected in
    if not (length actual_set == length expected_set) then false else all_in actual_set expected_set

module _ {F : Type 0} (fl : Floats F) where
  abbrev pub zero_score : F
  zero_score = fl.of_nat 0

  -- RecallAtK
  unfoldable pub recall_at_k : List Text → List Text → ℤ → F
  recall_at_k retrieved relevant (negsuc k) = zero_score
  recall_at_k retrieved relevant (pos zero) = zero_score
  recall_at_k retrieved relevant (pos (suc k)) =
      if is_empty (string_set relevant)
      then zero_score
      else fl.divide (fl.of_nat (hits_at retrieved relevant (suc k)))
          (fl.of_nat (length (string_set relevant)))

  -- MRR
  unfoldable pub mrr : List Text → List Text → F
  mrr retrieved relevant =
      if is_empty (string_set relevant)
      then zero_score
      else (elim (first_rank (string_set relevant) 0 (unique_strings retrieved)) [
        | none ↦ zero_score
        | some rank ↦ fl.divide (fl.of_nat 1) (fl.of_nat rank)
      ])

  -- 1 / log2(index + 2)
  abbrev pub gain : ℕ → F
  gain index = fl.divide (fl.of_nat 1) (fl.log2 (index + 2))

  -- The loop of the ranked ids.
  unfoldable pub gains : List Text → F → ℕ → List Text → F
  gains set dcg index [] = dcg
  gains set dcg index (id ∷ ids) =
      gains set (if contains id set then fl.plus dcg (gain index) else dcg) (suc index) ids

  -- The loop of the ideal count, with the turns that are left.
  unfoldable pub ideal_gains : F → ℕ → ℕ → F
  ideal_gains idcg index zero = idcg
  ideal_gains idcg index (suc left) = ideal_gains (fl.plus idcg (gain index)) (suc index) left

  -- NDCGAtK
  unfoldable pub ndcg_at_k : List Text → List Text → ℤ → F
  ndcg_at_k retrieved relevant (negsuc k) = zero_score
  ndcg_at_k retrieved relevant (pos zero) = zero_score
  ndcg_at_k retrieved relevant (pos (suc k)) =
      let set = string_set relevant in
      let dcg = gains set zero_score 0 (top (suc k) (unique_strings retrieved)) in
      let count = if ltb (suc k) (length set) then suc k else length set in
      let idcg = ideal_gains zero_score 0 count in
      if is_empty set || fl.is_zero idcg then zero_score else fl.divide dcg idcg

  -- ExactMatch over the tokens of the two texts.
  unfoldable pub exact_match : List Text → List Text → F
  exact_match actual expected =
      if join_words actual =? join_words expected then fl.of_nat 1 else zero_score

  -- TokenF1 over the tokens of the two texts.
  unfoldable pub token_f1 : List Text → List Text → Score F
  token_f1 actual expected =
      if is_empty actual && is_empty expected
      then record { precision = fl.of_nat 1; recall = fl.of_nat 1; f1 = fl.of_nat 1 }
      else if is_empty actual || is_empty expected
      then record { precision = zero_score; recall = zero_score; f1 = zero_score }
      else (let common = fl.of_nat (overlap actual expected) in
          let p = fl.divide common (fl.of_nat (length actual)) in
          let r = fl.divide common (fl.of_nat (length expected)) in
          let both = fl.plus p r in
          record {
            precision = p;
            recall = r;
            f1 =
                if fl.is_positive both
                then fl.divide (fl.times (fl.times (fl.of_nat 2) p) r) both
                else zero_score;
          })

  -- ToolSetAccuracy
  unfoldable pub tool_set_accuracy : List Text → List Text → F
  tool_set_accuracy actual expected = if same_tools actual expected then fl.of_nat 1 else zero_score
