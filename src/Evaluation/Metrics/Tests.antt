-- ===== src/Evaluation/Metrics/Tests.antt =====
-- Scores in whole numbers: a division rounds down.
use on_call_agent.Base.{
  ◌⊎◌, ◌≡◌, ◌↔◌, refl, ℕ, ◌+◌, ◌*◌, ◌/◌, Bool, false, ◌&&◌, ◌==◌, List, [], ◌∷◌, pos, if◌then◌else◌,
  arith, leb, ltb, Text, codes, contains, unique_from, nat_eq, list_eq, fold_ascii,
}
use on_call_agent.Evaluation.Metrics.{
  Floats, hits_at, count_in, string_set, unique_strings, ideal_gains, ndcg_at_k, all_in,
  exact_match, token_f1, tool_set_accuracy, tokenize, tokenize_from, flush_word, join_words,
}
use on_call_agent.Evaluation.Metrics.Sets.{tool_set_accuracy_iff}
use on_call_agent.Evaluation.Metrics.Ranks.{ndcg_at_k-ideal}
use on_call_agent.Evaluation.Metrics.Tokens.{exact_match-token_f1, IsExact}

abbrev pub whole : Floats ℕ
whole = record {
  of_nat = λ n. n;
  plus = λ a b. a + b;
  times = λ a b. a * b;
  divide = λ a b. if a == b then 1 else a / b;
  log2 = λ n. 1;
  is_zero = λ n. n == 0;
  is_positive = λ n. ltb 0 n;
}

abbrev retrieved : List Text
retrieved = codes "a" ∷ codes "a" ∷ codes "x" ∷ codes "b" ∷ []

abbrev relevant : List Text
relevant = codes "b" ∷ codes "a" ∷ codes "b" ∷ []

two_hits : hits_at retrieved relevant 3 ≡ 2
unfolding hits_at count_in unique_strings unique_from string_set
two_hits = refl

-- The document x was not expected, and the second b counts once.
tool_set_accuracy_iff_example :
    (tool_set_accuracy whole retrieved relevant ≡ 1
      ↔ ((x : Text) → contains x retrieved ≡ contains x relevant))
    × ((tool_set_accuracy whole retrieved relevant ≡ 1)
        ⊎ (tool_set_accuracy whole retrieved relevant ≡ 0))
tool_set_accuracy_iff_example = tool_set_accuracy_iff whole (λ h. ground arith) retrieved relevant

ndcg_at_k-ideal_example :
    ndcg_at_k whole (codes "b" ∷ codes "a" ∷ codes "x" ∷ []) relevant (pos 5) ≡ 1
unfolding string_set unique_from unique_strings all_in ideal_gains
ndcg_at_k-ideal_example =
    ndcg_at_k-ideal whole (codes "b" ∷ codes "a" ∷ codes "x" ∷ []) relevant 4 refl (omega arith)
      refl refl refl

abbrev no_han : ℕ → Bool
no_han c = false

abbrev is_letter : ℕ → Bool
is_letter c = leb b'A' c && leb c b'z'

abbrev lower : ℕ → ℕ
lower c = fold_ascii c

exact : IsExact whole
exact = record {
  one_zero = λ h. ground arith;
  itself = λ n. ground arith;
  one_one = refl;
  two_one = refl;
  two_positive = refl;
}

lower_space : (c : ℕ) → lower c ≡ 32 → c ≡ 32
unfolding fold_ascii
lower_space c h = ground (arith, h)

exact_match-token_f1_example :
    token_f1 whole
      (tokenize no_han is_letter lower (codes "Disk full."))
      (tokenize no_han is_letter lower (codes "disk  FULL"))
    ≡ record { precision = 1; recall = 1; f1 = 1 }
unfolding exact_match join_words tokenize tokenize_from flush_word fold_ascii
exact_match-token_f1_example =
    exact_match-token_f1 no_han is_letter lower whole (codes "Disk full.") (codes "disk  FULL")
      (refl, refl, lower_space) exact refl
