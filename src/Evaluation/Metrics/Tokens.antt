-- ===== src/Evaluation/Metrics/Tokens.antt =====
-- What the scores of an answer say of one another.
use on_call_agent.Base.{
  ◌≡◌, ◌≢◌, refl, sym, ap, ◌∙◌, ℕ, suc, ◌+◌, ◌≤◌, Bool, true, false, List, [], ◌∷◌, ◌++◌,
  if◌then◌else◌, arith, ◌=?◌, Text, is_empty, has_code, map, contains, all_differ, unique_from,
  unique_from-differ, contains-unique_from, length, nat_eq, list_eq, list_beq_iff, Bool-cases, inl,
  inr,
}
use on_call_agent.Evaluation.Metrics.{
  Floats, flush_word, tokenize_from, tokenize, join_words, token_count, overlap_of, overlap,
  exact_match, token_f1,
}

-- The counts of some tokens, added up.
abbrev total : List Text → List Text → ℕ
total [] actual = 0
total (token ∷ tokens) actual = token_count token actual + total tokens actual

total-nil : (tokens : List Text) → total tokens [] ≡ 0
unfolding token_count
total-nil [] = refl
total-nil (t ∷ ts) = omega (arith, total-nil ts)

total-cons :
    (tokens : List Text) (t : Text) (actual : List Text)
    → all_differ tokens ≡ true
    → total tokens (t ∷ actual) ≡ (if contains t tokens then 1 else 0) + total tokens actual
unfolding token_count
total-cons [] t actual d = omega arith
total-cons (s ∷ tokens) t actual d =
    ground (arith, d, list_beq_iff s t, list_beq_iff t s, total-cons tokens t actual)

-- Different tokens are counted at most once in all, and all of them exactly once.
total_le :
    (tokens actual : List Text) → all_differ tokens ≡ true → total tokens actual ≤ length actual
total_le tokens [] d = omega (arith, total-nil tokens)
total_le tokens (t ∷ actual) d =
    ground (arith, total-cons tokens t actual d, total_le tokens actual d)

overlap_of_le :
    (tokens actual expected : List Text)
    → (overlap_of tokens actual expected ≤ total tokens actual)
      × (overlap_of tokens actual expected ≤ total tokens expected)
unfolding overlap_of
overlap_of_le [] actual expected = (omega arith, omega arith)
overlap_of_le (t ∷ ts) actual expected = ground (arith, overlap_of_le ts actual expected)

-- The tokens that two texts have in common are no more than the tokens of either: precision and recall
-- divide by no less than what they divide.
overlap_le :
    (actual expected : List Text)
    → (overlap actual expected ≤ length actual) × (overlap actual expected ≤ length expected)
unfolding overlap
overlap_le actual expected =
    let tokens = unique_from [] actual in
    let d = unique_from-differ [] actual in
    let (l, r) = overlap_of_le tokens actual expected in
    (omega (arith, l, total_le tokens actual d), omega (arith, r, total_le tokens expected d))

total-all :
    (tokens actual : List Text)
    → all_differ tokens ≡ true
    → ((t : Text) → contains t actual ≡ true → contains t tokens ≡ true)
    → total tokens actual ≡ length actual
total-all tokens [] d h = total-nil tokens
total-all tokens (t ∷ actual) d h =
    let here : contains t tokens ≡ true = h t (ground (arith, list_beq_iff t t)) in
    ground (
      arith,
      here,
      total-cons tokens t actual d,
      total-all tokens actual d (λ s c. h s (ground (arith, c))),
    )

overlap_of-same :
    (tokens actual : List Text) → overlap_of tokens actual actual ≡ total tokens actual
unfolding overlap_of
overlap_of-same [] actual = refl
overlap_of-same (t ∷ ts) actual = ground (arith, overlap_of-same ts actual)

overlap-same : (actual : List Text) → overlap actual actual ≡ length actual
unfolding overlap
overlap-same actual =
    overlap_of-same (unique_from [] actual) actual
    ∙ total-all (unique_from [] actual) actual (unique_from-differ [] actual)
        (λ t c. ground (arith, c, contains-unique_from t [] actual))

-- Tokens as tokenize makes them: not empty, and without spaces.
abbrev pub Words : List Text → Type 0
Words [] = Unit
Words (w ∷ words) = (is_empty w ≡ false) × (has_code 32 w ≡ false) × Words words

-- Where the first word ends.
split_word :
    (v w s t : Text)
    → has_code 32 v ≡ false
    → has_code 32 w ≡ false
    → v ++ 32 ∷ s ≡ w ++ 32 ∷ t
    → (v ≡ w) × (s ≡ t)
unfolding has_code
split_word [] [] s t hv hw e = ground (arith, e)
split_word [] (d ∷ w) s t hv hw e = absurd (ground (arith, hw, e))
split_word (c ∷ v) [] s t hv hw e = absurd (ground (arith, hv, e))
split_word (c ∷ v) (d ∷ w) s t hv hw e =
    let same : c ≡ d = ground (arith, e) in
    let (p, q) = split_word v w s t (ground (arith, hv)) (ground (arith, hw)) (ground (arith, e)) in
    (ground (arith, same, p), q)

has_space : (w s : Text) → has_code 32 (w ++ 32 ∷ s) ≡ true
unfolding has_code
has_space [] s = refl
has_space (c ∷ w) s = ground (arith, has_space w s)

-- Words joined by spaces tell the words.
join_words-injective :
    (vs ws : List Text) → Words vs → Words ws → join_words vs ≡ join_words ws → vs ≡ ws
unfolding join_words
join_words-injective [] [] hv hw e = refl
join_words-injective [] (w ∷ []) hv (nonempty, plain, rest) e =
    absurd (ground (arith, nonempty, sym e))
join_words-injective [] ([] ∷ w' ∷ ws) hv (nonempty, plain, rest) e =
    absurd (ground (arith, nonempty))
join_words-injective [] ((c ∷ w) ∷ w' ∷ ws) hv hw e = absurd (ground (arith, e))
join_words-injective (v ∷ []) [] (nonempty, plain, rest) hw e = absurd (ground (arith, nonempty, e))
join_words-injective ([] ∷ v' ∷ vs) [] (nonempty, plain, rest) hw e =
    absurd (ground (arith, nonempty))
join_words-injective ((c ∷ v) ∷ v' ∷ vs) [] hv hw e = absurd (ground (arith, e))
join_words-injective (v ∷ []) (w ∷ []) hv hw e = ap (λ x. x ∷ []) e
join_words-injective (v ∷ []) (w ∷ w' ∷ ws) (nonempty, plain, rest) hw e =
    absurd (ground (arith, plain, e, has_space w (join_words (w' ∷ ws))))
join_words-injective (v ∷ v' ∷ vs) (w ∷ []) hv (nonempty, plain, rest) e =
    absurd (ground (arith, plain, sym e, has_space v (join_words (v' ∷ vs))))
join_words-injective (v ∷ v' ∷ vs) (w ∷ w' ∷ ws) (nv, pv, rv) (nw, pw, rw') e =
    let (p, q) = split_word v w (join_words (v' ∷ vs)) (join_words (w' ∷ ws)) pv pw e in
    ground (arith, p, join_words-injective (v' ∷ vs) (w' ∷ ws) rv rw' q)

-- Small numbers of float64 are exact.
pub record IsExact {F : Type 0} (fl : Floats F) : Type 0 where
  pub one_zero : fl.of_nat 1 ≢ fl.of_nat 0
  pub itself : (n : ℕ) → fl.divide (fl.of_nat (suc n)) (fl.of_nat (suc n)) ≡ fl.of_nat 1
  pub one_one : fl.plus (fl.of_nat 1) (fl.of_nat 1) ≡ fl.of_nat 2
  pub two_one : fl.times (fl.of_nat 2) (fl.of_nat 1) ≡ fl.of_nat 2
  pub two_positive : fl.is_positive (fl.of_nat 2) ≡ true

module _ (is_han is_word : ℕ → Bool) (to_lower : ℕ → ℕ) where
  -- A space is no letter, digit or Han character, and no other rune has it as its lower case.
  abbrev pub SpaceApart : Type 0
  SpaceApart = (is_han 32 ≡ false) × (is_word 32 ≡ false) × ((c : ℕ) → to_lower c ≡ 32 → c ≡ 32)

  map-plain :
      SpaceApart
      → (word : Text) → has_code 32 word ≡ false
      → has_code 32 (map to_lower word) ≡ false
  unfolding has_code
  map-plain apart [] h = refl
  map-plain apart (c ∷ word) h =
      let same = apart.2 c in ground (arith, h, same, map-plain apart word)

  flush_word-Words :
      SpaceApart
      → (word : Text) (tokens : List Text) → has_code 32 word ≡ false
      → Words tokens
      → Words (flush_word to_lower word tokens)
  unfolding flush_word
  flush_word-Words apart [] tokens h ws = ws
  flush_word-Words apart (c ∷ word) tokens h ws = (refl, map-plain apart (c ∷ word) h, ws)

  plain-snoc :
      SpaceApart
      → (word : Text) (c : ℕ) → is_word c ≡ true
      → has_code 32 word ≡ false
      → has_code 32 (word ++ to_lower c ∷ []) ≡ false
  unfolding has_code
  plain-snoc apart [] c w h =
      let same = apart.2 c in let no : is_word 32 ≡ false = apart.1 in ground (arith, same, no, w)
  plain-snoc apart (d ∷ word) c w h = ground (arith, h, plain-snoc apart word c w)

  tokenize_from-Words :
      SpaceApart
      → (word s : Text) → has_code 32 word ≡ false
      → Words (tokenize_from is_han is_word to_lower word s)
  unfolding tokenize_from has_code
  tokenize_from-Words apart word [] h = flush_word-Words apart word [] h tt
  tokenize_from-Words apart word (c ∷ s) h =
      let after = tokenize_from-Words apart [] s refl in
      elim (Bool-cases (is_han c)) [
        | inl han ↦
            let other : is_han 32 ≡ false = apart.0 in
            let plain : has_code 32 (c ∷ []) ≡ false = ground (arith, han, other) in
            rw han (flush_word-Words apart word _ h (refl, plain, after))
        | inr no_han ↦ elim (Bool-cases (is_word c)) [
          | inl letter ↦ rw no_han (
              rw letter (
                tokenize_from-Words apart (word ++ to_lower c ∷ []) s
                  (plain-snoc apart word c letter h)))
          | inr other ↦ rw no_han (rw other (flush_word-Words apart word _ h after))
        ]
      ]

  tokenize-Words : SpaceApart → (s : Text) → Words (tokenize is_han is_word to_lower s)
  unfolding tokenize has_code
  tokenize-Words apart s = tokenize_from-Words apart [] s refl

  token_f1-same :
      {F : Type 0} (fl : Floats F) (tokens : List Text)
      → IsExact fl
      → token_f1 fl tokens tokens
        ≡ record { precision = fl.of_nat 1; recall = fl.of_nat 1; f1 = fl.of_nat 1 }
  unfolding token_f1
  token_f1-same fl [] exact = refl
  token_f1-same fl (w ∷ ws) exact = rw (overlap-same (w ∷ ws)) (
      rw (exact.itself (length ws)) (
        rw exact.one_one
          (rw exact.two_positive (rw exact.two_one (rw exact.two_one (rw (exact.itself 1) refl))))))

  -- An answer that is an exact match of its reference has full marks in token precision, recall and F1.
  pub exact_match-token_f1 :
      {F : Type 0} (fl : Floats F) (answer reference : Text)
      → SpaceApart
      → IsExact fl
      → let actual = tokenize is_han is_word to_lower answer in
        let expected = tokenize is_han is_word to_lower reference in
        exact_match fl actual expected ≡ fl.of_nat 1
        → token_f1 fl actual expected
          ≡ record { precision = fl.of_nat 1; recall = fl.of_nat 1; f1 = fl.of_nat 1 }
  unfolding exact_match
  exact_match-token_f1 fl answer reference apart exact h =
      let actual = tokenize is_han is_word to_lower answer in
      let expected = tokenize is_han is_word to_lower reference in
      elim (Bool-cases (join_words actual =? join_words expected)) [
        | inl e ↦
            let same : actual ≡ expected =
              join_words-injective actual expected (tokenize-Words apart answer)
                (tokenize-Words apart reference)
                (ground (arith, e, list_beq_iff (join_words actual) (join_words expected))) in
            ap (λ ws. token_f1 fl actual ws) (sym same) ∙ token_f1-same fl actual exact
        | inr e ↦ absurd (exact.one_zero (sym h ∙ rw e refl))
      ]
