-- ===== src/Conversation/Memory/Window.antt =====
-- Trimming after each turn keeps the last messages of the whole transcript.
use on_call_agent.Base.{
  ℕ, ◌+◌, ◌-◌, ◌%◌, ◌≤◌, ◌≡◌, ap, ◌∙◌, sym, List, [], ◌∷◌, ◌++◌, arith, length, drop, length-drop,
  length-append, drop-drop, drop-append, min, ℤ, pos, negsuc,
}
use native.Mathlib.Decide.{dec_le}
use on_call_agent.Conversation.Memory.{trim, normalize_max}

module _ {M : Type 0} where
  -- The last `max` messages.
  abbrev pub window : ℕ → List M → List M
  window max transcript = drop (length transcript - max) transcript

  trim_short : (max : ℕ) (xs : List M) → length xs ≤ max → trim max xs ≡ xs
  unfolding trim
  trim_short max xs h = ground arith

  trim_two_over : (max : ℕ) (xs : List M) → length xs ≡ max + 2 → trim max xs ≡ drop 2 xs
  unfolding trim
  trim_two_over max xs h = let e : length xs - max ≡ 2 = omega arith in rw e (ground arith)

  trim-window_short :
      (max : ℕ) (xs : List M) (u a : M)
      → length xs + 2 ≤ max
      → trim max (window max xs ++ u ∷ a ∷ []) ≡ window max (xs ++ u ∷ a ∷ [])
  trim-window_short max xs u a h =
      let longer = length-append xs (u ∷ a ∷ []) in
      let none_before : length xs - max ≡ 0 = omega arith in
      let none_after : length (xs ++ u ∷ a ∷ []) - max ≡ 0 = omega arith in
      rw (none_before, none_after) (trim_short max _ (omega arith))

  trim-window_full :
      (max : ℕ) (xs : List M) (u a : M)
      → max ≤ length xs
      → trim max (window max xs ++ u ∷ a ∷ []) ≡ window max (xs ++ u ∷ a ∷ [])
  trim-window_full max xs u a h =
      let old = length xs - max in
      let turn = u ∷ a ∷ [] in
      trim_two_over max (window max xs ++ turn)
        (omega (arith, length-append (window max xs) turn, length-drop old xs))
      ∙ ap (drop 2) (sym (drop-append old xs turn (omega arith)))
      ∙ drop-drop 2 old (xs ++ turn)
      ∙ ap (λ k. drop k (xs ++ turn))
          (let e : old + 2 ≡ length (xs ++ turn) - max = omega (arith, length-append xs turn) in e)

  -- One turn more, trimmed, is the window of the transcript that is one turn longer.
  pub trim-window :
      (max : ℕ) (xs : List M) (u a : M)
      → 2 ≤ max
      → max % 2 ≡ 0
      → length xs % 2 ≡ 0
      → trim max (window max xs ++ u ∷ a ∷ []) ≡ window max (xs ++ u ∷ a ∷ [])
  trim-window max xs u a big even paired = elim (dec_le (length xs + 2) max) [
    | yes p ↦ trim-window_short max xs u a p
    | no p ↦ trim-window_full max xs u a (omega arith)
  ]

  pub length-window : (max : ℕ) (xs : List M) → length (window max xs) ≡ min (length xs) max
  length-window max xs = omega (arith, length-drop (length xs - max) xs)

-- The constructor's rounding gives an even limit of two or more.
pub normalize_max_lem :
    (default : ℕ) (n : ℤ)
    → 2 ≤ default
    → (2 ≤ normalize_max default n) × (normalize_max default n % 2 ≡ 0)
unfolding normalize_max
normalize_max_lem default (pos n) h = ground arith
normalize_max_lem default (negsuc n) h = ground arith
