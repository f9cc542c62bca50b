-- ===== src/Evaluation/Metrics/Sets.antt =====
-- Which tools a run has to call for full marks.
use on_call_agent.Base.{
  ◌⊎◌, ◌≢◌, inl, inr, Bool-cases, ◌≡◌, ◌↔◌, sym, ◌∙◌, true, List, [], arith, Text, contains,
  all_differ, unique_from-differ, contains-unique_from, length, nat_eq, list_eq,
}
use on_call_agent.Evaluation.Metrics.{Floats, same_tools, tool_set_accuracy, string_set, all_in}
use on_call_agent.Evaluation.Metrics.Counting.{
  count_in_comm, count_in-all, all_in-count_in, all_in-contains, contains-all_in,
}

pub contains-string_set : (x : Text) (xs : List Text) → contains x (string_set xs) ≡ contains x xs
unfolding string_set
contains-string_set x xs = ground (arith, contains-unique_from x [] xs)

pub string_set-differ : (xs : List Text) → all_differ (string_set xs) ≡ true
unfolding string_set
string_set-differ xs = unique_from-differ [] xs

-- Sets of one size, one within the other, are each within the other.
within_back :
    (xs ys : List Text)
    → all_differ xs ≡ true
    → all_differ ys ≡ true
    → length xs ≡ length ys
    → all_in xs ys ≡ true
    → all_in ys xs ≡ true
within_back xs ys dx dy same h =
    all_in-count_in xs ys (omega (arith, same, count_in-all ys xs h, count_in_comm xs ys dx dy))

same_tools_sound :
    (actual expected : List Text)
    → same_tools actual expected ≡ true
    → (all_in (string_set actual) (string_set expected) ≡ true)
      × (all_in (string_set expected) (string_set actual) ≡ true)
unfolding same_tools
same_tools_sound actual expected h =
    let forth : all_in (string_set actual) (string_set expected) ≡ true = ground (arith, h) in
    let size : length (string_set actual) ≡ length (string_set expected) = ground (arith, h) in
    (
      forth,
      within_back (string_set actual) (string_set expected) (string_set-differ actual)
          (string_set-differ expected) size forth,
    )

same_tools_complete :
    (actual expected : List Text)
    → all_in (string_set actual) (string_set expected) ≡ true
    → all_in (string_set expected) (string_set actual) ≡ true
    → same_tools actual expected ≡ true
unfolding same_tools
same_tools_complete actual expected forth back = ground (
  arith,
  forth,
  count_in-all (string_set expected) (string_set actual) forth,
  count_in-all (string_set actual) (string_set expected) back,
  count_in_comm (string_set actual) (string_set expected) (string_set-differ actual)
      (string_set-differ expected),
)

set_within :
    (xs ys : List Text)
    → ((x : Text) → contains x xs ≡ contains x ys)
    → all_in (string_set xs) (string_set ys) ≡ true
set_within xs ys h =
    contains-all_in (string_set xs) (string_set ys)
      λ x c. contains-string_set x ys ∙ sym (h x) ∙ sym (contains-string_set x xs) ∙ c

-- The sets of the two lists agree exactly when the lists have the same members.
same_tools_iff :
    (actual expected : List Text)
    → (same_tools actual expected ≡ true) ↔ ((x : Text) → contains x actual ≡ contains x expected)
same_tools_iff actual expected = (
  λ h x.
      let (forth, back) = same_tools_sound actual expected h in
      ground (
        arith,
        contains-string_set x actual,
        contains-string_set x expected,
        all_in-contains x (string_set actual) (string_set expected) forth,
        all_in-contains x (string_set expected) (string_set actual) back,
      ),
  λ h.
      same_tools_complete actual expected (set_within actual expected h)
        (set_within expected actual (λ x. sym (h x))),
)

module _ {F : Type 0} (fl : Floats F) where
  -- ToolSetAccuracy is 1 exactly when the same tools were called as were expected, however often and in
  -- whatever order, and if it is not 1, it is 0; where the numbers 1 and 0 are different.
  pub tool_set_accuracy_iff :
      fl.of_nat 1 ≢ fl.of_nat 0
      → (actual expected : List Text)
      → (tool_set_accuracy fl actual expected ≡ fl.of_nat 1
          ↔ ((x : Text) → contains x actual ≡ contains x expected))
        × ((tool_set_accuracy fl actual expected ≡ fl.of_nat 1)
            ⊎ (tool_set_accuracy fl actual expected ≡ fl.of_nat 0))
  unfolding tool_set_accuracy
  tool_set_accuracy_iff apart actual expected =
      let (sound, complete) = same_tools_iff actual expected in
      elim (Bool-cases (same_tools actual expected)) [
        | inl same ↦ ((λ h. sound same, λ h. ground (arith, same)), inl (ground (arith, same)))
        | inr other ↦ (
          (
            λ h. absurd (apart (sym h ∙ ground (arith, other))),
            λ h. absurd (ground (arith, other, complete h)),
          ),
          inr (ground (arith, other)),
        )
      ]
