-- ===== src/Evaluation/Metrics/Counting.antt =====
-- How many members two lists without repetitions share.
use on_call_agent.Base.{
  ◌≡◌, refl, ℕ, zero, suc, ◌+◌, ◌≤◌, true, false, List, [], ◌∷◌, ◌++◌, if◌then◌else◌, arith, Text,
  contains, all_differ, length, nat_eq, list_eq, list_beq_iff, take,
}
use on_call_agent.Evaluation.Metrics.{count_in, all_in, top}

-- Counting in a set with one more member.
count_in-cons :
    (x : Text) (xs ys : List Text)
    → all_differ ys ≡ true
    → contains x xs ≡ false
    → count_in (x ∷ xs) ys ≡ (if contains x ys then 1 else 0) + count_in xs ys
unfolding count_in
count_in-cons x xs [] d h = refl
count_in-cons x xs (y ∷ ys) d h =
    ground (arith, d, h, list_beq_iff x y, list_beq_iff y x, count_in-cons x xs ys)

count_in-nil : (ys : List Text) → count_in [] ys ≡ 0
unfolding count_in
count_in-nil [] = refl
count_in-nil (y ∷ ys) = count_in-nil ys

-- It does not matter in which of the two lists one counts.
pub count_in_comm :
    (xs ys : List Text)
    → all_differ xs ≡ true
    → all_differ ys ≡ true
    → count_in xs ys ≡ count_in ys xs
unfolding count_in
count_in_comm [] ys dx dy = count_in-nil ys
count_in_comm (x ∷ xs) ys dx dy =
    ground (arith, dx, dy, count_in-cons x xs ys dy, count_in_comm xs ys)

pub count_in_le : (set xs : List Text) → count_in set xs ≤ length xs
unfolding count_in
count_in_le set [] = omega arith
count_in_le set (x ∷ xs) = ground (arith, count_in_le set xs)

-- All members are counted when all are in the set, and only then.
pub count_in-all : (set xs : List Text) → all_in xs set ≡ true → count_in set xs ≡ length xs
unfolding count_in all_in
count_in-all set [] h = refl
count_in-all set (x ∷ xs) h = ground (arith, h, count_in-all set xs)

pub all_in-count_in : (set xs : List Text) → count_in set xs ≡ length xs → all_in xs set ≡ true
unfolding count_in all_in
all_in-count_in set [] h = refl
all_in-count_in set (x ∷ xs) h = ground (arith, h, count_in_le set xs, all_in-count_in set xs)

pub all_in-contains :
    (x : Text) (xs set : List Text)
    → all_in xs set ≡ true
    → contains x xs ≡ true
    → contains x set ≡ true
unfolding all_in
all_in-contains x [] set h c = absurd (ground (arith, c))
all_in-contains x (y ∷ ys) set h c =
    ground (arith, h, c, list_beq_iff y x, all_in-contains x ys set)

pub contains-all_in :
    (xs set : List Text)
    → ((x : Text) → contains x xs ≡ true → contains x set ≡ true)
    → all_in xs set ≡ true
unfolding all_in
contains-all_in [] set h = refl
contains-all_in (x ∷ xs) set h =
    let here : contains x set ≡ true = h x (ground (arith, list_beq_iff x x)) in
    let there : all_in xs set ≡ true = contains-all_in xs set (λ y c. h y (ground (arith, c))) in
    ground (arith, here, there)

contains-take :
    (x : Text) (k : ℕ) (xs : List Text) → contains x xs ≡ false → contains x (take k xs) ≡ false
contains-take x zero xs h = refl
contains-take x (suc k) [] h = refl
contains-take x (suc k) (y ∷ ys) h = ground (arith, h, contains-take x k ys)

pub all_differ-take :
    (k : ℕ) (xs : List Text) → all_differ xs ≡ true → all_differ (take k xs) ≡ true
all_differ-take zero xs h = refl
all_differ-take (suc k) [] h = refl
all_differ-take (suc k) (x ∷ xs) h = ground (arith, h, contains-take x k xs, all_differ-take k xs)

pub all_differ-top : (k : ℕ) (xs : List Text) → all_differ xs ≡ true → all_differ (top k xs) ≡ true
all_differ-top k xs h = ground (arith, h, all_differ-take k xs)

pub count_in-append :
    (set xs ys : List Text) → count_in set (xs ++ ys) ≡ count_in set xs + count_in set ys
unfolding count_in
count_in-append set [] ys = omega arith
count_in-append set (x ∷ xs) ys = ground (arith, count_in-append set xs ys)

-- A set without repetitions has no more members than it has.
pub count_in-bound :
    (set xs : List Text)
    → all_differ set ≡ true
    → all_differ xs ≡ true
    → count_in set xs ≤ length set
count_in-bound set xs ds dx = omega (arith, count_in_comm set xs ds dx, count_in_le xs set)
