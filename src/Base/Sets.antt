-- ===== src/Base/Sets.antt =====
-- Lists that serve as sets: membership, and the values without their repetitions.
use mathlib.Core.Path.{◌≡◌, refl}
use mathlib.Core.Bool.{Bool, true, false, not, ◌&&◌, ◌||◌}
use mathlib.Core.List.{List, [], ◌∷◌, ◌++◌}
use native.Mathlib.Omega.{arith}
use on_call_agent.Base.Tests.{if◌then◌else◌}
use on_call_agent.Base.Classes.{Eq, ◌=?◌}

module _ {ℓ} {A : Type ℓ} ⦃e : Eq A⦄ where
  -- Whether a list holds a value: a loop over a slice, or a lookup in a Go map used as a set.
  abbrev pub contains : A → List A → Bool
  contains x [] = false
  contains x (y ∷ ys) = y =? x || contains x ys

  pub contains-append :
      (x : A) (ys zs : List A) → contains x (ys ++ zs) ≡ (contains x ys || contains x zs)
  contains-append x [] zs = refl
  contains-append x (y ∷ ys) zs = ground (arith, contains-append x ys zs)

  -- Whether no value comes twice.
  abbrev pub all_differ : List A → Bool
  all_differ [] = true
  all_differ (x ∷ xs) = not (contains x xs) && all_differ xs

  -- The values of a list without those that came before; `seen` are the ones to leave out.
  unfoldable pub unique_from : List A → List A → List A
  unique_from seen [] = []
  unique_from seen (x ∷ xs) =
      if contains x seen then unique_from seen xs else x ∷ unique_from (x ∷ seen) xs

  pub contains-unique_from :
      (x : A) (seen xs : List A)
      → contains x (unique_from seen xs) ≡ (contains x xs && not (contains x seen))
  unfolding unique_from
  contains-unique_from x seen [] = refl
  contains-unique_from x seen (y ∷ xs) =
      ground
        (arith, e.beq_iff y x, contains-unique_from x seen xs, contains-unique_from x (y ∷ seen) xs)

  pub unique_from-differ : (seen xs : List A) → all_differ (unique_from seen xs) ≡ true
  unfolding unique_from
  unique_from-differ seen [] = refl
  unique_from-differ seen (x ∷ xs) = ground (
    arith,
    e.beq_iff x x,
    unique_from-differ seen xs,
    unique_from-differ (x ∷ seen) xs,
    contains-unique_from x (x ∷ seen) xs,
  )
