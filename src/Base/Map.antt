-- ===== src/Base/Map.antt =====
-- Go maps as association lists: a write replaces the entry, a delete removes every copy of it.
use Prim.Native.Nat.{◌≤◌, ◌+◌}
use mathlib.Core.Path.{◌≡◌, refl}
use mathlib.Core.List.{List, [], ◌∷◌}
use mathlib.Core.Option.{Option, none, some}
use native.Mathlib.Omega.{arith}
use on_call_agent.Base.Tests.{if◌then◌else◌}
use on_call_agent.Base.Lists.{length}
use on_call_agent.Base.Classes.{Eq, ◌=?◌}

module _ {ℓ κ} {K : Type ℓ} {V : Type κ} ⦃e : Eq K⦄ where
  unfoldable pub get : K → List (K × V) → Option V
  get k [] = none
  get k ((j, v) ∷ m) = if j =? k then some v else get k m

  unfoldable pub put : K → V → List (K × V) → List (K × V)
  put k v [] = (k, v) ∷ []
  put k v ((j, w) ∷ m) = if j =? k then (k, v) ∷ m else (j, w) ∷ put k v m

  unfoldable pub delete : K → List (K × V) → List (K × V)
  delete k [] = []
  delete k ((j, w) ∷ m) = if j =? k then delete k m else (j, w) ∷ delete k m

  pub get-put :
      (k j : K) (v : V) (m : List (K × V))
      → get j (put k v m) ≡ (if k =? j then some v else get j m)
  unfolding get put
  get-put k j v [] = refl
  get-put k j v ((i, w) ∷ m) =
      ground (arith, e.beq_iff k j, e.beq_iff i k, e.beq_iff i j, get-put k j v m)

  pub get-delete :
      (k j : K) (m : List (K × V)) → get j (delete k m) ≡ (if k =? j then none else get j m)
  unfolding get delete
  get-delete k j [] = ground arith
  get-delete k j ((i, w) ∷ m) =
      ground (arith, e.beq_iff k j, e.beq_iff i k, e.beq_iff i j, get-delete k j m)

  pub length-put-le : (k : K) (v : V) (m : List (K × V)) → length (put k v m) ≤ length m + 1
  unfolding put
  length-put-le k v [] = omega arith
  length-put-le k v ((i, w) ∷ m) = ground (arith, length-put-le k v m)

  pub length-delete-le : (k : K) (m : List (K × V)) → length (delete k m) ≤ length m
  unfolding delete
  length-delete-le k [] = omega arith
  length-delete-le k ((i, w) ∷ m) = ground (arith, length-delete-le k m)
