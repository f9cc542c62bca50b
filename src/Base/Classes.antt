-- ===== src/Base/Classes.antt =====
-- Decidable equality as an interface: Go's `==` on the types that serve as map keys.
use Prim.Native.Nat.{ℕ}
use mathlib.Core.Path.{◌≡◌, refl}
use mathlib.Core.Logic.{◌↔◌}
use mathlib.Core.Bool.{Bool, true, false, ◌&&◌}
use mathlib.Core.List.{List, [], ◌∷◌}
use native.Mathlib.Omega.{arith}
use on_call_agent.Base.Tests.{◌==◌ as nat_beq, ==_iff}

pub record Eq {ℓ} (A : Type ℓ) : Type ℓ where
  pub beq : A → A → Bool
  pub beq_iff : (a b : A) → (beq a b ≡ true) ↔ (a ≡ b)

infix 50 ◌=?◌
abbrev pub ◌=?◌ {ℓ} : {A : Type ℓ} ⦃e : Eq A⦄ → A → A → Bool
◌=?◌ ⦃e⦄ = e.beq

pub =?_iff {ℓ} : {A : Type ℓ} ⦃e : Eq A⦄ (a b : A) → ((a =? b) ≡ true) ↔ (a ≡ b)
=?_iff ⦃e⦄ a b = e.beq_iff a b

pub =?_refl {ℓ} : {A : Type ℓ} ⦃e : Eq A⦄ (a : A) → (a =? a) ≡ true
=?_refl ⦃e⦄ a = (e.beq_iff a a).1 refl

instance abbrev pub nat_eq : Eq ℕ
nat_eq = record { beq = nat_beq; beq_iff = ==_iff }

module _ {ℓ} {A : Type ℓ} ⦃e : Eq A⦄ where
  abbrev pub list_beq : List A → List A → Bool
  list_beq [] [] = true
  list_beq [] (y ∷ ys) = false
  list_beq (x ∷ xs) [] = false
  list_beq (x ∷ xs) (y ∷ ys) = x =? y && list_beq xs ys

  pub list_beq_iff : (xs ys : List A) → (list_beq xs ys ≡ true) ↔ (xs ≡ ys)
  list_beq_iff [] [] = (λ _. refl, λ _. refl)
  list_beq_iff [] (y ∷ ys) = (λ h. cc, λ h. cc)
  list_beq_iff (x ∷ xs) [] = (λ h. cc, λ h. cc)
  list_beq_iff (x ∷ xs) (y ∷ ys) = ground (arith, e.beq_iff x y, list_beq_iff xs ys)

instance abbrev pub list_eq {ℓ} : {A : Type ℓ} ⦃e : Eq A⦄ → Eq (List A)
list_eq = record { beq = list_beq; beq_iff = list_beq_iff }
