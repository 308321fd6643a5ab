-- ===== src/Prelude/Equality.antt =====
-- Equality tests as an interface, membership and distinctness of lists by such a test.
use text.Mathlib.Text.{◌==◌ as str_beq}
use text.Mathlib.TextEquality.{eq_iff as str_beq_iff}
use Prim.Native.Nat.{ℕ}
use Prim.Native.String.{String}
use mathlib.Core.Path.{◌≡◌, refl}
use mathlib.Core.Logic.{◌↔◌, ◌≢◌}
use mathlib.Core.Bool.{Bool, true, false, ◌||◌}
use mathlib.Core.List.{List, [], ◌∷◌, ◌++◌}
use native.Mathlib.Omega.{arith}
use predictive_consistent_ha.Prelude.Lists.{All}
use predictive_consistent_ha.Prelude.Tests.{nat_beq}

pub record Eq {ℓ} (A : Type ℓ) : Type ℓ where
  pub beq : A → A → Bool
  pub beq_iff : (a b : A) → (beq a b ≡ true) ↔ (a ≡ b)

pub nat_beq_iff : (a b : ℕ) → (nat_beq a b ≡ true) ↔ (a ≡ b)
nat_beq_iff a b = ground arith

instance abbrev pub nat_eq : Eq ℕ
nat_eq = record { beq = nat_beq; beq_iff = nat_beq_iff }

instance abbrev pub string_eq : Eq String
string_eq = record { beq = str_beq; beq_iff = str_beq_iff }

infix 50 ◌==◌
abbrev pub ◌==◌ {ℓ} : {A : Type ℓ} ⦃e : Eq A⦄ → A → A → Bool
◌==◌ ⦃e⦄ = e.beq

module _ {ℓ} {A : Type ℓ} ⦃e : Eq A⦄ where
  pub ==_refl : (a : A) → (a == a) ≡ true
  ==_refl a = (e.beq_iff a a).1 refl

  pub ==_lem : (a b : A) → (a == b) ≡ true → a ≡ b
  ==_lem a b h = (e.beq_iff a b).0 h

  pub ==_ne : (a b : A) → (a == b) ≡ false → a ≢ b
  ==_ne a b h p = cc ((e.beq_iff a b).1 p)

  pub ==_symm : (a b : A) → (a == b) ≡ (b == a)
  ==_symm a b = ground (arith, e.beq_iff a b, e.beq_iff b a)

  abbrev pub elem : A → List A → Bool
  elem a [] = false
  elem a (x ∷ xs) = x == a || elem a xs

  abbrev pub Distinct : List A → Type 0
  Distinct [] = Unit
  Distinct (x ∷ xs) = (elem x xs ≡ false) × Distinct xs

  -- `list.remove` of every occurrence; on a list without repetitions this is `list.remove`.
  abbrev pub remove_all : A → List A → List A
  remove_all a [] = []
  remove_all a (x ∷ xs) = elim (x == a) [ true ↦ remove_all a xs | false ↦ x ∷ remove_all a xs ]

module _ {ℓ} {A : Type ℓ} ⦃e : Eq A⦄ where
  pub elem-append : (a : A) (xs ys : List A) → elem a (xs ++ ys) ≡ (elem a xs || elem a ys)
  elem-append a [] ys = refl
  elem-append a (x ∷ xs) ys = ground (arith, elem-append a xs ys)

  pub elem→All {κ} : (P : A → Type κ) (xs : List A) → ((m : A) → elem m xs ≡ true → P m) → All P xs
  elem→All P [] h = tt
  elem→All P (x ∷ xs) h =
      (h x (ground (arith, ==_refl x)), elem→All P xs (λ m e. h m (ground arith)))
