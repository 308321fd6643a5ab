-- ===== src/Prelude/Dict.antt =====
-- A Python dict: an association list in insertion order.
use predictive_consistent_ha.Prelude.Tests.{if◌then◌else◌, is_some}
use predictive_consistent_ha.Prelude.Equality.{Eq, ◌==◌, elem, Distinct, ==_symm}
use mathlib.Core.Path.{◌≡◌, refl, ap}
use mathlib.Core.Bool.{Bool, true, ◌||◌, not, ◌&&◌}
use mathlib.Core.List.{List, [], ◌∷◌}
use mathlib.Core.Option.{Option, none, some}
use native.Mathlib.Omega.{arith}

abbrev pub Dict {ℓ κ} : Type ℓ → Type κ → Type (ℓ ⊔ κ)
Dict K V = List (K × V)

module _ {ℓ κ} {K : Type ℓ} {V : Type κ} where
  abbrev pub keys : Dict K V → List K
  keys [] = []
  keys ((k, v) ∷ m) = k ∷ keys m

  abbrev pub values : Dict K V → List V
  values [] = []
  values ((k, v) ∷ m) = v ∷ values m

module _ {ℓ κ} {K : Type ℓ} {V : Type κ} ⦃e : Eq K⦄ where
  -- `m.get(k)`
  abbrev pub lookup : K → Dict K V → Option V
  lookup k [] = none
  lookup k ((j, v) ∷ m) = if j == k then some v else lookup k m

  -- `m[k] = v`
  abbrev pub insert : K → V → Dict K V → Dict K V
  insert k v [] = (k, v) ∷ []
  insert k v ((j, w) ∷ m) = if j == k then (j, v) ∷ m else (j, w) ∷ insert k v m

  -- `m.pop(k, None)`
  abbrev pub erase : K → Dict K V → Dict K V
  erase k [] = []
  erase k ((j, w) ∷ m) = if j == k then erase k m else (j, w) ∷ erase k m

  -- `k in m`
  abbrev pub contains : K → Dict K V → Bool
  contains k m = is_some (lookup k m)

module _ {ℓ κ} {K : Type ℓ} {V : Type κ} ⦃e : Eq K⦄ where
  pub lookup-insert :
      (j k : K) (v : V) (m : Dict K V)
      → lookup j (insert k v m) ≡ (if k == j then some v else lookup j m)
  lookup-insert j k v [] = refl
  lookup-insert j k v ((i, w) ∷ m) =
      ground (arith, e.beq_iff k j, e.beq_iff i k, e.beq_iff i j, lookup-insert j k v m)

  pub lookup-erase :
      (j k : K) (m : Dict K V) → lookup j (erase k m) ≡ (if k == j then none else lookup j m)
  lookup-erase j k [] = ground arith
  lookup-erase j k ((i, w) ∷ m) =
      ground (arith, e.beq_iff k j, e.beq_iff i k, e.beq_iff i j, lookup-erase j k m)

  pub lookup_congr : (j k : K) (m : Dict K V) → (j == k) ≡ true → lookup j m ≡ lookup k m
  lookup_congr j k m h = ap (λ i. lookup i m) ((e.beq_iff j k).0 h)

  pub elem-keys : (k : K) (m : Dict K V) → elem k (keys m) ≡ contains k m
  elem-keys k [] = refl
  elem-keys k ((j, v) ∷ m) = ground (arith, elem-keys k m)

  pub elem-keys-insert :
      (j k : K) (v : V) (m : Dict K V) → elem j (keys (insert k v m)) ≡ (k == j || elem j (keys m))
  elem-keys-insert j k v [] = ground arith
  elem-keys-insert j k v ((i, w) ∷ m) =
      ground (arith, e.beq_iff k j, e.beq_iff i k, e.beq_iff i j, elem-keys-insert j k v m)

  pub elem-keys-erase :
      (j k : K) (m : Dict K V) → elem j (keys (erase k m)) ≡ (not (k == j) && elem j (keys m))
  elem-keys-erase j k [] = ground arith
  elem-keys-erase j k ((i, w) ∷ m) =
      ground (arith, e.beq_iff k j, e.beq_iff i k, e.beq_iff i j, elem-keys-erase j k m)

  pub insert-Distinct :
      (k : K) (v : V) (m : Dict K V) → Distinct (keys m) → Distinct (keys (insert k v m))
  insert-Distinct k v [] d = ground arith
  insert-Distinct k v ((i, w) ∷ m) d =
      ground (arith, insert-Distinct k v m d.1, elem-keys-insert i k v m, ==_symm k i)

  pub erase-Distinct : (k : K) (m : Dict K V) → Distinct (keys m) → Distinct (keys (erase k m))
  erase-Distinct k [] d = tt
  erase-Distinct k ((i, w) ∷ m) d = ground (arith, erase-Distinct k m d.1, elem-keys-erase i k m)

  pub keys-insert_old :
      (k : K) (v : V) (m : Dict K V) → contains k m ≡ true → keys (insert k v m) ≡ keys m
  keys-insert_old k v [] h = ground arith
  keys-insert_old k v ((i, w) ∷ m) h = ground (arith, keys-insert_old k v m)
