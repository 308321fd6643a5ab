-- ===== src/Prelude/Choice.antt =====
-- `min(d, key=d.get)` on a dict: the first key with the least value.
use mathlib.Core.Path.{◌≡◌, subst, ap, sym, ◌∙◌}
use mathlib.Core.Logic.{inl, inr}
use mathlib.Core.Bool.{Bool, true, false}
use mathlib.Core.List.{[], ◌∷◌}
use mathlib.Core.Option.{Option, none, some, some-injective}
use native.Mathlib.Omega.{arith}
use predictive_consistent_ha.Prelude.Tests.{Bool-cases, if◌then◌else◌}
use predictive_consistent_ha.Prelude.Lists.{All}
use predictive_consistent_ha.Prelude.Equality.{Eq, ◌==◌, elem, Distinct, ==_refl}
use predictive_consistent_ha.Prelude.Dict.{Dict, keys, lookup, contains, elem-keys}

module _ {K V : Type 0} where
  -- The loop of `min` over the entries, with the best one so far.
  unfoldable pub least : (V → V → Bool) → K × V → Dict K V → K × V
  least lt best [] = best
  least lt best (e ∷ m) = least lt (if lt e.1 best.1 then e else best) m

  unfoldable pub min_key : (V → V → Bool) → Dict K V → Option K
  unfolding least
  min_key lt [] = none
  min_key lt (e ∷ m) = some (least lt e m).0

-- The order of the values: a total preorder, by its strict part.
pub record IsWeakOrder {V : Type 0} (lt : V → V → Bool) : Type 0 where
  pub asymm : (a b : V) → lt a b ≡ true → lt b a ≡ false
  pub trans : (a b c : V) → lt b a ≡ false → lt c b ≡ false → lt c a ≡ false

module _ {K V : Type 0} (lt : V → V → Bool) (order : IsWeakOrder lt) where
  pub least-le :
      (best : K × V) (m : Dict K V)
      → (lt best.1 (least lt best m).1 ≡ false)
        × All (λ (e : K × V). lt e.1 (least lt best m).1 ≡ false) m
  unfolding least
  least-le best [] = (ground (arith, order.asymm best.1 best.1), tt)
  least-le best (e ∷ m) =
      let (up, rest) = least-le (if lt e.1 best.1 then e else best) m in
      let below = (least lt (if lt e.1 best.1 then e else best) m).1 in
      (
        ground (arith, order.asymm e.1 best.1, order.trans below e.1 best.1),
        (ground (arith, order.asymm e.1 best.1, order.trans below best.1 e.1), rest),
      )

module _ {K V : Type 0} ⦃eq : Eq K⦄ where
  key_apart :
      (j k : K) (v : V) (m : Dict K V)
      → elem j (keys m) ≡ false
      → lookup k m ≡ some v
      → (j == k) ≡ false
  key_apart j k v m h e = ground (arith, elem-keys j m, eq.beq_iff j k)

  drop_second : (a b : K × V) (m : Dict K V) → Distinct (keys (a ∷ b ∷ m)) → Distinct (keys (a ∷ m))
  drop_second a b m d = ground arith

module _ {K V : Type 0} ⦃eq : Eq K⦄ (lt : V → V → Bool) where
  pub lookup-least :
      (best : K × V) (m : Dict K V)
      → Distinct (keys (best ∷ m))
      → lookup (least lt best m).0 (best ∷ m) ≡ some (least lt best m).1
  unfolding least
  lookup-least best [] d = ground (arith, ==_refl best.0)
  lookup-least best (e ∷ m) d = elim (Bool-cases (lt e.1 best.1)) [
    | inl better ↦
        let found = lookup-least e m d.1 in
        subst goal (sym better) (
          ground
            (arith, found, key_apart best.0 (least lt e m).0 (least lt e m).1 (e ∷ m) d.0 found))
    | inr kept ↦
        let found = lookup-least best m (drop_second best e m d) in
        subst goal (sym kept)
          (ground (arith, found, key_apart e.0 (least lt best m).0 (least lt best m).1 m d.1.0))
  ]
    where
      goal : Bool → Type 0
      goal b =
          lookup (least lt (if b then e else best) m).0 (best ∷ e ∷ m)
          ≡ some (least lt (if b then e else best) m).1

module _ {K V : Type 0} ⦃eq : Eq K⦄ where
  pub All-lookup {κ} :
      (P : V → Type κ) (k : K) (v : V) (m : Dict K V)
      → All (λ (e : K × V). P e.1) m
      → lookup k m ≡ some v
      → P v
  All-lookup P k v [] all e = cc
  All-lookup P k v ((j, w) ∷ m) all e = elim (Bool-cases (j == k)) [
    | inl here ↦ subst P (some-injective w v (rw here at e)) all.0
    | inr there ↦ All-lookup P k v m all.1 (rw there at e)
  ]

  pub min_key-cases :
      (lt : V → V → Bool) (m : Dict K V) (k : K)
      → IsWeakOrder lt
      → Distinct (keys m)
      → min_key lt m ≡ some k
      → (v : V) × (lookup k m ≡ some v) × All (λ (e : K × V). lt e.1 v ≡ false) m
  unfolding min_key
  min_key-cases lt [] k order d e = cc
  min_key-cases lt (b ∷ m) k order d e =
      let (up, rest) = least-le lt order b m in
      (
        (least lt b m).1,
        ap (λ j. lookup j (b ∷ m)) (sym (some-injective _ k e)) ∙ lookup-least lt b m d,
        (up, rest),
      )

  pub min_key-ne-none :
      (lt : V → V → Bool) (m : Dict K V) (k : K) → min_key lt m ≡ none → contains k m ≡ true → ⊥
  unfolding min_key
  min_key-ne-none lt [] k e h = cc
  min_key-ne-none lt (b ∷ m) k e h = cc
