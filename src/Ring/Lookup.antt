-- ===== src/Ring/Lookup.antt =====
-- `get_node` refines the abstract ring: a set of positions with their owners.
use predictive_consistent_ha.Prelude.{
  ℕ, String, true, Option, none, some, [], ◌≡◌, ◌≢◌, sym, ap, ◌∙◌, inl, inr, arith, elem, nat_eq,
  string_eq, ==_refl, get_elem?, List-cases, subst,
}
use predictive_consistent_ha.Prelude.Dict.{lookup, contains}
use predictive_consistent_ha.Ring.{Hashing, murmurhash3, Ring, get_node}
use predictive_consistent_ha.Ring.Index.{is_owner}
use predictive_consistent_ha.Ring.Successor.{
  IsSuccessor, IsSuccessor-unique, successor_index, successor_index-IsSuccessor,
}
use predictive_consistent_ha.Ring.Validity.{IsValid}
use mathlib.Core.List.{cons≢nil}
use mathlib.Core.Option.{some-injective}

module _ {W : Type 0} where
  -- What the ring answers for the hash `x`: the owner of the clockwise successor, or nothing if
  -- there is no position.
  abbrev pub Serves : Ring W → ℕ → Option String → Type 0
  Serves r x none = r.positions ≡ []
  Serves r x (some m) =
      (p : ℕ) × IsSuccessor r.positions x p × (lookup p r.position_to_node ≡ some m)

  pub Serves-unique :
      (r : Ring W) (x : ℕ) (m m' : String) → Serves r x (some m) → Serves r x (some m') → m ≡ m'
  Serves-unique r x m m' (p, s, e) (q, t, e') =
      some-injective m m'
        (sym e ∙ ap (λ a. lookup a r.position_to_node) (IsSuccessor-unique _ x p q s t) ∙ e')

  get_node-eq-some :
      (h : Hashing) (key : String) (r : Ring W) (p : ℕ) (m : String)
      → r.positions ≢ []
      → get_elem? r.positions (successor_index r.positions (murmurhash3 h key)) ≡ some p
      → lookup p r.position_to_node ≡ some m
      → get_node h key r ≡ some m
  unfolding get_node
  get_node-eq-some h key r p m full at_p owner = ground arith

  get_node-eq-none :
      (h : Hashing) (key : String) (r : Ring W) → r.positions ≡ [] → get_node h key r ≡ none
  unfolding get_node
  get_node-eq-none h key r e = ground arith

  owner_of :
      (r : Ring W) (p : ℕ)
      → IsValid r
      → elem p r.positions ≡ true
      → (m : String) × (lookup p r.position_to_node ≡ some m)
  owner_of r p v h = ground (arith, v.index.indexed p)

  -- `get_node` answers with the owner of the clockwise successor of the key's hash, and with nothing
  -- exactly on the empty ring.
  pub get_node-Serves :
      (h : Hashing) (key : String) (r : Ring W)
      → IsValid r
      → Serves r (murmurhash3 h key) (get_node h key r)
  get_node-Serves h key r v = elim (List-cases r.positions) [
    | inl empty ↦ subst (Serves r _) (sym (get_node-eq-none h key r empty)) empty
    | inr (y, ys, e) ↦
        let full : r.positions ≢ [] = λ empty. cons≢nil (sym e ∙ empty) in
        let (p, at_p, s) =
          successor_index-IsSuccessor (murmurhash3 h key) r.positions v.index.sorted full in
        let (m, owner) = owner_of r p v s.member in
        subst (Serves r _) (sym (get_node-eq-some h key r p m full at_p owner)) (p, s, owner)
  ]

  -- A node that the ring answers with is a node of the ring.
  pub Serves-contains :
      (r : Ring W) (x : ℕ) (m : String)
      → IsValid r
      → Serves r x (some m)
      → contains m r.node_vnodes ≡ true
  Serves-contains r x m v (p, s, e) =
      ground (arith, v.index.owned m p, ap (is_owner m) e, ==_refl m)

  -- Two answers for one hash agree.
  pub Serves-eq :
      (r : Ring W) (x : ℕ) (m : String) (o : Option String)
      → Serves r x o
      → Serves r x (some m)
      → o ≡ some m
  Serves-eq r x m none empty (p, s, e) = ground (arith, s.member)
  Serves-eq r x m (some m') t u = ap some (Serves-unique r x m' m t u)
