-- ===== src/Ring/Index.antt =====
-- What ties the sorted positions, their owners and the lists of virtual nodes together, and that the
-- two loops of the ring keep it.
use predictive_consistent_ha.Prelude.{
  ℕ, zero, suc, String, Bool, true, false, not, ◌&&◌, Option, none, some, List, [], ◌∷◌, ◌++◌, ◌+◌,
  ◌≡◌, refl, arith, if◌then◌else◌, ◌==◌, elem, Distinct, length, nat_eq, string_eq, elem-append,
  ==_refl, ==_symm, ==_lem, >>=-eq-some, ◌∙◌, ap, subst, nat_beq→eq,
}
use mathlib.Core.Option.{some-injective}
use predictive_consistent_ha.Prelude.Dict.{
  Dict, lookup, erase, contains, lookup-insert, lookup-erase,
}
use predictive_consistent_ha.Ring.{
  Hashing, murmurhash3, settle, Placing, put_vnode, place_vnodes, drop_vnodes, vnode_key,
  collision_key,
}
use predictive_consistent_ha.Ring.Positions.{
  pop_position, IsSorted, elem-insort, insort-IsSorted, pop_position-IsSorted, elem-pop_position,
}

-- The name that owns a position, compared with a given one.
abbrev pub is_owner : String → Option String → Bool
is_owner n none = false
is_owner n (some m) = m == n

pub is_owner_unique :
    (n m : String) (o : Option String) → is_owner n o ≡ true → is_owner m o ≡ true → (n == m) ≡ true
is_owner_unique n m none h k = cc
is_owner_unique n m (some x) h k =
    ground (arith, string_eq.beq_iff x n, string_eq.beq_iff x m, string_eq.beq_iff n m)

pub is_owner_congr :
    (n m : String) (o : Option String) → (n == m) ≡ true → is_owner n o ≡ is_owner m o
is_owner_congr n m o h = ap (λ k. is_owner k o) (==_lem n m h)

pub is_owner→eq : (n : String) (o : Option String) → is_owner n o ≡ true → o ≡ some n
is_owner→eq n none h = cc
is_owner→eq n (some m) h = ap some (==_lem m n h)

-- The positions are the keys of the owners; a node's list holds the positions that it owns, once.
pub record IsIndexed (positions : List ℕ) (owners : Dict ℕ String) (vnodes : String → List ℕ)
    : Type 0 where
  pub sorted : IsSorted 0 positions
  pub indexed : (p : ℕ) → elem p positions ≡ contains p owners
  pub owned : (n : String) (p : ℕ) → elem p (vnodes n) ≡ is_owner n (lookup p owners)
  pub distinct : (n : String) → Distinct (vnodes n)

-- The lists of virtual nodes with another list for one node.
abbrev pub with_node : String → List ℕ → (String → List ℕ) → String → List ℕ
with_node n vs vnodes m = if n == m then vs else vnodes m

pub IsIndexed-ext :
    (positions : List ℕ) (owners : Dict ℕ String) (v w : String → List ℕ)
    → ((n : String) → v n ≡ w n)
    → IsIndexed positions owners v
    → IsIndexed positions owners w
IsIndexed-ext positions owners v w same t = record {
  sorted = t.sorted;
  indexed = t.indexed;
  owned = λ n p. rw (← same n) (t.owned n p);
  distinct = λ n. rw (← same n) (t.distinct n);
}

-- `settle` returns a position that is free.
pub settle_free :
    (h : Hashing) (fuel : ℕ) (taken : Dict ℕ String) (key : String) (position : ℕ) {q : ℕ}
    → settle h fuel taken key position ≡ some q
    → contains q taken ≡ false
unfolding settle
settle_free h zero taken key position e = cc
settle_free h (suc fuel) taken key position {q} e =
    ground
      (arith, settle_free h fuel taken key (murmurhash3 h (collision_key key position)) {q = q})

Distinct-snoc : (xs : List ℕ) (a : ℕ) → Distinct xs → elem a xs ≡ false → Distinct (xs ++ a ∷ [])
Distinct-snoc [] a d h = (refl, tt)
Distinct-snoc (x ∷ xs) a d h =
    ground (arith, Distinct-snoc xs a d.1, elem-append x xs (a ∷ []), ==_symm a x)

module _ (n : String) (v : String → List ℕ) where
  put_vnode-IsIndexed :
      (p : Placing) (q : ℕ)
      → contains q p.position_to_node ≡ false
      → IsIndexed p.positions p.position_to_node (with_node n p.vnodes v)
      → let p' = put_vnode n p q in
        IsIndexed p'.positions p'.position_to_node (with_node n p'.vnodes v)
  unfolding put_vnode
  put_vnode-IsIndexed p q free t = record {
    sorted = insort-IsSorted 0 q p.positions t.sorted (omega arith) (t.indexed q ∙ free);
    indexed = λ a.
        ground
          (arith, elem-insort a q p.positions, t.indexed a, lookup-insert a q n p.position_to_node);
    owned = λ m a. ground (
      arith,
      t.owned m a,
      lookup-insert a q n p.position_to_node,
      elem-append a p.vnodes (q ∷ []),
      free,
      string_eq.beq_iff n m,
    );
    distinct = λ m. ground (
      arith,
      t.distinct m,
      t.owned n q,
      ==_refl n,
      string_eq.beq_iff n m,
      Distinct-snoc p.vnodes q,
    );
  }

  -- The loop that adds virtual nodes keeps the index.
  pub place_vnodes-IsIndexed :
      (h : Hashing) (rounds i : ℕ) (p : Placing) {p' : Placing}
      → place_vnodes h n rounds i p ≡ some p'
      → IsIndexed p.positions p.position_to_node (with_node n p.vnodes v)
      → IsIndexed p'.positions p'.position_to_node (with_node n p'.vnodes v)
  unfolding place_vnodes
  place_vnodes-IsIndexed h zero i p e t =
      subst (λ (u : Placing). IsIndexed u.positions u.position_to_node (with_node n u.vnodes v))
        (some-injective p _ e) t
  place_vnodes-IsIndexed h (suc rounds) i p e t =
      let key = vnode_key n i in
      let (q, found, rest) =
        >>=-eq-some
          (settle h (suc (length p.position_to_node)) p.position_to_node key (murmurhash3 h key)) _
          e in
      place_vnodes-IsIndexed h rounds (i + 1) (put_vnode n p q) rest
        (put_vnode-IsIndexed p q (settle_free h _ _ _ _ found) t)

-- What the loop that removes virtual nodes leaves.
pub drop_vnodes-IsSorted :
    (ds positions : List ℕ) (owners : Dict ℕ String)
    → IsSorted 0 positions
    → IsSorted 0 (drop_vnodes ds (positions, owners)).0
unfolding drop_vnodes
drop_vnodes-IsSorted [] positions owners s = s
drop_vnodes-IsSorted (d ∷ ds) positions owners s =
    drop_vnodes-IsSorted ds _ _ (pop_position-IsSorted 0 d positions s)

pub elem-drop_vnodes :
    (q : ℕ) (ds positions : List ℕ) (owners : Dict ℕ String)
    → IsSorted 0 positions
    → elem q (drop_vnodes ds (positions, owners)).0 ≡ (not (elem q ds) && elem q positions)
unfolding drop_vnodes
elem-drop_vnodes q [] positions owners s = refl
elem-drop_vnodes q (d ∷ ds) positions owners s = ground (
  arith,
  elem-drop_vnodes q ds (pop_position d positions) (erase d owners)
      (pop_position-IsSorted 0 d positions s),
  elem-pop_position 0 q d positions s,
)

pub lookup-drop_vnodes :
    (q : ℕ) (ds positions : List ℕ) (owners : Dict ℕ String)
    → lookup q (drop_vnodes ds (positions, owners)).1
      ≡ (if elem q ds then none else lookup q owners)
unfolding drop_vnodes
lookup-drop_vnodes q [] positions owners = refl
lookup-drop_vnodes q (d ∷ ds) positions owners = ground (
  arith,
  lookup-drop_vnodes q ds (pop_position d positions) (erase d owners),
  lookup-erase q d owners,
)

Distinct-append :
    (xs ys : List ℕ) (q : ℕ)
    → Distinct (xs ++ ys)
    → Distinct xs × (elem q xs ≡ true → elem q ys ≡ false)
Distinct-append [] ys q d = ground arith
Distinct-append (x ∷ xs) ys q d =
    ground (arith, Distinct-append xs ys q d.1, elem-append x xs ys, nat_beq→eq x q)

-- If `ds` is the end of a node's list, the loop over `ds` leaves an index with the rest of the list.
pub drop_vnodes-IsIndexed :
    (n : String) (v : String → List ℕ) (kept ds positions : List ℕ) (owners : Dict ℕ String)
    → v n ≡ kept ++ ds
    → IsIndexed positions owners v
    → let r = drop_vnodes ds (positions, owners) in IsIndexed r.0 r.1 (with_node n kept v)
drop_vnodes-IsIndexed n v kept ds positions owners split t = record {
  sorted = drop_vnodes-IsSorted ds positions owners t.sorted;
  indexed = λ a. ground (
    arith,
    elem-drop_vnodes a ds positions owners t.sorted,
    lookup-drop_vnodes a ds positions owners,
    t.indexed a,
  );
  owned = λ m a. ground (
    arith,
    t.owned m a,
    t.owned n a,
    lookup-drop_vnodes a ds positions owners,
    elem-append a kept ds,
    (Distinct-append kept ds a whole).1,
    ap (elem a) split,
    is_owner_unique n m (lookup a owners),
    is_owner_congr n m (lookup a owners),
  );
  distinct = λ m. ground (arith, t.distinct m, (Distinct-append kept ds 0 whole).0);
}
  where
    whole : Distinct (kept ++ ds)
    whole = subst Distinct split (t.distinct n)
