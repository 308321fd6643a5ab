-- ===== src/Ring/Candidates.antt =====
-- `get_candidates`: the walk round the ring.
use predictive_consistent_ha.Prelude.{
  ℕ, suc, String, true, false, some, List, [], ◌∷◌, ◌+◌, ◌-◌, ◌%◌, ◌≤◌, ◌<◌, ◌≡◌, sym, ap, ◌∙◌, inl,
  inr, arith, leb, length, elem, Distinct, nat_eq, string_eq, ==_refl, ==_lem, if◌then◌else◌, ◌==◌,
  max, All, get_elem?, Bool-cases, >>=-eq-some, elem→All, List-cases,
}
use predictive_consistent_ha.Prelude.Dict.{lookup, contains}
use predictive_consistent_ha.Ring.{
  Hashing, murmurhash3, Ring, node_at, walk, get_candidates, get_node, vnodes_of,
}
use predictive_consistent_ha.Ring.Index.{is_owner, is_owner→eq}
use predictive_consistent_ha.Ring.Positions.{bisect_left}
use predictive_consistent_ha.Ring.Walk.{
  walk-Distinct, walk-length, walk-new, walk_complete, walk-first,
}
use predictive_consistent_ha.Ring.Validity.{IsValid}
use native.Mathlib.Nat.{mod-eq_of_lt, add-mod_right, add-zero, zero-add}
use native.Mathlib.Decide.{dec_lt}

bisect_left-le : (xs : List ℕ) (x : ℕ) → bisect_left xs x ≤ length xs
unfolding bisect_left
bisect_left-le [] x = omega arith
bisect_left-le (y ∷ ys) x = ground (arith, bisect_left-le ys x)

-- Each index below `total` is met within `total` steps from `idx`.
pub turn :
    (idx k total : ℕ) → idx ≤ total → k < total → (j : ℕ) × (j < total) × ((idx + j) % total ≡ k)
turn idx k total h lt = elim (dec_lt k idx) [
  | yes before ↦
      let wrap : idx + (k + total - idx) ≡ k + total = omega arith in
      (
        k + total - idx,
        omega arith,
        ap (λ a. a % total) wrap ∙ add-mod_right k total ∙ mod-eq_of_lt lt,
      )
  | no after ↦
      let there : idx + (k - idx) ≡ k = omega arith in
      (k - idx, omega arith, ap (λ a. a % total) there ∙ mod-eq_of_lt lt)
]

wrap_index :
    (idx total : ℕ)
    → idx ≤ total
    → 0 < total
    → (idx + 0) % total ≡ (if leb total idx then 0 else idx)
wrap_index idx total h pos = elim (dec_lt idx total) [
  | yes inside ↦ ap (λ a. a % total) (add-zero idx) ∙ mod-eq_of_lt inside ∙ ground arith
  | no past ↦
      let end : idx + 0 ≡ 0 + total = omega arith in
      ap (λ a. a % total) end ∙ add-mod_right 0 total ∙ mod-eq_of_lt pos ∙ ground arith
]

index_of :
    (p : ℕ) (xs : List ℕ) → elem p xs ≡ true → (k : ℕ) × (k < length xs) × (get_elem? xs k ≡ some p)
index_of p [] h = cc
index_of p (x ∷ xs) h = elim (Bool-cases (x == p)) [
  | inl here ↦ (0, omega arith, ap some (==_lem x p here))
  | inr other ↦ let (k, lt, e) = index_of p xs (ground arith) in (suc k, omega arith, e)
]

module _ {W : Type 0} where
  node_at-eq :
      (r : Ring W) (k p : ℕ) (m : String)
      → get_elem? r.positions k ≡ some p
      → lookup p r.position_to_node ≡ some m
      → node_at r k ≡ some m
  unfolding node_at
  node_at-eq r k p m at_k owner = ground arith

  node_at-contains :
      (r : Ring W) (j : ℕ) (m : String)
      → IsValid r
      → node_at r j ≡ some m
      → contains m r.node_vnodes ≡ true
  unfolding node_at
  node_at-contains r j m v e =
      let (p, _, owner) = >>=-eq-some (get_elem? r.positions j) _ e in
      ground (arith, v.index.owned m p, ap (is_owner m) owner, ==_refl m)

  -- The candidates are different nodes of the ring with names that are not empty, at most `count` of
  -- them (one, if `count` is 0).
  pub get_candidates-bounds :
      (h : Hashing) (key : String) (count : ℕ) (r : Ring W)
      → IsValid r
      → let cs = get_candidates h key count r in
        Distinct cs
        × (length cs ≤ max count 1)
        × All (λ m. (contains m r.node_vnodes ≡ true) × ((m == "") ≡ false)) cs
  unfolding get_candidates
  get_candidates-bounds h key count r v =
      let idx = bisect_left r.positions (murmurhash3 h key) in
      let total = length r.positions in
      (
        walk-Distinct r count idx total 0 [] tt,
        walk-length r count idx total 0 [] (omega arith),
        elem→All _ _ λ m e. elim (walk-new r count idx total 0 [] m e) [
          | inl none_yet ↦ absurd (ground arith)
          | inr (j, found, named) ↦ (node_at-contains r j m v found, named)
        ],
      )

  -- If there are fewer candidates than `count`, every node with a virtual node and a name is one.
  pub get_candidates_complete :
      (h : Hashing) (key : String) (count : ℕ) (r : Ring W) (m : String) (p : ℕ)
      → IsValid r
      → length (get_candidates h key count r) < count
      → elem p (vnodes_of m r) ≡ true
      → (m == "") ≡ false
      → elem m (get_candidates h key count r) ≡ true
  unfolding get_candidates
  get_candidates_complete h key count r m p v few own named =
      let x = murmurhash3 h key in
      let idx = bisect_left r.positions x in
      let owner = is_owner→eq m (lookup p r.position_to_node) (sym (v.index.owned m p) ∙ own) in
      let placed : elem p r.positions ≡ true = ground (arith, v.index.indexed p) in
      let (k, below, at_k) = index_of p r.positions placed in
      let (j, in_turn, e) = turn idx k (length r.positions) (bisect_left-le r.positions x) below in
      walk_complete r count idx (length r.positions) 0 j [] m (ground arith) few in_turn
        (ap (node_at r) (ap (λ a. (idx + a) % length r.positions) (zero-add j) ∙ e)
          ∙ node_at-eq r k p m at_k owner)
        named

  get_candidates-eq :
      (h : Hashing) (key : String) (count : ℕ) (r : Ring W) (rounds : ℕ)
      → length r.positions ≡ suc rounds
      → get_candidates h key count r
        ≡ walk r count (bisect_left r.positions (murmurhash3 h key)) (suc rounds) 0 []
  unfolding get_candidates
  get_candidates-eq h key count r rounds e =
      ap (λ k. walk r count (bisect_left r.positions (murmurhash3 h key)) k 0 []) e

  none_of :
      (h : Hashing) (key : String) (r : Ring W) (m : String)
      → r.positions ≡ []
      → get_node h key r ≡ some m
      → ⊥
  unfolding get_node
  none_of h key r m empty e = ground arith

  get_node-first :
      (h : Hashing) (key : String) (r : Ring W) (m : String) (y : ℕ) (ys : List ℕ)
      → r.positions ≡ y ∷ ys
      → get_node h key r ≡ some m
      → node_at r ((bisect_left r.positions (murmurhash3 h key) + 0) % length r.positions) ≡ some m
  unfolding get_node
  get_node-first h key r m y ys full e =
      let idx = bisect_left r.positions (murmurhash3 h key) in
      let index : (idx + 0) % length r.positions
          ≡ (if leb (length r.positions) idx then 0 else idx) =
        wrap_index idx (length r.positions) (bisect_left-le _ _) (ground arith) in
      ap (node_at r) index ∙ ground arith

  -- The first candidate is the node that `get_node` answers with, if that has a name.
  pub get_candidates-head :
      (h : Hashing) (key : String) (count : ℕ) (r : Ring W) (m : String)
      → get_node h key r ≡ some m
      → (m == "") ≡ false
      → (rest : List String) × (get_candidates h key count r ≡ m ∷ rest)
  get_candidates-head h key count r m e named =
      let idx = bisect_left r.positions (murmurhash3 h key) in
      elim (List-cases r.positions) [
        | inl empty ↦ absurd (none_of h key r m empty e)
        | inr (y, ys, full) ↦
            let first : node_at r ((idx + 0) % length r.positions) ≡ some m =
              get_node-first h key r m y ys full e in
            let (rest, found) = walk-first r count idx (length ys) m named first in
            (rest, get_candidates-eq h key count r (length ys) (ap length full) ∙ found)
      ]
