-- ===== src/Ring/Successor.antt =====
-- The clockwise successor of a hash on the sorted positions: `bisect_left` and the wrap-around.
use predictive_consistent_ha.Prelude.{
  ℕ, zero, suc, true, some, List, [], ◌∷◌, ◌≤◌, ◌<◌, ◌≡◌, ◌≢◌, refl, ◌⊎◌, inl, inr, arith, ltb, leb,
  if◌then◌else◌, elem, length, get_elem?, nat_eq, Bool-cases,
}
use predictive_consistent_ha.Ring.Positions.{bisect_left, IsSorted, IsSorted-bound}

-- Clockwise from `x`, the position `p` is met no later than `q`.
abbrev pub Sooner : ℕ → ℕ → ℕ → Type 0
Sooner x p q = ((x ≤ p) × ((q < x) ⊎ (p ≤ q))) ⊎ ((q < x) × (p ≤ q))

-- `p` is the first of the positions that is met clockwise from `x`.
pub record IsSuccessor (positions : List ℕ) (x p : ℕ) : Type 0 where
  pub member : elem p positions ≡ true
  pub nearest : (q : ℕ) → elem q positions ≡ true → Sooner x p q

pub IsSuccessor-unique :
    (positions : List ℕ) (x p q : ℕ) → IsSuccessor positions x p → IsSuccessor positions x q → p ≡ q
IsSuccessor-unique positions x p q s t = ground (arith, s.nearest q t.member, t.nearest p s.member)

bisect_left-below :
    (lo x q : ℕ) (xs : List ℕ)
    → IsSorted lo xs
    → length xs ≤ bisect_left xs x
    → elem q xs ≡ true
    → q < x
unfolding bisect_left
bisect_left-below lo x q [] s h m = ground arith
bisect_left-below lo x q (y ∷ ys) s h m = ground (arith, bisect_left-below (suc y) x q ys s.1)

bisect_left-at :
    (lo x p : ℕ) (xs : List ℕ)
    → IsSorted lo xs
    → get_elem? xs (bisect_left xs x) ≡ some p
    → (elem p xs ≡ true) × (x ≤ p) × ((q : ℕ) → elem q xs ≡ true → (q < x) ⊎ (p ≤ q))
unfolding bisect_left
bisect_left-at lo x p [] s e = cc
bisect_left-at lo x p (y ∷ ys) s e = elim (Bool-cases (ltb y x)) [
  | inl below ↦
      let (m, up, near) = bisect_left-at (suc y) x p ys s.1 (rw below at e) in
      (ground arith, up, λ q h. ground (arith, near q))
  | inr here ↦ (ground arith, ground arith, λ q h. ground (arith, IsSorted-bound (suc y) q ys s.1))
]

get_elem?-lt : (xs : List ℕ) (i : ℕ) → i < length xs → (a : ℕ) × (get_elem? xs i ≡ some a)
get_elem?-lt [] i h = elim h [ ]
get_elem?-lt (x ∷ xs) zero h = (x, refl)
get_elem?-lt (x ∷ xs) (suc i) h = get_elem?-lt xs i (omega arith)

-- The index that `get_node` reads.
abbrev pub successor_index : List ℕ → ℕ → ℕ
successor_index xs x = if leb (length xs) (bisect_left xs x) then 0 else bisect_left xs x

pub successor_index-IsSuccessor :
    (x : ℕ) (xs : List ℕ)
    → IsSorted 0 xs
    → xs ≢ []
    → (p : ℕ) × (get_elem? xs (successor_index xs x) ≡ some p) × IsSuccessor xs x p
successor_index-IsSuccessor x [] s h = absurd (h refl)
successor_index-IsSuccessor x (y ∷ ys) s h =
    elim (Bool-cases (leb (length (y ∷ ys)) (bisect_left (y ∷ ys) x))) [
      | inl past ↦ (
        y,
        rw past,
        record {
          member = ground arith;
          nearest = λ q m.
              ground (arith, bisect_left-below 0 x q (y ∷ ys) s, IsSorted-bound (suc y) q ys s.1);
        },
      )
      | inr inside ↦
          let (p, e) = get_elem?-lt (y ∷ ys) (bisect_left (y ∷ ys) x) (ground arith) in
          let (m, up, near) = bisect_left-at 0 x p (y ∷ ys) s e in
          (p, rw inside e, record { member = m; nearest = λ q k. inl (up, near q k) })
    ]
