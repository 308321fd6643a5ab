-- ===== src/Ring/Positions.antt =====
-- The sorted list `_positions` and the calls of `bisect` on it. On a sorted list `bisect_left` is the
-- index of the first item that is not below the sought one.
use predictive_consistent_ha.Prelude.{
  ℕ, zero, suc, Bool, true, false, not, ◌&&◌, ◌||◌, Option, none, some, List, [], ◌∷◌, ◌≤◌, ◌≡◌,
  refl, arith, ltb, if◌then◌else◌, ◌==◌, elem, get_elem?, nat_eq,
}

unfoldable pub bisect_left : List ℕ → ℕ → ℕ
bisect_left [] a = 0
bisect_left (x ∷ xs) a = if ltb x a then suc (bisect_left xs a) else 0

-- `bisect.insort`, which inserts behind equal items
unfoldable pub insort : ℕ → List ℕ → List ℕ
insort a [] = a ∷ []
insort a (x ∷ xs) = if ltb a x then a ∷ x ∷ xs else x ∷ insort a xs

-- `positions.pop(idx)`
unfoldable pub pop : ℕ → List ℕ → List ℕ
pop i [] = []
pop zero (x ∷ xs) = xs
pop (suc i) (x ∷ xs) = x ∷ pop i xs

-- `idx < len(positions) and positions[idx] == position`
abbrev holds_at : ℕ → Option ℕ → Bool
holds_at position none = false
holds_at position (some q) = q == position

unfoldable pub pop_position : ℕ → List ℕ → List ℕ
unfolding bisect_left pop
pop_position position positions =
    let idx = bisect_left positions position in
    if holds_at position (get_elem? positions idx) then pop idx positions else positions

-- Strictly increasing, from `lo` on.
abbrev pub IsSorted : ℕ → List ℕ → Type 0
IsSorted lo [] = Unit
IsSorted lo (x ∷ xs) = (lo ≤ x) × IsSorted (suc x) xs

pub IsSorted-le : (lo lo' : ℕ) (xs : List ℕ) → lo' ≤ lo → IsSorted lo xs → IsSorted lo' xs
IsSorted-le lo lo' [] h s = tt
IsSorted-le lo lo' (x ∷ xs) h s = (omega arith, s.1)

pub IsSorted-bound : (lo q : ℕ) (xs : List ℕ) → IsSorted lo xs → elem q xs ≡ true → lo ≤ q
IsSorted-bound lo q [] s m = ground arith
IsSorted-bound lo q (x ∷ xs) s m = ground (arith, IsSorted-bound (suc x) q xs s.1)

pub elem-insort : (q a : ℕ) (xs : List ℕ) → elem q (insort a xs) ≡ (a == q || elem q xs)
unfolding insort
elem-insort q a [] = refl
elem-insort q a (x ∷ xs) = ground (arith, elem-insort q a xs)

pub insort-IsSorted :
    (lo a : ℕ) (xs : List ℕ)
    → IsSorted lo xs
    → lo ≤ a
    → elem a xs ≡ false
    → IsSorted lo (insort a xs)
unfolding insort
insort-IsSorted lo a [] s h n = ground arith
insort-IsSorted lo a (x ∷ xs) s h n = ground (arith, insort-IsSorted (suc x) a xs s.1)

pop_position-cons :
    (a x : ℕ) (xs : List ℕ)
    → pop_position a (x ∷ xs)
      ≡ (if ltb x a then x ∷ pop_position a xs else if x == a then xs else x ∷ xs)
unfolding pop_position bisect_left pop
pop_position-cons a x xs = ground arith

pub pop_position-IsSorted :
    (lo a : ℕ) (xs : List ℕ) → IsSorted lo xs → IsSorted lo (pop_position a xs)
pop_position-IsSorted lo a [] s = unfold pop_position in s
pop_position-IsSorted lo a (x ∷ xs) s =
    rw pop_position-cons
      (ground (arith, pop_position-IsSorted (suc x) a xs s.1, IsSorted-le (suc x) lo xs))

pub elem-pop_position :
    (lo q a : ℕ) (xs : List ℕ)
    → IsSorted lo xs
    → elem q (pop_position a xs) ≡ (not (a == q) && elem q xs)
elem-pop_position lo q a [] s = unfold pop_position bisect_left in ground arith
elem-pop_position lo q a (x ∷ xs) s = rw pop_position-cons (
    ground (
      arith,
      elem-pop_position (suc x) q a xs s.1,
      IsSorted-bound (suc x) a xs s.1,
      IsSorted-bound (suc x) q xs s.1,
    ))
