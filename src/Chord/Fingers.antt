-- ===== src/Chord/Fingers.antt =====
-- What the finger tables hold.
use predictive_consistent_ha.Prelude.{
  ℕ, zero, suc, String, true, false, ◌||◌, none, some, List, [], ◌∷◌, ◌+◌, ◌-◌, ◌^◌, ◌≤◌, ◌<◌, ◌≡◌,
  refl, sym, ap, ◌∙◌, arith, length, elem, Distinct, ◌==◌, nat_eq, string_eq, get_elem?,
  if◌then◌else◌, ltb, leb, Bool-cases, inl, inr, subst, ==_refl, ==_symm, ltb→lt,
}
use predictive_consistent_ha.Prelude.Dict.{Dict, lookup, insert, lookup-insert}
use predictive_consistent_ha.Chord.{
  least_power, ceil_log2, insert_sorted, sorted, enumerate, first_from, find_successor,
}
use native.Mathlib.Nat.{two-pow-succ, add-zero, zero-add}
use native.Mathlib.Decide.{dec_lt}

le-power : (n : ℕ) → n < 2 ^ n
le-power zero = omega arith
le-power (suc n) = omega (arith, le-power n, two-pow-succ n)

least_power-reaches : (fuel n k : ℕ) → n ≤ 2 ^ (k + fuel) → n ≤ 2 ^ least_power fuel n k
unfolding least_power
least_power-reaches zero n k h = subst (λ j. n ≤ 2 ^ j) (add-zero k) h
least_power-reaches (suc fuel) n k h =
    let shift : k + suc fuel ≡ k + 1 + fuel = omega arith in
    ground (arith, least_power-reaches fuel n (k + 1) (subst (λ j. n ≤ 2 ^ j) shift h))

least_power-least : (fuel n k j : ℕ) → k ≤ j → j < least_power fuel n k → 2 ^ j < n
unfolding least_power
least_power-least zero n k j h lt = absurd (omega arith)
least_power-least (suc fuel) n k j h lt = elim (Bool-cases (leb n (2 ^ k))) [
  | inl here ↦ absurd (ground arith)
  | inr more ↦ elim (dec_lt k j) [
    | yes later ↦ least_power-least fuel n (k + 1) j (omega arith) (ground arith)
    | no now ↦ let same : k ≡ j = omega arith in subst (λ a. 2 ^ a < n) same (ground arith)
  ]
]

-- `ceil_log2 n` is the least power of two that reaches `n`.
pub ceil_log2-reaches : (n : ℕ) → n ≤ 2 ^ ceil_log2 n
unfolding ceil_log2
ceil_log2-reaches n =
    least_power-reaches n n 0
      (subst (λ j. n ≤ 2 ^ j) (sym (zero-add n)) (omega (arith, le-power n)))

pub ceil_log2-least : (n j : ℕ) → j < ceil_log2 n → 2 ^ j < n
unfolding ceil_log2
ceil_log2-least n j lt = least_power-least n n 0 j (omega arith) lt

elem-insert_sorted :
    (x a : String) (l : List String) → elem x (insert_sorted a l) ≡ (a == x || elem x l)
unfolding insert_sorted
elem-insert_sorted x a [] = refl
elem-insert_sorted x a (b ∷ bs) = ground (arith, elem-insert_sorted x a bs)

-- Sorting keeps the names.
pub elem-sorted : (x : String) (l : List String) → elem x (sorted l) ≡ elem x l
unfolding sorted
elem-sorted x [] = refl
elem-sorted x (a ∷ l) = ground (arith, elem-insert_sorted x a (sorted l), elem-sorted x l)

insert_sorted-Distinct :
    (a : String) (l : List String) → elem a l ≡ false → Distinct l → Distinct (insert_sorted a l)
unfolding insert_sorted
insert_sorted-Distinct a [] h d = (refl, tt)
insert_sorted-Distinct a (b ∷ bs) h d =
    ground (arith, insert_sorted-Distinct a bs, elem-insert_sorted b a bs, ==_symm a b)

pub sorted-Distinct : (l : List String) → Distinct l → Distinct (sorted l)
unfolding sorted
sorted-Distinct [] d = tt
sorted-Distinct (a ∷ l) d =
    insert_sorted-Distinct a (sorted l) (elem-sorted a l ∙ d.0) (sorted-Distinct l d.1)

length-insert_sorted : (a : String) (l : List String) → length (insert_sorted a l) ≡ suc (length l)
unfolding insert_sorted
length-insert_sorted a [] = refl
length-insert_sorted a (b ∷ bs) = ground (arith, length-insert_sorted a bs)

pub length-sorted : (l : List String) → length (sorted l) ≡ length l
unfolding sorted
length-sorted [] = refl
length-sorted (a ∷ l) = length-insert_sorted a (sorted l) ∙ ap suc (length-sorted l)

-- The names of a list have the ids `i`, `i + 1`, ….
abbrev HasIds : Dict String ℕ → ℕ → List String → Type 0
HasIds ids i [] = Unit
HasIds ids i (n ∷ ns) = (lookup n ids ≡ some i) × HasIds ids (i + 1) ns

lookup-enumerate :
    (x : String) (i : ℕ) (l : List String) (ids : Dict String ℕ)
    → elem x l ≡ false
    → lookup x (enumerate i l ids) ≡ lookup x ids
unfolding enumerate
lookup-enumerate x i [] ids h = refl
lookup-enumerate x i (n ∷ ns) ids h =
    ground (arith, lookup-enumerate x (i + 1) ns (insert n i ids), lookup-insert x n i ids)

enumerate-HasIds :
    (i : ℕ) (l : List String) (ids : Dict String ℕ) → Distinct l → HasIds (enumerate i l ids) i l
unfolding enumerate
enumerate-HasIds i [] ids d = tt
enumerate-HasIds i (n ∷ ns) ids d = (
  lookup-enumerate n (i + 1) ns (insert n i ids) d.0 ∙ rw (lookup-insert, ==_refl),
  enumerate-HasIds (i + 1) ns (insert n i ids) d.1,
)

first_from_lem :
    (ids : Dict String ℕ) (target i : ℕ) (l : List String)
    → HasIds ids i l
    → first_from ids target l ≡ get_elem? l (target - i)
unfolding first_from
first_from_lem ids target i [] h = refl
first_from_lem ids target i (n ∷ ns) h = elim (dec_lt i target) [
  | yes later ↦
      let next : target - i ≡ suc (target - (i + 1)) = omega arith in
      subst (λ k. first_from ids target (n ∷ ns) ≡ get_elem? (n ∷ ns) k) (sym next)
        (ground (arith, h.0, first_from_lem ids target (i + 1) ns h.1))
  | no here ↦
      let start : target - i ≡ 0 = omega arith in
      subst (λ k. first_from ids target (n ∷ ns) ≡ get_elem? (n ∷ ns) k) (sym start)
        (ground (arith, h.0))
]

get_elem?-past : (l : List String) (i : ℕ) → length l ≤ i → get_elem? l i ≡ none
get_elem?-past [] i h = refl
get_elem?-past (x ∷ xs) zero h = elim h [ ]
get_elem?-past (x ∷ xs) (suc i) h = get_elem?-past xs i (omega arith)

get_elem?-lt : (l : List String) (i : ℕ) → i < length l → (a : String) × (get_elem? l i ≡ some a)
get_elem?-lt [] i h = elim h [ ]
get_elem?-lt (x ∷ xs) zero h = (x, refl)
get_elem?-lt (x ∷ xs) (suc i) h = get_elem?-lt xs i (omega arith)

get_elem?-elem : (l : List String) (i : ℕ) (a : String) → get_elem? l i ≡ some a → elem a l ≡ true
get_elem?-elem [] i a e = cc
get_elem?-elem (x ∷ xs) zero a e = ground (arith, string_eq.beq_iff x a)
get_elem?-elem (x ∷ xs) (suc i) a e = ground (arith, get_elem?-elem xs i a)

or_first-some :
    (ids : Dict String ℕ) (target : ℕ) (l : List String) (a : String)
    → first_from ids target l ≡ some a
    → find_successor ids target l ≡ some a
unfolding find_successor
or_first-some ids target l a e = rw e

or_first-none :
    (ids : Dict String ℕ) (target : ℕ) (n : String) (ns : List String)
    → first_from ids target (n ∷ ns) ≡ none
    → find_successor ids target (n ∷ ns) ≡ some n
unfolding find_successor
or_first-none ids target n ns e = ground arith

-- With the ids of `build_finger_tables` the successor of a target is the name at that index, or the
-- first name if the target is past the last.
pub find_successor_lem :
    (target : ℕ) (l : List String)
    → Distinct l
    → find_successor (enumerate 0 l []) target l
      ≡ get_elem? l (if ltb target (length l) then target else 0)
find_successor_lem target [] d = unfold find_successor in refl
find_successor_lem target (n ∷ ns) d =
    let l = n ∷ ns in
    let whole : target - 0 ≡ target = omega arith in
    let found =
      first_from_lem (enumerate 0 l []) target 0 l (enumerate-HasIds 0 l [] d)
      ∙ ap (get_elem? l) whole in
    elim (Bool-cases (ltb target (length l))) [
      | inl inside ↦
          let (a, e) = get_elem?-lt l target (ltb→lt target (length l) inside) in
          or_first-some (enumerate 0 l []) target l a (found ∙ e) ∙ rw inside (sym e)
      | inr past ↦
          or_first-none (enumerate 0 l []) target n ns
            (found ∙ get_elem?-past l target (ground arith))
          ∙ rw past refl
    ]

pub find_successor-elem :
    (target : ℕ) (l : List String) (a : String)
    → Distinct l
    → find_successor (enumerate 0 l []) target l ≡ some a
    → elem a l ≡ true
find_successor-elem target l a d e = get_elem?-elem l _ a (sym (find_successor_lem target l d) ∙ e)
