-- ===== src/Ring/Walk.antt =====
-- The loop of `get_candidates`, a walk over the places of the ring.
use predictive_consistent_ha.Prelude.{
  ℕ, zero, suc, String, true, false, not, ◌&&◌, Option, none, some, List, [], ◌∷◌, ◌++◌, ◌+◌, ◌%◌,
  ◌≤◌, ◌<◌, ◌≡◌, refl, sym, ap, ◌∙◌, ◌⊎◌, inl, inr, arith, leb, length, length-append, elem,
  elem-append, Distinct, nat_eq, string_eq, ==_refl, ==_symm, ◌==◌, max, Bool-cases, subst,
  append-nil, append_assoc,
}
use predictive_consistent_ha.Ring.{Ring, node_at, visit, walk}
use native.Mathlib.Nat.{add-zero}

Distinct-snoc :
    (xs : List String) (a : String) → Distinct xs → elem a xs ≡ false → Distinct (xs ++ a ∷ [])
Distinct-snoc [] a d h = (refl, tt)
Distinct-snoc (x ∷ xs) a d h =
    ground (arith, Distinct-snoc xs a d.1, elem-append x xs (a ∷ []), ==_symm a x)

visit-Distinct :
    (count : ℕ) (cs : List String) (o : Option String) → Distinct cs → Distinct (visit count cs o).0
unfolding visit
visit-Distinct count cs none d = d
visit-Distinct count cs (some m) d = ground (arith, Distinct-snoc cs m d)

-- The walk goes on only while there is room.
visit-length :
    (count : ℕ) (cs : List String) (o : Option String)
    → length cs < max count 1
    → let (cs', stop) = visit count cs o in
      (length cs' ≤ max count 1)
      × (stop ≡ false → length cs' < max count 1)
      × (stop ≡ true → count ≤ length cs')
unfolding visit
visit-length count cs none h = ground arith
visit-length count cs (some m) h = ground (arith, length-append cs (m ∷ []))

visit-elem :
    (count : ℕ) (cs : List String) (o : Option String) (x : String)
    → elem x cs ≡ true
    → elem x (visit count cs o).0 ≡ true
unfolding visit
visit-elem count cs none x h = h
visit-elem count cs (some m) x h = ground (arith, elem-append x cs (m ∷ []))

visit-sees :
    (count : ℕ) (cs : List String) (m : String)
    → (m == "") ≡ false
    → elem m (visit count cs (some m)).0 ≡ true
unfolding visit
visit-sees count cs m h = ground (arith, elem-append m cs (m ∷ []), ==_refl m)

-- A new candidate is the visited name, which is not empty.
visit-new :
    (count : ℕ) (cs : List String) (o : Option String) (x : String)
    → elem x (visit count cs o).0 ≡ true
    → (elem x cs ≡ true) ⊎ ((o ≡ some x) × ((x == "") ≡ false))
unfolding visit
visit-new count cs none x h = inl h
visit-new count cs (some m) x h = ground (arith, elem-append x cs (m ∷ []), string_eq.beq_iff m x)

visit-prefix :
    (count : ℕ) (cs : List String) (o : Option String)
    → (more : List String) × ((visit count cs o).0 ≡ cs ++ more)
unfolding visit
visit-prefix count cs none = ([], sym (append-nil cs))
visit-prefix count cs (some m) = elim (Bool-cases (not (m == "") && not (elem m cs))) [
  | inl new ↦ (m ∷ [], rw new refl)
  | inr old ↦ ([], rw old (sym (append-nil cs)))
]

module _ {W : Type 0} (r : Ring W) (count idx : ℕ) where
  abbrev pub seen_at : ℕ → Option String
  seen_at i = node_at r ((idx + i) % length r.positions)

  pub walk-Distinct :
      (rounds i : ℕ) (cs : List String) → Distinct cs → Distinct (walk r count idx rounds i cs)
  unfolding walk
  walk-Distinct zero i cs d = d
  walk-Distinct (suc rounds) i cs d =
      let d' = visit-Distinct count cs (seen_at i) d in
      ground (arith, d', walk-Distinct rounds (i + 1) (visit count cs (seen_at i)).0 d')

  pub walk-length :
      (rounds i : ℕ) (cs : List String)
      → length cs < max count 1
      → length (walk r count idx rounds i cs) ≤ max count 1
  unfolding walk
  walk-length zero i cs h = omega arith
  walk-length (suc rounds) i cs h =
      let cs' = (visit count cs (seen_at i)).0 in
      ground (arith, visit-length count cs (seen_at i) h, walk-length rounds (i + 1) cs')

  walk-elem :
      (rounds i : ℕ) (cs : List String) (x : String)
      → elem x cs ≡ true
      → elem x (walk r count idx rounds i cs) ≡ true
  unfolding walk
  walk-elem zero i cs x h = h
  walk-elem (suc rounds) i cs x h =
      let kept = visit-elem count cs (seen_at i) x h in
      ground (arith, kept, walk-elem rounds (i + 1) (visit count cs (seen_at i)).0 x kept)

  walk-step :
      (rounds i : ℕ) (cs : List String) (x : String)
      → elem x (walk r count idx (suc rounds) i cs) ≡ true
      → let cs' = (visit count cs (seen_at i)).0 in
        (elem x cs' ≡ true) ⊎ (elem x (walk r count idx rounds (i + 1) cs') ≡ true)
  unfolding walk
  walk-step rounds i cs x h = ground arith

  -- Every new candidate was met on the walk, and has a name that is not empty.
  pub walk-new :
      (rounds i : ℕ) (cs : List String) (x : String)
      → elem x (walk r count idx rounds i cs) ≡ true
      → (elem x cs ≡ true) ⊎ ((j : ℕ) × (node_at r j ≡ some x) × ((x == "") ≡ false))
  walk-new zero i cs x h = inl (unfold walk in h)
  walk-new (suc rounds) i cs x h = elim (walk-step rounds i cs x h) [
    | inl now ↦ elim (visit-new count cs (seen_at i) x now) [
      | inl old ↦ inl old
      | inr (e, named) ↦ inr ((idx + i) % length r.positions, e, named)
    ]
    | inr later ↦ elim (walk-new rounds (i + 1) (visit count cs (seen_at i)).0 x later) [
      | inl now ↦ elim (visit-new count cs (seen_at i) x now) [
        | inl old ↦ inl old
        | inr (e, named) ↦ inr ((idx + i) % length r.positions, e, named)
      ]
      | inr found ↦ inr found
    ]
  ]

  -- If fewer than `count` candidates were found, the walk passed by every place.
  pub walk_complete :
      (rounds i j : ℕ) (cs : List String) (m : String)
      → length cs < max count 1
      → length (walk r count idx rounds i cs) < count
      → j < rounds
      → seen_at (i + j) ≡ some m
      → (m == "") ≡ false
      → elem m (walk r count idx rounds i cs) ≡ true
  unfolding walk
  walk_complete zero i j cs m room few h e named = elim h [ ]
  walk_complete (suc rounds) i zero cs m room few h e named =
      let e' = subst (λ k. seen_at k ≡ some m) (add-zero i) e in
      let met =
        subst (λ o. elem m (visit count cs o).0 ≡ true) (sym e') (visit-sees count cs m named) in
      let cs' = (visit count cs (seen_at i)).0 in
      ground (arith, met, walk-elem rounds (i + 1) cs' m met)
  walk_complete (suc rounds) i (suc j) cs m room few h e named =
      let shift : i + suc j ≡ i + 1 + j = omega arith in
      let e' = subst (λ k. seen_at k ≡ some m) shift e in
      let cs' = (visit count cs (seen_at i)).0 in
      let (_, goes, stops) = visit-length count cs (seen_at i) room in
      elim (Bool-cases (visit count cs (seen_at i)).1) [
        | inl stop ↦ absurd (ground (arith, stops stop))
        | inr on ↦
            let few' : length (walk r count idx rounds (i + 1) cs') < count = ground arith in
            let later =
              walk_complete rounds (i + 1) j cs' m (goes on) few' (omega arith) e' named in
            ground arith
      ]

  walk-prefix :
      (rounds i : ℕ) (cs : List String)
      → (more : List String) × (walk r count idx rounds i cs ≡ cs ++ more)
  unfolding walk
  walk-prefix zero i cs = ([], sym (append-nil cs))
  walk-prefix (suc rounds) i cs =
      let (a, met) = visit-prefix count cs (seen_at i) in
      let cs' = (visit count cs (seen_at i)).0 in
      let (b, rest) = walk-prefix rounds (i + 1) cs' in
      elim (Bool-cases (visit count cs (seen_at i)).1) [
        | inl stop ↦ (a, rw stop met)
        | inr on ↦ (a ++ b, rw on (rest ∙ ap (λ l. l ++ b) met ∙ append_assoc cs a b))
      ]

  pub walk-first :
      (rounds : ℕ) (m : String)
      → (m == "") ≡ false
      → seen_at 0 ≡ some m
      → (rest : List String) × (walk r count idx (suc rounds) 0 [] ≡ m ∷ rest)
  unfolding walk
  walk-first rounds m named e =
      let (rest, later) = walk-prefix rounds (0 + 1) (m ∷ []) in
      elim (Bool-cases (leb count 1)) [
        | inl stop ↦ ([], rw (e, named, stop))
        | inr on ↦ (rest, rw (e, named, on) later)
      ]
