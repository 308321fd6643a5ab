-- ===== src/Chord/Tables.antt =====
-- `build_finger_tables`: the tables that `route` walks.
use predictive_consistent_ha.Prelude.{
  ℕ, zero, suc, String, true, false, Option, none, some, List, [], ◌∷◌, ◌++◌, ◌+◌, ◌%◌, ◌^◌, ◌≤◌,
  ◌<◌, ◌≡◌, ◌⊎◌, refl, sym, ap, ◌∙◌, arith, length, length-append, elem, Distinct, All, All-append,
  All-map, ◌==◌, nat_eq, string_eq, get_or_else, if◌then◌else◌, subst, ==_lem, ==_symm,
}
use predictive_consistent_ha.Prelude.Dict.{Dict, lookup, insert, lookup-insert}
use predictive_consistent_ha.Prelude.Float.{Float}
use predictive_consistent_ha.Chord.{
  Router, sorted, enumerate, find_successor, finger, fingers_of, build_tables, build_finger_tables,
  get_finger_table, route, least_connections_fallback, fallback_least_loaded, score_in,
}
use predictive_consistent_ha.Chord.Fingers.{elem-sorted, sorted-Distinct, find_successor-elem}
use predictive_consistent_ha.Chord.Routing.{finger_nodes, route-falls_back}

abbrev Points : String → List String → String → Type 0
Points name names a = (elem a names ≡ true) × ((a == name) ≡ false)

finger_nodes-append :
    (xs ys : List (ℕ × String)) → finger_nodes (xs ++ ys) ≡ finger_nodes xs ++ finger_nodes ys
finger_nodes-append [] ys = refl
finger_nodes-append ((t, n) ∷ xs) ys = ap (◌∷◌ n) (finger_nodes-append xs ys)

length-finger : (name : String) (t : ℕ) (o : Option String) → length (finger name t o) ≤ 1
unfolding finger
length-finger name t none = omega arith
length-finger name t (some s) = ground arith

finger-Points :
    (name : String) (names : List String) (t : ℕ) (o : Option String)
    → ((a : String) → o ≡ some a → elem a names ≡ true)
    → All (Points name names) (finger_nodes (finger name t o))
unfolding finger
finger-Points name names t none h = tt
finger-Points name names t (some s) h = ground (arith, h s refl)

length-fingers_of :
    (ids : Dict String ℕ) (names : List String) (size : ℕ) (name : String) (rounds k : ℕ)
    → length (fingers_of ids names size name rounds k) ≤ rounds
unfolding fingers_of
length-fingers_of ids names size name zero k = omega arith
length-fingers_of ids names size name (suc rounds) k = omega (
  arith,
  length-append (finger name _ (find_successor ids _ names))
      (fingers_of ids names size name rounds (k + 1)),
  length-finger name _ (find_successor ids _ names),
  length-fingers_of ids names size name rounds (k + 1),
)

fingers_of-Points :
    (names : List String) (size : ℕ) (name : String) (rounds k : ℕ)
    → Distinct names
    → All
        (Points name names)
        (finger_nodes (fingers_of (enumerate 0 names []) names size name rounds k))
unfolding fingers_of
fingers_of-Points names size name zero k d = tt
fingers_of-Points names size name (suc rounds) k d =
    let ids = enumerate 0 names [] in
    let target = (get_or_else (lookup name ids) 0 + 2 ^ k) % size in
    let successor = find_successor ids target names in
    rw finger_nodes-append (
      All-append (Points name names) (finger_nodes (finger name target successor)) _
        (finger-Points name names target successor (λ a e. find_successor-elem target names a d e))
        (fingers_of-Points names size name rounds (k + 1) d))

lookup-build_tables :
    (x : String) (ids : Dict String ℕ) (names : List String) (size m : ℕ) (l : List String)
    (tables : Dict String (List (ℕ × String)))
    → lookup x (build_tables ids names size m l tables)
      ≡ (if elem x l then some (fingers_of ids names size x m 0) else lookup x tables)
unfolding build_tables
lookup-build_tables x ids names size m [] tables = refl
lookup-build_tables x ids names size m (n ∷ l) tables = ground (
  arith,
  lookup-build_tables x ids names size m l (insert n (fingers_of ids names size n m 0) tables),
  lookup-insert x n (fingers_of ids names size n m 0) tables,
  congr n x,
)
  where
    congr :
        (a b : String)
        → (a == b) ≡ true
        → fingers_of ids names size a m 0 ≡ fingers_of ids names size b m 0
    congr a b h = ap (λ c. fingers_of ids names size c m 0) (==_lem a b h)

module _ {W : Type 0} where
  built :
      (c : String) (cs : List String) (r : Router W)
      → let r' = build_finger_tables (c ∷ cs) r in
        let names = sorted (c ∷ cs) in
        (r'.finger_tables ≡ build_tables (enumerate 0 names []) names (2 ^ r'.m) r'.m names [])
        × (r'.m < r'.max_hops)
  unfolding build_finger_tables
  built c cs r = ground arith

  table_of :
      (c : String) (cs : List String) (r : Router W) (x : String)
      → elem x (c ∷ cs) ≡ true
      → let r' = build_finger_tables (c ∷ cs) r in
        let names = sorted (c ∷ cs) in
        lookup x r'.finger_tables
        ≡ some (fingers_of (enumerate 0 names []) names (2 ^ r'.m) x r'.m 0)
  table_of c cs r x here =
      let r' = build_finger_tables (c ∷ cs) r in
      let names = sorted (c ∷ cs) in
      ap (lookup x) (built c cs r).0
      ∙ lookup-build_tables x (enumerate 0 names []) names (2 ^ r'.m) r'.m names []
      ∙ ap
          (λ b.
            if b then some (fingers_of (enumerate 0 names []) names (2 ^ r'.m) x r'.m 0) else none)
          (elem-sorted x (c ∷ cs) ∙ here)

  -- After `build_finger_tables` on a list of different names, each of them has a table with at most
  -- `m` fingers, fewer than the hop limit, and every finger is another node of the list.
  pub build_finger_tables-bounds :
      (c : String) (cs : List String) (r : Router W) (x : String)
      → Distinct (c ∷ cs)
      → elem x (c ∷ cs) ≡ true
      → let r' = build_finger_tables (c ∷ cs) r in
        let fingers = get_finger_table x r' in
        (length fingers ≤ r'.m)
        × (length fingers < r'.max_hops)
        × All (λ a. (elem a (c ∷ cs) ≡ true) × ((a == x) ≡ false)) (finger_nodes fingers)
  unfolding get_finger_table
  build_finger_tables-bounds c cs r x d here =
      let r' = build_finger_tables (c ∷ cs) r in
      let names = sorted (c ∷ cs) in
      let ids = enumerate 0 names [] in
      let short = length-fingers_of ids names (2 ^ r'.m) x r'.m 0 in
      subst
        (λ o.
          let fingers = get_or_else o [] in
          (length fingers ≤ r'.m)
          × (length fingers < r'.max_hops)
          × All (λ a. (elem a (c ∷ cs) ≡ true) × ((a == x) ≡ false)) (finger_nodes fingers))
        (sym (table_of c cs r x here))
        (
          short,
          omega (arith, short, (built c cs r).1),
          All-map _ _ _ (λ a h. (sym (elem-sorted a (c ∷ cs)) ∙ h.0, h.1))
              (fingers_of-Points names (2 ^ r'.m) x r'.m 0 (sorted-Distinct (c ∷ cs) d)),
        )

module _ {W : Type 0} ⦃f : Float W⦄ where
  -- After `build_finger_tables`, a request of a node of the list goes to the least loaded node only
  -- when every finger of that node has a score at or above the threshold: the hop limit that the
  -- build sets cuts no walk short.
  pub build_finger_tables-route :
      (c : String) (cs : List String) (r : Router W) (x : String) (t : Option String) (hops : ℕ)
      (scores : Dict String W)
      → Distinct (c ∷ cs)
      → elem x (c ∷ cs) ≡ true
      → route x scores (build_finger_tables (c ∷ cs) r) ≡ (t, hops, least_connections_fallback)
      → (t ≡ fallback_least_loaded scores)
        × All
            (λ n.
              f.lt (score_in scores n) (build_finger_tables (c ∷ cs) r).overflow_threshold ≡ false)
            (finger_nodes (get_finger_table x (build_finger_tables (c ∷ cs) r)))
  unfolding get_finger_table
  build_finger_tables-route c cs r x t hops scores d here e =
      let r' = build_finger_tables (c ∷ cs) r in
      let fingers =
        fingers_of (enumerate 0 (sorted (c ∷ cs)) []) (sorted (c ∷ cs)) (2 ^ r'.m) x r'.m 0 in
      let known = table_of c cs r x here in
      let room =
        subst (λ o. length (get_or_else o []) < r'.max_hops) known
          (build_finger_tables-bounds c cs r x d here).1 in
      let others =
        subst
          (λ o.
            All (λ a. (elem a (c ∷ cs) ≡ true) × ((a == x) ≡ false))
              (finger_nodes (get_or_else o [])))
          known (build_finger_tables-bounds c cs r x d here).2 in
      let (least, refused) = route-falls_back x t hops scores r' fingers known room e in
      (
        least,
        subst
            (λ o.
              All (λ n. f.lt (score_in scores n) r'.overflow_threshold ≡ false)
                (finger_nodes (get_or_else o [])))
            (sym known) (Others (finger_nodes fingers) others refused),
      )
    where
      Others :
          (l : List String)
          → All (λ a. (elem a (c ∷ cs) ≡ true) × ((a == x) ≡ false)) l
          → All
              (λ n.
                ((x == n) ≡ true)
                ⊎ (f.lt (score_in scores n) (build_finger_tables (c ∷ cs) r).overflow_threshold
                    ≡ false))
              l
          → All
              (λ n.
                f.lt (score_in scores n) (build_finger_tables (c ∷ cs) r).overflow_threshold
                ≡ false)
              l
      Others [] p q = tt
      Others (n ∷ ns) p q = (ground (arith, p.0, q.0, ==_symm x n), Others ns p.1 q.1)
