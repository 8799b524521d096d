-- ===== src/Fraser/Hazard/Hold.antt =====
-- src/skiplist-fraser-hp/fraser.c: what the hazard pointers hold when a search comes back.
use qsense.Prelude.{
  ℕ, zero, suc, ◌+◌, ◌<◌, ◌≤◌, ◌≡◌, refl, ◌∙◌, sym, ap, true, false, Option, none, some, List, [],
  ◌∷◌, ◌==◌, leb, arith, Bool-cases, inl, inr, ◌⊎◌, put,
}
use qsense.DoubleLlist.{Ptr}
use qsense.Fraser.{Heap, is_marked, get_unmarked, set_next, nowhere}
use qsense.Fraser.Hazard.{
  World, Others, Walk, met, interrupted, Descent, arrived, retry, Found, find_pair, keep_lists,
  descend, fraser_search,
}

-- The hazard pointers of the search: four of the walk and two arrays of 32 levels.
abbrev pub n_hazards : ℕ
n_hazards = 68

-- The others leave these hazard pointers of the thread alone, and may do what they like with all
-- others; `hp s j` is the thread's hazard pointer `j`.
abbrev pub Keep : {S : Type 0} → (hp : S → ℕ → Ptr) → List (Others S) → Type 0
Keep hp [] = Unit
Keep {S} hp (other ∷ others) =
    ((w : World S) (j : ℕ) → j < n_hazards → hp (other w).1 j ≡ hp w.1 j) × Keep hp others

module _ {S : Type 0} (set_hp : ℕ → Ptr → S → S) (hp : S → ℕ → Ptr)
    (hp_set : (i : ℕ) (p : Ptr) (s : S) (j : ℕ) → hp (set_hp i p s) j ≡ put (hp s) i p j) where
  -- The hazard pointers of the arrays are those of `s`.
  abbrev ListsKept : S → S → Type 0
  ListsKept s1 s = (j : ℕ) → 4 ≤ j → j < n_hazards → hp s1 j ≡ hp s j

  abbrev WalkKept : S → Option (Walk S) → Type 0
  WalkKept s none = Unit
  WalkKept s (some (met left left_next right later w)) = Keep hp later × ListsKept w.1 s
  WalkKept s (some (interrupted later w)) = Keep hp later × ListsKept w.1 s

  set_below : (i : ℕ) (p : Ptr) (s : S) → i < 4 → ListsKept (set_hp i p s) s
  set_below i p s small j le lt = hp_set i p s j ∙ ground (arith, small, le)

  WalkKept-trans : (s1 s : S) (r : Option (Walk S)) → ListsKept s1 s → WalkKept s1 r → WalkKept s r
  WalkKept-trans s1 s none same h = tt
  WalkKept-trans s1 s (some (met left left_next right later w)) same (keep, h) =
      (keep, λ j le lt. h j le lt ∙ same j le lt)
  WalkKept-trans s1 s (some (interrupted later w)) same (keep, h) =
      (keep, λ j le lt. h j le lt ∙ same j le lt)

  find_pair-kept :
      (others : List (Others S)) (m : Heap) (s : S) (i key : ℕ) (left : Ptr) (left_next : ℕ)
      (right : Ptr)
      → Keep hp others
      → WalkKept s (find_pair set_hp others (m, s) i key left left_next right)
  unfolding find_pair
  find_pair-kept [] m s i key left left_next right keep = tt
  find_pair-kept (other ∷ others) m s i key left left_next right (same, keep) =
      let right_next = (m right).next i in
      let right1 = get_unmarked right_next in
      let w : World S = other (m, set_hp 3 right1 s) in
      let first : ListsKept w.1 s =
        λ j le lt. same (m, set_hp 3 right1 s) j lt ∙ set_below 3 right1 s (omega arith) j le lt in
      elim (Bool-cases (right_next == (w.0 right).next i)) [
        | inr moved ↦ rw moved (keep, first)
        | inl stayed ↦ rw stayed (elim (Bool-cases (is_marked right_next)) [
          | inl dead ↦ rw dead (
              WalkKept-trans (set_hp 2 right1 w.1) s
                (find_pair set_hp others (w.0, set_hp 2 right1 w.1) i key left left_next right1)
                (λ j le lt. set_below 2 right1 w.1 (omega arith) j le lt ∙ first j le lt)
                (find_pair-kept others w.0 (set_hp 2 right1 w.1) i key left left_next right1 keep))
          | inr live ↦ rw live (elim (Bool-cases (leb key (w.0 right).key)) [
            | inl stop ↦ rw stop (keep, first)
            | inr on ↦
                let s0 = set_hp 0 (get_unmarked right) w.1 in
                let s1 = set_hp 1 right1 s0 in
                let s2 = set_hp 2 right_next s1 in
                rw on (
                  WalkKept-trans s2 s
                    (find_pair set_hp others (w.0, s2) i key right right_next right_next)
                    (λ j le lt.
                      set_below 2 right_next s1 (omega arith) j le lt
                      ∙ set_below 1 right1 s0 (omega arith) j le lt
                      ∙ set_below 0 (get_unmarked right) w.1 (omega arith) j le lt
                      ∙ first j le lt)
                    (find_pair-kept others w.0 s2 i key right right_next right_next keep))
          ])
        ])
      ]

  -- What the arrays and their hazard pointers are, for the levels below `n`; from `n` on as they were.
  abbrev DescentHolds : (n : ℕ) → S → (lefts rights : ℕ → Ptr) → Option (Descent S) → Type 0
  DescentHolds n s lefts rights none = Unit
  DescentHolds n s lefts rights (some (retry later w)) = Keep hp later
  DescentHolds n s lefts rights (some (arrived ls rs later w)) =
      Keep hp later
      × ((i : ℕ)
          → i < n
          → (hp w.1 (4 + i) ≡ get_unmarked (ls i)) × (hp w.1 (36 + i) ≡ get_unmarked (rs i)))
      × ((i : ℕ)
          → n ≤ i
          → i < 32
          → (ls i ≡ lefts i)
            × (rs i ≡ rights i)
            × (hp w.1 (4 + i) ≡ hp s (4 + i))
            × (hp w.1 (36 + i) ≡ hp s (36 + i)))

  -- The stores to the arrays.
  keep_lists-hp :
      (i : ℕ) (left right : Ptr) (s : S) (j : ℕ)
      → hp (keep_lists set_hp true true i left right s) j
        ≡ put (put (hp s) (4 + i) (get_unmarked left)) (36 + i) (get_unmarked right) j
  unfolding keep_lists
  keep_lists-hp i left right s j =
      hp_set (36 + i) (get_unmarked right) (set_hp (4 + i) (get_unmarked left) s) j
      ∙ rw (hp_set (4 + i) (get_unmarked left) s j) refl

  -- A level that holds its two nodes, above levels that hold theirs.
  DescentHolds-level :
      (i : ℕ) (s s1 : S) (lefts rights : ℕ → Ptr) (left right : Ptr) (r : Option (Descent S))
      → i < 32
      → ListsKept s1 s
      → DescentHolds i
          (keep_lists set_hp true true i left right s1)
          (put lefts i left)
          (put rights i right)
          r
      → DescentHolds (suc i) s lefts rights r
  DescentHolds-level i s s1 lefts rights left right none lt same h = tt
  DescentHolds-level i s s1 lefts rights left right (some (retry later w)) lt same h = h
  DescentHolds-level i s s1 lefts rights left right (some (arrived ls rs later w)) lt same
        (keep, below, above) =
      (
        keep,
        λ j less. elim (Bool-cases (j == i)) [
          | inr other ↦ below j (ground (arith, less, other))
          | inl here ↦
              let e : j ≡ i = ground (arith, here) in
              let itself : (i == i) ≡ true = ground arith in
              let apart : (36 + i == 4 + i) ≡ false = ground arith in
              let top : (36 + i == 36 + i) ≡ true = ground arith in
              let low : (4 + i == 4 + i) ≡ true = ground arith in
              let (l, r, hl, hr) = above i (omega arith) lt in
              rw e (
                hl
                    ∙ keep_lists-hp i left right s1 (4 + i)
                    ∙ rw apart (rw low (sym (ap get_unmarked (l ∙ rw itself refl)))),
                hr
                    ∙ keep_lists-hp i left right s1 (36 + i)
                    ∙ rw top (sym (ap get_unmarked (r ∙ rw itself refl))),
              )
        ],
        λ j more small.
            (let (l, r, hl, hr) = above j (omega (arith, more)) small in
              let other : (i == j) ≡ false = ground (arith, more) in
              let n1 : (36 + i == 4 + j) ≡ false = ground (arith, small) in
              let n2 : (4 + i == 4 + j) ≡ false = ground (arith, more) in
              let n3 : (36 + i == 36 + j) ≡ false = ground (arith, more) in
              let n4 : (4 + i == 36 + j) ≡ false = ground (arith, lt) in
              (
                l ∙ rw other refl,
                r ∙ rw other refl,
                hl
                    ∙ keep_lists-hp i left right s1 (4 + j)
                    ∙ rw n1 (rw n2 (same (4 + j) (omega arith) (omega arith))),
                hr
                    ∙ keep_lists-hp i left right s1 (36 + j)
                    ∙ rw n3 (rw n4 (same (36 + j) (omega arith) (omega arith))),
              )),
      )

  Walk-cases :
      (r : Option (Walk S))
      → (r ≡ none)
        ⊎ ((left : Ptr) × (left_next : ℕ) × (right : Ptr) × (later : List (Others S)) × (w : World
              S)
            × (r ≡ some (met left left_next right later w)))
        ⊎ ((later : List (Others S)) × (w : World S) × (r ≡ some (interrupted later w)))
  Walk-cases none = inl refl
  Walk-cases (some (met left left_next right later w)) =
      inr (inl (left, left_next, right, later, w, refl))
  Walk-cases (some (interrupted later w)) = inr (inr (later, w, refl))

  descend-holds :
      (n : ℕ) (others : List (Others S)) (w : World S) (key : ℕ) (left : Ptr)
      (lefts rights : ℕ → Ptr)
      → n ≤ 32
      → Keep hp others
      → DescentHolds n w.1 lefts rights (descend set_hp true true others n w key left lefts rights)
  unfolding descend
  descend-holds zero others w key left lefts rights le keep =
      (keep, λ i lt. absurd (omega (arith, lt)), λ i more small. (refl, refl, refl, refl))
  descend-holds (suc i) [] w key left lefts rights le keep = tt
  descend-holds (suc i) (other ∷ others) (m, s) key left lefts rights le (same, keep) =
      let left_next = (m left).next i in
      let w : World S = other (m, set_hp 1 (get_unmarked left_next) s) in
      let first : ListsKept w.1 s = λ j le lt.
        same (m, set_hp 1 (get_unmarked left_next) s) j lt
        ∙ set_below 1 (get_unmarked left_next) s (omega arith) j le lt in
      let s1 = set_hp 2 left_next w.1 in
      let kept = find_pair-kept others w.0 s1 i key left left_next left_next keep in
      elim (Bool-cases (left_next == (w.0 left).next i)) [
        | inr moved ↦ rw moved keep
        | inl stayed ↦ rw stayed (elim (Bool-cases (is_marked left_next)) [
          | inl dead ↦ rw dead keep
          | inr live ↦
              rw live
                (elim (Walk-cases
                  (find_pair set_hp others (w.0, s1) i key left left_next left_next)) [
                    | inl e ↦ rw e tt
                    | inr (inr (later, w1, e)) ↦ rw e (let (k, h) = rw e at kept in k)
                    | inr (inl (left1, left_next1, right, later, (m1, s2), e)) ↦
                        let (k, h) = rw e at kept in
                        let near : ListsKept s2 s = λ j le lt.
                          h j le lt
                          ∙ set_below 2 left_next w.1 (omega arith) j le lt
                          ∙ first j le lt in
                        let s3 = keep_lists set_hp true true i left1 right s2 in
                        let below = λ (m2 : Heap).
                          DescentHolds-level i s s2 lefts rights left1 right
                            (descend set_hp true true later i (m2, s3) key left1 (put lefts i left1)
                              (put rights i right))
                            (omega (arith, le)) near
                            (descend-holds i later (m2, s3) key left1 (put lefts i left1)
                              (put rights i right) (omega (arith, le)) k) in
                        rw e (elim (Bool-cases (left_next1 == right)) [
                          | inl linked ↦ rw linked (below m1)
                          | inr apart ↦
                              rw apart (elim (Bool-cases ((m1 left1).next i == left_next1)) [
                                | inl ok ↦ rw ok (below (set_next m1 left1 i right))
                                | inr lost ↦ rw lost k
                              ])
                        ])
                  ])
        ])
      ]

  Descent-cases :
      (r : Option (Descent S))
      → (r ≡ none)
        ⊎ ((ls : ℕ → Ptr) × (rs : ℕ → Ptr) × (later : List (Others S)) × (w : World S) × (r
              ≡ some (arrived ls rs later w)))
        ⊎ ((later : List (Others S)) × (w : World S) × (r ≡ some (retry later w)))
  Descent-cases none = inl refl
  Descent-cases (some (arrived ls rs later w)) = inr (inl (ls, rs, later, w, refl))
  Descent-cases (some (retry later w)) = inr (inr (later, w, refl))

  -- What holds of a search that comes back.
  abbrev FoundHolds : (levelmax : ℕ) → Option (Found S) → Type 0
  FoundHolds levelmax none = Unit
  FoundHolds levelmax (some f) =
      (i : ℕ)
      → i < levelmax
      → (hp f.world.1 (4 + i) ≡ get_unmarked (f.left_list i))
        × (hp f.world.1 (36 + i) ≡ get_unmarked (f.right_list i))

  search-holds :
      (levelmax tries : ℕ) (others : List (Others S)) (w : World S) (head : Ptr) (key : ℕ)
      → levelmax ≤ 32
      → Keep hp others
      → FoundHolds levelmax (fraser_search set_hp levelmax true true tries others w head key)
  unfolding fraser_search
  search-holds levelmax zero others w head key le keep = tt
  search-holds levelmax (suc tries) others (m, s) head key le keep =
      let d =
        descend set_hp true true others levelmax (m, set_hp 0 head s) key head nowhere nowhere in
      let h = descend-holds levelmax others (m, set_hp 0 head s) key head nowhere nowhere le keep in
      elim (Descent-cases d) [
        | inl e ↦ rw (FoundHolds, fraser_search, e) tt
        | inr (inr (later, w1, e)) ↦
            rw (FoundHolds, fraser_search, e)
              (search-holds levelmax tries later w1 head key le (rw e at h))
        | inr (inl (ls, rs, later, w1, e)) ↦
            rw (FoundHolds, fraser_search, e) (let (k, below, above) = rw e at h in below)
      ]

  -- Whatever the others do, as long as they leave the thread's hazard pointers 0 to 67 alone: when a
  -- search for both arrays comes back, and there are at most 32 levels, hazard pointers 4 and 36 upwards hold
  -- the nodes that it has found on each level.
  pub fraser_search-holds :
      (levelmax tries : ℕ) (others : List (Others S)) (w : World S) (head : Ptr) (key : ℕ)
      (f : Found S)
      → levelmax ≤ 32
      → Keep hp others
      → fraser_search set_hp levelmax true true tries others w head key ≡ some f
      → (i : ℕ) → i < levelmax
      → (hp f.world.1 (4 + i) ≡ get_unmarked (f.left_list i))
        × (hp f.world.1 (36 + i) ≡ get_unmarked (f.right_list i))
  fraser_search-holds levelmax tries others w head key f le keep e i lt =
      (rw e at (search-holds levelmax tries others w head key le keep)) i lt
