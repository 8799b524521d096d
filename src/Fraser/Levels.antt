-- ===== src/Fraser/Levels.antt =====
-- src/skiplist-fraser: the levels of a skip list, and what a descent by keys finds on them.
use qsense.Prelude.{
  ℕ, zero, suc, ◌<◌, ◌≤◌, ◌≡◌, refl, ◌∙◌, sym, Bool, true, false, not, ◌&&◌, some, List, [], ◌∷◌,
  ltb, leb, if◌then◌else◌, length, arith, and_false, Bool-cases, inl, inr,
}
use qsense.DoubleLlist.{Ptr}
use qsense.Fraser.{Heap, is_marked, get_unmarked, find_pair}

-- Whether a node stands on level `i`.
abbrev pub is_tall : Heap → (i : ℕ) → Ptr → Bool
is_tall m i a = ltb i (m a).toplevel

-- Level `i` of the nodes `ns`: from the pointer `q`, through those that stand on it, to the last sentinel
-- `t`. The pointers of the dead nodes are marked.
abbrev pub IsLevel : Heap → (dead : Ptr → Bool) → (i q : ℕ) → List Ptr → (t : Ptr) → Type 0
IsLevel m dead i q [] t = q ≡ t
IsLevel m dead i q (a ∷ ns) t =
    if is_tall m i a
    then ((q ≡ a)
        × (is_marked ((m a).next i) ≡ dead a)
        × IsLevel m dead i (get_unmarked ((m a).next i)) ns t)
    else IsLevel m dead i q ns t

-- The keys ascend from `k` to that of `t`.
abbrev pub Ascends : Heap → (k : ℕ) → List Ptr → (t : Ptr) → Type 0
Ascends m k [] t = k < (m t).key
Ascends m k (a ∷ ns) t = (k < (m a).key) × Ascends m (m a).key ns t

-- A node that a descent at level `i` goes on from.
abbrev pub passes : Heap → (dead : Ptr → Bool) → (key i : ℕ) → Ptr → Bool
passes m dead key i a = is_tall m i a && (not (dead a) && ltb (m a).key key)

-- A node that a descent at level `i` stops at.
abbrev pub stops : Heap → (dead : Ptr → Bool) → (key i : ℕ) → Ptr → Bool
stops m dead key i a = is_tall m i a && (not (dead a) && leb key (m a).key)

-- The last live node of level `i` with a key below `key`, or `p`.
abbrev pub last_below : Heap → (Ptr → Bool) → (key i : ℕ) → Ptr → List Ptr → Ptr
last_below m dead key i p [] = p
last_below m dead key i p (a ∷ ns) =
    last_below m dead key i (if passes m dead key i a then a else p) ns

-- The first live node of level `i` with a key that is not below `key`, or `t`.
abbrev pub first_from : Heap → (Ptr → Bool) → (key i : ℕ) → List Ptr → (t : Ptr) → Ptr
first_from m dead key i [] t = t
first_from m dead key i (a ∷ ns) t =
    if stops m dead key i a then a else first_from m dead key i ns t

-- The nodes behind the last one that a descent goes on from, or `cur`.
abbrev pub rest_of : Heap → (Ptr → Bool) → (key i : ℕ) → (cur ns : List Ptr) → List Ptr
rest_of m dead key i cur [] = cur
rest_of m dead key i cur (a ∷ ns) =
    rest_of m dead key i (if passes m dead key i a then ns else cur) ns

clash : true ≡ false → ⊥
clash e = ground (arith, e)

module _ (m : Heap) (dead : Ptr → Bool) (key i : ℕ) where
  pub passes-high : (a : Ptr) → key ≤ (m a).key → passes m dead key i a ≡ false
  passes-high a le =
      let low : ltb (m a).key key ≡ false = ground (arith, le) in
      rw low (rw (and_false (not (dead a))) (and_false (is_tall m i a)))

  pub passes_lem :
      (a : Ptr)
      → is_tall m i a ≡ true
      → dead a ≡ false
      → (m a).key < key
      → passes m dead key i a ≡ true
  passes_lem a tall kept lt =
      let less : ltb (m a).key key ≡ true = ground (arith, lt) in rw tall (rw kept (rw less refl))

  pub stops-low : (a : Ptr) → (m a).key < key → stops m dead key i a ≡ false
  stops-low a lt =
      let low : leb key (m a).key ≡ false = ground (arith, lt) in
      rw low (rw (and_false (not (dead a))) (and_false (is_tall m i a)))

  pub stops_lem :
      (a : Ptr)
      → is_tall m i a ≡ true
      → dead a ≡ false
      → key ≤ (m a).key
      → stops m dead key i a ≡ true
  stops_lem a tall kept le =
      let more : leb key (m a).key ≡ true = ground (arith, le) in rw tall (rw kept (rw more refl))

  -- What a node that passes is.
  pub passes-cases :
      (a : Ptr)
      → passes m dead key i a ≡ true
      → (is_tall m i a ≡ true) × (dead a ≡ false) × ((m a).key < key)
  passes-cases a e = elim (Bool-cases (is_tall m i a)) [
    | inr short ↦ absurd (clash (sym (rw short at e)))
    | inl tall ↦ elim (Bool-cases (dead a)) [
      | inl gone ↦ absurd (clash (sym (rw gone at (rw tall at e))))
      | inr kept ↦ (tall, kept, ground (arith, rw kept at (rw tall at e)))
    ]
  ]

  -- Behind a key that is not below `key` nothing passes.
  pub last_below-high :
      (p : Ptr) (ns : List Ptr) (t : Ptr) (k : ℕ)
      → key ≤ k
      → Ascends m k ns t
      → last_below m dead key i p ns ≡ p
  last_below-high p [] t k le h = refl
  last_below-high p (a ∷ ns) t k le (lt, h) =
      rw (passes-high a (omega (arith, le, lt)))
        (last_below-high p ns t (m a).key (omega (arith, le, lt)) h)

  pub unmarked : (x : ℕ) → is_marked x ≡ false → get_unmarked x ≡ x
  unmarked x e = ground (arith, e)

  -- One round of the inner loops.
  pair_skip :
      (fuel : ℕ) (p : Ptr) (ln : ℕ) (a : Ptr)
      → is_marked ((m a).next i) ≡ true
      → find_pair (suc fuel) m i key p ln a
        ≡ find_pair fuel m i key p ln (get_unmarked ((m a).next i))
  unfolding find_pair
  pair_skip fuel p ln a e = rw e refl

  pair_stop :
      (fuel : ℕ) (p : Ptr) (ln : ℕ) (a : Ptr)
      → is_marked ((m a).next i) ≡ false
      → key ≤ (m a).key
      → find_pair (suc fuel) m i key p ln a ≡ some (p, ln, a)
  unfolding find_pair
  pair_stop fuel p ln a e le =
      let stop : leb key (m a).key ≡ true = ground (arith, le) in rw e (rw stop refl)

  pair_onward :
      (fuel : ℕ) (p : Ptr) (ln : ℕ) (a : Ptr)
      → is_marked ((m a).next i) ≡ false
      → (m a).key < key
      → find_pair (suc fuel) m i key p ln a
        ≡ find_pair fuel m i key a ((m a).next i) (get_unmarked ((m a).next i))
  unfolding find_pair
  pair_onward fuel p ln a e lt =
      let go : leb key (m a).key ≡ false = ground (arith, lt) in
      rw e (rw go (rw (unmarked ((m a).next i) e) refl))

  -- The inner loops of a search find the neighbours of the key on the level, with enough fuel.
  pub find_pair-neighbours :
      (fuel : ℕ) (p q : Ptr) (ns : List Ptr) (t : Ptr) (k : ℕ)
      → length ns < fuel
      → IsLevel m dead i q ns t
      → Ascends m k ns t
      → key ≤ (m t).key
      → is_marked ((m t).next i) ≡ false
      → (let left = last_below m dead key i p ns in
          find_pair fuel m i key p ((m p).next i) q
          ≡ some (left, (m left).next i, first_from m dead key i ns t))
  find_pair-neighbours zero p q ns t k lt h asc high live = absurd (omega (arith, lt))
  find_pair-neighbours (suc fuel) p q [] t k lt h asc high live =
      rw h (pair_stop fuel p ((m p).next i) t live high)
  find_pair-neighbours (suc fuel) p q (a ∷ ns) t k lt h (low, asc) high live =
      elim (Bool-cases (is_tall m i a)) [
        | inr short ↦
            let rest = rw short at h in
            rw short (
              find_pair-neighbours (suc fuel) p q ns t (m a).key (omega (arith, lt)) rest asc high
                live)
        | inl tall ↦
            let (here, mark, rest) = rw tall at h in
            elim (Bool-cases (dead a)) [
              | inl gone ↦
                  let marked : is_marked ((m a).next i) ≡ true = mark ∙ gone in
                  rw here (
                    rw (pair_skip fuel p ((m p).next i) a marked) (
                      rw tall (
                        rw gone (
                          find_pair-neighbours fuel p (get_unmarked ((m a).next i)) ns t (m a).key
                            (omega (arith, lt)) rest asc high live))))
              | inr kept ↦
                  let live_a : is_marked ((m a).next i) ≡ false = mark ∙ kept in
                  elim (Bool-cases (ltb (m a).key key)) [
                    | inl less ↦
                        let low_a : (m a).key < key = ground (arith, less) in
                        rw here (
                          rw (pair_onward fuel p ((m p).next i) a live_a low_a) (
                            rw (passes_lem a tall kept low_a) (
                              rw (stops-low a low_a) (
                                find_pair-neighbours fuel a (get_unmarked ((m a).next i)) ns t
                                  (m a).key (omega (arith, lt)) rest asc high live))))
                    | inr more ↦
                        let high_a : key ≤ (m a).key = ground (arith, more) in
                        rw here (
                          rw (pair_stop fuel p ((m p).next i) a live_a high_a) (
                            rw (passes-high a high_a) (
                              rw (stops_lem a tall kept high_a)
                                (rw (last_below-high p ns t (m a).key high_a asc) refl))))
                  ]
            ]
      ]
