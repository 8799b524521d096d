-- ===== src/Fraser/Hazard/Calm.antt =====
-- src/skiplist-fraser-hp/fraser.c: a search with hazard pointers while no other thread acts.
use qsense.Prelude.{
  ℕ, zero, suc, ◌+◌, ◌*◌, ◌≤◌, ◌≡◌, refl, Bool, true, Option, none, some, List, [], ◌∷◌, ◌==◌, leb,
  length, arith, Bool-cases, Option-cases, inl, inr, put,
}
use qsense.DoubleLlist.{Ptr}
use qsense.Fraser
use qsense.Fraser.{Node, Heap, is_marked, get_unmarked, set_next, nowhere}
use qsense.Fraser.Hazard.{
  Others, Walk, met, Descent, arrived, find_pair, keep_lists, descend, fraser_search,
}

abbrev pub resting : {S : Type 0} → Others S
resting w = w

abbrev pub Resting : {S : Type 0} → List (Others S) → Type 0
Resting [] = Unit
Resting (other ∷ others) = (other ≡ resting) × Resting others

module _ {S : Type 0} (set_hp : ℕ → Ptr → S → S) where
  -- The walk with hazard pointers ends where the plain one does, with the heap as it was.
  abbrev SameWalk :
      (fuel : ℕ) → List (Others S) → Heap → Option (Ptr × ℕ × Ptr) → Option (Walk S) → Type 0
  SameWalk fuel others m none r = Unit
  SameWalk fuel others m (some (left, left_next, right)) r =
      (later : List (Others S)) × (s : S) × (r ≡ some (met left left_next right later (m, s)))
      × Resting later
      × (length others ≤ length later + fuel)

  SameWalk-step :
      (fuel : ℕ) (other : Others S) (others : List (Others S)) (m : Heap)
      (o : Option (Ptr × ℕ × Ptr)) (r : Option (Walk S))
      → SameWalk fuel others m o r
      → SameWalk (suc fuel) (other ∷ others) m o r
  SameWalk-step fuel other others m none r h = tt
  SameWalk-step fuel other others m (some (left, left_next, right)) r (later, s, e, rest, le) =
      (later, s, e, rest, omega (arith, le))

  find_pair-Resting :
      (fuel : ℕ) (others : List (Others S)) (m : Heap) (s : S) (i key : ℕ) (left : Ptr)
      (left_next : ℕ) (right : Ptr)
      → Resting others
      → fuel ≤ length others
      → SameWalk fuel others m
          (Fraser.find_pair fuel m i key left left_next right)
          (find_pair set_hp others (m, s) i key left left_next right)
  unfolding Fraser.find_pair find_pair
  find_pair-Resting zero others m s i key left left_next right calm le = tt
  find_pair-Resting (suc fuel) [] m s i key left left_next right calm le =
      absurd (omega (arith, le))
  find_pair-Resting (suc fuel) (other ∷ others) m s i key left left_next right (calm, rest) le =
      let right_next = (m right).next i in
      let right1 = get_unmarked right_next in
      let same : (right_next == right_next) ≡ true = ground arith in
      rw calm (
        rw same (elim (Bool-cases (is_marked right_next)) [
          | inl dead ↦ rw dead (
              SameWalk-step fuel other others m
                (Fraser.find_pair fuel m i key left left_next right1)
                (find_pair set_hp others (m, set_hp 2 right1 (set_hp 3 right1 s)) i key left
                  left_next right1)
                (find_pair-Resting fuel others m (set_hp 2 right1 (set_hp 3 right1 s)) i key left
                  left_next right1 rest (omega (arith, le))))
          | inr live ↦ rw live (elim (Bool-cases (leb key (m right).key)) [
            | inl stop ↦ rw stop (others, set_hp 3 right1 s, refl, rest, omega arith)
            | inr on ↦
                let s2 =
                  set_hp 2 right_next
                    (set_hp 1 right1 (set_hp 0 (get_unmarked right) (set_hp 3 right1 s))) in
                rw on (
                  SameWalk-step fuel other others m
                    (Fraser.find_pair fuel m i key right right_next right_next)
                    (find_pair set_hp others (m, s2) i key right right_next right_next)
                    (find_pair-Resting fuel others m s2 i key right right_next right_next rest
                      (omega (arith, le))))
          ])
        ]))

  -- So does the descent, with enough rounds for each of its levels.
  abbrev SameDescent :
      (rounds : ℕ) → List (Others S) → Option Fraser.Descent → Option (Descent S) → Type 0
  SameDescent rounds others none r = Unit
  SameDescent rounds others (some (Fraser.retry m)) r = Unit
  SameDescent rounds others (some (Fraser.arrived ls rs m)) r =
      (later : List (Others S)) × (s : S) × (r ≡ some (arrived ls rs later (m, s)))
      × Resting later
      × (length others ≤ length later + rounds)

  SameDescent-more :
      (rounds more total : ℕ) (others1 others : List (Others S)) (o : Option Fraser.Descent)
      (r : Option (Descent S))
      → length others ≤ length others1 + more
      → more + rounds ≤ total
      → SameDescent rounds others1 o r
      → SameDescent total others o r
  SameDescent-more rounds more total others1 others none r le sum h = tt
  SameDescent-more rounds more total others1 others (some (Fraser.retry m)) r le sum h = tt
  SameDescent-more rounds more total others1 others (some (Fraser.arrived ls rs m)) r le sum
        (later, s, e, rest, le1) =
      (later, s, e, rest, omega (arith, le, le1, sum))

  descend-Resting :
      (wl wr : Bool) (fuel n : ℕ) (others : List (Others S)) (m : Heap) (s : S) (key : ℕ)
      (left : Ptr) (lefts rights : ℕ → Ptr)
      → Resting others
      → n * (fuel + 1) ≤ length others
      → SameDescent
          (n * (fuel + 1))
          others
          (Fraser.descend fuel n m key left lefts rights)
          (descend set_hp wl wr others n (m, s) key left lefts rights)
  unfolding Fraser.descend descend
  descend-Resting wl wr fuel zero others m s key left lefts rights calm le =
      (others, s, refl, calm, omega arith)
  descend-Resting wl wr fuel (suc i) [] m s key left lefts rights calm le =
      absurd (omega (arith, le))
  descend-Resting wl wr fuel (suc i) (other ∷ others) m s key left lefts rights (calm, rest) le =
      let left_next = (m left).next i in
      let same : (left_next == left_next) ≡ true = ground arith in
      let s1 = set_hp 2 left_next (set_hp 1 (get_unmarked left_next) s) in
      let walk =
        find_pair-Resting fuel others m s1 i key left left_next left_next rest
          (omega (arith, le)) in
      rw calm (
        rw same (elim (Bool-cases (is_marked left_next)) [
          | inl dead ↦ rw dead tt
          | inr live ↦
              rw live
                (elim (Option-cases (Fraser.find_pair fuel m i key left left_next left_next)) [
                  | inl e ↦ rw e tt
                  | inr ((left1, left_next1, right), e) ↦
                      let (later, s2, e1, rest1, le1) = rw e at walk in
                      let s3 = keep_lists set_hp wl wr i left1 right s2 in
                      let below = λ (m2 : Heap).
                        SameDescent-more (i * (fuel + 1)) (fuel + 1) (suc i * (fuel + 1)) later
                          (resting ∷ others)
                          (Fraser.descend fuel i m2 key left1 (put lefts i left1)
                            (put rights i right))
                          (descend set_hp wl wr later i (m2, s3) key left1 (put lefts i left1)
                            (put rights i right))
                          (omega (arith, le1)) (omega arith)
                          (descend-Resting wl wr fuel i later m2 s3 key left1 (put lefts i left1)
                            (put rights i right) rest1 (omega (arith, le, le1))) in
                      rw e (
                        rw e1 (elim (Bool-cases (left_next1 == right)) [
                          | inl linked ↦ rw linked (below m)
                          | inr apart ↦
                              rw apart (elim (Bool-cases ((m left1).next i == left_next1)) [
                                | inl ok ↦ rw ok (below (set_next m left1 i right))
                                | inr lost ↦ rw lost tt
                              ])
                        ]))
                ])
        ]))

  search_step :
      (wl wr : Bool) (levelmax tries : ℕ) (others later : List (Others S)) (m m1 : Heap) (s s1 : S)
      (head : Ptr) (key : ℕ) (ls rs : ℕ → Ptr)
      → descend set_hp wl wr others levelmax (m, set_hp 0 head s) key head nowhere nowhere
        ≡ some (arrived ls rs later (m1, s1))
      → fraser_search set_hp levelmax wl wr (suc tries) others (m, s) head key
        ≡ some (record { left_list = ls; right_list = rs; later = later; world = (m1, s1) })
  unfolding fraser_search
  search_step wl wr levelmax tries others later m m1 s s1 head key ls rs e =
      rw (fraser_search, e) refl

  -- A search with hazard pointers finds what a descent without them arrives at.
  pub fraser_search-arrived :
      (wl wr : Bool) (levelmax tries fuel : ℕ) (others : List (Others S)) (m m1 : Heap) (s : S)
      (head : Ptr) (key : ℕ) (ls rs : ℕ → Ptr)
      → Resting others
      → levelmax * (fuel + 1) ≤ length others
      → Fraser.descend fuel levelmax m key head nowhere nowhere ≡ some (Fraser.arrived ls rs m1)
      → (later : List (Others S)) × (s1 : S) × (fraser_search set_hp levelmax wl wr
            (suc tries)
            others
            (m, s)
            head
            key
          ≡ some (record { left_list = ls; right_list = rs; later = later; world = (m1, s1) }))
  fraser_search-arrived wl wr levelmax tries fuel others m m1 s head key ls rs calm le e =
      let (later, s1, e1, rest, le1) = rw e at (
        descend-Resting wl wr fuel levelmax others m (set_hp 0 head s) key head nowhere nowhere calm
          le) in
      (later, s1, search_step wl wr levelmax tries others later m m1 s s1 head key ls rs e1)
