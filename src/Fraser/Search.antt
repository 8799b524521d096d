-- ===== src/Fraser/Search.antt =====
-- src/skiplist-fraser/fraser.c: what `fraser_search` finds, and what it unlinks.
use qsense.Prelude.{
  ℕ, zero, suc, ◌<◌, ◌≤◌, ◌≡◌, refl, ◌∙◌, sym, subst, Bool, false, some, List, [], ◌∷◌, ◌==◌,
  if◌then◌else◌, length, arith, Bool-cases, inl, inr, put,
}
use qsense.DoubleLlist.{Ptr}
use qsense.Fraser.{
  Heap, is_marked, get_unmarked, set_next, find_pair, arrived, descend, nowhere, fraser_search,
}
use qsense.Fraser.Levels.{
  is_tall, IsLevel, Ascends, passes, last_below, first_from, rest_of, passes-cases,
  find_pair-neighbours,
}
use qsense.Fraser.Below.{
  rest_of-IsLevel, last_below-rest_of, first_from-rest_of, rest_of-Ascends, length-rest_of,
}
use qsense.Fraser.Descend.{
  written, unlinked, Agrees, find_pair-Agrees, Agrees-unlink, descend_step, search_step,
}

module _ (m0 : Heap) (dead : Ptr → Bool) (key : ℕ) (t : Ptr) where
  -- The node that a level is left from is not marked there.
  last_below-unmarked :
      (i j : ℕ) (p : Ptr) (ns : List Ptr) (q : ℕ)
      → j ≤ i
      → is_marked ((m0 p).next j) ≡ false
      → IsLevel m0 dead j q ns t
      → is_marked ((m0 (last_below m0 dead key i p ns)).next j) ≡ false
  last_below-unmarked i j p [] q le live h = live
  last_below-unmarked i j p (a ∷ ns) q le live h = elim (Bool-cases (is_tall m0 j a)) [
    | inl tall ↦
        let (here, mark, rest) = rw tall at h in
        elim (Bool-cases (passes m0 dead key i a)) [
          | inl on ↦
              let (high, kept, low) = passes-cases m0 dead key i a on in
              rw on
                (last_below-unmarked i j a ns (get_unmarked ((m0 a).next j)) le (mark ∙ kept) rest)
          | inr off ↦
              rw off (last_below-unmarked i j p ns (get_unmarked ((m0 a).next j)) le live rest)
        ]
    | inr short ↦
        let off : passes m0 dead key i a ≡ false = ground (arith, short, le) in
        rw off (last_below-unmarked i j p ns q le live (rw short at h))
  ]

  module _ (head : Ptr) (ns : List Ptr) where
    -- The neighbours of the key on each level.
    abbrev pub below_key : ℕ → Ptr
    below_key i = last_below m0 dead key i head ns

    abbrev pub from_key : ℕ → Ptr
    from_key i = first_from m0 dead key i ns t

    -- What holds of level `j` at the node `p` that a descent has reached, with the nodes `cur` behind it.
    abbrev IsAt : (j : ℕ) → Ptr → List Ptr → Type 0
    IsAt j p cur =
        IsLevel m0 dead j ((m0 p).next j) cur t
        × (is_marked ((m0 p).next j) ≡ false)
        × (last_below m0 dead key j p cur ≡ below_key j)
        × (first_from m0 dead key j cur t ≡ from_key j)

    IsAt-rest_of :
        (i j : ℕ) (p : Ptr) (cur : List Ptr)
        → j ≤ i
        → Ascends m0 (m0 p).key cur t
        → IsAt j p cur
        → IsAt j (last_below m0 dead key i p cur) (rest_of m0 dead key i cur cur)
    IsAt-rest_of i j p cur le asc (level, live, left, right) = (
      rest_of-IsLevel m0 dead key i t j p cur cur ((m0 p).next j) le level level,
      last_below-unmarked i j p cur ((m0 p).next j) le live level,
      last_below-rest_of m0 dead key i t j p p cur cur le refl ∙ left,
      first_from-rest_of m0 dead key i t j cur cur (m0 p).key asc (inl refl) ∙ right,
    )

    -- The descent finds the neighbours on every level and unlinks what is between them.
    descend-neighbours :
        (fuel n : ℕ) (m : Heap) (p : Ptr) (cur : List Ptr) (lefts rights : ℕ → Ptr)
        → Agrees n m0 m
        → Ascends m0 (m0 p).key cur t
        → ((j : ℕ) → j < n → IsAt j p cur)
        → length cur < fuel
        → key ≤ (m0 t).key
        → ((j : ℕ) → j < n → is_marked ((m0 t).next j) ≡ false)
        → descend fuel n m key p lefts rights
          ≡ some (
              arrived
                (written n below_key lefts)
                (written n from_key rights)
                (unlinked n below_key from_key m))
    unfolding written unlinked descend
    descend-neighbours fuel zero m p cur lefts rights agree asc at lt high end = refl
    descend-neighbours fuel (suc i) m p cur lefts rights agree asc at lt high end =
        let (level, live, left, right) = at i (omega arith) in
        let nexts : (a : Ptr) → (m a).next i ≡ (m0 a).next i =
          λ a. (let (keys, same) = agree a in same i (omega arith)) in
        let found =
          find_pair-Agrees (suc i) m0 m fuel i key p ((m0 p).next i) ((m0 p).next i) agree
            (omega arith)
          ∙ find_pair-neighbours m0 dead key i fuel p ((m0 p).next i) cur t (m0 p).key lt level asc
              high (end i (omega arith)) in
        let found_at : find_pair fuel m i key p ((m p).next i) ((m p).next i)
            ≡ some (below_key i, (m (below_key i)).next i, from_key i) =
          rw (nexts p) (rw (nexts (below_key i)) (rw (sym left) (rw (sym right) found))) in
        descend_step fuel i m key p (below_key i) (from_key i) lefts rights (rw (nexts p) live)
          found_at
        ∙ descend-neighbours fuel i
            (if (m (below_key i)).next i == from_key i
              then m
              else set_next m (below_key i) i (from_key i))
            (below_key i) (rest_of m0 dead key i cur cur) (put lefts i (below_key i))
            (put rights i (from_key i)) (Agrees-unlink i m0 m (below_key i) (from_key i) agree)
            (subst (λ b. Ascends m0 (m0 b).key (rest_of m0 dead key i cur cur) t) left
              (rest_of-Ascends m0 dead key i t p cur cur (m0 p).key asc asc))
            (λ j below.
              subst (λ b. IsAt j b (rest_of m0 dead key i cur cur)) left
                (IsAt-rest_of i j p cur (omega (arith, below)) asc (at j (omega (arith, below)))))
            (length-rest_of m0 dead key i t fuel cur cur lt lt) high
            (λ j below. end j (omega (arith, below)))

    pub descend-arrived :
        (levelmax fuel : ℕ)
        → Ascends m0 (m0 head).key ns t
        → ((j : ℕ) → j < levelmax → IsLevel m0 dead j ((m0 head).next j) ns t)
        → ((j : ℕ) → j < levelmax → is_marked ((m0 head).next j) ≡ false)
        → ((j : ℕ) → j < levelmax → is_marked ((m0 t).next j) ≡ false)
        → length ns < fuel
        → key ≤ (m0 t).key
        → descend fuel levelmax m0 key head nowhere nowhere
          ≡ some (
              arrived
                (written levelmax below_key nowhere)
                (written levelmax from_key nowhere)
                (unlinked levelmax below_key from_key m0))
    descend-arrived levelmax fuel asc levels live end lt high =
        descend-neighbours fuel levelmax m0 head ns nowhere nowhere (λ a. (refl, λ j below. refl))
          asc (λ j below. (levels j below, live j below, refl, refl)) lt high end

    -- On levels whose keys ascend from the head to a last sentinel that is not below the key, with the pointers
    -- of the head and of that sentinel unmarked and those of the dead nodes marked, and with more fuel than
    -- there are nodes: a search ends at its first try with, for each level, the last live node below the key
    -- and the first live one that is not, and has unlinked what is between the two.
    pub fraser_search-neighbours :
        (levelmax tries fuel : ℕ)
        → Ascends m0 (m0 head).key ns t
        → ((j : ℕ) → j < levelmax → IsLevel m0 dead j ((m0 head).next j) ns t)
        → ((j : ℕ) → j < levelmax → is_marked ((m0 head).next j) ≡ false)
        → ((j : ℕ) → j < levelmax → is_marked ((m0 t).next j) ≡ false)
        → length ns < fuel
        → key ≤ (m0 t).key
        → fraser_search levelmax (suc tries) fuel m0 head key
          ≡ some (record {
            left_list = written levelmax below_key nowhere;
            right_list = written levelmax from_key nowhere;
            heap = unlinked levelmax below_key from_key m0;
          })
    fraser_search-neighbours levelmax tries fuel asc levels live end lt high =
        search_step levelmax tries fuel m0 (unlinked levelmax below_key from_key m0) head key
          (written levelmax below_key nowhere) (written levelmax from_key nowhere)
          (descend-arrived levelmax fuel asc levels live end lt high)
