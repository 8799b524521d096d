-- ===== src/Fraser/Cut.antt =====
-- src/skiplist-fraser/fraser.c: the skip list behind `fraser_remove`, with the node out of every level.
use qsense.Prelude.{
  ℕ, ◌<◌, ◌≡◌, refl, ◌∙◌, sym, Bool, true, false, ◌&&◌, List, ◌==◌, ltb, if◌then◌else◌, arith,
  Bool-cases, inl, inr,
}
use qsense.DoubleLlist.{Ptr}
use qsense.Fraser.{Heap, is_marked, get_marked}
use qsense.Fraser.Levels.{IsLevel, Ascends}
use qsense.Fraser.Search.{below_key, from_key}
use qsense.Fraser.Descend.{unlinked}
use qsense.Fraser.Quiet.{alive, value_of, IsSkipList, IsLevel-unmarked}
use qsense.Fraser.Marks.{marked, marked-SameFields, marked-next, IsLevel-marked}
use qsense.Fraser.Unlink.{IsLevel-unlinked}
use qsense.Fraser.Unlinked.{without, unlinked-SameFields, unlinked-next}
use qsense.Fraser.Keys.{
  IsLevel-same, Ascends-same, without-same, AreDead-same, value_of-same, last_below-low,
  first_from-unmarked, IsBound,
}
use qsense.Fraser.Remove.{flagged}
use qsense.Fraser.Shapes.{
  SameShape, flagged-SameShape, flagged-next, Ascends-without, value_of-without, AreNodes-without,
}

module _ (levelmax : ℕ) (m : Heap) (head : Ptr) (ns : List Ptr) (t : Ptr) (key : ℕ) (n : Ptr)
    (s : IsSkipList levelmax m head ns t) (b : IsBound levelmax m key ns t n)
    (low : (m head).key < key) (high : key < (m t).key) where
  -- The heap with the flag of the node set and its pointers marked.
  abbrev pub doomed : Heap
  doomed = marked (m n).toplevel (flagged m n) n

  abbrev pub is_doomed : Ptr → Bool
  is_doomed x = n == x

  -- The heap when a search has unlinked the node.
  abbrev pub cut : Heap
  cut =
      unlinked levelmax (below_key doomed is_doomed key t head ns)
        (from_key doomed is_doomed key t head ns) doomed

  pub doomed-SameShape : (x : Ptr) → SameShape (doomed x) (m x)
  doomed-SameShape x =
      let (k, v, d, h) = marked-SameFields (m n).toplevel (flagged m n) n x in
      let (k1, v1, h1) = flagged-SameShape m n x in (k ∙ k1, v ∙ v1, h ∙ h1)

  keys : (x : Ptr) → (doomed x).key ≡ (m x).key
  keys x = let (k, v, h) = doomed-SameShape x in k

  doomed-next :
      (x : Ptr) (j : ℕ)
      → (doomed x).next j
        ≡ (if (n == x) && ltb j (m n).toplevel then get_marked ((m x).next j) else (m x).next j)
  doomed-next x j = marked-next (m n).toplevel (flagged m n) n x j ∙ rw (flagged-next m n x j) refl

  -- A sentinel keeps its pointers.
  doomed-other : (x : Ptr) (j : ℕ) → (n == x) ≡ false → (doomed x).next j ≡ (m x).next j
  doomed-other x j other = doomed-next x j ∙ rw other refl

  other_head : (n == head) ≡ false
  other_head = elim (Bool-cases (n == head)) [
    | inr e ↦ e
    | inl e ↦
        let same : n ≡ head = ground (arith, e) in absurd (omega (arith, rw same at b.the_key, low))
  ]

  other_end : (n == t) ≡ false
  other_end = elim (Bool-cases (n == t)) [
    | inr e ↦ e
    | inl e ↦
        let same : n ≡ t = ground (arith, e) in absurd (omega (arith, rw same at b.the_key, high))
  ]

  pub doomed-IsLevel :
      (j : ℕ) → j < levelmax → IsLevel doomed is_doomed j ((doomed head).next j) ns t
  doomed-IsLevel j lt =
      let tops : (x : Ptr) → (flagged m n x).toplevel ≡ (m x).toplevel =
        λ x. (let (k, v, h) = flagged-SameShape m n x in h) in
      rw (doomed-other head j other_head) (
        IsLevel-marked (flagged m n) doomed n (m n).toplevel j ((m head).next j) ns t
          (marked-SameFields (m n).toplevel (flagged m n) n)
          (λ x. marked-next (m n).toplevel (flagged m n) n x j) (tops n)
          (IsLevel-same m (flagged m n) alive j ((m head).next j) ns t tops
            (λ x. flagged-next m n x j) (s.levels j lt)))

  pub doomed-Ascends : Ascends doomed (doomed head).key ns t
  doomed-Ascends = rw (keys head) (Ascends-same m doomed keys (m head).key ns t s.ascends)

  pub doomed-end : (j : ℕ) → j < levelmax → is_marked ((doomed t).next j) ≡ false
  doomed-end j lt = rw (doomed-other t j other_end) (s.ends j lt)

  pub doomed-head : (j : ℕ) → j < levelmax → is_marked ((doomed head).next j) ≡ false
  doomed-head j lt =
      rw (doomed-other head j other_head)
        (IsLevel-unmarked levelmax m alive j ((m head).next j) ns t s.nodes s.end (s.levels j lt))

  cut-SameShape : (x : Ptr) → SameShape (cut x) (m x)
  cut-SameShape x =
      let (k, v, d, h) =
        unlinked-SameFields levelmax (below_key doomed is_doomed key t head ns)
          (from_key doomed is_doomed key t head ns) doomed x in
      let (k1, v1, h1) = doomed-SameShape x in (k ∙ k1, v ∙ v1, h ∙ h1)

  pub cut-keys : (x : Ptr) → (cut x).key ≡ (m x).key
  cut-keys x = let (k, v, h) = cut-SameShape x in k

  cut-next :
      (j : ℕ)
      → j < levelmax
      → (x : Ptr)
      → (cut x).next j ≡ (
          if below_key doomed is_doomed key t head ns j == x
          then from_key doomed is_doomed key t head ns j
          else (doomed x).next j)
  cut-next j lt x =
      let below : ltb j levelmax ≡ true = ground (arith, lt) in
      unlinked-next levelmax (below_key doomed is_doomed key t head ns)
        (from_key doomed is_doomed key t head ns) doomed x j
      ∙ rw below refl

  cut-flags : (x : Ptr) → (n == x) ≡ false → (cut x).deleted ≡ (m x).deleted
  cut-flags x other =
      let (k, v, d, h) =
        unlinked-SameFields levelmax (below_key doomed is_doomed key t head ns)
          (from_key doomed is_doomed key t head ns) doomed x in
      let (k1, v1, d1, h1) = marked-SameFields (m n).toplevel (flagged m n) n x in
      d ∙ d1 ∙ rw other refl

  below_key-low : (j : ℕ) → (doomed (below_key doomed is_doomed key t head ns j)).key < key
  below_key-low j = last_below-low doomed key t is_doomed j head ns (rw (keys head) low)

  cut-IsLevel :
      (j : ℕ) → j < levelmax → IsLevel cut alive j ((cut head).next j) (without m key ns) t
  cut-IsLevel j lt = rw (sym (without-same m doomed keys key ns)) (
      IsLevel-unlinked doomed cut is_doomed key j t (below_key doomed is_doomed key t head ns j)
        (from_key doomed is_doomed key t head ns j) head ns (doomed head).key
        (unlinked-SameFields levelmax (below_key doomed is_doomed key t head ns)
          (from_key doomed is_doomed key t head ns) doomed)
        (cut-next j lt) refl refl
        (first_from-unmarked doomed key t levelmax m is_doomed j ns s.nodes s.end) (below_key-low j)
        (omega arith) doomed-Ascends (AreDead-same m doomed keys is_doomed key ns b.only)
        (doomed-IsLevel j lt))

  cut-end : (j : ℕ) → j < levelmax → is_marked ((cut t).next j) ≡ false
  cut-end j lt =
      let other : (below_key doomed is_doomed key t head ns j == t) ≡ false =
        elim (Bool-cases (below_key doomed is_doomed key t head ns j == t)) [
          | inr e ↦ e
          | inl e ↦
              let same : below_key doomed is_doomed key t head ns j ≡ t = ground (arith, e) in
              absurd (omega (arith, rw (keys t) at (rw same at (below_key-low j)), high))
        ] in
      rw (cut-next j lt t) (rw other (doomed-end j lt))

  -- Cutting the node leaves a skip list of the others.
  pub cut-IsSkipList : IsSkipList levelmax cut head (without m key ns) t
  cut-IsSkipList = record {
    ascends = rw (cut-keys head) (
        Ascends-same m cut cut-keys (m head).key (without m key ns) t
          (Ascends-without m key t (m head).key ns s.ascends));
    levels = cut-IsLevel;
    nodes =
        AreNodes-without m key t levelmax cut n cut-SameShape cut-flags ns (m head).key s.ascends
          b.only s.nodes;
    end = s.end;
    ends = cut-end;
    grounded = s.grounded;
  }

  -- It unbinds the key and leaves the others alone.
  pub cut-value_of :
      (other : ℕ)
      → value_of cut other (without m key ns) ≡ (if other == key then 0 else value_of m other ns)
  cut-value_of other =
      value_of-same m cut cut-keys (λ x. (let (k, v, h) = cut-SameShape x in v)) other
        (without m key ns)
      ∙ value_of-without m key t (m head).key ns s.ascends other
