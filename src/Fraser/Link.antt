-- ===== src/Fraser/Link.antt =====
-- src/skiplist-fraser: the levels of a skip list with one more node.
use qsense.Prelude.{
  ℕ, ◌<◌, ◌≤◌, ◌≡◌, refl, ◌∙◌, sym, subst, true, false, List, [], ◌∷◌, ◌==◌, ltb, if◌then◌else◌,
  arith, Bool-cases, inl, inr,
}
use qsense.DoubleLlist.{Ptr}
use qsense.Fraser.{Heap, is_marked, get_unmarked}
use qsense.Fraser.Levels.{
  is_tall, IsLevel, Ascends, passes, passes-high, stops-low, passes_lem, last_below, first_from,
  last_below-high, unmarked,
}
use qsense.Fraser.Quiet.{alive, IsNode, AreNodes, value_of}
use qsense.Fraser.Marks.{SameFields}
use qsense.Fraser.Unlink.{IsLevel-behind, last_below-key, differ_keys}
use qsense.Fraser.Unlinked.{AreDead}

-- The nodes with `new` at its key.
abbrev pub insert_at : Heap → (key : ℕ) → (new : Ptr) → List Ptr → List Ptr
insert_at m key new [] = new ∷ []
insert_at m key new (a ∷ ns) =
    if ltb (m a).key key then a ∷ insert_at m key new ns else new ∷ a ∷ ns

module _ (m : Heap) (key : ℕ) (t new : Ptr) (the_key : (m new).key ≡ key) where
  pub Ascends-insert_at :
      (k : ℕ) (ns : List Ptr)
      → k < key
      → key < (m t).key
      → AreDead m alive key ns
      → Ascends m k ns t
      → Ascends m k (insert_at m key new ns) t
  Ascends-insert_at k [] low high are asc = rw the_key (low, high)
  Ascends-insert_at k (a ∷ ns) low high (is, are) (lt, asc) =
      elim (Bool-cases (ltb (m a).key key)) [
        | inl less ↦
            rw less (lt, Ascends-insert_at (m a).key ns (ground (arith, less)) high are asc)
        | inr more ↦
            let above : key < (m a).key = ground (arith, more, is) in
            rw more (rw the_key (low, (above, asc)))
      ]

  pub value_of-insert_at :
      (ns : List Ptr)
      → AreDead m alive key ns
      → (other : ℕ)
      → value_of m other (insert_at m key new ns)
        ≡ (if other == key then (m new).val else value_of m other ns)
  value_of-insert_at [] are other = rw the_key (ground arith)
  value_of-insert_at (a ∷ ns) (is, are) other = elim (Bool-cases (ltb (m a).key key)) [
    | inr more ↦ rw more (rw the_key (ground arith))
    | inl less ↦ rw less (
        rw (value_of-insert_at ns are other) (elim (Bool-cases (other == key)) [
          | inl e ↦
              let differ : ((m a).key == other) ≡ false = ground (arith, e, less) in
              rw e (rw differ refl)
          | inr e ↦ rw e refl
        ]))
  ]

  pub AreNodes-insert_at :
      (levelmax : ℕ) (ns : List Ptr)
      → IsNode levelmax m new
      → AreNodes levelmax m ns
      → AreNodes levelmax m (insert_at m key new ns)
  AreNodes-insert_at levelmax [] is nodes = (is, nodes)
  AreNodes-insert_at levelmax (a ∷ ns) is (node, nodes) = elim (Bool-cases (ltb (m a).key key)) [
    | inl less ↦ rw less (node, AreNodes-insert_at levelmax ns is nodes)
    | inr more ↦ rw more (is, (node, nodes))
  ]

  -- A level that the node does not reach stays as it is.
  pub IsLevel-short :
      (j q : ℕ) (ns : List Ptr)
      → is_tall m j new ≡ false
      → IsLevel m alive j q ns t
      → IsLevel m alive j q (insert_at m key new ns) t
  IsLevel-short j q [] short h = rw short h
  IsLevel-short j q (a ∷ ns) short h = elim (Bool-cases (ltb (m a).key key)) [
    | inr more ↦ rw more (rw short h)
    | inl less ↦ rw less (elim (Bool-cases (is_tall m j a)) [
      | inr low ↦ rw low (IsLevel-short j q ns short (rw low at h))
      | inl tall ↦
          let (here, mark, rest) = rw tall at h in
          rw tall (here, mark, IsLevel-short j (get_unmarked ((m a).next j)) ns short rest)
    ])
  ]

  module _ (m1 : Heap) (j : ℕ) (left : Ptr) (fields : (x : Ptr) → SameFields (m1 x) (m x))
      (nexts : (x : Ptr) → (m1 x).next j ≡ (if left == x then new else (m x).next j))
      (tall_new : is_tall m j new ≡ true) (even_new : is_marked new ≡ false)
      (even_next : is_marked ((m new).next j) ≡ false) (low : (m left).key < key) where
    -- The node goes in front of the nodes with higher keys.
    IsLevel-here :
        (q : ℕ) (cur : List Ptr)
        → Ascends m key cur t
        → AreDead m alive key cur
        → first_from m alive key j cur t ≡ (m new).next j
        → IsLevel m alive j q cur t
        → IsLevel m1 alive j new (new ∷ cur) t
    IsLevel-here q cur asc are er h =
        let (k, v, d, tops) = fields new in
        let apart : (left == new) ≡ false = elim (Bool-cases (left == new)) [
          | inr e ↦ e
          | inl e ↦
              let same : left ≡ new = ground (arith, e) in
              absurd (omega (arith, rw same at low, the_key))
        ] in
        let (found, rest) =
          IsLevel-behind m m1 alive key j t left new q cur key fields nexts low (omega arith) asc
            are h in
        rw tops (
          rw tall_new (
            rw (nexts new) (
              rw apart (
                refl,
                even_next,
                rw (unmarked m alive key j ((m new).next j) even_next)
                    (subst (λ r. IsLevel m1 alive j r cur t) (sym found ∙ er) rest),
              ))))

    -- The level with the node linked behind `left`.
    pub IsLevel-linked :
        (p : Ptr) (ns : List Ptr) (k : ℕ)
        → last_below m alive key j p ns ≡ left
        → first_from m alive key j ns t ≡ (m new).next j
        → (m p).key ≤ k
        → key < (m t).key
        → Ascends m k ns t
        → AreDead m alive key ns
        → IsLevel m alive j ((m p).next j) ns t
        → IsLevel m1 alive j ((m1 p).next j) (insert_at m key new ns) t
    IsLevel-linked p [] k el er le high asc are h =
        let itself : (left == p) ≡ true = ground (arith, el) in
        rw (nexts p) (rw itself (IsLevel-here t [] high tt er refl))
    IsLevel-linked p (a ∷ ns) k el er le high (lt, asc) (is, are) h =
        let (keys, vals, flags, tops) = fields a in
        elim (Bool-cases (ltb (m a).key key)) [
          | inr more ↦
              let above : key ≤ (m a).key = ground (arith, more) in
              let over : key < (m a).key = ground (arith, more, is) in
              let last =
                sym (last_below-high m alive key j p ns t (m a).key above asc)
                ∙ (rw (passes-high m alive key j a above) at el) in
              let itself : (left == p) ≡ true = ground (arith, last) in
              rw more (
                rw (nexts p)
                  (rw itself (IsLevel-here ((m p).next j) (a ∷ ns) (over, asc) (is, are) er h)))
          | inl less ↦
              let under : (m a).key < key = ground (arith, less) in
              let er1 = rw (stops-low m alive key j a under) at er in
              rw less (
                rw tops (elim (Bool-cases (is_tall m j a)) [
                  | inr short ↦
                      let off : passes m alive key j a ≡ false = rw short refl in
                      rw short (
                        IsLevel-linked p ns (m a).key (rw off at el) er1 (omega (arith, le, lt))
                          high asc are (rw short at h))
                  | inl tall ↦
                      let (here, mark, rest) = rw tall at h in
                      let el1 = rw (passes_lem m alive key j a tall refl under) at el in
                      let rest1 = rw (unmarked m alive key j ((m a).next j) mark) at rest in
                      let above : (m a).key ≤ (m left).key = rw (sym el1) (
                        last_below-key m m1 alive key j t left new a ns (m a).key (omega arith)
                          asc) in
                      let apart : (left == p) ≡ false =
                        differ_keys m m1 alive key j t left new p (omega (arith, above, le, lt)) in
                      let even_a : is_marked ((m1 a).next j) ≡ false =
                        rw (nexts a) (elim (Bool-cases (left == a)) [
                          | inl same ↦ rw same even_new
                          | inr other ↦ rw other mark
                        ]) in
                      rw tall (
                        rw (nexts p) (rw apart here),
                        even_a,
                        rw (unmarked m alive key j ((m1 a).next j) even_a) (
                            IsLevel-linked a ns (m a).key el1 er1 (omega arith) high asc are rest1),
                      )
                ]))
        ]
