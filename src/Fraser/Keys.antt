-- ===== src/Fraser/Keys.antt =====
-- src/skiplist-fraser: what a list of nodes keeps when pointers or flags change, and the node of a key.
use qsense.Prelude.{
  ℕ, ◌<◌, ◌≤◌, ◌≡◌, refl, ◌∙◌, sym, ap, Bool, true, false, List, [], ◌∷◌, ◌==◌, ltb, arith,
  Bool-cases, inl, inr, ◌⊎◌,
}
use qsense.DoubleLlist.{Ptr}
use qsense.Fraser.{Heap, is_marked, get_unmarked}
use qsense.Fraser.Levels.{
  is_tall, IsLevel, Ascends, passes, passes-cases, stops, stops_lem, stops-low, last_below,
  first_from,
}
use qsense.Fraser.Quiet.{alive, IsNode, AreNodes, value_of, value_of-high, has_key}
use qsense.Fraser.Unlink.{without-high}
use qsense.Fraser.Unlinked.{without, AreDead}

module _ (m m1 : Heap) where
  pub IsLevel-same :
      (dead : Ptr → Bool) (j q : ℕ) (ns : List Ptr) (t : Ptr)
      → ((x : Ptr) → (m1 x).toplevel ≡ (m x).toplevel)
      → ((x : Ptr) → (m1 x).next j ≡ (m x).next j)
      → IsLevel m dead j q ns t
      → IsLevel m1 dead j q ns t
  IsLevel-same dead j q [] t tops nexts h = h
  IsLevel-same dead j q (a ∷ ns) t tops nexts h = rw (tops a) (elim (Bool-cases (is_tall m j a)) [
    | inr short ↦ rw short (IsLevel-same dead j q ns t tops nexts (rw short at h))
    | inl tall ↦
        let (here, mark, rest) = rw tall at h in
        rw tall (
          rw (nexts a)
            (here, mark, IsLevel-same dead j (get_unmarked ((m a).next j)) ns t tops nexts rest))
  ])

  module _ (keys : (x : Ptr) → (m1 x).key ≡ (m x).key) where
    pub Ascends-same : (k : ℕ) (ns : List Ptr) (t : Ptr) → Ascends m k ns t → Ascends m1 k ns t
    Ascends-same k [] t lt = rw (keys t) lt
    Ascends-same k (a ∷ ns) t (lt, asc) = rw (keys a) (lt, Ascends-same (m a).key ns t asc)

    pub without-same : (key : ℕ) (ns : List Ptr) → without m1 key ns ≡ without m key ns
    without-same key [] = refl
    without-same key (a ∷ ns) = rw (keys a) (rw (without-same key ns) refl)

    pub AreDead-same :
        (dead : Ptr → Bool) (key : ℕ) (ns : List Ptr)
        → AreDead m dead key ns
        → AreDead m1 dead key ns
    AreDead-same dead key [] are = are
    AreDead-same dead key (a ∷ ns) (is, are) = rw (keys a) (is, AreDead-same dead key ns are)

    pub value_of-same :
        ((x : Ptr) → (m1 x).val ≡ (m x).val)
        → (key : ℕ) (ns : List Ptr) → value_of m1 key ns ≡ value_of m key ns
    value_of-same vals key [] = refl
    value_of-same vals key (a ∷ ns) =
        rw (keys a) (rw (vals a) (rw (value_of-same vals key ns) refl))

-- The node `n` is that of the key.
pub record IsBound (levelmax : ℕ) (m : Heap) (key : ℕ) (ns : List Ptr) (t n : Ptr) : Type 0 where
  pub the_key : (m n).key ≡ key
  pub node : IsNode levelmax m n
  pub only : AreDead m (λ x. n == x) key ns
  pub the_val : (m n).val ≡ value_of m key ns
  pub held : has_key m key ns ≡ true
  pub marks :
      (j q : ℕ) → is_tall m j n ≡ true → IsLevel m alive j q ns t → is_marked ((m n).next j) ≡ false

-- There is no node with the key, and `n` is none.
abbrev pub IsUnbound : Heap → (key : ℕ) → List Ptr → Ptr → Type 0
IsUnbound m key ns n =
    (((m n).key == key) ≡ false)
    × (without m key ns ≡ ns)
    × (value_of m key ns ≡ 0)
    × AreDead m alive key ns

module _ (m : Heap) (key : ℕ) (t : Ptr) where
  pub last_below-low :
      (dead : Ptr → Bool) (i : ℕ) (p : Ptr) (ns : List Ptr)
      → (m p).key < key
      → (m (last_below m dead key i p ns)).key < key
  last_below-low dead i p [] low = low
  last_below-low dead i p (a ∷ ns) low = elim (Bool-cases (passes m dead key i a)) [
    | inr off ↦ rw off (last_below-low dead i p ns low)
    | inl on ↦
        let (tall, kept, under) = passes-cases m dead key i a on in
        rw on (last_below-low dead i a ns under)
  ]

  pub first_from-unmarked :
      (levelmax : ℕ) (m1 : Heap) (dead : Ptr → Bool) (i : ℕ) (ns : List Ptr)
      → AreNodes levelmax m1 ns
      → is_marked t ≡ false
      → is_marked (first_from m dead key i ns t) ≡ false
  first_from-unmarked levelmax m1 dead i [] nodes end = end
  first_from-unmarked levelmax m1 dead i (a ∷ ns) ((even, flag, some_level, le), nodes) end =
      elim (Bool-cases (stops m dead key i a)) [
        | inl on ↦ rw on even
        | inr off ↦ rw off (first_from-unmarked levelmax m1 dead i ns nodes end)
      ]

  other_key : (n a : Ptr) → (m n).key ≡ key → ((m a).key == key) ≡ false → (n == a) ≡ false
  other_key n a e differ = elim (Bool-cases (n == a)) [
    | inr f ↦ f
    | inl f ↦ let same : n ≡ a = ground (arith, f) in absurd (ground (arith, differ, rw same at e))
  ]

  AreDead-high :
      (n : Ptr) (ns : List Ptr) (k : ℕ)
      → (m n).key ≡ key
      → key ≤ k
      → Ascends m k ns t
      → AreDead m (λ x. n == x) key ns
  AreDead-high n [] k e le asc = tt
  AreDead-high n (a ∷ ns) k e le (lt, asc) =
      let differ : ((m a).key == key) ≡ false = ground (arith, le, lt) in
      (
        other_key n a e differ ∙ sym differ,
        AreDead-high n ns (m a).key e (omega (arith, le, lt)) asc,
      )

  AreDead-above : (ns : List Ptr) (k : ℕ) → key ≤ k → Ascends m k ns t → AreDead m alive key ns
  AreDead-above [] k le asc = tt
  AreDead-above (a ∷ ns) k le (lt, asc) =
      (ground (arith, le, lt), AreDead-above ns (m a).key (omega (arith, le, lt)) asc)

  pub AreDead-has_key : (ns : List Ptr) → AreDead m alive key ns → has_key m key ns ≡ false
  AreDead-has_key [] are = refl
  AreDead-has_key (a ∷ ns) (is, are) = rw (sym is) (AreDead-has_key ns are)

  pub first_from-absent :
      (i : ℕ) (ns : List Ptr)
      → key < (m t).key
      → AreDead m alive key ns
      → ((m (first_from m alive key i ns t)).key == key) ≡ false
  first_from-absent i [] high are = ground (arith, high)
  first_from-absent i (a ∷ ns) high (is, are) = elim (Bool-cases (stops m alive key i a)) [
    | inl on ↦ rw on (sym is)
    | inr off ↦ rw off (first_from-absent i ns high are)
  ]

  -- What the search of a key comes to at the lowest level.
  pub first_from-cases :
      (levelmax : ℕ) (ns : List Ptr) (k : ℕ)
      → AreNodes levelmax m ns
      → Ascends m k ns t
      → key < (m t).key
      → IsUnbound m key ns (first_from m alive key 0 ns t)
        ⊎ IsBound levelmax m key ns t (first_from m alive key 0 ns t)
  first_from-cases levelmax [] k nodes asc lt = inl (ground (arith, lt), refl, refl, tt)
  first_from-cases levelmax (a ∷ ns) k (is, nodes) (above, asc) lt =
      elim (Bool-cases (ltb (m a).key key)) [
        | inl less ↦
            let low : (m a).key < key = ground (arith, less) in
            let differ : ((m a).key == key) ≡ false = ground (arith, less) in
            let n = first_from m alive key 0 ns t in
            rw (stops-low m alive key 0 a low)
              (elim (first_from-cases levelmax ns (m a).key nodes asc lt) [
                | inl (other, same, none_of, are) ↦ inl (
                  other,
                  rw differ (ap (λ xs. a ∷ xs) same),
                  rw differ none_of,
                  (sym differ, are),
                )
                | inr b ↦ inr (record {
                  the_key = b.the_key;
                  node = b.node;
                  only = (other_key n a b.the_key differ ∙ sym differ, b.only);
                  the_val = rw differ b.the_val;
                  held = rw differ b.held;
                  marks = λ j q tall h. elim (Bool-cases (is_tall m j a)) [
                    | inl high ↦
                        let (here, mark, rest) = rw high at h in
                        b.marks j (get_unmarked ((m a).next j)) tall rest
                    | inr short ↦ b.marks j q tall (rw short at h)
                  ];
                })
              ])
        | inr more ↦
            let high : key ≤ (m a).key = ground (arith, more) in
            let (even, flag, some_level, le) = is in
            let top : is_tall m 0 a ≡ true = ground (arith, some_level) in
            rw (stops_lem m alive key 0 a top refl high) (elim (Bool-cases ((m a).key == key)) [
              | inr differ ↦ inl (
                differ,
                rw differ
                    (ap (λ xs. a ∷ xs) (without-high m m alive key 0 t a a ns (m a).key high asc)),
                rw differ (value_of-high m key t ns (m a).key high asc),
                (sym differ, AreDead-above ns (m a).key high asc),
              )
              | inl same ↦
                  let e : (m a).key ≡ key = ground (arith, same) in
                  let itself : (a == a) ≡ true = ground arith in
                  inr (record {
                    the_key = e;
                    node = is;
                    only = (itself ∙ sym same, AreDead-high a ns (m a).key e high asc);
                    the_val = rw same refl;
                    held = rw same refl;
                    marks = λ j q tall h. (let (here, mark, rest) = rw tall at h in mark);
                  })
            ])
      ]
