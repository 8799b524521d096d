-- ===== src/Fraser/Shapes.antt =====
-- src/skiplist-fraser: what a skip list without a key keeps.
use qsense.Prelude.{
  ℕ, ◌≤◌, ◌≡◌, refl, ◌∙◌, false, List, [], ◌∷◌, ◌==◌, if◌then◌else◌, arith, Bool-cases, inl, inr,
}
use qsense.DoubleLlist.{Ptr}
use qsense.Fraser.{Node, Heap}
use qsense.Fraser.Levels.{Ascends}
use qsense.Fraser.Quiet.{IsNode, AreNodes, value_of, value_of-high}
use qsense.Fraser.Unlinked.{without, AreDead}
use qsense.Fraser.Remove.{flagged}

-- The key, the value and the height.
abbrev pub SameShape : Node → Node → Type 0
SameShape a b = (a.key ≡ b.key) × (a.val ≡ b.val) × (a.toplevel ≡ b.toplevel)

pub flagged-SameShape : (m : Heap) (n x : Ptr) → SameShape (flagged m n x) (m x)
flagged-SameShape m n x = elim (Bool-cases (n == x)) [
  | inl same ↦ let e : n ≡ x = ground (arith, same) in rw same (rw e (refl, refl, refl))
  | inr other ↦ rw other (refl, refl, refl)
]

pub flagged-next : (m : Heap) (n x : Ptr) (j : ℕ) → (flagged m n x).next j ≡ (m x).next j
flagged-next m n x j = elim (Bool-cases (n == x)) [
  | inl same ↦ let e : n ≡ x = ground (arith, same) in rw same (rw e refl)
  | inr other ↦ rw other refl
]

module _ (m : Heap) (key : ℕ) (t : Ptr) where
  Ascends-weaken : (k k1 : ℕ) (ns : List Ptr) → k ≤ k1 → Ascends m k1 ns t → Ascends m k ns t
  Ascends-weaken k k1 [] le lt = omega (arith, le, lt)
  Ascends-weaken k k1 (a ∷ ns) le (lt, asc) = (omega (arith, le, lt), asc)

  pub Ascends-without :
      (k : ℕ) (ns : List Ptr) → Ascends m k ns t → Ascends m k (without m key ns) t
  Ascends-without k [] asc = asc
  Ascends-without k (a ∷ ns) (lt, asc) = elim (Bool-cases ((m a).key == key)) [
    | inl same ↦ rw same (Ascends-weaken k (m a).key ns (omega (arith, lt)) asc)
    | inr other ↦ rw other (lt, Ascends-without (m a).key ns asc)
  ]

  -- A removal leaves the other keys alone.
  pub value_of-without :
      (k : ℕ) (ns : List Ptr)
      → Ascends m k ns t
      → (other : ℕ)
      → value_of m other (without m key ns) ≡ (if other == key then 0 else value_of m other ns)
  value_of-without k [] asc other = ground arith
  value_of-without k (a ∷ ns) (lt, asc) other = elim (Bool-cases ((m a).key == key)) [
    | inl same ↦ rw same (elim (Bool-cases (other == key)) [
      | inl e ↦
          let le : other ≤ (m a).key = ground (arith, e, same) in
          rw e (value_of-high m other t ns (m a).key le asc)
      | inr e ↦
          let differ : ((m a).key == other) ≡ false = ground (arith, e, same) in
          rw e (rw differ refl)
    ])
    | inr apart ↦ rw apart (
        rw (value_of-without (m a).key ns asc other) (elim (Bool-cases (other == key)) [
          | inl e ↦
              let differ : ((m a).key == other) ≡ false = ground (arith, e, apart) in
              rw e (rw differ refl)
          | inr e ↦ rw e refl
        ]))
  ]

  module _ (levelmax : ℕ) (m1 : Heap) (n : Ptr) (shapes : (x : Ptr) → SameShape (m1 x) (m x))
      (flags : (x : Ptr) → (n == x) ≡ false → (m1 x).deleted ≡ (m x).deleted) where
    IsNode-same : (a : Ptr) → (n == a) ≡ false → IsNode levelmax m a → IsNode levelmax m1 a
    IsNode-same a other (even, flag, low, high) =
        let (keys, vals, tops) = shapes a in (even, flags a other ∙ flag, rw tops low, rw tops high)

    AreNodes-high :
        (ns : List Ptr) (k : ℕ)
        → key ≤ k
        → Ascends m k ns t
        → AreDead m (λ x. n == x) key ns
        → AreNodes levelmax m ns
        → AreNodes levelmax m1 ns
    AreNodes-high [] k le asc are nodes = tt
    AreNodes-high (a ∷ ns) k le (lt, asc) (is, are) (node, nodes) =
        let differ : ((m a).key == key) ≡ false = ground (arith, le, lt) in
        (
          IsNode-same a (is ∙ differ) node,
          AreNodes-high ns (m a).key (omega (arith, le, lt)) asc are nodes,
        )

    pub AreNodes-without :
        (ns : List Ptr) (k : ℕ)
        → Ascends m k ns t
        → AreDead m (λ x. n == x) key ns
        → AreNodes levelmax m ns
        → AreNodes levelmax m1 (without m key ns)
    AreNodes-without [] k asc are nodes = tt
    AreNodes-without (a ∷ ns) k (lt, asc) (is, are) (node, nodes) =
        elim (Bool-cases ((m a).key == key)) [
          | inl same ↦ rw same (AreNodes-high ns (m a).key (ground (arith, same)) asc are nodes)
          | inr other ↦
              rw other
                (IsNode-same a (is ∙ other) node, AreNodes-without ns (m a).key asc are nodes)
        ]
