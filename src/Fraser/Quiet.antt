-- ===== src/Fraser/Quiet.antt =====
-- src/skiplist-fraser/fraser.c: a skip list that no update is under way on, and `fraser_find`.
use qsense.Prelude.{
  ℕ, zero, suc, ◌<◌, ◌≤◌, ◌≡◌, refl, ◌∙◌, sym, Bool, true, false, ◌&&◌, some, List, [], ◌∷◌, ◌==◌,
  ltb, if◌then◌else◌, length, arith, Bool-cases, inl, inr, put,
}
use qsense.DoubleLlist.{Ptr}
use qsense.Fraser.{Heap, is_marked, Found, nowhere, fraser_search, fraser_find}
use qsense.Fraser.Levels.{
  is_tall, IsLevel, Ascends, passes_lem, last_below, first_from, last_below-high, unmarked,
  passes-high, stops-low, stops_lem,
}
use qsense.Fraser.Search.{below_key, from_key, fraser_search-neighbours}
use qsense.Fraser.Descend.{written, unlinked}

abbrev pub alive : Ptr → Bool
alive a = false

-- A node between the sentinels.
abbrev pub IsNode : (levelmax : ℕ) → Heap → Ptr → Type 0
IsNode levelmax m a =
    (is_marked a ≡ false) × ((m a).deleted ≡ 0) × (0 < (m a).toplevel) × ((m a).toplevel ≤ levelmax)

abbrev pub AreNodes : (levelmax : ℕ) → Heap → List Ptr → Type 0
AreNodes levelmax m [] = Unit
AreNodes levelmax m (a ∷ ns) = IsNode levelmax m a × AreNodes levelmax m ns

-- A skip list of the nodes `ns` between the sentinels `head` and `t`.
pub record IsSkipList (levelmax : ℕ) (m : Heap) (head : Ptr) (ns : List Ptr) (t : Ptr)
    : Type 0 where
  pub ascends : Ascends m (m head).key ns t
  pub levels : (j : ℕ) → j < levelmax → IsLevel m alive j ((m head).next j) ns t
  pub nodes : AreNodes levelmax m ns
  pub end : is_marked t ≡ false
  pub ends : (j : ℕ) → j < levelmax → is_marked ((m t).next j) ≡ false
  pub grounded : 0 < levelmax

-- The value of a key.
abbrev pub value_of : Heap → (key : ℕ) → List Ptr → ℕ
value_of m key [] = 0
value_of m key (a ∷ ns) = if (m a).key == key then (m a).val else value_of m key ns

-- Whether there is a node with the key.
abbrev pub has_key : Heap → (key : ℕ) → List Ptr → Bool
has_key m key [] = false
has_key m key (a ∷ ns) = if (m a).key == key then true else has_key m key ns

-- A pointer of a level is not marked.
pub IsLevel-unmarked :
    (levelmax : ℕ) (m : Heap) (dead : Ptr → Bool) (j q : ℕ) (ns : List Ptr) (t : Ptr)
    → AreNodes levelmax m ns
    → is_marked t ≡ false
    → IsLevel m dead j q ns t
    → is_marked q ≡ false
IsLevel-unmarked levelmax m dead j q [] t nodes end h = rw h end
IsLevel-unmarked levelmax m dead j q (a ∷ ns) t ((even, flag, low, high), nodes) end h =
    elim (Bool-cases (is_tall m j a)) [
      | inl tall ↦ let (here, mark, rest) = rw tall at h in rw here even
      | inr short ↦ IsLevel-unmarked levelmax m dead j q ns t nodes end (rw short at h)
    ]

module _ (m : Heap) (key : ℕ) (t : Ptr) where
  -- Where no node is dead, the neighbours on a level are linked.
  pub last_below-next :
      (i : ℕ) (p : Ptr) (ns : List Ptr) (k : ℕ)
      → Ascends m k ns t
      → IsLevel m alive i ((m p).next i) ns t
      → (m (last_below m alive key i p ns)).next i ≡ first_from m alive key i ns t
  last_below-next i p [] k asc h = h
  last_below-next i p (a ∷ ns) k (lt, asc) h = elim (Bool-cases (is_tall m i a)) [
    | inr short ↦ rw short (last_below-next i p ns (m a).key asc (rw short at h))
    | inl tall ↦
        let (here, mark, rest) = rw tall at h in
        elim (Bool-cases (ltb (m a).key key)) [
          | inl less ↦
              let low : (m a).key < key = ground (arith, less) in
              let rest1 = rw (unmarked m alive key i ((m a).next i) mark) at rest in
              rw (passes_lem m alive key i a tall refl low)
                (rw (stops-low m alive key i a low) (last_below-next i a ns (m a).key asc rest1))
          | inr more ↦
              let high : key ≤ (m a).key = ground (arith, more) in
              rw (passes-high m alive key i a high) (
                rw (stops_lem m alive key i a tall refl high)
                  (rw (last_below-high m alive key i p ns t (m a).key high asc) here))
        ]
  ]

  -- Keys above `key` have no value for it.
  pub value_of-high : (ns : List Ptr) (k : ℕ) → key ≤ k → Ascends m k ns t → value_of m key ns ≡ 0
  value_of-high [] k le asc = refl
  value_of-high (a ∷ ns) k le (lt, asc) =
      let differ : ((m a).key == key) ≡ false = ground (arith, le, lt) in
      rw differ (value_of-high ns (m a).key (omega (arith, le, lt)) asc)

  first_from-value_of :
      (levelmax : ℕ) (ns : List Ptr) (k : ℕ)
      → Ascends m k ns t
      → AreNodes levelmax m ns
      → key < (m t).key
      → (let n = m (first_from m alive key 0 ns t) in
          if (n.key == key) && (n.deleted == 0) then n.val else 0)
        ≡ value_of m key ns
  first_from-value_of levelmax [] k asc nodes lt =
      let differ : ((m t).key == key) ≡ false = ground (arith, lt) in rw differ refl
  first_from-value_of levelmax (a ∷ ns) k (above, asc) ((even, flag, tall, le), nodes) lt =
      elim (Bool-cases (ltb (m a).key key)) [
        | inl less ↦
            let low : (m a).key < key = ground (arith, less) in
            let differ : ((m a).key == key) ≡ false = ground (arith, less) in
            rw (stops-low m alive key 0 a low)
              (rw differ (first_from-value_of levelmax ns (m a).key asc nodes lt))
        | inr more ↦
            let high : key ≤ (m a).key = ground (arith, more) in
            let top : is_tall m 0 a ≡ true = ground (arith, tall) in
            rw (stops_lem m alive key 0 a top refl high) (
              rw flag (elim (Bool-cases ((m a).key == key)) [
                | inl same ↦ rw same refl
                | inr differ ↦ rw differ (sym (value_of-high ns (m a).key high asc))
              ]))
      ]

-- Nothing is unlinked where the neighbours are linked.
unlinked-linked :
    (n : ℕ) (left right : ℕ → Ptr) (m : Heap)
    → ((i : ℕ) → i < n → (m (left i)).next i ≡ right i)
    → unlinked n left right m ≡ m
unfolding unlinked
unlinked-linked zero left right m h = refl
unlinked-linked (suc i) left right m h =
    let same : ((m (left i)).next i == right i) ≡ true = ground (arith, h i (omega arith)) in
    rw same (unlinked-linked i left right m (λ j below. h j (omega (arith, below))))

pub written-get :
    (n : ℕ) (f xs : ℕ → ℕ) (j : ℕ) → written n f xs j ≡ (if ltb j n then f j else xs j)
unfolding written
written-get zero f xs j = ground arith
written-get (suc i) f xs j = rw (written-get i f (put xs i (f i)) j) (ground arith)

-- A search leaves a skip list alone and finds the neighbours of the key on each level.
pub fraser_search-quiet :
    (levelmax tries fuel : ℕ) (m : Heap) (head : Ptr) (ns : List Ptr) (t : Ptr) (key : ℕ)
    → IsSkipList levelmax m head ns t
    → length ns < fuel
    → key ≤ (m t).key
    → fraser_search levelmax (suc tries) fuel m head key
      ≡ some (record {
        left_list = written levelmax (below_key m alive key t head ns) nowhere;
        right_list = written levelmax (from_key m alive key t head ns) nowhere;
        heap = m;
      })
fraser_search-quiet levelmax tries fuel m head ns t key s lt le =
    let marks : (j : ℕ) → j < levelmax → is_marked ((m head).next j) ≡ false = λ j below.
      IsLevel-unmarked levelmax m alive j ((m head).next j) ns t s.nodes s.end (s.levels j below) in
    let kept =
      unlinked-linked levelmax (below_key m alive key t head ns) (from_key m alive key t head ns) m
        (λ j below. last_below-next m key t j head ns (m head).key s.ascends (s.levels j below)) in
    fraser_search-neighbours m alive key t head ns levelmax tries fuel s.ascends s.levels marks
      s.ends lt le
    ∙ rw kept refl

find_step :
    (levelmax tries fuel : ℕ) (m : Heap) (head : Ptr) (key : ℕ) (f : Found)
    → fraser_search levelmax tries fuel m head key ≡ some f
    → fraser_find levelmax tries fuel m head key
      ≡ some (
        (let n = f.heap (f.right_list 0) in
            if (n.key == key) && (n.deleted == 0) then n.val else 0),
        f.heap,
      )
unfolding fraser_find
find_step levelmax tries fuel m head key f e = rw (fraser_find, e) refl

-- `fraser_find` gives the value of the key, or 0, and leaves the heap as it is.
pub fraser_find-value_of :
    (levelmax tries fuel : ℕ) (m : Heap) (head : Ptr) (ns : List Ptr) (t : Ptr) (key : ℕ)
    → IsSkipList levelmax m head ns t
    → length ns < fuel
    → key < (m t).key
    → fraser_find levelmax (suc tries) fuel m head key ≡ some (value_of m key ns, m)
fraser_find-value_of levelmax tries fuel m head ns t key s lt less =
    let low : ltb 0 levelmax ≡ true = ground (arith, s.grounded) in
    let first : written levelmax (from_key m alive key t head ns) nowhere 0
        ≡ first_from m alive key 0 ns t =
      rw (written-get levelmax (from_key m alive key t head ns) nowhere 0) (rw low refl) in
    find_step levelmax (suc tries) fuel m head key
      (record {
        left_list = written levelmax (below_key m alive key t head ns) nowhere;
        right_list = written levelmax (from_key m alive key t head ns) nowhere;
        heap = m;
      })
      (fraser_search-quiet levelmax tries fuel m head ns t key s lt (omega (arith, less)))
    ∙ rw first
        (rw (first_from-value_of m key t levelmax ns (m head).key s.ascends s.nodes less) refl)
