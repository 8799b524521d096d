-- ===== src/Fraser/Descend.antt =====
-- src/skiplist-fraser/fraser.c: the rounds of a descent, and what a search unlinks.
use qsense.Prelude.{
  ℕ, zero, suc, ◌<◌, ◌≡◌, refl, sym, true, false, some, ◌==◌, if◌then◌else◌, arith, Bool-cases, inl,
  inr, put,
}
use qsense.DoubleLlist.{Ptr}
use qsense.Fraser.{
  Heap, is_marked, get_unmarked, set_next, find_pair, arrived, descend, nowhere, fraser_search,
}

-- An array with the values of `f` below `n`.
unfoldable pub written : (n : ℕ) → (f xs : ℕ → ℕ) → ℕ → ℕ
written zero f xs = xs
written (suc i) f xs = written i f (put xs i (f i))

-- The heap with the nodes between `left i` and `right i` unlinked at each level `i` below `n`.
unfoldable pub unlinked : (n : ℕ) → (left right : ℕ → Ptr) → Heap → Heap
unlinked zero left right m = m
unlinked (suc i) left right m =
    unlinked i left right
      (if (m (left i)).next i == right i then m else set_next m (left i) i (right i))

-- The same keys, and the same pointers below level `n`.
abbrev pub Agrees : (n : ℕ) → Heap → Heap → Type 0
Agrees n m0 m =
    (a : Ptr) → ((m a).key ≡ (m0 a).key) × ((j : ℕ) → j < n → (m a).next j ≡ (m0 a).next j)

-- The inner loops read only their level.
pub find_pair-Agrees :
    (n : ℕ) (m0 m : Heap) (fuel i key : ℕ) (left : Ptr) (left_next right : ℕ)
    → Agrees n m0 m
    → i < n
    → find_pair fuel m i key left left_next right ≡ find_pair fuel m0 i key left left_next right
unfolding find_pair
find_pair-Agrees n m0 m zero i key left left_next right agree lt = refl
find_pair-Agrees n m0 m (suc fuel) i key left left_next right agree lt =
    let (keys, nexts) = agree right in
    let ih = λ (l : Ptr) (ln r : ℕ). find_pair-Agrees n m0 m fuel i key l ln r agree lt in
    rw (nexts i lt) (
      rw keys (
        rw (ih left left_next (get_unmarked ((m0 right).next i)))
          (rw (ih right ((m0 right).next i) ((m0 right).next i)) refl)))

-- Unlinking at level `i` leaves the levels below alone.
pub Agrees-unlink :
    (i : ℕ) (m0 m : Heap) (left right : Ptr)
    → Agrees (suc i) m0 m
    → Agrees i m0 (if (m left).next i == right then m else set_next m left i right)
Agrees-unlink i m0 m left right agree a =
    let (keys, nexts) = agree a in
    elim (Bool-cases ((m left).next i == right)) [
      | inl same ↦ rw same (keys, λ j lt. nexts j (omega (arith, lt)))
      | inr other ↦ rw other (elim (Bool-cases (left == a)) [
        | inl here ↦
            let e : a ≡ left = ground (arith, here) in
            rw here (
              rw (sym e) (
                keys,
                λ j lt.
                    (let differ : (i == j) ≡ false = ground (arith, lt) in
                      rw differ (nexts j (omega (arith, lt)))),
              ))
        | inr there ↦ rw there (keys, λ j lt. nexts j (omega (arith, lt)))
      ])
    ]

-- A round of the descent.
pub descend_step :
    (fuel i : ℕ) (m : Heap) (key : ℕ) (p left : Ptr) (right : Ptr) (lefts rights : ℕ → Ptr)
    → is_marked ((m p).next i) ≡ false
    → find_pair fuel m i key p ((m p).next i) ((m p).next i) ≡ some (left, (m left).next i, right)
    → descend fuel (suc i) m key p lefts rights
      ≡ descend fuel i
          (if (m left).next i == right then m else set_next m left i right)
          key
          left
          (put lefts i left)
          (put rights i right)
unfolding descend
descend_step fuel i m key p left right lefts rights live e = rw live (
    rw e (elim (Bool-cases ((m left).next i == right)) [
      | inl same ↦ rw same refl
      | inr other ↦
          let itself : ((m left).next i == (m left).next i) ≡ true = ground arith in
          rw other (rw itself refl)
    ]))

pub search_step :
    (levelmax tries fuel : ℕ) (m m1 : Heap) (head : Ptr) (key : ℕ) (lefts rights : ℕ → Ptr)
    → descend fuel levelmax m key head nowhere nowhere ≡ some (arrived lefts rights m1)
    → fraser_search levelmax (suc tries) fuel m head key
      ≡ some (record { left_list = lefts; right_list = rights; heap = m1 })
unfolding fraser_search
search_step levelmax tries fuel m m1 head key lefts rights e = rw (fraser_search, e) refl
