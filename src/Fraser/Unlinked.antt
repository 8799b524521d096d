-- ===== src/Fraser/Unlinked.antt =====
-- src/skiplist-fraser: the heap with nodes unlinked, and the nodes of a key.
use qsense.Prelude.{
  ℕ, zero, suc, ◌≡◌, refl, ◌∙◌, sym, Bool, ◌&&◌, List, [], ◌∷◌, ◌==◌, ltb, if◌then◌else◌, arith,
  Bool-cases, inl, inr,
}
use qsense.DoubleLlist.{Ptr}
use qsense.Fraser.{Heap, set_next}
use qsense.Fraser.Descend.{unlinked}
use qsense.Fraser.Marks.{SameFields, SameFields-trans, set_next-SameFields, set_next-next}

-- The nodes with another key.
abbrev pub without : Heap → (key : ℕ) → List Ptr → List Ptr
without m key [] = []
without m key (a ∷ ns) = if (m a).key == key then ns else a ∷ without m key ns

-- The dead nodes are those with the key.
abbrev pub AreDead : Heap → (dead : Ptr → Bool) → (key : ℕ) → List Ptr → Type 0
AreDead m dead key [] = Unit
AreDead m dead key (a ∷ ns) = (dead a ≡ ((m a).key == key)) × AreDead m dead key ns

unlink-SameFields :
    (m : Heap) (a : Ptr) (i p : ℕ) (x : Ptr)
    → SameFields ((if (m a).next i == p then m else set_next m a i p) x) (m x)
unlink-SameFields m a i p x = elim (Bool-cases ((m a).next i == p)) [
  | inl same ↦ rw same (refl, refl, refl, refl)
  | inr other ↦ rw other (set_next-SameFields m a i p x)
]

unlink-next :
    (m : Heap) (a : Ptr) (i p : ℕ) (x : Ptr) (j : ℕ)
    → ((if (m a).next i == p then m else set_next m a i p) x).next j
      ≡ (if (a == x) && (i == j) then p else (m x).next j)
unlink-next m a i p x j = elim (Bool-cases ((m a).next i == p)) [
  | inr other ↦ rw other (set_next-next m a i p x j)
  | inl same ↦ rw same (elim (Bool-cases (a == x)) [
    | inr apart ↦ rw apart refl
    | inl here ↦ elim (Bool-cases (i == j)) [
      | inr apart ↦ rw here (rw apart refl)
      | inl level ↦
          let e : a ≡ x = ground (arith, here) in
          let f : i ≡ j = ground (arith, level) in
          let g : (m a).next i ≡ p = ground (arith, same) in
          rw here (rw level (rw (sym e) (rw (sym f) g)))
    ]
  ])
]

pub unlinked-SameFields :
    (n : ℕ) (left right : ℕ → Ptr) (m : Heap) (x : Ptr)
    → SameFields (unlinked n left right m x) (m x)
unfolding unlinked
unlinked-SameFields zero left right m x = (refl, refl, refl, refl)
unlinked-SameFields (suc i) left right m x =
    let m1 : Heap = if (m (left i)).next i == right i then m else set_next m (left i) i (right i) in
    SameFields-trans (unlinked i left right m1 x) (m1 x) (m x)
      (unlinked-SameFields i left right m1 x) (unlink-SameFields m (left i) i (right i) x)

pub unlinked-next :
    (n : ℕ) (left right : ℕ → Ptr) (m : Heap) (x : Ptr) (j : ℕ)
    → (unlinked n left right m x).next j
      ≡ (if ltb j n && (left j == x) then right j else (m x).next j)
unfolding unlinked
unlinked-next zero left right m x j = ground arith
unlinked-next (suc i) left right m x j =
    let m1 : Heap = if (m (left i)).next i == right i then m else set_next m (left i) i (right i) in
    unlinked-next i left right m1 x j
    ∙ rw (unlink-next m (left i) i (right i) x j) (elim (Bool-cases (i == j)) [
      | inl same ↦ let e : i ≡ j = ground (arith, same) in rw e (ground arith)
      | inr other ↦ rw other (ground arith)
    ])
