-- ===== src/Fraser/Marks.antt =====
-- src/skiplist-fraser/fraser.c: `mark_node_ptrs` where no other thread gets in between.
use qsense.Prelude.{
  ℕ, zero, suc, ◌<◌, ◌≤◌, ◌≡◌, refl, ◌∙◌, sym, subst, true, false, ◌&&◌, some, List, [], ◌∷◌, ◌==◌,
  ltb, if◌then◌else◌, length, arith, Bool-cases, inl, inr,
}
use qsense.DoubleLlist.{Ptr}
use qsense.Fraser.{Node, Heap, is_marked, get_unmarked, get_marked, set_next}
use qsense.Fraser.Levels.{is_tall, IsLevel}
use qsense.Fraser.Quiet.{alive}
use qsense.Fraser.Update.{Others, mark_level, mark_node_ptrs}

-- Others that do nothing.
abbrev pub idle : Others
idle m = m

abbrev pub Idle : List Others → Type 0
Idle [] = Unit
Idle (other ∷ others) = (other ≡ idle) × Idle others

-- The heap with the pointers of `a` marked at each level below `n`.
unfoldable pub marked : (n : ℕ) → Heap → Ptr → Heap
marked zero m a = m
marked (suc i) m a = marked i (set_next m a i (get_marked ((m a).next i))) a

mark_level-Idle :
    (other : Others) (others : List Others) (m : Heap) (a : Ptr) (i : ℕ)
    → other ≡ idle
    → is_marked ((m a).next i) ≡ false
    → mark_level (other ∷ others) m a i ≡ some (others, set_next m a i (get_marked ((m a).next i)))
unfolding mark_level
mark_level-Idle other others m a i quiet live =
    let itself : ((m a).next i == (m a).next i) ≡ true = ground arith in
    rw quiet (rw live (rw itself refl))

mark_step :
    (others left : List Others) (m m1 : Heap) (a : Ptr) (i : ℕ)
    → mark_level others m a i ≡ some (left, m1)
    → mark_node_ptrs others m a (suc i) ≡ mark_node_ptrs left m1 a i
unfolding mark_node_ptrs
mark_step others left m m1 a i e = rw (mark_node_ptrs, e) refl

-- A node none of whose pointers is marked gets all of them marked.
pub mark_node_ptrs-Idle :
    (n : ℕ) (others : List Others) (m : Heap) (a : Ptr)
    → Idle others
    → n ≤ length others
    → ((i : ℕ) → i < n → is_marked ((m a).next i) ≡ false)
    → mark_node_ptrs others m a n ≡ some (marked n m a)
unfolding mark_node_ptrs marked
mark_node_ptrs-Idle zero others m a quiet le live = refl
mark_node_ptrs-Idle (suc i) [] m a quiet le live = absurd (omega (arith, le))
mark_node_ptrs-Idle (suc i) (other ∷ others) m a (here, quiet) le live =
    let m1 : Heap = set_next m a i (get_marked ((m a).next i)) in
    let itself : (a == a) ≡ true = ground arith in
    mark_step (other ∷ others) others m m1 a i
      (mark_level-Idle other others m a i here (live i (omega arith)))
    ∙ mark_node_ptrs-Idle i others m1 a quiet (omega (arith, le)) (λ j below.
      (let differ : (i == j) ≡ false = ground (arith, below) in
        rw itself (rw differ (live j (omega (arith, below))))))

-- What two heaps share when only pointers have changed.
abbrev pub SameFields : Node → Node → Type 0
SameFields a b =
    (a.key ≡ b.key) × (a.val ≡ b.val) × (a.deleted ≡ b.deleted) × (a.toplevel ≡ b.toplevel)

pub set_next-SameFields :
    (m : Heap) (a : Ptr) (i p : ℕ) (x : Ptr) → SameFields (set_next m a i p x) (m x)
set_next-SameFields m a i p x = elim (Bool-cases (a == x)) [
  | inl same ↦ let e : a ≡ x = ground (arith, same) in rw same (rw e (refl, refl, refl, refl))
  | inr other ↦ rw other (refl, refl, refl, refl)
]

pub set_next-next :
    (m : Heap) (a : Ptr) (i p : ℕ) (x : Ptr) (j : ℕ)
    → (set_next m a i p x).next j ≡ (if (a == x) && (i == j) then p else (m x).next j)
set_next-next m a i p x j = elim (Bool-cases (a == x)) [
  | inl same ↦ let e : a ≡ x = ground (arith, same) in rw same (rw e refl)
  | inr other ↦ rw other refl
]

pub SameFields-trans : (a b c : Node) → SameFields a b → SameFields b c → SameFields a c
SameFields-trans a b c (k, v, d, t) (k1, v1, d1, t1) = (k ∙ k1, v ∙ v1, d ∙ d1, t ∙ t1)

pub marked-SameFields : (n : ℕ) (m : Heap) (a x : Ptr) → SameFields (marked n m a x) (m x)
unfolding marked
marked-SameFields zero m a x = (refl, refl, refl, refl)
marked-SameFields (suc i) m a x =
    let m1 : Heap = set_next m a i (get_marked ((m a).next i)) in
    SameFields-trans (marked i m1 a x) (m1 x) (m x) (marked-SameFields i m1 a x)
      (set_next-SameFields m a i (get_marked ((m a).next i)) x)

pub marked-next :
    (n : ℕ) (m : Heap) (a x : Ptr) (j : ℕ)
    → (marked n m a x).next j
      ≡ (if (a == x) && ltb j n then get_marked ((m x).next j) else (m x).next j)
unfolding marked
marked-next zero m a x j = ground arith
marked-next (suc i) m a x j =
    let m1 : Heap = set_next m a i (get_marked ((m a).next i)) in
    rw (marked-next i m1 a x j)
      (rw (set_next-next m a i (get_marked ((m a).next i)) x j) (ground arith))

-- What the chain of a level becomes when the pointers of one of its nodes are marked.
pub IsLevel-marked :
    (m m1 : Heap) (gone : Ptr) (top j q : ℕ) (ns : List Ptr) (t : Ptr)
    → ((x : Ptr) → SameFields (m1 x) (m x))
    → ((x : Ptr)
        → (m1 x).next j
          ≡ (if (gone == x) && ltb j top then get_marked ((m x).next j) else (m x).next j))
    → (m gone).toplevel ≡ top
    → IsLevel m alive j q ns t
    → IsLevel m1 (λ x. gone == x) j q ns t
IsLevel-marked m m1 gone top j q [] t fields nexts tall h = h
IsLevel-marked m m1 gone top j q (a ∷ ns) t fields nexts tall h =
    let (keys, vals, flags, tops) = fields a in
    let ih = λ (r : ℕ) (g : IsLevel m alive j r ns t).
      IsLevel-marked m m1 gone top j r ns t fields nexts tall g in
    rw tops (elim (Bool-cases (is_tall m j a)) [
      | inr short ↦ let rest = rw short at h in rw short (ih q rest)
      | inl high ↦
          let (here, mark, rest) = rw high at h in
          rw high (
            here,
            rw (nexts a) (elim (Bool-cases (gone == a)) [
              | inl same ↦
                  let e : gone ≡ a = ground (arith, same) in
                  let below : ltb j top ≡ true = rw (sym tall) (rw e high) in
                  rw same (rw below (ground arith))
              | inr other ↦ rw other mark
            ]),
            rw (nexts a) (elim (Bool-cases (gone == a)) [
              | inl same ↦
                  let e : gone ≡ a = ground (arith, same) in
                  let below : ltb j top ≡ true = rw (sym tall) (rw e high) in
                  rw same (
                    rw below (
                      subst (λ r. IsLevel m1 (λ x. gone == x) j r ns t) (ground (arith, mark))
                        (ih (get_unmarked ((m a).next j)) rest)))
              | inr other ↦ rw other (ih (get_unmarked ((m a).next j)) rest)
            ]),
          )
    ])
