-- ===== src/Fraser/Fresh.antt =====
-- src/skiplist-fraser: a skip list when a node changes that does not stand in it.
use qsense.Prelude.{
  ℕ, zero, suc, ◌+◌, ◌≡◌, refl, ◌∙◌, Bool, false, ◌&&◌, List, [], ◌∷◌, ◌==◌, ltb, leb,
  if◌then◌else◌, arith, Bool-cases, inl, inr,
}
use qsense.DoubleLlist.{Ptr}
use qsense.Fraser.{Heap, get_unmarked, set_next}
use qsense.Fraser.Levels.{is_tall, IsLevel, Ascends, passes, stops, last_below, first_from}
use qsense.Fraser.Quiet.{alive, AreNodes, value_of, has_key, IsSkipList}
use qsense.Fraser.Unlinked.{AreDead}
use qsense.Fraser.Update.{fill_levels}
use qsense.Fraser.Marks.{SameFields, SameFields-trans, set_next-SameFields, set_next-next}

-- The node `new` is none of `ns`.
abbrev pub IsFresh : (new : Ptr) → List Ptr → Type 0
IsFresh new [] = Unit
IsFresh new (a ∷ ns) = ((new == a) ≡ false) × IsFresh new ns

module _ (m m1 : Heap) (new : Ptr) (same : (x : Ptr) → (new == x) ≡ false → m1 x ≡ m x) where
  IsLevel-fresh :
      (dead : Ptr → Bool) (j q : ℕ) (ns : List Ptr) (t : Ptr)
      → IsFresh new ns
      → IsLevel m dead j q ns t
      → IsLevel m1 dead j q ns t
  IsLevel-fresh dead j q [] t fresh h = h
  IsLevel-fresh dead j q (a ∷ ns) t (other, fresh) h =
      rw (same a other) (elim (Bool-cases (is_tall m j a)) [
        | inr short ↦ rw short (IsLevel-fresh dead j q ns t fresh (rw short at h))
        | inl tall ↦
            let (here, mark, rest) = rw tall at h in
            rw tall (here, mark, IsLevel-fresh dead j (get_unmarked ((m a).next j)) ns t fresh rest)
      ])

  Ascends-fresh :
      (k : ℕ) (ns : List Ptr) (t : Ptr)
      → IsFresh new ns
      → (new == t) ≡ false
      → Ascends m k ns t
      → Ascends m1 k ns t
  Ascends-fresh k [] t fresh end lt = rw (same t end) lt
  Ascends-fresh k (a ∷ ns) t (other, fresh) end (lt, asc) =
      rw (same a other) (lt, Ascends-fresh (m a).key ns t fresh end asc)

  AreNodes-fresh :
      (levelmax : ℕ) (ns : List Ptr)
      → IsFresh new ns
      → AreNodes levelmax m ns
      → AreNodes levelmax m1 ns
  AreNodes-fresh levelmax [] fresh nodes = nodes
  AreNodes-fresh levelmax (a ∷ ns) (other, fresh) (node, nodes) =
      (rw (same a other) node, AreNodes-fresh levelmax ns fresh nodes)

  pub AreDead-fresh :
      (dead : Ptr → Bool) (key : ℕ) (ns : List Ptr)
      → IsFresh new ns
      → AreDead m dead key ns
      → AreDead m1 dead key ns
  AreDead-fresh dead key [] fresh are = are
  AreDead-fresh dead key (a ∷ ns) (other, fresh) (is, are) =
      (rw (same a other) is, AreDead-fresh dead key ns fresh are)

  pub value_of-fresh :
      (key : ℕ) (ns : List Ptr) → IsFresh new ns → value_of m1 key ns ≡ value_of m key ns
  value_of-fresh key [] fresh = refl
  value_of-fresh key (a ∷ ns) (other, fresh) =
      rw (same a other) (rw (value_of-fresh key ns fresh) refl)

  pub has_key-fresh :
      (key : ℕ) (ns : List Ptr) → IsFresh new ns → has_key m1 key ns ≡ has_key m key ns
  has_key-fresh key [] fresh = refl
  has_key-fresh key (a ∷ ns) (other, fresh) =
      rw (same a other) (rw (has_key-fresh key ns fresh) refl)

  pub last_below-fresh :
      (key i : ℕ) (p : Ptr) (ns : List Ptr)
      → IsFresh new ns
      → last_below m1 alive key i p ns ≡ last_below m alive key i p ns
  last_below-fresh key i p [] fresh = refl
  last_below-fresh key i p (a ∷ ns) (other, fresh) =
      rw (same a other) (elim (Bool-cases (passes m alive key i a)) [
        | inl on ↦ rw on (last_below-fresh key i a ns fresh)
        | inr off ↦ rw off (last_below-fresh key i p ns fresh)
      ])

  pub first_from-fresh :
      (key i : ℕ) (ns : List Ptr) (t : Ptr)
      → IsFresh new ns
      → first_from m1 alive key i ns t ≡ first_from m alive key i ns t
  first_from-fresh key i [] t fresh = refl
  first_from-fresh key i (a ∷ ns) t (other, fresh) =
      rw (same a other) (elim (Bool-cases (stops m alive key i a)) [
        | inl on ↦ rw on refl
        | inr off ↦ rw off (first_from-fresh key i ns t fresh)
      ])

  pub IsSkipList-fresh :
      (levelmax : ℕ) (head : Ptr) (ns : List Ptr) (t : Ptr)
      → (new == head) ≡ false
      → IsFresh new ns
      → (new == t) ≡ false
      → IsSkipList levelmax m head ns t
      → IsSkipList levelmax m1 head ns t
  IsSkipList-fresh levelmax head ns t start fresh end s = record {
    ascends = rw (same head start) (Ascends-fresh (m head).key ns t fresh end s.ascends);
    levels = λ j lt.
        rw (same head start) (IsLevel-fresh alive j ((m head).next j) ns t fresh (s.levels j lt));
    nodes = AreNodes-fresh levelmax ns fresh s.nodes;
    end = s.end;
    ends = λ j lt. rw (same t end) (s.ends j lt);
    grounded = s.grounded;
  }

-- What the loop that writes the pointers of the new node does.
pub fill_levels-next :
    (n : ℕ) (m : Heap) (new : Ptr) (succs : ℕ → Ptr) (x : Ptr) (j : ℕ)
    → (fill_levels m new succs n x).next j
      ≡ (if (new == x) && ltb j n then succs j else (m x).next j)
unfolding fill_levels
fill_levels-next zero m new succs x j = ground arith
fill_levels-next (suc i) m new succs x j =
    set_next-next (fill_levels m new succs i) new i (succs i) x j
    ∙ rw (fill_levels-next i m new succs x j) (elim (Bool-cases (i == j)) [
      | inl same ↦ let e : i ≡ j = ground (arith, same) in rw e (ground arith)
      | inr other ↦ rw other (ground arith)
    ])

pub fill_levels-SameFields :
    (n : ℕ) (m : Heap) (new : Ptr) (succs : ℕ → Ptr) (x : Ptr)
    → SameFields (fill_levels m new succs n x) (m x)
unfolding fill_levels
fill_levels-SameFields zero m new succs x = (refl, refl, refl, refl)
fill_levels-SameFields (suc i) m new succs x =
    SameFields-trans (set_next (fill_levels m new succs i) new i (succs i) x)
      (fill_levels m new succs i x) (m x)
      (set_next-SameFields (fill_levels m new succs i) new i (succs i) x)
      (fill_levels-SameFields i m new succs x)

pub fill_levels-other :
    (n : ℕ) (m : Heap) (new : Ptr) (succs : ℕ → Ptr) (x : Ptr)
    → (new == x) ≡ false
    → fill_levels m new succs n x ≡ m x
unfolding fill_levels
fill_levels-other zero m new succs x other = refl
fill_levels-other (suc i) m new succs x other = rw other (fill_levels-other i m new succs x other)

-- The heap with `new` linked behind `preds j` at each of `n` levels `j` from `i` on.
unfoldable pub linked : (n i : ℕ) → (preds : ℕ → Ptr) → (new : Ptr) → Heap → Heap
linked zero i preds new m = m
linked (suc n) i preds new m = linked n (i + 1) preds new (set_next m (preds i) i new)

pub linked-SameFields :
    (n i : ℕ) (preds : ℕ → Ptr) (new : Ptr) (m : Heap) (x : Ptr)
    → SameFields (linked n i preds new m x) (m x)
unfolding linked
linked-SameFields zero i preds new m x = (refl, refl, refl, refl)
linked-SameFields (suc n) i preds new m x =
    let m1 : Heap = set_next m (preds i) i new in
    SameFields-trans (linked n (i + 1) preds new m1 x) (m1 x) (m x)
      (linked-SameFields n (i + 1) preds new m1 x) (set_next-SameFields m (preds i) i new x)

pub linked-next :
    (n i : ℕ) (preds : ℕ → Ptr) (new : Ptr) (m : Heap) (x : Ptr) (j : ℕ)
    → (linked n i preds new m x).next j
      ≡ (if leb i j && (ltb j (i + n) && (preds j == x)) then new else (m x).next j)
unfolding linked
linked-next zero i preds new m x j = ground arith
linked-next (suc n) i preds new m x j =
    let m1 : Heap = set_next m (preds i) i new in
    linked-next n (i + 1) preds new m1 x j
    ∙ rw (set_next-next m (preds i) i new x j) (elim (Bool-cases (i == j)) [
      | inl same ↦ let e : i ≡ j = ground (arith, same) in rw e (ground arith)
      | inr other ↦ rw other (ground arith)
    ])
