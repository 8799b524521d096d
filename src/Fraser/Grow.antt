-- ===== src/Fraser/Grow.antt =====
-- src/skiplist-fraser/fraser.c: the skip list behind `fraser_insert`, with the node on its levels.
use qsense.Prelude.{
  ℕ, ◌-◌, ◌<◌, ◌≡◌, refl, ◌∙◌, sym, true, false, ◌&&◌, List, [], ◌∷◌, ◌==◌, ltb, if◌then◌else◌,
  arith, Bool-cases, inl, inr,
}
use qsense.DoubleLlist.{Ptr}
use qsense.Fraser.{Heap, is_marked, set_next}
use qsense.Fraser.Levels.{is_tall, IsLevel}
use qsense.Fraser.Search.{below_key, from_key}
use qsense.Fraser.Quiet.{alive, IsNode, AreNodes, value_of, IsSkipList}
use qsense.Fraser.Marks.{SameFields, SameFields-trans, set_next-SameFields, set_next-next}
use qsense.Fraser.Unlinked.{AreDead}
use qsense.Fraser.Update.{fill_levels}
use qsense.Fraser.Keys.{
  IsLevel-same, Ascends-same, value_of-same, last_below-low, first_from-unmarked,
}
use qsense.Fraser.Link.{
  insert_at, Ascends-insert_at, AreNodes-insert_at, value_of-insert_at, IsLevel-short,
  IsLevel-linked,
}
use qsense.Fraser.Fresh.{
  IsFresh, IsSkipList-fresh, AreDead-fresh, value_of-fresh, last_below-fresh, first_from-fresh,
  fill_levels-next, fill_levels-SameFields, fill_levels-other, linked, linked-SameFields,
  linked-next,
}

AreNodes-same :
    (levelmax : ℕ) (m m1 : Heap)
    → ((x : Ptr) → SameFields (m1 x) (m x))
    → (ns : List Ptr) → AreNodes levelmax m ns
    → AreNodes levelmax m1 ns
AreNodes-same levelmax m m1 fields [] nodes = nodes
AreNodes-same levelmax m m1 fields (a ∷ ns) ((even, flag, low, high), nodes) =
    let (k, v, d, h) = fields a in
    ((even, d ∙ flag, rw h low, rw h high), AreNodes-same levelmax m m1 fields ns nodes)

pub insert_at-same :
    (m m1 : Heap) (key : ℕ) (new : Ptr)
    → ((x : Ptr) → SameFields (m1 x) (m x))
    → (ns : List Ptr) → insert_at m1 key new ns ≡ insert_at m key new ns
insert_at-same m m1 key new fields [] = refl
insert_at-same m m1 key new fields (a ∷ ns) =
    let (k, v, d, h) = fields a in rw k (rw (insert_at-same m m1 key new fields ns) refl)

module _ (levelmax : ℕ) (m : Heap) (head : Ptr) (ns : List Ptr) (t : Ptr) (key : ℕ) (new : Ptr)
    (preds succs : ℕ → Ptr) (s : IsSkipList levelmax m head ns t) (start : (new == head) ≡ false)
    (fresh : IsFresh new ns) (apart : (new == t) ≡ false) (is : IsNode levelmax m new)
    (the_key : (m new).key ≡ key) (low : (m head).key < key) (high : key < (m t).key)
    (are : AreDead m alive key ns)
    (left : (j : ℕ) → j < levelmax → preds j ≡ below_key m alive key t head ns j)
    (right : (j : ℕ) → j < levelmax → succs j ≡ from_key m alive key t head ns j) where
  -- The heap with the pointers of the node written.
  abbrev pub filled : Heap
  filled = fill_levels m new succs (m new).toplevel

  -- The heap with the node linked.
  abbrev pub grown : Heap
  grown = linked ((m new).toplevel - 1) 1 preds new (set_next filled (preds 0) 0 new)

  filled-other : (x : Ptr) → (new == x) ≡ false → filled x ≡ m x
  filled-other = fill_levels-other (m new).toplevel m new succs

  pub filled-IsSkipList : IsSkipList levelmax filled head ns t
  filled-IsSkipList =
      IsSkipList-fresh m filled new filled-other levelmax head ns t start fresh apart s

  filled-AreDead : AreDead filled alive key ns
  filled-AreDead = AreDead-fresh m filled new filled-other alive key ns fresh are

  filled-key : (filled new).key ≡ key
  filled-key =
      let (k, v, d, h) = fill_levels-SameFields (m new).toplevel m new succs new in k ∙ the_key

  filled-node : IsNode levelmax filled new
  filled-node =
      let (k, v, d, h) = fill_levels-SameFields (m new).toplevel m new succs new in
      let (even, flag, some_level, le) = is in (even, d ∙ flag, rw h some_level, rw h le)

  pub grown-SameFields : (x : Ptr) → SameFields (grown x) (filled x)
  grown-SameFields x =
      SameFields-trans (grown x) (set_next filled (preds 0) 0 new x) (filled x)
        (linked-SameFields ((m new).toplevel - 1) 1 preds new (set_next filled (preds 0) 0 new) x)
        (set_next-SameFields filled (preds 0) 0 new x)

  grown-keys : (x : Ptr) → (grown x).key ≡ (filled x).key
  grown-keys x = let (k, v, d, h) = grown-SameFields x in k

  pub grown-key : (x : Ptr) → (grown x).key ≡ (m x).key
  grown-key x =
      let (k, v, d, h) = fill_levels-SameFields (m new).toplevel m new succs x in grown-keys x ∙ k

  grown-next :
      (x : Ptr) (j : ℕ)
      → (grown x).next j
        ≡ (if ltb j (m new).toplevel && (preds j == x) then new else (filled x).next j)
  grown-next x j =
      let (even, flag, some_level, le) = is in
      linked-next ((m new).toplevel - 1) 1 preds new (set_next filled (preds 0) 0 new) x j
      ∙ rw (set_next-next filled (preds 0) 0 new x j) (elim (Bool-cases (0 == j)) [
        | inl same ↦ let e : 0 ≡ j = ground (arith, same) in rw (sym e) (ground (arith, some_level))
        | inr other ↦ rw other (ground (arith, some_level))
      ])

  filled_head : filled head ≡ m head
  filled_head = filled-other head start

  filled_end : filled t ≡ m t
  filled_end = filled-other t apart

  preds-low : (j : ℕ) → j < levelmax → (filled (preds j)).key < key
  preds-low j lt =
      let (k, v, d, h) = fill_levels-SameFields (m new).toplevel m new succs (preds j) in
      rw k (rw (left j lt) (last_below-low m key t alive j head ns low))

  succs-even : (j : ℕ) → j < levelmax → is_marked (succs j) ≡ false
  succs-even j lt =
      rw (right j lt) (first_from-unmarked m key t levelmax m alive j ns s.nodes s.end)

  filled-next : (j : ℕ) → ltb j (m new).toplevel ≡ true → (filled new).next j ≡ succs j
  filled-next j below =
      let itself : (new == new) ≡ true = ground arith in
      fill_levels-next (m new).toplevel m new succs new j ∙ rw itself (rw below refl)

  -- A level below the top gets the node, another stays.
  grown-IsLevel :
      (j : ℕ)
      → j < levelmax
      → IsLevel grown alive j ((grown head).next j) (insert_at filled key new ns) t
  grown-IsLevel j lt =
      let (k, v, d, h) = fill_levels-SameFields (m new).toplevel m new succs new in
      let (even, flag, some_level, le) = is in
      elim (Bool-cases (ltb j (m new).toplevel)) [
        | inl below ↦
            let tall : is_tall filled j new ≡ true = rw h below in
            IsLevel-linked filled key t new filled-key grown j (preds j) grown-SameFields
              (λ x. grown-next x j ∙ rw below refl) tall even
              (rw (filled-next j below) (succs-even j lt)) (preds-low j lt) head ns
              (filled head).key
              (last_below-fresh m filled new filled-other key j head ns fresh ∙ sym (left j lt))
              (first_from-fresh m filled new filled-other key j ns t fresh
                ∙ sym (right j lt)
                ∙ sym (filled-next j below))
              (omega arith) (rw filled_end high) filled-IsSkipList.ascends filled-AreDead
              (filled-IsSkipList.levels j lt)
        | inr above ↦
            let short : is_tall filled j new ≡ false = rw h above in
            let nexts : (x : Ptr) → (grown x).next j ≡ (filled x).next j =
              λ x. grown-next x j ∙ rw above refl in
            rw (nexts head) (
              IsLevel-same filled grown alive j ((filled head).next j) (insert_at filled key new ns)
                t (λ x. (let (k1, v1, d1, h1) = grown-SameFields x in h1)) nexts
                (IsLevel-short filled key t new filled-key j ((filled head).next j) ns short
                  (filled-IsSkipList.levels j lt)))
      ]

  grown-end : (j : ℕ) → j < levelmax → is_marked ((grown t).next j) ≡ false
  grown-end j lt =
      let other : (preds j == t) ≡ false = elim (Bool-cases (preds j == t)) [
        | inr e ↦ e
        | inl e ↦
            let same : preds j ≡ t = ground (arith, e) in
            absurd (omega (arith, rw filled_end at (rw same at (preds-low j lt)), high))
      ] in
      rw (grown-next t j) (elim (Bool-cases (ltb j (m new).toplevel)) [
        | inl below ↦ rw below (rw other (filled-IsSkipList.ends j lt))
        | inr above ↦ rw above (filled-IsSkipList.ends j lt)
      ])

  -- Linking the node leaves a skip list with it.
  pub grown-IsSkipList : IsSkipList levelmax grown head (insert_at filled key new ns) t
  grown-IsSkipList = record {
    ascends = rw (grown-keys head) (
        Ascends-same filled grown grown-keys (filled head).key (insert_at filled key new ns) t (
          Ascends-insert_at filled key t new filled-key (filled head).key ns (rw filled_head low)
            (rw filled_end high) filled-AreDead filled-IsSkipList.ascends));
    levels = grown-IsLevel;
    nodes = AreNodes-same levelmax filled grown grown-SameFields (insert_at filled key new ns) (
        AreNodes-insert_at filled key t new filled-key levelmax ns filled-node
          filled-IsSkipList.nodes);
    end = s.end;
    ends = grown-end;
    grounded = s.grounded;
  }

  -- It binds the key and leaves the others alone.
  pub grown-value_of :
      (other : ℕ)
      → value_of grown other (insert_at filled key new ns)
        ≡ (if other == key then (m new).val else value_of m other ns)
  grown-value_of other =
      let (k, v, d, h) = fill_levels-SameFields (m new).toplevel m new succs new in
      value_of-same filled grown grown-keys (λ x. (let (k1, v1, d1, h1) = grown-SameFields x in v1))
        other (insert_at filled key new ns)
      ∙ value_of-insert_at filled key t new filled-key ns filled-AreDead other
      ∙ rw v (rw (value_of-fresh m filled new filled-other other ns fresh) refl)

  -- What the code meets at each level that it links.
  pub filled-ready :
      (from_low : (j : ℕ) → j < levelmax → (m (preds j)).next j ≡ succs j)
      (absent : (j : ℕ) → j < levelmax → ((m (succs j)).key == key) ≡ false)
      (other : (j : ℕ) → j < levelmax → (new == preds j) ≡ false) (j : ℕ)
      → j < (m new).toplevel
      → ((filled new).next j ≡ succs j)
        × ((filled (preds j)).next j ≡ succs j)
        × (is_marked (succs j) ≡ false)
        × (((filled (succs j)).key == key) ≡ false)
  filled-ready from_low absent other j below =
      let (even, flag, some_level, le) = is in
      let lt : j < levelmax = omega (arith, below, le) in
      let (k, v, d, h) = fill_levels-SameFields (m new).toplevel m new succs (succs j) in
      (
        filled-next j (ground (arith, below)),
        rw (filled-other (preds j) (other j lt)) (from_low j lt),
        succs-even j lt,
        rw k (absent j lt),
      )
