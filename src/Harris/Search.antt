-- ===== src/Harris/Search.antt =====
-- src/linkedlist-harris/harris_opt.c: what `list_search` finds, what it takes out of the list, and that
-- the set stays the same.
use qsense.Prelude.{
  ℕ, zero, suc, ◌<◌, ◌≤◌, ◌≡◌, ◌≢◌, ◌⊎◌, refl, ◌∙◌, sym, ap, subst, true, false, some, List, [],
  ◌∷◌, arith, ◌==◌, leb, length, put_self, put_ne, Bool-cases, inl, inr,
}
use qsense.DoubleLlist.{Ptr}
use qsense.Harris.{Heap, get_unmarked_ref, set_next, search_loop, list_search}
use qsense.Harris.Find.{IsChain, IsAscending, is_live, value_of}
use qsense.Harris.Agree.{
  Agree, Agree-trans, value_of-Agree, IsAscending-Agree, IsAscending-weaken, swept, swept-Agree,
  value_of-swept, IsChain-set_next, set_next-Agree,
}

-- What a search that starts behind `left` brings.
record Found (m : Heap) (key : ℕ) (left : Ptr) (ns : List Ptr) (t l1 r1 : Ptr) (m1 : Heap)
    : Type 0 where
  agree : Agree m m1
  frame : (b : Ptr) → (m b).key < (m left).key → m1 b ≡ m b
  adjacent : (m1 l1).next ≡ r1
  upper : key ≤ (m1 r1).key
  lower : (l1 ≡ left) ⊎ ((m1 l1).key < key)
  right_live : is_live m1 r1 ≡ true
  chain : IsChain m1 (m1 left).next (swept m key ns) t

-- The search stands on the last sentinel, or on the first live node with a key that is not smaller.
Found-stop :
    (m : Heap) (key : ℕ) (left : Ptr) (ns : List Ptr) (t r : Ptr)
    → (m left).next ≡ r
    → is_live m r ≡ true
    → key ≤ (m r).key
    → IsChain m r (swept m key ns) t
    → Found m key left ns t left r m
Found-stop m key left ns t r e live le c = record {
  agree = record { keys = λ a. refl; vals = λ a. refl; marks = λ a. refl };
  frame = λ b lt. refl;
  adjacent = e;
  upper = le;
  lower = inl refl;
  right_live = live;
  chain = subst (λ x. IsChain m x (swept m key ns) t) (sym e) c;
}

pub search_loop_stop :
    (m : Heap) (key : ℕ) (left a : Ptr) (fuel : ℕ)
    → is_live m a ≡ true
    → leb key (m a).key ≡ true
    → search_loop (suc fuel) m key left a ≡ some (left, a, m)
unfolding search_loop
search_loop_stop m key left a fuel live stop = rw live (rw stop refl)

pub search_loop_onward :
    (m : Heap) (key : ℕ) (left a : Ptr) (fuel : ℕ)
    → is_live m a ≡ true
    → leb key (m a).key ≡ false
    → search_loop (suc fuel) m key left a ≡ search_loop fuel m key a (get_unmarked_ref (m a).next)
unfolding search_loop
search_loop_onward m key left a fuel live go = rw live (rw go refl)

pub search_loop_around :
    (m : Heap) (key : ℕ) (left a : Ptr) (fuel : ℕ)
    → is_live m a ≡ false
    → (m left).next ≡ a
    → left ≢ a
    → search_loop (suc fuel) m key left a
      ≡ search_loop fuel
          (set_next m left (get_unmarked_ref (m a).next))
          key
          left
          (get_unmarked_ref (m a).next)
unfolding search_loop
search_loop_around m key left a fuel dead e other =
    let hit : ((m left).next == a) ≡ true = ground arith in
    let same = put_ne m left (record (m left) { next = get_unmarked_ref (m a).next }) a other in
    rw dead (
      rw hit (
        ap
          (λ n.
            search_loop fuel (set_next m left (get_unmarked_ref (m a).next)) key left
              (get_unmarked_ref n.next))
          same))

-- Behind a live node whose key is too small.
Found-onward :
    (m : Heap) (key : ℕ) (left a : Ptr) (ns : List Ptr) (t l1 r1 : Ptr) (m1 : Heap)
    → (m left).next ≡ a
    → is_live m a ≡ true
    → leb key (m a).key ≡ false
    → (m left).key < (m a).key
    → Found m key a ns t l1 r1 m1
    → Found m key left (a ∷ ns) t l1 r1 m1
Found-onward m key left a ns t l1 r1 m1 e live go lt f =
    let still : m1 left ≡ m left = f.frame left lt in
    let g = f.agree in
    let even : get_unmarked_ref (m1 a).next ≡ (m1 a).next =
      let unmarked : is_live m1 a ≡ true = g.marks a ∙ live in ground (arith, unmarked) in
    record {
      agree = g;
      frame = λ b less. f.frame b (omega arith);
      adjacent = f.adjacent;
      upper = f.upper;
      lower = elim f.lower [
        | inl at ↦ inr (subst (λ x. (m1 x).key < key) (sym at) (ground (arith, g.keys a)))
        | inr below ↦ inr below
      ];
      right_live = f.right_live;
      chain = rw live (
          rw go (
            ap (λ n. n.next) still ∙ e,
            subst (λ x. IsChain m1 x (swept m key ns) t) (sym even) f.chain,
          ));
    }

-- Behind a marked node that the search has taken out.
Found-around :
    (m m0 : Heap) (key : ℕ) (left a : Ptr) (ns : List Ptr) (t l1 r1 : Ptr) (m1 : Heap)
    → Agree m m0
    → ((b : Ptr) → (m b).key < (m left).key → m0 b ≡ m b)
    → is_live m a ≡ false
    → Found m0 key left ns t l1 r1 m1
    → Found m key left (a ∷ ns) t l1 r1 m1
Found-around m m0 key left a ns t l1 r1 m1 g kept dead f = record {
  agree = Agree-trans m m0 m1 g f.agree;
  frame = λ b less. f.frame b (omega (arith, g.keys b, g.keys left)) ∙ kept b less;
  adjacent = f.adjacent;
  upper = f.upper;
  lower = f.lower;
  right_live = f.right_live;
  chain =
      rw dead (subst (λ xs. IsChain m1 (m1 left).next xs t) (swept-Agree m m0 key ns g) f.chain);
}

search_loop-Found :
    (key : ℕ) (t : Ptr) (ns : List Ptr) (m : Heap) (left r fuel : ℕ)
    → (m left).next ≡ r
    → is_live m left ≡ true
    → IsChain m r ns t
    → IsAscending m (m left).key ns
    → (m left).key < key
    → key ≤ (m t).key
    → is_live m t ≡ true
    → length ns < fuel
    → (l1 : Ptr) × (r1 : Ptr) × (m1 : Heap) × (search_loop fuel m key left r ≡ some (l1, r1, m1))
      × Found m key left ns t l1 r1 m1
search_loop-Found key t ns m left r zero e live c up low end tlive lt = absurd (omega arith)
search_loop-Found key t [] m left r (suc fuel) e live c up low end tlive lt =
    let r_live : is_live m r ≡ true = rw c tlive in
    let le : key ≤ (m r).key = rw c end in
    (
      left,
      r,
      m,
      search_loop_stop m key left r fuel r_live (ground (arith, le)),
      Found-stop m key left [] t r e r_live le c,
    )
search_loop-Found key t (a ∷ ns) m left r (suc fuel) e live (here, c) (gt, up) low end tlive lt =
    let start = ap (search_loop (suc fuel) m key left) here in
    let right = get_unmarked_ref (m a).next in
    elim (Bool-cases (is_live m a)) [
      | inl a_live ↦ elim (Bool-cases (leb key (m a).key)) [
        | inl reached ↦ (
          left,
          a,
          m,
          start ∙ search_loop_stop m key left a fuel a_live reached,
          Found-stop m key left (a ∷ ns) t a (e ∙ here) a_live (ground arith)
              (rw a_live (rw reached (refl, c))),
        )
        | inr before ↦
            let even : (m a).next ≡ right = ground (arith, a_live) in
            let (l1, r1, m1, run, f) =
              search_loop-Found key t ns m a right fuel even a_live c up (ground arith) end tlive
                (omega arith) in
            (
              l1,
              r1,
              m1,
              start ∙ search_loop_onward m key left a fuel a_live before ∙ run,
              Found-onward m key left a ns t l1 r1 m1 (e ∙ here) a_live before gt f,
            )
      ]
      | inr dead ↦
          let m0 = set_next m left right in
          let g = set_next-Agree m left (m a).next live in
          let other : left ≢ a = λ same. absurd (omega (arith, ap (λ b. (m b).key) same)) in
          let self = put_self m left (record (m left) { next = right }) in
          let up0 = IsAscending-Agree m m0 (m a).key ns g up in
          let (l1, r1, m1, run, f) =
            search_loop-Found key t ns m0 left right fuel (ap (λ n. n.next) self)
              (g.marks left ∙ live)
              (IsChain-set_next m left right right ns t (m a).key (omega arith) up c)
              (rw (g.keys left) (IsAscending-weaken m0 (m left).key (m a).key ns (omega arith) up0))
              (omega (arith, g.keys left)) (omega (arith, g.keys t)) (g.marks t ∙ tlive)
              (omega arith) in
          (
            l1,
            r1,
            m1,
            start ∙ search_loop_around m key left a fuel dead (e ∙ here) other ∙ run,
            Found-around m m0 key left a ns t l1 r1 m1 g
                (λ b less.
                  put_ne m left (record (m left) { next = right }) b
                    (λ same. absurd (omega (arith, ap (λ x. (m x).key) same))))
                dead f,
          )
    ]

-- In a list that ascends from an unmarked head to an unmarked last sentinel, list_search for a key
-- between them ends, with fuel for each node and one more. It returns neighbours, the left one with a smaller
-- key, the right one unmarked with a key at least as large; it takes out of the list only the marked
-- nodes before the key, and every key keeps its value.
pub list_search-neighbours :
    (m : Heap) (head : Ptr) (key : ℕ) (ns : List Ptr) (t : Ptr) (fuel : ℕ)
    → is_live m head ≡ true
    → IsChain m (m head).next ns t
    → IsAscending m (m head).key ns
    → (m head).key < key
    → key ≤ (m t).key
    → is_live m t ≡ true
    → length ns < fuel
    → (l1 : Ptr) × (r1 : Ptr) × (m1 : Heap) × (list_search fuel m head key ≡ some (l1, r1, m1))
      × ((m1 l1).next ≡ r1)
      × ((m1 l1).key < key)
      × (key ≤ (m1 r1).key)
      × (is_live m1 r1 ≡ true)
      × IsChain m1 (m1 head).next (swept m key ns) t
      × ((k : ℕ) → value_of m1 k (swept m key ns) ≡ value_of m k ns)
unfolding list_search
list_search-neighbours m head key ns t fuel live c up low end tlive lt =
    let (l1, r1, m1, run, f) =
      search_loop-Found key t ns m head (m head).next fuel refl live c up low end tlive lt in
    let less : (m1 l1).key < key = elim f.lower [
      | inl at ↦ rw at (omega (arith, f.agree.keys head))
      | inr below ↦ below
    ] in
    (
      l1,
      r1,
      m1,
      run,
      f.adjacent,
      less,
      f.upper,
      f.right_live,
      f.chain,
      λ k. value_of-Agree m m1 k (swept m key ns) f.agree ∙ value_of-swept m k key ns,
    )
