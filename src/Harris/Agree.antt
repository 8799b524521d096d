-- ===== src/Harris/Agree.antt =====
-- src/linkedlist-harris/harris_opt.c: changes to the heap that keep the set, and the nodes that a search
-- takes out.
use qsense.Prelude.{
  ℕ, ◌≤◌, ◌≡◌, ◌≢◌, ◌⊎◌, refl, ◌∙◌, sym, ap, subst, true, not, List, [], ◌∷◌, arith, ◌==◌, leb,
  if◌then◌else◌, put_self, put_ne, Bool-cases, inl, inr,
}
use qsense.DoubleLlist.{Ptr}
use qsense.Harris.{Node, Heap, is_marked_ref, get_unmarked_ref, set_next}
use qsense.Harris.Find.{IsChain, IsAscending, is_live, value_of}

-- Two heaps that differ at most in where unmarked and marked references point.
pub record Agree (m m1 : Heap) : Type 0 where
  pub keys : (a : Ptr) → (m1 a).key ≡ (m a).key
  pub vals : (a : Ptr) → (m1 a).val ≡ (m a).val
  pub marks : (a : Ptr) → is_live m1 a ≡ is_live m a

pub Agree-trans : (m m1 m2 : Heap) → Agree m m1 → Agree m1 m2 → Agree m m2
Agree-trans m m1 m2 p q = record {
  keys = λ a. q.keys a ∙ p.keys a;
  vals = λ a. q.vals a ∙ p.vals a;
  marks = λ a. q.marks a ∙ p.marks a;
}

pub value_of-Agree :
    (m m1 : Heap) (k : ℕ) (ns : List Ptr) → Agree m m1 → value_of m1 k ns ≡ value_of m k ns
value_of-Agree m m1 k [] g = refl
value_of-Agree m m1 k (a ∷ ns) g =
    rw (g.keys a) (rw (g.marks a) (rw (g.vals a) (rw (value_of-Agree m m1 k ns g) refl)))

pub IsAscending-Agree :
    (m m1 : Heap) (lo : ℕ) (ns : List Ptr) → Agree m m1 → IsAscending m lo ns → IsAscending m1 lo ns
IsAscending-Agree m m1 lo [] g up = tt
IsAscending-Agree m m1 lo (a ∷ ns) g (lt, up) =
    rw (g.keys a) (lt, IsAscending-Agree m m1 (m a).key ns g up)

pub IsAscending-weaken :
    (m : Heap) (lo hi : ℕ) (ns : List Ptr) → lo ≤ hi → IsAscending m hi ns → IsAscending m lo ns
IsAscending-weaken m lo hi [] le up = tt
IsAscending-weaken m lo hi (a ∷ ns) le (lt, up) = (omega arith, up)

-- The nodes that a search for `key` leaves: it takes out those that are marked before it stops.
abbrev pub swept : Heap → (key : ℕ) → List Ptr → List Ptr
swept m key [] = []
swept m key (a ∷ ns) =
    if is_live m a
    then (if leb key (m a).key then a ∷ ns else a ∷ swept m key ns)
    else swept m key ns

pub swept-Agree :
    (m m1 : Heap) (key : ℕ) (ns : List Ptr) → Agree m m1 → swept m1 key ns ≡ swept m key ns
swept-Agree m m1 key [] g = refl
swept-Agree m m1 key (a ∷ ns) g =
    rw (g.keys a) (rw (g.marks a) (rw (swept-Agree m m1 key ns g) refl))

-- Taking out marked nodes changes no value.
pub value_of-swept :
    (m : Heap) (k key : ℕ) (ns : List Ptr) → value_of m k (swept m key ns) ≡ value_of m k ns
value_of-swept m k key [] = refl
value_of-swept m k key (a ∷ ns) = ground (arith, value_of-swept m k key ns)

-- A write to a node below the list leaves the chain.
pub IsChain-set_next :
    (m : Heap) (left r1 r : ℕ) (ns : List Ptr) (t : Ptr) (lo : ℕ)
    → (m left).key ≤ lo
    → IsAscending m lo ns
    → IsChain m r ns t
    → IsChain (set_next m left r1) r ns t
IsChain-set_next m left r1 r [] t lo le up c = c
IsChain-set_next m left r1 r (a ∷ ns) t lo le (lt, up) (e, c) =
    let other : left ≢ a = λ same. absurd (omega (arith, ap (λ b. (m b).key) same)) in
    (
      e,
      subst (λ n. IsChain (set_next m left r1) (get_unmarked_ref n.next) ns t)
          (sym (put_ne m left _ a other))
          (IsChain-set_next m left r1 (get_unmarked_ref (m a).next) ns t (m a).key (omega arith) up
            c),
    )

-- A write of an unmarked reference to an unmarked node.
pub set_next-Agree :
    (m : Heap) (left r : ℕ) → is_live m left ≡ true → Agree m (set_next m left (get_unmarked_ref r))
set_next-Agree m left r live =
    let n : Node = record (m left) { next = get_unmarked_ref r } in
    let at : (a : Ptr) → (a ≡ left) ⊎ (set_next m left (get_unmarked_ref r) a ≡ m a) = λ a.
      elim (Bool-cases (left == a)) [
        | inl here ↦ let same : a ≡ left = ground arith in inl same
        | inr other ↦ inr (put_ne m left n a (ground arith))
      ] in
    let self = put_self m left n in
    record {
      keys = λ a. elim (at a) [
        | inl same ↦ rw same (ap (λ x. x.key) self)
        | inr kept ↦ ap (λ x. x.key) kept
      ];
      vals = λ a. elim (at a) [
        | inl same ↦ rw same (ap (λ x. x.val) self)
        | inr kept ↦ ap (λ x. x.val) kept
      ];
      marks = λ a. elim (at a) [
        | inl same ↦
            let unmarked : not (is_marked_ref (get_unmarked_ref r)) ≡ true = ground arith in
            rw same (ap (λ x. not (is_marked_ref x.next)) self ∙ unmarked ∙ sym live)
        | inr kept ↦ ap (λ x. not (is_marked_ref x.next)) kept
      ];
    }
