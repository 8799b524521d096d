-- ===== src/Harris/Walk.antt =====
-- src/linkedlist-harris/harris_opt.c: induction along the walk of `list_search` over a list, which its
-- variants with reclamation share.
use qsense.Prelude.{
  ℕ, ◌≤◌, ◌<◌, ◌≡◌, ◌≢◌, refl, ◌∙◌, sym, ap, subst, true, false, List, [], ◌∷◌, arith, leb,
  put_self, if◌then◌else◌, Bool-cases, inl, inr,
}
use qsense.DoubleLlist.{Ptr}
use qsense.Harris.{Heap, get_unmarked_ref, set_next}
use qsense.Harris.Find.{is_live, IsChain, IsAscending}
use qsense.Harris.Agree.{
  Agree, IsAscending-weaken, set_next-Agree, IsAscending-Agree, IsChain-set_next,
}

-- The marked nodes that a search for `key` meets before it stops.
abbrev pub taken : Heap → (key : ℕ) → List Ptr → List Ptr
taken m key [] = []
taken m key (a ∷ ns) =
    if is_live m a then (if leb key (m a).key then [] else taken m key ns) else a ∷ taken m key ns

taken-Agree :
    (m m1 : Heap) (key : ℕ) (ns : List Ptr) → Agree m m1 → taken m1 key ns ≡ taken m key ns
taken-Agree m m1 key [] g = refl
taken-Agree m m1 key (a ∷ ns) g =
    rw (g.keys a) (rw (g.marks a) (rw (taken-Agree m m1 key ns g) refl))

-- A search for `key` between an unmarked node and an unmarked last sentinel `t`.
pub record IsSearchable (key : ℕ) (t : Ptr) (m : Heap) (left : Ptr) (r : ℕ) (ns : List Ptr)
    : Type 0 where
  pub linked : (m left).next ≡ r
  pub left_live : is_live m left ≡ true
  pub chain : IsChain m r ns t
  pub ascending : IsAscending m (m left).key ns
  pub low : (m left).key < key
  pub high : key ≤ (m t).key
  pub end_live : is_live m t ≡ true

-- What a search at `a` has before it: nothing, or a list from `a` on.
abbrev pub Heads : Ptr → List Ptr → Type 0
Heads a [] = Unit
Heads a (b ∷ ns) = b ≡ a

-- `P m left r ns qs` is about a search from `left` and `r` over `ns` that meets the marked nodes `qs`.
module _ (key : ℕ) (t : Ptr) (P : Heap → Ptr → ℕ → List Ptr → List Ptr → Type 0)
    (stop : (m : Heap) (left a : Ptr) (ns : List Ptr)
      → (m left).next ≡ a
      → is_live m a ≡ true
      → leb key (m a).key ≡ true
      → Heads a ns
      → P m left a ns [])
    (onward : (m : Heap) (left a : Ptr) (ns qs : List Ptr)
      → (m left).next ≡ a
      → is_live m a ≡ true
      → leb key (m a).key ≡ false
      → P m a (get_unmarked_ref (m a).next) ns qs
      → P m left a (a ∷ ns) qs)
    (around : (m : Heap) (left a : Ptr) (ns qs : List Ptr)
      → (m left).next ≡ a
      → is_live m a ≡ false
      → left ≢ a
      → is_live m left ≡ true
      → P (set_next m left (get_unmarked_ref (m a).next)) left (get_unmarked_ref (m a).next) ns qs
      → P m left a (a ∷ ns) (a ∷ qs)) where
  pub walk :
      (ns : List Ptr) (m : Heap) (left r : ℕ)
      → IsSearchable key t m left r ns
      → P m left r ns (taken m key ns)
  walk [] m left r h =
      let at : r ≡ t = h.chain in
      stop m left r [] h.linked (rw at h.end_live)
        (let le : key ≤ (m r).key = rw at h.high in ground (arith, le)) tt
  walk (a ∷ ns) m left r h =
      let (here, c) = h.chain in
      let (gt, up) = h.ascending in
      let link = h.linked ∙ here in
      let right = get_unmarked_ref (m a).next in
      subst (λ x. P m left x (a ∷ ns) (taken m key (a ∷ ns))) (sym here)
        (elim (Bool-cases (is_live m a)) [
          | inl live ↦ elim (Bool-cases (leb key (m a).key)) [
            | inl reached ↦ rw live (rw reached (stop m left a (a ∷ ns) link live reached refl))
            | inr before ↦ rw live (
                rw before (
                  onward m left a ns (taken m key ns) link live before (
                    walk ns m a right (record {
                      linked = ground (arith, live);
                      left_live = live;
                      chain = c;
                      ascending = up;
                      low = ground arith;
                      high = h.high;
                      end_live = h.end_live;
                    }))))
          ]
          | inr dead ↦
              let m0 = set_next m left right in
              let g = set_next-Agree m left (m a).next h.left_live in
              let other : left ≢ a = λ same. absurd (omega (arith, ap (λ b. (m b).key) same)) in
              let self = put_self m left (record (m left) { next = right }) in
              let up0 = IsAscending-Agree m m0 (m a).key ns g up in
              let rest : P m0 left right ns (taken m0 key ns) = walk ns m0 left right (record {
                linked = ap (λ n. n.next) self;
                left_live = g.marks left ∙ h.left_live;
                chain = IsChain-set_next m left right right ns t (m a).key (omega arith) up c;
                ascending =
                    rw (g.keys left)
                      (IsAscending-weaken m0 (m left).key (m a).key ns (omega arith) up0);
                low = omega (arith, g.keys left, h.low);
                high = omega (arith, g.keys t, h.high);
                end_live = g.marks t ∙ h.end_live;
              }) in
              rw dead (
                around m left a ns (taken m key ns) link dead other h.left_live
                  (subst (λ qs. P m0 left right ns qs) (taken-Agree m m0 key ns g) rest))
        ])
