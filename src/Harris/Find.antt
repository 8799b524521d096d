-- ===== src/Harris/Find.antt =====
-- src/linkedlist-harris/harris_opt.c: `harris_find` and `set_size` on a list in the heap.
use qsense.Prelude.{
  ℕ, zero, suc, ◌<◌, ◌≤◌, ◌≡◌, refl, ap, Bool, false, not, ◌&&◌, some, List, [], ◌∷◌, arith, ◌==◌,
  ltb, if◌then◌else◌, length, Bool-cases, inl, inr,
}
use qsense.DoubleLlist.{Ptr}
use qsense.Harris.{Heap, is_marked_ref, get_unmarked_ref, find_loop, harris_find}

-- The nodes from reference `r` to the last sentinel `t`, marked ones included.
abbrev pub IsChain : Heap → (r : ℕ) → List Ptr → (t : Ptr) → Type 0
IsChain m r [] t = r ≡ t
IsChain m r (a ∷ ns) t = (r ≡ a) × IsChain m (get_unmarked_ref (m a).next) ns t

-- Their keys ascend from above `lo`.
abbrev pub IsAscending : Heap → (lo : ℕ) → List Ptr → Type 0
IsAscending m lo [] = Unit
IsAscending m lo (a ∷ ns) = (lo < (m a).key) × IsAscending m (m a).key ns

-- A node that is not logically deleted.
abbrev pub is_live : Heap → Ptr → Bool
is_live m a = not (is_marked_ref (m a).next)

-- The value of the live node with a key, or 0.
abbrev pub value_of : Heap → (key : ℕ) → List Ptr → ℕ
value_of m key [] = 0
value_of m key (a ∷ ns) = if ((m a).key == key) && is_live m a then (m a).val else value_of m key ns

value_of-above :
    (m : Heap) (key lo : ℕ) (ns : List Ptr) → key ≤ lo → IsAscending m lo ns → value_of m key ns ≡ 0
value_of-above m key lo [] le up = refl
value_of-above m key lo (a ∷ ns) le (lt, up) =
    let rest = value_of-above m key (m a).key ns (omega arith) up in
    let other : ((m a).key == key) ≡ false = ground arith in rw other rest

-- What `harris_find` makes of the node that its loop stops at.
abbrev answer : Heap → (key : ℕ) → Ptr → ℕ
answer m key node = if ((m node).key == key) && is_live m node then (m node).val else 0

find_loop-value_of :
    (m : Heap) (key : ℕ) (t : Ptr) (ns : List Ptr) (r lo fuel : ℕ)
    → IsChain m r ns t
    → IsAscending m lo ns
    → key < (m t).key
    → length ns < fuel
    → (node : Ptr) × (find_loop fuel m key r ≡ some node) × (answer m key node ≡ value_of m key ns)
unfolding find_loop
find_loop-value_of m key t [] r lo zero c up end lt = absurd (omega arith)
find_loop-value_of m key t [] r lo (suc fuel) c up end lt =
    let stop : ltb (m r).key key ≡ false = rw c (ground arith) in
    let other : ((m r).key == key) ≡ false = rw c (ground arith) in (r, rw stop refl, rw other refl)
find_loop-value_of m key t (a ∷ ns) r lo zero c up end lt = absurd (omega arith)
find_loop-value_of m key t (a ∷ ns) r lo (suc fuel) (e, c) (low, up) end lt =
    elim (Bool-cases (ltb (m a).key key)) [
      | inl before ↦
          let other : ((m a).key == key) ≡ false = ground arith in
          let (node, found, ans) =
            find_loop-value_of m key t ns (get_unmarked_ref (m a).next) (m a).key fuel c up end
              (omega arith) in
          (node, rw e (rw before found), rw other ans)
      | inr reached ↦
          let rest = value_of-above m key (m a).key ns (ground arith) up in
          (a, rw e (rw reached refl), rw rest refl)
    ]

-- On an ascending list that ends in a sentinel above the key, harris_find returns the value of the
-- live node with the key, or 0 if there is none, with fuel for each of its nodes and one more.
harris_find-value_of :
    (m : Heap) (head : Ptr) (key : ℕ) (ns : List Ptr) (t : Ptr) (lo fuel : ℕ)
    → IsChain m (m head).next ns t
    → IsAscending m lo ns
    → key < (m t).key
    → length ns < fuel
    → harris_find fuel m head key ≡ some (value_of m key ns)
unfolding harris_find
harris_find-value_of m head key ns t lo fuel c up end lt =
    let (node, found, ans) = find_loop-value_of m key t ns (m head).next lo fuel c up end lt in
    rw (found, harris_find) (ap some ans)
