-- ===== src/Harris/Hazard/Gap.antt =====
-- src/linkedlist-harris-hp/harris_opt.c: a search that skips a deleted node gives the hazard pointer of
-- the node on the left away.
use qsense.Prelude.{
  ℕ, zero, suc, ◌+◌, ◌-◌, ◌<◌, ◌≤◌, ◌≡◌, ◌≢◌, refl, ◌∙◌, sym, true, false, some, List, [], ◌∷◌,
  arith, ◌==◌, leb, length, if◌then◌else◌, Bool-cases, inl, inr,
}
use qsense.DoubleLlist.{Ptr}
use qsense.Harris.{Heap, get_unmarked_ref, set_next}
use qsense.Harris.Find.{is_live}
use qsense.Harris.Agree.{Agree, set_next-Agree}
use qsense.Harris.Walk.{taken, IsSearchable, Heads, walk}
use qsense.Harris.Hazard.{Place, search_loop, list_search}
use qsense.Harris.Hazard.Quiet.{quiet_rounds, round_stop, round_onward, round_around}

-- The last node that a search for `key` looks at before the one that it returns on the right; `prev`
-- is the last one so far.
abbrev pub last_seen : Heap → (key : ℕ) → (prev : Ptr) → List Ptr → Ptr
last_seen m key prev [] = prev
last_seen m key prev (a ∷ ns) =
    if is_live m a
    then (if leb key (m a).key then prev else last_seen m key a ns)
    else last_seen m key a ns

last_seen-Agree :
    (m m1 : Heap) (key : ℕ) (prev : Ptr) (ns : List Ptr)
    → Agree m m1
    → last_seen m1 key prev ns ≡ last_seen m key prev ns
last_seen-Agree m m1 key prev [] g = refl
last_seen-Agree m m1 key prev (a ∷ ns) g =
    rw (g.keys a) (rw (g.marks a) (rw (last_seen-Agree m m1 key a ns g) refl))

module _ {S : Type 0} (set_hp : ℕ → Ptr → S → S) (retire : Ptr → S → S) (hp : S → ℕ → Ptr)
    (hp-set_hp : (i : ℕ) (p : Ptr) (s : S) (j : ℕ)
      → hp (set_hp i p s) j ≡ (if i == j then p else hp s j))
    (hp-retire : (q : Ptr) (s : S) (j : ℕ) → hp (retire q s) j ≡ hp s j) (key : ℕ) (head : Ptr)
    (base : ℕ) where
  set_self : (o : ℕ) (p : Ptr) (s : S) → hp (set_hp (base + o) p s) (base + o) ≡ p
  set_self o p s =
      let here : (base + o == base + o) ≡ true = ground arith in
      hp-set_hp (base + o) p s (base + o) ∙ rw here refl

  set_other :
      (o : ℕ) (p : Ptr) (s : S)
      → o < 2
      → hp (set_hp (base + o) p s) (base + (1 - o)) ≡ hp s (base + (1 - o))
  set_other o p s lt =
      let there : (base + o == base + (1 - o)) ≡ false = ground (arith, lt) in
      hp-set_hp (base + o) p s (base + (1 - o)) ∙ rw there refl

  -- A place where a search ends: one hazard pointer holds the node on the right, the other the node
  -- `last` that was looked at before, if that is deleted; the node on the left is live, and its key is
  -- below that of the right one.
  record Ends (m : Heap) (last : Ptr) (p : Place S) : Type 0 where
    slot : p.offset < 2
    right_held : hp p.world.1 (base + (1 - p.offset)) ≡ p.right_node
    last_held : is_live m last ≡ false → hp p.world.1 (base + p.offset) ≡ last
    left_live : is_live m p.left_node ≡ true
    left_below : (m p.left_node).key < key
    right_above : key ≤ (m p.right_node).key

  Searches : Heap → Ptr → ℕ → List Ptr → List Ptr → Type 0
  Searches m left r ns qs =
      (s : S) (o fuel : ℕ) (prev : Ptr)
      → length ns < fuel
      → o < 2
      → is_live m left ≡ true
      → (m left).key < key
      → (is_live m prev ≡ false → hp s (base + (1 - o)) ≡ prev)
      → (p : Place S) × (search_loop set_hp retire (quiet_rounds fuel) key head base o left r (m, s)
          ≡ some p)
        × Ends m (last_seen m key prev ns) p

  last_seen-Heads :
      (m : Heap) (prev a : Ptr) (ns : List Ptr)
      → is_live m a ≡ true
      → leb key (m a).key ≡ true
      → Heads a ns
      → last_seen m key prev ns ≡ prev
  last_seen-Heads m prev a [] live done first = refl
  last_seen-Heads m prev a (b ∷ ns) live done first = rw first (rw live (rw done refl))

  at_end :
      (m : Heap) (left a : Ptr) (ns : List Ptr)
      → (m left).next ≡ a
      → is_live m a ≡ true
      → leb key (m a).key ≡ true
      → Heads a ns
      → Searches m left a ns []
  unfolding Searches
  at_end m left a ns e live done first s o zero prev lt small ll low held = absurd (omega arith)
  at_end m left a ns e live done first s o (suc fuel) prev lt small ll low held =
      let before : last_seen m key prev ns ≡ prev = last_seen-Heads m prev a ns live done first in
      (
        record {
          left_node = left;
          right_node = a;
          offset = 1 - o;
          world = (m, set_hp (base + o) a s);
        },
        round_stop set_hp retire (quiet_rounds fuel) key head base o left a m s e live done,
        record {
          slot = omega (arith, small);
          right_held =
              let back : 1 - (1 - o) ≡ o = omega (arith, small) in rw back (set_self o a s);
          last_held = rw before (λ dead. set_other o a s small ∙ held dead);
          left_live = ll;
          left_below = low;
          right_above = ground (arith, done);
        },
      )

  ahead :
      (m : Heap) (left a : Ptr) (ns qs : List Ptr)
      → (m left).next ≡ a
      → is_live m a ≡ true
      → leb key (m a).key ≡ false
      → Searches m a (get_unmarked_ref (m a).next) ns qs
      → Searches m left a (a ∷ ns) qs
  unfolding Searches
  ahead m left a ns qs e live go rest s o zero prev lt small ll low held = absurd (omega arith)
  ahead m left a ns qs e live go rest s o (suc fuel) prev lt small ll low held =
      let back : 1 - (1 - o) ≡ o = omega (arith, small) in
      let (p, found, ends) =
        rest (set_hp (base + o) a s) (1 - o) fuel a (omega arith) (omega (arith, small)) live
          (ground (arith, go)) (λ dead. rw back (set_self o a s)) in
      (
        p,
        round_onward set_hp retire (quiet_rounds fuel) key head base o left a m s e live go ∙ found,
        rw live (rw go ends),
      )

  past :
      (m : Heap) (left a : Ptr) (ns qs : List Ptr)
      → (m left).next ≡ a
      → is_live m a ≡ false
      → left ≢ a
      → is_live m left ≡ true
      → Searches
          (set_next m left (get_unmarked_ref (m a).next))
          left
          (get_unmarked_ref (m a).next)
          ns
          qs
      → Searches m left a (a ∷ ns) (a ∷ qs)
  unfolding Searches
  past m left a ns qs e dead other live rest s o zero prev lt small ll low held =
      absurd (omega arith)
  past m left a ns qs e dead other live rest s o (suc fuel) prev lt small ll low held =
      let back : 1 - (1 - o) ≡ o = omega (arith, small) in
      let g = set_next-Agree m left (m a).next live in
      let s1 = set_hp (base + o) a s in
      let (p, found, ends) =
        rest (retire a s1) (1 - o) fuel a (omega arith) (omega (arith, small)) (g.marks left ∙ live)
          (omega (arith, g.keys left, low))
          (λ gone. rw back (hp-retire a s1 (base + o) ∙ set_self o a s)) in
      let last = last_seen-Agree m (set_next m left (get_unmarked_ref (m a).next)) key a ns g in
      (
        p,
        round_around set_hp retire (quiet_rounds fuel) key head base o left a m s e dead other
            ∙ found,
        rw dead (record {
          slot = ends.slot;
          right_held = ends.right_held;
          last_held = λ gone. ends.last_held (g.marks _ ∙ rw last gone) ∙ last;
          left_live = sym (g.marks p.left_node) ∙ ends.left_live;
          left_below = omega (arith, g.keys p.left_node, ends.left_below);
          right_above = omega (arith, g.keys p.right_node, ends.right_above);
        }),
      )

  -- While no other thread acts, a search of a searchable list in which the last node before the right one
  -- is deleted comes back with a live node on the left that neither of its hazard pointers holds.
  pub list_search-bare :
      (t : Ptr) (ns : List Ptr) (m : Heap) (s : S) (fuel : ℕ)
      → IsSearchable key t m head (m head).next ns
      → length ns < fuel
      → is_live m (last_seen m key head ns) ≡ false
      → (p : Place S) × (list_search set_hp retire (quiet_rounds fuel) key head base (m, s)
          ≡ some p)
        × (is_live m p.left_node ≡ true)
        × ((i : ℕ) → i < 2 → hp p.world.1 (base + i) ≢ p.left_node)
  unfolding list_search Searches
  list_search-bare t ns m s fuel h lt gone =
      let found : Searches m head (m head).next ns (taken m key ns) =
        walk key t Searches at_end ahead past ns m head (m head).next h in
      let (p, e, ends) =
        found s 0 fuel head lt (omega arith) h.left_live h.low
          (λ dead. absurd (ground (arith, dead, h.left_live))) in
      (
        p,
        e,
        ends.left_live,
        λ i small same. elim (Bool-cases (i == p.offset)) [
          | inl here ↦
              let at : i ≡ p.offset = ground arith in
              let is_last : p.left_node ≡ last_seen m key head ns =
                sym (rw at at same) ∙ ends.last_held gone in
              absurd (ground (arith, ends.left_live, gone, is_last))
          | inr there ↦
              let at : i ≡ 1 - p.offset = ground (arith, small, ends.slot) in
              let is_right : p.left_node ≡ p.right_node = sym (rw at at same) ∙ ends.right_held in
              absurd (ground (arith, ends.left_below, ends.right_above, is_right))
        ],
      )
