-- ===== src/Fraser/Hazard/Qsense.antt =====
-- src/skiplist-fraser-qsense: the skip list with hazard pointers over the hybrid scheme. Its text is that of
-- Hazard, with the hybrid scheme's `HP`, `free_node_later` and `allocate_fail`.
use qsense.Prelude.{
  ℕ, suc, ltb, length, ◌+◌, ◌*◌, ◌<◌, ◌≤◌, ◌≡◌, refl, ◌∙◌, true, false, Bool, Option, some, List,
  [], ◌∷◌, put, arith,
}
use qsense.DoubleLlist.{Ptr}
use qsense.Hybrid.State.{TimeVal, MrNode, Hybrid, k}
use qsense.Hybrid.Hazards.{free_node_later}
use qsense.Harris.Qsense
use qsense.Fraser.{Heap, nowhere, is_marked, get_unmarked}
use qsense.Fraser.Levels.{IsLevel, Ascends}
use qsense.Fraser.Search.{below_key, from_key, descend-arrived}
use qsense.Fraser.Descend.{written, unlinked}
use qsense.Fraser.Quiet.{written-get}
use qsense.Fraser.Hazard.Calm
use qsense.Fraser.Hazard.Calm.{Resting}
use qsense.Fraser.Hazard
use qsense.Fraser.Hazard.{World, Others, Found}
use qsense.Fraser.Hazard.Update
use qsense.Fraser.Hazard.Update.{Try}
use qsense.Fraser.Hazard.Hold
use qsense.Fraser.Hazard.Hold.{Keep}

-- Thread `me`; `clock` is for the scans, `wrapper q` is the block that wraps node `q` when it is retired, at the
-- time `now q`.
module _ (clock : MrNode → TimeVal) (wrapper : Ptr → Ptr) (now : Ptr → TimeVal) (me : ℕ) where
  -- `assign_hp(p, i)`.
  abbrev pub assign_hp : ℕ → Ptr → Hybrid → Hybrid
  assign_hp i p s = record s { hp = put s.hp (k * me + i) p }

  abbrev pub sl_delete_node : Ptr → Hybrid → Hybrid
  sl_delete_node q s = free_node_later clock s me (wrapper q) q (now q)

  module _ (levelmax : ℕ) where
    unfoldable pub fraser_search :
        (wants_left wants_right : Bool)
        → (tries : ℕ) → List (Others Hybrid)
        → World Hybrid
        → (head : Ptr) → (key : ℕ) → Option (Found Hybrid)
    fraser_search = Hazard.fraser_search assign_hp levelmax

    unfoldable pub fraser_find :
        (tries : ℕ)
        → List (Others Hybrid)
        → World Hybrid
        → (head : Ptr) → (key : ℕ) → Option (ℕ × World Hybrid)
    fraser_find = Hazard.fraser_find assign_hp levelmax

    unfoldable pub fraser_remove :
        (tries : ℕ)
        → (searching : List (Others Hybrid)) → (before_inc : Others Hybrid)
        → (marking last : List (Others Hybrid)) → World Hybrid
        → (head : Ptr) → (key : ℕ) → Option (ℕ × World Hybrid)
    fraser_remove tries =
        Update.fraser_remove (λ wl wr. fraser_search wl wr tries) sl_delete_node sl_delete_node

    -- `failures` are the clocks of the scans of the failed allocations; the last allocation gets `block`.
    unfoldable pub fraser_insert :
        (rounds tries : ℕ)
        → List (Try Hybrid)
        → (failures : List (MrNode → TimeVal)) → World Hybrid
        → (head : Ptr) → (key val : ℕ) → (block : Ptr) → (top_level : ℕ) → Option (ℕ × World Hybrid)
    fraser_insert rounds tries ts failures (m, s) head key val block top_level =
        let (new, s1) = Qsense.allocate_node me 0 failures block s in
        Update.fraser_insert (λ wl wr. fraser_search wl wr tries) sl_delete_node sl_delete_node
          rounds ts (m, s1) head key val new top_level

  -- The hazard pointer `j` of the thread, for `j < k`.
  abbrev pub own_hp : Hybrid → ℕ → Ptr
  own_hp s j = s.hp (k * me + j)

  Resting-Keep : (others : List (Others Hybrid)) → Resting others → Keep own_hp others
  Resting-Keep [] rest = tt
  Resting-Keep (other ∷ others) (e, rest) = ((λ w j lt. rw e refl), Resting-Keep others rest)

  -- Whatever the others do, to the list and to the hazard pointers of all threads, as long as they leave
  -- alone the first 68 of this thread's: when a search for both arrays comes back, and there are at most 32
  -- levels, hazard pointers 4 and 36 upwards of the thread hold the nodes that it has found on each level.
  pub fraser_search-IsHeld :
      (levelmax tries : ℕ) (others : List (Others Hybrid)) (w : World Hybrid) (head : Ptr) (key : ℕ)
      (f : Found Hybrid)
      → levelmax ≤ 32
      → Keep own_hp others
      → fraser_search levelmax true true tries others w head key ≡ some f
      → (i : ℕ) → i < levelmax
      → (own_hp f.world.1 (4 + i) ≡ get_unmarked (f.left_list i))
        × (own_hp f.world.1 (36 + i) ≡ get_unmarked (f.right_list i))
  unfolding fraser_search
  fraser_search-IsHeld = Hold.fraser_search-holds assign_hp own_hp (λ i p s j. ground arith)

  -- The same levels as in a search without hazard pointers: keys that ascend from the head to a last sentinel
  -- that is not below the key, the pointers of the head and of that sentinel unmarked and those of the dead
  -- nodes marked; at most 32 levels. While the others rest, and with a round more on each level than fuel, which
  -- is more than the nodes, a search for both arrays ends at its first try. It has then found the last live node
  -- below the key and the first live one that is not, on each level, unlinked what is between, and stored the
  -- nodes in the hazard pointers.
  pub fraser_search-Resting :
      (m : Heap) (dead : Ptr → Bool) (key : ℕ) (t head : Ptr) (ns : List Ptr)
      (levelmax tries fuel : ℕ) (others : List (Others Hybrid)) (s : Hybrid)
      → Ascends m (m head).key ns t
      → ((j : ℕ) → j < levelmax → IsLevel m dead j ((m head).next j) ns t)
      → ((j : ℕ) → j < levelmax → is_marked ((m head).next j) ≡ false)
      → ((j : ℕ) → j < levelmax → is_marked ((m t).next j) ≡ false)
      → length ns < fuel
      → key ≤ (m t).key
      → levelmax ≤ 32
      → Resting others
      → levelmax * (fuel + 1) ≤ length others
      → (f : Found Hybrid) × (fraser_search levelmax true true (suc tries) others (m, s) head key
          ≡ some f)
        × (f.world.0
            ≡ unlinked levelmax (below_key m dead key t head ns) (from_key m dead key t head ns) m)
        × ((i : ℕ)
            → i < levelmax
            → (f.left_list i ≡ below_key m dead key t head ns i)
              × (f.right_list i ≡ from_key m dead key t head ns i)
              × (own_hp f.world.1 (4 + i) ≡ get_unmarked (f.left_list i))
              × (own_hp f.world.1 (36 + i) ≡ get_unmarked (f.right_list i)))
  unfolding fraser_search
  fraser_search-Resting m dead key t head ns levelmax tries fuel others s asc levels live end lt
        high small calm enough =
      let lefts = written levelmax (below_key m dead key t head ns) nowhere in
      let rights = written levelmax (from_key m dead key t head ns) nowhere in
      let (later, s1, e) =
        Calm.fraser_search-arrived assign_hp true true levelmax tries fuel others m
          (unlinked levelmax (below_key m dead key t head ns) (from_key m dead key t head ns) m) s
          head key lefts rights calm enough
          (descend-arrived m dead key t head ns levelmax fuel asc levels live end lt high) in
      let f : Found Hybrid = record {
        left_list = lefts;
        right_list = rights;
        later = later;
        world = (
          unlinked levelmax (below_key m dead key t head ns) (from_key m dead key t head ns) m,
          s1,
        );
      } in
      (
        f,
        e,
        refl,
        λ i below.
            (let (l, r) =
                fraser_search-IsHeld levelmax (suc tries) others (m, s) head key f small
                  (Resting-Keep others calm) e i below in
              let less : ltb i levelmax ≡ true = ground (arith, below) in
              (
                written-get levelmax (below_key m dead key t head ns) nowhere i ∙ rw less refl,
                written-get levelmax (from_key m dead key t head ns) nowhere i ∙ rw less refl,
                l,
                r,
              )),
      )
