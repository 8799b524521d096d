-- ===== src/Harris/Qsbr/Retire.antt =====
-- src/linkedlist-harris-qsbr/harris_opt.c with src/qsbr.c: what a search hands to `free_node_later`.
use qsense.Prelude.{
  ℕ, zero, suc, ◌<◌, ◌≡◌, ◌≢◌, refl, ◌∙◌, ap, true, false, some, List, [], ◌∷◌, arith, ◌==◌, leb,
  length, put_ne,
}
use qsense.DoubleLlist.{Ptr}
use qsense.Qsbr.{Qsbr, MrNode, link_wrapper, free_node_later}
use qsense.Harris.{Heap, Node, is_marked_ref, get_unmarked_ref, set_next, cas_next}
use qsense.Harris.Find.{is_live}
use qsense.Harris.Walk.{taken, IsSearchable, walk}
use qsense.Harris.Search.{search_loop_stop, search_loop_onward, search_loop_around}
use qsense.Harris
use qsense.Harris.Qsbr.{Supply, physical_delete_right, search_loop, list_search}

-- Retiring nodes one after the other.
abbrev pub retire_all : (Ptr → MrNode) → ℕ → List Ptr → Qsbr → Qsbr
retire_all wrapper me [] s = s
retire_all wrapper me (q ∷ qs) s = retire_all wrapper me qs (link_wrapper s me q (wrapper q))

-- No allocation of a wrapper fails.
abbrev pub plenty : (Ptr → MrNode) → Supply
plenty wrapper = record { failures = λ q. []; wrapper = wrapper }

module _ (wrapper : Ptr → MrNode) (me : ℕ) where
  round_stop :
      (key : ℕ) (left a : Ptr) (m : Heap) (s : Qsbr) (fuel : ℕ)
      → is_live m a ≡ true
      → leb key (m a).key ≡ true
      → search_loop (plenty wrapper) me (suc fuel) key left a (m, s) ≡ some (left, a, (m, s))
  unfolding search_loop
  round_stop key left a m s fuel live stop = rw live (rw stop refl)

  round_onward :
      (key : ℕ) (left a : Ptr) (m : Heap) (s : Qsbr) (fuel : ℕ)
      → is_live m a ≡ true
      → leb key (m a).key ≡ false
      → search_loop (plenty wrapper) me (suc fuel) key left a (m, s)
        ≡ search_loop (plenty wrapper) me fuel key a (get_unmarked_ref (m a).next) (m, s)
  unfolding search_loop
  round_onward key left a m s fuel live go = rw live (rw go refl)

  deleted :
      (left a : Ptr) (m : Heap) (s : Qsbr)
      → (m left).next ≡ a
      → physical_delete_right (plenty wrapper) me (m, s) left a
        ≡ some
            (true, (set_next m left (get_unmarked_ref (m a).next), link_wrapper s me a (wrapper a)))
  unfolding physical_delete_right free_node_later
  deleted left a m s e =
      let hit : ((m left).next == a) ≡ true = ground arith in
      rw hit (λ i. some (
        true,
        (set_next m left (get_unmarked_ref (m a).next), link_wrapper s me (e i) (wrapper (e i))),
      ))

  round_around :
      (key : ℕ) (left a : Ptr) (m : Heap) (s : Qsbr) (fuel : ℕ)
      → is_live m a ≡ false
      → (m left).next ≡ a
      → left ≢ a
      → search_loop (plenty wrapper) me (suc fuel) key left a (m, s)
        ≡ search_loop
            (plenty wrapper)
            me
            fuel
            key
            left
            (get_unmarked_ref (m a).next)
            (set_next m left (get_unmarked_ref (m a).next), link_wrapper s me a (wrapper a))
  unfolding search_loop
  round_around key left a m s fuel dead e other =
      let right = get_unmarked_ref (m a).next in
      let same = put_ne m left (record (m left) { next = right }) a other in
      rw dead (
        rw (deleted left a m s e) (
          ap
            (λ n.
              search_loop (plenty wrapper) me fuel key left (get_unmarked_ref n.next)
                (set_next m left right, link_wrapper s me a (wrapper a)))
            same))

  -- The search finds what that of the plain list finds, and has retired the nodes `qs`.
  record Agrees (fuel key : ℕ) (m : Heap) (left r : ℕ) (qs : List Ptr) (s : Qsbr) (l1 r1 : Ptr)
      (m1 : Heap) : Type 0 where
    retiring :
        search_loop (plenty wrapper) me fuel key left r (m, s)
        ≡ some (l1, r1, (m1, retire_all wrapper me qs s))
    plain : Harris.search_loop fuel m key left r ≡ some (l1, r1, m1)

  Searches : (key : ℕ) → Heap → Ptr → ℕ → List Ptr → List Ptr → Type 0
  Searches key m left r ns qs =
      (s : Qsbr) (fuel : ℕ)
      → length ns < fuel
      → (l1 : Ptr) × (r1 : Ptr) × (m1 : Heap) × Agrees fuel key m left r qs s l1 r1 m1

  search_loop-Searches :
      (key : ℕ) (t : Ptr) (ns : List Ptr) (m : Heap) (left r : ℕ)
      → IsSearchable key t m left r ns
      → Searches key m left r ns (taken m key ns)
  unfolding Searches
  search_loop-Searches key t =
      walk key t (Searches key)
        (λ m left a ns e live done first s fuel lt. at_end m left a ns live done s fuel lt)
        (λ m left a ns qs e live go rest s fuel lt. ahead m left a ns qs live go rest s fuel lt)
        (λ m left a ns qs e dead other live rest s fuel lt.
          past m left a ns qs e dead other rest s fuel lt)
    where
      at_end :
          (m : Heap) (left a : Ptr) (ns : List Ptr)
          → is_live m a ≡ true
          → leb key (m a).key ≡ true
          → Searches key m left a ns []
      at_end m left a ns live done s zero lt = absurd (omega arith)
      at_end m left a ns live done s (suc fuel) lt = (
        left,
        a,
        m,
        record {
          retiring = round_stop key left a m s fuel live done;
          plain = search_loop_stop m key left a fuel live done;
        },
      )

      ahead :
          (m : Heap) (left a : Ptr) (ns qs : List Ptr)
          → is_live m a ≡ true
          → leb key (m a).key ≡ false
          → Searches key m a (get_unmarked_ref (m a).next) ns qs
          → Searches key m left a (a ∷ ns) qs
      ahead m left a ns qs live go rest s zero lt = absurd (omega arith)
      ahead m left a ns qs live go rest s (suc fuel) lt =
          let (l1, r1, m1, f) = rest s fuel (omega arith) in
          (
            l1,
            r1,
            m1,
            record {
              retiring = round_onward key left a m s fuel live go ∙ f.retiring;
              plain = search_loop_onward m key left a fuel live go ∙ f.plain;
            },
          )

      past :
          (m : Heap) (left a : Ptr) (ns qs : List Ptr)
          → (m left).next ≡ a
          → is_live m a ≡ false
          → left ≢ a
          → Searches key
              (set_next m left (get_unmarked_ref (m a).next))
              left
              (get_unmarked_ref (m a).next)
              ns
              qs
          → Searches key m left a (a ∷ ns) (a ∷ qs)
      past m left a ns qs e dead other rest s zero lt = absurd (omega arith)
      past m left a ns qs e dead other rest s (suc fuel) lt =
          let (l1, r1, m1, f) = rest (link_wrapper s me a (wrapper a)) fuel (omega arith) in
          (
            l1,
            r1,
            m1,
            record {
              retiring = round_around key left a m s fuel dead e other ∙ f.retiring;
              plain = search_loop_around m key left a fuel dead e other ∙ f.plain;
            },
          )

  -- When no allocation of a wrapper fails, and no other thread acts, list_search of a searchable list
  -- comes back with enough fuel, with what the search of the plain list finds and the same heap, and
  -- has called free_node_later on each marked node that it takes out, in their order.
  pub list_search-retire_all :
      (key : ℕ) (t : Ptr) (ns : List Ptr) (m : Heap) (s : Qsbr) (head fuel : ℕ)
      → IsSearchable key t m head (m head).next ns
      → length ns < fuel
      → (l1 : Ptr) × (r1 : Ptr) × (m1 : Heap) × (list_search
            (plenty wrapper)
            me
            fuel
            key
            head
            (m, s)
          ≡ some (l1, r1, (m1, retire_all wrapper me (taken m key ns) s)))
        × (Harris.list_search fuel m head key ≡ some (l1, r1, m1))
  unfolding Searches list_search Harris.list_search
  list_search-retire_all key t ns m s head fuel h lt =
      let (l1, r1, m1, f) = search_loop-Searches key t ns m head (m head).next h s fuel lt in
      (l1, r1, m1, f.retiring, f.plain)
