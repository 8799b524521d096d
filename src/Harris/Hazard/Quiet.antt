-- ===== src/Harris/Hazard/Quiet.antt =====
-- src/linkedlist-harris-hp/harris_opt.c while no other thread acts: its search agrees with that of the
-- plain list, and retires what it takes out.
use qsense.Prelude.{
  ℕ, zero, suc, ◌+◌, ◌-◌, ◌<◌, ◌≡◌, ◌≢◌, refl, ◌∙◌, true, false, Option, some, List, [], ◌∷◌, arith,
  ◌==◌, leb, length, occurrences, if◌then◌else◌, put_ne,
}
use qsense.DoubleLlist.{Ptr}
use qsense.Harris.{Heap, Node, is_marked_ref, get_unmarked_ref, set_next, cas_next}
use qsense.Harris.Find.{is_live}
use qsense.Harris.Walk.{taken, IsSearchable, Heads, walk}
use qsense.Harris.Search.{search_loop_stop, search_loop_onward, search_loop_around}
use qsense.Harris
use qsense.Harris.Hazard.{Others, Round, Place, physical_delete_right, search_loop, list_search}

abbrev pub quiet : {S : Type 0} → Others S
quiet w = w

abbrev pub quiet_round : {S : Type 0} → Round S
quiet_round = record { before_check = quiet; before_cas = quiet }

abbrev pub quiet_rounds : {S : Type 0} → ℕ → List (Round S)
quiet_rounds zero = []
quiet_rounds (suc n) = quiet_round ∷ quiet_rounds n

module _ {S : Type 0} (set_hp : ℕ → Ptr → S → S) (retire : Ptr → S → S) where
  pub round_stop :
      (others : List (Round S)) (key : ℕ) (head : Ptr) (base o : ℕ) (left r : Ptr) (m : Heap)
      (s : S)
      → (m left).next ≡ r
      → is_live m r ≡ true
      → leb key (m r).key ≡ true
      → search_loop set_hp retire (quiet_round ∷ others) key head base o left r (m, s)
        ≡ some (record {
          left_node = left;
          right_node = r;
          offset = 1 - o;
          world = (m, set_hp (base + o) r s);
        })
  unfolding search_loop
  round_stop others key head base o left r m s e live stop =
      let linked : (r == (m left).next) ≡ true = ground arith in rw linked (rw live (rw stop refl))

  pub round_onward :
      (others : List (Round S)) (key : ℕ) (head : Ptr) (base o : ℕ) (left r : Ptr) (m : Heap)
      (s : S)
      → (m left).next ≡ r
      → is_live m r ≡ true
      → leb key (m r).key ≡ false
      → search_loop set_hp retire (quiet_round ∷ others) key head base o left r (m, s)
        ≡ search_loop set_hp retire others key head base
            (1 - o)
            r
            (get_unmarked_ref (m r).next)
            (m, set_hp (base + o) r s)
  unfolding search_loop
  round_onward others key head base o left r m s e live go =
      let linked : (r == (m left).next) ≡ true = ground arith in rw linked (rw live (rw go refl))

  pub round_around :
      (others : List (Round S)) (key : ℕ) (head : Ptr) (base o : ℕ) (left r : Ptr) (m : Heap)
      (s : S)
      → (m left).next ≡ r
      → is_live m r ≡ false
      → left ≢ r
      → search_loop set_hp retire (quiet_round ∷ others) key head base o left r (m, s)
        ≡ search_loop set_hp retire others key head base
            (1 - o)
            left
            (get_unmarked_ref (m r).next)
            (set_next m left (get_unmarked_ref (m r).next), retire r (set_hp (base + o) r s))
  unfolding search_loop physical_delete_right
  round_around others key head base o left r m s e dead other =
      let linked : (r == (m left).next) ≡ true = ground arith in
      let hit : ((m left).next == r) ≡ true = ground arith in
      let right = get_unmarked_ref (m r).next in
      let same = put_ne m left (record (m left) { next = right }) r other in
      rw linked (
        rw dead (
          rw hit (λ i.
            search_loop set_hp retire others key head base (1 - o) left
              (get_unmarked_ref (same i).next)
              (set_next m left right, retire (e i) (set_hp (base + o) r s)))))

-- How often a node stands in a list.
abbrev pub copies : Ptr → List Ptr → ℕ
copies a xs = occurrences (λ x. x) a xs

-- `uses s a` is how often node `a` has been retired; the scheme keeps an invariant.
module _ {S : Type 0} (set_hp : ℕ → Ptr → S → S) (retire : Ptr → S → S) (uses : S → Ptr → ℕ)
    (IsSound : S → Type 0)
    (set_hp-IsSound : (i : ℕ) (p : Ptr) (s : S) → IsSound s → IsSound (set_hp i p s))
    (retire-IsSound : (q : Ptr) (s : S) → IsSound s → IsSound (retire q s))
    (uses-set_hp : (i : ℕ) (p : Ptr) (s : S) (a : Ptr) → uses (set_hp i p s) a ≡ uses s a)
    (uses-retire : (q : Ptr) (s : S) (a : Ptr)
      → IsSound s
      → uses (retire q s) a ≡ (if a == q then suc (uses s a) else uses s a)) where
  -- A search that agrees with the plain one, and retires the nodes `ns`.
  pub record Agrees (fuel : ℕ) (m : Heap) (key : ℕ) (left r : Ptr) (ns : List Ptr) (s : S)
      (o : Option (Place S)) (p : Place S) : Type 0 where
    pub comes_back : o ≡ some p
    pub plain : Harris.search_loop fuel m key left r ≡ some (p.left_node, p.right_node, p.world.0)
    pub retires : (a : Ptr) → uses p.world.1 a ≡ copies a ns + uses s a
    pub sound : IsSound p.world.1

  Searches : (key : ℕ) (head : Ptr) (base : ℕ) → Heap → Ptr → ℕ → List Ptr → List Ptr → Type 0
  Searches key head base m left r ns qs =
      (s : S) (o fuel : ℕ)
      → length ns < fuel
      → IsSound s
      → (p : Place S) × Agrees fuel m key left r qs s
          (search_loop set_hp retire (quiet_rounds fuel) key head base o left r (m, s)) p

  at_end :
      (key : ℕ) (head : Ptr) (base : ℕ) (m : Heap) (left a : Ptr) (ns : List Ptr)
      → (m left).next ≡ a
      → is_live m a ≡ true
      → leb key (m a).key ≡ true
      → Heads a ns
      → Searches key head base m left a ns []
  unfolding Searches
  at_end key head base m left a ns e live done first s o zero lt ok = absurd (omega arith)
  at_end key head base m left a ns e live done first s o (suc fuel) lt ok = (
    _,
    record {
      comes_back =
          round_stop set_hp retire (quiet_rounds fuel) key head base o left a m s e live done;
      plain = search_loop_stop m key left a fuel live done;
      retires = λ b. uses-set_hp (base + o) a s b ∙ omega arith;
      sound = set_hp-IsSound (base + o) a s ok;
    },
  )

  ahead :
      (key : ℕ) (head : Ptr) (base : ℕ) (m : Heap) (left a : Ptr) (ns qs : List Ptr)
      → (m left).next ≡ a
      → is_live m a ≡ true
      → leb key (m a).key ≡ false
      → Searches key head base m a (get_unmarked_ref (m a).next) ns qs
      → Searches key head base m left a (a ∷ ns) qs
  unfolding Searches
  ahead key head base m left a ns qs e live go rest s o zero lt ok = absurd (omega arith)
  ahead key head base m left a ns qs e live go rest s o (suc fuel) lt ok =
      let s1 = set_hp (base + o) a s in
      let (p, f) = rest s1 (1 - o) fuel (omega arith) (set_hp-IsSound (base + o) a s ok) in
      (
        p,
        record {
          comes_back =
              round_onward set_hp retire (quiet_rounds fuel) key head base o left a m s e live go
              ∙ f.comes_back;
          plain = search_loop_onward m key left a fuel live go ∙ f.plain;
          retires = λ b. f.retires b ∙ omega (arith, uses-set_hp (base + o) a s b);
          sound = f.sound;
        },
      )

  past :
      (key : ℕ) (head : Ptr) (base : ℕ) (m : Heap) (left a : Ptr) (ns qs : List Ptr)
      → (m left).next ≡ a
      → is_live m a ≡ false
      → left ≢ a
      → is_live m left ≡ true
      → Searches key head base
          (set_next m left (get_unmarked_ref (m a).next))
          left
          (get_unmarked_ref (m a).next)
          ns
          qs
      → Searches key head base m left a (a ∷ ns) (a ∷ qs)
  unfolding Searches
  past key head base m left a ns qs e dead other live rest s o zero lt ok = absurd (omega arith)
  past key head base m left a ns qs e dead other live rest s o (suc fuel) lt ok =
      let s1 = set_hp (base + o) a s in
      let ok1 = set_hp-IsSound (base + o) a s ok in
      let (p, f) = rest (retire a s1) (1 - o) fuel (omega arith) (retire-IsSound a s1 ok1) in
      (
        p,
        record {
          comes_back =
              round_around set_hp retire (quiet_rounds fuel) key head base o left a m s e dead other
              ∙ f.comes_back;
          plain = search_loop_around m key left a fuel dead e other ∙ f.plain;
          retires = λ b.
              ground (arith, f.retires b, uses-retire a s1 b ok1, uses-set_hp (base + o) a s b);
          sound = f.sound;
        },
      )

  -- While no other thread acts, list_search of a searchable list comes back with enough rounds, finds
  -- what the search of the plain list finds and leaves the same heap, and retires each marked
  -- node that it takes out once and no other.
  pub list_search-Agrees :
      (key : ℕ) (head : Ptr) (base : ℕ) (t : Ptr) (ns : List Ptr) (m : Heap) (s : S) (fuel : ℕ)
      → IsSearchable key t m head (m head).next ns
      → length ns < fuel
      → IsSound s
      → (p : Place S) × Agrees fuel m key head
          (m head).next
          (taken m key ns)
          s
          (list_search set_hp retire (quiet_rounds fuel) key head base (m, s))
          p
  unfolding list_search Searches
  list_search-Agrees key head base t ns m s fuel h lt ok =
      let found : Searches key head base m head (m head).next ns (taken m key ns) =
        walk key t (Searches key head base) (at_end key head base) (ahead key head base)
          (past key head base) ns m head (m head).next h in
      found s 0 fuel lt ok
