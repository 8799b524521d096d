-- ===== src/Examples/Reclaim.antt =====
-- Harris' list over the hybrid scheme, at concrete heaps.
use qsense.Prelude.{
  ℕ, suc, ◌+◌, ◌*◌, ◌<◌, ◌≤◌, ◌≡◌, ◌≢◌, refl, true, none, some, List, [], ◌∷◌, arith, ◌==◌, put,
  if◌then◌else◌,
}
use qsense.LockIf.{ticket_init}
use qsense.DoubleLlist.{Ptr}
use qsense.Hybrid.State.{TimeVal, MrNode, ThreadData, Hybrid, k}
use qsense.Hybrid.Hazards.{free_node_later}
use qsense.Hybrid.Conserve.{retired, free_node_later-retired}
use qsense.Keys.{key_max}
use qsense.Harris.{Node, Heap, get_unmarked_ref}
use qsense.Harris
use qsense.Harris.Find.{is_live}
use qsense.Harris.Walk.{taken, IsSearchable}
use qsense.Harris.Hazard
use qsense.Harris.Hazard.{World, Others, Round, Place}
use qsense.Harris.Hazard.Protect.{IsProtected}
use qsense.Harris.Hazard.Quiet.{quiet_rounds, copies}
use qsense.Harris.Qsense.{retire, set_hp, list_search}
use qsense.Harris.Qsense.Search.{
  list_search-IsProtected, list_search-retired, list_search-left_bare,
}

abbrev at : ℕ → TimeVal
at sec = record { tv_sec = sec; tv_usec = 0 }

abbrev wrap : ℕ → ℕ → ℕ → MrNode
wrap a n sec = record { address = a; actual_node = n; created = at sec }

abbrev pub clock : MrNode → TimeVal
clock n = at 11

abbrev pub wrapper : Ptr → Ptr
wrapper q = q + 1000

abbrev pub now : Ptr → TimeVal
now q = at 11

abbrev thread : ThreadData
thread = record {
  epoch = 0;
  in_critical = 1;
  process_callbacks_count = 0;
  scan_count = 0;
  allocate_fail_count = 0;
  limbo_list = λ j. if j == 0 then wrap 2 20 10 ∷ wrap 1 10 9 ∷ [] else [];
  rcount = 2;
  last_flag = 0;
  free_calls = 0;
}

abbrev pub s : Hybrid
s = record {
  update_lock = ticket_init;
  global_epoch = 0;
  fallback_flag = 1;
  hp = λ j. 0;
  is_present_vect = λ i. 1;
  nthreads = 1;
  td = λ i. thread;
  freed = [];
}

free_node_later-retired_example :
    retired 0 (free_node_later clock s 0 3 30 (at 11)) 30
    ≡ (if ◌==◌ 30 30 then suc (retired 0 s 30) else retired 0 s 30)
free_node_later-retired_example = free_node_later-retired clock s 0 3 30 (at 11) 30 (omega arith)

abbrev node : (key next : ℕ) → Node
node key next = record { key = key; val = 1; next = next }

-- Head 10, then key 5 at 20, key 7 at 30, which is deleted, key 9 at 40, and the last sentinel at 50.
abbrev m : Heap
m a =
    if a == 10
    then node 0 20
    else if a == 20
    then node 5 30
    else if a == 30
    then node 7 41
    else if a == 40
    then node 9 50
    else node key_max 0

m-IsSearchable : IsSearchable 8 50 m 10 20 (20 ∷ 30 ∷ 40 ∷ [])
m-IsSearchable = record {
  linked = refl;
  left_live = refl;
  chain = (refl, (refl, (refl, refl)));
  ascending = (omega arith, (omega arith, (omega arith, tt)));
  low = omega arith;
  high = omega arith;
  end_live = refl;
}

list_search-retired_example :
    (p : Place Hybrid) × (list_search clock wrapper now 0 (quiet_rounds 4) 8 10 (m, s) ≡ some p)
    × (Harris.list_search 4 m 10 8 ≡ some (p.left_node, p.right_node, p.world.0))
    × ((a : Ptr) → retired 0 p.world.1 a ≡ copies a (taken m 8 (20 ∷ 30 ∷ 40 ∷ [])) + retired 0 s a)
list_search-retired_example =
    list_search-retired clock wrapper now 0 8 10 50 (20 ∷ 30 ∷ 40 ∷ []) m s 4 m-IsSearchable
      (omega arith) (omega arith)

-- Node 30 is the last one before 40.
list_search-left_bare_example :
    (p : Place Hybrid) × (list_search clock wrapper now 0 (quiet_rounds 4) 8 10 (m, s) ≡ some p)
    × (is_live m p.left_node ≡ true)
    × ((i : ℕ) → i < 2 → p.world.1.hp (k * 0 + i) ≢ p.left_node)
list_search-left_bare_example =
    list_search-left_bare clock wrapper now 0 8 10 50 (20 ∷ 30 ∷ 40 ∷ []) m s 4 m-IsSearchable
      (omega arith) refl

-- Another thread puts key 3 at 60 before the first node while the search looks at that one.
abbrev intrude : Others Hybrid
intrude w = (put (put w.0 60 (node 3 20)) 10 (node 0 60), w.1)

abbrev rounds : List (Round Hybrid)
rounds = record { before_check = intrude; before_cas = λ w. w } ∷ quiet_rounds 3

abbrev fallen : Place Hybrid
fallen = record { left_node = 0; right_node = 0; offset = 0; world = (m, s) }

-- The search for key 4 starts again and comes back between 60 and 20.
returned : Place Hybrid
returned = elim (list_search clock wrapper now 0 rounds 4 10 (m, s)) [ none ↦ fallen | some p ↦ p ]

returns : list_search clock wrapper now 0 rounds 4 10 (m, s) ≡ some returned
unfolding list_search Hazard.list_search Hazard.search_loop returned
returns = refl

returned_left : returned.left_node ≡ 60
unfolding list_search Hazard.list_search Hazard.search_loop returned
returned_left = refl

list_search-IsProtected_example :
    IsProtected set_hp (retire clock wrapper now 0) (λ u. u.hp) (k * 0) returned
    × (is_live returned.world.0 returned.right_node ≡ true)
    × (4 ≤ (returned.world.0 returned.right_node).key)
list_search-IsProtected_example =
    list_search-IsProtected clock wrapper now 0 rounds 4 10 (m, s) returned
      (
        (λ w i lt. refl, λ w i lt. refl),
        (
          (λ w i lt. refl, λ w i lt. refl),
          ((λ w i lt. refl, λ w i lt. refl), ((λ w i lt. refl, λ w i lt. refl), tt)),
        ),
      )
      returns
