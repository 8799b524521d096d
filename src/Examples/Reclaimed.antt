-- ===== src/Examples/Reclaimed.antt =====
-- Harris' list over quiescent states and over hazard pointers, at concrete heaps.
use qsense.Prelude.{ℕ, ◌+◌, ◌≡◌, refl, Option, none, some, [], ◌∷◌, arith, ◌==◌, if◌then◌else◌}
use qsense.LockIf.{ticket_init}
use qsense.DoubleLlist.{Ptr, null}
use qsense.Smr.{Smr}
use qsense.Qsbr.{Qsbr, MrNode}
use qsense.Keys.{key_max}
use qsense.Harris.{Node, Heap}
use qsense.Harris
use qsense.Harris.Walk.{taken}
use qsense.Harris.Hazard
use qsense.Harris.Hazard.{World, Place}
use qsense.Harris.Hazard.Quiet.{quiet_rounds}
use qsense.Harris.Qsbr
use qsense.Harris.Qsbr.Retire.{plenty, retire_all, list_search-retire_all}
use qsense.Harris.Hp
use qsense.Harris.Hp.{Scheme, allocate_node, rescan}

abbrev node : (key next : ℕ) → Node
node key next = record { key = key; val = 1; next = next }

-- Head 10, then key 5 at 20, which is deleted, key 9 at 40, and the last sentinel at 50.
abbrev m : Heap
m a =
    if a == 10
    then node 0 20
    else if a == 20
    then node 5 41
    else if a == 40
    then node 9 50
    else node key_max 0

abbrev pub wrapper : Ptr → MrNode
wrapper q = record { address = q + 1000; actual_node = 0; created = 0 }

abbrev pub q : Qsbr
q = record {
  update_lock = ticket_init;
  global_epoch = 0;
  nthreads = 1;
  qd = λ i. record { epoch = 0; in_critical = 1; limbo_list = λ j. []; rcount = 0 };
  freed = [];
}

list_search-retire_all_example :
    (l1 : Ptr) × (r1 : Ptr) × (m1 : Heap) × (Qsbr.list_search (plenty wrapper) 0 3 8 10 (m, q)
      ≡ some (l1, r1, (m1, retire_all wrapper 0 (taken m 8 (20 ∷ 40 ∷ [])) q)))
    × (Harris.list_search 3 m 10 8 ≡ some (l1, r1, m1))
list_search-retire_all_example =
    list_search-retire_all wrapper 0 8 50 (20 ∷ 40 ∷ []) m q 10 3
      (record {
        linked = refl;
        left_live = refl;
        chain = (refl, (refl, refl));
        ascending = (omega arith, (omega arith, tt));
        low = omega arith;
        high = omega arith;
        end_live = refl;
      })
      (omega arith)

abbrev hazards : Smr
hazards = record {
  hp = λ j. 0;
  rlist = [];
  rcount = 0;
  nthreads = 1;
  thread_index = 0;
  hp_index_base = 0;
  freed = [];
}

abbrev block : Ptr → Ptr
block a = a + 1000

abbrev fallen : Place Scheme
fallen = record { left_node = 0; right_node = 0; offset = 0; world = (m, none) }

returned : Place Scheme
returned = elim (Hp.list_search 2 block 0 (quiet_rounds 3) 6 10 (m, some hazards)) [
  | none ↦ fallen
  | some p ↦ p
]

abbrev result : Option (ℕ × World Scheme)
result =
    Hp.harris_insert 2 block 0
      (record {
        searching = quiet_rounds 3;
        allocate = allocate_node 2 null null;
        before_cas = λ u. u;
        before_removal = λ v. v;
      }
        ∷ [])
      6 1 10 (m, some hazards)

abbrev found_world : World Scheme
found_world = (returned.world.0, rescan 2 returned.world.1)
