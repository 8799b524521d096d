-- ===== src/Examples/Slots.antt =====
-- Skip lists with hazard pointers: concrete instances of their theorems.
use qsense.Prelude.{ℕ, ◌+◌, ◌<◌, ◌≡◌, refl, true, Option, none, some, List, [], ◌∷◌, arith, put}
use qsense.Hybrid.State.{Hybrid, k}
use qsense.Fraser.{get_unmarked, nowhere}
use qsense.Fraser.Search.{below_key, from_key}
use qsense.Fraser.Descend.{unlinked}
use qsense.Fraser.Hazard.{World, Others, Found, descend, find_pair, keep_lists}
use qsense.Fraser.Hazard
use qsense.Fraser.Hazard.Calm.{resting}
use qsense.Fraser.Hazard.Qsense.{own_hp, fraser_search, fraser_search-IsHeld, fraser_search-Resting}
use qsense.Examples.Reclaim.{clock, wrapper, now, s}
use qsense.Examples.Skips.{half_removed, half_removed-levels, is_48, in_order}

abbrev rests : List (Others Hybrid)
rests = resting ∷ resting ∷ resting ∷ resting ∷ resting ∷ resting ∷ resting ∷ resting ∷ []

fraser_search-Resting_example :
    (f : Found Hybrid) × (fraser_search clock wrapper now 0 2 true true 1 rests
        (half_removed, s)
        16
        9
      ≡ some f)
    × (f.world.0
        ≡ unlinked 2
            (below_key half_removed is_48 9 32 16 in_order)
            (from_key half_removed is_48 9 32 16 in_order)
            half_removed)
    × ((i : ℕ)
        → i < 2
        → (f.left_list i ≡ below_key half_removed is_48 9 32 16 in_order i)
          × (f.right_list i ≡ from_key half_removed is_48 9 32 16 in_order i)
          × (own_hp clock wrapper now 0 f.world.1 (4 + i) ≡ get_unmarked (f.left_list i))
          × (own_hp clock wrapper now 0 f.world.1 (36 + i) ≡ get_unmarked (f.right_list i)))
fraser_search-Resting_example =
    fraser_search-Resting clock wrapper now 0 half_removed is_48 9 32 16 in_order 2 0 3 rests s
      (omega arith, (omega arith, omega arith)) half_removed-levels (λ j lt. refl) (λ j lt. refl)
      (omega arith) (omega arith) (omega arith)
      (refl, (refl, (refl, (refl, (refl, (refl, (refl, (refl, tt)))))))) (omega arith)

-- Thread 1 gives the node of key 9 another value, under a hazard pointer of its own.
abbrev meddling : Others Hybrid
meddling w = (
  put w.0 64 (record (w.0 64) { val = (w.0 64).val + 1 }),
  record w.1 { hp = put w.1.hp (k + 2) 64 },
)

abbrev meddlers : List (Others Hybrid)
meddlers = meddling ∷ meddling ∷ resting ∷ meddling ∷ resting ∷ meddling ∷ []

abbrev or_nothing : Option (Found Hybrid) → Found Hybrid
or_nothing none = record {
  left_list = nowhere;
  right_list = nowhere;
  later = [];
  world = (half_removed, s);
}
or_nothing (some f) = f

abbrev met_here : Found Hybrid
met_here =
    or_nothing (fraser_search clock wrapper now 0 2 true true 1 meddlers (half_removed, s) 16 9)

comes_back :
    fraser_search clock wrapper now 0 2 true true 1 meddlers (half_removed, s) 16 9 ≡ some met_here
unfolding fraser_search Hazard.fraser_search descend find_pair keep_lists
comes_back = refl

fraser_search-IsHeld_example :
    (own_hp clock wrapper now 0 met_here.world.1 5 ≡ get_unmarked (met_here.left_list 1))
    × (own_hp clock wrapper now 0 met_here.world.1 37 ≡ get_unmarked (met_here.right_list 1))
fraser_search-IsHeld_example =
    fraser_search-IsHeld clock wrapper now 0 2 1 meddlers (half_removed, s) 16 9 met_here
      (omega arith)
      (
        (λ w j lt. ground (arith, lt)),
        (
          (λ w j lt. ground (arith, lt)),
          (
            (λ w j lt. ground (arith, lt)),
            (
              (λ w j lt. ground (arith, lt)),
              ((λ w j lt. ground (arith, lt)), ((λ w j lt. ground (arith, lt)), tt)),
            ),
          ),
        ),
      )
      comes_back 1 (omega arith)
