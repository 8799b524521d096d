-- ===== src/Fraser/Hazard.antt =====
-- src/skiplist-fraser-hp/fraser.c: the skip list with hazard pointers, over any scheme that has them. A round
-- of a search takes what the other threads do between the store of its hazard pointer and the check of the
-- link.
pub mod Update
pub mod Hold
pub mod Calm
pub mod Hp
pub mod Qsense
use qsense.Prelude.{
  ℕ, zero, suc, ◌+◌, ◌-◌, ◌%◌, ◌^◌, Bool, true, false, not, ◌&&◌, Option, none, some, List, [], ◌∷◌,
  ◌==◌, ltb, leb, if◌then◌else◌, put,
}
use qsense.DoubleLlist.{Ptr, null}
use qsense.Fraser.{
  Node, Heap, is_marked, get_unmarked, get_marked, set_next, cas_next, sl_new_simple_node, nowhere,
}
use qsense.Fraser.Update.{next_array, fill_levels}

-- The heap of the skip list and the state of the scheme.
abbrev pub World : Type 0 → Type 0
World S = Heap × S

-- What the other threads do.
abbrev pub Others : Type 0 → Type 0
Others S = World S → World S

-- What comes of the walk on a level: `left`, `left_next` and `right`, or a jump to `retry`; with what is left
-- of what the others do.
pub data Walk (S : Type 0) : Type 0 where
  met : (left : Ptr) (left_next : ℕ) (right : Ptr) → List (Others S) → World S → Walk S
  interrupted : List (Others S) → World S → Walk S

pub data Descent (S : Type 0) : Type 0 where
  arrived : (left_list right_list : ℕ → Ptr) → List (Others S) → World S → Descent S
  retry : List (Others S) → World S → Descent S

-- What `fraser_search` writes to its arrays, what is left of what the others do, and the world.
pub record Found (S : Type 0) : Type 0 where
  pub left_list : ℕ → Ptr
  pub right_list : ℕ → Ptr
  pub later : List (Others S)
  pub world : World S

-- `set_hp i p` is `assign_hp(p, i)`.
module _ {S : Type 0} (set_hp : ℕ → Ptr → S → S) where
  -- The inner loops at level `i`.
  unfoldable pub find_pair :
      List (Others S)
      → World S
      → (i key : ℕ) → (left : Ptr) → (left_next : ℕ) → (right : Ptr) → Option (Walk S)
  find_pair [] w i key left left_next right = none
  find_pair (other ∷ others) (m, s) i key left left_next right =
      let right_next = (m right).next i in
      let w = other (m, set_hp 3 (get_unmarked right_next) s) in
      let m1 = w.0 in
      let right1 = get_unmarked right_next in
      let skip = find_pair others (m1, set_hp 2 right1 w.1) i key left left_next right1 in
      let s1 = set_hp 2 right_next (set_hp 1 right1 (set_hp 0 (get_unmarked right) w.1)) in
      let onward = find_pair others (m1, s1) i key right right_next right_next in
      if not (right_next == (m1 right).next i)
      then some (interrupted others w)
      else if is_marked right_next
      then skip
      else if leb key (m1 right).key
      then some (met left left_next right others w)
      else onward

  -- The stores to the arrays, each if the caller has passed one.
  unfoldable pub keep_lists : (wants_left wants_right : Bool) → (i : ℕ) → (left right : Ptr) → S → S
  keep_lists wants_left wants_right i left right s =
      let s1 = if wants_left then set_hp (4 + i) (get_unmarked left) s else s in
      if wants_right then set_hp (36 + i) (get_unmarked right) s1 else s1

  -- The loop of `fraser_search` over the levels below `n`, from `left`.
  unfoldable pub descend :
      (wants_left wants_right : Bool)
      → List (Others S)
      → (n : ℕ) → World S
      → (key : ℕ) → (left : Ptr) → (left_list right_list : ℕ → Ptr) → Option (Descent S)
  descend wl wr others zero w key left left_list right_list =
      some (arrived left_list right_list others w)
  descend wl wr [] (suc i) w key left left_list right_list = none
  descend wl wr (other ∷ others) (suc i) (m, s) key left left_list right_list =
      let left_next = (m left).next i in
      let w = other (m, set_hp 1 (get_unmarked left_next) s) in
      let level : Option (Descent S) =
        elim (find_pair others (w.0, set_hp 2 left_next w.1) i key left left_next left_next) [
          | none ↦ none
          | some (interrupted later w1) ↦ some (retry later w1)
          | some (met left1 left_next1 right later (m1, s1)) ↦
              let (swapped, m2) = cas_next m1 left1 i left_next1 right in
              let lefts = put left_list i left1 in
              let rights = put right_list i right in
              let s2 = keep_lists wl wr i left1 right s1 in
              let unchanged = descend wl wr later i (m1, s2) key left1 lefts rights in
              let changed = descend wl wr later i (m2, s2) key left1 lefts rights in
              if left_next1 == right
              then unchanged
              else if swapped
              then changed
              else some (retry later (m2, s1))
        ] in
      if not (left_next == (w.0 left).next i)
      then some (retry others w)
      else if is_marked left_next
      then some (retry others w)
      else level

  module _ (levelmax : ℕ) where
    -- `fraser_search` with as many tries.
    unfoldable pub fraser_search :
        (wants_left wants_right : Bool)
        → (tries : ℕ) → List (Others S)
        → World S
        → (head : Ptr) → (key : ℕ) → Option (Found S)
    fraser_search wl wr zero others w head key = none
    fraser_search wl wr (suc tries) others (m, s) head key =
        elim (descend wl wr others levelmax (m, set_hp 0 head s) key head nowhere nowhere) [
          | none ↦ none
          | some (arrived lefts rights later w1) ↦
              some (record { left_list = lefts; right_list = rights; later = later; world = w1 })
          | some (retry later w1) ↦ fraser_search wl wr tries later w1 head key
        ]

    unfoldable pub fraser_find :
        (tries : ℕ) → List (Others S) → World S → (head : Ptr) → (key : ℕ) → Option (ℕ × World S)
    fraser_find tries others w head key = elim (fraser_search false true tries others w head key) [
      | none ↦ none
      | some f ↦
          let n = f.world.0 (f.right_list 0) in
          some (if (n.key == key) && (n.deleted == 0) then n.val else 0, f.world)
    ]
