-- ===== src/Harris/Hazard/Protect.antt =====
-- src/linkedlist-harris-hp/harris_opt.c: which nodes the hazard pointers of a search protect, whatever
-- the other threads do.
use qsense.Prelude.{
  ℕ, ◌+◌, ◌-◌, ◌<◌, ◌≤◌, ◌≡◌, ◌∙◌, subst, true, Option, none, some, List, [], ◌∷◌, arith, ◌==◌, leb,
  Each, Bool-cases, inl, inr,
}
use qsense.DoubleLlist.{Ptr}
use qsense.Harris.{get_unmarked_ref}
use qsense.Harris.Find.{is_live}
use qsense.Harris.Hazard.{
  World, Others, Round, Place, physical_delete_right, search_loop, list_search,
}

module _ {S : Type 0} (set_hp : ℕ → Ptr → S → S) (retire : Ptr → S → S) (hp : S → ℕ → Ptr) where
  -- The others leave the two hazard pointers from `base` on alone.
  abbrev pub Respects : (base : ℕ) → Others S → Type 0
  Respects base other =
      (w : World S) (i : ℕ) → i < 2 → hp (other w).1 (base + i) ≡ hp w.1 (base + i)

  -- So they do in both parts of a round of a search.
  abbrev pub RespectsIn : (base : ℕ) → Round S → Type 0
  RespectsIn base round = Respects base round.before_check × Respects base round.before_cas

  -- A hazard pointer of the thread holds the node on the right, to which the left one links.
  pub record IsProtected (base : ℕ) (p : Place S) : Type 0 where
    pub slot : ℕ
    pub slot_own : slot < 2
    pub held : hp p.world.1 (base + slot) ≡ p.right_node
    pub linked : (p.world.0 p.left_node).next ≡ p.right_node

  -- What holds of a search that comes back.
  abbrev Ensures : (Place S → Type 0) → Option (Place S) → Type 0
  Ensures P none = Unit
  Ensures P (some p) = P p

  module _ (law : (i : ℕ) (p : Ptr) (s : S) → hp (set_hp i p s) i ≡ p) where
    search_loop-Ensures :
        (others : List (Round S)) (key : ℕ) (head : Ptr) (base offset : ℕ) (left right : Ptr)
        (w : World S)
        → Each (RespectsIn base) others
        → offset < 2
        → Ensures
            (λ p.
              IsProtected base p
              × (is_live p.world.0 p.right_node ≡ true)
              × (key ≤ (p.world.0 p.right_node).key))
            (search_loop set_hp retire others key head base offset left right w)
    unfolding search_loop
    search_loop-Ensures [] key head base offset left right (m, s) r lt = tt
    search_loop-Ensures (round ∷ others) key head base offset left right (m, s) ((own, after), r)
          lt =
        let w = round.before_check (m, set_hp (base + offset) right s) in
        let held : hp w.1 (base + offset) ≡ right =
          own (m, set_hp (base + offset) right s) offset lt ∙ law (base + offset) right s in
        elim (Bool-cases (right == (w.0 left).next)) [
          | inr moved ↦
              rw moved (search_loop-Ensures others key head base offset head (w.0 head).next w r lt)
          | inl linked ↦ elim (Bool-cases (is_live w.0 right)) [
            | inr dead ↦
                let w2 = (physical_delete_right set_hp retire (round.before_cas w) left right).1 in
                rw linked (
                  rw dead (
                    search_loop-Ensures others key head base (1 - offset) left
                      (get_unmarked_ref (w2.0 right).next) w2 r (omega arith)))
            | inl live ↦ elim (Bool-cases (leb key (w.0 right).key)) [
              | inl stop ↦ rw linked (
                  rw live (
                    rw stop (
                      record { slot = offset; slot_own = lt; held = held; linked = ground arith },
                      live,
                      ground arith,
                    )))
              | inr go ↦ rw linked (
                  rw live (
                    rw go (
                      search_loop-Ensures others key head base (1 - offset) right
                        (get_unmarked_ref (w.0 right).next) w r (omega arith))))
            ]
          ]
        ]

    -- Whatever the other threads do to the list, and as long as they leave this thread's hazard
    -- pointers alone, the node that list_search returns is held by one of them, was linked from
    -- the left one when that was checked, is not deleted and has a key at least as large.
    pub list_search-Ensures :
        (others : List (Round S)) (key : ℕ) (head : Ptr) (base : ℕ) (w : World S) (p : Place S)
        → Each (RespectsIn base) others
        → list_search set_hp retire others key head base w ≡ some p
        → IsProtected base p
          × (is_live p.world.0 p.right_node ≡ true)
          × (key ≤ (p.world.0 p.right_node).key)
    unfolding list_search
    list_search-Ensures others key head base w p r e =
        subst
          (Ensures (λ q.
            IsProtected base q
            × (is_live q.world.0 q.right_node ≡ true)
            × (key ≤ (q.world.0 q.right_node).key)))
          e (search_loop-Ensures others key head base 0 head (w.0 head).next w r (omega arith))
