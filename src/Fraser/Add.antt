-- ===== src/Fraser/Add.antt =====
-- src/skiplist-fraser/fraser.c: what `fraser_insert` does from `retry` on.
use qsense.Prelude.{
  ℕ, suc, ◌-◌, ◌<◌, ◌≤◌, ◌≡◌, refl, ◌∙◌, true, false, not, ◌&&◌, some, List, ◌∷◌, ◌==◌, ltb,
  if◌then◌else◌, length, arith, Bool-cases, inl, inr,
}
use qsense.DoubleLlist.{Ptr}
use qsense.Fraser.{Heap, is_marked, set_next, Found, nowhere, fraser_search}
use qsense.Fraser.Search.{below_key, from_key}
use qsense.Fraser.Descend.{written}
use qsense.Fraser.Quiet.{
  alive, IsNode, value_of, has_key, IsSkipList, written-get, fraser_search-quiet, last_below-next,
}
use qsense.Fraser.Marks.{idle, Idle, set_next-SameFields, set_next-next}
use qsense.Fraser.Unlinked.{AreDead}
use qsense.Fraser.Keys.{first_from-cases, AreDead-has_key, first_from-absent, last_below-low}
use qsense.Fraser.Link.{insert_at}
use qsense.Fraser.Fresh.{IsFresh}
use qsense.Fraser.Grow.{
  filled, grown, grown-IsSkipList, grown-value_of, grown-SameFields, grown-key, filled-ready,
  insert_at-same,
}
use qsense.Fraser.Insert.{link_levels-Idle, insert_present, insert_absent}
use qsense.Fraser.Update.{Try, fill_levels, insert_loop}

set_next_above :
    (m : Heap) (a : Ptr) (i p j : ℕ) (x : Ptr)
    → (i == j) ≡ false
    → (set_next m a i p x).next j ≡ (m x).next j
set_next_above m a i p j x above = set_next-next m a i p x j ∙ ground (arith, above)

module _ (levelmax tries fuel : ℕ) (r : Try) (rounds : List Try) (m : Heap) (head : Ptr)
    (ns : List Ptr) (t : Ptr) (key : ℕ) (new : Ptr) (s : IsSkipList levelmax m head ns t)
    (short : length ns < fuel) (low : (m head).key < key) (high : key < (m t).key)
    (start : (new == head) ≡ false) (fresh : IsFresh new ns) (apart : (new == t) ≡ false)
    (is : IsNode levelmax m new) (the_key : (m new).key ≡ key) (quiet : r.before_cas ≡ idle)
    (calm : Idle r.linking) (enough : levelmax ≤ length r.linking) where
  abbrev preds : ℕ → Ptr
  preds = written levelmax (below_key m alive key t head ns) nowhere

  abbrev succs : ℕ → Ptr
  succs = written levelmax (from_key m alive key t head ns) nowhere

  abbrev found : Found
  found = record { left_list = preds; right_list = succs; heap = m }

  search_found : fraser_search levelmax (suc tries) fuel m head key ≡ some found
  search_found =
      fraser_search-quiet levelmax tries fuel m head ns t key s short (omega (arith, high))

  preds_lem : (j : ℕ) → j < levelmax → preds j ≡ below_key m alive key t head ns j
  preds_lem j lt =
      let below : ltb j levelmax ≡ true = ground (arith, lt) in
      written-get levelmax (below_key m alive key t head ns) nowhere j ∙ rw below refl

  succs_lem : (j : ℕ) → j < levelmax → succs j ≡ from_key m alive key t head ns j
  succs_lem j lt =
      let below : ltb j levelmax ≡ true = ground (arith, lt) in
      written-get levelmax (from_key m alive key t head ns) nowhere j ∙ rw below refl

  module _ (are : AreDead m alive key ns) where
    abbrev after : Heap
    after =
        grown levelmax m head ns t key new preds succs s start fresh apart is the_key low high are
          preds_lem succs_lem

    ready :
        (j : ℕ)
        → j < (m new).toplevel
        → (let m2 = fill_levels m new succs (m new).toplevel in
            ((m2 new).next j ≡ succs j)
            × ((m2 (preds j)).next j ≡ succs j)
            × (is_marked (succs j) ≡ false)
            × (((m2 (succs j)).key == key) ≡ false))
    ready =
        filled-ready levelmax m head ns t key new preds succs s start fresh apart is the_key low
          high are preds_lem succs_lem
          (λ j lt. rw (preds_lem j lt) (
            rw (succs_lem j lt)
              (last_below-next m key t j head ns (m head).key s.ascends (s.levels j lt))))
          (λ j lt. rw (succs_lem j lt) (first_from-absent m key t j ns high are))
          (λ j lt. elim (Bool-cases (new == preds j)) [
            | inr e ↦ e
            | inl e ↦
                let same : new ≡ preds j = ground (arith, e) in
                let under : (m (preds j)).key < key =
                  rw (preds_lem j lt) (last_below-low m key t alive j head ns low) in
                let new_low : (m new).key < key = rw same under in
                absurd (omega (arith, new_low, the_key))
          ])

    insert_after :
        insert_loop levelmax (suc tries) fuel (r ∷ rounds) m head key new ≡ some (1, false, after)
    insert_after =
        let (even, flag, some_level, le) = is in
        let (filled0, linked0, even0, differ0) = ready 0 some_level in
        let m2 : Heap = fill_levels m new succs (m new).toplevel in
        insert_absent levelmax (suc tries) fuel head key new r rounds m found after search_found
          (rw (succs_lem 0 s.grounded) (first_from-absent m key t 0 ns high are)) quiet
          (
            ground (arith, linked0),
            link_levels-Idle levelmax (suc tries) fuel head key new ((m new).toplevel - 1) 1
                r.linking (set_next m2 (preds 0) 0 new) preds succs calm (omega (arith, enough, le))
                (λ j from below.
                  (let (filled1, linked1, even1, differ1) =
                      ready j (omega (arith, from, below, some_level)) in
                    let (k, v, d, h) = set_next-SameFields m2 (preds 0) 0 new (succs j) in
                    let above : (0 == j) ≡ false = ground (arith, from) in
                    (
                      set_next_above m2 (preds 0) 0 new j new above ∙ filled1,
                      set_next_above m2 (preds 0) 0 new j (preds j) above ∙ linked1,
                      even1,
                      rw k differ1,
                    ))),
          )

  -- The key is bound once the code returns; where it was before, the new node is given back.
  pub insert_loop-binds :
      (m1 : Heap) × (let has = has_key m key ns in
        let ns1 = if has then ns else insert_at m1 key new ns in
        (insert_loop levelmax (suc tries) fuel (r ∷ rounds) m head key new
          ≡ some (if has then 0 else 1, has, m1))
        × IsSkipList levelmax m1 head ns1 t
        × ((other : ℕ)
            → value_of m1 other ns1
              ≡ (if not has && (other == key) then (m new).val else value_of m other ns))
        × ((x : Ptr) → (m1 x).key ≡ (m x).key))
  insert_loop-binds =
      elim (first_from-cases m key t levelmax ns (m head).key s.nodes s.ascends high) [
        | inl (differ, same, none_of, are) ↦
            let nodes =
              insert_at-same
                (filled levelmax m head ns t key new preds succs s start fresh apart is the_key low
                  high are preds_lem succs_lem)
                (after are) key new
                (grown-SameFields levelmax m head ns t key new preds succs s start fresh apart is
                  the_key low high are preds_lem succs_lem)
                ns in
            (
              after are,
              rw (AreDead-has_key m key t ns are) (
                insert_after are,
                rw nodes (
                    grown-IsSkipList levelmax m head ns t key new preds succs s start fresh apart is
                      the_key low high are preds_lem succs_lem),
                rw nodes (
                    grown-value_of levelmax m head ns t key new preds succs s start fresh apart is
                      the_key low high are preds_lem succs_lem),
                grown-key levelmax m head ns t key new preds succs s start fresh apart is the_key
                    low high are preds_lem succs_lem,
              ),
            )
        | inr b ↦
            let (even, flag, some_level, le) = b.node in
            (
              m,
              rw b.held (
                insert_present levelmax (suc tries) fuel head key new r rounds m found search_found
                    (rw (succs_lem 0 s.grounded) (ground (arith, b.the_key)))
                    (rw (succs_lem 0 s.grounded) (ground (arith, flag))),
                s,
                λ other. refl,
                λ x. refl,
              ),
            )
      ]
