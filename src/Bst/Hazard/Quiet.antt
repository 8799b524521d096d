-- ===== src/Bst/Hazard/Quiet.antt =====
-- src/bst-aravind-hp/bst-aravind.c: a seek with hazard pointers while no other thread acts.
use qsense.Prelude.{
  ℕ, zero, suc, ◌<◌, ◌≡◌, refl, ◌∙◌, ap, subst, Bool, none, some, List, [], ◌∷◌, arith, ◌==◌,
  if◌then◌else◌, Bool-cases, inl, inr,
}
use qsense.DoubleLlist.{Ptr, null}
use qsense.Bst
use qsense.Bst.{Heap, is_tagged, address, side, child, inf0, SeekRecord, advance, seek_loop}
use qsense.Bst.Tree.{Tree, inner, IsRooted, lookup}
use qsense.Bst.Seek.{arrive, arrive-lookup, start, bst_seek-arrive}
use qsense.Bst.Bind.{equal_self}
use qsense.Bst.Hazard.{
  Others, starting, leafed, going, assign_hp, assign_record, seek_stages, bst_seek, bst_search,
}

-- Stages in which the other threads do nothing.
abbrev pub quiet_stages : {S : Type 0} → ℕ → List (Others S)
quiet_stages zero = []
quiet_stages (suc n) = (λ w. w) ∷ quiet_stages n

module _ {S : Type 0} (set_hp : ℕ → Ptr → S → S) (retire : Ptr → S → S) (base : ℕ) {A : Type 0}
    (f : S → A) (keeps : (i : ℕ) (p : Ptr) (s : S) → f (set_hp i p s) ≡ f s) where
  assign_record-keeps :
      (r : SeekRecord) (pf : ℕ) (current : Ptr) (s : S)
      → f (assign_record set_hp retire base r pf current s) ≡ f s
  assign_record-keeps r pf current s = elim (Bool-cases (is_tagged pf)) [
    | inl tagged ↦ rw tagged (keeps _ _ _ ∙ keeps _ _ _)
    | inr clean ↦ rw clean (keeps _ _ _ ∙ (keeps _ _ _ ∙ (keeps _ _ _ ∙ keeps _ _ _)))
  ]

  stages-agree :
      (fuel : ℕ) (m : Heap) (key : ℕ) (node_r node_s : Ptr) (r r1 : SeekRecord) (pf cf : ℕ) (s : S)
      → seek_loop fuel m key r pf cf ≡ some r1
      → (s1 : S) × (seek_stages set_hp retire base
            (quiet_stages fuel)
            key
            node_r
            node_s
            (going r pf cf)
            (m, s)
          ≡ some (r1, (m, s1)))
        × (f s1 ≡ f s)
  unfolding seek_stages seek_loop
  stages-agree zero m key node_r node_s r r1 pf cf s e = absurd (grind arith)
  stages-agree (suc fuel) m key node_r node_s r r1 pf cf s e =
      let current = address cf in
      let field = child m current (side key (m current).key) in
      let s2 = assign_hp set_hp retire base (address field) 4 (
        assign_hp set_hp retire base (address field) 5
          (assign_record set_hp retire base r pf current s)) in
      let step = λ (b : Bool).
        (if b then some r else seek_loop fuel m key (advance r pf current) cf field) ≡ some r1 in
      elim (Bool-cases (current == null)) [
        | inl ended ↦ (
          s,
          rw ended (ap (elim [ none ↦ none | some x ↦ some (x, (m, s)) ]) (subst step ended e)),
          refl,
        )
        | inr more ↦
            let (s1, rest, kept) =
              stages-agree fuel m key node_r node_s (advance r pf current) r1 cf field s2
                (subst step more e) in
            (
              s1,
              rw more (rw (equal_self field) rest),
              kept ∙ (keeps _ _ _ ∙ (keeps _ _ _ ∙ assign_record-keeps r pf current s)),
            )
      ]

  -- The first two stages.
  quiet_start :
      (others : List (Others S)) (m : Heap) (key : ℕ) (node_r node_s : Ptr) (s : S)
      → (let b = address (m node_s).left in
          let r : SeekRecord = record {
            ancestor = node_r;
            successor = node_s;
            parent = node_s;
            leaf = b;
          } in
          (s1 : S) × (seek_stages set_hp retire base
              ((λ w. w) ∷ ((λ w. w) ∷ others))
              key
              node_r
              node_s
              starting
              (m, s)
            ≡ seek_stages set_hp retire base others key node_r node_s
                (going r (m node_s).left (m b).left)
                (m, s1))
          × (f s1 ≡ f s))
  unfolding seek_stages
  quiet_start others m key node_r node_s s =
      let b = address (m node_s).left in
      let current = address (m b).left in
      let put_hp = assign_hp set_hp retire base in
      let s0 =
        put_hp b 3
          (put_hp (address node_s) 2 (put_hp (address node_s) 1 (put_hp (address node_r) 0 s))) in
      let r : SeekRecord = record {
        ancestor = node_r;
        successor = node_s;
        parent = node_s;
        leaf = b;
      } in
      let here = going r (m node_s).left (m b).left in
      let s1 = put_hp current 4 s0 in
      (
        s1,
        ap
              (λ c.
                seek_stages set_hp retire base ((λ w. w) ∷ others) key node_r node_s
                  (if c then leafed b else starting) (m, s0))
              (equal_self b)
            ∙ ap
                (λ c.
                  seek_stages set_hp retire base others key node_r node_s
                    (if c then here else starting) (m, s1))
                (equal_self current),
        keeps _ _ _ ∙ (keeps _ _ _ ∙ (keeps _ _ _ ∙ (keeps _ _ _ ∙ keeps _ _ _))),
      )

  pub bst_seek-quiet :
      (fuel : ℕ) (m : Heap) (key : ℕ) (node_r node_s : Ptr) (t : Tree) (s : S)
      → IsRooted m node_r node_s t
      → key < inf0
      → inner t < fuel
      → (s1 : S) × (bst_seek set_hp retire base (quiet_stages (suc (suc fuel))) key node_r (m, s)
          ≡ some (arrive m key (start node_r node_s t) t, (m, s1)))
        × (f s1 ≡ f s)
  unfolding bst_seek Bst.bst_seek
  bst_seek-quiet fuel m key node_r node_s t s h below lt =
      let r = arrive m key (start node_r node_s t) t in
      let at = address (m node_r).left in
      let b = address (m at).left in
      let r0 : SeekRecord = record { ancestor = node_r; successor = at; parent = at; leaf = b } in
      let (s1, begun, same1) = quiet_start (quiet_stages fuel) m key node_r at s in
      let (s2, rest, same2) =
        stages-agree fuel m key node_r at r0 r (m at).left (m b).left s1
          (bst_seek-arrive m key node_r node_s t fuel h below lt) in
      (s2, begun ∙ rest, same2 ∙ same1)

  -- While no other thread acts, `bst_search` with hazard pointers in a tree with no edge flagged or tagged
  -- comes back after two more stages than the fuel of the plain search, with the lookup of the key in the
  -- tree, and leaves the tree's heap as it was, and all of the scheme's state that a store of a hazard
  -- pointer does not change.
  pub bst_search-quiet :
      (fuel : ℕ) (m : Heap) (key : ℕ) (node_r node_s : Ptr) (t : Tree) (s : S)
      → IsRooted m node_r node_s t
      → key < inf0
      → inner t < fuel
      → (s1 : S) × (bst_search set_hp retire base (quiet_stages (suc (suc fuel))) key node_r (m, s)
          ≡ some (lookup m key t, (m, s1)))
        × (f s1 ≡ f s)
  unfolding bst_search
  bst_search-quiet fuel m key node_r node_s t s h below lt =
      let (s1, e, same) = bst_seek-quiet fuel m key node_r node_s t s h below lt in
      let reads = arrive-lookup m key (start node_r node_s t) t refl in
      (s1, rw (bst_search, e) (ap (λ v. some (v, (m, s1))) reads), same)
