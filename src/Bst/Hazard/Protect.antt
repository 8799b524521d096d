-- ===== src/Bst/Hazard/Protect.antt =====
-- src/bst-aravind-hp/bst-aravind.c: which nodes the hazard pointers of a seek protect, whatever the other
-- threads do.
use qsense.Prelude.{
  ℕ, ◌≡◌, ◌≢◌, subst, Bool, true, false, Option, none, some, List, [], ◌∷◌, arith, ◌==◌,
  if◌then◌else◌, Each, Bool-cases, inl, inr,
}
use qsense.DoubleLlist.{Ptr, null}
use qsense.Bst.{address, side, child, SeekRecord, advance}
use qsense.Bst.Hazard.{
  World, Others, Stage, starting, leafed, going, assign_hp, assign_record, seek_stages, bst_seek,
}
use qsense.Bst.Hazard.Held.{
  address_twice, Respects, IsProtected, IsAligned, stored, assigned, advance-IsAligned, kept,
  respected,
}

module _ {S : Type 0} (set_hp : ℕ → Ptr → S → S) (retire : Ptr → S → S) (base : ℕ)
    (hp : S → ℕ → Ptr) where
  abbrev StageHolds : (node_r node_s : Ptr) → Stage → S → Type 0
  StageHolds node_r node_s starting s = Unit
  StageHolds node_r node_s (leafed b) s =
      let r : SeekRecord = record {
        ancestor = node_r;
        successor = node_s;
        parent = node_s;
        leaf = b;
      } in
      IsProtected set_hp retire base hp r s × (address b ≡ b)
  StageHolds node_r node_s (going r parent_field current_field) s =
      IsProtected set_hp retire base hp r s × IsAligned set_hp retire base hp r

  -- What holds of a seek that comes back.
  abbrev Ensures : Option (SeekRecord × World S) → Type 0
  Ensures none = Unit
  Ensures (some (r, w)) = IsProtected set_hp retire base hp r w.1

  module _ (same : (i : ℕ) (p : Ptr) (s : S) → hp (set_hp i p s) i ≡ p)
      (others_same : (i : ℕ) (p : Ptr) (s : S) (j : ℕ) → j ≢ i → hp (set_hp i p s) j ≡ hp s j) where
    or_starting :
        (node_r node_s : Ptr) (b : Bool) (stage : Stage) (s : S)
        → StageHolds node_r node_s stage s
        → StageHolds node_r node_s (if b then stage else starting) s
    or_starting node_r node_s true stage s h = h
    or_starting node_r node_s false stage s h = tt

    stages-Ensures :
        (others : List (Others S)) (key : ℕ) (node_r node_s : Ptr) (stage : Stage) (w : World S)
        → Each (Respects set_hp retire base hp) others
        → address node_r ≡ node_r
        → address node_s ≡ node_s
        → StageHolds node_r node_s stage w.1
        → Ensures (seek_stages set_hp retire base others key node_r node_s stage w)
    unfolding seek_stages
    stages-Ensures [] key node_r node_s stage w own r_ok s_ok h = tt
    stages-Ensures (other ∷ others) key node_r node_s starting (m, s) (own, rest) r_ok s_ok h =
        let b = address (m node_s).left in
        let put_hp = assign_hp set_hp retire base in
        let w0 : World S = (
          m,
          put_hp b 3
              (put_hp (address node_s) 2 (put_hp (address node_s) 1 (put_hp (address node_r) 0 s))),
        ) in
        let w1 = other w0 in
        let r : SeekRecord = record {
          ancestor = node_r;
          successor = node_s;
          parent = node_s;
          leaf = b;
        } in
        let held =
          stored set_hp retire base hp same others_same node_r (address node_r) node_s
            (address node_s) node_s (address node_s) b s r_ok s_ok s_ok in
        let ok = b == address (w1.0 node_s).left in
        stages-Ensures others key node_r node_s (if ok then leafed b else starting) w1 rest r_ok
          s_ok
          (or_starting node_r node_s ok (leafed b) w1.1 (
            respected set_hp retire base hp same others_same r other w0 own held,
            address_twice (m node_s).left,
          ))
    stages-Ensures (other ∷ others) key node_r node_s (leafed b) (m, s) (own, rest) r_ok s_ok
          (h, b_ok) =
        let r : SeekRecord = record {
          ancestor = node_r;
          successor = node_s;
          parent = node_s;
          leaf = b;
        } in
        let current = address (m b).left in
        let w0 : World S = (m, assign_hp set_hp retire base current 4 s) in
        let w1 = other w0 in
        let ok = current == address (w1.0 b).left in
        let next = going r (m node_s).left (m b).left in
        stages-Ensures others key node_r node_s (if ok then next else starting) w1 rest r_ok s_ok (
          or_starting node_r node_s ok next w1.1 (
            respected set_hp retire base hp same others_same r other w0 own
                (kept set_hp retire base hp same others_same r 4 current s (ground arith) h),
            (r_ok, s_ok, s_ok, b_ok),
          ))
    stages-Ensures (other ∷ others) key node_r node_s (going r pf cf) (m, s) (own, rest) r_ok s_ok
          (h, good) =
        let current = address cf in
        let r1 = advance r pf current in
        let s1 = assign_record set_hp retire base r pf current s in
        let at = side key (m current).key in
        let field = child m current at in
        let w0 : World S = (m, assign_hp set_hp retire base (address field) 5 s1) in
        let w1 = other w0 in
        let s2 = assign_hp set_hp retire base (address field) 4 w1.1 in
        let held1 = respected set_hp retire base hp same others_same r1 other w0 own (
          kept set_hp retire base hp same others_same r1 5 (address field) s1 (ground arith)
            (assigned set_hp retire base hp same others_same r pf current s h good)) in
        elim (Bool-cases (current == null)) [
          | inl ended ↦ rw ended h
          | inr more ↦ elim (Bool-cases (field == child w1.0 current at)) [
            | inl linked ↦ rw more (
                rw linked (
                  stages-Ensures others key node_r node_s (going r1 cf field) (w1.0, s2) rest r_ok
                    s_ok
                    (
                      kept set_hp retire base hp same others_same r1 4 (address field) w1.1
                          (ground arith) held1,
                      advance-IsAligned set_hp retire base hp same others_same r pf cf good,
                    )))
            | inr moved ↦
                rw more
                  (rw moved (stages-Ensures others key node_r node_s starting w1 rest r_ok s_ok tt))
          ]
        ]

    -- Whatever the other threads do to the tree, and as long as they leave this thread's hazard pointers
    -- alone, a seek from an aligned root returns four nodes that its first four hazard pointers hold.
    pub bst_seek-Ensures :
        (others : List (Others S)) (key : ℕ) (node_r : Ptr) (w : World S) (r : SeekRecord)
        (w1 : World S)
        → Each (Respects set_hp retire base hp) others
        → address node_r ≡ node_r
        → bst_seek set_hp retire base others key node_r w ≡ some (r, w1)
        → IsProtected set_hp retire base hp r w1.1
    unfolding bst_seek
    bst_seek-Ensures others key node_r w r w1 own r_ok e = subst Ensures e (
        stages-Ensures others key node_r (address (w.0 node_r).left) starting w own r_ok
          (address_twice (w.0 node_r).left) tt)
