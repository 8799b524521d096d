-- ===== src/Qsbr/Grace/Quiesce.antt =====
-- A pass of `quiescent_state` in src/qsbr.c keeps the invariant.
use qsense.Prelude.{
  ℕ, ◌+◌, ◌%◌, ◌<◌, ◌≡◌, ◌≢◌, refl, ap, Bool, ◌&&◌, [], arith, ◌==◌, Bool-cases, inl, inr,
  if◌then◌else◌, Each, Each-map,
}
use qsense.Qsbr.{MrNode, QsbrData, Qsbr, n_epochs}
use qsense.Qsbr.Epoch.{AllCurrent}
use qsense.Qsbr.Pass.{Pass, caught_up, stayed, advanced, Entered}
use qsense.Qsbr.Grace.{System, after}
use qsense.Qsbr.Grace.Inv.{Waits, Inv, Waits-keep, Waits-advance}

module _ (s t : Qsbr) (me epoch : ℕ) (e : Entered s me epoch t) (i : ℕ) where
  pub Entered-epoch : (t.qd i).epoch ≡ (if i == me then epoch else (s.qd i).epoch)
  Entered-epoch = ground (arith, e.others i)

  pub Entered-critical : (t.qd i).in_critical ≡ (s.qd i).in_critical
  Entered-critical = elim (Bool-cases (i == me)) [
    | inl here ↦ ground arith
    | inr other ↦ ap (λ (d : QsbrData). d.in_critical) (e.others i (ground arith))
  ]

  pub Entered-list :
      (slot : ℕ)
      → (t.qd i).limbo_list slot
        ≡ (if (i == me) && (epoch == slot) then [] else (s.qd i).limbo_list slot)
  Entered-list slot = elim (Bool-cases (i == me)) [
    | inl here ↦ ground (arith, e.slots slot)
    | inr other ↦ rw (e.others i (ground arith), other)
  ]

  -- What holds of the nodes in the slots that thread `me` did not empty.
  pub Entered-Each :
      (P : MrNode → Type 0) (slot : ℕ)
      → Each P ((s.qd i).limbo_list slot)
      → Each P ((t.qd i).limbo_list slot)
  Entered-Each P slot h = elim (Bool-cases ((i == me) && (epoch == slot))) [
    | inl emptied ↦ rw (Entered-list slot, emptied) tt
    | inr kept ↦ rw (Entered-list slot, kept) h
  ]

module _ (s : System) (me : ℕ) (t : Qsbr) (again : Bool) (me_lt : me < s.st.nthreads)
    (inv : Inv s) where
  abbrev s' : System
  s' = after s me t

  abbrev next_epoch : ℕ
  next_epoch = (s.st.global_epoch + 1) % n_epochs

  caught_up-Inv :
      (s.st.qd me).epoch ≢ s.st.global_epoch
      → t.global_epoch ≡ s.st.global_epoch
      → Entered s.st me s.st.global_epoch t
      → Inv s'
  caught_up-Inv behind g e = record {
    in_range = omega (arith, g, inv.in_range);
    epochs = λ i.
        ground (arith, Entered-epoch s.st t me s.st.global_epoch e i, inv.epochs i, inv.in_range);
    ordered = ground (arith, inv.ordered, g);
    near = λ i lt c. ground (
      arith,
      e.size,
      Entered-critical s.st t me s.st.global_epoch e i,
      Entered-epoch s.st t me s.st.global_epoch e i,
      inv.near i,
    );
    level_quiet = λ i lt c e'. ground (
      arith,
      g,
      inv.ordered,
      e.size,
      Entered-critical s.st t me s.st.global_epoch e i,
      Entered-epoch s.st t me s.st.global_epoch e i,
      inv.level_quiet i,
    );
    behind_quiet = λ i lt c. ground (
      arith,
      g,
      inv.ordered,
      e.size,
      Entered-critical s.st t me s.st.global_epoch e i,
      Entered-epoch s.st t me s.st.global_epoch e i,
      inv.behind_quiet i,
    );
    waiting = λ i slot small. Entered-Each s.st t me s.st.global_epoch e i (Waits s' i slot) slot (
        Each-map ((s.st.qd i).limbo_list slot)
          (λ w.
            Waits-keep s s' i slot w (omega arith) g (ground arith) (ground arith)
              (elim (Bool-cases (i == me)) [
                | inl here ↦ inr (ground (arith, g, e.at))
                | inr other ↦ inl (ap (λ (d : QsbrData). d.epoch) (e.others i (ground arith)))
              ]))
          (inv.waiting i slot small));
  }

  stayed-Inv :
      (s.st.qd me).epoch ≡ s.st.global_epoch
      → t.global_epoch ≡ s.st.global_epoch
      → ((i : ℕ) → t.qd i ≡ s.st.qd i)
      → t.nthreads ≡ s.st.nthreads
      → Inv s'
  stayed-Inv level g same n = record {
    in_range = omega (arith, g, inv.in_range);
    epochs = λ i. rw (same i) (inv.epochs i);
    ordered = ground (arith, inv.ordered, g);
    near = λ i lt c. ground (arith, inv.near i, same i);
    level_quiet = λ i lt c e'. ground (arith, inv.level_quiet i, same i, inv.ordered);
    behind_quiet = λ i lt c. ground (arith, inv.behind_quiet i, same i, inv.ordered);
    waiting = λ i slot small. rw (same i) (
        Each-map ((s.st.qd i).limbo_list slot)
          (λ w.
            Waits-keep s s' i slot w (omega arith) g (ground arith) (ground arith)
              (inl (ap (λ (d : QsbrData). d.epoch) (same i))))
          (inv.waiting i slot small));
  }

  advanced-Inv :
      (s.st.qd me).epoch ≡ s.st.global_epoch
      → AllCurrent s.st me
      → t.global_epoch ≡ (s.st.global_epoch + 1) % n_epochs
      → Entered s.st me ((s.st.global_epoch + 1) % n_epochs) t
      → Inv s'
  advanced-Inv level all g e = record {
    in_range = omega (arith, g);
    epochs = λ i. ground (arith, Entered-epoch s.st t me next_epoch e i, inv.epochs i);
    ordered = ground (arith, inv.ordered, g);
    near = λ i lt c. ground (
      arith,
      g,
      e.size,
      Entered-critical s.st t me next_epoch e i,
      Entered-epoch s.st t me next_epoch e i,
      inv.in_range,
      all i,
    );
    level_quiet = λ i lt c e'. ground (
      arith,
      g,
      inv.ordered,
      e.size,
      Entered-critical s.st t me next_epoch e i,
      Entered-epoch s.st t me next_epoch e i,
      inv.in_range,
      all i,
    );
    behind_quiet = λ i lt c. ground (
      arith,
      g,
      inv.ordered,
      e.size,
      Entered-critical s.st t me next_epoch e i,
      Entered-epoch s.st t me next_epoch e i,
      all i,
      inv.level_quiet i,
    );
    waiting = λ i slot small. Entered-Each s.st t me next_epoch e i (Waits s' i slot) slot (
        Each-map ((s.st.qd i).limbo_list slot)
          (λ w. Waits-advance s s' i slot w inv.in_range small refl g (ground arith) (ground arith))
          (inv.waiting i slot small));
  }

  pub after-Inv : Pass s.st me again t → Inv s'
  after-Inv (caught_up behind _ _ g e) = caught_up-Inv behind g e
  after-Inv (stayed level _ _ _ g same f n) = stayed-Inv level g same n
  after-Inv (advanced level _ free all _ g e) = advanced-Inv level all g e
