-- ===== src/Qsbr/Count.antt =====
-- The accounting of src/qsbr.c: `rcount` against the limbo lists.
use qsense.Prelude.{
  ℕ, ◌+◌, ◌%◌, ◌^◌, ◌<◌, ◌≡◌, refl, Bool, true, arith, ◌==◌, Bool-cases, inl, inr, length, ltb,
  lt→ltb,
}
use qsense.Qsbr.{
  MrNode, QsbrData, Qsbr, n_epochs, quiescent_pass, mr_init_global, mr_reinitialize, link_wrapper,
}
use qsense.Qsbr.Pass.{Pass, caught_up, stayed, advanced, Entered, quiescent_pass-Pass}

-- The nodes that wait in the three limbo lists.
abbrev pub pending : QsbrData → ℕ
pending t = length (t.limbo_list 0) + length (t.limbo_list 1) + length (t.limbo_list 2)

-- The epochs are in range, and each count is the number of waiting nodes as a 32-bit pattern.
pub record IsCounted (s : Qsbr) : Type 0 where
  pub global : s.global_epoch < n_epochs
  pub local : (i : ℕ) → (s.qd i).epoch < n_epochs
  pub counted : (i : ℕ) → (s.qd i).rcount ≡ pending (s.qd i) % 2 ^ 32

pub mr_init_global-IsCounted : (n : ℕ) → IsCounted (mr_init_global n)
unfolding mr_init_global
mr_init_global-IsCounted n = record {
  global = omega arith;
  local = λ i. omega arith;
  counted = λ i. omega arith;
}

link_wrapper-counted :
    (s : Qsbr) (me q : ℕ) (w : MrNode) (e : ℕ)
    → (s.qd me).epoch ≡ e
    → e < 3
    → pending ((link_wrapper s me q w).qd me) ≡ pending (s.qd me) + 1
unfolding link_wrapper
link_wrapper-counted s me q w e at small = ground (arith)

-- Handing a node over keeps the counts.
pub link_wrapper-IsCounted :
    (s : Qsbr) (me q : ℕ) (w : MrNode) → IsCounted s → IsCounted (link_wrapper s me q w)
unfolding link_wrapper
link_wrapper-IsCounted s me q w c = record {
  global = c.global;
  local = λ i. ground (arith, c.local i);
  counted = λ i. elim (Bool-cases (me == i)) [
    | inl here ↦
        let me_is : me ≡ i = ground arith in
        ground
          (arith, link_wrapper-counted s me q w (s.qd me).epoch refl (c.local me), c.counted me)
    | inr other ↦ rw other (c.counted i)
  ];
}

module _ (s t : Qsbr) (me epoch : ℕ) (small : epoch < 3) (e : Entered s me epoch t) where
  pub Entered-pending : pending (t.qd me) + length ((s.qd me).limbo_list epoch) ≡ pending (s.qd me)
  Entered-pending = ground (arith, e.slots 0, e.slots 1, e.slots 2)

  Entered-IsCounted : IsCounted s → t.global_epoch < 3 → IsCounted t
  Entered-IsCounted c g = record {
    global = g;
    local = λ i. ground (arith, e.at, e.others i, c.local i);
    counted = λ i. elim (Bool-cases (i == me)) [
      | inl here ↦ ground (arith, e.count, c.counted me, Entered-pending)
      | inr other ↦ rw (e.others i (ground arith)) (c.counted i)
    ];
  }

Pass-IsCounted :
    (s t : Qsbr) (me : ℕ) (again : Bool) → Pass s me again t → IsCounted s → IsCounted t
Pass-IsCounted s t me again (caught_up behind _ _ g e) c =
    Entered-IsCounted s t me s.global_epoch c.global e c (omega (arith, g, c.global))
Pass-IsCounted s t me again (stayed level _ _ _ g same f n) c = record {
  global = omega (arith, g, c.global);
  local = λ i. rw (same i) (c.local i);
  counted = λ i. rw (same i) (c.counted i);
}
Pass-IsCounted s t me again (advanced level _ free all _ g e) c =
    Entered-IsCounted s t me _ (omega arith) e c (omega (arith, g))

-- A pass of quiescent_state keeps the counts.
pub quiescent_pass-IsCounted : (s : Qsbr) (me : ℕ) → IsCounted s → IsCounted (quiescent_pass s me).1
quiescent_pass-IsCounted s me c = Pass-IsCounted s _ me _ (quiescent_pass-Pass s me) c

-- mr_reinitialize zeroes the counts and keeps the limbo lists: whenever a thread has nodes waiting,
-- fewer than 2 ^ 32 of them, the counts are wrong afterwards.
pub mr_reinitialize_miscounts :
    (s : Qsbr) (i : ℕ)
    → i < s.nthreads
    → 0 < pending (s.qd i)
    → pending (s.qd i) < 2 ^ 32
    → ¬ (IsCounted (mr_reinitialize s))
unfolding mr_reinitialize
mr_reinitialize_miscounts s i lt some_wait few c =
    let in_array : ltb i s.nthreads ≡ true = lt→ltb i s.nthreads lt in
    let zero_count : 0 ≡ pending (s.qd i) % 2 ^ 32 = ground (arith, in_array, c.counted i) in
    omega arith
