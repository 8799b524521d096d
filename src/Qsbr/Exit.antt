-- ===== src/Qsbr/Exit.antt =====
-- The end of a thread in src/qsbr.c: `mr_thread_exit` when every other thread has left.
use qsense.Prelude.{
  ℕ, zero, suc, ◌+◌, ◌-◌, ◌*◌, ◌%◌, ◌^◌, ◌<◌, ◌≤◌, ◌≡◌, ◌≢◌, Bool, false, [], arith, ◌==◌,
  Bool-cases, inl, inr, refl, ap, ◌∙◌, occurrences, occurrences-append,
}
use qsense.LockIf.{IsFree}
use qsense.Qsbr.{
  MrNode, QsbrData, Qsbr, n_epochs, Others, is_positive, set_critical, quiescent_pass,
  quiescent_state_fuzzy, exit_loop, mr_thread_exit,
}
use qsense.Qsbr.Pass.{Pass, caught_up, stayed, advanced, Entered, quiescent_pass-Pass}
use qsense.Qsbr.Count.{pending, IsCounted, quiescent_pass-IsCounted, Entered-pending}

-- How far the slot's turn is: the epoch `g` gets to it after as many steps, one to three.
abbrev pub turn : ℕ → ℕ → ℕ
turn g slot = (slot + 2 - g) % 3 + 1

-- The last thread: all others have left, the lock is free.
pub record IsAlone (s : Qsbr) (me : ℕ) : Type 0 where
  pub free : IsFree s.update_lock
  pub left : (i : ℕ) → i < s.nthreads → i ≢ me → (s.qd i).in_critical ≢ 1
  pub counted : IsCounted s

-- Nodes wait only in the slots whose turn comes within `d` steps.
pub record Cleared (s : Qsbr) (me d : ℕ) : Type 0 where
  pub level : (s.qd me).epoch ≡ s.global_epoch
  pub empty : (slot : ℕ) → slot < 3 → d < turn s.global_epoch slot → (s.qd me).limbo_list slot ≡ []

module _ (s : Qsbr) (me : ℕ) (again : Bool) (t : Qsbr) (alone : IsAlone s me) where
  Pass-IsAlone : IsCounted t → Pass s me again t → IsAlone t me
  Pass-IsAlone c (caught_up behind _ l g e) = record {
    free = l alone.free;
    left = λ i lt ne. rw (e.others i ne) (alone.left i (omega (arith, e.size)) ne);
    counted = c;
  }
  Pass-IsAlone c (stayed level _ _ l g same f n) = record {
    free = l alone.free;
    left = λ i lt ne. rw (same i) (alone.left i (omega (arith, n)) ne);
    counted = c;
  }
  Pass-IsAlone c (advanced level _ free all l g e) = record {
    free = l alone.free;
    left = λ i lt ne. rw (e.others i ne) (alone.left i (omega (arith, e.size)) ne);
    counted = c;
  }

  -- Each pass clears one more slot.
  Pass-Cleared : (d : ℕ) → d < 3 → Pass s me again t → Cleared s me (suc d) → Cleared t me d
  Pass-Cleared d few (caught_up behind _ l g e) k = absurd (behind k.level)
  Pass-Cleared d few (stayed level _ stuck l g same f n) k = elim stuck [
    | inl held ↦ absurd (held alone.free)
    | inr (j, lt, ne, c, late) ↦ absurd (alone.left j lt ne c)
  ]
  Pass-Cleared d few (advanced level _ free all l g e) k = record {
    level = omega (arith, g, e.at);
    empty =
        λ slot small far. ground (arith, g, e.slots slot, k.empty slot small, alone.counted.global);
  }

  Pass-first : Pass s me again t → Cleared t me 2
  Pass-first (caught_up behind _ l g e) = record {
    level = omega (arith, g, e.at);
    empty = λ slot small far. ground (arith, g, e.slots slot, alone.counted.global);
  }
  Pass-first (stayed level _ stuck l g same f n) = elim stuck [
    | inl held ↦ absurd (held alone.free)
    | inr (j, lt, ne, c, late) ↦ absurd (alone.left j lt ne c)
  ]
  Pass-first (advanced level _ free all l g e) = record {
    level = omega (arith, g, e.at);
    empty = λ slot small far. ground (arith, g, e.slots slot, alone.counted.global);
  }

  Pass-pending : Pass s me again t → pending (t.qd me) ≤ pending (s.qd me)
  Pass-pending (caught_up behind _ l g e) =
      omega (arith, Entered-pending s t me s.global_epoch alone.counted.global e)
  Pass-pending (stayed level _ stuck l g same f n) = rw (same me) (omega arith)
  Pass-pending (advanced level _ free all l g e) =
      omega (arith, Entered-pending s t me ((s.global_epoch + 1) % n_epochs) (omega arith) e)

-- How often an image stands among the nodes that wait.
abbrev pub waits : (MrNode → ℕ) → ℕ → QsbrData → ℕ
waits f x t =
    occurrences f x (t.limbo_list 0)
    + occurrences f x (t.limbo_list 1)
    + occurrences f x (t.limbo_list 2)

-- What thread `me` has waiting and what is freed, together, are the same.
abbrev IsConserved : Qsbr → ℕ → Qsbr → Type 0
IsConserved s me t =
    (f : MrNode → ℕ) (x : ℕ)
    → occurrences f x t.freed + waits f x (t.qd me) ≡ occurrences f x s.freed + waits f x (s.qd me)

Entered-IsConserved :
    (s t : Qsbr) (me epoch : ℕ) → epoch < 3 → Entered s me epoch t → IsConserved s me t
Entered-IsConserved s t me epoch small e f x = ground (
  arith,
  e.slots 0,
  e.slots 1,
  e.slots 2,
  ap (λ ws. occurrences f x ws) e.freed
      ∙ occurrences-append f x s.freed ((s.qd me).limbo_list epoch),
)

Pass-IsConserved :
    (s : Qsbr) (me : ℕ) (again : Bool) (t : Qsbr)
    → IsCounted s
    → Pass s me again t
    → IsConserved s me t
Pass-IsConserved s me again t c (caught_up behind _ l g e) f x =
    Entered-IsConserved s t me s.global_epoch c.global e f x
Pass-IsConserved s me again t c (stayed level _ stuck l g same r n) f x = rw (r, same me) refl
Pass-IsConserved s me again t c (advanced level _ free all l g e) f x =
    Entered-IsConserved s t me ((s.global_epoch + 1) % n_epochs) (omega arith) e f x

-- `mr_thread_exit`'s rounds, while nobody else is there to act.
abbrev pub nobody : Others
nobody = λ s. s

-- From `s` to `t`, all that waited is freed: nothing waits any more, the count says so, and each
-- wrapper is freed as often as it was, and besides as often as it waited.
pub record IsDrained (s : Qsbr) (me : ℕ) (t : Qsbr) : Type 0 where
  pub none_wait : pending (t.qd me) ≡ 0
  pub none_counted : (t.qd me).rcount ≡ 0
  pub all_freed :
      (f : MrNode → ℕ) (x : ℕ)
      → occurrences f x t.freed ≡ occurrences f x s.freed + waits f x (s.qd me)

-- Where no list has a node, none waits.
waits-none : (t : QsbrData) → pending t ≡ 0 → (f : MrNode → ℕ) (x : ℕ) → waits f x t ≡ 0
waits-none t idle f x =
    let zeroth : t.limbo_list 0 ≡ [] = ground arith in
    let first : t.limbo_list 1 ≡ [] = ground arith in
    let second : t.limbo_list 2 ≡ [] = ground arith in rw (zeroth, first, second) refl

-- What is freed later counts from before a step that loses nothing.
IsDrained-before :
    (s u : Qsbr) (me : ℕ) (t : Qsbr) → IsConserved s me u → IsDrained u me t → IsDrained s me t
IsDrained-before s u me t step d = record {
  none_wait = d.none_wait;
  none_counted = d.none_counted;
  all_freed = λ f x. omega (arith, step f x, d.all_freed f x);
}

Cleared-IsDrained : (s : Qsbr) (me : ℕ) → IsCounted s → Cleared s me 0 → IsDrained s me s
Cleared-IsDrained s me c k =
    let drained : pending (s.qd me) ≡ 0 = ground (
      arith,
      k.empty 0 (omega arith) (omega arith),
      k.empty 1 (omega arith) (omega arith),
      k.empty 2 (omega arith) (omega arith),
    ) in
    record {
      none_wait = drained;
      none_counted = omega (arith, drained, c.counted me);
      all_freed = λ f x. omega (arith, waits-none (s.qd me) drained f x);
    }

-- A count that is not positive is zero while fewer than 2 ^ 31 nodes wait.
idle-IsDrained :
    (s : Qsbr) (me : ℕ)
    → IsCounted s
    → pending (s.qd me) < 2 ^ 31
    → is_positive (s.qd me).rcount ≡ false
    → IsDrained s me s
idle-IsDrained s me c few stop =
    let drained : pending (s.qd me) ≡ 0 = ground (arith, c.counted me) in
    record {
      none_wait = drained;
      none_counted = ground (arith, c.counted me);
      all_freed = λ f x. omega (arith, waits-none (s.qd me) drained f x);
    }

pass-IsConserved : (s : Qsbr) (me : ℕ) → IsAlone s me → IsConserved s me (quiescent_pass s me).1
pass-IsConserved s me alone = Pass-IsConserved s me _ _ alone.counted (quiescent_pass-Pass s me)

pass-IsAlone : (s : Qsbr) (me : ℕ) → IsAlone s me → IsAlone (quiescent_pass s me).1 me
pass-IsAlone s me alone =
    Pass-IsAlone s me _ _ alone (quiescent_pass-IsCounted s me alone.counted)
      (quiescent_pass-Pass s me)

exit_loop-drains :
    (left d : ℕ) (s : Qsbr) (me : ℕ)
    → d ≤ left
    → d ≤ 3
    → IsAlone s me
    → pending (s.qd me) < 2 ^ 31
    → Cleared s me d
    → IsDrained s me (exit_loop left nobody s me)
unfolding exit_loop quiescent_state_fuzzy
exit_loop-drains zero zero s me enough small alone few k = Cleared-IsDrained s me alone.counted k
exit_loop-drains zero (suc d) s me enough small alone few k = elim enough [ ]
exit_loop-drains (suc left) zero s me enough small alone few k =
    let done = Cleared-IsDrained s me alone.counted k in rw done.none_counted done
exit_loop-drains (suc left) (suc d) s me enough small alone few k =
    elim (Bool-cases (is_positive (s.qd me).rcount)) [
      | inl more ↦ rw more (
          IsDrained-before s (quiescent_pass s me).1 me _ (pass-IsConserved s me alone) (
            exit_loop-drains left d (quiescent_pass s me).1 me (omega arith) (omega arith)
              (pass-IsAlone s me alone)
              (omega (arith, Pass-pending s me _ _ alone (quiescent_pass-Pass s me)))
              (Pass-Cleared s me _ _ alone d (omega arith) (quiescent_pass-Pass s me) k)))
      | inr stop ↦ rw stop (idle-IsDrained s me alone.counted few stop)
    ]

-- The state after the first line of `mr_thread_exit`.
set_critical-IsAlone : (s : Qsbr) (me : ℕ) → IsAlone s me → IsAlone (set_critical s me 0) me
set_critical-IsAlone s me alone = record {
  free = alone.free;
  left = λ i lt ne c. ground (arith, alone.left i lt ne);
  counted = record {
    global = alone.counted.global;
    local = λ i. ground (arith, alone.counted.local i);
    counted = λ i. elim (Bool-cases (me == i)) [
      | inl here ↦ ground (arith, alone.counted.counted me)
      | inr other ↦ rw other (alone.counted.counted i)
    ];
  };
}

exit_rounds :
    (left : ℕ) (s : Qsbr) (me : ℕ)
    → 3 ≤ left
    → IsAlone s me
    → pending (s.qd me) < 2 ^ 31
    → IsDrained s me (exit_loop left nobody s me)
unfolding exit_loop quiescent_state_fuzzy
exit_rounds zero s me enough alone few = elim enough [ ]
exit_rounds (suc left) s me enough alone few = elim (Bool-cases (is_positive (s.qd me).rcount)) [
  | inl more ↦ rw more (
      IsDrained-before s (quiescent_pass s me).1 me _ (pass-IsConserved s me alone) (
        exit_loop-drains left 2 (quiescent_pass s me).1 me (omega arith) (omega arith)
          (pass-IsAlone s me alone)
          (omega (arith, Pass-pending s me _ _ alone (quiescent_pass-Pass s me)))
          (Pass-first s me _ _ alone (quiescent_pass-Pass s me))))
  | inr stop ↦ rw stop (idle-IsDrained s me alone.counted few stop)
]

-- Where there are threads, every other one has left its critical section and does nothing, the
-- update lock is free, the epochs are in range, `rcount` is the count of the waiting nodes as a
-- 32-bit pattern for every thread, and fewer than 2 ^ 31 nodes wait for this thread, the rounds of
-- mr_thread_exit suffice: nothing waits, `rcount` is zero, and each wrapper has been freed as often
-- as it was freed or waited for this thread before.
pub mr_thread_exit-drains :
    (s : Qsbr) (me : ℕ)
    → 0 < s.nthreads
    → IsAlone s me
    → pending (s.qd me) < 2 ^ 31
    → IsDrained s me (mr_thread_exit nobody s me)
unfolding mr_thread_exit
mr_thread_exit-drains s me some_thread alone few =
    IsDrained-before s (set_critical s me 0) me _ (λ f x. ground arith)
      (exit_rounds (100 * s.nthreads) (set_critical s me 0) me (omega arith)
        (set_critical-IsAlone s me alone) (ground arith))
