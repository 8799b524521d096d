-- ===== src/Qsbr/Pass.antt =====
-- src/qsbr.c: what one pass of `quiescent_state` does on each of its branches.
use native.Mathlib.Decide.{ℕ_discrete}
use qsense.Prelude.{
  ℕ, ◌+◌, ◌-◌, ◌%◌, ◌^◌, ◌<◌, ◌≡◌, ◌≢◌, refl, sym, ◌∙◌, ap, Bool, true, false, List, [], ◌∷◌, ◌++◌,
  append-nil, append_assoc, arith, ◌==◌, Bool-cases, inl, inr, ◌⊎◌, if◌then◌else◌, length,
}
use qsense.LockIf.{IsFree, ticket_trylock-IsFree}
use qsense.Qsbr.{
  MrNode, QsbrData, Qsbr, n_epochs, update_epoch, free_all, process_callbacks, enter_epoch,
  set_critical, quiescent_pass,
}
use qsense.Qsbr.Epoch.{
  AllCurrent, relocked, late, moved_on, update_epoch-held, update_epoch-late, update_epoch-moves,
  held_back-current, held_back-late,
}

free_all-append :
    (ws done : List MrNode) (num : ℕ)
    → num < 2 ^ 64
    → ((free_all ws done num).0 ≡ done ++ ws)
      × ((free_all ws done num).1 ≡ (num + length ws) % 2 ^ 64)
unfolding free_all
free_all-append [] done num h = (sym (append-nil done), omega arith)
free_all-append (w ∷ ws) done num h =
    let (f, c) = free_all-append ws (done ++ w ∷ []) ((num + 1) % 2 ^ 64) (omega arith) in
    (f ∙ append_assoc done (w ∷ []) ws, omega (arith, c))

-- Thread `me` has gone from `s` to `t` by entering `epoch`: the nodes in that slot are freed, in
-- their order, and nothing else of the threads' data changes but the epoch and the count.
pub record Entered (s : Qsbr) (me epoch : ℕ) (t : Qsbr) : Type 0 where
  pub slots : (j : ℕ) → (t.qd me).limbo_list j ≡ (if epoch == j then [] else (s.qd me).limbo_list j)
  pub at : (t.qd me).epoch ≡ epoch
  pub critical : (t.qd me).in_critical ≡ (s.qd me).in_critical
  pub count :
      (t.qd me).rcount
      ≡ ((s.qd me).rcount + 2 ^ 32 - length ((s.qd me).limbo_list epoch) % 2 ^ 32) % 2 ^ 32
  pub others : (i : ℕ) → i ≢ me → t.qd i ≡ s.qd i
  pub freed : t.freed ≡ s.freed ++ (s.qd me).limbo_list epoch
  pub size : t.nthreads ≡ s.nthreads

enter_epoch-Entered : (s : Qsbr) (me epoch : ℕ) → Entered s me epoch (enter_epoch s me epoch)
unfolding enter_epoch process_callbacks
enter_epoch-Entered s me epoch =
    let (f, c) = free_all-append ((s.qd me).limbo_list epoch) s.freed 0 (omega arith) in
    let wrapped : (free_all ((s.qd me).limbo_list epoch) s.freed 0).1 % 2 ^ 32
        ≡ length ((s.qd me).limbo_list epoch) % 2 ^ 32 =
      omega (arith, c) in
    record {
      slots = λ j. ground arith;
      at = ground arith;
      critical = ground arith;
      count = ground (arith, wrapped);
      others = λ i ne. ground arith;
      freed = f;
      size = refl;
    }

-- Why the epoch cannot move on: the lock is held, or another thread in a critical section lags.
abbrev pub Stuck : Qsbr → ℕ → Type 0
Stuck s me =
    ¬ (IsFree s.update_lock)
    ⊎ ((j : ℕ) × (j < s.nthreads)
        × (j ≢ me)
        × ((s.qd j).in_critical ≡ 1)
        × ((s.qd j).epoch ≢ s.global_epoch))

-- The lock is as free as it was.
abbrev pub Relocked : Qsbr → Qsbr → Type 0
Relocked s t = IsFree s.update_lock → IsFree t.update_lock

-- The three ways in which a pass of `quiescent_state` by `me` can go.
pub data Pass (s : Qsbr) (me : ℕ) (again : Bool) (t : Qsbr) : Type 0 where
  caught_up :
      (s.qd me).epoch ≢ s.global_epoch
      → again ≡ false
      → Relocked s t
      → t.global_epoch ≡ s.global_epoch
      → Entered s me s.global_epoch t
      → Pass s me again t
  stayed :
      (s.qd me).epoch ≡ s.global_epoch
      → again ≡ true
      → Stuck s me
      → Relocked s t
      → t.global_epoch ≡ s.global_epoch
      → ((i : ℕ) → t.qd i ≡ s.qd i)
      → t.freed ≡ s.freed
      → t.nthreads ≡ s.nthreads
      → Pass s me again t
  advanced :
      (s.qd me).epoch ≡ s.global_epoch
      → again ≡ false
      → IsFree s.update_lock
      → AllCurrent s me
      → Relocked s t
      → t.global_epoch ≡ (s.global_epoch + 1) % n_epochs
      → Entered s me ((s.global_epoch + 1) % n_epochs) t
      → Pass s me again t

Entered-from :
    (s' s : Qsbr) (me epoch : ℕ) (t : Qsbr)
    → ((i : ℕ) → s'.qd i ≡ s.qd i)
    → s'.freed ≡ s.freed
    → s'.nthreads ≡ s.nthreads
    → Entered s' me epoch t
    → Entered s me epoch t
Entered-from s' s me epoch t same f n e = record {
  slots = λ j. ground (arith, e.slots j, same me);
  at = e.at;
  critical = ground (arith, e.critical, same me);
  count = ground (arith, e.count, same me);
  others = λ i ne. e.others i ne ∙ same i;
  freed = ground (arith, e.freed, f, same me);
  size = e.size ∙ n;
}

module _ (s : Qsbr) (me : ℕ) (level : (s.qd me).epoch ≡ s.global_epoch) where
  abbrev idle : Qsbr
  idle = set_critical s me 0

  -- The state before the last test, with `in_critical` restored.
  abbrev back : Qsbr → Qsbr
  back t = set_critical t me (s.qd me).in_critical

  back-threads : (t : Qsbr) → t.qd ≡ idle.qd → (i : ℕ) → (back t).qd i ≡ s.qd i
  back-threads t e i = rw e (ground arith)

  pass-stayed :
      (t : Qsbr) → update_epoch idle me ≡ (false, t) → quiescent_pass s me ≡ (true, back t)
  unfolding quiescent_pass
  pass-stayed t u =
      let here : ((s.qd me).epoch == s.global_epoch) ≡ true = ground (arith, level) in rw (here, u)

  pass-advanced :
      (t : Qsbr)
      → update_epoch idle me ≡ (true, t)
      → t.global_epoch ≢ s.global_epoch
      → t.qd ≡ idle.qd
      → quiescent_pass s me ≡ (false, enter_epoch (back t) me t.global_epoch)
  unfolding quiescent_pass
  pass-advanced t u ne e =
      let here : ((s.qd me).epoch == s.global_epoch) ≡ true = ground (arith, level) in
      let held : ((back t).qd me).epoch ≡ s.global_epoch =
        ap (λ (d : QsbrData). d.epoch) (back-threads t e me) ∙ level in
      let moved : (((back t).qd me).epoch == t.global_epoch) ≡ false = ground arith in
      rw (here, u) (rw moved)

  -- From `back t` the slot is entered as from `s`.
  back-Entered :
      (t : Qsbr) (epoch : ℕ)
      → t.qd ≡ idle.qd
      → t.freed ≡ s.freed
      → t.nthreads ≡ s.nthreads
      → Entered s me epoch (enter_epoch (back t) me epoch)
  back-Entered t epoch e f n =
      Entered-from (back t) s me epoch (enter_epoch (back t) me epoch) (back-threads t e) f n
        (enter_epoch-Entered (back t) me epoch)

enter_epoch-global :
    (s : Qsbr) (me epoch : ℕ) → (enter_epoch s me epoch).global_epoch ≡ s.global_epoch
unfolding enter_epoch process_callbacks
enter_epoch-global s me epoch = refl

enter_epoch-lock : (s : Qsbr) (me epoch : ℕ) → (enter_epoch s me epoch).update_lock ≡ s.update_lock
unfolding enter_epoch process_callbacks
enter_epoch-lock s me epoch = refl

pass-behind :
    (s : Qsbr) (me : ℕ)
    → (s.qd me).epoch ≢ s.global_epoch
    → quiescent_pass s me ≡ (false, enter_epoch s me s.global_epoch)
unfolding quiescent_pass
pass-behind s me behind =
    let there : ((s.qd me).epoch == s.global_epoch) ≡ false = ground arith in rw there

others-current :
    (s : Qsbr) (me : ℕ) (level : (s.qd me).epoch ≡ s.global_epoch)
    → late (idle s me level) me ≡ false
    → AllCurrent s me
others-current s me level l j lt ne c =
    let same : (idle s me level).qd j ≡ s.qd j = ground arith in
    let now =
      held_back-current (idle s me level).qd s.global_epoch me s.nthreads 0 l j (omega arith)
        (omega arith) ne (ground (arith, same)) in
    ground (arith, same, now)

others-late :
    (s : Qsbr) (me : ℕ) (level : (s.qd me).epoch ≡ s.global_epoch)
    → late (idle s me level) me ≡ true
    → Stuck s me
others-late s me level l =
    let (j, lt, ne, c, e) = held_back-late (idle s me level).qd s.global_epoch me s.nthreads 0 l in
    let same : (idle s me level).qd j ≡ s.qd j = ground arith in
    inr (j, omega arith, ne, ground (arith, same), ground (arith, same))

Pass-level :
    (s : Qsbr) (me : ℕ)
    → (s.qd me).epoch ≡ s.global_epoch
    → Pass s me (quiescent_pass s me).0 (quiescent_pass s me).1
Pass-level s me level =
    let i = idle s me level in
    let kept : Qsbr = record i { update_lock = relocked s.update_lock } in
    elim (ℕ_discrete s.update_lock.ticket s.update_lock.curr) [
      | no h ↦ rw (pass-stayed s me level i (update_epoch-held i me h)) (
          Pass.stayed level refl (inl h) (λ free. free) refl (back-threads s me level i refl) refl
            refl)
      | yes h ↦ elim (Bool-cases (late i me)) [
        | inl l ↦ rw (pass-stayed s me level kept (update_epoch-late i me h l)) (
            Pass.stayed level refl (others-late s me level l)
              (λ free. (ticket_trylock-IsFree s.update_lock free).1) refl
              (back-threads s me level kept refl) refl refl)
        | inr l ↦
            rw
              (pass-advanced s me level (moved_on i) (update_epoch-moves i me h l) (omega arith)
                refl)
              (Pass.advanced level refl h (others-current s me level l)
                (λ free.
                  rw (enter_epoch-lock (back s me level (moved_on i)) me (moved_on i).global_epoch)
                    ((ticket_trylock-IsFree s.update_lock free).1))
                (enter_epoch-global (back s me level (moved_on i)) me (moved_on i).global_epoch)
                (back-Entered s me level (moved_on i) _ refl refl refl))
      ]
    ]

-- One pass of `quiescent_state` catches up with the epoch, stays, or moves the epoch on and enters it.
pub quiescent_pass-Pass :
    (s : Qsbr) (me : ℕ) → Pass s me (quiescent_pass s me).0 (quiescent_pass s me).1
quiescent_pass-Pass s me = elim (ℕ_discrete (s.qd me).epoch s.global_epoch) [
  | yes level ↦ Pass-level s me level
  | no behind ↦
      let e = enter_epoch-Entered s me s.global_epoch in
      rw (pass-behind s me behind) (
        Pass.caught_up behind refl (λ free. rw (enter_epoch-lock s me s.global_epoch) free)
          (enter_epoch-global s me s.global_epoch) e)
]
