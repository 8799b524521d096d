-- ===== src/Qsbr/Grace/Safety.antt =====
-- The grace period of src/qsbr.c.
use qsense.Prelude.{
  ℕ, ◌+◌, ◌%◌, ◌<◌, ◌≡◌, ◌≢◌, sym, ◌∙◌, Bool, List, [], ◌++◌, append-nil, arith, Each, Each-map,
}
use qsense.Qsbr.{MrNode, Qsbr, n_epochs}
use qsense.Qsbr.Pass.{Pass, caught_up, stayed, advanced, quiescent_pass-Pass}
use qsense.Qsbr.Grace.{System, quiesce, Step, retires, quiesces, leaves, Reach, initial, next}
use qsense.Qsbr.Grace.Inv.{Inv, start-Inv, leave-Inv, retire-Inv}
use qsense.Qsbr.Grace.Quiesce.{after-Inv}

Step-Inv : {s t : System} → Inv s → Step s t → Inv t
Step-Inv {s} inv (retires me q address lt active) = retire-Inv s me q address lt active inv
Step-Inv {s} inv (quiesces me lt) = after-Inv s me _ _ lt inv (quiescent_pass-Pass s.st me)
Step-Inv {s} inv (leaves me lt) = leave-Inv s me inv

pub Reach-Inv : {n : ℕ} {s : System} → Reach n s → Inv s
Reach-Inv {n} initial = start-Inv n
Reach-Inv (next r st) = Step-Inv (Reach-Inv r) st

-- Since the node was retired, each other thread in a critical section has been quiescent.
abbrev pub Expired : System → ℕ → MrNode → Type 0
Expired s me w =
    (i : ℕ) → i < s.st.nthreads → i ≢ me → (s.st.qd i).in_critical ≡ 1 → w.created < s.quiet i

grace_of_Pass :
    (s : System) (me : ℕ) (again : Bool) (t : Qsbr)
    → Inv s
    → Pass s.st me again t
    → (ws : List MrNode) × (t.freed ≡ s.st.freed ++ ws) × Each (Expired s me) ws
grace_of_Pass s me again t inv (caught_up behind _ _ g e) = (
  (s.st.qd me).limbo_list s.st.global_epoch,
  e.freed,
  Each-map _ (λ w k i lt ne c. omega (arith, k.due (omega arith) behind, inv.behind_quiet i lt c))
      (inv.waiting me s.st.global_epoch inv.in_range),
)
grace_of_Pass s me again t inv (stayed level _ _ _ g same f n) =
    ([], f ∙ sym (append-nil s.st.freed), tt)
grace_of_Pass s me again t inv (advanced level _ free all _ g e) = (
  (s.st.qd me).limbo_list ((s.st.global_epoch + 1) % n_epochs),
  e.freed,
  Each-map _
      (λ w k i lt ne c.
        omega (
          arith,
          k.two_ahead (omega (arith, inv.in_range)),
          inv.level_quiet i lt c (all i lt ne c),
        ))
      (inv.waiting me ((s.st.global_epoch + 1) % n_epochs) (omega arith)),
)

-- In every reachable state, each node that a pass of quiescent_state frees was retired before the
-- last quiescent state of every other thread that is in a critical section: a node is freed only
-- after a grace period. The steps are whole calls, in any order, of any number of threads.
pub grace_period :
    {n : ℕ} {s : System}
    → Reach n s
    → (me : ℕ)
    → (ws : List MrNode) × ((quiesce s me).st.freed ≡ s.st.freed ++ ws) × Each (Expired s me) ws
grace_period {s = s} r me = grace_of_Pass s me _ _ (Reach-Inv r) (quiescent_pass-Pass s.st me)
