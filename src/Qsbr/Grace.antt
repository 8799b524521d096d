-- ===== src/Qsbr/Grace.antt =====
-- src/qsbr.c as a system of threads: each retires nodes and passes through quiescent states, a call
-- of `free_node_later` or a pass of `quiescent_state` at a time, in any order.
pub mod Inv
pub mod Quiesce
pub mod Safety
use qsense.Prelude.{
  ℕ, zero, suc, ◌+◌, ◌-◌, ◌%◌, ◌^◌, ◌<◌, ◌≤◌, ◌≡◌, ◌≢◌, ◌↔◌, refl, sym, ◌∙◌, ap, Bool, true, false,
  ◌&&◌, ◌||◌, not, List, [], ◌∷◌, ◌++◌, append-nil, append_assoc, arith, ◌==◌, Bool-cases, inl, inr,
  ◌⊎◌, if◌then◌else◌, put, put_self, put_ne, length,
}
use qsense.Qsbr.{
  MrNode, QsbrData, Qsbr, n_epochs, set_critical, quiescent_pass, mr_init_global, link_wrapper,
}
use qsense.Qsbr.Epoch.{AllCurrent}
use qsense.Qsbr.Pass.{Pass, caught_up, stayed, advanced, Entered, quiescent_pass-Pass}

-- Time passes with each step. `quiet i` is the last time at which thread `i` was in a quiescent
-- state; the current global epoch began at `began`, the one before it at `began_before`.
pub record System : Type 0 where
  pub st : Qsbr
  pub now : ℕ
  pub quiet : ℕ → ℕ
  pub began : ℕ
  pub began_before : ℕ

abbrev pub start : ℕ → System
start nthreads = record {
  st = mr_init_global nthreads;
  now = 1;
  quiet = λ i. 0;
  began = 0;
  began_before = 0;
}

-- A wrapper keeps, in the field that this scheme does not use, the time at which its node was retired.
abbrev pub retire : System → (me q address : ℕ) → System
retire s me q address = record s {
  st = link_wrapper s.st me q (record { address = address; actual_node = q; created = s.now });
  now = s.now + 1;
}

abbrev pub after : System → ℕ → Qsbr → System
after s me t = record {
  st = t;
  now = s.now + 1;
  quiet = put s.quiet me s.now;
  began = if t.global_epoch == s.st.global_epoch then s.began else s.now;
  began_before = if t.global_epoch == s.st.global_epoch then s.began_before else s.began;
}

abbrev pub quiesce : System → ℕ → System
quiesce s me = after s me (quiescent_pass s.st me).1

-- The first line of `mr_thread_exit`; the passes of its loop are steps of their own.
abbrev pub leave : System → ℕ → System
leave s me = record s { st = set_critical s.st me 0; now = s.now + 1 }

-- A thread that has left retires nothing.
pub data Step (s : System) : System → Type 0 where
  retires :
      (me q address : ℕ)
      → me < s.st.nthreads
      → (s.st.qd me).in_critical ≡ 1
      → Step s (retire s me q address)
  quiesces : (me : ℕ) → me < s.st.nthreads → Step s (quiesce s me)
  leaves : (me : ℕ) → me < s.st.nthreads → Step s (leave s me)

pub data Reach (nthreads : ℕ) : System → Type 0 where
  initial : Reach nthreads (start nthreads)
  next : {s t : System} → Reach nthreads s → Step s t → Reach nthreads t
