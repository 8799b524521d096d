-- ===== src/Hybrid/Fallback.antt =====
-- src/hybrid_optimized.c: runs of several threads' calls, and who has been present when the fallback
-- ends.
use qsense.Prelude.{
  ℕ, zero, suc, ◌+◌, ◌<◌, ◌≤◌, ◌≡◌, ◌≢◌, refl, ◌∙◌, sym, subst, ap, Bool, true, false, ◌||◌, List,
  [], ◌∷◌, arith, ◌==◌, Bool-cases, and_false, inl, inr, put, put_ne,
}
use qsense.Hybrid.State.{TimeVal, MrNode, Hybrid, switch_threshold}
use qsense.Hybrid.Quiescence.{quiescent_state}
use qsense.Hybrid.Hazards.{scan, free_node_later, assign_hp}
use qsense.Hybrid.Modes.{
  allocate_fail, none_absent, all_threads_present, manage_hybrid_state, reset_presence,
}
use qsense.Hybrid.Switch.{
  SameMode, quiescent_state-SameMode, scan-SameMode, free_node_later-SameMode, arrived,
  manage_hybrid_state-Managed, allocate_fail-Failed,
}

-- A call of thread `me`, or of a sleeper thread.
pub data Event : Type 0 where
  manage : (me : ℕ) → Event
  allocation_failed : (me trials : ℕ) → (MrNode → TimeVal) → Event
  retire : (me wrapper q : ℕ) → TimeVal → (MrNode → TimeVal) → Event
  protect : (me target hp_index : ℕ) → Event
  quiesce : (me : ℕ) → Event
  sweep_all : (me : ℕ) → (MrNode → TimeVal) → Event
  reset : Event

abbrev pub perform : Event → Hybrid → Hybrid
perform (manage me) s = manage_hybrid_state s me
perform (allocation_failed me trials clock) s = allocate_fail clock s me trials
perform (retire me wrapper q now clock) s = free_node_later clock s me wrapper q now
perform (protect me target hp_index) s = assign_hp s me target hp_index
perform (quiesce me) s = quiescent_state s me
perform (sweep_all me clock) s = scan clock s me
perform reset s = reset_presence s

-- The events of a run, the latest first.
abbrev pub run : List Event → Hybrid → Hybrid
run [] s = s
run (e ∷ es) s = perform e (run es s)

-- Thread `i` has called manage_hybrid_state, and the presence flags have not been reset since.
abbrev pub been_present : List Event → ℕ → Bool
been_present [] i = false
been_present (manage me ∷ es) i = (me == i) || been_present es i
been_present (reset ∷ es) i = false
been_present (e ∷ es) i = been_present es i

none_absent-present :
    (present : ℕ → ℕ) (n i : ℕ)
    → none_absent present n i ≡ true
    → (j : ℕ) → i ≤ j
    → j < i + n
    → present j ≢ 0
unfolding none_absent
none_absent-present present zero i h j lo hi = absurd (omega arith)
none_absent-present present (suc n) i h j lo hi = elim (Bool-cases (i == j)) [
  | inl here ↦ ground arith
  | inr later ↦ none_absent-present present n (i + 1) (ground arith) j (ground arith) (omega arith)
]

-- The flags of a thread that has not been present are down.
Tracked : ℕ → List Event → Hybrid → Type 0
Tracked n es s =
    (s.nthreads ≡ n) × ((i : ℕ) → i < n → been_present es i ≡ false → s.is_present_vect i ≡ 0)

SameMode-Tracked :
    (n : ℕ) (es : List Event) (s t : Hybrid) → SameMode s t → Tracked n es s → Tracked n es t
unfolding Tracked
SameMode-Tracked n es s t m (size, flags) =
    (m.same_size ∙ size, λ i lt h. ap (λ v. v i) m.same_presence ∙ flags i lt h)

perform-Tracked :
    (n : ℕ) (e : Event) (es : List Event) (s : Hybrid)
    → Tracked n es s
    → Tracked n (e ∷ es) (perform e s)
unfolding Tracked reset_presence assign_hp
perform-Tracked n (manage me) es s (size, flags) =
    let m = manage_hybrid_state-Managed s me in
    (
      m.size ∙ size,
      λ i lt h. elim (Bool-cases (me == i)) [
        | inl mine ↦ absurd (ground arith)
        | inr other ↦
            ap (λ v. v i) m.presence
            ∙ put_ne s.is_present_vect me 1 i (ground arith)
            ∙ flags i lt (ground arith)
      ],
    )
perform-Tracked n (allocation_failed me trials clock) es s (size, flags) =
    let f = allocate_fail-Failed clock s me trials in
    (f.size ∙ size, λ i lt h. ap (λ v. v i) f.presence ∙ flags i lt h)
perform-Tracked n (retire me wrapper q now clock) es s h =
    SameMode-Tracked n es s _ (free_node_later-SameMode clock s me wrapper q now) h
perform-Tracked n (protect me target hp_index) es s (size, flags) = (size, λ i lt h. flags i lt h)
perform-Tracked n (quiesce me) es s h = SameMode-Tracked n es s _ (quiescent_state-SameMode s me) h
perform-Tracked n (sweep_all me clock) es s h =
    SameMode-Tracked n es s _ (scan-SameMode clock s me) h
perform-Tracked n reset es s (size, flags) = (size, λ i lt h. ground arith)

run-Tracked :
    (n : ℕ) (s : Hybrid) (es : List Event)
    → s.nthreads ≡ n
    → ((i : ℕ) → i < n → s.is_present_vect i ≡ 0)
    → Tracked n es (run es s)
unfolding Tracked
run-Tracked n s [] size down = (size, λ i lt h. down i lt)
run-Tracked n s (e ∷ es) size down =
    perform-Tracked n e es (run es s) (run-Tracked n s es size down)

-- The fallback ends only by a manage_hybrid_state that finds all threads present.
ending :
    (e : Event) (s : Hybrid)
    → s.fallback_flag ≡ 1
    → (perform e s).fallback_flag ≡ 0
    → (me : ℕ) × (e ≡ manage me) × (all_threads_present (arrived s me) ≡ true)
unfolding reset_presence assign_hp
ending (manage me) s on off =
    let m = manage_hybrid_state-Managed s me in
    elim (Bool-cases (all_threads_present (arrived s me))) [
      | inl everyone ↦ (me, refl, everyone)
      | inr some_absent ↦
          let stays : (manage_hybrid_state s me).fallback_flag ≡ s.fallback_flag =
            m.flag ∙ rw some_absent (rw (and_false _) refl) in
          absurd (omega (arith, stays))
    ]
ending (allocation_failed me trials clock) s on off =
    let f = allocate_fail-Failed clock s me trials in absurd (ground (arith, f.flag))
ending (retire me wrapper q now clock) s on off =
    let m = free_node_later-SameMode clock s me wrapper q now in absurd (omega (arith, m.same_flag))
ending (protect me target hp_index) s on off = absurd (omega arith)
ending (quiesce me) s on off =
    let m = quiescent_state-SameMode s me in absurd (omega (arith, m.same_flag))
ending (sweep_all me clock) s on off =
    let m = scan-SameMode clock s me in absurd (omega (arith, m.same_flag))
ending reset s on off = absurd (omega arith)

-- When the fallback ends, every thread has called manage_hybrid_state since the presence flags were
-- last reset, in any run of the threads' calls from a state in which the flags are down.
pub fallback_end :
    (s : Hybrid)
    → ((i : ℕ) → i < s.nthreads → s.is_present_vect i ≡ 0)
    → (es : List Event) (e : Event) → (run es s).fallback_flag ≡ 1
    → (run (e ∷ es) s).fallback_flag ≡ 0
    → (i : ℕ) → i < s.nthreads
    → been_present (e ∷ es) i ≡ true
unfolding Tracked all_threads_present
fallback_end s down es e on off i lt =
    let t = run es s in
    let (me, is_manage, everyone) = ending e t on off in
    let (size, flags) = run-Tracked s.nthreads s es refl down in
    let up : put t.is_present_vect me 1 i ≢ 0 =
      none_absent-present (put t.is_present_vect me 1) t.nthreads 0 everyone i (omega arith)
        (omega (arith, size)) in
    subst (λ x. been_present (x ∷ es) i ≡ true) (sym is_manage)
      (elim (Bool-cases (me == i)) [
        | inl mine ↦ rw mine refl
        | inr other ↦ elim (Bool-cases (been_present es i)) [
          | inl was ↦ rw other was
          | inr was_not ↦
              absurd (up (put_ne t.is_present_vect me 1 i (ground arith) ∙ flags i lt was_not))
        ]
      ])

-- The fallback begins only by an allocate_fail after at least `switch_threshold` trials, in a thread
-- that has already left the last fallback.
pub fallback_begin :
    (s : Hybrid) (e : Event)
    → s.fallback_flag ≡ 0
    → (perform e s).fallback_flag ≢ 0
    → (me trials : ℕ) × (clock : MrNode → TimeVal) × (e ≡ allocation_failed me trials clock)
      × (switch_threshold ≤ trials)
      × ((s.td me).last_flag ≢ 1)
unfolding reset_presence assign_hp
fallback_begin s (manage me) off on =
    let m = manage_hybrid_state-Managed s me in absurd (ground (arith, m.flag))
fallback_begin s (allocation_failed me trials clock) off on =
    let f = allocate_fail-Failed clock s me trials in
    (me, trials, clock, refl, ground (arith, f.flag), ground (arith, f.flag))
fallback_begin s (retire me wrapper q now clock) off on =
    let m = free_node_later-SameMode clock s me wrapper q now in absurd (on (m.same_flag ∙ off))
fallback_begin s (protect me target hp_index) off on = absurd (on off)
fallback_begin s (quiesce me) off on =
    let m = quiescent_state-SameMode s me in absurd (on (m.same_flag ∙ off))
fallback_begin s (sweep_all me clock) off on =
    let m = scan-SameMode clock s me in absurd (on (m.same_flag ∙ off))
fallback_begin s reset off on = absurd (on off)
